-- ===== src/Lib.antt =====
-- nuclei, a scanner that sends the requests of templates to targets and matches the responses. This
-- library models the parts of it that decide: which payloads are sent, which templates run, whether a
-- response matches, what a request reports, and which hosts are skipped.
--
-- How the parts interact: a request draws payloads from an iterator (Generators) and sends one request for
-- each. The response is data, on which the operators (Operators) run the extractors and then the matchers
-- (Matchers), except those on the block list. The values that internal extractors find are handed to later
-- requests by a callback. A failed request is recorded for its host (HostErrors), and a template runs only
-- if the filter lets it (TagFilter). While fuzzing, a parameter that gives nothing too often is left out
-- (Frequency). A workflow runs further templates on the names in a result (Workflows).
--
-- A template's requests are walked with their payloads by a generator (RequestGenerator) and are not sent
-- while they hold variables without a value (Expressions). The template executer (TemplateExecuter) runs
-- them on a target, collects their events and decides what is written. Templates with the same request
-- share it (Clusters). What was done on which target is saved, and a later scan goes on from there (Resume).
--
-- The files, and the code that they are about:
--   Prelude        Boolean tests, lists over native numbers, Go's maps and sets as lists, the functions
--                  of package strings, int, int32, URLs, and the interface of the cache gcache.
--   Generators     pkg/protocols/common/generators/generators.go. Iterator has the state and Total(),
--                  NewIterator() and Reset(); Values has Value() for the three attack types. The other
--                  files prove what a caller is given: Odometer, ClusterLoop, ClusterPass, ClusterTurn,
--                  ClusterReset, ClusterBomb and Enumerate for clusterbomb, PitchFork, BatteringRam, Reset.
--                  Create has New(), with validate.go, load.go and the names of attack_types.go; its
--                  proofs are in Created.
--   RequestGenerator  pkg/protocols/http/request_generator.go: Generator has newGenerator() and
--                  nextValue() over any payload iterator, with the callers' loop. Calls proves what one call
--                  gives, Rounds and Sent what all calls give, Payloads what they give with a clusterbomb.
--   Matchers       pkg/operators/matchers. Types (matchers.go, matchers_types.go), Loops (match.go),
--                  Compile and CompileMatchers (compile.go, validate.go). Verdict has the meaning of a
--                  condition; Words, Patterns, Dsl and Ready have the proofs.
--   Extractors     pkg/operators/extractors: Types (extractor_types.go, util.go), Extract (extract.go),
--                  Compile (compile.go, and Compile() of pkg/operators/operators.go); the proofs are in
--                  Found and Compilation.
--   Operators      pkg/operators/operators.go: Types, Execute and Merge, with MergeMaps() of
--                  pkg/protocols/common/generators/maps.go; ExcludeMatchers is
--                  pkg/protocols/common/utils/excludematchers/excludematchers.go. The proofs are in
--                  Outcome, Extracts, Rounds, MergeOutput and ExcludeMatchers.
--   HostErrors     pkg/protocols/common/hosterrorscache/hosterrorscache.go: Cache, and the proofs in
--                  Counting.
--   Frequency      pkg/fuzz/frequency/tracker.go: Tracker, and the proofs in Counting.
--   TagFilter      pkg/templates/tag_filter.go: Filter has Match(), Config has NewTagFilter(); the proofs
--                  are in Config and Verdict.
--   Workflows      pkg/workflows/workflows.go: Matcher has the matcher of a workflow, Compile() and Match().
--                  pkg/core/workflow_execute.go: Step has runWorkflowStep(); Total has the proofs.
--   TemplateExecuter  pkg/tmplexec: ScanContext (pkg/scan/scan_context.go), Generic (generic/exec.go),
--                  Execute (exec.go, with pkg/protocols/common/helpers/writer/writer.go and WriteFailure()
--                  of pkg/output/output.go); the proofs are in ScanContext and Writes.
--   Clusters       pkg/templates/cluster.go: Requests (which requests may share a cluster, of the
--                  protocols http, dns and ssl), Cluster, Executer and Templates; the proofs are in
--                  Partition, Groups, Uniform, Service, Reports and Templates.
--   Expressions    pkg/protocols/common/expressions/variables.go: Variables, and the proofs in Unresolved.
--   Resume         pkg/types/resume.go and pkg/core/executors.go: Info, Targets; Progress has the runs of
--                  a template on its targets as a step relation, and the proofs.
-- The files Tests run the definitions on concrete inputs.
--
-- Conventions. A function that changes its receiver takes the old state and gives the new one. A panic (an
-- index out of range, a write to a nil map) is `none` or a constructor of its own; an error is `none` or a
-- constructor of a type of the model. A map is an association list, and a loop over a map reads it in the
-- list's order, one of those that Go may choose; a theorem about all lists is so one about all orders.
--
-- Numbers. Positions and lengths are natural numbers, since a slice is shorter than 2^63; the status
-- codes and sizes of a matcher and the group of an extractor are integers, which a template may set
-- negative. The product in
-- Total() wraps at 2^64 and is compared as a signed number; the counters of the two caches wrap at 2^32 and
-- are compared as signed numbers. Texts are characters, and letters are mapped as in ASCII.
--
-- Fuel. batteringRamValue() and clusterbombValue() call themselves; the model takes fuel, `next_value`
-- gives one more than the number of lists, and running out is a result of its own. Each such call raises
-- the counter of the most significant list, so the fuel is enough: the theorems on the iterators say that
-- the values are returned. `collect` runs a caller for a number of rounds and tells how its loop ends; its
-- theorems hold for every number above that of the values. `requests` runs a caller of nextValue() for a number of calls, and
-- its theorems hold for every number above that of the requests that are sent.
--
-- Parameters. Regular expressions, DSL expressions (govaluate), XPath, hexadecimal decoding, url.Parse,
-- filepath.Match, sliceutil.Dedupe, errkit and gcache are not part of the repository: what the code calls
-- of them is an argument; so are the parsers of HTML and XML, jq, the hashes of the clusters, sort.Strings,
-- the file system, package cast, and what a protocol does with a request, and
-- Add() of the bounded wait group of syncutil, which may not return. What a flow does is an argument too,
-- as Execute() of the template executer sees it. Of gcache the record `IsMap`
-- states what the two caches rely on: with fewer keys than its capacity it is a map.
--
-- Not modelled: logging, locks (each operation runs alone; a step of a workflow runs without interruption
-- by the others, and those that it starts run later in any order), YAML and JSON decoding, the protocol
-- clients, the flow engine and that for several protocols, and the remaining packages. A context of the host cache stands as its address. The data that an
-- expression of the tag filter reads of a template are a field of the template.
pub mod Prelude
pub mod Generators
pub mod RequestGenerator
pub mod Matchers
pub mod Extractors
pub mod Operators
pub mod TemplateExecuter
pub mod Clusters
pub mod Expressions
pub mod HostErrors
pub mod TagFilter
pub mod Frequency
pub mod Workflows
pub mod Resume
