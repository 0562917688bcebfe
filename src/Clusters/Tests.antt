-- ===== src/Clusters/Tests.antt =====
-- Clusters of concrete templates.
use mathlib.Core.List.{Perm, flatten}
use webapp_sec_tools.Prelude.{
  ℕ, ◌+◌, ◌||◌, String, true, false, none, some, List, [], ◌∷◌, ◌≡◌, refl, All, length,
}
use webapp_sec_tools.Prelude.GoMap.{GoMap}
use webapp_sec_tools.Prelude.Value.{Value, other}
use webapp_sec_tools.Operators.Types.{Operators, Result}
use webapp_sec_tools.Operators.Tests.{ops, matches_always, finds}
use webapp_sec_tools.Clusters.Requests.{
  HttpRequest, http_clusterable, needs_request_condition, some_condition,
}
use webapp_sec_tools.Clusters.Cluster.{
  Template, cluster, cluster_all, cluster_one, cluster_dns, cluster_http, append_to, add_groups,
}
use webapp_sec_tools.Clusters.Partition.{at_http, place, flatten-cluster_perm}
use webapp_sec_tools.Clusters.Groups.{groups_of, belonging, groups_of-cluster}
use webapp_sec_tools.Clusters.Executer.{ClusteredOperator, clustered_operator, Event, run_cluster}
use webapp_sec_tools.Clusters.Service.{Serves, cluster-Serves}
use webapp_sec_tools.Clusters.Reports.{Told, some_verdict, run_cluster-tells}
use webapp_sec_tools.Clusters.Templates.{
  ClusterOptions, FinalTemplate, originals, cluster_templates, cluster_templates-counts,
}

abbrev Ops : Type 0
Ops = Operators String String String

abbrev get_request : List String → HttpRequest Ops
get_request path = record {
  method = "GET";
  max_redirects = 0;
  disable_cookie = false;
  redirects = false;
  path = path;
  headers = [];
  payloads = 0;
  fuzzing = 0;
  raw = [];
  body = "";
  unsafe = false;
  name = "";
  matchers = [];
  extractors = [];
  compiled = some ops;
  template_id = "";
}

abbrev http_template : String → String → Template Ops ℕ
http_template id path = record {
  id = id;
  path = id;
  info = 0;
  flow = "";
  is_multi_protocol = false;
  requests_dns = [];
  requests_http = get_request (path ∷ []) ∷ [];
  requests_ssl = [];
}

abbrev with_flow : Template Ops ℕ
with_flow = record (http_template "c" "/") { flow = "http(1)" }

abbrev three : List (Template Ops ℕ)
three = http_template "a" "/" ∷ with_flow ∷ http_template "b" "/" ∷ []

-- A hash, and that of no headers.
abbrev one_hash : String → ℕ
one_hash s = 7

abbrev no_hash : GoMap String → ℕ
no_hash m = 0

cluster_test :
    cluster one_hash no_hash three
    ≡ (with_flow ∷ []) ∷ (http_template "a" "/" ∷ http_template "b" "/" ∷ []) ∷ []
unfolding cluster cluster_all cluster_one cluster_dns cluster_http append_to add_groups
    http_clusterable needs_request_condition some_condition
cluster_test = refl

flatten-cluster_perm_example : Perm (flatten (cluster one_hash no_hash three)) three
flatten-cluster_perm_example = flatten-cluster_perm one_hash no_hash three

groups_of-cluster_example :
    groups_of
      (at_http 7)
      (cluster_all one_hash no_hash three (record { http = []; dns = []; ssl = []; final = [] }))
    ≡ belonging (place one_hash no_hash) (at_http 7) three
groups_of-cluster_example = groups_of-cluster one_hash no_hash (at_http 7) three

cluster-Serves_example : All (Serves none) (cluster one_hash no_hash three)
cluster-Serves_example = cluster-Serves one_hash no_hash none three

abbrev two_operators : List (ClusteredOperator Ops ℕ)
unfolding clustered_operator
two_operators =
    clustered_operator none (http_template "a" "/") ops
    ∷ clustered_operator none (http_template "b" "/") ops
    ∷ []

abbrev response : Event String
response = record { internal_event = []; made = []; results = false; written = [] }

-- One result for each response.
abbrev make_one : GoMap Value → Result → List String
make_one env r = "result" ∷ []

run_cluster-tells_example :
    (e : Event String) × (run_cluster matches_always finds other make_one false true two_operators
        response
      ≡ some e)
    × (e.results
        ≡ (false || some_verdict matches_always finds other make_one false true two_operators []))
    × Told true e
run_cluster-tells_example =
    run_cluster-tells matches_always finds other make_one false true two_operators response
      (refl, refl)

abbrev same : List String → List String
same ids = ids

abbrev clustering : ClusterOptions
clustering = record { offline_http = false; disable_clustering = false; exclude_matchers = none }

cluster_templates-counts_example :
    (final : List (FinalTemplate Ops ℕ)) × (count : ℕ) × (cluster_templates one_hash no_hash same
        (λ ids. ids)
        three
        clustering
      ≡ some (final, count))
    × (length (originals final) + count ≡ 3)
cluster_templates-counts_example =
    cluster_templates-counts one_hash no_hash same (λ ids. ids) three clustering
