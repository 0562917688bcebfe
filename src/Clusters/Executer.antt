-- ===== src/Clusters/Executer.antt =====
-- NewClusterExecuter() of pkg/templates/cluster.go and the callback of its Execute().
-- The requests are sent by the protocols: what stands here is what happens to the
-- operators of the templates of a cluster, and to the event of a response.
use webapp_sec_tools.Prelude.{
  String, Bool, true, false, not, ◌&&◌, Option, none, some, List, [], ◌∷◌, ◌++◌, if◌then◌else◌, map,
}
use webapp_sec_tools.Prelude.GoMap.{GoMap, put}
use webapp_sec_tools.Prelude.Value.{Value, text}
use webapp_sec_tools.Matchers.Types.{Matcher}
use webapp_sec_tools.Operators.ExcludeMatchers.{ExcludeMatchers}
use webapp_sec_tools.Operators.Types.{Extractor, Operators, Result}
use webapp_sec_tools.Operators.Execute.{execute}
use webapp_sec_tools.TagFilter.Filter.{
  ProtocolType, zero_protocol, dns_protocol, http_protocol, ssl_protocol,
}
use webapp_sec_tools.Clusters.Cluster.{Template}

-- The first request of a list, if it is the only one.
unfoldable pub is_single {ℓ} : {A : Type ℓ} → List A → Bool
is_single (x ∷ []) = true
is_single xs = false

pub record ClusteredOperator (Ops Info : Type 0) : Type 0 where
  pub template_id : String
  pub template_path : String
  pub template_info : Info
  pub operator : Ops

pub record ClusterExecuter (Ops Info : Type 0) : Type 0 where
  pub template_type : ProtocolType
  pub operators : List (ClusteredOperator Ops Info)

module _ {Ops Info : Type 0} where
  -- The protocol of the first template. The field `requests`, its request, is left out.
  unfoldable pub type_of : Template Ops Info → ProtocolType
  unfolding is_single
  type_of t =
      if is_single t.requests_dns
      then dns_protocol
      else if is_single t.requests_http
      then http_protocol
      else if is_single t.requests_ssl
      then ssl_protocol
      else zero_protocol

  -- The compiled operators of a template's first request: the outer `none` is the panic of the index
  -- `[0]`, the inner one a nil pointer. Without a type nothing is read.
  unfoldable pub compiled_operators : ProtocolType → Template Ops Info → Option (Option Ops)
  compiled_operators dns_protocol t = elim t.requests_dns [ [] ↦ none | r ∷ rs ↦ some r.compiled ]
  compiled_operators http_protocol t = elim t.requests_http [ [] ↦ none | r ∷ rs ↦ some r.compiled ]
  compiled_operators ssl_protocol t = elim t.requests_ssl [ [] ↦ none | r ∷ rs ↦ some r.compiled ]
  compiled_operators _ t = some none

module _ {Regex Dsl Json Info : Type 0} where
  -- appendOperator()
  unfoldable pub clustered_operator :
      Option ExcludeMatchers
      → Template (Operators Regex Dsl Json) Info
      → Operators Regex Dsl Json
      → ClusteredOperator (Operators Regex Dsl Json) Info
  clustered_operator exclude t ops = record {
    template_id = t.id;
    template_path = t.path;
    template_info = t.info;
    operator = record ops { template_id = t.id; exclude_matchers = exclude };
  }

  -- The loop over the templates of the cluster.
  unfoldable pub add_operators :
      Option ExcludeMatchers
      → ProtocolType
      → List (Template (Operators Regex Dsl Json) Info)
      → Option (List (ClusteredOperator (Operators Regex Dsl Json) Info))
  unfolding compiled_operators clustered_operator
  add_operators exclude type [] = some []
  add_operators exclude type (t ∷ ts) =
      let rest = add_operators exclude type ts in
      elim (compiled_operators type t) [
        | none ↦ none
        | some found ↦ elim rest [
          | none ↦ none
          | some ops ↦ elim found [
            | none ↦ some ops
            | some op ↦ some (clustered_operator exclude t op ∷ ops)
          ]
        ]
      ]

  -- NewClusterExecuter(): `none` is a panic.
  unfoldable pub new_cluster_executer :
      Option ExcludeMatchers
      → List (Template (Operators Regex Dsl Json) Info)
      → Option (ClusterExecuter (Operators Regex Dsl Json) Info)
  unfolding type_of add_operators
  new_cluster_executer exclude [] = none
  new_cluster_executer exclude (t ∷ ts) = elim (add_operators exclude (type_of t) (t ∷ ts)) [
    | none ↦ none
    | some operators ↦ some (record { template_type = type_of t; operators = operators })
  ]

-- What the callback gives to the output's Write(): a result event, one that WriteFailure() writes again
-- as a failure, or the failure of a template, by its identifier, that WriteFailure() makes itself.
pub data Written (Made : Type 0) : Type 0 where
  found : Made → Written Made
  failed : Made → Written Made
  failure : String → Written Made

-- The event's data and its field Results, with the variable `results` and what was written.
pub record Event (Made : Type 0) : Type 0 where
  pub internal_event : GoMap Value
  pub made : List Made
  pub results : Bool
  pub written : List (Written Made)

-- event.InternalEvent["template-id"] = …, and the path and the info.
unfoldable pub labelled :
    {Info : Type 0} → (Info → Value) → String → String → Info → GoMap Value → GoMap Value
unfolding put
labelled info_value id path info env =
    put "template-info" (info_value info)
      (put "template-path" (text path) (put "template-id" (text id) env))

module _ {Made : Type 0} where
  -- WriteFailure() of pkg/output/output.go, for an event with these results
  unfoldable pub write_failure : String → List Made → List (Written Made)
  write_failure id [] = failure id ∷ []
  write_failure id (r ∷ rs) = map failed (r ∷ rs)

  -- The rest of the loop's body, behind the call of the operators. `make` is MakeResultEvent() of the
  -- protocol, on the event's data and the operators' result; WriteResult() writes what it has made.
  unfoldable pub settle :
      (GoMap Value → Result → List Made)
      → Bool
      → String
      → Option Result
      → Bool
      → GoMap Value
      → Event Made
      → Event Made
  unfolding write_failure
  settle make matcher_status id result matched env e = elim result [
    | none ↦
        if not matched && matcher_status
        then record e { internal_event = env; written = e.written ++ write_failure id e.made }
        else record e { internal_event = env }
    | some r ↦
        if matched
        then record {
          internal_event = env;
          made = make env r;
          results = true;
          written = e.written ++ map found (make env r);
        }
        else record e { internal_event = env }
  ]

module _ {Regex Dsl Json Info Made : Type 0}
    (match : GoMap Value → Matcher Regex Dsl → Bool × List String)
    (extract : GoMap Value → Extractor Regex Dsl Json → List String) (info_value : Info → Value)
    (make : GoMap Value → Result → List Made) (is_debug matcher_status : Bool) where
  -- The body of the loop over the operators: `none` is a panic of Execute().
  unfoldable pub run_operator :
      ClusteredOperator (Operators Regex Dsl Json) Info → Event Made → Option (Event Made)
  unfolding execute labelled settle
  run_operator c e = elim (execute c.operator e.internal_event match extract is_debug) [
    | none ↦ none
    | some (result, matched, env) ↦ some (
        settle make matcher_status c.template_id result matched
          (labelled info_value c.template_id c.template_path c.template_info env) e)
  ]

  unfoldable pub run_cluster :
      List (ClusteredOperator (Operators Regex Dsl Json) Info) → Event Made → Option (Event Made)
  unfolding run_operator
  run_cluster [] e = some e
  run_cluster (c ∷ cs) e = elim (run_operator c e) [ none ↦ none | some e' ↦ run_cluster cs e' ]
