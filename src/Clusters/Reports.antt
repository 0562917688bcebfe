-- ===== src/Clusters/Reports.antt =====
-- What the callback of ClusterExecuter.Execute() in pkg/templates/cluster.go reports.
use mathlib.Core.Bool.{false≢true}
use webapp_sec_tools.Prelude.{
  not, ◌&&◌, String, Bool, true, false, ◌||◌, ◌∙◌, Option, none, some, List, [], ◌∷◌, ◌++◌, ◌≡◌,
  refl, ap, arith, map,
}
use webapp_sec_tools.Prelude.GoMap.{GoMap}
use webapp_sec_tools.Prelude.Value.{Value}
use webapp_sec_tools.Matchers.Types.{Matcher}
use webapp_sec_tools.Operators.Types.{Extractor, Operators, Result}
use webapp_sec_tools.Operators.Execute.{extracted, matcher_env}
use webapp_sec_tools.Operators.Outcome.{reports, present, execute-present}
use webapp_sec_tools.Clusters.Executer.{
  ClusteredOperator, Written, failure, failed, found, Event, write_failure, labelled, settle,
  run_operator, run_cluster,
}

module _ {Made : Type 0} where
  -- Some result was written.
  abbrev pub some_found : List (Written Made) → Bool
  some_found [] = false
  some_found (found r ∷ ws) = true
  some_found (failed r ∷ ws) = some_found ws
  some_found (failure id ∷ ws) = some_found ws

  -- Some failure was written.
  abbrev pub some_failure : List (Written Made) → Bool
  some_failure [] = false
  some_failure (found r ∷ ws) = some_failure ws
  some_failure (failed r ∷ ws) = true
  some_failure (failure id ∷ ws) = true

  some_found-append :
      (ws vs : List (Written Made)) → some_found (ws ++ vs) ≡ (some_found ws || some_found vs)
  some_found-append [] vs = refl
  some_found-append (found r ∷ ws) vs = refl
  some_found-append (failed r ∷ ws) vs = some_found-append ws vs
  some_found-append (failure id ∷ ws) vs = some_found-append ws vs

  some_failure-append :
      (ws vs : List (Written Made)) → some_failure (ws ++ vs) ≡ (some_failure ws || some_failure vs)
  some_failure-append [] vs = refl
  some_failure-append (found r ∷ ws) vs = some_failure-append ws vs
  some_failure-append (failed r ∷ ws) vs = refl
  some_failure-append (failure id ∷ ws) vs = refl

  found-failures : (rs : List Made) → some_failure (map found rs) ≡ false
  found-failures [] = refl
  found-failures (r ∷ rs) = found-failures rs

  failed-founds : (rs : List Made) → some_found (map failed rs) ≡ false
  failed-founds [] = refl
  failed-founds (r ∷ rs) = failed-founds rs

  write_failure-founds : (id : String) (rs : List Made) → some_found (write_failure id rs) ≡ false
  unfolding write_failure
  write_failure-founds id [] = refl
  write_failure-founds id (r ∷ rs) = failed-founds rs

  -- A result is written only where results are reported, and a failure only with the option for the
  -- matchers' status.
  abbrev pub Told : Bool → Event Made → Type 0
  Told matcher_status e =
      ((some_found e.written && not e.results) ≡ false)
      × ((some_failure e.written && not matcher_status) ≡ false)

  settle_lem :
      (make : GoMap Value → Result → List Made) (matcher_status : Bool) (id : String)
      (result : Option Result) (matched : Bool) (env : GoMap Value) (e : Event Made)
      → (matched ≡ true → present result ≡ true)
      → Told matcher_status e
      → ((settle make matcher_status id result matched env e).results ≡ (e.results || matched))
        × ((settle make matcher_status id result matched env e).internal_event ≡ env)
        × Told matcher_status (settle make matcher_status id result matched env e)
  unfolding settle
  settle_lem make matcher_status id none true env e h t = absurd (false≢true (h refl))
  settle_lem make false id none false env e h t = (ground arith, refl, t)
  settle_lem make true id none false env e h (f, g) = (
    ground arith,
    refl,
    (
      ground (
        arith,
        f,
        some_found-append e.written (write_failure id e.made),
        write_failure-founds id e.made,
      ),
      ground arith,
    ),
  )
  settle_lem make matcher_status id (some r) false env e h t = (ground arith, refl, t)
  settle_lem make matcher_status id (some r) true env e h (f, g) = (
    ground arith,
    refl,
    (
      ground arith,
      ground (
        arith,
        g,
        some_failure-append e.written (map found (make env r)),
        found-failures (make env r),
      ),
    ),
  )

module _ {Regex Dsl Json Info Made : Type 0}
    (match : GoMap Value → Matcher Regex Dsl → Bool × List String)
    (extract : GoMap Value → Extractor Regex Dsl Json → List String) (info_value : Info → Value)
    (make : GoMap Value → Result → List Made) (is_debug matcher_status : Bool) where
  -- The verdict of an operator on the data, and the data behind it: with what its extractors found, and
  -- the labels of its template.
  abbrev verdict : ClusteredOperator (Operators Regex Dsl Json) Info → GoMap Value → Bool
  verdict c env = elim (matcher_env (extracted c.operator env extract)) [
    | none ↦ false
    | some d ↦ reports c.operator (match d) (extracted c.operator env extract).result
  ]

  abbrev behind : ClusteredOperator (Operators Regex Dsl Json) Info → GoMap Value → GoMap Value
  behind c env =
      labelled info_value c.template_id c.template_path c.template_info
        (extracted c.operator env extract).env

  -- Some operator of the cluster reports, each on the data behind those before it.
  abbrev pub some_verdict :
      List (ClusteredOperator (Operators Regex Dsl Json) Info) → GoMap Value → Bool
  some_verdict [] env = false
  some_verdict (c ∷ cs) env = verdict c env || some_verdict cs (behind c env)

  run_operator_lem :
      (c : ClusteredOperator (Operators Regex Dsl Json) Info) (e : Event Made)
      → Told matcher_status e
      → (e' : Event Made) × (run_operator match extract info_value make is_debug matcher_status c e
          ≡ some e')
        × (e'.results ≡ (e.results || verdict c e.internal_event))
        × (e'.internal_event ≡ behind c e.internal_event)
        × Told matcher_status e'
  unfolding run_operator
  run_operator_lem c e t =
      let (d, r, p, q, h) = execute-present c.operator e.internal_event match extract is_debug in
      let flag =
        reports c.operator (match d) (extracted c.operator e.internal_event extract).result in
      let (a, b, t') =
        settle_lem make matcher_status c.template_id r flag (behind c e.internal_event) e h t in
      (
        settle make matcher_status c.template_id r flag (behind c e.internal_event) e,
        rw (run_operator, q) refl,
        a ∙ ground (arith, p),
        b,
        t',
      )

  -- The callback does not panic, and runs all operators of the cluster: Execute() reports results exactly
  -- when it did before or the verdict of some operator is true, on the data that the operators before it
  -- have left. From then on, as before, a result is written only where results are reported, and a
  -- failure only with the option for the matchers' status.
  pub run_cluster-tells :
      (cs : List (ClusteredOperator (Operators Regex Dsl Json) Info)) (e : Event Made)
      → Told matcher_status e
      → (e' : Event Made) × (run_cluster match extract info_value make is_debug matcher_status cs e
          ≡ some e')
        × (e'.results ≡ (e.results || some_verdict cs e.internal_event))
        × Told matcher_status e'
  unfolding run_cluster
  run_cluster-tells [] e t = (e, refl, ground arith, t)
  run_cluster-tells (c ∷ cs) e t =
      let (e', p, a, b, t') = run_operator_lem c e t in
      let (e'', p', a', t'') = run_cluster-tells cs e' t' in
      let a'' = a' ∙ ap (λ v. e'.results || some_verdict cs v) b in
      (e'', rw (run_cluster, p, p') refl, ground (arith, a'', a), t'')
