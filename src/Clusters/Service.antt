-- ===== src/Clusters/Service.antt =====
-- The executers that NewClusterExecuter() of pkg/templates/cluster.go makes of the groups of Cluster().
use webapp_sec_tools.Prelude.{
  ℕ, String, false, Option, none, some, List, [], ◌∷◌, ◌≡◌, refl, sym, arith, All, ◌⊎◌, inl, inr,
}
use webapp_sec_tools.Prelude.GoMap.{GoMap}
use webapp_sec_tools.Operators.ExcludeMatchers.{ExcludeMatchers}
use webapp_sec_tools.Operators.Types.{Operators}
use webapp_sec_tools.TagFilter.Filter.{ProtocolType}
use webapp_sec_tools.Clusters.Requests.{HttpRequest, DnsRequest, SslRequest}
use webapp_sec_tools.Clusters.Cluster.{Template, cluster}
use webapp_sec_tools.Clusters.Executer.{
  is_single, ClusteredOperator, type_of, compiled_operators, clustered_operator, add_operators,
  new_cluster_executer,
}
use webapp_sec_tools.Clusters.Uniform.{Alike, Uniform, cluster-Uniform}

abbrev first_compiled : {R Ops : Type 0} → (R → Option Ops) → List R → Option Ops → Option Ops
first_compiled compiled (r ∷ []) next = compiled r
first_compiled compiled rs next = next

abbrev dns_compiled : {Ops : Type 0} → DnsRequest Ops → Option Ops
dns_compiled r = r.compiled

abbrev http_compiled : {Ops : Type 0} → HttpRequest Ops → Option Ops
http_compiled r = r.compiled

abbrev ssl_compiled : {Ops : Type 0} → SslRequest Ops → Option Ops
ssl_compiled r = r.compiled

Single-cases :
    {R Ops : Type 0} (compiled : R → Option Ops) (rs : List R) (next : Option Ops)
    → ((r : R) × (rs ≡ r ∷ []))
      ⊎ ((is_single rs ≡ false) × (first_compiled compiled rs next ≡ next))
unfolding is_single
Single-cases compiled [] next = inr (refl, refl)
Single-cases compiled (r ∷ []) next = inl (r, refl)
Single-cases compiled (r ∷ s ∷ rs) next = inr (refl, refl)

module _ {Regex Dsl Json Info : Type 0} where
  -- The compiled operators of a template's only request of the first protocol that has just one.
  abbrev pub own_operators :
      Template (Operators Regex Dsl Json) Info → Option (Operators Regex Dsl Json)
  own_operators t = first_compiled dns_compiled t.requests_dns (
      first_compiled http_compiled t.requests_http
        (first_compiled ssl_compiled t.requests_ssl none))

  -- One clustered operator for each template whose request has compiled operators, in order.
  abbrev pub operators_of :
      Option ExcludeMatchers
      → List (Template (Operators Regex Dsl Json) Info)
      → List (ClusteredOperator (Operators Regex Dsl Json) Info)
  operators_of exclude [] = []
  operators_of exclude (t ∷ ts) = elim (own_operators t) [
    | none ↦ operators_of exclude ts
    | some op ↦ clustered_operator exclude t op ∷ operators_of exclude ts
  ]

  -- A template of a type has its compiled operators where the loop looks for them.
  compiled_operators-own :
      (t : Template (Operators Regex Dsl Json) Info)
      → compiled_operators (type_of t) t ≡ some (own_operators t)
  unfolding compiled_operators type_of is_single
  compiled_operators-own t =
      let last = first_compiled ssl_compiled t.requests_ssl none in
      let rest = first_compiled http_compiled t.requests_http last in
      elim (Single-cases dns_compiled t.requests_dns rest) [
        | inl (r, e) ↦ rw e refl
        | inr (e, n) ↦
            rw (e, n)
              (elim (Single-cases http_compiled t.requests_http last) [
                | inl (r, e') ↦ rw e' refl
                | inr (e', n') ↦
                    rw (e', n')
                      (elim (Single-cases ssl_compiled t.requests_ssl none) [
                        | inl (r, e'') ↦ rw e'' refl
                        | inr (e'', n'') ↦ rw (e'', n'') refl
                      ])
              ])
      ]

  add_operators-operators_of :
      (exclude : Option ExcludeMatchers) (ty : ProtocolType)
      (ts : List (Template (Operators Regex Dsl Json) Info))
      → All (λ t. type_of t ≡ ty) ts
      → add_operators exclude ty ts ≡ some (operators_of exclude ts)
  unfolding add_operators
  add_operators-operators_of exclude ty [] a = refl
  add_operators-operators_of exclude ty (t ∷ ts) (e, a) =
      let h : compiled_operators ty t ≡ some (own_operators t) =
        rw (sym e) (compiled_operators-own t) in
      ground (arith, h, add_operators-operators_of exclude ty ts a)

  -- The executer of a group of templates of one type.
  abbrev pub Serves :
      Option ExcludeMatchers → List (Template (Operators Regex Dsl Json) Info) → Type 0
  Serves exclude ts =
      (ty : ProtocolType) × Alike ty ts
      × (new_cluster_executer exclude ts
          ≡ some (record { template_type = ty; operators = operators_of exclude ts }))

  Uniform-Serves :
      (exclude : Option ExcludeMatchers) (ts : List (Template (Operators Regex Dsl Json) Info))
      → Uniform ts
      → Serves exclude ts
  unfolding new_cluster_executer
  Uniform-Serves exclude [] (ty, u) = absurd u
  Uniform-Serves exclude (t ∷ ts) (ty, u) =
      let (e, a) = u in (ty, u, ground (arith, e, add_operators-operators_of exclude ty (t ∷ ts) u))

  groups-Serves :
      (exclude : Option ExcludeMatchers)
      (gs : List (List (Template (Operators Regex Dsl Json) Info)))
      → All Uniform gs
      → All (Serves exclude) gs
  groups-Serves exclude [] u = tt
  groups-Serves exclude (ts ∷ gs) (u, us) =
      (Uniform-Serves exclude ts u, groups-Serves exclude gs us)

  -- NewClusterExecuter() does not panic on a group that Cluster() makes: the templates of the group are
  -- at least one and have the same type, and the executer gets the compiled operators of their requests,
  -- in order, each with the id, path and info of its template and the excluded matchers.
  pub cluster-Serves :
      (hash : String → ℕ) (map_hash : GoMap String → ℕ) (exclude : Option ExcludeMatchers)
      (list : List (Template (Operators Regex Dsl Json) Info))
      → All (Serves exclude) (cluster hash map_hash list)
  cluster-Serves hash map_hash exclude list =
      groups-Serves exclude (cluster hash map_hash list) (cluster-Uniform hash map_hash list)
