-- ===== src/Clusters/Templates.antt =====
-- ClusterID() and ClusterTemplates() of pkg/templates/cluster.go: what becomes of the templates of a
-- scan. `sort` is sort.Strings and `sha256` cryptoutil.SHA256Sum.
use Prim.Native.String.{◌++◌ as append}
use mathlib.Core.List.{Perm, flatten}
use mathlib.Core.List as CoreList
use mathlib.Core.Nat as CoreNat
use webapp_sec_tools.Prelude.{
  ℕ, ◌+◌, String, Bool, ◌||◌, Option, none, some, List, [], ◌∷◌, ◌++◌, ◌≡◌, refl, sym, ap, ◌∙◌,
  arith, All, ltb, length, length-append, map, if◌then◌else◌, Bool-cases, inl, inr,
}
use webapp_sec_tools.Prelude.GoMap.{GoMap}
use webapp_sec_tools.Prelude.Strings.{join}
use webapp_sec_tools.Operators.ExcludeMatchers.{ExcludeMatchers}
use webapp_sec_tools.Operators.Types.{Operators}
use webapp_sec_tools.Clusters.Requests.{HttpRequest, DnsRequest, SslRequest}
use webapp_sec_tools.Clusters.Cluster.{Template, cluster}
use webapp_sec_tools.Clusters.Partition.{flatten-cluster_perm}
use webapp_sec_tools.Clusters.Executer.{ClusterExecuter, new_cluster_executer}
use webapp_sec_tools.Clusters.Service.{Serves, operators_of, cluster-Serves}

-- The options that are read here.
pub record ClusterOptions : Type 0 where
  pub offline_http : Bool
  pub disable_clustering : Bool
  pub exclude_matchers : Option ExcludeMatchers

-- The template made for a cluster.
pub record SharedTemplate (Ops Info : Type 0) : Type 0 where
  pub id : String
  pub requests_dns : List (DnsRequest Ops)
  pub requests_http : List (HttpRequest Ops)
  pub requests_ssl : List (SslRequest Ops)
  pub executer : ClusterExecuter Ops Info
  pub total_requests : ℕ

pub data FinalTemplate (Ops Info : Type 0) : Type 0 where
  original : Template Ops Info → FinalTemplate Ops Info
  shared : SharedTemplate Ops Info → FinalTemplate Ops Info

module _ {Ops : Type 0} where
  abbrev pub name_dns : String → DnsRequest Ops → DnsRequest Ops
  name_dns id r = record r { template_id = id }

  abbrev pub name_http : String → HttpRequest Ops → HttpRequest Ops
  name_http id r = record r { template_id = id }

  abbrev pub name_ssl : String → SslRequest Ops → SslRequest Ops
  name_ssl id r = record r { template_id = id }

-- The template literal of ClusterTemplates(), behind the loops that name the requests.
unfoldable pub shared_template :
    {Ops Info : Type 0}
    → String
    → Template Ops Info
    → ClusterExecuter Ops Info
    → SharedTemplate Ops Info
shared_template id t executer = record {
  id = id;
  requests_dns = map (name_dns id) t.requests_dns;
  requests_http = map (name_http id) t.requests_http;
  requests_ssl = map (name_ssl id) t.requests_ssl;
  executer = executer;
  total_requests = length t.requests_http + length t.requests_dns;
}

module _ {Ops Info : Type 0} (sort : List String → List String) (sha256 : String → String) where
  -- ClusterID()
  unfoldable pub cluster_id : List (Template Ops Info) → String
  unfolding join
  cluster_id templates = sha256 (join "," (sort (map (λ t. t.id) templates)))

module _ {Regex Dsl Json Info : Type 0} (sort : List String → List String)
    (sha256 : String → String) (exclude : Option ExcludeMatchers) where
  -- The branch for a cluster of several templates: the requests of its first template get the
  -- cluster's id. `none` is a panic.
  unfoldable pub share :
      List (Template (Operators Regex Dsl Json) Info)
      → Option (FinalTemplate (Operators Regex Dsl Json) Info)
  unfolding cluster_id new_cluster_executer shared_template
  share [] = none
  share (t ∷ ts) =
      let id = append "cluster-" (cluster_id sort sha256 (t ∷ ts)) in
      elim (new_cluster_executer exclude (t ∷ ts)) [
        | none ↦ none
        | some executer ↦ some (shared (shared_template id t executer))
      ]

  -- The loop over the clusters.
  unfoldable pub share_all :
      List (List (Template (Operators Regex Dsl Json) Info))
      → List (FinalTemplate (Operators Regex Dsl Json) Info)
      → ℕ
      → Option (List (FinalTemplate (Operators Regex Dsl Json) Info) × ℕ)
  unfolding share
  share_all [] final count = some (final, count)
  share_all (c ∷ cs) final count =
      if ltb 1 (length c)
      then elim (share c) [
        | none ↦ none
        | some t ↦ share_all cs (final ++ t ∷ []) (count + length c)
      ]
      else share_all cs (final ++ map original c) count

-- ClusterTemplates()
unfoldable pub cluster_templates :
    {Regex Dsl Json Info : Type 0}
    → (String → ℕ)
    → (GoMap String → ℕ)
    → (List String → List String)
    → (String → String)
    → List (Template (Operators Regex Dsl Json) Info)
    → ClusterOptions
    → Option (List (FinalTemplate (Operators Regex Dsl Json) Info) × ℕ)
unfolding cluster share_all
cluster_templates hash map_hash sort sha256 list options =
    if options.offline_http || options.disable_clustering
    then some (map original list, 0)
    else share_all sort sha256 options.exclude_matchers (cluster hash map_hash list) [] 0

module _ {Ops Info : Type 0} where
  -- The templates of the result that were in the list.
  abbrev pub originals : List (FinalTemplate Ops Info) → List (Template Ops Info)
  originals [] = []
  originals (original t ∷ fs) = t ∷ originals fs
  originals (shared s ∷ fs) = originals fs

  originals-append :
      (fs gs : List (FinalTemplate Ops Info)) → originals (fs ++ gs) ≡ originals fs ++ originals gs
  originals-append [] gs = refl
  originals-append (original t ∷ fs) gs = ap (λ x. t ∷ x) (originals-append fs gs)
  originals-append (shared s ∷ fs) gs = originals-append fs gs

  originals-map : (ts : List (Template Ops Info)) → originals (map original ts) ≡ ts
  originals-map [] = refl
  originals-map (t ∷ ts) = ap (λ x. t ∷ x) (originals-map ts)

module _ {Regex Dsl Json Info : Type 0} (sort : List String → List String)
    (sha256 : String → String) (exclude : Option ExcludeMatchers) where
  share-Serves :
      (c : List (Template (Operators Regex Dsl Json) Info))
      → Serves exclude c
      → (t : SharedTemplate (Operators Regex Dsl Json) Info) × (share sort sha256 exclude c
          ≡ some (shared t))
  unfolding share
  share-Serves [] (ty, u, e) = absurd u
  share-Serves (t ∷ ts) (ty, u, e) = (
    shared_template (append "cluster-" (cluster_id sort sha256 (t ∷ ts))) t
        (record { template_type = ty; operators = operators_of exclude (t ∷ ts) }),
    rw (share, e) refl,
  )

  -- What is made of clusters whose executers are made: the count is that of the templates that have
  -- not stayed.
  share_all-Serves :
      (cs : List (List (Template (Operators Regex Dsl Json) Info)))
      (final : List (FinalTemplate (Operators Regex Dsl Json) Info)) (count : ℕ)
      → All (Serves exclude) cs
      → (final' : List (FinalTemplate (Operators Regex Dsl Json) Info)) × (count' : ℕ) × (share_all
            sort sha256 exclude cs final count
          ≡ some (final', count'))
        × (length (originals final') + count'
            ≡ length (originals final) + count + length (flatten cs))
  unfolding share_all flatten
  share_all-Serves [] final count a = (final, count, refl, omega arith)
  share_all-Serves (c ∷ cs) final count (s, a) = elim (Bool-cases (ltb 1 (length c))) [
    | inl e ↦
        let (t, p) = share-Serves c s in
        let (final', count', q, l) =
          share_all-Serves cs (final ++ shared t ∷ []) (count + length c) a in
        (
          final',
          count',
          rw (share_all, e, p) q,
          omega (
            arith,
            ap (length {0}) (originals-append final (shared t ∷ [])),
            length-append (originals final) [],
            length-append c (flatten cs),
          ),
        )
    | inr e ↦
        let (final', count', q, l) = share_all-Serves cs (final ++ map original c) count a in
        (
          final',
          count',
          rw (share_all, e) q,
          omega (
            arith,
            ap (length {0}) (originals-append final (map original c)),
            ap (length {0}) (originals-map c),
            length-append (originals final) (originals (map original c)),
            length-append c (flatten cs),
          ),
        )
  ]

number : CoreNat.ℕ → ℕ
number CoreNat.zero = 0
number (CoreNat.suc n) = number n + 1

module _ {A : Type 0} where
  length-number : (xs : List A) → length xs ≡ number (CoreList.length xs)
  unfolding number
  length-number [] = refl
  length-number (x ∷ xs) = omega (arith, length-number xs)

  length-Perm : (xs ys : List A) → Perm xs ys → length xs ≡ length ys
  length-Perm xs ys p =
      length-number xs ∙ ap number (CoreList.Perm.length-eq p) ∙ sym (length-number ys)

-- ClusterTemplates() does not panic, and its count is that of the templates that the result does not
-- hold any more: they and the templates that have stayed are as many as the templates of the list.
pub cluster_templates-counts :
    {Regex Dsl Json Info : Type 0} (hash : String → ℕ) (map_hash : GoMap String → ℕ)
    (sort : List String → List String) (sha256 : String → String)
    (list : List (Template (Operators Regex Dsl Json) Info)) (options : ClusterOptions)
    → (final : List (FinalTemplate (Operators Regex Dsl Json) Info)) × (count : ℕ)
      × (cluster_templates hash map_hash sort sha256 list options ≡ some (final, count))
      × (length (originals final) + count ≡ length list)
unfolding cluster_templates
cluster_templates-counts hash map_hash sort sha256 list options =
    elim (Bool-cases (options.offline_http || options.disable_clustering)) [
      | inl e ↦ (
        map original list,
        0,
        rw (cluster_templates, e) refl,
        omega (arith, ap (length {0}) (originals-map list)),
      )
      | inr e ↦
          let cs = cluster hash map_hash list in
          let (final, count, q, l) =
            share_all-Serves sort sha256 options.exclude_matchers cs [] 0
              (cluster-Serves hash map_hash options.exclude_matchers list) in
          (
            final,
            count,
            rw (cluster_templates, e) q,
            omega
                (arith, l, length-Perm (flatten cs) list (flatten-cluster_perm hash map_hash list)),
          )
    ]
