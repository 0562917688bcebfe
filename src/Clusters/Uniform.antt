-- ===== src/Clusters/Uniform.antt =====
-- The groups that Cluster() of pkg/templates/cluster.go makes hold templates of one type.
use webapp_sec_tools.Prelude.{
  ℕ, String, not, ◌||◌, List, [], ◌∷◌, ◌++◌, ◌≡◌, refl, ◌==◌, str_eq, All, if◌then◌else◌,
  Bool-cases, inl, inr,
}
use webapp_sec_tools.Prelude.GoMap.{GoMap}
use webapp_sec_tools.TagFilter.Filter.{
  ProtocolType, zero_protocol, dns_protocol, http_protocol, ssl_protocol,
}
use webapp_sec_tools.Clusters.Requests.{
  HttpRequest, DnsRequest, SslRequest, http_clusterable, dns_clusterable, ssl_clusterable,
}
use webapp_sec_tools.Clusters.Cluster.{
  Template, GroupMap, append_to, add_groups, Groups, cluster_one, cluster_all, cluster,
}
use webapp_sec_tools.Clusters.Partition.{
  Place, separate, at_http, at_dns, at_ssl, put_at, place, dns_place, http_place, ssl_place,
  one-place,
}
use webapp_sec_tools.Clusters.Executer.{is_single, type_of}

module _ {ℓ κ} {A : Type ℓ} (P : A → Type κ) where
  All-snoc : (xs : List A) (x : A) → All P xs → P x → All P (xs ++ x ∷ [])
  All-snoc [] x h p = (p, tt)
  All-snoc (y ∷ xs) x (q, h) p = (q, All-snoc xs x h p)

abbrev FitsType : Place → ProtocolType → Type 0
FitsType separate ty = Unit
FitsType (at_http k) ty = ty ≡ http_protocol
FitsType (at_dns k) ty = ty ≡ dns_protocol
FitsType (at_ssl k) ty = ty ≡ ssl_protocol

module _ {Ops : Type 0} (hash : String → ℕ) (map_hash : GoMap String → ℕ) where
  ssl_place-FitsType :
      (ss : List (SslRequest Ops))
      → FitsType (ssl_place hash map_hash ss) (if is_single ss then ssl_protocol else zero_protocol)
  unfolding is_single
  ssl_place-FitsType [] = tt
  ssl_place-FitsType (r ∷ []) = elim (Bool-cases (ssl_clusterable r)) [
    | inl e ↦ rw e refl
    | inr e ↦ rw e tt
  ]
  ssl_place-FitsType (r ∷ s ∷ rs) = tt

  http_place-FitsType :
      (hs : List (HttpRequest Ops)) (p : Place) (ty : ProtocolType)
      → FitsType p ty
      → FitsType (http_place hash map_hash hs p) (if is_single hs then http_protocol else ty)
  unfolding is_single
  http_place-FitsType [] p ty f = f
  http_place-FitsType (r ∷ []) p ty f = elim (Bool-cases (http_clusterable r)) [
    | inl e ↦ rw e refl
    | inr e ↦ rw e tt
  ]
  http_place-FitsType (r ∷ s ∷ rs) p ty f = f

  dns_place-FitsType :
      (ds : List (DnsRequest Ops)) (p : Place) (ty : ProtocolType)
      → FitsType p ty
      → FitsType (dns_place hash map_hash ds p) (if is_single ds then dns_protocol else ty)
  unfolding is_single
  dns_place-FitsType [] p ty f = f
  dns_place-FitsType (r ∷ []) p ty f = elim (Bool-cases (dns_clusterable r)) [
    | inl e ↦ rw e refl
    | inr e ↦ rw e tt
  ]
  dns_place-FitsType (r ∷ s ∷ rs) p ty f = f

module _ {Ops Info : Type 0} where
  -- Templates of one type, at least one.
  abbrev pub Alike : ProtocolType → List (Template Ops Info) → Type 0
  Alike ty [] = ⊥
  Alike ty (t ∷ ts) = All (λ s. type_of s ≡ ty) (t ∷ ts)

  Alike-snoc :
      (ty : ProtocolType) (ts : List (Template Ops Info)) (t : Template Ops Info)
      → Alike ty ts
      → type_of t ≡ ty
      → Alike ty (ts ++ t ∷ [])
  Alike-snoc ty [] t h e = absurd h
  Alike-snoc ty (s ∷ ts) t (d, h) e = (d, All-snoc _ ts t h e)

  abbrev AllAlike : ProtocolType → GroupMap (Template Ops Info) → Type 0
  AllAlike ty = All (λ (h, ts). Alike ty ts)

  append_to-AllAlike :
      (ty : ProtocolType) (hash : ℕ) (t : Template Ops Info) (m : GroupMap (Template Ops Info))
      → AllAlike ty m
      → type_of t ≡ ty
      → AllAlike ty (append_to hash t m)
  unfolding append_to
  append_to-AllAlike ty hash t [] a e = ((e, tt), tt)
  append_to-AllAlike ty hash t ((h, ts) ∷ m) (d, a) e = elim (Bool-cases (h == hash)) [
    | inl q ↦ rw q (Alike-snoc ty ts t d e, a)
    | inr q ↦ rw q (d, append_to-AllAlike ty hash t m a e)
  ]

  -- A group of templates of some one type.
  abbrev pub Uniform : List (Template Ops Info) → Type 0
  Uniform ts = (ty : ProtocolType) × Alike ty ts

  -- What the loop of Cluster() keeps.
  abbrev Sorted : Groups (Template Ops Info) → Type 0
  Sorted g =
      AllAlike http_protocol g.http
      × AllAlike dns_protocol g.dns
      × AllAlike ssl_protocol g.ssl
      × All Uniform g.final

  -- The type of a template that belongs to a group.
  abbrev Fits : Place → Template Ops Info → Type 0
  Fits separate t = Unit
  Fits (at_http k) t = type_of t ≡ http_protocol
  Fits (at_dns k) t = type_of t ≡ dns_protocol
  Fits (at_ssl k) t = type_of t ≡ ssl_protocol

  put_at-Sorted :
      (p : Place) (t : Template Ops Info) (g : Groups (Template Ops Info))
      → Fits p t
      → Sorted g
      → Sorted (put_at p t g)
  put_at-Sorted separate t g f (h, d, s, a) =
      (h, d, s, All-snoc _ g.final (t ∷ []) a (type_of t, (refl, tt)))
  put_at-Sorted (at_http k) t g f (h, d, s, a) = (append_to-AllAlike _ k t g.http h f, d, s, a)
  put_at-Sorted (at_dns k) t g f (h, d, s, a) = (h, append_to-AllAlike _ k t g.dns d f, s, a)
  put_at-Sorted (at_ssl k) t g f (h, d, s, a) = (h, d, append_to-AllAlike _ k t g.ssl s f, a)

  add_groups-Uniform :
      (ty : ProtocolType) (m : GroupMap (Template Ops Info))
      (final : List (List (Template Ops Info)))
      → AllAlike ty m
      → All Uniform final
      → All Uniform (add_groups m final)
  unfolding add_groups
  add_groups-Uniform ty [] final a f = f
  add_groups-Uniform ty ((h, ts) ∷ m) final (d, a) f =
      add_groups-Uniform ty m (final ++ ts ∷ []) a (All-snoc _ final ts f (ty, d))

  module _ (hash : String → ℕ) (map_hash : GoMap String → ℕ) where
    FitsType-Fits : (p : Place) (t : Template Ops Info) → FitsType p (type_of t) → Fits p t
    FitsType-Fits separate t f = tt
    FitsType-Fits (at_http k) t f = f
    FitsType-Fits (at_dns k) t f = f
    FitsType-Fits (at_ssl k) t f = f

    place-Fits : (t : Template Ops Info) → Fits (place hash map_hash t) t
    unfolding type_of
    place-Fits t = elim (Bool-cases (not (str_eq t.flow "") || t.is_multi_protocol)) [
      | inl e ↦ rw e tt
      | inr e ↦ rw e (
          FitsType-Fits _ t (
            dns_place-FitsType hash map_hash t.requests_dns _ _ (
              http_place-FitsType hash map_hash t.requests_http _ _
                (ssl_place-FitsType hash map_hash t.requests_ssl))))
    ]

    cluster_all-Sorted :
        (ts : List (Template Ops Info)) (g : Groups (Template Ops Info))
        → Sorted g
        → Sorted (cluster_all hash map_hash ts g)
    unfolding cluster_all
    cluster_all-Sorted [] g s = s
    cluster_all-Sorted (t ∷ ts) g s = cluster_all-Sorted ts (cluster_one hash map_hash t g) (
        rw (one-place hash map_hash t g)
          (put_at-Sorted (place hash map_hash t) t g (place-Fits t) s))

    pub cluster-Uniform :
        (list : List (Template Ops Info)) → All Uniform (cluster hash map_hash list)
    unfolding cluster
    cluster-Uniform list =
        let (h, d, s, a) = cluster_all-Sorted list _ (tt, tt, tt, tt) in
        add_groups-Uniform _ _ _ s (add_groups-Uniform _ _ _ d (add_groups-Uniform _ _ _ h a))
