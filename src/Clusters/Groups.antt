-- ===== src/Clusters/Groups.antt =====
-- The groups that Cluster() of pkg/templates/cluster.go makes.
use mathlib.Core.List.{append_assoc, append-nil}
use webapp_sec_tools.Prelude.{
  ℕ, String, Bool, false, List, [], ◌∷◌, ◌++◌, ◌≡◌, refl, sym, ap, ◌∙◌, ◌==◌, arith, if◌then◌else◌,
}
use webapp_sec_tools.Prelude.GoMap.{GoMap}
use webapp_sec_tools.Clusters.Cluster.{
  Template, GroupMap, append_to, Groups, cluster_one, cluster_all,
}
use webapp_sec_tools.Clusters.Partition.{
  Place, separate, at_http, at_dns, at_ssl, put_at, place, one-place,
}

-- The group of a hash, and the templates of a list that belong there.
abbrev pub group_of {ℓ} : {T : Type ℓ} → ℕ → GroupMap T → List T
group_of k [] = []
group_of k ((h, ts) ∷ m) = if h == k then ts else group_of k m

abbrev pub same_place : Place → Place → Bool
same_place (at_http a) (at_http b) = a == b
same_place (at_dns a) (at_dns b) = a == b
same_place (at_ssl a) (at_ssl b) = a == b
same_place p q = false

abbrev pub belonging {ℓ} : {T : Type ℓ} → (T → Place) → Place → List T → List T
belonging place p [] = []
belonging place p (t ∷ ts) =
    let rest = belonging place p ts in if same_place (place t) p then t ∷ rest else rest

module _ {ℓ} {T : Type ℓ} where
  group_of-append_to :
      (k j : ℕ) (t : T) (m : GroupMap T)
      → group_of k (append_to j t m) ≡ group_of k m ++ (if j == k then t ∷ [] else [])
  unfolding append_to
  group_of-append_to k j t [] = ground arith
  group_of-append_to k j t ((h, ts) ∷ m) =
      ground (arith, group_of-append_to k j t m, append-nil ts, append-nil (group_of k m))

  abbrev pub groups_of : Place → Groups T → List T
  groups_of separate g = []
  groups_of (at_http k) g = group_of k g.http
  groups_of (at_dns k) g = group_of k g.dns
  groups_of (at_ssl k) g = group_of k g.ssl

  groups_of-put_at :
      (p q : Place) (t : T) (g : Groups T)
      → groups_of p (put_at q t g) ≡ groups_of p g ++ (if same_place q p then t ∷ [] else [])
  groups_of-put_at separate separate t g = refl
  groups_of-put_at separate (at_http j) t g = refl
  groups_of-put_at separate (at_dns j) t g = refl
  groups_of-put_at separate (at_ssl j) t g = refl
  groups_of-put_at (at_http k) (at_http j) t g = group_of-append_to k j t g.http
  groups_of-put_at (at_http k) _ t g = sym (append-nil (group_of k g.http))
  groups_of-put_at (at_dns k) (at_dns j) t g = group_of-append_to k j t g.dns
  groups_of-put_at (at_dns k) _ t g = sym (append-nil (group_of k g.dns))
  groups_of-put_at (at_ssl k) (at_ssl j) t g = group_of-append_to k j t g.ssl
  groups_of-put_at (at_ssl k) _ t g = sym (append-nil (group_of k g.ssl))

  abbrev no_groups : Groups T
  no_groups = record { http = []; dns = []; ssl = []; final = [] }

  groups_of-none : (p : Place) → groups_of p no_groups ≡ []
  groups_of-none separate = refl
  groups_of-none (at_http k) = refl
  groups_of-none (at_dns k) = refl
  groups_of-none (at_ssl k) = refl

module _ {Ops Info : Type 0} (hash : String → ℕ) (map_hash : GoMap String → ℕ) where
  groups_of-cluster_all :
      (p : Place) (ts : List (Template Ops Info)) (g : Groups (Template Ops Info))
      → groups_of p (cluster_all hash map_hash ts g)
        ≡ groups_of p g ++ belonging (place hash map_hash) p ts
  unfolding cluster_all
  groups_of-cluster_all p [] g = sym (append-nil (groups_of p g))
  groups_of-cluster_all p (t ∷ ts) g =
      let q = place hash map_hash t in
      groups_of-cluster_all p ts (cluster_one hash map_hash t g)
      ∙ ap (λ h. groups_of p h ++ belonging (place hash map_hash) p ts)
          (one-place hash map_hash t g)
      ∙ ap (λ ys. ys ++ belonging (place hash map_hash) p ts) (groups_of-put_at p q t g)
      ∙ append_assoc (groups_of p g) (if same_place q p then t ∷ [] else [])
          (belonging (place hash map_hash) p ts)
      ∙ ap (λ ys. groups_of p g ++ ys) (ground arith)

  -- After the loop of Cluster() the group of a key of a protocol holds, in order, just the templates of
  -- the list that belong there: no flow, one protocol, and an only request of this protocol that may be
  -- clustered and has this key.
  pub groups_of-cluster :
      (p : Place) (ts : List (Template Ops Info))
      → groups_of p
          (cluster_all hash map_hash ts (record { http = []; dns = []; ssl = []; final = [] }))
        ≡ belonging (place hash map_hash) p ts
  groups_of-cluster p ts =
      groups_of-cluster_all p ts _
      ∙ ap (λ ys. ys ++ belonging (place hash map_hash) p ts) (groups_of-none p)
