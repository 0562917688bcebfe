-- ===== src/Clusters/Partition.antt =====
-- Cluster() of pkg/templates/cluster.go splits the templates into groups of the same key.
use mathlib.Core.List.{append_assoc, append-nil, Perm, flatten, perm_middle, perm_append_comm}
use mathlib.Core.List.Perm
use webapp_sec_tools.Prelude.{
  ℕ, String, Bool, true, false, not, ◌||◌, List, [], ◌∷◌, ◌++◌, ◌≡◌, refl, sym, ap, ◌∙◌, ◌==◌,
  str_eq, arith, if◌then◌else◌, Bool-cases, inl, inr, subst,
}
use webapp_sec_tools.Prelude.GoMap.{GoMap}
use webapp_sec_tools.Clusters.Requests.{
  HttpRequest, DnsRequest, SslRequest, http_clusterable, dns_clusterable, ssl_clusterable,
  http_key_text, dns_key_text, ssl_key_text,
}
use webapp_sec_tools.Clusters.Cluster.{
  Template, GroupMap, append_to, add_groups, Groups, alone, cluster_ssl, cluster_http, cluster_dns,
  cluster_one, cluster_all, cluster,
}

-- The templates of the groups of a map.
abbrev pub grouped {ℓ} : {T : Type ℓ} → GroupMap T → List T
grouped [] = []
grouped ((h, ts) ∷ m) = ts ++ grouped m

module _ {ℓ} {T : Type ℓ} where
  append_to-perm :
      (hash : ℕ) (t : T) (m : GroupMap T) → Perm (grouped (append_to hash t m)) (t ∷ grouped m)
  unfolding append_to
  append_to-perm hash t [] = Perm.refl (t ∷ [])
  append_to-perm hash t ((h, ts) ∷ m) = elim (Bool-cases (h == hash)) [
    | inl e ↦ rw (e, append_assoc ts (t ∷ []) (grouped m)) (perm_middle ts (grouped m))
    | inr e ↦
        rw e
          (Perm.trans (Perm.append_left ts (append_to-perm hash t m)) (perm_middle ts (grouped m)))
  ]

  -- All the templates that the variables hold.
  abbrev pub held : Groups T → List T
  held g = grouped g.http ++ (grouped g.dns ++ (grouped g.ssl ++ flatten g.final))

  flatten-snoc : (ls : List (List T)) (ts : List T) → flatten (ls ++ ts ∷ []) ≡ flatten ls ++ ts
  unfolding flatten
  flatten-snoc [] ts = append-nil ts
  flatten-snoc (l ∷ ls) ts =
      ap (λ x. l ++ x) (flatten-snoc ls ts) ∙ sym (append_assoc l (flatten ls) ts)

  flatten-add_groups :
      (m : GroupMap T) (final : List (List T))
      → flatten (add_groups m final) ≡ flatten final ++ grouped m
  unfolding add_groups
  flatten-add_groups [] final = sym (append-nil (flatten final))
  flatten-add_groups ((h, ts) ∷ m) final =
      flatten-add_groups m (final ++ ts ∷ [])
      ∙ ap (λ x. x ++ grouped m) (flatten-snoc final ts)
      ∙ append_assoc (flatten final) ts (grouped m)

  insert-perm :
      (t : T) (as' : List T) {xs ys : List T}
      → Perm xs (t ∷ ys)
      → Perm (as' ++ xs) (t ∷ (as' ++ ys))
  insert-perm t as' {xs} {ys} p = Perm.trans (Perm.append_left as' p) (perm_middle as' ys)

  snoc-perm : (t : T) (xs : List T) → Perm (xs ++ t ∷ []) (t ∷ xs)
  snoc-perm t xs = subst (λ ys. Perm (xs ++ t ∷ []) (t ∷ ys)) (append-nil xs) (perm_middle xs [])

-- Where a template belongs: alone, or in the group of a key of a protocol.
pub data Place : Type 0 where
  separate : Place
  at_http at_dns at_ssl : ℕ → Place

-- The only element of a list.
abbrev pub only_one {ℓ} : {A : Type ℓ} → List A → Bool
only_one (x ∷ []) = true
only_one xs = false

module _ {ℓ} {T : Type ℓ} where
  abbrev pub put_at : Place → T → Groups T → Groups T
  put_at separate t g = record g { final = g.final ++ (t ∷ []) ∷ [] }
  put_at (at_http k) t g = record g { http = append_to k t g.http }
  put_at (at_dns k) t g = record g { dns = append_to k t g.dns }
  put_at (at_ssl k) t g = record g { ssl = append_to k t g.ssl }

  put_at-perm : (p : Place) (t : T) (g : Groups T) → Perm (held (put_at p t g)) (t ∷ held g)
  put_at-perm separate t g = insert-perm t (grouped g.http) (
      insert-perm t (grouped g.dns) (
        insert-perm t (grouped g.ssl)
          (rw (flatten-snoc g.final (t ∷ [])) (snoc-perm t (flatten g.final)))))
  put_at-perm (at_http k) t g =
      Perm.append_right (grouped g.dns ++ (grouped g.ssl ++ flatten g.final))
        (append_to-perm k t g.http)
  put_at-perm (at_dns k) t g =
      insert-perm t (grouped g.http)
        (Perm.append_right (grouped g.ssl ++ flatten g.final) (append_to-perm k t g.dns))
  put_at-perm (at_ssl k) t g = insert-perm t (grouped g.http) (
      insert-perm t (grouped g.dns)
        (Perm.append_right (flatten g.final) (append_to-perm k t g.ssl)))

module _ {Ops : Type 0} (hash : String → ℕ) (map_hash : GoMap String → ℕ) where
  abbrev pub ssl_place : List (SslRequest Ops) → Place
  ssl_place (r ∷ []) = if ssl_clusterable r then at_ssl (hash (ssl_key_text r)) else separate
  ssl_place rs = separate

  abbrev pub http_place : List (HttpRequest Ops) → Place → Place
  http_place (r ∷ []) next =
      if http_clusterable r then at_http (hash (http_key_text map_hash r)) else separate
  http_place rs next = next

  abbrev pub dns_place : List (DnsRequest Ops) → Place → Place
  dns_place (r ∷ []) next = if dns_clusterable r then at_dns (hash (dns_key_text r)) else separate
  dns_place rs next = next

  -- A template with a flow or several protocols stands alone; else its only DNS, HTTP or SSL request, in
  -- this order, says where it belongs.
  abbrev pub place : {Info : Type 0} → Template Ops Info → Place
  place t =
      if not (str_eq t.flow "") || t.is_multi_protocol
      then separate
      else dns_place t.requests_dns (http_place t.requests_http (ssl_place t.requests_ssl))

  module _ {Info : Type 0} (t : Template Ops Info) (g : Groups (Template Ops Info)) where
    ssl-place :
        (rs : List (SslRequest Ops)) → cluster_ssl hash map_hash rs t g ≡ put_at (ssl_place rs) t g
    unfolding cluster_ssl alone
    ssl-place [] = refl
    ssl-place (r ∷ []) = ground arith
    ssl-place (r ∷ r' ∷ rs) = refl

    http-place :
        (rs : List (HttpRequest Ops))
        → cluster_http hash map_hash rs t g ≡ put_at (http_place rs (ssl_place t.requests_ssl)) t g
    unfolding cluster_http alone
    http-place [] = ssl-place t.requests_ssl
    http-place (r ∷ []) = ground arith
    http-place (r ∷ r' ∷ rs) = ssl-place t.requests_ssl

    dns-place :
        (rs : List (DnsRequest Ops))
        → cluster_dns hash map_hash rs t g
          ≡ put_at (dns_place rs (http_place t.requests_http (ssl_place t.requests_ssl))) t g
    unfolding cluster_dns alone
    dns-place [] = http-place t.requests_http
    dns-place (r ∷ []) = ground arith
    dns-place (r ∷ r' ∷ rs) = http-place t.requests_http

    pub one-place : cluster_one hash map_hash t g ≡ put_at (place t) t g
    unfolding cluster_one alone
    one-place = ground (arith, dns-place t.requests_dns)

  module _ {Info : Type 0} where
    cluster_all-perm :
        (ts : List (Template Ops Info)) (g : Groups (Template Ops Info))
        → Perm (held (cluster_all hash map_hash ts g)) (ts ++ held g)
    unfolding cluster_all
    cluster_all-perm [] g = Perm.refl (held g)
    cluster_all-perm (t ∷ ts) g = Perm.trans (cluster_all-perm ts (cluster_one hash map_hash t g)) (
        Perm.trans (Perm.append_left ts (rw (one-place t g) (put_at-perm (place t) t g)))
          (perm_middle ts (held g)))

    flatten-cluster :
        (g : Groups (Template Ops Info))
        → Perm (flatten (add_groups g.ssl (add_groups g.dns (add_groups g.http g.final)))) (held g)
    flatten-cluster g =
        let h = grouped g.http in
        let d = grouped g.dns in
        let s = grouped g.ssl in
        let f = flatten g.final in
        rw
          (
            flatten-add_groups g.ssl (add_groups g.dns (add_groups g.http g.final)),
            flatten-add_groups g.dns (add_groups g.http g.final),
            flatten-add_groups g.http g.final,
            append_assoc (f ++ h) d s,
            append_assoc f h (d ++ s),
          )
          (subst (Perm (f ++ (h ++ (d ++ s))))
            (append_assoc h (d ++ s) f ∙ ap (λ x. h ++ x) (append_assoc d s f))
            (perm_append_comm f (h ++ (d ++ s))))

    -- The clusters hold the templates of the list, each as often as the list does.
    pub flatten-cluster_perm :
        (list : List (Template Ops Info)) → Perm (flatten (cluster hash map_hash list)) list
    unfolding cluster flatten
    flatten-cluster_perm list =
        let g =
          cluster_all hash map_hash list (record { http = []; dns = []; ssl = []; final = [] }) in
        Perm.trans (flatten-cluster g)
          (subst (Perm (held g)) (append-nil list) (cluster_all-perm list _))
