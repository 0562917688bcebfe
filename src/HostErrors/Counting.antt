-- ===== src/HostErrors/Counting.antt =====
-- Check() and MarkFailed() of hosterrorscache.go count the errors of a host.
use webapp_sec_tools.Prelude.{
  ℕ, ◌+◌, ◌<◌, ◌^◌, String, false, ◌&&◌, Option, none, List, [], ◌∷◌, ◌⊎◌, inl, inr, ◌≡◌, refl, ap,
  ◌∙◌, ltb, leb, str_eq, if◌then◌else◌, arith, Bool-cases, eq_iff, subst,
}
use webapp_sec_tools.Prelude.Words.{int32_ge-leb}
use webapp_sec_tools.Prelude.Urls.{Url}
use webapp_sec_tools.Prelude.GCache.{GCache, IsMap, content}
use webapp_sec_tools.HostErrors.Cache.{
  ErrKit, CacheItem, is_skipped, marked_item, marked_item, Cache, check, mark_failed, check_error,
  get_key_from_context,
}

module _ {Error : Type 0} (gcache : GCache (CacheItem Error) Error) (kit : ErrKit Error)
    (parse : String → Option Url) where
  -- The calls of MarkFailed(), in order.
  abbrev pub mark_all : List (String × Option Error) → Cache gcache.Store → Cache gcache.Store
  mark_all [] c = c
  mark_all ((address, err) ∷ marks) c = mark_all marks (mark_failed gcache kit parse address err c)

  -- How many of them count for the host of a key.
  abbrev pub counted : List String → String → List (String × Option Error) → ℕ
  counted track key [] = 0
  counted track key ((address, err) ∷ marks) =
      (if check_error kit track err && str_eq (get_key_from_context parse kit address err) key
        then 1
        else 0)
      + counted track key marks

  -- The cache holds, for a key, an item with n errors that is not permanent, and none if n is 0.
  abbrev Holds : Error → Error ⊎ CacheItem Error → ℕ → Type 0
  Holds nf (inl err) n = (n ≡ 0) × (err ≡ nf)
  Holds nf (inr item) n = (item.errors ≡ n) × (item.is_permanent_err ≡ false) × (0 < n)

  marked_item-Holds :
      (nf : Error)
      → kit.is_permanent nf ≡ false
      → (got : Error ⊎ CacheItem Error) (n : ℕ) → n + 1 < 2 ^ 31
      → Holds nf got n
      → Holds nf (inr (marked_item kit got)) (n + 1)
  unfolding marked_item
  marked_item-Holds nf np (inl err) n b (z, e) = (omega (arith, z), rw (e, np) refl, omega arith)
  marked_item-Holds nf np (inr item) n b (e, p, q) = (omega (arith, e), p, omega arith)

  mark_failed-content :
      (nf : Error)
      → IsMap gcache nf
      → (address : String) (err : Option Error) (c : Cache gcache.Store) (key : String)
      → content gcache (mark_failed gcache kit parse address err c).failed_targets key ≡ (
          if check_error kit c.track_error err
            && str_eq (get_key_from_context parse kit address err) key
          then inr (marked_item kit (content gcache c.failed_targets key))
          else content gcache c.failed_targets key)
  unfolding mark_failed
  mark_failed-content nf laws address err c key =
      let j = get_key_from_context parse kit address err in
      let (got, store) = gcache.get_if_present j c.failed_targets in
      elim (Bool-cases (check_error kit c.track_error err)) [
        | inr e ↦ rw e refl
        | inl e ↦ rw e (
            laws.write j key (marked_item kit got) store ∙ elim (Bool-cases (str_eq j key)) [
              | inl q ↦ rw q (
                  ap (λ k. inr (marked_item kit (content gcache c.failed_targets k)))
                    ((eq_iff j key).0 q))
              | inr q ↦ rw q (laws.read j key c.failed_targets)
            ])
      ]

  track_error-kept :
      (address : String) (err : Option Error) (c : Cache gcache.Store)
      → ((mark_failed gcache kit parse address err c).track_error ≡ c.track_error)
        × ((mark_failed gcache kit parse address err c).max_host_error ≡ c.max_host_error)
  unfolding mark_failed
  track_error-kept address err c = ground arith

  -- What one call adds for the host of a key.
  abbrev weight : List String → String → String → Option Error → ℕ
  weight track key address err =
      if check_error kit track err && str_eq (get_key_from_context parse kit address err) key
      then 1
      else 0

  mark_failed-Holds :
      (nf : Error)
      → IsMap gcache nf
      → kit.is_permanent nf ≡ false
      → (address : String) (err : Option Error) (c : Cache gcache.Store) (key : String) (n : ℕ)
      → n + weight c.track_error key address err < 2 ^ 31
      → Holds nf (content gcache c.failed_targets key) n
      → Holds nf
          (content gcache (mark_failed gcache kit parse address err c).failed_targets key)
          (n + weight c.track_error key address err)
  mark_failed-Holds nf laws np address err c key n b h =
      let e = mark_failed-content nf laws address err c key in
      elim (Bool-cases (
        check_error kit c.track_error err
        && str_eq (get_key_from_context parse kit address err) key)) [
          | inl q ↦
              rw (e, q)
                (marked_item-Holds nf np (content gcache c.failed_targets key) n
                  (omega (arith, b, ap {B = ℕ} (λ t. if t then 1 else 0) q)) h)
          | inr q ↦
              rw (e, q) (subst (Holds nf (content gcache c.failed_targets key)) (omega arith) h)
        ]

  mark_all-Holds :
      (nf : Error)
      → IsMap gcache nf
      → kit.is_permanent nf ≡ false
      → (key : String) (marks : List (String × Option Error)) (c : Cache gcache.Store) (n : ℕ)
      → n + counted c.track_error key marks < 2 ^ 31
      → Holds nf (content gcache c.failed_targets key) n
      → Holds nf
          (content gcache (mark_all marks c).failed_targets key)
          (n + counted c.track_error key marks)
        × ((mark_all marks c).max_host_error ≡ c.max_host_error)
  mark_all-Holds nf laws np key [] c n b h =
      (subst (Holds nf (content gcache c.failed_targets key)) (omega arith) h, refl)
  mark_all-Holds nf laws np key ((address, err) ∷ marks) c n b h =
      let c' = mark_failed gcache kit parse address err c in
      let (t, m) = track_error-kept address err c in
      let w = ap (λ t. counted t key marks) t in
      let (g, m') =
        mark_all-Holds nf laws np key marks c' (n + weight c.track_error key address err)
          (omega (arith, b, w))
          (mark_failed-Holds nf laws np address err c key n (omega (arith, b)) h) in
      (
        subst (Holds nf (content gcache (mark_all marks c').failed_targets key)) (omega (arith, w))
            g,
        m' ∙ m,
      )

  is_skipped-Holds :
      (nf : Error) (most n : ℕ) (got : Error ⊎ CacheItem Error)
      → n < 2 ^ 31
      → most < 2 ^ 31
      → Holds nf got n
      → is_skipped most got ≡ (ltb 0 n && leb most n)
  unfolding is_skipped
  is_skipped-Holds nf most n (inl err) b m (z, e) = ground (arith, z)
  is_skipped-Holds nf most n (inr item) b m (e, p, q) =
      ground (arith, e, p, q, int32_ge-leb item.errors most)

  check-Holds :
      (nf : Error) (address : String) (c : Cache gcache.Store) (n : ℕ)
      → n < 2 ^ 31
      → c.max_host_error < 2 ^ 31
      → Holds nf (content gcache c.failed_targets (get_key_from_context parse kit address none)) n
      → (check gcache kit parse c address).0 ≡ (ltb 0 n && leb c.max_host_error n)
  unfolding check
  check-Holds nf address c n b m h =
      is_skipped-Holds nf c.max_host_error n
        (content gcache c.failed_targets (get_key_from_context parse kit address none)) b m h

  -- Check() after calls of MarkFailed() on an empty cache, if the cache evicts nothing, its own error is
  -- not of the permanent kind, and the threshold and the number of errors counted for the host's key are
  -- below 2^31: the host is skipped exactly if an error was counted and their number has reached the
  -- threshold.
  pub check-mark_all :
      (nf : Error)
      → IsMap gcache nf
      → kit.is_permanent nf ≡ false
      → (address : String) (marks : List (String × Option Error)) (c : Cache gcache.Store)
      → ((k : String) → content gcache c.failed_targets k ≡ inl nf)
      → c.max_host_error < 2 ^ 31
      → counted c.track_error (get_key_from_context parse kit address none) marks < 2 ^ 31
      → (check gcache kit parse (mark_all marks c) address).0 ≡ (
          ltb 0 (counted c.track_error (get_key_from_context parse kit address none) marks)
          && leb c.max_host_error
              (counted c.track_error (get_key_from_context parse kit address none) marks))
  unfolding check
  check-mark_all nf laws np address marks c fresh m b =
      let key = get_key_from_context parse kit address none in
      let (h, k) =
        mark_all-Holds nf laws np key marks c 0 (omega (arith, b)) (rw (fresh key) (refl, refl)) in
      let n = counted c.track_error key marks in
      let h' =
        subst (Holds nf (content gcache (mark_all marks c).failed_targets key)) {x = 0 + n} {y = n}
          (omega arith) h in
      check-Holds nf address (mark_all marks c) n b (omega (arith, m, k)) h'
      ∙ ap (λ most. ltb 0 n && leb most n) k
