-- ===== src/Frequency/Counting.antt =====
-- The operations of pkg/fuzz/frequency/tracker.go count the marks of a key since it was last unmarked.
use webapp_sec_tools.Prelude.{
  ℕ, ◌+◌, ◌<◌, ◌^◌, String, ◌&&◌, Option, List, [], ◌∷◌, ◌⊎◌, inl, inr, ◌≡◌, refl, sym, ap, subst,
  ◌∙◌, ltb, leb, str_eq, if◌then◌else◌, length, arith, Bool-cases, eq_iff,
}
use webapp_sec_tools.Prelude.Words.{int32_ge-leb}
use webapp_sec_tools.Prelude.Urls.{Url}
use webapp_sec_tools.Prelude.GCache.{GCache, IsMap, content}
use webapp_sec_tools.Frequency.Tracker.{
  Tracker, Parameter, key_of, marked, is_frequent, mark_parameter, is_parameter_frequent,
  unmark_parameter,
}

-- The calls of the tracker.
pub data Call : Type 0 where
  mark frequent unmark : Parameter → Call

module _ {Error : Type 0} (gcache : GCache ℕ Error) (parse : String → Option Url) where
  abbrev pub call : Call → Tracker gcache.Store → Tracker gcache.Store
  call (mark p) t = mark_parameter gcache parse p t
  call (frequent p) t = (is_parameter_frequent gcache parse p t).1
  call (unmark p) t = unmark_parameter gcache parse p t

  abbrev pub call_all : List Call → Tracker gcache.Store → Tracker gcache.Store
  call_all [] t = t
  call_all (c ∷ cs) t = call_all cs (call c t)

  -- The marks of a key after one more call, and after all.
  abbrev pub marks_after : String → Call → ℕ → ℕ
  marks_after key (mark p) n = if str_eq (key_of parse p) key then n + 1 else n
  marks_after key (frequent p) n = n
  marks_after key (unmark p) n = if str_eq (key_of parse p) key then 0 else n

  abbrev pub marks_since : String → List Call → ℕ → ℕ
  marks_since key [] n = n
  marks_since key (c ∷ cs) n = marks_since key cs (marks_after key c n)

  -- The cache holds a counter for a key, and none where it stands at 0.
  abbrev Counts : Error ⊎ ℕ → ℕ → Type 0
  Counts (inl err) n = n ≡ 0
  Counts (inr errors) n = (errors ≡ n) × (0 < n)

  marked-Counts :
      (got : Error ⊎ ℕ) (n : ℕ) → n + 1 < 2 ^ 31 → Counts got n → Counts (inr (marked got)) (n + 1)
  unfolding marked
  marked-Counts (inl err) n b z = (omega (arith, z), omega arith)
  marked-Counts (inr errors) n b (e, p) = (omega (arith, e), omega arith)

  is_frequent-Counts :
      (threshold n : ℕ) (got : Error ⊎ ℕ)
      → n < 2 ^ 31
      → threshold < 2 ^ 31
      → Counts got n
      → is_frequent threshold got ≡ (ltb 0 n && leb threshold n)
  unfolding is_frequent
  is_frequent-Counts threshold n (inl err) b m z = ground (arith, z)
  is_frequent-Counts threshold n (inr errors) b m (e, p) =
      ground (arith, e, p, int32_ge-leb errors threshold)

  call-Counts :
      (nf : Error)
      → IsMap gcache nf
      → (key : String) (c : Call) (t : Tracker gcache.Store) (n : ℕ) → n + 1 < 2 ^ 31
      → Counts (content gcache t.frequencies key) n
      → Counts (content gcache (call c t).frequencies key) (marks_after key c n)
  unfolding mark_parameter is_parameter_frequent unmark_parameter
  call-Counts nf laws key (mark p) t n b h =
      let j = key_of parse p in
      let (got, store) = gcache.get_if_present j t.frequencies in
      let w = laws.write j key (marked got) store in
      elim (Bool-cases (str_eq j key)) [
        | inl q ↦
            let same : content gcache t.frequencies key ≡ got =
              ap (content gcache t.frequencies) (sym ((eq_iff j key).0 q)) in
            rw (w, q) (marked-Counts got n b (subst (λ g. Counts g n) same h))
        | inr q ↦ rw (w, q, laws.read j key t.frequencies) h
      ]
  call-Counts nf laws key (frequent p) t n b h = rw (laws.read (key_of parse p) key t.frequencies) h
  call-Counts nf laws key (unmark p) t n b h =
      let e = laws.erase (key_of parse p) key t.frequencies in
      elim (Bool-cases (str_eq (key_of parse p) key)) [
        | inl q ↦ rw (e, q) refl
        | inr q ↦ rw (e, q) h
      ]

  threshold-kept :
      (c : Call) (t : Tracker gcache.Store)
      → (call c t).param_occurence_threshold ≡ t.param_occurence_threshold
  unfolding mark_parameter is_parameter_frequent unmark_parameter
  threshold-kept (mark p) t = refl
  threshold-kept (frequent p) t = refl
  threshold-kept (unmark p) t = refl

  marks_after-le : (key : String) (c : Call) (n : ℕ) → marks_after key c n < n + 2
  marks_after-le key (mark p) n = ground arith
  marks_after-le key (frequent p) n = omega arith
  marks_after-le key (unmark p) n = ground arith

  call_all-Counts :
      (nf : Error)
      → IsMap gcache nf
      → (key : String) (cs : List Call) (t : Tracker gcache.Store) (n : ℕ) → n + length cs < 2 ^ 31
      → Counts (content gcache t.frequencies key) n
      → Counts (content gcache (call_all cs t).frequencies key) (marks_since key cs n)
        × (marks_since key cs n < 2 ^ 31)
        × ((call_all cs t).param_occurence_threshold ≡ t.param_occurence_threshold)
  call_all-Counts nf laws key [] t n b h = (h, omega (arith, b), refl)
  call_all-Counts nf laws key (c ∷ cs) t n b h =
      let (g, l, k) =
        call_all-Counts nf laws key cs (call c t) (marks_after key c n)
          (omega (arith, b, marks_after-le key c n))
          (call-Counts nf laws key c t n (omega (arith, b)) h) in
      (g, l, k ∙ threshold-kept c t)

  -- On a cache that starts empty and evicts nothing, with a threshold below 2^31 and after fewer than
  -- 2^31 calls, IsParameterFrequent() holds exactly if the key of its arguments was marked since it was
  -- last unmarked, at least as many times as the threshold says.
  pub is_parameter_frequent-marks :
      (nf : Error)
      → IsMap gcache nf
      → (p : Parameter) (cs : List Call) (t : Tracker gcache.Store)
      → ((k : String) → content gcache t.frequencies k ≡ inl nf)
      → t.param_occurence_threshold < 2 ^ 31
      → length cs < 2 ^ 31
      → (is_parameter_frequent gcache parse p (call_all cs t)).0 ≡ (
          ltb 0 (marks_since (key_of parse p) cs 0)
          && leb t.param_occurence_threshold (marks_since (key_of parse p) cs 0))
  unfolding is_parameter_frequent
  is_parameter_frequent-marks nf laws p cs t fresh m b =
      let key = key_of parse p in
      let n = marks_since key cs 0 in
      let (h, l, k) = call_all-Counts nf laws key cs t 0 (omega (arith, b)) (rw (fresh key) refl) in
      is_frequent-Counts (call_all cs t).param_occurence_threshold n
        (content gcache (call_all cs t).frequencies key) l (omega (arith, m, k)) h
      ∙ ap (λ most. ltb 0 n && leb most n) k
