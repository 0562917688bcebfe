-- ===== src/RequestGenerator/Calls.antt =====
-- What one call of nextValue() of pkg/protocols/http/request_generator.go gives.
use webapp_sec_tools.Prelude.{
  ℕ, ◌+◌, ◌≤◌, String, Bool, true, false, Option, none, some, List, [], ◌∷◌, ◌≡◌, length, drop,
  arith, Option-cases, inl, inr, ◌⊎◌,
}
use webapp_sec_tools.Prelude.GoMap.{GoMap}
use webapp_sec_tools.Prelude.GoSet.{GoSet}
use webapp_sec_tools.Generators.Iterator.{Next, next, exhausted}
use webapp_sec_tools.RequestGenerator.Generator.{
  Generator, slice_from, scan, mark, copy, advance, find_next_iteration, first_payload,
  take_request, next_value,
}
use webapp_sec_tools.RequestGenerator.Rounds.{Gives, ended, given}

module _ {S : Type 0} where
  -- In a round, and behind the last payload.
  abbrev pub running : ℕ → GoMap String → S → GoSet → Generator S
  running i m s marked = record {
    current_index = i;
    current_payloads = some m;
    ok_current_payload = true;
    iterator = some s;
    once_flow = marked;
  }

  abbrev pub finished : ℕ → S → GoSet → Generator S
  finished i s marked = record {
    current_index = i;
    current_payloads = none;
    ok_current_payload = false;
    iterator = some s;
    once_flow = marked;
  }

module _ {S : Type 0} (value : S → Next × S) (once : String → Bool) where
  find-some :
      (sequence : List String) (i : ℕ) (g : Generator S) (f : String × ℕ)
      → i ≤ length sequence
      → scan g.once_flow (drop i sequence) i ≡ some f
      → find_next_iteration value once sequence i g ≡ some (some f, g)
  unfolding find_next_iteration slice_from
  find-some sequence i g f b e = ground (arith, e)

  find-next :
      (sequence : List String) (i j : ℕ) (p : Option (GoMap String)) (ok : Bool) (s s' : S)
      (m : GoMap String) (marked : GoSet)
      → i ≤ length sequence
      → scan marked (drop i sequence) i ≡ none
      → value s ≡ (next m, s')
      → find_next_iteration value once sequence i (record {
        current_index = j;
        current_payloads = p;
        ok_current_payload = ok;
        iterator = some s;
        once_flow = marked;
      })
        ≡ some (none, running j m s' marked)
  unfolding find_next_iteration slice_from advance
  find-next sequence i j p ok s s' m marked b e v = ground (arith, e, v)

  find-exhausted :
      (sequence : List String) (i j : ℕ) (p : Option (GoMap String)) (ok : Bool) (s s' : S)
      (marked : GoSet)
      → i ≤ length sequence
      → scan marked (drop i sequence) i ≡ none
      → value s ≡ (exhausted, s')
      → find_next_iteration value once sequence i (record {
        current_index = j;
        current_payloads = p;
        ok_current_payload = ok;
        iterator = some s;
        once_flow = marked;
      })
        ≡ some (none, finished j s' marked)
  unfolding find_next_iteration slice_from advance
  find-exhausted sequence i j p ok s s' marked b e v = ground (arith, e, v)

  -- A call that finds a request in the round.
  pub next_value-found :
      (x : String) (xs : List String) (i : ℕ) (m : GoMap String) (s : S) (marked : GoSet)
      (r : String) (k : ℕ)
      → i ≤ length (x ∷ xs)
      → scan marked (drop i (x ∷ xs)) i ≡ some (r, k)
      → next_value value once (x ∷ xs) (running i m s marked)
        ≡ some ((r, copy (some m), true), running (k + 1) m s (mark once r marked))
  unfolding next_value first_payload take_request
  next_value-found x xs i m s marked r k b e =
      ground (arith, find-some (x ∷ xs) i (running i m s marked) (r, k) b e)

  -- A call that goes on to the next payload.
  pub next_value-turn :
      (x : String) (xs : List String) (i : ℕ) (m m' : GoMap String) (s s' : S) (marked : GoSet)
      (r : String) (k : ℕ)
      → i ≤ length (x ∷ xs)
      → scan marked (drop i (x ∷ xs)) i ≡ none
      → value s ≡ (next m', s')
      → scan marked (x ∷ xs) 0 ≡ some (r, k)
      → next_value value once (x ∷ xs) (running i m s marked)
        ≡ some ((r, copy (some m'), true), running (k + 1) m' s' (mark once r marked))
  unfolding next_value first_payload take_request
  next_value-turn x xs i m m' s s' marked r k b e v f = ground (
    arith,
    find-next (x ∷ xs) i i (some m) true s s' m' marked b e v,
    find-some (x ∷ xs) 0 (running i m' s' marked) (r, k) (omega arith) f,
  )

  -- A call that gives no request.
  abbrev pub Stops : List String → Generator S → Type 0
  Stops sequence g =
      (r : String) × (p : GoMap String) × (g' : Generator S) × (next_value value once sequence g
        ≡ some ((r, p, false), g'))

  Gives-twice :
      (s : S) (ms : List (GoMap String))
      → Gives value s ms
      → ((s' : S) × (value s ≡ (exhausted, s')))
        ⊎ ((s' : S) × (m : GoMap String) × (value s ≡ (next m, s')))
  Gives-twice s _ (ended _ s' s'' e e') = inl (s', e)
  Gives-twice s _ (given _ s' m ms e h) = inr (s', m, e)

  pub next_value-all_marked :
      (x : String) (xs : List String) (i : ℕ) (m m' : GoMap String) (s s' : S)
      (ms : List (GoMap String)) (marked : GoSet)
      → i ≤ length (x ∷ xs)
      → scan marked (drop i (x ∷ xs)) i ≡ none
      → value s ≡ (next m', s')
      → Gives value s' ms
      → scan marked (x ∷ xs) 0 ≡ none
      → Stops (x ∷ xs) (running i m s marked)
  unfolding next_value first_payload
  next_value-all_marked x xs i m m' s s' ms marked b e v h f =
      let p = find-next (x ∷ xs) i i (some m) true s s' m' marked b e v in
      elim (Gives-twice s' ms h) [
        | inl (t, w) ↦ (
          "",
          [],
          finished i t marked,
          ground
              (arith, p, find-exhausted (x ∷ xs) 0 i (some m') true s' t marked (omega arith) f w),
        )
        | inr (t, n, w) ↦ (
          "",
          [],
          running i n t marked,
          ground (arith, p, find-next (x ∷ xs) 0 i (some m') true s' t n marked (omega arith) f w),
        )
      ]

  pub next_value-finished :
      (x : String) (xs : List String) (i : ℕ) (m : GoMap String) (s s' s'' : S) (marked : GoSet)
      → i ≤ length (x ∷ xs)
      → scan marked (drop i (x ∷ xs)) i ≡ none
      → value s ≡ (exhausted, s')
      → value s' ≡ (exhausted, s'')
      → Stops (x ∷ xs) (running i m s marked)
  unfolding next_value first_payload take_request
  next_value-finished x xs i m s s' s'' marked b e v v' =
      let p = find-exhausted (x ∷ xs) i i (some m) true s s' marked b e v in
      elim (Option-cases (scan marked (x ∷ xs) 0)) [
        | inl f ↦ (
          "",
          [],
          finished i s'' marked,
          ground
              (arith, p, find-exhausted (x ∷ xs) 0 i none false s' s'' marked (omega arith) f v'),
        )
        | inr ((r, k), f) ↦ (
          r,
          [],
          finished (k + 1) s' (mark once r marked),
          ground (arith, p, find-some (x ∷ xs) 0 (finished i s' marked) (r, k) (omega arith) f),
        )
      ]
