-- ===== src/RequestGenerator/Sent.antt =====
-- All calls of nextValue() of pkg/protocols/http/request_generator.go.
use webapp_sec_tools.Prelude.{
  ℕ, zero, suc, ◌+◌, ◌<◌, ◌≤◌, String, Bool, true, false, none, some, List, [], ◌∷◌, ◌++◌, ◌≡◌,
  refl, sym, ap, ◌∙◌, length, drop, arith, Option-cases, inl, inr,
}
use webapp_sec_tools.Prelude.GoMap.{GoMap}
use webapp_sec_tools.Prelude.GoSet.{GoSet}
use webapp_sec_tools.Generators.Iterator.{Next, next, exhausted}
use webapp_sec_tools.RequestGenerator.Generator.{
  Generator, new_generator, scan, mark, copy, next_value, prepend, requests, first_payload, advance,
  find_next_iteration, slice_from, take_request,
}
use webapp_sec_tools.RequestGenerator.Rounds.{
  Gives, ended, given, round, marks, all_rounds, scan-none, scan-some, all_rounds-marked,
}
use webapp_sec_tools.RequestGenerator.Calls.{
  running, finished, Stops, next_value-found, next_value-turn, next_value-all_marked,
  next_value-finished,
}

drop-drop : (i d n : ℕ) (xs : List String) → n ≡ i + d + 1 → drop (suc d) (drop i xs) ≡ drop n xs
drop-drop zero d n xs e = rw e (rw (one d) refl)
  where
    one : (d : ℕ) → 0 + d + 1 ≡ suc d
    one d = omega arith
drop-drop (suc i) d zero xs e = absurd (omega arith)
drop-drop (suc i) d (suc n) [] e = refl
drop-drop (suc i) d (suc n) (x ∷ xs) e = drop-drop i d n xs (omega arith)

length-drop : (i : ℕ) (xs : List String) → i ≤ length xs → i + length (drop i xs) ≡ length xs
length-drop zero xs h = omega arith
length-drop (suc i) [] h = omega arith
length-drop (suc i) (x ∷ xs) h = omega (arith, length-drop i xs (omega arith))

module _ {S : Type 0} (value : S → Next × S) (once : String → Bool) where
  requests-step :
      (n : ℕ) (sequence : List String) (g g' : Generator S) (r : String) (p : GoMap String)
      (rs : List (String × GoMap String))
      → next_value value once sequence g ≡ some ((r, p, true), g')
      → requests value once n sequence g' ≡ some rs
      → requests value once (suc n) sequence g ≡ some ((r, p) ∷ rs)
  unfolding requests prepend
  requests-step n sequence g g' r p rs e h = rw (requests, e, h) refl

  requests-stop :
      (n : ℕ) (sequence : List String) (g : Generator S)
      → Stops value once sequence g
      → requests value once (suc n) sequence g ≡ some []
  unfolding requests
  requests-stop n sequence g (r, p, g', e) = rw (requests, e) refl

  -- What is still sent in the round from an index on, and in those of the next payloads.
  abbrev left :
      List String → ℕ → GoMap String → GoSet → List (GoMap String) → List (String × GoMap String)
  left sequence i m marked ms =
      round once (copy (some m)) marked (drop i sequence)
      ++ all_rounds once sequence (marks once marked (drop i sequence)) ms

  abbrev Sends : ℕ → String → List String → Type 0
  Sends fuel x xs =
      (i : ℕ) (m : GoMap String) (s : S) (marked : GoSet) (ms : List (GoMap String))
      → i ≤ length (x ∷ xs)
      → Gives value s ms
      → length (left (x ∷ xs) i m marked ms) < fuel
      → requests value once fuel (x ∷ xs) (running i m s marked)
        ≡ some (left (x ∷ xs) i m marked ms)

  send-found :
      (n : ℕ) (x : String) (xs : List String)
      → Sends n x xs
      → (i : ℕ) (m : GoMap String) (s : S) (marked : GoSet) (ms : List (GoMap String)) (r : String)
        (k : ℕ)
      → i ≤ length (x ∷ xs)
      → Gives value s ms
      → length (left (x ∷ xs) i m marked ms) < suc n
      → scan marked (drop i (x ∷ xs)) i ≡ some (r, k)
      → requests value once (suc n) (x ∷ xs) (running i m s marked)
        ≡ some (left (x ∷ xs) i m marked ms)
  send-found n x xs ih i m s marked ms r k b h f e =
      let (d, p, l, q, u) = scan-some once (copy (some m)) marked (drop i (x ∷ xs)) i r k e in
      let w = drop-drop i d (k + 1) (x ∷ xs) (omega arith) in
      let c = length-drop i (x ∷ xs) b in
      let f' = rw (q, u, w) at f in
      rw (q, u, w)
        (requests-step n (x ∷ xs) _ _ r (copy (some m)) _
          (next_value-found value once x xs i m s marked r k b e)
          (ih (k + 1) m s (mark once r marked) ms (omega (arith, c, p, l)) h (omega (arith, f'))))

  send-turn :
      (n : ℕ) (x : String) (xs : List String)
      → Sends n x xs
      → (i : ℕ) (m : GoMap String) (s : S) (marked : GoSet) (ms : List (GoMap String))
      → i ≤ length (x ∷ xs)
      → Gives value s ms
      → length (all_rounds once (x ∷ xs) marked ms) < suc n
      → scan marked (drop i (x ∷ xs)) i ≡ none
      → requests value once (suc n) (x ∷ xs) (running i m s marked)
        ≡ some (all_rounds once (x ∷ xs) marked ms)
  send-turn n x xs ih i m s marked _ b (ended _ s' s'' v v') f e =
      requests-stop n (x ∷ xs) _ (next_value-finished value once x xs i m s s' s'' marked b e v v')
  send-turn n x xs ih i m s marked _ b (given _ s' m' ms v h) f e =
      elim (Option-cases (scan marked (x ∷ xs) 0)) [
        | inl o ↦
            let none_left = all_rounds-marked once (x ∷ xs) marked (m' ∷ ms) o in
            requests-stop n (x ∷ xs) _
              (next_value-all_marked value once x xs i m m' s s' ms marked b e v h o)
            ∙ ap some (sym none_left)
        | inr ((r, k), o) ↦
            let (d, p, l, q, u) = scan-some once (copy (some m')) marked (x ∷ xs) 0 r k o in
            let w = drop-drop 0 d (k + 1) (x ∷ xs) (omega arith) in
            let f' = rw (q, u, w) at f in
            rw (q, u, w)
              (requests-step n (x ∷ xs) _ _ r (copy (some m')) _
                (next_value-turn value once x xs i m m' s s' marked r k b e v o)
                (ih (k + 1) m' s' (mark once r marked) ms (omega (arith, p, l)) h
                  (omega (arith, f'))))
      ]

  requests-running : (fuel : ℕ) (x : String) (xs : List String) → Sends fuel x xs
  requests-running zero x xs i m s marked ms b h f = absurd (omega arith)
  requests-running (suc n) x xs i m s marked ms b h f =
      elim (Option-cases (scan marked (drop i (x ∷ xs)) i)) [
        | inr ((r, k), e) ↦ send-found n x xs (requests-running n x xs) i m s marked ms r k b h f e
        | inl e ↦
            let (p, q) = scan-none once (copy (some m)) marked (drop i (x ∷ xs)) i e in
            rw (p, q)
              (send-turn n x xs (requests-running n x xs) i m s marked ms b h (rw (p, q) at f) e)
      ]

  first_call :
      (n : ℕ) (x : String) (xs : List String) (s s' : S) (m : GoMap String)
      → value s ≡ (next m, s')
      → requests value once (suc n) (x ∷ xs) (new_generator s 1 false)
        ≡ requests value once (suc n) (x ∷ xs) (running 0 m s' [])
  unfolding requests next_value first_payload advance new_generator
  first_call n x xs s s' m v = ground (arith, v)

  no_payload :
      (n : ℕ) (x : String) (xs : List String) (s s' s'' : S)
      → value s ≡ (exhausted, s')
      → value s' ≡ (exhausted, s'')
      → Stops value once (x ∷ xs) (new_generator s 1 false)
  unfolding next_value first_payload advance new_generator take_request find_next_iteration
      slice_from scan copy
  no_payload n x xs s s' s'' v v' =
      (x, [], record (finished 1 s' []) { once_flow = mark once x [] }, ground (arith, v))

  all_rounds-nil : (marked : GoSet) (ms : List (GoMap String)) → all_rounds once [] marked ms ≡ []
  all_rounds-nil marked [] = refl
  all_rounds-nil marked (m ∷ ms) = all_rounds-nil marked ms

  no_requests : (fuel : ℕ) (g : Generator S) → requests value once fuel [] g ≡ some []
  unfolding requests next_value
  no_requests zero g = refl
  no_requests (suc n) g = refl

  fresh :
      (payloads : ℕ) (s : S)
      → 0 < payloads
      → new_generator s payloads false ≡ new_generator s 1 false
  unfolding new_generator
  fresh payloads s h = ground arith

  -- With payloads the callers' loop is given, for each payload map of the iterator in turn, every request
  -- of the sequence in order with a copy of this map; but a request with `@once` that was sent once is
  -- left out from then on. This is under the condition that the iterator gives finitely many maps, and
  -- that a call of Value() after its end says false once more, as that of a clusterbomb or a pitchfork
  -- does and that of a batteringram does not; fuel above the number of the requests is enough.
  pub requests-all_rounds :
      (fuel : ℕ) (sequence : List String) (s : S) (payloads : ℕ) (ms : List (GoMap String))
      → 0 < payloads
      → Gives value s ms
      → length (all_rounds once sequence [] ms) < fuel
      → requests value once fuel sequence (new_generator s payloads false)
        ≡ some (all_rounds once sequence [] ms)
  requests-all_rounds fuel [] s payloads ms h gives f =
      no_requests fuel _ ∙ ap some (sym (all_rounds-nil [] ms))
  requests-all_rounds zero (x ∷ xs) s payloads ms h gives f = absurd (omega arith)
  requests-all_rounds (suc n) (x ∷ xs) s payloads _ h (ended _ s' s'' v v') f =
      rw (fresh payloads s h) (requests-stop n (x ∷ xs) _ (no_payload n x xs s s' s'' v v'))
  requests-all_rounds (suc n) (x ∷ xs) s payloads _ h (given _ s' m ms v gives) f =
      rw (fresh payloads s h) (
        first_call n x xs s s' m v
        ∙ requests-running (suc n) x xs 0 m s' [] ms (omega arith) gives f)
