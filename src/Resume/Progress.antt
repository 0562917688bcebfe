-- ===== src/Resume/Progress.antt =====
-- What a scan that is resumed leaves out: the runs of executeTemplateWithTargets() in
-- pkg/core/executors.go as a step relation, and Compile() of pkg/types/resume.go on what they save.
use mathlib.Core.Bool.{true≢false, false≢true}
use webapp_sec_tools.Prelude.{
  ℕ, ◌+◌, ◌^◌, ◌<◌, ◌≤◌, Bool, true, false, not, ◌||◌, [], ◌∷◌, ◌≡◌, refl, sym, ap, ◌∙◌, ltb, arith,
  Bool-cases, inl, inr,
}
use webapp_sec_tools.Prelude.NumSet.{
  NumSet, has_number, add_number, discard_number, has_number-add, has_number-discard,
}
use webapp_sec_tools.Resume.Info.{
  ResumeInfo, new_info, compile_info, written_info, clone_info, copy_set, least, max_uint32,
  is_empty_set,
}
use webapp_sec_tools.Resume.Targets.{Run, skips, start_target, finish_target, complete}

abbrev pub fresh : Run
fresh = record { index = 0; info = new_info; running = []; finished = [] }

-- What happens while a template runs on its targets, in any order that the goroutines allow.
pub data Step (from : ResumeInfo) : Run → Run → Type 0 where
  start :
      (failing : Bool) (r : Run)
      → r.index + 1 < 2 ^ 32
      → r.info.completed ≡ false
      → Step from r (start_target from failing r).0
  finish : (i : ℕ) (r : Run) → has_number i r.running ≡ true → Step from r (finish_target i r)
  end : (r : Run) → r.running ≡ [] → Step from r (complete r)

pub data Reach (from : ResumeInfo) : Run → Type 0 where
  here : Reach from fresh
  next : {r s : Run} → Reach from r → Step from r s → Reach from s

-- A target that has its index is running or has ended, and one that runs is in flight. No index is in
-- flight above the next one.
pub record IsTracked (r : Run) : Type 0 where
  pub started : (i : ℕ) → i < r.index → (has_number i r.running || has_number i r.finished) ≡ true
  pub tracked : (i : ℕ) → has_number i r.running ≡ true → has_number i r.info.in_flight ≡ true
  pub below : (i : ℕ) → has_number i r.info.in_flight ≡ true → i < r.index + 1
  pub ended : r.info.completed ≡ true → r.running ≡ []

start-IsTracked :
    (from : ResumeInfo) (failing : Bool) (r : Run)
    → r.index + 1 < 2 ^ 32
    → r.info.completed ≡ false
    → IsTracked r
    → IsTracked (start_target from failing r).0
unfolding start_target
start-IsTracked from true r b c t = record {
  started = t.started;
  tracked = λ i h. ground (arith, has_number-add r.index i r.info.in_flight, t.tracked i h);
  below = λ i h. ground (arith, has_number-add r.index i r.info.in_flight, t.below i, h);
  ended = t.ended;
}
start-IsTracked from false r b c t = record {
  started = λ i h. ground (arith, h, b, has_number-add r.index i r.running, t.started i);
  tracked = λ i h. ground (
    arith,
    h,
    has_number-add r.index i r.info.in_flight,
    has_number-add r.index i r.running,
    t.tracked i,
  );
  below = λ i h. ground (arith, b, has_number-add r.index i r.info.in_flight, t.below i, h);
  ended = λ h. ground (arith, h, c);
}

finish-IsTracked :
    (i : ℕ) (r : Run) → has_number i r.running ≡ true → IsTracked r → IsTracked (finish_target i r)
unfolding finish_target discard_number
finish-IsTracked i r m t = record {
  started = λ k h.
      ground
        (arith, h, has_number-discard i k r.running, has_number-add i k r.finished, t.started k);
  tracked = λ k h. ground (
    arith,
    h,
    has_number-discard i k r.running,
    has_number-discard i k r.info.in_flight,
    t.tracked k,
  );
  below = λ k h. ground (arith, has_number-discard i k r.info.in_flight, t.below k, h);
  ended = λ h. ap (discard_number i) (t.ended h);
}

complete-IsTracked : (r : Run) → r.running ≡ [] → IsTracked r → IsTracked (complete r)
unfolding complete
complete-IsTracked r e t = record {
  started = t.started;
  tracked = t.tracked;
  below = t.below;
  ended = λ h. e;
}

Step-IsTracked : {from : ResumeInfo} {r s : Run} → Step from r s → IsTracked r → IsTracked s
Step-IsTracked {from} (start failing r b c) t = start-IsTracked from failing r b c t
Step-IsTracked (finish i r m) t = finish-IsTracked i r m t
Step-IsTracked (end r e) t = complete-IsTracked r e t

Reach-IsTracked : {from : ResumeInfo} {r : Run} → Reach from r → IsTracked r
unfolding has_number
Reach-IsTracked here = record {
  started = λ i h. elim h [ ];
  tracked = λ i h. h;
  below = λ i h. ground (arith, h);
  ended = λ h. refl;
}
Reach-IsTracked (next w s) = Step-IsTracked s (Reach-IsTracked w)

least-le-start : (s : NumSet) (min : ℕ) → least s min ≤ min
unfolding least
least-le-start [] min = omega arith
least-le-start (n ∷ s) min = ground (arith, least-le-start s min, least-le-start s n)

-- Every index of the set is at least the least, which is one of them or the start.
least-le : (i : ℕ) (s : NumSet) (min : ℕ) → has_number i s ≡ true → least s min ≤ i
unfolding least has_number
least-le i [] min h = absurd (false≢true h)
least-le i (n ∷ s) min h =
    ground (arith, least-le i s min, least-le i s n, least-le-start s n, least-le-start s min, h)

has_number-copy :
    (i : ℕ) (s copy : NumSet)
    → has_number i (copy_set s copy) ≡ (has_number i s || has_number i copy)
unfolding copy_set has_number
has_number-copy i [] copy = refl
has_number-copy i (n ∷ s) copy =
    ground (arith, has_number-copy i s (add_number n copy), has_number-add n i copy)

has_number-clone : (i : ℕ) (s : NumSet) → has_number i (copy_set s []) ≡ has_number i s
unfolding has_number
has_number-clone i s = ground (arith, has_number-copy i s [])

-- What the next scan reads of a run that is interrupted, compiled.
unfoldable pub resumed : Run → ResumeInfo
unfolding compile_info written_info clone_info
resumed r = compile_info (written_info (clone_info r.info))

skips-window :
    (from : ResumeInfo) (i : ℕ) → skips from i ≡ (from.completed || ltb i from.skip_under)
unfolding skips
skips-window from i = ground arith

some-in_set : (s : NumSet) → is_empty_set s ≡ false → (j : ℕ) × (has_number j s ≡ true)
unfolding has_number
some-in_set [] h = absurd (true≢false h)
some-in_set (n ∷ s) h = (n, ground arith)

-- A target that has its index and is not in flight has ended.
IsTracked-finished :
    (r : Run) (i : ℕ)
    → IsTracked r
    → i < r.index
    → has_number i r.running ≡ false
    → has_number i r.finished ≡ true
IsTracked-finished r i t b h = ground (arith, t.started i b, h)

-- Before the template is completed the window begins at the least index in flight.
window-below :
    (r : Run) (i : ℕ)
    → IsTracked r
    → is_empty_set r.info.in_flight ≡ false
    → i < least (copy_set r.info.in_flight []) max_uint32
    → (i < r.index) × (has_number i r.running ≡ false)
unfolding has_number
window-below r i t h b =
    let (j, m) = some-in_set r.info.in_flight h in
    let f = copy_set r.info.in_flight [] in
    let least_j = least-le j f max_uint32 (has_number-clone j r.info.in_flight ∙ m) in
    (
      omega (arith, least_j, t.below j m, b),
      elim (Bool-cases (has_number i r.running)) [
        | inr n ↦ n
        | inl n ↦
            let least_i =
              least-le i f max_uint32 (has_number-clone i r.info.in_flight ∙ t.tracked i n) in
            absurd (omega (arith, least_i, b))
      ],
    )

-- Whatever the order in which the targets of a template start, fail and end: if the scan is interrupted
-- after the template is completed, or while some index is in flight, then of the indices given out the
-- next scan leaves out only those whose goroutine has ended, and none that was not given out yet, unless
-- the template is completed. It is about indices: a target whose host has failed has none of its own, so
-- that where hosts fail an index may stand for another target in the next scan.
pub resume-skips-finished :
    (from : ResumeInfo) (r : Run) (i : ℕ)
    → Reach from r
    → (r.info.completed || not (is_empty_set r.info.in_flight)) ≡ true
    → skips (resumed r) i ≡ true
    → (i < r.index → has_number i r.finished ≡ true) × (r.info.completed ≡ false → i < r.index)
unfolding resumed compile_info written_info clone_info has_number
resume-skips-finished from r i w h k =
    let t = Reach-IsTracked w in
    elim (Bool-cases r.info.completed) [
      | inl c ↦ (
        λ b. IsTracked-finished r i t b (ap (has_number i) (t.ended c)),
        λ n. absurd (true≢false (sym c ∙ n)),
      )
      | inr c ↦
          let (b, n) =
            window-below r i t (ground (arith, h, c))
              (ground (arith, c, k, skips-window (resumed r) i)) in
          (λ l. IsTracked-finished r i t l n, λ l. b)
    ]

-- A template that is saved as not completed, with no target in flight, is left out whole by the next
-- scan: of its targets those with an index below 2^32 - 1 are skipped, whether they ran or not.
pub skips-idle :
    (r : Run) (i : ℕ)
    → r.info.completed ≡ false
    → r.info.in_flight ≡ []
    → skips (resumed r) i ≡ ltb i max_uint32
unfolding resumed compile_info written_info clone_info copy_set least
skips-idle r i c e = skips-window (resumed r) i ∙ rw (c, e) refl
