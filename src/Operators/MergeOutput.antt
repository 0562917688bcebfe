-- ===== src/Operators/MergeOutput.antt =====
-- The output extracts in Merge() of pkg/operators/operators.go.
use webapp_sec_tools.Prelude.{
  String, Bool, true, false, not, ◌&&◌, ◌||◌, Option, none, some, List, [], ◌∷◌, ◌++◌, ◌≡◌, refl,
  ◌∙◌, arith, eq_iff, Bool-cases, Option-cases, inl, inr,
}
use webapp_sec_tools.Prelude.GoSet.{GoSet, has, add, has-add, has-eq}
use webapp_sec_tools.Operators.Types.{Result}
use webapp_sec_tools.Operators.Merge.{entries, merge, merge_output, merge_payloads}

-- No text stands twice.
abbrev pub no_repeat : List String → Bool
no_repeat [] = true
no_repeat (x ∷ xs) = not (has x xs) && no_repeat xs

pub has-append : (x : String) (xs ys : List String) → has x (xs ++ ys) ≡ (has x xs || has x ys)
unfolding has
has-append x [] ys = refl
has-append x (y ∷ xs) ys = ground (arith, has-append x xs ys)

no_repeat-append :
    (xs : List String) (x : String)
    → no_repeat xs ≡ true
    → has x xs ≡ false
    → no_repeat (xs ++ x ∷ []) ≡ true
unfolding has
no_repeat-append [] x h n = refl
no_repeat-append (y ∷ xs) x h n =
    ground (arith, no_repeat-append xs x, has-append y xs (x ∷ []), eq_iff x y, eq_iff y x)

abbrev pub Agree : List String × GoSet → Type 0
Agree (out, seen) = ((x : String) → has x out ≡ has x seen) × (no_repeat out ≡ true)

pub step-Agree :
    (out : List String) (seen : GoSet) (v : String)
    → Agree (out, seen)
    → has v seen ≡ false
    → Agree (out ++ v ∷ [], add v seen)
unfolding has
step-Agree out seen v (a, n) h = (
  λ x. has-append x out (v ∷ []) ∙ ground (arith, a x, has-add v x seen),
  no_repeat-append out v n (a v ∙ h),
)

merge_output-Agree :
    (vs out : List String) (seen : GoSet) → Agree (out, seen) → Agree (merge_output vs out seen)
unfolding merge_output
merge_output-Agree [] out seen a = a
merge_output-Agree (v ∷ vs) out seen a = elim (Bool-cases (has v seen)) [
  | inl h ↦ rw h (merge_output-Agree vs out seen a)
  | inr h ↦ rw h (merge_output-Agree vs (out ++ v ∷ []) (add v seen) (step-Agree out seen v a h))
]

merge_output-has :
    (vs out : List String) (seen : GoSet) (x : String)
    → has x (merge_output vs out seen).1 ≡ (has x vs || has x seen)
unfolding merge_output has
merge_output-has [] out seen x = refl
merge_output-has (v ∷ vs) out seen x = ground (
  arith,
  merge_output-has vs out seen x,
  merge_output-has vs (out ++ v ∷ []) (add v seen) x,
  has-add v x seen,
  has-eq v x seen,
)

merged_outputs : Option Result → Option (List String × GoSet)
merged_outputs none = none
merged_outputs (some r) = some (r.output_extracts, r.output_unique)

merge-outputs :
    (dedupe : List String → List String) (r from merged : Result)
    → merge dedupe r from ≡ some merged
    → (merged.output_extracts, merged.output_unique) ≡ (
        let (out, seen) = merge_output r.output_extracts [] [] in
        merge_output from.output_extracts out seen)
unfolding merge
merge-outputs dedupe r from merged h =
    elim (Option-cases (merge_payloads r.payload_values (entries from.payload_values))) [
      | inl n ↦ ground (arith, n, h)
      | inr (p, n) ↦ ground (arith, n, h)
    ]

-- Where Merge() does not panic, the output extracts of the result hold each text of either result, each
-- once, and `outputUnique` is their set.
pub merge-output_extracts :
    (dedupe : List String → List String) (r from merged : Result) (x : String)
    → merge dedupe r from ≡ some merged
    → (has x merged.output_extracts ≡ (has x r.output_extracts || has x from.output_extracts))
      × (no_repeat merged.output_extracts ≡ true)
      × (has x merged.output_unique ≡ has x merged.output_extracts)
unfolding has
merge-output_extracts dedupe r from merged x h =
    let (out, seen) = merge_output r.output_extracts [] [] in
    let agree = merge_output-Agree r.output_extracts [] [] (λ y. refl, refl) in
    let (same, once) = merge_output-Agree from.output_extracts out seen agree in
    let outputs = merge-outputs dedupe r from merged h in
    let first = merge_output-has r.output_extracts [] [] x in
    let second = merge_output-has from.output_extracts out seen x in
    ground (arith, outputs, same x, once, first, second)
