-- ===== src/Generators/Created.antt =====
-- What New() of pkg/protocols/common/generators/generators.go accepts.
use mathlib.Core.Bool.{true≢false}
use webapp_sec_tools.Prelude.{
  ℕ, ◌<◌, String, Bool, true, false, not, ◌&&◌, Option, none, some, List, [], ◌∷◌, ◌≡◌, refl, sym,
  subst, ap, ◌∙◌, ◌==◌, ltb, arith, All, str_eq, length, if◌then◌else◌, Bool-cases, Option-cases,
  inl, inr, ◌⊎◌,
}
use webapp_sec_tools.Prelude.GoMap.{GoMap}
use webapp_sec_tools.Prelude.Strings.{split_at}
use webapp_sec_tools.Generators.Iterator.{AttackType}
use webapp_sec_tools.Generators.Create.{
  Payload, text_payload, list_payload, level_payload, other_payload, nil_payload, CreateError,
  Created, made, error, Surroundings, probe, validate_payload, validate, load_payload,
  load_payloads, resolve_levels, non_empty_lines, not_loaded, PayloadGenerator, is_battering_ram,
  or_battering_ram, check_single, choose_type, to_attack_type, new,
}

Created-cases {ℓ} :
    {A : Type ℓ} (c : Created A) → ((a : A) × (c ≡ made a)) ⊎ ((e : CreateError) × (c ≡ error e))
Created-cases (made a) = inl (a, refl)
Created-cases (error e) = inr (e, refl)

abbrev is_made {ℓ} : {A : Type ℓ} → Created A → Bool
is_made (made a) = true
is_made (error e) = false

error≢made {ℓ κ} : {A : Type ℓ} {B : Type κ} {e : CreateError} {a : A} → error e ≡ made a → B
error≢made p = absurd (true≢false (sym (ap is_made p)))

made-injective {ℓ} : {A : Type ℓ} (a b : A) → made a ≡ made b → a ≡ b
made-injective {A} a b p = ap (λ (c : Created A). elim c as (λ x. A) [ made x ↦ x | error e ↦ a ]) p

-- Not the outcome that a nil payload has.
abbrev loads : Created (Option (List String)) → Bool
loads (made none) = false
loads _ = true

abbrev pub names {ℓ} : {V : Type ℓ} → GoMap V → List String
names [] = []
names ((k, v) ∷ m) = k ∷ names m

-- A text of one line, or a list with an element.
abbrev pub Valid : Payload → Type 0
Valid (text_payload s) = length (split_at b'\n' s) ≡ 1
Valid (list_payload xs) = 0 < length xs
Valid (level_payload v) = ⊥
Valid other_payload = ⊥
Valid nil_payload = ⊥

abbrev NotNil : Payload → Type 0
NotNil nil_payload = ⊥
NotNil p = Unit

module _ (env : Surroundings) (path : String) where
  -- A text that is accepted stays a text.
  text_made :
      (name s : String) (q : Payload)
      → validate_payload env path name (text_payload s) ≡ made q
      → (length (split_at b'\n' s) ≡ 1) × NotNil q
  unfolding validate_payload
  text_made name s q e = elim (Bool-cases (length (split_at b'\n' s) == 1)) [
    | inr h ↦ error≢made (rw (validate_payload, h) at e)
    | inl h ↦ (
      ground (arith, h),
      elim (Bool-cases (env.file_exists s)) [
        | inl f ↦
            subst NotNil (made-injective (text_payload s) q (rw (validate_payload, h, f) at e)) tt
        | inr f ↦ elim (Bool-cases (env.file_exists (env.in_templates s))) [
          | inl t ↦
              subst NotNil (made-injective (text_payload s) q (rw (validate_payload, h, f, t) at e))
                tt
          | inr t ↦ elim (Option-cases (probe env (env.paths_to_probe path s))) [
            | inl o ↦ error≢made (rw (validate_payload, h, f, t, o) at e)
            | inr (found, o) ↦
                subst NotNil
                  (made-injective (text_payload found) q (rw (validate_payload, h, f, t, o) at e))
                  tt
          ]
        ]
      ],
    )
  ]

  validate_payload-made :
      (name : String) (p q : Payload)
      → validate_payload env path name p ≡ made q
      → Valid p × NotNil q
  unfolding validate_payload
  validate_payload-made name (text_payload s) q e = text_made name s q e
  validate_payload-made name (list_payload xs) q e = elim (Bool-cases (length xs == 0)) [
    | inl h ↦ error≢made (rw h at e)
    | inr h ↦
        let p = made-injective (list_payload xs) q (rw h at e) in
        (ground (arith, h), subst NotNil p tt)
  ]
  validate_payload-made name (level_payload v) q e = error≢made e
  validate_payload-made name other_payload q e = error≢made e
  validate_payload-made name nil_payload q e = error≢made e

  validate-made :
      (ps qs : GoMap Payload)
      → validate env path ps ≡ made qs
      → All (λ (n, p). Valid p) ps × All (λ (n, p). NotNil p) qs × (names qs ≡ names ps)
  unfolding validate
  validate-made [] qs e = let h = made-injective [] qs e in rw (sym h) (tt, tt, refl)
  validate-made ((name, p) ∷ ps) qs e = elim (Created-cases (validate_payload env path name p)) [
    | inr (why, h) ↦ error≢made (rw (validate, h) at e)
    | inl (p', h) ↦ elim (Created-cases (validate env path ps)) [
      | inr (why, k) ↦ error≢made (rw (validate, h, k) at e)
      | inl (ps', k) ↦
          let (v, n) = validate_payload-made name p p' h in
          let (vs, ns, same) = validate-made ps ps' k in
          let q = made-injective ((name, p') ∷ ps') qs (rw (validate, h, k) at e) in
          rw (sym q) ((v, vs), (n, ns), ap (λ ks. name ∷ ks) same)
    ]
  ]

  text_loads : (s : String) → loads (load_payload env path (text_payload s)) ≡ true
  unfolding load_payload
  text_loads s = elim (Bool-cases (ltb 1 (length (split_at b'\n' s)))) [
    | inl h ↦ rw (load_payload, h) refl
    | inr h ↦ elim (Option-cases (env.load_helper_file s path)) [
      | inl o ↦ rw (load_payload, h, o) refl
      | inr ((lines, ok), o) ↦ rw (load_payload, h, o) (either ok lines)
    ]
  ]
    where
      either :
          (ok : Bool) (lines : List String)
          → loads (if ok then made (some (non_empty_lines lines)) else error not_loaded) ≡ true
      either true lines = refl
      either false lines = refl

  text_loaded :
      (s : String) (loaded : Option (List String))
      → load_payload env path (text_payload s) ≡ made loaded
      → (xs : List String) × (loaded ≡ some xs)
  unfolding load_payload
  text_loaded s none e = absurd (true≢false (sym (text_loads s) ∙ ap loads e))
  text_loaded s (some xs) e = (xs, refl)

  load_payload-made :
      (p : Payload) (loaded : Option (List String))
      → NotNil p
      → load_payload env path p ≡ made loaded
      → (xs : List String) × (loaded ≡ some xs)
  unfolding load_payload
  load_payload-made (text_payload s) loaded n e = text_loaded s loaded e
  load_payload-made (list_payload xs) loaded n e = (_, sym (made-injective _ loaded e))
  load_payload-made (level_payload v) loaded n e = (_, sym (made-injective _ loaded e))
  load_payload-made other_payload loaded n e = (_, sym (made-injective _ loaded e))
  load_payload-made nil_payload loaded n e = absurd n

  load-made :
      (ps : GoMap Payload) (qs : GoMap (List String))
      → All (λ (n, p). NotNil p) ps
      → load_payloads env path ps ≡ made qs
      → names qs ≡ names ps
  unfolding load_payloads
  load-made [] qs n e = rw (sym (made-injective [] qs e)) refl
  load-made ((name, p) ∷ ps) qs (n, ns) e = elim (Created-cases (load_payload env path p)) [
    | inr (why, h) ↦ error≢made (rw (load_payloads, h) at e)
    | inl (loaded, h) ↦ elim (Created-cases (load_payloads env path ps)) [
      | inr (why, k) ↦ error≢made (rw (load_payloads, h, k) at e)
      | inl (ps', k) ↦
          let (xs, l) = load_payload-made p loaded n h in
          let q = made-injective ((name, xs) ∷ ps') qs (rw (load_payloads, h, k, l) at e) in
          rw (sym q) (ap (λ ks. name ∷ ks) (load-made ps ps' ns k))
    ]
  ]

-- The attack type that New() sets.
abbrev pub Chosen : AttackType → String → AttackType → Type 0
Chosen t custom chosen =
    if str_eq custom "" then t ≡ chosen else to_attack_type custom ≡ some chosen

check_single-made :
    (t chosen : AttackType) (count : ℕ) (compiled : GoMap (List String)) (g : PayloadGenerator)
    → check_single t count compiled chosen ≡ made g
    → (is_battering_ram t ≡ true → count ≡ 1) × (g.payloads ≡ compiled) × (chosen ≡ g.attack_type)
unfolding check_single
check_single-made t chosen count compiled g e =
    elim (Bool-cases (is_battering_ram t && not (count == 1))) [
      | inl h ↦ error≢made (rw h at e)
      | inr h ↦
          let q =
            made-injective (record { attack_type = chosen; payloads = compiled }) g (rw h at e) in
          (
            λ b. ground (arith, h, b),
            sym (ap (λ (x : PayloadGenerator). x.payloads) q),
            ap (λ (x : PayloadGenerator). x.attack_type) q,
          )
    ]

choose_type-made :
    (t : AttackType) (custom : String) (count : ℕ) (compiled : GoMap (List String))
    (g : PayloadGenerator)
    → choose_type t custom count compiled ≡ made g
    → (is_battering_ram t ≡ true → count ≡ 1)
      × (g.payloads ≡ compiled)
      × Chosen t custom g.attack_type
unfolding choose_type
choose_type-made t custom count compiled g e = elim (Bool-cases (str_eq custom "")) [
  | inl h ↦ rw h (check_single-made t t count compiled g (rw (choose_type, h) at e))
  | inr h ↦ elim (Option-cases (to_attack_type custom)) [
    | inl o ↦ error≢made (rw (choose_type, h, o) at e)
    | inr (t', o) ↦
        let (b, p, c) = check_single-made t t' count compiled g (rw (choose_type, h, o) at e) in
        rw (h, o) (b, p, ap some c)
  ]
]

-- Where New() succeeds, every payload set is a text of one line or a list with an element, once the
-- levels are resolved; the generator has an entry for each of them under its name; its type is that of
-- the custom attack type or, without one, the given type with batteringram as the default. Where the
-- given type, with this default, is batteringram there was one payload set, whatever the custom attack
-- type; a custom batteringram is not held to one payload set.
pub new-made :
    (env : Surroundings) (payloads : GoMap Payload) (attack_type : AttackType)
    (path custom aggression : String) (g : PayloadGenerator)
    → new env payloads attack_type path custom aggression ≡ made g
    → (final : GoMap Payload) × (resolve_levels aggression payloads [] ≡ made final)
      × All (λ (n, p). Valid p) final
      × (names g.payloads ≡ names final)
      × Chosen (or_battering_ram attack_type) custom g.attack_type
      × (is_battering_ram (or_battering_ram attack_type) ≡ true → length payloads ≡ 1)
unfolding new
new-made env payloads attack_type path custom aggression g e =
    elim (Created-cases (resolve_levels aggression payloads [])) [
      | inr (why, r) ↦ error≢made (rw (new, r) at e)
      | inl (final, r) ↦ elim (Created-cases (validate env path final)) [
        | inr (why, v) ↦ error≢made (rw (new, r, v) at e)
        | inl (final', v) ↦ elim (Created-cases (load_payloads env path final')) [
          | inr (why, l) ↦ error≢made (rw (new, r, v, l) at e)
          | inl (compiled, l) ↦
              let (valid, filled, same) = validate-made env path final final' v in
              let (single, p, chosen) =
                choose_type-made (or_battering_ram attack_type) custom (length payloads) compiled g
                  (rw (new, r, v, l) at e) in
              (
                final,
                r,
                valid,
                rw p (load-made env path final' compiled filled l ∙ same),
                chosen,
                single,
              )
        ]
      ]
    ]
