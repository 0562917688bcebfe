-- ===== src/Generators/Reset.antt =====
-- `Reset` after a call of `Value`, of pkg/protocols/common/generators/generators.go.
use webapp_sec_tools.Prelude.{
  ℕ, zero, suc, ◌+◌, String, Bool, true, false, not, List, [], ◌∷◌, ◌≡◌, refl, ap, ◌∙◌, arith, map,
  some, Option-cases, Bool-cases, inl, inr, length, get_elem?, set,
}
use webapp_sec_tools.Prelude.GoMap.{GoMap, put}
use webapp_sec_tools.Generators.Iterator.{
  PayloadIterator, Iterator, AttackType, unspecified, battering_ram, pitch_fork, cluster_bomb,
  has_next, value, int_lt, reset, reset_position, increment_position,
}
use webapp_sec_tools.Generators.Values.{
  Sweep, swept, stopped, faulted, sweep_cons, pitchfork_loop, pitchfork_value, Pass, complete,
  restart, fault, pass_cons, signalled, wrapped, stepped, clusterbomb_loop, iterator_reset,
  clusterbomb_value, battering_ram_value, value_of_type, next_value,
}

abbrev rewound : List PayloadIterator → List PayloadIterator
rewound = map reset_position

abbrev sweep_payloads : Sweep → List PayloadIterator
sweep_payloads (swept m ps) = ps
sweep_payloads (stopped ps) = ps
sweep_payloads (faulted ps) = ps

abbrev pass_payloads : Pass → List PayloadIterator
pass_payloads (complete m ps) = ps
pass_payloads (restart ps) = ps
pass_payloads (fault ps) = ps

sweep_cons-payloads :
    (p : PayloadIterator) (s : Sweep) → sweep_payloads (sweep_cons p s) ≡ p ∷ sweep_payloads s
unfolding sweep_cons
sweep_cons-payloads p (swept m ps) = refl
sweep_cons-payloads p _ = refl

pass_cons-payloads :
    (p : PayloadIterator) (s : Pass) → pass_payloads (pass_cons p s) ≡ p ∷ pass_payloads s
unfolding pass_cons
pass_cons-payloads p (complete m ps) = refl
pass_cons-payloads p _ = refl

pitchfork_loop-rewound :
    (acc : GoMap String) (ps : List PayloadIterator)
    → rewound (sweep_payloads (pitchfork_loop acc ps)) ≡ rewound ps
unfolding pitchfork_loop reset_position
pitchfork_loop-rewound acc [] = refl
pitchfork_loop-rewound acc (p ∷ ps) = elim (Option-cases (value p)) [
  | inl e ↦ ground arith
  | inr (v, e) ↦ ground (
    arith,
    sweep_cons-payloads (increment_position p) (pitchfork_loop (put p.name v acc) ps),
    pitchfork_loop-rewound (put p.name v acc) ps,
  )
]

clusterbomb_loop-rewound :
    (msb index : ℕ) (signal first : Bool) (acc : GoMap String) (ps : List PayloadIterator)
    → rewound (pass_payloads (clusterbomb_loop msb index signal first acc ps)) ≡ rewound ps
unfolding clusterbomb_loop reset_position
clusterbomb_loop-rewound msb index signal first acc [] = refl
clusterbomb_loop-rewound msb index signal first acc (p ∷ ps) =
    let p' = signalled signal p in
    elim (Option-cases (value (wrapped p'))) [
      | inl e ↦ ground arith
      | inr (v, e) ↦
          let rest =
            clusterbomb_loop msb (index + 1) (not (has_next p')) false (put p.name v acc) ps in
          ground (
            arith,
            pass_cons-payloads (stepped first (wrapped p')) rest,
            clusterbomb_loop-rewound msb (index + 1) (not (has_next p')) false (put p.name v acc)
                ps,
          )
    ]

iterator_reset-rewound :
    (msb index : ℕ) (ps : List PayloadIterator) → rewound (iterator_reset msb index ps) ≡ rewound ps
unfolding iterator_reset
iterator_reset-rewound msb index [] = refl
iterator_reset-rewound msb index (p ∷ ps) =
    ground (arith, iterator_reset-rewound msb (index + 1) ps)

set-rewound :
    (ps : List PayloadIterator) (k : ℕ) (p : PayloadIterator)
    → get_elem? ps k ≡ some p
    → rewound (set ps k (increment_position p)) ≡ rewound ps
unfolding reset_position increment_position
set-rewound [] k p e = refl
set-rewound (q ∷ ps) zero p e = ground arith
set-rewound (q ∷ ps) (suc k) p e = ap (◌∷◌ (reset_position q)) (set-rewound ps k p e)

-- What `Reset` keeps.
reset_eq :
    (i j : Iterator)
    → i.attack_type ≡ j.attack_type
    → i.total ≡ j.total
    → rewound i.payloads ≡ rewound j.payloads
    → reset i ≡ reset j
unfolding reset
reset_eq i j t n e = ground arith

-- The iterator that `clusterbombValue` calls itself with.
again : Iterator → List PayloadIterator → Iterator
again i ps = record i {
  msb_iterator = i.msb_iterator + 1;
  payloads = iterator_reset (i.msb_iterator + 1) 0 ps;
}

after_pass :
    (fuel : ℕ) (i : Iterator) (r : Pass)
    → clusterbomb_loop i.msb_iterator 0 false true [] i.payloads ≡ r
    → rewound (pass_payloads r) ≡ rewound i.payloads
    → ((ps : List PayloadIterator)
        → reset (clusterbomb_value fuel (again i ps)).1 ≡ reset (again i ps))
    → reset (clusterbomb_value (suc fuel) i).1 ≡ reset i
unfolding clusterbomb_value again
after_pass fuel i (restart ps) e w ih = elim (Bool-cases (int_lt i.position i.total)) [
  | inl more ↦
      rw (more, e)
        (ih ps
          ∙ reset_eq (again i ps) i refl refl
              (iterator_reset-rewound (i.msb_iterator + 1) 0 ps ∙ w))
  | inr done ↦ rw done
]
after_pass fuel i (complete m ps) e w ih = elim (Bool-cases (int_lt i.position i.total)) [
  | inl more ↦ rw (more, e) (reset_eq _ i refl refl w)
  | inr done ↦ rw done
]
after_pass fuel i (fault ps) e w ih = elim (Bool-cases (int_lt i.position i.total)) [
  | inl more ↦ rw (more, e) (reset_eq _ i refl refl w)
  | inr done ↦ rw done
]

battering_ram-reset : (fuel : ℕ) (i : Iterator) → reset (battering_ram_value fuel i).1 ≡ reset i
unfolding battering_ram_value reset
battering_ram-reset zero i = refl
battering_ram-reset (suc fuel) i = elim (Option-cases (get_elem? i.payloads i.msb_iterator)) [
  | inl e ↦ ground arith
  | inr (p, e) ↦ ground (
    arith,
    set-rewound i.payloads i.msb_iterator p e,
    battering_ram-reset fuel (record i { msb_iterator = i.msb_iterator + 1 }),
  )
]

pitchfork-reset : (i : Iterator) → reset (pitchfork_value i).1 ≡ reset i
unfolding pitchfork_value reset
pitchfork-reset i = ground (arith, pitchfork_loop-rewound [] i.payloads)

clusterbomb-reset : (fuel : ℕ) (i : Iterator) → reset (clusterbomb_value fuel i).1 ≡ reset i
clusterbomb-reset zero i = unfold clusterbomb_value in refl
clusterbomb-reset (suc fuel) i =
    after_pass fuel i (clusterbomb_loop i.msb_iterator 0 false true [] i.payloads) refl
      (clusterbomb_loop-rewound i.msb_iterator 0 false true [] i.payloads)
      (λ ps. clusterbomb-reset fuel (again i ps))

value_of_type-reset :
    (t : AttackType) (fuel : ℕ) (i : Iterator) → reset (value_of_type t fuel i).1 ≡ reset i
unfolding value_of_type
value_of_type-reset battering_ram fuel i = battering_ram-reset fuel i
value_of_type-reset unspecified fuel i = battering_ram-reset fuel i
value_of_type-reset pitch_fork fuel i = pitchfork-reset i
value_of_type-reset cluster_bomb fuel i = clusterbomb-reset fuel i

-- Whatever the attack type, the state of the iterator and what the call of `Value` returns, a panic
-- included, the iterator is afterwards reset to what it would have been reset to before.
pub reset-next_value : (i : Iterator) → reset (next_value i).1 ≡ reset i
unfolding next_value
reset-next_value i = value_of_type-reset i.attack_type (suc (length i.payloads)) i
