-- ===== src/Generators/Odometer.antt =====
-- The clusterbomb iterator read as a counter in mixed radix: the first payload is the lowest digit.
-- It holds `k` before the call that returns combination `k`, with the first digit possibly at its
-- radix, since the code increments it as soon as it has been read.
use webapp_sec_tools.Prelude.{
  ℕ, zero, suc, ◌+◌, ◌*◌, ◌/◌, ◌%◌, ◌<◌, ◌≤◌, String, List, [], ◌∷◌, ◌≡◌, refl, ap, length, get_or,
  arith,
}
use webapp_sec_tools.Prelude.GoMap.{GoMap, put}
use webapp_sec_tools.Generators.Iterator.{PayloadIterator}

-- The `k`-th combination of one value from each list, written over `acc`.
abbrev pub combination : ℕ → GoMap (List String) → GoMap String → GoMap String
combination k [] acc = acc
combination k ((name, values) ∷ g) acc =
    combination (k / length values) g (put name (get_or values (k % length values) "") acc)

-- The number of combinations.
abbrev pub combinations : GoMap (List String) → ℕ
combinations [] = 1
combinations ((name, values) ∷ g) = length values * combinations g

abbrev pub NonEmpty : GoMap (List String) → Type 0
NonEmpty [] = Unit
NonEmpty ((name, values) ∷ g) = (0 < length values) × NonEmpty g

-- The payload lists that the iterators run over.
abbrev pub lists_of : List PayloadIterator → GoMap (List String)
lists_of [] = []
lists_of (p ∷ ps) = (p.name, p.values) ∷ lists_of ps

abbrev pub size : PayloadIterator → ℕ
size p = length p.values

-- The number that the digits hold.
abbrev pub number : List PayloadIterator → ℕ
number [] = 0
number (p ∷ ps) = p.index + size p * number ps

-- The product of the first `m` radices.
abbrev pub radix : ℕ → GoMap (List String) → ℕ
radix zero g = 1
radix (suc m) [] = 1
radix (suc m) ((name, values) ∷ g) = length values * radix m g

abbrev pub Zeros : List PayloadIterator → Type 0
Zeros [] = Unit
Zeros (p ∷ ps) = (p.index ≡ 0) × (0 < size p) × Zeros ps

-- All digits are below their radices, and those behind place `m` are zero.
abbrev pub Digits : ℕ → List PayloadIterator → Type 0
Digits m [] = Unit
Digits zero (p ∷ ps) = (p.index < size p) × Zeros ps
Digits (suc m) (p ∷ ps) = (p.index < size p) × Digits m ps

-- No list is empty, and the digits from place `m` on are zero.
abbrev pub ZerosFrom : ℕ → List PayloadIterator → Type 0
ZerosFrom zero ps = Zeros ps
ZerosFrom (suc m) [] = Unit
ZerosFrom (suc m) (p ∷ ps) = (0 < size p) × ZerosFrom m ps

-- One at place `m` and zero elsewhere.
abbrev pub UnitAt : ℕ → List PayloadIterator → Type 0
UnitAt m [] = ⊥
UnitAt zero (p ∷ ps) = (p.index ≡ 1) × (0 < size p) × Zeros ps
UnitAt (suc m) (p ∷ ps) = (p.index ≡ 0) × (0 < size p) × UnitAt m ps

-- Behind the lowest digit, the places up to the most significant one in use.
abbrev pub Tail : ℕ → List PayloadIterator → Type 0
Tail zero ps = Zeros ps
Tail (suc m) ps = Digits m ps

-- Between two calls: the lowest digit may stand at its radix.
abbrev pub Ready : ℕ → List PayloadIterator → Type 0
Ready msb [] = Unit
Ready msb (p ∷ ps) = (p.index ≤ size p) × (0 < size p) × Tail msb ps

pub number-Zeros : (ps : List PayloadIterator) → Zeros ps → number ps ≡ 0
number-Zeros [] h = refl
number-Zeros (p ∷ ps) (i, pos, h) = grind (arith, number-Zeros ps h)

pub number-UnitAt :
    (m : ℕ) (ps : List PayloadIterator) → UnitAt m ps → number ps ≡ radix m (lists_of ps)
number-UnitAt m [] h = elim h [ ]
number-UnitAt zero (p ∷ ps) (i, pos, h) = grind (arith, number-Zeros ps h)
number-UnitAt (suc m) (p ∷ ps) (i, pos, h) = grind (arith, number-UnitAt m ps h)

pub Zeros-Digits : (m : ℕ) (ps : List PayloadIterator) → Zeros ps → Digits m ps
Zeros-Digits zero [] h = tt
Zeros-Digits (suc m) [] h = tt
Zeros-Digits zero (p ∷ ps) (i, pos, h) = (omega arith, h)
Zeros-Digits (suc m) (p ∷ ps) (i, pos, h) = (omega arith, Zeros-Digits m ps h)

pub radix_all : (m : ℕ) (g : GoMap (List String)) → length g ≤ m → radix m g ≡ combinations g
radix_all zero [] h = refl
radix_all (suc m) [] h = refl
radix_all zero (p ∷ g) h = absurd (omega arith)
radix_all (suc m) (p ∷ g) h = rw (radix_all m g (omega arith))

pub length-lists_of : (ps : List PayloadIterator) → length (lists_of ps) ≡ length ps
length-lists_of [] = refl
length-lists_of (p ∷ ps) = ap suc (length-lists_of ps)

pub length-same : (ps qs : List PayloadIterator) → lists_of ps ≡ lists_of qs → length ps ≡ length qs
length-same ps qs e = omega (arith, ap (length {0}) e, length-lists_of ps, length-lists_of qs)
