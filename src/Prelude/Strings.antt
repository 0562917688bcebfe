-- ===== src/Prelude/Strings.antt =====
-- The functions of Go's package strings that the program calls, over the native texts. Case mapping
-- and blanks are those of ASCII. A text is read as its characters where Go reads its bytes.
use Prim.Native.Nat.{ℕ, zero, suc, ◌-◌, ◌/◌, ◌%◌}
use Prim.Native.Char.{Char, code}
use Prim.Native.String.{String, char_at}
use Prim.Native.String.{◌++◌ as append}
use mathlib.Core.Path.{◌≡◌, refl}
use mathlib.Core.Bool.{Bool, true, false, ◌&&◌, ◌||◌}
use mathlib.Core.Option.{none, some}
use mathlib.Core.List.{List, [], ◌∷◌}
use text.Mathlib.Text.{find?, starts_with}
use webapp_sec_tools.Prelude.Tests.{leb, ◌==◌, str_eq, if◌then◌else◌}

-- strings.Contains(s, sub)
unfoldable pub contains : String → String → Bool
contains s sub = elim (find? s sub) [ some k ↦ true | none ↦ false ]

-- strings.HasPrefix(s, prefix)
unfoldable pub has_prefix : String → String → Bool
has_prefix s prefix = starts_with s prefix

lower_char : Char → Char
lower_char c =
    if leb b'A' (code c) && leb (code c) b'Z'
    then char_at "abcdefghijklmnopqrstuvwxyz" (code c - b'A')
    else c

-- strings.ToLower(s)
unfoldable pub to_lower : String → String
unfolding lower_char
to_lower String.[] = String.[]
to_lower (String.◌∷◌ c s) = String.◌∷◌ (lower_char c) (to_lower s)

-- strings.EqualFold(s, t)
unfoldable pub equal_fold : String → String → Bool
unfolding to_lower
equal_fold s t = str_eq (to_lower s) (to_lower t)

is_blank : Char → Bool
is_blank c = code c == b' ' || code c == b'\t' || code c == b'\n' || code c == b'\r'

trim_left : String → String
unfolding is_blank
trim_left String.[] = String.[]
trim_left (String.◌∷◌ c s) = let rest = trim_left s in if is_blank c then rest else String.◌∷◌ c s

trim_right : String → String
unfolding is_blank
trim_right String.[] = String.[]
trim_right (String.◌∷◌ c s) =
    let rest = trim_right s in if is_blank c && str_eq rest "" then String.[] else String.◌∷◌ c rest

-- strings.TrimSpace(s)
unfoldable pub trim_space : String → String
unfolding trim_left trim_right
trim_space s = trim_right (trim_left s)

add_to_first : Char → List String → List String
add_to_first c [] = String.◌∷◌ c "" ∷ []
add_to_first c (s ∷ ss) = String.◌∷◌ c s ∷ ss

-- strings.Split(s, sep), for a separator of one character
unfoldable pub split_at : ℕ → String → List String
unfolding add_to_first
split_at sep String.[] = "" ∷ []
split_at sep (String.◌∷◌ c s) =
    let rest = split_at sep s in if code c == sep then "" ∷ rest else add_to_first c rest

-- strings.Join(parts, sep)
unfoldable pub join : String → List String → String
join sep [] = ""
join sep (s ∷ []) = s
join sep (s ∷ t ∷ ss) = append s (append sep (join sep (t ∷ ss)))

digits_onto : ℕ → ℕ → String → String
digits_onto zero n acc = acc
digits_onto (suc fuel) n acc =
    let acc' = String.◌∷◌ (char_at "0123456789" (n % 10)) acc in
    let rest = digits_onto fuel (n / 10) acc' in if n / 10 == 0 then acc' else rest

-- strconv.Itoa(n) and fmt's %d, for a number that is not negative
unfoldable pub itoa : ℕ → String
unfolding digits_onto
itoa n = digits_onto (suc n) n ""

strings_test :
    ((to_lower "Ab-Z9" ≡ "ab-z9") × (trim_space " \ta b\n" ≡ "a b") × (itoa 120 ≡ "120"))
    × (split_at b',' "a,b,,c" ≡ "a" ∷ "b" ∷ "" ∷ "c" ∷ [])
    × (contains "hello" "ell" ≡ true)
    × (contains "hello" "elo" ≡ false)
unfolding to_lower trim_space itoa split_at contains
strings_test = ((refl, refl, refl), refl, refl, refl)
