-- ===== src/Matchers/Ready.antt =====
-- What a matcher that `CompileMatchers` accepts has.
use webapp_sec_tools.Prelude.{
  ◌+◌, String, Bool, true, Option, some, List, [], ◌∷◌, ◌++◌, str_eq, length, length-append,
  length-map, ◌≡◌, ◌≢◌, refl, sym, ap, ◌∙◌, arith, inl, inr, Bool-cases, Option-cases,
}
use webapp_sec_tools.Prelude.Strings.{to_lower}
use webapp_sec_tools.Matchers.Types.{
  ConditionType, no_condition, condition_types, words_matcher, Matcher, to_matcher_types,
  type_string,
}
use webapp_sec_tools.Matchers.Compile.{
  CompileError, Compiled, accepted, refused, ◌>>=◌, is_type, validate, compile_all, decode_word,
  set_condition, bad_regex, bad_binary, bad_dsl,
}
use webapp_sec_tools.Matchers.CompileMatchers.{
  decode_words, set_type, default_part, lower_words, assemble, compile_patterns, compile_matchers,
}

pub >>=-eq-accepted {ℓ κ} :
    {A : Type ℓ} {B : Type κ} (m : Compiled A) (f : A → Compiled B) {b : B}
    → (m >>= f) ≡ accepted b
    → (a : A) × (m ≡ accepted a) × (f a ≡ accepted b)
>>=-eq-accepted (accepted a) f h = (a, refl, h)
>>=-eq-accepted (refused e) f h = cc

length-compile_all :
    {A : Type 0} (f : String → Option A) (fail : String → CompileError) (ss : List String)
    {found : List A}
    → compile_all f fail ss ≡ accepted found
    → length found ≡ length ss
unfolding compile_all
length-compile_all f fail [] h = ground arith
length-compile_all f fail (s ∷ ss) {found} h = elim (Option-cases (f s)) [
  | inl e ↦ ground arith
  | inr (a, e) ↦
      let h' : (compile_all f fail ss >>= λ l. accepted (a ∷ l)) ≡ accepted found =
        rw (e, compile_all) at h in
      let (rest, r, g) = >>=-eq-accepted (compile_all f fail ss) (λ l. accepted (a ∷ l)) h' in
      ground (arith, length-compile_all f fail ss r)
]

set_condition-ne-none :
    (name : String) {c : ConditionType} → set_condition name ≡ accepted c → c ≢ no_condition
unfolding set_condition condition_types
set_condition-ne-none name h = ground arith

module _ {Regex Dsl : Type 0} (regex_compile : String → Option Regex)
    (dsl_compile : String → Option Dsl) (xpath_ok : String → Bool)
    (decode : String → Option String) where
  -- What `CompileMatchers` promises of `m`, compiled from `old`.
  pub record IsReady (old m : Matcher Regex Dsl) : Type 0 where
    pub condition_set : m.condition ≢ no_condition
    pub regexes : length m.regex_compiled ≡ length old.regex_compiled + length m.regex
    pub binaries : length m.binary_decoded ≡ length old.binary_decoded + length m.binary
    pub exprs : length m.dsl_compiled ≡ length old.dsl_compiled + length m.dsl
    pub words_only : m.case_insensitive ≡ true → is_type m.type words_matcher ≡ true
    pub same_number : length m.words ≡ length old.words
    pub typed : to_matcher_types (type_string m.type) ≡ some m.matcher_type

  abbrev compile : Matcher Regex Dsl → Compiled (Matcher Regex Dsl)
  compile = compile_matchers regex_compile dsl_compile xpath_ok decode

  record Assembled (m m' : Matcher Regex Dsl) (rs : Compiled (List Regex))
      (bs : Compiled (List String)) (ds : Compiled (List Dsl)) (c : Compiled ConditionType)
      : Type 0 where
    regexes : List Regex
    binaries : List String
    exprs : List Dsl
    condition : ConditionType
    regexes_are : rs ≡ accepted regexes
    binaries_are : bs ≡ accepted binaries
    exprs_are : ds ≡ accepted exprs
    condition_is : c ≡ accepted condition
    result_is :
        record m {
          regex_compiled = m.regex_compiled ++ regexes;
          binary_decoded = m.binary_decoded ++ binaries;
          dsl_compiled = m.dsl_compiled ++ exprs;
          condition = condition;
        }
        ≡ m'

  assemble-lem :
      (m : Matcher Regex Dsl) (rs : Compiled (List Regex)) (bs : Compiled (List String))
      (ds : Compiled (List Dsl)) (c : Compiled ConditionType) {m' : Matcher Regex Dsl}
      → assemble regex_compile dsl_compile xpath_ok decode m rs bs ds c ≡ accepted m'
      → Assembled m m' rs bs ds c
  unfolding assemble
  assemble-lem m (refused e) bs ds c h = cc
  assemble-lem m (accepted rs) (refused e) ds c h = cc
  assemble-lem m (accepted rs) (accepted bs) (refused e) c h = cc
  assemble-lem m (accepted rs) (accepted bs) (accepted ds) (refused e) h = cc
  assemble-lem m (accepted rs) (accepted bs) (accepted ds) (accepted c) h = record {
    regexes = rs;
    binaries = bs;
    exprs = ds;
    condition = c;
    regexes_are = refl;
    binaries_are = refl;
    exprs_are = refl;
    condition_is = refl;
    result_is = cc;
  }

  -- The fields that a stage keeps.
  record Keeps (a b : Matcher Regex Dsl) : Type 0 where
    type : b.type ≡ a.type
    regex : b.regex ≡ a.regex
    binary : b.binary ≡ a.binary
    dsl : b.dsl ≡ a.dsl
    words : length b.words ≡ length a.words
    case_insensitive : b.case_insensitive ≡ a.case_insensitive

  record Same (a b : Matcher Regex Dsl) : Type 0 where
    regex_compiled : b.regex_compiled ≡ a.regex_compiled
    binary_decoded : b.binary_decoded ≡ a.binary_decoded
    dsl_compiled : b.dsl_compiled ≡ a.dsl_compiled

  decode_words-lem :
      (a : Matcher Regex Dsl)
      → Keeps a (decode_words regex_compile dsl_compile xpath_ok decode a)
        × Same a (decode_words regex_compile dsl_compile xpath_ok decode a)
  unfolding decode_words
  decode_words-lem a = (
    record {
      type = refl;
      regex = refl;
      binary = refl;
      dsl = refl;
      case_insensitive = refl;
      words = elim (Bool-cases (str_eq a.encoding "hex")) [
        | inl e ↦ rw e (length-map a.words (decode_word decode))
        | inr e ↦ rw e
      ];
    },
    record { regex_compiled = refl; binary_decoded = refl; dsl_compiled = refl },
  )

  set_type-lem :
      (a : Matcher Regex Dsl) {b : Matcher Regex Dsl}
      → set_type regex_compile dsl_compile xpath_ok decode a ≡ accepted b
      → Keeps a b × Same a b × (to_matcher_types (type_string b.type) ≡ some b.matcher_type)
  unfolding set_type
  set_type-lem a {b} h = elim (Option-cases (to_matcher_types (type_string a.type))) [
    | inl e ↦ ground arith
    | inr (t, e) ↦ (ground arith, ground arith, ground arith)
  ]

  patterns-lem :
      (a : Matcher Regex Dsl) {b : Matcher Regex Dsl}
      → compile_patterns regex_compile dsl_compile xpath_ok decode a ≡ accepted b
      → Keeps a b
        × (b.condition ≢ no_condition)
        × (length b.regex_compiled ≡ length a.regex_compiled + length a.regex)
        × (length b.binary_decoded ≡ length a.binary_decoded + length a.binary)
        × (length b.dsl_compiled ≡ length a.dsl_compiled + length a.dsl)
        × (b.matcher_type ≡ a.matcher_type)
  unfolding compile_patterns
  patterns-lem a {b} h =
      let base = default_part regex_compile dsl_compile xpath_ok decode a in
      let x =
        assemble-lem base (compile_all regex_compile bad_regex base.regex)
          (compile_all decode bad_binary base.binary) (compile_all dsl_compile bad_dsl base.dsl)
          (set_condition base.condition_name) h in
      let e = x.result_is in
      let same : Keeps a b = record {
        type = ap (λ m. m.type) (sym e);
        regex = ap (λ m. m.regex) (sym e);
        binary = ap (λ m. m.binary) (sym e);
        dsl = ap (λ m. m.dsl) (sym e);
        words = ap (λ m. length m.words) (sym e);
        case_insensitive = ap (λ m. m.case_insensitive) (sym e);
      } in
      (
        same,
        (λ q. set_condition-ne-none a.condition_name x.condition_is (ap (λ m. m.condition) e ∙ q)),
        omega (
          arith,
          ap (λ m. length m.regex_compiled) e,
          length-append a.regex_compiled x.regexes,
          length-compile_all regex_compile bad_regex a.regex x.regexes_are,
        ),
        omega (
          arith,
          ap (λ m. length m.binary_decoded) e,
          length-append a.binary_decoded x.binaries,
          length-compile_all decode bad_binary a.binary x.binaries_are,
        ),
        omega (
          arith,
          ap (λ m. length m.dsl_compiled) e,
          length-append a.dsl_compiled x.exprs,
          length-compile_all dsl_compile bad_dsl a.dsl x.exprs_are,
        ),
        ap (λ m. m.matcher_type) (sym e),
      )

  lower_words-lem :
      (a : Matcher Regex Dsl) {b : Matcher Regex Dsl}
      → lower_words regex_compile dsl_compile xpath_ok decode a ≡ accepted b
      → Keeps a b
        × Same a b
        × (b.condition ≡ a.condition)
        × (b.matcher_type ≡ a.matcher_type)
        × (b.case_insensitive ≡ true → is_type b.type words_matcher ≡ true)
  unfolding lower_words
  lower_words-lem a {b} h = (
    ground (arith, length-map a.words to_lower),
    ground arith,
    ground arith,
    ground arith,
    ground arith,
  )

  module _ (old a b c m : Matcher Regex Dsl) where
    ready :
        Keeps old a × Same old a
        → Keeps a b × Same a b × (to_matcher_types (type_string b.type) ≡ some b.matcher_type)
        → Keeps b c
          × (c.condition ≢ no_condition)
          × (length c.regex_compiled ≡ length b.regex_compiled + length b.regex)
          × (length c.binary_decoded ≡ length b.binary_decoded + length b.binary)
          × (length c.dsl_compiled ≡ length b.dsl_compiled + length b.dsl)
          × (c.matcher_type ≡ b.matcher_type)
        → Keeps c m
          × Same c m
          × (m.condition ≡ c.condition)
          × (m.matcher_type ≡ c.matcher_type)
          × (m.case_insensitive ≡ true → is_type m.type words_matcher ≡ true)
        → IsReady old m
    ready (k1, s1) (k2, s2, t) (k3, set, r, n, d, t3) (k4, s4, c4, t4, only) = record {
      condition_set = (λ e. set (sym c4 ∙ e));
      regexes = omega (
        arith,
        ap (length {0}) s4.regex_compiled,
        ap (length {0}) (s2.regex_compiled ∙ s1.regex_compiled),
        ap (length {0}) (k4.regex ∙ k3.regex),
      );
      binaries = omega (
        arith,
        ap (length {0}) s4.binary_decoded,
        ap (length {0}) (s2.binary_decoded ∙ s1.binary_decoded),
        ap (length {0}) (k4.binary ∙ k3.binary),
      );
      exprs = omega (
        arith,
        ap (length {0}) s4.dsl_compiled,
        ap (length {0}) (s2.dsl_compiled ∙ s1.dsl_compiled),
        ap (length {0}) (k4.dsl ∙ k3.dsl),
      );
      words_only = only;
      same_number = omega arith;
      typed =
          (ap (λ x. to_matcher_types (type_string x)) (k4.type ∙ k3.type)
            ∙ t
            ∙ ap some (sym (t4 ∙ t3)));
    }

  -- If `CompileMatchers` accepts `old` and gives `m`: the condition is set; there is one compiled pattern
  -- for each text, behind those that `old` had; `case-insensitive` stands only on a word matcher; the
  -- number of words is the same; and the cached type is the one that the type's name stands for.
  pub compile_matchers-IsReady :
      (old : Matcher Regex Dsl) {m : Matcher Regex Dsl} → compile old ≡ accepted m → IsReady old m
  unfolding compile_matchers
  compile_matchers-IsReady old {m} h =
      let start = decode_words regex_compile dsl_compile xpath_ok decode old in
      let patterns = compile_patterns regex_compile dsl_compile xpath_ok decode in
      let lower = lower_words regex_compile dsl_compile xpath_ok decode in
      let (m1, e1, h1) =
        >>=-eq-accepted (set_type regex_compile dsl_compile xpath_ok decode start)
          (λ x. validate xpath_ok x >>= λ _. patterns x >>= lower) h in
      let (u, e2, h2) = >>=-eq-accepted (validate xpath_ok m1) (λ _. patterns m1 >>= lower) h1 in
      let (m2, e3, h3) = >>=-eq-accepted (patterns m1) lower h2 in
      ready old start m1 m2 m (decode_words-lem old) (set_type-lem start e1) (patterns-lem m1 e3)
        (lower_words-lem m2 h3)
