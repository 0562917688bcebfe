-- ===== src/Generators/Create.antt =====
-- New() of pkg/protocols/common/generators/generators.go, with validate() of validate.go, loadPayloads() of
-- load.go and the names of attack_types.go. What the file system and the packages cast, fileutil and
-- folderutil give is a parameter.
use webapp_sec_tools.Prelude.{
  ℕ, String, Bool, true, false, not, ◌&&◌, Option, none, some, List, [], ◌∷◌, ◌++◌, ◌==◌, str_eq,
  ltb, length, if◌then◌else◌,
}
use webapp_sec_tools.Prelude.GoMap.{GoMap, put}
use webapp_sec_tools.Prelude.Strings.{to_lower, trim_space, split_at}
use webapp_sec_tools.Prelude.Value.{Value}
use webapp_sec_tools.Generators.Iterator.{
  AttackType, unspecified, battering_ram, pitch_fork, cluster_bomb,
}

-- (t AttackType) String()
unfoldable pub attack_string : AttackType → String
attack_string unspecified = ""
attack_string battering_ram = "batteringram"
attack_string pitch_fork = "pitchfork"
attack_string cluster_bomb = "clusterbomb"

-- toAttackType(): `none` is the error
unfoldable pub to_attack_type : String → Option AttackType
to_attack_type value =
    let normalized = trim_space (to_lower value) in
    if str_eq normalized "batteringram"
    then some battering_ram
    else if str_eq normalized "pitchfork"
    then some pitch_fork
    else if str_eq normalized "clusterbomb"
    then some cluster_bomb
    else none

-- A value of `map[string]interface{}`: a text, a list, a map of levels (of a list or another value each),
-- another value, or nil.
pub data Payload : Type 0 where
  text_payload : String → Payload
  list_payload : List Value → Payload
  level_payload : List (String × Option (List Value)) → Payload
  other_payload : Payload
  nil_payload : Payload

pub data CreateError : Type 0 where
  level_not_list : CreateError
  invalid_level : String → String → CreateError
  many_lines : CreateError
  no_file : String → String → CreateError
  not_enough : String → CreateError
  invalid_type : String → CreateError
  not_loaded : CreateError
  bad_attack_type : String → CreateError
  not_single : CreateError

pub data Created {ℓ} (A : Type ℓ) : Type ℓ where
  made : A → Created A
  error : CreateError → Created A

-- aggressionLevelToPayloads
pub record Levels : Type 0 where
  pub low : List Value
  pub medium : List Value
  pub high : List Value

-- The loop of parsePayloadsWithAggression().
unfoldable pub read_levels : String → List (String × Option (List Value)) → Levels → Created Levels
read_levels name [] ls = made ls
read_levels name ((k, none) ∷ v) ls = error level_not_list
read_levels name ((k, some xs) ∷ v) ls =
    if str_eq k "low"
    then read_levels name v (record ls { low = xs })
    else if str_eq k "medium"
    then read_levels name v (record ls { medium = xs })
    else if str_eq k "high"
    then read_levels name v (record ls { high = xs })
    else error (invalid_level k name)

-- parsePayloadsWithAggression(): the one entry of its map
unfoldable pub parse_payloads_with_aggression :
    String → List (String × Option (List Value)) → String → Created (List Value)
unfolding read_levels
parse_payloads_with_aggression name v aggression =
    elim (read_levels name v (record { low = []; medium = []; high = [] })) [
      | error why ↦ error why
      | made ls ↦
          if str_eq aggression "low"
          then made ls.low
          else if str_eq aggression "medium"
          then made (ls.low ++ ls.medium)
          else if str_eq aggression "high"
          then made ((ls.low ++ ls.medium) ++ ls.high)
          else error (invalid_level aggression name)
    ]

-- The loop that resolves the levels.
unfoldable pub resolve_levels : String → GoMap Payload → GoMap Payload → Created (GoMap Payload)
unfolding parse_payloads_with_aggression
resolve_levels aggression [] final = made final
resolve_levels aggression ((name, level_payload v) ∷ ps) final =
    elim (parse_payloads_with_aggression name v aggression) [
      | error why ↦ error why
      | made xs ↦ resolve_levels aggression ps (put name (list_payload xs) final)
    ]
resolve_levels aggression ((name, p) ∷ ps) final = resolve_levels aggression ps (put name p final)

-- What the code asks of its surroundings: fileutil.FileExists, the path of a file in the templates'
-- directory, the paths to probe of a template and a payload, the lines of a file found by
-- LoadHelperFile and read by a bufio.Scanner with whether it ended well, and cast.ToStringSlice.
pub record Surroundings : Type 0 where
  pub file_exists : String → Bool
  pub in_templates : String → String
  pub paths_to_probe : String → String → List String
  pub load_helper_file : String → String → Option (List String × Bool)
  pub to_string_slice : Payload → List String

-- loadPayloadsFromFile(), over the lines of the scanner
unfoldable pub non_empty_lines : List String → List String
non_empty_lines [] = []
non_empty_lines (l ∷ ls) = let rest = non_empty_lines ls in if str_eq l "" then rest else l ∷ rest

module _ (env : Surroundings) where
  -- The first of the paths that exists.
  unfoldable pub probe : List String → Option String
  probe [] = none
  probe (p ∷ ps) = if env.file_exists p then some p else probe ps

  -- The body of the loop of validate(): the payload that stays or replaces it.
  unfoldable pub validate_payload : String → String → Payload → Created Payload
  unfolding probe split_at
  validate_payload template_path name (text_payload s) =
      if not (length (split_at b'\n' s) == 1)
      then error many_lines
      else if env.file_exists s
      then made (text_payload s)
      else if env.file_exists (env.in_templates s)
      then made (text_payload s)
      else elim (probe (env.paths_to_probe template_path s)) [
        | none ↦ error (no_file s name)
        | some path ↦ made (text_payload path)
      ]
  validate_payload template_path name (list_payload xs) =
      if length xs == 0 then error (not_enough name) else made (list_payload xs)
  validate_payload template_path name (level_payload v) = error (not_enough name)
  validate_payload template_path name other_payload = error (not_enough name)
  validate_payload template_path name nil_payload = error (invalid_type name)

  -- validate()
  unfoldable pub validate : String → GoMap Payload → Created (GoMap Payload)
  unfolding validate_payload
  validate template_path [] = made []
  validate template_path ((name, p) ∷ ps) =
      let rest = validate template_path ps in
      elim (validate_payload template_path name p) [
        | error why ↦ error why
        | made p' ↦ elim rest [ error why ↦ error why | made ps' ↦ made ((name, p') ∷ ps') ]
      ]

  -- The body of the loop of loadPayloads(): a nil payload adds no entry.
  unfoldable pub load_payload : String → Payload → Created (Option (List String))
  unfolding non_empty_lines split_at
  load_payload template_path (text_payload s) =
      let elements = split_at b'\n' s in
      if ltb 1 (length elements)
      then made (some elements)
      else elim (env.load_helper_file s template_path) [
        | none ↦ error not_loaded
        | some (lines, ok) ↦ if ok then made (some (non_empty_lines lines)) else error not_loaded
      ]
  load_payload template_path nil_payload = made none
  load_payload template_path p = made (some (env.to_string_slice p))

  -- loadPayloads()
  unfoldable pub load_payloads : String → GoMap Payload → Created (GoMap (List String))
  unfolding load_payload
  load_payloads template_path [] = made []
  load_payloads template_path ((name, p) ∷ ps) =
      let rest = load_payloads template_path ps in
      elim (load_payload template_path p) [
        | error why ↦ error why
        | made loaded ↦ elim rest [
          | error why ↦ error why
          | made ps' ↦ elim loaded [ none ↦ made ps' | some xs ↦ made ((name, xs) ∷ ps') ]
        ]
      ]

-- PayloadGenerator, without the catalog and the options
pub record PayloadGenerator : Type 0 where
  pub attack_type : AttackType
  pub payloads : GoMap (List String)

abbrev pub is_battering_ram : AttackType → Bool
is_battering_ram battering_ram = true
is_battering_ram _ = false

-- The default of an attack type without a name.
abbrev pub or_battering_ram : AttackType → AttackType
or_battering_ram t = if str_eq (attack_string t) "" then battering_ram else t

-- The check of the batteringram, which ends New(). `chosen` is the type set by then.
unfoldable pub check_single :
    AttackType → ℕ → GoMap (List String) → AttackType → Created PayloadGenerator
check_single t count compiled chosen =
    if is_battering_ram t && not (count == 1)
    then error not_single
    else made (record { attack_type = chosen; payloads = compiled })

-- The custom attack type.
unfoldable pub choose_type :
    AttackType → String → ℕ → GoMap (List String) → Created PayloadGenerator
unfolding to_attack_type check_single
choose_type t custom count compiled =
    if not (str_eq custom "")
    then elim (to_attack_type custom) [
      | none ↦ error (bad_attack_type custom)
      | some t' ↦ check_single t count compiled t'
    ]
    else check_single t count compiled t

module _ (env : Surroundings) where
  -- New()
  unfoldable pub new :
      GoMap Payload → AttackType → String → String → String → Created PayloadGenerator
  unfolding resolve_levels validate load_payloads choose_type
  new payloads attack_type template_path custom aggression =
      elim (resolve_levels aggression payloads []) [
        | error why ↦ error why
        | made final ↦ elim (validate env template_path final) [
          | error why ↦ error why
          | made final' ↦ elim (load_payloads env template_path final') [
            | error why ↦ error why
            | made compiled ↦
                choose_type (or_battering_ram attack_type) custom (length payloads) compiled
          ]
        ]
      ]
