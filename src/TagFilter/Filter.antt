-- ===== src/TagFilter/Filter.antt =====
-- Match() of pkg/templates/tag_filter.go and the functions that it calls. The functions of
-- path/filepath and of govaluate are parameters, and so are the data that an expression reads of a
-- template.
use webapp_sec_tools.Prelude.{
  ℕ, String, Bool, true, false, not, ◌&&◌, ◌||◌, Option, none, some, List, [], ◌∷◌, ◌==◌, str_eq,
  if◌then◌else◌,
}
use webapp_sec_tools.Prelude.Strings.{to_lower}
use webapp_sec_tools.Prelude.NumSet.{has_number}
use webapp_sec_tools.Prelude.GoSet.{GoSet, has, add_all}

pub data Severity : Type 0 where
  undefined info low medium high critical unknown : Severity

abbrev pub severity_number : Severity → ℕ
severity_number undefined = 0
severity_number info = 1
severity_number low = 2
severity_number medium = 3
severity_number high = 4
severity_number critical = 5
severity_number unknown = 6

-- `zero_protocol` is the value 0, of a template whose type is not set.
pub data ProtocolType : Type 0 where
  zero_protocol dns_protocol file_protocol http_protocol offline_http_protocol : ProtocolType
  headless_protocol network_protocol workflow_protocol ssl_protocol : ProtocolType
  websocket_protocol whois_protocol code_protocol javascript_protocol : ProtocolType
  invalid_protocol : ProtocolType

abbrev pub protocol_number : ProtocolType → ℕ
protocol_number zero_protocol = 0
protocol_number dns_protocol = 1
protocol_number file_protocol = 2
protocol_number http_protocol = 3
protocol_number offline_http_protocol = 4
protocol_number headless_protocol = 5
protocol_number network_protocol = 6
protocol_number workflow_protocol = 7
protocol_number ssl_protocol = 8
protocol_number websocket_protocol = 9
protocol_number whois_protocol = 10
protocol_number code_protocol = 11
protocol_number javascript_protocol = 12
protocol_number invalid_protocol = 14

-- protocolMappings, of String(): a value that is not a key gives the empty text.
abbrev pub protocol_name : ProtocolType → String
protocol_name zero_protocol = ""
protocol_name dns_protocol = "dns"
protocol_name file_protocol = "file"
protocol_name http_protocol = "http"
protocol_name offline_http_protocol = ""
protocol_name headless_protocol = "headless"
protocol_name network_protocol = "tcp"
protocol_name workflow_protocol = "workflow"
protocol_name ssl_protocol = "ssl"
protocol_name websocket_protocol = "websocket"
protocol_name whois_protocol = "whois"
protocol_name code_protocol = "code"
protocol_name javascript_protocol = "javascript"
protocol_name invalid_protocol = "invalid"

pub record TagFilter (Expression : Type 0) : Type 0 where
  pub allowed_tags : GoSet
  pub severities : List ℕ
  pub exclude_severities : List ℕ
  pub authors : GoSet
  pub block : GoSet
  pub match_allows : GoSet
  pub types : List ℕ
  pub exclude_types : List ℕ
  pub allowed_ids : GoSet
  pub exclude_ids : GoSet
  pub include_conditions : List (String × Expression)

-- What the filter reads of a template.
pub record Template (Data : Type 0) : Type 0 where
  pub id : String
  pub tags : List String
  pub authors : List String
  pub severity : Severity
  pub type : ProtocolType
  pub conditions_data : Data

-- What the evaluation of an expression gives.
pub data Evaluated : Type 0 where
  eval_error not_boolean : Evaluated
  boolean : Bool → Evaluated

abbrev pub no_entries {ℓ} : {A : Type ℓ} → List A → Bool
no_entries [] = true
no_entries (x ∷ xs) = false

-- A loop that returns true at the first value that is in the set.
unfoldable pub any_in : List String → GoSet → Bool
any_in [] s = false
any_in (x ∷ xs) s = if has x s then true else any_in xs s

-- toMap()
unfoldable pub to_map : List String → GoSet
to_map slice = add_all slice []

unfoldable pub is_extra_tag_match : List String → List String → Bool
unfolding any_in to_map
is_extra_tag_match extra_tags template_tags =
    if no_entries extra_tags then true else any_in extra_tags (to_map template_tags)

-- One of a list of wanted numbers, and none of a list of unwanted ones; an empty list is not read.
unfoldable pub included_only : ℕ → List ℕ → List ℕ → Bool
included_only n wanted unwanted =
    let included = if no_entries wanted then true else has_number n wanted in
    let excluded = if no_entries unwanted then false else has_number n unwanted in
    included && not excluded

-- A loop over the patterns of ids: an error of filepath.Match() skips the pattern.
unfoldable pub any_pattern : (String → String → Option Bool) → GoSet → String → Bool → Bool
any_pattern glob [] template_id included = included
any_pattern glob (id ∷ ids) template_id included =
    let rest = any_pattern glob ids template_id included in
    elim (glob id template_id) [ none ↦ rest | some matched ↦ (if matched then true else rest) ]

unfoldable pub all_conditions :
    {Expression Data : Type 0}
    → (Expression → Data → Evaluated)
    → List (String × Expression)
    → Data
    → Bool
all_conditions evaluate [] parameters = true
all_conditions evaluate ((name, e) ∷ es) parameters =
    let rest = all_conditions evaluate es parameters in
    elim (evaluate e parameters) [
      | eval_error ↦ false
      | not_boolean ↦ false
      | boolean b ↦ (if not b then false else rest)
    ]

module _ {Expression : Type 0} where
  unfoldable pub is_tag_match : TagFilter Expression → List String → Bool
  unfolding any_in
  is_tag_match f template_tags =
      if no_entries f.allowed_tags then true else any_in template_tags f.allowed_tags

  unfoldable pub is_author_match : TagFilter Expression → List String → Bool
  unfolding any_in to_map
  is_author_match f template_authors =
      if no_entries f.authors then true else any_in f.authors (to_map template_authors)

  unfoldable pub is_severity_match : TagFilter Expression → Severity → Bool
  unfolding included_only
  is_severity_match f severity =
      if no_entries f.exclude_severities && no_entries f.severities || severity_number severity == 0
      then true
      else included_only (severity_number severity) f.severities f.exclude_severities

  unfoldable pub is_template_type_match : TagFilter Expression → ProtocolType → Bool
  unfolding included_only
  is_template_type_match f type =
      if no_entries f.exclude_types && no_entries f.types
      then true
      else if str_eq (protocol_name type) "" || protocol_number type == 14
      then true
      else included_only (protocol_number type) f.types f.exclude_types

  unfoldable pub is_id_match :
      (String → String → Option Bool) → TagFilter Expression → String → Bool
  unfolding any_pattern
  is_id_match glob f template_id =
      if no_entries f.exclude_ids && no_entries f.allowed_ids
      then true
      else let included = any_pattern glob f.allowed_ids template_id (no_entries f.allowed_ids) in
        let excluded = if no_entries f.exclude_ids then false else has template_id f.exclude_ids in
        included && not excluded

  unfoldable pub is_condition_match :
      {Data : Type 0}
      → (Expression → Data → Evaluated)
      → TagFilter Expression
      → Template Data
      → Bool
  unfolding all_conditions
  is_condition_match evaluate f t =
      if no_entries f.include_conditions
      then true
      else all_conditions evaluate f.include_conditions t.conditions_data

  -- The loop over the tags of the template: whether it returns ErrExcluded.
  unfoldable pub is_blocked : TagFilter Expression → List String → Bool
  is_blocked f [] = false
  is_blocked f (tag ∷ tags) =
      let rest = is_blocked f tags in
      if has tag f.block && not (has tag f.match_allows) then true else rest

  -- Match(): the flag, and whether the error is ErrExcluded.
  unfoldable pub match :
      {Data : Type 0}
      → (String → String → Option Bool)
      → (Expression → Data → Evaluated)
      → TagFilter Expression
      → Template Data
      → List String
      → Bool × Bool
  unfolding is_blocked is_extra_tag_match is_tag_match is_author_match is_severity_match
      is_template_type_match is_id_match is_condition_match
  match glob evaluate f t extra_tags =
      if is_blocked f t.tags
      then (false, true)
      else if not (is_extra_tag_match extra_tags t.tags)
      then (false, false)
      else if not (is_tag_match f t.tags)
      then (false, false)
      else if not (is_author_match f t.authors)
      then (false, false)
      else if not (is_severity_match f t.severity)
      then (false, false)
      else if not (is_template_type_match f t.type)
      then (false, false)
      else if not (is_id_match glob f (to_lower t.id))
      then (false, false)
      else if not (is_condition_match evaluate f t)
      then (false, false)
      else (true, false)
