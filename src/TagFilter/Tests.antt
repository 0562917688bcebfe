-- ===== src/TagFilter/Tests.antt =====
-- Runs of the filter of pkg/templates/tag_filter.go.
use webapp_sec_tools.Prelude.{String, true, false, none, some, [], ◌∷◌, ◌≡◌, refl}
use webapp_sec_tools.Prelude.GoSet.{has, add, add_all}
use webapp_sec_tools.Prelude.Strings.{contains, split_at, to_lower, trim_space}
use webapp_sec_tools.TagFilter.Filter.{
  TagFilter, Template, boolean, match, high, is_severity_match, is_template_type_match, is_id_match,
  is_condition_match, http_protocol,
}
use webapp_sec_tools.TagFilter.Config.{TagFilterConfig, new_tag_filter}
use webapp_sec_tools.TagFilter.Verdict.{match-verdict, new_tag_filter-names}

abbrev config : TagFilterConfig
config = record {
  tags = "rce,xss" ∷ [];
  exclude_tags = "dos" ∷ [];
  authors = [];
  severities = [];
  exclude_severities = [];
  include_tags = [];
  include_ids = [];
  exclude_ids = "cve-1" ∷ "dos" ∷ [];
  protocols = [];
  exclude_protocols = [];
  include_conditions = [];
}

abbrev filter : TagFilter String
filter = record {
  allowed_tags = "xss" ∷ "rce" ∷ [];
  severities = [];
  exclude_severities = [];
  authors = [];
  block = "dos" ∷ [];
  match_allows = [];
  types = [];
  exclude_types = [];
  allowed_ids = [];
  exclude_ids = "cve-1" ∷ [];
  include_conditions = [];
}

abbrev page : Template String
page = record {
  id = "CVE-2";
  tags = "rce" ∷ [];
  authors = "a" ∷ [];
  severity = high;
  type = http_protocol;
  conditions_data = "";
}

match-verdict_example : match (λ p s. none) (λ e d. boolean true) filter page [] ≡ (true, false)
unfolding has is_severity_match is_template_type_match is_id_match to_lower is_condition_match
match-verdict_example = match-verdict (λ p s. none) (λ e d. boolean true) filter page []

new_tag_filter-names_example :
    (has "dos" filter.block ≡ true)
    × (has "dos" filter.match_allows ≡ false)
    × (has "dos" filter.allowed_tags ≡ false)
    × (has "dos" filter.authors ≡ false)
    × (has "dos" filter.allowed_ids ≡ false)
    × (has "dos" filter.exclude_ids ≡ false)
unfolding has new_tag_filter add_all contains split_at add to_lower trim_space
new_tag_filter-names_example = new_tag_filter-names some config filter "dos" refl
