-- ===== src/TagFilter/Verdict.antt =====
-- What NewTagFilter() and Match() of pkg/templates/tag_filter.go let through.
use webapp_sec_tools.Prelude.{
  String, Bool, true, false, not, ◌&&◌, ◌||◌, Option, some, List, [], ◌∷◌, ◌≡◌, refl, ◌∙◌,
  if◌then◌else◌, arith, Option-cases, inl, inr,
}
use webapp_sec_tools.Prelude.Strings.{to_lower}
use webapp_sec_tools.Prelude.GoSet.{GoSet, has, add, has-add, has-add_all, has-eq}
use webapp_sec_tools.TagFilter.Filter.{
  TagFilter, Template, Evaluated, any_in, to_map, match, is_blocked, is_extra_tag_match,
  is_tag_match, is_author_match, is_severity_match, is_template_type_match, is_id_match,
  is_condition_match, no_entries,
}
use webapp_sec_tools.TagFilter.Config.{
  TagFilterConfig, new_tag_filter, split_comma_trim, add_unblocked, add_split_unblocked,
  compile_conditions, named, has-add_split, has-discard_split, add_split, discard_split,
}

has-add_unblocked :
    (x : String) (block : GoSet) (vs : List String) (s : GoSet)
    → has x (add_unblocked block vs s) ≡ (has x vs && not (has x block) || has x s)
unfolding add_unblocked has
has-add_unblocked x block [] s = refl
has-add_unblocked x block (v ∷ vs) s = ground (
  arith,
  has-add_unblocked x block vs s,
  has-add_unblocked x block vs (add v s),
  has-add v x s,
  has-eq v x block,
)

has-add_split_unblocked :
    (x : String) (block : GoSet) (values : List String) (s : GoSet)
    → has x (add_split_unblocked block values s) ≡ (named x values && not (has x block) || has x s)
unfolding add_split_unblocked
has-add_split_unblocked x block [] s = refl
has-add_split_unblocked x block (v ∷ vs) s = ground (
  arith,
  has-add_split_unblocked x block vs (add_unblocked block (split_comma_trim v) s),
  has-add_unblocked x block (split_comma_trim v) s,
)

module _ {Expression : Type 0} (compile : String → Option Expression) where
  -- The filter that NewTagFilter() builds where every expression compiles: a tag is blocked if it is
  -- excluded and not included by name, the other sets hold the names given, and an id is excluded if it
  -- is given as one, is not among the included ids, and is not at the same time a blocked tag.
  pub new_tag_filter-names :
      (config : TagFilterConfig) (f : TagFilter Expression) (x : String)
      → new_tag_filter compile config ≡ some f
      → (has x f.block ≡ (named x config.exclude_tags && not (named x config.include_tags)))
        × (has x f.match_allows ≡ named x config.include_tags)
        × (has x f.allowed_tags ≡ named x config.tags)
        × (has x f.authors ≡ named x config.authors)
        × (has x f.allowed_ids ≡ named x config.include_ids)
        × (has x f.exclude_ids ≡ (
            named x config.exclude_ids && not (has x f.block) && not (named x config.include_ids)))
  unfolding new_tag_filter has
  new_tag_filter-names config f x h =
      let block = discard_split config.include_tags (add_split config.exclude_tags []) in
      let b = has-discard_split x config.include_tags (add_split config.exclude_tags []) in
      let b' = has-add_split x config.exclude_tags [] in
      let m = has-add_split x config.include_tags [] in
      let t = has-add_split x config.tags [] in
      let a = has-add_split x config.authors [] in
      let i = has-add_split x config.include_ids [] in
      let e =
        has-discard_split x config.include_ids (add_split_unblocked block config.exclude_ids []) in
      let e' = has-add_split_unblocked x block config.exclude_ids [] in
      elim (Option-cases (compile_conditions compile config.include_conditions [])) [
        | inl n ↦ ground (arith, n, h)
        | inr (cs, n) ↦ ground (arith, n, h, b, b', m, t, a, i, e, e')
      ]

-- A text of the one list is in the other.
abbrev pub meet : List String → List String → Bool
meet xs [] = false
meet xs (y ∷ ys) = has y xs || meet xs ys

any_in-meet : (xs : List String) (s : GoSet) → any_in xs s ≡ meet s xs
unfolding any_in
any_in-meet [] s = refl
any_in-meet (x ∷ xs) s = ground (arith, any_in-meet xs s)

has-to_map : (x : String) (xs : List String) → has x (to_map xs) ≡ has x xs
unfolding to_map has
has-to_map x xs = ground (arith, has-add_all x xs [])

any_in-to_map : (xs ys : List String) → any_in xs (to_map ys) ≡ meet ys xs
unfolding any_in
any_in-to_map [] ys = refl
any_in-to_map (x ∷ xs) ys = ground (arith, any_in-to_map xs ys, has-to_map x ys)

-- A chain of guards that return early is their conjunction.
guards :
    (blocked a b c d e f g : Bool)
    → ◌≡◌ {A = Bool × Bool}
        (if blocked
          then (false, true)
          else if not a
          then (false, false)
          else if not b
          then (false, false)
          else if not c
          then (false, false)
          else if not d
          then (false, false)
          else if not e
          then (false, false)
          else if not f
          then (false, false)
          else if not g
          then (false, false)
          else (true, false))
        (not blocked && (a && b && c && d && e && f && g), blocked)
guards true a b c d e f g = refl
guards false false b c d e f g = refl
guards false true false c d e f g = refl
guards false true true false d e f g = refl
guards false true true true false e f g = refl
guards false true true true true false f g = refl
guards false true true true true true false g = refl
guards false true true true true true true false = refl
guards false true true true true true true true = refl

extra-meet :
    (extra tags : List String)
    → is_extra_tag_match extra tags ≡ (no_entries extra || meet tags extra)
unfolding is_extra_tag_match
extra-meet extra tags = ground (arith, any_in-to_map extra tags)

module _ {Expression : Type 0} where
  tag-meet :
      (f : TagFilter Expression) (tags : List String)
      → is_tag_match f tags ≡ (no_entries f.allowed_tags || meet f.allowed_tags tags)
  unfolding is_tag_match
  tag-meet f tags = ground (arith, any_in-meet tags f.allowed_tags)

  author-meet :
      (f : TagFilter Expression) (authors : List String)
      → is_author_match f authors ≡ (no_entries f.authors || meet authors f.authors)
  unfolding is_author_match
  author-meet f authors = ground (arith, any_in-to_map f.authors authors)

module _ {Expression Data : Type 0} (glob : String → String → Option Bool)
    (evaluate : Expression → Data → Evaluated) where
  -- A tag of the template is blocked and not allowed by name.
  abbrev pub some_blocked : TagFilter Expression → List String → Bool
  some_blocked f [] = false
  some_blocked f (tag ∷ tags) =
      has tag f.block && not (has tag f.match_allows) || some_blocked f tags

  is_blocked-some :
      (f : TagFilter Expression) (tags : List String) → is_blocked f tags ≡ some_blocked f tags
  unfolding is_blocked
  is_blocked-some f [] = refl
  is_blocked-some f (tag ∷ tags) = ground (arith, is_blocked-some f tags)

  -- Match() refuses a template with ErrExcluded exactly if a tag of it is blocked and not allowed by
  -- name; else it lets it through if each list of names that is not empty shares one with the template,
  -- and the severity, the type, the id in lower case and the conditions match.
  pub match-verdict :
      (f : TagFilter Expression) (t : Template Data) (extra_tags : List String)
      → match glob evaluate f t extra_tags ≡ (
        not (some_blocked f t.tags)
            && ((no_entries extra_tags || meet t.tags extra_tags)
                && (no_entries f.allowed_tags || meet f.allowed_tags t.tags)
                && (no_entries f.authors || meet t.authors f.authors)
                && is_severity_match f t.severity
                && is_template_type_match f t.type
                && is_id_match glob f (to_lower t.id)
                && is_condition_match evaluate f t),
        some_blocked f t.tags,
      )
  unfolding match
  match-verdict f t extra_tags =
      guards (is_blocked f t.tags) (is_extra_tag_match extra_tags t.tags) (is_tag_match f t.tags)
        (is_author_match f t.authors) (is_severity_match f t.severity)
        (is_template_type_match f t.type) (is_id_match glob f (to_lower t.id))
        (is_condition_match evaluate f t)
      ∙ rw
          (
            is_blocked-some f t.tags,
            extra-meet extra_tags t.tags,
            tag-meet f t.tags,
            author-meet f t.authors,
          )
          refl
