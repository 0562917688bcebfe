-- ===== src/TemplateExecuter/ScanContext.antt =====
-- pkg/scan/scan_context.go, and the events of pkg/output/output.go that it logs. The callback OnResult
-- stands with the template executer; OnError and OnWarning are left out.
use mathlib.Core.Bool.{true≢false}
use webapp_sec_tools.Prelude.{
  ℕ, String, Bool, true, false, ◌&&◌, Option, none, some, List, [], ◌∷◌, ◌++◌, ◌≡◌, refl, sym,
  subst, ap, arith, map, All, if◌then◌else◌, Option-cases, inl, inr,
}
use webapp_sec_tools.Prelude.GoMap.{GoMap, put}
use webapp_sec_tools.Prelude.Strings.{join}
use webapp_sec_tools.Prelude.Value.{Value, text}

-- What is read of an operators' result: whether it matched, and the flag `internal` of the matchers of
-- its operators, where it refers to them.
pub record OperatorsResult : Type 0 where
  pub matched : Bool
  pub matchers_internal : Option (List Bool)

-- A result event, by its number, with its field Error.
pub record ResultEvent : Type 0 where
  pub number : ℕ
  pub error : String

-- InternalWrappedEvent: the map may be nil.
pub record Event : Type 0 where
  pub internal_event : Option (GoMap Value)
  pub operators_result : Option OperatorsResult
  pub results : List ResultEvent

abbrev pub has_operator_result : Event → Bool
has_operator_result e = elim e.operators_result [ none ↦ false | some r ↦ true ]

pub record ScanContext : Type 0 where
  pub with_events : Bool
  pub errors : List String
  pub warnings : List String
  pub events : List Event
  pub results : List ResultEvent

-- NewScanContext()
abbrev pub new_scan_context : ScanContext
new_scan_context = record {
  with_events = false;
  errors = [];
  warnings = [];
  events = [];
  results = [];
}

-- LogEvent(), behind the callback
unfoldable pub log_event : Option Event → ScanContext → ScanContext
log_event none c = c
log_event (some e) c = record c {
  events = if c.with_events then c.events ++ e ∷ [] else c.events;
  results = c.results ++ e.results;
}

unfoldable pub set_error : String → ResultEvent → ResultEvent
set_error message r = record r { error = message }

-- e.InternalEvent[key] = message for every event: `none` is the panic of a write to a nil map.
unfoldable pub mark_events : String → String → List Event → Option (List Event)
unfolding put
mark_events key message [] = some []
mark_events key message (e ∷ es) =
    let rest = mark_events key message es in
    elim e.internal_event [
      | none ↦ none
      | some m ↦ elim rest [
        | none ↦ none
        | some es' ↦ some (record e { internal_event = some (put key (text message) m) } ∷ es')
      ]
    ]

-- LogError(): `none` is a panic. joinErrors() joins the errors, none of which is nil here.
unfoldable pub log_error : Option String → ScanContext → Option ScanContext
unfolding join mark_events set_error
log_error none c = some c
log_error (some err) c =
    let errors' = c.errors ++ err ∷ [] in
    let message = join "; " errors' in
    elim (mark_events "error" message c.events) [
      | none ↦ none
      | some es ↦
          some (record c {
            errors = errors';
            events = es;
            results = map (set_error message) c.results;
          })
    ]

-- The loop of LogWarning(), which passes over the events without a map.
unfoldable pub warn_events : String → List Event → List Event
unfolding put
warn_events message [] = []
warn_events message (e ∷ es) =
    record e {
      internal_event = elim e.internal_event [
        | none ↦ none
        | some m ↦ some (put "warning" (text message) m)
      ];
    }
    ∷ warn_events message es

-- LogWarning(), for a text that is formatted
unfoldable pub log_warning : String → ScanContext → ScanContext
unfolding join warn_events
log_warning w c =
    let warnings' = c.warnings ++ w ∷ [] in
    record c { warnings = warnings'; events = warn_events (join "; " warnings') c.events }

-- The event has a map.
abbrev pub has_map : Event → Bool
has_map e = elim e.internal_event [ none ↦ false | some m ↦ true ]

abbrev pub all_have_maps : List Event → Bool
all_have_maps [] = true
all_have_maps (e ∷ es) = has_map e && all_have_maps es

abbrev pub is_some {ℓ} : {A : Type ℓ} → Option A → Bool
is_some none = false
is_some (some a) = true

mark_events-is_some :
    (key message : String) (es : List Event)
    → is_some (mark_events key message es) ≡ all_have_maps es
unfolding mark_events
mark_events-is_some key message [] = refl
mark_events-is_some key message (e ∷ es) = ground (arith, mark_events-is_some key message es)

-- Every result so far has the error.
abbrev pub AllTell : String → List ResultEvent → Type 0
AllTell message = All (λ (r : ResultEvent). r.error ≡ message)

set_error-AllTell :
    (message : String) (rs : List ResultEvent) → AllTell message (map (set_error message) rs)
unfolding set_error
set_error-AllTell message [] = tt
set_error-AllTell message (r ∷ rs) = (refl, set_error-AllTell message rs)

-- The context that LogError() leaves.
abbrev logged : String → ScanContext → List Event → ScanContext
logged err c es = record c {
  errors = c.errors ++ err ∷ [];
  events = es;
  results = map (set_error (join "; " (c.errors ++ err ∷ []))) c.results;
}

some-injective {ℓ} : {A : Type ℓ} (a b : A) → some a ≡ some b → a ≡ b
some-injective {A} a b p = ap (λ (o : Option A). elim o as (λ x. A) [ none ↦ a | some x ↦ x ]) p

logged_tells :
    (err : String) (c c' : ScanContext)
    → log_error (some err) c ≡ some c'
    → (c'.errors ≡ c.errors ++ err ∷ []) × AllTell (join "; " c'.errors) c'.results
unfolding log_error
logged_tells err c c' e =
    elim (Option-cases (mark_events "error" (join "; " (c.errors ++ err ∷ [])) c.events)) [
      | inl h ↦ absurd (true≢false (sym (ap is_some (rw (log_error, h) at e))))
      | inr (es, h) ↦
          subst (λ x. (x.errors ≡ c.errors ++ err ∷ []) × AllTell (join "; " x.errors) x.results)
            (some-injective (logged err c es) c' (rw (log_error, h) at e))
            (refl, set_error-AllTell (join "; " (c.errors ++ err ∷ [])) c.results)
    ]

-- LogError() panics just where an event that was kept has a nil map; else every result logged so far
-- tells all the errors so far.
pub log_error-tells :
    (err : String) (c : ScanContext)
    → (is_some (log_error (some err) c) ≡ all_have_maps c.events)
      × ((c' : ScanContext)
          → log_error (some err) c ≡ some c'
          → (c'.errors ≡ c.errors ++ err ∷ []) × AllTell (join "; " c'.errors) c'.results)
unfolding log_error
log_error-tells err c =
    let message = join "; " (c.errors ++ err ∷ []) in
    (ground (arith, mark_events-is_some "error" message c.events), logged_tells err c)
