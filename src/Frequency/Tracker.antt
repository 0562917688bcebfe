-- ===== src/Frequency/Tracker.antt =====
-- pkg/fuzz/frequency/tracker.go. The cache is that of the package gcache, a parameter; `Close` and the
-- messages are left out, and so is the item's `Once`, which guards a message.
use Prim.Native.String.{◌++◌ as append}
use webapp_sec_tools.Prelude.{
  ℕ, ◌+◌, String, Bool, false, Option, none, some, ◌⊎◌, inl, inr, str_eq, if◌then◌else◌,
}
use webapp_sec_tools.Prelude.Strings.{has_prefix}
use webapp_sec_tools.Prelude.Words.{int32, int32_ge}
use webapp_sec_tools.Prelude.Urls.{Url, join_host_port}
use webapp_sec_tools.Prelude.GCache.{GCache}

pub record Tracker (Store : Type 0) : Type 0 where
  pub frequencies : Store
  pub param_occurence_threshold : ℕ

-- The arguments of the operations.
pub record Parameter : Type 0 where
  pub name : String
  pub target : String
  pub template : String

-- normalizeTarget()
unfoldable pub normalize_target : (String → Option Url) → String → String
unfolding join_host_port
normalize_target parse value =
    if has_prefix value "http"
    then elim (parse value) [
      | none ↦ value
      | some url ↦
          let port = if str_eq url.scheme "https" then "443" else "80" in
          if str_eq url.port "" then join_host_port url.host port else url.host
    ]
    else value

-- getFrequencyKey()
unfoldable pub get_frequency_key : String → String → String → String
get_frequency_key parameter target template =
    append target (append ":" (append template (append ":" parameter)))

-- The key that each operation computes first.
unfoldable pub key_of : (String → Option Url) → Parameter → String
unfolding normalize_target get_frequency_key
key_of parse p = get_frequency_key p.name (normalize_target parse p.target) p.template

-- The counter that MarkParameter() stores.
unfoldable pub marked : {Error : Type 0} → Error ⊎ ℕ → ℕ
marked (inl err) = 1
marked (inr errors) = int32 (errors + 1)

-- What IsParameterFrequent() says of the counter found.
unfoldable pub is_frequent : {Error : Type 0} → ℕ → Error ⊎ ℕ → Bool
is_frequent threshold (inl err) = false
is_frequent threshold (inr errors) = int32_ge errors (int32 threshold)

module _ {Error : Type 0} (gcache : GCache ℕ Error) (parse : String → Option Url) where
  unfoldable pub mark_parameter : Parameter → Tracker gcache.Store → Tracker gcache.Store
  unfolding key_of marked
  mark_parameter p t =
      let key = key_of parse p in
      let (got, store) = gcache.get_if_present key t.frequencies in
      record t { frequencies = gcache.set key (marked got) store }

  unfoldable pub is_parameter_frequent :
      Parameter → Tracker gcache.Store → Bool × Tracker gcache.Store
  unfolding key_of is_frequent
  is_parameter_frequent p t =
      let (got, store) = gcache.get_if_present (key_of parse p) t.frequencies in
      (is_frequent t.param_occurence_threshold got, record t { frequencies = store })

  unfoldable pub unmark_parameter : Parameter → Tracker gcache.Store → Tracker gcache.Store
  unfolding key_of
  unmark_parameter p t = record t { frequencies = gcache.remove (key_of parse p) t.frequencies }
