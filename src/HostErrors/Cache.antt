-- ===== src/HostErrors/Cache.antt =====
-- pkg/protocols/common/hosterrorscache/hosterrorscache.go: the hosts that are skipped after too many
-- errors. A context stands as its remote address; an error is read by the functions of errkit that the
-- code calls, parameters of the model.
use Prim.Native.Char.{code}
use webapp_sec_tools.Prelude.{
  ℕ, ◌+◌, String, Bool, true, false, not, ◌&&◌, Option, none, some, List, [], ◌∷◌, ◌⊎◌, inl, inr,
  ◌==◌, str_eq, if◌then◌else◌,
}
use webapp_sec_tools.Prelude.Strings.{contains, has_prefix}
use webapp_sec_tools.Prelude.Words.{int32, int32_ge}
use webapp_sec_tools.Prelude.Urls.{Url, join_host_port}
use webapp_sec_tools.Prelude.GCache.{GCache}

-- The kinds of errkit and nucleierr that the code tells apart.
pub data ErrorKind : Type 0 where
  template_logic network_temporary network_permanent deadline unknown_kind : ErrorKind

-- What the code reads of an error: its kind, whether it is of the permanent kind, its attribute
-- `address`, and the text of its cause.
pub record ErrKit (Error : Type 0) : Type 0 where
  pub kind : Error → ErrorKind
  pub is_permanent : Error → Bool
  pub address : Error → Option String
  pub cause : Error → String

pub record CacheItem (Error : Type 0) : Type 0 where
  pub errors : ℕ
  pub is_permanent_err : Bool
  pub cause : Option Error

pub record Cache (Store : Type 0) : Type 0 where
  pub max_host_error : ℕ
  pub track_error : List String
  pub failed_targets : Store

-- normalizeCacheValue()
unfoldable pub normalize_cache_value : (String → Option Url) → String → String
unfolding join_host_port
normalize_cache_value parse value =
    if has_prefix value "http"
    then elim (parse value) [
      | none ↦ value
      | some url ↦
          if str_eq url.port ""
          then join_host_port url.host (if str_eq url.scheme "https" then "443" else "80")
          else url.host
    ]
    else value

-- GetKeyFromContext()
unfoldable pub get_key_from_context :
    {Error : Type 0} → (String → Option Url) → ErrKit Error → String → Option Error → String
unfolding normalize_cache_value
get_key_from_context parse kit address none = normalize_cache_value parse address
get_key_from_context parse kit address (some err) = elim (kit.address err) [
  | none ↦ normalize_cache_value parse address
  | some override ↦ normalize_cache_value parse override
]

-- The text behind the last colon.
unfoldable pub after_last_colon : String → Option String
after_last_colon String.[] = none
after_last_colon (String.◌∷◌ c s) =
    let rest = after_last_colon s in
    elim rest [ none ↦ (if code c == b':' then some s else none) | some t ↦ some t ]

unfoldable pub drop_first : String → String
drop_first String.[] = ""
drop_first (String.◌∷◌ c s) = s

-- The message of an error of rawhttp: the text behind the last colon, and where there is none, or it is
-- empty, the cause without its first character.
unfoldable pub last_part : String → String
unfolding after_last_colon drop_first
last_part cause = elim (after_last_colon cause) [
  | none ↦ drop_first cause
  | some rest ↦ (if str_eq rest "" then drop_first cause else rest)
]

unfoldable pub contains_any : String → List String → Bool
contains_any s [] = false
contains_any s (m ∷ ms) = if contains s m then true else contains_any s ms

-- The alternatives of `reCheckError`, which are plain texts.
abbrev pub re_check_error : List String
re_check_error =
    "no address found for host" ∷ "could not resolve host" ∷ "connection refused"
    ∷ "connection reset by peer" ∷ "could not connect to any address found for host"
    ∷ "timeout awaiting response headers" ∷ []

unfoldable pub check_cause : List String → String → Bool
unfolding last_part contains_any
check_cause track_error cause =
    if contains cause "ReadStatusLine:" && contains cause "read: connection reset by peer"
    then false
    else let cause' = if has_prefix cause "ReadStatusLine:" then last_part cause else cause in
      if contains_any cause' track_error then true else contains_any cause' re_check_error

-- checkError()
unfoldable pub check_error : {Error : Type 0} → ErrKit Error → List String → Option Error → Bool
unfolding check_cause
check_error kit track_error none = false
check_error kit track_error (some err) = elim (kit.kind err) [
  | template_logic ↦ false
  | network_temporary ↦ false
  | network_permanent ↦ true
  | deadline ↦ false
  | unknown_kind ↦ check_cause track_error (kit.cause err)
]

module _ {Error : Type 0} where
  -- What Check() says of the item found.
  unfoldable pub is_skipped : ℕ → Error ⊎ CacheItem Error → Bool
  is_skipped max_host_error (inl err) = false
  is_skipped max_host_error (inr item) =
      if item.is_permanent_err then true else int32_ge item.errors (int32 max_host_error)

module _ {Error : Type 0} (kit : ErrKit Error) where
  -- The item that MarkFailed() stores: a new one, or the one found with its counter raised.
  unfoldable pub marked_item : Error ⊎ CacheItem Error → CacheItem Error
  marked_item (inl err) =
      let permanent = kit.is_permanent err in
      record {
        errors = 1;
        is_permanent_err = permanent;
        cause = if permanent then some err else none;
      }
  marked_item (inr item) = record item { errors = int32 (item.errors + 1) }

module _ {Error : Type 0} (gcache : GCache (CacheItem Error) Error) (kit : ErrKit Error)
    (parse : String → Option Url) where
  -- Check(): the flag, and the cache. The item's `Once`, which guards a message, is left out.
  unfoldable pub check : Cache gcache.Store → String → Bool × Cache gcache.Store
  unfolding get_key_from_context is_skipped
  check c address =
      let (got, store) =
        gcache.get_if_present (get_key_from_context parse kit address none) c.failed_targets in
      (is_skipped c.max_host_error got, record c { failed_targets = store })

  -- MarkFailed(). The call of GetIFPresent() assigns to the parameter `err`, so the kind that a new item
  -- is tested for is that of the cache's own error.
  unfoldable pub mark_failed : String → Option Error → Cache gcache.Store → Cache gcache.Store
  unfolding check_error get_key_from_context marked_item
  mark_failed address err c =
      if not (check_error kit c.track_error err)
      then c
      else let key = get_key_from_context parse kit address err in
        let (got, store) = gcache.get_if_present key c.failed_targets in
        record c { failed_targets = gcache.set key (marked_item kit got) store }
