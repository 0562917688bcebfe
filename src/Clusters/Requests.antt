-- ===== src/Clusters/Requests.antt =====
-- pkg/protocols/http/cluster.go and request_condition.go, pkg/protocols/dns/cluster.go, and the two
-- functions of pkg/protocols/ssl/ssl.go: which requests may share a cluster, and the key that they share
-- it by. `map_hash` is MapHash() of pkg/utils/utils.go over the headers.
use Prim.Native.Char.{code}
use webapp_sec_tools.Prelude.{
  ℕ, String, Bool, true, false, not, ◌&&◌, ◌||◌, Option, none, some, List, [], ◌∷◌, ◌==◌, str_eq,
  leb, ltb, length, if◌then◌else◌,
}
use webapp_sec_tools.Prelude.GoMap.{GoMap}
use webapp_sec_tools.Prelude.Strings.{itoa, join}

-- fmt's %t
abbrev pub bool_text : Bool → String
bool_text true = "true"
bool_text false = "false"

starts_digit : String → Bool
starts_digit String.[] = false
starts_digit (String.◌∷◌ c s) = leb b'0' (code c) && leb (code c) b'9'

-- reRequestCondition, `_\d+`, finds a match.
unfoldable pub has_numbered : String → Bool
unfolding starts_digit
has_numbered String.[] = false
has_numbered (String.◌∷◌ c s) = code c == b'_' && starts_digit s || has_numbered s

-- checkRequestConditionExpressions()
unfoldable pub check_expressions : List String → Bool
unfolding has_numbered
check_expressions [] = false
check_expressions (e ∷ es) = if has_numbered e then true else check_expressions es

-- The DSL expressions and the part of a matcher or an extractor.
pub record Parts : Type 0 where
  pub dsl : List String
  pub part : String

unfoldable pub some_condition : List Parts → Bool
unfolding check_expressions
some_condition [] = false
some_condition (p ∷ ps) =
    if check_expressions p.dsl
    then true
    else if check_expressions (p.part ∷ [])
    then true
    else some_condition ps

pub record HttpRequest (Ops : Type 0) : Type 0 where
  pub method : String
  pub max_redirects : ℕ
  pub disable_cookie : Bool
  pub redirects : Bool
  pub path : List String
  pub headers : GoMap String
  pub payloads : ℕ
  pub fuzzing : ℕ
  pub raw : List String
  pub body : String
  pub unsafe : Bool
  pub name : String
  pub matchers : List Parts
  pub extractors : List Parts
  pub compiled : Option Ops
  pub template_id : String

-- `recursion` is a pointer. `class` and `question` are numbers of the DNS protocol.
pub record DnsRequest (Ops : Type 0) : Type 0 where
  pub id : String
  pub name : String
  pub class : ℕ
  pub question : ℕ
  pub retries : ℕ
  pub recursion : Option Bool
  pub trace : Bool
  pub resolvers : List String
  pub compiled : Option Ops
  pub template_id : String

pub record SslRequest (Ops : Type 0) : Type 0 where
  pub address : String
  pub scan_mode : String
  pub tls_ciphers_enum : Bool
  pub tls_versions_enum : Bool
  pub tls_cipher_types : List String
  pub cipher_suites : List String
  pub min_version : String
  pub max_version : String
  pub compiled : Option Ops
  pub template_id : String

module _ {Ops : Type 0} where
  -- NeedsRequestCondition()
  unfoldable pub needs_request_condition : HttpRequest Ops → Bool
  unfolding some_condition
  needs_request_condition r =
      if some_condition r.matchers then true else some_condition r.extractors

  unfoldable pub http_clusterable : HttpRequest Ops → Bool
  unfolding needs_request_condition
  http_clusterable r = not (
      ltb 0 r.payloads
      || ltb 0 r.fuzzing
      || ltb 0 (length r.raw)
      || not (str_eq r.body "")
      || r.unsafe
      || needs_request_condition r
      || not (str_eq r.name ""))

  unfoldable pub dns_clusterable : DnsRequest Ops → Bool
  dns_clusterable r = not (ltb 0 (length r.resolvers) || r.trace || not (str_eq r.id ""))

  unfoldable pub ssl_clusterable : SslRequest Ops → Bool
  ssl_clusterable r = not (
      ltb 0 (length r.cipher_suites)
      || not (str_eq r.min_version "")
      || not (str_eq r.max_version ""))

  -- The text that TmplClusterKey() hashes.
  unfoldable pub http_key_text : (GoMap String → ℕ) → HttpRequest Ops → String
  unfolding join
  http_key_text map_hash r = join "-" (
      r.method
      ∷ itoa r.max_redirects
      ∷ bool_text r.disable_cookie
      ∷ bool_text r.redirects
      ∷ join "-" r.path
      ∷ itoa (map_hash r.headers)
      ∷ [])

  unfoldable pub dns_key_text : DnsRequest Ops → String
  unfolding join
  dns_key_text r = join "-" (
      r.name
      ∷ itoa r.class
      ∷ itoa r.retries
      ∷ itoa r.question
      ∷ elim r.recursion [ none ↦ "" | some b ↦ bool_text b ]
      ∷ [])

  unfoldable pub ssl_key_text : SslRequest Ops → String
  unfolding join
  ssl_key_text r = join "-" (
      r.address
      ∷ r.scan_mode
      ∷ bool_text r.tls_ciphers_enum
      ∷ bool_text r.tls_versions_enum
      ∷ join "," r.tls_cipher_types
      ∷ [])
