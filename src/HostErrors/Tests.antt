-- ===== src/HostErrors/Tests.antt =====
-- A run of the cache of hosts of pkg/protocols/common/hosterrorscache.
use webapp_sec_tools.Prelude.{
  String, true, false, Option, none, some, List, [], ◌∷◌, ◌≡◌, refl, arith,
}
use webapp_sec_tools.Prelude.GoMap.{GoMap, lookup}
use webapp_sec_tools.Prelude.GCache.{GCache, map_cache, map_cache-IsMap}
use webapp_sec_tools.Prelude.Urls.{Url}
use webapp_sec_tools.Prelude.Strings.{has_prefix}
use webapp_sec_tools.HostErrors.Cache.{
  ErrKit, CacheItem, Cache, network_permanent, check, check_error, get_key_from_context,
}
use webapp_sec_tools.HostErrors.Counting.{mark_all, check-mark_all}

abbrev kit : ErrKit String
kit = record {
  kind = λ e. network_permanent;
  is_permanent = λ e. false;
  address = λ e. none;
  cause = λ e. e;
}

abbrev parse : String → Option Url
parse s = none

abbrev store : GCache (CacheItem String) String
store = map_cache (CacheItem String) String "key not found"

abbrev start : Cache (GoMap (CacheItem String))
start = record { max_host_error = 2; track_error = []; failed_targets = [] }

abbrev marks : List (String × Option String)
marks = ("a:80", some "refused") ∷ ("b:80", some "refused") ∷ ("a:80", some "refused") ∷ []

check-mark_all_example :
    (check store kit parse (mark_all store kit parse marks start) "a:80").0 ≡ true
unfolding check_error get_key_from_context has_prefix lookup
check-mark_all_example =
    check-mark_all store kit parse "key not found"
      (map_cache-IsMap (CacheItem String) String "key not found") refl "a:80" marks start
      (λ k. refl) (omega arith) (omega arith)
