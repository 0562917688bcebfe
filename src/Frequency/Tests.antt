-- ===== src/Frequency/Tests.antt =====
-- A run of the tracker of pkg/fuzz/frequency.
use webapp_sec_tools.Prelude.{ℕ, String, true, Option, none, List, [], ◌∷◌, ◌≡◌, refl, arith}
use webapp_sec_tools.Prelude.GoMap.{GoMap, lookup}
use webapp_sec_tools.Prelude.GCache.{GCache, map_cache, map_cache-IsMap}
use webapp_sec_tools.Prelude.Strings.{has_prefix}
use webapp_sec_tools.Prelude.Urls.{Url}
use webapp_sec_tools.Frequency.Tracker.{Tracker, Parameter, key_of, is_parameter_frequent}
use webapp_sec_tools.Frequency.Counting.{
  Call, mark, unmark, frequent, call_all, is_parameter_frequent-marks,
}

abbrev no_url : String → Option Url
no_url s = none

abbrev counters : GCache ℕ String
counters = map_cache ℕ String "key not found"

abbrev tracker : Tracker (GoMap ℕ)
tracker = record { frequencies = []; param_occurence_threshold = 2 }

abbrev id_param : Parameter
id_param = record { name = "id"; target = "a:80"; template = "sqli" }

abbrev calls : List Call
calls =
    mark id_param
    ∷ mark id_param
    ∷ unmark id_param
    ∷ mark id_param
    ∷ frequent id_param
    ∷ mark id_param
    ∷ []

is_parameter_frequent-marks_example :
    (is_parameter_frequent counters no_url id_param (call_all counters no_url calls tracker)).0
    ≡ true
unfolding key_of has_prefix lookup
is_parameter_frequent-marks_example =
    is_parameter_frequent-marks counters no_url "key not found"
      (map_cache-IsMap ℕ String "key not found") id_param calls tracker (λ k. refl) (omega arith)
      (omega arith)
