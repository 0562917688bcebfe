-- ===== src/Prelude/GCache.antt =====
-- The cache of github.com/Mzack9999/gcache and github.com/bluele/gcache, as its clients call it. The
-- package is not part of the repository: its operations are a parameter. A read may change the cache's
-- record of use, so it gives the cache back.
use mathlib.Core.Path.{◌≡◌, refl}
use mathlib.Core.Logic.{◌⊎◌, inl, inr}
use mathlib.Core.Option.{Option, none, some}
use Prim.Native.String.{String}
use native.Mathlib.Omega.{arith}
use webapp_sec_tools.Prelude.Tests.{str_eq, if◌then◌else◌}
use webapp_sec_tools.Prelude.GoMap.{GoMap, lookup, put, delete, lookup-put, lookup-delete}

pub record GCache (V Error : Type 0) : Type 1 where
  pub Store : Type 0
  pub get_if_present : String → Store → (Error ⊎ V) × Store
  pub set : String → V → Store → Store
  pub remove : String → Store → Store

module _ {V Error : Type 0} where
  abbrev pub content : (c : GCache V Error) → c.Store → String → Error ⊎ V
  content c s k = (c.get_if_present k s).0

  -- What the clients rely on, for a cache that holds fewer keys than its capacity and so evicts none.
  pub record IsMap (c : GCache V Error) (not_found : Error) : Type 0 where
    pub read : (j k : String) (s : c.Store) → content c (c.get_if_present j s).1 k ≡ content c s k
    pub write :
        (j k : String) (v : V) (s : c.Store)
        → content c (c.set j v s) k ≡ (if str_eq j k then inr v else content c s k)
    pub erase :
        (j k : String) (s : c.Store)
        → content c (c.remove j s) k ≡ (if str_eq j k then inl not_found else content c s k)

-- A cache of unlimited capacity.
module _ (V Error : Type 0) (not_found : Error) where
  abbrev found : Option V → Error ⊎ V
  found none = inl not_found
  found (some v) = inr v

  abbrev pub map_cache : GCache V Error
  map_cache = record {
    Store = GoMap V;
    get_if_present = λ k s. (found (lookup k s), s);
    set = put;
    remove = delete;
  }

  pub map_cache-IsMap : IsMap map_cache not_found
  map_cache-IsMap = record {
    read = λ j k s. refl;
    write = λ j k v s. ground (arith, lookup-put j k v s);
    erase = λ j k s. ground (arith, lookup-delete j k s);
  }
