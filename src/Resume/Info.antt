-- ===== src/Resume/Info.antt =====
-- pkg/types/resume.go. The locks are left out; a nil map of indices stands as an empty one, which reads
-- alike, and which executeTemplateWithTargets() makes before it writes.
use webapp_sec_tools.Prelude.{
  ℕ, ◌^◌, ◌-◌, Bool, true, false, not, ◌&&◌, [], ◌∷◌, ltb, if◌then◌else◌, map,
}
use webapp_sec_tools.Prelude.GoMap.{GoMap}
use webapp_sec_tools.Prelude.NumSet.{NumSet, add_number}

pub record ResumeInfo : Type 0 where
  pub completed : Bool
  pub in_flight : NumSet
  pub skip_under : ℕ
  pub repeat : NumSet
  pub do_above : ℕ

pub record ResumeCfg : Type 0 where
  pub resume_from : GoMap ResumeInfo
  pub current : GoMap ResumeInfo

-- &ResumeInfo{}
abbrev pub new_info : ResumeInfo
new_info = record { completed = false; in_flight = []; skip_under = 0; repeat = []; do_above = 0 }

-- A loop that adds the indices of one map to a new one.
unfoldable pub copy_set : NumSet → NumSet → NumSet
copy_set [] copy = copy
copy_set (u ∷ s) copy = copy_set s (add_number u copy)

-- (resumeInfo *ResumeInfo) Clone()
unfoldable pub clone_info : ResumeInfo → ResumeInfo
unfolding copy_set
clone_info r = record r { in_flight = copy_set r.in_flight []; repeat = copy_set r.repeat [] }

unfoldable pub clone_map : GoMap ResumeInfo → GoMap ResumeInfo
unfolding clone_info
clone_map m = map (λ (id, info). (id, clone_info info)) m

-- (resumeCfg *ResumeCfg) Clone()
unfoldable pub clone_cfg : ResumeCfg → ResumeCfg
unfolding clone_map
clone_cfg c = record { resume_from = clone_map c.resume_from; current = clone_map c.current }

-- uint32(math.MaxUint32)
abbrev pub max_uint32 : ℕ
max_uint32 = 2 ^ 32 - 1

unfoldable pub least : NumSet → ℕ → ℕ
least [] min = min
least (index ∷ s) min = least s (if ltb index min then index else min)

unfoldable pub greatest : NumSet → ℕ → ℕ
greatest [] max = max
greatest (index ∷ s) max = greatest s (if ltb max index then index else max)

abbrev pub is_empty_set : NumSet → Bool
is_empty_set [] = true
is_empty_set (n ∷ s) = false

-- The body of the loop of Compile().
unfoldable pub compile_info : ResumeInfo → ResumeInfo
unfolding least greatest copy_set
compile_info r =
    let in_flight = if r.completed && not (is_empty_set r.in_flight) then [] else r.in_flight in
    record r {
      in_flight = in_flight;
      repeat = copy_set in_flight [];
      skip_under = least in_flight max_uint32;
      do_above = greatest in_flight 0;
    }

-- (resumeCfg *ResumeCfg) Compile()
unfoldable pub compile_cfg : ResumeCfg → ResumeCfg
unfolding compile_info
compile_cfg c = record c { resume_from = map (λ (id, info). (id, compile_info info)) c.resume_from }

-- What SaveResumeConfig() of internal/runner/runner.go writes of a scan, and what the next scan reads: the
-- fields with the tag `json:"-"` are left out, and so is `current`.
unfoldable pub written_info : ResumeInfo → ResumeInfo
written_info r = record new_info { completed = r.completed; in_flight = r.in_flight }

unfoldable pub saved : ResumeCfg → ResumeCfg
unfolding clone_cfg written_info
saved c =
    let clone = clone_cfg c in
    record { resume_from = map (λ (id, info). (id, written_info info)) clone.current; current = [] }
