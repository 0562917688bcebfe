-- ===== src/Resume/Tests.antt =====
-- Runs of a template on targets, interrupted and resumed.
use webapp_sec_tools.Prelude.{◌<◌, true, false, ◌≡◌, refl, arith}
use webapp_sec_tools.Prelude.NumSet.{has_number, add_number, discard_number}
use webapp_sec_tools.Resume.Info.{new_info, compile_info, written_info, clone_info, copy_set, least}
use webapp_sec_tools.Resume.Targets.{Run, skips, start_target, finish_target}
use webapp_sec_tools.Resume.Progress.{
  start, finish, Reach, here, next, fresh, resumed, resume-skips-finished, skips-idle,
}

abbrev one_started : Run
unfolding start_target
one_started = (start_target new_info false fresh).0

abbrev two_started : Run
unfolding start_target
two_started = (start_target new_info false one_started).0

-- Two targets have started, and the first has ended.
abbrev interrupted : Run
unfolding finish_target
interrupted = finish_target 0 two_started

interrupted_reached : Reach new_info interrupted
unfolding one_started two_started interrupted start_target has_number add_number
interrupted_reached =
    next
      (next (next here (start false fresh (omega arith) refl))
        (start false one_started (omega arith) refl))
      (finish 0 two_started refl)

resume-skips-finished_example :
    (0 < interrupted.index → has_number 0 interrupted.finished ≡ true)
    × (interrupted.info.completed ≡ false → 0 < interrupted.index)
unfolding one_started two_started interrupted start_target finish_target has_number add_number
    discard_number resumed compile_info written_info clone_info copy_set least skips
resume-skips-finished_example =
    resume-skips-finished new_info interrupted 0 interrupted_reached refl refl

skips-idle_example : skips (resumed fresh) 3 ≡ true
skips-idle_example = skips-idle fresh 3 refl refl
