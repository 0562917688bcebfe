-- ===== src/Resume/Targets.antt =====
-- executeTemplateWithTargets() of pkg/core/executors.go: the callback that is run on each target, and the
-- end of the goroutine that it starts.
use webapp_sec_tools.Prelude.{
  ℕ, ◌+◌, ◌%◌, ◌^◌, Bool, true, false, Option, none, some, ltb, if◌then◌else◌,
}
use webapp_sec_tools.Prelude.NumSet.{NumSet, has_number, add_number, discard_number}
use webapp_sec_tools.Resume.Info.{ResumeInfo}

-- The variable `index`, `currentInfo`, the goroutines that run, and the indices of those that have ended.
pub record Run : Type 0 where
  pub index : ℕ
  pub info : ResumeInfo
  pub running : NumSet
  pub finished : NumSet

-- Whether a target is left out: the template was completed, or its index is under the sliding window.
unfoldable pub skips : ResumeInfo → ℕ → Bool
skips from index =
    if from.completed
    then true
    else if ltb index from.skip_under
    then true
    else if has_number index from.in_flight
    then false
    else if ltb from.do_above index
    then false
    else false

-- The callback. `failing` is Check() of the host errors cache. The answer holds the arguments of the
-- goroutine that it starts, `none` where the host is failing: the index is then not raised.
unfoldable pub start_target : ResumeInfo → Bool → Run → Run × Option (ℕ × Bool)
unfolding skips
start_target from failing r =
    let info = record r.info { in_flight = add_number r.index r.info.in_flight } in
    if failing then (record r { info = info }, none) else (
      record r {
        index = (r.index + 1) % 2 ^ 32;
        info = info;
        running = add_number r.index r.running;
      },
      some (r.index, skips from r.index),
    )

-- The deferred cleanupInFlight(), when a goroutine ends.
unfoldable pub finish_target : ℕ → Run → Run
finish_target index r = record r {
  info = record r.info { in_flight = discard_number index r.info.in_flight };
  running = discard_number index r.running;
  finished = add_number index r.finished;
}

-- What stands behind wg.Wait().
unfoldable pub complete : Run → Run
complete r = record r { info = record r.info { completed = true } }
