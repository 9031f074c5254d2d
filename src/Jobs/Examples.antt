-- ===== src/Jobs/Examples.antt =====
-- The theorems on bulk jobs at a queue with one job of two rows.
use verifiably.Prelude.{◌≡◌, refl, Bool, true, false, [], ◌∷◌, some, String, if◌then◌else◌}
use text.Mathlib.Text.{◌==◌}
use verifiably.Prelude.Dict.{Dict, find, put}
use verifiably.Jobs.{
  running, Job, Rows, Queue, new_job, submit, enqueue, insert, start, set_status, modify, exec, run,
  new_queue, submits, Reach, fresh, after,
}
use verifiably.Jobs.Tracked.{Tracked}
use verifiably.Jobs.Invariant.{Reach-Tracked}
use verifiably.Jobs.Runs.{finished, run-finished}

-- The second row fails.
abbrev two_rows : Rows
two_rows = (("name", "Ada") ∷ []) ∷ [] ∷ []

abbrev fails : Dict String → Bool
fails [] = true
fails (f ∷ fs) = false

abbrev submitted : Queue
submitted = (submit true true "job-1" two_rows (new_queue true)).0

submitted-Reach : Reach true submitted
unfolding find
submitted-Reach = after fresh (submits true true "job-1" two_rows refl)

Reach-Tracked_example : Tracked submitted
Reach-Tracked_example = Reach-Tracked submitted-Reach

abbrev started : Queue
started = start true "job-1" two_rows submitted

abbrev row_of : Job
row_of = record (new_job "job-1" 2) { status = running }

abbrev table : Dict Job
table = ("job-1", row_of) ∷ []

holds : started.db ≡ some table
unfolding start set_status submit enqueue insert put exec modify find
holds = refl

in_memory : find submitted.jobs "job-1" ≡ some (new_job "job-1" 2)
unfolding submit enqueue put find
in_memory = refl

running_on : submitted.cancelled ≡ false
unfolding submit enqueue
running_on = refl

run-finished_example : find (run true fails "job-1" two_rows submitted).jobs "job-1" ≡ (
    if "job-1" == "job-1"
    then some (finished fails two_rows (new_job "job-1" 2))
    else find submitted.jobs "job-1")
run-finished_example =
    run-finished true fails "job-1" two_rows submitted (new_job "job-1" 2) in_memory running_on
      "job-1"

abbrev stopped : Queue
stopped = record submitted { cancelled = true }
