-- ===== src/Jobs/Runs.antt =====
-- Whole runs of a worker of internal/jobs/queue.go.
use text.Mathlib.Text.{◌==◌}
use text.Mathlib.TextPositions.{eq_refl}
use verifiably.Prelude.{
  ◌+◌, ◌≡◌, refl, ap, ◌∙◌, Bool, true, false, [], ◌∷◌, some, String, if◌then◌else◌, length, keep_if,
  arith,
}
use verifiably.Prelude.Dict.{Dict, find, put}
use verifiably.Jobs.{
  running, done, error, Job, Rows, Queue, modify, set_status, count_row, start, issue_row, abort,
  finish, run_rows, run,
}
use verifiably.Jobs.Tracked.{persist_progress-same, find-modify}

-- The job after its rows were issued.
abbrev pub finished : (Dict String → Bool) → Rows → Job → Job
finished fails rows j = record j {
  status = done;
  done = j.done + length rows;
  errors = j.errors + length (keep_if fails rows);
}

issue_row-jobs :
    (io fails : Bool) (id k : String) (rest : Rows) (q : Queue) (j : Job)
    → find q.jobs id ≡ some j
    → (find (issue_row io fails id rest q).jobs k
        ≡ (if id == k then some (count_row fails j) else find q.jobs k))
      × ((issue_row io fails id rest q).cancelled ≡ q.cancelled)
unfolding issue_row
issue_row-jobs io fails id k rest q j present =
    let q1 : Queue = record q {
      jobs = modify q.jobs id (count_row fails);
      active = put q.active id rest;
    } in
    let (jobs_same, _, _, cancelled_same) = persist_progress-same io id q1 in
    (
      ap (λ m. find m k) jobs_same ∙ find-modify q.jobs id k (count_row fails) j present,
      cancelled_same,
    )

finished-cons :
    (fails : Dict String → Bool) (row : Dict String) (rest : Rows) (j : Job)
    → finished fails rest (count_row (fails row) j) ≡ finished fails (row ∷ rest) j
finished-cons fails row rest j = ground arith

finished-nil :
    (fails : Dict String → Bool) (j : Job) → finished fails [] j ≡ record j { status = done }
finished-nil fails j = ground arith

run_rows-cons :
    (io : Bool) (fails : Dict String → Bool) (id : String) (row : Dict String) (rest : Rows)
    (q : Queue)
    → q.cancelled ≡ false
    → run_rows io fails id (row ∷ rest) q
      ≡ run_rows io fails id rest (issue_row io (fails row) id rest q)
unfolding run_rows
run_rows-cons io fails id row rest q on =
    ap
      (λ b.
        if b then abort io id q else run_rows io fails id rest (issue_row io (fails row) id rest q))
      on

run_rows-jobs :
    (io : Bool) (fails : Dict String → Bool) (id k : String) (rows : Rows) (q : Queue) (j : Job)
    → find q.jobs id ≡ some j
    → q.cancelled ≡ false
    → find (run_rows io fails id rows q).jobs k
      ≡ (if id == k then some (finished fails rows j) else find q.jobs k)
unfolding run_rows finish set_status
run_rows-jobs io fails id k [] q j present on =
    find-modify q.jobs id k (λ j. record j { status = done }) j present
    ∙ ground (arith, finished-nil fails j)
run_rows-jobs io fails id k (row ∷ rest) q j present on =
    let next = issue_row io (fails row) id rest q in
    let here : find next.jobs id ≡ some (count_row (fails row) j) =
      (issue_row-jobs io (fails row) id id rest q j present).0 ∙ rw (eq_refl id) refl in
    let later =
      run_rows-jobs io fails id k rest next (count_row (fails row) j) here
        ((issue_row-jobs io (fails row) id k rest q j present).1 ∙ on) in
    ap (λ (r : Queue). find r.jobs k) (run_rows-cons io fails id row rest q on)
    ∙ later
    ∙ ground (
      arith,
      (issue_row-jobs io (fails row) id k rest q j present).0,
      finished-cons fails row rest j,
    )

-- A worker that runs a task without a shutdown leaves its job done, with as many issued rows and errors
-- as the task has rows and failing rows, and no other job changed.
pub run-finished :
    (io : Bool) (fails : Dict String → Bool) (id : String) (rows : Rows) (q : Queue) (j : Job)
    → find q.jobs id ≡ some j
    → q.cancelled ≡ false
    → (k : String)
    → find (run io fails id rows q).jobs k
      ≡ (if id == k then some (finished fails rows j) else find q.jobs k)
unfolding run start set_status
run-finished io fails id rows q j present on k =
    let q1 = start io id rows q in
    let started : (k : String)
        → find q1.jobs k
          ≡ (if id == k then some (record j { status = running }) else find q.jobs k) =
      λ k. find-modify q.jobs id k (λ j. record j { status = running }) j present in
    run_rows-jobs io fails id k rows q1 (record j { status = running })
      (started id ∙ rw (eq_refl id) refl) on
    ∙ ground (arith, started k)

-- After a shutdown a worker issues no row of a task that has some: the job is in error, with the
-- counters that it had.
pub run-cancelled :
    (io : Bool) (fails : Dict String → Bool) (id : String) (row : Dict String) (rest : Rows)
    (q : Queue) (j : Job)
    → find q.jobs id ≡ some j
    → q.cancelled ≡ true
    → find (run io fails id (row ∷ rest) q).jobs id
      ≡ some (record j { status = error; error_msg = "server shutdown" })
unfolding run start set_status run_rows abort
run-cancelled io fails id row rest q j present off =
    let q1 = start io id (row ∷ rest) q in
    let told : Job → Job = λ j. record j { error_msg = "server shutdown" } in
    let as_running : Job → Job = λ j. record j { status = running } in
    let first : find q1.jobs id ≡ some (as_running j) =
      find-modify q.jobs id id as_running j present ∙ rw (eq_refl id) refl in
    let second : find (modify q1.jobs id told) id ≡ some (told (as_running j)) =
      find-modify q1.jobs id id told (as_running j) first ∙ rw (eq_refl id) refl in
    ap
      (λ b.
        find
          (if b
            then abort io id q1
            else run_rows io fails id rest (issue_row io (fails row) id rest q1)).jobs
          id)
      off
    ∙ find-modify (modify q1.jobs id told) id id (λ j. record j { status = error })
        (told (as_running j)) second
    ∙ rw (eq_refl id) refl
