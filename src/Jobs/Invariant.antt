-- ===== src/Jobs/Invariant.antt =====
-- What holds of the jobs of internal/jobs/queue.go at every moment, however the workers interleave.
use text.Mathlib.Text.{◌==◌}
use text.Mathlib.TextPositions.{eq_refl}
use verifiably.Prelude.{
  ℕ, ◌≡◌, inl, inr, refl, ap, ◌∙◌, Bool, true, false, [], ◌∷◌, Option, none, some, String,
  if◌then◌else◌, leb, length, arith, Bool-cases, Option-cases,
}
use verifiably.Prelude.Dict.{Dict, find, put, without, find-put, find-without}
use verifiably.Jobs.{
  running, done, error, Job, Rows, Queue, capacity, delete, insert, new_job, modify, has_pool,
  enqueue, submit, set_status, count_row, start, issue_row, abort, finish, first_task, new_queue,
  Step, submits, starts, issues, aborts, finishes, cancels, Reach, fresh, after,
}
use verifiably.Jobs.Tracked.{
  Counted, Waiting, Active, Tracked, update-Tracked, find-modify, unchanged_at, not_waiting,
  first_task-find, persist_progress-same, Counted-Active, Active-start, Active-count_row,
  Counted-abort, Counted-finish, at_some, not_pending, advance-Tracked,
}

module _ (q : Queue) (h : Tracked q) (io : Bool) (id : String) where
  start-Tracked :
      (rows : Rows) → first_task q.waiting ≡ some (id, rows) → Tracked (start io id rows q)
  unfolding start set_status
  start-Tracked rows first =
      let (j, present, w) = h.waiting id rows (first_task-find q.waiting id rows first) in
      let started = Active-start j rows w in
      advance-Tracked q (start io id rows q) id (record j { status = running }) (some rows) h
        (λ k. find-modify q.jobs id k (λ j. record j { status = running }) j present)
        (λ k. find-without q.waiting id k) (λ k. find-put q.active id k rows)
        (Counted-Active (record j { status = running }) rows started)
        (at_some (Active (record j { status = running })) rows started)

  idle :
      (j : Job) (rows : Rows)
      → find q.jobs id ≡ some j
      → Active j rows
      → (k : String) → find q.waiting k ≡ (if id == k then none else find q.waiting k)
  idle j rows present a k =
      unchanged_at q.waiting id none (not_waiting q id j h present (not_pending j rows a)) k

  issue_row-Tracked :
      (fails : Bool) (row : Dict String) (rest : Rows)
      → find q.active id ≡ some (row ∷ rest)
      → Tracked (issue_row io fails id rest q)
  unfolding issue_row
  issue_row-Tracked fails row rest busy =
      let (j, present, a) = h.active id (row ∷ rest) busy in
      let q1 : Queue = record q {
        jobs = modify q.jobs id (count_row fails);
        active = put q.active id rest;
      } in
      let (jobs_same, waiting_same, active_same, _) = persist_progress-same io id q1 in
      let counted = Active-count_row fails j row rest a in
      advance-Tracked q (issue_row io fails id rest q) id (count_row fails j) (some rest) h
        (λ k. ap (λ m. find m k) jobs_same ∙ find-modify q.jobs id k (count_row fails) j present)
        (λ k. ap (λ m. find m k) waiting_same ∙ idle j (row ∷ rest) present a k)
        (λ k. ap (λ m. find m k) active_same ∙ find-put q.active id k rest)
        (Counted-Active (count_row fails j) rest counted)
        (at_some (Active (count_row fails j)) rest counted)

  abort-Tracked :
      (row : Dict String) (rest : Rows)
      → find q.active id ≡ some (row ∷ rest)
      → Tracked (abort io id q)
  unfolding abort set_status
  abort-Tracked row rest busy =
      let (j, present, a) = h.active id (row ∷ rest) busy in
      let told : Job → Job = λ j. record j { error_msg = "server shutdown" } in
      let first : find (modify q.jobs id told) id ≡ some (told j) =
        find-modify q.jobs id id told j present ∙ rw (eq_refl id) refl in
      advance-Tracked q (abort io id q) id
        (record j { error_msg = "server shutdown"; status = error }) none h
        (λ k.
          find-modify (modify q.jobs id told) id k (λ j. record j { status = error }) (told j) first
          ∙ ground (arith, find-modify q.jobs id k told j present))
        (λ k. idle j (row ∷ rest) present a k) (λ k. find-without q.active id k)
        (Counted-abort j row rest a) (λ r e. absurd (ground arith))

  finish-Tracked : find q.active id ≡ some [] → Tracked (finish io id q)
  unfolding finish set_status
  finish-Tracked busy =
      let (j, present, a) = h.active id [] busy in
      advance-Tracked q (finish io id q) id (record j { status = done }) none h
        (λ k. find-modify q.jobs id k (λ j. record j { status = done }) j present)
        (λ k. idle j [] present a k) (λ k. find-without q.active id k) (Counted-finish j a)
        (λ r e. absurd (ground arith))

Counted-new_job : (id : String) (n : ℕ) → Counted (new_job id n)
Counted-new_job id n = record {
  failed = omega arith;
  within = omega arith;
  complete = λ e. absurd (ground arith);
  cut = λ e. absurd (ground arith);
  untouched = λ e. refl;
}

module _ (q : Queue) (h : Tracked q) (id : String) (rows : Rows)
    (new' : find q.jobs id ≡ none) where
  no_task : (find q.waiting id ≡ none) × (find q.active id ≡ none)
  no_task = (
    elim (Option-cases (find q.waiting id)) [
      | inl gone ↦ gone
      | inr (r, e) ↦
          let (j, present, w) = h.waiting id r e in absurd (ground (arith, present, new'))
    ],
    elim (Option-cases (find q.active id)) [
      | inl gone ↦ gone
      | inr (r, e) ↦ let (j, present, a) = h.active id r e in absurd (ground (arith, present, new'))
    ],
  )

  abbrev recorded : Option (Dict Job) → Queue
  recorded db = record q { jobs = put q.jobs id (new_job id (length rows)); db = db }

  recorded-Tracked : (db : Option (Dict Job)) → Tracked (recorded db)
  recorded-Tracked db =
      advance-Tracked q (recorded db) id (new_job id (length rows)) none h
        (λ k. find-put q.jobs id k (new_job id (length rows)))
        (unchanged_at q.waiting id none no_task.0) (unchanged_at q.active id none no_task.1)
        (Counted-new_job id (length rows)) (λ r e. absurd (ground arith))

  -- A task of a new job waits until a worker takes it.
  queued-Tracked :
      (db : Option (Dict Job)) → Tracked (record (recorded db) { waiting = put q.waiting id rows })
  queued-Tracked db =
      update-Tracked q (record (recorded db) { waiting = put q.waiting id rows }) id
        (some (new_job id (length rows))) (some rows) none h
        (λ k. find-put q.jobs id k (new_job id (length rows))) (λ k. find-put q.waiting id k rows)
        (unchanged_at q.active id none no_task.1)
        (at_some Counted (new_job id (length rows)) (Counted-new_job id (length rows)))
        (λ r e. (
          new_job id (length rows),
          refl,
          at_some (Waiting (new_job id (length rows))) rows
              (record { status = refl; none_done = refl; none_failed = refl; all_left = refl }) r e,
        ))
        (λ r e. absurd (ground arith))

  refused-Tracked :
      (db : Option (Dict Job))
      → Tracked (record q { jobs = without (put q.jobs id (new_job id (length rows))) id; db = db })
  refused-Tracked db =
      update-Tracked q
        (record q { jobs = without (put q.jobs id (new_job id (length rows))) id; db = db }) id none
        none none h
        (λ k. ground (
          arith,
          find-without (put q.jobs id (new_job id (length rows))) id k,
          find-put q.jobs id k (new_job id (length rows)),
        ))
        (unchanged_at q.waiting id none no_task.0) (unchanged_at q.active id none no_task.1)
        (λ j e. absurd (ground arith)) (λ r e. absurd (ground arith)) (λ r e. absurd (ground arith))

  enqueue-Tracked :
      (io : Bool) (db : Option (Dict Job)) → Tracked (enqueue io id rows (recorded db)).0
  unfolding enqueue
  enqueue-Tracked io db = elim (Bool-cases (leb capacity (length q.waiting))) [
    | inl full ↦ rw full (refused-Tracked (delete io db id))
    | inr room ↦ rw room (queued-Tracked db)
  ]

  submit-Tracked : (inserts deletes : Bool) → Tracked (submit inserts deletes id rows q).0
  unfolding submit
  submit-Tracked inserts deletes = elim (Bool-cases (has_pool q)) [
    | inl pooled ↦ elim inserts as (λ b. Tracked (submit b deletes id rows q).0) [
      | true ↦ rw pooled (enqueue-Tracked deletes (insert q.db (new_job id (length rows))))
      | false ↦ rw pooled (recorded-Tracked q.db)
    ]
    | inr local ↦ rw local (enqueue-Tracked deletes q.db)
  ]

Step-Tracked : {q q' : Queue} → Step q q' → Tracked q → Tracked q'
Step-Tracked {q} (submits inserts deletes id rows new') h =
    submit-Tracked q h id rows new' inserts deletes
Step-Tracked {q} (starts io id rows first) h = start-Tracked q h io id rows first
Step-Tracked {q} (issues io fails id row rest busy) h =
    issue_row-Tracked q h io id fails row rest busy
Step-Tracked {q} (aborts io id row rest busy stop) h = abort-Tracked q h io id row rest busy
Step-Tracked {q} (finishes io id busy) h = finish-Tracked q h io id busy
Step-Tracked {q} cancels h = record { counted = h.counted; waiting = h.waiting; active = h.active }

new_queue-Tracked : (pool : Bool) → Tracked (new_queue pool)
unfolding find
new_queue-Tracked pool = record {
  counted = λ id j e. absurd (ground arith);
  waiting = λ id rows e. absurd (ground arith);
  active = λ id rows e. absurd (ground arith);
}

-- At every reachable moment, for every job that is recorded: its errors are at most its issued rows,
-- and these at most its rows; it is done only with all rows issued, in error only with rows left, and
-- pending only with none issued. A waiting task's job is pending and has all rows left, an active
-- task's job is running, and its issued rows and those left to its worker are all its rows.
pub Reach-Tracked : {pool : Bool} {q : Queue} → Reach pool q → Tracked q
Reach-Tracked {pool} fresh = new_queue-Tracked pool
Reach-Tracked (after r s) = Step-Tracked s (Reach-Tracked r)
