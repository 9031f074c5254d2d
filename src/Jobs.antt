-- ===== src/Jobs.antt =====
-- internal/jobs/queue.go: the queue of bulk issuance jobs. Each stretch of code between two calls of
-- other code is one step, so that the workers' steps interleave: `start` takes a task from the channel,
-- `issue_row` and `abort` are rounds of the loop of `run`, `finish` is its end. A job is shared by its
-- pointer; here it is looked up by its id. The table bulk_jobs is a map, or none without a pool; each
-- SQL command succeeds or fails as an argument says. The channels of subscribers are not modelled.
pub mod Tracked
pub mod Invariant
pub mod Runs
pub mod Table
mod Examples
use verifiably.Prelude.{
  ℕ, suc, ◌+◌, ◌≡◌, Bool, true, false, List, [], ◌∷◌, Option, none, some, String, if◌then◌else◌,
  leb, length,
}
use verifiably.Prelude.Outcome.{Outcome, ok, err}
use verifiably.Prelude.Dict.{Dict, find, put, without}

pub data Status : Type 0 where
  pending running done error : Status

pub record Job : Type 0 where
  pub id : String
  pub status : Status
  pub total : ℕ
  pub done : ℕ
  pub errors : ℕ
  pub error_msg : String

-- Rows, one per credential.
abbrev pub Rows : Type 0
Rows = List (Dict String)

-- The channel `waiting` holds the rows of its tasks, in order; `active` the rows that are left to the
-- workers.
pub record Queue : Type 0 where
  pub cancelled : Bool
  pub jobs : Dict Job
  pub db : Option (Dict Job)
  pub waiting : Dict Rows
  pub active : Dict Rows

pub data Error : Type 0 where
  insert_failed queue_full : Error

-- The buffer of the channel.
abbrev pub capacity : ℕ
capacity = 256

abbrev pub new_job : String → ℕ → Job
new_job id total = record {
  id = id;
  status = pending;
  total = total;
  done = 0;
  errors = 0;
  error_msg = "";
}

unfoldable pub modify : Dict Job → String → (Job → Job) → Dict Job
modify m id f = elim (find m id) [ none ↦ m | some j ↦ put m id (f j) ]

-- UPDATE bulk_jobs ... WHERE id, where there is a pool and the command succeeds.
unfoldable pub exec : Bool → Option (Dict Job) → String → (Job → Job) → Option (Dict Job)
exec io none id f = none
exec true (some m) id f = some (modify m id f)
exec false (some m) id f = some m

unfoldable pub insert : Option (Dict Job) → Job → Option (Dict Job)
insert none j = none
insert (some m) j = some (put m j.id j)

unfoldable pub delete : Bool → Option (Dict Job) → String → Option (Dict Job)
delete io none id = none
delete true (some m) id = some (without m id)
delete false (some m) id = some m

abbrev pub has_pool : Queue → Bool
has_pool q = elim q.db [ none ↦ false | some m ↦ true ]

-- The end of Submit, after the job is recorded.
unfoldable pub enqueue : Bool → String → Rows → Queue → Queue × Outcome Error String
enqueue io id rows q =
    if leb capacity (length q.waiting)
    then (record q { jobs = without q.jobs id; db = delete io q.db id }, err queue_full)
    else (record q { waiting = put q.waiting id rows }, ok id)

-- Submit with the id that newJobID gives; `inserts` and `deletes` are the outcomes of its commands.
unfoldable pub submit : Bool → Bool → String → Rows → Queue → Queue × Outcome Error String
submit inserts deletes id rows q =
    let job = new_job id (length rows) in
    let recorded = record q { jobs = put q.jobs id job } in
    if has_pool q
    then (if inserts
        then enqueue deletes id rows (record recorded { db = insert q.db job })
        else (recorded, err insert_failed))
    else enqueue deletes id rows recorded

unfoldable pub job_status : String → Queue → Option Job
job_status id q = elim q.db [
  | none ↦ find q.jobs id
  | some m ↦ elim (find m id) [ none ↦ find q.jobs id | some j ↦ some j ]
]

unfoldable pub set_status : Bool → Status → String → Queue → Queue
set_status io s id q = record q {
  jobs = modify q.jobs id (λ j. record j { status = s });
  db = exec io q.db id (λ j. record j { status = s });
}

-- One row: the counters in memory, and persistProgress with their values.
abbrev pub count_row : Bool → Job → Job
count_row fails j = record j {
  done = j.done + 1;
  errors = if fails then j.errors + 1 else j.errors;
}

unfoldable pub persist_progress : Bool → String → Queue → Queue
persist_progress io id q = elim (find q.jobs id) [
  | none ↦ q
  | some j ↦ record q {
    db = exec io q.db id (λ row. record row { done = j.done; errors = j.errors });
  }
]

-- A worker receives a task: the first of the channel.
unfoldable pub start : Bool → String → Rows → Queue → Queue
start io id rows q =
    set_status io running id
      (record q { waiting = without q.waiting id; active = put q.active id rows })

unfoldable pub issue_row : Bool → Bool → String → Rows → Queue → Queue
issue_row io fails id rest q =
    persist_progress io id
      (record q { jobs = modify q.jobs id (count_row fails); active = put q.active id rest })

unfoldable pub abort : Bool → String → Queue → Queue
abort io id q = set_status io error id (record q {
  jobs = modify q.jobs id (λ j. record j { error_msg = "server shutdown" });
  active = without q.active id;
})

unfoldable pub finish : Bool → String → Queue → Queue
finish io id q = set_status io done id (record q { active = without q.active id })

-- The loop of `run`, with no step of another worker in between; `fails` is what workFn answers to a row.
unfoldable pub run_rows : Bool → (Dict String → Bool) → String → Rows → Queue → Queue
run_rows io fails id [] q = finish io id q
run_rows io fails id (row ∷ rest) q =
    let later = run_rows io fails id rest (issue_row io (fails row) id rest q) in
    if q.cancelled then abort io id q else later

unfoldable pub run : Bool → (Dict String → Bool) → String → Rows → Queue → Queue
run io fails id rows q = run_rows io fails id rows (start io id rows q)

unfoldable pub first_task : Dict Rows → Option (String × Rows)
first_task [] = none
first_task (task ∷ rest) = some task

abbrev pub new_queue : Bool → Queue
new_queue pool = record {
  cancelled = false;
  jobs = [];
  db = if pool then some [] else none;
  waiting = [];
  active = [];
}

-- What may happen next. The id of a new job is new. A row is counted also where the context was
-- cancelled since the round's check of it.
pub data Step : Queue → Queue → Type 0 where
  submits :
      {q : Queue} (inserts deletes : Bool) (id : String) (rows : Rows)
      → find q.jobs id ≡ none
      → Step q (submit inserts deletes id rows q).0
  starts :
      {q : Queue} (io : Bool) (id : String) (rows : Rows)
      → first_task q.waiting ≡ some (id, rows)
      → Step q (start io id rows q)
  issues :
      {q : Queue} (io fails : Bool) (id : String) (row : Dict String) (rest : Rows)
      → find q.active id ≡ some (row ∷ rest)
      → Step q (issue_row io fails id rest q)
  aborts :
      {q : Queue} (io : Bool) (id : String) (row : Dict String) (rest : Rows)
      → find q.active id ≡ some (row ∷ rest)
      → q.cancelled ≡ true
      → Step q (abort io id q)
  finishes :
      {q : Queue} (io : Bool) (id : String) → find q.active id ≡ some [] → Step q (finish io id q)
  cancels : {q : Queue} → Step q (record q { cancelled = true })

pub data Reach (pool : Bool) : Queue → Type 0 where
  fresh : Reach pool (new_queue pool)
  after : {q q' : Queue} → Reach pool q → Step q q' → Reach pool q'
