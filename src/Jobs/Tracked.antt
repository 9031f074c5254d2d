-- ===== src/Jobs/Tracked.antt =====
-- The jobs of internal/jobs/queue.go and their tasks: what holds between them, and what a change of
-- one job keeps of it.
use mathlib.Core.Option.{some-injective}
use text.Mathlib.Text.{◌==◌}
use text.Mathlib.TextPositions.{eq_refl}
use verifiably.Prelude.{
  subst, ◌+◌, ◌≤◌, ◌<◌, ◌≡◌, ◌≢◌, inl, inr, refl, sym, ap, ◌∙◌, Bool, [], ◌∷◌, Option, none, some,
  String, if◌then◌else◌, length, arith, eq_iff, Bool-cases, Option-cases,
}
use verifiably.Prelude.Dict.{Dict, find, find-put}
use verifiably.Jobs.{
  pending, running, done, error, Job, Rows, Queue, modify, count_row, persist_progress, first_task,
}

-- The counters of a job are in order; a job that is done has issued every row, one that was aborted
-- has not, and one that is pending none.
pub record Counted (j : Job) : Type 0 where
  pub failed : j.errors ≤ j.done
  pub within : j.done ≤ j.total
  pub complete : j.status ≡ done → j.done ≡ j.total
  pub cut : j.status ≡ error → j.done < j.total
  pub untouched : j.status ≡ pending → j.done ≡ 0

pub record Waiting (j : Job) (rows : Rows) : Type 0 where
  pub status : j.status ≡ pending
  pub none_done : j.done ≡ 0
  pub none_failed : j.errors ≡ 0
  pub all_left : j.total ≡ length rows

pub record Active (j : Job) (rows : Rows) : Type 0 where
  pub status : j.status ≡ running
  pub failed : j.errors ≤ j.done
  pub left : j.done + length rows ≡ j.total

-- Each task belongs to a job, which it has not left behind.
pub record Tracked (q : Queue) : Type 0 where
  pub counted : (id : String) (j : Job) → find q.jobs id ≡ some j → Counted j
  pub waiting :
      (id : String) (rows : Rows)
      → find q.waiting id ≡ some rows
      → (j : Job) × (find q.jobs id ≡ some j) × Waiting j rows
  pub active :
      (id : String) (rows : Rows)
      → find q.active id ≡ some rows
      → (j : Job) × (find q.jobs id ≡ some j) × Active j rows

-- A step that changes one job and its tasks keeps what holds, if it holds of that job.
pub update-Tracked :
    (q q' : Queue) (id : String) (oj : Option Job) (w a : Option Rows)
    → Tracked q
    → ((k : String) → find q'.jobs k ≡ (if id == k then oj else find q.jobs k))
    → ((k : String) → find q'.waiting k ≡ (if id == k then w else find q.waiting k))
    → ((k : String) → find q'.active k ≡ (if id == k then a else find q.active k))
    → ((j : Job) → oj ≡ some j → Counted j)
    → ((rows : Rows) → w ≡ some rows → (j : Job) × (oj ≡ some j) × Waiting j rows)
    → ((rows : Rows) → a ≡ some rows → (j : Job) × (oj ≡ some j) × Active j rows)
    → Tracked q'
update-Tracked q q' id oj w a h hj hw ha cj cw ca = record {
  counted = λ k j e. elim (Bool-cases (id == k)) [
    | inl here ↦ cj j (sym (hj k ∙ rw here refl) ∙ e)
    | inr other ↦ h.counted k j (sym (hj k ∙ rw other refl) ∙ e)
  ];
  waiting = λ k rows e. elim (Bool-cases (id == k)) [
    | inl here ↦
        let (j, is_job, holds) = cw rows (sym (hw k ∙ rw here refl) ∙ e) in
        (j, (hj k ∙ rw here refl) ∙ is_job, holds)
    | inr other ↦
        let (j, is_job, holds) = h.waiting k rows (sym (hw k ∙ rw other refl) ∙ e) in
        (j, (hj k ∙ rw other refl) ∙ is_job, holds)
  ];
  active = λ k rows e. elim (Bool-cases (id == k)) [
    | inl here ↦
        let (j, is_job, holds) = ca rows (sym (ha k ∙ rw here refl) ∙ e) in
        (j, (hj k ∙ rw here refl) ∙ is_job, holds)
    | inr other ↦
        let (j, is_job, holds) = h.active k rows (sym (ha k ∙ rw other refl) ∙ e) in
        (j, (hj k ∙ rw other refl) ∙ is_job, holds)
  ];
}

pub find-modify :
    (m : Dict Job) (id k : String) (f : Job → Job) (j : Job)
    → find m id ≡ some j
    → find (modify m id f) k ≡ (if id == k then some (f j) else find m k)
unfolding modify
find-modify m id k f j present = rw (present, modify) (find-put m id k (f j))

-- A map that gives the same at `id` as it would after an update there is unchanged by it.
pub unchanged_at :
    {V : Type 0} (m : Dict V) (id : String) (o : Option V)
    → find m id ≡ o
    → (k : String) → find m k ≡ (if id == k then o else find m k)
unchanged_at m id o e k = elim (Bool-cases (id == k)) [
  | inl here ↦ rw here (ap (find m) (sym ((eq_iff id k).0 here)) ∙ e)
  | inr other ↦ rw other refl
]

-- No task waits whose job is another than pending, and none is active whose job is another than running.
pub not_waiting :
    (q : Queue) (id : String) (j : Job)
    → Tracked q
    → find q.jobs id ≡ some j
    → j.status ≢ pending
    → find q.waiting id ≡ none
not_waiting q id j h present other = elim (Option-cases (find q.waiting id)) [
  | inl gone ↦ gone
  | inr (rows, e) ↦
      let (j', present', w) = h.waiting id rows e in
      absurd (
        other
          (ap (λ (i : Job). i.status) (some-injective j j' (sym present ∙ present')) ∙ w.status))
]

pub first_task-find :
    (m : Dict Rows) (id : String) (rows : Rows)
    → first_task m ≡ some (id, rows)
    → find m id ≡ some rows
unfolding first_task find
first_task-find [] id rows e = absurd (ground arith)
first_task-find ((k, r) ∷ rest) id rows e =
    let same : (k ≡ id) × (r ≡ rows) = (ground arith, ground arith) in
    rw (same.0, same.1, eq_refl id) refl

pub persist_progress-same :
    (io : Bool) (id : String) (q : Queue)
    → ((persist_progress io id q).jobs ≡ q.jobs)
      × ((persist_progress io id q).waiting ≡ q.waiting)
      × ((persist_progress io id q).active ≡ q.active)
      × ((persist_progress io id q).cancelled ≡ q.cancelled)
unfolding persist_progress
persist_progress-same io id q = elim (Option-cases (find q.jobs id)) [
  | inl gone ↦ rw (gone, persist_progress) (refl, refl, refl, refl)
  | inr (j, e) ↦ rw (e, persist_progress) (refl, refl, refl, refl)
]

pub Counted-Active : (j : Job) (rows : Rows) → Active j rows → Counted j
Counted-Active j rows a =
    let (status, failed, left) : (j.status ≡ running)
        × (j.errors ≤ j.done)
        × (j.done + length rows ≡ j.total) =
      (a.status, a.failed, a.left) in
    record {
      failed = failed;
      within = omega (arith, left);
      complete = λ e. absurd (ground arith);
      cut = λ e. absurd (ground arith);
      untouched = λ e. absurd (ground arith);
    }

pub Active-start :
    (j : Job) (rows : Rows) → Waiting j rows → Active (record j { status = running }) rows
Active-start j rows w =
    let (none_done, none_failed, all_left) : (j.done ≡ 0)
        × (j.errors ≡ 0)
        × (j.total ≡ length rows) =
      (w.none_done, w.none_failed, w.all_left) in
    record { status = refl; failed = omega arith; left = omega arith }

pub Active-count_row :
    (fails : Bool) (j : Job) (row : Dict String) (rest : Rows)
    → Active j (row ∷ rest)
    → Active (count_row fails j) rest
Active-count_row fails j row rest a =
    let (failed, left) : (j.errors ≤ j.done) × (j.done + length (row ∷ rest) ≡ j.total) =
      (a.failed, a.left) in
    record { status = a.status; failed = ground (arith, failed); left = omega (arith, left) }

pub Counted-abort :
    (j : Job) (row : Dict String) (rest : Rows)
    → Active j (row ∷ rest)
    → Counted (record j { error_msg = "server shutdown"; status = error })
Counted-abort j row rest a =
    let (failed, left) : (j.errors ≤ j.done) × (j.done + length (row ∷ rest) ≡ j.total) =
      (a.failed, a.left) in
    record {
      failed = failed;
      within = omega (arith, left);
      complete = λ e. absurd (ground arith);
      cut = λ e. omega (arith, left);
      untouched = λ e. absurd (ground arith);
    }

pub Counted-finish : (j : Job) → Active j [] → Counted (record j { status = done })
Counted-finish j a =
    let (failed, left) : (j.errors ≤ j.done) × (j.done + length {A = Dict String} [] ≡ j.total) =
      (a.failed, a.left) in
    record {
      failed = failed;
      within = omega (arith, left);
      complete = λ e. omega (arith, left);
      cut = λ e. absurd (ground arith);
      untouched = λ e. absurd (ground arith);
    }

pub at_some : {A : Type 0} (P : A → Type 0) (x : A) → P x → (y : A) → some x ≡ some y → P y
at_some P x p y e = subst P (some-injective x y e) p

pub not_pending : (j : Job) (rows : Rows) → Active j rows → j.status ≢ pending
not_pending j rows a e = let status = a.status in ground (arith, e)

-- A step that moves a job on, takes its task from those that wait, and leaves its worker `a`.
pub advance-Tracked :
    (q q' : Queue) (id : String) (j : Job) (a : Option Rows)
    → Tracked q
    → ((k : String) → find q'.jobs k ≡ (if id == k then some j else find q.jobs k))
    → ((k : String) → find q'.waiting k ≡ (if id == k then none else find q.waiting k))
    → ((k : String) → find q'.active k ≡ (if id == k then a else find q.active k))
    → Counted j
    → ((rows : Rows) → a ≡ some rows → Active j rows)
    → Tracked q'
advance-Tracked q q' id j a h hj hw ha c ca =
    update-Tracked q q' id (some j) none a h hj hw ha (at_some Counted j c)
      (λ r e. absurd (ground arith)) (λ rows e. (j, refl, ca rows e))
