-- ===== src/Jobs/Table.antt =====
-- What the table of internal/jobs/queue.go keeps of a job.
use verifiably.Prelude.{◌≡◌, Option, none, some, String}
use verifiably.Prelude.Dict.{Dict, find}
use verifiably.Jobs.{Job}

-- No row of the table has a message.
abbrev pub QuietTable : Dict Job → Type 0
QuietTable m = (id : String) (j : Job) → find m id ≡ some j → j.error_msg ≡ ""

abbrev pub Quiet : Option (Dict Job) → Type 0
Quiet none = Unit
Quiet (some m) = QuietTable m
