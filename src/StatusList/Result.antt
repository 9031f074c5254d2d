-- ===== src/StatusList/Result.antt =====
-- The errors of internal/statuslist. `fault` is the run-time panic of a slice index out of range.
pub use verifiably.Prelude.Outcome.{ok, err, guard, ◌>>=◌, ◌>>◌}
use verifiably.Prelude.Outcome.{Outcome}

pub data Error : Type 0 where
  size_not_positive too_short out_of_range fault : Error
  unknown_kind list_id_required mkdir_failed : Error
  read_failed parse_failed decode_failed write_failed list_full : Error

abbrev pub Result {ℓ} : Type ℓ → Type ℓ
Result A = Outcome Error A
