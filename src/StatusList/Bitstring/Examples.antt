-- ===== src/StatusList/Bitstring/Examples.antt =====
-- The theorems on bit arrays at concrete lists, and runs of the operations.
use verifiably.Prelude.{◌≡◌, refl, true, false, arith, pos, [], ◌∷◌}
use verifiably.StatusList.Result.{ok}
use verifiably.StatusList.Bitstring.{
  Bitstring, bit_pos, byte_at, get, assign, write_mask, test_mask,
}
use verifiably.StatusList.Bitstring.Laws.{IsValid}

abbrev small : Bitstring
small = record { bits = 0 ∷ 5 ∷ []; size = 16; lsb_first = false }

small-IsValid : IsValid small
small-IsValid = record { size_pos = omega arith; bytes = omega arith; room = omega arith }

abbrev small' : Bitstring
small' = record { bits = 0 ∷ 69 ∷ []; size = 16; lsb_first = false }

assigned : assign small (pos 9) true ≡ ok small'
unfolding assign byte_at bit_pos write_mask
assigned = refl

unset : get small (pos 9) ≡ ok false
unfolding get byte_at bit_pos test_mask
unset = refl
