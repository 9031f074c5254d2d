-- ===== src/StatusList/Bitstring/Orders.antt =====
-- The two bit orders of internal/statuslist/bitstring.go, and what a fresh list reads.
use verifiably.Prelude.{
  ℕ, zero, suc, ◌+◌, ◌-◌, ◌*◌, ◌/◌, ◌%◌, ◌<◌, ◌≡◌, refl, Bool, true, false, List, some, inl, inr,
  arith, leb, ℤ, pos, negsuc, get_elem?, replicate, Bool-cases,
}
use verifiably.StatusList.Result.{ok}
use verifiably.StatusList.Bitstring.{size_or_default, new_bitstring, bit_pos, byte_at, get}
use verifiably.StatusList.Bitstring.Byte.{test-zero}
use verifiably.StatusList.Bitstring.Laws.{offset, offset-lt, read_at}

-- The index that the other convention gives to the same stored bit.
abbrev pub mirror : ℕ → ℕ
mirror i = i / 8 * 8 + (7 - i % 8)

same_place : (i : ℕ) → bit_pos true i ≡ bit_pos false (mirror i)
unfolding bit_pos
same_place i =
    let byte : mirror i / 8 ≡ i / 8 = omega arith in
    let place : 7 - mirror i % 8 ≡ i % 8 = omega arith in rw (byte, place)

-- Read with the wrong convention, a list shows each bit at the mirrored index of its byte: the
-- two conventions read one buffer alike at mirrored indices, wherever both are addressable.
pub get-mirror :
    (bits : List ℕ) (size i : ℕ)
    → i < size
    → mirror i < size
    → get (record { bits = bits; size = size; lsb_first = true }) (pos i)
      ≡ get (record { bits = bits; size = size; lsb_first = false }) (pos (mirror i))
unfolding get byte_at
get-mirror bits size i h k =
    let inside : leb size i ≡ false = ground arith in
    let mirrored : leb size (mirror i) ≡ false = ground arith in rw (inside, mirrored, same_place i)

get_elem?-replicate : (n k a : ℕ) → k < n → get_elem? (replicate n a) k ≡ some a
get_elem?-replicate zero k a h = elim h [ ]
get_elem?-replicate (suc n) zero a h = refl
get_elem?-replicate (suc n) (suc k) a h = get_elem?-replicate n k a (omega arith)

fresh_at :
    (size : ℤ) (lsb : Bool) (i : ℕ)
    → i < size_or_default size
    → get (new_bitstring size lsb) (pos i) ≡ ok false
unfolding new_bitstring
fresh_at size lsb i h = rw (
  read_at (new_bitstring size lsb) i 0 h (get_elem?-replicate _ (i / 8) 0 (omega arith)),
  test-zero (offset lsb i) (offset-lt lsb i),
)

-- In a fresh list of either kind every index reads as not revoked, outside the range too.
pub get-new : (size : ℤ) (lsb : Bool) (i : ℤ) → get (new_bitstring size lsb) i ≡ ok false
unfolding get
get-new size lsb (negsuc i) = refl
get-new size lsb (pos i) = elim (Bool-cases (leb (new_bitstring size lsb).size i)) [
  | inl out ↦ rw out
  | inr inside ↦ fresh_at size lsb i (unfold new_bitstring in ground arith)
]
