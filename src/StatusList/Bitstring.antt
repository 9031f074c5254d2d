-- ===== src/StatusList/Bitstring.antt =====
-- internal/statuslist/bitstring.go: the fixed-size bit array of a status list, in both bit orders.
-- The mutex is not modelled: each method is one step. A size and an index are Go ints, so they may
-- be negative; bytes are numbers below 256.
pub mod Byte
pub mod Laws
pub mod Orders
mod Examples
use Prim.Native.Nat.{bit_and, bit_or, bit_xor}
use verifiably.Prelude.{
  ℕ, ◌+◌, ◌-◌, ◌*◌, ◌/◌, ◌%◌, ◌^◌, Bool, true, false, not, List, arith, Option, none, some, ltb,
  leb, ◌==◌, if◌then◌else◌, ℤ, pos, negsuc, length, get_elem?, set, replicate,
}
use verifiably.StatusList.Result.{
  Result, ok, err, size_not_positive, too_short, out_of_range, fault, ◌>>=◌,
}

-- DefaultBits
abbrev pub default_bits : ℕ
default_bits = 131072

pub record Bitstring : Type 0 where
  pub bits : List ℕ
  pub size : ℕ
  pub lsb_first : Bool

abbrev pub size_or_default : ℤ → ℕ
size_or_default (pos n) = if n == 0 then default_bits else n
size_or_default (negsuc n) = default_bits

unfoldable pub new_bitstring : ℤ → Bool → Bitstring
new_bitstring size lsb_first = record {
  bits = replicate ((size_or_default size + 7) / 8) 0;
  size = size_or_default size;
  lsb_first = lsb_first;
}

-- New and NewIETF
abbrev pub new : ℤ → Bitstring
new size = new_bitstring size false

abbrev pub new_ietf : ℤ → Bitstring
new_ietf size = new_bitstring size true

-- fromBytes: the buffer is copied, which a value of the model is already.
unfoldable pub from_bytes : List ℕ → ℤ → Bool → Result Bitstring
from_bytes b (negsuc n) lsb_first = err size_not_positive
from_bytes b (pos n) lsb_first =
    if n == 0
    then err size_not_positive
    else if ltb (length b * 8) n
    then err too_short
    else ok (record { bits = b; size = n; lsb_first = lsb_first })

-- bitPos: the byte's place and the mask, `1 << off` as a byte
unfoldable pub bit_pos : Bool → ℕ → ℕ × ℕ
bit_pos lsb_first i = (i / 8, 2 ^ (if lsb_first then i % 8 else 7 - i % 8) % 256)

-- b.bits[byteIdx], which panics out of range
unfoldable pub byte_at : Bitstring → ℕ → Result ℕ
byte_at b k = elim (get_elem? b.bits k) [ none ↦ err fault | some x ↦ ok x ]

-- x & mask != 0
unfoldable pub test_mask : ℕ → ℕ → Bool
test_mask x mask = not (bit_and x mask == 0)

-- x |= mask, and x &^= mask
unfoldable pub write_mask : Bool → ℕ → ℕ → ℕ
write_mask true x mask = bit_or x mask
write_mask false x mask = bit_and x (bit_xor mask 255)

unfoldable pub get : Bitstring → ℤ → Result Bool
get b (negsuc i) = ok false
get b (pos i) =
    if leb b.size i
    then ok false
    else do let (k, mask) = bit_pos b.lsb_first i; x ← byte_at b k; ok (test_mask x mask)

unfoldable pub assign : Bitstring → ℤ → Bool → Result Bitstring
assign b (negsuc i) v = err out_of_range
assign b (pos i) v = if leb b.size i then err out_of_range else do
  let (k, mask) = bit_pos b.lsb_first i
  x ← byte_at b k
  ok (record b { bits = set b.bits k (write_mask v x mask) })
