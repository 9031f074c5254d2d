-- ===== src/StatusList/Bitstring/Laws.antt =====
-- What Get and Set of internal/statuslist/bitstring.go do to a well-formed bit array.
use verifiably.Prelude.{
  ℕ, ◌+◌, ◌-◌, ◌*◌, ◌/◌, ◌%◌, ◌^◌, ◌≤◌, ◌<◌, ◌≡◌, refl, sym, ◌∙◌, Bool, true, false, List, some,
  inl, inr, ◌⊎◌, arith, leb, ◌==◌, if◌then◌else◌, ℤ, pos, negsuc, length, get_elem?, set,
  get_elem?-some, get_elem?-set, length-set, lt_of_get_elem?, length-replicate, set-set_back, All,
  All-get, All-set, All-replicate, Bool-cases,
}
use verifiably.StatusList.Result.{ok, err, out_of_range}
use verifiably.StatusList.Bitstring.{
  Bitstring, size_or_default, new_bitstring, from_bytes, bit_pos, byte_at, test_mask, write_mask,
  get, assign,
}
use verifiably.StatusList.Bitstring.Byte.{test-write, write-lt, write_back, mask_fits}

abbrev pub IsByte : ℕ → Type 0
IsByte x = x < 256

pub record IsValid (b : Bitstring) : Type 0 where
  pub size_pos : 0 < b.size
  pub bytes : All IsByte b.bits
  pub room : b.size ≤ length b.bits * 8

pub size_or_default-pos : (n : ℤ) → 0 < size_or_default n
size_or_default-pos (pos n) = ground arith
size_or_default-pos (negsuc n) = omega arith

pub new-IsValid : (size : ℤ) (lsb : Bool) → IsValid (new_bitstring size lsb)
unfolding new_bitstring
new-IsValid size lsb = record {
  size_pos = size_or_default-pos size;
  bytes = All-replicate IsByte _ 0 (omega arith);
  room = rw (length-replicate {A = ℕ} ((size_or_default size + 7) / 8) 0) (omega arith);
}

pub from_bytes-IsValid :
    (raw : List ℕ) (size : ℤ) (lsb : Bool) (b : Bitstring)
    → All IsByte raw
    → from_bytes raw size lsb ≡ ok b
    → IsValid b
unfolding from_bytes
from_bytes-IsValid raw (negsuc n) lsb b h e = cc
from_bytes-IsValid raw (pos n) lsb b h e = record {
  size_pos = ground arith;
  bytes = ground arith;
  room = ground arith;
}

-- The place of bit `i` within its byte.
abbrev pub offset : Bool → ℕ → ℕ
offset lsb i = if lsb then i % 8 else 7 - i % 8

pub offset-lt : (lsb : Bool) (i : ℕ) → offset lsb i < 8
offset-lt true i = omega arith
offset-lt false i = omega arith

bit_pos-offset : (lsb : Bool) (i : ℕ) → bit_pos lsb i ≡ (i / 8, 2 ^ offset lsb i)
unfolding bit_pos
bit_pos-offset lsb i = rw (mask_fits (offset lsb i) (offset-lt lsb i))

-- Two indices of one byte are told apart by their offsets.
same_offset : (lsb : Bool) (i j : ℕ) → i / 8 ≡ j / 8 → (offset lsb i == offset lsb j) ≡ (i == j)
same_offset true i j h = ground arith
same_offset false i j h = ground arith

-- The array that a write of bit `i`, in the byte `x`, leaves.
abbrev written : Bitstring → ℕ → Bool → ℕ → Bitstring
written b i w x = record b { bits = set b.bits (i / 8) (write_mask w x (2 ^ offset b.lsb_first i)) }

module _ (b : Bitstring) (i x : ℕ) (h : i < b.size) (e : get_elem? b.bits (i / 8) ≡ some x) where
  in_range : leb b.size i ≡ false
  in_range = ground arith

  pub read_at : get b (pos i) ≡ ok (test_mask x (2 ^ offset b.lsb_first i))
  unfolding get byte_at
  read_at = rw (in_range, bit_pos-offset b.lsb_first i) (rw (e, byte_at))

  write_at : (w : Bool) → assign b (pos i) w ≡ ok (written b i w x)
  unfolding assign byte_at
  write_at w = rw (in_range, bit_pos-offset b.lsb_first i) (rw (e, byte_at))

byte_of :
    (b : Bitstring)
    → IsValid b
    → (i : ℕ) → i < b.size
    → (x : ℕ) × (get_elem? b.bits (i / 8) ≡ some x) × (x < 256)
byte_of b v i h =
    let room = v.room in
    let (x, e) = get_elem?-some b.bits (i / 8) (omega arith) in
    (x, e, All-get IsByte b.bits (i / 8) x v.bytes e)

-- No read of a well-formed array panics.
pub get_total : (b : Bitstring) → IsValid b → (i : ℤ) → (r : Bool) × (get b i ≡ ok r)
unfolding get
get_total b v (negsuc i) = (false, refl)
get_total b v (pos i) = elim (Bool-cases (leb b.size i)) [
  | inl out ↦ (false, rw out)
  | inr inside ↦
      let h : i < b.size = ground arith in let (x, e, _) = byte_of b v i h in (_, read_at b i x h e)
]

-- A write fails exactly outside the range, and then with the range error.
pub assign_cases :
    (b : Bitstring)
    → IsValid b
    → (i : ℕ) (w : Bool)
    → ((b' : Bitstring) × (assign b (pos i) w ≡ ok b') × (i < b.size))
      ⊎ ((assign b (pos i) w ≡ err out_of_range) × (b.size ≤ i))
assign_cases b v i w = elim (Bool-cases (leb b.size i)) [
  | inl out ↦ inr ((unfold assign in rw out), ground arith)
  | inr inside ↦
      let h : i < b.size = ground arith in
      let (x, e, _) = byte_of b v i h in inl (_, write_at b i x h e w, h)
]

written-IsValid :
    (b : Bitstring) → IsValid b → (i : ℕ) (w : Bool) (x : ℕ) → x < 256 → IsValid (written b i w x)
written-IsValid b v i w x hx = record {
  size_pos = v.size_pos;
  bytes = All-set IsByte b.bits (i / 8) _ (write-lt w x _ hx (offset-lt b.lsb_first i)) v.bytes;
  room = rw (length-set b.bits (i / 8) (write_mask w x (2 ^ offset b.lsb_first i))) v.room;
}

get-written :
    (b : Bitstring)
    → IsValid b
    → (i j : ℕ) (w : Bool) (x : ℕ) → i < b.size
    → j < b.size
    → get_elem? b.bits (i / 8) ≡ some x
    → x < 256
    → get (written b i w x) (pos j) ≡ (if i == j then ok w else get b (pos j))
get-written b v i j w x hi hj e hx =
    let new_byte = write_mask w x (2 ^ offset b.lsb_first i) in
    let there =
      get_elem?-set b.bits (i / 8) (j / 8) new_byte (lt_of_get_elem? b.bits (i / 8) x e) in
    elim (Bool-cases (i / 8 == j / 8)) [
      | inl same ↦
          let k : i / 8 ≡ j / 8 = ground arith in
          let old : get_elem? b.bits (j / 8) ≡ some x = rw (← k) e in
          rw (read_at (written b i w x) j new_byte hj (there ∙ rw same), read_at b j x hj old)
            (rw
              (
                test-write w x (offset b.lsb_first i) (offset b.lsb_first j) hx
                    (offset-lt b.lsb_first i) (offset-lt b.lsb_first j),
                same_offset b.lsb_first i j k,
              )
              (ground arith))
      | inr other ↦
          let (y, ey, _) = byte_of b v j hj in
          rw (read_at (written b i w x) j y hj (there ∙ rw other ey), read_at b j y hj ey)
            (ground arith)
    ]

module _ (b : Bitstring) (v : IsValid b) (i : ℕ) (w : Bool) (b' : Bitstring)
    (done : assign b (pos i) w ≡ ok b') where
  pub assign-lt-size : i < b.size
  assign-lt-size = elim (assign_cases b v i w) [
    | inl (_, _, h) ↦ h
    | inr (e, _) ↦ absurd (elim (clash (sym e ∙ done)) [ ])
  ]
    where
      clash : err out_of_range ≡ ok b' → ⊥
      clash p = cc

  result : (x : ℕ) × (b' ≡ written b i w x) × (get_elem? b.bits (i / 8) ≡ some x) × (x < 256)
  result =
      let (x, e, hx) = byte_of b v i assign-lt-size in
      let r = write_at b i x assign-lt-size e w in (x, cc, e, hx)

  -- A write keeps the array well-formed, of the same size and bit order.
  pub assign-IsValid : IsValid b' × (b'.size ≡ b.size) × (b'.lsb_first ≡ b.lsb_first)
  assign-IsValid = let (x, eq, _, hx) = result in rw eq (written-IsValid b v i w x hx, refl, refl)

  -- A read after a write.
  pub get-assign : (j : ℕ) → get b' (pos j) ≡ (if i == j then ok w else get b (pos j))
  get-assign j =
      let (x, eq, e, hx) = result in
      rw eq (elim (Bool-cases (leb b.size j)) [
        | inl out ↦ (unfold get in rw out (ground (arith, assign-lt-size)))
        | inr near ↦ get-written b v i j w x assign-lt-size (ground arith) e hx
      ])

  -- Writing the old value back restores the array.
  pub assign_back : (prev : Bool) → get b (pos i) ≡ ok prev → assign b' (pos i) prev ≡ ok b
  assign_back prev was =
      let (x, eq, e, hx) = result in
      let new_byte = write_mask w x (2 ^ offset b.lsb_first i) in
      let there =
        get_elem?-set b.bits (i / 8) (i / 8) new_byte (lt_of_get_elem? b.bits (i / 8) x e) in
      let now : get_elem? (set b.bits (i / 8) new_byte) (i / 8) ≡ some new_byte =
        ground (arith, there) in
      let old : prev ≡ test_mask x (2 ^ offset b.lsb_first i) =
        cc (read_at b i x assign-lt-size e) in
      rw
        (
          eq,
          write_at (written b i w x) i new_byte assign-lt-size now prev,
          old,
          write_back w x (offset b.lsb_first i) hx (offset-lt b.lsb_first i),
        )
        (rw (set-set_back b.bits (i / 8) new_byte x e))
