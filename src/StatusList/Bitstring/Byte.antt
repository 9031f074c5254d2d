-- ===== src/StatusList/Bitstring/Byte.antt =====
-- One byte under the masks of its eight bits. The facts are checked value by value, and hold for
-- every byte and every pair of bits.
use verifiably.Prelude.{
  ℕ, zero, suc, ◌+◌, ◌*◌, ◌/◌, ◌%◌, ◌^◌, ◌<◌, ◌≡◌, refl, Bool, true, false, ◌&&◌, arith, ltb, ◌==◌,
  ==_iff, ltb→lt, sym, if◌then◌else◌,
}
use verifiably.StatusList.Bitstring.{test_mask, write_mask}

-- A test of every number under a bound.
every : (ℕ → Bool) → ℕ → Bool
every test zero = true
every test (suc k) = test k && every test k

every_sound : (test : ℕ → Bool) (k x : ℕ) → x < k → every test k ≡ true → test x ≡ true
unfolding every
every_sound test zero x small checked = absurd (omega arith)
every_sound test (suc k) x small checked = ground (arith, every_sound test k x)

-- A byte and two bits of it in one number, for the tables.
abbrev packed : (ℕ → ℕ → ℕ → Bool) → ℕ → Bool
packed p n = p (n / 64) (n / 8 % 8) (n % 8)

by_table :
    (p : ℕ → ℕ → ℕ → Bool)
    → every (packed p) 16384 ≡ true
    → (x a b : ℕ) → x < 256
    → a < 8
    → b < 8
    → p x a b ≡ true
by_table p table x a b hx ha hb =
    rw (quotient, middle, rest) at (every_sound (packed p) 16384 n (omega arith) table)
  where
    n : ℕ
    n = x * 64 + a * 8 + b

    quotient : n / 64 ≡ x
    quotient = omega arith

    middle : n / 8 % 8 ≡ a
    middle = omega arith

    rest : n % 8 ≡ b
    rest = omega arith

abbrev same : Bool → Bool → Bool
same true b = b
same false true = false
same false false = true

same_sound : (u v : Bool) → same u v ≡ true → u ≡ v
same_sound true v h = sym h
same_sound false true h = cc
same_sound false false h = refl

abbrev write_read : Bool → ℕ → ℕ → ℕ → Bool
write_read v x a b =
    same (test_mask (write_mask v x (2 ^ a)) (2 ^ b)) (if a == b then v else test_mask x (2 ^ b))

write_read_table : (v : Bool) → every (packed (write_read v)) 16384 ≡ true
unfolding every test_mask write_mask
write_read_table true = refl
write_read_table false = refl

-- A written bit reads back, and the other bits of the byte read as before.
pub test-write :
    (v : Bool) (x a b : ℕ)
    → x < 256
    → a < 8
    → b < 8
    → test_mask (write_mask v x (2 ^ a)) (2 ^ b) ≡ (if a == b then v else test_mask x (2 ^ b))
test-write v x a b hx ha hb =
    same_sound _ _ (by_table (write_read v) (write_read_table v) x a b hx ha hb)

abbrev stays_byte : Bool → ℕ → ℕ → ℕ → Bool
stays_byte v x a b = ltb (write_mask v x (2 ^ a)) 256

stays_byte_table : (v : Bool) → every (packed (stays_byte v)) 16384 ≡ true
unfolding every write_mask
stays_byte_table true = refl
stays_byte_table false = refl

-- A written byte is a byte.
pub write-lt : (v : Bool) (x a : ℕ) → x < 256 → a < 8 → write_mask v x (2 ^ a) < 256
write-lt v x a hx ha =
    ltb→lt _ _ (by_table (stays_byte v) (stays_byte_table v) x a 0 hx ha (omega arith))

abbrev undoes : Bool → ℕ → ℕ → ℕ → Bool
undoes v x a b = write_mask (test_mask x (2 ^ a)) (write_mask v x (2 ^ a)) (2 ^ a) == x

undoes_table : (v : Bool) → every (packed (undoes v)) 16384 ≡ true
unfolding every write_mask test_mask
undoes_table true = refl
undoes_table false = refl

-- Writing the old bit back restores the byte.
pub write_back :
    (v : Bool) (x a : ℕ)
    → x < 256
    → a < 8
    → write_mask (test_mask x (2 ^ a)) (write_mask v x (2 ^ a)) (2 ^ a) ≡ x
write_back v x a hx ha =
    (==_iff _ _).0 (by_table (undoes v) (undoes_table v) x a 0 hx ha (omega arith))

mask_table : every (λ a. 2 ^ a % 256 == 2 ^ a) 8 ≡ true
unfolding every
mask_table = refl

-- The shifted one fits a byte.
pub mask_fits : (a : ℕ) → a < 8 → 2 ^ a % 256 ≡ 2 ^ a
mask_fits a h = (==_iff _ _).0 (every_sound _ 8 a h mask_table)

zero_table : every (λ a. same (test_mask 0 (2 ^ a)) false) 8 ≡ true
unfolding every test_mask
zero_table = refl

-- No bit of a zero byte is set.
pub test-zero : (a : ℕ) → a < 8 → test_mask 0 (2 ^ a) ≡ false
test-zero a h = same_sound _ _ (every_sound _ 8 a h zero_table)
