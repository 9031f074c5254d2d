-- ===== src/Jose.antt =====
-- internal/jose/jose.go, with what the packages base64, json, sha256 and ecdsa do for the program as
-- an argument, `Codecs`. A []byte is a list of natural numbers, a big.Int a natural number.
use verifiably.Prelude.{
  ℕ, zero, suc, ◌+◌, ◌*◌, ◌/◌, ◌%◌, ◌^◌, ◌<◌, ◌≡◌, refl, ap, Bool, List, [], ◌∷◌, ◌++◌, Option,
  none, some, String, if◌then◌else◌, ◌==◌, length, length-append, arith,
}
use verifiably.Prelude.Outcome.{Outcome, ok, err}
use verifiably.Delegation.Json.{Fields}

pub record Codecs : Type 0 where
  -- base64.RawURLEncoding and base64.URLEncoding
  pub raw_url : List ℕ → String
  pub from_raw_url : String → Option (List ℕ)
  pub from_padded_url : String → Option (List ℕ)
  -- []byte(s)
  pub bytes_of : String → List ℕ
  -- json.Marshal and json.Unmarshal of an object
  pub marshal : Fields → List ℕ
  pub unmarshal : List ℕ → Option Fields
  -- json.Unmarshal into a struct whose one member is `iss`
  pub iss_claim : List ℕ → Option String
  pub sha256 : List ℕ → List ℕ
  -- ecdsa.Verify at the point (x, y) of P-256, and ecdsa.Sign with the scalar d
  pub ecdsa_verify : ℕ → ℕ → List ℕ → ℕ → ℕ → Bool
  pub ecdsa_sign : ℕ → List ℕ → Option (ℕ × ℕ)

pub data KeyError : Type 0 where
  unsupported_key bad_coordinate bad_signature_text wrong_length signature_invalid : KeyError

-- SetBytes: the number of big-endian bytes, after those read before.
unfoldable pub set_bytes : ℕ → List ℕ → ℕ
set_bytes acc [] = acc
set_bytes acc (b ∷ bs) = set_bytes (acc * 256 + b) bs

-- FillBytes: the low `n` bytes of a number, big-endian, with the zeros in front.
unfoldable pub fill_bytes : ℕ → ℕ → List ℕ
fill_bytes zero x = []
fill_bytes (suc n) x = fill_bytes n (x / 256) ++ (x % 256 ∷ [])

unfoldable pub take : ℕ → List ℕ → List ℕ
take zero bs = []
take (suc n) [] = []
take (suc n) (b ∷ bs) = b ∷ take n bs

unfoldable pub drop : ℕ → List ℕ → List ℕ
drop zero bs = bs
drop (suc n) [] = []
drop (suc n) (b ∷ bs) = drop n bs

module _ (c : Codecs) where
  unfoldable pub decode_base64url_big_int : String → Option ℕ
  decode_base64url_big_int s = elim (c.from_raw_url s) [
    | some b ↦ some (set_bytes 0 b)
    | none ↦ elim (c.from_padded_url s) [ some b ↦ some (set_bytes 0 b) | none ↦ none ]
  ]

  unfoldable pub verify_es256 : ℕ → ℕ → List ℕ → List ℕ → Outcome KeyError (Unit {0})
  verify_es256 x y signing_input sig =
      if length sig == 64
      then if c.ecdsa_verify x y (c.sha256 signing_input) (set_bytes 0 (take 32 sig))
          (set_bytes 0 (drop 32 sig))
        then ok tt
        else err signature_invalid
      else err wrong_length

pub length-fill_bytes : (n x : ℕ) → length (fill_bytes n x) ≡ n
unfolding fill_bytes
length-fill_bytes zero x = refl
length-fill_bytes (suc n) x =
    omega
      (arith, length-append (fill_bytes n (x / 256)) (x % 256 ∷ []), length-fill_bytes n (x / 256))

set_bytes-append :
    (bs : List ℕ) (acc b : ℕ) → set_bytes acc (bs ++ (b ∷ [])) ≡ set_bytes acc bs * 256 + b
unfolding set_bytes
set_bytes-append [] acc b = refl
set_bytes-append (x ∷ bs) acc b = set_bytes-append bs (acc * 256 + x) b

pub set_bytes-fill_bytes : (n x : ℕ) → x < 256 ^ n → set_bytes 0 (fill_bytes n x) ≡ x
unfolding set_bytes fill_bytes
set_bytes-fill_bytes zero x h = omega arith
set_bytes-fill_bytes (suc n) x h = omega (
  arith,
  set_bytes-append (fill_bytes n (x / 256)) 0 (x % 256),
  set_bytes-fill_bytes n (x / 256) (omega arith),
)

pub take-append : (n : ℕ) (bs cs : List ℕ) → length bs ≡ n → take n (bs ++ cs) ≡ bs
unfolding take
take-append zero [] cs h = refl
take-append zero (b ∷ bs) cs h = absurd (omega arith)
take-append (suc n) [] cs h = absurd (omega arith)
take-append (suc n) (b ∷ bs) cs h = ap (◌∷◌ b) (take-append n bs cs (omega arith))

pub drop-append : (n : ℕ) (bs cs : List ℕ) → length bs ≡ n → drop n (bs ++ cs) ≡ cs
unfolding drop
drop-append zero [] cs h = refl
drop-append zero (b ∷ bs) cs h = absurd (omega arith)
drop-append (suc n) [] cs h = absurd (omega arith)
drop-append (suc n) (b ∷ bs) cs h = drop-append n bs cs (omega arith)
