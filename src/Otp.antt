-- ===== src/Otp.antt =====
-- internal/handlers/otp.go: the store of one-time codes that activate a holder's identity. The clock
-- (in seconds), SHA-256 and the random token and code are arguments; the mutex is not modelled, each
-- method is one step.
pub mod Verify
pub mod Attempts
pub mod Mask
mod Examples
use text.Mathlib.Text.{◌==◌}
use verifiably.Prelude.{
  ℕ, ◌+◌, Bool, true, false, ◌||◌, List, [], ◌∷◌, Option, none, some, String, if◌then◌else◌, ltb,
  leb,
}
use verifiably.Prelude.Outcome.{Outcome, ok, err}
use verifiably.Prelude.Dict.{Dict, find, put, without}

abbrev pub otp_ttl : ℕ
otp_ttl = 600

abbrev pub otp_max_attempts : ℕ
otp_max_attempts = 5

pub record OtpEntry : Type 0 where
  pub individual_id : String
  pub email : String
  pub code_hash : String
  pub expiry : ℕ
  pub attempts : ℕ

-- The causes that Verify gives.
pub data Reason : Type 0 where
  expired too_many_attempts incorrect_code : Reason

-- time.Now().After(e.expiry)
abbrev pub is_over : ℕ → OtpEntry → Bool
is_over now e = ltb e.expiry now

-- gcLocked
unfoldable pub gc : ℕ → Dict OtpEntry → Dict OtpEntry
gc now [] = []
gc now ((k, e) ∷ rest) =
    let others = gc now rest in if is_over now e then others else (k, e) ∷ others

-- The entry behind a token, unless it is unknown or over.
unfoldable pub live : ℕ → String → Dict OtpEntry → Option OtpEntry
live now token m = elim (find m token) [
  | none ↦ none
  | some e ↦ if is_over now e then none else some e
]

unfoldable pub peek : ℕ → String → Dict OtpEntry → Option (String × String)
peek now token m = elim (live now token m) [
  | none ↦ none
  | some e ↦ some (e.individual_id, e.email)
]

module _ (sha256 : String → String) where
  unfoldable pub issue : ℕ → String → String → String → String → Dict OtpEntry → Dict OtpEntry
  issue now token code individual_id email m = put (gc now m) token (record {
    individual_id = individual_id;
    email = email;
    code_hash = sha256 code;
    expiry = now + otp_ttl;
    attempts = 0;
  })

  -- The part of Verify that runs with a live entry.
  pub check : String → String → OtpEntry → Dict OtpEntry → Dict OtpEntry × Outcome Reason String
  check token code e m =
      if leb otp_max_attempts e.attempts
      then (without m token, err too_many_attempts)
      else if e.code_hash == sha256 code
      then (without m token, ok e.individual_id)
      else (put m token (record e { attempts = e.attempts + 1 }), err incorrect_code)

  unfoldable pub verify :
      ℕ → String → String → Dict OtpEntry → Dict OtpEntry × Outcome Reason String
  unfolding check
  verify now token code m = elim (live now token m) [
    | none ↦ (without m token, err expired)
    | some e ↦ check token code e m
  ]

  -- Calls of Verify for one token, each at its time.
  unfoldable pub answers : String → List (ℕ × String) → Dict OtpEntry → List (Outcome Reason String)
  answers token [] m = []
  answers token ((now, code) ∷ rest) m =
      let (m', answer) = verify now token code m in answer ∷ answers token rest m'
