-- ===== src/Delegation/Temporal.antt =====
-- backend/normalized.go: the normalised credential, and its own window of validity. Instants are
-- natural numbers counted in nanoseconds from Go's zero time, which is 0.
use verifiably.Prelude.{
  ℕ, ◌+◌, ◌*◌, Bool, List, [], ◌∷◌, Option, none, some, String, if◌then◌else◌, ltb, ◌==◌ as nat_eq,
  pos,
}
use verifiably.Prelude.Dict.{Dict}
use verifiably.Delegation.Json.{Value, number, str, Fields, Decoders, lookup, as_map}

pub record NormalizedCredential : Type 0 where
  pub types : List String
  pub subject_id : String
  pub issuer : String
  pub format : String
  pub claims : Dict String
  pub raw : Fields
  pub host_status : String

pub record HolderBinding : Type 0 where
  pub id : String
  pub key_thumbprint : String
  pub confirmed : Bool

-- time.RFC3339
abbrev pub rfc3339 : String
rfc3339 = "2006-01-02T15:04:05Z07:00"

-- time.Unix(n, 0)
abbrev pub unix : ℕ → ℕ
unix n = (62135596800 + n) * 1000000000

abbrev pub unless_zero : ℕ → ℕ → ℕ
unless_zero t fallback = if nat_eq t 0 then fallback else t

module _ (d : Decoders) where
  -- The instant that one value gives.
  unfoldable pub time_of : Value → Option ℕ
  time_of (str s) = d.parse_layout rfc3339 s
  time_of (number (pos n)) = if ltb 0 n then some (unix n) else none
  time_of _ = none

  unfoldable pub first_raw_time : Fields → List String → ℕ
  unfolding time_of
  first_raw_time raw [] = 0
  first_raw_time raw (k ∷ keys) =
      let later = first_raw_time raw keys in
      elim (lookup raw k) [ none ↦ later | some v ↦ elim (time_of v) [ none ↦ later | some t ↦ t ] ]

  unfoldable pub subject_time : Fields → String → ℕ
  subject_time raw key = elim (as_map raw "credentialSubject") [
    | none ↦ 0
    | some cs ↦ first_raw_time cs (key ∷ [])
  ]

  unfoldable pub temporal_bounds : NormalizedCredential → ℕ × ℕ
  temporal_bounds c =
      let not_before =
        first_raw_time c.raw ("validFrom" ∷ "issuanceDate" ∷ "nbf" ∷ "valid_from" ∷ []) in
      let not_after =
        first_raw_time c.raw ("validUntil" ∷ "expirationDate" ∷ "exp" ∷ "valid_until" ∷ []) in
      (
        unless_zero not_before (subject_time c.raw "valid_from"),
        unless_zero not_after (subject_time c.raw "valid_until"),
      )
