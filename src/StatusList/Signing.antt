-- ===== src/StatusList/Signing.antt =====
-- internal/statuslist/selfsigned.go and jws.go: the key that an issuer signs its status lists with,
-- kept in a file, and the signature of a list. The random numbers of a new key and of a signature are
-- in the arguments. The file of a key is a text or absent; a write to it may fail, which the code
-- ignores.
pub mod RoundTrip
pub mod Sample
mod Examples
use text.Mathlib.Text.{◌==◌}
use Prim.Native.String.{◌++◌ as append_text}
use verifiably.Prelude.{
  ℕ, Bool, true, false, not, ◌&&◌, ◌||◌, List, [], ◌∷◌, ◌++◌, Option, none, some, String,
  if◌then◌else◌, length, ◌==◌ as nat_eq,
}
use verifiably.Prelude.Outcome.{Outcome, ok, err}
use verifiably.Prelude.Texts.{split}
use verifiably.Delegation.Json.{Fields, empty, field, str, map_str}
use verifiably.Jose.{Codecs, set_bytes, fill_bytes, take, drop, decode_base64url_big_int}

-- The point and the scalar of a P-256 key, and what the header and the payload name.
pub record SigningKey : Type 0 where
  pub x : ℕ
  pub y : ℕ
  pub d : ℕ
  pub kid : String
  pub iss : String

pub data SignError : Type 0 where
  empty_id sign_failed : SignError
  segments header_text header_json algorithm signature_text signature_length : SignError
  signature_mismatch payload_text : SignError

abbrev pub joined : String → String → String
joined s t = append_text s (append_text "." t)

-- The header's keys are marshalled in alphabetical order.
unfoldable pub header_of : SigningKey → String → Fields
header_of k typ =
    if k.kid == ""
    then field "alg" (str "ES256") (field "typ" (str typ) empty)
    else field "alg" (str "ES256") (field "kid" (str k.kid) (field "typ" (str typ) empty))

module _ (c : Codecs) where
  unfoldable pub b64_coord : ℕ → String
  b64_coord n = c.raw_url (fill_bytes 32 n)

  -- The marshalled publicJWK.
  unfoldable pub public_jwk : ℕ → ℕ → Fields
  public_jwk x y =
      field "crv" (str "P-256") (
        field "kty" (str "EC")
          (field "x" (str (b64_coord x)) (field "y" (str (b64_coord y)) empty)))

  -- didJWKFromP256
  unfoldable pub did_jwk_from_p256 : ℕ → ℕ → String
  did_jwk_from_p256 x y = append_text "did:jwk:" (c.raw_url (c.marshal (public_jwk x y)))

  -- The marshalled persistedP256.
  unfoldable pub persisted : ℕ → ℕ → ℕ → Fields
  persisted x y d = field "kty" (str "EC") (
      field "crv" (str "P-256") (
        field "x" (str (b64_coord x))
          (field "y" (str (b64_coord y)) (field "d" (str (b64_coord d)) empty))))

  unfoldable pub parse_p256_jwk : List ℕ → Option (ℕ × ℕ × ℕ)
  parse_p256_jwk raw = elim (c.unmarshal raw) [
    | none ↦ none
    | some m ↦
        if not (map_str m "kty" == "EC") || not (map_str m "crv" == "P-256") || map_str m "d" == ""
        then none
        else elim (decode_base64url_big_int c (map_str m "x")) [
          | none ↦ none
          | some x ↦ elim (decode_base64url_big_int c (map_str m "y")) [
            | none ↦ none
            | some y ↦ elim (decode_base64url_big_int c (map_str m "d")) [
              | none ↦ none
              | some d ↦ some (x, y, d)
            ]
          ]
        ]
  ]

  -- The key of the file, or the new one, which is written where the write succeeds.
  unfoldable pub load_or_create_p256 :
      Option (List ℕ) → ℕ × ℕ × ℕ → Bool → (ℕ × ℕ × ℕ) × Option (List ℕ)
  load_or_create_p256 file (x, y, d) writable =
      let created = if writable then some (c.marshal (persisted x y d)) else file in
      elim file [
        | none ↦ ((x, y, d), created)
        | some raw ↦ elim (parse_p256_jwk raw) [
          | none ↦ ((x, y, d), created)
          | some key ↦ (key, some raw)
        ]
      ]

  unfoldable pub new_self_signed_key :
      String → Option (List ℕ) → ℕ × ℕ × ℕ → Bool → Outcome SignError SigningKey × Option (List ℕ)
  new_self_signed_key id file fresh writable =
      let ((x, y, d), file') = load_or_create_p256 file fresh writable in
      if id == ""
      then (err empty_id, file)
      else (ok (record { x = x; y = y; d = d; kid = ""; iss = did_jwk_from_p256 x y }), file')

  unfoldable pub sign_es256 : SigningKey → List ℕ → List ℕ → Outcome SignError String
  sign_es256 k header payload =
      let signing_input = joined (c.raw_url header) (c.raw_url payload) in
      elim (c.ecdsa_sign k.d (c.sha256 (c.bytes_of signing_input))) [
        | none ↦ err sign_failed
        | some (r, s) ↦ ok (joined signing_input (c.raw_url (fill_bytes 32 r ++ fill_bytes 32 s)))
      ]

  unfoldable pub sign_jwt : SigningKey → String → Fields → Outcome SignError String
  sign_jwt k typ claims = sign_es256 k (c.marshal (header_of k typ)) (c.marshal claims)

  -- VerifyES256 of the key itself; the payload is what it returns.
  unfoldable pub verify_parts : SigningKey → String → String → String → Outcome SignError (List ℕ)
  verify_parts k header payload signature = elim (c.from_raw_url header) [
    | none ↦ err header_text
    | some h ↦ elim (c.unmarshal h) [
      | none ↦ err header_json
      | some m ↦
          if not (map_str m "alg" == "ES256")
          then err algorithm
          else elim (c.from_raw_url signature) [
            | none ↦ err signature_text
            | some sig ↦
                if not (nat_eq (length sig) 64)
                then err signature_length
                else if c.ecdsa_verify k.x k.y (c.sha256 (c.bytes_of (joined header payload)))
                    (set_bytes 0 (take 32 sig)) (set_bytes 0 (drop 32 sig))
                then elim (c.from_raw_url payload) [ none ↦ err payload_text | some p ↦ ok p ]
                else err signature_mismatch
          ]
    ]
  ]

  unfoldable pub verify_es256 : SigningKey → String → Outcome SignError (List ℕ)
  unfolding verify_parts
  verify_es256 k token = elim (split b'.' token) [
    | header ∷ payload ∷ signature ∷ [] ↦ verify_parts k header payload signature
    | _ ↦ err segments
  ]
