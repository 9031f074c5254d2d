-- ===== src/StatusListCache/SelfSigned/Examples.antt =====
-- The theorems on signed status lists at the key of the point (5, 7): a list that it signs, and a list with
-- another signature.
use Prim.Native.String.{◌++◌ as append_text}
use verifiably.Prelude.{
  ℕ, ◌≡◌, refl, ap, ◌++◌, true, false, not, ◌&&◌, List, [], ◌∷◌, Option, none, some, String,
  if◌then◌else◌, arith, length, replicate, ◌==◌,
}
use verifiably.Prelude.Outcome.{ok}
use verifiably.Delegation.Json.{Fields, empty, field, str}
use verifiably.Jose.{Codecs, fill_bytes, set_bytes, take, drop}
use verifiably.StatusList.Signing.{
  SigningKey, public_jwk, b64_coord, did_jwk_from_p256, sign_jwt, sign_es256, header_of, joined,
  verify_es256,
}
use verifiably.StatusList.Signing.RoundTrip.{token, no_dot}
use verifiably.StatusList.Signing.Sample.{written, sample, sample-Lawful}
use verifiably.StatusListCache.Verify.{verify_jwt, did_jwk_mismatch}
use verifiably.StatusListCache.SelfSigned.{Signs, verify_jwt-did_jwk, sign_jwt-verify_jwt}

-- The object of four fields is the key, the one of two a header.
abbrev known : ℕ → Option Fields
known n = elim (n == 4) [
  | true ↦ some (
      field "crv" (str "P-256") (
        field "kty" (str "EC") (
          field "x" (str (written (fill_bytes 32 5)))
            (field "y" (str (written (fill_bytes 32 7))) empty))))
  | false ↦ some (field "alg" (str "ES256") (field "typ" (str "vc+jwt") empty))
]

abbrev issuer : String
issuer = append_text "did:jwk:" (written (4 ∷ []))

abbrev codecs : Codecs
codecs = sample known issuer

key_read : codecs.unmarshal (codecs.marshal (public_jwk codecs 5 7)) ≡ some (public_jwk codecs 5 7)
unfolding public_jwk b64_coord
key_read = refl

key_named : issuer ≡ did_jwk_from_p256 codecs 5 7
unfolding did_jwk_from_p256 public_jwk
key_named = refl

abbrev forged : List ℕ
forged = replicate 64 3

abbrev header : String
header = written (1 ∷ [])

abbrev payload : String
payload = written (2 ∷ [])

verify_jwt-did_jwk_example :
    verify_jwt codecs none (token header payload (written forged)) "did:web:issuer" ≡ (
      if length forged == 64
        && not (
            codecs.ecdsa_verify 5 7
              (codecs.sha256 (codecs.bytes_of (joined header payload)))
              (set_bytes 0 (take 32 forged))
              (set_bytes 0 (drop 32 forged)))
      then some did_jwk_mismatch
      else none)
verify_jwt-did_jwk_example =
    verify_jwt-did_jwk codecs (sample-Lawful known issuer) 5 7 (omega arith) (omega arith) key_read
      none "did:web:issuer" header payload (written forged) (2 ∷ []) forged
      (no_dot codecs (sample-Lawful known issuer) (1 ∷ []))
      (no_dot codecs (sample-Lawful known issuer) (2 ∷ []))
      (no_dot codecs (sample-Lawful known issuer) forged) refl (ap some key_named)
      ((sample-Lawful known issuer).round_trip forged)

key-Signs : Signs codecs (sample-Lawful known issuer) 5 7 (omega arith) (omega arith) key_read 3
key-Signs = record {
  halves = λ hash r s made. ground (arith, made);
  sound = λ hash r s made. ground (arith, made);
}

abbrev key : SigningKey
key = record { x = 5; y = 7; d = 3; kid = ""; iss = did_jwk_from_p256 codecs 5 7 }

abbrev claims : Fields
claims = field "iss" (str issuer) empty

abbrev signed : String
signed =
    joined (joined (written (2 ∷ [])) (written (1 ∷ [])))
      (written (fill_bytes 32 1 ++ fill_bytes 32 2))

header_read :
    codecs.unmarshal (codecs.marshal (header_of key "vc+jwt")) ≡ some (header_of key "vc+jwt")
unfolding header_of
header_read = refl

is_signed : sign_jwt codecs key "vc+jwt" claims ≡ ok signed
unfolding sign_jwt sign_es256 header_of
is_signed = refl

sign_jwt-verify_jwt_example :
    (verify_es256 codecs key signed ≡ ok (codecs.marshal claims))
    × (verify_jwt codecs none signed "did:web:issuer" ≡ none)
sign_jwt-verify_jwt_example =
    sign_jwt-verify_jwt codecs (sample-Lawful known issuer) 5 7 (omega arith) (omega arith) key_read
      3 "vc+jwt" signed "did:web:issuer" claims none key-Signs header_read (ap some key_named)
      is_signed
