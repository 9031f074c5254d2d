-- ===== src/StatusList/Publication.antt =====
-- How internal/statuslist publishes a list: the encodings of bitstring.go and token.go, and the claims that
-- store.go signs, their lists as JSON arrays. The packages gzip and zlib are an argument, a time is given as its Unix seconds and
-- its text.
pub mod RoundTrip
use text.Mathlib.Text.{◌==◌}
use Prim.Native.String.{◌++◌ as append_text}
use verifiably.Prelude.{
  ℕ, Bool, true, false, not, List, [], ◌∷◌, Option, none, some, String, if◌then◌else◌, ℤ, pos,
}
use verifiably.Prelude.Outcome.{Outcome}
use verifiably.StatusList.Result.{Result, ok, err, decode_failed}
use verifiably.StatusList.Bitstring.{Bitstring, from_bytes}
use verifiably.StatusList.Store.{Store}
use verifiably.StatusList.Signing.{SigningKey, SignError, sign_jwt}
use verifiably.Delegation.Json.{Fields, empty, field, str, number, object, array, item, nothing}
use verifiably.Jose.{Codecs}

pub record Compression : Type 0 where
  pub gzip : List ℕ → List ℕ
  pub gunzip : List ℕ → Option (List ℕ)
  pub zlib : List ℕ → List ℕ
  pub unzlib : List ℕ → Option (List ℕ)

pub data PublishError : Type 0 where
  wrong_kind : PublishError
  not_signed : SignError → PublishError

abbrev pub or_unsigned : Outcome SignError String → Outcome PublishError String
or_unsigned (Outcome.ok s) = Outcome.ok s
or_unsigned (Outcome.err e) = Outcome.err (not_signed e)

-- buildBitstringVC
unfoldable pub build_bitstring_vc : Store → String → String → String → Fields
build_bitstring_vc s issuer encoded now_text =
    field "@context"
      (array (
        item (str "https://www.w3.org/ns/credentials/v2")
          (item (str "https://w3id.org/security/suites/ed25519-2020/v1") nothing)))
      (field "id" (str s.publish_url) (
        field "type"
          (array (
            item (str "VerifiableCredential") (item (str "BitstringStatusListCredential") nothing)))
          (field "issuer" (str issuer) (
            field "validFrom" (str now_text) (
              field "credentialSubject"
                (object (
                  field "id" (str (append_text s.publish_url "#list")) (
                    field "type" (str "BitstringStatusList") (
                      field "statusPurpose" (str "revocation")
                        (field "encodedList" (str encoded) empty)))))
                empty)))))

module _ (c : Codecs) (z : Compression) where
  unfoldable pub encode_gzip_base64url : Bitstring → String
  encode_gzip_base64url b = c.raw_url (z.gzip b.bits)

  unfoldable pub encode_zlib_base64url : Bitstring → String
  encode_zlib_base64url b = c.raw_url (z.zlib b.bits)

  unfoldable pub decode_gzip_base64url : String → ℤ → Result Bitstring
  decode_gzip_base64url s size = elim (c.from_raw_url s) [
    | none ↦ err decode_failed
    | some raw ↦ elim (z.gunzip raw) [
      | none ↦ err decode_failed
      | some bytes ↦ from_bytes bytes size false
    ]
  ]

  unfoldable pub decode_zlib_base64url : String → ℤ → Result Bitstring
  decode_zlib_base64url s size = elim (c.from_raw_url s) [
    | none ↦ err decode_failed
    | some raw ↦ elim (z.unzlib raw) [
      | none ↦ err decode_failed
      | some bytes ↦ from_bytes bytes size true
    ]
  ]

  -- The claims of PublishBitstringJWT, with the multibase prefix of the list.
  unfoldable pub bitstring_claims : Store → String → ℕ → String → Fields
  bitstring_claims s issuer now now_text = field "iss" (str issuer) (
      field "sub" (str s.publish_url) (
        field "iat" (number (pos now)) (
          field "vc"
            (object (
              build_bitstring_vc s issuer (append_text "u" (encode_gzip_base64url s.bits))
                now_text))
            empty)))

  unfoldable pub publish_bitstring_jwt :
      Store → SigningKey → ℕ → String → Outcome PublishError String
  publish_bitstring_jwt s key now now_text =
      if not (s.kind == "bitstring")
      then Outcome.err wrong_kind
      else or_unsigned (sign_jwt c key "vc+jwt" (bitstring_claims s key.iss now now_text))

  -- BitstringStatusListVC
  unfoldable pub bitstring_status_list_vc : Store → String → String → Outcome PublishError Fields
  bitstring_status_list_vc s issuer now_text =
      if not (s.kind == "bitstring")
      then Outcome.err wrong_kind
      else Outcome.ok
          (build_bitstring_vc s issuer (append_text "u" (encode_gzip_base64url s.bits)) now_text)

  -- The claims of PublishTokenStatusList.
  unfoldable pub token_claims : Store → String → ℕ → Fields
  token_claims s issuer now = field "iss" (str issuer) (
      field "sub" (str s.publish_url) (
        field "iat" (number (pos now)) (
          field "status_list"
            (object (
              field "bits" (number (pos 1))
                (field "lst" (str (encode_zlib_base64url s.bits)) empty)))
            empty)))

  unfoldable pub publish_token_status_list : Store → SigningKey → ℕ → Outcome PublishError String
  publish_token_status_list s key now =
      if not (s.kind == "token")
      then Outcome.err wrong_kind
      else or_unsigned (sign_jwt c key "statuslist+jwt" (token_claims s key.iss now))
