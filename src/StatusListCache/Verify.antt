-- ===== src/StatusListCache/Verify.antt =====
-- The signature check of internal/statuslistcache/fetcher.go: verifyJWT, verifyES256JWT and
-- decodeDIDJWK. The resolver of DIDs is an argument; a verification method is its key, if it has one.
-- The text of an error is modelled by its cause; both errors of verifyJWT name a signature.
use text.Mathlib.Text.{◌==◌}
use Prim.Native.String.{◌++◌ as append_text}
use verifiably.Prelude.{
  Bool, true, false, not, ◌||◌, List, [], ◌∷◌, Option, none, some, String, if◌then◌else◌,
}
use verifiably.Prelude.Outcome.{Outcome, ok, err}
use verifiably.Prelude.Texts.{split, has_prefix, trim_prefix, before}
use verifiably.Delegation.Json.{Fields, map_str}
use verifiably.Jose.{
  Codecs, KeyError, unsupported_key, bad_coordinate, bad_signature_text, signature_invalid,
  decode_base64url_big_int, verify_es256,
}

pub data VerifyError : Type 0 where
  did_jwk_mismatch no_key_matches : VerifyError

-- strings.Contains(verifyErr.Error(), "signature")
unfoldable pub mentions_signature : VerifyError → Bool
mentions_signature did_jwk_mismatch = true
mentions_signature no_key_matches = true

-- The keys of a DID document's verification methods, `none` for a document that is not found.
abbrev pub Resolver : Type 0
Resolver = String → Option (List (Option Fields))

module _ (c : Codecs) where
  unfoldable pub verify_es256_jwt : String → String → String → Fields → Outcome KeyError (Unit {0})
  verify_es256_jwt header payload signature jwk =
      if not (map_str jwk "kty" == "EC") || not (map_str jwk "crv" == "P-256")
      then err unsupported_key
      else elim (decode_base64url_big_int c (map_str jwk "x")) [
        | none ↦ err bad_coordinate
        | some x ↦ elim (decode_base64url_big_int c (map_str jwk "y")) [
          | none ↦ err bad_coordinate
          | some y ↦ elim (c.from_raw_url signature) [
            | none ↦ err bad_signature_text
            | some sig ↦
                verify_es256 c x y (c.bytes_of (append_text header (append_text "." payload))) sig
          ]
        ]
      ]

  unfoldable pub decode_did_jwk : String → Option Fields
  decode_did_jwk did =
      let enc = before b'#' (trim_prefix did "did:jwk:") in
      elim (c.from_raw_url enc) [
        | some raw ↦ c.unmarshal raw
        | none ↦ elim (c.from_padded_url enc) [ none ↦ none | some raw ↦ c.unmarshal raw ]
      ]

  -- The issuer that the payload names, where it names a DID.
  unfoldable pub issuer_of : String → String → String
  issuer_of payload issuer_did = elim (c.from_raw_url payload) [
    | none ↦ issuer_did
    | some json ↦ elim (c.iss_claim json) [
      | none ↦ issuer_did
      | some iss ↦ if has_prefix iss "did:" then iss else issuer_did
    ]
  ]

  -- The loop over the verification methods.
  unfoldable pub any_key_verifies : String → String → String → List (Option Fields) → Bool
  any_key_verifies header payload signature [] = false
  any_key_verifies header payload signature (none ∷ vms) =
      any_key_verifies header payload signature vms
  any_key_verifies header payload signature (some jwk ∷ vms) =
      let later = any_key_verifies header payload signature vms in
      elim (verify_es256_jwt header payload signature jwk) [ ok done ↦ true | err e ↦ later ]

  -- The check by the key that a did:jwk carries.
  unfoldable pub verify_by_did_jwk : String → String → String → String → Option VerifyError
  verify_by_did_jwk header payload signature did = elim (decode_did_jwk did) [
    | none ↦ none
    | some jwk ↦ elim (verify_es256_jwt header payload signature jwk) [
      | ok done ↦ none
      | err signature_invalid ↦ some did_jwk_mismatch
      | err _ ↦ none
    ]
  ]

  unfoldable pub verify_by_document :
      Option Resolver → String → String → String → String → Option VerifyError
  unfolding any_key_verifies
  verify_by_document none header payload signature did = none
  verify_by_document (some resolve) header payload signature did = elim (resolve did) [
    | none ↦ none
    | some [] ↦ none
    | some (vm ∷ vms) ↦
        if any_key_verifies header payload signature (vm ∷ vms) then none else some no_key_matches
  ]

  -- The check of a token of three parts.
  unfoldable pub verify_parts :
      Option Resolver → String → String → String → String → Option VerifyError
  verify_parts resolver header payload signature issuer_did =
      let did = issuer_of payload issuer_did in
      if not (has_prefix did "did:")
      then none
      else if has_prefix did "did:jwk:"
      then verify_by_did_jwk header payload signature did
      else verify_by_document resolver header payload signature did

  unfoldable pub verify_jwt : Option Resolver → String → String → Option VerifyError
  unfolding verify_parts
  verify_jwt resolver raw_jwt issuer_did =
      if raw_jwt == "" then none else elim (split b'.' raw_jwt) [
        | header ∷ payload ∷ signature ∷ [] ↦
            verify_parts resolver header payload signature issuer_did
        | _ ↦ none
      ]
