-- ===== src/Gates/StatusBit.antt =====
-- internal/handlers/delegation.go: the revocation bit of a credential in a published list
-- (delegationStatusChecker, statusBitRevoked, statusListClaims, jwtPayloadClaims). What the cache of
-- status lists answers during one verification is an argument.
pub mod Published
mod Examples
use text.Mathlib.Text.{◌==◌}
use verifiably.Prelude.{
  ℕ, Bool, true, false, List, [], ◌∷◌, Option, none, some, String, if◌then◌else◌, ℤ, pos,
}
use verifiably.Prelude.Outcome.{Outcome}
use verifiably.Prelude.Texts.{split, trim_space, has_prefix, trim_prefix}
use verifiably.StatusList.Result.{Result, Error as ListError, ok, err}
use verifiably.StatusList.Bitstring.{Bitstring, default_bits, get}
use verifiably.StatusList.Publication.{Compression, decode_gzip_base64url, decode_zlib_base64url}
use verifiably.Delegation.Json.{Fields, Decoders, as_map, map_str}
use verifiably.Delegation.Extract.{StatusRef}
use verifiably.Jose.{Codecs}

pub data StatusError : Type 0 where
  no_cache no_url fetch_failed list_empty : StatusError
  bad_json malformed_jwt bad_payload bad_payload_json : StatusError
  no_list : StatusError
  bad_list : ListError → StatusError

-- What an error of the bit array is here.
abbrev pub listed : Result Bool → Outcome StatusError Bool
listed (err e) = err (bad_list e)
listed (ok v) = ok v

-- s, _ := m[key].(map[string]any), with the text of one of its members, "" for none
abbrev pub member : Option Fields → String → String
member none key = ""
member (some m) key = map_str m key

-- The credential under `vc`, or the whole document.
abbrev pub inner_vc : Fields → Fields
inner_vc payload = elim (as_map payload "vc") [ none ↦ payload | some vc ↦ vc ]

module _ (c : Codecs) where
  unfoldable pub jwt_payload_claims : String → Outcome StatusError Fields
  jwt_payload_claims jwt = elim (split b'.' jwt) [
    | header ∷ payload ∷ rest ↦ elim (c.from_raw_url payload) [
      | none ↦ err bad_payload
      | some raw ↦ elim (c.unmarshal raw) [ none ↦ err bad_payload_json | some m ↦ ok m ]
    ]
    | _ ↦ err malformed_jwt
  ]

  module _ (z : Compression) where
    unfoldable pub token_bit : Fields → ℤ → Outcome StatusError Bool
    token_bit payload index =
        let lst = member (as_map payload "status_list") "lst" in
        if lst == "" then err no_list else elim (decode_zlib_base64url c z lst (pos default_bits)) [
          | err e ↦ err (bad_list e)
          | ok bs ↦ listed (get bs index)
        ]

    unfoldable pub bitstring_bit : Fields → ℤ → Outcome StatusError Bool
    bitstring_bit payload index =
        let enc = member (as_map (inner_vc payload) "credentialSubject") "encodedList" in
        if enc == ""
        then err no_list
        else elim (decode_gzip_base64url c z (trim_prefix enc "u") (pos default_bits)) [
          | err e ↦ err (bad_list e)
          | ok bs ↦ listed (get bs index)
        ]

module _ (d : Decoders) (c : Codecs) where
  unfoldable pub status_list_claims : String → Outcome StatusError Fields
  unfolding jwt_payload_claims
  status_list_claims raw =
      if has_prefix (trim_space raw) "{"
      then elim (d.unmarshal (trim_space raw)) [ none ↦ err bad_json | some m ↦ ok m ]
      else jwt_payload_claims c (trim_space raw)

  module _ (z : Compression) where
    unfoldable pub status_bit_revoked : String → StatusRef → Outcome StatusError Bool
    unfolding token_bit bitstring_bit
    status_bit_revoked raw_jwt ref = elim (status_list_claims raw_jwt) [
      | err e ↦ err e
      | ok payload ↦
          if d.equal_fold ref.type "TokenStatusList"
          then token_bit c z payload ref.index
          else bitstring_bit c z payload ref.index
    ]

    -- The cache's answer for an issuer and an address is a list, or none where it fails.
    unfoldable pub status_checker :
        Option (String → String → Option String) → StatusRef → Outcome StatusError Bool
    unfolding status_bit_revoked
    status_checker none ref = err no_cache
    status_checker (some fetch) ref =
        if ref.uri == "" then err no_url else elim (fetch ref.issuer ref.uri) [
          | none ↦ err fetch_failed
          | some raw_jwt ↦ if raw_jwt == "" then err list_empty else status_bit_revoked raw_jwt ref
        ]
