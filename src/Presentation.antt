-- ===== src/Presentation.antt =====
-- internal/vp/vp.go: a presented credential, as a JSON-LD object or as a compact SD-JWT, in the form that
-- the policies read. base64 and JSON are the argument `Codecs`, with the arrays that disclosures hold and
-- the texts of other claims than strings as arguments of their own. A JSON null read as an object is none.
pub mod Merged
mod Examples
use text.Mathlib.Text.{◌==◌}
use verifiably.Prelude.{
  ℕ, Bool, true, false, ◌||◌, List, [], ◌∷◌, Option, none, some, String, if◌then◌else◌, ℤ, any,
}
use verifiably.Prelude.Dict.{Dict, put}
use verifiably.Prelude.Texts.{split, trim_space, contains}
use verifiably.Delegation.Json.{
  Value, null, boolean, number, str, Values, nothing, item, Fields, empty, field, lookup, as_map,
  id_of, map_str, str_slice_of, set_field,
}
use verifiably.Delegation.Temporal.{NormalizedCredential}
use verifiably.Jose.{Codecs}

pub record Printer : Type 0 where
  -- fmt.Sprintf("%v", t) of a number, and json.Marshal of a structured value
  pub number_text : ℤ → String
  pub json_text : Value → String

-- The claims that a JWT keeps for itself.
abbrev pub reserved : List String
reserved = "_sd" ∷ "_sd_alg" ∷ "cnf" ∷ "iss" ∷ "iat" ∷ "exp" ∷ "nbf" ∷ "sub" ∷ "vct" ∷ "status" ∷ []

unfoldable pub is_reserved : String → Bool
is_reserved k = any (λ r. r == k) reserved

-- IssuerID(m[key])
unfoldable pub issuer_id : Fields → String → String
issuer_id m key = elim (lookup m key) [ none ↦ "" | some v ↦ id_of v ]

-- AsStringSlice(m[key])
unfoldable pub as_string_slice : Fields → String → List String
as_string_slice m key = elim (lookup m key) [
  | none ↦ []
  | some v ↦ elim (str_slice_of v) [ none ↦ [] | some l ↦ l ]
]

unfoldable pub vcdm_format : Fields → String
unfolding as_string_slice
vcdm_format vc =
    if any (λ c. contains c "/ns/credentials/v2") (as_string_slice vc "@context")
    then "w3c_vcdm_2"
    else "jwt_vc_json"

unfoldable pub decode_jwt_payload : Codecs → String → Option Fields
decode_jwt_payload c jwt = elim (split b'.' jwt) [
  | header ∷ payload ∷ rest ↦ elim (c.from_raw_url payload) [
    | some raw ↦ c.unmarshal raw
    | none ↦ elim (c.from_padded_url payload) [ none ↦ none | some raw ↦ c.unmarshal raw ]
  ]
  | _ ↦ none
]

abbrev pub or_else : String → String → String
or_else s t = if s == "" then t else s

-- The credential under `vc`, or the object itself.
abbrev pub inner_of : Fields → Fields
inner_of vc = elim (as_map vc "vc") [ none ↦ vc | some inner ↦ inner ]

module _ (c : Codecs) (unmarshal_array : List ℕ → Option Values) where
  -- The name and the value that a disclosure of three elements gives.
  unfoldable pub disclosure_of : String → Option (String × Value)
  disclosure_of seg =
      if trim_space seg == "" then none else elim (c.from_raw_url (trim_space seg)) [
        | none ↦ none
        | some raw ↦ elim (unmarshal_array raw) [
          | some (item salt (item (str name) (item v nothing))) ↦ some (name, v)
          | _ ↦ none
        ]
      ]

module _ (p : Printer) where
  unfoldable pub stringify : Value → String
  stringify (str s) = s
  stringify null = ""
  stringify (number n) = p.number_text n
  stringify (boolean b) = if b then "true" else "false"
  stringify v = p.json_text v

  -- The claims of a subject, without its id.
  unfoldable pub claims_of : Fields → Dict String
  unfolding stringify
  claims_of empty = []
  claims_of (field k v rest) =
      let others = claims_of rest in if k == "id" then others else put others k (stringify v)

  unfoldable pub from_vc_object : Fields → NormalizedCredential
  unfolding claims_of issuer_id as_string_slice vcdm_format
  from_vc_object vc =
      let inner = inner_of vc in
      record {
        types = as_string_slice inner "type";
        subject_id =
            or_else
              (elim (as_map inner "credentialSubject") [ none ↦ "" | some cs ↦ map_str cs "id" ])
              (map_str vc "sub");
        issuer = or_else (issuer_id inner "issuer") (map_str vc "iss");
        format = vcdm_format inner;
        claims = elim (as_map inner "credentialSubject") [ none ↦ [] | some cs ↦ claims_of cs ];
        raw = inner;
        host_status = "";
      }

  -- The claims of an SD-JWT's payload that are not reserved.
  unfoldable pub payload_claims : Fields → Dict String
  unfolding stringify is_reserved
  payload_claims empty = []
  payload_claims (field k v rest) =
      let others = payload_claims rest in
      if is_reserved k then others else put others k (stringify v)

  module _ (c : Codecs) (unmarshal_array : List ℕ → Option Values) where
    -- The loop over the disclosures, on the claims and the raw object so far.
    unfoldable pub disclose : List String → Dict String → Fields → Dict String × Fields
    unfolding disclosure_of stringify
    disclose [] claims raw = (claims, raw)
    disclose (seg ∷ segs) claims raw = elim (disclosure_of c unmarshal_array seg) [
      | none ↦ disclose segs claims raw
      | some (name, v) ↦ disclose segs (put claims name (stringify v)) (set_field raw name v)
    ]

    unfoldable pub from_compact_sd_jwt : String → Option NormalizedCredential
    unfolding disclose payload_claims decode_jwt_payload
    from_compact_sd_jwt tok = elim (split b'~' tok) [
      | [] ↦ none
      | jwt ∷ segs ↦ elim (decode_jwt_payload c jwt) [
        | none ↦ none
        | some payload ↦
            let (claims, raw) = disclose segs (payload_claims payload) payload in
            some (record {
              types = map_str payload "vct" ∷ [];
              subject_id = map_str payload "sub";
              issuer = map_str payload "iss";
              format = "vc+sd-jwt";
              claims = claims;
              raw = raw;
              host_status = "";
            })
      ]
    ]
