-- ===== src/Delegation/Extract.antt =====
-- internal/delegation/extract.go: what the evaluator reads from a credential.
pub mod First
pub mod Choice
use Prim.Native.Char.{code}
use text.Mathlib.Text.{◌==◌}
use verifiably.Prelude.{
  ℕ, zero, suc, Bool, true, false, not, ◌&&◌, ◌||◌, List, [], ◌∷◌, ◌++◌, Option, none, some, String,
  if◌then◌else◌, ◌==◌ as nat_eq, ℤ, pos, any, keep_if, map,
}
use verifiably.Prelude.Dict.{Dict, find}
use verifiably.Prelude.Texts.{trim_space, contains}
use verifiably.Delegation.Json.{
  Value, Values, nothing, item, Fields, Decoders, lookup, has, as_map, map_of, as_slice, map_str,
  map_str_slice, map_bool, first_non_empty, ref_id, caveat_valid_until, type_contains, map_int,
  as_map_or_json, or_empty,
}
use verifiably.Delegation.Temporal.{NormalizedCredential, HolderBinding}
use verifiably.Delegation.Subject.{
  same_ref, claim, subject_anchor, has_suffix, squeezed, add, add_all, is_identifier_field_name,
  identifier_values, candidates, subject_identifiers, subject_identifies,
}

pub record StatusRef : Type 0 where
  pub type : String
  pub uri : String
  pub index : ℤ
  pub purpose : String
  pub issuer : String

pub record Capability : Type 0 where
  pub controller : String
  pub on_behalf_of : String
  pub delegate : String
  pub allowed_action : List String
  pub valid_until : String
  pub allow_further_delegation : Bool
  pub has_chain : Bool

unfoldable pub flat_claim : NormalizedCredential → List String → String
flat_claim c [] = ""
flat_claim c (k ∷ keys) =
    let rest = flat_claim c keys in
    if not (map_str c.raw k == "")
    then map_str c.raw k
    else if not (claim c k == "")
    then claim c k
    else rest

-- The pieces between commas and spaces, empty ones included.
unfoldable pub pieces : String → List String
pieces String.[] = String.[] ∷ []
pieces (String.◌∷◌ ch s) =
    let rest = pieces s in
    if nat_eq (code ch) b',' || nat_eq (code ch) b' '
    then String.[] ∷ rest
    else elim rest [ [] ↦ String.◌∷◌ ch String.[] ∷ [] | p ∷ ps ↦ String.◌∷◌ ch p ∷ ps ]

unfoldable pub split_actions : String → List String
unfolding pieces trim_space
split_actions s = keep_if (λ p. not (p == "")) (map trim_space (pieces s))

-- The capability of a `delegation` claim.
unfoldable pub claim_capability : NormalizedCredential → Fields → Capability
claim_capability c m = record {
  controller = first_non_empty (map_str m "controller" ∷ c.issuer ∷ []);
  on_behalf_of = first_non_empty (
      map_str m "on_behalf_of"
      ∷ map_str m "onBehalfOf"
      ∷ ref_id c.raw "credentialSubject" "onBehalfOf"
      ∷ []);
  delegate = first_non_empty (map_str m "delegate" ∷ c.subject_id ∷ []);
  allowed_action = map_str_slice m ("allowed_action" ∷ "allowedAction" ∷ []);
  valid_until = first_non_empty (map_str m "valid_until" ∷ map_str m "validUntil" ∷ []);
  allow_further_delegation =
      map_bool m "allow_further_delegation" || map_bool m "allowFurtherDelegation";
  has_chain = has m "parent_capability";
}

-- The capability of a termsOfUse entry.
unfoldable pub terms_capability : NormalizedCredential → Fields → Capability
terms_capability c m = record {
  controller = first_non_empty (map_str m "controller" ∷ c.issuer ∷ []);
  on_behalf_of = first_non_empty (
      map_str m "invocationTarget"
      ∷ map_str m "onBehalfOf"
      ∷ ref_id c.raw "credentialSubject" "onBehalfOf"
      ∷ []);
  delegate = first_non_empty (map_str m "delegate" ∷ c.subject_id ∷ []);
  allowed_action = map_str_slice m ("allowedAction" ∷ "allowed_action" ∷ []);
  valid_until = first_non_empty (map_str m "validUntil" ∷ caveat_valid_until m "caveat" ∷ []);
  allow_further_delegation = map_bool m "allowFurtherDelegation";
  has_chain = has m "parentCapability";
}

unfoldable pub flat_capability : NormalizedCredential → Option Capability
flat_capability c =
    let actions = flat_claim c ("allowedAction" ∷ "allowed_action" ∷ []) in
    if actions == ""
    then none
    else some (record {
      controller = c.issuer;
      on_behalf_of = first_non_empty (
          flat_claim c ("onBehalfOf" ∷ "on_behalf_of" ∷ [])
          ∷ ref_id c.raw "credentialSubject" "onBehalfOf"
          ∷ []);
      delegate = c.subject_id;
      allowed_action = split_actions actions;
      valid_until = flat_claim c ("validUntil" ∷ "valid_until" ∷ []);
      allow_further_delegation = false;
      has_chain = false;
    })

module _ (d : Decoders) where
  -- The first termsOfUse entry of type DelegationCapability.
  unfoldable pub first_terms : Values → Option Fields
  first_terms nothing = none
  first_terms (item v rest) =
      let later = first_terms rest in
      elim (map_of v) [
        | none ↦ later
        | some m ↦ if type_contains d m "type" "DelegationCapability" then some m else later
      ]

  unfoldable pub extract_capability : NormalizedCredential → Option Capability
  unfolding first_terms
  extract_capability c = elim (as_map_or_json d c.raw "delegation") [
    | some m ↦ some (claim_capability c m)
    | none ↦ elim (first_terms (as_slice c.raw "termsOfUse")) [
      | some m ↦ some (terms_capability c m)
      | none ↦ flat_capability c
    ]
  ]

  unfoldable pub status_ref : NormalizedCredential → Option StatusRef
  status_ref c =
      if not (flat_claim c ("statusUri" ∷ []) == "")
      then some (record {
        type =
            if contains (d.to_lower (flat_claim c ("statusType" ∷ []))) "bitstring"
            then "BitstringStatusListEntry"
            else "TokenStatusList";
        uri = flat_claim c ("statusUri" ∷ []);
        index = d.parse_int (trim_space (flat_claim c ("statusIdx" ∷ [])));
        purpose = "revocation";
        issuer = c.issuer;
      })
      else elim (as_map c.raw "credentialStatus") [
        | some cs ↦ some (record {
          type = first_non_empty (map_str cs "type" ∷ "BitstringStatusListEntry" ∷ []);
          uri = map_str cs "statusListCredential";
          index = map_int d cs "statusListIndex";
          purpose = first_non_empty (map_str cs "statusPurpose" ∷ "revocation" ∷ []);
          issuer = c.issuer;
        })
        | none ↦ elim (as_map c.raw "status") [
          | none ↦ none
          | some st ↦ elim (as_map st "status_list") [
            | none ↦ none
            | some sl ↦ some (record {
              type = "TokenStatusList";
              uri = map_str sl "uri";
              index = map_int d sl "idx";
              purpose = "revocation";
              issuer = c.issuer;
            })
          ]
        ]
      ]

  -- The first credential with a capability, its position counted from `at`.
  unfoldable pub find_delegation_from :
      ℕ → List NormalizedCredential → Option (ℕ × NormalizedCredential × Capability)
  find_delegation_from at [] = none
  find_delegation_from at (c ∷ rest) =
      let later = find_delegation_from (suc at) rest in
      elim (extract_capability c) [ none ↦ later | some cap ↦ some (at, c, cap) ]

  unfoldable pub find_delegation :
      List NormalizedCredential → Option (ℕ × NormalizedCredential × Capability)
  unfolding find_delegation_from
  find_delegation creds = find_delegation_from 0 creds

-- The loop of findIdentity: `first` is firstIdx with its credential.
unfoldable pub find_identity_from :
    ℕ
    → Option (ℕ × NormalizedCredential)
    → ℕ
    → String
    → List NormalizedCredential
    → Option (ℕ × NormalizedCredential)
unfolding subject_anchor
find_identity_from at first delegation_idx on_behalf_of [] = first
find_identity_from at first delegation_idx on_behalf_of (c ∷ rest) =
    let skipped = find_identity_from (suc at) first delegation_idx on_behalf_of rest in
    let here : Option (ℕ × NormalizedCredential) = elim first [
      | none ↦ some (at, c)
      | some f ↦ some f
    ] in
    let passed = find_identity_from (suc at) here delegation_idx on_behalf_of rest in
    if nat_eq at delegation_idx
    then skipped
    else if not (on_behalf_of == "") && same_ref (subject_anchor c) on_behalf_of
    then some (at, c)
    else passed

unfoldable pub find_identity :
    List NormalizedCredential → ℕ → String → Option (ℕ × NormalizedCredential)
unfolding find_identity_from
find_identity creds delegation_idx on_behalf_of =
    find_identity_from 0 none delegation_idx on_behalf_of creds
