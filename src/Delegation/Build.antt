-- ===== src/Delegation/Build.antt =====
-- internal/delegation/build.go: the bodies of the two credentials of a delegation. A map is written as
-- a list of fields, in the order in which the code sets them, none of them twice; Claims.antt holds the
-- subject's credential, whose claims may replace fields, and the flat claims. The text of an index is an
-- argument, as fmt.Sprintf gives it.
pub mod Lookups
pub mod RoundTrip
pub mod Claims
pub mod Linkage
pub mod Reread
pub mod Flat
use Prim.Native.String.{◌++◌ as append_text}
use text.Mathlib.Text.{◌==◌}
use verifiably.Prelude.{
  ℕ, Bool, true, false, not, ◌&&◌, List, [], ◌∷◌, ◌++◌, Option, none, some, String, if◌then◌else◌,
}
use verifiably.Delegation.Json.{
  Value, boolean, str, strs, array, object, Values, nothing, item, Fields, empty, field,
}

pub record StatusEntry : Type 0 where
  pub publish_url : String
  pub index : ℕ

pub record DelegationCredentialSpec : Type 0 where
  pub data_model : String
  pub context_url : String
  pub type : String
  pub issuer : String
  pub delegate_id : String
  pub on_behalf_of : String
  pub role : String
  pub allowed_action : List String
  pub valid_from : String
  pub valid_until : String
  pub allow_further_delegation : Bool
  pub status : Option StatusEntry

-- if value != "" { m[key] = value }
abbrev pub text_field : String → String → Fields → Fields
text_field key value rest = if value == "" then rest else field key (str value) rest

-- if len(l) > 0 { m[key] = l }
abbrev pub list_field : String → List String → Fields → Fields
list_field key [] rest = rest
list_field key (x ∷ xs) rest = field key (strs (x ∷ xs)) rest

abbrev pub base_context : String → String
base_context data_model =
    if data_model == "w3c_vcdm_1"
    then "https://www.w3.org/2018/credentials/v1"
    else "https://www.w3.org/ns/credentials/v2"

abbrev pub context_arr : String → String → List String
context_arr data_model ctx_url =
    base_context data_model ∷ (if ctx_url == "" then [] else ctx_url ∷ [])

-- addValidity, before the fields `rest`
unfoldable pub add_validity : String → String → String → Fields → Fields
add_validity data_model from until rest =
    if data_model == "w3c_vcdm_1"
    then text_field "issuanceDate" from (text_field "expirationDate" until rest)
    else text_field "validFrom" from (text_field "validUntil" until rest)

unfoldable pub capability_fields : DelegationCredentialSpec → Fields
capability_fields s = field "type" (str "DelegationCapability") (
    field "invocationTarget" (str s.on_behalf_of) (
      field "allowFurtherDelegation" (boolean s.allow_further_delegation) (
        text_field "delegate" s.delegate_id (
          text_field "controller" s.issuer (
            list_field "allowedAction" s.allowed_action (
              if s.valid_until == ""
              then empty
              else field "caveat"
                  (array (
                    item
                      (object (
                        field "type" (str "ValidWhile")
                          (field "validUntil" (str s.valid_until) empty)))
                      nothing))
                  empty))))))

abbrev pub subject_fields : DelegationCredentialSpec → Fields
subject_fields s =
    field "onBehalfOf" (object (field "id" (str s.on_behalf_of) empty))
      (text_field "id" s.delegate_id (text_field "role" s.role empty))

abbrev pub type_list : DelegationCredentialSpec → List String
type_list s =
    "VerifiableCredential"
    ∷ "DelegatedAccessCredential"
    ∷ (if not (s.type == "") && not (s.type == "DelegatedAccessCredential")
        then s.type ∷ []
        else [])

module _ (show_index : ℕ → String) where
  unfoldable pub bitstring : StatusEntry → Fields
  bitstring s =
      field "id" (str (append_text s.publish_url (append_text "#" (show_index s.index)))) (
        field "type" (str "BitstringStatusListEntry") (
          field "statusPurpose" (str "revocation") (
            field "statusListIndex" (str (show_index s.index))
              (field "statusListCredential" (str s.publish_url) empty))))

  abbrev pub status_field : Option StatusEntry → Fields → Fields
  status_field none rest = rest
  status_field (some s) rest = field "credentialStatus" (object (bitstring s)) rest

  unfoldable pub build_delegation_credential : DelegationCredentialSpec → Fields
  build_delegation_credential s = field "@context" (strs (context_arr s.data_model s.context_url)) (
      field "type" (strs (type_list s)) (
        field "credentialSubject" (object (subject_fields s)) (
          field "termsOfUse" (array (item (object (capability_fields s)) nothing)) (
            text_field "issuer" s.issuer (
              add_validity s.data_model s.valid_from s.valid_until
                (status_field s.status empty))))))
