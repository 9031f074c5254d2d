-- ===== src/Delegation/Build/Claims.antt =====
-- internal/delegation/build.go: the credential of a subject, and the flat claims of both credentials that
-- the SD-JWT path issues. A claim replaces a field that the code sets itself under the same name.
use text.Mathlib.Text.{◌==◌}
use verifiably.Prelude.{
  ℕ, ◌≡◌, refl, [], ◌∷◌, Option, none, some, String, if◌then◌else◌, arith, eq_iff,
}
use verifiably.Prelude.Dict.{Dict, find, put}
use verifiably.Delegation.Json.{
  Value, boolean, str, strs, object, Fields, empty, field, lookup, set_field, lookup-set_field,
}
use verifiably.Delegation.Build.{
  StatusEntry, DelegationCredentialSpec, text_field, list_field, context_arr, add_validity,
  status_field,
}

pub record SubjectCredentialSpec : Type 0 where
  pub data_model : String
  pub context_url : String
  pub issuer : String
  pub subject_did : String
  pub subject_ref : String
  pub type : String
  pub claims : Dict String
  pub valid_from : String
  pub valid_until : String
  pub status : Option StatusEntry

-- for k, v := range claims { m[k] = v }; of the keys, none occurs twice, and the first counts here.
unfoldable pub with_claims : Dict String → Fields → Fields
with_claims [] m = m
with_claims ((k, v) ∷ rest) m = set_field (with_claims rest m) k (str v)

abbrev pub own_fields : SubjectCredentialSpec → Fields
own_fields s = text_field "id" s.subject_did (text_field "subjectRef" s.subject_ref empty)

abbrev pub subject_type : SubjectCredentialSpec → String
subject_type s = if s.type == "" then "IdentityCredential" else s.type

unfoldable pub build_subject_credential : (ℕ → String) → SubjectCredentialSpec → Fields
unfolding with_claims
build_subject_credential show_index s =
    field "@context" (strs (context_arr s.data_model s.context_url)) (
      field "type" (strs ("VerifiableCredential" ∷ subject_type s ∷ [])) (
        field "credentialSubject" (object (with_claims s.claims (own_fields s))) (
          text_field "issuer" s.issuer (
            add_validity s.data_model s.valid_from s.valid_until
              (status_field show_index s.status empty)))))

-- The same loop onto a map of texts.
unfoldable pub with_texts : Dict String → Dict String → Dict String
with_texts [] m = m
with_texts ((k, v) ∷ rest) m = put (with_texts rest m) k v

unfoldable pub subject_claims : SubjectCredentialSpec → Dict String
unfolding with_texts
subject_claims s =
    with_texts s.claims (if s.subject_ref == "" then [] else ("subjectRef", s.subject_ref) ∷ [])

-- The object that the `delegation` claim holds as JSON.
unfoldable pub delegation_object : DelegationCredentialSpec → Fields
delegation_object d = field "on_behalf_of" (str d.on_behalf_of) (
    field "allow_further_delegation" (boolean d.allow_further_delegation) (
      list_field "allowed_action" d.allowed_action (
        text_field "valid_until" d.valid_until
          (text_field "delegate" d.delegate_id (text_field "controller" d.issuer empty)))))

unfoldable pub delegation_claims : (Fields → String) → DelegationCredentialSpec → Dict String
unfolding delegation_object
delegation_claims marshal d =
    ("onBehalfOf", d.on_behalf_of)
    ∷ ("delegation", marshal (delegation_object d))
    ∷ (if d.role == "" then [] else ("role", d.role) ∷ [])

-- A claim, or else what the fields had.
abbrev pub claim_or : Option String → Option Value → Option Value
claim_or none v = v
claim_or (some t) v = some (str t)

pub lookup-with_claims :
    (claims : Dict String) (m : Fields) (key : String)
    → lookup (with_claims claims m) key ≡ claim_or (find claims key) (lookup m key)
unfolding with_claims find
lookup-with_claims [] m key = refl
lookup-with_claims ((k, v) ∷ rest) m key = ground (
  arith,
  lookup-set_field (with_claims rest m) k key (str v),
  lookup-with_claims rest m key,
  eq_iff k key,
)
