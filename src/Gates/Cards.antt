-- ===== src/Gates/Cards.antt =====
-- internal/handlers/delegation.go: the cards of a combined presentation (buildDelegationCredentialViews) and
-- their checks. The issuer's name for a schema is an argument; a note is modelled by its cause.

pub mod Agreement
mod Examples
use Prim.Native.Char.{code}
use text.Mathlib.Text.{◌==◌}
use verifiably.Prelude.{
  ℕ, zero, suc, Bool, true, false, not, ◌&&◌, ◌||◌, List, [], ◌∷◌, ◌++◌, Option, none, some, String,
  if◌then◌else◌, ltb, ◌==◌ as nat_eq,
}
use verifiably.Prelude.Outcome.{Outcome, ok, err}
use verifiably.Prelude.Dict.{Dict}
use verifiably.Prelude.Texts.{trim_space}
use verifiably.Delegation.Json.{Decoders}
use verifiably.Delegation.Temporal.{NormalizedCredential, temporal_bounds}
use verifiably.Delegation.Extract.{StatusRef, status_ref}
use verifiably.Delegation.Evaluate.{DelegationResult}
use verifiably.Gates.StatusBit.{StatusError}
use verifiably.Gates.Verdict.{VerificationResult, Setting, attach_delegation_verdict}

pub data CheckStatus : Type 0 where
  pass fail na : CheckStatus

pub data Note : Type 0 where
  too_early : ℕ → Note
  too_late : ℕ → Note
  no_expiry within_window no_status_list status_not_checked : Note
  status_failed : StatusError → Note
  is_revoked is_not_revoked : Note
  remark : String → Note

pub record CredCheck : Type 0 where
  pub label : String
  pub status : CheckStatus
  pub note : Note

pub record CredentialView : Type 0 where
  pub title : String
  pub role : String
  pub issuer : String
  pub format : String
  pub host_status : String
  pub claims : Dict String
  pub checks : List CredCheck

abbrev checked : String → CheckStatus → Note → CredCheck
checked label status note = record { label = label; status = status; note = note }

unfoldable pub deleg_check : String → Bool → String → CredCheck
deleg_check label passes note =
    if passes then checked label pass (remark note) else checked label fail (remark note)

-- t[strings.LastIndexAny(t, "/#")+1:], where there is one
unfoldable pub after_last : String → Option String
after_last String.[] = none
after_last (String.◌∷◌ c s) = elim (after_last s) [
  | some rest ↦ some rest
  | none ↦ if nat_eq (code c) b'/' || nat_eq (code c) b'#' then some s else none
]

unfoldable pub last_segment : String → String
unfolding after_last
last_segment t = elim (after_last t) [ none ↦ t | some rest ↦ if rest == "" then t else rest ]

abbrev pub is_at : Option ℕ → ℕ → Bool
is_at none i = false
is_at (some j) i = nat_eq j i

-- The checks of the delegation and of its subject.
unfoldable pub delegation_checks : Option DelegationResult → ℕ → List CredCheck
unfolding deleg_check
delegation_checks none i = []
delegation_checks (some del) i =
    if not del.evaluated
    then []
    else if is_at del.delegation_index i
    then deleg_check "Linkage" del.linkage "delegation is about the presented subject"
      ∷ deleg_check "Invocation" del.invocation "presenter is the bound delegate"
      ∷ deleg_check "Capability" del.capability "action permitted, within validity"
      ∷ []
    else if is_at del.subject_index i
    then deleg_check "Linkage" del.linkage "is the subject this delegation names" ∷ []
    else []

unfoldable pub role_of : Option DelegationResult → ℕ → String
role_of none i = ""
role_of (some del) i =
    if not del.evaluated
    then ""
    else if is_at del.delegation_index i
    then "delegation"
    else if is_at del.subject_index i
    then "subject"
    else ""

abbrev pub is_combined : VerificationResult → Bool
is_combined res = elim res.credentials [
  | [] ↦ false
  | c ∷ cs ↦ elim cs [ [] ↦ was_evaluated res.delegation | x ∷ xs ↦ true ]
]
  where
    was_evaluated : Option DelegationResult → Bool
    was_evaluated none = false
    was_evaluated (some del) = del.evaluated

module _ (d : Decoders) where
  -- The fallback of credentialCardTitle.
  unfoldable pub type_title : List String → String
  unfolding last_segment trim_space
  type_title [] = "Credential"
  type_title (t ∷ ts) =
      let rest = type_title ts in
      if trim_space t == "" || d.equal_fold (trim_space t) "VerifiableCredential"
      then rest
      else last_segment (trim_space t)

  unfoldable pub credential_card_title :
      (NormalizedCredential → String) → NormalizedCredential → String
  unfolding type_title
  credential_card_title schema_name c =
      if schema_name c == "" then type_title c.types else schema_name c

  unfoldable pub cred_temporal_check : ℕ → NormalizedCredential → CredCheck
  cred_temporal_check now c =
      let (not_before, not_after) = temporal_bounds d c in
      if not (nat_eq not_before 0) && ltb now not_before
      then checked "Within validity" fail (too_early not_before)
      else if not (nat_eq not_after 0) && ltb not_after now
      then checked "Within validity" fail (too_late not_after)
      else if nat_eq not_before 0 && nat_eq not_after 0
      then checked "Within validity" pass no_expiry
      else checked "Within validity" pass within_window

  unfoldable pub cred_revocation_check :
      Option (StatusRef → Outcome StatusError Bool) → NormalizedCredential → CredCheck
  cred_revocation_check check c = elim (status_ref d c) [
    | none ↦ checked "Not revoked" na no_status_list
    | some ref ↦ elim check [
      | none ↦ checked "Not revoked" na status_not_checked
      | some f ↦ elim (f ref) [
        | err e ↦ checked "Not revoked" na (status_failed e)
        | ok true ↦ checked "Not revoked" fail is_revoked
        | ok false ↦ checked "Not revoked" pass is_not_revoked
      ]
    ]
  ]

  module _ (schema_name : NormalizedCredential → String) (now : ℕ)
      (check : Option (StatusRef → Outcome StatusError Bool)) (del : Option DelegationResult) where
    -- The cards from the credential at a place on.
    unfoldable pub views_from : ℕ → List NormalizedCredential → List CredentialView
    unfolding credential_card_title cred_temporal_check cred_revocation_check delegation_checks
        role_of
    views_from i [] = []
    views_from i (c ∷ cs) =
        record {
          title = credential_card_title schema_name c;
          role = role_of del i;
          issuer = c.issuer;
          format = c.format;
          host_status = c.host_status;
          claims = c.claims;
          checks =
              cred_temporal_check now c ∷ cred_revocation_check check c ∷ delegation_checks del i;
        }
        ∷ views_from (suc i) cs

  -- The cards of a result, none for a single credential without a delegation.
  unfoldable pub credential_views :
      (NormalizedCredential → String)
      → ℕ
      → Option (StatusRef → Outcome StatusError Bool)
      → VerificationResult
      → List CredentialView
  unfolding views_from
  credential_views schema_name now check res =
      if is_combined res
      then views_from schema_name now check res.delegation 0 res.credentials
      else []

  -- attachDelegationVerdict with its cards, which are made at a time of their own.
  unfoldable pub attach_with_cards :
      (NormalizedCredential → String)
      → ℕ
      → Setting
      → VerificationResult
      → VerificationResult × List CredentialView
  unfolding credential_views
  attach_with_cards schema_name now w res =
      let after = attach_delegation_verdict d w res in
      (after, credential_views schema_name now w.check after)
