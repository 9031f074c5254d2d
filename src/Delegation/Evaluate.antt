-- ===== src/Delegation/Evaluate.antt =====
-- internal/delegation/delegation.go: Evaluate. Each numbered check of its body is a function that
-- gives the reason of its first failure, if there is one; `evaluate` runs them in the body's order.
-- The text of a reason is modelled by its cause. The status and trust lookups are arguments, as in
-- the code.
pub mod Verdict
pub mod Flags
mod Examples
use text.Mathlib.Text.{◌==◌}
use verifiably.Prelude.{
  ℕ, Bool, true, false, not, ◌&&◌, ◌||◌, List, [], ◌∷◌, Option, none, some, String, if◌then◌else◌,
  ltb, ◌==◌ as nat_eq, any, length,
}
use verifiably.Prelude.Outcome.{Outcome, ok, err}
use verifiably.Prelude.Texts.{trim_space}
use verifiably.Delegation.Json.{Decoders}
use verifiably.Delegation.Temporal.{NormalizedCredential, HolderBinding, temporal_bounds, rfc3339}
use verifiably.Delegation.Subject.{same_ref, subject_identifies}
use verifiably.Delegation.Extract.{
  StatusRef, Capability, status_ref, find_delegation, find_identity,
}

-- The lookups give an error where they cannot tell; the error itself is not read.
pub record Options : Type 0 where
  pub now : ℕ
  pub requested_action : String
  pub status : Option (StatusRef → Option Bool)
  pub trust : Option (String → String → Bool)
  pub fail_closed : Bool

pub data Reason : Type 0 where
  not_evaluated : Reason
  no_subject : Reason
  linkage_failed : Reason
  no_delegate : Reason
  wrong_presenter : Reason
  not_yet_valid : Reason
  credential_expired : Reason
  further_delegation : Reason
  chain_unsupported : Reason
  wrong_controller : Reason
  bad_valid_until : Reason
  delegation_expired : Reason
  action_not_permitted : Reason
  status_unchecked : Reason
  status_unavailable : Reason
  revoked : Reason
  authorised : Reason

-- An index of -1 is none.
pub record DelegationResult : Type 0 where
  pub evaluated : Bool
  pub authorized : Bool
  pub reason : Reason
  pub linkage : Bool
  pub invocation : Bool
  pub capability : Bool
  pub not_revoked : Bool
  pub trusted : Bool
  pub delegation_index : Option ℕ
  pub subject_index : Option ℕ

unfoldable pub holder_ref : HolderBinding → String
holder_ref h = if h.id == "" then h.key_thumbprint else h.id

abbrev pub is_confirmed : Option HolderBinding → Bool
is_confirmed none = false
is_confirmed (some h) = h.confirmed

-- holderRef of a confirmed holder, "" for another.
abbrev pub presenter : Option HolderBinding → String
presenter none = ""
presenter (some h) = if h.confirmed then holder_ref h else ""

-- The first of two results that fails.
abbrev pub then_check : Option Reason → Option Reason → Option Reason
then_check (some r) next = some r
then_check none next = next

abbrev pub fails_if : Bool → Reason → Option Reason
fails_if b r = if b then some r else none

abbrev pub is_empty : List String → Bool
is_empty [] = true
is_empty (x ∷ xs) = false

-- 2. Invocation
unfoldable pub check_invocation :
    Capability → NormalizedCredential → Option HolderBinding → Option Reason
check_invocation cap deleg holder =
    let delegate = if deleg.subject_id == "" then cap.delegate else deleg.subject_id in
    let hid = presenter holder in
    if delegate == "" && not (is_confirmed holder)
    then some no_delegate
    else fails_if
        (is_confirmed holder
          && not (delegate == "")
          && not (hid == "")
          && not (same_ref hid deleg.subject_id)
          && not (same_ref hid cap.delegate))
        wrong_presenter

module _ (d : Decoders) where
  -- 1. Linkage
  unfoldable pub check_linkage : Capability → NormalizedCredential → Option Reason
  check_linkage cap identity =
      fails_if (cap.on_behalf_of == "" || not (subject_identifies d identity cap.on_behalf_of))
        linkage_failed

  unfoldable pub check_window : ℕ → NormalizedCredential → Option Reason
  check_window now c =
      let (not_before, not_after) = temporal_bounds d c in
      then_check (fails_if (not (nat_eq not_before 0) && ltb now not_before) not_yet_valid)
        (fails_if (not (nat_eq not_after 0) && ltb not_after now) credential_expired)

  -- parseTime
  unfoldable pub parse_time : String → Option ℕ
  parse_time s = elim (d.parse_layout rfc3339 (trim_space s)) [
    | some t ↦ some t
    | none ↦ elim (d.parse_layout "2006-01-02T15:04:05.999999999Z07:00" (trim_space s)) [
      | some t ↦ some t
      | none ↦ d.parse_layout "2006-01-02" (trim_space s)
    ]
  ]

  unfoldable pub check_until : ℕ → String → Option Reason
  check_until now valid_until = if valid_until == "" then none else elim (parse_time valid_until) [
    | none ↦ some bad_valid_until
    | some until ↦ fails_if (ltb until now) delegation_expired
  ]

  unfoldable pub contains_fold : List String → String → Bool
  contains_fold list v = any (λ x. d.equal_fold (trim_space x) (trim_space v)) list

  -- 3. Capability, after the windows of the two credentials
  unfoldable pub check_capability :
      Options → Capability → NormalizedCredential → NormalizedCredential → Option Reason
  check_capability opts cap identity deleg = then_check (check_window opts.now identity) (
      then_check (check_window opts.now deleg) (
        then_check (fails_if (cap.has_chain && not cap.allow_further_delegation) further_delegation)
          (then_check (fails_if cap.has_chain chain_unsupported) (
            then_check
              (fails_if
                (not (cap.controller == "")
                  && not (deleg.issuer == "")
                  && not (same_ref cap.controller deleg.issuer))
                wrong_controller)
              (then_check (check_until opts.now cap.valid_until) (
                fails_if
                  (not (opts.requested_action == "")
                    && not (is_empty cap.allowed_action)
                    && not (contains_fold cap.allowed_action opts.requested_action))
                  action_not_permitted))))))

  -- 4. Status, of one credential
  unfoldable pub check_status_of : Options → NormalizedCredential → Option Reason
  check_status_of opts c = elim (status_ref d c) [
    | none ↦ none
    | some ref ↦ elim opts.status [
      | none ↦ fails_if opts.fail_closed status_unchecked
      | some status ↦ elim (status ref) [
        | none ↦ fails_if opts.fail_closed status_unavailable
        | some is_revoked ↦ fails_if is_revoked revoked
      ]
    ]
  ]

  unfoldable pub check_status :
      Options → NormalizedCredential → NormalizedCredential → Option Reason
  check_status opts identity deleg =
      then_check (check_status_of opts identity) (check_status_of opts deleg)

  unfoldable pub primary_type : List String → String
  primary_type types = first_other types
    where
      first : List String → String
      first [] = ""
      first (t ∷ ts) = t

      first_other : List String → String
      first_other [] = first types
      first_other (t ∷ ts) =
          let rest = first_other ts in if d.equal_fold t "VerifiableCredential" then rest else t

  -- 5. Trust
  unfoldable pub check_trust : Options → NormalizedCredential → Bool
  unfolding primary_type
  check_trust opts deleg = elim opts.trust [
    | none ↦ false
    | some trust ↦ not (deleg.issuer == "") && trust deleg.issuer (primary_type deleg.types)
  ]

  unfoldable pub evaluate :
      List NormalizedCredential → Option HolderBinding → Options → DelegationResult
  evaluate creds holder opts = elim (find_delegation d creds) [
    | none ↦ blank false not_evaluated none none
    | some (i, deleg, cap) ↦ elim (find_identity creds i cap.on_behalf_of) [
      | none ↦ blank true no_subject (some i) none
      | some (j, identity) ↦
          let res = blank true authorised (some i) (some j) in
          elim (check_linkage cap identity) [
            | some r ↦ record res { reason = r }
            | none ↦ elim (check_invocation cap deleg holder) [
              | some r ↦ record res { reason = r; linkage = true }
              | none ↦ elim (check_capability opts cap identity deleg) [
                | some r ↦ record res { reason = r; linkage = true; invocation = true }
                | none ↦ elim (check_status opts identity deleg) [
                  | some r ↦ record res {
                    reason = r;
                    linkage = true;
                    invocation = true;
                    capability = true;
                  }
                  | none ↦ record res {
                    linkage = true;
                    invocation = true;
                    capability = true;
                    not_revoked = true;
                    trusted = check_trust opts deleg;
                    authorized = true;
                  }
                ]
              ]
            ]
          ]
    ]
  ]
    where
      blank : Bool → Reason → Option ℕ → Option ℕ → DelegationResult
      blank evaluated reason i j = record {
        evaluated = evaluated;
        authorized = false;
        reason = reason;
        linkage = false;
        invocation = false;
        capability = false;
        not_revoked = false;
        trusted = false;
        delegation_index = i;
        subject_index = j;
      }
