-- ===== src/Gates/Verdict.antt =====
-- internal/handlers/delegation.go: attachDelegationVerdict with its gates, attachTemporalVerdict and
-- attachRevocationVerdict. The line `Method` of a result is the list of its parts, which the code joins
-- by " · "; a part is modelled by its cause and the place of its credential. The status of a list is an
-- argument, as StatusBit gives it; each gate reads the clock for itself.
pub mod Sound
use verifiably.Prelude.{
  ℕ, zero, suc, Bool, true, false, not, ◌&&◌, List, [], ◌∷◌, ◌++◌, Option, none, some, String,
  if◌then◌else◌, ltb, ◌==◌ as nat_eq, length,
}
use verifiably.Prelude.Outcome.{Outcome, ok, err}
use verifiably.Delegation.Json.{Decoders}
use verifiably.Delegation.Temporal.{NormalizedCredential, HolderBinding, temporal_bounds}
use verifiably.Delegation.Extract.{StatusRef, status_ref}
use verifiably.Delegation.Evaluate.{Options, Reason, DelegationResult, evaluate}
use verifiably.Gates.StatusBit.{StatusError}

pub data Part : Type 0 where
  host_method : String → Part
  not_yet_valid : ℕ → Part
  has_expired : ℕ → Part
  status_unchecked : StatusError → Part
  credential_revoked : Part
  delegation_denied : Reason → Part

-- The fields of backend.VerificationResult that the gates read and write, but for the cards.
pub record VerificationResult : Type 0 where
  pub valid : Bool
  pub method : List Part
  pub checked_revocation : Bool
  pub delegation : Option DelegationResult
  pub credentials : List NormalizedCredential
  pub holder_binding : Option HolderBinding

-- What a verification reads: the clock of each gate, the check of a status where a cache of lists is
-- configured, and the trust registry where there is one.
pub record Setting : Type 0 where
  pub gate_now : ℕ
  pub evaluation_now : ℕ
  pub check : Option (StatusRef → Outcome StatusError Bool)
  pub trust : Option (String → String → Bool)

-- temporalDowngrade and revocationDowngrade
unfoldable pub downgrade : Part → VerificationResult → VerificationResult
downgrade part res = record res { valid = false; method = res.method ++ (part ∷ []) }

abbrev pub to_option : Outcome StatusError Bool → Option Bool
to_option (err e) = none
to_option (ok b) = some b

-- len(res.Credentials) == 0
abbrev pub none_presented : List NormalizedCredential → Bool
none_presented [] = true
none_presented (c ∷ cs) = false

-- delegationStatusChecker fails where no cache is configured.
abbrev pub options : Setting → Options
options w = record {
  now = w.evaluation_now;
  requested_action = "present";
  status = some (λ ref. elim w.check [ none ↦ none | some check ↦ to_option (check ref) ]);
  trust = w.trust;
  fail_closed = true;
}

unfoldable pub apply_verdict : DelegationResult → VerificationResult → VerificationResult
apply_verdict v res =
    let noted = record res { delegation = some v } in
    if not v.evaluated
    then res
    else if v.authorized
    then noted
    else downgrade (delegation_denied v.reason) noted

module _ (d : Decoders) where
  -- The loop of attachTemporalVerdict, from the credential at a place on.
  unfoldable pub temporal_fault : ℕ → ℕ → List NormalizedCredential → Option Part
  temporal_fault now i [] = none
  temporal_fault now i (c ∷ cs) =
      let (not_before, not_after) = temporal_bounds d c in
      let rest = temporal_fault now (suc i) cs in
      if not (nat_eq not_before 0) && ltb now not_before
      then some (not_yet_valid i)
      else if not (nat_eq not_after 0) && ltb not_after now
      then some (has_expired i)
      else rest

  unfoldable pub attach_temporal_verdict : ℕ → VerificationResult → VerificationResult
  unfolding temporal_fault
  attach_temporal_verdict now res = elim (temporal_fault now 0 res.credentials) [
    | none ↦ res
    | some part ↦ downgrade part res
  ]

  -- The loop of attachRevocationVerdict: whether a list was resolved, or the first failure.
  unfoldable pub revocation_fault :
      (StatusRef → Outcome StatusError Bool) → Bool → List NormalizedCredential → Outcome Part Bool
  revocation_fault check resolved [] = ok resolved
  revocation_fault check resolved (c ∷ cs) = elim (status_ref d c) [
    | none ↦ revocation_fault check resolved cs
    | some ref ↦ elim (check ref) [
      | err e ↦ err (status_unchecked e)
      | ok true ↦ err credential_revoked
      | ok false ↦ revocation_fault check true cs
    ]
  ]

  unfoldable pub attach_revocation_verdict :
      Option (StatusRef → Outcome StatusError Bool) → VerificationResult → VerificationResult
  unfolding revocation_fault
  attach_revocation_verdict none res = res
  attach_revocation_verdict (some check) res = elim (revocation_fault check false res.credentials) [
    | err part ↦ downgrade part res
    | ok resolved ↦ record res {
      checked_revocation = if resolved then true else res.checked_revocation;
    }
  ]

  -- attachDelegationVerdict, but for the cards.
  unfoldable pub attach_delegation_verdict : Setting → VerificationResult → VerificationResult
  unfolding attach_temporal_verdict attach_revocation_verdict apply_verdict
  attach_delegation_verdict w res =
      let gated = attach_revocation_verdict w.check (attach_temporal_verdict w.gate_now res) in
      if none_presented res.credentials
      then res
      else apply_verdict (evaluate d res.credentials res.holder_binding (options w)) gated
