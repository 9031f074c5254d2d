-- ===== src/Delegation/Evaluate/Flags.antt =====
-- The flags that Evaluate of internal/delegation/delegation.go reports beside its verdict.
use verifiably.Prelude.{◌≡◌, inl, inr, refl, true, false, List, Option, none, arith, Option-cases}
use verifiably.Delegation.Json.{Decoders}
use verifiably.Delegation.Temporal.{NormalizedCredential, HolderBinding}
use verifiably.Delegation.Extract.{Capability, find_delegation, find_identity}
use verifiably.Delegation.Evaluate.{
  Options, DelegationResult, check_linkage, check_invocation, check_capability, check_status,
  check_status_of, check_trust, evaluate,
}

-- Each check is reported only after those before it, and the last of them is the verdict.
pub record Staged (r : DelegationResult) : Type 0 where
  pub linkage_evaluated : r.linkage ≡ true → r.evaluated ≡ true
  pub invocation_linkage : r.invocation ≡ true → r.linkage ≡ true
  pub capability_invocation : r.capability ≡ true → r.invocation ≡ true
  pub not_revoked_capability : r.not_revoked ≡ true → r.capability ≡ true
  pub verdict : r.authorized ≡ r.not_revoked
  pub trusted_authorized : r.trusted ≡ true → r.authorized ≡ true

module _ (d : Decoders) (creds : List NormalizedCredential) (holder : Option HolderBinding)
    (opts : Options) where
  -- Evaluate reports each check only after those before it; it authorises exactly what passes the
  -- last, the revocation check, and reports trust only for what it authorises.
  pub evaluate-Staged : Staged (evaluate d creds holder opts)
  unfolding evaluate
  evaluate-Staged = record {
    linkage_evaluated = λ h. ground arith;
    invocation_linkage = λ h. ground arith;
    capability_invocation = λ h. ground arith;
    not_revoked_capability = λ h. ground arith;
    verdict = ground arith;
    trusted_authorized = λ h. ground arith;
  }

  abbrev without_trust : Options
  without_trust = record opts { trust = none }

  check_capability-without_trust :
      (cap : Capability) (identity deleg : NormalizedCredential)
      → check_capability d without_trust cap identity deleg
        ≡ check_capability d opts cap identity deleg
  unfolding check_capability
  check_capability-without_trust cap identity deleg = refl

  check_status-without_trust :
      (identity deleg : NormalizedCredential)
      → check_status d without_trust identity deleg ≡ check_status d opts identity deleg
  unfolding check_status check_status_of
  check_status-without_trust identity deleg = refl

  check_trust-without_trust :
      (deleg : NormalizedCredential) → check_trust d without_trust deleg ≡ false
  unfolding check_trust
  check_trust-without_trust deleg = refl

  -- Issuer trust is advisory: without the trust lookup the result is the same in all but `trusted`.
  pub evaluate_advisory :
      evaluate d creds holder (record opts { trust = none })
      ≡ record (evaluate d creds holder opts) { trusted = false }
  unfolding evaluate
  evaluate_advisory = elim (Option-cases (find_delegation d creds)) [
    | inl gone ↦ rw (gone, evaluate) refl
    | inr ((i, deleg, cap), found) ↦ elim (Option-cases (find_identity creds i cap.on_behalf_of)) [
      | inl alone ↦ rw (found, evaluate, alone) refl
      | inr ((j, identity), paired) ↦
          rw (found, evaluate, paired)
            (elim (Option-cases (check_linkage d cap identity)) [
              | inr (r, stop) ↦ rw stop refl
              | inl pass1 ↦ rw pass1 (elim (Option-cases (check_invocation cap deleg holder)) [
                | inr (r, stop) ↦ rw stop refl
                | inl pass2 ↦
                    rw (pass2, check_capability-without_trust cap identity deleg)
                      (elim (Option-cases (check_capability d opts cap identity deleg)) [
                        | inr (r, stop) ↦ rw stop refl
                        | inl pass3 ↦
                            rw (pass3, check_status-without_trust identity deleg)
                              (elim (Option-cases (check_status d opts identity deleg)) [
                                | inr (r, stop) ↦ rw stop refl
                                | inl pass4 ↦ rw (pass4, check_trust-without_trust deleg) refl
                              ])
                      ])
              ])
            ])
    ]
  ]
