-- ===== src/Gates/Verdict/Sound.antt =====
-- What a presentation must satisfy for attachDelegationVerdict of internal/handlers/delegation.go to leave
-- its result valid.
use mathlib.Core.Option.{some-injective}
use verifiably.Prelude.{
  ℕ, suc, ◌≡◌, ◌≢◌, ◌↔◌, ◌⊎◌, inl, inr, refl, sym, subst, ◌∙◌, Bool, true, false, List, [], ◌∷◌,
  none, some, arith, All, Option-cases,
}
use verifiably.Prelude.Outcome.{Outcome, ok, err}
use verifiably.Delegation.Json.{Decoders}
use verifiably.Delegation.Temporal.{NormalizedCredential, temporal_bounds}
use verifiably.Delegation.Extract.{StatusRef, status_ref}
use verifiably.Delegation.Evaluate.{evaluate, DelegationResult}
use verifiably.Delegation.Evaluate.Verdict.{InWindow, Authorised, evaluate_iff}
use verifiably.Gates.StatusBit.{StatusError}
use verifiably.Gates.Verdict.{
  Part, VerificationResult, Setting, downgrade, temporal_fault, attach_temporal_verdict,
  revocation_fault, attach_revocation_verdict, options, apply_verdict, attach_delegation_verdict,
  none_presented,
}

Checked-cases :
    (o : Outcome StatusError Bool)
    → ((e : StatusError) × (o ≡ err e)) ⊎ (o ≡ ok true) ⊎ (o ≡ ok false)
Checked-cases (err e) = inl (e, refl)
Checked-cases (ok true) = inr (inl refl)
Checked-cases (ok false) = inr (inr refl)

Fault-cases : (o : Outcome Part Bool) → ((part : Part) × (o ≡ err part)) ⊎ ((b : Bool) × (o ≡ ok b))
Fault-cases (err part) = inl (part, refl)
Fault-cases (ok b) = inr (b, refl)

module _ (d : Decoders) where
  -- The check gives the credential's bit, and it is not set.
  abbrev pub Clean : (StatusRef → Outcome StatusError Bool) → NormalizedCredential → Type 0
  Clean check c = (ref : StatusRef) → status_ref d c ≡ some ref → check ref ≡ ok false

  temporal_fault-none :
      (now i : ℕ) (creds : List NormalizedCredential)
      → (temporal_fault d now i creds ≡ none) ↔ All (λ c. InWindow now (temporal_bounds d c)) creds
  unfolding temporal_fault
  temporal_fault-none now i [] = (λ h. tt, λ h. refl)
  temporal_fault-none now i (c ∷ cs) =
      let (to, from) = temporal_fault-none now (suc i) cs in
      (
        λ h. ((ground (arith, h), ground (arith, h)), to (ground (arith, h))),
        λ h. ground (arith, h.0, from h.1),
      )

  Clean-revocation_fault :
      (check : StatusRef → Outcome StatusError Bool) (r b : Bool)
      (creds : List NormalizedCredential)
      → revocation_fault d check r creds ≡ ok b
      → All (Clean check) creds
  unfolding revocation_fault
  Clean-revocation_fault check r b [] h = tt
  Clean-revocation_fault check r b (c ∷ cs) h = elim (Option-cases (status_ref d c)) [
    | inl absent ↦ (
      λ ref e. absurd (ground (arith, absent, e)),
      Clean-revocation_fault check r b cs (ground (arith, absent, h)),
    )
    | inr (ref, e) ↦ elim (Checked-cases (check ref)) [
      | inl (x, failed) ↦ absurd (ground (arith, e, failed, h))
      | inr (inl bad) ↦ absurd (ground (arith, e, bad, h))
      | inr (inr good) ↦ (
        λ other e'. subst (λ r'. check r' ≡ ok false) (some-injective ref other (sym e ∙ e')) good,
        Clean-revocation_fault check true b cs (ground (arith, e, good, h)),
      )
    ]
  ]

  revocation_fault_of_Clean :
      (check : StatusRef → Outcome StatusError Bool) (r : Bool) (creds : List NormalizedCredential)
      → All (Clean check) creds
      → (b : Bool) × (revocation_fault d check r creds ≡ ok b)
  unfolding revocation_fault
  revocation_fault_of_Clean check r [] h = (r, refl)
  revocation_fault_of_Clean check r (c ∷ cs) h = elim (Option-cases (status_ref d c)) [
    | inl absent ↦ rw (absent, revocation_fault) (revocation_fault_of_Clean check r cs h.1)
    | inr (ref, e) ↦
        rw (e, revocation_fault) (rw (h.0 ref e) (revocation_fault_of_Clean check true cs h.1))
  ]

  -- The result was valid, and the credentials pass each gate.
  pub record Passes (w : Setting) (res : VerificationResult) : Type 0 where
    pub was_valid : res.valid ≡ true
    pub in_window : All (λ c. InWindow w.gate_now (temporal_bounds d c)) res.credentials
    pub unrevoked :
        (check : StatusRef → Outcome StatusError Bool)
        → w.check ≡ some check
        → All (Clean check) res.credentials
    pub authorised :
        (evaluate d res.credentials res.holder_binding (options w)).evaluated ≡ true
        → Authorised d res.credentials res.holder_binding (options w)

  attach_temporal-valid :
      (now : ℕ) (res : VerificationResult)
      → ((attach_temporal_verdict d now res).valid ≡ true)
        ↔ ((res.valid ≡ true) × (temporal_fault d now 0 res.credentials ≡ none))
  unfolding attach_temporal_verdict downgrade
  attach_temporal-valid now res =
      (λ h. (ground (arith, h), ground (arith, h)), λ h. ground (arith, h.0, h.1))

  attach_temporal-credentials :
      (now : ℕ) (res : VerificationResult)
      → (attach_temporal_verdict d now res).credentials ≡ res.credentials
  unfolding attach_temporal_verdict downgrade
  attach_temporal-credentials now res = ground arith

  attach_revocation-valid :
      (check : StatusRef → Outcome StatusError Bool) (res : VerificationResult)
      → ((attach_revocation_verdict d (some check) res).valid ≡ true)
        ↔ ((res.valid ≡ true) × All (Clean check) res.credentials)
  unfolding attach_revocation_verdict downgrade
  attach_revocation-valid check res =
      elim (Fault-cases (revocation_fault d check false res.credentials)) [
        | inl (part, fails) ↦ (
          λ h. absurd (ground (arith, fails, h)),
          λ h.
              let (b, fine) = revocation_fault_of_Clean check false res.credentials h.1 in
              absurd (ground (arith, fails, fine)),
        )
        | inr (b, fine) ↦ (
          λ h. (ground (arith, fine, h), Clean-revocation_fault check false b res.credentials fine),
          λ h. ground (arith, fine, h.0),
        )
      ]

  apply_verdict-valid :
      (v : DelegationResult) (res : VerificationResult)
      → ((apply_verdict v res).valid ≡ true)
        ↔ ((res.valid ≡ true) × (v.evaluated ≡ true → v.authorized ≡ true))
  unfolding apply_verdict downgrade
  apply_verdict-valid v res =
      (λ h. (ground (arith, h), λ e. ground (arith, h, e)), λ h. ground (arith, h.0, h.1))

  gates-valid :
      (w : Setting) (res : VerificationResult)
      → ((attach_revocation_verdict d w.check (attach_temporal_verdict d w.gate_now res)).valid
          ≡ true)
        ↔ ((res.valid ≡ true)
            × All (λ c. InWindow w.gate_now (temporal_bounds d c)) res.credentials
            × ((check : StatusRef → Outcome StatusError Bool)
                → w.check ≡ some check
                → All (Clean check) res.credentials))
  unfolding attach_revocation_verdict
  gates-valid w res =
      let timed = attach_temporal_verdict d w.gate_now res in
      let window = temporal_fault-none w.gate_now 0 res.credentials in
      let temporal = attach_temporal-valid w.gate_now res in
      elim (Option-cases w.check) [
        | inl off ↦ (
          λ h.
              let (was, fault) =
                temporal.0
                  (subst (λ o. (attach_revocation_verdict d o timed).valid ≡ true) off h) in
              (was, window.0 fault, λ check on. absurd (ground (arith, off, on))),
          λ (was, fits, clean).
              subst (λ o. (attach_revocation_verdict d o timed).valid ≡ true) (sym off)
                (temporal.1 (was, window.1 fits)),
        )
        | inr (check, on) ↦
            let revocation = attach_revocation-valid check timed in
            (
              λ h.
                  let (timed_valid, clean) =
                    revocation.0
                      (subst (λ o. (attach_revocation_verdict d o timed).valid ≡ true) on h) in
                  let (was, fault) = temporal.0 timed_valid in
                  (
                    was,
                    window.0 fault,
                    λ other also.
                        subst (λ f. All (Clean f) res.credentials)
                          (some-injective check other (sym on ∙ also))
                          (subst (All (Clean check)) (attach_temporal-credentials w.gate_now res)
                            clean),
                  ),
              λ (was, fits, clean).
                  subst (λ o. (attach_revocation_verdict d o timed).valid ≡ true) (sym on)
                    (revocation.1 (
                      temporal.1 (was, window.1 fits),
                      subst (All (Clean check)) (sym (attach_temporal-credentials w.gate_now res))
                          (clean check on),
                    )),
            )
      ]

  -- Of a presentation with a credential, the result is valid after the gates exactly if it was valid
  -- before, every credential is in its window, where a cache of lists is configured every status that a
  -- credential refers to was resolved and is not revoked, and a delegation that is found is authorised.
  pub attach_delegation_verdict_iff :
      (w : Setting) (res : VerificationResult)
      → res.credentials ≢ []
      → ((attach_delegation_verdict d w res).valid ≡ true) ↔ Passes w res
  unfolding attach_delegation_verdict
  attach_delegation_verdict_iff w res presented =
      let gated = attach_revocation_verdict d w.check (attach_temporal_verdict d w.gate_now res) in
      let v = evaluate d res.credentials res.holder_binding (options w) in
      let some_creds : (none_presented res.credentials ≡ false) = ground (arith, presented) in
      let gates = gates-valid w res in
      let applied = apply_verdict-valid v gated in
      let verdict = evaluate_iff d res.credentials res.holder_binding (options w) in
      (
        λ h.
            let (gated_valid, granted) = applied.0 (ground (arith, some_creds, h)) in
            let (was, fits, clean) = gates.0 gated_valid in
            record {
              was_valid = was;
              in_window = fits;
              unrevoked = clean;
              authorised = λ found. verdict.0 (granted found);
            },
        λ p.
            let result = applied.1 (
              gates.1 (p.was_valid, p.in_window, p.unrevoked),
              λ found. verdict.1 (p.authorised found),
            ) in
            ground (arith, some_creds, result),
      )
