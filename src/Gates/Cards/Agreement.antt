-- ===== src/Gates/Cards/Agreement.antt =====
-- The cards of internal/handlers/delegation.go against the verdict on the whole presentation.
use verifiably.Prelude.{
  ℕ, suc, ◌≡◌, ◌≢◌, inl, inr, refl, sym, subst, ◌∙◌, Bool, true, List, [], ◌∷◌, Option, none, some,
  String, if◌then◌else◌, arith, All, Option-cases, Bool-cases,
}
use verifiably.Prelude.Outcome.{Outcome}
use verifiably.Delegation.Json.{Decoders}
use verifiably.Delegation.Temporal.{NormalizedCredential, temporal_bounds}
use verifiably.Delegation.Extract.{StatusRef, status_ref}
use verifiably.Delegation.Evaluate.{evaluate, DelegationResult}
use verifiably.Delegation.Evaluate.Verdict.{InWindow, evaluate_iff}
use verifiably.Delegation.Evaluate.Flags.{Staged, evaluate-Staged}
use verifiably.Gates.StatusBit.{StatusError}
use verifiably.Gates.Verdict.{
  VerificationResult, Setting, options, downgrade, apply_verdict, attach_temporal_verdict,
  attach_revocation_verdict, attach_delegation_verdict,
}
use verifiably.Gates.Verdict.Sound.{Clean, Passes, attach_delegation_verdict_iff}
use verifiably.Gates.Cards.{
  fail, CredCheck, CredentialView, deleg_check, cred_temporal_check, cred_revocation_check,
  delegation_checks, views_from, credential_views, attach_with_cards, is_combined, is_at,
}

abbrev pub Unfailed : CredCheck → Type 0
Unfailed k = k.status ≢ fail

abbrev pub AllUnfailed : List CredentialView → Type 0
AllUnfailed = All (λ v. All Unfailed v.checks)

-- The delegation that a result reports was authorised.
abbrev Granted : Option DelegationResult → Type 0
Granted none = Unit
Granted (some del) = del.evaluated ≡ true → del.authorized ≡ true

deleg_check-Unfailed :
    (label note : String) (passes : Bool) → passes ≡ true → Unfailed (deleg_check label passes note)
unfolding deleg_check
deleg_check-Unfailed label note passes h e = ground (arith, h, e)

module _ (d : Decoders) where
  cred_temporal_check-Unfailed :
      (now : ℕ) (c : NormalizedCredential)
      → InWindow now (temporal_bounds d c)
      → Unfailed (cred_temporal_check d now c)
  unfolding cred_temporal_check
  cred_temporal_check-Unfailed now c h e = ground (arith, h.0, h.1, e)

  cred_revocation_check-Unfailed :
      (check : Option (StatusRef → Outcome StatusError Bool)) (c : NormalizedCredential)
      → ((f : StatusRef → Outcome StatusError Bool) → check ≡ some f → Clean d f c)
      → Unfailed (cred_revocation_check d check c)
  unfolding cred_revocation_check
  cred_revocation_check-Unfailed check c h e = elim (Option-cases (status_ref d c)) [
    | inl absent ↦ ground (arith, absent, e)
    | inr (ref, at) ↦ elim (Option-cases check) [
      | inl off ↦ ground (arith, at, off, e)
      | inr (f, on) ↦ ground (arith, at, on, h f on ref at, e)
    ]
  ]

delegation_checks-Unfailed :
    (del : DelegationResult) (i : ℕ)
    → Staged del
    → (del.evaluated ≡ true → del.authorized ≡ true)
    → All Unfailed (delegation_checks (some del) i)
unfolding delegation_checks
delegation_checks-Unfailed del i staged granted = elim (Bool-cases del.evaluated) [
  | inr off ↦ rw (off, delegation_checks) tt
  | inl on ↦
      let capable : del.capability ≡ true =
        staged.not_revoked_capability (sym staged.verdict ∙ granted on) in
      let invoked : del.invocation ≡ true = staged.capability_invocation capable in
      let linked : del.linkage ≡ true = staged.invocation_linkage invoked in
      let link : ((note : String) → Unfailed (deleg_check "Linkage" del.linkage note)) =
        λ note. deleg_check-Unfailed "Linkage" note del.linkage linked in
      elim (Bool-cases (is_at del.delegation_index i)) [
        | inl here ↦
            rw (on, delegation_checks, here)
              (
                link _,
                (
                  deleg_check-Unfailed "Invocation" _ del.invocation invoked,
                  (deleg_check-Unfailed "Capability" _ del.capability capable, tt),
                ),
              )
        | inr elsewhere ↦ elim (Bool-cases (is_at del.subject_index i)) [
          | inl here ↦ rw (on, delegation_checks, elsewhere, here) (link _, tt)
          | inr neither ↦ rw (on, delegation_checks, elsewhere, neither) tt
        ]
      ]
]

module _ (d : Decoders) (schema_name : NormalizedCredential → String) (now : ℕ)
    (check : Option (StatusRef → Outcome StatusError Bool)) where
  views_from-AllUnfailed :
      (del : Option DelegationResult) (i : ℕ) (creds : List NormalizedCredential)
      → ((j : ℕ) → All Unfailed (delegation_checks del j))
      → All (λ c. InWindow now (temporal_bounds d c)) creds
      → ((f : StatusRef → Outcome StatusError Bool) → check ≡ some f → All (Clean d f) creds)
      → AllUnfailed (views_from d schema_name now check del i creds)
  unfolding views_from
  views_from-AllUnfailed del i [] delegated fits clean = tt
  views_from-AllUnfailed del i (c ∷ cs) delegated fits clean = (
    (
      cred_temporal_check-Unfailed d now c fits.0,
      (cred_revocation_check-Unfailed d check c (λ f on. (clean f on).0), delegated i),
    ),
    views_from-AllUnfailed del (suc i) cs delegated fits.1 (λ f on. (clean f on).1),
  )

delegation-attach_temporal :
    (d : Decoders) (now : ℕ) (res : VerificationResult)
    → (attach_temporal_verdict d now res).delegation ≡ res.delegation
unfolding attach_temporal_verdict downgrade
delegation-attach_temporal d now res = ground arith

delegation-attach_revocation :
    (d : Decoders) (check : Option (StatusRef → Outcome StatusError Bool))
    (res : VerificationResult)
    → (attach_revocation_verdict d check res).delegation ≡ res.delegation
unfolding attach_revocation_verdict downgrade
delegation-attach_revocation d none res = refl
delegation-attach_revocation d (some check) res = ground arith

reported-Unfailed :
    (v : DelegationResult) (j : ℕ)
    → Staged v
    → (v.evaluated ≡ true → v.authorized ≡ true)
    → All Unfailed (delegation_checks (if v.evaluated then some v else none) j)
unfolding delegation_checks
reported-Unfailed v j staged granted = elim (Bool-cases v.evaluated) [
  | inr off ↦
      subst (λ b. All Unfailed (delegation_checks (if b then some v else none) j)) (sym off) tt
  | inl on ↦
      subst (λ b. All Unfailed (delegation_checks (if b then some v else none) j)) (sym on)
        (delegation_checks-Unfailed v j staged granted)
]

module _ (d : Decoders) (w : Setting) (res : VerificationResult) where
  attach-credentials : (attach_delegation_verdict d w res).credentials ≡ res.credentials
  unfolding attach_delegation_verdict attach_temporal_verdict attach_revocation_verdict
      apply_verdict downgrade
  attach-credentials = ground arith

  abbrev verdict : DelegationResult
  verdict = evaluate d res.credentials res.holder_binding (options w)

  delegation-gated :
      (attach_revocation_verdict d w.check (attach_temporal_verdict d w.gate_now res)).delegation
      ≡ res.delegation
  delegation-gated =
      delegation-attach_revocation d w.check (attach_temporal_verdict d w.gate_now res)
      ∙ delegation-attach_temporal d w.gate_now res

  attach-delegation :
      res.delegation ≡ none
      → res.credentials ≢ []
      → (attach_delegation_verdict d w res).delegation
        ≡ (if verdict.evaluated then some verdict else none)
  unfolding attach_delegation_verdict apply_verdict downgrade
  attach-delegation fresh presented = ground (arith, fresh, presented, delegation-gated)

  delegation_checks-attach :
      res.delegation ≡ none
      → res.credentials ≢ []
      → Passes d w res
      → (j : ℕ) → All Unfailed (delegation_checks (attach_delegation_verdict d w res).delegation j)
  delegation_checks-attach fresh presented p j =
      let granted : (verdict.evaluated ≡ true → verdict.authorized ≡ true) = λ found.
        (evaluate_iff d res.credentials res.holder_binding (options w)).1 (p.authorised found) in
      subst (λ del. All Unfailed (delegation_checks del j))
        (sym (attach-delegation fresh presented))
        (reported-Unfailed verdict j
          (evaluate-Staged d res.credentials res.holder_binding (options w)) granted)

  -- Where the cards are made at the time of the gates, by the same check, a result that the gates leave
  -- valid has no card with a failed check.
  pub valid-AllUnfailed :
      (schema_name : NormalizedCredential → String)
      → res.delegation ≡ none
      → res.credentials ≢ []
      → (attach_with_cards d schema_name w.gate_now w res).0.valid ≡ true
      → AllUnfailed (attach_with_cards d schema_name w.gate_now w res).1
  unfolding attach_with_cards credential_views
  valid-AllUnfailed schema_name fresh presented h =
      let p = (attach_delegation_verdict_iff d w res presented).0 h in
      let after = attach_delegation_verdict d w res in
      elim (Bool-cases (is_combined after)) [
        | inr single ↦ rw (single, credential_views) tt
        | inl combined ↦
            rw (combined, credential_views)
              (subst
                (λ creds.
                  AllUnfailed
                    (views_from d schema_name w.gate_now w.check after.delegation 0 creds))
                (sym attach-credentials)
                (views_from-AllUnfailed d schema_name w.gate_now w.check after.delegation 0
                  res.credentials (delegation_checks-attach fresh presented p) p.in_window
                  p.unrevoked))
      ]
