-- ===== src/Delegation/Evaluate/Verdict.antt =====
-- When Evaluate of internal/delegation/delegation.go authorises a delegate: what each of its checks
-- demands, and the verdict.
use text.Mathlib.Text.{◌==◌}
use mathlib.Core.Option.{some-injective}
use verifiably.Prelude.{
  subst, ℕ, ◌≤◌, ◌≡◌, ◌≢◌, ◌↔◌, ◌⊎◌, inl, inr, refl, sym, ◌∙◌, Bool, true, false, not, ◌&&◌, List,
  [], Option, none, some, String, if◌then◌else◌, arith, eq_iff, Option-cases,
}
use verifiably.Delegation.Json.{Decoders}
use verifiably.Delegation.Temporal.{NormalizedCredential, HolderBinding, temporal_bounds}
use verifiably.Delegation.Subject.{same_ref, subject_identifies}
use verifiably.Delegation.Extract.{
  StatusRef, Capability, status_ref, find_delegation, find_identity,
}
use verifiably.Delegation.Evaluate.{
  Options, is_confirmed, presenter, check_linkage, check_invocation, check_window, parse_time,
  check_until, contains_fold, is_empty, check_capability, check_status_of, check_status, evaluate,
}

-- The party that the delegation is for: the subject that it is bound to, or else the named one.
abbrev pub delegate_of : Capability → NormalizedCredential → String
delegate_of cap deleg = if deleg.subject_id == "" then cap.delegate else deleg.subject_id

-- A delegate is named or the holder confirmed, and a known confirmed presenter of a delegation with
-- a delegate is its subject or the named delegate.
abbrev pub Invoked : Capability → NormalizedCredential → Option HolderBinding → Type 0
Invoked cap deleg holder =
    ((delegate_of cap deleg ≢ "") ⊎ (is_confirmed holder ≡ true))
    × (is_confirmed holder ≡ true
        → delegate_of cap deleg ≢ ""
        → presenter holder ≢ ""
        → (same_ref (presenter holder) deleg.subject_id ≡ true)
          ⊎ (same_ref (presenter holder) cap.delegate ≡ true))

-- A bound of 0 is absent.
abbrev pub InWindow : ℕ → ℕ × ℕ → Type 0
InWindow now bounds = (bounds.0 ≤ now) × ((bounds.1 ≡ 0) ⊎ (now ≤ bounds.1))

check_invocation-none :
    (cap : Capability) (deleg : NormalizedCredential) (holder : Option HolderBinding)
    → (check_invocation cap deleg holder ≡ none) ↔ Invoked cap deleg holder
unfolding check_invocation
check_invocation-none cap deleg holder =
    let blank = eq_iff (delegate_of cap deleg) "" in
    let anonymous = eq_iff (presenter holder) "" in
    (
      λ h. (ground (arith, blank, anonymous), λ sure named known. ground (arith, blank, anonymous)),
      λ h. ground (arith, h.0, h.1, blank, anonymous),
    )

module _ (d : Decoders) where
  abbrev pub Linked : Capability → NormalizedCredential → Type 0
  Linked cap identity =
      (cap.on_behalf_of ≢ "") × (subject_identifies d identity cap.on_behalf_of ≡ true)

  abbrev pub InTime : ℕ → String → Type 0
  InTime now valid_until =
      (valid_until ≡ "") ⊎ ((t : ℕ) × (parse_time d valid_until ≡ some t) × (now ≤ t))

  pub record Capable (opts : Options) (cap : Capability) (identity deleg : NormalizedCredential)
      : Type 0 where
    pub identity_valid : InWindow opts.now (temporal_bounds d identity)
    pub delegation_valid : InWindow opts.now (temporal_bounds d deleg)
    pub direct : cap.has_chain ≡ false
    pub root :
        (cap.controller ≡ "") ⊎ (deleg.issuer ≡ "") ⊎ (same_ref cap.controller deleg.issuer ≡ true)
    pub in_time : InTime opts.now cap.valid_until
    pub permitted :
        (opts.requested_action ≡ "")
        ⊎ (cap.allowed_action ≡ [])
        ⊎ (contains_fold d cap.allowed_action opts.requested_action ≡ true)

  -- The status of a credential is known to be good, or, where unknown status may pass, not known.
  abbrev pub Unrevoked : Options → NormalizedCredential → Type 0
  Unrevoked opts c =
      (ref : StatusRef)
      → status_ref d c ≡ some ref
      → ((status : StatusRef → Option Bool) × (opts.status ≡ some status)
          × (status ref ≡ some false))
        ⊎ ((opts.fail_closed ≡ false)
            × ((status : StatusRef → Option Bool) → opts.status ≡ some status → status ref ≡ none))

  check_linkage-none :
      (cap : Capability) (identity : NormalizedCredential)
      → (check_linkage d cap identity ≡ none) ↔ Linked cap identity
  unfolding check_linkage
  check_linkage-none cap identity =
      let blank = eq_iff cap.on_behalf_of "" in
      (
        λ h. ((λ e. absurd (ground (arith, blank))), ground (arith, blank)),
        λ h. ground (arith, h.0, h.1, blank),
      )

  check_window-none :
      (now : ℕ) (c : NormalizedCredential)
      → (check_window d now c ≡ none) ↔ InWindow now (temporal_bounds d c)
  unfolding check_window
  check_window-none now c = (λ h. (ground arith, ground arith), λ h. ground (arith, h.0, h.1))

  check_until-none : (now : ℕ) (s : String) → (check_until d now s ≡ none) ↔ InTime now s
  unfolding check_until
  check_until-none now s = (λ h. ground (arith, eq_iff s ""), λ h. ground (arith, h, eq_iff s ""))

  check_root-none :
      (cap : Capability) (deleg : NormalizedCredential)
      → ((not (cap.controller == "")
            && not (deleg.issuer == "")
            && not (same_ref cap.controller deleg.issuer))
          ≡ false)
        ↔ ((cap.controller ≡ "")
            ⊎ (deleg.issuer ≡ "")
            ⊎ (same_ref cap.controller deleg.issuer ≡ true))
  check_root-none cap deleg =
      let no_controller = eq_iff cap.controller "" in
      let no_issuer = eq_iff deleg.issuer "" in
      (
        λ h. ground (arith, no_controller, no_issuer),
        λ h. ground (arith, h, no_controller, no_issuer),
      )

  check_action-none :
      (opts : Options) (cap : Capability)
      → ((not (opts.requested_action == "")
            && not (is_empty cap.allowed_action)
            && not (contains_fold d cap.allowed_action opts.requested_action))
          ≡ false)
        ↔ ((opts.requested_action ≡ "")
            ⊎ (cap.allowed_action ≡ [])
            ⊎ (contains_fold d cap.allowed_action opts.requested_action ≡ true))
  check_action-none opts cap =
      let none_asked = eq_iff opts.requested_action "" in
      (λ h. ground (arith, none_asked), λ h. ground (arith, h, none_asked))

  check_capability-none :
      (opts : Options) (cap : Capability) (identity deleg : NormalizedCredential)
      → (check_capability d opts cap identity deleg ≡ none) ↔ Capable opts cap identity deleg
  unfolding check_capability
  check_capability-none opts cap identity deleg = (
    λ h. record {
      identity_valid = (check_window-none opts.now identity).0 (ground arith);
      delegation_valid = (check_window-none opts.now deleg).0 (ground arith);
      direct = ground arith;
      root = (check_root-none cap deleg).0 (ground arith);
      in_time = (check_until-none opts.now cap.valid_until).0 (ground arith);
      permitted = (check_action-none opts cap).0 (ground arith);
    },
    λ h.
        rw
          (
            (check_window-none opts.now identity).1 h.identity_valid,
            (check_window-none opts.now deleg).1 h.delegation_valid,
            h.direct,
            (check_root-none cap deleg).1 h.root,
            (check_until-none opts.now cap.valid_until).1 h.in_time,
            (check_action-none opts cap).1 h.permitted,
          )
          refl,
  )

  check_status_of-none :
      (opts : Options) (c : NormalizedCredential)
      → (check_status_of d opts c ≡ none) ↔ Unrevoked opts c
  unfolding check_status_of
  check_status_of-none opts c = (
    λ h ref e. elim (Option-cases opts.status) [
      | inl off ↦ inr (ground (arith, e, off), λ status on. absurd (ground (arith, off, on)))
      | inr (f, on) ↦ elim (Option-cases (f ref)) [
        | inl unknown ↦ inr (
          ground (arith, e, on, unknown),
          λ status also.
              subst (λ g. g ref ≡ none) (some-injective f status (sym on ∙ also)) unknown,
        )
        | inr (b, known) ↦ inl (f, on, ground (arith, e, on, known))
      ]
    ],
    λ h. elim (Option-cases (status_ref d c)) [
      | inl absent ↦ rw (absent, check_status_of) refl
      | inr (ref, e) ↦ elim (h ref e) [
        | inl (f, on, good) ↦ rw (e, check_status_of, on, good) refl
        | inr (lenient, unknown) ↦ elim (Option-cases opts.status) [
          | inl off ↦ rw (e, check_status_of, off, lenient) refl
          | inr (f, on) ↦ rw (e, check_status_of, on, unknown f on, lenient) refl
        ]
      ]
    ],
  )

  pub record Authorised (creds : List NormalizedCredential) (holder : Option HolderBinding)
      (opts : Options) : Type 0 where
    pub delegation_idx : ℕ
    pub delegation : NormalizedCredential
    pub cap : Capability
    pub found : find_delegation d creds ≡ some (delegation_idx, delegation, cap)
    pub subject_idx : ℕ
    pub identity : NormalizedCredential
    pub paired : find_identity creds delegation_idx cap.on_behalf_of ≡ some (subject_idx, identity)
    pub linked : Linked cap identity
    pub invoked : Invoked cap delegation holder
    pub capable : Capable opts cap identity delegation
    pub identity_unrevoked : Unrevoked opts identity
    pub delegation_unrevoked : Unrevoked opts delegation

  module _ (creds : List NormalizedCredential) (holder : Option HolderBinding)
      (opts : Options) where
    Authorised-evaluate :
        (evaluate d creds holder opts).authorized ≡ true → Authorised creds holder opts
    unfolding evaluate check_status
    Authorised-evaluate h = elim (Option-cases (find_delegation d creds)) [
      | inl gone ↦ absurd (ground (arith, gone))
      | inr ((i, deleg, cap), found) ↦
          elim (Option-cases (find_identity creds i cap.on_behalf_of)) [
            | inl alone ↦ absurd (ground (arith, found, alone))
            | inr ((j, identity), paired) ↦ record {
              delegation_idx = i;
              delegation = deleg;
              cap = cap;
              found = found;
              subject_idx = j;
              identity = identity;
              paired = paired;
              linked = (check_linkage-none cap identity).0 (ground (arith, found, paired));
              invoked = (check_invocation-none cap deleg holder).0 (ground (arith, found, paired));
              capable =
                  (check_capability-none opts cap identity deleg).0 (ground (arith, found, paired));
              identity_unrevoked =
                  (check_status_of-none opts identity).0 (ground (arith, found, paired));
              delegation_unrevoked =
                  (check_status_of-none opts deleg).0 (ground (arith, found, paired));
            }
          ]
    ]

    evaluate_of_Authorised :
        Authorised creds holder opts → (evaluate d creds holder opts).authorized ≡ true
    unfolding evaluate check_status
    evaluate_of_Authorised a =
        rw
          (
            a.found,
            evaluate,
            a.paired,
            (check_linkage-none a.cap a.identity).1 a.linked,
            (check_invocation-none a.cap a.delegation holder).1 a.invoked,
            (check_capability-none opts a.cap a.identity a.delegation).1 a.capable,
            (check_status_of-none opts a.identity).1 a.identity_unrevoked,
            (check_status_of-none opts a.delegation).1 a.delegation_unrevoked,
          )
          refl

    -- Evaluate authorises a presentation exactly if a delegation and an identity credential are found
    -- in it, the delegation names that identity, the presenter is not another than the delegate, both
    -- credentials are in their window, the capability is direct, from the issuer, in time and permits
    -- the action, and neither credential is revoked or, failing closed, of unknown status.
    pub evaluate_iff :
        ((evaluate d creds holder opts).authorized ≡ true) ↔ Authorised creds holder opts
    evaluate_iff = (Authorised-evaluate, evaluate_of_Authorised)
