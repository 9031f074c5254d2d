-- ===== src/Eligibility/Laws.antt =====
-- When internal/handlers/identity_prefill.go resolves a field, and when eligibility.go reports a credential as
-- available.
use mathlib.Core.Option.{some-injective}
use text.Mathlib.Text.{◌==◌}
use verifiably.Prelude.{
  ℕ, zero, suc, ◌≡◌, ◌≢◌, ◌↔◌, ◌⊎◌, inl, inr, refl, sym, subst, ◌∙◌, true, List, [], ◌∷◌, none,
  some, String, if◌then◌else◌, arith, eq_iff, All, get_elem?, Option-cases, Bool-cases,
}
use verifiably.Prelude.Dict.{Dict, find, put, find-put}
use verifiably.Eligibility.{
  CredentialConfig, EligibilityResult, first_present, norm_identity_key, index_claims,
  normalize_claims, aliases_of, resolve_claim, fill_fields, identity_prefill, missing_of, is_nil,
  eligibility_of, judge_configs, evaluate_eligibility,
}

abbrev pub Among : String → List String → Type 0
Among x [] = ⊥
Among x (y ∷ ys) = (x ≡ y) ⊎ Among x ys

module _ (to_lower : String → String) where
  -- Some claim with a value has the key, once both are normalised.
  abbrev pub Held : String → Dict String → Type 0
  Held key [] = ⊥
  Held key ((k, v) ∷ rest) = ((v ≢ "") × (norm_identity_key to_lower k ≡ key)) ⊎ Held key rest

  abbrev pub Present : String → Dict String → Type 0
  Present key m = (v : String) × (find m key ≡ some v)

  Present-put :
      (m : Dict String) (key other v : String) → Present other m → Present other (put m key v)
  Present-put m key other v (w, e) = elim (Bool-cases (key == other)) [
    | inl same ↦ (v, ground (arith, find-put m key other v, same))
    | inr differs ↦ (w, ground (arith, find-put m key other v, differs, e))
  ]

  abbrev Adds : String → String → String → Type 0
  Adds k v key = (v ≢ "") × (norm_identity_key to_lower k ≡ key)

  -- What one claim adds to the index.
  Present-indexed :
      (m : Dict String) (k v key : String)
      → Present key (if v == "" then m else put m (norm_identity_key to_lower k) v)
        ↔ (Present key m ⊎ Adds k v key)
  Present-indexed m k v key = elim (Bool-cases (v == "")) [
    | inl blank ↦ (
      λ p. inl (
          subst (λ b. Present key (if b then m else put m (norm_identity_key to_lower k) v)) blank
            p),
      λ h.
          subst (λ b. Present key (if b then m else put m (norm_identity_key to_lower k) v))
            (sym blank)
            (elim h [ inl p ↦ p | inr (named, e) ↦ absurd (named ((eq_iff v "").0 blank)) ]),
    )
    | inr named ↦
        let put_at = find-put m (norm_identity_key to_lower k) key v in
        (
          λ p. elim (Bool-cases (norm_identity_key to_lower k == key)) [
            | inl same ↦ inr (
              (λ e. absurd (ground (arith, named, eq_iff v "", e))),
              (eq_iff (norm_identity_key to_lower k) key).0 same,
            )
            | inr differs ↦ inl (p.0, ground (arith, put_at, differs, named, p.1))
          ],
          λ h.
              subst (λ b. Present key (if b then m else put m (norm_identity_key to_lower k) v))
                (sym named)
                (elim h [
                  | inl p ↦ Present-put m (norm_identity_key to_lower k) key v p
                  | inr (full, e) ↦
                      (v, ground (arith, put_at, eq_iff (norm_identity_key to_lower k) key, e))
                ]),
        )
  ]

  Present-index_claims :
      (claims m : Dict String) (key : String)
      → Present key (index_claims to_lower m claims) ↔ (Present key m ⊎ Held key claims)
  unfolding index_claims
  Present-index_claims [] m key = (λ p. inl p, λ h. elim h [ inl p ↦ p | inr e ↦ elim e [ ] ])
  Present-index_claims ((k, v) ∷ rest) m key =
      let step = Present-indexed m k v key in
      let later =
        Present-index_claims rest (if v == "" then m else put m (norm_identity_key to_lower k) v)
          key in
      (
        λ p. elim (later.0 p) [
          | inr held ↦ inr (inr held)
          | inl q ↦ elim (step.0 q) [ inl old ↦ inl old | inr adds ↦ inr (inl adds) ]
        ],
        λ h. later.1 (elim h [
          | inl old ↦ inl (step.1 (inl old))
          | inr (inl adds) ↦ inl (step.1 (inr adds))
          | inr (inr held) ↦ inr held
        ]),
      )

  first_present_iff :
      (keys : List String) (m : Dict String)
      → ((v : String) × (first_present keys m ≡ some v))
        ↔ ((key : String) × Among key keys × Present key m)
  unfolding first_present
  first_present_iff [] m = (λ p. absurd (ground (arith, p.1)), λ h. elim h.1 [ ])
  first_present_iff (k ∷ ks) m = elim (Option-cases (find m k)) [
    | inr (w, e) ↦ (λ p. (k, inl refl, (w, e)), λ h. (w, ground (arith, e)))
    | inl miss ↦
        let rest = first_present_iff ks m in
        (
          λ (v, e).
              let (key, among, present) = rest.0 (v, ground (arith, miss, e)) in
              (key, inr among, present),
          λ (key, among, present). elim among [
            | inl same ↦ absurd (ground (arith, miss, same, present.1))
            | inr later ↦ let (v, e) = rest.1 (key, later, present) in (v, ground (arith, miss, e))
          ],
        )
  ]

  -- The claims have a value for the field, under its own name or under one of its aliases.
  abbrev pub Resolvable : Dict String → String → Type 0
  Resolvable claims field =
      Held (norm_identity_key to_lower field) claims
      ⊎ ((key : String) × Among key (aliases_of (norm_identity_key to_lower field))
          × Held key claims)

  Held-normalize_claims :
      (claims : Dict String) (key : String)
      → Present key (normalize_claims to_lower claims) ↔ Held key claims
  unfolding normalize_claims find
  Held-normalize_claims claims key =
      let all = Present-index_claims claims [] key in
      (
        λ p. elim (all.0 p) [
          | inl none_yet ↦ absurd (ground (arith, none_yet.1))
          | inr held ↦ held
        ],
        λ held. all.1 (inr held),
      )

  -- A field is resolved from a citizen's claims exactly if some claim with a value has the field's own name
  -- or one of its aliases, all once they are normalised.
  pub resolve_claim_iff :
      (claims : Dict String) (field : String)
      → ((v : String) × (resolve_claim to_lower field (normalize_claims to_lower claims) ≡ some v))
        ↔ Resolvable claims field
  unfolding resolve_claim
  resolve_claim_iff claims field =
      let nf : String = norm_identity_key to_lower field in
      let m : Dict String = normalize_claims to_lower claims in
      let own = Held-normalize_claims claims nf in
      let others = first_present_iff (aliases_of nf) m in
      elim (Option-cases (find m nf)) [
        | inr (w, e) ↦ (λ p. inl (own.0 (w, e)), λ h. (w, ground (arith, e)))
        | inl miss ↦ (
          λ (v, e).
              let (key, among, present) = others.0 (v, ground (arith, miss, e)) in
              inr (key, among, (Held-normalize_claims claims key).0 present),
          λ h. elim h [
            | inl held ↦ absurd (ground (arith, miss, (own.1 held).1))
            | inr (key, among, held) ↦
                let (v, e) = others.1 (key, among, (Held-normalize_claims claims key).1 held) in
                (v, ground (arith, miss, e))
          ],
        )
      ]

  module _ (by_norm : Dict String) where
    abbrev Resolves : String → Type 0
    Resolves f = (v : String) × (resolve_claim to_lower f by_norm ≡ some v)

    fill_fields-keeps :
        (fs : List String) (out : Dict String) (f v : String)
        → resolve_claim to_lower f by_norm ≡ some v
        → find out f ≡ some v
        → find (fill_fields to_lower by_norm out fs) f ≡ some v
    unfolding fill_fields
    fill_fields-keeps [] out f v r e = e
    fill_fields-keeps (g ∷ gs) out f v r e =
        elim (Option-cases (resolve_claim to_lower g by_norm)) [
          | inl unknown ↦ rw (unknown, fill_fields) (fill_fields-keeps gs out f v r e)
          | inr (w, known) ↦
              rw (known, fill_fields)
                (fill_fields-keeps gs (put out g w) f v r
                  (ground (arith, find-put out g f w, eq_iff g f, r, known, e)))
        ]

    fill_fields-resolved :
        (fs : List String) (out : Dict String) (f v : String)
        → Among f fs
        → resolve_claim to_lower f by_norm ≡ some v
        → find (fill_fields to_lower by_norm out fs) f ≡ some v
    unfolding fill_fields
    fill_fields-resolved [] out f v among r = elim among [ ]
    fill_fields-resolved (g ∷ gs) out f v (inr later) r = fill_fields-resolved gs _ f v later r
    fill_fields-resolved (g ∷ gs) out f v (inl here) r =
        rw (subst (λ x. resolve_claim to_lower x by_norm ≡ some v) here r, fill_fields)
          (fill_fields-keeps gs (put out g v) f v r
            (ground (arith, find-put out g f v, eq_iff g f, here)))

    fill_fields-unknown :
        (fs : List String) (out : Dict String) (f : String)
        → resolve_claim to_lower f by_norm ≡ none
        → find out f ≡ none
        → find (fill_fields to_lower by_norm out fs) f ≡ none
    unfolding fill_fields
    fill_fields-unknown [] out f r e = e
    fill_fields-unknown (g ∷ gs) out f r e =
        elim (Option-cases (resolve_claim to_lower g by_norm)) [
          | inl unknown ↦ rw (unknown, fill_fields) (fill_fields-unknown gs out f r e)
          | inr (w, known) ↦
              rw (known, fill_fields)
                (fill_fields-unknown gs (put out g w) f r
                  (ground (arith, find-put out g f w, eq_iff g f, r, known, e)))
        ]

    missing_of-nil :
        (names : List String)
        → (is_nil (missing_of to_lower by_norm names) ≡ true) ↔ All Resolves names
    unfolding missing_of
    missing_of-nil [] = (λ h. tt, λ h. refl)
    missing_of-nil (n ∷ ns) =
        let rest = missing_of-nil ns in
        elim (Option-cases (resolve_claim to_lower n by_norm)) [
          | inl unknown ↦ (
            λ h. absurd (ground (arith, unknown, h)),
            λ h. absurd (ground (arith, unknown, h.0.1)),
          )
          | inr (v, known) ↦ (
            λ h. ((v, known), rest.0 (ground (arith, known, h))),
            λ h. ground (arith, known, rest.1 h.1),
          )
        ]

  -- The fields that identityPrefill fills, of some of them.
  abbrev pub AllFilled : List String → Dict String → List String → Type 0
  AllFilled fields claims = All (λ f. Present f (identity_prefill to_lower fields claims))

  find-identity_prefill :
      (fields : List String) (claims : Dict String) (f : String)
      → Among f fields
      → find (identity_prefill to_lower fields claims) f
        ≡ resolve_claim to_lower f (normalize_claims to_lower claims)
  unfolding identity_prefill find
  find-identity_prefill fields claims f among =
      elim (Option-cases (resolve_claim to_lower f (normalize_claims to_lower claims))) [
        | inr (v, known) ↦
            fill_fields-resolved (normalize_claims to_lower claims) fields [] f v among known
            ∙ sym known
        | inl unknown ↦
            fill_fields-unknown (normalize_claims to_lower claims) fields [] f unknown refl
            ∙ sym unknown
      ]

  AllFilled-Resolves :
      (fields : List String) (claims : Dict String) (some_of : List String)
      → ((f : String) → Among f some_of → Among f fields)
      → AllFilled fields claims some_of ↔ All (Resolves (normalize_claims to_lower claims)) some_of
  AllFilled-Resolves fields claims [] within = (λ h. tt, λ h. tt)
  AllFilled-Resolves fields claims (f ∷ fs) within =
      let same = find-identity_prefill fields claims f (within f (inl refl)) in
      let rest = AllFilled-Resolves fields claims fs (λ g among. within g (inr among)) in
      (λ h. ((h.0.0, sym same ∙ h.0.1), rest.0 h.1), λ h. ((h.0.0, same ∙ h.0.1), rest.1 h.1))

  -- The verdict on one configuration.
  abbrev pub Judged : Dict String → CredentialConfig → EligibilityResult → Type 0
  Judged claims c r =
      (r.id ≡ c.id)
      × ((r.available ≡ true) ↔ ((c.claims ≢ []) × AllFilled c.claims claims c.claims))

  eligibility_of-Judged :
      (claims : Dict String) (c : CredentialConfig)
      → Judged claims c (eligibility_of to_lower (normalize_claims to_lower claims) c)
  unfolding eligibility_of
  eligibility_of-Judged claims c =
      let by_norm : Dict String = normalize_claims to_lower claims in
      let missing = missing_of-nil by_norm c.claims in
      let filled = AllFilled-Resolves c.claims claims c.claims (λ f among. among) in
      (
        refl,
        (
          λ h. ((λ e. absurd (ground (arith, h, e))), filled.1 (missing.0 (ground (arith, h)))),
          λ h. ground (arith, h.0, missing.1 (filled.0 h.1)),
        ),
      )

  -- For each configuration, in order, evaluateEligibility reports it as available exactly if it has a claim
  -- and identityPrefill, asked for its claims, fills every one of them from the citizen's claims.
  pub evaluate_eligibility-Judged :
      (configs : List CredentialConfig) (claims : Dict String) (i : ℕ) (c : CredentialConfig)
      → get_elem? configs i ≡ some c
      → (r : EligibilityResult) × (get_elem? (evaluate_eligibility to_lower configs claims) i
          ≡ some r)
        × Judged claims c r
  unfolding evaluate_eligibility judge_configs
  evaluate_eligibility-Judged [] claims i c at = absurd (ground (arith, at))
  evaluate_eligibility-Judged (x ∷ xs) claims zero c at =
      subst
        (λ c'.
          (r : EligibilityResult) × (get_elem? (evaluate_eligibility to_lower (x ∷ xs) claims) 0
            ≡ some r)
          × Judged claims c' r)
        (some-injective x c at)
        (
          eligibility_of to_lower (normalize_claims to_lower claims) x,
          refl,
          eligibility_of-Judged claims x,
        )
  evaluate_eligibility-Judged (x ∷ xs) claims (suc i) c at =
      evaluate_eligibility-Judged xs claims i c at
