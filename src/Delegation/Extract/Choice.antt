-- ===== src/Delegation/Extract/Choice.antt =====
-- Which credentials findDelegation and findIdentity of internal/delegation/extract.go choose.
use text.Mathlib.Text.{◌==◌}
use verifiably.Prelude.{
  ℕ, zero, suc, ◌+◌, ◌≡◌, ◌≢◌, ◌⊎◌, inl, inr, refl, sym, ap, ◌∙◌, Bool, true, false, not, ◌&&◌,
  List, [], ◌∷◌, Option, none, some, String, ◌==◌ as nat_eq, get_elem?, arith, Bool-cases,
}
use verifiably.Delegation.Temporal.{NormalizedCredential}
use verifiably.Delegation.Subject.{same_ref, subject_anchor}
use verifiably.Delegation.Extract.{find_identity_from, find_identity}

-- The anchor of a credential is the named subject.
abbrev pub names : String → NormalizedCredential → Bool
names on_behalf_of c = not (on_behalf_of == "") && same_ref (subject_anchor c) on_behalf_of

module _ (delegation_idx : ℕ) (on_behalf_of : String) where
  abbrev step :
      ℕ
      → Option (ℕ × NormalizedCredential)
      → NormalizedCredential
      → List NormalizedCredential
      → Option (ℕ × NormalizedCredential)
  step at first c rest = find_identity_from at first delegation_idx on_behalf_of (c ∷ rest)

  -- firstIdx after a credential that is not the delegation.
  abbrev kept :
      Option (ℕ × NormalizedCredential)
      → ℕ
      → NormalizedCredential
      → Option (ℕ × NormalizedCredential)
  kept first at c = elim first [ none ↦ some (at, c) | some f ↦ some f ]

  kept-some :
      (first : Option (ℕ × NormalizedCredential)) (at : ℕ) (c : NormalizedCredential)
      → kept first at c ≢ none
  kept-some none at c h = ground arith
  kept-some (some f) at c h = ground arith

  kept-none :
      (first : Option (ℕ × NormalizedCredential)) (at : ℕ) (c : NormalizedCredential)
      → kept first at c ≡ none
      → first ≡ none
  kept-none first at c h = absurd (kept-some first at c h)

  unfold_nil :
      (at : ℕ) (first : Option (ℕ × NormalizedCredential))
      → find_identity_from at first delegation_idx on_behalf_of [] ≡ none
      → first ≡ none
  unfolding find_identity_from
  unfold_nil at first h = h

  module _ (at : ℕ) (first : Option (ℕ × NormalizedCredential)) (c : NormalizedCredential)
      (rest : List NormalizedCredential) where
    skips :
        nat_eq at delegation_idx ≡ true
        → step at first c rest ≡ find_identity_from (suc at) first delegation_idx on_behalf_of rest
    unfolding find_identity_from
    skips h = rw h refl

    hits :
        nat_eq at delegation_idx ≡ false
        → names on_behalf_of c ≡ true
        → step at first c rest ≡ some (at, c)
    unfolding find_identity_from
    hits h named = rw (h, named) refl

    passes :
        nat_eq at delegation_idx ≡ false
        → names on_behalf_of c ≡ false
        → step at first c rest
          ≡ find_identity_from (suc at) (kept first at c) delegation_idx on_behalf_of rest
    unfolding find_identity_from
    passes h unnamed = rw (h, unnamed) refl

  -- The chosen credential is the one kept from before, or stands in the list and is not the
  -- delegation.
  pub Chosen :
      ℕ
      → Option (ℕ × NormalizedCredential)
      → List NormalizedCredential
      → ℕ
      → NormalizedCredential
      → Type 0
  Chosen at first creds j c =
      (first ≡ some (j, c))
      ⊎ ((offset : ℕ) × (j ≡ at + offset)
          × (get_elem? creds offset ≡ some c)
          × (j ≢ delegation_idx))

  find_identity_from-Chosen :
      (at : ℕ) (first : Option (ℕ × NormalizedCredential)) (creds : List NormalizedCredential)
      (j : ℕ) (c : NormalizedCredential)
      → find_identity_from at first delegation_idx on_behalf_of creds ≡ some (j, c)
      → Chosen at first creds j c
  unfolding find_identity_from Chosen
  find_identity_from-Chosen at first [] j c h = inl h
  find_identity_from-Chosen at first (x ∷ rest) j c h =
      elim (Bool-cases (nat_eq at delegation_idx)) [
        | inl skip ↦ elim (find_identity_from-Chosen (suc at) first rest j c (ground arith)) [
          | inl same_first ↦ inl same_first
          | inr (offset, position, there, apart) ↦
              inr (suc offset, position ∙ omega arith, there, apart)
        ]
        | inr other ↦
            let here : at ≢ delegation_idx = ground arith in
            elim (Bool-cases (names on_behalf_of x)) [
              | inl named ↦
                  let same : (at ≡ j) × (x ≡ c) = (ground arith, ground arith) in
                  inr (0, omega (arith, same.0), ap some same.1, ground (arith, same.0))
              | inr unnamed ↦
                  elim first
                      as (λ f.
                        find_identity_from at f delegation_idx on_behalf_of (x ∷ rest) ≡ some (j, c)
                        → Chosen at f (x ∷ rest) j c) [
                          | none ↦ λ h.
                              elim (find_identity_from-Chosen (suc at) (some (at, x)) rest j c
                                (ground arith)) [
                                  | inl same_first ↦
                                      let same : (at ≡ j) × (x ≡ c) =
                                        (ground arith, ground arith) in
                                      inr (
                                        0,
                                        omega (arith, same.0),
                                        ap some same.1,
                                        ground (arith, same.0),
                                      )
                                  | inr (offset, position, there, apart) ↦
                                      inr (suc offset, position ∙ omega arith, there, apart)
                                ]
                          | some f ↦ λ h.
                              elim (find_identity_from-Chosen (suc at) (some f) rest j c
                                (ground arith)) [
                                  | inl same_first ↦ inl same_first
                                  | inr (offset, position, there, apart) ↦
                                      inr (suc offset, position ∙ omega arith, there, apart)
                                ]
                        ]
                    h
            ]
      ]

  -- A credential that may be chosen and names the subject makes the choice one that does.
  find_identity_from-names :
      (at : ℕ) (first : Option (ℕ × NormalizedCredential)) (creds : List NormalizedCredential)
      (k : ℕ) (x : NormalizedCredential) (j : ℕ) (c : NormalizedCredential)
      → get_elem? creds k ≡ some x
      → at + k ≢ delegation_idx
      → names on_behalf_of x ≡ true
      → find_identity_from at first delegation_idx on_behalf_of creds ≡ some (j, c)
      → names on_behalf_of c ≡ true
  unfolding find_identity_from
  find_identity_from-names at first [] k x j c there apart named h = absurd (ground arith)
  find_identity_from-names at first (y ∷ rest) zero x j c there apart named h =
      let same : y ≡ x = ground arith in
      let named_y : names on_behalf_of y ≡ true = ap (names on_behalf_of) same ∙ named in
      let chosen : y ≡ c = ground (arith, named_y) in ap (names on_behalf_of) (sym chosen) ∙ named_y
  find_identity_from-names at first (y ∷ rest) (suc k) x j c there apart named h =
      let further : suc at + k ≢ delegation_idx = λ e. apart (omega (arith, e)) in
      elim (Bool-cases (nat_eq at delegation_idx)) [
        | inl skip ↦
            find_identity_from-names (suc at) first rest k x j c there further named
              (sym (skips at first y rest skip) ∙ h)
        | inr other ↦ elim (Bool-cases (names on_behalf_of y)) [
          | inl named_y ↦
              let chosen : y ≡ c = ground (arith, hits at first y rest other named_y) in
              ap (names on_behalf_of) (sym chosen) ∙ named_y
          | inr unnamed ↦
              find_identity_from-names (suc at) (kept first at y) rest k x j c there further named
                (sym (passes at first y rest other unnamed) ∙ h)
        ]
      ]

  find_identity_from-none :
      (at : ℕ) (first : Option (ℕ × NormalizedCredential)) (creds : List NormalizedCredential)
      → find_identity_from at first delegation_idx on_behalf_of creds ≡ none
      → first ≡ none
  find_identity_from-none at first [] h = unfold_nil at first h
  find_identity_from-none at first (y ∷ rest) h = elim (Bool-cases (nat_eq at delegation_idx)) [
    | inl skip ↦ find_identity_from-none (suc at) first rest (sym (skips at first y rest skip) ∙ h)
    | inr other ↦ elim (Bool-cases (names on_behalf_of y)) [
      | inl named_y ↦ absurd (ground (arith, hits at first y rest other named_y))
      | inr unnamed ↦ kept-none first at y (
          find_identity_from-none (suc at) (kept first at y) rest
            (sym (passes at first y rest other unnamed) ∙ h))
    ]
  ]

  -- Where nothing is chosen, the delegation is the only credential.
  find_identity_from-total :
      (at : ℕ) (first : Option (ℕ × NormalizedCredential)) (creds : List NormalizedCredential)
      (k : ℕ) (x : NormalizedCredential)
      → get_elem? creds k ≡ some x
      → find_identity_from at first delegation_idx on_behalf_of creds ≡ none
      → at + k ≡ delegation_idx
  find_identity_from-total at first [] k x there h = absurd (ground arith)
  find_identity_from-total at first (y ∷ rest) k x there h =
      elim (Bool-cases (nat_eq at delegation_idx)) [
        | inl skip ↦
            elim k as (λ k. get_elem? (y ∷ rest) k ≡ some x → at + k ≡ delegation_idx) [
              | zero ↦ λ there. ground arith
              | suc k' ↦ λ there.
                  let later =
                    find_identity_from-total (suc at) first rest k' x there
                      (sym (skips at first y rest skip) ∙ h) in
                  omega (arith, later)
            ]
              there
        | inr other ↦ elim (Bool-cases (names on_behalf_of y)) [
          | inl named_y ↦ absurd (ground (arith, hits at first y rest other named_y))
          | inr unnamed ↦
              let none_kept =
                find_identity_from-none (suc at) (kept first at y) rest
                  (sym (passes at first y rest other unnamed) ∙ h) in
              absurd (kept-some first at y none_kept)
        ]
      ]

-- findIdentity never gives the delegation itself. It gives a credential whose anchor is the named
-- subject if one of the others has this anchor, and gives none only if there is no other credential.
find_identity-Chosen :
    (creds : List NormalizedCredential) (delegation_idx : ℕ) (on_behalf_of : String)
    → ((j : ℕ) (c : NormalizedCredential)
        → find_identity creds delegation_idx on_behalf_of ≡ some (j, c)
        → (get_elem? creds j ≡ some c)
          × (j ≢ delegation_idx)
          × ((k : ℕ) (x : NormalizedCredential)
              → get_elem? creds k ≡ some x
              → k ≢ delegation_idx
              → names on_behalf_of x ≡ true
              → names on_behalf_of c ≡ true))
      × (find_identity creds delegation_idx on_behalf_of ≡ none
          → (k : ℕ) (x : NormalizedCredential) → get_elem? creds k ≡ some x
          → k ≡ delegation_idx)
unfolding find_identity Chosen
find_identity-Chosen creds delegation_idx on_behalf_of = (
  λ j c h. elim (find_identity_from-Chosen delegation_idx on_behalf_of 0 none creds j c h) [
    | inl same_first ↦ absurd (ground arith)
    | inr (offset, position, there, apart) ↦ (
      ap (get_elem? creds) (position ∙ omega arith) ∙ there,
      apart,
      λ k x at_k other named.
          find_identity_from-names delegation_idx on_behalf_of 0 none creds k x j c at_k
            (λ e. other (omega (arith, e))) named h,
    )
  ],
  λ h k x at_k.
      omega (arith, find_identity_from-total delegation_idx on_behalf_of 0 none creds k x at_k h),
)
