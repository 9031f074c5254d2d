-- ===== src/Delegation/Subject/Anchors.antt =====
-- Which texts name the subject of an identity credential: subjectIdentifiers and subjectIdentifies of
-- internal/delegation/extract.go.
use text.Mathlib.Text.{◌==◌}
use mathlib.Core.Option.{some-injective}
use verifiably.Prelude.{
  ◌≡◌, ◌↔◌, ◌⊎◌, inl, inr, refl, sym, ap, ◌∙◌, Bool, true, not, ◌&&◌, ◌||◌, List, [], ◌∷◌, ◌++◌,
  some, String, any, arith, eq_iff, Option-cases, Bool-cases,
}
use verifiably.Prelude.Dict.{Dict}
use verifiably.Prelude.Texts.{trim_space}
use verifiably.Delegation.Json.{Fields, Decoders, as_map, map_str}
use verifiably.Delegation.Temporal.{NormalizedCredential}
use verifiably.Delegation.Subject.{
  same_ref, claim, add, add_all, is_identifier_field_name, identifier_values, candidates,
  subject_identifiers, subject_identifies,
}

abbrev pub Among : {A : Type 0} → A → List A → Type 0
Among a [] = ⊥
Among a (x ∷ xs) = (a ≡ x) ⊎ Among a xs

any_iff :
    {A : Type 0} (p : A → Bool) (l : List A)
    → (any p l ≡ true) ↔ ((a : A) × Among a l × (p a ≡ true))
any_iff p [] = (λ h. absurd (ground arith), λ (a, within, holds). elim within [ ])
any_iff p (x ∷ xs) = (
  λ h. elim (Bool-cases (p x)) [
    | inl here ↦ (x, inl refl, here)
    | inr other ↦
        let (a, within, holds) : (a : _) × Among a xs × (p a ≡ true) =
          (any_iff p xs).0 (ground arith) in
        (a, inr within, holds)
  ],
  λ (a, within, holds). elim within [
    | inl e ↦ rw (sym (ap p e) ∙ holds) refl
    | inr later ↦ let rest : any p xs ≡ true = (any_iff p xs).1 (a, later, holds) in ground arith
  ],
)

any-append : (p : String → Bool) (xs ys : List String) → any p (xs ++ ys) ≡ (any p xs || any p ys)
any-append p [] ys = refl
any-append p (x ∷ xs) ys = ground (arith, any-append p xs ys)

-- A test that a text in the list passes, the list passes.
any_of_present :
    (p : String → Bool) (w : String) (l : List String)
    → any (λ u. u == w) l ≡ true
    → p w ≡ true
    → any p l ≡ true
any_of_present p w [] h e = absurd (ground arith)
any_of_present p w (x ∷ xs) h e = elim (Bool-cases (x == w)) [
  | inl same ↦ let here : p x ≡ true = ap p ((eq_iff x w).0 same) ∙ e in ground arith
  | inr other ↦ let later : any p xs ≡ true = any_of_present p w xs (ground arith) e in ground arith
]

-- Collecting loses and adds no text that is not blank.
any-add :
    (p : String → Bool) (out : List String) (v : String)
    → any p (add out v) ≡ (any p out || (not (trim_space v == "") && p (trim_space v)))
unfolding add
any-add p out v = elim (Bool-cases (any (λ u. u == trim_space v) out)) [
  | inl present ↦ elim (Bool-cases (p (trim_space v))) [
    | inl yes' ↦ ground (arith, any_of_present p (trim_space v) out present yes')
    | inr no' ↦ ground arith
  ]
  | inr absent ↦ ground (arith, any-append p out (trim_space v ∷ []))
]

any-add_all :
    (p : String → Bool) (out vs : List String)
    → any p (add_all out vs)
      ≡ (any p out || any (λ v. not (trim_space v == "") && p (trim_space v)) vs)
unfolding add_all
any-add_all p out [] = ground arith
any-add_all p out (v ∷ vs) = ground (arith, any-add_all p (add out v) vs, any-add p out v)

module _ (d : Decoders) (c : NormalizedCredential) where
  -- The texts that a credential offers as names of its subject.
  abbrev pub Own : String → Type 0
  Own v =
      (v ≡ map_str c.raw "subjectRef")
      ⊎ (v ≡ claim c "subjectRef")
      ⊎ (v ≡ c.subject_id)
      ⊎ ((k : String) × Among (k, v) c.claims × (is_identifier_field_name d k ≡ true))

  abbrev pub Anchor : String → Type 0
  Anchor v =
      ((cs : Fields) × (as_map c.raw "credentialSubject" ≡ some cs) × (v ≡ map_str cs "subjectRef"))
      ⊎ Own v

  identifier_values_iff :
      (claims : Dict String) (v : String)
      → Among v (identifier_values d claims)
        ↔ ((k : String) × Among (k, v) claims × (is_identifier_field_name d k ≡ true))
  unfolding identifier_values
  identifier_values_iff [] v = (λ h. elim h [ ], λ (k, within, named). elim within [ ])
  identifier_values_iff ((k, w) ∷ rest) v =
      let (into, back) : Among v (identifier_values d rest)
          ↔ ((k : String) × Among (k, v) rest × (is_identifier_field_name d k ≡ true)) =
        identifier_values_iff rest v in
      elim (Bool-cases (is_identifier_field_name d k)) [
        | inl named ↦
            rw (named, identifier_values)
              (
                λ h. elim h [
                  | inl here ↦ (k, inl (ap (λ t. (k, t)) here), named)
                  | inr later ↦ let (k', within, named') = into later in (k', inr within, named')
                ],
                λ (k', within, named'). elim within [
                  | inl here ↦ inl (ap (λ (pair : String × String). pair.1) here)
                  | inr later ↦ inr (back (k', later, named'))
                ],
              )
        | inr plain ↦
            rw (plain, identifier_values)
              (
                λ h. let (k', within, named') = into h in (k', inr within, named'),
                λ (k', within, named'). elim within [
                  | inl here ↦
                      absurd (
                        ground (arith, plain, named', ap (λ (pair : String × String). pair.0) here))
                  | inr later ↦ back (k', later, named')
                ],
              )
      ]

  -- The candidates beside the subjectRef of credentialSubject.
  abbrev own : List String
  own =
      map_str c.raw "subjectRef"
      ∷ claim c "subjectRef"
      ∷ c.subject_id
      ∷ identifier_values d c.claims

  own_iff : (v : String) → Among v own ↔ Own v
  own_iff v = (
    λ h. elim h [
      | inl e ↦ inl e
      | inr h1 ↦ elim h1 [
        | inl e ↦ inr (inl e)
        | inr h2 ↦ elim h2 [
          | inl e ↦ inr (inr (inl e))
          | inr h3 ↦ inr (inr (inr ((identifier_values_iff c.claims v).0 h3)))
        ]
      ]
    ],
    λ h. elim h [
      | inl e ↦ inl e
      | inr h1 ↦ elim h1 [
        | inl e ↦ inr (inl e)
        | inr h2 ↦ elim h2 [
          | inl e ↦ inr (inr (inl e))
          | inr h3 ↦ inr (inr (inr ((identifier_values_iff c.claims v).1 h3)))
        ]
      ]
    ],
  )

  candidates_iff : (v : String) → Among v (candidates d c) ↔ Anchor v
  unfolding candidates
  candidates_iff v = elim (Option-cases (as_map c.raw "credentialSubject")) [
    | inl absent ↦
        rw (absent, candidates)
          (
            λ h. inr ((own_iff v).0 h),
            λ h. elim h [ inl (cs, present, e) ↦ absurd (ground arith) | inr o ↦ (own_iff v).1 o ],
          )
    | inr (cs, present) ↦
        rw (present, candidates)
          (
            λ h. elim h [ inl e ↦ inl (cs, refl, e) | inr o ↦ inr ((own_iff v).0 o) ],
            λ h. elim h [
              | inl (cs', present', e) ↦
                  inl (e ∙ ap (λ m. map_str m "subjectRef") (some-injective cs' cs (sym present')))
              | inr o ↦ inr ((own_iff v).1 o)
            ],
          )
  ]

  -- A text names the subject of a credential exactly if it is, but for white space around it, one
  -- of its subjectRef values, its subject's id or the value of a claim whose name is an identifier's,
  -- and not blank.
  pub subject_identifies_iff :
      (on_behalf_of : String)
      → (subject_identifies d c on_behalf_of ≡ true)
        ↔ ((v : String) × Anchor v × (same_ref (trim_space v) on_behalf_of ≡ true))
  unfolding subject_identifies subject_identifiers
  subject_identifies_iff on_behalf_of = (
    λ h.
        let (v, within, named) =
          (any_iff (λ v. not (trim_space v == "") && same_ref (trim_space v) on_behalf_of)
              (candidates d c)).0
            (ground (arith, h, any-add_all (λ id. same_ref id on_behalf_of) [] (candidates d c))) in
        (v, (candidates_iff v).0 within, ground (arith, named)),
    λ (v, anchor, named).
        let found =
          (any_iff (λ v. not (trim_space v == "") && same_ref (trim_space v) on_behalf_of)
              (candidates d c)).1
            (v, (candidates_iff v).1 anchor, ground (arith, named)) in
        ground (arith, found, any-add_all (λ id. same_ref id on_behalf_of) [] (candidates d c)),
  )
