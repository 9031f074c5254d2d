-- ===== src/Roles/Laws.antt =====
-- Which roles internal/roles/roles.go makes active.
use text.Mathlib.Text.{◌==◌}
use verifiably.Prelude.{
  ◌≡◌, ◌≢◌, ◌↔◌, ◌⊎◌, inl, inr, refl, sym, subst, ◌∙◌, true, List, [], ◌∷◌, String, arith, eq_iff,
  Bool-cases,
}
use verifiably.Prelude.Texts.{trim_space, split}
use verifiably.Roles.{holds, insert, parsed, parse, has}

holds-insert :
    (set : List String) (role other : String)
    → (holds (insert set role) other ≡ true) ↔ ((holds set other ≡ true) ⊎ (role ≡ other))
unfolding insert holds
holds-insert set role other = elim (Bool-cases (holds set role)) [
  | inl there ↦ (
    λ h. inl (ground (arith, there, h)),
    λ h. elim h [
      | inl old ↦ ground (arith, there, old)
      | inr e ↦ rw (there, insert) (subst (λ r. holds set r ≡ true) e there)
    ],
  )
  | inr new ↦ (
    λ h. ground (arith, new, h, eq_iff role other),
    λ h. ground (arith, new, h, eq_iff role other),
  )
]

module _ (to_lower : String → String) where
  -- Some piece, trimmed and in lower case, is the role; a role is never blank.
  abbrev pub Named : String → List String → Type 0
  Named role [] = ⊥
  Named role (piece ∷ pieces) =
      ((to_lower (trim_space piece) ≡ role) × (role ≢ "")) ⊎ Named role pieces

  holds-parsed :
      (pieces set : List String) (role : String)
      → (holds (parsed to_lower set pieces) role ≡ true)
        ↔ ((holds set role ≡ true) ⊎ Named role pieces)
  unfolding parsed
  holds-parsed [] set role = (λ h. inl h, λ h. elim h [ inl old ↦ old | inr e ↦ elim e [ ] ])
  holds-parsed (piece ∷ pieces) set role =
      let r : String = to_lower (trim_space piece) in
      elim (Bool-cases (r == "")) [
        | inl blank ↦
            let rest = holds-parsed pieces set role in
            rw (blank, parsed)
              (
                λ h. elim (rest.0 h) [ inl old ↦ inl old | inr named ↦ inr (inr named) ],
                λ h. rest.1 (elim h [
                  | inl old ↦ inl old
                  | inr (inr named) ↦ inr named
                  | inr (inl (e, full)) ↦ absurd (full (sym e ∙ (eq_iff r "").0 blank))
                ]),
              )
        | inr full ↦
            let rest = holds-parsed pieces (insert set r) role in
            let one = holds-insert set r role in
            rw (full, parsed)
              (
                λ h. elim (rest.0 h) [
                  | inr named ↦ inr (inr named)
                  | inl here ↦ elim (one.0 here) [
                    | inl old ↦ inl old
                    | inr e ↦ inr (inl (e, λ b. absurd (ground (arith, full, eq_iff r "", e, b))))
                  ]
                ],
                λ h. rest.1 (elim h [
                  | inl old ↦ inl (one.1 (inl old))
                  | inr (inr named) ↦ inr named
                  | inr (inl (e, known)) ↦ inl (one.1 (inr e))
                ]),
              )
      ]

  Named-of_holds :
      (role : String) (pieces : List String)
      → holds (parsed to_lower [] pieces) role ≡ true
      → Named role pieces
  unfolding holds
  Named-of_holds role pieces h = elim ((holds-parsed pieces [] role).0 h) [
    | inl e ↦ absurd (ground (arith, e))
    | inr named ↦ named
  ]

  -- A role is active exactly if the variable is blank, or the role is one of the pieces between commas,
  -- or one of them is the hub, which brings trust and schemas.
  has-parse :
      (s role : String)
      → (has (parse to_lower s) role ≡ true) ↔ (
          (trim_space s ≡ "")
          ⊎ Named role (split b',' (trim_space s))
          ⊎ (Named "hub" (split b',' (trim_space s)) × ((role ≡ "trust") ⊎ (role ≡ "schemas"))))
  unfolding has parse
  has-parse s role =
      let pieces : List String = split b',' (trim_space s) in
      let set : List String = parsed to_lower [] pieces in
      let own = holds-parsed pieces [] role in
      let hub = holds-parsed pieces [] "hub" in
      let trust = holds-insert set "trust" role in
      let schemas = holds-insert (insert set "trust") "schemas" role in
      elim (Bool-cases (trim_space s == "")) [
        | inl blank ↦
            (λ h. inl ((eq_iff (trim_space s) "").0 blank), λ h. rw (blank, parse, has) refl)
        | inr full ↦ elim (Bool-cases (holds set "hub")) [
          | inr no_hub ↦ (
            λ h. inr (inl (Named-of_holds role pieces (ground (arith, full, no_hub, h)))),
            λ h. elim h [
              | inl blank ↦ absurd (ground (arith, full, blank, eq_iff (trim_space s) ""))
              | inr (inl named) ↦ rw (full, parse, no_hub, has) (own.1 (inr named))
              | inr (inr (named, which)) ↦ absurd (ground (arith, no_hub, hub.1 (inr named)))
            ],
          )
          | inl is_hub ↦ (
            λ h. elim (schemas.0 (ground (arith, full, is_hub, h))) [
              | inr e ↦ inr (inr (Named-of_holds "hub" pieces is_hub, inr (sym e)))
              | inl k ↦ elim (trust.0 k) [
                | inr e ↦ inr (inr (Named-of_holds "hub" pieces is_hub, inl (sym e)))
                | inl old ↦ inr (inl (Named-of_holds role pieces old))
              ]
            ],
            λ h. elim h [
              | inl blank ↦ absurd (ground (arith, full, blank, eq_iff (trim_space s) ""))
              | inr (inl named) ↦
                  rw (full, parse, is_hub, has)
                    (schemas.1 (inl (trust.1 (inl (own.1 (inr named))))))
              | inr (inr (named, inl t)) ↦
                  rw (full, parse, is_hub, has) (schemas.1 (inl (trust.1 (inr (sym t)))))
              | inr (inr (named, inr t)) ↦ rw (full, parse, is_hub, has) (schemas.1 (inr (sym t)))
            ],
          )
        ]
      ]
