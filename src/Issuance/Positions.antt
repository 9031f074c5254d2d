-- ===== src/Issuance/Positions.antt =====
-- internal/issuance/log.go: the entry of an id by its place in the list, as MarkRevoked and MarkReinstate
-- find and change it.
use mathlib.Core.Option.{some-injective}
use text.Mathlib.Text.{◌==◌}
use verifiably.Prelude.{
  ℕ, zero, suc, ◌≡◌, refl, List, [], ◌∷◌, Option, none, some, String, arith, if◌then◌else◌, set,
  get_elem?, Bool-cases, eq_iff, inl, inr,
}
use verifiably.Issuance.{IssuedCredential, get, locate, with_revoked_at}
use verifiably.Issuance.Append.{Distinct}

module _ (id : String) where
  pub locate-none : (items : List IssuedCredential) → get items id ≡ none → locate items id ≡ none
  unfolding get locate
  locate-none [] h = refl
  locate-none (d ∷ rest) h = ground (arith, locate-none rest)

  pub locate-some :
      (items : List IssuedCredential) (c : IssuedCredential)
      → get items id ≡ some c
      → (i : ℕ) × (locate items id ≡ some (i, c))
        × (get_elem? items i ≡ some c)
        × ((t : Option ℕ) (j : String)
            → get (set items i (with_revoked_at t c)) j
              ≡ (if id == j then some (with_revoked_at t c) else get items j))
  unfolding get locate
  locate-some [] c h = absurd (cc)
  locate-some (d ∷ rest) c h = elim (Bool-cases (d.id == id)) [
    | inl here ↦ (
      zero,
      ground arith,
      ground arith,
      λ t j.
          ground (arith, eq_iff c.id id, eq_iff d.id id, eq_iff c.id j, eq_iff id j, eq_iff d.id j),
    )
    | inr there ↦
        let (i, found, at, spec) = locate-some rest c (ground arith) in
        (
          suc i,
          rw (there, found),
          at,
          λ t j. ground (arith, spec t j, eq_iff d.id id, eq_iff id j, eq_iff d.id j),
        )
  ]

get-set-none :
    (items : List IssuedCredential) (i : ℕ) (c : IssuedCredential) (t : Option ℕ) (j : String)
    → get_elem? items i ≡ some c
    → get items j ≡ none
    → get (set items i (with_revoked_at t c)) j ≡ none
unfolding get
get-set-none [] i c t j at h = refl
get-set-none (d ∷ rest) zero c t j at h = ground arith
get-set-none (d ∷ rest) (suc i) c t j at h = ground (arith, get-set-none rest i c t j)

pub Distinct-set :
    (items : List IssuedCredential) (i : ℕ) (c : IssuedCredential) (t : Option ℕ)
    → get_elem? items i ≡ some c
    → Distinct items
    → Distinct (set items i (with_revoked_at t c))
Distinct-set [] i c t at h = tt
Distinct-set (d ∷ rest) zero c t at h =
    let same : d ≡ c = some-injective d c at in (rw (← same) h.0, h.1)
Distinct-set (d ∷ rest) (suc i) c t at h =
    (get-set-none rest i c t d.id at h.0, Distinct-set rest i c t at h.1)
