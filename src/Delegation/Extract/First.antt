-- ===== src/Delegation/Extract/First.antt =====
-- Which credential findDelegation of internal/delegation/extract.go chooses.
use verifiably.Prelude.{
  ℕ, zero, suc, ◌+◌, ◌<◌, ◌≡◌, inl, inr, ◌∙◌, List, [], ◌∷◌, none, some, get_elem?, arith,
  Option-cases,
}
use verifiably.Delegation.Json.{Decoders}
use verifiably.Delegation.Temporal.{NormalizedCredential}
use verifiably.Delegation.Extract.{
  Capability, extract_capability, find_delegation_from, find_delegation,
}

module _ (d : Decoders) where
  abbrev NoneBefore : List NormalizedCredential → ℕ → Type 0
  NoneBefore creds n =
      (j : ℕ) (other : NormalizedCredential)
      → j < n
      → get_elem? creds j ≡ some other
      → extract_capability d other ≡ none

  NoneBefore-cons :
      (x : NormalizedCredential) (rest : List NormalizedCredential) (n : ℕ)
      → extract_capability d x ≡ none
      → NoneBefore rest n
      → NoneBefore (x ∷ rest) (suc n)
  NoneBefore-cons x rest n plain h zero other before e = ground (arith, plain)
  NoneBefore-cons x rest n plain h (suc j) other before e = h j other (omega arith) e

  -- The credential at position i - at is the first with a capability.
  pub record FirstDelegation (at : ℕ) (creds : List NormalizedCredential) (i : ℕ)
      (c : NormalizedCredential) (cap : Capability) : Type 0 where
    pub offset : ℕ
    pub position : i ≡ at + offset
    pub here : get_elem? creds offset ≡ some c
    pub carries : extract_capability d c ≡ some cap
    pub none_before :
        (j : ℕ) (other : NormalizedCredential)
        → j < offset
        → get_elem? creds j ≡ some other
        → extract_capability d other ≡ none

  find_delegation_from-First :
      (at : ℕ) (creds : List NormalizedCredential) (i : ℕ) (c : NormalizedCredential)
      (cap : Capability)
      → find_delegation_from d at creds ≡ some (i, c, cap)
      → FirstDelegation at creds i c cap
  unfolding find_delegation_from
  find_delegation_from-First at [] i c cap h = absurd (ground arith)
  find_delegation_from-First at (x ∷ rest) i c cap h =
      elim (Option-cases (extract_capability d x)) [
        | inl plain ↦
            let later = find_delegation_from-First (suc at) rest i c cap (ground arith) in
            record {
              offset = suc later.offset;
              position = later.position ∙ omega arith;
              here = later.here;
              carries = later.carries;
              none_before = NoneBefore-cons x rest later.offset plain later.none_before;
            }
        | inr (found, e) ↦ record {
          offset = 0;
          position = ground (arith, e);
          here = ground (arith, e);
          carries = ground (arith, e);
          none_before = λ j other before. absurd (omega arith);
        }
      ]

  -- Every credential lacks a capability, if none is found.
  find_delegation_from-none :
      (at : ℕ) (creds : List NormalizedCredential) (j : ℕ) (other : NormalizedCredential)
      → find_delegation_from d at creds ≡ none
      → get_elem? creds j ≡ some other
      → extract_capability d other ≡ none
  unfolding find_delegation_from
  find_delegation_from-none at [] j other h e = absurd (ground arith)
  find_delegation_from-none at (x ∷ rest) zero other h e = ground arith
  find_delegation_from-none at (x ∷ rest) (suc j) other h e =
      find_delegation_from-none (suc at) rest j other (ground arith) e

  -- findDelegation gives the first credential that carries a capability, and none only if no
  -- credential carries one.
  pub find_delegation-First :
      (creds : List NormalizedCredential)
      → ((i : ℕ) (c : NormalizedCredential) (cap : Capability)
          → find_delegation d creds ≡ some (i, c, cap)
          → FirstDelegation 0 creds i c cap)
        × (find_delegation d creds ≡ none
            → (j : ℕ) (other : NormalizedCredential) → get_elem? creds j ≡ some other
            → extract_capability d other ≡ none)
  unfolding find_delegation
  find_delegation-First creds = (
    λ i c cap h. find_delegation_from-First 0 creds i c cap h,
    λ h j other e. find_delegation_from-none 0 creds j other h e,
  )
