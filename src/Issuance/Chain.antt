-- ===== src/Issuance/Chain.antt =====
-- The hash chain of internal/issuance/log.go: what keeps every link intact.
use mathlib.Core.Option.{some-injective}
use text.Mathlib.TextPositions.{eq_refl}
use verifiably.Prelude.{
  ℕ, zero, suc, ◌≡◌, refl, List, [], ◌∷◌, ◌++◌, Option, some, String, arith, set, get_elem?,
}
use verifiably.Issuance.{
  IssuedCredential, chain_hash_of, linked, verify_from, verify_chain, with_revoked_at,
}

module _ (sha256_hex : String → String) (rfc3339_nano : ℕ → String) where
  verify_from-append :
      (prev c : IssuedCredential) (i : ℕ) (rest : List IssuedCredential)
      → verify_from sha256_hex rfc3339_nano prev i rest ≡ []
      → verify_from sha256_hex rfc3339_nano prev i
          (rest ++ linked sha256_hex rfc3339_nano (prev ∷ rest) c ∷ [])
        ≡ []
  unfolding verify_from linked
  verify_from-append prev c i [] h =
      ground (arith, eq_refl (chain_hash_of sha256_hex rfc3339_nano prev))
  verify_from-append prev c i (d ∷ rest) h = ground (arith, verify_from-append d c (suc i) rest)

  -- Appending a linked entry keeps the chain intact.
  pub verify_chain-append :
      (c : IssuedCredential) (items : List IssuedCredential)
      → verify_chain sha256_hex rfc3339_nano items ≡ []
      → verify_chain sha256_hex rfc3339_nano (items ++ linked sha256_hex rfc3339_nano items c ∷ [])
        ≡ []
  unfolding verify_chain verify_from
  verify_chain-append c [] h = refl
  verify_chain-append c (d ∷ rest) h = verify_from-append d c 1 rest h

  hash-with_revoked_at :
      (t : Option ℕ) (c : IssuedCredential)
      → chain_hash_of sha256_hex rfc3339_nano (with_revoked_at t c)
        ≡ chain_hash_of sha256_hex rfc3339_nano c
  unfolding chain_hash_of
  hash-with_revoked_at t c = refl

  verify_from-prev :
      (t : Option ℕ) (prev : IssuedCredential) (i : ℕ) (rest : List IssuedCredential)
      → verify_from sha256_hex rfc3339_nano (with_revoked_at t prev) i rest
        ≡ verify_from sha256_hex rfc3339_nano prev i rest
  unfolding verify_from
  verify_from-prev t prev i [] = refl
  verify_from-prev t prev i (d ∷ rest) = rw (hash-with_revoked_at t prev)

  verify_from-set :
      (prev c : IssuedCredential) (t : Option ℕ) (i k : ℕ) (rest : List IssuedCredential)
      → get_elem? rest k ≡ some c
      → verify_from sha256_hex rfc3339_nano prev i (set rest k (with_revoked_at t c))
        ≡ verify_from sha256_hex rfc3339_nano prev i rest
  unfolding verify_from
  verify_from-set prev c t i k [] h = refl
  verify_from-set prev c t i zero (d ∷ rest) h =
      rw (← some-injective d c h) (rw (verify_from-prev t d (suc i) rest))
  verify_from-set prev c t i (suc k) (d ∷ rest) h = rw (verify_from-set d c t (suc i) k rest h)

  -- The revocation time of an entry is no part of the chain: setting it changes no link.
  pub verify_chain-set :
      (c : IssuedCredential) (t : Option ℕ) (k : ℕ) (items : List IssuedCredential)
      → get_elem? items k ≡ some c
      → verify_chain sha256_hex rfc3339_nano (set items k (with_revoked_at t c))
        ≡ verify_chain sha256_hex rfc3339_nano items
  unfolding verify_chain
  verify_chain-set c t k [] h = refl
  verify_chain-set c t zero (d ∷ rest) h = rw (← some-injective d c h) (verify_from-prev t d 1 rest)
  verify_chain-set c t (suc k) (d ∷ rest) h = verify_from-set d c t 1 k rest h
