-- ===== src/Issuance/Append.antt =====
-- Append of internal/issuance/log.go: the invariant of the log, and what an append changes.
use text.Mathlib.Text.{◌==◌}
use verifiably.Prelude.{
  ℕ, ◌≡◌, refl, ap, ◌∙◌, Bool, true, false, List, [], ◌∷◌, ◌++◌, none, some, String, arith,
  if◌then◌else◌, map, any, Bool-cases, eq_iff, inl, inr, ◌⊎◌,
}
use verifiably.Prelude.Outcome.{ok, err}
use verifiably.Issuance.{
  IssuedCredential, Error, Log, saved, persisted, load, drop_last, linked, stamped, append, get,
  verify_chain, id_required, id_exists, write_failed,
}
use verifiably.Issuance.Chain.{verify_chain-append}

-- No two entries have one id.
abbrev pub Distinct : List IssuedCredential → Type 0
Distinct [] = Unit
Distinct (c ∷ rest) = (get rest c.id ≡ none) × Distinct rest

pub get-append :
    (items : List IssuedCredential) (c : IssuedCredential) (id : String)
    → get items c.id ≡ none
    → get (items ++ c ∷ []) id ≡ (if c.id == id then some c else get items id)
unfolding get
get-append [] c id h = refl
get-append (d ∷ rest) c id h =
    ground (arith, get-append rest c id, eq_iff c.id id, eq_iff d.id id, eq_iff d.id c.id)

Distinct-append :
    (items : List IssuedCredential) (c : IssuedCredential)
    → Distinct items
    → get items c.id ≡ none
    → Distinct (items ++ c ∷ [])
unfolding get
Distinct-append [] c h e = (refl, tt)
Distinct-append (d ∷ rest) c h e =
    let new : get rest c.id ≡ none = ground arith in
    (
      ground (arith, get-append rest c d.id new, eq_iff c.id d.id, eq_iff d.id c.id),
      Distinct-append rest c h.1 new,
    )

get_of_any :
    (items : List IssuedCredential) (id : String)
    → any (λ existing. existing.id == id) items ≡ false
    → get items id ≡ none
unfolding get
get_of_any [] id h = refl
get_of_any (d ∷ rest) id h = ground (arith, get_of_any rest id)

drop_last-append :
    (items : List IssuedCredential) (c : IssuedCredential) → drop_last (items ++ c ∷ []) ≡ items
unfolding drop_last
drop_last-append [] c = refl
drop_last-append (d ∷ []) c = refl
drop_last-append (d ∷ e ∷ rest) c = ap (◌∷◌ d) (drop_last-append (e ∷ rest) c)

-- A restart over the file gives the entries in memory, without their transient tags.
abbrev pub IsSynced : Log → Type 0
IsSynced log = load log.file ≡ ok (record { items = map persisted log.items; file = log.file })

module _ (sha256_hex : String → String) (rfc3339_nano : ℕ → String) where
  pub record Inv (log : Log) : Type 0 where
    pub distinct : Distinct log.items
    pub intact : verify_chain sha256_hex rfc3339_nano log.items ≡ []
    pub synced : IsSynced log

  id-linked :
      (items : List IssuedCredential) (c : IssuedCredential)
      → (linked sha256_hex rfc3339_nano items c).id ≡ c.id
  unfolding linked
  id-linked [] c = refl
  id-linked (d ∷ []) c = refl
  id-linked (d ∷ e ∷ rest) c = id-linked (e ∷ rest) c

  id-stamped : (now : ℕ) (c : IssuedCredential) → (stamped now c).id ≡ c.id
  id-stamped now c = ground arith

  -- The entry that a successful append stores.
  abbrev pub stored : ℕ → IssuedCredential → Log → IssuedCredential
  stored now c log = linked sha256_hex rfc3339_nano log.items (stamped now c)

  pub id-stored : (now : ℕ) (c : IssuedCredential) (log : Log) → (stored now c log).id ≡ c.id
  id-stored now c log = id-linked log.items (stamped now c) ∙ id-stamped now c

  abbrev pub with_stored : ℕ → IssuedCredential → Log → Log
  with_stored now c log = record {
    items = log.items ++ stored now c log ∷ [];
    file = saved (map persisted (log.items ++ stored now c log ∷ []));
  }

  -- An append fails, and leaves the log, unless the id is new and not empty and the save succeeds.
  pub append_cases :
      (io : Bool) (now : ℕ) (c : IssuedCredential) (log : Log)
      → ((e : Error) × (append sha256_hex rfc3339_nano io now c log ≡ (log, err e)))
        ⊎ ((append sha256_hex rfc3339_nano io now c log
              ≡ (with_stored now c log, ok (stored now c log)))
            × (get log.items c.id ≡ none))
  unfolding append
  append_cases io now c log = elim (Bool-cases (c.id == "")) [
    | inl nameless ↦ inl (id_required, rw nameless)
    | inr named ↦ elim (Bool-cases (any (λ existing. existing.id == c.id) log.items)) [
      | inl old ↦ inl (id_exists, rw (named, old))
      | inr new ↦ by_io io named new
    ]
  ]
    where
      by_io :
          (io : Bool)
          → (c.id == "") ≡ false
          → any (λ existing. existing.id == c.id) log.items ≡ false
          → ((e : Error) × (append sha256_hex rfc3339_nano io now c log ≡ (log, err e)))
            ⊎ ((append sha256_hex rfc3339_nano io now c log
                  ≡ (with_stored now c log, ok (stored now c log)))
                × (get log.items c.id ≡ none))
      by_io true named new = inr (rw (named, new), get_of_any log.items c.id new)
      by_io false named new =
          inl (write_failed, rw (named, new, drop_last-append log.items (stored now c log)))

  -- Every append, also one that fails, keeps ids distinct, the chain intact and the file in step.
  pub append-Inv :
      (io : Bool) (now : ℕ) (c : IssuedCredential) (log : Log)
      → Inv log
      → Inv (append sha256_hex rfc3339_nano io now c log).0
  append-Inv io now c log h = elim (append_cases io now c log) [
    | inl (e, failed) ↦ rw failed h
    | inr (done, new) ↦ rw done (record {
      distinct = Distinct-append log.items (stored now c log) h.distinct (rw id-stored new);
      intact = verify_chain-append sha256_hex rfc3339_nano (stamped now c) log.items h.intact;
      synced = (unfold load in refl);
    })
  ]

  -- An append that returns an error leaves memory and file; one that succeeds adds its entry under
  -- the new id, links it to the entry before, and leaves what any other id gives.
  pub get-append_result :
      (io : Bool) (now : ℕ) (c : IssuedCredential) (log : Log)
      → let r = append sha256_hex rfc3339_nano io now c log in
        ((e : Error) × (r ≡ (log, err e)))
        ⊎ ((r.1 ≡ ok (stored now c log))
            × ((id : String)
                → get r.0.items id
                  ≡ (if c.id == id then some (stored now c log) else get log.items id)))
  get-append_result io now c log = elim (append_cases io now c log) [
    | inl failed ↦ inl failed
    | inr (done, new) ↦ inr (
      rw done,
      λ id. rw done (
          get-append log.items (stored now c log) id (rw id-stored new) ∙ rw (id-stored now c log)),
    )
  ]
