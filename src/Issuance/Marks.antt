-- ===== src/Issuance/Marks.antt =====
-- MarkRevoked and MarkReinstate of internal/issuance/log.go: owner scoping, idempotence, rollback.
use text.Mathlib.Text.{◌==◌}
use text.Mathlib.TextPositions.{eq_refl}
use verifiably.Prelude.{
  ℕ, ◌≡◌, refl, ◌∙◌, Bool, true, false, List, [], ◌∷◌, Option, none, some, String, arith,
  if◌then◌else◌, map, set, set-set, set-set_back, get_elem?, Bool-cases, Option-cases, eq_iff, inl,
  inr, ◌⊎◌,
}
use verifiably.Prelude.Outcome.{Outcome, ok, err}
use verifiably.Issuance.{
  IssuedCredential, Error, Log, saved, persisted, load, get, is_foreign, with_revoked_at,
  is_revoked, revoke_at, reinstate_at, mark_revoked, mark_reinstate, id_not_found, write_failed,
}
use verifiably.Issuance.Chain.{verify_chain-set}
use verifiably.Issuance.Append.{Inv}
use verifiably.Issuance.Positions.{Distinct-set, locate-none, locate-some}

-- The answer of MarkRevoked, from the entry of the id alone.
abbrev pub revoke_answer :
    Bool → ℕ → String → Option IssuedCredential → Outcome Error IssuedCredential
revoke_answer io now owner_key none = err id_not_found
revoke_answer io now owner_key (some c) =
    if is_foreign owner_key c
    then err id_not_found
    else if is_revoked c
    then ok c
    else if io
    then ok (with_revoked_at (some now) c)
    else err write_failed

-- The answer of MarkReinstate.
abbrev pub reinstate_answer :
    Bool → String → Option IssuedCredential → Outcome Error IssuedCredential
reinstate_answer io owner_key none = err id_not_found
reinstate_answer io owner_key (some c) =
    if is_foreign owner_key c
    then err id_not_found
    else if is_revoked c
    then (if io then ok (with_revoked_at none c) else err write_failed)
    else ok c

-- What an id gives after a mark that answered `r`.
abbrev pub after_mark :
    String
    → List IssuedCredential
    → Outcome Error IssuedCredential
    → String
    → Option IssuedCredential
after_mark id items (err e) j = get items j
after_mark id items (ok c) j = if id == j then some c else get items j

abbrev pub Marked :
    String → Log → Outcome Error IssuedCredential → Log × Outcome Error IssuedCredential → Type 0
Marked id log answer r =
    (r.1 ≡ answer) × ((j : String) → get r.0.items j ≡ after_mark id log.items answer j)

-- Writing an entry back over its changed copy restores the list.
restore :
    (items : List IssuedCredential) (i : ℕ) (c : IssuedCredential) (t : Option ℕ)
    → get_elem? items i ≡ some c
    → c.revoked_at ≡ none
    → set (set items i (with_revoked_at t c)) i (with_revoked_at none c) ≡ items
restore items i c t at active =
    let same : with_revoked_at none c ≡ c = ground arith in
    rw same (set-set_back items i (with_revoked_at t c) c at)

module _ (id : String) (log : Log) (i : ℕ) (c : IssuedCredential)
    (present : get log.items id ≡ some c) (at : get_elem? log.items i ≡ some c)
    (spec : (t : Option ℕ) (j : String)
      → get (set log.items i (with_revoked_at t c)) j
        ≡ (if id == j then some (with_revoked_at t c) else get log.items j))
    (same_id : id ≡ c.id) where
  kept : (j : String) → get log.items j ≡ (if id == j then some c else get log.items j)
  kept j = ground (arith, eq_iff id j)

  revoke_at-Marked :
      (io : Bool) (now : ℕ) (owner_key : String)
      → Marked id log (revoke_answer io now owner_key (some c)) (revoke_at io now owner_key log i c)
  unfolding revoke_at
  revoke_at-Marked io now owner_key = elim (Bool-cases (is_foreign owner_key c)) [
    | inl foreign ↦ rw foreign (refl, λ j. refl)
    | inr own ↦ rw own (
      ground arith,
      λ j. ground (arith, spec (some now) j, kept j, restore log.items i c (some now) at),
    )
  ]

  reinstate_at-Marked :
      (now : ℕ) (owner_key : String)
      → Marked id log
          (reinstate_answer true owner_key (some c))
          (reinstate_at true now owner_key log i c)
  unfolding reinstate_at
  reinstate_at-Marked now owner_key = elim (Bool-cases (is_foreign owner_key c)) [
    | inl foreign ↦ rw foreign (refl, λ j. refl)
    | inr own ↦ rw own (ground arith, λ j. ground (arith, spec none j, kept j))
  ]

  -- The log after a mark that was saved.
  abbrev marked : Option ℕ → Log
  marked t = record {
    items = set log.items i (with_revoked_at t c);
    file = saved (map persisted (set log.items i (with_revoked_at t c)));
  }

  revoke_at_cases :
      (io : Bool) (now : ℕ) (owner_key : String)
      → ((revoke_at io now owner_key log i c).0 ≡ log)
        ⊎ ((revoke_at io now owner_key log i c).0 ≡ marked (some now))
  unfolding revoke_at
  revoke_at_cases io now owner_key = ground (arith, restore log.items i c (some now) at)

  reinstate_at_cases :
      (now : ℕ) (owner_key : String)
      → ((reinstate_at true now owner_key log i c).0 ≡ log)
        ⊎ ((reinstate_at true now owner_key log i c).0 ≡ marked none)
  unfolding reinstate_at
  reinstate_at_cases now owner_key = ground arith

  reinstate_at_failed :
      (now : ℕ) (owner_key : String)
      → is_foreign owner_key c ≡ false
      → is_revoked c ≡ true
      → reinstate_at false now owner_key log i c
        ≡ (record log { items = set log.items i (with_revoked_at (some now) c) }, err write_failed)
  unfolding reinstate_at
  reinstate_at_failed now owner_key own revoked =
      rw own (
        ground (arith, set-set log.items i (with_revoked_at none c) (with_revoked_at (some now) c)))

  module _ (sha256_hex : String → String) (rfc3339_nano : ℕ → String) where
    marked-Inv :
        (t : Option ℕ) → Inv sha256_hex rfc3339_nano log → Inv sha256_hex rfc3339_nano (marked t)
    marked-Inv t h = record {
      distinct = Distinct-set log.items i c t at h.distinct;
      intact = verify_chain-set sha256_hex rfc3339_nano c t i log.items at ∙ h.intact;
      synced = (unfold load in refl);
    }

same_id :
    (items : List IssuedCredential) (id : String) (c : IssuedCredential)
    → get items id ≡ some c
    → id ≡ c.id
unfolding get
same_id [] id c h = absurd (cc)
same_id (d ∷ rest) id c h = ground (arith, eq_iff d.id id, same_id rest id c)

-- MarkRevoked answers from the entry of its id: an id that has none and one of another owner are
-- answered alike, an entry that is revoked is answered as it is, and any other is stamped if the
-- save succeeds. The id then gives the answered entry; every other id, and after an error every id,
-- gives what it gave.
mark_revoked-Marked :
    (io : Bool) (now : ℕ) (id owner_key : String) (log : Log)
    → Marked id log
        (revoke_answer io now owner_key (get log.items id))
        (mark_revoked io now id owner_key log)
unfolding mark_revoked
mark_revoked-Marked io now id owner_key log = elim (Option-cases (get log.items id)) [
  | inl missing ↦ rw (missing, locate-none id log.items missing, mark_revoked) (refl, λ j. refl)
  | inr (c, present) ↦
      let (i, found, at, spec) = locate-some id log.items c present in
      rw (present, found, mark_revoked)
        (revoke_at-Marked id log i c present at spec (same_id log.items id c present) io now
          owner_key)
]

-- MarkReinstate whose save succeeds answers likewise, and clears the stamp.
pub mark_reinstate-Marked :
    (now : ℕ) (id owner_key : String) (log : Log)
    → Marked id log
        (reinstate_answer true owner_key (get log.items id))
        (mark_reinstate true now id owner_key log)
unfolding mark_reinstate
mark_reinstate-Marked now id owner_key log = elim (Option-cases (get log.items id)) [
  | inl missing ↦ rw (missing, locate-none id log.items missing, mark_reinstate) (refl, λ j. refl)
  | inr (c, present) ↦
      let (i, found, at, spec) = locate-some id log.items c present in
      rw (present, found, mark_reinstate)
        (reinstate_at-Marked id log i c present at spec (same_id log.items id c present) now
          owner_key)
]

-- A MarkReinstate whose save fails answers the error and leaves the file, but the entry in memory
-- then has the time of the call for its revocation, whatever time it had.
pub mark_reinstate_failed :
    (now : ℕ) (id owner_key : String) (log : Log) (c : IssuedCredential)
    → get log.items id ≡ some c
    → is_foreign owner_key c ≡ false
    → is_revoked c ≡ true
    → let r = mark_reinstate false now id owner_key log in
      (r.1 ≡ err write_failed)
      × (r.0.file ≡ log.file)
      × (get r.0.items id ≡ some (with_revoked_at (some now) c))
unfolding mark_reinstate
mark_reinstate_failed now id owner_key log c present own revoked =
    let (i, found, at, spec) = locate-some id log.items c present in
    let e =
      reinstate_at_failed id log i c present at spec (same_id log.items id c present) now owner_key
        own revoked in
    rw (found, mark_reinstate) (rw e (refl, refl, spec (some now) id ∙ rw (eq_refl id)))

module _ (sha256_hex : String → String) (rfc3339_nano : ℕ → String) where
  -- Revoking, and reinstating with a save that succeeds, keep ids distinct, the chain intact and the
  -- file in step with the memory.
  pub marks-Inv :
      (io : Bool) (now : ℕ) (id owner_key : String) (log : Log)
      → Inv sha256_hex rfc3339_nano log
      → Inv sha256_hex rfc3339_nano (mark_revoked io now id owner_key log).0
        × Inv sha256_hex rfc3339_nano (mark_reinstate true now id owner_key log).0
  unfolding mark_revoked mark_reinstate
  marks-Inv io now id owner_key log h = elim (Option-cases (get log.items id)) [
    | inl missing ↦ rw (locate-none id log.items missing, mark_revoked, mark_reinstate) (h, h)
    | inr (c, present) ↦
        let (i, found, at, spec) = locate-some id log.items c present in
        let same = same_id log.items id c present in
        let keeps = marked-Inv id log i c present at spec same sha256_hex rfc3339_nano in
        rw (found, mark_revoked, mark_reinstate)
          (
            elim (revoke_at_cases id log i c present at spec same io now owner_key) [
              | inl e ↦ rw e h
              | inr e ↦ rw e (keeps (some now) h)
            ],
            elim (reinstate_at_cases id log i c present at spec same now owner_key) [
              | inl e ↦ rw e h
              | inr e ↦ rw e (keeps none h)
            ],
          )
  ]
