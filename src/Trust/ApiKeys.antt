-- ===== src/Trust/ApiKeys.antt =====
-- internal/trust/apikeys.go: the API keys of issuers over the table issuer_api_keys, a map from a DID to the
-- hash of its key. The hash, the random key and whether the database answers are arguments.
use text.Mathlib.Text.{◌==◌}
use verifiably.Prelude.{
  ◌≡◌, ◌≢◌, ◌↔◌, inl, inr, refl, Bool, true, false, [], ◌∷◌, Option, none, some, String,
  if◌then◌else◌, arith, eq_iff, Bool-cases,
}
use verifiably.Prelude.Outcome.{Outcome, ok, err}
use verifiably.Prelude.Dict.{Dict, find, put, without, find-put, find-without}

pub data KeyError : Type 0 where
  upsert_failed invalid_api_key delete_failed query_failed : KeyError

-- SELECT did FROM issuer_api_keys WHERE key_hash = $1
unfoldable pub owner_of : Dict String → String → Option String
owner_of [] hash = none
owner_of ((did, h) ∷ rest) hash =
    let later = owner_of rest hash in if h == hash then some did else later

module _ (sha256 : String → String) where
  unfoldable pub issue :
      Bool → String → String → Dict String → Dict String × Outcome KeyError String
  issue io did fresh table =
      if io then (put table did (sha256 fresh), ok fresh) else (table, err upsert_failed)

  unfoldable pub validate : Bool → String → Dict String → Outcome KeyError String
  unfolding owner_of
  validate io key table =
      if io
      then elim (owner_of table (sha256 key)) [ none ↦ err invalid_api_key | some did ↦ ok did ]
      else err invalid_api_key

unfoldable pub revoke : Bool → String → Dict String → Dict String × Outcome KeyError (Unit {0})
revoke io did table = if io then (without table did, ok tt) else (table, err delete_failed)

unfoldable pub has_key : Bool → String → Dict String → Outcome KeyError Bool
has_key io did table =
    if io then ok (elim (find table did) [ none ↦ false | some h ↦ true ]) else err query_failed

-- No DID has two rows, as it is the table's primary key.
abbrev pub Distinct : Dict String → Type 0
Distinct [] = Unit
Distinct ((did, h) ∷ rest) = (find rest did ≡ none) × Distinct rest

put-Distinct : (t : Dict String) (did h : String) → Distinct t → Distinct (put t did h)
unfolding put find
put-Distinct [] did h d = (refl, tt)
put-Distinct ((k, v) ∷ rest) did h d = elim (Bool-cases (k == did)) [
  | inl same ↦ rw (same, put) d
  | inr differs ↦
      rw (differs, put)
        (
          ground (arith, find-put rest did k h, eq_iff did k, eq_iff k did, differs, d.0),
          put-Distinct rest did h d.1,
        )
]

find-owner_of :
    (t : Dict String) (hash did : String)
    → Distinct t
    → owner_of t hash ≡ some did
    → find t did ≡ some hash
unfolding owner_of find
find-owner_of [] hash did d e = absurd (ground (arith, e))
find-owner_of ((k, h) ∷ rest) hash did d e = elim (Bool-cases (h == hash)) [
  | inl same ↦ ground (arith, same, e, eq_iff h hash, eq_iff k did)
  | inr differs ↦
      let found = find-owner_of rest hash did d.1 (ground (arith, differs, e)) in
      ground (arith, found, d.0, eq_iff k did)
]

owner_of-some :
    (t : Dict String) (hash did : String)
    → find t did ≡ some hash
    → (other : String) × (owner_of t hash ≡ some other)
unfolding owner_of find
owner_of-some [] hash did e = absurd (ground (arith, e))
owner_of-some ((k, h) ∷ rest) hash did e = elim (Bool-cases (h == hash)) [
  | inl same ↦ (k, ground (arith, same))
  | inr differs ↦
      let (other, found) =
        owner_of-some rest hash did (ground (arith, differs, e, eq_iff h hash)) in
      (other, ground (arith, differs, found))
]

-- No row has the hash of the key.
abbrev pub Unused : (String → String) → String → Dict String → Type 0
Unused sha256 key t = (did : String) → find t did ≢ some (sha256 key)

module _ (sha256 : String → String) (injective : (a b : String) → sha256 a ≡ sha256 b → a ≡ b)
    (t : Dict String) (distinct : Distinct t) (did fresh : String)
    (unused : Unused sha256 fresh t) where
  owner-fresh : owner_of (put t did (sha256 fresh)) (sha256 fresh) ≡ some did
  owner-fresh =
      let (other, found) =
        owner_of-some (put t did (sha256 fresh)) (sha256 fresh) did
          (ground (arith, find-put t did did (sha256 fresh), eq_iff did did)) in
      let at =
        find-owner_of (put t did (sha256 fresh)) (sha256 fresh) other
          (put-Distinct t did (sha256 fresh) distinct) found in
      elim (Bool-cases (did == other)) [
        | inl same ↦ ground (arith, found, same, eq_iff did other)
        | inr differs ↦
            absurd (unused other (ground (arith, at, differs, find-put t did other (sha256 fresh))))
      ]

  -- Once a key that no row has was issued to a DID, a key is validated as that DID's exactly if it is the
  -- new one, so that an earlier key of the DID is not: the hash is taken to be injective.
  validate-issue :
      (key : String)
      → (validate sha256 true key (issue sha256 true did fresh t).0 ≡ ok did) ↔ (key ≡ fresh)
  unfolding validate issue
  validate-issue key = (
    λ h.
        let at =
          find-owner_of (put t did (sha256 fresh)) (sha256 key) did
            (put-Distinct t did (sha256 fresh) distinct) (ground (arith, h)) in
        injective key fresh (ground (arith, at, find-put t did did (sha256 fresh), eq_iff did did)),
    λ e. rw (e, owner-fresh) refl,
  )

without-Distinct : (t : Dict String) (did : String) → Distinct t → Distinct (without t did)
unfolding without find
without-Distinct [] did d = tt
without-Distinct ((k, v) ∷ rest) did d = elim (Bool-cases (k == did)) [
  | inl same ↦ rw (same, without) (without-Distinct rest did d.1)
  | inr differs ↦
      rw (differs, without)
        (ground (arith, find-without rest did k, d.0), without-Distinct rest did d.1)
]

-- Once the key of a DID was revoked, no key is validated as that DID's, and it has no key.
pub validate-revoke :
    (sha256 : String → String) (t : Dict String) (did key : String)
    → Distinct t
    → (validate sha256 true key (revoke true did t).0 ≢ ok did)
      × (has_key true did (revoke true did t).0 ≡ ok false)
unfolding validate revoke has_key
validate-revoke sha256 t did key distinct =
    let gone : (find (without t did) did ≡ none) =
      ground (arith, find-without t did did, eq_iff did did) in
    (
      λ h.
          let at =
            find-owner_of (without t did) (sha256 key) did (without-Distinct t did distinct)
              (ground (arith, h)) in
          ground (arith, at, gone),
      rw (gone, has_key) refl,
    )
