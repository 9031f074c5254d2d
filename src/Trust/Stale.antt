-- ===== src/Trust/Stale.antt =====
-- A refresh of internal/trust/store.go that overlaps a removal.
use text.Mathlib.TextPositions.{eq_refl}
use verifiably.Prelude.{ℕ, ◌≡◌, refl, ap, ◌∙◌, Bool, true, List, [], ◌∷◌, none, some, String, arith}
use verifiably.Prelude.Dict.{Dict, find, find-without}
use verifiably.Trust.{
  TrustedIssuer, judge, PgStore, query, store_snap, search, trusted_issuers, pg_is_trusted,
  pg_remove,
}
use verifiably.Trust.Refinement.{Keyed, search-query, store_snap-table, answer}

-- A result with an element becomes the snapshot.
store_snap-some :
    (l : List TrustedIssuer) (x : TrustedIssuer) (rest : List TrustedIssuer) (s : PgStore)
    → l ≡ x ∷ rest
    → (store_snap l s).snap ≡ some l
unfolding store_snap
store_snap-some l x rest s e = rw e refl

query-find :
    (table : Dict TrustedIssuer) (did : String) (e : TrustedIssuer)
    → find table did ≡ some e
    → (x : TrustedIssuer) × (rest : List TrustedIssuer) × (query table ≡ x ∷ rest)
unfolding find query
query-find [] did e h = absurd (ground arith)
query-find ((k, v) ∷ rest) did e h = (v, query rest, refl)

-- The refresh has read the table; then the issuer is removed; then the refresh writes what it read.
abbrev pub overlapped : String → PgStore → PgStore
overlapped did s = store_snap (query s.table) (pg_remove true did s).0

answer_of_snap :
    (s : PgStore) (did : String) (io : Bool) (now : ℕ) (schema_id : String) (l : List TrustedIssuer)
    → (overlapped did s).snap ≡ some l
    → (pg_is_trusted io now did schema_id (overlapped did s)).1 ≡ search now did schema_id l
unfolding pg_is_trusted trusted_issuers
answer_of_snap s did io now schema_id l kept = rw (pg_is_trusted, trusted_issuers, kept) refl

-- If a refresh reads the table, then an issuer is removed, and then the refresh writes its snapshot,
-- IsTrusted goes on to answer from the removed entry, although the table has none for the issuer.
pub pg_is_trusted-overlapped :
    (s : PgStore) (did : String) (e : TrustedIssuer) (io : Bool) (now : ℕ) (schema_id : String)
    → Keyed s.table
    → find s.table did ≡ some e
    → ((pg_is_trusted io now did schema_id (overlapped did s)).1 ≡ judge now schema_id e)
      × (find (overlapped did s).table did ≡ none)
unfolding pg_remove
pg_is_trusted-overlapped s did e io now schema_id keyed present =
    let (x, rest, rows) = query-find s.table did e present in
    let kept : (overlapped did s).snap ≡ some (query s.table) =
      store_snap-some (query s.table) x rest (pg_remove true did s).0 rows in
    (
      answer_of_snap s did io now schema_id (query s.table) kept
          ∙ search-query now did schema_id s.table keyed
          ∙ ap (answer now schema_id) present,
      ap (λ table. find table did) (store_snap-table (query s.table) (pg_remove true did s).0)
          ∙ find-without s.table did did
          ∙ rw (eq_refl did) refl,
    )
