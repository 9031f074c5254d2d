-- ===== src/Trust/Refinement.antt =====
-- The two registries of internal/trust/store.go answer alike where no two calls overlap.
use text.Mathlib.Text.{◌==◌}
use verifiably.Prelude.{
  ℕ, ◌≡◌, ◌⊎◌, inl, inr, refl, sym, ap, subst, ◌∙◌, true, List, [], ◌∷◌, Option, none, some, String,
  arith, eq_iff, All, Bool-cases,
}
use verifiably.Prelude.Outcome.{Outcome, ok, err}
use verifiably.Prelude.Dict.{Dict, find, put, without, find-put, find-without}
use verifiably.Trust.{
  TrustedIssuer, Error, untrusted_unknown, is_expired, authorises_schema, judge, accredited,
  mem_is_trusted, mem_add, mem_remove, PgStore, query, store_snap, search, trusted_issuers,
  pg_is_trusted, row_of, pg_add, pg_remove, Call, asks, adds, removes, pg_step, mem_step, pg_run,
  mem_run,
}

-- Each row stands under its DID.
abbrev pub Keyed : Dict TrustedIssuer → Type 0
Keyed = All (λ (row : String × TrustedIssuer). row.1.did ≡ row.0)

abbrev pub answer : ℕ → String → Option TrustedIssuer → Outcome Error (Unit {0})
answer now schema_id none = err untrusted_unknown
answer now schema_id (some e) = judge now schema_id e

pub search-query :
    (now : ℕ) (did schema_id : String) (table : Dict TrustedIssuer)
    → Keyed table
    → search now did schema_id (query table) ≡ answer now schema_id (find table did)
unfolding search query find
search-query now did schema_id [] h = refl
search-query now did schema_id ((k, e) ∷ rest) h =
    let later = search-query now did schema_id rest h.1 in rw (h.0) (ground (arith, later))

Keyed-put :
    (m : Dict TrustedIssuer) (did : String) (e : TrustedIssuer)
    → e.did ≡ did
    → Keyed m
    → Keyed (put m did e)
unfolding put
Keyed-put [] did e same h = (same, tt)
Keyed-put ((k, v) ∷ rest) did e same h = elim (Bool-cases (k == did)) [
  | inl here ↦ rw here (same ∙ sym ((eq_iff k did).0 here), h.1)
  | inr other ↦ rw other (h.0, Keyed-put rest did e same h.1)
]

Keyed-without : (m : Dict TrustedIssuer) (did : String) → Keyed m → Keyed (without m did)
unfolding without
Keyed-without [] did h = tt
Keyed-without ((k, v) ∷ rest) did h = elim (Bool-cases (k == did)) [
  | inl here ↦ rw here (Keyed-without rest did h.1)
  | inr other ↦ rw other (h.0, Keyed-without rest did h.1)
]

-- An entry without the policy, which only one of the stores fills in.
abbrev pub bare : Option TrustedIssuer → Option TrustedIssuer
bare none = none
bare (some e) = some (record e { status_list_policy = "" })

answer-bare :
    (now : ℕ) (schema_id : String) (o : Option TrustedIssuer)
    → answer now schema_id (bare o) ≡ answer now schema_id o
unfolding judge is_expired authorises_schema
answer-bare now schema_id none = refl
answer-bare now schema_id (some e) = refl

pub record Agrees (s : PgStore) (m : Dict TrustedIssuer) : Type 0 where
  pub keyed : Keyed s.table
  pub entries : (did : String) → bare (find s.table did) ≡ bare (find m did)
  pub snapshot : (s.snap ≡ none) ⊎ (s.snap ≡ some (query s.table))

store_snap-snapshot :
    (l : List TrustedIssuer) (s : PgStore)
    → ((store_snap l s).snap ≡ none) ⊎ ((store_snap l s).snap ≡ some l)
unfolding store_snap
store_snap-snapshot [] s = inl refl
store_snap-snapshot (e ∷ rest) s = inr refl

pub store_snap-table : (l : List TrustedIssuer) (s : PgStore) → (store_snap l s).table ≡ s.table
unfolding store_snap
store_snap-table [] s = refl
store_snap-table (e ∷ rest) s = refl

Agrees-store_snap :
    (s : PgStore) (m : Dict TrustedIssuer) → Agrees s m → Agrees (store_snap (query s.table) s) m
Agrees-store_snap s m a =
    let same = store_snap-table (query s.table) s in
    record {
      keyed = subst Keyed (sym same) a.keyed;
      entries = λ did. ap (λ table. bare (find table did)) same ∙ a.entries did;
      snapshot = elim (store_snap-snapshot (query s.table) s) [
        | inl gone ↦ inl gone
        | inr kept ↦ inr (kept ∙ ap (λ table. some (query table)) (sym same))
      ];
    }

-- A question gives the rows of the table, and changes the snapshot alone.
trusted_issuers-Agrees :
    (s : PgStore) (m : Dict TrustedIssuer)
    → Agrees s m
    → ((trusted_issuers true s).1 ≡ ok (query s.table)) × Agrees (trusted_issuers true s).0 m
unfolding trusted_issuers
trusted_issuers-Agrees s m a = elim a.snapshot [
  | inl gone ↦ rw (gone, trusted_issuers) (refl, Agrees-store_snap s m a)
  | inr kept ↦ rw (kept, trusted_issuers) (refl, a)
]

answer-mem :
    (now : ℕ) (did schema_id : String) (m : Dict TrustedIssuer)
    → answer now schema_id (find m did) ≡ mem_is_trusted now m did schema_id
unfolding mem_is_trusted
answer-mem now did schema_id m = ground arith

pg_is_trusted-Agrees :
    (now : ℕ) (did schema_id : String) (s : PgStore) (m : Dict TrustedIssuer)
    → Agrees s m
    → ((pg_is_trusted true now did schema_id s).1 ≡ mem_is_trusted now m did schema_id)
      × Agrees (pg_is_trusted true now did schema_id s).0 m
unfolding pg_is_trusted
pg_is_trusted-Agrees now did schema_id s m a =
    let (rows, kept) = trusted_issuers-Agrees s m a in
    rw (rows, pg_is_trusted)
      (
        search-query now did schema_id s.table a.keyed
            ∙ sym (answer-bare now schema_id (find s.table did))
            ∙ ap (answer now schema_id) (a.entries did)
            ∙ answer-bare now schema_id (find m did)
            ∙ answer-mem now did schema_id m,
        kept,
      )

add-Agrees :
    (now : ℕ) (e : TrustedIssuer) (s : PgStore) (m : Dict TrustedIssuer)
    → Agrees s m
    → Agrees (pg_add true now e s).0 (mem_add now e m)
unfolding pg_add mem_add
add-Agrees now e s m a = record {
  keyed = Keyed-put s.table e.did (row_of now e) refl a.keyed;
  entries = λ did. elim (Bool-cases (e.did == did)) [
    | inl here ↦
        rw
          (find-put s.table e.did did (row_of now e), find-put m e.did did (accredited now e), here)
          refl
    | inr other ↦
        rw
          (
            find-put s.table e.did did (row_of now e),
            find-put m e.did did (accredited now e),
            other,
          )
          (a.entries did)
  ];
  snapshot = inl refl;
}

remove-Agrees :
    (did : String) (s : PgStore) (m : Dict TrustedIssuer)
    → Agrees s m
    → Agrees (pg_remove true did s).0 (mem_remove did m)
unfolding pg_remove mem_remove
remove-Agrees did s m a = record {
  keyed = Keyed-without s.table did a.keyed;
  entries = λ k. elim (Bool-cases (did == k)) [
    | inl here ↦ rw (find-without s.table did k, find-without m did k, here) refl
    | inr other ↦ rw (find-without s.table did k, find-without m did k, other) (a.entries k)
  ];
  snapshot = inl refl;
}

step-Agrees :
    (s : PgStore) (m : Dict TrustedIssuer) (c : Call)
    → Agrees s m
    → Agrees (pg_step s c) (mem_step m c)
unfolding pg_step mem_step
step-Agrees s m (asks now did schema_id) a = (pg_is_trusted-Agrees now did schema_id s m a).1
step-Agrees s m (adds now e) a = add-Agrees now e s m a
step-Agrees s m (removes did) a = remove-Agrees did s m a

run-Agrees :
    (s : PgStore) (m : Dict TrustedIssuer) (cs : List Call)
    → Agrees s m
    → Agrees (pg_run s cs) (mem_run m cs)
unfolding pg_run mem_run
run-Agrees s m [] a = a
run-Agrees s m (c ∷ cs) a = run-Agrees (pg_step s c) (mem_step m c) cs (step-Agrees s m c a)

-- After the same calls, none of which fails or overlaps another, the registry over the table and the
-- one in memory give IsTrusted the same answer, error included, for every issuer and schema.
pub pg_is_trusted-mem_is_trusted :
    (s : PgStore) (m : Dict TrustedIssuer) (cs : List Call) (now : ℕ) (did schema_id : String)
    → Agrees s m
    → (pg_is_trusted true now did schema_id (pg_run s cs)).1
      ≡ mem_is_trusted now (mem_run m cs) did schema_id
pg_is_trusted-mem_is_trusted s m cs now did schema_id a =
    (pg_is_trusted-Agrees now did schema_id (pg_run s cs) (mem_run m cs) (run-Agrees s m cs a)).0
