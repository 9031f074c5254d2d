-- ===== src/Trust.antt =====
-- internal/trust/registry.go and store.go: the registry of trusted issuers, in memory and over the
-- table trusted_issuers with a snapshot. The clock is an argument, and so is what the database
-- answers; instants count from Go's zero time, which is 0. The table is a map, its rows are read in its
-- order. Of a refresh, the query and the write of the snapshot are two steps, as other calls may run
-- between them; a query that returns no row writes a nil slice, which is no snapshot.
pub mod Refinement
pub mod Stale
pub mod ApiKeys
mod Examples
use text.Mathlib.Text.{◌==◌}
use verifiably.Prelude.{
  ℕ, Bool, true, false, not, ◌&&◌, List, [], ◌∷◌, Option, none, some, String, if◌then◌else◌, ltb,
  any, ◌==◌ as nat_eq,
}
use verifiably.Prelude.Outcome.{Outcome, ok, err}
use verifiably.Prelude.Dict.{Dict, find, put, without}

pub record TrustedIssuer : Type 0 where
  pub did : String
  pub display_name : String
  pub schemas : List String
  pub service_endpoint : String
  pub status_list_endpoints : List String
  pub status_list_policy : String
  pub verifier_api_key : String
  pub accredited_at : ℕ
  pub valid_until : ℕ

pub data Error : Type 0 where
  untrusted_expired untrusted_schema untrusted_unknown database_failed : Error

unfoldable pub is_expired : ℕ → TrustedIssuer → Bool
is_expired now e = not (nat_eq e.valid_until 0) && ltb e.valid_until now

unfoldable pub authorises_schema : TrustedIssuer → String → Bool
authorises_schema e schema_id = elim e.schemas [
  | [] ↦ true
  | s ∷ rest ↦ any (λ t. t == schema_id) (s ∷ rest)
]

-- The tests of IsTrusted on the entry of the issuer, the same in both stores.
unfoldable pub judge : ℕ → String → TrustedIssuer → Outcome Error (Unit {0})
judge now schema_id e =
    if is_expired now e
    then err untrusted_expired
    else if authorises_schema e schema_id
    then ok tt
    else err untrusted_schema

abbrev pub accredited : ℕ → TrustedIssuer → TrustedIssuer
accredited now e = record e {
  accredited_at = if nat_eq e.accredited_at 0 then now else e.accredited_at;
}

-- memStore
unfoldable pub mem_is_trusted : ℕ → Dict TrustedIssuer → String → String → Outcome Error (Unit {0})
mem_is_trusted now m issuer_did schema_id = elim (find m issuer_did) [
  | none ↦ err untrusted_unknown
  | some e ↦ judge now schema_id e
]

unfoldable pub mem_add : ℕ → TrustedIssuer → Dict TrustedIssuer → Dict TrustedIssuer
mem_add now e m = put m e.did (accredited now e)

unfoldable pub mem_remove : String → Dict TrustedIssuer → Dict TrustedIssuer
mem_remove did m = without m did

-- pgStore with its table
pub record PgStore : Type 0 where
  pub table : Dict TrustedIssuer
  pub snap : Option (List TrustedIssuer)

-- SELECT ... FROM trusted_issuers
unfoldable pub query : Dict TrustedIssuer → List TrustedIssuer
query [] = []
query ((k, e) ∷ rest) = e ∷ query rest

-- s.snap = result
unfoldable pub store_snap : List TrustedIssuer → PgStore → PgStore
store_snap [] s = record s { snap = none }
store_snap (e ∷ rest) s = record s { snap = some (e ∷ rest) }

-- The loop of pgStore.IsTrusted.
unfoldable pub search : ℕ → String → String → List TrustedIssuer → Outcome Error (Unit {0})
search now issuer_did schema_id [] = err untrusted_unknown
search now issuer_did schema_id (e ∷ rest) =
    let later = search now issuer_did schema_id rest in
    if e.did == issuer_did then judge now schema_id e else later

-- TrustedIssuers, with no other call during its refresh.
unfoldable pub trusted_issuers : Bool → PgStore → PgStore × Outcome Error (List TrustedIssuer)
trusted_issuers io s = elim s.snap [
  | some l ↦ (s, ok l)
  | none ↦
      if io then (store_snap (query s.table) s, ok (query s.table)) else (s, err database_failed)
]

unfoldable pub pg_is_trusted :
    Bool → ℕ → String → String → PgStore → PgStore × Outcome Error (Unit {0})
pg_is_trusted io now issuer_did schema_id s =
    let (s', issuers) = trusted_issuers io s in
    elim issuers [ err e ↦ (s', err e) | ok l ↦ (s', search now issuer_did schema_id l) ]

-- The row that Add writes.
abbrev pub row_of : ℕ → TrustedIssuer → TrustedIssuer
row_of now e = record (accredited now e) {
  status_list_policy = if e.status_list_policy == "" then "fail-closed" else e.status_list_policy;
}

unfoldable pub pg_add : Bool → ℕ → TrustedIssuer → PgStore → PgStore × Outcome Error (Unit {0})
pg_add io now e s =
    if io
    then (record s { table = put s.table e.did (row_of now e); snap = none }, ok tt)
    else (s, err database_failed)

unfoldable pub pg_remove : Bool → String → PgStore → PgStore × Outcome Error (Unit {0})
pg_remove io did s =
    if io
    then (record s { table = without s.table did; snap = none }, ok tt)
    else (s, err database_failed)

-- A call whose commands succeed, at its time.
pub data Call : Type 0 where
  asks : ℕ → String → String → Call
  adds : ℕ → TrustedIssuer → Call
  removes : String → Call

unfoldable pub pg_step : PgStore → Call → PgStore
pg_step s (asks now issuer_did schema_id) = (pg_is_trusted true now issuer_did schema_id s).0
pg_step s (adds now e) = (pg_add true now e s).0
pg_step s (removes did) = (pg_remove true did s).0

unfoldable pub mem_step : Dict TrustedIssuer → Call → Dict TrustedIssuer
mem_step m (asks now issuer_did schema_id) = m
mem_step m (adds now e) = mem_add now e m
mem_step m (removes did) = mem_remove did m

unfoldable pub pg_run : PgStore → List Call → PgStore
pg_run s [] = s
pg_run s (c ∷ cs) = pg_run (pg_step s c) cs

unfoldable pub mem_run : Dict TrustedIssuer → List Call → Dict TrustedIssuer
mem_run m [] = m
mem_run m (c ∷ cs) = mem_run (mem_step m c) cs
