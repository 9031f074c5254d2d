-- ===== src/Trust/Examples.antt =====
-- The theorems on the trust registry at one accredited ministry.
use verifiably.Prelude.{◌≡◌, refl, true, [], ◌∷◌, inl, none, some, List}
use verifiably.Prelude.Dict.{Dict, find}
use verifiably.Trust.{
  TrustedIssuer, judge, mem_is_trusted, PgStore, pg_is_trusted, Call, asks, adds, removes, pg_run,
  mem_run,
}
use verifiably.Trust.Refinement.{Agrees, pg_is_trusted-mem_is_trusted}
use verifiably.Trust.Stale.{overlapped, pg_is_trusted-overlapped}

abbrev ministry : TrustedIssuer
ministry = record {
  did = "did:web:ministry";
  display_name = "Ministry";
  schemas = "birth" ∷ [];
  service_endpoint = "";
  status_list_endpoints = [];
  status_list_policy = "fail-closed";
  verifier_api_key = "";
  accredited_at = 5;
  valid_until = 0;
}

abbrev rows : Dict TrustedIssuer
rows = ("did:web:ministry", ministry) ∷ []

abbrev loaded : PgStore
loaded = record { table = rows; snap = none }

loaded-Agrees : Agrees loaded rows
loaded-Agrees = record { keyed = (refl, tt); entries = λ did. refl; snapshot = inl refl }

abbrev calls : List Call
calls = asks 7 "did:web:ministry" "birth" ∷ removes "did:web:ministry" ∷ adds 9 ministry ∷ []

pg_is_trusted-mem_is_trusted_example :
    (pg_is_trusted true 10 "did:web:ministry" "birth" (pg_run loaded calls)).1
    ≡ mem_is_trusted 10 (mem_run rows calls) "did:web:ministry" "birth"
pg_is_trusted-mem_is_trusted_example =
    pg_is_trusted-mem_is_trusted loaded rows calls 10 "did:web:ministry" "birth" loaded-Agrees

present : find rows "did:web:ministry" ≡ some ministry
unfolding find
present = refl

pg_is_trusted-overlapped_example :
    ((pg_is_trusted true 10 "did:web:ministry" "birth" (overlapped "did:web:ministry" loaded)).1
      ≡ judge 10 "birth" ministry)
    × (find (overlapped "did:web:ministry" loaded).table "did:web:ministry" ≡ none)
pg_is_trusted-overlapped_example =
    pg_is_trusted-overlapped loaded "did:web:ministry" ministry true 10 "birth" (refl, tt) present
