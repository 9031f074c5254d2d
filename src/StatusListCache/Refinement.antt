-- ===== src/StatusListCache/Refinement.antt =====
-- The two layers of internal/statuslistcache/json_cache.go as one map: what Fetch answers after any calls
-- and restarts of the process.
use verifiably.Prelude.{◌≡◌, true, List, [], ◌∷◌, Option, none, some, String, if◌then◌else◌}
use verifiably.Prelude.Outcome.{Outcome, ok, err}
use verifiably.Prelude.Dict.{Dict, find, put}
use verifiably.Delegation.Json.{Fields}
use verifiably.Jose.{Codecs}
use verifiably.StatusListCache.Verify.{Resolver}
use verifiably.StatusListCache.{
  Entry, JsonStore, World, Disk, Fetched, FetchError, live, cached, signature_bad, unavailable,
  entry_of, from_entry, accept, reject, no_answer, live_verdict, fetch,
}
use verifiably.StatusListCache.Layers.{Event, fetches, restarts}

module _ (c : Codecs) (unmarshal : String → Option Fields) (resolver : Option Resolver)
    (d : Disk) where
  -- The specification: the last saved entry of each list.
  unfoldable pub last_saved : Dict Entry → Event → Dict Entry
  last_saved m restarts = m
  last_saved m (fetches w issuer_did list_url) =
      elim (live_verdict c unmarshal resolver w issuer_did) [
        | accept raw ↦
            if w.writable then put m list_url (entry_of issuer_did list_url raw w.now) else m
        | reject e ↦ m
        | no_answer e ↦ m
      ]

  unfoldable pub step : JsonStore → Event → JsonStore
  step s (fetches w issuer_did list_url) = (fetch c unmarshal resolver d w issuer_did list_url s).0
  step s restarts = record s { items = [] }

  -- The events are listed with the last one first.
  unfoldable pub after : List Event → JsonStore
  after [] = record { items = []; files = [] }
  after (ev ∷ evs) = step (after evs) ev

  unfoldable pub saved_after : List Event → Dict Entry
  saved_after [] = []
  saved_after (ev ∷ evs) = last_saved (saved_after evs) ev

  -- What Fetch is to answer where the last saved entries are known.
  unfoldable pub answer : World → String → String → Dict Entry → Outcome FetchError Fetched
  answer w issuer_did list_url m = elim (live_verdict c unmarshal resolver w issuer_did) [
    | accept raw ↦ ok (from_entry live (entry_of issuer_did list_url raw w.now))
    | reject e ↦ err (signature_bad e)
    | no_answer e ↦ elim (find m list_url) [
      | none ↦ err (unavailable e)
      | some entry ↦ ok (from_entry cached entry)
    ]
  ]

  -- Some call of the list accepted the entry and could save it.
  pub data Accepted (e : Entry) : List Event → Type 0 where
    now :
        (w : World) (evs : List Event)
        → live_verdict c unmarshal resolver w e.issuer_did ≡ accept e.raw_jwt
        → w.writable ≡ true
        → e.cached_at ≡ w.now
        → Accepted e (fetches w e.issuer_did e.list_url ∷ evs)
    before : (ev : Event) (evs : List Event) → Accepted e evs → Accepted e (ev ∷ evs)

  abbrev pub IsAccepted : List Event → String → Entry → Type 0
  IsAccepted evs url e = (e.list_url ≡ url) × Accepted e evs
