-- ===== src/StatusListCache/Examples.antt =====
-- The theorems on the cache of status lists at an issuer that answers at the second attempt and is later out
-- of reach.
use Prim.Native.Char.{code}
use verifiably.Prelude.{
  zero, suc, if◌then◌else◌, ℕ, ◌≡◌, ◌↔◌, true, false, List, [], ◌∷◌, Option, none, some, String,
  ◌==◌,
}
use verifiably.Prelude.Outcome.{ok}
use verifiably.Delegation.Json.{Fields}
use verifiably.Jose.{Codecs}
use verifiably.StatusList.Signing.Sample.{sample}
use verifiably.StatusListCache.{
  Entry, World, Disk, Reply, refused, answered, get_failed, Fetched, cached, fetch_live_retry,
}
use verifiably.StatusListCache.Retry.{FirstAnswer, fetch_live_retry_iff}
use verifiably.StatusListCache.Layers.{Event, fetches, restarts}

abbrev no_json : String → Option Fields
no_json s = none

abbrev second_reply : ℕ → Reply
second_reply n = elim (n == 1) [ true ↦ answered 200 (some "list") | false ↦ refused get_failed ]

abbrev flaky : World
flaky = record { reply = second_reply; ended = λ n. false; now = 1000; writable = true }

abbrev down : World
down = record { reply = λ n. refused get_failed; ended = λ n. false; now = 2000; writable = true }

fetch_live_retry_iff_example :
    (fetch_live_retry no_json flaky ≡ ok "list") ↔ FirstAnswer no_json flaky 0 3 "list"
fetch_live_retry_iff_example = fetch_live_retry_iff no_json flaky "list"

-- A text with each character marked, and an end mark before what follows.
abbrev marked : String → String → String
marked String.[] rest = String.◌∷◌ "e" (String.◌∷◌ "-" rest)
marked (String.◌∷◌ c s) rest = String.◌∷◌ "x" (String.◌∷◌ c (marked s rest))

abbrev unmarked : String → String × String
unmarked String.[] = ("", "")
unmarked (String.◌∷◌ mark String.[]) = ("", "")
unmarked (String.◌∷◌ mark (String.◌∷◌ c s)) =
    let (text, rest) = unmarked s in
    if code mark == b'x' then (String.◌∷◌ c text, rest) else ("", s)

abbrev tally : ℕ → String → String
tally zero rest = String.◌∷◌ "e" rest
tally (suc n) rest = String.◌∷◌ "x" (tally n rest)

abbrev untally : String → ℕ × String
untally String.[] = (0, "")
untally (String.◌∷◌ mark s) =
    let (n, rest) = untally s in if code mark == b'x' then (suc n, rest) else (0, s)

abbrev shown : Entry → String
shown e =
    tally e.cached_at
      (tally e.expires_at (marked e.issuer_did (marked e.list_url (marked e.raw_jwt "."))))

abbrev read_back : String → Option Entry
read_back s =
    let (cached_at, s1) = untally s in
    let (expires_at, s2) = untally s1 in
    let (issuer_did, s3) = unmarked s2 in
    let (list_url, s4) = unmarked s3 in
    let (raw_jwt, s5) = unmarked s4 in
    some (record {
      issuer_did = issuer_did;
      list_url = list_url;
      raw_jwt = raw_jwt;
      cached_at = cached_at;
      expires_at = expires_at;
    })

abbrev disk : Disk
disk = record { url_key = λ url. url; show_entry = shown; read_entry = read_back }

abbrev codecs : Codecs
codecs = sample (λ n. none) ""

abbrev history : List Event
history = restarts ∷ fetches flaky "did:web:issuer" "https://issuer.example/list" ∷ []

-- The list that was fetched before the restart.
abbrev kept : Fetched
kept = record { raw_jwt = "list"; source = cached; cached_at = 1000; expires_at = 21600000001000 }
