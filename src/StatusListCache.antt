-- ===== src/StatusListCache.antt =====
-- internal/statuslistcache: the cache of the status lists that issuers publish. fetcher.go is Fetch with
-- its retries, json_cache.go the store in memory and on disk, poller.go the hourly round. What the
-- network answers to each attempt, the clock, and whether the context ends are arguments. A body is the
-- text that is read, which the code bounds by 1 MB.
pub mod Verify
pub mod Retry
pub mod Layers
pub mod Refinement
pub mod SelfSigned
mod Examples
use text.Mathlib.Text.{◌==◌}
use verifiably.Prelude.{
  ℕ, zero, suc, ◌+◌, ◌*◌, Bool, true, false, ◌&&◌, List, [], ◌∷◌, Option, none, some, String,
  if◌then◌else◌, ltb, ◌==◌ as nat_eq,
}
use verifiably.Prelude.Outcome.{Outcome, ok, err}
use verifiably.Prelude.Dict.{Dict, find, put}
use verifiably.Prelude.Texts.{trim_space, has_prefix, contains}
use verifiably.Delegation.Json.{Value, str, Fields, lookup, str_of}
use verifiably.Jose.{Codecs}
use verifiably.StatusListCache.Verify.{VerifyError, Resolver, mentions_signature, verify_jwt}
use verifiably.Trust.{TrustedIssuer}

pub record Entry : Type 0 where
  pub issuer_did : String
  pub list_url : String
  pub raw_jwt : String
  pub cached_at : ℕ
  pub expires_at : ℕ

-- jsonStore with its directory: the files by name, in a directory that may not exist.
pub record JsonStore : Type 0 where
  pub items : Dict Entry
  pub files : Dict String

pub data Source : Type 0 where
  live cached : Source

pub record Fetched : Type 0 where
  pub raw_jwt : String
  pub source : Source
  pub cached_at : ℕ
  pub expires_at : ℕ

pub data LiveError : Type 0 where
  bad_request get_failed bad_status body_unread context_ended : LiveError

-- With an error the source is "unknown".
pub data FetchError : Type 0 where
  signature_bad : VerifyError → FetchError
  unavailable : LiveError → FetchError

-- What one request comes to.
pub data Reply : Type 0 where
  refused : LiveError → Reply
  answered : ℕ → Option String → Reply

-- What a call meets: the replies to its attempts, the attempts before which the context ends, the
-- time, and whether the write to disk succeeds.
pub record World : Type 0 where
  pub reply : ℕ → Reply
  pub ended : ℕ → Bool
  pub now : ℕ
  pub writable : Bool

-- Six hours in nanoseconds
abbrev pub ttl : ℕ
ttl = 6 * 3600 * 1000000000

-- The name of a list's file, and its content as JSON.
pub record Disk : Type 0 where
  pub url_key : String → String
  pub show_entry : Entry → String
  pub read_entry : String → Option Entry

-- The first of the keys that holds a text with a dot.
unfoldable pub token_in : Fields → List String → Option String
token_in obj [] = none
token_in obj (key ∷ keys) =
    let later = token_in obj keys in
    elim (lookup obj key) [
      | none ↦ later
      | some v ↦ elim (str_of v) [
        | none ↦ later
        | some s ↦ if contains s "." then some s else later
      ]
    ]

-- The list in a body, as a token or as an object that holds one.
unfoldable pub list_of : (String → Option Fields) → String → String
unfolding token_in
list_of unmarshal body =
    let raw = trim_space body in
    if has_prefix raw "{"
    then elim (unmarshal body) [
      | none ↦ raw
      | some obj ↦ elim (token_in obj ("token" ∷ "jwt" ∷ "verifiableCredential" ∷ [])) [
        | none ↦ raw
        | some s ↦ s
      ]
    ]
    else raw

unfoldable pub fetch_live : (String → Option Fields) → Reply → Outcome LiveError String
fetch_live unmarshal (refused e) = err e
fetch_live unmarshal (answered status body) =
    if nat_eq status 200
    then elim body [ none ↦ err body_unread | some text ↦ ok (list_of unmarshal text) ]
    else err bad_status

-- The attempts that are left, the number of the next one, and the last error.
unfoldable pub retry :
    (String → Option Fields) → World → ℕ → ℕ → LiveError → Outcome LiveError String
retry unmarshal w zero attempt last = err last
retry unmarshal w (suc left) attempt last =
    if w.ended attempt then err context_ended else elim (fetch_live unmarshal (w.reply attempt)) [
      | ok raw ↦ ok raw
      | err e ↦ retry unmarshal w left (suc attempt) e
    ]

-- The first attempt does not wait.
unfoldable pub fetch_live_retry : (String → Option Fields) → World → Outcome LiveError String
fetch_live_retry unmarshal w = elim (fetch_live unmarshal (w.reply 0)) [
  | ok raw ↦ ok raw
  | err e ↦ retry unmarshal w 2 1 e
]

module _ (d : Disk) where
  abbrev pub on_disk : JsonStore → String → Option Entry
  on_disk s list_url = elim (find s.files (d.url_key list_url)) [
    | none ↦ none
    | some data_ ↦ d.read_entry data_
  ]

  unfoldable pub load : JsonStore → String → JsonStore × Option Entry
  load s list_url = elim (find s.items list_url) [
    | some e ↦ (s, some e)
    | none ↦ elim (on_disk s list_url) [
      | none ↦ (s, none)
      | some e ↦ (record s { items = put s.items list_url e }, some e)
    ]
  ]

  -- A failed write leaves the store.
  unfoldable pub save : Bool → Entry → JsonStore → JsonStore
  save writable e s =
      if writable
      then record {
        items = put s.items e.list_url e;
        files = put s.files (d.url_key e.list_url) (d.show_entry e);
      }
      else s

abbrev pub entry_of : String → String → String → ℕ → Entry
entry_of issuer_did list_url raw_jwt now = record {
  issuer_did = issuer_did;
  list_url = list_url;
  raw_jwt = raw_jwt;
  cached_at = now;
  expires_at = now + ttl;
}

abbrev pub from_entry : Source → Entry → Fetched
from_entry source e = record {
  raw_jwt = e.raw_jwt;
  source = source;
  cached_at = e.cached_at;
  expires_at = e.expires_at;
}

-- What the live endpoint gives: an entry to save, an answer without one, or no answer.
pub data LiveVerdict : Type 0 where
  accept : String → LiveVerdict
  reject : VerifyError → LiveVerdict
  no_answer : LiveError → LiveVerdict

module _ (c : Codecs) (unmarshal : String → Option Fields) (resolver : Option Resolver) where
  unfoldable pub live_verdict : World → String → LiveVerdict
  live_verdict w issuer_did = elim (fetch_live_retry unmarshal w) [
    | err e ↦ no_answer e
    | ok raw ↦ elim (verify_jwt c resolver raw issuer_did) [
      | none ↦ accept raw
      | some e ↦ if mentions_signature e then reject e else accept raw
    ]
  ]

  module _ (d : Disk) where
    unfoldable pub fetch :
        World → String → String → JsonStore → JsonStore × Outcome FetchError Fetched
    fetch w issuer_did list_url s = elim (live_verdict w issuer_did) [
      | reject e ↦ (s, err (signature_bad e))
      | accept raw ↦
          let e = entry_of issuer_did list_url raw w.now in
          (save d w.writable e s, ok (from_entry live e))
      | no_answer e ↦
          let (s', found) = load d s list_url in
          (
            s',
            elim found [ none ↦ err (unavailable e) | some entry ↦ ok (from_entry cached entry) ],
          )
    ]

    -- One fetch for each endpoint of an issuer; the world of each call is given by its number.
    unfoldable pub poll_endpoints :
        (ℕ → World) → String → List String → ℕ → JsonStore → JsonStore × ℕ
    poll_endpoints worlds did [] n s = (s, n)
    poll_endpoints worlds did (url ∷ urls) n s =
        poll_endpoints worlds did urls (suc n) (fetch (worlds n) did url s).0

    -- poll, where the registry answers
    unfoldable pub poll_issuers : (ℕ → World) → List TrustedIssuer → ℕ → JsonStore → JsonStore × ℕ
    unfolding poll_endpoints
    poll_issuers worlds [] n s = (s, n)
    poll_issuers worlds (i ∷ is) n s =
        let (s', n') = poll_endpoints worlds i.did i.status_list_endpoints n s in
        poll_issuers worlds is n' s'
