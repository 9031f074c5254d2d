-- ===== src/RateLimit.antt =====
-- internal/handlers/ratelimit.go: the sliding-window throttle of the issue API. Instants are natural
-- numbers, so that a minute before one may be negative: the cutoff test adds the minute to the hit.
-- Each method is one step; a request is the key name and the facts about its address that clientIP
-- reads. Parsing an address and the test that a network contains it are calls of package net.
pub mod Window
pub mod Limiter
mod Examples
use Prim.Native.Char.{code}
use text.Mathlib.Text.{◌==◌}
use verifiably.Prelude.{
  ℕ, ◌+◌, ◌*◌, Bool, true, false, not, ◌&&◌, ◌||◌, List, [], ◌∷◌, ◌++◌, Option, none, some, String,
  if◌then◌else◌, ltb, leb, length, keep_if, any, ◌==◌ as nat_eq,
}
use verifiably.Prelude.Dict.{Dict, find, put, without}
use verifiably.Prelude.Texts.{trim_space}

-- time.Minute, in nanoseconds
abbrev pub minute : ℕ
minute = 60000000000

-- t.After(cutoff), for cutoff = now - time.Minute
abbrev pub is_recent : ℕ → ℕ → Bool
is_recent now t = ltb now (t + minute)

-- rateEntry.allow: the hits of the entry after it, and whether the request is allowed
unfoldable pub allow_entry : ℕ → ℕ → List ℕ → List ℕ × Bool
allow_entry now limit hits =
    let kept = keep_if (is_recent now) hits in
    if leb limit (length kept) then (kept, false) else (kept ++ now ∷ [], true)

pub record RateLimiter : Type 0 where
  pub key_limit : ℕ
  pub ip_limit : ℕ
  pub trusted_nets : List String
  pub by_key : Dict (List ℕ)
  pub by_ip : Dict (List ℕ)

-- The hits that `entry` finds or makes.
abbrev pub hits_of : Dict (List ℕ) → String → List ℕ
hits_of m key = elim (find m key) [ none ↦ [] | some hits ↦ hits ]

-- rl.entry(m, key).allow(limit)
unfoldable pub hit : ℕ → ℕ → String → Dict (List ℕ) → Dict (List ℕ) × Bool
hit now limit key m =
    let (hits, allowed) = allow_entry now limit (hits_of m key) in (put m key hits, allowed)

-- What clientIP reads: RemoteAddr, its host where SplitHostPort accepts it, and X-Forwarded-For.
pub record Request : Type 0 where
  pub remote_addr : String
  pub remote_host : Option String
  pub forwarded_for : String

-- The text before the first comma.
unfoldable pub before_comma : String → String
before_comma String.[] = String.[]
before_comma (String.◌∷◌ c s) =
    let rest = before_comma s in if nat_eq (code c) b',' then String.[] else String.◌∷◌ c rest

-- `contains net host` is that the host parses as an address which the network contains.
module _ (contains : String → String → Bool) where
  unfoldable pub client_ip : List String → Request → String
  unfolding before_comma trim_space
  client_ip trusted_nets r =
      let remote_host : String = elim r.remote_host [ none ↦ r.remote_addr | some host ↦ host ] in
      let trusted : Bool = any (λ net. contains net remote_host) trusted_nets in
      if r.forwarded_for == ""
      then remote_host
      else if ltb 0 (length trusted_nets) && not trusted
      then remote_host
      else trim_space (before_comma r.forwarded_for)

  -- Allow: the address is counted only if the key's limit permits the request.
  unfoldable pub allow : ℕ → String → Request → RateLimiter → RateLimiter × Bool
  allow now key_name r rl =
      let (by_key, key_ok) = hit now rl.key_limit key_name rl.by_key in
      let (by_ip, ip_ok) = hit now rl.ip_limit (client_ip rl.trusted_nets r) rl.by_ip in
      if key_ok
      then (record rl { by_key = by_key; by_ip = by_ip }, ip_ok)
      else (record rl { by_key = by_key }, false)

-- The test of cleanup: no hit, or the last is before now - time.Minute.
unfoldable pub is_idle : ℕ → List ℕ → Bool
is_idle now [] = true
is_idle now (t ∷ []) = ltb (t + minute) now
is_idle now (t ∷ u ∷ rest) = is_idle now (u ∷ rest)

unfoldable pub keys : Dict (List ℕ) → List String
keys [] = []
keys ((k, hits) ∷ rest) = k ∷ keys rest

-- Phase 2 of purge at the keys of its snapshot, with no other call in between.
unfoldable pub purge_keys : ℕ → List String → Dict (List ℕ) → Dict (List ℕ)
unfolding is_idle
purge_keys now [] m = m
purge_keys now (k ∷ rest) m =
    purge_keys now rest
      (elim (find m k) [ none ↦ m | some hits ↦ if is_idle now hits then without m k else m ])

unfoldable pub purge : ℕ → Dict (List ℕ) → Dict (List ℕ)
purge now m = purge_keys now (keys m) m

unfoldable pub cleanup : ℕ → RateLimiter → RateLimiter
cleanup now rl = record rl { by_key = purge now rl.by_key; by_ip = purge now rl.by_ip }

-- envInt: the number that the variable holds, if strconv.Atoi reads a positive one
unfoldable pub env_int : Option ℕ → ℕ → ℕ
env_int none def = def
env_int (some n) def = if ltb 0 n then n else def
