-- ===== src/RateLimit/Limiter.antt =====
-- RateLimiter of internal/handlers/ratelimit.go: its two limits, and what cleanup forgets.
use text.Mathlib.Text.{◌==◌}
use text.Mathlib.TextPositions.{eq_refl}
use verifiably.Prelude.{
  ℕ, ◌+◌, ◌≤◌, ◌<◌, ◌≡◌, refl, Bool, ◌&&◌, true, List, [], ◌∷◌, ◌++◌, String, arith, if◌then◌else◌,
  ltb, length, keep_if, Bool-cases, Option-cases, eq_iff, inl, inr,
}
use verifiably.Prelude.Dict.{Dict, find, put, without, find-put, find-without}
use verifiably.RateLimit.{
  minute, is_recent, allow_entry, RateLimiter, Request, hits_of, hit, client_ip, allow, is_idle,
  keys, purge_keys, purge, cleanup,
}
use verifiably.RateLimit.Window.{Rising}

-- The requests of the last minute that are recorded for a key or an address.
abbrev pub recent : ℕ → Dict (List ℕ) → String → List ℕ
recent now m key = keep_if (is_recent now) (hits_of m key)

hits_of-put : (m : Dict (List ℕ)) (k : String) (hits : List ℕ) → hits_of (put m k hits) k ≡ hits
hits_of-put m k hits = ground (arith, find-put m k k hits, eq_refl k)

module _ (contains : String → String → Bool) (now : ℕ) (name : String) (r : Request)
    (rl : RateLimiter) where
  allow_answer :
      (allow contains now name r rl).1
      ≡ ltb (length (recent now rl.by_key name)) rl.key_limit
        && ltb (length (recent now rl.by_ip (client_ip contains rl.trusted_nets r))) rl.ip_limit
  unfolding allow hit allow_entry
  allow_answer = ground arith

  -- A request that only the address's limit refuses is recorded for the key, and not for the address.
  pub allow_refused_ip :
      length (recent now rl.by_key name) < rl.key_limit
      → rl.ip_limit ≤ length (recent now rl.by_ip (client_ip contains rl.trusted_nets r))
      → (hits_of (allow contains now name r rl).0.by_key name
          ≡ recent now rl.by_key name ++ now ∷ [])
        × (hits_of (allow contains now name r rl).0.by_ip (client_ip contains rl.trusted_nets r)
            ≡ recent now rl.by_ip (client_ip contains rl.trusted_nets r))
  unfolding allow hit allow_entry
  allow_refused_ip room full =
      let ip = client_ip contains rl.trusted_nets r in
      let key_hits = recent now rl.by_key name in
      let ip_hits = recent now rl.by_ip ip in
      (
        ground (arith, hits_of-put rl.by_key name (key_hits ++ now ∷ [])),
        ground (arith, hits_of-put rl.by_ip ip ip_hits),
      )

-- The hits of every entry are in the order of time.
abbrev pub Ordered : Dict (List ℕ) → Type 0
Ordered m = (k : String) → Rising 0 (hits_of m k)

is_idle-old :
    (now t0 t : ℕ) (rest : List ℕ)
    → Rising t0 (t ∷ rest)
    → is_idle now (t ∷ rest) ≡ true
    → t + minute < now
unfolding is_idle
is_idle-old now t0 t [] h idle = ground arith
is_idle-old now t0 t (u ∷ rest) h idle = omega (arith, is_idle-old now t u rest h.1 idle, h.1.0)

keep_if-idle :
    (now u t0 : ℕ) (hits : List ℕ)
    → Rising t0 hits
    → is_idle now hits ≡ true
    → now ≤ u
    → keep_if (is_recent u) hits ≡ []
unfolding is_idle
keep_if-idle now u t0 [] h idle later = refl
keep_if-idle now u t0 (t ∷ []) h idle later = ground arith
keep_if-idle now u t0 (t ∷ t' ∷ rest) h idle later = ground (
  arith,
  is_idle-old now t0 t (t' ∷ rest) h idle,
  keep_if-idle now u t (t' ∷ rest) h.1 idle later,
)

hits_of-without :
    (m : Dict (List ℕ)) (k key : String)
    → hits_of (without m k) key ≡ (if k == key then [] else hits_of m key)
hits_of-without m k key = ground (arith, find-without m k key)

Ordered-without : (m : Dict (List ℕ)) (k : String) → Ordered m → Ordered (without m k)
Ordered-without m k h key =
    rw (hits_of-without m k key)
      (elim (Bool-cases (k == key)) [ inl e ↦ rw e tt | inr e ↦ rw e (h key) ])

recent-without :
    (now u : ℕ) (m : Dict (List ℕ)) (k key : String)
    → Ordered m
    → is_idle now (hits_of m k) ≡ true
    → now ≤ u
    → recent u (without m k) key ≡ recent u m key
recent-without now u m k key h idle later = ground (
  arith,
  hits_of-without m k key,
  eq_iff k key,
  keep_if-idle now u 0 (hits_of m k) (h k) idle later,
)

recent-purge_keys :
    (now u : ℕ) (ks : List String) (m : Dict (List ℕ)) (key : String)
    → Ordered m
    → now ≤ u
    → recent u (purge_keys now ks m) key ≡ recent u m key
unfolding purge_keys
recent-purge_keys now u [] m key h later = refl
recent-purge_keys now u (k ∷ ks) m key h later = elim (Option-cases (find m k)) [
  | inl gone ↦ rw (gone, purge_keys) (recent-purge_keys now u ks m key h later)
  | inr (hits, present) ↦ elim (Bool-cases (is_idle now hits)) [
    | inl idle ↦
        let idle' : is_idle now (hits_of m k) ≡ true = ground (arith, present, idle) in
        rw
          (
            present,
            idle,
            purge_keys,
            recent-purge_keys now u ks (without m k) key (Ordered-without m k h) later,
          )
          (recent-without now u m k key h idle' later)
    | inr busy ↦ rw (present, busy, purge_keys) (recent-purge_keys now u ks m key h later)
  ]
]

-- Cleanup changes no later answer of Allow, if the hits of every entry are in the order of time.
pub allow-cleanup :
    (contains : String → String → Bool) (now later : ℕ) (name : String) (r : Request)
    (rl : RateLimiter)
    → Ordered rl.by_key
    → Ordered rl.by_ip
    → now ≤ later
    → (allow contains later name r (cleanup now rl)).1 ≡ (allow contains later name r rl).1
unfolding cleanup purge
allow-cleanup contains now later name r rl keys_ordered ips_ordered h =
    let ip = client_ip contains rl.trusted_nets r in
    let key_same : recent later (cleanup now rl).by_key name ≡ recent later rl.by_key name =
      recent-purge_keys now later (keys rl.by_key) rl.by_key name keys_ordered h in
    let ip_same : recent later (cleanup now rl).by_ip ip ≡ recent later rl.by_ip ip =
      recent-purge_keys now later (keys rl.by_ip) rl.by_ip ip ips_ordered h in
    rw
      (
        allow_answer contains later name r rl,
        allow_answer contains later name r (cleanup now rl),
        key_same,
        ip_same,
      )
      refl
