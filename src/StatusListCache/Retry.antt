-- ===== src/StatusListCache/Retry.antt =====
-- The retries of fetchLiveRetry of internal/statuslistcache/fetcher.go.
use verifiably.Prelude.{
  ℕ, zero, suc, ◌+◌, ◌≤◌, ◌<◌, ◌≡◌, ◌↔◌, inl, inr, refl, sym, subst, ==_iff, ◌==◌, false, Option,
  String, arith, Bool-cases,
}
use verifiably.Prelude.Outcome.{ok, err, Outcome-cases}
use verifiably.Delegation.Json.{Fields}
use verifiably.StatusListCache.{World, LiveError, fetch_live, retry, fetch_live_retry}

module _ (unmarshal : String → Option Fields) (w : World) where
  abbrev pub Answers : ℕ → String → Type 0
  Answers k raw = fetch_live unmarshal (w.reply k) ≡ ok raw

  -- The first attempt from `first` on that gives a list, at most `left` attempts later, none of which
  -- the end of the context forestalls.
  pub record FirstAnswer (first left : ℕ) (raw : String) : Type 0 where
    pub attempt : ℕ
    pub from : first ≤ attempt
    pub bound : attempt < first + left
    pub gives : Answers attempt raw
    pub others_fail :
        (j : ℕ)
        → first ≤ j
        → j < attempt
        → (e : LiveError) × (fetch_live unmarshal (w.reply j) ≡ err e)
    pub goes_on : (j : ℕ) → 0 < j → first ≤ j → j ≤ attempt → w.ended j ≡ false

  FirstAnswer-retry :
      (left k : ℕ) (e : LiveError) (raw : String)
      → 0 < k
      → retry unmarshal w left k e ≡ ok raw
      → FirstAnswer k left raw
  unfolding retry
  FirstAnswer-retry zero k e raw pos h = absurd (ground arith)
  FirstAnswer-retry (suc left) k e raw pos h = elim (Bool-cases (w.ended k)) [
    | inl over ↦ absurd (ground (arith, over))
    | inr going ↦ elim (Outcome-cases (fetch_live unmarshal (w.reply k))) [
      | inr (s, gives) ↦ record {
        attempt = k;
        from = omega arith;
        bound = omega arith;
        gives = ground (arith, gives, going);
        others_fail = λ j le lt. absurd (omega arith);
        goes_on = λ j p le ge. ground (arith, going);
      }
      | inl (e', fails) ↦
          let later : FirstAnswer (suc k) left raw =
            FirstAnswer-retry left (suc k) e' raw (omega arith) (ground (arith, going, fails)) in
          record {
            attempt = later.attempt;
            from = omega (arith, later.from);
            bound = omega (arith, later.bound);
            gives = later.gives;
            others_fail = λ j le lt. elim (Bool-cases (j == k)) [
              | inl same ↦ (
                e',
                subst (λ n. fetch_live unmarshal (w.reply n) ≡ err e') (sym ((==_iff j k).0 same))
                    fails,
              )
              | inr differs ↦ later.others_fail j (ground (arith, differs)) lt
            ];
            goes_on = λ j p le ge. ground (arith, going, later.goes_on j);
          }
    ]
  ]

  retry_of_FirstAnswer :
      (left k : ℕ) (e : LiveError) (raw : String)
      → 0 < k
      → FirstAnswer k left raw
      → retry unmarshal w left k e ≡ ok raw
  unfolding retry
  retry_of_FirstAnswer zero k e raw pos a = absurd (omega (arith, a.from, a.bound))
  retry_of_FirstAnswer (suc left) k e raw pos a = elim (Bool-cases (a.attempt == k)) [
    | inl same ↦
        let here : a.attempt ≡ k = (==_iff a.attempt k).0 same in
        rw (a.goes_on k pos (omega arith) a.from, retry)
          (rw (subst (λ n. Answers n raw) here a.gives) refl)
    | inr differs ↦
        let (e', fails) = a.others_fail k (omega arith) (ground (arith, differs, a.from)) in
        rw (a.goes_on k pos (omega arith) a.from, retry)
          (rw fails (
            retry_of_FirstAnswer left (suc k) e' raw (omega arith) (record {
              attempt = a.attempt;
              from = ground (arith, differs, a.from);
              bound = omega (arith, a.bound);
              gives = a.gives;
              others_fail = λ j le lt. a.others_fail j (omega arith) lt;
              goes_on = λ j p le ge. a.goes_on j p (omega arith) ge;
            })))
  ]

  FirstAnswer-fetch_live_retry :
      (raw : String) → fetch_live_retry unmarshal w ≡ ok raw → FirstAnswer 0 3 raw
  unfolding fetch_live_retry
  FirstAnswer-fetch_live_retry raw h = elim (Outcome-cases (fetch_live unmarshal (w.reply 0))) [
    | inr (s, gives) ↦ record {
      attempt = 0;
      from = omega arith;
      bound = omega arith;
      gives = ground (arith, gives);
      others_fail = λ j le lt. absurd (omega arith);
      goes_on = λ j p le ge. absurd (omega arith);
    }
    | inl (e, fails) ↦
        let later : FirstAnswer 1 2 raw =
          FirstAnswer-retry 2 1 e raw (omega arith) (ground (arith, fails)) in
        record {
          attempt = later.attempt;
          from = omega arith;
          bound = omega (arith, later.bound);
          gives = later.gives;
          others_fail = λ j le lt. elim (Bool-cases (j == 0)) [
            | inl same ↦ (
              e,
              subst (λ n. fetch_live unmarshal (w.reply n) ≡ err e) (sym ((==_iff j 0).0 same))
                  fails,
            )
            | inr differs ↦ later.others_fail j (ground (arith, differs)) lt
          ];
          goes_on = λ j p le ge. later.goes_on j p (omega arith) ge;
        }
  ]

  fetch_live_retry_of_FirstAnswer :
      (raw : String) → FirstAnswer 0 3 raw → fetch_live_retry unmarshal w ≡ ok raw
  unfolding fetch_live_retry
  fetch_live_retry_of_FirstAnswer raw a = elim (Bool-cases (a.attempt == 0)) [
    | inl same ↦
        rw (subst (λ n. Answers n raw) ((==_iff a.attempt 0).0 same) a.gives, fetch_live_retry) refl
    | inr differs ↦
        let (e, fails) = a.others_fail 0 (omega arith) (ground (arith, differs)) in
        rw (fails, fetch_live_retry)
          (retry_of_FirstAnswer 2 1 e raw (omega arith) (record {
            attempt = a.attempt;
            from = ground (arith, differs);
            bound = omega (arith, a.bound);
            gives = a.gives;
            others_fail = λ j le lt. a.others_fail j (omega arith) lt;
            goes_on = λ j p le ge. a.goes_on j p (omega arith) ge;
          }))
  ]

  -- fetchLiveRetry gives a list exactly if one of its three attempts does before the context ends, and
  -- gives that of the first such attempt.
  pub fetch_live_retry_iff :
      (raw : String) → (fetch_live_retry unmarshal w ≡ ok raw) ↔ FirstAnswer 0 3 raw
  fetch_live_retry_iff raw = (FirstAnswer-fetch_live_retry raw, fetch_live_retry_of_FirstAnswer raw)
