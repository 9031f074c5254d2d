-- ===== src/RateLimit/Window.antt =====
-- The sliding window of internal/handlers/ratelimit.go: over any run of requests at one entry.
use verifiably.Prelude.{
  ℕ, ◌+◌, ◌≤◌, ◌<◌, ◌≡◌, refl, sym, ◌∙◌, Bool, ◌&&◌, List, [], ◌∷◌, ◌++◌, arith, if◌then◌else◌, ltb,
  leb, length, keep_if, length-append, Bool-cases, inl, inr,
}
use verifiably.RateLimit.{minute, is_recent, allow_entry}

-- The answers to requests at the given times, from an entry with the given hits.
unfoldable pub answers : ℕ → List ℕ → List ℕ → List Bool
answers limit hits [] = []
answers limit hits (now ∷ rest) =
    let (hits', allowed) = allow_entry now limit hits in allowed ∷ answers limit hits' rest

-- The times of the requests that are allowed.
unfoldable pub accepted : ℕ → List ℕ → List ℕ → List ℕ
accepted limit hits [] = []
accepted limit hits (now ∷ rest) =
    let (hits', allowed) = allow_entry now limit hits in
    let later = accepted limit hits' rest in if allowed then now ∷ later else later

-- Times do not fall, from `t` on.
abbrev pub Rising : ℕ → List ℕ → Type 0
Rising t [] = Unit
Rising t (u ∷ rest) = (t ≤ u) × Rising u rest

-- A request is allowed if fewer than `limit` of all those ever allowed are of the last minute.
unfoldable pub spec_answers : ℕ → List ℕ → List ℕ → List Bool
spec_answers limit history [] = []
spec_answers limit history (now ∷ rest) =
    let allowed = ltb (length (keep_if (is_recent now) history)) limit in
    let after_allow = spec_answers limit (history ++ now ∷ []) rest in
    let after_refuse = spec_answers limit history rest in
    allowed ∷ (if allowed then after_allow else after_refuse)

-- The time lies in the minute that ends at `w`: w - minute < t ≤ w.
abbrev pub in_window : ℕ → ℕ → Bool
in_window w t = ltb w (t + minute) && leb t w

-- How many of the times lie in that minute.
abbrev pub count_window : ℕ → List ℕ → ℕ
count_window w l = length (keep_if (in_window w) l)

keep_if-append :
    {A : Type 0} (p : A → Bool) (xs ys : List A)
    → keep_if p (xs ++ ys) ≡ keep_if p xs ++ keep_if p ys
keep_if-append p [] ys = refl
keep_if-append p (x ∷ xs) ys = ground (arith, keep_if-append p xs ys)

-- What is recent at a time was recent before it.
pub keep_if-recent_later :
    (now u : ℕ) (l : List ℕ)
    → now ≤ u
    → keep_if (is_recent u) (keep_if (is_recent now) l) ≡ keep_if (is_recent u) l
keep_if-recent_later now u [] h = refl
keep_if-recent_later now u (t ∷ l) h = ground (arith, keep_if-recent_later now u l h)

count_window-kept :
    (now w : ℕ) (l : List ℕ)
    → now ≤ w
    → count_window w (keep_if (is_recent now) l) ≡ count_window w l
count_window-kept now w [] h = refl
count_window-kept now w (t ∷ l) h = ground (arith, count_window-kept now w l h)

count_window-append :
    (w : ℕ) (xs ys : List ℕ) → count_window w (xs ++ ys) ≡ count_window w xs + count_window w ys
count_window-append w xs ys =
    rw (keep_if-append (in_window w) xs ys)
      (length-append (keep_if (in_window w) xs) (keep_if (in_window w) ys))

count_window_le_length : (w : ℕ) (l : List ℕ) → count_window w l ≤ length l
count_window_le_length w [] = omega arith
count_window_le_length w (t ∷ l) = ground (arith, count_window_le_length w l)

-- Requests after the end of a minute count nothing in it.
count_window-later :
    (limit w t : ℕ) (times hits : List ℕ)
    → Rising t times
    → w < t
    → count_window w (accepted limit hits times) ≡ 0
unfolding accepted allow_entry
count_window-later limit w t [] hits rising h = refl
count_window-later limit w t (now ∷ rest) hits rising h =
    let kept = keep_if (is_recent now) hits in
    let late : w < now = omega (arith, rising.0) in
    ground (
      arith,
      count_window-later limit w now rest kept rising.1 late,
      count_window-later limit w now rest (kept ++ now ∷ []) rising.1 late,
    )

accepted-nil : (limit : ℕ) (hits : List ℕ) → accepted limit hits [] ≡ []
unfolding accepted
accepted-nil limit hits = refl

accepted-refused :
    (limit now : ℕ) (rest hits : List ℕ)
    → limit ≤ length (keep_if (is_recent now) hits)
    → accepted limit hits (now ∷ rest) ≡ accepted limit (keep_if (is_recent now) hits) rest
unfolding accepted allow_entry
accepted-refused limit now rest hits full = ground arith

accepted-allowed :
    (limit now : ℕ) (rest hits : List ℕ)
    → length (keep_if (is_recent now) hits) < limit
    → accepted limit hits (now ∷ rest)
      ≡ now ∷ accepted limit (keep_if (is_recent now) hits ++ now ∷ []) rest
unfolding accepted allow_entry
accepted-allowed limit now rest hits room = ground arith

-- Of requests at times that do not fall, at an entry with at most `limit` hits in a minute, those
-- that are allowed are with these hits at most `limit` in that minute, whichever minute it is.
pub accepted_bounded :
    (limit w t : ℕ) (times hits : List ℕ)
    → Rising t times
    → count_window w hits ≤ limit
    → count_window w hits + count_window w (accepted limit hits times) ≤ limit
accepted_bounded limit w t [] hits rising h = rw (accepted-nil limit hits) (omega arith)
accepted_bounded limit w t (now ∷ rest) hits rising h = elim (Bool-cases (ltb w now)) [
  | inl before ↦
      rw (count_window-later limit w now (now ∷ rest) hits (omega arith, rising.1) (ground arith))
        (omega arith)
  | inr within ↦
      let kept = keep_if (is_recent now) hits in
      let reached : now ≤ w = ground arith in
      let same : count_window w kept ≡ count_window w hits = count_window-kept now w hits reached in
      elim (Bool-cases (leb limit (length kept))) [
        | inl full ↦ rw (accepted-refused limit now rest hits (ground arith)) (
            omega
              (arith, same, accepted_bounded limit w now rest kept rising.1 (omega (arith, same))))
        | inr room ↦
            let few : length kept < limit = ground arith in
            let split : count_window w (kept ++ now ∷ [])
                ≡ count_window w kept + count_window w (now ∷ []) =
              count_window-append w kept (now ∷ []) in
            let one : count_window w (now ∷ []) ≤ 1 = count_window_le_length w (now ∷ []) in
            let later =
              accepted_bounded limit w now rest (kept ++ now ∷ []) rising.1
                (omega (arith, split, one, few, count_window_le_length w kept)) in
            rw (accepted-allowed limit now rest hits few) (
              omega (
                arith,
                same,
                split,
                later,
                count_window-append w (now ∷ []) (accepted limit (kept ++ now ∷ []) rest),
              ))
      ]
]

-- At times that do not fall, the answers of an entry are those of a record of all allowed requests
-- that is never pruned.
pub answers-spec_answers :
    (limit t : ℕ) (times hits history : List ℕ)
    → Rising t times
    → ((u : ℕ) → t ≤ u → keep_if (is_recent u) hits ≡ keep_if (is_recent u) history)
    → answers limit hits times ≡ spec_answers limit history times
unfolding answers spec_answers allow_entry
answers-spec_answers limit t [] hits history rising same = refl
answers-spec_answers limit t (now ∷ rest) hits history rising same =
    let kept = keep_if (is_recent now) hits in
    let now_same : kept ≡ keep_if (is_recent now) history = same now rising.0 in
    let kept_same : (u : ℕ) → now ≤ u → keep_if (is_recent u) kept ≡ keep_if (is_recent u) history =
      λ u h. keep_if-recent_later now u hits h ∙ same u (omega (arith, rising.0)) in
    let more_same : (u : ℕ)
        → now ≤ u
        → keep_if (is_recent u) (kept ++ now ∷ []) ≡ keep_if (is_recent u) (history ++ now ∷ []) =
      λ u h.
        rw (keep_if-append (is_recent u) kept (now ∷ []), kept_same u h)
          (sym (keep_if-append (is_recent u) history (now ∷ []))) in
    ground (
      arith,
      now_same,
      answers-spec_answers limit now rest kept history rising.1 kept_same,
      answers-spec_answers limit now rest (kept ++ now ∷ []) (history ++ now ∷ []) rising.1
          more_same,
    )
