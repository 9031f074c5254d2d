-- ===== src/Issuance/Listing/Laws.antt =====
-- What List and Summary of internal/issuance/log.go return.
use mathlib.Core.List.{Perm}
use mathlib.Core.List.Perm
use text.Mathlib.Text.{◌==◌}
use verifiably.Prelude.{
  ℕ, ◌+◌, ◌≤◌, ◌≡◌, ◌≢◌, refl, Bool, true, not, List, [], ◌∷◌, none, some, String, arith,
  if◌then◌else◌, Bool-cases, eq_iff, inl, inr, ◌⊎◌, length, keep_if, All,
}
use verifiably.Prelude.Dict.{find, find-put}
use verifiably.Prelude.Texts.{trim_space}
use verifiably.Issuance.{IssuedCredential, Filter, is_revoked}
use verifiably.Issuance.Listing.{
  matches_query, keeps, newer, insert_newest, sort_newest, list, Stats, one_more, increment,
  count_in, summary_from, summary,
}

-- The newest entry stands first.
abbrev pub NewestFirst : List IssuedCredential → Type 0
NewestFirst [] = Unit
NewestFirst (c ∷ rest) = All (λ d. d.issued_at ≤ c.issued_at) rest × NewestFirst rest

module _ (P : IssuedCredential → Type 0) where
  All-insert_newest :
      (c : IssuedCredential) (l : List IssuedCredential) → P c → All P l → All P (insert_newest c l)
  unfolding insert_newest
  All-insert_newest c [] h k = (h, tt)
  All-insert_newest c (d ∷ rest) h k = elim (Bool-cases (newer d c)) [
    | inl later ↦ rw later (k.0, All-insert_newest c rest h k.1)
    | inr first ↦ rw first (h, k)
  ]

  All-sort_newest : (l : List IssuedCredential) → All P l → All P (sort_newest l)
  unfolding sort_newest
  All-sort_newest [] k = tt
  All-sort_newest (c ∷ rest) k =
      All-insert_newest c (sort_newest rest) k.0 (All-sort_newest rest k.1)

  All-keep_if :
      (p : IssuedCredential → Bool) (l : List IssuedCredential)
      → ((c : IssuedCredential) → p c ≡ true → P c)
      → All P (keep_if p l)
  All-keep_if p [] h = tt
  All-keep_if p (c ∷ rest) h = elim (Bool-cases (p c)) [
    | inl kept ↦ rw kept (h c kept, All-keep_if p rest h)
    | inr out ↦ rw out (All-keep_if p rest h)
  ]

module _ (to_lower : String → String) where
  -- What a filter asks of an entry, field by field; an empty field asks nothing.
  pub record Matches (f : Filter) (c : IssuedCredential) : Type 0 where
    pub owner : (f.owner_key ≡ "") ⊎ (c.owner_key ≡ f.owner_key)
    pub std : (f.std ≡ "") ⊎ (c.std ≡ f.std)
    pub format : (f.format ≡ "") ⊎ (c.format ≡ f.format)
    pub active : f.state ≡ "active" → c.revoked_at ≡ none
    pub revoked : f.state ≡ "revoked" → c.revoked_at ≢ none
    pub query :
        (to_lower (trim_space f.query) ≡ "")
        ⊎ (matches_query to_lower c (to_lower (trim_space f.query)) ≡ true)

  module _ (f : Filter) (c : IssuedCredential) where
    Matches-keeps : keeps to_lower f c ≡ true → Matches f c
    unfolding keeps
    Matches-keeps h = record {
      owner = ground (arith, eq_iff f.owner_key "", eq_iff c.owner_key f.owner_key);
      std = ground (arith, eq_iff f.std "", eq_iff c.std f.std);
      format = ground (arith, eq_iff f.format "", eq_iff c.format f.format);
      active = λ e. ground (arith, eq_iff f.state "active");
      revoked = λ e. ground (arith, eq_iff f.state "revoked");
      query = ground (arith, eq_iff (to_lower (trim_space f.query)) "");
    }

  -- Under a filter with an owner every listed entry is that owner's.
  list-owner :
      (items : List IssuedCredential) (f : Filter)
      → f.owner_key ≢ ""
      → All (λ c. c.owner_key ≡ f.owner_key) (list to_lower items f)
  unfolding list
  list-owner items f named =
      All-sort_newest _ _
        (All-keep_if _ (keeps to_lower f) items λ c kept. owned c (Matches-keeps f c kept))
    where
      owned : (c : IssuedCredential) → Matches f c → c.owner_key ≡ f.owner_key
      owned c m = elim m.owner [ inl e ↦ absurd (named e) | inr e ↦ e ]

-- A missing counter reads as zero.
abbrev pub count_of : List (String × ℕ) → String → ℕ
count_of m key = elim (find m key) [ none ↦ 0 | some n ↦ n ]

count_of-increment :
    (m : List (String × ℕ)) (key other : String)
    → count_of (increment m key) other ≡ count_of m other + (if key == other then 1 else 0)
unfolding increment
count_of-increment m key other =
    ground (arith, find-put m key other (one_more (find m key)), eq_iff key other)

-- The counters of a run over `l` that started from `s`.
record Counted (s t : Stats) (l : List IssuedCredential) : Type 0 where
  total : t.total ≡ s.total + length l
  active : t.active ≡ s.active + length (keep_if (λ c. not (is_revoked c)) l)
  revoked : t.revoked ≡ s.revoked + length (keep_if is_revoked l)
  stds :
      (k : String)
      → count_of t.by_std k ≡ count_of s.by_std k + length (keep_if (λ c. c.std == k) l)
  formats :
      (k : String)
      → count_of t.by_format k ≡ count_of s.by_format k + length (keep_if (λ c. c.format == k) l)

summary_from-Counted : (s : Stats) (l : List IssuedCredential) → Counted s (summary_from s l) l
unfolding summary_from count_in
summary_from-Counted s [] = record {
  total = omega arith;
  active = omega arith;
  revoked = omega arith;
  stds = λ k. omega arith;
  formats = λ k. omega arith;
}
summary_from-Counted s (c ∷ rest) =
    let r = summary_from-Counted (count_in s c) rest in
    record {
      total = omega (arith, r.total);
      active = ground (arith, r.active);
      revoked = ground (arith, r.revoked);
      stds = λ k. ground (arith, r.stds k, count_of-increment s.by_std c.std k);
      formats = λ k. ground (arith, r.formats k, count_of-increment s.by_format c.format k);
    }

-- Every entry is active or revoked.
split :
    (l : List IssuedCredential)
    → length (keep_if (λ c. not (is_revoked c)) l) + length (keep_if is_revoked l) ≡ length l
split [] = refl
split (c ∷ rest) = ground (arith, split rest)

abbrev zeros : Stats
zeros = record { total = 0; active = 0; revoked = 0; by_std = []; by_format = [] }

-- Summary counts every entry once, as active or as revoked, and each entry under its Std and its
-- Format.
pub summary_lem :
    (items : List IssuedCredential)
    → let t = summary items in
      (t.total ≡ length items)
      × (t.active + t.revoked ≡ t.total)
      × (t.revoked ≡ length (keep_if is_revoked items))
      × ((k : String) → count_of t.by_std k ≡ length (keep_if (λ c. c.std == k) items))
      × ((k : String) → count_of t.by_format k ≡ length (keep_if (λ c. c.format == k) items))
unfolding summary find
summary_lem items =
    let r = summary_from-Counted zeros items in
    (
      omega (arith, r.total),
      omega (arith, r.total, r.active, r.revoked, split items),
      omega (arith, r.revoked),
      λ k. omega (arith, r.stds k),
      λ k. omega (arith, r.formats k),
    )
