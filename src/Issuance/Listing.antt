-- ===== src/Issuance/Listing.antt =====
-- List and Summary of internal/issuance/log.go. sort.Slice keeps no order among entries of one time;
-- the model sorts by insertion, one of the results that it may give.
pub mod Laws
use text.Mathlib.Text.{◌==◌}
use verifiably.Prelude.{
  ℕ, suc, ◌+◌, Bool, true, false, not, ◌&&◌, ◌||◌, Option, none, some, List, [], ◌∷◌, String,
  if◌then◌else◌, ltb, any, keep_if,
}
use verifiably.Prelude.Dict.{Dict, find, put}
use verifiably.Prelude.Texts.{trim_space, contains}
use verifiably.Issuance.{IssuedCredential, Filter, is_revoked}

module _ (to_lower : String → String) where
  unfoldable pub matches_query : IssuedCredential → String → Bool
  matches_query c q =
      contains (to_lower c.schema_name) q
      || contains (to_lower c.holder_hint) q
      || contains (to_lower c.schema_id) q
      || any (λ field. contains (to_lower field.1) q) c.subject_fields

  -- The tests of one round of the loop of List, up to the append.
  unfoldable pub keeps : Filter → IssuedCredential → Bool
  keeps f c =
      let q = to_lower (trim_space f.query) in
      if not (f.owner_key == "") && not (c.owner_key == f.owner_key)
      then false
      else if not (f.std == "") && not (c.std == f.std)
      then false
      else if not (f.format == "") && not (c.format == f.format)
      then false
      else if f.state == "active" && is_revoked c
      then false
      else if f.state == "revoked" && not (is_revoked c)
      then false
      else if not (q == "") && not (matches_query c q)
      then false
      else true

-- out[i].IssuedAt.After(out[j].IssuedAt)
abbrev pub newer : IssuedCredential → IssuedCredential → Bool
newer c d = ltb d.issued_at c.issued_at

unfoldable pub insert_newest : IssuedCredential → List IssuedCredential → List IssuedCredential
insert_newest c [] = c ∷ []
insert_newest c (d ∷ rest) = if newer d c then d ∷ insert_newest c rest else c ∷ d ∷ rest

unfoldable pub sort_newest : List IssuedCredential → List IssuedCredential
unfolding insert_newest
sort_newest [] = []
sort_newest (c ∷ rest) = insert_newest c (sort_newest rest)

module _ (to_lower : String → String) where
  unfoldable pub list : List IssuedCredential → Filter → List IssuedCredential
  list items f = sort_newest (keep_if (keeps to_lower f) items)

pub record Stats : Type 0 where
  pub total : ℕ
  pub active : ℕ
  pub revoked : ℕ
  pub by_std : Dict ℕ
  pub by_format : Dict ℕ

abbrev pub one_more : Option ℕ → ℕ
one_more none = 1
one_more (some n) = n + 1

-- m[key]++
unfoldable pub increment : Dict ℕ → String → Dict ℕ
increment m key = put m key (one_more (find m key))

-- One round of the loop of Summary.
unfoldable pub count_in : Stats → IssuedCredential → Stats
count_in s c = record {
  total = s.total + 1;
  active = if is_revoked c then s.active else s.active + 1;
  revoked = if is_revoked c then s.revoked + 1 else s.revoked;
  by_std = increment s.by_std c.std;
  by_format = increment s.by_format c.format;
}

summary_from : Stats → List IssuedCredential → Stats
unfolding count_in
summary_from s [] = s
summary_from s (c ∷ rest) = summary_from (count_in s c) rest

unfoldable pub summary : List IssuedCredential → Stats
unfolding summary_from
summary = summary_from (record { total = 0; active = 0; revoked = 0; by_std = []; by_format = [] })
