-- ===== src/Delegation/Build/Reread.antt =====
-- A JSON object as encoding/json gives it back after internal/delegation/build.go wrote it: a []string is
-- an array of strings, which the readers of internal/delegation/extract.go take alike.
use text.Mathlib.Text.{◌==◌}
use verifiably.Prelude.{
  ◌≡◌, refl, ap, inl, inr, List, [], ◌∷◌, Option, none, some, String, Bool-cases, Option-cases,
}
use verifiably.Delegation.Json.{
  Value, null, boolean, number, str, strs, array, object, Values, nothing, item, Fields, empty,
  field, lookup, has, map_str, map_str_slice, map_bool, strings_in, str_slice_of, str_of, bool_of,
}
use verifiably.Delegation.Temporal.{NormalizedCredential}
use verifiably.Delegation.Extract.{claim_capability}

abbrev items : List String → Values
items [] = nothing
items (s ∷ l) = item (str s) (items l)

abbrev as_json : Value → Value
as_json (strs l) = array (items l)
as_json v = v

-- The fields as JSON gives them back.
abbrev pub reread : Fields → Fields
reread empty = empty
reread (field k v rest) = field k (as_json v) (reread rest)

abbrev option_json : Option Value → Option Value
option_json none = none
option_json (some v) = some (as_json v)

lookup-reread : (m : Fields) (key : String) → lookup (reread m) key ≡ option_json (lookup m key)
unfolding lookup
lookup-reread empty key = refl
lookup-reread (field k v rest) key = elim (Bool-cases (k == key)) [
  | inl same ↦ rw same refl
  | inr other ↦ rw other (lookup-reread rest key)
]

strings_in-items : (l : List String) → strings_in (items l) ≡ l
unfolding strings_in
strings_in-items [] = refl
strings_in-items (s ∷ l) = ap (◌∷◌ s) (strings_in-items l)

str_of-as_json : (v : Value) → str_of (as_json v) ≡ str_of v
str_of-as_json null = refl
str_of-as_json (boolean b) = refl
str_of-as_json (number n) = refl
str_of-as_json (str s) = refl
str_of-as_json (strs l) = refl
str_of-as_json (array l) = refl
str_of-as_json (object m) = refl

bool_of-as_json : (v : Value) → bool_of (as_json v) ≡ bool_of v
bool_of-as_json null = refl
bool_of-as_json (boolean b) = refl
bool_of-as_json (number n) = refl
bool_of-as_json (str s) = refl
bool_of-as_json (strs l) = refl
bool_of-as_json (array l) = refl
bool_of-as_json (object m) = refl

str_slice_of-as_json : (v : Value) → str_slice_of (as_json v) ≡ str_slice_of v
unfolding str_slice_of
str_slice_of-as_json null = refl
str_slice_of-as_json (boolean b) = refl
str_slice_of-as_json (number n) = refl
str_slice_of-as_json (str s) = refl
str_slice_of-as_json (strs l) = ap some (strings_in-items l)
str_slice_of-as_json (array l) = refl
str_slice_of-as_json (object m) = refl

module _ (m : Fields) where
  map_str-reread : (key : String) → map_str (reread m) key ≡ map_str m key
  unfolding map_str
  map_str-reread key = elim (Option-cases (lookup m key)) [
    | inl absent ↦ rw (map_str, lookup-reread m key, absent) refl
    | inr (v, present) ↦ rw (map_str, lookup-reread m key, present, str_of-as_json v) refl
  ]

  map_bool-reread : (key : String) → map_bool (reread m) key ≡ map_bool m key
  unfolding map_bool
  map_bool-reread key = elim (Option-cases (lookup m key)) [
    | inl absent ↦ rw (map_bool, lookup-reread m key, absent) refl
    | inr (v, present) ↦ rw (map_bool, lookup-reread m key, present, bool_of-as_json v) refl
  ]

  has-reread : (key : String) → has (reread m) key ≡ has m key
  unfolding has
  has-reread key = elim (Option-cases (lookup m key)) [
    | inl absent ↦ rw (has, lookup-reread m key, absent) refl
    | inr (v, present) ↦ rw (has, lookup-reread m key, present) refl
  ]

  map_str_slice-reread : (keys : List String) → map_str_slice (reread m) keys ≡ map_str_slice m keys
  unfolding map_str_slice
  map_str_slice-reread [] = refl
  map_str_slice-reread (key ∷ keys) = elim (Option-cases (lookup m key)) [
    | inl absent ↦ rw (map_str_slice, lookup-reread m key, absent) (map_str_slice-reread keys)
    | inr (v, present) ↦
        rw (map_str_slice, lookup-reread m key, present, str_slice_of-as_json v)
          (elim (Option-cases (str_slice_of v)) [
            | inl other ↦ rw other (map_str_slice-reread keys)
            | inr (l, listed) ↦ rw listed refl
          ])
  ]

  -- The evaluator reads the same capability from both.
  pub claim_capability-reread :
      (c : NormalizedCredential) → claim_capability c (reread m) ≡ claim_capability c m
  unfolding claim_capability
  claim_capability-reread c =
      rw
        (
          map_str-reread "controller",
          map_str-reread "on_behalf_of",
          map_str-reread "onBehalfOf",
          map_str-reread "delegate",
          map_str-reread "valid_until",
          map_str-reread "validUntil",
          map_bool-reread "allow_further_delegation",
          map_bool-reread "allowFurtherDelegation",
          has-reread "parent_capability",
          map_str_slice-reread ("allowed_action" ∷ "allowedAction" ∷ []),
        )
        refl
