-- ===== src/Delegation/Build/Lookups.antt =====
-- What a key gives among the fields that internal/delegation/build.go sets.
use text.Mathlib.Text.{◌==◌}
use verifiably.Prelude.{
  ◌≡◌, ◌⊎◌, inl, inr, refl, ◌∙◌, false, List, [], ◌∷◌, none, some, String, if◌then◌else◌, arith,
  Bool-cases,
}
use verifiably.Delegation.Json.{str, strs, Fields, lookup, map_str_slice, str_slice_of}
use verifiably.Delegation.Build.{text_field, list_field, add_validity}

pub lookup-text_field :
    (k v key : String) (rest : Fields)
    → lookup (text_field k v rest) key
      ≡ (if k == key then (if v == "" then lookup rest key else some (str v)) else lookup rest key)
unfolding lookup
lookup-text_field k v key rest = ground arith

pub lookup-text_field_ne :
    (k v key : String) (rest : Fields)
    → (k == key) ≡ false
    → lookup (text_field k v rest) key ≡ lookup rest key
lookup-text_field_ne k v key rest h = lookup-text_field k v key rest ∙ rw h refl

pub lookup-list_field_ne :
    (k : String) (l : List String) (key : String) (rest : Fields)
    → (k == key) ≡ false
    → lookup (list_field k l rest) key ≡ lookup rest key
unfolding lookup
lookup-list_field_ne k [] key rest h = refl
lookup-list_field_ne k (x ∷ xs) key rest h = rw h refl

pub lookup-add_validity_ne :
    (data_model from until key : String) (rest : Fields)
    → ("issuanceDate" == key) ≡ false
    → ("expirationDate" == key) ≡ false
    → ("validFrom" == key) ≡ false
    → ("validUntil" == key) ≡ false
    → lookup (add_validity data_model from until rest) key ≡ lookup rest key
unfolding add_validity
lookup-add_validity_ne data_model from until key rest h1 h2 h3 h4 =
    elim (Bool-cases (data_model == "w3c_vcdm_1")) [
      | inl old ↦ rw old (
          lookup-text_field_ne "issuanceDate" from key (text_field "expirationDate" until rest) h1
          ∙ lookup-text_field_ne "expirationDate" until key rest h2)
      | inr new' ↦ rw new' (
          lookup-text_field_ne "validFrom" from key (text_field "validUntil" until rest) h3
          ∙ lookup-text_field_ne "validUntil" until key rest h4)
    ]

pub lookup-list_field_nil :
    (k key : String) (rest : Fields) (l : List String)
    → l ≡ []
    → lookup (list_field k l rest) key ≡ lookup rest key
lookup-list_field_nil k key rest l e = rw e refl

pub List-cases : (l : List String) → (l ≡ []) ⊎ ((x : String) × (xs : List String) × (l ≡ x ∷ xs))
List-cases [] = inl refl
List-cases (x ∷ xs) = inr (x, xs, refl)

pub map_str_slice-found :
    (m : Fields) (key : String) (keys : List String) (l : List String)
    → lookup m key ≡ some (strs l)
    → map_str_slice m (key ∷ keys) ≡ l
unfolding map_str_slice str_slice_of
map_str_slice-found m key keys l h = rw (h, map_str_slice) refl

pub map_str_slice-absent :
    (m : Fields) (key other : String)
    → lookup m key ≡ none
    → lookup m other ≡ none
    → map_str_slice m (key ∷ other ∷ []) ≡ []
unfolding map_str_slice
map_str_slice-absent m key other h h' = ground arith
