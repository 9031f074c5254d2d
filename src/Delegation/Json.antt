-- ===== src/Delegation/Json.antt =====
-- Decoded JSON as internal/delegation/extract.go reads it (Go's `any`), and its small helpers.
-- A number is a whole one. What the packages strings, strconv, encoding/json and time do with a text
-- beyond trimming it is an argument, `Decoders`. Of the white space that TrimSpace removes, see
-- Prelude.Texts.
use text.Mathlib.Text.{◌==◌}
use verifiably.Prelude.{
  ℕ, ◌≡◌, refl, Bool, true, false, ◌||◌, List, [], ◌∷◌, Option, none, some, String, if◌then◌else◌,
  ℤ, pos, any, arith, eq_iff,
}
use verifiably.Prelude.Texts.{trim_space}

-- `strs` is a []string, which only a body built in the process holds.
mutual
  pub data Value : Type 0 where
    null : Value
    boolean : Bool → Value
    number : ℤ → Value
    str : String → Value
    strs : List String → Value
    array : Values → Value
    object : Fields → Value

  pub data Values : Type 0 where
    nothing : Values
    item : Value → Values → Values

  -- A map[string]any, its fields in some order.
  pub data Fields : Type 0 where
    empty : Fields
    field : String → Value → Fields → Fields

pub record Decoders : Type 0 where
  pub to_lower : String → String
  pub equal_fold : String → String → Bool
  -- strconv.ParseInt(s, 10, 64), its value also where it fails
  pub parse_int : String → ℤ
  -- json.Unmarshal into a map
  pub unmarshal : String → Option Fields
  -- time.Parse by the layout, as an instant counted from the zero time
  pub parse_layout : String → String → Option ℕ

-- v, ok := m[key]
unfoldable pub lookup : Fields → String → Option Value
lookup empty key = none
lookup (field k v rest) key = if k == key then some v else lookup rest key

-- m[key] = v
unfoldable pub set_field : Fields → String → Value → Fields
set_field empty key new = field key new empty
set_field (field k v rest) key new =
    if k == key then field k new rest else field k v (set_field rest key new)

pub lookup-set_field :
    (m : Fields) (key other : String) (new : Value)
    → lookup (set_field m key new) other ≡ (if key == other then some new else lookup m other)
unfolding lookup set_field
lookup-set_field empty key other new = refl
lookup-set_field (field k v rest) key other new =
    ground
      (arith, lookup-set_field rest key other new, eq_iff key other, eq_iff k other, eq_iff k key)

unfoldable pub has : Fields → String → Bool
has m key = elim (lookup m key) [ none ↦ false | some v ↦ true ]

-- v.(map[string]any)
abbrev pub map_of : Value → Option Fields
map_of (object m) = some m
map_of _ = none

-- asMap(m[key])
unfoldable pub as_map : Fields → String → Option Fields
as_map m key = elim (lookup m key) [ none ↦ none | some v ↦ map_of v ]

abbrev pub slice_of : Value → Values
slice_of (array l) = l
slice_of (object m) = item (object m) nothing
slice_of _ = nothing

-- asSlice(m[key])
unfoldable pub as_slice : Fields → String → Values
as_slice m key = elim (lookup m key) [ none ↦ nothing | some v ↦ slice_of v ]

abbrev pub str_of : Value → Option String
str_of (str s) = some s
str_of _ = none

abbrev pub or_empty : Option String → String
or_empty none = ""
or_empty (some s) = s

unfoldable pub map_str : Fields → String → String
map_str m key = elim (lookup m key) [ none ↦ "" | some v ↦ or_empty (str_of v) ]

-- The elements that are strings.
unfoldable pub strings_in : Values → List String
strings_in nothing = []
strings_in (item v rest) =
    let others = strings_in rest in elim (str_of v) [ none ↦ others | some s ↦ s ∷ others ]

unfoldable pub str_slice_of : Value → Option (List String)
unfolding strings_in
str_slice_of (array l) = some (strings_in l)
str_slice_of (strs l) = some l
str_slice_of (str s) = some (s ∷ [])
str_slice_of _ = none

-- mapStrSlice: a key of another type than these passes the search on.
unfoldable pub map_str_slice : Fields → List String → List String
unfolding str_slice_of
map_str_slice m [] = []
map_str_slice m (key ∷ keys) =
    let others = map_str_slice m keys in
    elim (lookup m key) [
      | none ↦ others
      | some v ↦ elim (str_slice_of v) [ none ↦ others | some l ↦ l ]
    ]

abbrev pub bool_of : Value → Bool
bool_of (boolean b) = b
bool_of _ = false

unfoldable pub map_bool : Fields → String → Bool
map_bool m key = elim (lookup m key) [ none ↦ false | some v ↦ bool_of v ]

unfoldable pub first_non_empty : List String → String
unfolding trim_space
first_non_empty [] = ""
first_non_empty (v ∷ vs) = let rest = first_non_empty vs in if trim_space v == "" then rest else v

abbrev pub id_of : Value → String
id_of (str s) = s
id_of (object m) = map_str m "id"
id_of _ = ""

-- refID(parent[key], name)
unfoldable pub ref_id : Fields → String → String → String
ref_id parent key name = elim (as_map parent key) [
  | none ↦ ""
  | some m ↦ elim (lookup m name) [ none ↦ "" | some v ↦ id_of v ]
]

unfoldable pub first_valid_until : Values → String
first_valid_until nothing = ""
first_valid_until (item v rest) =
    let later = first_valid_until rest in
    elim (map_of v) [
      | none ↦ later
      | some m ↦ if map_str m "validUntil" == "" then later else map_str m "validUntil"
    ]

-- caveatValidUntil(m[key])
unfoldable pub caveat_valid_until : Fields → String → String
unfolding first_valid_until
caveat_valid_until m key = first_valid_until (as_slice m key)

module _ (d : Decoders) where
  unfoldable pub any_folds : String → Values → Bool
  any_folds want nothing = false
  any_folds want (item v rest) =
      elim (str_of v) [ none ↦ false | some s ↦ d.equal_fold s want ] || any_folds want rest

  unfoldable pub type_matches : String → Value → Bool
  unfolding any_folds
  type_matches want (str s) = d.equal_fold s want
  type_matches want (array l) = any_folds want l
  type_matches want (strs l) = any (λ s. d.equal_fold s want) l
  type_matches want _ = false

  -- typeContains(m[key], want)
  unfoldable pub type_contains : Fields → String → String → Bool
  unfolding type_matches
  type_contains m key want = elim (lookup m key) [ none ↦ false | some v ↦ type_matches want v ]

  unfoldable pub int_of : Value → ℤ
  unfolding trim_space
  int_of (number n) = n
  int_of (str s) = d.parse_int (trim_space s)
  int_of _ = pos 0

  unfoldable pub map_int : Fields → String → ℤ
  unfolding int_of
  map_int m key = elim (lookup m key) [ none ↦ pos 0 | some v ↦ int_of v ]

  -- The object that a text holds, where it is not blank.
  unfoldable pub decoded : Value → Option Fields
  unfolding trim_space
  decoded (object m) = some m
  decoded (str s) = if trim_space s == "" then none else d.unmarshal s
  decoded _ = none

  -- asMapOrJSON(m[key])
  unfoldable pub as_map_or_json : Fields → String → Option Fields
  unfolding decoded
  as_map_or_json m key = elim (lookup m key) [ none ↦ none | some v ↦ decoded v ]
