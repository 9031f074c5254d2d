-- ===== src/StatusLists.antt =====
-- internal/handlers/statuslists.go: the status lists that a process hosts, by public id and by the product and
-- kind that they are allocated for. A list is its kind, its id and its product; folding to lower case is
-- an argument.
pub mod Slugs
pub mod Lookups
mod Examples
use Prim.Native.Char.{Char, code}
use Prim.Native.String.{◌++◌ as append_text}
use text.Mathlib.Text.{◌==◌}
use verifiably.Prelude.{
  ℕ, Bool, true, false, not, ◌&&◌, ◌||◌, List, [], ◌∷◌, Option, none, some, String, if◌then◌else◌,
  leb, ◌==◌ as nat_eq,
}
use verifiably.Prelude.Dict.{Dict, find, put}

pub record StatusListEntry : Type 0 where
  pub list_id : String
  pub dpg : String
  pub kind : String

pub record StatusListSet : Type 0 where
  pub by_id : Dict StatusListEntry
  pub by_dpg : Dict (Dict StatusListEntry)
  pub defaults : Dict StatusListEntry

abbrev pub new_status_list_set : StatusListSet
new_status_list_set = record { by_id = []; by_dpg = []; defaults = [] }

unfoldable pub index_key : String → String → String
index_key kind id = append_text kind (append_text "/" id)

abbrev pub or_no_lists : Option (Dict StatusListEntry) → Dict StatusListEntry
or_no_lists none = []
or_no_lists (some m) = m

unfoldable pub register : StatusListEntry → StatusListSet → StatusListSet
unfolding index_key
register e s =
    let by_id = put s.by_id (index_key e.kind e.list_id) e in
    if e.dpg == ""
    then record s { by_id = by_id; defaults = put s.defaults e.kind e }
    else record s {
      by_id = by_id;
      by_dpg = put s.by_dpg e.dpg (put (or_no_lists (find s.by_dpg e.dpg)) e.kind e);
    }

-- ByID
unfoldable pub lookup_id : String → String → StatusListSet → Option StatusListEntry
lookup_id kind id s = if id == "" then none else find s.by_id (index_key kind id)

-- For
unfoldable pub lookup_dpg : String → String → StatusListSet → Option StatusListEntry
lookup_dpg dpg kind s = elim (find s.by_dpg dpg) [
  | none ↦ find s.defaults kind
  | some by_kind ↦ elim (find by_kind kind) [ none ↦ find s.defaults kind | some e ↦ some e ]
]

abbrev pub is_slug_char : Char → Bool
is_slug_char c =
    (leb b'a' (code c) && leb (code c) b'z') || (leb b'0' (code c) && leb (code c) b'9')

-- The loop of StatusListSlug: a run of other characters becomes one dash.
unfoldable pub dashed : Bool → String → String
dashed last_dash String.[] = String.[]
dashed last_dash (String.◌∷◌ c s) =
    let next = dashed false s in
    let after_dash = dashed true s in
    if is_slug_char c
    then String.◌∷◌ c next
    else if last_dash
    then after_dash
    else String.◌∷◌ "-" after_dash

-- strings.Trim(s, "-")
unfoldable pub trim_left_dashes : String → String
trim_left_dashes String.[] = String.[]
trim_left_dashes (String.◌∷◌ c s) =
    let rest = trim_left_dashes s in if nat_eq (code c) b'-' then rest else String.◌∷◌ c s

abbrev pub cons_undashed : Char → String → String
cons_undashed c String.[] = if nat_eq (code c) b'-' then String.[] else String.◌∷◌ c String.[]
cons_undashed c (String.◌∷◌ d s) = String.◌∷◌ c (String.◌∷◌ d s)

unfoldable pub trim_right_dashes : String → String
trim_right_dashes String.[] = String.[]
trim_right_dashes (String.◌∷◌ c s) = cons_undashed c (trim_right_dashes s)

module _ (to_lower : String → String) where
  unfoldable pub status_list_slug : String → String
  unfolding dashed trim_left_dashes trim_right_dashes
  status_list_slug vendor = trim_right_dashes (trim_left_dashes (dashed true (to_lower vendor)))

  unfoldable pub status_list_id : String → String → String
  unfolding status_list_slug
  status_list_id vendor kind =
      if status_list_slug vendor == ""
      then kind
      else append_text (status_list_slug vendor) (append_text "-" kind)
