-- ===== src/Roles.antt =====
-- internal/roles/roles.go: the roles of a deployment, parsed from one variable. A Set is the list of its
-- names, or none for the nil set; folding to lower case is an argument.
pub mod Laws
use text.Mathlib.Text.{◌==◌}
use verifiably.Prelude.{
  Bool, true, false, ◌||◌, List, [], ◌∷◌, Option, none, some, String, if◌then◌else◌,
}
use verifiably.Prelude.Texts.{trim_space, split}

abbrev pub RoleSet : Type 0
RoleSet = Option (List String)

-- _, ok := set[role]
unfoldable pub holds : List String → String → Bool
holds [] role = false
holds (r ∷ rs) role = r == role || holds rs role

-- set[role] = struct{}{}
unfoldable pub insert : List String → String → List String
unfolding holds
insert set role = if holds set role then set else role ∷ set

module _ (to_lower : String → String) where
  unfoldable pub parsed : List String → List String → List String
  unfolding insert
  parsed set [] = set
  parsed set (piece ∷ pieces) =
      let r = to_lower (trim_space piece) in parsed (if r == "" then set else insert set r) pieces

  unfoldable pub parse : String → RoleSet
  unfolding parsed
  parse s =
      let set = parsed [] (split b',' (trim_space s)) in
      if trim_space s == ""
      then none
      else if holds set "hub"
      then some (insert (insert set "trust") "schemas")
      else some set

-- Has
unfoldable pub has : RoleSet → String → Bool
unfolding holds
has none role = true
has (some set) role = holds set role
