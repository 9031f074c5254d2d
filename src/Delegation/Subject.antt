-- ===== src/Delegation/Subject.antt =====
-- The names of a credential's subject in internal/delegation/extract.go.
pub mod Anchors
use Prim.Native.Char.{code}
use text.Mathlib.Text.{◌==◌}
use verifiably.Prelude.{
  ℕ, zero, suc, Bool, true, false, not, ◌&&◌, ◌||◌, List, [], ◌∷◌, ◌++◌, Option, none, some, String,
  if◌then◌else◌, ◌==◌ as nat_eq, ℤ, pos, any, keep_if, map,
}
use verifiably.Prelude.Dict.{Dict, find}
use verifiably.Prelude.Texts.{trim_space, contains}
use verifiably.Delegation.Json.{
  Value, Values, nothing, item, Fields, Decoders, lookup, has, as_map, map_of, as_slice, map_str,
  map_str_slice, map_bool, first_non_empty, ref_id, caveat_valid_until, type_contains, map_int,
  as_map_or_json, or_empty,
}
use verifiably.Delegation.Temporal.{NormalizedCredential, HolderBinding}

abbrev pub same_ref : String → String → Bool
same_ref a b = trim_space a == trim_space b && not (a == "")

-- The text of a claim, "" where there is none.
abbrev pub claim : NormalizedCredential → String → String
claim c key = or_empty (find c.claims key)

unfoldable pub subject_anchor : NormalizedCredential → String
subject_anchor c =
    let in_subject : String = elim (as_map c.raw "credentialSubject") [
      | none ↦ ""
      | some cs ↦ map_str cs "subjectRef"
    ] in
    if not (in_subject == "")
    then in_subject
    else if not (map_str c.raw "subjectRef" == "")
    then map_str c.raw "subjectRef"
    else if not (claim c "subjectRef" == "")
    then claim c "subjectRef"
    else c.subject_id

-- strings.HasSuffix
unfoldable pub has_suffix : String → String → Bool
has_suffix String.[] t = t == String.[]
has_suffix (String.◌∷◌ ch s) t = String.◌∷◌ ch s == t || has_suffix s t

-- The replacer of "_", "-" and " " by nothing.
unfoldable pub squeezed : String → String
squeezed String.[] = String.[]
squeezed (String.◌∷◌ ch s) =
    let rest = squeezed s in
    if nat_eq (code ch) b'_' || nat_eq (code ch) b'-' || nat_eq (code ch) b' '
    then rest
    else String.◌∷◌ ch rest

unfoldable pub add : List String → String → List String
add out v = let w = trim_space v in if w == "" || any (λ u. u == w) out then out else out ++ w ∷ []

unfoldable pub add_all : List String → List String → List String
unfolding add
add_all out [] = out
add_all out (v ∷ vs) = add_all (add out v) vs

module _ (d : Decoders) where
  unfoldable pub is_identifier_field_name : String → Bool
  unfolding squeezed has_suffix
  is_identifier_field_name name =
      let n = squeezed (d.to_lower name) in
      any (λ word. n == word)
        ("subjectref" ∷ "id" ∷ "identifier" ∷ "uin" ∷ "nin" ∷ "did" ∷ "msisdn" ∷ [])
      || has_suffix n "id"
      || has_suffix n "number"
      || has_suffix n "ref"

  -- The values of the claims that are named like an identifier.
  unfoldable pub identifier_values : Dict String → List String
  identifier_values [] = []
  identifier_values ((k, v) ∷ rest) =
      let others = identifier_values rest in
      if is_identifier_field_name k then v ∷ others else others

  -- What subjectIdentifiers calls add with, in order.
  unfoldable pub candidates : NormalizedCredential → List String
  unfolding identifier_values
  candidates c =
      let own =
        map_str c.raw "subjectRef"
        ∷ claim c "subjectRef"
        ∷ c.subject_id
        ∷ identifier_values c.claims in
      elim (as_map c.raw "credentialSubject") [
        | none ↦ own
        | some cs ↦ map_str cs "subjectRef" ∷ own
      ]

  unfoldable pub subject_identifiers : NormalizedCredential → List String
  subject_identifiers c = add_all [] (candidates c)

  unfoldable pub subject_identifies : NormalizedCredential → String → Bool
  subject_identifies c on_behalf_of = any (λ id. same_ref id on_behalf_of) (subject_identifiers c)
