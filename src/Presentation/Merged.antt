-- ===== src/Presentation/Merged.antt =====
-- What internal/vp/vp.go keeps of an SD-JWT's disclosures and of a subject's claims.
use text.Mathlib.Text.{◌==◌}
use verifiably.Prelude.{
  ℕ, ◌≡◌, refl, ap, ◌∙◌, inl, inr, List, [], ◌∷◌, Option, none, some, String, if◌then◌else◌, arith,
  eq_iff, Bool-cases,
}
use verifiably.Prelude.Dict.{Dict, find, find-put}
use verifiably.Delegation.Json.{Value, Values, Fields, empty, field, lookup}
use verifiably.Jose.{Codecs}
use verifiably.Presentation.{
  Printer, stringify, claims_of, is_reserved, payload_claims, disclosure_of,
}

-- A later value, or else an earlier one.
abbrev pub else_keep : {A : Type 0} → Option A → Option A → Option A
else_keep none earlier = earlier
else_keep (some v) earlier = some v

abbrev pub texts_of : Printer → Option Value → Option String
texts_of p none = none
texts_of p (some v) = some (stringify p v)

module _ (p : Printer) where
  pub find-claims_of :
      (m : Fields) (key : String)
      → find (claims_of p m) key ≡ (if "id" == key then none else texts_of p (lookup m key))
  unfolding claims_of find lookup
  find-claims_of empty key = ground arith
  find-claims_of (field k v rest) key = ground (
    arith,
    find-claims_of rest key,
    find-put (claims_of p rest) k key (stringify p v),
    eq_iff k "id",
    eq_iff k key,
    eq_iff "id" key,
  )

  find-payload_claims_field :
      (k key : String) (v : Value) (rest : Fields)
      → find (payload_claims p (field k v rest)) key ≡ (
          if is_reserved k
          then find (payload_claims p rest) key
          else if k == key
          then some (stringify p v)
          else find (payload_claims p rest) key)
  unfolding payload_claims
  find-payload_claims_field k key v rest = elim (Bool-cases (is_reserved k)) [
    | inl kept ↦ rw (kept, payload_claims) refl
    | inr free ↦ rw (free, payload_claims) (find-put (payload_claims p rest) k key (stringify p v))
  ]

  pub find-payload_claims :
      (m : Fields) (key : String)
      → find (payload_claims p m) key
        ≡ (if is_reserved key then none else texts_of p (lookup m key))
  unfolding payload_claims find lookup
  find-payload_claims empty key = elim (Bool-cases (is_reserved key)) [
    | inl kept ↦ rw kept refl
    | inr free ↦ rw free refl
  ]
  find-payload_claims (field k v rest) key =
      find-payload_claims_field k key v rest ∙ elim (Bool-cases (k == key)) [
        | inr other ↦
            rw (other, find-payload_claims rest key)
              (elim (Bool-cases (is_reserved k)) [
                | inl kept ↦ rw kept refl
                | inr free ↦ rw free refl
              ])
        | inl same ↦
            rw (same, find-payload_claims rest key, ap is_reserved ((eq_iff k key).0 same))
              (elim (Bool-cases (is_reserved key)) [
                | inl kept ↦ rw kept refl
                | inr free ↦ rw free refl
              ])
      ]

module _ (c : Codecs) (unmarshal_array : List ℕ → Option Values) where
  -- The value of the last disclosure of a name.
  abbrev pub last_disclosed : List String → String → Option Value
  last_disclosed [] key = none
  last_disclosed (seg ∷ segs) key =
      let later = last_disclosed segs key in
      else_keep later (elim (disclosure_of c unmarshal_array seg) [
        | none ↦ none
        | some (name, v) ↦ if name == key then some v else none
      ])
