-- ===== src/Eligibility.antt =====
-- internal/handlers/identity_prefill.go and eligibility.go: the claims of a citizen's identity that fill the
-- fields of a credential, and the credentials that they suffice for. Folding to lower case is an
-- argument; the claims are listed in the order in which the code meets them.
pub mod Laws
mod Examples
use Prim.Native.Char.{code}
use text.Mathlib.Text.{◌==◌}
use verifiably.Prelude.{
  ℕ, Bool, true, false, not, ◌&&◌, ◌||◌, List, [], ◌∷◌, Option, none, some, String, if◌then◌else◌,
  leb,
}
use verifiably.Prelude.Dict.{Dict, find, put}

pub record CredentialConfig : Type 0 where
  pub id : String
  pub claims : List String

pub record EligibilityResult : Type 0 where
  pub id : String
  pub available : Bool
  pub missing_claims : List String

-- The letters a to z and digits of a text.
unfoldable pub alphanumeric : String → String
alphanumeric String.[] = String.[]
alphanumeric (String.◌∷◌ c s) =
    let rest = alphanumeric s in
    if (leb b'a' (code c) && leb (code c) b'z') || (leb b'0' (code c) && leb (code c) b'9')
    then String.◌∷◌ c rest
    else rest

abbrev pub identity_aliases : Dict (List String)
identity_aliases =
    ("firstname", "givenname" ∷ [])
    ∷ ("givennames", "givenname" ∷ [])
    ∷ ("nombre", "givenname" ∷ [])
    ∷ ("nombres", "givenname" ∷ [])
    ∷ ("lastname", "familyname" ∷ [])
    ∷ ("surname", "familyname" ∷ [])
    ∷ ("apellido", "familyname" ∷ [])
    ∷ ("apellidos", "familyname" ∷ [])
    ∷ ("fullname", "name" ∷ [])
    ∷ ("nombrecompleto", "name" ∷ [])
    ∷ ("dateofbirth", "birthdate" ∷ [])
    ∷ ("dob", "birthdate" ∷ [])
    ∷ ("fechanacimiento", "birthdate" ∷ [])
    ∷ ("nationalid", "nationalid" ∷ "cedula" ∷ "dni" ∷ [])
    ∷ ("cedula", "cedula" ∷ "nationalid" ∷ "dni" ∷ [])
    ∷ ("dni", "dni" ∷ "nationalid" ∷ "cedula" ∷ [])
    ∷ ("documentnumber", "nationalid" ∷ "cedula" ∷ "dni" ∷ [])
    ∷ ("documentid", "nationalid" ∷ "cedula" ∷ "dni" ∷ [])
    ∷ ("idnumber", "nationalid" ∷ "cedula" ∷ [])
    ∷ ("phone", "phonenumber" ∷ [])
    ∷ ("mobile", "phonenumber" ∷ [])
    ∷ ("telefono", "phonenumber" ∷ [])
    ∷ ("nationality", "nationality" ∷ [])
    ∷ ("nacionalidad", "nationality" ∷ [])
    ∷ []

-- The first of the keys that the claims have.
unfoldable pub first_present : List String → Dict String → Option String
first_present [] by_norm = none
first_present (k ∷ ks) by_norm =
    let later = first_present ks by_norm in elim (find by_norm k) [ none ↦ later | some v ↦ some v ]

abbrev pub aliases_of : String → List String
aliases_of nf = elim (find identity_aliases nf) [ none ↦ [] | some l ↦ l ]

abbrev pub is_nil : List String → Bool
is_nil [] = true
is_nil (x ∷ xs) = false

module _ (to_lower : String → String) where
  unfoldable pub norm_identity_key : String → String
  unfolding alphanumeric
  norm_identity_key s = alphanumeric (to_lower s)

  -- The loop of normalizeClaims, on the index so far.
  unfoldable pub index_claims : Dict String → Dict String → Dict String
  index_claims by_norm [] = by_norm
  index_claims by_norm ((k, v) ∷ rest) =
      index_claims (if v == "" then by_norm else put by_norm (norm_identity_key k) v) rest

  unfoldable pub normalize_claims : Dict String → Dict String
  unfolding index_claims
  normalize_claims claims = index_claims [] claims

  unfoldable pub resolve_claim : String → Dict String → Option String
  unfolding first_present
  resolve_claim field by_norm =
      let nf = norm_identity_key field in
      elim (find by_norm nf) [ some v ↦ some v | none ↦ first_present (aliases_of nf) by_norm ]

  -- The loop of identityPrefill, on the map so far.
  unfoldable pub fill_fields : Dict String → Dict String → List String → Dict String
  unfolding resolve_claim
  fill_fields by_norm out [] = out
  fill_fields by_norm out (f ∷ fs) =
      fill_fields by_norm (elim (resolve_claim f by_norm) [ none ↦ out | some v ↦ put out f v ]) fs

  -- A nil map is the empty one.
  unfoldable pub identity_prefill : List String → Dict String → Dict String
  unfolding fill_fields normalize_claims
  identity_prefill fields claims = fill_fields (normalize_claims claims) [] fields

  unfoldable pub missing_of : Dict String → List String → List String
  missing_of by_norm [] = []
  missing_of by_norm (name ∷ names) =
      let rest = missing_of by_norm names in
      elim (resolve_claim name by_norm) [ none ↦ name ∷ rest | some v ↦ rest ]

  unfoldable pub eligibility_of : Dict String → CredentialConfig → EligibilityResult
  unfolding missing_of
  eligibility_of by_norm c = record {
    id = c.id;
    available = not (is_nil c.claims) && is_nil (missing_of by_norm c.claims);
    missing_claims = missing_of by_norm c.claims;
  }

  unfoldable pub judge_configs : Dict String → List CredentialConfig → List EligibilityResult
  unfolding eligibility_of
  judge_configs by_norm [] = []
  judge_configs by_norm (c ∷ cs) = eligibility_of by_norm c ∷ judge_configs by_norm cs

  unfoldable pub evaluate_eligibility : List CredentialConfig → Dict String → List EligibilityResult
  unfolding judge_configs normalize_claims
  evaluate_eligibility configs claims = judge_configs (normalize_claims claims) configs
