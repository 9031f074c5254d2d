-- ===== src/Eligibility/Examples.antt =====
-- The theorems on eligibility at a citizen whose claims fill one of two credentials.
use verifiably.Prelude.{◌≡◌, refl, [], ◌∷◌, some, String, get_elem?}
use verifiably.Prelude.Dict.{Dict}
use verifiably.Eligibility.{CredentialConfig, EligibilityResult, evaluate_eligibility}
use verifiably.Eligibility.Laws.{Judged, evaluate_eligibility-Judged}

abbrev as_is : String → String
as_is s = s

abbrev claims : Dict String
claims = ("given_name", "Ada") ∷ ("birthdate", "1815-12-10") ∷ ("nickname", "") ∷ []

abbrev residence : CredentialConfig
residence = record { id = "residence"; claims = "nombre" ∷ "dob" ∷ [] }

abbrev diploma : CredentialConfig
diploma = record { id = "diploma"; claims = "nombre" ∷ "degree" ∷ [] }

evaluate_eligibility-Judged_example :
    (r : EligibilityResult) × (get_elem?
        (evaluate_eligibility as_is (residence ∷ diploma ∷ []) claims)
        1
      ≡ some r)
    × Judged as_is claims diploma r
evaluate_eligibility-Judged_example =
    evaluate_eligibility-Judged as_is (residence ∷ diploma ∷ []) claims 1 diploma refl
