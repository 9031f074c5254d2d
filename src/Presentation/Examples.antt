-- ===== src/Presentation/Examples.antt =====
-- The theorem on SD-JWTs at one with a disclosure that repeats a claim of the payload.
use verifiably.Prelude.{ℕ, ◌≡◌, refl, List, Option, some}
use verifiably.Prelude.Texts.{split}
use verifiably.Delegation.Json.{Values, nothing, item, Fields, empty, field, str}
use verifiably.Jose.{Codecs}
use verifiably.StatusList.Signing.Sample.{sample}
use verifiably.Presentation.{Printer, decode_jwt_payload}

abbrev printer : Printer
printer = record { number_text = λ n. "0"; json_text = λ v. "{}" }

abbrev payload : Fields
payload =
    field "vct" (str "Birth") (field "name" (str "Bo") (field "sub" (str "did:key:ada") empty))

abbrev codecs : Codecs
codecs = sample (λ n. some payload) ""

abbrev disclosures : List ℕ → Option Values
disclosures b = some (item (str "salt") (item (str "name") (item (str "Ada") nothing)))

decoded : decode_jwt_payload codecs "b.b.b" ≡ some payload
unfolding decode_jwt_payload split
decoded = refl
