-- ===== src/Otp/Examples.antt =====
-- The theorems on one-time codes at a small store, with a hash that only marks its argument.
use Prim.Native.String.{◌++◌ as append_text}
use verifiably.Prelude.{◌≢◌, ◌≡◌, ◌+◌, ◌<◌, ◌↔◌, refl, [], ◌∷◌, some, String, get_elem?, List, ℕ}
use verifiably.Prelude.Outcome.{ok, err}
use verifiably.Prelude.Dict.{Dict, find, put}
use verifiably.Otp.{OtpEntry, live, check, verify, answers, otp_max_attempts, expired}
use verifiably.Otp.Verify.{Accepts, verify-Accepts}
use verifiably.Otp.Attempts.{spent, answers_bounded}

abbrev marked : String → String
marked code = append_text "hash of " code

abbrev store : Dict OtpEntry
store =
    (
      "tok",
      record {
        individual_id = "id-7";
        email = "ada@example.org";
        code_hash = "hash of 042137";
        expiry = 1600;
        attempts = 3;
      },
    )
    ∷ []

right : (verify marked 1600 "tok" "042137" store).1 ≡ ok "id-7"
unfolding verify check live find
right = refl

verify-Accepts_example :
    (((verify marked 1600 "tok" "042137" store).1 ≡ ok "id-7")
      ↔ Accepts marked 1600 "tok" "042137" store "id-7")
    × ((verify marked 1600 "tok" "042137" store).1 ≡ ok "id-7"
        → (later : ℕ) (again : String)
        → (verify marked later "tok" again (verify marked 1600 "tok" "042137" store).0).1
          ≡ err expired)
    × ((other : String)
        → "tok" ≢ other
        → find (verify marked 1600 "tok" "042137" store).0 other ≡ find store other)
verify-Accepts_example = verify-Accepts marked 1600 "tok" "042137" store "id-7"

abbrev calls : List (ℕ × String)
calls = (1500, "000000") ∷ (1501, "042137") ∷ []

second : get_elem? (answers marked "tok" calls store) 1 ≡ some (ok "id-7")
unfolding answers verify check live find put
second = refl

answers_bounded_example : 1 + spent (find store "tok") < otp_max_attempts
answers_bounded_example = answers_bounded marked "tok" calls store 1 "id-7" second
