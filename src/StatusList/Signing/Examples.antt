-- ===== src/StatusList/Signing/Examples.antt =====
-- The theorem on the key file of a status list at one key.
use mathlib.Core.Bool.{false≢true}
use verifiably.Prelude.{ℕ, ◌≡◌, ◌≢◌, refl, true, false, Option, some, arith, eq_iff, []}
use verifiably.Delegation.Json.{Fields, empty, field, str}
use verifiably.Jose.{Codecs, fill_bytes}
use verifiably.StatusList.Signing.{new_self_signed_key, persisted, b64_coord}
use verifiably.StatusList.Signing.RoundTrip.{KeyFits, new_self_signed_key_restart}
use verifiably.StatusList.Signing.Sample.{written, sample, sample-Lawful}

abbrev stored : ℕ → Option Fields
stored n = some (
    field "kty" (str "EC") (
      field "crv" (str "P-256") (
        field "x" (str (written (fill_bytes 32 5))) (
          field "y" (str (written (fill_bytes 32 7)))
            (field "d" (str (written (fill_bytes 32 3))) empty)))))

abbrev codecs : Codecs
codecs = sample stored ""

scalar_named : b64_coord codecs 3 ≢ ""
unfolding b64_coord fill_bytes
scalar_named e = false≢true ((eq_iff (b64_coord codecs 3) "").1 e)

key-KeyFits : KeyFits codecs (sample-Lawful stored "") 5 7 3
unfolding persisted b64_coord
key-KeyFits = record {
  x_lt = omega arith;
  y_lt = omega arith;
  d_lt = omega arith;
  stored = refl;
  named = scalar_named;
}

new_self_signed_key_restart_example :
    new_self_signed_key codecs "walt-id"
      (new_self_signed_key codecs "walt-id" (some []) (5, 7, 3) true).1
      (11, 13, 17)
      false
    ≡ new_self_signed_key codecs "walt-id" (some []) (5, 7, 3) true
new_self_signed_key_restart_example =
    new_self_signed_key_restart codecs (sample-Lawful stored "") "walt-id" (some []) 5 7 3
      (11, 13, 17) false key-KeyFits
