-- ===== src/Gates/Cards/Examples.antt =====
-- The theorems on the verifier's gates and cards at a presentation of two credentials, one of which expires.

use text.Mathlib.Text.{◌==◌}
use verifiably.Prelude.{◌≡◌, ◌≢◌, ◌↔◌, refl, true, false, [], ◌∷◌, none, some, pos, arith}
use verifiably.Prelude.Outcome.{ok}
use verifiably.Prelude.Dict.{find}
use verifiably.Prelude.Texts.{trim_space, trim_left, trim_right, is_space}
use verifiably.Delegation.Json.{
  Decoders, Fields, empty, field, number, as_map_or_json, as_slice, as_map, lookup, type_contains,
  type_matches, map_str, map_str_slice, str_slice_of, map_bool, has, ref_id, first_non_empty,
  caveat_valid_until, first_valid_until,
}
use verifiably.Delegation.Temporal.{
  NormalizedCredential, temporal_bounds, first_raw_time, time_of, subject_time,
}
use verifiably.Delegation.Extract.{
  find_delegation, find_delegation_from, extract_capability, first_terms, terms_capability,
  flat_capability, flat_claim, status_ref,
}
use verifiably.Delegation.Evaluate.{evaluate}
use verifiably.Gates.Verdict.{
  VerificationResult, Setting, host_method, attach_delegation_verdict, attach_temporal_verdict,
  attach_revocation_verdict, temporal_fault, revocation_fault, apply_verdict,
}
use verifiably.Gates.Verdict.Sound.{Passes, attach_delegation_verdict_iff}
use verifiably.Gates.Cards.{attach_with_cards}
use verifiably.Gates.Cards.Agreement.{AllUnfailed, valid-AllUnfailed}

abbrev decoders : Decoders
decoders = record {
  to_lower = λ s. s;
  equal_fold = λ s t. s == t;
  parse_int = λ s. pos 0;
  unmarshal = λ s. none;
  parse_layout = λ layout s. none;
}

abbrev credential : Fields → NormalizedCredential
credential raw = record {
  types = "VerifiableCredential" ∷ "ResidenceCertificate" ∷ [];
  subject_id = "did:key:holder";
  issuer = "did:web:registry";
  format = "w3c_vcdm_2";
  claims = [];
  raw = raw;
  host_status = "";
}

abbrev presented : VerificationResult
presented = record {
  valid = true;
  method = host_method "OID4VP" ∷ [];
  checked_revocation = false;
  delegation = none;
  credentials = credential empty ∷ credential (field "exp" (number (pos 2000000000)) empty) ∷ [];
  holder_binding = none;
}

abbrev setting : Setting
setting = record {
  gate_now = 62135596801000000000;
  evaluation_now = 62135596801000000000;
  check = some (λ ref. ok false);
  trust = none;
}

some_presented : presented.credentials ≢ []
some_presented e = ground (arith, e)

attach_delegation_verdict_iff_example :
    ((attach_delegation_verdict decoders setting presented).valid ≡ true)
    ↔ Passes decoders setting presented
attach_delegation_verdict_iff_example =
    attach_delegation_verdict_iff decoders setting presented some_presented

still_valid :
    (attach_with_cards decoders (λ c. "") setting.gate_now setting presented).0.valid ≡ true
unfolding attach_with_cards attach_delegation_verdict attach_temporal_verdict
    attach_revocation_verdict apply_verdict temporal_fault revocation_fault evaluate find_delegation
    find_delegation_from extract_capability first_terms as_map_or_json as_slice as_map lookup
    type_contains type_matches terms_capability flat_capability flat_claim status_ref
    temporal_bounds first_raw_time time_of subject_time map_str map_str_slice str_slice_of map_bool
    has ref_id first_non_empty caveat_valid_until first_valid_until trim_space trim_left trim_right
    is_space find
still_valid = refl

valid-AllUnfailed_example :
    AllUnfailed (attach_with_cards decoders (λ c. "") setting.gate_now setting presented).1
valid-AllUnfailed_example =
    valid-AllUnfailed decoders setting presented (λ c. "") refl some_presented still_valid
