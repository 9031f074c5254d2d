-- ===== src/Delegation/Evaluate/Examples.antt =====
-- The theorems on delegation at a mother who presents her child's credentials, and a run of the
-- evaluator on them.
use mathlib.Core.Bool.{false≢true}
use text.Mathlib.Text.{◌==◌}
use verifiably.Prelude.{
  ℕ, ◌≡◌, ◌≢◌, ◌↔◌, refl, true, false, List, [], ◌∷◌, none, some, String, inl, eq_iff, pos,
}
use verifiably.Prelude.Texts.{trim_space, trim_left, trim_right, is_space}
use verifiably.Delegation.Json.{Decoders, empty, field, str, object}
use verifiably.Delegation.Temporal.{NormalizedCredential, HolderBinding}
use verifiably.Delegation.Subject.{same_ref, subject_identifies}
use verifiably.Delegation.Extract.{extract_capability, find_delegation, find_identity}
use verifiably.Delegation.Subject.Anchors.{Anchor, subject_identifies_iff}
use verifiably.Delegation.Evaluate.{Options, evaluate}
use verifiably.Delegation.Evaluate.Verdict.{Authorised, evaluate_iff}
use verifiably.Delegation.Build.{DelegationCredentialSpec, build_delegation_credential}
use verifiably.Delegation.Build.RoundTrip.{read_back, extract-build}
use verifiably.Delegation.Build.Claims.{
  SubjectCredentialSpec, delegation_object, delegation_claims, claim_or,
}
use verifiably.Delegation.Build.Reread.{reread}
use verifiably.Delegation.Build.Flat.{extract-delegation_claims}
use verifiably.Delegation.Build.Linkage.{presented as built, evaluate-build}
use verifiably.Presentation.{Printer}
use verifiably.Delegation.Extract.{
  find_delegation_from, find_identity_from, status_ref, flat_capability, flat_claim, first_terms,
  terms_capability,
}
use verifiably.Delegation.Subject.{
  subject_anchor, subject_identifiers, candidates, add, add_all, identifier_values,
  is_identifier_field_name, squeezed, has_suffix,
}
use verifiably.Delegation.Evaluate.{
  check_linkage, check_invocation, check_capability, check_status, check_trust, check_window,
  check_until, check_status_of, contains_fold, primary_type, holder_ref,
}
use verifiably.Delegation.Build.{capability_fields, add_validity}
use verifiably.Delegation.Json.{
  as_map_or_json, as_slice, as_map, lookup, type_contains, type_matches, map_str, map_str_slice,
  str_slice_of, map_bool, has, ref_id, first_non_empty, caveat_valid_until, first_valid_until,
}
use verifiably.Delegation.Temporal.{temporal_bounds, first_raw_time, time_of, subject_time}
use verifiably.Prelude.Texts.{contains}
use verifiably.Prelude.Dict.{find}

abbrev decoders : Decoders
decoders = record {
  to_lower = λ s. s;
  equal_fold = λ s t. s == t;
  parse_int = λ s. pos 0;
  unmarshal = λ s. none;
  parse_layout = λ layout s. none;
}

abbrev show_index : ℕ → String
show_index n = "0"

abbrev spec : DelegationCredentialSpec
spec = record {
  data_model = "w3c_vcdm_2";
  context_url = "";
  type = "ParentalAuthority";
  issuer = "did:web:registry";
  delegate_id = "did:key:mother";
  on_behalf_of = "child-7";
  role = "Mother";
  allowed_action = "present" ∷ [];
  valid_from = "";
  valid_until = "";
  allow_further_delegation = false;
  status = none;
}

abbrev delegation : NormalizedCredential
delegation = record {
  types = "VerifiableCredential" ∷ "DelegatedAccessCredential" ∷ [];
  subject_id = "did:key:mother";
  issuer = "did:web:registry";
  format = "w3c_vcdm_2";
  claims = [];
  raw = build_delegation_credential show_index spec;
  host_status = "";
}

abbrev birth : NormalizedCredential
birth = record {
  types = "VerifiableCredential" ∷ "BirthCertificate" ∷ [];
  subject_id = "did:key:child";
  issuer = "did:web:registry";
  format = "w3c_vcdm_2";
  claims = ("name", "Ada") ∷ [];
  raw = field "credentialSubject" (object (field "subjectRef" (str "child-7") empty)) empty;
  host_status = "";
}

abbrev presented : List NormalizedCredential
presented = birth ∷ delegation ∷ []

abbrev mother : HolderBinding
mother = record { id = "did:key:mother"; key_thumbprint = ""; confirmed = true }

abbrev options : Options
options = record {
  now = 100;
  requested_action = "present";
  status = none;
  trust = some (λ issuer schema. true);
  fail_closed = true;
}

evaluate_iff_example :
    ((evaluate decoders presented (some mother) options).authorized ≡ true)
    ↔ Authorised decoders presented (some mother) options
evaluate_iff_example = evaluate_iff decoders presented (some mother) options

subject_identifies_iff_example :
    (subject_identifies decoders birth "child-7" ≡ true)
    ↔ ((v : String) × Anchor decoders birth v × (same_ref (trim_space v) "child-7" ≡ true))
subject_identifies_iff_example = subject_identifies_iff decoders birth "child-7"

child_named : trim_space "child-7" ≢ ""
unfolding trim_space trim_left trim_right is_space
child_named e = false≢true ((eq_iff "child-7" "").1 e)

extract-build_example :
    extract_capability decoders delegation ≡ some (read_back show_index spec delegation)
extract-build_example =
    extract-build show_index spec decoders delegation refl refl child_named (inl refl)

-- A decoder that gives back the object of the claim.
abbrev rereading : Decoders
rereading = record decoders { unmarshal = λ s. some (reread (delegation_object spec)) }

abbrev flat : NormalizedCredential
flat = record delegation { raw = field "delegation" (str "{}") empty }

json_shown : trim_space "{}" ≢ ""
unfolding trim_space trim_left trim_right is_space
json_shown e = false≢true ((eq_iff "{}" "").1 e)

flat_carries :
    lookup flat.raw "delegation"
    ≡ claim_or (find (delegation_claims (λ m. "{}") spec) "delegation") none
unfolding lookup find delegation_claims
flat_carries = refl

extract-delegation_claims_example :
    extract_capability rereading flat ≡ some (read_back show_index spec flat)
extract-delegation_claims_example =
    extract-delegation_claims spec rereading show_index (λ m. "{}") flat flat_carries refl
      json_shown child_named (inl refl)

abbrev child : SubjectCredentialSpec
child = record {
  data_model = "w3c_vcdm_2";
  context_url = "";
  issuer = "did:web:registry";
  subject_did = "did:key:child";
  subject_ref = "child-7";
  type = "BirthCertificate";
  claims = ("name", "Ada") ∷ [];
  valid_from = "";
  valid_until = "";
  status = none;
}

abbrev printer : Printer
printer = record { number_text = λ n. "0"; json_text = λ v. "{}" }

unnamed : find child.claims "subjectRef" ≡ none
unfolding find
unnamed = refl

child_trimmed : trim_space "child-7" ≡ "child-7"
unfolding trim_space trim_left trim_right is_space
child_trimmed = refl

child_present : ◌≢◌ {A = String} "child-7" ""
child_present e = false≢true ((eq_iff "child-7" "").1 e)

evaluate-build_example :
    let r =
      evaluate decoders
        (built printer decoders show_index spec child (birth ∷ []))
        (some mother)
        options in
    (r.linkage ≡ true) × (r.delegation_index ≡ some 0) × (r.subject_index ≡ some 1)
evaluate-build_example =
    evaluate-build printer decoders show_index spec child (birth ∷ []) (some mother) options refl
      unnamed refl child_trimmed child_present (inl refl)

-- The mother is authorised to present, and is trusted.
mother_authorised :
    ((evaluate decoders presented (some mother) options).authorized ≡ true)
    × ((evaluate decoders presented (some mother) options).trusted ≡ true)
unfolding evaluate find_delegation find_delegation_from extract_capability first_terms
    as_map_or_json as_slice as_map lookup type_contains type_matches terms_capability
    flat_capability flat_claim find_identity find_identity_from subject_anchor check_linkage
    check_invocation check_capability check_status check_trust check_window check_until
    check_status_of status_ref temporal_bounds first_raw_time time_of subject_time contains_fold
    primary_type subject_identifies subject_identifiers candidates add add_all identifier_values
    is_identifier_field_name squeezed has_suffix map_str map_str_slice str_slice_of map_bool has
    ref_id first_non_empty caveat_valid_until first_valid_until trim_space trim_left trim_right
    is_space find holder_ref build_delegation_credential capability_fields add_validity contains
mother_authorised = (refl, refl)
