-- ===== src/Issuance/Examples.antt =====
-- The theorems on the issuance log at concrete entries, and runs of its methods.
use Prim.Native.String.{◌++◌ as append_text}
use verifiably.Prelude.{ℕ, ◌≡◌, refl, true, false, List, [], ◌∷◌, none, some, String}
use verifiably.Prelude.Outcome.{err}
use verifiably.Prelude.Texts.{trim_space}
use verifiably.Issuance.{
  IssuedCredential, Filter, Log, saved, load, append, get, mark_reinstate, with_revoked_at,
  verify_chain, verify_from, write_failed,
}
use verifiably.Issuance.Append.{Inv, append-Inv}
use verifiably.Issuance.Marks.{mark_reinstate_failed}
use verifiably.Issuance.Listing.{list, keeps, sort_newest}

-- A digest and a time format for the runs.
abbrev digest : String → String
digest s = append_text "#" s

abbrev stamp : ℕ → String
stamp t = "t"

abbrev to_lower : String → String
to_lower s = s

abbrev entry : String → String → ℕ → IssuedCredential
entry id owner at = record {
  id = id;
  schema_id = "birth";
  schema_name = "Birth Certificate";
  std = "w3c_vcdm_2";
  format = "ldp_vc";
  issuer_dpg = "walt";
  owner_key = owner;
  holder_hint = "";
  subject_fields = [];
  offer_uri = "";
  issued_at = at;
  revoked_at = none;
  status_list = none;
  prev_hash = "";
  source = "";
}

abbrev first : IssuedCredential
first = entry "vc-1" "alice" 5

abbrev revoked_first : IssuedCredential
revoked_first = with_revoked_at (some 7) first

abbrev one : Log
one = record { items = first ∷ []; file = saved (first ∷ []) }

abbrev one_revoked : Log
one_revoked = record { items = revoked_first ∷ []; file = saved (revoked_first ∷ []) }

one-Inv : Inv digest stamp one
unfolding verify_chain verify_from load get
one-Inv = record { distinct = (refl, tt); intact = refl; synced = refl }

append-Inv_example : Inv digest stamp (append digest stamp true 9 (entry "vc-2" "bob" 0) one).0
append-Inv_example = append-Inv digest stamp true 9 (entry "vc-2" "bob" 0) one one-Inv

present : get one_revoked.items "vc-1" ≡ some revoked_first
unfolding get
present = refl

mark_reinstate_failed_example :
    let r = mark_reinstate false 9 "vc-1" "alice" one_revoked in
    (r.1 ≡ err write_failed)
    × (r.0.file ≡ one_revoked.file)
    × (get r.0.items "vc-1" ≡ some (with_revoked_at (some 9) revoked_first))
mark_reinstate_failed_example =
    mark_reinstate_failed 9 "vc-1" "alice" one_revoked revoked_first present refl refl

abbrev of_alice : Filter
of_alice = record { query = ""; std = ""; format = ""; state = "active"; owner_key = "alice" }

abbrev three : List IssuedCredential
three = first ∷ entry "vc-2" "bob" 6 ∷ entry "vc-3" "alice" 9 ∷ []

listed : list to_lower three of_alice ≡ entry "vc-3" "alice" 9 ∷ first ∷ []
unfolding list keeps sort_newest trim_space
listed = refl
