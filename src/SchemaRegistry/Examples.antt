-- ===== src/SchemaRegistry/Examples.antt =====
-- The theorems on the schema registry at a deployment of two issuers, Ada and Bo.
use verifiably.Prelude.{◌≡◌, true, false, List, [], ◌∷◌, none, some, String}
use verifiably.SchemaRegistry.{Schema, Adapter, Registry}
use verifiably.SchemaRegistry.Deletion.{Call, save, delete, run, others, run-others}

abbrev schema : String → String → Schema
schema id owner = record {
  id = id;
  dpgs = "walt" ∷ [];
  custom = true;
  owner_key = owner;
  expires = false;
  variant_ids = [];
  field_names = [];
  settings = "";
}

abbrev walt : Adapter
walt = record {
  schemas = some (schema "birth" "" ∷ schema "custom-1" "" ∷ []);
  saves = λ s. true;
  deletes = λ id. false;
}

abbrev registry : Registry
registry = record {
  issuers = ("walt", walt) ∷ [];
  custom_schemas = schema "custom-1" "ada" ∷ schema "custom-2" "bo" ∷ [];
  store = none;
}

abbrev calls : List Call
calls = delete "custom-1" ∷ save (schema "custom-1" "") ∷ delete "custom-2" ∷ []

run-others_example :
    others "bo" (run "bo" calls registry).custom_schemas ≡ others "bo" registry.custom_schemas
run-others_example = run-others "bo" calls registry
