-- ===== src/SchemaRegistry/Isolation.antt =====
-- Who sees which schemas in internal/adapters/registry/registry.go: ListAllSchemas and ListSchemas.
use verifiably.Prelude.{◌≡◌, false, List, String}
use verifiably.Prelude.Dict.{Dict}
use verifiably.SchemaRegistry.{Schema, is_hidden}

module _ (owner : String) (custom : List Schema) where
  abbrev pub Unhidden : Schema → Type 0
  Unhidden s = is_hidden owner custom s.id ≡ false
