-- ===== src/SchemaRegistry.antt =====
-- internal/adapters/registry: the schemas of a deployment and who sees them. registry.go asks the adapter of
-- each vendor and keeps the schemas that issuers build, schema_store.go mirrors those in a file. An
-- adapter is what it answers to one call; an owner is "" for the administrator. Go's iteration over the
-- vendors is the order of their list.
pub mod Isolation
pub mod Deletion
mod Examples
use text.Mathlib.Text.{◌==◌}
use verifiably.Prelude.{
  ℕ, Bool, true, false, not, ◌&&◌, ◌||◌, List, [], ◌∷◌, ◌++◌, Option, none, some, String,
  if◌then◌else◌, any, keep_if, map,
}
use verifiably.Prelude.Outcome.{Outcome, ok, err}
use verifiably.Prelude.Dict.{Dict, find}
use verifiably.Prelude.Texts.{trim_space, has_prefix}

-- Of vctypes.Schema, the fields that the registry reads or writes; one text stands for the others, and a
-- variant is its id, a field its name.
pub record Schema : Type 0 where
  pub id : String
  pub dpgs : List String
  pub custom : Bool
  pub owner_key : String
  pub expires : Bool
  pub variant_ids : List String
  pub field_names : List String
  pub settings : String

pub data RegistryError : Type 0 where
  unknown_dpg vendor_failed not_found : RegistryError
  id_required read_failed write_failed : RegistryError
  save_refused delete_refused : RegistryError

pub record Adapter : Type 0 where
  pub schemas : Option (List Schema)
  pub saves : Schema → Bool
  pub deletes : String → Bool

-- The file of the store: its schemas, none where it cannot be read, and whether it can be written.
pub record SchemaStore : Type 0 where
  pub saved : Option (List Schema)
  pub writable : Bool

pub record Registry : Type 0 where
  pub issuers : Dict Adapter
  pub custom_schemas : List Schema
  pub store : Option SchemaStore

-- owner != "" && s.OwnerKey != "" && s.OwnerKey != owner
abbrev pub is_foreign : String → Schema → Bool
is_foreign owner s = not (owner == "") && not (s.owner_key == "") && not (s.owner_key == owner)

-- A schema that has the id, itself or by a variant.
abbrev pub has_variant_id : String → Schema → Bool
has_variant_id id s = s.id == id || any (λ v. v == id) s.variant_ids

-- hideIDs: the ids of another owner's schemas.
unfoldable pub is_hidden : String → List Schema → String → Bool
is_hidden owner custom id = any (λ s. is_foreign owner s && has_variant_id id s) custom

abbrev pub visible : String → List Schema → List Schema
visible owner custom = keep_if (λ s. not (is_foreign owner s)) custom

module _ (equal_fold : String → String → Bool) where
  unfoldable pub expires_with_window : Schema → Bool
  expires_with_window s =
      s.expires || any (λ name. equal_fold (trim_space name) "valid_until") s.field_names

  -- The loop over the vendor's schemas in applyOwnedMetadata.
  unfoldable pub apply_owned_metadata : List Schema → List Schema → List Schema
  unfolding expires_with_window
  apply_owned_metadata vendor custom =
      map {B = Schema}
        (λ s. record s {
          expires = s.expires || any (λ c. expires_with_window c && has_variant_id s.id c) custom;
        })
        vendor

  -- With an error the schemas that were gathered are returned as well.
  unfoldable pub list_schemas : String → String → Registry → List Schema × Option RegistryError
  unfolding is_hidden apply_owned_metadata
  list_schemas owner issuer_dpg r =
      let custom =
        keep_if (λ s. not (is_foreign owner s) && any (λ d. d == issuer_dpg) s.dpgs)
          r.custom_schemas in
      elim (find r.issuers issuer_dpg) [
        | none ↦ ([], some unknown_dpg)
        | some ad ↦ elim ad.schemas [
          | none ↦ (custom, some vendor_failed)
          | some vendor ↦ (
            apply_owned_metadata (keep_if (λ s. not (is_hidden owner r.custom_schemas s.id)) vendor)
                  custom
                ++ custom,
            none,
          )
        ]
      ]

  -- One vendor's schemas onto those collected before: no id twice, and none that is hidden.
  unfoldable pub collect : String → List Schema → List Schema → List Schema → List Schema
  unfolding is_hidden
  collect owner custom out [] = out
  collect owner custom out (s ∷ ss) =
      let skipped = collect owner custom out ss in
      let taken = collect owner custom (out ++ s ∷ []) ss in
      if any (λ t. t.id == s.id) out || is_hidden owner custom s.id then skipped else taken

  -- The loop over the vendors; one that fails is skipped.
  unfoldable pub collect_vendors : String → List Schema → List Schema → Dict Adapter → List Schema
  unfolding collect
  collect_vendors owner custom out [] = out
  collect_vendors owner custom out ((vendor, ad) ∷ rest) = elim ad.schemas [
    | none ↦ collect_vendors owner custom out rest
    | some ss ↦ collect_vendors owner custom (collect owner custom out ss) rest
  ]

  unfoldable pub list_all_schemas : String → Registry → List Schema
  unfolding collect_vendors apply_owned_metadata
  list_all_schemas owner r =
      apply_owned_metadata (collect_vendors owner r.custom_schemas [] r.issuers)
        (visible owner r.custom_schemas)
      ++ visible owner r.custom_schemas

-- The schemas behind GetIssuerMetadata.
unfoldable pub public_schemas : Registry → List Schema
public_schemas r = keep_if (λ s. not (has_prefix s.owner_key "session-")) r.custom_schemas

-- The adapters of a schema's vendors that are registered.
abbrev pub dispatch : Registry → List String → List Adapter
dispatch r [] = []
dispatch r (vendor ∷ vendors) =
    let rest = dispatch r vendors in
    elim (find r.issuers vendor) [ none ↦ rest | some ad ↦ ad ∷ rest ]

-- The entry of the id replaced in place, or else the new one at the end.
unfoldable pub replace_schema : Schema → List Schema → List Schema
replace_schema s [] = s ∷ []
replace_schema s (t ∷ ts) = if t.id == s.id then s ∷ ts else t ∷ replace_schema s ts

-- Without the first entry of the id.
unfoldable pub drop_schema : String → List Schema → List Schema
drop_schema id [] = []
drop_schema id (t ∷ ts) = if t.id == id then ts else t ∷ drop_schema id ts

abbrev pub write_back : SchemaStore → List Schema → Outcome RegistryError SchemaStore
write_back store next =
    if store.writable then ok (record store { saved = some next }) else err write_failed

-- Upsert of the store
unfoldable pub upsert : Schema → SchemaStore → Outcome RegistryError SchemaStore
unfolding replace_schema
upsert s store = if trim_space s.id == "" then err id_required else elim store.saved [
  | none ↦ err read_failed
  | some cur ↦ write_back store (replace_schema s cur)
]

-- Remove of the store; an id that it does not have is not written.
unfoldable pub remove : String → SchemaStore → Outcome RegistryError SchemaStore
unfolding drop_schema
remove id store = elim store.saved [
  | none ↦ err read_failed
  | some cur ↦ if any (λ t. t.id == id) cur then write_back store (drop_schema id cur) else ok store
]

-- The registry with the store that an operation gives, where there is one, or with its error.
abbrev pub settled :
    Registry → Option (Outcome RegistryError SchemaStore) → Registry × Option RegistryError
settled r none = (r, none)
settled r (some (err e)) = (r, some e)
settled r (some (ok store)) = (record r { store = some store }, none)

abbrev pub stored :
    (SchemaStore → Outcome RegistryError SchemaStore) → Registry → Registry × Option RegistryError
stored op r = settled r (elim r.store [ none ↦ none | some store ↦ some (op store) ])

-- The first error of the adapters, after the store.
abbrev pub then_all :
    (Adapter → Bool)
    → RegistryError
    → List Adapter
    → Registry × Option RegistryError
    → Registry × Option RegistryError
then_all accepts refused ads (r, some e) = (r, some e)
then_all accepts refused ads (r, none) =
    if any (λ ad. not (accepts ad)) ads then (r, some refused) else (r, none)

abbrev pub stamped : String → Schema → Schema
stamped owner s =
    if owner == ""
    then record s { custom = true }
    else record s { custom = true; owner_key = owner }

unfoldable pub save_custom_schema : String → Schema → Registry → Registry × Option RegistryError
unfolding upsert
save_custom_schema owner schema r =
    let s = stamped owner schema in
    then_all (λ ad. ad.saves s) save_refused (dispatch r s.dpgs)
      (stored (upsert s) (record r { custom_schemas = r.custom_schemas ++ s ∷ [] }))

-- The first schema of an id.
unfoldable pub first_of : String → List Schema → Option Schema
first_of id [] = none
first_of id (t ∷ ts) = let rest = first_of id ts in if t.id == id then some t else rest

unfoldable pub delete_custom_schema : String → String → Registry → Registry × Option RegistryError
unfolding remove first_of drop_schema
delete_custom_schema owner id r = elim (first_of id r.custom_schemas) [
  | none ↦ (r, some not_found)
  | some s ↦
      if is_foreign owner s
      then (r, some not_found)
      else then_all (λ ad. ad.deletes id) delete_refused (dispatch r s.dpgs)
          (stored (remove id) (record r { custom_schemas = drop_schema id r.custom_schemas }))
]

-- AttachSchemaStore: the custom schemas of the file are added.
unfoldable pub attach_schema_store : SchemaStore → Registry → Registry × Option RegistryError
attach_schema_store store r = elim store.saved [
  | none ↦ (r, some read_failed)
  | some loaded ↦ (
    record r {
      custom_schemas = r.custom_schemas ++ keep_if (λ s. s.custom) loaded;
      store = some store;
    },
    none,
  )
]
