-- ===== src/Auth.antt =====
-- internal/auth: the identity providers that the operator configures. providers.go is Registry, store.go the
-- file of the providers that the admin pages manage. The file is its decoded JSON, which never holds
-- the source of a provider; a write that fails may leave it cut short, which reads as blank or malformed.
pub mod Laws
mod Examples
use text.Mathlib.Text.{◌==◌}
use verifiably.Prelude.{
  Bool, true, false, List, [], ◌∷◌, ◌++◌, Option, none, some, String, if◌then◌else◌, map,
}
use verifiably.Prelude.Outcome.{Outcome, ok, err}
use verifiably.Prelude.Texts.{trim_space}

-- Of the settings that the file holds beside the id, one text stands for all.
pub record ProviderConfig : Type 0 where
  pub id : String
  pub settings : String
  pub source : String

pub data File : Type 0 where
  missing unreadable blank malformed : File
  holding : List ProviderConfig → File

pub data Write : Type 0 where
  written no_directory : Write
  cut_short : File → Write

pub data StoreError : Type 0 where
  read_failed parse_failed id_required mkdir_failed write_failed : StoreError

abbrev pub from_user : ProviderConfig → ProviderConfig
from_user c = record c { source = "user" }

abbrev pub unlabelled : ProviderConfig → ProviderConfig
unlabelled c = record c { source = "" }

-- loadLocked
unfoldable pub load : File → Outcome StoreError (List ProviderConfig)
load missing = ok []
load unreadable = err read_failed
load blank = ok []
load malformed = err parse_failed
load (holding cfgs) = ok (map from_user cfgs)

-- saveLocked
unfoldable pub save : Write → List ProviderConfig → File → File × Outcome StoreError (Unit {0})
save written cfgs file = (holding (map unlabelled cfgs), ok tt)
save no_directory cfgs file = (file, err mkdir_failed)
save (cut_short left) cfgs file = (left, err write_failed)

-- The entry of the same id replaced in place, or else the new one at the end.
unfoldable pub upsert : ProviderConfig → List ProviderConfig → List ProviderConfig
upsert cfg [] = cfg ∷ []
upsert cfg (c ∷ cs) = if c.id == cfg.id then cfg ∷ cs else c ∷ upsert cfg cs

-- The list without its first entry of the id, if there is one.
unfoldable pub drop_first : String → List ProviderConfig → Option (List ProviderConfig)
drop_first id [] = none
drop_first id (c ∷ cs) =
    let rest = drop_first id cs in
    if c.id == id then some cs else elim rest [ none ↦ none | some l ↦ some (c ∷ l) ]

unfoldable pub add : Write → ProviderConfig → File → File × Outcome StoreError (List ProviderConfig)
add w cfg file = if trim_space cfg.id == "" then (file, err id_required) else elim (load file) [
  | err e ↦ (file, err e)
  | ok cur ↦
      let next = upsert (unlabelled cfg) cur in
      let (file', saved) = save w next file in
      (file', elim saved [ err e ↦ err e | ok done ↦ ok (map from_user next) ])
]

unfoldable pub remove :
    Write → String → File → File × Outcome StoreError (List ProviderConfig × Bool)
remove w id file = elim (load file) [
  | err e ↦ (file, err e)
  | ok cur ↦ elim (drop_first id cur) [
    | none ↦ (file, ok (cur, false))
    | some next ↦
        let (file', saved) = save w next file in
        (file', elim saved [ err e ↦ err e | ok done ↦ ok (map from_user next, true) ])
  ]
]

-- Registry: a provider replaces one of its id, and Lookup finds the first of an id.
unfoldable pub lookup : String → List ProviderConfig → Option ProviderConfig
lookup id [] = none
lookup id (c ∷ cs) = let rest = lookup id cs in if c.id == id then some c else rest

-- Register and Remove of Registry
unfoldable pub register : ProviderConfig → List ProviderConfig → List ProviderConfig
unfolding upsert
register p items = upsert p items

unfoldable pub unregister : String → List ProviderConfig → List ProviderConfig × Bool
unfolding drop_first
unregister id items = elim (drop_first id items) [ none ↦ (items, false) | some l ↦ (l, true) ]
