-- ===== src/Auth/Laws.antt =====
-- What a change of the providers leaves: internal/auth/store.go and the registry of providers.go.
use text.Mathlib.Text.{◌==◌}
use verifiably.Prelude.{
  ◌≡◌, ◌≢◌, ◌↔◌, ◌⊎◌, inl, inr, refl, sym, ap, subst, ◌∙◌, Bool, true, false, List, [], ◌∷◌, Option,
  none, some, String, if◌then◌else◌, map, arith, eq_iff, Bool-cases, Option-cases,
}
use verifiably.Prelude.Outcome.{Outcome, ok, err}
use verifiably.Prelude.Texts.{trim_space}
use verifiably.Auth.{
  ProviderConfig, File, missing, unreadable, blank, malformed, holding, Write, written,
  no_directory, cut_short, StoreError, from_user, unlabelled, load, save, upsert, drop_first, add,
  remove, lookup,
}

lookup-upsert :
    (cfg : ProviderConfig) (cs : List ProviderConfig) (other : String)
    → lookup other (upsert cfg cs) ≡ (if cfg.id == other then some cfg else lookup other cs)
unfolding lookup upsert
lookup-upsert cfg [] other = refl
lookup-upsert cfg (c ∷ cs) other =
    ground (
      arith,
      lookup-upsert cfg cs other,
      eq_iff c.id cfg.id,
      eq_iff c.id other,
      eq_iff cfg.id other,
    )

lookup-drop_first :
    (id other : String) (cs l : List ProviderConfig)
    → drop_first id cs ≡ some l
    → id ≢ other
    → lookup other l ≡ lookup other cs
unfolding lookup drop_first
lookup-drop_first id other [] l h differs = absurd (ground (arith, h))
lookup-drop_first id other (c ∷ cs) l h differs = elim (Bool-cases (c.id == id)) [
  | inl here ↦ ground (arith, here, h, differs, eq_iff c.id id, eq_iff c.id other)
  | inr later ↦ elim (Option-cases (drop_first id cs)) [
    | inl none_left ↦ absurd (ground (arith, later, none_left, h))
    | inr (l', e) ↦ ground (arith, later, e, h, lookup-drop_first id other cs l' e differs)
  ]
]

drop_first-lookup :
    (id : String) (cs : List ProviderConfig) → (drop_first id cs ≡ none) ↔ (lookup id cs ≡ none)
unfolding lookup drop_first
drop_first-lookup id [] = (λ h. refl, λ h. refl)
drop_first-lookup id (c ∷ cs) =
    let rest = drop_first-lookup id cs in
    (λ h. ground (arith, h, rest.0), λ h. ground (arith, h, rest.1))

abbrev user_copy : Option ProviderConfig → Option ProviderConfig
user_copy none = none
user_copy (some c) = some (from_user c)

lookup-from_user :
    (id : String) (cs : List ProviderConfig)
    → lookup id (map from_user cs) ≡ user_copy (lookup id cs)
unfolding lookup
lookup-from_user id [] = refl
lookup-from_user id (c ∷ cs) = elim (Bool-cases (c.id == id)) [
  | inl here ↦ ground (arith, here)
  | inr later ↦ ground (arith, later, lookup-from_user id cs)
]

from_user-unlabelled :
    (cs : List ProviderConfig) → map from_user (map unlabelled cs) ≡ map from_user cs
from_user-unlabelled [] = refl
from_user-unlabelled (c ∷ cs) = ap (◌∷◌ (from_user c)) (from_user-unlabelled cs)

from_user_twice : (cs : List ProviderConfig) → map from_user (map from_user cs) ≡ map from_user cs
from_user_twice [] = refl
from_user_twice (c ∷ cs) = ap (◌∷◌ (from_user c)) (from_user_twice cs)

-- What is loaded is labelled already.
load-labelled :
    (file : File) (cur : List ProviderConfig) → load file ≡ ok cur → map from_user cur ≡ cur
unfolding load
load-labelled missing cur h = ground (arith, h)
load-labelled unreadable cur h = absurd (ground (arith, h))
load-labelled blank cur h = ground (arith, h)
load-labelled malformed cur h = absurd (ground (arith, h))
load-labelled (holding cfgs) cur h =
    subst (λ l. map from_user l ≡ l) (ground (arith, h)) (from_user_twice cfgs)

-- A save that succeeds is loaded back, labelled as the user's.
load-save :
    (w : Write) (next : List ProviderConfig) (file : File)
    → (save w next file).1 ≡ ok tt
    → load (save w next file).0 ≡ ok (map from_user next)
unfolding save load
load-save written next file h = ap ok (from_user-unlabelled next)
load-save no_directory next file h = absurd (ground (arith, h))
load-save (cut_short left) next file h = absurd (ground (arith, h))

Saved-cases : (o : Outcome StoreError (Unit {0})) → ((e : StoreError) × (o ≡ err e)) ⊎ (o ≡ ok tt)
Saved-cases (err e) = inl (e, refl)
Saved-cases (ok done) = inr refl

-- What a list of providers shows after an upsert of one of them.
abbrev pub Upserted : ProviderConfig → List ProviderConfig → List ProviderConfig → Type 0
Upserted cfg cur l =
    (other : String)
    → lookup other l ≡ (if cfg.id == other then some (from_user cfg) else lookup other cur)

user_copy_if :
    (b : Bool) (c : ProviderConfig) (o : Option ProviderConfig)
    → user_copy (if b then some (unlabelled c) else o)
      ≡ (if b then some (from_user c) else user_copy o)
user_copy_if true c o = refl
user_copy_if false c o = refl

upsert-Upserted :
    (cfg : ProviderConfig) (cur : List ProviderConfig)
    → map from_user cur ≡ cur
    → Upserted cfg cur (map from_user (upsert (unlabelled cfg) cur))
upsert-Upserted cfg cur labelled other =
    lookup-from_user other (upsert (unlabelled cfg) cur)
    ∙ ap user_copy (lookup-upsert (unlabelled cfg) cur other)
    ∙ user_copy_if (cfg.id == other) cfg (lookup other cur)
    ∙ ap (λ o. if cfg.id == other then some (from_user cfg) else o)
        (sym (lookup-from_user other cur) ∙ ap (lookup other) labelled)

-- An Add that succeeds returns what the file then loads, in which the provider has the new settings, labelled
-- as the user's, and every other provider is as it was.
pub load-add :
    (w : Write) (cfg : ProviderConfig) (file : File) (cur l : List ProviderConfig)
    → load file ≡ ok cur
    → (add w cfg file).1 ≡ ok l
    → (load (add w cfg file).0 ≡ ok l) × Upserted cfg cur l
unfolding add
load-add w cfg file cur l loaded added = elim (Bool-cases (trim_space cfg.id == "")) [
  | inl unnamed ↦ absurd (ground (arith, unnamed, added))
  | inr named ↦
      let next : List ProviderConfig = upsert (unlabelled cfg) cur in
      elim (Saved-cases (save w next file).1) [
        | inl (e, failed) ↦ absurd (ground (arith, named, loaded, failed, added))
        | inr done ↦
            let is_l : (map from_user next ≡ l) = ground (arith, named, loaded, done, added) in
            subst (λ k. (load (add w cfg file).0 ≡ ok k) × Upserted cfg cur k) is_l
              (
                rw (named, add, loaded) (load-save w next file done),
                upsert-Upserted cfg cur (load-labelled file cur loaded),
              )
      ]
]

-- What a list of providers shows once the first of an id is gone, if there was one.
abbrev pub Dropped : String → List ProviderConfig → List ProviderConfig × Bool → Type 0
Dropped id cur (l, found) =
    ((found ≡ true) ↔ (lookup id cur ≢ none))
    × ((other : String) → id ≢ other → lookup other l ≡ lookup other cur)

drop_first-Dropped :
    (id : String) (cur next : List ProviderConfig)
    → map from_user cur ≡ cur
    → drop_first id cur ≡ some next
    → Dropped id cur (map from_user next, true)
drop_first-Dropped id cur next labelled e = (
  (λ yes no. ground (arith, e, (drop_first-lookup id cur).1 no), λ known. refl),
  λ other differs.
      lookup-from_user other next
      ∙ ap user_copy (lookup-drop_first id other cur next e differs)
      ∙ sym (lookup-from_user other cur)
      ∙ ap (lookup other) labelled,
)

-- A Remove that succeeds returns what the file then loads, reports whether a provider had the id, and
-- leaves the providers of other ids as they were.
pub load-remove :
    (w : Write) (id : String) (file : File) (cur : List ProviderConfig)
    (r : List ProviderConfig × Bool)
    → load file ≡ ok cur
    → (remove w id file).1 ≡ ok r
    → (load (remove w id file).0 ≡ ok r.0) × Dropped id cur r
unfolding remove
load-remove w id file cur r loaded removed = elim (Option-cases (drop_first id cur)) [
  | inl absent ↦
      let is_r : ((cur, false) ≡ r) = ground (arith, loaded, absent, removed) in
      subst (λ k. (load (remove w id file).0 ≡ ok k.0) × Dropped id cur k) is_r
        (
          rw (loaded, remove, absent) loaded,
          (
            (
              λ no. absurd (ground (arith, no)),
              λ known. absurd (known ((drop_first-lookup id cur).0 absent)),
            ),
            λ other differs. refl,
          ),
        )
  | inr (next, e) ↦ elim (Saved-cases (save w next file).1) [
    | inl (x, failed) ↦ absurd (ground (arith, loaded, e, failed, removed))
    | inr done ↦
        let is_r : ((map from_user next, true) ≡ r) = ground (arith, loaded, e, done, removed) in
        subst (λ k. (load (remove w id file).0 ≡ ok k.0) × Dropped id cur k) is_r
          (
            rw (loaded, remove, e) (load-save w next file done),
            drop_first-Dropped id cur next (load-labelled file cur loaded) e,
          )
  ]
]
