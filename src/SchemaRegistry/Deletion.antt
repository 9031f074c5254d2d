-- ===== src/SchemaRegistry/Deletion.antt =====
-- What the saves and deletions of one owner leave of the others' schemas: SaveCustomSchema and
-- DeleteCustomSchema of internal/adapters/registry/registry.go.
use text.Mathlib.Text.{◌==◌}
use mathlib.Core.Option.{some-injective}
use verifiably.Prelude.{
  ◌≡◌, refl, sym, ap, ◌∙◌, Bool, false, not, List, [], ◌∷◌, ◌++◌, Option, none, some, String, any,
  keep_if, inl, inr, arith, eq_iff, Bool-cases, Option-cases,
}
use verifiably.Prelude.Outcome.{Outcome, ok, err}
use verifiably.SchemaRegistry.{
  Schema, SchemaStore, Adapter, Registry, RegistryError, is_foreign, stamped, settled, stored,
  then_all, upsert, remove, dispatch, first_of, drop_schema, save_custom_schema,
  delete_custom_schema, save_refused, delete_refused,
}

-- A call by the owner.
pub data Call : Type 0 where
  save : Schema → Call
  delete : String → Call

abbrev pub call : String → Call → Registry → Registry × Option RegistryError
call owner (save s) r = save_custom_schema owner s r
call owner (delete id) r = delete_custom_schema owner id r

abbrev pub run : String → List Call → Registry → Registry
run owner [] r = r
run owner (c ∷ cs) r = run owner cs (call owner c r).0

module _ (owner : String) where
  abbrev pub others : List Schema → List Schema
  others l = keep_if (is_foreign owner) l

  settled-schemas :
      (r : Registry) (o : Option (Outcome RegistryError SchemaStore))
      → (settled r o).0.custom_schemas ≡ r.custom_schemas
  settled-schemas r none = refl
  settled-schemas r (some (err e)) = refl
  settled-schemas r (some (ok store)) = refl

  stored-schemas :
      (op : SchemaStore → Outcome RegistryError SchemaStore) (r : Registry)
      → (stored op r).0.custom_schemas ≡ r.custom_schemas
  stored-schemas op r =
      settled-schemas r (elim r.store [ none ↦ none | some store ↦ some (op store) ])

  then_all-registry :
      (accepts : Adapter → Bool) (refused : RegistryError) (ads : List Adapter)
      (p : Registry × Option RegistryError)
      → (then_all accepts refused ads p).0 ≡ p.0
  then_all-registry accepts refused ads (r, some e) = refl
  then_all-registry accepts refused ads (r, none) =
      elim (Bool-cases (any (λ ad. not (accepts ad)) ads)) [
        | inl refuses ↦ rw refuses refl
        | inr accepted ↦ rw accepted refl
      ]

  others-append :
      (l : List Schema) (s : Schema) → is_foreign owner s ≡ false → others (l ++ s ∷ []) ≡ others l
  others-append [] s own = rw own refl
  others-append (t ∷ l) s own = elim (Bool-cases (is_foreign owner t)) [
    | inl foreign ↦ rw foreign (ap (◌∷◌ t) (others-append l s own))
    | inr mine ↦ rw mine (others-append l s own)
  ]

  stamped-own : (s : Schema) → is_foreign owner (stamped owner s) ≡ false
  stamped-own s = ground (arith, eq_iff owner owner)

  others-drop_schema :
      (id : String) (l : List Schema) (s : Schema)
      → first_of id l ≡ some s
      → is_foreign owner s ≡ false
      → others (drop_schema id l) ≡ others l
  unfolding first_of drop_schema
  others-drop_schema id [] s found own = refl
  others-drop_schema id (t ∷ l) s found own = elim (Bool-cases (t.id == id)) [
    | inl same ↦
        rw (same, ap (is_foreign owner) (some-injective t s (sym (rw same refl) ∙ found)) ∙ own)
          refl
    | inr other ↦
        let later : first_of id l ≡ some s = sym (rw other refl) ∙ found in
        rw other (elim (Bool-cases (is_foreign owner t)) [
          | inl foreign ↦ rw foreign (ap (◌∷◌ t) (others-drop_schema id l s later own))
          | inr mine ↦ rw mine (others-drop_schema id l s later own)
        ])
  ]

  others-save :
      (s : Schema) (r : Registry)
      → others (save_custom_schema owner s r).0.custom_schemas ≡ others r.custom_schemas
  unfolding save_custom_schema
  others-save s r =
      let t : Schema = stamped owner s in
      let added : Registry = record r { custom_schemas = r.custom_schemas ++ t ∷ [] } in
      ap (λ (q : Registry). others q.custom_schemas)
        (then_all-registry (λ ad. ad.saves t) save_refused (dispatch r t.dpgs)
          (stored (upsert t) added))
      ∙ ap others (stored-schemas (upsert t) added)
      ∙ others-append r.custom_schemas t (stamped-own s)

  others-delete :
      (id : String) (r : Registry)
      → others (delete_custom_schema owner id r).0.custom_schemas ≡ others r.custom_schemas
  unfolding delete_custom_schema
  others-delete id r = elim (Option-cases (first_of id r.custom_schemas)) [
    | inl absent ↦ rw (absent, delete_custom_schema) refl
    | inr (s, found) ↦ elim (Bool-cases (is_foreign owner s)) [
      | inl foreign ↦ rw (found, delete_custom_schema, foreign) refl
      | inr own ↦
          let rest : Registry = record r { custom_schemas = drop_schema id r.custom_schemas } in
          rw (found, delete_custom_schema, own)
            (ap (λ (q : Registry). others q.custom_schemas)
                (then_all-registry (λ ad. ad.deletes id) delete_refused (dispatch r s.dpgs)
                  (stored (remove id) rest))
              ∙ ap others (stored-schemas (remove id) rest)
              ∙ others-drop_schema id r.custom_schemas s found own)
    ]
  ]

  -- No saves and deletions by one owner, whatever the adapters and the store answer, change the schemas
  -- of the other owners that the registry holds in memory, or their order.
  pub run-others :
      (calls : List Call) (r : Registry)
      → others (run owner calls r).custom_schemas ≡ others r.custom_schemas
  run-others [] r = refl
  run-others (save s ∷ cs) r = run-others cs (save_custom_schema owner s r).0 ∙ others-save s r
  run-others (delete id ∷ cs) r =
      run-others cs (delete_custom_schema owner id r).0 ∙ others-delete id r
