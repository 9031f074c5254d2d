-- ===== src/StatusLists/Lookups.antt =====
-- What internal/handlers/statuslists.go finds after a registration.
use text.Mathlib.Text.{◌==◌}
use verifiably.Prelude.{
  ◌≡◌, ◌≢◌, inl, inr, refl, ap, ◌∙◌, not, ◌&&◌, Option, none, some, String, if◌then◌else◌, arith,
  eq_iff, Option-cases,
}
use verifiably.Prelude.Dict.{find, put, find-put}
use verifiably.StatusLists.{
  StatusListEntry, StatusListSet, index_key, or_no_lists, register, lookup_id, lookup_dpg,
}

-- The product has a list of its own of the kind.
unfoldable pub own_list : String → String → StatusListSet → Option StatusListEntry
own_list dpg kind s = find (or_no_lists (find s.by_dpg dpg)) kind

abbrev pub or_else : Option StatusListEntry → Option StatusListEntry → Option StatusListEntry
or_else found fallback = elim found [ none ↦ fallback | some x ↦ some x ]

lookup_dpg-own :
    (dpg kind : String) (s : StatusListSet)
    → lookup_dpg dpg kind s ≡ or_else (own_list dpg kind s) (find s.defaults kind)
unfolding lookup_dpg own_list find
lookup_dpg-own dpg kind s = elim (Option-cases (find s.by_dpg dpg)) [
  | inl absent ↦ rw (absent, lookup_dpg, own_list) refl
  | inr (m, e) ↦ rw (e, lookup_dpg, own_list) refl
]

module _ (e : StatusListEntry) (s : StatusListSet) where
  own_list-register :
      (dpg kind : String)
      → own_list dpg kind (register e s) ≡ (
          if not (e.dpg == "") && e.dpg == dpg && e.kind == kind
          then some e
          else own_list dpg kind s)
  unfolding own_list register
  own_list-register dpg kind = ground (
    arith,
    find-put s.by_dpg e.dpg dpg (put (or_no_lists (find s.by_dpg e.dpg)) e.kind e),
    find-put (or_no_lists (find s.by_dpg e.dpg)) e.kind kind e,
    eq_iff e.dpg dpg,
    eq_iff e.kind kind,
  )

  defaults-register :
      (kind : String)
      → find (register e s).defaults kind
        ≡ (if e.dpg == "" && e.kind == kind then some e else find s.defaults kind)
  unfolding register
  defaults-register kind = ground (arith, find-put s.defaults e.kind kind e)

  -- After a registration, a product's list of a kind is its own one, which is the new entry where that is
  -- of the product and the kind, or else the default of the kind, which is the new entry where that is
  -- of no product and of the kind; by its own id and kind the new entry is found.
  pub lookup-register :
      (dpg kind : String)
      → e.list_id ≢ ""
      → (lookup_dpg dpg kind (register e s)
          ≡ or_else
              (if not (e.dpg == "") && e.dpg == dpg && e.kind == kind
                then some e
                else own_list dpg kind s)
              (if e.dpg == "" && e.kind == kind then some e else find s.defaults kind))
        × (lookup_id e.kind e.list_id (register e s) ≡ some e)
  unfolding lookup_id register
  lookup-register dpg kind named = (
    lookup_dpg-own dpg kind (register e s)
        ∙ ap (λ own. or_else own (find (register e s).defaults kind)) (own_list-register dpg kind)
        ∙ ap
            (or_else (
              if not (e.dpg == "") && e.dpg == dpg && e.kind == kind
              then some e
              else own_list dpg kind s))
            (defaults-register kind),
    ground (
      arith,
      named,
      eq_iff e.list_id "",
      find-put s.by_id (index_key e.kind e.list_id) (index_key e.kind e.list_id) e,
      eq_iff (index_key e.kind e.list_id) (index_key e.kind e.list_id),
    ),
  )
