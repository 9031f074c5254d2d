-- ===== src/Delegation/Build/Flat.antt =====
-- internal/delegation/build.go and extract.go: what the evaluator reads from the flat claims of an SD-JWT,
-- whose `delegation` claim is JSON. JSON gives a []string back as an array.
use text.Mathlib.Text.{◌==◌}
use verifiably.Prelude.{
  ℕ, ◌≡◌, ◌≢◌, ◌⊎◌, inl, inr, refl, sym, ap, ◌∙◌, Bool, true, false, ◌||◌, [], ◌∷◌, none, some,
  String, if◌then◌else◌, arith, eq_iff,
}
use verifiably.Prelude.Dict.{find}
use verifiably.Prelude.Texts.{trim_space, trim_left, trim_right}
use verifiably.Delegation.Json.{
  str, Fields, empty, Decoders, lookup, has, map_str, map_str_slice, map_bool, first_non_empty,
  as_map_or_json, decoded, ref_id,
}
use verifiably.Delegation.Temporal.{NormalizedCredential}
use verifiably.Delegation.Extract.{claim_capability, extract_capability}
use verifiably.Delegation.Build.{DelegationCredentialSpec, text_field, list_field}
use verifiably.Delegation.Build.Lookups.{
  lookup-text_field, lookup-text_field_ne, lookup-list_field_ne, lookup-list_field_nil, List-cases,
  map_str_slice-found, map_str_slice-absent,
}
use verifiably.Delegation.Build.RoundTrip.{read_back, first_non_empty-head}
use verifiably.Delegation.Build.Reread.{reread, claim_capability-reread}
use verifiably.Delegation.Build.Claims.{delegation_object, delegation_claims, claim_or}

until_first : (v : String) → (v ≡ "") ⊎ (trim_space v ≢ "") → first_non_empty (v ∷ "" ∷ []) ≡ v
unfolding first_non_empty trim_space trim_left trim_right
until_first v (inl e) = rw e refl
until_first v (inr h) = ground (arith, eq_iff (trim_space v) "", h)

or_false : (b : Bool) → (b || false) ≡ b
or_false true = refl
or_false false = refl

module _ (g : DelegationCredentialSpec) where
  abbrev ids : Fields
  ids = text_field "delegate" g.delegate_id (text_field "controller" g.issuer empty)

  abbrev until_and_ids : Fields
  until_and_ids = text_field "valid_until" g.valid_until ids

  -- A key beyond the two first fields.
  lookup-delegation_object :
      (key : String)
      → ("on_behalf_of" == key) ≡ false
      → ("allow_further_delegation" == key) ≡ false
      → lookup (delegation_object g) key
        ≡ lookup (list_field "allowed_action" g.allowed_action until_and_ids) key
  unfolding delegation_object lookup
  lookup-delegation_object key h1 h2 = ground (arith, h1, h2)

  lookup-after_actions :
      (key : String)
      → ("on_behalf_of" == key) ≡ false
      → ("allow_further_delegation" == key) ≡ false
      → ("allowed_action" == key) ≡ false
      → lookup (delegation_object g) key ≡ lookup until_and_ids key
  lookup-after_actions key h1 h2 h3 =
      lookup-delegation_object key h1 h2
      ∙ lookup-list_field_ne "allowed_action" g.allowed_action key until_and_ids h3

  lookup-ids :
      (key : String)
      → ("delegate" == key) ≡ false
      → ("controller" == key) ≡ false
      → lookup ids key ≡ none
  unfolding lookup
  lookup-ids key h1 h2 =
      lookup-text_field_ne "delegate" g.delegate_id key (text_field "controller" g.issuer empty) h1
      ∙ lookup-text_field_ne "controller" g.issuer key empty h2

  object-until : map_str (delegation_object g) "valid_until" ≡ g.valid_until
  unfolding map_str
  object-until =
      let found : lookup (delegation_object g) "valid_until"
          ≡ (if g.valid_until == "" then none else some (str g.valid_until)) =
        lookup-after_actions "valid_until" refl refl refl
        ∙ lookup-text_field "valid_until" g.valid_until "valid_until" ids
        ∙ rw (lookup-ids "valid_until" refl refl) refl in
      rw (found, map_str) (ground (arith, eq_iff g.valid_until ""))

  object-delegate : map_str (delegation_object g) "delegate" ≡ g.delegate_id
  unfolding map_str lookup
  object-delegate =
      let found : lookup (delegation_object g) "delegate"
          ≡ (if g.delegate_id == "" then none else some (str g.delegate_id)) =
        lookup-after_actions "delegate" refl refl refl
        ∙ lookup-text_field_ne "valid_until" g.valid_until "delegate" ids refl
        ∙ lookup-text_field "delegate" g.delegate_id "delegate"
            (text_field "controller" g.issuer empty)
        ∙ rw (lookup-text_field_ne "controller" g.issuer "delegate" empty refl) refl in
      rw (found, map_str) (ground (arith, eq_iff g.delegate_id ""))

  object-controller : map_str (delegation_object g) "controller" ≡ g.issuer
  unfolding map_str lookup
  object-controller =
      let found : lookup (delegation_object g) "controller"
          ≡ (if g.issuer == "" then none else some (str g.issuer)) =
        lookup-after_actions "controller" refl refl refl
        ∙ lookup-text_field_ne "valid_until" g.valid_until "controller" ids refl
        ∙ lookup-text_field_ne "delegate" g.delegate_id "controller"
            (text_field "controller" g.issuer empty) refl
        ∙ lookup-text_field "controller" g.issuer "controller" empty in
      rw (found, map_str) (ground (arith, eq_iff g.issuer ""))

  lookup-absent :
      (key : String)
      → ("on_behalf_of" == key) ≡ false
      → ("allow_further_delegation" == key) ≡ false
      → ("allowed_action" == key) ≡ false
      → ("valid_until" == key) ≡ false
      → ("delegate" == key) ≡ false
      → ("controller" == key) ≡ false
      → lookup (delegation_object g) key ≡ none
  lookup-absent key h1 h2 h3 h4 h5 h6 =
      lookup-after_actions key h1 h2 h3
      ∙ lookup-text_field_ne "valid_until" g.valid_until key ids h4
      ∙ lookup-ids key h5 h6

  object-actions :
      map_str_slice (delegation_object g) ("allowed_action" ∷ "allowedAction" ∷ [])
      ≡ g.allowed_action
  unfolding lookup
  object-actions =
      let first : lookup (delegation_object g) "allowed_action"
          ≡ lookup (list_field "allowed_action" g.allowed_action until_and_ids) "allowed_action" =
        lookup-delegation_object "allowed_action" refl refl in
      elim (List-cases g.allowed_action) [
        | inl e ↦
            map_str_slice-absent (delegation_object g) "allowed_action" "allowedAction"
              (first
                ∙ lookup-list_field_nil "allowed_action" "allowed_action" until_and_ids
                    g.allowed_action e
                ∙ lookup-text_field_ne "valid_until" g.valid_until "allowed_action" ids refl
                ∙ lookup-ids "allowed_action" refl refl)
              (lookup-absent "allowedAction" refl refl refl refl refl refl)
            ∙ sym e
        | inr (x, xs, e) ↦
            map_str_slice-found (delegation_object g) "allowed_action" ("allowedAction" ∷ [])
              g.allowed_action (first ∙ rw e refl)
      ]

  object-target : map_str (delegation_object g) "on_behalf_of" ≡ g.on_behalf_of
  unfolding map_str delegation_object lookup
  object-target = refl

  object-flag :
      map_bool (delegation_object g) "allow_further_delegation" ≡ g.allow_further_delegation
  unfolding map_bool delegation_object lookup
  object-flag = refl

  object-no_flag : map_bool (delegation_object g) "allowFurtherDelegation" ≡ false
  unfolding map_bool
  object-no_flag =
      rw (map_bool, lookup-absent "allowFurtherDelegation" refl refl refl refl refl refl) refl

  object-no_until : map_str (delegation_object g) "validUntil" ≡ ""
  unfolding map_str
  object-no_until = rw (map_str, lookup-absent "validUntil" refl refl refl refl refl refl) refl

  object-no_chain : has (delegation_object g) "parent_capability" ≡ false
  unfolding has
  object-no_chain = rw (has, lookup-absent "parent_capability" refl refl refl refl refl refl) refl

  claim_capability-object :
      (show_index : ℕ → String) (c : NormalizedCredential)
      → trim_space g.on_behalf_of ≢ ""
      → (g.valid_until ≡ "") ⊎ (trim_space g.valid_until ≢ "")
      → claim_capability c (delegation_object g) ≡ read_back show_index g c
  unfolding claim_capability
  claim_capability-object show_index c named until =
      rw
        (
          object-controller,
          object-delegate,
          object-actions,
          object-until,
          object-target,
          object-flag,
          object-no_flag,
          object-no_until,
          object-no_chain,
          first_non_empty-head show_index g g.on_behalf_of
              (map_str (delegation_object g) "onBehalfOf"
                ∷ ref_id c.raw "credentialSubject" "onBehalfOf"
                ∷ [])
              named,
          until_first g.valid_until until,
          or_false g.allow_further_delegation,
        )
        refl

  -- From an SD-JWT that carries the claims of a delegation, the evaluator reads the same capability as
  -- from the JSON-LD credential of the same specification: what was asked for, with the controller and
  -- the delegate as given or else the credential's issuer and subject. JSON gives back the object that
  -- the claim holds, the subject is not blank, and the end is absent or not blank.
  pub extract-delegation_claims :
      (d : Decoders) (show_index : ℕ → String) (marshal : Fields → String)
      (c : NormalizedCredential)
      → lookup c.raw "delegation" ≡ claim_or (find (delegation_claims marshal g) "delegation") none
      → d.unmarshal (marshal (delegation_object g)) ≡ some (reread (delegation_object g))
      → trim_space (marshal (delegation_object g)) ≢ ""
      → trim_space g.on_behalf_of ≢ ""
      → (g.valid_until ≡ "") ⊎ (trim_space g.valid_until ≢ "")
      → extract_capability d c ≡ some (read_back show_index g c)
  unfolding extract_capability as_map_or_json decoded delegation_claims find
  extract-delegation_claims d show_index marshal c carried given shown named until =
      let text : lookup c.raw "delegation" ≡ some (str (marshal (delegation_object g))) = carried in
      let holds : as_map_or_json d c.raw "delegation" ≡ some (reread (delegation_object g)) =
        rw (as_map_or_json, text, decoded)
          (ground (arith, given, eq_iff (trim_space (marshal (delegation_object g))) "", shown)) in
      rw (extract_capability, holds)
        (ap some (
          claim_capability-reread (delegation_object g) c
          ∙ claim_capability-object show_index c named until))
