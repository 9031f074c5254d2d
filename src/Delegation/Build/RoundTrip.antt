-- ===== src/Delegation/Build/RoundTrip.antt =====
-- What internal/delegation/extract.go reads from the bodies of internal/delegation/build.go.
use text.Mathlib.Text.{◌==◌}
use verifiably.Prelude.{
  ℕ, ◌≡◌, ◌≢◌, ◌⊎◌, inl, inr, refl, sym, ap, ◌∙◌, true, false, List, [], ◌∷◌, none, some, String,
  if◌then◌else◌, arith, eq_iff,
}
use verifiably.Prelude.Texts.{trim_space, trim_left, trim_right}
use verifiably.Delegation.Json.{
  str, object, array, item, nothing, Fields, field, empty, Decoders, lookup, has, map_str,
  map_str_slice, map_bool, first_non_empty, as_slice, as_map_or_json, caveat_valid_until,
  first_valid_until, type_contains, type_matches, ref_id,
}
use verifiably.Delegation.Temporal.{NormalizedCredential}
use verifiably.Delegation.Extract.{Capability, terms_capability, first_terms, extract_capability}
use verifiably.Delegation.Build.{
  DelegationCredentialSpec, text_field, list_field, add_validity, status_field, capability_fields,
  build_delegation_credential,
}
use verifiably.Delegation.Build.Lookups.{
  lookup-text_field, lookup-text_field_ne, lookup-list_field_ne, lookup-add_validity_ne,
  lookup-list_field_nil, List-cases, map_str_slice-found, map_str_slice-absent,
}

module _ (show_index : ℕ → String) (s : DelegationCredentialSpec) where
  lookup-status_field_ne :
      (key : String)
      → ("credentialStatus" == key) ≡ false
      → lookup (status_field show_index s.status empty) key ≡ none
  unfolding lookup
  lookup-status_field_ne key h =
      elim s.status as (λ o. lookup (status_field show_index o empty) key ≡ none) [
        | none ↦ refl
        | some e ↦ rw h refl
      ]

  no_delegation : lookup (build_delegation_credential show_index s) "delegation" ≡ none
  unfolding build_delegation_credential lookup
  no_delegation =
      lookup-text_field_ne "issuer" s.issuer "delegation"
        (add_validity s.data_model s.valid_from s.valid_until
          (status_field show_index s.status empty))
        refl
      ∙ lookup-add_validity_ne s.data_model s.valid_from s.valid_until "delegation"
          (status_field show_index s.status empty) refl refl refl refl
      ∙ lookup-status_field_ne "delegation" refl

  abbrev caveat : Fields
  caveat =
      if s.valid_until == ""
      then empty
      else field "caveat"
          (array (
            item
              (object
                (field "type" (str "ValidWhile") (field "validUntil" (str s.valid_until) empty)))
              nothing))
          empty

  abbrev actions : Fields
  actions = list_field "allowedAction" s.allowed_action caveat

  -- A key of the capability beyond its three first fields.
  lookup-capability_fields :
      (key : String)
      → ("type" == key) ≡ false
      → ("invocationTarget" == key) ≡ false
      → ("allowFurtherDelegation" == key) ≡ false
      → lookup (capability_fields s) key
        ≡ lookup
            (text_field "delegate" s.delegate_id (text_field "controller" s.issuer actions))
            key
  unfolding capability_fields lookup
  lookup-capability_fields key h1 h2 h3 = ground (arith, h1, h2, h3)

  lookup-actions :
      (key : String)
      → ("allowedAction" == key) ≡ false
      → ("caveat" == key) ≡ false
      → lookup actions key ≡ none
  unfolding lookup
  lookup-actions key h1 h2 =
      lookup-list_field_ne "allowedAction" s.allowed_action key caveat h1 ∙ ground (arith, h2)

  capability-controller : map_str (capability_fields s) "controller" ≡ s.issuer
  unfolding map_str
  capability-controller =
      let found : lookup (capability_fields s) "controller"
          ≡ (if s.issuer == "" then none else some (str s.issuer)) =
        lookup-capability_fields "controller" refl refl refl
        ∙ lookup-text_field_ne "delegate" s.delegate_id "controller"
            (text_field "controller" s.issuer actions) refl
        ∙ lookup-text_field "controller" s.issuer "controller" actions
        ∙ rw (lookup-actions "controller" refl refl) refl in
      rw (found, map_str) (ground (arith, eq_iff s.issuer ""))

  capability-delegate : map_str (capability_fields s) "delegate" ≡ s.delegate_id
  unfolding map_str
  capability-delegate =
      let found : lookup (capability_fields s) "delegate"
          ≡ (if s.delegate_id == "" then none else some (str s.delegate_id)) =
        lookup-capability_fields "delegate" refl refl refl
        ∙ lookup-text_field "delegate" s.delegate_id "delegate"
            (text_field "controller" s.issuer actions)
        ∙ rw
            (
              lookup-text_field_ne "controller" s.issuer "delegate" actions refl,
              lookup-actions "delegate" refl refl,
            )
            refl in
      rw (found, map_str) (ground (arith, eq_iff s.delegate_id ""))

  absent_field :
      (key : String)
      → ("type" == key) ≡ false
      → ("invocationTarget" == key) ≡ false
      → ("allowFurtherDelegation" == key) ≡ false
      → ("delegate" == key) ≡ false
      → ("controller" == key) ≡ false
      → lookup (capability_fields s) key ≡ lookup actions key
  absent_field key h1 h2 h3 h4 h5 =
      lookup-capability_fields key h1 h2 h3
      ∙ lookup-text_field_ne "delegate" s.delegate_id key (text_field "controller" s.issuer actions)
          h4
      ∙ lookup-text_field_ne "controller" s.issuer key actions h5

  capability-actions :
      map_str_slice (capability_fields s) ("allowedAction" ∷ "allowed_action" ∷ [])
      ≡ s.allowed_action
  unfolding lookup
  capability-actions =
      let first : lookup (capability_fields s) "allowedAction" ≡ lookup actions "allowedAction" =
        absent_field "allowedAction" refl refl refl refl refl in
      let second : lookup (capability_fields s) "allowed_action" ≡ none =
        absent_field "allowed_action" refl refl refl refl refl
        ∙ lookup-actions "allowed_action" refl refl in
      elim (List-cases s.allowed_action) [
        | inl e ↦
            map_str_slice-absent (capability_fields s) "allowedAction" "allowed_action"
              (first
                ∙ lookup-list_field_nil "allowedAction" "allowedAction" caveat s.allowed_action e
                ∙ ground arith)
              second
            ∙ sym e
        | inr (x, xs, e) ↦
            map_str_slice-found (capability_fields s) "allowedAction" ("allowed_action" ∷ [])
              s.allowed_action (first ∙ rw e refl)
      ]

  capability-until : caveat_valid_until (capability_fields s) "caveat" ≡ s.valid_until
  unfolding caveat_valid_until as_slice first_valid_until map_str lookup
  capability-until =
      rw
        (
          caveat_valid_until,
          as_slice,
          absent_field "caveat" refl refl refl refl refl,
          lookup-list_field_ne "allowedAction" s.allowed_action "caveat" caveat refl,
        )
        (ground (arith, eq_iff s.valid_until ""))

  terms_of_build :
      (d : Decoders)
      → d.equal_fold "DelegationCapability" "DelegationCapability" ≡ true
      → first_terms d (as_slice (build_delegation_credential show_index s) "termsOfUse")
        ≡ some (capability_fields s)
  unfolding as_slice build_delegation_credential lookup first_terms type_contains type_matches
      capability_fields
  terms_of_build d h = rw h refl

  pub first_non_empty-head :
      (v : String) (vs : List String) → trim_space v ≢ "" → first_non_empty (v ∷ vs) ≡ v
  unfolding first_non_empty
  first_non_empty-head v vs h = ground (arith, eq_iff (trim_space v) "", h)

  first_non_empty-second :
      (v : String) → (v ≡ "") ⊎ (trim_space v ≢ "") → first_non_empty ("" ∷ v ∷ []) ≡ v
  unfolding first_non_empty trim_space trim_left trim_right
  first_non_empty-second v (inl e) = rw e refl
  first_non_empty-second v (inr h) = ground (arith, eq_iff (trim_space v) "", h)

  capability-target : map_str (capability_fields s) "invocationTarget" ≡ s.on_behalf_of
  unfolding map_str capability_fields lookup
  capability-target = refl

  capability-flag :
      map_bool (capability_fields s) "allowFurtherDelegation" ≡ s.allow_further_delegation
  unfolding map_bool capability_fields lookup
  capability-flag = refl

  capability-no_until : map_str (capability_fields s) "validUntil" ≡ ""
  unfolding map_str
  capability-no_until =
      rw
        (
          map_str,
          absent_field "validUntil" refl refl refl refl refl,
          lookup-actions "validUntil" refl refl,
        )
        refl

  capability-no_chain : has (capability_fields s) "parentCapability" ≡ false
  unfolding has
  capability-no_chain =
      rw
        (
          has,
          absent_field "parentCapability" refl refl refl refl refl,
          lookup-actions "parentCapability" refl refl,
        )
        refl

  -- What the evaluator reads back, in a credential with this body.
  abbrev pub read_back : NormalizedCredential → Capability
  read_back c = record {
    controller = first_non_empty (s.issuer ∷ c.issuer ∷ []);
    on_behalf_of = s.on_behalf_of;
    delegate = first_non_empty (s.delegate_id ∷ c.subject_id ∷ []);
    allowed_action = s.allowed_action;
    valid_until = s.valid_until;
    allow_further_delegation = s.allow_further_delegation;
    has_chain = false;
  }

  terms_capability-build :
      (c : NormalizedCredential)
      → trim_space s.on_behalf_of ≢ ""
      → (s.valid_until ≡ "") ⊎ (trim_space s.valid_until ≢ "")
      → terms_capability c (capability_fields s) ≡ read_back c
  unfolding terms_capability
  terms_capability-build c named until =
      rw
        (
          capability-controller,
          capability-delegate,
          capability-actions,
          capability-until,
          capability-target,
          capability-flag,
          capability-no_until,
          capability-no_chain,
          first_non_empty-head s.on_behalf_of
              (map_str (capability_fields s) "onBehalfOf"
                ∷ ref_id c.raw "credentialSubject" "onBehalfOf"
                ∷ [])
              named,
          first_non_empty-second s.valid_until until,
        )
        refl

  -- The capability that the evaluator reads from a delegation credential with the body that the
  -- builder gives is the one that was asked for: its subject, actions, end and flag as given, the
  -- controller and the delegate as given or else the credential's issuer and subject, and no chain.
  -- The subject must not be blank, and the end be absent or not blank.
  pub extract-build :
      (d : Decoders) (c : NormalizedCredential)
      → d.equal_fold "DelegationCapability" "DelegationCapability" ≡ true
      → c.raw ≡ build_delegation_credential show_index s
      → trim_space s.on_behalf_of ≢ ""
      → (s.valid_until ≡ "") ⊎ (trim_space s.valid_until ≢ "")
      → extract_capability d c ≡ some (read_back c)
  unfolding extract_capability as_map_or_json
  extract-build d c folds built named until =
      let absent : lookup c.raw "delegation" ≡ none = rw built no_delegation in
      let terms : first_terms d (as_slice c.raw "termsOfUse") ≡ some (capability_fields s) =
        rw built (terms_of_build d folds) in
      rw (extract_capability, as_map_or_json, absent, terms)
        (ap some (terms_capability-build c named until))
