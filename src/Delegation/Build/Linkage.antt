-- ===== src/Delegation/Build/Linkage.antt =====
-- internal/delegation/build.go, internal/vp/vp.go and Evaluate of internal/delegation/delegation.go
-- together: what the evaluator makes of the two credentials that the builder gives for one subject.
use text.Mathlib.Text.{◌==◌}
use verifiably.Prelude.{
  ℕ, ◌≡◌, ◌≢◌, ◌⊎◌, inl, inr, refl, sym, ap, ◌∙◌, true, false, List, ◌∷◌, Option, none, some,
  String, arith, eq_iff, Option-cases,
}
use verifiably.Prelude.Dict.{find}
use verifiably.Prelude.Texts.{trim_space, trim_left, trim_right}
use verifiably.Delegation.Json.{Fields, empty, Decoders, lookup, as_map, map_str}
use verifiably.Delegation.Temporal.{NormalizedCredential, HolderBinding}
use verifiably.Delegation.Subject.{subject_anchor, subject_identifies}
use verifiably.Delegation.Subject.Anchors.{subject_identifies_iff}
use verifiably.Delegation.Extract.{
  Capability, extract_capability, find_delegation, find_delegation_from, find_identity,
  find_identity_from,
}
use verifiably.Delegation.Evaluate.{
  Options, evaluate, check_linkage, check_invocation, check_capability, check_status,
}
use verifiably.Delegation.Build.{
  StatusEntry, DelegationCredentialSpec, text_field, add_validity, status_field,
  build_delegation_credential,
}
use verifiably.Delegation.Build.Lookups.{
  lookup-text_field, lookup-text_field_ne, lookup-add_validity_ne,
}
use verifiably.Delegation.Build.RoundTrip.{read_back, extract-build}
use verifiably.Delegation.Build.Claims.{
  SubjectCredentialSpec, own_fields, with_claims, build_subject_credential, lookup-with_claims,
}
use verifiably.Presentation.{Printer, inner_of, from_vc_object}

lookup-status_field :
    (show_index : ℕ → String) (status : Option StatusEntry) (key : String)
    → ("credentialStatus" == key) ≡ false
    → lookup (status_field show_index status empty) key ≡ none
unfolding lookup
lookup-status_field show_index none key h = refl
lookup-status_field show_index (some e) key h = rw h refl

-- Neither body has a key `vc`.
lookup-end_vc :
    (show_index : ℕ → String) (status : Option StatusEntry) (issuer data_model from until : String)
    → lookup
        (text_field "issuer" issuer
          (add_validity data_model from until (status_field show_index status empty)))
        "vc"
      ≡ none
lookup-end_vc show_index status issuer data_model from until =
    lookup-text_field_ne "issuer" issuer "vc"
      (add_validity data_model from until (status_field show_index status empty)) refl
    ∙ lookup-add_validity_ne data_model from until "vc" (status_field show_index status empty) refl
        refl refl refl
    ∙ lookup-status_field show_index status "vc" refl

inner_of-bare : (m : Fields) → lookup m "vc" ≡ none → inner_of m ≡ m
unfolding as_map
inner_of-bare m h = rw (inner_of, as_map, h) refl

trimmed_nonempty : (t : String) → trim_space t ≢ "" → t ≢ ""
unfolding trim_space trim_left trim_right
trimmed_nonempty t h e = h (ap trim_space e)

module _ (p : Printer) (d : Decoders) (show_index : ℕ → String) where
  from_vc_object-raw : (m : Fields) → lookup m "vc" ≡ none → (from_vc_object p m).raw ≡ m
  unfolding from_vc_object
  from_vc_object-raw m h = inner_of-bare m h

  module _ (g : DelegationCredentialSpec) where
    abbrev pub delegation_of : NormalizedCredential
    delegation_of = from_vc_object p (build_delegation_credential show_index g)

    delegation-raw : delegation_of.raw ≡ build_delegation_credential show_index g
    unfolding build_delegation_credential lookup
    delegation-raw =
        from_vc_object-raw (build_delegation_credential show_index g)
          (lookup-end_vc show_index g.status g.issuer g.data_model g.valid_from g.valid_until)

  module _ (s : SubjectCredentialSpec) where
    abbrev pub subject_of : NormalizedCredential
    subject_of = from_vc_object p (build_subject_credential show_index s)

    subject-raw : subject_of.raw ≡ build_subject_credential show_index s
    unfolding build_subject_credential lookup
    subject-raw =
        from_vc_object-raw (build_subject_credential show_index s)
          (lookup-end_vc show_index s.status s.issuer s.data_model s.valid_from s.valid_until)

    subject-fields :
        as_map subject_of.raw "credentialSubject" ≡ some (with_claims s.claims (own_fields s))
    unfolding build_subject_credential lookup as_map
    subject-fields = rw subject-raw refl

    own-subject_ref : map_str (own_fields s) "subjectRef" ≡ s.subject_ref
    unfolding map_str lookup
    own-subject_ref =
        rw
          (
            map_str,
            lookup-text_field_ne "id" s.subject_did "subjectRef"
                (text_field "subjectRef" s.subject_ref empty) refl,
            lookup-text_field "subjectRef" s.subject_ref "subjectRef" empty,
          )
          (ground (arith, eq_iff s.subject_ref ""))

    subject_ref-kept :
        find s.claims "subjectRef" ≡ none
        → map_str (with_claims s.claims (own_fields s)) "subjectRef" ≡ s.subject_ref
    unfolding map_str
    subject_ref-kept h =
        rw (map_str, lookup-with_claims s.claims (own_fields s) "subjectRef", h) (own-subject_ref)

    anchor-subject_of :
        find s.claims "subjectRef" ≡ none
        → trim_space s.subject_ref ≢ ""
        → subject_anchor subject_of ≡ s.subject_ref
    unfolding subject_anchor trim_space
    anchor-subject_of kept named =
        rw (subject_anchor, subject-fields, subject_ref-kept kept)
          (ground (arith, eq_iff s.subject_ref "", trimmed_nonempty s.subject_ref named))

  module _ (g : DelegationCredentialSpec) (s : SubjectCredentialSpec) where
    abbrev cap : Capability
    cap = read_back show_index g (delegation_of g)

    linked :
        find s.claims "subjectRef" ≡ none
        → g.on_behalf_of ≡ s.subject_ref
        → trim_space s.subject_ref ≡ s.subject_ref
        → s.subject_ref ≢ ""
        → check_linkage d cap (subject_of s) ≡ none
    unfolding check_linkage
    linked kept same trimmed named =
        let identifies : subject_identifies d (subject_of s) g.on_behalf_of ≡ true =
          (subject_identifies_iff d (subject_of s) g.on_behalf_of).1 (
            s.subject_ref,
            inl (
              with_claims s.claims (own_fields s),
              subject-fields s,
              sym (subject_ref-kept s kept),
            ),
            ground (
              arith,
              ap trim_space same,
              ap trim_space trimmed,
              trimmed,
              eq_iff (trim_space (trim_space s.subject_ref)) (trim_space g.on_behalf_of),
              eq_iff (trim_space s.subject_ref) "",
            ),
          ) in
        rw (check_linkage, identifies) (ground (arith, eq_iff g.on_behalf_of "", same))

    abbrev pub presented : List NormalizedCredential → List NormalizedCredential
    presented rest = delegation_of g ∷ subject_of s ∷ rest

    found_identity :
        (rest : List NormalizedCredential)
        → find s.claims "subjectRef" ≡ none
        → g.on_behalf_of ≡ s.subject_ref
        → trim_space s.subject_ref ≡ s.subject_ref
        → s.subject_ref ≢ ""
        → find_identity (presented rest) 0 g.on_behalf_of ≡ some (1, subject_of s)
    unfolding find_identity find_identity_from
    found_identity rest kept same trimmed named =
        rw
          (
            find_identity,
            find_identity_from,
            anchor-subject_of s kept (ground (arith, trimmed, named)),
          )
          (ground (
            arith,
            named,
            ap trim_space same,
            eq_iff g.on_behalf_of "",
            eq_iff s.subject_ref "",
            eq_iff (trim_space s.subject_ref) (trim_space g.on_behalf_of),
          ))

    found_delegation :
        (rest : List NormalizedCredential)
        → extract_capability d (delegation_of g) ≡ some cap
        → find_delegation d (presented rest) ≡ some (0, delegation_of g, cap)
    unfolding find_delegation find_delegation_from
    found_delegation rest h = rw (find_delegation, find_delegation_from, h) refl

    -- Of a delegation credential and a subject's credential that the builder makes for the same
    -- reference, presented in this order and with any others after them, the evaluator takes the first
    -- for the delegation and the second for its subject, and finds them linked, whatever the holder and
    -- the options. No claim of the subject is named subjectRef, the reference is not empty and has no
    -- white space around it, and the end of the delegation is absent or not blank.
    pub evaluate-build :
        (rest : List NormalizedCredential) (holder : Option HolderBinding) (opts : Options)
        → d.equal_fold "DelegationCapability" "DelegationCapability" ≡ true
        → find s.claims "subjectRef" ≡ none
        → g.on_behalf_of ≡ s.subject_ref
        → trim_space s.subject_ref ≡ s.subject_ref
        → s.subject_ref ≢ ""
        → (g.valid_until ≡ "") ⊎ (trim_space g.valid_until ≢ "")
        → ((evaluate d (presented rest) holder opts).linkage ≡ true)
          × ((evaluate d (presented rest) holder opts).delegation_index ≡ some 0)
          × ((evaluate d (presented rest) holder opts).subject_index ≡ some 1)
    unfolding evaluate
    evaluate-build rest holder opts folds kept same trimmed named until =
        let read : extract_capability d (delegation_of g) ≡ some cap =
          extract-build show_index g d (delegation_of g) folds (delegation-raw g)
            (ground (arith, same, trimmed, ap trim_space same, named)) until in
        rw
          (
            evaluate,
            found_delegation rest read,
            found_identity rest kept same trimmed named,
            linked kept same trimmed named,
          )
          (elim (Option-cases (check_invocation cap (delegation_of g) holder)) [
            | inr (r, fails) ↦ rw fails (refl, refl, refl)
            | inl invoked ↦
                rw invoked
                  (elim (Option-cases
                    (check_capability d opts cap (subject_of s) (delegation_of g))) [
                      | inr (r, fails) ↦ rw fails (refl, refl, refl)
                      | inl allowed ↦
                          rw allowed
                            (elim (Option-cases
                              (check_status d opts (subject_of s) (delegation_of g))) [
                                | inr (r, fails) ↦ rw fails (refl, refl, refl)
                                | inl clear ↦ rw clear (refl, refl, refl)
                              ])
                    ])
          ])
