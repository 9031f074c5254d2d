-- ===== src/StatusListCache/SelfSigned.antt =====
-- The check of internal/statuslistcache/fetcher.go on the lists that internal/statuslist/jws.go signs with a
-- self-signed key.
mod Examples
use Prim.Native.String.{◌++◌ as append_text}
use text.Mathlib.TextLemmas.{append_assoc}
use text.Mathlib.Text.{◌==◌}
use verifiably.Prelude.{
  ℕ, ◌^◌, ◌<◌, ◌≡◌, ◌≢◌, ◌⊎◌, inl, inr, refl, sym, ap, subst, ◌∙◌, Bool, true, false, not, ◌&&◌,
  List, [], ◌∷◌, ◌++◌, Option, none, some, String, if◌then◌else◌, arith, eq_iff, length,
  length-append, ◌==◌ as nat_eq, Bool-cases, Option-cases,
}
use verifiably.Prelude.Outcome.{Outcome, ok, err}
use verifiably.Prelude.Texts.{
  split, lacks, before, before-lacks, trim_prefix-append, has_prefix, trim_prefix, without_prefix,
  without_prefix-append, has_prefix-append, has_prefix-shorter,
}
use verifiably.Delegation.Json.{Fields, map_str, lookup}
use verifiably.Jose.{
  Codecs, set_bytes, fill_bytes, take, drop, decode_base64url_big_int, length-fill_bytes,
  set_bytes-fill_bytes, take-append, drop-append, verify_es256, KeyError, signature_invalid,
}
use verifiably.StatusList.Signing.{
  SigningKey, joined, b64_coord, public_jwk, did_jwk_from_p256, sign_es256, header_of, sign_jwt,
  verify_es256 as verify_own, verify_parts as verify_own_parts,
}
use verifiably.StatusList.Signing.RoundTrip.{
  Lawful, no_dot, no_hash, token, split-token, decode-b64_coord,
}
use verifiably.StatusListCache.Verify.{
  VerifyError, did_jwk_mismatch, Resolver, decode_did_jwk, verify_es256_jwt, verify_by_did_jwk,
  issuer_of, verify_parts, verify_jwt,
}

token-nonempty :
    (h p s : String) → split b'.' (token h p s) ≡ h ∷ p ∷ s ∷ [] → (token h p s == "") ≡ false
unfolding split
token-nonempty h p s e = elim (Bool-cases (token h p s == "")) [
  | inr named ↦ named
  | inl blank ↦ absurd (ground (arith, e, ap (split b'.') ((eq_iff (token h p s) "").0 blank)))
]

module _ (c : Codecs) (lawful : Lawful c) (x y : ℕ) (x_lt : x < 256 ^ 32) (y_lt : y < 256 ^ 32)
    (read : c.unmarshal (c.marshal (public_jwk c x y)) ≡ some (public_jwk c x y)) where
  decode-did_jwk : decode_did_jwk c (did_jwk_from_p256 c x y) ≡ some (public_jwk c x y)
  unfolding decode_did_jwk did_jwk_from_p256
  decode-did_jwk =
      let enc : String = c.raw_url (c.marshal (public_jwk c x y)) in
      rw
        (
          did_jwk_from_p256,
          decode_did_jwk,
          trim_prefix-append "did:jwk:" enc,
          before-lacks b'#' enc (no_hash c lawful _),
          lawful.round_trip (c.marshal (public_jwk c x y)),
        )
        read

  -- The key check on a token of this key: the length of the signature, then ECDSA.
  verify-public_jwk :
      (h p s : String) (sig : List ℕ)
      → c.from_raw_url s ≡ some sig
      → verify_es256_jwt c h p s (public_jwk c x y)
        ≡ verify_es256 c x y (c.bytes_of (joined h p)) sig
  unfolding verify_es256_jwt public_jwk map_str lookup
  verify-public_jwk h p s sig known =
      rw
        (
          verify_es256_jwt,
          decode-b64_coord c lawful x x_lt,
          decode-b64_coord c lawful y y_lt,
          known,
        )
        refl

  is_did_jwk : has_prefix (did_jwk_from_p256 c x y) "did:jwk:" ≡ true
  unfolding did_jwk_from_p256
  is_did_jwk = has_prefix-append "did:jwk:" (c.raw_url (c.marshal (public_jwk c x y)))

  is_did : has_prefix (did_jwk_from_p256 c x y) "did:" ≡ true
  is_did = has_prefix-shorter (did_jwk_from_p256 c x y) "did:" "jwk:" is_did_jwk

  issuer-did_jwk :
      (issuer_did p : String) (payload : List ℕ)
      → c.from_raw_url p ≡ some payload
      → c.iss_claim payload ≡ some (did_jwk_from_p256 c x y)
      → issuer_of c p issuer_did ≡ did_jwk_from_p256 c x y
  unfolding issuer_of
  issuer-did_jwk issuer_did p payload holds names = rw (holds, issuer_of, names) (rw is_did refl)

  -- A list in three parts whose payload names the did:jwk of a P-256 key fails the check exactly if its
  -- signature has 64 bytes that are not one of that key; a signature of another length passes.
  pub verify_jwt-did_jwk :
      (resolver : Option Resolver) (issuer_did h p s : String) (payload sig : List ℕ)
      → lacks b'.' h ≡ true
      → lacks b'.' p ≡ true
      → lacks b'.' s ≡ true
      → c.from_raw_url p ≡ some payload
      → c.iss_claim payload ≡ some (did_jwk_from_p256 c x y)
      → c.from_raw_url s ≡ some sig
      → verify_jwt c resolver (token h p s) issuer_did ≡ (
          if nat_eq (length sig) 64
            && not (
                c.ecdsa_verify x y
                  (c.sha256 (c.bytes_of (joined h p)))
                  (set_bytes 0 (take 32 sig))
                  (set_bytes 0 (drop 32 sig)))
          then some did_jwk_mismatch
          else none)
  unfolding verify_jwt verify_parts verify_by_did_jwk verify_es256
  verify_jwt-did_jwk resolver issuer_did h p s payload sig no_h no_p no_s holds names known =
      let did : String = did_jwk_from_p256 c x y in
      let parts : (split b'.' (token h p s) ≡ h ∷ p ∷ s ∷ []) = split-token h p s no_h no_p no_s in
      rw
        (
          token-nonempty h p s parts,
          verify_jwt,
          parts,
          verify_parts,
          issuer-did_jwk issuer_did p payload holds names,
        )
        (rw
          (is_did, is_did_jwk, verify_by_did_jwk, decode-did_jwk, verify-public_jwk h p s sig known)
          (ground arith))

  -- What ecdsa.Sign makes fits 32 bytes for each half and verifies.
  pub record Signs (d : ℕ) : Type 0 where
    pub halves :
        (hash : List ℕ) (r s : ℕ)
        → c.ecdsa_sign d hash ≡ some (r, s)
        → (r < 256 ^ 32) × (s < 256 ^ 32)
    pub sound :
        (hash : List ℕ) (r s : ℕ)
        → c.ecdsa_sign d hash ≡ some (r, s)
        → c.ecdsa_verify x y hash r s ≡ true

  abbrev self_signed : ℕ → SigningKey
  self_signed d = record { x = x; y = y; d = d; kid = ""; iss = did_jwk_from_p256 c x y }

  abbrev signature : ℕ → ℕ → List ℕ
  signature r s = fill_bytes 32 r ++ fill_bytes 32 s

  length-signature : (r s : ℕ) → length (signature r s) ≡ 64
  length-signature r s = omega (
    arith,
    length-append (fill_bytes 32 r) (fill_bytes 32 s),
    length-fill_bytes 32 r,
    length-fill_bytes 32 s,
  )

  verify-signature :
      (d r s : ℕ) (hash : List ℕ)
      → Signs d
      → c.ecdsa_sign d hash ≡ some (r, s)
      → c.ecdsa_verify x y hash
          (set_bytes 0 (take 32 (signature r s)))
          (set_bytes 0 (drop 32 (signature r s)))
        ≡ true
  verify-signature d r s hash signs made =
      rw
        (
          take-append 32 (fill_bytes 32 r) (fill_bytes 32 s) (length-fill_bytes 32 r),
          drop-append 32 (fill_bytes 32 r) (fill_bytes 32 s) (length-fill_bytes 32 r),
          set_bytes-fill_bytes 32 r (signs.halves hash r s made).0,
          set_bytes-fill_bytes 32 s (signs.halves hash r s made).1,
        )
        (signs.sound hash r s made)

  verify_own_passes :
      (k : SigningKey) (header payload sig : List ℕ) (m : Fields)
      → c.unmarshal header ≡ some m
      → map_str m "alg" ≡ "ES256"
      → length sig ≡ 64
      → c.ecdsa_verify k.x k.y
          (c.sha256 (c.bytes_of (joined (c.raw_url header) (c.raw_url payload))))
          (set_bytes 0 (take 32 sig))
          (set_bytes 0 (drop 32 sig))
        ≡ true
      → verify_own c k (token (c.raw_url header) (c.raw_url payload) (c.raw_url sig)) ≡ ok payload
  unfolding verify_own verify_own_parts
  verify_own_passes k header payload sig m holds alg whole valid =
      rw
        (
          split-token (c.raw_url header) (c.raw_url payload) (c.raw_url sig) (no_dot c lawful _)
              (no_dot c lawful _) (no_dot c lawful _),
          verify_own,
          verify_own_parts,
          lawful.round_trip header,
          holds,
          alg,
          lawful.round_trip sig,
          whole,
          valid,
          lawful.round_trip payload,
        )
        refl

  header-alg : (k : SigningKey) (typ : String) → map_str (header_of k typ) "alg" ≡ "ES256"
  unfolding header_of map_str lookup
  header-alg k typ = elim (Bool-cases (k.kid == "")) [
    | inl h ↦ rw (h, header_of) refl
    | inr h ↦ rw (h, header_of) refl
  ]

  -- The list that a self-signed key signs over claims that name its issuer passes the key's own check,
  -- which gives back the claims, and the check of the cache.
  pub sign_jwt-verify_jwt :
      (d : ℕ) (typ tok issuer_did : String) (claims : Fields) (resolver : Option Resolver)
      → Signs d
      → c.unmarshal (c.marshal (header_of (self_signed d) typ))
        ≡ some (header_of (self_signed d) typ)
      → c.iss_claim (c.marshal claims) ≡ some (did_jwk_from_p256 c x y)
      → sign_jwt c (self_signed d) typ claims ≡ ok tok
      → (verify_own c (self_signed d) tok ≡ ok (c.marshal claims))
        × (verify_jwt c resolver tok issuer_did ≡ none)
  unfolding sign_jwt sign_es256
  sign_jwt-verify_jwt d typ tok issuer_did claims resolver signs header names signed =
      let h : String = c.raw_url (c.marshal (header_of (self_signed d) typ)) in
      let p : String = c.raw_url (c.marshal claims) in
      let hash : List ℕ = c.sha256 (c.bytes_of (joined h p)) in
      elim (Option-cases (c.ecdsa_sign d hash)) [
        | inl failed ↦ absurd (ground (arith, failed, signed))
        | inr ((r, s), made) ↦
            let sig : String = c.raw_url (signature r s) in
            let is_tok : (tok ≡ token h p sig) = ground (arith, made, signed) in
            let valid = verify-signature d r s hash signs made in
            rw is_tok (
              verify_own_passes (self_signed d) (c.marshal (header_of (self_signed d) typ))
                  (c.marshal claims) (signature r s) (header_of (self_signed d) typ) header
                  (header-alg (self_signed d) typ) (length-signature r s) valid,
              verify_jwt-did_jwk resolver issuer_did h p sig (c.marshal claims) (signature r s)
                    (no_dot c lawful _) (no_dot c lawful _) (no_dot c lawful _)
                    (lawful.round_trip _) names (lawful.round_trip _)
                  ∙ rw (length-signature r s, valid) refl,
            )
      ]
