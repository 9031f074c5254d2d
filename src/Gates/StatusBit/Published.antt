-- ===== src/Gates/StatusBit/Published.antt =====
-- The revocation bit that internal/handlers/delegation.go reads in a list that internal/statuslist published.
use Prim.Native.String.{◌++◌ as append_text}
use text.Mathlib.Text.{◌==◌}
use verifiably.Prelude.{
  ℕ, ◌≡◌, ◌≢◌, inl, inr, refl, sym, subst, ◌∙◌, Bool, true, false, not, List, ◌++◌, some, String,
  if◌then◌else◌, arith, eq_iff, pos, Option-cases,
}
use verifiably.Prelude.Outcome.{Outcome, ok, err}
use verifiably.Prelude.Texts.{trim_prefix-append, append-nonempty}
use verifiably.Prelude.UrlSafe.{trim_space-token, has_prefix-token}
use verifiably.StatusList.Bitstring.{default_bits, get}
use verifiably.StatusList.Store.{Node, Call, run}
use verifiably.StatusList.Store.Invariant.{Inv, run-Inv}
use verifiably.StatusList.Store.Refinement.{Spec, Agrees, view, spec_run, view-Agrees, run-Agrees}
use verifiably.StatusList.Signing.{SigningKey, SignError, sign_jwt, sign_es256, header_of, joined}
use verifiably.StatusList.Signing.RoundTrip.{Lawful, no_dot, token, split-token, token-safe}
use verifiably.StatusList.Publication.{
  Compression, PublishError, wrong_kind, or_unsigned, encode_gzip_base64url, encode_zlib_base64url,
  publish_token_status_list, token_claims, publish_bitstring_jwt, bitstring_claims,
  build_bitstring_vc,
}
use verifiably.StatusList.Publication.RoundTrip.{Lossless, decode-encode_gzip, decode-encode_zlib}
use verifiably.Delegation.Json.{Fields, Decoders, as_map, map_str, lookup}
use verifiably.Delegation.Extract.{StatusRef}
use verifiably.Jose.{Codecs, fill_bytes}
use verifiably.Gates.StatusBit.{
  jwt_payload_claims, status_list_claims, token_bit, bitstring_bit, status_bit_revoked,
}

-- What a publication that succeeds has signed.
signed_of : (o : Outcome SignError String) (jwt : String) → or_unsigned o ≡ ok jwt → o ≡ ok jwt
signed_of (ok s) jwt h = ground (arith, h)
signed_of (err e) jwt h = absurd (ground (arith, h))

if_ok :
    (b : Bool) (e : PublishError) (o : Outcome PublishError String) (jwt : String)
    → (if not b then err e else o) ≡ ok jwt
    → (b ≡ true) × (o ≡ ok jwt)
if_ok true e o jwt h = (refl, h)
if_ok false e o jwt h = absurd (ground (arith, h))

module _ (d : Decoders) (c : Codecs) (z : Compression) (lawful : Lawful c)
    (lossless : Lossless z) where
  -- The claims of a signed list are read back.
  status_list_claims-sign_jwt :
      (k : SigningKey) (typ jwt : String) (claims : Fields)
      → c.unmarshal (c.marshal claims) ≡ some claims
      → sign_jwt c k typ claims ≡ ok jwt
      → status_list_claims d c jwt ≡ ok claims
  unfolding sign_jwt sign_es256 status_list_claims jwt_payload_claims
  status_list_claims-sign_jwt k typ jwt claims read signed =
      let h : String = c.raw_url (c.marshal (header_of k typ)) in
      let p : String = c.raw_url (c.marshal claims) in
      elim (Option-cases (c.ecdsa_sign k.d (c.sha256 (c.bytes_of (joined h p))))) [
        | inl failed ↦ absurd (ground (arith, failed, signed))
        | inr ((r, s), made) ↦
            let sig : String = c.raw_url (fill_bytes 32 r ++ fill_bytes 32 s) in
            let is_tok : (jwt ≡ token h p sig) = ground (arith, made, signed) in
            let safe = token-safe h p sig (lawful.safe _) (lawful.safe _) (lawful.safe _) in
            rw
              (
                is_tok,
                status_list_claims,
                trim_space-token (token h p sig) safe,
                has_prefix-token (token h p sig) safe,
                jwt_payload_claims,
                split-token h p sig (no_dot c lawful _) (no_dot c lawful _) (no_dot c lawful _),
                lawful.round_trip (c.marshal claims),
                read,
              )
              refl
      ]

  module _ (n : Node) (inv : Inv n) (s : Spec) (agrees : Agrees n s)
      (full : n.mem.bits.size ≡ default_bits) (key : SigningKey) (now : ℕ) (now_text : String)
      (ref : StatusRef) (i : ℕ) (at : ref.index ≡ pos i) where
    order : (is : Bool) → (n.mem.kind == "token") ≡ is → n.mem.bits.lsb_first ≡ is
    order is e = inv.order ∙ e

    read_bit : get n.mem.bits (pos i) ≡ ok (s.revoked i)
    read_bit = agrees.revoked i

    token_bit-claims :
        (n.mem.kind == "token") ≡ true
        → encode_zlib_base64url c z n.mem.bits ≢ ""
        → token_bit c z (token_claims c z n.mem key.iss now) (pos i) ≡ ok (s.revoked i)
    unfolding token_bit token_claims as_map map_str lookup
    token_bit-claims is_token named =
        let enc = encode_zlib_base64url c z n.mem.bits in
        let blank : ((encode_zlib_base64url c z n.mem.bits == "") ≡ false) =
          ground (arith, named, eq_iff (encode_zlib_base64url c z n.mem.bits) "") in
        rw
          (
            token_bit,
            blank,
            sym full,
            decode-encode_zlib c z lawful lossless n.mem.bits inv.valid (order true is_token),
            read_bit,
          )
          refl

    bitstring_bit-claims :
        (n.mem.kind == "token") ≡ false
        → bitstring_bit c z (bitstring_claims c z n.mem key.iss now now_text) (pos i)
          ≡ ok (s.revoked i)
    unfolding bitstring_bit bitstring_claims build_bitstring_vc as_map map_str lookup
    bitstring_bit-claims is_bitstring =
        let enc : String = encode_gzip_base64url c z n.mem.bits in
        let blank : ((append_text "u" enc == "") ≡ false) = append-nonempty "u" String.[] enc in
        rw
          (
            bitstring_bit,
            blank,
            trim_prefix-append "u" enc,
            sym full,
            decode-encode_gzip c z lawful lossless n.mem.bits inv.valid (order false is_bitstring),
            read_bit,
          )
          refl

    token_bit-published :
        (jwt : String)
        → c.unmarshal (c.marshal (token_claims c z n.mem key.iss now))
          ≡ some (token_claims c z n.mem key.iss now)
        → encode_zlib_base64url c z n.mem.bits ≢ ""
        → d.equal_fold ref.type "TokenStatusList" ≡ true
        → publish_token_status_list c z n.mem key now ≡ ok jwt
        → status_bit_revoked d c z jwt ref ≡ ok (s.revoked i)
    unfolding publish_token_status_list status_bit_revoked
    token_bit-published jwt read named kind published =
        let claims : Fields = token_claims c z n.mem key.iss now in
        let (is_token, signed) = if_ok (n.mem.kind == "token") wrong_kind _ jwt published in
        rw
          (
            status_list_claims-sign_jwt key "statuslist+jwt" jwt claims read
                (signed_of (sign_jwt c key "statuslist+jwt" claims) jwt signed),
            status_bit_revoked,
            kind,
          )
          (subst (λ k. token_bit c z claims k ≡ ok (s.revoked i)) (sym at)
            (token_bit-claims is_token named))

    bitstring_bit-published :
        (jwt : String)
        → c.unmarshal (c.marshal (bitstring_claims c z n.mem key.iss now now_text))
          ≡ some (bitstring_claims c z n.mem key.iss now now_text)
        → d.equal_fold ref.type "TokenStatusList" ≡ false
        → publish_bitstring_jwt c z n.mem key now now_text ≡ ok jwt
        → status_bit_revoked d c z jwt ref ≡ ok (s.revoked i)
    unfolding publish_bitstring_jwt status_bit_revoked
    bitstring_bit-published jwt read kind published =
        let claims : Fields = bitstring_claims c z n.mem key.iss now now_text in
        let (is_bitstring, signed) = if_ok (n.mem.kind == "bitstring") wrong_kind _ jwt published in
        rw
          (
            status_list_claims-sign_jwt key "vc+jwt" jwt claims read
                (signed_of (sign_jwt c key "vc+jwt" claims) jwt signed),
            status_bit_revoked,
            kind,
          )
          (subst (λ k. bitstring_bit c z claims k ≡ ok (s.revoked i)) (sym at)
            (bitstring_bit-claims (
              subst (λ k. (k == "token") ≡ false)
                (sym ((eq_iff n.mem.kind "bitstring").0 is_bitstring)) refl)))

  module _ (n : Node) (calls : List Call) (key : SigningKey) (now : ℕ) (jwt : String)
      (ref : StatusRef) (i : ℕ) (inv : Inv n) (full : (run n calls).mem.bits.size ≡ default_bits)
      (at : ref.index ≡ pos i) where
    -- After any calls of a token list's store, saved or not, the bit that a verifier reads in the list as
    -- it is then published is what the abstract list of the calls holds. The list has the default size.
    pub status_bit-token :
        c.unmarshal (c.marshal (token_claims c z (run n calls).mem key.iss now))
          ≡ some (token_claims c z (run n calls).mem key.iss now)
        → encode_zlib_base64url c z (run n calls).mem.bits ≢ ""
        → d.equal_fold ref.type "TokenStatusList" ≡ true
        → publish_token_status_list c z (run n calls).mem key now ≡ ok jwt
        → status_bit_revoked d c z jwt ref ≡ ok ((spec_run (view n) calls).revoked i)
    status_bit-token =
        token_bit-published (run n calls) (run-Inv n calls inv) (spec_run (view n) calls)
          (run-Agrees n (view n) calls inv (view-Agrees n inv)) full key now "" ref i at jwt

    -- After any calls of a bitstring list's store, saved or not, the bit that a verifier reads in the
    -- list as it is then published is what the abstract list of the calls holds. The list has the
    -- default size.
    pub status_bit-bitstring :
        (now_text : String)
        → c.unmarshal (c.marshal (bitstring_claims c z (run n calls).mem key.iss now now_text))
          ≡ some (bitstring_claims c z (run n calls).mem key.iss now now_text)
        → d.equal_fold ref.type "TokenStatusList" ≡ false
        → publish_bitstring_jwt c z (run n calls).mem key now now_text ≡ ok jwt
        → status_bit_revoked d c z jwt ref ≡ ok ((spec_run (view n) calls).revoked i)
    status_bit-bitstring now_text =
        bitstring_bit-published (run n calls) (run-Inv n calls inv) (spec_run (view n) calls)
          (run-Agrees n (view n) calls inv (view-Agrees n inv)) full key now now_text ref i at jwt
