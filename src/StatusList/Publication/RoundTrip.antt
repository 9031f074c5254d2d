-- ===== src/StatusList/Publication/RoundTrip.antt =====
-- What a verifier decodes of a list that internal/statuslist encoded.
use verifiably.Prelude.{
  ℕ, ◌≡◌, true, false, List, some, arith, pos, subst, inl, inr, if◌then◌else◌, Bool-cases,
}
use verifiably.StatusList.Result.{ok}
use verifiably.StatusList.Bitstring.{Bitstring, from_bytes}
use verifiably.StatusList.Bitstring.Laws.{IsValid}
use verifiably.Jose.{Codecs}
use verifiably.StatusList.Signing.RoundTrip.{Lawful}
use verifiably.StatusList.Publication.{
  Compression, encode_gzip_base64url, decode_gzip_base64url, encode_zlib_base64url,
  decode_zlib_base64url,
}

pub record Lossless (z : Compression) : Type 0 where
  pub gzip : (b : List ℕ) → z.gunzip (z.gzip b) ≡ some b
  pub zlib : (b : List ℕ) → z.unzlib (z.zlib b) ≡ some b

from_bytes-bits : (b : Bitstring) → IsValid b → from_bytes b.bits (pos b.size) b.lsb_first ≡ ok b
unfolding from_bytes
from_bytes-bits b h = ground (arith, h.size_pos, h.room)

module _ (c : Codecs) (z : Compression) (lawful : Lawful c) (lossless : Lossless z) (b : Bitstring)
    (h : IsValid b) where
  pub decode-encode_zlib :
      b.lsb_first ≡ true
      → decode_zlib_base64url c z (encode_zlib_base64url c z b) (pos b.size) ≡ ok b
  unfolding encode_zlib_base64url decode_zlib_base64url
  decode-encode_zlib lsb =
      rw (decode_zlib_base64url, lawful.round_trip (z.zlib b.bits), lossless.zlib b.bits)
        (subst (λ o. from_bytes b.bits (pos b.size) o ≡ ok b) lsb (from_bytes-bits b h))

  pub decode-encode_gzip :
      b.lsb_first ≡ false
      → decode_gzip_base64url c z (encode_gzip_base64url c z b) (pos b.size) ≡ ok b
  unfolding encode_gzip_base64url decode_gzip_base64url
  decode-encode_gzip msb =
      rw (decode_gzip_base64url, lawful.round_trip (z.gzip b.bits), lossless.gzip b.bits)
        (subst (λ o. from_bytes b.bits (pos b.size) o ≡ ok b) msb (from_bytes-bits b h))

  -- A well-formed list is decoded as it was encoded: by gzip where its first bit is the most significant
  -- one, by zlib where it is the least significant one.
  pub decode-encode :
      (if b.lsb_first
        then decode_zlib_base64url c z (encode_zlib_base64url c z b) (pos b.size)
        else decode_gzip_base64url c z (encode_gzip_base64url c z b) (pos b.size))
      ≡ ok b
  decode-encode = elim (Bool-cases b.lsb_first) [
    | inl lsb ↦ ground (arith, lsb, decode-encode_zlib lsb)
    | inr msb ↦ ground (arith, msb, decode-encode_gzip msb)
  ]
