-- ===== src/StatusList/Signing/RoundTrip.antt =====
-- The keys of internal/statuslist/selfsigned.go through their file and through a did:jwk, and the check of
-- internal/statuslistcache/fetcher.go on what they sign.
use Prim.Native.String.{◌++◌ as append_text}
use Prim.Native.String.append
use text.Mathlib.TextLemmas.{append_assoc}
use text.Mathlib.Text.{◌==◌}
use verifiably.Prelude.{
  ℕ, ◌^◌, ◌<◌, ◌≡◌, ◌≢◌, inl, inr, refl, sym, ap, subst, ◌∙◌, Bool, true, List, [], ◌∷◌, Option,
  none, some, String, arith, eq_iff, Bool-cases, Option-cases,
}
use verifiably.Prelude.Texts.{split, lacks, split-lacks, split-join}
use verifiably.Prelude.UrlSafe.{
  is_url_safe, is_token_char, all_chars, all_chars-append, all_chars-weaken,
  is_token_char-is_url_safe, lacks-url_safe,
}
use verifiably.Delegation.Json.{map_str, lookup}
use verifiably.Jose.{Codecs, fill_bytes, decode_base64url_big_int, set_bytes-fill_bytes}
use verifiably.StatusList.Signing.{
  joined, b64_coord, persisted, parse_p256_jwk, load_or_create_p256, new_self_signed_key,
}

-- base64url is undone by its decoder and has letters, digits, "-" and "_" only.
pub record Lawful (c : Codecs) : Type 0 where
  pub round_trip : (b : List ℕ) → c.from_raw_url (c.raw_url b) ≡ some b
  pub safe : (b : List ℕ) → all_chars is_url_safe (c.raw_url b) ≡ true

module _ (c : Codecs) (lawful : Lawful c) (b : List ℕ) where
  pub no_dot : lacks b'.' (c.raw_url b) ≡ true
  no_dot = lacks-url_safe b'.' (c.raw_url b) (inl refl) (lawful.safe b)

  pub no_hash : lacks b'#' (c.raw_url b) ≡ true
  no_hash = lacks-url_safe b'#' (c.raw_url b) (inr refl) (lawful.safe b)

-- The text of three parts that a token is.
abbrev pub token : String → String → String → String
token header payload signature = joined (joined header payload) signature

dot_append : (t : String) → append_text "." t ≡ String.◌∷◌ "." t
dot_append t = append.cons "." String.[] t ∙ ap (String.◌∷◌ ".") (append.nil t)

split-joined : (h t : String) → lacks b'.' h ≡ true → split b'.' (joined h t) ≡ h ∷ split b'.' t
split-joined h t no_h =
    subst (λ u. split b'.' (append_text h u) ≡ h ∷ split b'.' t) (sym (dot_append t))
      (split-join b'.' h "." t no_h refl)

token-joined : (h p s : String) → token h p s ≡ joined h (joined p s)
token-joined h p s =
    append_assoc h (append_text "." p) (append_text "." s)
    ∙ ap (append_text h) (append_assoc "." p (append_text "." s))

pub split-token :
    (h p s : String)
    → lacks b'.' h ≡ true
    → lacks b'.' p ≡ true
    → lacks b'.' s ≡ true
    → split b'.' (token h p s) ≡ h ∷ p ∷ s ∷ []
split-token h p s no_h no_p no_s =
    ap (split b'.') (token-joined h p s)
    ∙ (split-joined h (joined p s) no_h
        ∙ ap (◌∷◌ h) (split-joined p s no_p ∙ ap (◌∷◌ p) (split-lacks b'.' s no_s)))

joined-safe :
    (a t : String)
    → all_chars is_token_char a ≡ true
    → all_chars is_token_char t ≡ true
    → all_chars is_token_char (joined a t) ≡ true
unfolding all_chars is_token_char is_url_safe
joined-safe a t safe_a safe_t =
    all_chars-append is_token_char a (append_text "." t) safe_a
      (all_chars-append is_token_char "." t refl safe_t)

-- A token over base64url.
pub token-safe :
    (h p s : String)
    → all_chars is_url_safe h ≡ true
    → all_chars is_url_safe p ≡ true
    → all_chars is_url_safe s ≡ true
    → all_chars is_token_char (token h p s) ≡ true
token-safe h p s safe_h safe_p safe_s =
    joined-safe (joined h p) s (joined-safe h p (weak h safe_h) (weak p safe_p)) (weak s safe_s)
  where
    weak : (t : String) → all_chars is_url_safe t ≡ true → all_chars is_token_char t ≡ true
    weak t = all_chars-weaken is_url_safe is_token_char t is_token_char-is_url_safe

module _ (c : Codecs) (lawful : Lawful c) where
  pub decode-b64_coord :
      (n : ℕ) → n < 256 ^ 32 → decode_base64url_big_int c (b64_coord c n) ≡ some n
  unfolding decode_base64url_big_int b64_coord
  decode-b64_coord n h =
      rw (lawful.round_trip (fill_bytes 32 n), decode_base64url_big_int)
        (ap some (set_bytes-fill_bytes 32 n h))

  -- A key that was written to its file is read back.
  parse-persisted :
      (x y d : ℕ)
      → x < 256 ^ 32
      → y < 256 ^ 32
      → d < 256 ^ 32
      → b64_coord c d ≢ ""
      → c.unmarshal (c.marshal (persisted c x y d)) ≡ some (persisted c x y d)
      → parse_p256_jwk c (c.marshal (persisted c x y d)) ≡ some (x, y, d)
  unfolding parse_p256_jwk persisted map_str lookup
  parse-persisted x y d hx hy hd named read =
      rw (read, parse_p256_jwk)
        (ground (
          arith,
          eq_iff (b64_coord c d) "",
          named,
          decode-b64_coord x hx,
          decode-b64_coord y hy,
          decode-b64_coord d hd,
        ))

  -- A key that fits the curve, with a way to sign and to name itself.
  pub record KeyFits (x y d : ℕ) : Type 0 where
    pub x_lt : x < 256 ^ 32
    pub y_lt : y < 256 ^ 32
    pub d_lt : d < 256 ^ 32
    pub stored : c.unmarshal (c.marshal (persisted c x y d)) ≡ some (persisted c x y d)
    pub named : b64_coord c d ≢ ""

  load_or_create_again :
      (file : Option (List ℕ)) (x y d : ℕ) (other : ℕ × ℕ × ℕ) (writable : Bool)
      → KeyFits x y d
      → load_or_create_p256 c (load_or_create_p256 c file (x, y, d) true).1 other writable
        ≡ load_or_create_p256 c file (x, y, d) true
  unfolding load_or_create_p256
  load_or_create_again none x y d other writable fits =
      rw
        (
          load_or_create_p256,
          parse-persisted x y d fits.x_lt fits.y_lt fits.d_lt fits.named fits.stored,
        )
        refl
  load_or_create_again (some raw) x y d other writable fits =
      elim (Option-cases (parse_p256_jwk c raw)) [
        | inr (key, good) ↦ rw (good, load_or_create_p256, good) refl
        | inl bad ↦
            rw
              (
                bad,
                load_or_create_p256,
                parse-persisted x y d fits.x_lt fits.y_lt fits.d_lt fits.named fits.stored,
              )
              refl
      ]

  -- After a start of NewSelfSignedKey that could write its file, every later start gives the same key and
  -- the same issuer, whatever key it would have made and whether it can write or not; a file that holds
  -- no key is replaced by the first start.
  pub new_self_signed_key_restart :
      (id : String) (file : Option (List ℕ)) (x y d : ℕ) (other : ℕ × ℕ × ℕ) (writable : Bool)
      → KeyFits x y d
      → new_self_signed_key c id (new_self_signed_key c id file (x, y, d) true).1 other writable
        ≡ new_self_signed_key c id file (x, y, d) true
  unfolding new_self_signed_key
  new_self_signed_key_restart id file x y d other writable fits = elim (Bool-cases (id == "")) [
    | inl unnamed ↦ rw (unnamed, new_self_signed_key) refl
    | inr named ↦
        rw (named, new_self_signed_key)
          (rw (load_or_create_again file x y d other writable fits) refl)
  ]
