-- ===== src/StatusList/Signing/Sample.antt =====
-- A concrete stand-in for the encodings and the signature that internal/statuslist relies on: a byte is
-- written in unary, and every signature is the pair of 1 and 2. It shows that the laws of the parameters
-- can hold.
use Prim.Native.Char.{code}
use verifiably.Prelude.{
  ℕ, zero, suc, ◌≡◌, refl, true, ◌&&◌, List, [], ◌∷◌, Option, none, some, String, if◌then◌else◌,
  ◌==◌ as nat_eq,
}
use verifiably.Prelude.UrlSafe.{is_url_safe, all_chars}
use verifiably.Delegation.Json.{Fields, empty, field}
use verifiably.Jose.{Codecs}
use verifiably.StatusList.Signing.RoundTrip.{Lawful}

abbrev unary : ℕ → String → String
unary zero s = s
unary (suc n) s = String.◌∷◌ "a" (unary n s)

abbrev pub written : List ℕ → String
written [] = ""
written (n ∷ bs) = String.◌∷◌ "b" (unary n (written bs))

abbrev read : String → ℕ × List ℕ
read String.[] = (0, [])
read (String.◌∷◌ c s) =
    let (k, bs) = read s in if nat_eq (code c) b'a' then (suc k, bs) else (0, k ∷ bs)

read-unary : (n : ℕ) (s : String) (bs : List ℕ) → read s ≡ (0, bs) → read (unary n s) ≡ (n, bs)
read-unary zero s bs h = h
read-unary (suc n) s bs h = rw (read-unary n s bs h) refl

read-written : (bs : List ℕ) → read (written bs) ≡ (0, bs)
read-written [] = refl
read-written (n ∷ bs) = rw (read-unary n (written bs) bs (read-written bs)) refl

unary-safe :
    (n : ℕ) (s : String) → all_chars is_url_safe s ≡ true → all_chars is_url_safe (unary n s) ≡ true
unfolding all_chars is_url_safe
unary-safe zero s h = h
unary-safe (suc n) s h = unary-safe n s h

written-safe : (bs : List ℕ) → all_chars is_url_safe (written bs) ≡ true
unfolding all_chars is_url_safe
written-safe [] = refl
written-safe (n ∷ bs) = unary-safe n (written bs) (written-safe bs)

abbrev field_count : Fields → ℕ
field_count empty = 0
field_count (field k v rest) = suc (field_count rest)

-- An object is told by the number of its fields.
abbrev pub sample : (ℕ → Option Fields) → String → Codecs
sample known iss = record {
  raw_url = written;
  from_raw_url = λ s. some (read s).1;
  from_padded_url = λ s. none;
  bytes_of = λ s. [];
  marshal = λ m. field_count m ∷ [];
  unmarshal = λ b. elim b [ [] ↦ none | n ∷ rest ↦ known n ];
  iss_claim = λ b. some iss;
  sha256 = λ b. b;
  ecdsa_verify = λ x y hash r s. nat_eq r 1 && nat_eq s 2;
  ecdsa_sign = λ d hash. some (1, 2);
}

pub sample-Lawful : (known : ℕ → Option Fields) (iss : String) → Lawful (sample known iss)
sample-Lawful known iss = record { round_trip = λ b. rw (read-written b) refl; safe = written-safe }
