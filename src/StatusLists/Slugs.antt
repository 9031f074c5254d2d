-- ===== src/StatusLists/Slugs.antt =====
-- The public ids of internal/handlers/statuslists.go.
use Prim.Native.Char.{Char, code}
use Prim.Native.String.{◌++◌ as append_text}
use Prim.Native.String.append
use text.Mathlib.Text.{◌==◌}
use text.Mathlib.TextLemmas.{append_assoc}
use verifiably.Prelude.{
  ℕ, ◌≡◌, ◌≢◌, refl, ap, Bool, true, false, String, ◌==◌ as nat_eq, arith, inl, inr, Bool-cases,
}
use verifiably.Prelude.UrlSafe.{is_url_safe, all_chars, all_chars-append}
use verifiably.StatusLists.{
  dashed, trim_left_dashes, cons_undashed, trim_right_dashes, status_list_slug, status_list_id,
}

dashed-safe : (last : Bool) (s : String) → all_chars is_url_safe (dashed last s) ≡ true
unfolding dashed all_chars is_url_safe
dashed-safe last String.[] = refl
dashed-safe last (String.◌∷◌ c s) = ground (arith, dashed-safe false s, dashed-safe true s)

trim_left_dashes-safe :
    (s : String)
    → all_chars is_url_safe s ≡ true
    → all_chars is_url_safe (trim_left_dashes s) ≡ true
unfolding trim_left_dashes all_chars
trim_left_dashes-safe String.[] h = refl
trim_left_dashes-safe (String.◌∷◌ c s) h = ground (arith, h, trim_left_dashes-safe s)

cons_undashed-safe :
    (c : Char) (s : String)
    → is_url_safe c ≡ true
    → all_chars is_url_safe s ≡ true
    → all_chars is_url_safe (cons_undashed c s) ≡ true
unfolding all_chars
cons_undashed-safe c String.[] hc hs = elim (Bool-cases (nat_eq (code c) b'-')) [
  | inl dash ↦ rw dash refl
  | inr other ↦ rw other (ground (arith, hc))
]
cons_undashed-safe c (String.◌∷◌ d s) hc hs = ground (arith, hc, hs)

trim_right_dashes-safe :
    (s : String)
    → all_chars is_url_safe s ≡ true
    → all_chars is_url_safe (trim_right_dashes s) ≡ true
unfolding trim_right_dashes all_chars
trim_right_dashes-safe String.[] h = refl
trim_right_dashes-safe (String.◌∷◌ c s) h =
    cons_undashed-safe c (trim_right_dashes s) (ground (arith, h))
      (trim_right_dashes-safe s (ground (arith, h)))

status_list_slug-safe :
    (to_lower : String → String) (vendor : String)
    → all_chars is_url_safe (status_list_slug to_lower vendor) ≡ true
unfolding status_list_slug
status_list_slug-safe to_lower vendor =
    trim_right_dashes-safe _ (trim_left_dashes-safe _ (dashed-safe true (to_lower vendor)))

-- The code of a text's last character, 0 for an empty one.
unfoldable last_code : String → ℕ
last_code String.[] = 0
last_code (String.◌∷◌ c String.[]) = code c
last_code (String.◌∷◌ c (String.◌∷◌ d s)) = last_code (String.◌∷◌ d s)

last_code-cons :
    (c d : Char) (s t : String)
    → last_code (String.◌∷◌ c (append_text s (String.◌∷◌ d t))) ≡ last_code (String.◌∷◌ d t)
unfolding last_code
last_code-cons c d String.[] t = rw append.nil refl
last_code-cons c d (String.◌∷◌ e s) t = rw append.cons (last_code-cons e d s t)

last_code-append :
    (s : String) (d : Char) (t : String)
    → last_code (append_text s (String.◌∷◌ d t)) ≡ last_code (String.◌∷◌ d t)
last_code-append String.[] d t = rw append.nil refl
last_code-append (String.◌∷◌ c s) d t = rw append.cons (last_code-cons c d s t)

module _ (to_lower : String → String) where
  last_code-status_list_id :
      (vendor : String) (d : Char) (t : String)
      → last_code (status_list_id to_lower vendor (String.◌∷◌ d t)) ≡ last_code (String.◌∷◌ d t)
  unfolding status_list_id
  last_code-status_list_id vendor d t = elim (Bool-cases (status_list_slug to_lower vendor == "")) [
    | inl blank ↦ rw (blank, status_list_id) refl
    | inr named ↦
        rw (named, status_list_id)
          (rw (← append_assoc (status_list_slug to_lower vendor) "-" (String.◌∷◌ d t))
            (last_code-append (append_text (status_list_slug to_lower vendor) "-") d t))
  ]

  id-safe :
      (vendor kind : String)
      → all_chars is_url_safe kind ≡ true
      → all_chars is_url_safe (status_list_id to_lower vendor kind) ≡ true
  unfolding status_list_id all_chars is_url_safe
  id-safe vendor kind safe = elim (Bool-cases (status_list_slug to_lower vendor == "")) [
    | inl blank ↦ rw (blank, status_list_id) safe
    | inr named ↦
        rw (named, status_list_id)
          (all_chars-append is_url_safe (status_list_slug to_lower vendor) (append_text "-" kind)
            (status_list_slug-safe to_lower vendor)
            (all_chars-append is_url_safe "-" kind refl safe))
  ]

  -- The ids of a product's two lists are of letters, digits, "-" and "_", and no bitstring list of any
  -- product has the id of a token list of any product.
  pub status_list_id-apart :
      (vendor other : String)
      → (all_chars is_url_safe (status_list_id to_lower vendor "bitstring") ≡ true)
        × (all_chars is_url_safe (status_list_id to_lower vendor "token") ≡ true)
        × (status_list_id to_lower vendor "bitstring" ≢ status_list_id to_lower other "token")
  unfolding last_code all_chars is_url_safe
  status_list_id-apart vendor other = (
    id-safe vendor "bitstring" refl,
    id-safe vendor "token" refl,
    λ e. ground (
      arith,
      last_code-status_list_id vendor "b" "itstring",
      last_code-status_list_id other "t" "oken",
      ap last_code e,
    ),
  )
