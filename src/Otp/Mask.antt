-- ===== src/Otp/Mask.antt =====
-- randCode6 and maskEmail of internal/handlers/otp.go, over bytes.
use verifiably.Prelude.{
  ℕ, zero, suc, ◌≡◌, ◌≢◌, refl, ap, false, List, [], ◌∷◌, ◌++◌, Option, none, some, arith,
  if◌then◌else◌, leb, ◌==◌, length, All,
}

-- The index of the first '@', if there is one: the loop of maskEmail.
unfoldable pub at_sign : List ℕ → Option ℕ
at_sign [] = none
at_sign (c ∷ rest) =
    if c == b'@' then some zero else elim (at_sign rest) [ none ↦ none | some i ↦ some (suc i) ]

abbrev pub take : ℕ → List ℕ → List ℕ
take zero l = []
take (suc n) [] = []
take (suc n) (c ∷ rest) = c ∷ take n rest

abbrev pub drop : ℕ → List ℕ → List ℕ
drop zero l = l
drop (suc n) [] = []
drop (suc n) (c ∷ rest) = drop n rest

abbrev pub stars : List ℕ
stars = b'*' ∷ b'*' ∷ b'*' ∷ []

-- "your email"
abbrev pub your_email : List ℕ
your_email = b'y' ∷ b'o' ∷ b'u' ∷ b'r' ∷ b' ' ∷ b'e' ∷ b'm' ∷ b'a' ∷ b'i' ∷ b'l' ∷ []

mask_at : ℕ → List ℕ → List ℕ
mask_at i e =
    let local = take i e in
    let domain = drop i e in
    if leb (length local) 2
    then take 1 local ++ stars ++ domain
    else take 2 local ++ stars ++ domain

unfoldable pub mask_email : List ℕ → List ℕ
unfolding mask_at
mask_email e = elim (at_sign e) [
  | none ↦ your_email
  | some i ↦ if i == 0 then your_email else mask_at i e
]

-- No byte of a text is '@'.
abbrev pub NoAt : List ℕ → Type 0
NoAt = All (λ c. c ≢ b'@')

at_sign-append :
    (local rest : List ℕ) → NoAt local → at_sign (local ++ b'@' ∷ rest) ≡ some (length local)
unfolding at_sign
at_sign-append [] rest h = refl
at_sign-append (c ∷ local) rest h = ground (arith, at_sign-append local rest h.1)

take-append : (local rest : List ℕ) → take (length local) (local ++ rest) ≡ local
take-append [] rest = refl
take-append (c ∷ local) rest = ap (◌∷◌ c) (take-append local rest)

drop-append : (local rest : List ℕ) → drop (length local) (local ++ rest) ≡ rest
drop-append [] rest = refl
drop-append (c ∷ local) rest = drop-append local rest

-- The bytes of the local part that are shown: the first, and the second if there is a third.
abbrev pub shown : List ℕ → List ℕ
shown (a ∷ b ∷ c ∷ rest) = a ∷ b ∷ []
shown (a ∷ rest) = a ∷ []
shown [] = []

mask_at-shown :
    (a : ℕ) (local domain : List ℕ)
    → mask_at (length (a ∷ local)) ((a ∷ local) ++ domain) ≡ shown (a ∷ local) ++ stars ++ domain
unfolding mask_at
mask_at-shown a [] domain = refl
mask_at-shown a (b ∷ []) domain = refl
mask_at-shown a (b ∷ c ∷ rest) domain =
    rw (take-append rest domain, drop-append rest domain) (ground arith)

-- Of an address with a local part, that before the first '@', the mask shows the domain, and of the
-- local part the first two bytes if it has three or more, else the first.
pub mask_email-shown :
    (a : ℕ) (local rest : List ℕ)
    → NoAt (a ∷ local)
    → mask_email ((a ∷ local) ++ b'@' ∷ rest) ≡ shown (a ∷ local) ++ stars ++ b'@' ∷ rest
unfolding mask_email
mask_email-shown a local rest h =
    let some_byte : (suc (length local) == 0) ≡ false = ground arith in
    rw (at_sign-append (a ∷ local) rest h, mask_email)
      (rw some_byte (mask_at-shown a local (b'@' ∷ rest)))
