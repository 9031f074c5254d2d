-- ===== src/Prelude/Texts.antt =====
-- Go's `strings` functions that the program uses, over the characters of a text.
use Prim.Native.Nat.{ℕ}
use Prim.Native.Char.{Char, code}
use Prim.Native.String.{String, ◌++◌ as append_text}
use Prim.Native.String.append
use mathlib.Core.Path.{◌≡◌, refl, subst, sym, ◌∙◌}
use mathlib.Core.Bool.{Bool, true, false, not, ◌&&◌, ◌||◌}
use mathlib.Core.List.{List, [], ◌∷◌}
use mathlib.Core.Option.{Option, none, some}
use native.Mathlib.Omega.{arith}
use text.Mathlib.Text.{◌==◌ as str_eq}
use text.Mathlib.TextEquality.{eq_iff}
use text.Mathlib.TextLemmas.{nil≢cons}
use mathlib.Core.Logic.{inl, inr}
use verifiably.Prelude.Tests.{leb, ◌==◌, if◌then◌else◌, Bool-cases}

-- unicode.IsSpace
unfoldable pub is_space : Char → Bool
is_space ch =
    let c = code ch in
    (leb 9 c && leb c 13)
    || c == 32
    || c == 0x85
    || c == 0xa0
    || c == 0x1680
    || (leb 0x2000 c && leb c 0x200a)
    || c == 0x2028
    || c == 0x2029
    || c == 0x202f
    || c == 0x205f
    || c == 0x3000

-- strings.TrimLeftFunc(s, unicode.IsSpace)
unfoldable pub trim_left : String → String
unfolding is_space
trim_left String.[] = String.[]
trim_left (String.◌∷◌ c s) = let rest = trim_left s in if is_space c then rest else String.◌∷◌ c s

abbrev cons_trimmed : Char → String → String
cons_trimmed c String.[] = if is_space c then String.[] else String.◌∷◌ c String.[]
cons_trimmed c (String.◌∷◌ d s) = String.◌∷◌ c (String.◌∷◌ d s)

-- strings.TrimRightFunc(s, unicode.IsSpace)
unfoldable pub trim_right : String → String
unfolding is_space
trim_right String.[] = String.[]
trim_right (String.◌∷◌ c s) = cons_trimmed c (trim_right s)

-- strings.TrimSpace
unfoldable pub trim_space : String → String
unfolding trim_left trim_right
trim_space s = trim_right (trim_left s)

abbrev onto_first : Char → List String → List String
onto_first c [] = String.◌∷◌ c String.[] ∷ []
onto_first c (p ∷ ps) = String.◌∷◌ c p ∷ ps

-- strings.Split(s, sep) for a separator of one character
unfoldable pub split : ℕ → String → List String
split sep String.[] = String.[] ∷ []
split sep (String.◌∷◌ c s) =
    let rest = split sep s in if code c == sep then String.[] ∷ rest else onto_first c rest

-- strings.HasPrefix
unfoldable pub has_prefix : String → String → Bool
has_prefix s String.[] = true
has_prefix String.[] (String.◌∷◌ d t) = false
has_prefix (String.◌∷◌ c s) (String.◌∷◌ d t) = code c == code d && has_prefix s t

-- strings.Contains
unfoldable pub contains : String → String → Bool
unfolding has_prefix
contains String.[] t = has_prefix String.[] t
contains (String.◌∷◌ c s) t = has_prefix (String.◌∷◌ c s) t || contains s t

-- strings.TrimPrefix
unfoldable pub without_prefix : String → String → Option String
without_prefix s String.[] = some s
without_prefix String.[] (String.◌∷◌ d t) = none
without_prefix (String.◌∷◌ c s) (String.◌∷◌ d t) =
    let rest = without_prefix s t in if code c == code d then rest else none

unfoldable pub trim_prefix : String → String → String
unfolding without_prefix
trim_prefix s prefix = elim (without_prefix s prefix) [ none ↦ s | some rest ↦ rest ]

-- s[:strings.IndexByte(s, stop)], all of the text where there is no such character
unfoldable pub before : ℕ → String → String
before stop String.[] = String.[]
before stop (String.◌∷◌ c s) =
    let rest = before stop s in if code c == stop then String.[] else String.◌∷◌ c rest

-- No character of the text has the code.
unfoldable pub lacks : ℕ → String → Bool
lacks stop String.[] = true
lacks stop (String.◌∷◌ c s) = not (code c == stop) && lacks stop s

pub split-lacks : (sep : ℕ) (s : String) → lacks sep s ≡ true → split sep s ≡ s ∷ []
unfolding split lacks
split-lacks sep String.[] h = refl
split-lacks sep (String.◌∷◌ c s) h = ground (arith, split-lacks sep s)

pub split-join :
    (sep : ℕ) (s : String) (c : Char) (t : String)
    → lacks sep s ≡ true
    → code c ≡ sep
    → split sep (append_text s (String.◌∷◌ c t)) ≡ s ∷ split sep t
unfolding split lacks
split-join sep String.[] c t h e = rw append.nil (ground (arith, e))
split-join sep (String.◌∷◌ d s) c t h e =
    rw append.cons (ground (arith, split-join sep s c t (ground arith) e))

pub before-lacks : (stop : ℕ) (s : String) → lacks stop s ≡ true → before stop s ≡ s
unfolding before lacks
before-lacks stop String.[] h = refl
before-lacks stop (String.◌∷◌ c s) h = ground (arith, before-lacks stop s)

pub without_prefix-append : (p t : String) → without_prefix (append_text p t) p ≡ some t
unfolding without_prefix
without_prefix-append String.[] t = rw append.nil refl
without_prefix-append (String.◌∷◌ c p) t =
    rw append.cons (ground (arith, without_prefix-append p t))

pub has_prefix-append : (p t : String) → has_prefix (append_text p t) p ≡ true
unfolding has_prefix
has_prefix-append String.[] t = refl
has_prefix-append (String.◌∷◌ c p) t = rw append.cons (ground (arith, has_prefix-append p t))

pub trim_prefix-append : (p t : String) → trim_prefix (append_text p t) p ≡ t
unfolding trim_prefix
trim_prefix-append p t = rw (without_prefix-append p t, trim_prefix) refl

pub has_prefix-shorter :
    (s p q : String) → has_prefix s (append_text p q) ≡ true → has_prefix s p ≡ true
unfolding has_prefix
has_prefix-shorter s String.[] q h = refl
has_prefix-shorter String.[] (String.◌∷◌ d p) q h =
    subst (λ u. has_prefix String.[] u ≡ true) (append.cons d p q) h
has_prefix-shorter (String.◌∷◌ c s) (String.◌∷◌ d p) q h =
    let both : has_prefix (String.◌∷◌ c s) (String.◌∷◌ d (append_text p q)) ≡ true =
      subst (λ u. has_prefix (String.◌∷◌ c s) u ≡ true) (append.cons d p q) h in
    ground (arith, both, has_prefix-shorter s p q)

pub append-nonempty : (c : Char) (t u : String) → str_eq (append_text (String.◌∷◌ c t) u) "" ≡ false
append-nonempty c t u = elim (Bool-cases (str_eq (append_text (String.◌∷◌ c t) u) "")) [
  | inr h ↦ h
  | inl h ↦
      absurd (nil≢cons (sym ((eq_iff (append_text (String.◌∷◌ c t) u) "").0 h) ∙ append.cons c t u))
]
