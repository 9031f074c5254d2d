-- ===== src/Prelude/UrlSafe.antt =====
-- Texts over the letters, digits, "-" and "_" of base64url, and the functions of Texts on them.
use Prim.Native.Nat.{ℕ}
use Prim.Native.Char.{Char, code}
use Prim.Native.String.{String, ◌++◌ as append_text}
use Prim.Native.String.append
use mathlib.Core.Path.{◌≡◌, refl}
use mathlib.Core.Logic.{◌⊎◌}
use mathlib.Core.Bool.{Bool, true, false, ◌&&◌, ◌||◌}
use native.Mathlib.Omega.{arith}
use verifiably.Prelude.Tests.{leb, ◌==◌}
use verifiably.Prelude.Texts.{is_space, trim_left, trim_right, trim_space, lacks, has_prefix}

unfoldable pub is_url_safe : Char → Bool
is_url_safe ch =
    let n = code ch in
    (leb 48 n && leb n 57)
    || (leb 65 n && leb n 90)
    || (leb 97 n && leb n 122)
    || n == 45
    || n == 95

unfoldable pub all_chars : (Char → Bool) → String → Bool
all_chars p String.[] = true
all_chars p (String.◌∷◌ c s) = p c && all_chars p s

pub all_chars-append :
    (p : Char → Bool) (s t : String)
    → all_chars p s ≡ true
    → all_chars p t ≡ true
    → all_chars p (append_text s t) ≡ true
unfolding all_chars
all_chars-append p String.[] t hs ht = rw append.nil ht
all_chars-append p (String.◌∷◌ c s) t hs ht =
    rw append.cons (ground (arith, all_chars-append p s t))

pub all_chars-weaken :
    (p q : Char → Bool) (s : String)
    → ((c : Char) → p c ≡ true → q c ≡ true)
    → all_chars p s ≡ true
    → all_chars q s ≡ true
unfolding all_chars
all_chars-weaken p q String.[] weaker h = refl
all_chars-weaken p q (String.◌∷◌ c s) weaker h =
    ground (arith, weaker c, all_chars-weaken p q s weaker)

pub lacks_of_all_chars :
    (p : Char → Bool) (stop : ℕ) (s : String)
    → ((c : Char) → p c ≡ true → (code c == stop) ≡ false)
    → all_chars p s ≡ true
    → lacks stop s ≡ true
unfolding all_chars lacks
lacks_of_all_chars p stop String.[] other h = refl
lacks_of_all_chars p stop (String.◌∷◌ c s) other h =
    ground (arith, other c, lacks_of_all_chars p stop s other)

-- Of a token: base64url and the dots between its parts.
unfoldable pub is_token_char : Char → Bool
unfolding is_url_safe
is_token_char c = is_url_safe c || code c == 46

pub is_token_char-is_url_safe : (c : Char) → is_url_safe c ≡ true → is_token_char c ≡ true
unfolding is_token_char is_url_safe
is_token_char-is_url_safe c h = ground (arith, h)

pub lacks-url_safe :
    (stop : ℕ) (s : String)
    → ((stop ≡ 46) ⊎ (stop ≡ 35))
    → all_chars is_url_safe s ≡ true
    → lacks stop s ≡ true
unfolding is_url_safe
lacks-url_safe stop s which h =
    lacks_of_all_chars is_url_safe stop s (λ c safe. ground (arith, which, safe)) h

is_token_char-space : (c : Char) → is_token_char c ≡ true → is_space c ≡ false
unfolding is_token_char is_url_safe is_space
is_token_char-space c h = ground (arith, h)

trim_left-token : (s : String) → all_chars is_token_char s ≡ true → trim_left s ≡ s
unfolding all_chars trim_left
trim_left-token String.[] h = refl
trim_left-token (String.◌∷◌ c s) h = ground (arith, is_token_char-space c)

trim_right-token : (s : String) → all_chars is_token_char s ≡ true → trim_right s ≡ s
unfolding all_chars trim_right
trim_right-token String.[] h = refl
trim_right-token (String.◌∷◌ c String.[]) h = rw (is_token_char-space c (ground arith)) refl
trim_right-token (String.◌∷◌ c (String.◌∷◌ d s)) h =
    rw (trim_right-token (String.◌∷◌ d s) (ground arith)) refl

pub trim_space-token : (s : String) → all_chars is_token_char s ≡ true → trim_space s ≡ s
unfolding trim_space
trim_space-token s h = rw (trim_left-token s h, trim_right-token s h) refl

pub has_prefix-token : (s : String) → all_chars is_token_char s ≡ true → has_prefix s "{" ≡ false
unfolding all_chars has_prefix is_token_char is_url_safe
has_prefix-token String.[] h = refl
has_prefix-token (String.◌∷◌ c s) h = ground (arith, h)
