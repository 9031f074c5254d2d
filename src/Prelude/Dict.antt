-- ===== src/Prelude/Dict.antt =====
-- Go's maps with string keys, as association lists. A write to a present key replaces its value in
-- place, a new key goes to the end, and a deletion drops every entry of the key.
use Prim.Native.String.{String}
use mathlib.Core.Path.{◌≡◌, refl}
use mathlib.Core.List.{List, [], ◌∷◌}
use mathlib.Core.Option.{Option, none, some}
use native.Mathlib.Omega.{arith}
use text.Mathlib.Text.{◌==◌}
use text.Mathlib.TextEquality.{eq_iff}
use verifiably.Prelude.Tests.{if◌then◌else◌}

abbrev pub Dict {ℓ} : Type ℓ → Type ℓ
Dict V = List (String × V)

module _ {ℓ} {V : Type ℓ} where
  -- v, ok := m[key]
  unfoldable pub find : Dict V → String → Option V
  find [] key = none
  find ((k, v) ∷ rest) key = if k == key then some v else find rest key

  -- delete(m, key)
  unfoldable pub without : Dict V → String → Dict V
  without [] key = []
  without ((k, v) ∷ rest) key =
      let others = without rest key in if k == key then others else (k, v) ∷ others

  -- m[key] = new
  unfoldable pub put : Dict V → String → V → Dict V
  put [] key new = (key, new) ∷ []
  put ((k, v) ∷ rest) key new = if k == key then (k, new) ∷ rest else (k, v) ∷ put rest key new

  pub find-without :
      (m : Dict V) (key other : String)
      → find (without m key) other ≡ (if key == other then none else find m other)
  unfolding find without
  find-without [] key other = ground arith
  find-without ((k, v) ∷ rest) key other =
      ground (arith, find-without rest key other, eq_iff key other, eq_iff k other, eq_iff k key)

  pub find-put :
      (m : Dict V) (key other : String) (new : V)
      → find (put m key new) other ≡ (if key == other then some new else find m other)
  unfolding find put
  find-put [] key other new = refl
  find-put ((k, v) ∷ rest) key other new =
      ground (arith, find-put rest key other new, eq_iff key other, eq_iff k other, eq_iff k key)
