-- ===== src/Base/Texts/Laws.antt =====
-- Laws of the text functions.
use mathlib.Core.Logic.{◌≢◌}
use Prim.Native.Char.{Char}
use Prim.Native.String.{String, ◌++◌ as ◌⧺◌}
use mathlib.Core.Option.{some}
use mathlib.Core.Path.{◌≡◌, refl}
use mathlib.Core.Bool.{Bool, true, false, ◌&&◌}
use native.Mathlib.Omega.{arith}
use text.Mathlib.Text.{◌==◌}
use text.Mathlib.TextEquality.{eq_iff}
use text.Mathlib.TextLemmas.{cons-ne-nil, cons-append, nil-append}
use mathlib.Core.Logic.{inl, inr}
use garm_provider_docker.Base.Tests.{Bool-cases, bool_false}
use garm_provider_docker.Base.Texts.{trim_left, trim_right, all_chars, strip_prefix, has_prefix}

module _ (p q : Char → Bool) where
  pub all_chars-trim_right :
      (s : String) → all_chars q s ≡ true → all_chars q (trim_right p s) ≡ true
  unfolding trim_right all_chars
  all_chars-trim_right String.[] h = refl
  all_chars-trim_right (String.◌∷◌ c s) h = elim (Bool-cases (trim_right p s == "" && p c)) [
    | inl all ↦ rw all refl
    | inr some_left ↦ rw some_left (ground (arith, all_chars-trim_right s))
  ]

  pub all_chars-trim_left : (s : String) → all_chars q s ≡ true → all_chars q (trim_left p s) ≡ true
  unfolding trim_left all_chars
  all_chars-trim_left String.[] h = refl
  all_chars-trim_left (String.◌∷◌ c s) h = ground (arith, all_chars-trim_left s)

pub cons_not_empty : (c : Char) (s : String) → (String.◌∷◌ c s == "") ≡ false
cons_not_empty c s =
    bool_false (String.◌∷◌ c s == "") (λ h. cons-ne-nil c s ((eq_iff (String.◌∷◌ c s) "").0 h))

pub cons_differs : (c : Char) (s : String) → String.◌∷◌ c s ≢ ""
cons_differs c s = cons-ne-nil c s

pub strip_prefix_append : (p s : String) → strip_prefix p (p ⧺ s) ≡ some s
unfolding strip_prefix
strip_prefix_append String.[] s = rw (nil-append s) refl
strip_prefix_append (String.◌∷◌ c p) s =
    rw (cons-append c p s) (ground (arith, strip_prefix_append p s))

-- A text begins with what it was begun with.
pub has_prefix_append : (p s : String) → has_prefix (p ⧺ s) p ≡ true
unfolding has_prefix
has_prefix_append p s = rw (strip_prefix_append p s, has_prefix) refl
