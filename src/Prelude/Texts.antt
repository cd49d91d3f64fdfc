-- ===== src/Prelude/Texts.antt =====
-- Texts as lists of code points, and their equality.
use Prim.Native.Char.{code}
use Prim.Native.String.{String}
use Prim.Native.Nat.{ℕ}
use mathlib.Core.Path.{◌≡◌}
use mathlib.Core.Logic.{◌↔◌}
use mathlib.Core.Bool.{Bool, true, false, ◌&&◌}
use mathlib.Core.List.{List, [], ◌∷◌}
use native.Mathlib.Omega.{arith}
use izel.Prelude.Tests.{◌==◌}

abbrev pub Text : Type 0
Text = List ℕ

-- The code points of a text.
abbrev pub codes : String → Text
codes String.[] = []
codes (String.◌∷◌ c s) = code c ∷ codes s

-- `==` on texts
unfoldable pub text_eq : Text → Text → Bool
text_eq [] [] = true
text_eq (a ∷ cs) (b ∷ ds) = a == b && text_eq cs ds
text_eq _ _ = false

pub text_eq_iff : (a b : Text) → (text_eq a b ≡ true) ↔ (a ≡ b)
unfolding text_eq
text_eq_iff (x ∷ a) (y ∷ b) = ground (arith, text_eq_iff a b)
text_eq_iff _ _ = ground arith

-- `==` on lists of texts
unfoldable pub texts_eq : List Text → List Text → Bool
texts_eq [] [] = true
texts_eq (a ∷ cs) (b ∷ ds) = text_eq a b && texts_eq cs ds
texts_eq _ _ = false

pub texts_eq_iff : (a b : List Text) → (texts_eq a b ≡ true) ↔ (a ≡ b)
unfolding texts_eq
texts_eq_iff (x ∷ a) (y ∷ b) = ground (arith, text_eq_iff x y, texts_eq_iff a b)
texts_eq_iff _ _ = ground arith
