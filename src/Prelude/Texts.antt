-- ===== src/Prelude/Texts.antt =====
-- Python's `str` as native text: equality, membership, and the code points of a text.
use Prim.Native.Nat.{ℕ}
use Prim.Native.Char.{code}
use Prim.Native.String.{String}
use mathlib.Core.Path.{◌≡◌, refl, ap}
use mathlib.Core.Bool.{Bool, true, false, ◌||◌}
use mathlib.Core.Option.{Option, none, some}
use mathlib.Core.List.{List, [], ◌∷◌}
use text.Mathlib.Text.{◌==◌}
pub use text.Mathlib.Text.{◌==◌ as str_eq}
pub use text.Mathlib.TextEquality.{eq_iff}
pub use text.Mathlib.TextPositions.{eq_refl}

-- The code points of a text. `String` has its own `[]` and `∷`.
abbrev pub codes : String → List ℕ
codes String.[] = []
codes (String.◌∷◌ c s) = code c ∷ codes s

-- `text in values`
abbrev pub text_in : String → List String → Bool
text_in s [] = false
text_in s (t ∷ ts) = s == t || text_in s ts

-- Equality of two optional texts.
abbrev pub opt_text_eq : Option String → Option String → Bool
opt_text_eq none none = true
opt_text_eq none (some _) = false
opt_text_eq (some _) none = false
opt_text_eq (some s) (some t) = s == t

-- `value or default`, where the empty text is false.
abbrev pub or_text : String → String → String
or_text s t = elim (s == "") [ true ↦ t | false ↦ s ]

pub opt_text_eq_sound : (a b : Option String) → opt_text_eq a b ≡ true → a ≡ b
opt_text_eq_sound none none h = refl
opt_text_eq_sound none (some t) h = cc
opt_text_eq_sound (some s) none h = cc
opt_text_eq_sound (some s) (some t) h = ap some ((eq_iff s t).0 h)
