-- ===== src/Regex.antt =====
-- Python's `re` as the program uses it (src/amd_ai/host/verify.py, qualification/kernel_log.py,
-- installer/models.py): a pattern is a tree, matched by derivatives on the code points of a text. The
-- classes of digits and of words are the ASCII ones: texts with other letters or digits are outside the
-- model.
use Prim.Native.String.{String}
use strix_halo_rocm_toolkit.Prelude.{
  ℕ, zero, suc, ◌+◌, ◌==◌, leb, Bool, true, false, not, ◌&&◌, ◌||◌, Option, none, some, List, [],
  ◌∷◌, map, codes, on_option, if◌then◌else◌,
}

-- A class is a list of closed ranges of code points; `boundary` is `\b`.
pub data Regex : Type 0 where
  never empty boundary : Regex
  class : List (ℕ × ℕ) → Regex
  sequence choice : Regex → Regex → Regex
  star : Regex → Regex

abbrev pub in_class : ℕ → List (ℕ × ℕ) → Bool
in_class c [] = false
in_class c ((a, b) ∷ rs) = (leb a c && leb c b) || in_class c rs

abbrev pub digits : List (ℕ × ℕ)
digits = (48, 57) ∷ []

abbrev pub hex_digits : List (ℕ × ℕ)
hex_digits = (48, 57) ∷ (97, 102) ∷ []

abbrev pub word : List (ℕ × ℕ)
word = (48, 57) ∷ (65, 90) ∷ (95, 95) ∷ (97, 122) ∷ []

-- `\s`
abbrev pub spaces : List (ℕ × ℕ)
spaces =
    (9, 13)
    ∷ (28, 32)
    ∷ (133, 133)
    ∷ (160, 160)
    ∷ (5760, 5760)
    ∷ (8192, 8202)
    ∷ (8232, 8233)
    ∷ (8239, 8239)
    ∷ (8287, 8287)
    ∷ (12288, 12288)
    ∷ []

-- `.`, anything but a newline; and anything at all.
abbrev pub dot : List (ℕ × ℕ)
dot = (0, 9) ∷ (11, 1114111) ∷ []

abbrev pub anything : List (ℕ × ℕ)
anything = (0, 1114111) ∷ []

-- The text of a pattern, each letter as itself.
abbrev pub literal_codes : List ℕ → Regex
literal_codes [] = Regex.empty
literal_codes (c ∷ cs) = sequence (class ((c, c) ∷ [])) (literal_codes cs)

abbrev pub literal : String → Regex
literal s = literal_codes (codes s)

-- `r+`, `r?`, `r{n}`, and `r{0,n}`
abbrev pub plus : Regex → Regex
plus r = sequence r (star r)

abbrev pub optional : Regex → Regex
optional r = choice r Regex.empty

abbrev pub times : ℕ → Regex → Regex
times zero r = Regex.empty
times (suc n) r = sequence r (times n r)

abbrev pub up_to : ℕ → Regex → Regex
up_to zero r = Regex.empty
up_to (suc n) r = optional (sequence r (up_to n r))

-- `x|y|…` and a sequence of parts.
abbrev pub any_of : List Regex → Regex
any_of [] = never
any_of (r ∷ rs) = choice r (any_of rs)

abbrev pub all_of : List Regex → Regex
all_of [] = Regex.empty
all_of (r ∷ rs) = sequence r (all_of rs)

abbrev is_word : Option ℕ → Bool
is_word o = on_option o false (λ c. in_class c word)

abbrev differ : Bool → Bool → Bool
differ true b = not b
differ false b = b

-- Whether the empty text between two characters matches.
abbrev nullable : Option ℕ → Option ℕ → Regex → Bool
nullable p n never = false
nullable p n Regex.empty = true
nullable p n boundary = differ (is_word p) (is_word n)
nullable p n (class _) = false
nullable p n (sequence r s) = nullable p n r && nullable p n s
nullable p n (choice r s) = nullable p n r || nullable p n s
nullable p n (star r) = true

-- A sequence and a choice that drop what cannot match.
abbrev then_match : Regex → Regex → Regex
then_match never s = never
then_match Regex.empty s = s
then_match boundary s = sequence boundary s
then_match (class rs) s = sequence (class rs) s
then_match (sequence q r) s = sequence (sequence q r) s
then_match (choice q r) s = sequence (choice q r) s
then_match (star r) s = sequence (star r) s

abbrev or_match : Regex → Regex → Regex
or_match never s = s
or_match Regex.empty s = choice Regex.empty s
or_match boundary s = choice boundary s
or_match (class rs) s = choice (class rs) s
or_match (sequence q r) s = choice (sequence q r) s
or_match (choice q r) s = choice (choice q r) s
or_match (star r) s = choice (star r) s

-- What is left to match after the character `c`, which follows `p`.
abbrev derive : Option ℕ → ℕ → Regex → Regex
derive p c never = never
derive p c Regex.empty = never
derive p c boundary = never
derive p c (class rs) = if in_class c rs then Regex.empty else never
derive p c (sequence r s) =
    or_match (then_match (derive p c r) s) (if nullable p (some c) r then derive p c s else never)
derive p c (choice r s) = or_match (derive p c r) (derive p c s)
derive p c (star r) = then_match (derive p c r) (star r)

abbrev accepts : Option ℕ → Regex → List ℕ → Bool
accepts p r [] = nullable p none r
accepts p r (c ∷ cs) = accepts (some c) (derive p c r) cs

-- `pattern.fullmatch(text) is not None`
unfoldable pub fullmatch : Regex → String → Bool
fullmatch r s = accepts none r (codes s)

-- `re.IGNORECASE` for a pattern in small letters: the capitals, and the four letters that Python also
-- folds to i, k and s.
abbrev fold_case : ℕ → ℕ
fold_case c =
    if leb 65 c && leb c 90
    then c + 32
    else if c == 304 || c == 305
    then 105
    else if c == 383
    then 115
    else if c == 8490
    then 107
    else c

-- `pattern.search(text)`, where the pattern ignores case.
unfoldable pub search : Regex → String → Bool
search r s =
    accepts none (sequence (star (class anything)) (sequence r (star (class anything))))
      (map fold_case (codes s))
