-- ===== src/Lines.antt =====
-- Python's `str.splitlines`, `strip`, `startswith` and `join`.
use Prim.Native.String.{String, ◌++◌}
use Prim.Native.Char.{code}
use strix_halo_rocm_toolkit.Regex.{in_class, spaces}
use strix_halo_rocm_toolkit.Prelude.{
  ℕ, ◌==◌, leb, Bool, true, false, ◌&&◌, ◌||◌, List, [], ◌∷◌, if◌then◌else◌, str_eq, zero, suc, ◌/◌,
  ◌%◌,
}

-- The characters that end a line.
abbrev is_break : ℕ → Bool
is_break c = (leb 10 c && leb c 13) || (leb 28 c && leb c 30) || c == 133 || c == 8232 || c == 8233

-- `current` is the line read so far; after a carriage return, a line feed ends no further line.
abbrev split_from : Bool → String → String → List String
split_from after_cr current String.[] = if str_eq current "" then [] else current ∷ []
split_from after_cr current (String.◌∷◌ c s) = elim (after_cr && code c == 10) [
  | true ↦ split_from false "" s
  | false ↦ elim (is_break (code c)) [
    | true ↦ current ∷ split_from (code c == 13) "" s
    | false ↦ split_from false (current ++ String.◌∷◌ c String.[]) s
  ]
]

unfoldable pub splitlines : String → List String
splitlines s = split_from false "" s

abbrev is_space : ℕ → Bool
is_space c = in_class c spaces

abbrev lstrip : String → String
lstrip String.[] = String.[]
lstrip (String.◌∷◌ c s) = elim (is_space (code c)) [ true ↦ lstrip s | false ↦ String.◌∷◌ c s ]

abbrev rstrip : String → String
rstrip String.[] = String.[]
rstrip (String.◌∷◌ c s) =
    if str_eq (rstrip s) "" && is_space (code c) then String.[] else String.◌∷◌ c (rstrip s)

-- `text.strip()`
unfoldable pub strip : String → String
strip s = rstrip (lstrip s)

abbrev pub starts_with : String → String → Bool
starts_with s String.[] = true
starts_with String.[] (String.◌∷◌ _ _) = false
starts_with (String.◌∷◌ c s) (String.◌∷◌ d t) = code c == code d && starts_with s t

-- `separator.join(parts)`
abbrev pub join : String → List String → String
join sep [] = ""
join sep (s ∷ []) = s
join sep (s ∷ t ∷ ts) = s ++ sep ++ join sep (t ∷ ts)

-- `text.removeprefix(prefix)`
abbrev drop_prefix : String → String → String
drop_prefix String.[] s = s
drop_prefix (String.◌∷◌ _ p) String.[] = String.[]
drop_prefix (String.◌∷◌ _ p) (String.◌∷◌ _ s) = drop_prefix p s

abbrev pub removeprefix : String → String → String
removeprefix prefix s = if starts_with s prefix then drop_prefix prefix s else s

-- `str(number)`: a number has at most as many digits as its value and one.
abbrev digit : ℕ → String
digit n =
    if n == 0
    then "0"
    else if n == 1
    then "1"
    else if n == 2
    then "2"
    else if n == 3
    then "3"
    else if n == 4
    then "4"
    else if n == 5
    then "5"
    else if n == 6
    then "6"
    else if n == 7
    then "7"
    else if n == 8
    then "8"
    else "9"

abbrev decimal_from : ℕ → ℕ → String
decimal_from zero n = ""
decimal_from (suc fuel) n = elim (leb n 9) [
  | true ↦ digit n
  | false ↦ decimal_from fuel (n / 10) ++ digit (n % 10)
]

unfoldable pub decimal : ℕ → String
decimal n = decimal_from (suc n) n
