-- ===== src/Paths.antt =====
-- Python's `PurePosixPath`: the slashes at the front, and the parts between the other slashes.
use Prim.Native.String.{String, ◌++◌}
use Prim.Native.Char.{code}
use strix_halo_rocm_toolkit.Prelude.{
  ℕ, suc, ◌==◌, Bool, true, false, ◌&&◌, ◌||◌, List, [], ◌∷◌, if◌then◌else◌, str_eq, ◌≡◌, refl,
  eq_iff, eq_refl, arith,
}
use strix_halo_rocm_toolkit.Lines.{join}

pub record PurePath : Type 0 where
  pub root : String
  pub parts : List String

-- A part is kept unless it is empty or `.`.
abbrev keep_part : String → List String → List String
keep_part p ps = if str_eq p "" || str_eq p "." then ps else p ∷ ps

abbrev split_parts : String → String → List String
split_parts current String.[] = keep_part current []
split_parts current (String.◌∷◌ c s) = elim (code c == 47) [
  | true ↦ keep_part current (split_parts "" s)
  | false ↦ split_parts (current ++ String.◌∷◌ c String.[]) s
]

abbrev slashes : String → ℕ
slashes String.[] = 0
slashes (String.◌∷◌ c s) = if code c == 47 then suc (slashes s) else 0

-- `Path(text)`: two slashes at the front are kept, one or more than two count as one.
unfoldable pub parse_path : String → PurePath
parse_path s = record {
  root = if slashes s == 0 then "" else if slashes s == 2 then "//" else "/";
  parts = split_parts "" s;
}

-- `str(path)`
unfoldable pub path_text : PurePath → String
path_text p = if str_eq (p.root ++ join "/" p.parts) "" then "." else p.root ++ join "/" p.parts

abbrev pub is_absolute : PurePath → Bool
is_absolute p = if str_eq p.root "" then false else true

-- `path / name`, for a name without slashes.
abbrev append_part : List String → String → List String
append_part [] name = name ∷ []
append_part (p ∷ ps) name = p ∷ append_part ps name

abbrev pub child : PurePath → String → PurePath
child p name = record { root = p.root; parts = append_part p.parts name }

-- `path.parent` and `path.name`
abbrev all_but_last : List String → List String
all_but_last [] = []
all_but_last (p ∷ []) = []
all_but_last (p ∷ q ∷ ps) = p ∷ all_but_last (q ∷ ps)

abbrev last_part : List String → String
last_part [] = ""
last_part (p ∷ []) = p
last_part (p ∷ q ∷ ps) = last_part (q ∷ ps)

abbrev pub parent : PurePath → PurePath
parent p = record { root = p.root; parts = all_but_last p.parts }

abbrev pub path_name : PurePath → String
path_name p = last_part p.parts

abbrev parts_eq : List String → List String → Bool
parts_eq [] [] = true
parts_eq [] (_ ∷ _) = false
parts_eq (_ ∷ _) [] = false
parts_eq (p ∷ ps) (q ∷ qs) = str_eq p q && parts_eq ps qs

unfoldable pub path_eq : PurePath → PurePath → Bool
path_eq p q = str_eq p.root q.root && parts_eq p.parts q.parts

parts_eq_sound : (ps qs : List String) → parts_eq ps qs ≡ true → ps ≡ qs
parts_eq_sound [] [] h = refl
parts_eq_sound [] (q ∷ qs) h = ground arith
parts_eq_sound (p ∷ ps) [] h = ground arith
parts_eq_sound (p ∷ ps) (q ∷ qs) h = ground (arith, eq_iff p q, parts_eq_sound ps qs)

pub path_eq_sound : (p q : PurePath) → path_eq p q ≡ true → p ≡ q
unfolding path_eq
path_eq_sound p q h = ground (arith, eq_iff p.root q.root, parts_eq_sound p.parts q.parts)

parts_eq_refl : (ps : List String) → parts_eq ps ps ≡ true
parts_eq_refl [] = refl
parts_eq_refl (p ∷ ps) = ground (arith, eq_refl p, parts_eq_refl ps)

pub path_eq_refl : (p : PurePath) → path_eq p p ≡ true
unfolding path_eq
path_eq_refl p = ground (arith, eq_refl p.root, parts_eq_refl p.parts)
