-- ===== src/Qualification/KernelLog/Counts.antt =====
-- How often each line is new, in which order the new lines stand, and when the logs do not fit.
use strix_halo_rocm_toolkit.Prelude.{
  ℕ, ◌+◌, ◌-◌, length, drop, String, true, ◌≡◌, List, [], ◌∷◌, Dict, insert, if◌then◌else◌, str_eq,
  eq_iff, lookup-insert, arith,
}
use strix_halo_rocm_toolkit.Results.{ok}
use strix_halo_rocm_toolkit.Lines.{splitlines}
use strix_halo_rocm_toolkit.Qualification.KernelLog.{
  at, count_onto, counter, is_prefix, unseen, new_lines, new_kernel_lines,
}

-- How often a line stands in a log.
abbrev pub count : String → List String → ℕ
count x [] = 0
count x (y ∷ ys) = (if str_eq x y then 1 else 0) + count x ys

at-insert :
    (x y : String) (n : ℕ) (d : Dict ℕ) → at x (insert y n d) ≡ (if str_eq x y then n else at x d)
at-insert x y n d = ground (arith, lookup-insert x y n d)

pub at-count_onto :
    (x : String) (d : Dict ℕ) (ys : List String) → at x (count_onto d ys) ≡ at x d + count x ys
at-count_onto x d [] = ground arith
at-count_onto x d (y ∷ ys) =
    ground (
      arith,
      eq_iff x y,
      at-insert x y (at y d + 1) d,
      at-count_onto x (insert y (at y d + 1) d) ys,
    )

pub at-counter : (x : String) (ys : List String) → at x (counter ys) ≡ count x ys
at-counter x ys = ground (arith, at-count_onto x [] ys)

count-unseen :
    (x : String) (d : Dict ℕ) (ys : List String) → count x (unseen d ys) ≡ count x ys - at x d
count-unseen x d [] = ground arith
count-unseen x d (y ∷ ys) = ground (
  arith,
  eq_iff x y,
  at-insert x y (at y d - 1) d,
  count-unseen x d ys,
  count-unseen x (insert y (at y d - 1) d) ys,
)

count-drop :
    (x : String) (xs ys : List String)
    → is_prefix xs ys ≡ true
    → count x (drop (length xs) ys) ≡ count x ys - count x xs
count-drop x [] ys h = ground arith
count-drop x (z ∷ xs) [] h = ground arith
count-drop x (z ∷ xs) (y ∷ ys) h = ground (arith, eq_iff z y, count-drop x xs ys)

count-new_lines :
    (before after : List String) {new : List String}
    → new_lines before after ≡ ok new
    → (x : String) → count x new ≡ count x after - count x before
count-new_lines before after h x = ground (
  arith,
  count-drop x before after,
  count-unseen x (counter before) after,
  at-count_onto x [] before,
)

-- When the new lines are found, each line is new as often as the log after the run holds it more often
-- than the log before.
pub count-new_kernel_lines :
    (before after : String) {new : List String}
    → new_kernel_lines before after ≡ ok new
    → (x : String) → count x new ≡ count x (splitlines after) - count x (splitlines before)
unfolding new_kernel_lines
count-new_kernel_lines before after h x = count-new_lines (splitlines before) (splitlines after) h x
