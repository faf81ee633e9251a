-- ===== src/Qualification/KernelLog/Errors.antt =====
-- When the logs do not fit together, and in which order the new lines stand.
use strix_halo_rocm_toolkit.Prelude.{
  ℕ, zero, suc, ◌+◌, ◌-◌, ◌<◌, ltb, length, drop, String, Bool, true, false, ◌≡◌, refl, ◌↔◌, ◌⊎◌,
  inr, ◌≢◌, List, [], ◌∷◌, All, Dict, insert, eq_iff, eq_refl, arith,
}
use strix_halo_rocm_toolkit.Results.{Result, ok, err}
use strix_halo_rocm_toolkit.Lines.{splitlines}
use strix_halo_rocm_toolkit.Qualification.KernelLog.{
  at, count_onto, counter, overlap, is_prefix, unseen, new_lines, new_kernel_lines,
}
use strix_halo_rocm_toolkit.Qualification.KernelLog.Counts.{count, at-counter}

-- No line stands in both logs.
abbrev pub Disjoint : List String → List String → Type 0
Disjoint xs ys = (x : String) → (count x xs ≡ 0) ⊎ (count x ys ≡ 0)

at-overlap : (c d : Dict ℕ) → overlap c d ≡ 0 → (x : String) → (at x c ≡ 0) ⊎ (at x d ≡ 0)
at-overlap [] d h x = ground arith
at-overlap ((y, n) ∷ c) d h x = ground (arith, eq_iff x y, at-overlap c d (ground arith) x)

abbrev KeysOf : List String → Dict ℕ → Type 0
KeysOf xs d = All (λ e. 0 < count e.0 xs) d

KeysOf-insert :
    (xs : List String) (x : String) (n : ℕ) (d : Dict ℕ)
    → 0 < count x xs
    → KeysOf xs d
    → KeysOf xs (insert x n d)
KeysOf-insert xs x n [] h k = (h, tt)
KeysOf-insert xs x n ((y, m) ∷ d) h k = ground (arith, eq_iff x y, KeysOf-insert xs x n d h)

KeysOf-count_onto :
    (zs d_lines : List String) (d : Dict ℕ)
    → All (λ z. 0 < count z zs) d_lines
    → KeysOf zs d
    → KeysOf zs (count_onto d d_lines)
KeysOf-count_onto zs [] d a k = k
KeysOf-count_onto zs (y ∷ ys) d a k =
    KeysOf-count_onto zs ys (insert y (at y d + 1) d) a.1 (KeysOf-insert zs y (at y d + 1) d a.0 k)

overlap_zero :
    (xs ys : List String) (c d : Dict ℕ)
    → Disjoint xs ys
    → KeysOf xs c
    → ((x : String) → at x d ≡ count x ys)
    → overlap c d ≡ 0
overlap_zero xs ys [] d h k e = refl
overlap_zero xs ys ((y, n) ∷ c) d h k e = ground (arith, h y, e y, overlap_zero xs ys c d h k.1 e)

All-weaken {ℓ} :
    {A : Type ℓ} {P Q : A → Type 0} (xs : List A) → ((x : A) → P x → Q x) → All P xs → All Q xs
All-weaken [] f a = tt
All-weaken (x ∷ xs) f a = (f x a.0, All-weaken xs f a.1)

count-All : (ys : List String) → All (λ z. 0 < count z ys) ys
count-All [] = tt
count-All (y ∷ ys) = (ground (arith, eq_refl y), All-weaken ys (λ z h. ground arith) (count-All ys))

prefix-Disjoint : (xs ys : List String) → Disjoint xs ys → is_prefix xs ys ≡ true → xs ≡ []
prefix-Disjoint [] ys d h = refl
prefix-Disjoint (x ∷ xs) [] d h = ground arith
prefix-Disjoint (x ∷ xs) (y ∷ ys) d h = ground (arith, eq_iff x y, eq_refl x, eq_refl y, d x)

abbrev pub is_err {ℓ κ} : {E : Type ℓ} {A : Type κ} → Result E A → Bool
is_err (ok _) = false
is_err (err _) = true

overlap-Disjoint : (xs ys : List String) → overlap (counter xs) (counter ys) ≡ 0 → Disjoint xs ys
overlap-Disjoint xs ys h x =
    ground (arith, at-overlap (counter xs) (counter ys) h x, at-counter x xs, at-counter x ys)

Disjoint-overlap : (xs ys : List String) → Disjoint xs ys → overlap (counter xs) (counter ys) ≡ 0
Disjoint-overlap xs ys h =
    overlap_zero xs ys (counter xs) (counter ys) h (KeysOf-count_onto xs xs [] (count-All xs) tt)
      (λ x. at-counter x ys)

new_lines-overlap :
    (b : String) (bs : List String) (y : String) (ys : List String)
    → (is_err (new_lines (b ∷ bs) (y ∷ ys)) ≡ true)
      ↔ ((overlap (counter (b ∷ bs)) (counter (y ∷ ys)) ≡ 0) × (is_prefix (b ∷ bs) (y ∷ ys) ≢ true))
new_lines-overlap b bs y ys = ground arith

new_lines-refused :
    (before after : List String)
    → (is_err (new_lines before after) ≡ true) ↔ ((before ≢ []) × Disjoint before after)
new_lines-refused [] after = ground arith
new_lines-refused (b ∷ bs) [] = (λ h. (λ e. ground arith, λ x. inr refl), λ h. ground arith)
new_lines-refused (b ∷ bs) (y ∷ ys) = (
  λ h.
      (λ e. ground arith, overlap-Disjoint (b ∷ bs) (y ∷ ys) ((new_lines-overlap b bs y ys).0 h).0),
  λ h. (new_lines-overlap b bs y ys).1 (
    Disjoint-overlap (b ∷ bs) (y ∷ ys) h.1,
    λ p. ground (arith, prefix-Disjoint (b ∷ bs) (y ∷ ys) h.1),
  ),
)

-- The logs are refused exactly when the log before the run has lines and none of them is in the log
-- after the run.
pub new_kernel_lines-refused :
    (before after : String)
    → (is_err (new_kernel_lines before after) ≡ true)
      ↔ ((splitlines before ≢ []) × Disjoint (splitlines before) (splitlines after))
unfolding new_kernel_lines
new_kernel_lines-refused before after = new_lines-refused (splitlines before) (splitlines after)

-- The one list is the other with lines left out.
pub data IsPartOf : List String → List String → Type 0 where
  part_nil : IsPartOf [] []
  part_skip : (y : String) {xs ys : List String} → IsPartOf xs ys → IsPartOf xs (y ∷ ys)
  part_keep : (y : String) {xs ys : List String} → IsPartOf xs ys → IsPartOf (y ∷ xs) (y ∷ ys)

IsPartOf-refl : (ys : List String) → IsPartOf ys ys
IsPartOf-refl [] = part_nil
IsPartOf-refl (y ∷ ys) = part_keep y (IsPartOf-refl ys)

IsPartOf-drop : (n : ℕ) (ys : List String) → IsPartOf (drop n ys) ys
IsPartOf-drop zero ys = IsPartOf-refl ys
IsPartOf-drop (suc n) [] = part_nil
IsPartOf-drop (suc n) (y ∷ ys) = part_skip y (IsPartOf-drop n ys)

IsPartOf-unseen : (d : Dict ℕ) (ys : List String) → IsPartOf (unseen d ys) ys
IsPartOf-unseen d [] = part_nil
IsPartOf-unseen d (y ∷ ys) =
    elim (ltb 0 (at y d))
      as (λ b.
        IsPartOf (elim b [ true ↦ unseen (insert y (at y d - 1) d) ys | false ↦ y ∷ unseen d ys ])
          (y ∷ ys)) [
            | true ↦ part_skip y (IsPartOf-unseen (insert y (at y d - 1) d) ys)
            | false ↦ part_keep y (IsPartOf-unseen d ys)
          ]

new_lines-IsPartOf :
    (before after : List String) {new : List String}
    → new_lines before after ≡ ok new
    → IsPartOf new after
new_lines-IsPartOf before after h =
    ground (arith, IsPartOf-drop (length before) after, IsPartOf-unseen (counter before) after)

-- The new lines stand in the order of the log after the run.
pub new_kernel_lines-IsPartOf :
    (before after : String) {new : List String}
    → new_kernel_lines before after ≡ ok new
    → IsPartOf new (splitlines after)
unfolding new_kernel_lines
new_kernel_lines-IsPartOf before after h =
    new_lines-IsPartOf (splitlines before) (splitlines after) h
