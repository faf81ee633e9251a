-- ===== src/Host/Ttm/Bounds.antt =====
-- How the computed limit relates to the memory.
use strix_halo_rocm_toolkit.Prelude.{
  ℕ, ◌+◌, ◌*◌, ◌/◌, ◌%◌, ◌≤◌, ◌<◌, ◌≡◌, Option, none, some, arith,
}
use strix_halo_rocm_toolkit.Results.{ok}
use strix_halo_rocm_toolkit.Host.Ttm.{TtmPlan, normalize_gib, gib, kib, compute_ttm_plan}

normalize_gib_bounds :
    (n : ℕ)
    → (n ≤ normalize_gib n * gib)
      × (normalize_gib n * gib < n + 8 * gib)
      × (normalize_gib n % 8 ≡ 0)
unfolding normalize_gib
normalize_gib_bounds n = omega arith

-- Whole pages within the memory, and no whole page left over.
abbrev pub PagesFit : TtmPlan → Type 0
PagesFit p =
    (p.pages_limit * p.page_size ≤ p.nominal_gib * gib)
    × (p.nominal_gib * gib < p.pages_limit * p.page_size + p.page_size)

pages_bounds : (n p : ℕ) → 0 < p → ((n / p) * p ≤ n) × (n < (n / p) * p + p)
pages_bounds n p h = grind arith

-- Every plan is for a multiple of 8 GiB, its limit is the number of whole pages in that capacity, and
-- its page size is the given one.
pub compute_ttm_plan-PagesFit :
    (mem page : ℕ) (dmi explicit : Option ℕ) {plan : TtmPlan}
    → compute_ttm_plan mem page dmi explicit ≡ ok plan
    → (plan.nominal_gib % 8 ≡ 0) × (plan.page_size ≡ page) × PagesFit plan
unfolding compute_ttm_plan
compute_ttm_plan-PagesFit mem page none none h =
    ground
      (arith, pages_bounds (normalize_gib (mem * kib) * gib) page, normalize_gib_bounds (mem * kib))
compute_ttm_plan-PagesFit mem page (some bytes) none h =
    ground (arith, pages_bounds (normalize_gib bytes * gib) page, normalize_gib_bounds bytes)
compute_ttm_plan-PagesFit mem page _ (some g) h = ground (arith, pages_bounds (g * gib) page)

-- Without an explicit capacity, the plan covers the memory that the kernel reports up to 8 GiB less, and
-- exceeds it by less than 16 GiB.
pub compute_ttm_plan-near :
    (mem page : ℕ) (dmi : Option ℕ) {plan : TtmPlan}
    → compute_ttm_plan mem page dmi none ≡ ok plan
    → (mem * kib ≤ (plan.nominal_gib + 8) * gib) × (plan.nominal_gib * gib < mem * kib + 16 * gib)
unfolding compute_ttm_plan
compute_ttm_plan-near mem page none h = ground (arith, normalize_gib_bounds (mem * kib))
compute_ttm_plan-near mem page (some bytes) h =
    ground (arith, normalize_gib_bounds (mem * kib), normalize_gib_bounds bytes)
