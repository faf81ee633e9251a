-- ===== src/Host/Ttm/Tests.antt =====
-- Concrete plans.
use strix_halo_rocm_toolkit.Prelude.{◌≡◌, refl, ◌≤◌, ◌<◌, ◌+◌, ◌*◌, ◌%◌, none, some}
use strix_halo_rocm_toolkit.Results.{ok, err}
use strix_halo_rocm_toolkit.Host.Ttm.{
  TtmPlan, normalize_gib, gib, kib, compute_ttm_plan, plan_of, memory_conflict,
}
use strix_halo_rocm_toolkit.Host.Ttm.Bounds.{
  PagesFit, compute_ttm_plan-PagesFit, compute_ttm_plan-near,
}

-- A machine with 128 GiB, of which the kernel reports 124.
abbrev halo_plan : TtmPlan
halo_plan = plan_of 128 4096 "dmi"

halo_run : compute_ttm_plan 130023424 4096 (some 137438953472) none ≡ ok halo_plan
unfolding compute_ttm_plan normalize_gib
halo_run = refl

conflict_run :
    compute_ttm_plan 65536000 4096 (some 137438953472) none ≡ err (memory_conflict 128 64)
unfolding compute_ttm_plan normalize_gib
conflict_run = refl

compute_ttm_plan-PagesFit_example :
    (halo_plan.nominal_gib % 8 ≡ 0) × (halo_plan.page_size ≡ 4096) × PagesFit halo_plan
compute_ttm_plan-PagesFit_example =
    compute_ttm_plan-PagesFit 130023424 4096 (some 137438953472) none halo_run

compute_ttm_plan-near_example :
    (130023424 * kib ≤ (halo_plan.nominal_gib + 8) * gib)
    × (halo_plan.nominal_gib * gib < 130023424 * kib + 16 * gib)
compute_ttm_plan-near_example = compute_ttm_plan-near 130023424 4096 (some 137438953472) halo_run
