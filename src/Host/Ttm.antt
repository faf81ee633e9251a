-- ===== src/Host/Ttm.antt =====
-- The limit on the pages of the translation table manager (src/amd_ai/host/ttm.py). Python divides
-- by 8 GiB in floating point, which is exact below 2 ^ 53 bytes; the model divides exactly. Numbers
-- below zero, which only raise the errors of zero, are left out.
pub mod Bounds
pub mod Tests
use Prim.Native.Nat.{bit_and}
use Prim.Native.String.{◌++◌}
use strix_halo_rocm_toolkit.Prelude.{
  ℕ, ◌+◌, ◌-◌, ◌*◌, ◌/◌, ◌%◌, ◌==◌, not, ◌||◌, ltb, String, Option, none, some, if◌then◌else◌,
  on_option,
}
use strix_halo_rocm_toolkit.Results.{Result, ok, err}

abbrev pub gib : ℕ
gib = 1073741824

abbrev pub kib : ℕ
kib = 1024

pub data TtmError : Type 0 where
  value_error : String → TtmError
  memory_conflict : ℕ → ℕ → TtmError

pub record TtmPlan : Type 0 where
  pub nominal_gib : ℕ
  pub page_size : ℕ
  pub pages_limit : ℕ
  pub legacy_gttsize_mib : ℕ
  pub source : String

-- `_normalize_gib`: up to the next multiple of 8 GiB.
unfoldable pub normalize_gib : ℕ → ℕ
normalize_gib byte_count = ((byte_count + 8589934591) / 8589934592) * 8

-- `abs(a - b)`
abbrev pub distance : ℕ → ℕ → ℕ
distance a b = (a - b) + (b - a)

abbrev pub plan_of : ℕ → ℕ → String → TtmPlan
plan_of nominal page source = record {
  nominal_gib = nominal;
  page_size = page;
  pages_limit = (nominal * gib) / page;
  legacy_gttsize_mib = nominal * 1024;
  source = source;
}

-- `compute_ttm_plan`
unfoldable pub compute_ttm_plan : ℕ → ℕ → Option ℕ → Option ℕ → Result TtmError TtmPlan
compute_ttm_plan mem_total_kib page_size dmi_memory_bytes explicit_gib =
    if page_size == 0 || not (bit_and page_size (page_size - 1) == 0)
    then err (value_error "page size must be a positive power of two")
    else on_option explicit_gib
        (on_option dmi_memory_bytes
          (ok (plan_of (normalize_gib (mem_total_kib * kib)) page_size "meminfo"))
          (λ bytes.
            if ltb 8 (distance (normalize_gib bytes) (normalize_gib (mem_total_kib * kib)))
            then err (memory_conflict (normalize_gib bytes) (normalize_gib (mem_total_kib * kib)))
            else ok (plan_of (normalize_gib bytes) page_size "dmi")))
        (λ explicit.
          if explicit == 0 || not (explicit % 8 == 0)
          then err (value_error "explicit capacity must be a positive multiple of 8 GiB")
          else ok (plan_of explicit page_size "explicit"))
