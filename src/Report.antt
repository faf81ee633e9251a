-- ===== src/Report.antt =====
-- Reports and their findings (src/amd_ai/report.py). Of the free-form facts of a report the program
-- reads back one only, the running kernel, so `kernel_fact` stands for `facts.get("kernel")`.
use strix_halo_rocm_toolkit.Prelude.{ℕ, String, Bool, Option, List, ◌==◌}

pub data Severity : Type 0 where
  info warning error : Severity

pub data Status : Type 0 where
  pass change_required reboot_required unverified blocked : Status

abbrev pub status_value : Status → String
status_value Status.pass = "pass"
status_value Status.change_required = "change-required"
status_value Status.reboot_required = "reboot-required"
status_value Status.unverified = "unverified"
status_value Status.blocked = "blocked"

abbrev status_rank : Status → ℕ
status_rank Status.pass = 0
status_rank Status.change_required = 1
status_rank Status.reboot_required = 2
status_rank Status.unverified = 3
status_rank Status.blocked = 4

-- `left is right`, for members of the enumeration.
abbrev pub status_eq : Status → Status → Bool
status_eq a b = status_rank a == status_rank b

pub record Finding : Type 0 where
  pub code : String
  pub severity : Severity
  pub summary : String
  pub evidence : String
  pub remediation : String

pub record Report : Type 0 where
  pub command : String
  pub status : Status
  pub generated_at : String
  pub kernel_fact : Option String
  pub findings : List Finding
  pub schema_version : ℕ
