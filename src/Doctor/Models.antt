-- ===== src/Doctor/Models.antt =====
-- Diagnostics and repair actions (src/amd_ai/doctor/models.py). The redaction of secrets, and the
-- serialization of a report, are left out.
use strix_halo_rocm_toolkit.Prelude.{
  ℕ, ◌==◌, leb, String, Bool, false, not, ◌||◌, Option, List, [], ◌∷◌, Dict, str_eq, text_in, codes,
  if◌then◌else◌,
}
use strix_halo_rocm_toolkit.Results.{Result, ok, check}
use strix_halo_rocm_toolkit.Json.{Json}

pub data DiagnosticDisposition : Type 0 where
  pass warning repairable blocked : DiagnosticDisposition

abbrev pub rank : DiagnosticDisposition → ℕ
rank DiagnosticDisposition.pass = 0
rank DiagnosticDisposition.warning = 1
rank DiagnosticDisposition.repairable = 2
rank DiagnosticDisposition.blocked = 3

abbrev pub disposition_eq : DiagnosticDisposition → DiagnosticDisposition → Bool
disposition_eq a b = rank a == rank b

abbrev pub disposition_value : DiagnosticDisposition → String
disposition_value DiagnosticDisposition.pass = "pass"
disposition_value DiagnosticDisposition.warning = "warning"
disposition_value DiagnosticDisposition.repairable = "repairable"
disposition_value DiagnosticDisposition.blocked = "blocked"

pub record Diagnostic : Type 0 where
  pub code : String
  pub disposition : DiagnosticDisposition
  pub summary : String
  pub evidence : String
  pub remediation : String

abbrev diagnostic_codes : List String
diagnostic_codes =
    "PLATFORM.PASS" ∷ "RELEASE.INVALID" ∷ "HOST.PREFLIGHT_FAILED" ∷ "IMAGE.PARENT_MISSING"
    ∷ "IMAGE.DIGEST_DRIFT" ∷ "IMAGE.PROJECT_CHANGED" ∷ "PROJECT.CONFIG_INVALID"
    ∷ "TORCH.BASE_CHANGED" ∷ "TORCH.SHADOWED" ∷ "OVERLAY.LOCK_INVALID"
    ∷ "OVERLAY.TRANSACTION_INCOMPLETE" ∷ "GPU.RUNTIME_FAILED" ∷ "KERNEL.LOG_FAILED" ∷ []

abbrev allowed_action_kinds : List String
allowed_action_kinds =
    "quarantine-overlay" ∷ "remove-project-image" ∷ "pull-parent" ∷ "retag-parent"
    ∷ "build-project-image" ∷ "rebuild-overlay" ∷ "verify-project" ∷ []

pub record RepairAction : Type 0 where
  pub kind : String
  pub exact_target : String
  pub reason_code : String

-- `character in text`
abbrev pub has_code : ℕ → List ℕ → Bool
has_code c [] = false
has_code c (d ∷ ds) = c == d || has_code c ds

-- Whether a target is the name of one thing: no NUL, no `*`, no `?`.
unfoldable pub is_exact : String → Bool
is_exact s =
    not (str_eq s "" || has_code 0 (codes s) || has_code 42 (codes s) || has_code 63 (codes s))

-- `RepairAction(…)` with its checks.
unfoldable pub repair_action : String → String → String → Result String RepairAction
repair_action kind exact_target reason_code =
    check (not (text_in kind allowed_action_kinds)) "unknown repair action kind" (
      check (not (is_exact exact_target)) "repair action target is not exact" (
        check (not (text_in reason_code diagnostic_codes)) "unknown repair reason code"
          (ok (record { kind = kind; exact_target = exact_target; reason_code = reason_code }))))

pub record DoctorReport : Type 0 where
  pub schema_version : ℕ
  pub generated_at : String
  pub project : Option String
  pub facts : Dict Json
  pub diagnostics : List Diagnostic
  pub status : String

-- `max(…, key=rank, default=PASS)`: the first of those that rank highest.
abbrev higher : DiagnosticDisposition → DiagnosticDisposition → DiagnosticDisposition
higher a b = if leb (rank b) (rank a) then a else b

abbrev highest_from : DiagnosticDisposition → List Diagnostic → DiagnosticDisposition
highest_from best [] = best
highest_from best (d ∷ ds) = highest_from (higher best d.disposition) ds

abbrev highest : List Diagnostic → DiagnosticDisposition
highest [] = DiagnosticDisposition.pass
highest (d ∷ ds) = highest_from d.disposition ds

-- The status that `DoctorReport.create` gives a report.
unfoldable pub report_status : List Diagnostic → String
report_status ds = disposition_value (highest ds)
