-- ===== src/Host/Verify.antt =====
-- The verification of a host after a reboot (src/amd_ai/host/verify.py).
pub mod Container
pub mod Healthy
pub mod Probe
pub mod Tests
use Prim.Native.String.{◌++◌}
use mathlib.Core.List.{◌++◌ as append}
use strix_halo_rocm_toolkit.Prelude.{
  ℕ, ◌==◌, String, Bool, true, false, not, ◌&&◌, ◌||◌, Option, none, some, List, [], ◌∷◌, map, any,
  Dict, str_eq, text_in, or_text, on_option, if◌then◌else◌, codes,
}
use strix_halo_rocm_toolkit.Lines.{splitlines, strip, starts_with, decimal}
use strix_halo_rocm_toolkit.Regex.{
  Regex, search, literal, any_of, all_of, class, star, choice, dot, spaces,
}
use strix_halo_rocm_toolkit.Report.{Finding, Report, Severity, Status, status_eq}
use strix_halo_rocm_toolkit.Host.Models.{HostSnapshot}
use strix_halo_rocm_toolkit.Host.Policy.{
  evaluate_preflight, first_status, has_kfd, has_render, insert_number,
}

abbrev any_text : Regex
any_text = star (class dot)

-- `GPU_ERROR_PATTERNS`: the code, the pattern and the summary.
abbrev pub gpu_error_patterns : List (String × Regex × String)
gpu_error_patterns =
    (
      "GPU.INIT_FATAL",
      any_of (
          literal "fatal error during gpu init"
          ∷ all_of (
              literal "amdgpu:"
              ∷ star (class spaces)
              ∷ literal "probe of "
              ∷ any_text
              ∷ literal " failed with error"
              ∷ [])
          ∷ []),
      "The kernel log contains a fatal amdgpu initialization failure",
    )
    ∷ (
      "GPU.MES_TIMEOUT",
      all_of (
          literal "mes" ∷ any_text ∷ choice (literal "timeout") (literal "failed to respond") ∷ []),
      "The kernel log contains a MES timeout or response failure",
    )
    ∷ ("GPU.RESET", literal "gpu reset begin", "The kernel log contains a GPU reset")
    ∷ (
      "GPU.PAGE_FAULT",
      all_of (literal "amdgpu" ∷ any_text ∷ literal "page fault" ∷ []),
      "The kernel log contains an amdgpu page fault",
    )
    ∷ (
      "GPU.FIRMWARE",
      literal "failed to load firmware",
      "The kernel log contains a firmware loading failure",
    )
    ∷ (
      "GPU.RING_TIMEOUT",
      all_of (literal "ring " ∷ any_text ∷ literal " timeout" ∷ []),
      "The kernel log contains a GPU ring timeout",
    )
    ∷ []

-- `KERNEL_REQUIRED_PREFLIGHT_CODES`
abbrev pub kernel_required_preflight_codes : List String
kernel_required_preflight_codes =
    "HOST.UNSUPPORTED_OS" ∷ "HOST.UNSUPPORTED_ARCH" ∷ "HOST.OEM_617_REQUIRED"
    ∷ "HOST.OEM_617_CANDIDATE" ∷ "GPU.NOT_FOUND" ∷ "GPU.WRONG_DRIVER" ∷ "GPU.KFD_MISSING"
    ∷ "GPU.RENDER_MISSING" ∷ []

abbrev pub error_finding : String → String → String → String → Finding
error_finding code summary evidence remediation = record {
  code = code;
  severity = Severity.error;
  summary = summary;
  evidence = evidence;
  remediation = remediation;
}

-- `_first_matching_line`, on the lines of the log.
abbrev pub first_matching_line : Regex → List String → Option String
first_matching_line pattern [] = none
first_matching_line pattern (l ∷ ls) = elim (search pattern l) [
  | true ↦ some (strip l)
  | false ↦ first_matching_line pattern ls
]

abbrev pub log_findings_from : List String → List (String × Regex × String) → List Finding
log_findings_from lines [] = []
log_findings_from lines ((code, pattern, summary) ∷ ps) =
    on_option (first_matching_line pattern lines) (log_findings_from lines ps) (λ evidence.
      error_finding code summary evidence
        "Inspect the current-boot amdgpu log before running sustained GPU workloads."
      ∷ log_findings_from lines ps)

-- `_current_boot_gpu_findings`
unfoldable pub current_boot_gpu_findings : HostSnapshot → List Finding
current_boot_gpu_findings snapshot =
    if not snapshot.dmesg_available
    then error_finding "HOST.DMESG_UNAVAILABLE" "The current-boot kernel log could not be read"
        (or_text snapshot.dmesg "dmesg returned no evidence")
        "Grant reviewed dmesg access and rerun host verification."
      ∷ []
    else log_findings_from (splitlines snapshot.dmesg) gpu_error_patterns

abbrev pub nonempty {ℓ} : {A : Type ℓ} → List A → Bool
nonempty [] = false
nonempty (_ ∷ _) = true

abbrev pub shown_bool : Bool → String
shown_bool true = "True"
shown_bool false = "False"

-- Whether the display manager, which ran before the reboot, is gone.
abbrev pub display_manager_lost : HostSnapshot → Bool → Bool → Bool
display_manager_lost snapshot was_loaded was_active =
    (was_loaded || was_active)
    && not (snapshot.display_manager_loaded && snapshot.display_manager_active)

abbrev display_manager_finding : HostSnapshot → Finding
display_manager_finding snapshot =
    error_finding "HOST.DISPLAY_MANAGER_INACTIVE"
      "The display manager did not recover after the kernel reboot"
      ("loaded="
        ++ shown_bool snapshot.display_manager_loaded
        ++ ", active="
        ++ shown_bool snapshot.display_manager_active)
      "Reboot, select the retained recovery kernel under Advanced options for Ubuntu, and inspect the amdgpu current-boot log."

abbrev pub is_required : Finding → Bool
is_required f = text_in f.code kernel_required_preflight_codes

-- `evaluate_kernel_reboot`, from its parts.
abbrev kernel_report : Report → List Finding → Bool → HostSnapshot → Report
kernel_report preflight log_findings lost snapshot = record {
  command = "host-kernel-verify";
  status =
      if any is_required preflight.findings || nonempty log_findings || lost
      then Status.blocked
      else Status.pass;
  generated_at = preflight.generated_at;
  kernel_fact = preflight.kernel_fact;
  findings =
      append preflight.findings
        (append log_findings (if lost then display_manager_finding snapshot ∷ [] else []));
  schema_version = 1;
}

-- `evaluate_kernel_reboot`
unfoldable pub evaluate_kernel_reboot : List String → String → HostSnapshot → Bool → Bool → Report
evaluate_kernel_reboot tested_kernels now snapshot was_loaded was_active =
    kernel_report (evaluate_preflight tested_kernels now snapshot)
      (current_boot_gpu_findings snapshot) (display_manager_lost snapshot was_loaded was_active)
      snapshot

-- `evaluate_post_reboot`, from its parts.
abbrev post_report : Report → List Finding → Report
post_report preflight log_findings = record {
  command = "host-verify";
  status =
      first_status (preflight.status ∷ (if nonempty log_findings then Status.blocked ∷ [] else []));
  generated_at = preflight.generated_at;
  kernel_fact = preflight.kernel_fact;
  findings = append preflight.findings log_findings;
  schema_version = 1;
}

-- `evaluate_post_reboot`
unfoldable pub evaluate_post_reboot : List String → String → HostSnapshot → Report
evaluate_post_reboot tested_kernels now snapshot =
    post_report (evaluate_preflight tested_kernels now snapshot)
      (current_boot_gpu_findings snapshot)
