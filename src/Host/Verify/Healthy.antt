-- ===== src/Host/Verify/Healthy.antt =====
-- When the first reboot of a host passes its verification.
use strix_halo_rocm_toolkit.Prelude.{
  ◌≡◌, refl, ◌↔◌, String, Bool, true, false, not, ◌&&◌, ◌||◌, none, List, [], ◌∷◌, any, All,
  any-append, test_rules, if◌then◌else◌, arith,
}
use strix_halo_rocm_toolkit.Lines.{splitlines}
use strix_halo_rocm_toolkit.Regex.{Regex, search}
use strix_halo_rocm_toolkit.Report.{Finding, Status}
use strix_halo_rocm_toolkit.Host.Models.{HostSnapshot}
use strix_halo_rocm_toolkit.Host.Policy.{
  ClassifiedFinding, platform_findings, gpu_findings, memory_findings, preflight_findings,
  evaluate_preflight, meets_branch, is_supported_os, is_supported_arch, has_candidate, has_gpu,
  has_driver, has_kfd, has_render,
}
use strix_halo_rocm_toolkit.Host.Policy.Blocked.{any-found, any-map, any-three}
use strix_halo_rocm_toolkit.Host.Verify.{
  gpu_error_patterns, first_matching_line, log_findings_from, current_boot_gpu_findings, nonempty,
  display_manager_lost, is_required, evaluate_kernel_reboot,
}

-- No line of the log matches any of the failure patterns.
abbrev pub IsClean : List String → List (String × Regex × String) → Type 0
IsClean lines patterns =
    All (λ (e : String × Regex × String). any (search e.1) lines ≡ false) patterns

-- The platform that the toolkit needs, on the kernel that runs now.
abbrev pub IsReady : HostSnapshot → Type 0
IsReady s =
    (is_supported_os s ≡ true)
    × (is_supported_arch s ≡ true)
    × (meets_branch s.kernel ≡ true)
    × (has_gpu s ≡ true)
    × (has_driver s ≡ true)
    × (has_kfd s ≡ true)
    × (has_render s ≡ true)

abbrev pub HasCleanLog : HostSnapshot → Type 0
HasCleanLog s = (s.dmesg_available ≡ true) × IsClean (splitlines s.dmesg) gpu_error_patterns

abbrev pub IsHealthy : HostSnapshot → Bool → Bool → Type 0
IsHealthy s was_loaded was_active =
    IsReady s × (HasCleanLog s × (display_manager_lost s was_loaded was_active ≡ false))

first_matching_line-none :
    (pattern : Regex) (lines : List String)
    → (first_matching_line pattern lines ≡ none) ↔ (any (search pattern) lines ≡ false)
first_matching_line-none pattern [] = ground arith
first_matching_line-none pattern (l ∷ ls) = ground (arith, first_matching_line-none pattern ls)

log_findings_none :
    (lines : List String) (patterns : List (String × Regex × String))
    → (nonempty (log_findings_from lines patterns) ≡ false) ↔ IsClean lines patterns
log_findings_none lines [] = ground arith
log_findings_none lines ((code, pattern, summary) ∷ ps) =
    ground (arith, first_matching_line-none pattern lines, log_findings_none lines ps)

log_none :
    (available : Bool) (missing : Finding) (lines : List String)
    (patterns : List (String × Regex × String))
    → (nonempty (if not available then missing ∷ [] else log_findings_from lines patterns) ≡ false)
      ↔ ((available ≡ true) × IsClean lines patterns)
log_none true missing lines patterns = (
  λ h. (refl, (log_findings_none lines patterns).0 h),
  λ h. (log_findings_none lines patterns).1 h.1,
)
log_none false missing lines patterns = (λ h. ground arith, λ h. ground (arith, h.0))

pub current_boot_none :
    (s : HostSnapshot) → (nonempty (current_boot_gpu_findings s) ≡ false) ↔ HasCleanLog s
unfolding current_boot_gpu_findings
current_boot_none s = log_none s.dmesg_available _ (splitlines s.dmesg) gpu_error_patterns

abbrev is_required_item : ClassifiedFinding → Bool
is_required_item c = is_required c.finding

required-platform :
    (s : HostSnapshot)
    → any is_required_item (platform_findings s) ≡ (
        not (is_supported_os s)
        || (not (is_supported_arch s)
            || (not (meets_branch s.kernel)
                || (not (meets_branch s.kernel) && not (has_candidate s)))))
required-platform s = simp (any-append, any-found, test_rules)

required-gpu :
    (s : HostSnapshot)
    → any is_required_item (gpu_findings s) ≡ (
        not (has_gpu s)
        || ((has_gpu s && not (has_driver s)) || (not (has_kfd s) || not (has_render s))))
required-gpu s = simp (any-append, any-found, test_rules)

required-memory :
    (tested : List String) (s : HostSnapshot)
    → any is_required_item (memory_findings tested s) ≡ false
required-memory tested s = simp (any-append, any-found, test_rules)

required-preflight :
    (tested : List String) (s : HostSnapshot)
    → any is_required_item (preflight_findings tested s) ≡ (
        (not (is_supported_os s)
          || (not (is_supported_arch s)
              || (not (meets_branch s.kernel)
                  || (not (meets_branch s.kernel) && not (has_candidate s)))))
        || ((not (has_gpu s)
              || ((has_gpu s && not (has_driver s)) || (not (has_kfd s) || not (has_render s))))
            || false))
unfolding preflight_findings
required-preflight tested s =
    any-three is_required_item (platform_findings s) (gpu_findings s) (memory_findings tested s)
      (required-platform s) (required-gpu s) (required-memory tested s)

required_none :
    (tested : List String) (now : String) (s : HostSnapshot)
    → (any is_required (evaluate_preflight tested now s).findings ≡ false) ↔ IsReady s
unfolding evaluate_preflight
required_none tested now s = ground (
  arith,
  required-preflight tested s,
  any-map is_required (λ (c : ClassifiedFinding). c.finding) (preflight_findings tested s),
)

pass_parts :
    (r l d : Bool)
    → ((if r || l || d then Status.blocked else Status.pass) ≡ Status.pass)
      ↔ ((r ≡ false) × ((l ≡ false) × (d ≡ false)))
pass_parts true l d = ground arith
pass_parts false true d = ground arith
pass_parts false false true = ground arith
pass_parts false false false = ground arith

-- The verification of the kernel passes exactly on a host with the supported system and architecture, an
-- OEM kernel of 6.17 or later, the GPU with its driver and both device nodes, a readable kernel log in
-- which no line matches a failure pattern, and the display manager running again if it ran before.
pub evaluate_kernel_reboot-passes :
    (tested : List String) (now : String) (s : HostSnapshot) (was_loaded was_active : Bool)
    → ((evaluate_kernel_reboot tested now s was_loaded was_active).status ≡ Status.pass)
      ↔ IsHealthy s was_loaded was_active
unfolding evaluate_kernel_reboot
evaluate_kernel_reboot-passes tested now s was_loaded was_active = (
  λ h. (
    (required_none tested now s).0 (parts.0 h).0,
    ((current_boot_none s).0 (parts.0 h).1.0, (parts.0 h).1.1),
  ),
  λ k. parts.1 ((required_none tested now s).1 k.0, ((current_boot_none s).1 k.1.0, k.1.1)),
)
  where
    parts : ((evaluate_kernel_reboot tested now s was_loaded was_active).status ≡ Status.pass) ↔ (
        (any is_required (evaluate_preflight tested now s).findings ≡ false)
        × ((nonempty (current_boot_gpu_findings s) ≡ false)
            × (display_manager_lost s was_loaded was_active ≡ false)))
    parts =
        pass_parts (any is_required (evaluate_preflight tested now s).findings)
          (nonempty (current_boot_gpu_findings s)) (display_manager_lost s was_loaded was_active)
