-- ===== src/Host/Policy.antt =====
-- The policy of the preflight (src/amd_ai/host/policy.py). The list of tested kernels and the time of a
-- report are parameters; `repr` is that of a text without quotes, backslashes and control characters.
pub mod Blocked
use Prim.Native.String.{◌++◌}
use Prim.Native.Char.{code}
use mathlib.Core.List.{◌++◌ as append}
use strix_halo_rocm_toolkit.Prelude.{
  ℕ, ◌+◌, ◌-◌, ◌*◌, ◌==◌, ltb, leb, String, Bool, true, false, not, ◌&&◌, ◌||◌, Option, none, some,
  List, [], ◌∷◌, map, any, find, Dict, has_key, str_eq, opt_text_eq, or_text, text_in, on_option,
  if◌then◌else◌,
}
use strix_halo_rocm_toolkit.Lines.{starts_with, decimal, join}
use strix_halo_rocm_toolkit.Report.{Finding, Report, Severity, Status, status_eq}
use strix_halo_rocm_toolkit.Host.Models.{HostSnapshot}

-- `_ClassifiedFinding`
pub record ClassifiedFinding : Type 0 where
  pub finding : Finding
  pub status : Status

abbrev classified : String → Severity → Status → String → String → String → ClassifiedFinding
classified code severity status summary evidence remediation = record {
  finding = record {
    code = code;
    severity = severity;
    summary = summary;
    evidence = evidence;
    remediation = remediation;
  };
  status = status;
}

-- `if test: add(…)`
unfoldable pub found : Bool → ClassifiedFinding → List ClassifiedFinding
found test item = if test then item ∷ [] else []

abbrev quoted : String → String
quoted s = "'" ++ s ++ "'"

-- `value or default`, for a value that may be missing.
abbrev shown_or : Option String → String → String
shown_or value default = on_option value default (λ v. or_text v default)

-- The digits at the front of a text, and what follows them; none without a digit.
abbrev is_digit : ℕ → Bool
is_digit c = leb 48 c && leb c 57

abbrev number_from : ℕ → String → ℕ × String
number_from n String.[] = (n, String.[])
number_from n (String.◌∷◌ c s) = elim (is_digit (code c)) [
  | true ↦ number_from (n * 10 + (code c - 48)) s
  | false ↦ (n, String.◌∷◌ c s)
]

abbrev take_number : String → Option (ℕ × String)
take_number String.[] = none
take_number (String.◌∷◌ c s) =
    if is_digit (code c) then some (number_from 0 (String.◌∷◌ c s)) else none

abbrev after : ℕ → String → Option String
after c String.[] = none
after c (String.◌∷◌ d s) = if code d == c then some s else none

-- `_parse_oem_kernel`
unfoldable pub parse_oem_kernel : String → Option (ℕ × ℕ × ℕ × ℕ)
parse_oem_kernel kernel = on_option (take_number kernel) none (λ a.
    on_option (after 46 a.1) none (λ s. on_option (take_number s) none (λ b.
      on_option (after 46 b.1) none (λ t. on_option (take_number t) none (λ c.
        on_option (after 45 c.1) none (λ u.
          on_option (take_number u) none
            (λ d. if str_eq d.1 "-oem" then some (a.0, b.0, c.0, d.0) else none)))))))

-- `kernel_branch >= TARGET_OEM_BRANCH`, which a kernel of another form never is.
unfoldable pub meets_branch : String → Bool
meets_branch kernel =
    on_option (parse_oem_kernel kernel) false (λ v. ltb 6 v.0 || (v.0 == 6 && leb 17 v.1))

abbrev pub has_kfd : HostSnapshot → Bool
has_kfd snapshot = has_key "/dev/kfd" snapshot.device_gids

abbrev pub has_render : HostSnapshot → Bool
has_render snapshot =
    any (λ (e : String × ℕ). starts_with e.0 "/dev/dri/render") snapshot.device_gids

-- `sorted(set(device_gids.values()).difference(current_group_ids))`
abbrev pub insert_number : ℕ → List ℕ → List ℕ
insert_number n [] = n ∷ []
insert_number n (m ∷ ms) =
    if ltb n m then n ∷ m ∷ ms else if n == m then m ∷ ms else m ∷ insert_number n ms

abbrev pub missing_gids : Dict ℕ → List ℕ → List ℕ
missing_gids [] have = []
missing_gids ((_, gid) ∷ d) have =
    if any (λ g. g == gid) have
    then missing_gids d have
    else insert_number gid (missing_gids d have)

abbrev is_empty : List ℕ → Bool
is_empty [] = true
is_empty (_ ∷ _) = false

-- The tests of the findings that block a host.
abbrev pub is_supported_os : HostSnapshot → Bool
is_supported_os snapshot = str_eq snapshot.os_id "ubuntu" && starts_with snapshot.os_version "24.04"

abbrev pub is_supported_arch : HostSnapshot → Bool
is_supported_arch snapshot = str_eq snapshot.architecture "x86_64"

abbrev pub has_candidate : HostSnapshot → Bool
has_candidate snapshot =
    on_option snapshot.kernel_oem_617_candidate false (λ c. starts_with c "6.17.")

abbrev pub has_gpu : HostSnapshot → Bool
has_gpu snapshot = opt_text_eq snapshot.gpu.pci_id (some "1002:1586")

abbrev pub has_driver : HostSnapshot → Bool
has_driver snapshot = opt_text_eq snapshot.gpu.driver (some "amdgpu")

-- The findings of `evaluate_preflight`, in order.
abbrev pub platform_findings : HostSnapshot → List ClassifiedFinding
platform_findings snapshot =
    append
      (found (not (is_supported_os snapshot)) (
        classified "HOST.UNSUPPORTED_OS" Severity.error Status.blocked
          "No write adapter is available for this operating system"
          ("ID=" ++ quoted snapshot.os_id ++ ", VERSION_ID=" ++ quoted snapshot.os_version)
          "Use Ubuntu 24.04.x for host preparation; other systems are audit-only."))
      (append
        (found (not (is_supported_arch snapshot)) (
          classified "HOST.UNSUPPORTED_ARCH" Severity.error Status.blocked
            "The host architecture is unsupported"
            ("uname -m returned " ++ quoted snapshot.architecture) "Use an AMD64/x86_64 host."))
        (append
          (found (not (meets_branch snapshot.kernel)) (
            classified "HOST.OEM_617_REQUIRED" Severity.warning Status.change_required
              "The Ubuntu OEM 6.17 kernel branch is required"
              ("running kernel: " ++ or_text snapshot.kernel "<unknown>")
              "Install linux-oem-6.17, retain the recovery kernel, and reboot."))
          ((found (not (meets_branch snapshot.kernel) && not (has_candidate snapshot)) (
            classified "HOST.OEM_617_CANDIDATE" Severity.error Status.blocked
              "No valid Ubuntu OEM 6.17 package candidate is available"
              ("linux-oem-6.17 candidate: " ++ shown_or snapshot.kernel_oem_617_candidate "<none>")
              "Run sudo apt update and verify the Ubuntu Noble update repositories.")))))

abbrev pub gpu_findings : HostSnapshot → List ClassifiedFinding
gpu_findings snapshot =
    append
      (found (not (has_gpu snapshot)) (
        classified "GPU.NOT_FOUND" Severity.error Status.blocked
          "The Radeon 8060S target PCI device was not found"
          ("detected PCI ID: " ++ shown_or snapshot.gpu.pci_id "<none>")
          "Confirm the Ryzen AI Max+ 395 GPU is enabled and visible to the host."))
      (append
        (found (has_gpu snapshot && not (has_driver snapshot)) (
          classified "GPU.WRONG_DRIVER" Severity.error Status.blocked
            "The target GPU is not using the inbox amdgpu driver"
            ("kernel driver: " ++ shown_or snapshot.gpu.driver "<none>")
            "Remove conflicting GPU DKMS/VFIO binding and use the kernel inbox amdgpu module."))
        (append
          (found (not (has_kfd snapshot)) (
            classified "GPU.KFD_MISSING" Severity.warning Status.change_required
              "/dev/kfd is missing" ("No KFD device node was collected")
              "Load the inbox amdgpu driver, then reboot and rerun preflight."))
          (append
            (found (not (has_render snapshot)) (
              classified "GPU.RENDER_MISSING" Severity.warning Status.change_required
                "No DRM render node is available" ("No /dev/dri/render* node was collected")
                "Check amdgpu initialization and udev, then reboot and rerun preflight."))
            ((found (not (is_empty (missing_gids snapshot.device_gids snapshot.current_group_ids)))
              (classified "GPU.PERMISSION" Severity.warning Status.change_required
                "The current user lacks one or more GPU device groups"
                ("missing GIDs: "
                  ++ join ", "
                      (map decimal (missing_gids snapshot.device_gids snapshot.current_group_ids)))
                "Add the target user to the device groups and start a new login session."))))))

abbrev pub memory_findings : List String → HostSnapshot → List ClassifiedFinding
memory_findings tested_kernels snapshot =
    append
      (found (snapshot.swap_total_kib == 0) (
        classified "HOST.SWAP_DISABLED" Severity.warning Status.pass "Swap is disabled"
          ("SwapTotal is 0 KiB")
          "For memory-heavy video workloads, consider a bounded swap file or zram policy."))
      (append
        (found (on_option snapshot.dedicated_vram_mib false (λ n. ltb 512 n)) (
          classified "GPU.BIOS_VRAM_HIGH" Severity.warning Status.change_required
            "Dedicated UMA memory is above the 512 MiB AI Max baseline"
            ("reported dedicated VRAM: "
              ++ on_option snapshot.dedicated_vram_mib "" decimal
              ++ " MiB")
            "In firmware setup, set the UMA frame buffer to 512 MiB; this cannot be changed by the host tool."))
        ((found (meets_branch snapshot.kernel && not (text_in snapshot.kernel tested_kernels)) (
          classified "HOST.UPSTREAM_UNVERIFIED" Severity.warning Status.unverified
            "The OEM kernel meets the minimum but is not in the recorded AMD-tested set"
            ("running kernel: " ++ snapshot.kernel)
            "Run the full hardware qualification before promoting this kernel."))))

unfoldable pub preflight_findings : List String → HostSnapshot → List ClassifiedFinding
preflight_findings tested_kernels snapshot =
    append (platform_findings snapshot)
      (append (gpu_findings snapshot) (memory_findings tested_kernels snapshot))

abbrev precedence : List Status
precedence =
    Status.blocked ∷ Status.reboot_required ∷ Status.change_required ∷ Status.unverified ∷ []

-- `next((status for status in precedence if status in statuses), Status.PASS)`
abbrev pub first_status : List Status → Status
first_status statuses =
    on_option (find (λ s. any (status_eq s) statuses) precedence) Status.pass (λ s. s)

-- `_overall_status`
unfoldable pub overall_status : List ClassifiedFinding → Status
overall_status findings = first_status (map (λ (c : ClassifiedFinding). c.status) findings)

-- `evaluate_preflight`
unfoldable pub evaluate_preflight : List String → String → HostSnapshot → Report
evaluate_preflight tested_kernels now snapshot = record {
  command = "host-preflight";
  status = overall_status (preflight_findings tested_kernels snapshot);
  generated_at = now;
  kernel_fact = some snapshot.kernel;
  findings =
      map (λ (c : ClassifiedFinding). c.finding) (preflight_findings tested_kernels snapshot);
  schema_version = 1;
}
