-- ===== src/Host/Verify/Tests.antt =====
-- A concrete machine, its preflight and its verification.
use strix_halo_rocm_toolkit.Prelude.{
  ◌≡◌, refl, ◌≢◌, ◌↔◌, ℕ, String, true, none, some, List, [], ◌∷◌, suc,
}
use strix_halo_rocm_toolkit.Lines.{splitlines, strip, decimal}
use strix_halo_rocm_toolkit.Regex.{search}
use strix_halo_rocm_toolkit.Report.{Status}
use strix_halo_rocm_toolkit.Host.Models.{HostSnapshot, DockerDistribution}
use strix_halo_rocm_toolkit.Host.Policy.{
  evaluate_preflight, preflight_findings, overall_status, found, meets_branch, parse_oem_kernel,
}
use strix_halo_rocm_toolkit.Host.Policy.Blocked.{IsSupported, evaluate_preflight-blocked}
use strix_halo_rocm_toolkit.Host.Verify.{
  evaluate_kernel_reboot, evaluate_post_reboot, current_boot_gpu_findings,
}
use strix_halo_rocm_toolkit.Host.Verify.Container.{
  Runner, finished, build_probe_argv, run_container_probe, verify_host,
}
use strix_halo_rocm_toolkit.Host.Verify.Healthy.{IsHealthy, evaluate_kernel_reboot-passes}
use strix_halo_rocm_toolkit.Host.Verify.Probe.{IsProbed, verify_host-IsProbed}

-- A machine with the given kernel and log.
abbrev machine : String → String → HostSnapshot
machine kernel dmesg = record {
  os_id = "ubuntu";
  os_version = "24.04.3";
  architecture = "x86_64";
  kernel = kernel;
  gpu = record { pci_id = some "1002:1586"; driver = some "amdgpu"; raw = "" };
  mem_total_kib = 130000000;
  swap_total_kib = 0;
  page_size = 4096;
  kernel_args = [];
  ttm_pages_limit = none;
  dmi_memory_bytes = none;
  device_gids = ("/dev/kfd", 992) ∷ ("/dev/dri/renderD128", 993) ∷ ("/dev/dri/card0", 44) ∷ [];
  current_group_ids = 44 ∷ 992 ∷ 993 ∷ [];
  packages = [];
  apt_sources = [];
  dkms_status = "";
  docker_version = none;
  docker_buildx_version = none;
  docker_buildx_error = none;
  docker_distribution = DockerDistribution.docker_ce;
  kernel_oem_617_candidate = none;
  display_manager_loaded = true;
  display_manager_active = true;
  dmesg = dmesg;
  dmesg_available = true;
  dedicated_vram_mib = some 512;
}

abbrev tested_kernels : List String
tested_kernels = "6.17.0-1007-oem" ∷ []

abbrev healthy : HostSnapshot
healthy = machine "6.17.0-1007-oem" "amdgpu: ready\n"

preflight_run : (evaluate_preflight tested_kernels "now" healthy).status ≡ Status.pass
unfolding evaluate_preflight preflight_findings overall_status found meets_branch parse_oem_kernel
preflight_run = refl

-- An older kernel without a candidate.
old_kernel_run :
    (evaluate_preflight tested_kernels "now" (machine "6.14.0-1004-oem" "")).status ≡ Status.blocked
unfolding evaluate_preflight preflight_findings overall_status found meets_branch parse_oem_kernel
old_kernel_run = refl

kernel_run : (evaluate_kernel_reboot tested_kernels "now" healthy true true).status ≡ Status.pass
unfolding evaluate_kernel_reboot current_boot_gpu_findings evaluate_preflight preflight_findings
    overall_status found meets_branch parse_oem_kernel splitlines strip search
kernel_run = refl

reset_run :
    (evaluate_kernel_reboot tested_kernels "now"
      (machine "6.17.0-1007-oem" "amdgpu: GPU reset begin!")
      true
      true).status
    ≡ Status.blocked
unfolding evaluate_kernel_reboot current_boot_gpu_findings evaluate_preflight preflight_findings
    overall_status found meets_branch parse_oem_kernel splitlines strip search
reset_run = refl

argv_run :
    build_probe_argv "image" healthy ("docker" ∷ [])
    ≡ "docker" ∷ "run" ∷ "--rm" ∷ "--device" ∷ "/dev/kfd" ∷ "--device" ∷ "/dev/dri" ∷ "--group-add"
      ∷ "992" ∷ "--group-add" ∷ "993" ∷ "image" ∷ "/usr/local/bin/container-check" ∷ "--mode"
      ∷ "rocm" ∷ "--json" ∷ "-" ∷ []
unfolding build_probe_argv decimal
argv_run = refl

-- The runner counts the commands; each of them prints the architecture.
abbrev counting : Runner ℕ
counting argv n =
    (finished (record { returncode = 0; stdout = "agent gfx1151"; stderr = "" }), suc n)

verify_run :
    (verify_host counting tested_kernels "now" healthy "image" ("docker" ∷ []) 0).0.status
    ≡ Status.pass
unfolding verify_host run_container_probe evaluate_post_reboot current_boot_gpu_findings
    evaluate_preflight preflight_findings overall_status found meets_branch parse_oem_kernel
    splitlines strip search
verify_run = refl

not_blocked :
    (verify_host counting tested_kernels "now" healthy "image" ("docker" ∷ []) 0).0.status
    ≢ Status.blocked
unfolding verify_host run_container_probe evaluate_post_reboot current_boot_gpu_findings
    evaluate_preflight preflight_findings overall_status found meets_branch parse_oem_kernel
    splitlines strip search
not_blocked h = cc

blocked_run :
    (evaluate_post_reboot tested_kernels "now" (machine "6.14.0-1004-oem" "")).status
    ≡ Status.blocked
unfolding evaluate_post_reboot current_boot_gpu_findings evaluate_preflight preflight_findings
    overall_status found meets_branch parse_oem_kernel splitlines strip search
blocked_run = refl

evaluate_preflight-blocked_example :
    ((evaluate_preflight tested_kernels "now" healthy).status ≢ Status.blocked)
    ↔ IsSupported healthy
evaluate_preflight-blocked_example = evaluate_preflight-blocked tested_kernels "now" healthy

evaluate_kernel_reboot-passes_example :
    ((evaluate_kernel_reboot tested_kernels "now" healthy true true).status ≡ Status.pass)
    ↔ IsHealthy healthy true true
evaluate_kernel_reboot-passes_example =
    evaluate_kernel_reboot-passes tested_kernels "now" healthy true true

verify_host-IsProbed_example :
    ((evaluate_post_reboot tested_kernels "now" healthy).status ≢ Status.blocked)
    × IsProbed counting healthy "image"
        ("docker" ∷ [])
        0
        (verify_host counting tested_kernels "now" healthy "image" ("docker" ∷ []) 0).1
verify_host-IsProbed_example =
    verify_host-IsProbed counting tested_kernels "now" healthy "image" ("docker" ∷ []) 0 not_blocked
