-- ===== src/Host/Verify/Container.antt =====
-- The probe of the GPU in a container (src/amd_ai/host/verify.py). The runner of commands is a parameter
-- that acts on a world of its own; any return code but 0, a negative one too, is a failure.
use Prim.Native.String.{◌++◌}
use mathlib.Core.List.{◌++◌ as append}
use strix_halo_rocm_toolkit.Prelude.{
  ℕ, ◌==◌, String, Bool, not, ◌&&◌, ◌||◌, List, [], ◌∷◌, any, Dict, str_eq, or_text, if◌then◌else◌,
}
use strix_halo_rocm_toolkit.Lines.{splitlines, strip, starts_with, decimal}
use strix_halo_rocm_toolkit.Regex.{search, literal}
use strix_halo_rocm_toolkit.Report.{Finding, Report, Status, status_eq}
use strix_halo_rocm_toolkit.Host.Models.{HostSnapshot}
use strix_halo_rocm_toolkit.Host.Policy.{has_kfd, has_render, insert_number}
use strix_halo_rocm_toolkit.Host.Verify.{nonempty, evaluate_post_reboot, error_finding, shown_bool}

abbrev is_probed : String → Bool
is_probed path = str_eq path "/dev/kfd" || starts_with path "/dev/dri/render"

-- The groups of the devices that the probe maps, in order.
abbrev pub relevant_gids : Dict ℕ → List ℕ
relevant_gids [] = []
relevant_gids ((path, gid) ∷ d) =
    if is_probed path then insert_number gid (relevant_gids d) else relevant_gids d

abbrev group_args : List ℕ → List String
group_args [] = []
group_args (g ∷ gs) = "--group-add" ∷ decimal g ∷ group_args gs

-- `build_probe_argv`
unfoldable pub build_probe_argv : String → HostSnapshot → List String → List String
build_probe_argv image snapshot docker_prefix = append docker_prefix (
    "run"
    ∷ "--rm"
    ∷ append (if has_kfd snapshot then "--device" ∷ "/dev/kfd" ∷ [] else []) (
        append (if has_render snapshot then "--device" ∷ "/dev/dri" ∷ [] else []) (
          append (group_args (relevant_gids snapshot.device_gids))
            (image ∷ "/usr/local/bin/container-check" ∷ "--mode" ∷ "rocm" ∷ "--json" ∷ "-" ∷ []))))

-- `CommandResult`, without the command.
pub record CommandResult : Type 0 where
  pub returncode : ℕ
  pub stdout : String
  pub stderr : String

-- A run of a command: what it returned, or the text of an `OSError`. Other exceptions end the program.
pub data CommandOutcome : Type 0 where
  finished : CommandResult → CommandOutcome
  os_error : String → CommandOutcome

abbrev pub Runner : Type 0 → Type 0
Runner W = List String → W → CommandOutcome × W

abbrev outcome_result : CommandOutcome → CommandResult
outcome_result (finished r) = r
outcome_result (os_error m) = record { returncode = 127; stdout = ""; stderr = m }

-- `_run_optional`
abbrev pub run_optional : {W : Type 0} → Runner W → List String → W → CommandResult × W
run_optional runner argv w = (outcome_result (runner argv w).0, (runner argv w).1)

-- `ProbeOutcome`: the facts of it are not kept in a report here, so only the findings are.
abbrev pub ProbeFindings : Type 0
ProbeFindings = List Finding

-- `"gfx1151" in line.strip().lower()`
abbrev pub mentions_gfx1151 : String → Bool
mentions_gfx1151 output = any (λ line. search (literal "gfx1151") (strip line)) (splitlines output)

abbrev pub combined_output : CommandResult → String
combined_output r = strip (r.stdout ++ "\n" ++ r.stderr)

-- What `_run_container_probe` finds in the result of the probe.
abbrev pub probe_findings : CommandResult → ProbeFindings
probe_findings r =
    if not (r.returncode == 0)
    then error_finding "GPU.CONTAINER_PROBE_FAILED" "The ROCm container probe exited unsuccessfully"
        (or_text (combined_output r) ("exit code " ++ decimal r.returncode))
        "Inspect device permissions, the inbox driver, and the image ROCm userspace."
      ∷ []
    else if not (mentions_gfx1151 (combined_output r))
    then error_finding "GPU.GFX1151_MISSING" "The container probe did not report gfx1151"
        (or_text (combined_output r) "probe output was empty")
        "Verify ROCm 7.2.1 userspace and the Radeon 8060S host driver."
      ∷ []
    else []

abbrev pub inspect_args : String → List String → List String
inspect_args image docker_prefix =
    append docker_prefix ("image" ∷ "inspect" ∷ "--format" ∷ "{{.Id}}" ∷ image ∷ [])

module _ {W : Type 0} (runner : Runner W) where
  -- `_run_container_probe`, from the result of the inspection on.
  abbrev pub probe_inspected :
      HostSnapshot → String → List String → CommandResult × W → ProbeFindings × W
  probe_inspected snapshot image docker_prefix (inspected, w) =
      if not (inspected.returncode == 0)
      then (
        error_finding "HOST.PROBE_IMAGE_MISSING" "The requested ROCm probe image is unavailable"
              (or_text (strip inspected.stderr) image)
              "Build or load the exact probe image, then rerun host-verify."
            ∷ [],
        w,
      )
      else if not (has_kfd snapshot && has_render snapshot)
      then (
        error_finding "GPU.DEVICE_MAPPING" "The complete KFD and DRM device mapping is unavailable"
              ("kfd="
                ++ shown_bool (has_kfd snapshot)
                ++ ", render="
                ++ shown_bool (has_render snapshot))
              "Restore /dev/kfd and a /dev/dri/render* node before running the probe."
            ∷ [],
        w,
      )
      else (
        probe_findings (run_optional runner (build_probe_argv image snapshot docker_prefix) w).0,
        (run_optional runner (build_probe_argv image snapshot docker_prefix) w).1,
      )

  -- `_run_container_probe`
  unfoldable pub run_container_probe : HostSnapshot → String → List String → W → ProbeFindings × W
  run_container_probe snapshot image docker_prefix w =
      probe_inspected snapshot image docker_prefix
        (run_optional runner (inspect_args image docker_prefix) w)

  -- `verify_host`, from the report of the host and the outcome of the probe.
  abbrev pub with_probe : Report → ProbeFindings → Report
  with_probe host_report findings = record {
    command = "host-verify";
    status = if nonempty findings then Status.blocked else host_report.status;
    generated_at = host_report.generated_at;
    kernel_fact = host_report.kernel_fact;
    findings = append host_report.findings findings;
    schema_version = 1;
  }

  -- The probe, which a blocked host does not get.
  abbrev pub probe_unless_blocked :
      Status → HostSnapshot → String → List String → W → ProbeFindings × W
  probe_unless_blocked status snapshot image docker_prefix w =
      if status_eq status Status.blocked
      then ([], w)
      else run_container_probe snapshot image docker_prefix w

  -- `verify_host`
  unfoldable pub verify_host :
      List String → String → HostSnapshot → String → List String → W → Report × W
  verify_host tested_kernels now snapshot image docker_prefix w = (
    with_probe (evaluate_post_reboot tested_kernels now snapshot)
        (probe_unless_blocked (evaluate_post_reboot tested_kernels now snapshot).status snapshot
          image docker_prefix w).0,
    (probe_unless_blocked (evaluate_post_reboot tested_kernels now snapshot).status snapshot image
        docker_prefix w).1,
  )
