-- ===== src/Host/Verify/Probe.antt =====
-- What a verified host has shown, and that a blocked one is not probed.
use strix_halo_rocm_toolkit.Prelude.{◌≡◌, ◌≢◌, String, true, false, List, arith}
use strix_halo_rocm_toolkit.Report.{Report, Finding, Status, status_eq}
use strix_halo_rocm_toolkit.Host.Models.{HostSnapshot}
use strix_halo_rocm_toolkit.Host.Policy.{has_kfd, has_render}
use strix_halo_rocm_toolkit.Host.Verify.{nonempty, evaluate_post_reboot}
use strix_halo_rocm_toolkit.Host.Verify.Container.{
  CommandResult, Runner, run_optional, inspect_args, build_probe_argv, combined_output,
  mentions_gfx1151, probe_findings, run_container_probe, probe_unless_blocked, verify_host,
  with_probe,
}

module _ {W : Type 0} (runner : Runner W) where
  -- The image was there, both devices were mapped, and the probe in the container succeeded and named
  -- the GPU's architecture; nothing else was run.
  abbrev pub IsProbed : HostSnapshot → String → List String → W → W → Type 0
  IsProbed s image prefix w w2 =
      ((run_optional runner (inspect_args image prefix) w).0.returncode ≡ 0)
      × (has_kfd s ≡ true)
      × (has_render s ≡ true)
      × ((run_optional runner (build_probe_argv image s prefix)
            (run_optional runner (inspect_args image prefix) w).1).0.returncode
          ≡ 0)
      × (mentions_gfx1151 (
            combined_output
              (run_optional runner (build_probe_argv image s prefix)
                (run_optional runner (inspect_args image prefix) w).1).0)
          ≡ true)
      × (w2
          ≡ (run_optional runner (build_probe_argv image s prefix)
              (run_optional runner (inspect_args image prefix) w).1).1)

  probe_findings_none :
      (r : CommandResult)
      → nonempty (probe_findings r) ≡ false
      → (r.returncode ≡ 0) × (mentions_gfx1151 (combined_output r) ≡ true)
  probe_findings_none r h = ground arith

  run_container_probe-IsProbed :
      (s : HostSnapshot) (image : String) (prefix : List String) (w : W)
      → nonempty (run_container_probe runner s image prefix w).0 ≡ false
      → IsProbed s image prefix w (run_container_probe runner s image prefix w).1
  unfolding run_container_probe
  run_container_probe-IsProbed s image prefix w h = ground (
    arith,
    probe_findings_none
        (run_optional runner (build_probe_argv image s prefix)
          (run_optional runner (inspect_args image prefix) w).1).0,
  )

  not_blocked :
      (host : Report) (findings : List Finding)
      → (with_probe runner host findings).status ≢ Status.blocked
      → (nonempty findings ≡ false) × (status_eq host.status Status.blocked ≡ false)
  not_blocked host findings h = ground arith

  -- When the verification of a host does not block it, the host's own report did not block it, the image
  -- was there, both devices were mapped, and the probe in the container exited with 0 and reported
  -- gfx1151; the inspection and the probe are the only commands that ran.
  pub verify_host-IsProbed :
      (tested : List String) (now : String) (s : HostSnapshot) (image : String)
      (prefix : List String) (w : W)
      → (verify_host runner tested now s image prefix w).0.status ≢ Status.blocked
      → ((evaluate_post_reboot tested now s).status ≢ Status.blocked)
        × IsProbed s image prefix w (verify_host runner tested now s image prefix w).1
  unfolding verify_host
  verify_host-IsProbed tested now s image prefix w h = probed (evaluate_post_reboot tested now s) h
    where
      probed :
          (host : Report)
          → (with_probe runner host
              (probe_unless_blocked runner host.status s image prefix w).0).status
            ≢ Status.blocked
          → (host.status ≢ Status.blocked)
            × IsProbed s image prefix w (probe_unless_blocked runner host.status s image prefix w).1
      probed host k = ground (
        arith,
        not_blocked host (probe_unless_blocked runner host.status s image prefix w).0 k,
        run_container_probe-IsProbed s image prefix w,
      )
