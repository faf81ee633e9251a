-- ===== src/Installer/Workflow/Outcome.antt =====
-- How the output of a stage is judged and what it changes in the state (`_stage_result` and
-- `_apply_output` in workflow.py).
use Prim.Native.String.{◌++◌}
use Prim.Native.Char.{code}
use mathlib.Core.List.{◌++◌ as append}
use strix_halo_rocm_toolkit.Prelude.{
  on_option, ℕ, leb, String, Bool, true, false, not, ◌&&◌, ◌||◌, Option, none, some, List, [], ◌∷◌,
  map, str_eq, codes, length, all, text_in, ◌==◌, if◌then◌else◌,
}
use strix_halo_rocm_toolkit.Results.{Result, ok, err, or_raise}
use strix_halo_rocm_toolkit.Exec.{pure, raise, lift, ◌>>=◌}
use strix_halo_rocm_toolkit.Report.{Finding, Report, Status, status_value, status_eq}
use strix_halo_rocm_toolkit.Installer.Stages.{InstallMode, InstallStage, mode_eq}
use strix_halo_rocm_toolkit.Installer.Models.{
  InstallOptions, InstallState, StageResult, plain_result, Output, is_kernel_phase, image_reference,
}
use strix_halo_rocm_toolkit.Installer.Workflow.Session.{Failure, Env, Method, call}
use strix_halo_rocm_toolkit.Installer.Workflow.Construction.{constructed}
use strix_halo_rocm_toolkit.Installer.Workflow.Transition.{from_keys}
use strix_halo_rocm_toolkit.Installer.Workflow.Plans.{workflow_error, resolved_kernel_plan}

is_letter_or_digit : ℕ → Bool
is_letter_or_digit c =
    (leb b'0' c && leb c b'9') || (leb b'A' c && leb c b'Z') || (leb b'a' c && leb c b'z')

-- `[0-9A-Za-z][0-9A-Za-z.+_-]{0,127}`
unfoldable pub is_kernel_name : List ℕ → Bool
unfolding is_letter_or_digit
is_kernel_name [] = false
is_kernel_name (c ∷ cs) =
    is_letter_or_digit c
    && all (λ d. is_letter_or_digit d || d == b'.' || d == b'+' || d == b'_' || d == b'-') cs
    && leb (length cs) 127

-- `_report_kernel`
unfoldable pub report_kernel : Report → String → Result Failure String
report_kernel report label = elim (report.kernel_fact) [
  | none ↦ err (workflow_error (label ++ " report has no valid kernel identity"))
  | some kernel ↦
      if is_kernel_name (codes kernel)
      then ok kernel
      else err (workflow_error (label ++ " report has no valid kernel identity"))
]

-- `separator.join(texts)`
abbrev pub join : String → List String → String
join separator [] = ""
join separator (s ∷ []) = s
join separator (s ∷ t ∷ ts) = s ++ separator ++ join separator (t ∷ ts)

-- `_report_finding_message`
unfoldable pub report_finding_message : Report → String
report_finding_message report = elim (report.findings) [
  | [] ↦ "no diagnostic findings were returned"
  | f ∷ fs ↦ join " | " (
      map (λ (x : Finding). x.code ++ ": " ++ x.summary ++ "; action: " ++ x.remediation)
        report.findings)
]

-- What follows the last `@`, if there is one.
abbrev after_last_at : String → Option String
after_last_at String.[] = none
after_last_at (String.◌∷◌ c s) = elim (after_last_at s) [
  | some rest ↦ some rest
  | none ↦ if code c == b'@' then some s else none
]

-- `_reference_digest`
unfoldable pub reference_digest : String → Result Failure String
reference_digest reference = elim (after_last_at reference) [
  | none ↦ err (workflow_error ("verified image reference has no manifest digest: " ++ reference))
  | some digest ↦
      if str_eq digest ""
      then err (workflow_error ("verified image reference has no manifest digest: " ++ reference))
      else ok digest
]

-- `known not in (None, adapter)`
abbrev pub adapter_changed : Option String → String → Bool
adapter_changed none adapter = false
adapter_changed (some known_adapter) adapter = not (str_eq known_adapter adapter)

-- `adapter in adapters`, for an adapter that may be `None`
abbrev pub adapter_supported : Option String → List String → Bool
adapter_supported none adapters = false
adapter_supported (some adapter) adapters = text_in adapter adapters

-- Whether the status of a report stops a stage.
unfoldable pub report_blocks : InstallStage → Status → Bool
report_blocks InstallStage.host_preflight status = status_eq status Status.blocked
report_blocks InstallStage.kernel_verify status = not (status_eq status Status.pass)
report_blocks InstallStage.host_verify status =
    not (status_eq status Status.pass || status_eq status Status.unverified)
report_blocks _ status = false

abbrev pub is_host_verify : InstallStage → Bool
is_host_verify InstallStage.host_verify = true
is_host_verify _ = false

abbrev is_kernel_verify : InstallStage → Bool
is_kernel_verify InstallStage.kernel_verify = true
is_kernel_verify _ = false

module _ {W : Type 0} (env : Env W) (o : InstallOptions) where
  -- `_unverified_host_message`
  abbrev unverified_host_message : Report → String → String
  unverified_host_message report kernel =
      "HOST_VERIFY unverified on "
      ++ kernel
      ++ " ("
      ++ join "," (map (λ (x : Finding). x.code) report.findings)
      ++ "); post-reboot host checks passed, so installation will continue; IMAGE_VERIFY will "
      ++ "still enforce the gfx1151 GPU runtime. Optional full qualification after image "
      ++ "acquisition and before release promotion: sudo -v && "
      ++ env.shell_join (
          (o.source_root ++ "/bin/container-check")
          ∷ "--suite"
          ∷ "stable"
          ∷ "--profile"
          ∷ (o.source_root ++ "/profiles/qualification/stable.toml")
          ∷ "--json"
          ∷ (o.source_root ++ "/reports/qualification-" ++ kernel ++ ".json")
          ∷ [])

  abbrev report_message : InstallStage → Report → Method W String
  report_message stage report =
      if is_host_verify stage && status_eq report.status Status.unverified
      then (lift (report_kernel report "host verification") >>= λ kernel.
          pure (unverified_host_message report kernel))
      else (if is_kernel_verify stage && report_blocks stage report.status
          then pure (
              "kernel verification failed; reboot and select the retained recovery kernel under "
              ++ "Advanced options for Ubuntu, then inspect the current-boot amdgpu log; "
              ++ report_finding_message report)
          else (if report_blocks stage report.status
              then pure (
                  report.command
                  ++ " returned "
                  ++ status_value report.status
                  ++ "; "
                  ++ report_finding_message report)
              else pure ""))

  abbrev hook_result : InstallStage → Output → Method W StageResult
  hook_result stage output = on_option (env.result_hook) (pure plain_result) (λ hook.
      call (hook stage output) >>= λ answer.
      lift (or_raise answer (workflow_error "action stage_result returned an invalid value")))

  -- `_stage_result`
  unfoldable pub stage_result : InstallStage → Output → Method W StageResult
  stage_result stage (Output.result r) = pure r
  stage_result stage (Output.confirmation c) =
      pure (record plain_result { blocked = not c.accepted; message = c.message })
  stage_result stage (Output.report report) = report_message stage report >>= λ message.
      pure (record plain_result { blocked = report_blocks stage report.status; message = message })
  stage_result stage (Output.host_plan p) = hook_result stage (Output.host_plan p)
  stage_result stage (Output.release r) = hook_result stage (Output.release r)
  stage_result stage (Output.images i) = hook_result stage (Output.images i)
  stage_result stage (Output.local_build b) = hook_result stage (Output.local_build b)
  stage_result stage Output.other = hook_result stage Output.other

  abbrev finding_codes : Report → List String
  finding_codes report = map (λ (x : Finding). x.code) report.findings

  abbrev pub apply_kernel_plan : InstallState → Output → Method W InstallState
  apply_kernel_plan st (Output.host_plan p) =
      if not (is_kernel_phase p.plan.phase)
      then raise (workflow_error "kernel plan action returned the wrong phase")
      else pure (record st {
        kernel_plan_digest = some p.plan_digest;
        host_adapter_id = some p.adapter_id;
      })
  apply_kernel_plan st _ = raise (workflow_error "kernel plan action returned an invalid value")

  abbrev pub apply_host_plan : InstallState → Output → Method W InstallState
  apply_host_plan st (Output.host_plan p) =
      if is_kernel_phase p.plan.phase
      then raise (workflow_error "host plan action returned the wrong phase")
      else (if adapter_changed st.host_adapter_id p.adapter_id
          then raise (workflow_error "host adapter changed between plan phases")
          else pure (record st {
            host_plan_digest = some p.plan_digest;
            host_adapter_id = some p.adapter_id;
          }))
  apply_host_plan st _ = raise (workflow_error "host plan action returned an invalid value")

  abbrev pub apply_release : InstallState → Output → Method W InstallState
  apply_release st (Output.release r) =
      if mode_eq o.mode InstallMode.full
        && not (adapter_supported st.host_adapter_id r.supported_host_adapter_ids)
      then raise (workflow_error "stable release does not support the applied host adapter")
      else pure (record st {
        release_id = some r.release_id;
        source_revision = some r.source_revision;
        base_image_reference = some (image_reference r.base);
        base_manifest_digest = some r.base.manifest_digest;
        base_config_digest = some r.base.config_digest;
        torch_image_reference = some (image_reference r.torch);
        torch_manifest_digest = some r.torch.manifest_digest;
        torch_config_digest = some r.torch.config_digest;
      })
  apply_release st _ = raise (workflow_error "release action returned an invalid value")

  abbrev pub apply_images : InstallState → Output → Method W InstallState
  apply_images st (Output.images v) = lift (reference_digest v.base.reference) >>= λ base_digest.
      lift (reference_digest v.torch.reference) >>= λ torch_digest. pure (record st {
        base_image_reference = some v.base.reference;
        base_manifest_digest = some base_digest;
        base_config_digest = some v.base.config_digest;
        torch_image_reference = some v.torch.reference;
        torch_manifest_digest = some torch_digest;
        torch_config_digest = some v.torch.config_digest;
      })
  apply_images st (Output.local_build b) = pure (record st {
    release_id = some "local";
    base_image_reference = some b.base_reference;
    base_manifest_digest = some b.base_reference;
    base_config_digest = some b.base_config_digest;
    torch_image_reference = some b.torch_reference;
    torch_manifest_digest = some b.torch_reference;
    torch_config_digest = some b.torch_config_digest;
  })
  apply_images st _ = pure st

  abbrev pub apply_kernel_report : InstallState → Output → Method W InstallState
  apply_kernel_report st (Output.report r) =
      lift (report_kernel r "kernel verification") >>= λ kernel. pure (record st {
        kernel_verification_status = some (status_value r.status);
        kernel_kernel = some kernel;
        kernel_verification_findings = finding_codes r;
      })
  apply_kernel_report st _ = pure st

  abbrev pub apply_host_report : InstallState → Output → Method W InstallState
  apply_host_report st (Output.report r) = lift (report_kernel r "host verification") >>= λ kernel.
      pure (record st {
        host_verification_status = some (status_value r.status);
        host_kernel = some kernel;
        host_verification_findings = finding_codes r;
      })
  apply_host_report st _ = pure st

  abbrev pub apply_confirmation : InstallState → Output → Method W InstallState
  apply_confirmation st (Output.confirmation c) =
      pure (record st { docker_group_accepted = c.docker_group_accepted })
  apply_confirmation st _ = raise (workflow_error "host confirmation returned an invalid value")

  -- The boot ID is read when the plan wants a reboot.
  abbrev pub boot_id_for : Bool → Method W (Option String)
  boot_id_for true = call (env.read_boot_id) >>= λ boot_id. pure (some boot_id)
  boot_id_for false = pure none

  abbrev pub apply_kernel_apply : InstallState → Method W InstallState
  apply_kernel_apply st = resolved_kernel_plan env o st >>= λ plan.
      boot_id_for plan.plan.reboot_required >>= λ boot_id. pure (record st {
        kernel_reboot_boot_id = boot_id;
        recovery_kernel = some plan.running_kernel;
        display_manager_was_loaded = plan.display_manager_loaded;
        display_manager_was_active = plan.display_manager_active;
      })

  -- The state with the changes of one stage.
  unfoldable pub apply_changes : InstallStage → InstallState → Output → Method W InstallState
  apply_changes InstallStage.bootstrap st output = pure (record st {
    installer_version = env.installer_version;
    installer_source_revision = env.installer_source_revision;
    source_root = o.source_root;
  })
  apply_changes InstallStage.kernel_plan st output = apply_kernel_plan st output
  apply_changes InstallStage.kernel_apply st output = apply_kernel_apply st
  apply_changes InstallStage.kernel_verify st output = apply_kernel_report st output
  apply_changes InstallStage.host_plan st output = apply_host_plan st output
  apply_changes InstallStage.host_confirm st output = apply_confirmation st output
  apply_changes InstallStage.host_verify st output = apply_host_report st output
  apply_changes InstallStage.release_resolve st output = apply_release st output
  apply_changes InstallStage.image_pull_or_build st output = apply_images st output
  apply_changes _ st output = pure st

  -- `_apply_output`
  unfoldable pub apply_output :
      InstallState → InstallStage → Output → StageResult → Method W InstallState
  unfolding apply_changes
  apply_output st stage output outcome = apply_changes stage st output >>= λ changed.
      constructed env (record changed {
        last_report_paths = from_keys [] (append st.last_report_paths outcome.report_paths);
      })
