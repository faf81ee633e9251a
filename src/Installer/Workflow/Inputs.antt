-- ===== src/Installer/Workflow/Inputs.antt =====
-- What identifies the inputs of a stage, and the check of a completed stage against them
-- (`_stage_inputs` in workflow.py, `validate_completed_stage` in state.py). The digest sorts the
-- keys, so the order in which they are listed here is immaterial.
use Prim.Native.String.{◌++◌}
use mathlib.Core.List.{◌++◌ as append}
use strix_halo_rocm_toolkit.Prelude.{
  on_option, String, Bool, Option, none, some, [], ◌∷◌, str_eq, if◌then◌else◌, true, false,
}
use strix_halo_rocm_toolkit.Results.{or_raise}
use strix_halo_rocm_toolkit.Exec.{pure, raise, lift, ◌>>=◌}
use strix_halo_rocm_toolkit.Installer.Stages.{InstallStage, stage_value, mode_value}
use strix_halo_rocm_toolkit.Installer.Models.{
  InstallOptions, InstallState, HostPlanPhase, phase_value, image_reference, digest_of,
}
use strix_halo_rocm_toolkit.Installer.Workflow.Session.{
  unexpected, resume_changed, InputValue, text, null, flag, observed, StageInputs, Env, Method,
  call,
}

-- A text or `None`.
abbrev pub opt : Option String → InputValue
opt none = null
opt (some s) = text s

-- `self.options.image_source or "pull"`
abbrev pub source_or_pull : Option String → String
source_or_pull none = "pull"
source_or_pull (some s) = if str_eq s "" then "pull" else s

-- A value that is given only in a non-interactive run.
abbrev pub if_non_interactive : InstallOptions → InputValue → InputValue
if_non_interactive o v = if o.non_interactive then v else null

module _ {W : Type 0} (env : Env W) (o : InstallOptions) where
  -- `assert self.options.project_dir is not None`
  abbrev pub the_project_dir : Method W String
  the_project_dir = lift (or_raise o.project_dir (unexpected ""))

  abbrev kernel_inputs : InstallState → StageInputs
  kernel_inputs st =
      ("kernel_plan_digest", opt st.kernel_plan_digest)
      ∷ ("host_adapter_id", opt st.host_adapter_id)
      ∷ ("kernel_reboot_boot_id", opt st.kernel_reboot_boot_id)
      ∷ ("recovery_kernel", opt st.recovery_kernel)
      ∷ ("display_manager_was_loaded", flag st.display_manager_was_loaded)
      ∷ ("display_manager_was_active", flag st.display_manager_was_active)
      ∷ []

  abbrev project_inputs : String → InstallState → Method W StageInputs
  project_inputs dir st = call (env.file_digest (dir ++ "/amd-ai-project.toml")) >>= λ digest.
      pure (
        ("project_path", text dir)
        ∷ ("project_config_digest", opt digest)
        ∷ ("torch_manifest_digest", opt st.torch_manifest_digest)
        ∷ [])

  -- The values that the branches of `_stage_inputs` add.
  unfoldable pub inputs_of : String → InstallStage → InstallState → Method W StageInputs
  inputs_of dir InstallStage.bootstrap st = pure (
      ("installer_version", text env.installer_version)
      ∷ ("installer_source_revision", text env.installer_source_revision)
      ∷ ("source_root", text o.source_root)
      ∷ ("project_path", text dir)
      ∷ ("project_name", text o.project_name)
      ∷ ("target_user", opt o.target_user)
      ∷ [])
  inputs_of dir InstallStage.host_preflight st = pure (("target_user", opt st.target_user) ∷ [])
  inputs_of dir InstallStage.container_host_check st =
      pure (("target_user", opt st.target_user) ∷ [])
  inputs_of dir InstallStage.kernel_plan st = pure (
      ("target_user", opt st.target_user) ∷ ("phase", text (phase_value HostPlanPhase.kernel)) ∷ [])
  inputs_of dir InstallStage.kernel_confirm st = pure (
      ("kernel_plan_digest", opt st.kernel_plan_digest)
      ∷ ("non_interactive", flag o.non_interactive)
      ∷ ("accepted_kernel_plan_digest", if_non_interactive o (opt o.accepted_kernel_plan_digest))
      ∷ [])
  inputs_of dir InstallStage.kernel_apply st = pure (
      ("kernel_plan_digest", opt st.kernel_plan_digest)
      ∷ ("host_adapter_id", opt st.host_adapter_id)
      ∷ [])
  inputs_of dir InstallStage.kernel_reboot_pending st = pure (kernel_inputs st)
  inputs_of dir InstallStage.kernel_verify st = pure (kernel_inputs st)
  inputs_of dir InstallStage.host_plan st = pure (
      ("target_user", opt st.target_user)
      ∷ ("phase", text (phase_value HostPlanPhase.tuning))
      ∷ ("kernel_verification_status", opt st.kernel_verification_status)
      ∷ ("kernel_kernel", opt st.kernel_kernel)
      ∷ [])
  inputs_of dir InstallStage.host_confirm st = pure (
      ("host_plan_digest", opt st.host_plan_digest)
      ∷ ("non_interactive", flag o.non_interactive)
      ∷ ("accepted_host_plan_digest", if_non_interactive o (opt o.accepted_host_plan_digest))
      ∷ ("accept_docker_group", if_non_interactive o (flag o.accept_docker_group))
      ∷ [])
  inputs_of dir InstallStage.host_apply st = pure (
      ("host_plan_digest", opt st.host_plan_digest)
      ∷ ("host_adapter_id", opt st.host_adapter_id)
      ∷ ("docker_group_accepted", flag st.docker_group_accepted)
      ∷ [])
  inputs_of dir InstallStage.host_verify st = pure (
      ("host_plan_digest", opt st.host_plan_digest)
      ∷ ("host_adapter_id", opt st.host_adapter_id)
      ∷ [])
  inputs_of dir InstallStage.release_resolve st =
      call (env.file_digest o.stable_manifest_path) >>= λ digest. pure (
        ("manifest_path", text o.stable_manifest_path)
        ∷ ("manifest_file_digest", opt digest)
        ∷ ("host_plan_digest", opt st.host_plan_digest)
        ∷ [])
  inputs_of dir InstallStage.image_pull_or_build st =
      call (env.load_release o.stable_manifest_path) >>= λ release. pure (
        ("release_id", text release.release_id)
        ∷ ("source_revision", text release.source_revision)
        ∷ ("base_reference", text (image_reference release.base))
        ∷ ("base_manifest_digest", text release.base.manifest_digest)
        ∷ ("base_config_digest", text release.base.config_digest)
        ∷ ("torch_reference", text (image_reference release.torch))
        ∷ ("torch_manifest_digest", text release.torch.manifest_digest)
        ∷ ("torch_config_digest", text release.torch.config_digest)
        ∷ ("image_source", text (source_or_pull o.image_source))
        ∷ [])
  inputs_of dir InstallStage.image_verify st = pure (
      ("torch_reference", opt st.torch_image_reference)
      ∷ ("torch_manifest_digest", opt st.torch_manifest_digest)
      ∷ ("torch_config_digest", opt st.torch_config_digest)
      ∷ [])
  inputs_of dir InstallStage.project_init st = pure (
      ("project_path", text dir)
      ∷ ("project_name", text o.project_name)
      ∷ ("torch_reference", opt st.torch_image_reference)
      ∷ ("torch_manifest_digest", opt st.torch_manifest_digest)
      ∷ ("torch_config_digest", opt st.torch_config_digest)
      ∷ [])
  inputs_of dir InstallStage.project_verify st = project_inputs dir st
  inputs_of dir InstallStage.complete st = project_inputs dir st

  -- `_stage_inputs`
  unfoldable pub stage_inputs : InstallStage → InstallState → Method W StageInputs
  unfolding inputs_of
  stage_inputs stage st = the_project_dir >>= λ dir. inputs_of dir stage st >>= λ values.
      call (env.observe stage st) >>= λ seen. pure (
        ("stage", text (stage_value stage))
        ∷ ("mode", text (mode_value o.mode))
        ∷ append values (("observed", observed seen) ∷ []))

  -- `validate_completed_stage`: whether the stage is completed; a stage that was completed with
  -- other inputs stops the run.
  unfoldable pub validate_completed_stage :
      InstallState → InstallStage → StageInputs → Method W Bool
  validate_completed_stage st stage inputs =
      on_option (digest_of stage st.completed) (pure false) (λ expected.
        if str_eq (env.input_digest inputs) expected
        then pure true
        else raise (resume_changed stage expected (env.input_digest inputs)))
