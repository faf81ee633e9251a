-- ===== src/Installer/Workflow/Run.antt =====
-- A whole run of the workflow (`InstallerWorkflow.run` in workflow.py): the locks, the loaded state,
-- the stages, and the report of the end.
use Prim.Native.String.{◌++◌}
use strix_halo_rocm_toolkit.Prelude.{
  on_option, ℕ, suc, String, Bool, true, false, Option, none, some, List, [], ◌∷◌, length, str_eq,
  if◌then◌else◌,
}
use strix_halo_rocm_toolkit.Results.{on_result, Result, ok, err}
use strix_halo_rocm_toolkit.Exec.{
  pure, raise, lift, gets, modify, attempt, try_finally, ◌>>=◌, ◌>>◌,
}
use strix_halo_rocm_toolkit.Installer.Stages.{InstallStage, stage_value}
use strix_halo_rocm_toolkit.Installer.Models.{InstallOptions, InstallState}
use strix_halo_rocm_toolkit.Installer.Registry.{registry_plan_label}
use strix_halo_rocm_toolkit.Installer.Workflow.Session.{
  StagePosition, set_position, Failure, interrupted, resume_changed, release_identity,
  release_acquisition, known, unexpected, failure_text, WorkflowResult, ProgressOutcome,
  open_session, session_plan, stage_candidate, status, installation_finished, fallback_failure,
  close, Env, Method, call, tell, now, save_state, load_state,
}
use strix_halo_rocm_toolkit.Installer.Workflow.Construction.{constructed}
use strix_halo_rocm_toolkit.Installer.Workflow.Transition.{
  stage_order, next_incomplete, validate_transition,
}
use strix_halo_rocm_toolkit.Installer.Workflow.Inputs.{source_or_pull}
use strix_halo_rocm_toolkit.Installer.Workflow.Plans.{workflow_error, resolved_registry_policy}
use strix_halo_rocm_toolkit.Installer.Workflow.Dispatch.{from_registry}
use strix_halo_rocm_toolkit.Installer.Workflow.Update.{adopt_compatible_installer_update}
use strix_halo_rocm_toolkit.Installer.Workflow.Stage.{run_stages}
use strix_halo_rocm_toolkit.Installer.Workflow.Options.{
  is_hex_digest, validate_options, prepare_options, select_state_path,
}

abbrev pub first_stage : List InstallStage → InstallStage
first_stage [] = InstallStage.complete
first_stage (s ∷ _) = s

abbrev pub or_text : Option String → String → String
or_text none other = other
or_text (some s) other = if str_eq s "" then other else s

abbrev pub or_else : Option String → Option String → String → String
or_else first second third = or_text first (or_text second third)

-- The stages that a dry run announces as actions.
abbrev pub is_mutating : InstallStage → Bool
is_mutating InstallStage.kernel_apply = true
is_mutating InstallStage.host_apply = true
is_mutating InstallStage.image_pull_or_build = true
is_mutating InstallStage.image_verify = true
is_mutating InstallStage.project_init = true
is_mutating InstallStage.project_verify = true
is_mutating _ = false

-- `assert self.options.project_dir is not None`
abbrev pub project_of : Option String → Result Failure String
project_of none = err (unexpected "")
project_of (some project) = ok project

abbrev pub revision_test : String → Result Failure (Unit {0})
revision_test revision =
    if is_hex_digest 40 revision
    then ok tt
    else err (workflow_error "installer source revision is invalid")

module _ {W : Type 0} (env : Env W) where
  abbrev pub new_state_at : InstallOptions → String → String → String → InstallStage → InstallState
  new_state_at o project time user first = record {
    schema_version = 3;
    installer_version = env.installer_version;
    mode = o.mode;
    target_user = some user;
    release_id = none;
    source_revision = none;
    base_image_reference = none;
    base_manifest_digest = none;
    torch_image_reference = none;
    torch_manifest_digest = none;
    project_path = some project;
    current_stage = first;
    completed = [];
    reboot_boot_id = none;
    created_at = time;
    updated_at = time;
    installer_source_revision = env.installer_source_revision;
    source_root = o.source_root;
    host_plan_digest = none;
    host_adapter_id = none;
    docker_group_accepted = false;
    base_config_digest = none;
    torch_config_digest = none;
    last_report_paths = [];
    host_verification_status = none;
    host_kernel = none;
    host_verification_findings = [];
    kernel_plan_digest = none;
    kernel_reboot_boot_id = none;
    recovery_kernel = none;
    display_manager_was_loaded = false;
    display_manager_was_active = false;
    kernel_verification_status = none;
    kernel_kernel = none;
    kernel_verification_findings = [];
  }

  -- `_new_state`
  unfoldable pub new_state : InstallOptions → String → Method W InstallState
  new_state o project = now env >>= λ time.
      gets (λ s. or_else o.target_user (env.sudo_user s.world) (env.current_user s.world))
      >>= λ user. lift (stage_order o.mode) >>= λ order.
          constructed env (new_state_at o project time user (first_stage order))

  -- `_report_session_plan`
  unfoldable pub report_session_plan :
      InstallOptions → String → List InstallStage → InstallState → Method W (Unit {0})
  report_session_plan o project order st = resolved_registry_policy env o >>= λ policy.
      lift (from_registry (registry_plan_label o.registry policy)) >>= λ label.
      gets (λ s. s.state_source) >>= λ source. tell env (
        session_plan (record {
          mode = o.mode;
          project_dir = project;
          project_name = o.project_name;
          state_path = o.state_path;
          state_source = source;
          image_source = source_or_pull o.image_source;
          registry = o.registry;
          release_id = st.release_id;
          stages = order;
          first_incomplete = next_incomplete order st.completed;
          registry_label = label;
        }))

  unfoldable pub announce_stages : ℕ → ℕ → List InstallStage → Method W (Unit {0})
  announce_stages total index [] = pure tt
  announce_stages total index (stage ∷ rest) =
      let position : StagePosition = record { stage = stage; index = suc index; total = total } in
      set_position position
      >> tell env (stage_candidate position)
      >> tell env (
          status (if is_mutating stage then "ACTION" else "PASS") (
            "["
            ++ env.decimal (suc index)
            ++ "/"
            ++ env.decimal total
            ++ "] dry-run "
            ++ stage_value stage))
      >> announce_stages total (suc index) rest

  -- `_run_dry`
  unfoldable pub run_dry : List InstallStage → InstallState → Method W WorkflowResult
  unfolding announce_stages
  run_dry order st =
      announce_stages (length order) 0 order
      >> pure (record {
        exit_code = 0;
        state = some st;
        message = "dry-run complete; no stages persisted";
        progress_outcome = ProgressOutcome.success;
      })

  abbrev pub remember : InstallState → Method W (Unit {0})
  remember st = modify (λ s. record s { loaded = some st })

  -- A fresh state is saved, a loaded one may adopt an update; with whether it did.
  unfoldable pub resume_state :
      InstallOptions → String → Option InstallState → Method W (InstallState × Bool)
  unfolding new_state
  resume_state o project none = new_state o project >>= λ st.
      remember st
      >> (if o.dry_run then pure tt else save_state env o.state_path st)
      >> pure (st, false)
  resume_state o project (some st) =
      remember st
      >> (if o.dry_run then pure (st, false) else adopt_compatible_installer_update env o st)

  -- What happens under both locks.
  unfoldable pub run_locked : InstallOptions → String → Method W WorkflowResult
  unfolding resume_state report_session_plan run_dry
  run_locked o project = load_state env o.state_path >>= λ found.
      resume_state o project found >>= λ resumed.
      remember resumed.0
      >> lift (validate_transition o resumed.0)
      >> (if resumed.1 then save_state env o.state_path resumed.0 else pure tt)
      >> lift (stage_order o.mode)
      >>= λ order.
          report_session_plan o project order resumed.0
          >> (if o.dry_run then run_dry order resumed.0 else run_stages env o order resumed.0)

  -- `with install_lock(path): …`
  abbrev pub locked : {A : Type 0} → String → Method W A → Method W A
  locked path m = call (env.acquire_lock path) >> try_finally m (call (env.release_lock path))

  -- The body of the `try` of `run`.
  unfoldable pub run_body : Method W WorkflowResult
  unfolding run_locked
  run_body = prepare_options env >>= λ o. lift (project_of o.project_dir) >>= λ project.
      tell env (open_session project)
      >> lift (validate_options env o)
      >> call (env.load_registry (o.source_root ++ "/profiles/releases/registries.json"))
      >>= λ policy.
          modify (λ s. record s { registry_policy = some policy })
          >> lift (revision_test env.installer_source_revision)
          >> locked o.coordination_state_path (
              select_state_path env o project >>= λ selected.
              locked selected.state_path (run_locked selected project))

  abbrev pub failed : Option InstallState → ℕ → String → ProgressOutcome → WorkflowResult
  failed st code message outcome = record {
    exit_code = code;
    state = st;
    message = message;
    progress_outcome = outcome;
  }

  -- The `except` clauses of `run`.
  unfoldable pub result_of : InstallOptions → Option InstallState → Failure → WorkflowResult
  result_of o st interrupted = failed st 1 "installation interrupted" ProgressOutcome.action
  result_of o st (resume_changed s e a) =
      failed st 2 (failure_text (resume_changed s e a) ++ "; state: " ++ o.state_path)
        ProgressOutcome.failure
  result_of o st (known m) = failed st 2 m ProgressOutcome.failure
  result_of o st (unexpected m) = failed st 2 ("installer failed: " ++ m) ProgressOutcome.failure
  result_of o st (release_identity m) =
      failed st 2 ("installer failed: " ++ m) ProgressOutcome.failure
  result_of o st (release_acquisition m) =
      failed st 2 ("installer failed: " ++ m) ProgressOutcome.failure

  abbrev pub first_error : Result Failure (Unit {0}) → Result Failure (Unit {0}) → Option Failure
  first_error (err e) _ = some e
  first_error (ok _) (err e) = some e
  first_error (ok _) (ok _) = none

  abbrev pub with_progress_error : String → String → String
  with_progress_error message error = if str_eq message "" then error else message ++ "; " ++ error

  -- `try: … except Exception as error:`: an interruption is no `Exception`.
  abbrev pub reraise : {A : Type 0} → Result Failure A → Method W (Result Failure A)
  reraise (ok a) = pure (ok a)
  reraise (err interrupted) = raise interrupted
  reraise (err e) = pure (err e)

  abbrev pub attempt_error : {A : Type 0} → Method W A → Method W (Result Failure A)
  attempt_error m = attempt m >>= λ result. reraise result

  -- A reporter that failed turns the result into a failure.
  abbrev pub progress_failed : WorkflowResult → Failure → Method W WorkflowResult
  progress_failed result e =
      let message =
        with_progress_error result.message ("progress reporting failed: " ++ failure_text e) in
      attempt_error (tell env (fallback_failure message))
      >> pure (failed result.state 2 message ProgressOutcome.failure)

  -- `_finish_progress`
  unfoldable pub finish_progress : WorkflowResult → Method W WorkflowResult
  finish_progress result = gets (λ s. s.position) >>= λ position.
      attempt_error (tell env (installation_finished result position)) >>= λ finished.
      attempt_error (tell env close) >>= λ closed.
      on_option (first_error finished closed) (pure result) (λ e. progress_failed result e)

  abbrev pub finish_failed : Failure → Method W WorkflowResult
  finish_failed e = gets (λ s. result_of s.options s.loaded e) >>= λ result. finish_progress result

  -- `InstallerWorkflow.run`
  unfoldable pub run : Method W WorkflowResult
  unfolding run_body finish_progress
  run = attempt run_body >>= λ ended.
      on_result ended (λ result. finish_progress result) (λ e. finish_failed e)
