-- ===== src/Installer/Workflow/Stage.antt =====
-- One round of the loop over the stages (`_run_stages`, `_rerun_completed_guard` in workflow.py).
use Prim.Native.String.{◌++◌}
use strix_halo_rocm_toolkit.Prelude.{
  on_option, ℕ, suc, String, Bool, true, false, not, ◌&&◌, Option, none, some, List, [], ◌∷◌,
  length, or_text, opt_text_eq, if◌then◌else◌,
}
use strix_halo_rocm_toolkit.Results.{on_result}
use strix_halo_rocm_toolkit.Exec.{pure, raise, attempt, ◌>>=◌, ◌>>◌}
use strix_halo_rocm_toolkit.Report.{Status, status_value, status_eq}
use strix_halo_rocm_toolkit.Installer.Stages.{InstallStage, stage_value, stage_eq}
use strix_halo_rocm_toolkit.Installer.Models.{
  InstallOptions, InstallState, Output, StageResult, is_completed,
}
use strix_halo_rocm_toolkit.Installer.Workflow.Session.{
  set_position, Failure, interrupted, known, failure_text, StageInputs, StagePosition,
  WorkflowResult, ProgressOutcome, stage_candidate, stage_skipped, stage_started, stage_passed,
  detail, debug, status, Env, Method, tell, save_state,
}
use strix_halo_rocm_toolkit.Installer.Workflow.Transition.{checkpoint, record_reports}
use strix_halo_rocm_toolkit.Installer.Workflow.Inputs.{stage_inputs, validate_completed_stage}
use strix_halo_rocm_toolkit.Installer.Workflow.Plans.{
  workflow_error, disk_requirement, report_disk_requirement, require_disk_space,
}
use strix_halo_rocm_toolkit.Installer.Workflow.Outcome.{stage_result, apply_output}
use strix_halo_rocm_toolkit.Installer.Workflow.Dispatch.{dispatch}

-- A round ends with the state to go on with, or with the result of the run.
pub data Control : Type 0 where
  proceed : InstallState → Control
  stop : WorkflowResult → Control

abbrev pub on_control : {A : Type 0} → Control → (InstallState → A) → (WorkflowResult → A) → A
on_control (proceed st) f g = f st
on_control (stop r) f g = g r

abbrev pub ended_with : ℕ → InstallState → String → ProgressOutcome → Control
ended_with code st message outcome =
    stop
      (record { exit_code = code; state = some st; message = message; progress_outcome = outcome })

-- The result for an exception of a stage's action.
unfoldable pub dispatch_failed : InstallStage → InstallState → Failure → Control
dispatch_failed stage st interrupted =
    ended_with 1 st (stage_value stage ++ " interrupted") ProgressOutcome.action
dispatch_failed stage st error =
    ended_with 2 st (stage_value stage ++ " failed: " ++ failure_text error) ProgressOutcome.failure

-- The stages that are verified again although they are completed.
abbrev pub is_guard : InstallStage → Bool
is_guard InstallStage.kernel_verify = true
is_guard InstallStage.host_verify = true
is_guard _ = false

abbrev pub is_unverified_host : InstallStage → Output → Bool
is_unverified_host InstallStage.host_verify (Output.report r) = status_eq r.status Status.unverified
is_unverified_host _ _ = false

abbrev is_reboot_pending : InstallStage → Bool
is_reboot_pending InstallStage.kernel_reboot_pending = true
is_reboot_pending _ = false

-- `f"{kernel}"`, for a kernel that may be `None`
abbrev pub kernel_text : Option String → String
kernel_text none = "None"
kernel_text (some kernel) = kernel

-- `order[index + 1] if index + 1 < len(order) else stage`
abbrev pub following : InstallStage → List InstallStage → InstallStage
following stage [] = stage
following stage (next ∷ _) = next

abbrev pub completed_message : InstallState → String
completed_message st =
    "installation complete"
    ++ (if opt_text_eq st.host_verification_status (some (status_value Status.unverified))
        then "; host remains unverified on "
          ++ kernel_text st.host_kernel
          ++ "; run the displayed full qualification before release promotion"
        else "")

module _ {W : Type 0} (env : Env W) (o : InstallOptions) where
  abbrev pub save : InstallState → Method W (Unit {0})
  save st = save_state env o.state_path st

  -- A blocked stage: the findings of its report are kept.
  abbrev pub apply_report :
      InstallState → InstallStage → Output → StageResult → Method W InstallState
  apply_report st stage (Output.report r) outcome =
      apply_output env o st stage (Output.report r) outcome
  apply_report st stage _ outcome = pure st

  unfoldable pub stop_blocked :
      InstallStage → InstallState → Output → StageResult → Method W Control
  stop_blocked stage st output outcome = apply_report st stage output outcome >>= λ st1.
      record_reports env st1 outcome >>= λ st2.
      save st2
      >> pure (
          ended_with 2 st2 (or_text outcome.message (stage_value stage ++ " is blocked"))
            ProgressOutcome.blocked)

  abbrev pub warn_unverified : InstallStage → Output → StageResult → Method W (Unit {0})
  warn_unverified stage output outcome =
      if is_unverified_host stage output then tell env (status "WARN" outcome.message) else pure tt

  abbrev pub pass_guard :
      InstallStage → StagePosition → InstallState → Output → StageResult → Method W Control
  pass_guard stage position st output outcome =
      apply_output env o st stage output outcome >>= λ st1.
      record_reports env st1 outcome >>= λ st2.
      save st2
      >> tell env (stage_passed position)
      >> warn_unverified stage output outcome
      >> pure (proceed st2)

  -- `_rerun_completed_guard`
  unfoldable pub rerun_completed_guard :
      InstallStage → StagePosition → InstallState → Method W Control
  unfolding stop_blocked
  rerun_completed_guard stage position st =
      tell env (stage_started position) >> attempt (dispatch env o stage st) >>= λ result.
      on_result result
        (λ output. stage_result env o stage output >>= λ outcome.
          if outcome.blocked
          then stop_blocked stage st output outcome
          else pass_guard stage position st output outcome)
        (λ e. pure (dispatch_failed stage st e))

  -- A completed stage: its inputs have not changed; a guard is verified again.
  unfoldable pub resume_stage : InstallStage → StagePosition → InstallState → Method W Control
  unfolding rerun_completed_guard
  resume_stage stage position st = stage_inputs env o stage st >>= λ inputs.
      validate_completed_stage env o st stage inputs
      >> (if is_guard stage
          then rerun_completed_guard stage position st
          else tell env (stage_skipped position) >> pure (proceed st))

  abbrev pub report_release : Output → Method W (Unit {0})
  report_release (Output.release r) =
      tell env (detail ("stable release=" ++ r.release_id))
      >> tell env (
          debug (
            "base reference=" ++ r.base.image ++ "@" ++ r.base.manifest_digest
            ++ " manifest_digest=" ++ r.base.manifest_digest ++ " config_digest="
            ++ r.base.config_digest))
      >> tell env (
          debug (
            "torch reference=" ++ r.torch.image ++ "@" ++ r.torch.manifest_digest
            ++ " manifest_digest=" ++ r.torch.manifest_digest ++ " config_digest="
            ++ r.torch.config_digest))
  report_release _ = raise (workflow_error "release action returned an invalid value")

  abbrev pub report_if_release : InstallStage → Output → Method W (Unit {0})
  report_if_release InstallStage.release_resolve output = report_release output
  report_if_release _ output = pure tt

  -- A stage that passed: its changes and its checkpoint are saved together.
  unfoldable pub finish_stage :
      InstallStage
      → StagePosition
      → InstallStage
      → InstallState
      → StageInputs
      → Output
      → StageResult
      → Method W Control
  finish_stage stage position next_stage st inputs output outcome =
      apply_output env o st stage output outcome >>= λ st1.
      report_if_release stage output >> checkpoint env st1 stage inputs next_stage >>= λ st2.
      save st2
      >> tell env (stage_passed position)
      >> warn_unverified stage output outcome
      >> pure (
          if outcome.action_required
          then ended_with 1 st2
              (or_text outcome.message (stage_value stage ++ " requires operator action"))
              ProgressOutcome.action
          else proceed st2)

  abbrev pub wait_for_reboot : InstallState → StageResult → Method W Control
  wait_for_reboot st outcome = record_reports env st outcome >>= λ st1.
      save st1
      >> pure (
          ended_with 1 st1 (or_text outcome.message "manual reboot is required")
            ProgressOutcome.action)

  unfoldable pub judge_stage :
      InstallStage
      → StagePosition
      → InstallStage
      → InstallState
      → StageInputs
      → Output
      → Method W Control
  unfolding stop_blocked finish_stage
  judge_stage stage position next_stage st inputs output =
      stage_result env o stage output >>= λ outcome.
      if outcome.blocked
      then stop_blocked stage st output outcome
      else (if is_reboot_pending stage && outcome.action_required
          then wait_for_reboot st outcome
          else finish_stage stage position next_stage st inputs output outcome)

  -- The disk space that a stage needs: the message of a shortage, if there is one.
  unfoldable pub check_disk : InstallStage → InstallState → Method W (Option String)
  check_disk stage st = disk_requirement env o stage st >>= λ requirement.
      on_option requirement (pure none)
        (λ r. report_disk_requirement env o r >> pure (require_disk_space env o r))

  -- A stage that is not completed.
  unfoldable pub perform_stage :
      InstallStage → StagePosition → InstallStage → InstallState → Method W Control
  unfolding check_disk judge_stage
  perform_stage stage position next_stage st =
      if not (stage_eq st.current_stage stage)
      then raise (
          known (
            "illegal installer transition: state="
            ++ stage_value st.current_stage
            ++ ", next="
            ++ stage_value stage))
      else (tell env (stage_started position) >> stage_inputs env o stage st >>= λ inputs.
          check_disk stage st >>= λ shortage.
          on_option shortage
            (attempt (dispatch env o stage st) >>= λ result.
              on_result result (λ output. judge_stage stage position next_stage st inputs output)
                (λ e. pure (dispatch_failed stage st e)))
            (λ message. pure (ended_with 2 st message ProgressOutcome.failure)))

  -- The body of the loop.
  unfoldable pub run_stage :
      InstallStage → StagePosition → InstallStage → InstallState → Method W Control
  unfolding resume_stage perform_stage
  run_stage stage position next_stage st =
      set_position position
      >> tell env (stage_candidate position)
      >> (if is_completed stage st.completed
          then resume_stage stage position st
          else perform_stage stage position next_stage st)

  -- `_run_stages`: the stages from one of them on, `index` stages behind it.
  unfoldable pub run_from : ℕ → ℕ → List InstallStage → InstallState → Method W WorkflowResult
  unfolding run_stage
  run_from total index [] st = pure (record {
    exit_code = 0;
    state = some st;
    message = completed_message st;
    progress_outcome = ProgressOutcome.success;
  })
  run_from total index (stage ∷ rest) st =
      run_stage stage (record { stage = stage; index = suc index; total = total })
        (following stage rest) st
      >>= λ control.
          on_control control (λ st1. run_from total (suc index) rest st1) (λ result. pure result)

  unfoldable pub run_stages : List InstallStage → InstallState → Method W WorkflowResult
  unfolding run_from
  run_stages order st = run_from (length order) 0 order st
