-- ===== src/Installer/Workflow/Session.antt =====
-- What a run of the workflow works on: the attributes of `InstallerWorkflow` that it changes, the
-- state files, and the rest of the world behind the actions, the prompts and the progress reporter.
use Prim.Native.String.{◌++◌}
use strix_halo_rocm_toolkit.Prelude.{
  ℕ, String, Bool, Option, none, some, List, str_eq, if◌then◌else◌, on_option,
}
use strix_halo_rocm_toolkit.Results.{Result, ok, err}
use strix_halo_rocm_toolkit.Exec.{Exec}
use strix_halo_rocm_toolkit.Installer.Stages.{InstallMode, InstallStage, stage_value}
use strix_halo_rocm_toolkit.Installer.Models.{
  InstallOptions, InstallState, HostPlanResult, HostPlanPhase, StableRelease, StageResult, Output,
  VerifiedReleaseImages, DiskSpaceEstimate,
}
use strix_halo_rocm_toolkit.Installer.Registry.{RegistryPolicy}

-- The exceptions that `run` and the stages tell apart. `known` stands for the error classes that
-- `run` names (corrupt state, already running, model, state, progress, prompt and workflow errors).
pub data Failure : Type 0 where
  interrupted : Failure
  resume_changed : InstallStage → String → String → Failure
  release_identity : String → Failure
  release_acquisition : String → Failure
  known : String → Failure
  unexpected : String → Failure

-- `str(error)`
abbrev pub failure_text : Failure → String
failure_text interrupted = ""
failure_text (resume_changed stage expected actual) =
    "completed stage inputs changed for "
    ++ stage_value stage
    ++ ": expected "
    ++ expected
    ++ ", got "
    ++ actual
failure_text (release_identity m) = m
failure_text (release_acquisition m) = m
failure_text (known m) = m
failure_text (unexpected m) = m

-- A value of the canonical JSON whose digest identifies the inputs of a stage.
pub data InputValue : Type 0 where
  text : String → InputValue
  null : InputValue
  flag : Bool → InputValue
  -- what the actions observed, as JSON text
  observed : String → InputValue

abbrev pub StageInputs : Type 0
StageInputs = List (String × InputValue)

pub record StagePosition : Type 0 where
  pub stage : InstallStage
  pub index : ℕ
  pub total : ℕ

pub data ProgressOutcome : Type 0 where
  success action blocked failure : ProgressOutcome

pub record WorkflowResult : Type 0 where
  pub exit_code : ℕ
  pub state : Option InstallState
  pub message : String
  pub progress_outcome : ProgressOutcome

pub record SessionPlan : Type 0 where
  pub mode : InstallMode
  pub project_dir : String
  pub project_name : String
  pub state_path : String
  pub state_source : String
  pub image_source : String
  pub registry : String
  pub release_id : Option String
  pub stages : List InstallStage
  pub first_incomplete : Option InstallStage
  pub registry_label : String

-- The calls of the progress reporter.
pub data Progress : Type 0 where
  open_session : String → Progress
  session_plan : SessionPlan → Progress
  stage_candidate : StagePosition → Progress
  stage_skipped : StagePosition → Progress
  stage_started : StagePosition → Progress
  stage_passed : StagePosition → Progress
  detail : String → Progress
  debug : String → Progress
  status : String → String → Progress
  pause_heartbeat : Progress
  resume_heartbeat : Progress
  installation_finished : WorkflowResult → Option StagePosition → Progress
  fallback_failure : String → Progress
  close : Progress

-- A state file: missing, not a state (with the reason), or a decoded state.
pub data StateFile : Type 0 where
  missing : StateFile
  corrupt : String → StateFile
  stored : InstallState → StateFile

-- The end of `save_state`: the file is replaced, or it is not, or it is and the sync of its
-- directory fails.
pub data WriteOutcome : Type 0 where
  written : WriteOutcome
  not_written : Failure → WriteOutcome
  written_then : Failure → WriteOutcome

-- One call of code outside the workflow.
abbrev pub Call : Type 0 → Type 0 → Type 0
Call W A = W → Result Failure A × W

-- What the workflow takes from outside: its actions (actions.py), its prompts, its reporter, the
-- clock, the boot ID, files, the digest of canonical JSON, and the parser of UUIDs.
pub record Env (W : Type 0) : Type 0 where
  pub bootstrap : String → String → Call W Output
  pub container_host_check : Call W Output
  pub host_preflight : Option String → Call W Output
  pub host_plan : String → HostPlanPhase → Call W HostPlanResult
  pub host_apply : HostPlanResult → Bool → Call W Output
  pub kernel_verify : String → Bool → Bool → Call W Output
  pub host_verify : String → Call W Output
  pub resolve_release : String → Call W StableRelease
  pub pull_release : StableRelease → Call W (Option VerifiedReleaseImages)
  pub build_local_images : String → String → Call W Output
  pub verify_torch_image : String → Call W Output
  pub initialize_project :
      String → String → Option String → Option String → Option String → Call W Output
  pub verify_project : String → String → Bool → Option String → Call W Output
  pub image_disk_estimate :
      StableRelease → String → String → RegistryPolicy → Call W (Option DiskSpaceEstimate)
  pub project_disk_estimate : String → Call W (Option DiskSpaceEstimate)
  pub observe : InstallStage → InstallState → Call W String
  -- the optional hook `stage_result`; what it returns may not be a `StageResult`
  pub result_hook : Option (InstallStage → Output → Call W (Option StageResult))
  pub ask_project_dir : Call W String
  pub choose_image_fallback : Call W (Option String)
  pub confirm_exact : String → Call W Bool
  pub confirm_yes_no : String → Call W Bool
  pub report_progress : Progress → Call W (Unit {0})
  pub write_state : String → InstallState → W → WriteOutcome × W
  -- moving a corrupt file aside: whether it is moved, and what is then raised
  pub preserve_corrupt : String → String → W → (Bool × Failure) × W
  pub unreadable : String → W → Option Failure
  pub acquire_lock : String → Call W (Unit {0})
  pub release_lock : String → Call W (Unit {0})
  -- the state file of a project, from its directory and the path of the legacy file
  pub project_state_path : String → String → String
  -- whether a path is absolute and equal to its normal form
  pub is_normalized : String → Bool
  -- whether the interpreter is Python 3.12
  pub is_python_312 : Bool
  -- the environment variable `SUDO_USER`
  pub sudo_user : W → Option String
  pub load_release : String → Call W StableRelease
  pub load_registry : String → Call W RegistryPolicy
  pub file_digest : String → Call W (Option String)
  pub timestamp : W → String × W
  pub read_boot_id : Call W String
  pub current_user : W → String
  pub input_digest : StageInputs → String
  pub canonical_uuid : String → Option String
  -- Python's formatting of an integer, and of a number of bytes in GiB with one decimal
  -- `text[:12]`
  pub first_twelve : String → String
  pub decimal : ℕ → String
  pub format_gib : ℕ → String
  -- `safe_error_message` of progress.py, at 1024 bytes
  pub safe_error : String → String
  -- `shlex.join`
  pub shell_join : List String → String
  pub installer_version : String
  pub installer_source_revision : String

pub record Session (W : Type 0) : Type 0 where
  pub options : InstallOptions
  -- the variable `state` of `run`
  pub loaded : Option InstallState
  pub state_source : String
  pub files : String → StateFile
  pub release : Option StableRelease
  pub registry_policy : Option RegistryPolicy
  pub kernel_plan : Option HostPlanResult
  pub host_plan : Option HostPlanResult
  pub position : Option StagePosition
  pub world : W

-- A method of the workflow.
abbrev pub Method : Type 0 → Type 0 → Type 0
Method W A = Exec Failure (Session W) A

-- The state files after one of them is replaced.
abbrev pub replace_file : String → StateFile → (String → StateFile) → String → StateFile
replace_file path f files p = if str_eq p path then f else files p

module _ {W A : Type 0} where
  -- A call of code outside changes the world, and nothing of the workflow.
  unfoldable pub call : Call W A → Method W A
  call c s = ((c s.world).0, record s { world = (c s.world).1 })

module _ {W : Type 0} where
  abbrev pub after_write :
      String → InstallState → WriteOutcome × W → Session W → Result Failure (Unit {0}) × Session W
  after_write path st (written, w) s =
      (ok tt, record s { files = replace_file path (stored st) s.files; world = w })
  after_write path st (not_written e, w) s = (err e, record s { world = w })
  after_write path st (written_then e, w) s =
      (err e, record s { files = replace_file path (stored st) s.files; world = w })

  -- `save_state` (state.py): the file is replaced as a whole, or not at all.
  unfoldable pub save_state : Env W → String → InstallState → Method W (Unit {0})
  save_state env path st s = after_write path st (env.write_state path st s.world) s

  abbrev pub after_preserve :
      String → (Bool × Failure) × W → Session W → Result Failure (Option InstallState) × Session W
  after_preserve path ((moved, e), w) s = (
    err e,
    record s { files = if moved then replace_file path missing s.files else s.files; world = w },
  )

  abbrev pub load_file :
      Env W → String → StateFile → Session W → Result Failure (Option InstallState) × Session W
  load_file env path missing s = (ok none, s)
  load_file env path (corrupt reason) s =
      after_preserve path (env.preserve_corrupt path reason s.world) s
  load_file env path (stored st) s = (ok (some st), s)

  -- `load_state` (state.py): a corrupt file is moved aside and reported.
  unfoldable pub load_state : Env W → String → Method W (Option InstallState)
  load_state env path s =
      on_option (env.unreadable path s.world) (load_file env path (s.files path) s)
        (λ e. (err e, s))

  unfoldable pub now : Env W → Method W String
  now env s = (ok (env.timestamp s.world).0, record s { world = (env.timestamp s.world).1 })

  unfoldable pub tell : Env W → Progress → Method W (Unit {0})
  unfolding call
  tell env p = call (env.report_progress p)

  -- The assignments to the attributes that hold what a run has read.
  unfoldable pub set_release : StableRelease → Method W (Unit {0})
  set_release release s = (ok tt, record s { release = some release })

  unfoldable pub set_kernel_plan : HostPlanResult → Method W (Unit {0})
  set_kernel_plan plan s = (ok tt, record s { kernel_plan = some plan })

  unfoldable pub set_host_plan : HostPlanResult → Method W (Unit {0})
  set_host_plan plan s = (ok tt, record s { host_plan = some plan })

  unfoldable pub set_position : StagePosition → Method W (Unit {0})
  set_position position s = (ok tt, record s { position = some position })
