-- ===== src/Installer/Models.antt =====
-- The values of the installer (src/amd_ai/installer/models.py, and the results of its actions in
-- actions.py and release.py). A path is its normalized text. A digest, a revision and a reference
-- are texts. The dict of completed stages is keyed by the stage, which its validation guarantees.
use strix_halo_rocm_toolkit.Prelude.{
  ℕ, String, Bool, Option, none, some, List, [], ◌∷◌, if◌then◌else◌, true, false,
}
use strix_halo_rocm_toolkit.Prelude.{Dict}
use strix_halo_rocm_toolkit.Report.{Report}
use strix_halo_rocm_toolkit.Installer.Stages.{InstallMode, InstallStage, stage_eq}
use Prim.Native.String.{◌++◌}

pub record InstallOptions : Type 0 where
  pub mode : InstallMode
  pub non_interactive : Bool
  pub dry_run : Bool
  pub project_dir : Option String
  pub project_name : String
  pub image_source : Option String
  pub registry : String
  pub target_user : Option String
  pub accepted_kernel_plan_digest : Option String
  pub accepted_host_plan_digest : Option String
  pub accept_docker_group : Bool
  pub stable_manifest_path : String
  pub source_root : String
  pub state_path : String
  pub coordination_state_path : String
  pub state_path_explicit : Bool

-- `completed_stage_input_digests`: the digest of the inputs of each completed stage.
abbrev pub Completed : Type 0
Completed = List (InstallStage × String)

-- `completed.get(stage.value)`
abbrev pub digest_of : InstallStage → Completed → Option String
digest_of s [] = none
digest_of s ((t, d) ∷ c) = if stage_eq s t then some d else digest_of s c

-- `stage.value in completed`
abbrev pub is_completed : InstallStage → Completed → Bool
is_completed s [] = false
is_completed s ((t, _) ∷ c) = if stage_eq s t then true else is_completed s c

-- `completed[stage.value] = digest`
abbrev pub set_digest : InstallStage → String → Completed → Completed
set_digest s d [] = (s, d) ∷ []
set_digest s d ((t, e) ∷ c) = if stage_eq s t then (t, d) ∷ c else (t, e) ∷ set_digest s d c

pub record InstallState : Type 0 where
  pub schema_version : ℕ
  pub installer_version : String
  pub mode : InstallMode
  pub target_user : Option String
  pub release_id : Option String
  pub source_revision : Option String
  pub base_image_reference : Option String
  pub base_manifest_digest : Option String
  pub torch_image_reference : Option String
  pub torch_manifest_digest : Option String
  pub project_path : Option String
  pub current_stage : InstallStage
  pub completed : Completed
  pub reboot_boot_id : Option String
  pub created_at : String
  pub updated_at : String
  pub installer_source_revision : String
  pub source_root : String
  pub host_plan_digest : Option String
  pub host_adapter_id : Option String
  pub docker_group_accepted : Bool
  pub base_config_digest : Option String
  pub torch_config_digest : Option String
  pub last_report_paths : List String
  pub host_verification_status : Option String
  pub host_kernel : Option String
  pub host_verification_findings : List String
  pub kernel_plan_digest : Option String
  pub kernel_reboot_boot_id : Option String
  pub recovery_kernel : Option String
  pub display_manager_was_loaded : Bool
  pub display_manager_was_active : Bool
  pub kernel_verification_status : Option String
  pub kernel_kernel : Option String
  pub kernel_verification_findings : List String

-- The facts of a result are not read by the workflow and are left out.
pub record StageResult : Type 0 where
  pub report_paths : List String
  pub action_required : Bool
  pub blocked : Bool
  pub message : String

-- `StageResult()`
abbrev pub plain_result : StageResult
plain_result = record { report_paths = []; action_required = false; blocked = false; message = "" }

pub record DiskSpaceEstimate : Type 0 where
  pub location : String
  pub payload_bytes : ℕ
  pub available_bytes : ℕ
  pub source_label : Option String
  pub blocking : Bool

pub record ReleaseImage : Type 0 where
  pub image : String
  pub manifest_digest : String
  pub config_digest : String
  pub artifact_digests : Dict String

-- `ReleaseImage.reference`
abbrev pub image_reference : ReleaseImage → String
image_reference r = r.image ++ "@" ++ r.manifest_digest

pub record StableRelease : Type 0 where
  pub schema_version : ℕ
  pub release_id : String
  pub source_repository : String
  pub source_revision : String
  pub qualification_profile_digest : String
  pub qualification_report_digest : String
  pub sbom_digest : String
  pub gpu_arch : String
  pub supported_host_adapter_ids : List String
  pub rocm_version : String
  pub python_version : String
  pub torch_version : String
  pub torch_profile_id : String
  pub torch_profile_digest : String
  pub base : ReleaseImage
  pub torch : ReleaseImage
  pub published_at : String

pub data HostPlanPhase : Type 0 where
  kernel tuning : HostPlanPhase

abbrev pub phase_value : HostPlanPhase → String
phase_value HostPlanPhase.kernel = "kernel"
phase_value HostPlanPhase.tuning = "tuning"

abbrev pub is_kernel_phase : HostPlanPhase → Bool
is_kernel_phase HostPlanPhase.kernel = true
is_kernel_phase HostPlanPhase.tuning = false

pub record PlannedAction : Type 0 where
  pub code : String
  pub summary : String
  pub argv : List String
  pub privileged : Bool
  pub input_text : Option String

pub record PreparePlan : Type 0 where
  pub supported : Bool
  pub target_user : String
  pub actions : List PlannedAction
  pub reboot_required : Bool
  pub phase : HostPlanPhase

-- The snapshot behind a plan is not read by the workflow and is left out.
pub record HostPlanResult : Type 0 where
  pub plan : PreparePlan
  pub plan_digest : String
  pub adapter_id : String
  pub running_kernel : String
  pub display_manager_loaded : Bool
  pub display_manager_active : Bool

pub record HostConfirmation : Type 0 where
  pub accepted : Bool
  pub docker_group_accepted : Bool
  pub message : String

pub record VerifiedImageIdentity : Type 0 where
  pub reference : String
  pub config_digest : String
  pub repo_digests : List String
  pub labels : Dict String

pub record VerifiedReleaseImages : Type 0 where
  pub base : VerifiedImageIdentity
  pub torch : VerifiedImageIdentity

pub record LocalBuildResult : Type 0 where
  pub base_reference : String
  pub base_config_digest : String
  pub torch_reference : String
  pub torch_config_digest : String
  pub source_revision : String
  pub qualified : Bool

-- What a stage's action returns: the classes that the workflow tells apart, and any other object.
pub data Output : Type 0 where
  result : StageResult → Output
  confirmation : HostConfirmation → Output
  report : Report → Output
  host_plan : HostPlanResult → Output
  release : StableRelease → Output
  images : VerifiedReleaseImages → Output
  local_build : LocalBuildResult → Output
  other : Output
