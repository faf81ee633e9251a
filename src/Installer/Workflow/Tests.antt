-- ===== src/Installer/Workflow/Tests.antt =====
-- A small world on which the theorems on the workflow are tried: its state is the number of calls,
-- and its actions succeed with values that fit each other.
use strix_halo_rocm_toolkit.Installer.Registry.Identity.{
  IsReplica, IsFrom, registry_candidates-IsReplica, registry_candidates_explicit,
}
use strix_halo_rocm_toolkit.Installer.Workflow.Proofs.Choices.{
  other_build, acquire_images-no_build, IsForeign, select_install_state_path-requested,
}
use strix_halo_rocm_toolkit.Installer.Workflow.Proofs.Pulls.{
  other_pull, pull_release_candidates-replica,
}
use strix_halo_rocm_toolkit.Installer.Workflow.Proofs.Adoption.{adopt-IsValid, SameStages}
use strix_halo_rocm_toolkit.Installer.Workflow.Proofs.Authorised.{
  other_apply, is_authorised, is_authorised_kernel, kernel_apply-authorised, host_apply-authorised,
  Confirmed, confirm_kernel_plan-Confirmed, confirm_host_plan-Confirmed,
}
use strix_halo_rocm_toolkit.Installer.Workflow.Proofs.Runs.{
  SavedOnly, RunEnds, run_stages-SavedOnly, run_stages-RunEnds,
}
use strix_halo_rocm_toolkit.Installer.Workflow.Proofs.Locked.{Concludes, RunFiles}
use strix_halo_rocm_toolkit.Installer.Workflow.Proofs.Whole.{run-Concludes, run-RunFiles, EndsWith}
use strix_halo_rocm_toolkit.Installer.Workflow.Proofs.Position.{IsValid}
use strix_halo_rocm_toolkit.Installer.Workflow.Options.{select_install_state_path}
use strix_halo_rocm_toolkit.Installer.Workflow.Update.{adopt_compatible_installer_update}
use strix_halo_rocm_toolkit.Installer.Workflow.Dispatch.{
  dispatch_in, acquire_images, pull_release_candidates,
}
use strix_halo_rocm_toolkit.Installer.Workflow.Plans.{confirm_kernel_plan, confirm_host_plan}
use strix_halo_rocm_toolkit.Installer.Workflow.Stage.{run_stages}
use strix_halo_rocm_toolkit.Installer.Workflow.Transition.{stage_order, validate_transition}
use strix_halo_rocm_toolkit.Exec.Ensures.{Returns}
use Prim.Native.String.{◌++◌}
use strix_halo_rocm_toolkit.Prelude.{
  ◌≡◌, refl, ℕ, suc, String, true, false, none, some, List, [], ◌∷◌, if◌then◌else◌, str_eq, ap, ◌↔◌,
  ◌⊎◌, ◌≢◌, eq_iff, arith, All,
}
use strix_halo_rocm_toolkit.Results.{ok, err, ◌>>=◌}
use strix_halo_rocm_toolkit.Report.{Report, Status}
use strix_halo_rocm_toolkit.Installer.Stages.{InstallMode, InstallStage, container_stage_order}
use strix_halo_rocm_toolkit.Installer.Models.{
  InstallOptions, InstallState, ReleaseImage, StableRelease, HostPlanPhase, HostPlanResult,
  VerifiedImageIdentity, VerifiedReleaseImages, DiskSpaceEstimate, Output, is_kernel_phase,
}
use strix_halo_rocm_toolkit.Installer.Registry.{
  RegistryPolicy, RegistrySource, RegistryCandidate, registry_candidates, registry_choice,
  candidates_from, candidate_of,
}
use strix_halo_rocm_toolkit.Installer.Workflow.Session.{
  Env, Session, missing, stored, Failure, StateFile, Call, written, text, StageInputs,
}
use strix_halo_rocm_toolkit.Installer.Workflow.Run.{new_state_at, run}

abbrev project : String
project = "/home/user/demo"

abbrev options : InstallOptions
options = record {
  mode = InstallMode.container;
  non_interactive = true;
  dry_run = false;
  project_dir = some project;
  project_name = "demo";
  image_source = some "pull";
  registry = "auto";
  target_user = some "user";
  accepted_kernel_plan_digest = some "kernel-plan";
  accepted_host_plan_digest = some "host-plan";
  accept_docker_group = true;
  stable_manifest_path = "/opt/kit/stable.json";
  source_root = "/opt/kit";
  state_path = "/state/install.json";
  coordination_state_path = "/state/coordination.json";
  state_path_explicit = false;
}

abbrev image_of : String → ReleaseImage
image_of repository = record {
  image = repository;
  manifest_digest = "sha256:11";
  config_digest = "sha256:22";
  artifact_digests = [];
}

abbrev release : StableRelease
release = record {
  schema_version = 1;
  release_id = "r1";
  source_repository = "kit";
  source_revision = "rev1";
  qualification_profile_digest = "q";
  qualification_report_digest = "p";
  sbom_digest = "s";
  gpu_arch = "gfx1151";
  supported_host_adapter_ids = "adapter" ∷ [];
  rocm_version = "7.1";
  python_version = "3.12";
  torch_version = "2.9";
  torch_profile_id = "stable";
  torch_profile_digest = "t";
  base = image_of "ghcr.io/kit/base";
  torch = image_of "ghcr.io/kit/torch";
  published_at = "2026-01-01T00:00:00Z";
}

abbrev source_of : String → RegistrySource
source_of name = record {
  name = name;
  label = name;
  base_repository = name ++ "/kit/base";
  torch_repository = name ++ "/kit/torch";
}

abbrev policy : RegistryPolicy
policy = record {
  schema_version = 1;
  default_order = "swr" ∷ "ghcr" ∷ [];
  sources = ("swr", source_of "swr") ∷ ("ghcr", source_of "ghcr.io") ∷ [];
}

abbrev plan_of : HostPlanPhase → HostPlanResult
plan_of phase = record {
  plan = record {
    supported = true;
    target_user = "user";
    actions = [];
    reboot_required = true;
    phase = phase;
  };
  plan_digest = if is_kernel_phase phase then "kernel-plan" else "host-plan";
  adapter_id = "adapter";
  running_kernel = "6.14.0-oem";
  display_manager_loaded = true;
  display_manager_active = true;
}

abbrev report : Report
report = record {
  command = "check";
  status = Status.pass;
  generated_at = "2026-01-01T00:00:00Z";
  kernel_fact = some "6.17.0-oem";
  findings = [];
  schema_version = 1;
}

abbrev identity_of : String → VerifiedImageIdentity
identity_of repository = record {
  reference = repository ++ "@sha256:11";
  config_digest = "sha256:22";
  repo_digests = [];
  labels = [];
}

abbrev verified : VerifiedReleaseImages
verified = record { base = identity_of "swr/kit/base"; torch = identity_of "swr/kit/torch" }

abbrev estimate : DiskSpaceEstimate
estimate = record {
  location = "/var/lib/docker";
  payload_bytes = 10;
  available_bytes = 99999999999;
  source_label = none;
  blocking = true;
}

-- A call that succeeds.
abbrev done : {A : Type 0} → A → Call ℕ A
done a w = (ok a, suc w)

abbrev digest_text : StageInputs → String
digest_text [] = ""
digest_text ((key, text value) ∷ inputs) = key ++ "=" ++ value ++ ";" ++ digest_text inputs
digest_text ((key, _) ∷ inputs) = key ++ ";" ++ digest_text inputs

abbrev world : Env ℕ
world = record {
  bootstrap = λ _ _. done Output.other;
  container_host_check = done (Output.report report);
  host_preflight = λ _. done (Output.report report);
  host_plan = λ _ phase. done (plan_of phase);
  host_apply = λ _ _. done Output.other;
  kernel_verify = λ _ _ _. done (Output.report report);
  host_verify = λ _. done (Output.report report);
  resolve_release = λ _. done release;
  pull_release = λ _. done (some verified);
  build_local_images = λ _ _. done Output.other;
  verify_torch_image = λ _. done Output.other;
  initialize_project = λ _ _ _ _ _. done Output.other;
  verify_project = λ _ _ _ _. done Output.other;
  image_disk_estimate = λ _ _ _ _. done (some estimate);
  project_disk_estimate = λ _. done (some estimate);
  observe = λ _ _. done "{}";
  result_hook = none;
  ask_project_dir = done project;
  choose_image_fallback = done none;
  confirm_exact = λ _. done true;
  confirm_yes_no = λ _. done true;
  report_progress = λ _. done tt;
  write_state = λ _ _ w. (written, suc w);
  preserve_corrupt = λ _ _ w. ((true, Failure.known "corrupt"), suc w);
  unreadable = λ _ _. none;
  acquire_lock = λ _. done tt;
  release_lock = λ _. done tt;
  project_state_path = λ dir _. dir ++ "/state.json";
  is_normalized = λ _. true;
  is_python_312 = true;
  sudo_user = λ _. none;
  load_release = λ _. done release;
  load_registry = λ _. done policy;
  file_digest = λ _. done (some "sha256:33");
  timestamp = λ w. ("2026-01-01T00:00:00Z", suc w);
  read_boot_id = done "boot";
  current_user = λ _. "user";
  input_digest = digest_text;
  canonical_uuid = λ s. some s;
  first_twelve = λ s. s;
  decimal = λ _. "n";
  format_gib = λ _. "n";
  safe_error = λ s. s;
  shell_join = λ _. "command";
  installer_version = "0.3.1";
  installer_source_revision = "0123456789012345678901234567890123456789";
}

abbrev start : Session ℕ
start = record {
  options = options;
  loaded = none;
  state_source = "";
  files = λ _. missing;
  release = none;
  registry_policy = some policy;
  kernel_plan = none;
  host_plan = none;
  position = none;
  world = 0;
}

abbrev fresh : InstallState
fresh = new_state_at world options project "2026-01-01T00:00:00Z" "user" InstallStage.bootstrap

fresh-IsValid : IsValid options fresh
unfolding validate_transition stage_order
fresh-IsValid = refl

known_order : stage_order options.mode ≡ ok container_stage_order
unfolding stage_order
known_order = refl

run-Concludes_example : EndsWith (Concludes InstallMode.container false) (run world start).0
run-Concludes_example = run-Concludes world start

run-RunFiles_example : RunFiles InstallMode.container false (λ _. missing) (run world start).1.files
run-RunFiles_example = run-RunFiles world start

run_stages-SavedOnly_example :
    SavedOnly options
      (λ _. missing)
      (run_stages world options container_stage_order fresh start).1.files
run_stages-SavedOnly_example =
    run_stages-SavedOnly world options container_stage_order fresh start known_order fresh-IsValid

run_stages-RunEnds_example :
    Returns
      (RunEnds options container_stage_order)
      (run_stages world options container_stage_order fresh start).0
run_stages-RunEnds_example =
    run_stages-RunEnds world options container_stage_order fresh start known_order fresh-IsValid

-- An installation whose plans are authorised.
abbrev planned : InstallState
planned = record fresh {
  kernel_plan_digest = some "kernel-plan";
  host_plan_digest = some "host-plan";
  host_adapter_id = some "adapter";
  docker_group_accepted = true;
}

-- An action that nothing should reach.
abbrev unreached : {A B : Type 0} → A → Call ℕ B
unreached _ w = (err (Failure.unexpected "unreached"), w)

kernel_apply-authorised_example :
    dispatch_in world options project InstallStage.kernel_apply planned start
    ≡ dispatch_in
        (other_apply (is_authorised_kernel planned) (λ plan _. unreached plan) world)
        options
        project
        InstallStage.kernel_apply
        planned
        start
kernel_apply-authorised_example =
    kernel_apply-authorised world options planned project (λ plan _. unreached plan) start

host_apply-authorised_example :
    dispatch_in world options project InstallStage.host_apply planned start
    ≡ dispatch_in
        (other_apply (is_authorised (some "host-plan") planned) (λ plan _. unreached plan) world)
        options
        project
        InstallStage.host_apply
        planned
        start
host_apply-authorised_example =
    host_apply-authorised world options planned project (λ plan _. unreached plan) start

confirm_kernel_plan-Confirmed_example :
    Returns
      (Confirmed (some "kernel-plan") (some "kernel-plan") false)
      (confirm_kernel_plan world options planned start).0
confirm_kernel_plan-Confirmed_example =
    confirm_kernel_plan-Confirmed world options planned refl start

confirm_host_plan-Confirmed_example :
    Returns
      (Confirmed (some "host-plan") (some "host-plan") true)
      (confirm_host_plan world options planned start).0
confirm_host_plan-Confirmed_example = confirm_host_plan-Confirmed world options planned refl start

-- An installation that an older installer has begun.
abbrev older : InstallState
older = record fresh {
  installer_version = "0.3.0";
  completed = (InstallStage.bootstrap, "digest") ∷ [];
  current_stage = InstallStage.container_host_check;
}

older-IsValid : IsValid options older
unfolding validate_transition stage_order
older-IsValid = refl

adopt-IsValid_example :
    Returns
      (λ x. (IsValid options x.0) × (SameStages older x.0))
      (adopt_compatible_installer_update world options older start).0
adopt-IsValid_example =
    adopt-IsValid world options older container_stage_order start known_order older-IsValid

pull_release_candidates-replica_example :
    pull_release_candidates world options release start
    ≡ pull_release_candidates
        (other_pull (λ r. str_eq r.release_id "r1") unreached world)
        options
        release
        start
pull_release_candidates-replica_example =
    pull_release_candidates-replica world options (λ r. str_eq r.release_id "r1") unreached release
      start (λ r h. ap (λ s. str_eq s "r1") h.0)

acquire_images-no_build_example :
    acquire_images world options planned start
    ≡ acquire_images (other_build (λ root _. unreached root) world) options planned start
acquire_images-no_build_example =
    acquire_images-no_build world options (λ root _. unreached root) refl planned start refl

-- The installation of another project.
abbrev foreign : InstallState
foreign = record fresh { project_path = some "/home/user/other" }

texts_differ : (s t : String) → str_eq s t ≡ false → s ≢ t
texts_differ s t h same = ground (arith, eq_iff s t)

abbrev foreign_only : String → StateFile
foreign_only path = if str_eq path "/state/install.json" then stored foreign else missing

select_install_state_path-requested_example :
    ((select_install_state_path world foreign_only
        (λ _. none)
        project
        "/state/install.json"
        false).0
      ≡ "/state/install.json")
    ↔ ((false ≡ true)
        ⊎ ((foreign_only "/home/user/demo/state.json" ≡ missing)
            × (foreign_only "/state/install.json" ≢ missing)
            × ¬ (IsForeign world (foreign_only "/state/install.json") none project)))
select_install_state_path-requested_example =
    select_install_state_path-requested world foreign_only (λ _. none) project "/state/install.json"
      false (texts_differ "/home/user/demo/state.json" "/state/install.json" refl)

abbrev from_swr : StableRelease
from_swr = record release { base = image_of "swr/kit/base"; torch = image_of "swr/kit/torch" }

abbrev swr_candidates : List RegistryCandidate
swr_candidates = record { name = "swr"; label = "swr"; release = from_swr } ∷ []

from_swr_only : registry_candidates release "swr" policy ≡ ok swr_candidates
unfolding registry_candidates registry_choice ◌>>=◌ candidates_from candidate_of
from_swr_only = refl

registry_candidates-IsReplica_example : All (IsReplica policy release) swr_candidates
registry_candidates-IsReplica_example =
    registry_candidates-IsReplica release "swr" policy {cs = swr_candidates} from_swr_only

registry_candidates_explicit_example :
    (c : RegistryCandidate) × (swr_candidates ≡ c ∷ []) × IsFrom policy release "swr" c
registry_candidates_explicit_example =
    registry_candidates_explicit release "swr" policy {cs = swr_candidates}
      (texts_differ "swr" "auto" refl) from_swr_only
