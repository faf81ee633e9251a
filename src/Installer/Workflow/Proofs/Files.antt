-- ===== src/Installer/Workflow/Proofs/Files.antt =====
-- The parts of a stage that touch no state file: everything but the saving of a state.
use strix_halo_rocm_toolkit.Installer.Workflow.Stage.{check_disk}
use strix_halo_rocm_toolkit.Installer.Registry.{RegistryCandidate}
use strix_halo_rocm_toolkit.Installer.Workflow.Dispatch.{
  on_pull, Pull, pulled, unavailable, announce_fallback, when_unavailable, pull_candidates,
  build_local, fall_back, when_pull_fails, pull_release_candidates, acquire_images, dispatch_in,
  dispatch,
}
use strix_halo_rocm_toolkit.Prelude.{[], ◌∷◌, ◌≡◌, String, Option, none, some, List}
use strix_halo_rocm_toolkit.Exec.{modify}
use strix_halo_rocm_toolkit.Exec.Ensures.{Keeps, Keeps-intro, keeps_rules}
use strix_halo_rocm_toolkit.Installer.Stages.{InstallStage}
use strix_halo_rocm_toolkit.Installer.Models.{
  InstallOptions, InstallState, Output, StableRelease, HostPlanResult, VerifiedReleaseImages,
}
use strix_halo_rocm_toolkit.Installer.Workflow.Session.{
  Failure, StageInputs, release_acquisition, StateFile, Env, Session, Method, Call, call, tell, now,
  Progress, StagePosition, set_release, set_kernel_plan, set_host_plan, set_position,
}
use strix_halo_rocm_toolkit.Installer.Workflow.Inputs.{
  inputs_of, stage_inputs, validate_completed_stage,
}
use strix_halo_rocm_toolkit.Installer.Workflow.Outcome.{stage_result}
use strix_halo_rocm_toolkit.Installer.Workflow.Plans.{
  resolved_registry_policy, DiskRequirement, image_disk_requirement, disk_requirement,
  report_disk_requirement, resolved_registry_policy, resolved_release, resolved_host_plan,
  resolved_kernel_plan, confirm_kernel_plan, confirm_host_plan, prompting, reboot_pending,
  cached_kernel_plan, cached_host_plan,
}

-- A property of a session that is one of its options and its state files.
abbrev pub FileProperty : Type 1
FileProperty = InstallOptions → (String → StateFile) → Type 0

abbrev pub OnFiles : {W : Type 0} → FileProperty → Session W → Type 0
OnFiles F s = F s.options s.files

module _ {W : Type 0} (env : Env W) (o : InstallOptions) (F : FileProperty) where
  abbrev pub P : Session W → Type 0
  P = OnFiles F

  pub call-Keeps : {A : Type 0} (c : Call W A) → Keeps P (call c)
  unfolding call
  call-Keeps c = Keeps-intro (call c) (λ s h. h)

  pub modify-Keeps :
      (f : Session W → Session W)
      → ((s : Session W) → (f s).files ≡ s.files)
      → ((s : Session W) → (f s).options ≡ s.options)
      → Keeps P (modify {E = Failure} f)
  unfolding modify
  modify-Keeps f e k = Keeps-intro (modify f) (λ s h. rw (e s, k s) h)

  pub tell-Keeps : (p : Progress) → Keeps P (tell env p)
  unfolding tell
  tell-Keeps p = call-Keeps (env.report_progress p)

  pub now-Keeps : Keeps P (now env)
  unfolding now
  now-Keeps = Keeps-intro (now env) (λ s h. h)

  pub set_release-Keeps : (r : StableRelease) → Keeps P (set_release r)
  unfolding set_release
  set_release-Keeps r = Keeps-intro (set_release r) (λ s h. h)

  pub set_kernel_plan-Keeps : (r : HostPlanResult) → Keeps P (set_kernel_plan r)
  unfolding set_kernel_plan
  set_kernel_plan-Keeps r = Keeps-intro (set_kernel_plan r) (λ s h. h)

  pub set_host_plan-Keeps : (r : HostPlanResult) → Keeps P (set_host_plan r)
  unfolding set_host_plan
  set_host_plan-Keeps r = Keeps-intro (set_host_plan r) (λ s h. h)

  pub set_position-Keeps : (r : StagePosition) → Keeps P (set_position r)
  unfolding set_position
  set_position-Keeps r = Keeps-intro (set_position r) (λ s h. h)

  pub ruleset base = (
    keeps_rules, call-Keeps, tell-Keeps, now-Keeps, set_release-Keeps, set_kernel_plan-Keeps,
    set_host_plan-Keeps, set_position-Keeps,
  )

  pub inputs_of-Keeps :
      (dir : String) (stage : InstallStage) (st : InstallState)
      → Keeps P (inputs_of env o dir stage st)
  unfolding inputs_of
  inputs_of-Keeps dir InstallStage.bootstrap st = search base
  inputs_of-Keeps dir _ st = search base

  pub stage_inputs-Keeps :
      (stage : InstallStage) (st : InstallState) → Keeps P (stage_inputs env o stage st)
  unfolding stage_inputs
  stage_inputs-Keeps stage st = search (base, inputs_of-Keeps)

  pub resolved_release-Keeps : (st : InstallState) → Keeps P (resolved_release env o st)
  unfolding resolved_release
  resolved_release-Keeps st = search base depth 8

  pub cached_host_plan-Keeps : (user : String) → Keeps P (cached_host_plan env o user)
  cached_host_plan-Keeps user = search base

  pub cached_kernel_plan-Keeps : (user : String) → Keeps P (cached_kernel_plan env o user)
  cached_kernel_plan-Keeps user = search base

  pub resolved_host_plan-Keeps : (st : InstallState) → Keeps P (resolved_host_plan env o st)
  unfolding resolved_host_plan
  resolved_host_plan-Keeps st = search base depth 9

  pub resolved_kernel_plan-Keeps : (st : InstallState) → Keeps P (resolved_kernel_plan env o st)
  unfolding resolved_kernel_plan
  resolved_kernel_plan-Keeps st = search base depth 9

  pub prompting-Keeps : {A : Type 0} (m : Method W A) → Keeps P m → Keeps P (prompting env o m)
  prompting-Keeps m km = search base

  pub ruleset resolved = (
    base, prompting-Keeps, resolved_release-Keeps, resolved_host_plan-Keeps,
    resolved_kernel_plan-Keeps,
  )

  pub confirm_kernel_plan-Keeps : (st : InstallState) → Keeps P (confirm_kernel_plan env o st)
  unfolding confirm_kernel_plan
  confirm_kernel_plan-Keeps st = search resolved depth 9

  pub confirm_host_plan-Keeps : (st : InstallState) → Keeps P (confirm_host_plan env o st)
  unfolding confirm_host_plan
  confirm_host_plan-Keeps st = search resolved depth 9

  pub reboot_pending-Keeps :
      (previous : Option String) (m : String) → Keeps P (reboot_pending env o previous m)
  unfolding reboot_pending
  reboot_pending-Keeps none m = search base
  reboot_pending-Keeps (some b) m = search base

  pub image_disk_requirement-Keeps :
      (r : StableRelease) (source : String) → Keeps P (image_disk_requirement env o r source)
  unfolding image_disk_requirement resolved_registry_policy
  image_disk_requirement-Keeps r source = search base depth 8

  pub disk_requirement-Keeps :
      (stage : InstallStage) (st : InstallState) → Keeps P (disk_requirement env o stage st)
  unfolding disk_requirement
  disk_requirement-Keeps InstallStage.bootstrap st = search base
  disk_requirement-Keeps _ st = search (resolved, image_disk_requirement-Keeps)

  pub report_disk_requirement-Keeps :
      (r : DiskRequirement) → Keeps P (report_disk_requirement env o r)
  unfolding report_disk_requirement
  report_disk_requirement-Keeps r = search base

  pub stage_result-Keeps :
      (stage : InstallStage) (output : Output) → Keeps P (stage_result env o stage output)
  unfolding stage_result
  stage_result-Keeps stage (Output.result r) = search base
  stage_result-Keeps stage _ = search base depth 9

  pub on_pull-Keeps :
      {A : Type 0} (x : Pull) (f : Option VerifiedReleaseImages → Method W A)
      (g : String → Method W A)
      → ((v : Option VerifiedReleaseImages) → Keeps P (f v))
      → ((m : String) → Keeps P (g m))
      → Keeps P (on_pull x f g)
  on_pull-Keeps (pulled v) f g kf kg = kf v
  on_pull-Keeps (unavailable m) f g kf kg = kg m

  announce_fallback-Keeps :
      (c : RegistryCandidate) (rest : List RegistryCandidate) (m : String)
      → Keeps P (announce_fallback env o c rest m)
  announce_fallback-Keeps c [] m = search base
  announce_fallback-Keeps c (_ ∷ _) m = search base

  when_unavailable-Keeps :
      (c : RegistryCandidate) (rest : List RegistryCandidate) (e : Failure)
      → Keeps P (when_unavailable env o c rest e)
  when_unavailable-Keeps c rest (release_acquisition m) = search (base, announce_fallback-Keeps)
  when_unavailable-Keeps c rest _ = search base

  pub pull_candidates-Keeps :
      (cs : List RegistryCandidate) (failures : List String)
      → Keeps P (pull_candidates env o cs failures)
  unfolding pull_candidates
  pull_candidates-Keeps [] failures = search base
  pull_candidates-Keeps (c ∷ cs) failures =
      search (base, when_unavailable-Keeps, on_pull-Keeps, pull_candidates-Keeps cs) depth 9

  build_local-Keeps : Keeps P (build_local env o)
  build_local-Keeps =
      call-Keeps (env.build_local_images o.source_root env.installer_source_revision)

  fall_back-Keeps : (r : StableRelease) (m : String) → Keeps P (fall_back env o r m)
  fall_back-Keeps r m =
      search
        (
          base, prompting-Keeps, image_disk_requirement-Keeps, report_disk_requirement-Keeps,
          build_local-Keeps,
        )
        depth 9

  when_pull_fails-Keeps : (r : StableRelease) (e : Failure) → Keeps P (when_pull_fails env o r e)
  when_pull_fails-Keeps r (release_acquisition m) = search (base, fall_back-Keeps)
  when_pull_fails-Keeps r _ = search base

  pull_release_candidates-Keeps : (r : StableRelease) → Keeps P (pull_release_candidates env o r)
  unfolding pull_release_candidates resolved_registry_policy
  pull_release_candidates-Keeps r = search (base, pull_candidates-Keeps) depth 8

  acquire_images-Keeps : (st : InstallState) → Keeps P (acquire_images env o st)
  unfolding acquire_images
  acquire_images-Keeps st =
      search (resolved, pull_release_candidates-Keeps, when_pull_fails-Keeps, build_local-Keeps)
        depth 8

  -- No action of a stage touches a state file.
  pub dispatch_in-Keeps :
      (dir : String) (stage : InstallStage) (st : InstallState)
      → Keeps P (dispatch_in env o dir stage st)
  unfolding dispatch_in
  dispatch_in-Keeps dir InstallStage.bootstrap st = search base
  dispatch_in-Keeps dir _ st =
      search
        (
          resolved, confirm_kernel_plan-Keeps, confirm_host_plan-Keeps, reboot_pending-Keeps,
          acquire_images-Keeps,
        )
        depth 8

  pub dispatch-Keeps :
      (stage : InstallStage) (st : InstallState) → Keeps P (dispatch env o stage st)
  unfolding dispatch
  dispatch-Keeps stage st = search (base, dispatch_in-Keeps)

  pub validate_completed_stage-Keeps :
      (st : InstallState) (stage : InstallStage) (inputs : StageInputs)
      → Keeps P (validate_completed_stage env o st stage inputs)
  unfolding validate_completed_stage
  validate_completed_stage-Keeps st stage inputs = search base

  pub check_disk-Keeps :
      (stage : InstallStage) (st : InstallState) → Keeps P (check_disk env o stage st)
  unfolding check_disk
  check_disk-Keeps stage st = search (base, disk_requirement-Keeps, report_disk_requirement-Keeps)
