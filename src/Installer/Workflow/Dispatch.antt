-- ===== src/Installer/Workflow/Dispatch.antt =====
-- The action of each stage (`_dispatch` and `_pull_release_candidates` in workflow.py).
use Prim.Native.String.{◌++◌}
use strix_halo_rocm_toolkit.Prelude.{
  on_option, String, false, not, Option, some, List, [], ◌∷◌, str_eq, opt_text_eq, if◌then◌else◌,
}
use strix_halo_rocm_toolkit.Results.{Result, ok, err, or_raise}
use strix_halo_rocm_toolkit.Exec.{pure, raise, lift, try_catch, ◌>>=◌, ◌>>◌}
use strix_halo_rocm_toolkit.Installer.Stages.{InstallStage}
use strix_halo_rocm_toolkit.Installer.Models.{
  InstallOptions, InstallState, Output, HostPlanPhase, StableRelease, VerifiedReleaseImages,
  plain_result,
}
use strix_halo_rocm_toolkit.Installer.Registry.{
  RegistryCandidate, RegistryError, policy_error, key_error, registry_candidates,
}
use strix_halo_rocm_toolkit.Installer.Workflow.Session.{
  set_release, set_kernel_plan, set_host_plan, Failure, interrupted, resume_changed,
  release_identity, release_acquisition, known, unexpected, detail, status, Env, Method, call, tell,
}
use strix_halo_rocm_toolkit.Installer.Workflow.Inputs.{source_or_pull, the_project_dir}
use mathlib.Core.List.{◌++◌ as append}
use strix_halo_rocm_toolkit.Installer.Workflow.Outcome.{join}
use strix_halo_rocm_toolkit.Installer.Workflow.Plans.{
  workflow_error, resolved_registry_policy, resolved_release, resolved_host_plan,
  resolved_kernel_plan, confirm_kernel_plan, confirm_host_plan, reboot_pending, prompting,
  image_disk_requirement, report_disk_requirement, require_disk_space,
}

-- A `RegistryPolicyError`, or the `KeyError` of its lookup, is none of the errors that `run` names.
abbrev pub from_registry : {A : Type 0} → Result RegistryError A → Result Failure A
from_registry (ok a) = ok a
from_registry (err (policy_error m)) = err (unexpected m)
from_registry (err (key_error m)) = err (unexpected m)

-- One attempt at a candidate: what the pull returned, or why it was unavailable.
pub data Pull : Type 0 where
  pulled : Option VerifiedReleaseImages → Pull
  unavailable : String → Pull

abbrev pub on_pull : {A : Type 0} → Pull → (Option VerifiedReleaseImages → A) → (String → A) → A
on_pull (pulled v) f g = f v
on_pull (unavailable m) f g = g m

module _ {W : Type 0} (env : Env W) (o : InstallOptions) where
  abbrev pub announce_fallback :
      RegistryCandidate → List RegistryCandidate → String → Method W (Unit {0})
  announce_fallback candidate [] safe_error = pure tt
  announce_fallback candidate (next ∷ _) safe_error =
      tell env (status "WARN" (candidate.label ++ " 获取失败，正在回退 " ++ next.label ++ "：" ++ safe_error))

  abbrev pub adopt :
      RegistryCandidate → Option VerifiedReleaseImages → Method W VerifiedReleaseImages
  adopt candidate answer =
      lift (or_raise answer (workflow_error "release pull returned invalid verified identities"))
      >>= λ verified.
          tell env (
            detail (
              "已采用仓库=" ++ candidate.label ++ "，base=" ++ verified.base.reference ++ "，torch="
              ++ verified.torch.reference))
          >> pure verified

  -- One round of the loop: the images, or why the candidate could not be acquired. Any exception
  -- but `ReleaseAcquisitionError` goes on.
  abbrev pub when_unavailable : RegistryCandidate → List RegistryCandidate → Failure → Method W Pull
  when_unavailable candidate rest (release_acquisition m) =
      announce_fallback candidate rest (env.safe_error m)
      >> pure (unavailable (candidate.name ++ ": " ++ env.safe_error m))
  when_unavailable candidate rest interrupted = raise interrupted
  when_unavailable candidate rest (resume_changed s e a) = raise (resume_changed s e a)
  when_unavailable candidate rest (release_identity m) = raise (release_identity m)
  when_unavailable candidate rest (known m) = raise (known m)
  when_unavailable candidate rest (unexpected m) = raise (unexpected m)

  abbrev pub pull_candidate : RegistryCandidate → List RegistryCandidate → Method W Pull
  pull_candidate candidate rest =
      tell env (detail ("当前仓库=" ++ candidate.label ++ "，来源=公开匿名镜像"))
      >> try_catch (call (env.pull_release candidate.release) >>= λ answer. pure (pulled answer))
          (when_unavailable candidate rest)

  -- The loop of `_pull_release_candidates` with the failures so far, and the raise behind it.
  unfoldable pub pull_candidates :
      List RegistryCandidate → List String → Method W VerifiedReleaseImages
  pull_candidates [] failures = raise (
      release_acquisition
        (env.safe_error ("all configured registries failed: " ++ join "; " failures)))
  pull_candidates (candidate ∷ rest) failures = pull_candidate candidate rest >>= λ attempt.
      on_pull attempt (λ answer. adopt candidate answer)
        (λ reason. pull_candidates rest (append failures (reason ∷ [])))

  -- `_pull_release_candidates`
  unfoldable pub pull_release_candidates : StableRelease → Method W VerifiedReleaseImages
  pull_release_candidates release = resolved_registry_policy env o >>= λ policy.
      lift (from_registry (registry_candidates release o.registry policy)) >>= λ candidates.
      pull_candidates candidates []

  abbrev pub build_local : Method W Output
  build_local = call (env.build_local_images o.source_root env.installer_source_revision)

  -- What follows a pull that no registry could serve: a local build, if the operator chooses it and
  -- the disk has room for it.
  abbrev pub fall_back : StableRelease → String → Method W Output
  fall_back release m =
      if o.non_interactive
      then raise (workflow_error ("exact release pull failed: " ++ m))
      else (prompting env o (call (env.choose_image_fallback)) >>= λ fallback.
          if not (opt_text_eq fallback (some "build"))
          then raise
              (workflow_error ("exact release pull failed and local build was refused: " ++ m))
          else (tell env (status "WARN" "exact release pull failed; using explicit local build")
              >> image_disk_requirement env o release "build"
              >>= λ requirement.
                  report_disk_requirement env o requirement
                  >> on_option (require_disk_space env o requirement) (build_local)
                      (λ shortage. raise (workflow_error shortage))))

  abbrev pub when_pull_fails : StableRelease → Failure → Method W Output
  when_pull_fails release (release_identity m) = raise (
      workflow_error
        ("release image identity verification failed; local fallback is forbidden: " ++ m))
  when_pull_fails release (release_acquisition m) = fall_back release m
  when_pull_fails release interrupted = raise interrupted
  when_pull_fails release (resume_changed s e a) = raise (resume_changed s e a)
  when_pull_fails release (known m) = raise (known m)
  when_pull_fails release (unexpected m) = raise (unexpected m)

  -- The stage IMAGE_PULL_OR_BUILD.
  unfoldable pub acquire_images : InstallState → Method W Output
  unfolding pull_release_candidates
  acquire_images st = resolved_release env o st >>= λ release.
      if str_eq (source_or_pull o.image_source) "pull"
      then try_catch (pull_release_candidates release >>= λ verified. pure (Output.images verified))
          (when_pull_fails release)
      else build_local

  abbrev pub the_user : InstallState → (String → Method W Output) → Method W Output
  the_user st f =
      on_option (st.target_user) (raise (workflow_error "host target user is unavailable"))
        (λ user. f user)

  -- The branches of `_dispatch`, for the project directory `dir`.
  unfoldable pub dispatch_in : String → InstallStage → InstallState → Method W Output
  unfolding acquire_images
  dispatch_in dir InstallStage.bootstrap st =
      call (env.bootstrap o.source_root env.installer_source_revision)
  dispatch_in dir InstallStage.container_host_check st = call (env.container_host_check)
  dispatch_in dir InstallStage.host_preflight st = call (env.host_preflight st.target_user)
  dispatch_in dir InstallStage.kernel_plan st = the_user st λ user.
      call (env.host_plan user HostPlanPhase.kernel) >>= λ plan.
      set_kernel_plan plan >> pure (Output.host_plan plan)
  dispatch_in dir InstallStage.kernel_confirm st =
      confirm_kernel_plan env o st >>= λ c. pure (Output.confirmation c)
  dispatch_in dir InstallStage.kernel_apply st =
      resolved_kernel_plan env o st >>= λ plan. call (env.host_apply plan false)
  dispatch_in dir InstallStage.kernel_reboot_pending st =
      reboot_pending env o st.kernel_reboot_boot_id (
        "manual reboot into the OEM 6.17 kernel is required; "
        ++ "reboot and rerun the same install command")
      >>= λ r. pure (Output.result r)
  dispatch_in dir InstallStage.kernel_verify st = the_user st λ user.
      call (env.kernel_verify user st.display_manager_was_loaded st.display_manager_was_active)
  dispatch_in dir InstallStage.host_plan st = the_user st λ user.
      call (env.host_plan user HostPlanPhase.tuning) >>= λ plan.
      set_host_plan plan >> pure (Output.host_plan plan)
  dispatch_in dir InstallStage.host_confirm st =
      confirm_host_plan env o st >>= λ c. pure (Output.confirmation c)
  dispatch_in dir InstallStage.host_apply st =
      resolved_host_plan env o st >>= λ plan. call (env.host_apply plan st.docker_group_accepted)
  dispatch_in dir InstallStage.host_verify st = the_user st λ user. call (env.host_verify user)
  dispatch_in dir InstallStage.release_resolve st =
      call (env.resolve_release o.stable_manifest_path) >>= λ release.
      set_release release >> pure (Output.release release)
  dispatch_in dir InstallStage.image_pull_or_build st = acquire_images st
  dispatch_in dir InstallStage.image_verify st =
      on_option (st.torch_image_reference)
        (raise (workflow_error "Torch image identity is unavailable"))
        (λ reference. call (env.verify_torch_image reference))
  dispatch_in dir InstallStage.project_init st = call (
      env.initialize_project dir o.project_name st.torch_image_reference st.torch_config_digest
        st.target_user)
  dispatch_in dir InstallStage.project_verify st = call (
      env.verify_project dir o.stable_manifest_path (not (opt_text_eq st.release_id (some "local")))
        st.target_user)
  dispatch_in dir InstallStage.complete st = pure (Output.result plain_result)

  -- `_dispatch`
  unfoldable pub dispatch : InstallStage → InstallState → Method W Output
  unfolding dispatch_in
  dispatch stage st = the_project_dir env o >>= λ dir. dispatch_in dir stage st
