-- ===== src/Installer/Workflow/Plans.antt =====
-- What a stage relies on: the release and the host plans that were authorised, their confirmation,
-- the reboot, and the disk space (workflow.py).
use Prim.Native.String.{◌++◌}
use strix_halo_rocm_toolkit.Prelude.{
  on_option, ℕ, ◌+◌, ◌*◌, String, Bool, true, false, not, ◌||◌, Option, none, some, str_eq,
  opt_text_eq, ltb, if◌then◌else◌,
}
use strix_halo_rocm_toolkit.Results.{Result, ok, err, or_raise}
use strix_halo_rocm_toolkit.Exec.{pure, raise, lift, gets, for_each, try_finally, ◌>>=◌, ◌>>◌}
use strix_halo_rocm_toolkit.Installer.Stages.{InstallStage}
use strix_halo_rocm_toolkit.Installer.Models.{
  InstallOptions, InstallState, HostPlanPhase, HostPlanResult, HostConfirmation, StableRelease,
  StageResult, plain_result, DiskSpaceEstimate, PlannedAction, is_kernel_phase,
}
use strix_halo_rocm_toolkit.Installer.Registry.{RegistryPolicy}
use strix_halo_rocm_toolkit.Installer.Workflow.Session.{
  set_release, set_kernel_plan, set_host_plan, Failure, known, unexpected, status, detail, debug,
  pause_heartbeat, resume_heartbeat, Env, Method, call, tell,
}
use strix_halo_rocm_toolkit.Installer.Workflow.Inputs.{source_or_pull, the_project_dir}

abbrev pub workflow_error : String → Failure
workflow_error = known

abbrev pub gib : ℕ
gib = 1073741824

pub record DiskRequirement : Type 0 where
  pub operation : String
  pub source : String
  pub payload_label : String
  pub estimate : DiskSpaceEstimate
  pub required_bytes : ℕ

module _ {W : Type 0} (env : Env W) (o : InstallOptions) where
  -- `_resolved_registry_policy`
  unfoldable pub resolved_registry_policy : Method W RegistryPolicy
  resolved_registry_policy = gets (λ s. s.registry_policy) >>= λ policy.
      lift (or_raise policy (workflow_error "registry policy is unavailable"))

  -- The release of the manifest, read once in a run.
  abbrev pub cached_release : Method W StableRelease
  cached_release = gets (λ s. s.release) >>= λ cached.
      on_option cached
        (call (env.load_release o.stable_manifest_path) >>= λ release.
          set_release release >> pure release)
        (λ release. pure release)

  -- `_resolved_release`
  unfoldable pub resolved_release : InstallState → Method W StableRelease
  resolved_release st = cached_release >>= λ release.
      if not (opt_text_eq st.release_id (some release.release_id))
        || not (opt_text_eq st.source_revision (some release.source_revision))
      then raise (workflow_error "persisted release identity does not match manifest")
      else pure release

  abbrev pub cached_host_plan : String → Method W HostPlanResult
  cached_host_plan user = gets (λ s. s.host_plan) >>= λ cached.
      on_option cached
        (call (env.host_plan user HostPlanPhase.tuning) >>= λ plan. set_host_plan plan >> pure plan)
        (λ plan. pure plan)

  -- `_resolved_host_plan`
  unfoldable pub resolved_host_plan : InstallState → Method W HostPlanResult
  resolved_host_plan st =
      on_option (st.target_user)
        (raise (workflow_error "persisted host plan identity is unavailable"))
        (λ user.
          on_option (st.host_plan_digest)
            (raise (workflow_error "persisted host plan identity is unavailable"))
            (λ digest. cached_host_plan user >>= λ plan.
              if not (str_eq plan.plan_digest digest)
                || not (opt_text_eq (some plan.adapter_id) st.host_adapter_id)
              then raise (
                  workflow_error "host plan digest changed after authorization; replan is required")
              else pure plan))

  abbrev pub cached_kernel_plan : String → Method W HostPlanResult
  cached_kernel_plan user = gets (λ s. s.kernel_plan) >>= λ cached.
      on_option cached
        (call (env.host_plan user HostPlanPhase.kernel) >>= λ plan.
          set_kernel_plan plan >> pure plan)
        (λ plan. pure plan)

  -- `_resolved_kernel_plan`
  unfoldable pub resolved_kernel_plan : InstallState → Method W HostPlanResult
  resolved_kernel_plan st =
      on_option (st.target_user)
        (raise (workflow_error "persisted kernel plan identity is unavailable"))
        (λ user.
          on_option (st.kernel_plan_digest)
            (raise (workflow_error "persisted kernel plan identity is unavailable"))
            (λ digest. cached_kernel_plan user >>= λ plan.
              if not (str_eq plan.plan_digest digest)
                || not (opt_text_eq (some plan.adapter_id) st.host_adapter_id)
                || not (is_kernel_phase plan.plan.phase)
              then raise (
                  workflow_error
                    "kernel plan digest changed after authorization; replan is required")
              else pure plan))

  abbrev show_action : PlannedAction → Method W (Unit {0})
  show_action a = tell env (status "ACTION" (a.code ++ ": " ++ a.summary))

  -- A prompt, with the heartbeat of the progress display paused.
  abbrev pub prompting : {A : Type 0} → Method W A → Method W A
  prompting m = tell env pause_heartbeat >> try_finally m (tell env resume_heartbeat)

  abbrev refused : String → HostConfirmation
  refused message = record { accepted = false; docker_group_accepted = false; message = message }

  abbrev agreed : Bool → HostConfirmation
  agreed docker = record { accepted = true; docker_group_accepted = docker; message = "" }

  -- `_confirm_kernel_plan`
  unfoldable pub confirm_kernel_plan : InstallState → Method W HostConfirmation
  unfolding resolved_kernel_plan
  confirm_kernel_plan st = resolved_kernel_plan st >>= λ plan.
      for_each show_action plan.plan.actions
      >> tell env (
          status "ACTION" (
            "Recovery kernel retained: " ++ plan.running_kernel
            ++ ". If the desktop fails, reboot and select it under Advanced options for Ubuntu."))
      >> (if o.non_interactive
          then (if not (opt_text_eq o.accepted_kernel_plan_digest (some plan.plan_digest))
              then pure (
                  refused ("kernel plan requires --accept-kernel-plan-digest " ++ plan.plan_digest))
              else pure (agreed false))
          else prompting (call (env.confirm_exact "INSTALL-KERNEL")) >>= λ accepted.
              if not accepted
              then pure
                  (refused "kernel plan confirmation refused; exact INSTALL-KERNEL is required")
              else pure (agreed false))

  -- `_confirm_host_plan`
  unfoldable pub confirm_host_plan : InstallState → Method W HostConfirmation
  unfolding resolved_host_plan
  confirm_host_plan st = resolved_host_plan st >>= λ plan.
      for_each show_action plan.plan.actions
      >> (if o.non_interactive
          then (if not (opt_text_eq o.accepted_host_plan_digest (some plan.plan_digest))
              then pure (
                  refused
                    ("host platform plan requires --accept-host-plan-digest " ++ plan.plan_digest))
              else pure (agreed o.accept_docker_group))
          else prompting (call (env.confirm_exact "APPLY")) >>= λ accepted.
              if not accepted
              then pure (refused "host plan confirmation refused; exact APPLY is required")
              else (if not (str_eq plan.plan.target_user "root")
                  then (prompting (call (env.confirm_yes_no "docker-group")) >>= λ docker_group.
                      pure (agreed docker_group))
                  else pure (agreed false)))

  -- `_canonical_boot_id` (state.py)
  unfoldable pub canonical_boot_id : String → Result Failure String
  canonical_boot_id value = elim (env.canonical_uuid value) [
    | none ↦ err (unexpected "boot ID is not a canonical UUID")
    | some canonical ↦
        if not (str_eq value canonical)
        then err (unexpected "boot ID is not a canonical UUID")
        else ok canonical
  ]

  -- `boot_id_changed` (state.py)
  unfoldable pub boot_id_changed : String → String → Method W Bool
  unfolding canonical_boot_id
  boot_id_changed previous current = lift (canonical_boot_id previous) >>= λ before.
      lift (canonical_boot_id current) >>= λ after. pure (not (str_eq after before))

  -- `_reboot_pending`
  unfoldable pub reboot_pending : Option String → String → Method W StageResult
  unfolding boot_id_changed
  reboot_pending none message = pure plain_result
  reboot_pending (some previous) message = call (env.read_boot_id) >>= λ current.
      boot_id_changed previous current >>= λ changed.
      if changed
      then pure plain_result
      else pure (record plain_result { action_required = true; message = message })

  abbrev image_label : String → DiskSpaceEstimate → String
  image_label image_source estimate =
      if str_eq image_source "build" then "本地源码构建" else elim (estimate.source_label) [
        | some label ↦ "公开镜像（" ++ label ++ "）"
        | none ↦
            if str_eq o.registry "auto"
            then "公开镜像（华为 SWR 优先，GHCR 回退）"
            else if str_eq o.registry "swr"
            then "公开镜像（仅华为 SWR）"
            else "公开镜像（仅 GHCR）"
      ]

  -- `_image_disk_requirement`
  unfoldable pub image_disk_requirement : StableRelease → String → Method W DiskRequirement
  image_disk_requirement release image_source =
      let operation = if str_eq image_source "build" then "image build" else "image acquisition" in
      resolved_registry_policy >>= λ policy.
      call (env.image_disk_estimate release image_source o.registry policy) >>= λ answer.
      lift (or_raise answer (workflow_error (operation ++ " returned an invalid disk estimate")))
      >>= λ estimate. pure (record {
        operation = operation;
        source = image_label image_source estimate;
        payload_label = if str_eq image_source "build" then "构建估算" else "缺失层";
        estimate = estimate;
        required_bytes = estimate.payload_bytes + 5 * gib;
      })

  -- `_disk_requirement`
  unfoldable pub disk_requirement : InstallStage → InstallState → Method W (Option DiskRequirement)
  unfolding resolved_release image_disk_requirement
  disk_requirement InstallStage.image_pull_or_build st = resolved_release st >>= λ release.
      image_disk_requirement release (source_or_pull o.image_source) >>= λ requirement.
      pure (some requirement)
  disk_requirement InstallStage.project_init st = the_project_dir env o >>= λ dir.
      call (env.project_disk_estimate dir) >>= λ answer.
      lift (or_raise answer (workflow_error "project generation returned an invalid disk estimate"))
      >>= λ estimate. pure (
          some (record {
            operation = "project generation";
            source = "项目文件系统";
            payload_label = "项目数据";
            estimate = estimate;
            required_bytes = estimate.payload_bytes * 2 + gib;
          }))
  disk_requirement _ st = pure none

  -- `_report_disk_requirement`
  unfoldable pub report_disk_requirement : DiskRequirement → Method W (Unit {0})
  report_disk_requirement r =
      tell env (
        detail (
          r.payload_label
          ++ "="
          ++ env.format_gib r.estimate.payload_bytes
          ++ " GiB，需要="
          ++ env.format_gib r.required_bytes
          ++ " GiB，可用="
          ++ env.format_gib r.estimate.available_bytes
          ++ " GiB，位置="
          ++ r.estimate.location
          ++ "，来源="
          ++ r.source))
      >> tell env (
          debug (
            "disk operation="
            ++ r.operation
            ++ " payload_bytes="
            ++ env.decimal r.estimate.payload_bytes
            ++ " required_bytes="
            ++ env.decimal r.required_bytes
            ++ " available_bytes="
            ++ env.decimal r.estimate.available_bytes
            ++ " location="
            ++ r.estimate.location
            ++ " source="
            ++ r.source))
      >> (if not r.estimate.blocking
          then tell env (status "WARN" "远端镜像清单空间估算不可确认；当前数值仅供参考，不作为硬门禁，将继续由 Docker 尝试获取")
          else pure tt)

  -- `_require_disk_space`: the message of a shortage.
  unfoldable pub require_disk_space : DiskRequirement → Option String
  require_disk_space r =
      if not r.estimate.blocking
      then none
      else if ltb r.required_bytes r.estimate.available_bytes
      then none
      else some (
          r.operation
          ++ " disk space is insufficient at "
          ++ r.estimate.location
          ++ ": required_bytes="
          ++ env.decimal r.required_bytes
          ++ ", available_bytes="
          ++ env.decimal r.estimate.available_bytes)
