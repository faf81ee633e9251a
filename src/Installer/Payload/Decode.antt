-- ===== src/Installer/Payload/Decode.antt =====
-- The decoding of a payload to a state (`_decode_state` in src/amd_ai/installer/state.py).
use strix_halo_rocm_toolkit.Prelude.{
  String, Bool, Option, none, some, List, [], ◌∷◌, find, str_eq, on_option, Dict, lookup,
  if◌then◌else◌,
}
use strix_halo_rocm_toolkit.Results.{Result, ok, need, ◌>>=◌}
use strix_halo_rocm_toolkit.Json.{
  Json, null, text, as_text, as_object, as_array, as_boolean, all_texts, cons_if,
}
use strix_halo_rocm_toolkit.Installer.Stages.{InstallMode, InstallStage, stage_value}
use strix_halo_rocm_toolkit.Installer.Models.{InstallState, Completed}
use strix_halo_rocm_toolkit.Installer.Validation.{validate_state}
use strix_halo_rocm_toolkit.Installer.Payload.{
  state_keys, require_schema_keys, as_number, migrate_payload,
}

-- `InstallMode(value)` and `InstallStage(value)`
abbrev mode_of : String → Option InstallMode
mode_of s =
    if str_eq s "full"
    then some InstallMode.full
    else if str_eq s "container"
    then some InstallMode.container
    else if str_eq s "doctor"
    then some InstallMode.doctor
    else none

abbrev stages : List InstallStage
stages =
    InstallStage.bootstrap ∷ InstallStage.host_preflight ∷ InstallStage.kernel_plan
    ∷ InstallStage.kernel_confirm ∷ InstallStage.kernel_apply ∷ InstallStage.kernel_reboot_pending
    ∷ InstallStage.kernel_verify ∷ InstallStage.host_plan ∷ InstallStage.host_confirm
    ∷ InstallStage.host_apply ∷ InstallStage.host_verify ∷ InstallStage.container_host_check
    ∷ InstallStage.release_resolve ∷ InstallStage.image_pull_or_build ∷ InstallStage.image_verify
    ∷ InstallStage.project_init ∷ InstallStage.project_verify ∷ InstallStage.complete ∷ []

abbrev stage_of : String → Option InstallStage
stage_of s = find (λ st. str_eq s (stage_value st)) stages

abbrev pub as_mode : Json → Option InstallMode
as_mode value = on_option (as_text value) none mode_of

abbrev pub as_stage : Json → Option InstallStage
as_stage value = on_option (as_text value) none stage_of

abbrev pub as_optional_text : Json → Option (Option String)
as_optional_text null = some none
as_optional_text (text s) = some (some s)
as_optional_text _ = none

abbrev pub as_texts : Json → Option (List String)
as_texts value = on_option (as_array value) none all_texts

abbrev pub both : Option InstallStage → Option String → Option (InstallStage × String)
both none _ = none
both (some s) none = none
both (some s) (some d) = some (s, d)

abbrev pub completed_of : Dict Json → Option Completed
completed_of [] = some []
completed_of ((k, v) ∷ d) = cons_if (both (stage_of k) (as_text v)) (completed_of d)

abbrev pub as_completed : Json → Option Completed
as_completed value = on_option (as_object value) none completed_of

-- One field of the payload, with its type.
unfoldable pub get : {A : Type 0} → (Json → Option A) → String → Dict Json → Result String A
get read key payload =
    need (on_option (lookup key payload) none read) "install state field is invalid" ok

-- `InstallState(**payload)`, before its checks.
unfoldable pub decode_fields : Dict Json → Result String InstallState
decode_fields p = get as_number "schema_version" p >>= λ schema_version.
    get as_text "installer_version" p >>= λ installer_version. get as_mode "mode" p >>= λ mode.
    get as_optional_text "target_user" p >>= λ target_user.
    get as_optional_text "release_id" p >>= λ release_id.
    get as_optional_text "source_revision" p >>= λ source_revision.
    get as_optional_text "base_image_reference" p >>= λ base_image_reference.
    get as_optional_text "base_manifest_digest" p >>= λ base_manifest_digest.
    get as_optional_text "torch_image_reference" p >>= λ torch_image_reference.
    get as_optional_text "torch_manifest_digest" p >>= λ torch_manifest_digest.
    get as_optional_text "project_path" p >>= λ project_path.
    get as_stage "current_stage" p >>= λ current_stage.
    get as_completed "completed_stage_input_digests" p >>= λ completed.
    get as_optional_text "reboot_boot_id" p >>= λ reboot_boot_id.
    get as_text "created_at" p >>= λ created_at. get as_text "updated_at" p >>= λ updated_at.
    get as_text "installer_source_revision" p >>= λ installer_source_revision.
    get as_text "source_root" p >>= λ source_root.
    get as_optional_text "host_plan_digest" p >>= λ host_plan_digest.
    get as_optional_text "host_adapter_id" p >>= λ host_adapter_id.
    get as_boolean "docker_group_accepted" p >>= λ docker_group_accepted.
    get as_optional_text "base_config_digest" p >>= λ base_config_digest.
    get as_optional_text "torch_config_digest" p >>= λ torch_config_digest.
    get as_texts "last_report_paths" p >>= λ last_report_paths.
    get as_optional_text "host_verification_status" p >>= λ host_verification_status.
    get as_optional_text "host_kernel" p >>= λ host_kernel.
    get as_texts "host_verification_findings" p >>= λ host_verification_findings.
    get as_optional_text "kernel_plan_digest" p >>= λ kernel_plan_digest.
    get as_optional_text "kernel_reboot_boot_id" p >>= λ kernel_reboot_boot_id.
    get as_optional_text "recovery_kernel" p >>= λ recovery_kernel.
    get as_boolean "display_manager_was_loaded" p >>= λ display_manager_was_loaded.
    get as_boolean "display_manager_was_active" p >>= λ display_manager_was_active.
    get as_optional_text "kernel_verification_status" p >>= λ kernel_verification_status.
    get as_optional_text "kernel_kernel" p >>= λ kernel_kernel.
    get as_texts "kernel_verification_findings" p >>= λ kernel_verification_findings. ok (record {
      schema_version = schema_version;
      installer_version = installer_version;
      mode = mode;
      target_user = target_user;
      release_id = release_id;
      source_revision = source_revision;
      base_image_reference = base_image_reference;
      base_manifest_digest = base_manifest_digest;
      torch_image_reference = torch_image_reference;
      torch_manifest_digest = torch_manifest_digest;
      project_path = project_path;
      current_stage = current_stage;
      completed = completed;
      reboot_boot_id = reboot_boot_id;
      created_at = created_at;
      updated_at = updated_at;
      installer_source_revision = installer_source_revision;
      source_root = source_root;
      host_plan_digest = host_plan_digest;
      host_adapter_id = host_adapter_id;
      docker_group_accepted = docker_group_accepted;
      base_config_digest = base_config_digest;
      torch_config_digest = torch_config_digest;
      last_report_paths = last_report_paths;
      host_verification_status = host_verification_status;
      host_kernel = host_kernel;
      host_verification_findings = host_verification_findings;
      kernel_plan_digest = kernel_plan_digest;
      kernel_reboot_boot_id = kernel_reboot_boot_id;
      recovery_kernel = recovery_kernel;
      display_manager_was_loaded = display_manager_was_loaded;
      display_manager_was_active = display_manager_was_active;
      kernel_verification_status = kernel_verification_status;
      kernel_kernel = kernel_kernel;
      kernel_verification_findings = kernel_verification_findings;
    })

-- `_decode_state`, on the dict that `json.loads` returned, with the checks of the state.
unfoldable pub decode_state : (String → Bool) → Dict Json → Result String InstallState
decode_state is_normalized payload = migrate_payload payload >>= λ migrated.
    require_schema_keys migrated state_keys
      (decode_fields migrated >>= λ state. validate_state is_normalized state)
