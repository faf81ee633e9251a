-- ===== src/Installer/Payload.antt =====
-- The JSON form of a state (src/amd_ai/installer/state.py): its payload, the migration of the older
-- schemas, and the decoding. A payload is the dict that `json.loads` returns. Three texts that no check
-- of the source covers (the release ID and the two image references) must be texts here too.
pub mod Decode
pub mod Migration
pub mod RoundTrip
pub mod Tests
use strix_halo_rocm_toolkit.Prelude.{
  ℕ, ◌==◌, String, Bool, true, false, not, ◌&&◌, ◌||◌, Option, none, some, List, [], ◌∷◌, map, any,
  find, str_eq, text_in, on_option, Dict, lookup, has_key, insert, if◌then◌else◌,
}
use mathlib.Core.List.{◌++◌}
use strix_halo_rocm_toolkit.Results.{Result, ok, err, check, need, branch, ◌>>=◌}
use strix_halo_rocm_toolkit.Json.{
  Json, Fields, Items, null, boolean, number, text, array, object, no_fields, no_items, field, item,
  as_text, as_object, as_array, as_boolean, all_texts, text_values, text_is, fields_of, items_of,
  cons_if,
}
use strix_halo_rocm_toolkit.Installer.Stages.{InstallMode, InstallStage, mode_value, stage_value}
use strix_halo_rocm_toolkit.Installer.Models.{InstallState, Completed}
use strix_halo_rocm_toolkit.Installer.Validation.{validate_state}

-- `STATE_KEYS_V1`, `STATE_KEYS_V2` and `STATE_KEYS`
abbrev pub state_keys_v1 : List String
state_keys_v1 =
    "schema_version" ∷ "installer_version" ∷ "mode" ∷ "target_user" ∷ "release_id"
    ∷ "source_revision" ∷ "base_image_reference" ∷ "base_manifest_digest" ∷ "torch_image_reference"
    ∷ "torch_manifest_digest" ∷ "project_path" ∷ "current_stage" ∷ "completed_stage_input_digests"
    ∷ "reboot_boot_id" ∷ "created_at" ∷ "updated_at" ∷ "installer_source_revision" ∷ "source_root"
    ∷ "host_plan_digest" ∷ "host_adapter_id" ∷ "docker_group_accepted" ∷ "base_config_digest"
    ∷ "torch_config_digest" ∷ "last_report_paths" ∷ []

abbrev pub state_keys_v2 : List String
state_keys_v2 =
    state_keys_v1
    ++ ("host_verification_status" ∷ "host_kernel" ∷ "host_verification_findings" ∷ [])

abbrev pub early_state_keys : List String
early_state_keys =
    state_keys_v2
    ++ ("kernel_plan_digest" ∷ "kernel_reboot_boot_id" ∷ "recovery_kernel"
        ∷ "display_manager_was_active" ∷ "kernel_verification_status" ∷ "kernel_kernel"
        ∷ "kernel_verification_findings" ∷ [])

abbrev pub state_keys : List String
state_keys = "display_manager_was_loaded" ∷ early_state_keys

-- `{**payload, key: value, …}`
abbrev pub update : Dict Json → Dict Json → Dict Json
update payload [] = payload
update payload ((k, v) ∷ values) = update (insert k v payload) values

-- `_require_schema_keys`, before the rest.
abbrev has_unknown : Dict Json → List String → Bool
has_unknown payload expected = any (λ (e : String × Json). not (text_in e.0 expected)) payload

abbrev has_missing : Dict Json → List String → Bool
has_missing payload expected = any (λ k. not (has_key k payload)) expected

abbrev pub require_schema_keys :
    {B : Type 0} → Dict Json → List String → Result String B → Result String B
require_schema_keys payload expected rest =
    check (has_unknown payload expected) "unknown install state keys"
      (check (has_missing payload expected) "missing install state keys" rest)

-- What `_restart_full_host_audit` resets.
abbrev pub audit_reset : Dict Json
audit_reset =
    ("current_stage", text "BOOTSTRAP")
    ∷ ("completed_stage_input_digests", object no_fields)
    ∷ ("reboot_boot_id", null)
    ∷ ("kernel_plan_digest", null)
    ∷ ("kernel_reboot_boot_id", null)
    ∷ ("recovery_kernel", null)
    ∷ ("display_manager_was_loaded", boolean false)
    ∷ ("display_manager_was_active", boolean false)
    ∷ ("kernel_verification_status", null)
    ∷ ("kernel_kernel", null)
    ∷ ("kernel_verification_findings", array no_items)
    ∷ ("host_plan_digest", null)
    ∷ ("host_adapter_id", null)
    ∷ ("docker_group_accepted", boolean false)
    ∷ ("host_verification_status", null)
    ∷ ("host_kernel", null)
    ∷ ("host_verification_findings", array no_items)
    ∷ []

-- `_restart_full_host_audit`
unfoldable pub restart_full_host_audit : Dict Json → Dict Json
restart_full_host_audit payload = update payload audit_reset

abbrev pub is_full : Dict Json → Bool
is_full payload = text_is (lookup "mode" payload) "full"

-- What `_migrate_schema_two` adds.
abbrev pub kernel_defaults : Dict Json
kernel_defaults =
    ("schema_version", number 3)
    ∷ ("kernel_plan_digest", null)
    ∷ ("kernel_reboot_boot_id", null)
    ∷ ("recovery_kernel", null)
    ∷ ("display_manager_was_loaded", boolean false)
    ∷ ("display_manager_was_active", boolean false)
    ∷ ("kernel_verification_status", null)
    ∷ ("kernel_kernel", null)
    ∷ ("kernel_verification_findings", array no_items)
    ∷ []

-- `_migrate_schema_two`
unfoldable pub migrate_schema_two : Dict Json → Dict Json
migrate_schema_two payload =
    if is_full payload
    then restart_full_host_audit (update payload kernel_defaults)
    else update payload kernel_defaults

-- What the migration of schema 1 adds.
abbrev pub host_defaults : Dict Json
host_defaults =
    ("schema_version", number 2)
    ∷ ("host_verification_status", null)
    ∷ ("host_kernel", null)
    ∷ ("host_verification_findings", array no_items)
    ∷ []

abbrev pub as_number : Json → Option ℕ
as_number (number n) = some n
as_number _ = none

-- The end of `_migrate_payload`, for a payload of schema 3.
unfoldable pub migrate_early : Dict Json → Result String (Dict Json)
migrate_early payload = branch (has_key "display_manager_was_loaded" payload) (ok payload) (
    require_schema_keys payload early_state_keys (
      branch (is_full payload)
        (ok (restart_full_host_audit (insert "display_manager_was_loaded" (boolean false) payload)))
        (ok (insert "display_manager_was_loaded" (boolean false) payload))))

-- Its middle, for a payload of schema 2; what it returns has the key that `migrate_early` tests.
unfoldable pub migrate_two : Dict Json → Result String (Dict Json)
migrate_two payload =
    require_schema_keys payload state_keys_v2 (migrate_early (migrate_schema_two payload))

-- `_migrate_payload`
unfoldable pub migrate_payload : Dict Json → Result String (Dict Json)
migrate_payload payload =
    need (on_option (lookup "schema_version" payload) none as_number)
      "install state schema version is invalid"
      (λ version.
        branch (version == 1)
          (require_schema_keys payload state_keys_v1 (migrate_two (update payload host_defaults)))
          (branch (version == 2) (migrate_two payload) (
            branch (version == 3) (migrate_early payload)
              (err "install state schema version is invalid"))))

-- An optional text, and the other values, as JSON.
abbrev pub optional_text : Option String → Json
optional_text value = on_option value null text

abbrev pub text_array : List String → Json
text_array values = array (items_of (map text values))

abbrev pub completed_fields : Completed → Dict Json
completed_fields c = map (λ (e : InstallStage × String). (stage_value e.0, text e.1)) c

-- `_state_payload`
unfoldable pub state_payload : InstallState → Dict Json
state_payload st =
    ("schema_version", number st.schema_version)
    ∷ ("installer_version", text st.installer_version)
    ∷ ("mode", text (mode_value st.mode))
    ∷ ("target_user", optional_text st.target_user)
    ∷ ("release_id", optional_text st.release_id)
    ∷ ("source_revision", optional_text st.source_revision)
    ∷ ("base_image_reference", optional_text st.base_image_reference)
    ∷ ("base_manifest_digest", optional_text st.base_manifest_digest)
    ∷ ("torch_image_reference", optional_text st.torch_image_reference)
    ∷ ("torch_manifest_digest", optional_text st.torch_manifest_digest)
    ∷ ("project_path", optional_text st.project_path)
    ∷ ("current_stage", text (stage_value st.current_stage))
    ∷ ("completed_stage_input_digests", object (fields_of (completed_fields st.completed)))
    ∷ ("reboot_boot_id", optional_text st.reboot_boot_id)
    ∷ ("created_at", text st.created_at)
    ∷ ("updated_at", text st.updated_at)
    ∷ ("installer_source_revision", text st.installer_source_revision)
    ∷ ("source_root", text st.source_root)
    ∷ ("host_plan_digest", optional_text st.host_plan_digest)
    ∷ ("host_adapter_id", optional_text st.host_adapter_id)
    ∷ ("docker_group_accepted", boolean st.docker_group_accepted)
    ∷ ("base_config_digest", optional_text st.base_config_digest)
    ∷ ("torch_config_digest", optional_text st.torch_config_digest)
    ∷ ("last_report_paths", text_array st.last_report_paths)
    ∷ ("host_verification_status", optional_text st.host_verification_status)
    ∷ ("host_kernel", optional_text st.host_kernel)
    ∷ ("host_verification_findings", text_array st.host_verification_findings)
    ∷ ("kernel_plan_digest", optional_text st.kernel_plan_digest)
    ∷ ("kernel_reboot_boot_id", optional_text st.kernel_reboot_boot_id)
    ∷ ("recovery_kernel", optional_text st.recovery_kernel)
    ∷ ("display_manager_was_loaded", boolean st.display_manager_was_loaded)
    ∷ ("display_manager_was_active", boolean st.display_manager_was_active)
    ∷ ("kernel_verification_status", optional_text st.kernel_verification_status)
    ∷ ("kernel_kernel", optional_text st.kernel_kernel)
    ∷ ("kernel_verification_findings", text_array st.kernel_verification_findings)
    ∷ []
