-- ===== src/Installer/Payload/Tests.antt =====
-- Concrete payloads.
use strix_halo_rocm_toolkit.Prelude.{
  ◌≡◌, refl, ◌≢◌, inl, String, Bool, true, false, none, some, [], ◌∷◌, Dict, lookup,
}
use strix_halo_rocm_toolkit.Results.{Result, ok, err, check, need, branch}
use strix_halo_rocm_toolkit.Json.{
  Json, null, boolean, number, text, array, object, no_fields, no_items,
}
use strix_halo_rocm_toolkit.Regex.{fullmatch}
use strix_halo_rocm_toolkit.Installer.Stages.{InstallMode, InstallStage}
use strix_halo_rocm_toolkit.Installer.Models.{InstallState}
use strix_halo_rocm_toolkit.Installer.Validation.{validate_state, verification_identity}
use strix_halo_rocm_toolkit.Installer.Payload.{
  state_payload, migrate_payload, migrate_two, migrate_early, migrate_schema_two,
  restart_full_host_audit,
}
use strix_halo_rocm_toolkit.Installer.Payload.Decode.{decode_state}
use strix_halo_rocm_toolkit.Installer.Payload.RoundTrip.{decode_state-state_payload}
use strix_halo_rocm_toolkit.Installer.Payload.Migration.{
  Restarted, SameElsewhere, migrate_payload-Restarts, migrate_payload-SameElsewhere,
}

abbrev a_revision : String
a_revision = "0123456789abcdef0123456789abcdef01234567"

abbrev a_digest : String
a_digest = "0123456789abcdef0123456789abcdef0123456789abcdef0123456789abcdef"

abbrev saved : InstallState
saved = record {
  schema_version = 3;
  installer_version = "1.0";
  mode = InstallMode.container;
  target_user = some "amd_user";
  release_id = some "1.0.0";
  source_revision = some a_revision;
  base_image_reference = none;
  base_manifest_digest = none;
  torch_image_reference = none;
  torch_manifest_digest = none;
  project_path = some "/p";
  current_stage = InstallStage.release_resolve;
  completed = (InstallStage.bootstrap, a_digest) ∷ [];
  reboot_boot_id = some "01234567-89ab-cdef-0123-456789abcdef";
  created_at = "t";
  updated_at = "t";
  installer_source_revision = a_revision;
  source_root = "/s";
  host_plan_digest = none;
  host_adapter_id = none;
  docker_group_accepted = false;
  base_config_digest = none;
  torch_config_digest = none;
  last_report_paths = [];
  host_verification_status = some "pass";
  host_kernel = some "6.17.0-1007-oem";
  host_verification_findings = "HOST.SWAP_DISABLED" ∷ [];
  kernel_plan_digest = none;
  kernel_reboot_boot_id = none;
  recovery_kernel = none;
  display_manager_was_loaded = false;
  display_manager_was_active = false;
  kernel_verification_status = none;
  kernel_kernel = none;
  kernel_verification_findings = [];
}

abbrev any_path : String → Bool
any_path _ = true

valid_run : validate_state any_path saved ≡ ok saved
unfolding validate_state verification_identity check fullmatch
valid_run = refl

decode_state-state_payload_example : decode_state any_path (state_payload saved) ≡ ok saved
decode_state-state_payload_example = decode_state-state_payload any_path saved valid_run

-- A payload of schema 1.
abbrev old_payload : String → Dict Json
old_payload mode =
    ("schema_version", number 1)
    ∷ ("installer_version", text "1.0")
    ∷ ("mode", text mode)
    ∷ ("target_user", null)
    ∷ ("release_id", null)
    ∷ ("source_revision", null)
    ∷ ("base_image_reference", null)
    ∷ ("base_manifest_digest", null)
    ∷ ("torch_image_reference", null)
    ∷ ("torch_manifest_digest", null)
    ∷ ("project_path", text "/p")
    ∷ ("current_stage", text "COMPLETE")
    ∷ ("completed_stage_input_digests", object no_fields)
    ∷ ("reboot_boot_id", null)
    ∷ ("created_at", text "t")
    ∷ ("updated_at", text "t")
    ∷ ("installer_source_revision", text a_revision)
    ∷ ("source_root", text "/s")
    ∷ ("host_plan_digest", null)
    ∷ ("host_adapter_id", null)
    ∷ ("docker_group_accepted", boolean true)
    ∷ ("base_config_digest", null)
    ∷ ("torch_config_digest", null)
    ∷ ("last_report_paths", array no_items)
    ∷ []

abbrev migrated : String → Dict Json
migrated mode = on_ok (migrate_payload (old_payload mode))
  where
    on_ok : Result String (Dict Json) → Dict Json
    on_ok (ok q) = q
    on_ok (err _) = []

full_run : migrate_payload (old_payload "full") ≡ ok (migrated "full")
unfolding migrate_payload migrate_two migrate_early migrate_schema_two restart_full_host_audit check
    need branch
full_run = refl

container_run : migrate_payload (old_payload "container") ≡ ok (migrated "container")
unfolding migrate_payload migrate_two migrate_early migrate_schema_two restart_full_host_audit check
    need branch
container_run = refl

schema_one : lookup "schema_version" (old_payload "full") ≢ some (number 3)
schema_one h = cc

migrate_payload-Restarts_example : Restarted (migrated "full")
migrate_payload-Restarts_example =
    migrate_payload-Restarts (old_payload "full") refl (inl schema_one) full_run

migrate_payload-SameElsewhere_example :
    SameElsewhere (old_payload "container") (migrated "container")
migrate_payload-SameElsewhere_example =
    migrate_payload-SameElsewhere (old_payload "container") refl container_run
