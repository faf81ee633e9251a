-- ===== src/Doctor/Execute/Tests.antt =====
-- A concrete report, its plan, and its repair.
use strix_halo_rocm_toolkit.Prelude.{◌≡◌, refl, String, false, some, List, [], ◌∷◌}
use strix_halo_rocm_toolkit.Results.{
  Result, ok, ◌>>=◌, check as checked, need as needed, on_value, raise_as,
}
use strix_halo_rocm_toolkit.Exec.{Exec, pure, modify, lift, check, need}
use strix_halo_rocm_toolkit.Exec.Ensures.{Ensures-pure}
use strix_halo_rocm_toolkit.Json.{text}
use strix_halo_rocm_toolkit.Regex.{fullmatch}
use strix_halo_rocm_toolkit.Paths.{parse_path, path_text, path_eq}
use strix_halo_rocm_toolkit.Installer.Registry.{RegistryPolicy}
use strix_halo_rocm_toolkit.Installer.Models.{StableRelease, ReleaseImage}
use strix_halo_rocm_toolkit.Doctor.Models.{
  DiagnosticDisposition, Diagnostic, DoctorReport, repair_action, is_exact, report_status,
}
use strix_halo_rocm_toolkit.Doctor.Plan.{
  RepairPlan, plan_repair, planned_actions, parent_actions, project_actions, removal_actions,
  overlay_actions, project_config_path, normalized_absolute, load_report_release,
}
use strix_halo_rocm_toolkit.Doctor.Plan.Exact.{IsSafe, plan_repair-IsSafe}
use strix_halo_rocm_toolkit.Doctor.Execute.{RepairExecutor, execute_repair, repair_body, guarded}
use strix_halo_rocm_toolkit.Doctor.Execute.Removal.{other_removal, execute_repair-keeps_built}
use strix_halo_rocm_toolkit.Doctor.Execute.Repaired.{IsRepaired, execute_repair-IsRepaired}

abbrev an_image : ReleaseImage
an_image = record {
  image = "ghcr.io/a/b";
  manifest_digest = "m";
  config_digest = "c";
  artifact_digests = [];
}

abbrev a_release : StableRelease
a_release = record {
  schema_version = 1;
  release_id = "1.0.0";
  source_repository = "";
  source_revision = "";
  qualification_profile_digest = "";
  qualification_report_digest = "";
  sbom_digest = "";
  gpu_arch = "gfx1151";
  supported_host_adapter_ids = [];
  rocm_version = "7.2.1";
  python_version = "3.12";
  torch_version = "2.9.1";
  torch_profile_id = "p";
  torch_profile_digest = "";
  base = an_image;
  torch = an_image;
  published_at = "";
}

abbrev no_policy : RegistryPolicy
no_policy = record { schema_version = 1; default_order = []; sources = [] }

abbrev old_id : String
old_id = "sha256:00000000000000000000000000000000000000000000000000000000000000aa"

abbrev new_id : String
new_id = "sha256:00000000000000000000000000000000000000000000000000000000000000bb"

abbrev the_diagnostic : DiagnosticDisposition → Diagnostic
the_diagnostic disposition = record {
  code = "IMAGE.PROJECT_CHANGED";
  disposition = disposition;
  summary = "";
  evidence = "";
  remediation = "";
}

abbrev the_report : DiagnosticDisposition → DoctorReport
the_report disposition = record {
  schema_version = 1;
  generated_at = "2026-01-01T00:00:00Z";
  project = some "/home/a/p";
  facts =
      ("manifest", text "/m")
      ∷ ("project_config", text "/home/a/p/amd-ai-project.toml")
      ∷ ("project_image_id", text old_id)
      ∷ [];
  diagnostics = the_diagnostic disposition ∷ [];
  status = report_status (the_diagnostic disposition ∷ []);
}

abbrev loaded : String → Result String StableRelease
loaded _ = ok a_release

abbrev the_plan : RepairPlan
the_plan = record {
  report = the_report DiagnosticDisposition.repairable;
  release = some a_release;
  project_path = some (parse_path "/home/a/p");
  actions =
      record {
        kind = "remove-project-image";
        exact_target = old_id;
        reason_code = "IMAGE.PROJECT_CHANGED";
      }
      ∷ record {
        kind = "build-project-image";
        exact_target = "/home/a/p/amd-ai-project.toml";
        reason_code = "IMAGE.PROJECT_CHANGED";
      }
      ∷ [];
  blocked = false;
  blocked_reasons = [];
}

plan_run : plan_repair loaded no_policy (the_report DiagnosticDisposition.repairable) ≡ ok the_plan
unfolding plan_repair load_report_release planned_actions parent_actions project_actions
    removal_actions overlay_actions project_config_path normalized_absolute repair_action is_exact
    parse_path path_text path_eq fullmatch on_value raise_as checked needed ◌>>=◌ report_status
plan_run = refl

-- The executor notes what it did.
abbrev noting : RepairExecutor (List String)
noting = record {
  pull_and_verify = λ release reference. modify (λ log. "pull" ∷ log);
  remove_image_id = λ id. modify (λ log. "remove" ∷ id ∷ log);
  build_project = λ project digest. pure new_id;
  repair_overlay = λ project reason. modify (λ log. "replay" ∷ log);
  doctor = λ project. pure (the_report DiagnosticDisposition.pass);
}

execute_run :
    execute_repair noting no_policy the_plan []
    ≡ (ok (the_report DiagnosticDisposition.pass), "remove" ∷ old_id ∷ [])
unfolding execute_repair repair_body guarded check need lift pure modify fullmatch parse_path
    path_eq report_status strix_halo_rocm_toolkit.Exec.◌>>=◌
execute_run = refl

plan_repair-IsSafe_example : IsSafe no_policy the_plan
plan_repair-IsSafe_example =
    plan_repair-IsSafe loaded no_policy (the_report DiagnosticDisposition.repairable) plan_run

execute_repair-keeps_built_example :
    execute_repair noting no_policy the_plan []
    ≡ execute_repair
        (other_removal new_id (modify (λ log. "lost" ∷ log)) noting)
        no_policy
        the_plan
        []
execute_repair-keeps_built_example =
    execute_repair-keeps_built noting no_policy new_id (modify (λ log. "lost" ∷ log)) the_plan
      (λ p digest. Ensures-pure new_id refl) []

execute_repair-IsRepaired_example :
    IsRepaired noting no_policy the_plan []
      (the_report DiagnosticDisposition.pass)
      ("remove" ∷ old_id ∷ [])
execute_repair-IsRepaired_example =
    execute_repair-IsRepaired noting no_policy the_plan [] execute_run
