-- ===== src/Doctor/Plan.antt =====
-- The plan of a repair (src/amd_ai/doctor/repair.py). The file of a release is read by `load`, and the
-- registry policy is the one of the installation; both are parameters.
pub mod Exact
use Prim.Native.String.{compare}
use Prim.Native.Nat.{Ordering}
use mathlib.Core.List.{◌++◌, head?}
use strix_halo_rocm_toolkit.Prelude.{
  String, Bool, true, false, not, ◌&&◌, ◌||◌, Option, none, some, List, [], ◌∷◌, Dict, lookup, any,
  codes, find, str_eq, text_in, on_option, if◌then◌else◌,
}
use strix_halo_rocm_toolkit.Results.{
  Result, ok, err, on_result, ◌>>=◌, check, need, on_value, raise_as,
}
use strix_halo_rocm_toolkit.Json.{Json, null, as_text}
use strix_halo_rocm_toolkit.Regex.{
  Regex, fullmatch, all_of, times, class, literal, digits, hex_digits,
}
use strix_halo_rocm_toolkit.Paths.{
  PurePath, parse_path, path_text, path_eq, is_absolute, child, parent, path_name,
}
use strix_halo_rocm_toolkit.Installer.Models.{StableRelease}
use strix_halo_rocm_toolkit.Installer.Registry.{
  RegistryError, RegistryPolicy, trusted_image_references,
}
use strix_halo_rocm_toolkit.Doctor.Models.{
  Diagnostic, DiagnosticDisposition, disposition_eq, DoctorReport, RepairAction, repair_action,
  has_code,
}

-- `RepairPlanningError`, `DoctorModelError`, and a `RegistryPolicyError`, which nothing catches here.
pub data PlanningError : Type 0 where
  planning_error model_error : String → PlanningError
  policy_failure : RegistryError → PlanningError

pub record RepairPlan : Type 0 where
  pub report : DoctorReport
  pub release : Option StableRelease
  pub project_path : Option PurePath
  pub actions : List RepairAction
  pub blocked : Bool
  pub blocked_reasons : List String

-- `IMAGE_ID_PATTERN`, and `GENERATION_PATTERN` of overlay/models.py.
abbrev pub image_id_pattern : Regex
image_id_pattern = all_of (literal "sha256:" ∷ times 64 (class hex_digits) ∷ [])

abbrev pub generation_pattern : Regex
generation_pattern = all_of (
    times 8 (class digits)
    ∷ literal "T"
    ∷ times 6 (class digits)
    ∷ literal "Z-"
    ∷ times 8 (class hex_digits)
    ∷ [])

-- `sorted(set(codes))`
abbrev insert_sorted : String → List String → List String
insert_sorted s [] = s ∷ []
insert_sorted s (t ∷ ts) = elim (compare s t) [
  | Ordering.lt ↦ s ∷ t ∷ ts
  | Ordering.eq ↦ t ∷ ts
  | Ordering.gt ↦ t ∷ insert_sorted s ts
]

-- The codes of the diagnostics with the given disposition.
abbrev pub codes_with : DiagnosticDisposition → List Diagnostic → List String
codes_with disposition [] = []
codes_with disposition (d ∷ ds) =
    if disposition_eq d.disposition disposition
    then insert_sorted d.code (codes_with disposition ds)
    else codes_with disposition ds

-- `next((code for code in order if code in repairable), None)`
abbrev pub reason_among : List String → List String → Option String
reason_among order repairable = find (λ code. text_in code repairable) order

-- `isinstance(value, str) and value`
abbrev pub nonempty_text : Option Json → Option String
nonempty_text value =
    on_option value none
      (λ v. on_option (as_text v) none (λ s. if str_eq s "" then none else some s))

-- `_fact_string`
abbrev pub fact_string : Dict Json → String → Result PlanningError String
fact_string facts name =
    need (nonempty_text (lookup name facts)) (planning_error "doctor fact is missing") ok

-- `_normalized_absolute`
unfoldable pub normalized_absolute : String → Result PlanningError PurePath
normalized_absolute value =
    check
      (not (is_absolute (parse_path value))
        || has_code 0 (codes value)
        || not (str_eq (path_text (parse_path value)) value))
      (planning_error "repair target is not normalized") (ok (parse_path value))

abbrev pub config_of : PurePath → PurePath
config_of project = child project "amd-ai-project.toml"

-- `_project_config_path`
unfoldable pub project_config_path : Dict Json → Option PurePath → Result PlanningError PurePath
project_config_path facts project_path = fact_string facts "project_config" >>= λ value.
    normalized_absolute value >>= λ path.
    need project_path (planning_error "project config repair target escaped project") (λ project.
      check (not (path_eq path (config_of project)))
        (planning_error "project config repair target escaped project") (ok path))

-- `_generation_path`
unfoldable pub generation_path : String → PurePath → Result PlanningError PurePath
generation_path value project_path = normalized_absolute value >>= λ generation.
    check
      (not (path_eq (parent generation) (child (child project_path ".amd-ai") "generations"))
        || not (fullmatch generation_pattern (path_name generation)))
      (planning_error "overlay generation target escaped project") (ok generation)

abbrev pub action_of : String → String → String → Result PlanningError RepairAction
action_of kind target reason = raise_as model_error (repair_action kind target reason)

abbrev pub trusted : StableRelease → RegistryPolicy → Result PlanningError (List String)
trusted release policy = raise_as policy_failure (trusted_image_references release "torch" policy)

-- The action for the parent image.
unfoldable pub parent_actions :
    RegistryPolicy
    → Dict Json
    → Option StableRelease
    → List String
    → Result PlanningError (List RepairAction)
parent_actions policy facts release repairable =
    on_value
      (reason_among ("IMAGE.PARENT_MISSING" ∷ "IMAGE.DIGEST_DRIFT" ∷ "TORCH.BASE_CHANGED" ∷ [])
        repairable)
      (ok [])
      (λ reason. fact_string facts "torch_reference" >>= λ reference.
        need release (planning_error "parent repair requires a verified release") (λ known.
          trusted known policy >>= λ allowed.
          check (not (text_in reference allowed))
            (planning_error "parent repair reference is not a trusted release replica")
            (action_of "pull-parent" reference reason >>= λ action. ok (action ∷ []))))

-- The removal of the project's image, if there is one: `facts.get("project_image_id")` is not `None`.
unfoldable pub removal_actions : Option Json → String → Result PlanningError (List RepairAction)
removal_actions none reason = ok []
removal_actions (some null) reason = ok []
removal_actions (some value) reason =
    need (as_text value) (planning_error "project image repair target is not exact") (λ image_id.
      check (not (fullmatch image_id_pattern image_id))
        (planning_error "project image repair target is not exact")
        (action_of "remove-project-image" image_id reason >>= λ action. ok (action ∷ [])))

-- The actions for the project's image.
unfoldable pub project_actions :
    Dict Json → Option PurePath → List String → Result PlanningError (List RepairAction)
project_actions facts project_path repairable =
    on_value (reason_among ("IMAGE.PROJECT_CHANGED" ∷ "TORCH.BASE_CHANGED" ∷ []) repairable) (ok [])
      (λ reason. project_config_path facts project_path >>= λ config.
        removal_actions (lookup "project_image_id" facts) reason >>= λ removal.
        action_of "build-project-image" (path_text config) reason >>= λ build.
        ok (removal ++ (build ∷ [])))

-- The actions for the overlay.
unfoldable pub overlay_actions :
    Dict Json → Option PurePath → List String → Result PlanningError (List RepairAction)
overlay_actions facts project_path repairable =
    on_value (reason_among ("TORCH.SHADOWED" ∷ "OVERLAY.LOCK_INVALID" ∷ []) repairable) (ok [])
      (λ reason.
        need project_path (planning_error "overlay repair requires a selected project") (λ project.
          fact_string facts "current_generation" >>= λ current.
          generation_path current project >>= λ generation.
          fact_string facts "last_valid_lock" >>= λ lock_text.
          normalized_absolute lock_text >>= λ lock.
          check (not (path_eq lock (child generation "overlay.requirements.lock")))
            (planning_error "overlay replay lock is not from the selected generation")
            (project_config_path facts project_path >>= λ config.
              action_of "quarantine-overlay" (path_text generation) reason >>= λ quarantine.
              action_of "rebuild-overlay" (path_text lock) reason >>= λ rebuild.
              action_of "verify-project" (path_text config) reason >>= λ verify.
              ok (quarantine ∷ rebuild ∷ verify ∷ []))))

-- The first action of each kind and target.
abbrev pub same_action : RepairAction → RepairAction → Bool
same_action a b = str_eq a.kind b.kind && str_eq a.exact_target b.exact_target

abbrev pub unique_from : List RepairAction → List RepairAction → List RepairAction
unique_from seen [] = []
unique_from seen (a ∷ as_) = elim (any (same_action a) seen) [
  | true ↦ unique_from seen as_
  | false ↦ a ∷ unique_from (a ∷ seen) as_
]

-- `_load_report_release`; `load` is `load_stable_release`, with the text of an `OSError` or a
-- `ReleaseError`.
unfoldable pub load_report_release :
    (String → Result String StableRelease)
    → DoctorReport
    → Result PlanningError (Option StableRelease)
load_report_release load report =
    on_value (nonempty_text (lookup "manifest" report.facts)) (ok none) (λ value.
      on_result (load value) (λ release. ok (some release))
        (λ error.
          if any (λ (d : Diagnostic). str_eq d.code "RELEASE.INVALID") report.diagnostics
          then ok none
          else err (planning_error "cannot reload doctor release manifest")))

abbrev pub project_of : Option String → Result PlanningError (Option PurePath)
project_of none = ok none
project_of (some value) = normalized_absolute value >>= λ path. ok (some path)

-- The actions of a plan that is not blocked.
unfoldable pub planned_actions :
    RegistryPolicy
    → Dict Json
    → Option StableRelease
    → Option PurePath
    → List String
    → Result PlanningError (List RepairAction)
planned_actions policy facts release project_path repairable =
    parent_actions policy facts release repairable >>= λ parents.
    project_actions facts project_path repairable >>= λ projects.
    overlay_actions facts project_path repairable >>= λ overlays.
    ok (unique_from [] (parents ++ (projects ++ overlays)))

-- `plan_repair`
unfoldable pub plan_repair :
    (String → Result String StableRelease)
    → RegistryPolicy
    → DoctorReport
    → Result PlanningError RepairPlan
plan_repair load policy report = load_report_release load report >>= λ release.
    project_of report.project >>= λ project_path.
    on_value (head? (codes_with DiagnosticDisposition.blocked report.diagnostics))
      (planned_actions policy report.facts release project_path
          (codes_with DiagnosticDisposition.repairable report.diagnostics)
        >>= λ actions. ok (record {
          report = report;
          release = release;
          project_path = project_path;
          actions = actions;
          blocked = false;
          blocked_reasons = [];
        }))
      (λ _. ok (record {
        report = report;
        release = release;
        project_path = project_path;
        actions = [];
        blocked = true;
        blocked_reasons = codes_with DiagnosticDisposition.blocked report.diagnostics;
      }))
