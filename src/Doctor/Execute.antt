-- ===== src/Doctor/Execute.antt =====
-- The execution of a repair plan (src/amd_ai/doctor/repair.py). The executor is a parameter that acts
-- on a world of its own.
pub mod Removal
pub mod Repaired
pub mod Tests
use Prim.Native.String.{◌++◌}
use strix_halo_rocm_toolkit.Prelude.{
  String, Bool, true, false, not, ◌&&◌, ◌||◌, Option, none, some, List, [], ◌∷◌, Dict, lookup,
  insert, any, str_eq, text_in, on_option, if◌then◌else◌,
}
use mathlib.Core.List.{head?}
use strix_halo_rocm_toolkit.Results.{Result, ok, err}
use strix_halo_rocm_toolkit.Exec.{Exec, pure, raise, lift, check, need, ◌>>=◌, ◌>>◌}
use strix_halo_rocm_toolkit.Lines.{join}
use strix_halo_rocm_toolkit.Regex.{fullmatch}
use strix_halo_rocm_toolkit.Paths.{PurePath, parse_path, path_text, path_eq, child}
use strix_halo_rocm_toolkit.Installer.Models.{StableRelease}
use strix_halo_rocm_toolkit.Installer.Registry.{
  RegistryPolicy, RegistryError, policy_error, key_error, trusted_image_references,
}
use strix_halo_rocm_toolkit.Doctor.Models.{
  Diagnostic, DiagnosticDisposition, disposition_eq, DoctorReport, RepairAction,
}
use strix_halo_rocm_toolkit.Doctor.Plan.{RepairPlan, image_id_pattern, config_of}

-- A `RepairExecutionError`, or any other exception with its text.
pub data Raised : Type 0 where
  execution_error other_error : String → Raised

-- The protocol `RepairExecutor`.
pub record RepairExecutor (W : Type 0) : Type 0 where
  pub pull_and_verify : StableRelease → String → Exec Raised W (Unit {0})
  pub remove_image_id : String → Exec Raised W (Unit {0})
  pub build_project : PurePath → String → Exec Raised W String
  pub repair_overlay : PurePath → String → Exec Raised W (Unit {0})
  pub doctor : PurePath → Exec Raised W DoctorReport

-- `{action.kind: action for action in actions}`
abbrev by_kind_onto : Dict RepairAction → List RepairAction → Dict RepairAction
by_kind_onto d [] = d
by_kind_onto d (a ∷ as_) = by_kind_onto (insert a.kind a d) as_

abbrev pub by_kind : List RepairAction → Dict RepairAction
by_kind actions = by_kind_onto [] actions

abbrev pub from_registry : {A : Type 0} → Result RegistryError A → Result Raised A
from_registry (ok a) = ok a
from_registry (err (policy_error m)) = err (other_error m)
from_registry (err (key_error m)) = err (other_error m)

-- `except RepairExecutionError: raise` and `except Exception as error: raise RepairExecutionError`.
abbrev pub failure_of : Raised → Raised
failure_of (execution_error m) = execution_error m
failure_of (other_error m) = execution_error ("repair execution failed: " ++ m)

abbrev pub failed : {A : Type 0} → Result Raised A → Result Raised A
failed (ok a) = ok a
failed (err e) = err (failure_of e)

unfoldable pub guarded : {W A : Type 0} → Exec Raised W A → Exec Raised W A
guarded m w = (failed (m w).0, (m w).1)

abbrev is_some : {A : Type 0} → Option A → Bool
is_some o = on_option o false (λ _. true)

-- Whether a report passes: its status and every diagnostic of it.
abbrev pub passes : DoctorReport → Bool
passes report =
    str_eq report.status "pass"
    && not (
        any (λ (d : Diagnostic). not (disposition_eq d.disposition DiagnosticDisposition.pass))
          report.diagnostics)

module _ {W : Type 0} (executor : RepairExecutor W) (policy : RegistryPolicy) where
  -- The pull of the parent image.
  abbrev pub pull_parent : StableRelease → Option RepairAction → Exec Raised W (Unit {0})
  pull_parent release none = pure tt
  pull_parent release (some parent) =
      lift (from_registry (trusted_image_references release "torch" policy)) >>= λ allowed.
      check (not (text_in parent.exact_target allowed))
        (execution_error "parent pull action is not a trusted release replica")
        (executor.pull_and_verify release parent.exact_target)

  -- The build of the project's image: its ID, or none without such an action.
  abbrev pub build_image :
      PurePath → StableRelease → Option RepairAction → Exec Raised W (Option String)
  build_image project release none = pure none
  build_image project release (some build) =
      check (not (path_eq (parse_path build.exact_target) (config_of project)))
        (execution_error "project build target escaped project")
        (executor.build_project project release.torch.config_digest >>= λ rebuilt_image_id.
          check (not (fullmatch image_id_pattern rebuilt_image_id))
            (execution_error "rebuilt project image ID is not exact")
            (pure (some rebuilt_image_id)))

  -- The removal of the old image, unless the build gave the same one.
  abbrev pub remove_image : Option RepairAction → Option String → Exec Raised W (Unit {0})
  remove_image none rebuilt = pure tt
  remove_image (some removal) rebuilt =
      check (not (fullmatch image_id_pattern removal.exact_target))
        (execution_error "project image removal is not exact")
        (need rebuilt (execution_error "project image removal requires a successful rebuild")
          (λ rebuilt_image_id.
            if str_eq removal.exact_target rebuilt_image_id
            then pure tt
            else executor.remove_image_id removal.exact_target))

  -- The replay of the overlay, whose two actions must come together.
  abbrev pub replay_overlay :
      PurePath → Option RepairAction → Option RepairAction → Exec Raised W (Unit {0})
  replay_overlay project none none = pure tt
  replay_overlay project none (some _) =
      raise (execution_error "overlay quarantine and replay actions must be paired")
  replay_overlay project (some _) none =
      raise (execution_error "overlay quarantine and replay actions must be paired")
  replay_overlay project (some quarantine) (some replay) =
      check
        (not (
          path_eq (parse_path replay.exact_target)
            (child (parse_path quarantine.exact_target) "overlay.requirements.lock")))
        (execution_error "overlay replay lock differs from quarantine")
        (executor.repair_overlay project quarantine.reason_code)

  -- The body of the `try` of `execute_repair`.
  unfoldable pub repair_body :
      Dict RepairAction → StableRelease → PurePath → Exec Raised W DoctorReport
  repair_body actions release project = pull_parent release (lookup "pull-parent" actions) >>= λ _.
      build_image project release (lookup "build-project-image" actions) >>= λ rebuilt.
      remove_image (lookup "remove-project-image" actions) rebuilt >>= λ _.
      replay_overlay project (lookup "quarantine-overlay" actions)
        (lookup "rebuild-overlay" actions)
      >>= λ _. executor.doctor project

  -- `execute_repair`
  unfoldable pub execute_repair : RepairPlan → Exec Raised W DoctorReport
  execute_repair plan =
      check plan.blocked
        (execution_error ("repair plan is blocked: " ++ join ", " plan.blocked_reasons))
        (need (head? plan.actions) (execution_error "repair plan contains no actions") (λ _.
          need plan.release (execution_error "repair plan has no verified release") (λ release.
            need plan.project_path (execution_error "repair plan has no selected project")
              (λ project. guarded (repair_body (by_kind plan.actions) release project) >>= λ report.
                check (not (passes report))
                  (execution_error ("post-repair doctor did not pass: " ++ report.status))
                  (pure report)))))
