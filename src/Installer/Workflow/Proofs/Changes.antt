-- ===== src/Installer/Workflow/Proofs/Changes.antt =====
-- The changes of a stage to the state leave its place in the order alone.
use strix_halo_rocm_toolkit.Prelude.{◌≡◌, refl, Bool, true, false}
use strix_halo_rocm_toolkit.Exec.Ensures.{Ensures, Ensures-bind, Ensures-after, gives_rules, Keeps}
use strix_halo_rocm_toolkit.Installer.Stages.{InstallStage}
use strix_halo_rocm_toolkit.Installer.Models.{InstallOptions, InstallState, StageResult, Output}
use strix_halo_rocm_toolkit.Installer.Workflow.Session.{Env, Session}
use strix_halo_rocm_toolkit.Installer.Workflow.Construction.{Ensures-constructed}
use strix_halo_rocm_toolkit.Installer.Workflow.Transition.{record_reports}
use strix_halo_rocm_toolkit.Installer.Workflow.Outcome.{
  apply_changes, apply_output, apply_kernel_plan, apply_host_plan, apply_release, apply_images,
  apply_kernel_report, apply_host_report, apply_confirmation, apply_kernel_apply, boot_id_for,
}
use strix_halo_rocm_toolkit.Installer.Workflow.Proofs.Files.{
  FileProperty, OnFiles, base, resolved_kernel_plan-Keeps,
}
use strix_halo_rocm_toolkit.Installer.Workflow.Proofs.Position.{SameProgress}

module _ {W : Type 0} (env : Env W) (o : InstallOptions) (F : FileProperty) where
  abbrev P : Session W → Type 0
  P = OnFiles F

  same :
      (st st1 : InstallState)
      → st1.mode ≡ st.mode
      → st1.current_stage ≡ st.current_stage
      → st1.completed ≡ st.completed
      → SameProgress st st1
  same st st1 m c d = record { mode = m; current = c; completed = d }

  boot_id_for-Keeps : (b : Bool) → Keeps P (boot_id_for env o b)
  boot_id_for-Keeps true = search base
  boot_id_for-Keeps false = search base

  ruleset changes = (gives_rules, base, same)

  apply_kernel_plan-Same :
      (st : InstallState) (output : Output)
      → Ensures P (SameProgress st) (apply_kernel_plan env o st output)
  apply_kernel_plan-Same st (Output.host_plan p) = search changes
  apply_kernel_plan-Same st _ = search changes

  apply_host_plan-Same :
      (st : InstallState) (output : Output)
      → Ensures P (SameProgress st) (apply_host_plan env o st output)
  apply_host_plan-Same st (Output.host_plan p) = search changes
  apply_host_plan-Same st _ = search changes

  apply_release-Same :
      (st : InstallState) (output : Output)
      → Ensures P (SameProgress st) (apply_release env o st output)
  apply_release-Same st (Output.release r) = search changes
  apply_release-Same st _ = search changes

  apply_images-Same :
      (st : InstallState) (output : Output)
      → Ensures P (SameProgress st) (apply_images env o st output)
  apply_images-Same st (Output.images v) = search changes
  apply_images-Same st (Output.local_build b) = search changes
  apply_images-Same st _ = search changes

  apply_kernel_report-Same :
      (st : InstallState) (output : Output)
      → Ensures P (SameProgress st) (apply_kernel_report env o st output)
  apply_kernel_report-Same st (Output.report r) = search changes
  apply_kernel_report-Same st _ = search changes

  apply_host_report-Same :
      (st : InstallState) (output : Output)
      → Ensures P (SameProgress st) (apply_host_report env o st output)
  apply_host_report-Same st (Output.report r) = search changes
  apply_host_report-Same st _ = search changes

  apply_confirmation-Same :
      (st : InstallState) (output : Output)
      → Ensures P (SameProgress st) (apply_confirmation env o st output)
  apply_confirmation-Same st (Output.confirmation c) = search changes
  apply_confirmation-Same st _ = search changes

  apply_kernel_apply-Same :
      (st : InstallState) → Ensures P (SameProgress st) (apply_kernel_apply env o st)
  apply_kernel_apply-Same st = search (changes, boot_id_for-Keeps, resolved_kernel_plan-Keeps)

  pub apply_changes-Same :
      (stage : InstallStage) (st : InstallState) (output : Output)
      → Ensures P (SameProgress st) (apply_changes env o stage st output)
  unfolding apply_changes
  apply_changes-Same InstallStage.bootstrap st output = search changes
  apply_changes-Same _ st output = search (
    changes, apply_kernel_plan-Same, apply_host_plan-Same, apply_release-Same, apply_images-Same,
    apply_kernel_report-Same, apply_host_report-Same, apply_confirmation-Same,
    apply_kernel_apply-Same,
  )

  pub apply_output-Same :
      (st : InstallState) (stage : InstallStage) (output : Output) (outcome : StageResult)
      → Ensures P (SameProgress st) (apply_output env o st stage output outcome)
  unfolding apply_output
  apply_output-Same st stage output outcome =
      Ensures-bind _ _ (apply_changes-Same stage st output)
        (λ st1 s. Ensures-constructed env _ (same st _ s.mode s.current s.completed))

  pub record_reports-Same :
      (st : InstallState) (outcome : StageResult)
      → Ensures P (SameProgress st) (record_reports env st outcome)
  unfolding record_reports
  record_reports-Same st outcome =
      Ensures-after _ _ (search base) (λ time. Ensures-constructed env _ (same st _ refl refl refl))
