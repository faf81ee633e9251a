-- ===== src/Installer/Workflow/Proofs/Runs.antt =====
-- The loop over the stages (`_run_stages` in workflow.py): what it leaves in the state files, and
-- what its result means.
use mathlib.Core.List.{◌++◌ as append, append_assoc, append-nil}
use strix_halo_rocm_toolkit.Prelude.{
  ◌≡◌, refl, ap, sym, ◌∙◌, ◌⊎◌, inl, inr, ℕ, suc, String, Bool, true, false, List, [], ◌∷◌, some,
  str_eq, eq_iff, if◌then◌else◌, not,
}
use strix_halo_rocm_toolkit.Results.{ok, on_result}
use strix_halo_rocm_toolkit.Exec.{pure}
use strix_halo_rocm_toolkit.Exec.Ensures.{Ensures, Returns, Ensures-bind, Ensures-pure}
use strix_halo_rocm_toolkit.Installer.Stages.{InstallMode, InstallStage}
use strix_halo_rocm_toolkit.Installer.Models.{InstallOptions, InstallState}
use strix_halo_rocm_toolkit.Installer.Workflow.Session.{
  Env, Session, StateFile, stored, WorkflowResult, ProgressOutcome,
}
use strix_halo_rocm_toolkit.Installer.Workflow.Transition.{stage_order, stage_in}
use strix_halo_rocm_toolkit.Installer.Workflow.Stage.{
  Control, proceed, stop, on_control, run_from, run_stages,
}
use strix_halo_rocm_toolkit.Installer.Workflow.Proofs.Files.{FileProperty, OnFiles}
use strix_halo_rocm_toolkit.Installer.Workflow.Proofs.Position.{At, At-start, At-IsValid, IsValid}
use strix_halo_rocm_toolkit.Installer.Workflow.Proofs.Prefix.{
  all_done, distinct, ends_complete, and_parts,
}
use strix_halo_rocm_toolkit.Installer.Workflow.Proofs.Rounds.{
  Stopped, RoundEnds, KeepsValid, run_stage-Ends,
}

-- A success: every stage of the order is completed.
pub record Finished (o : InstallOptions) (order : List InstallStage) (r : WorkflowResult)
    : Type 0 where
  pub last : InstallState
  pub kept : r.state ≡ some last
  pub valid : IsValid o last
  pub all_stages : all_done order last.completed ≡ true
  pub code : (r.exit_code ≡ 0) × (r.progress_outcome ≡ ProgressOutcome.success)

abbrev pub RunEnds : InstallOptions → List InstallStage → WorkflowResult → Type 0
RunEnds o order r = Finished o order r ⊎ Stopped o r

-- Each file is as before, or it is the state file and holds a state that the next run accepts.
abbrev pub SavedOnly : InstallOptions → (String → StateFile) → (String → StateFile) → Type 0
SavedOnly o before f =
    (p : String)
    → (f p ≡ before p)
      ⊎ ((p ≡ o.state_path) × ((st : InstallState) × (IsValid o st) × (f p ≡ stored st)))

pub SavedOnly-KeepsValid :
    (o : InstallOptions) (before : String → StateFile) → KeepsValid o (λ _. SavedOnly o before)
SavedOnly-KeepsValid o before o1 st f v h p = at (str_eq p o.state_path) refl
  where
    at :
        (b : Bool)
        → str_eq p o.state_path ≡ b
        → ((if b then stored st else f p) ≡ before p)
          ⊎ ((p ≡ o.state_path)
              × ((st1 : InstallState) × (IsValid o st1)
                  × ((if b then stored st else f p) ≡ stored st1)))
    at true e = inr ((eq_iff p o.state_path).0 e, (st, v, refl))
    at false e = h p

stage_order-shape :
    (m : InstallMode) (order : List InstallStage)
    → stage_order m ≡ ok order
    → (distinct order ≡ true) × (ends_complete order ≡ true)
unfolding stage_order
stage_order-shape InstallMode.full order h = (
  ap (λ r. on_result r distinct (λ _. true)) (sym h),
  ap (λ r. on_result r ends_complete (λ _. true)) (sym h),
)
stage_order-shape InstallMode.container order h = (
  ap (λ r. on_result r distinct (λ _. true)) (sym h),
  ap (λ r. on_result r ends_complete (λ _. true)) (sym h),
)
stage_order-shape InstallMode.doctor order h = cc

ends_complete-tail :
    (s : InstallStage) (rest : List InstallStage)
    → ends_complete (s ∷ rest) ≡ true
    → ends_complete rest ≡ true
ends_complete-tail s [] h = refl
ends_complete-tail s (t ∷ rest) h = h

module _ {W : Type 0} (env : Env W) (o : InstallOptions) (F : FileProperty)
    (valid_kept : KeepsValid o F) (order : List InstallStage)
    (known_order : stage_order o.mode ≡ ok order) where
  abbrev P : Session W → Type 0
  P = OnFiles F

  run_from-Ends :
      (d todo : List InstallStage) (total index : ℕ) (st : InstallState)
      → append d todo ≡ order
      → distinct todo ≡ true
      → ends_complete todo ≡ true
      → At o d todo st
      → Ensures P (RunEnds o order) (run_from env o total index todo st)
  unfolding run_from
  run_from-Ends d [] total index st parts apart last a = Ensures-pure _ (
      inl (record {
        last = st;
        kept = refl;
        valid = At-IsValid o d [] st (known_order ∙ ap ok (sym parts)) a;
        all_stages = ap (λ l. all_done l st.completed) (sym parts ∙ append-nil d) ∙ a.finished;
        code = (refl, refl);
      }))
  run_from-Ends d (stage ∷ rest) total index st parts apart last a =
      Ensures-bind _ _
        (run_stage-Ends env o F valid_kept d rest stage (known_order ∙ ap ok (sym parts)) apart last
          _ st a)
        (λ control e. go control e (λ st1 a1.
          run_from-Ends (append d (stage ∷ [])) rest total (suc index) st1
            (append_assoc d (stage ∷ []) rest ∙ parts)
            (and_parts (not (stage_in stage rest)) (distinct rest) apart).1
            (ends_complete-tail stage rest last) a1))
    where
      go :
          (control : Control)
          → RoundEnds o d stage rest control
          → ((st1 : InstallState)
              → At o (append d (stage ∷ [])) rest st1
              → Ensures P (RunEnds o order) (run_from env o total (suc index) rest st1))
          → Ensures P
              (RunEnds o order)
              (on_control control (λ st1. run_from env o total (suc index) rest st1) (λ r. pure r))
      go (proceed st1) a1 next = next st1 a1
      go (stop r) e next = Ensures-pure r (inr e)

  pub run_stages-Ends :
      (st : InstallState) → IsValid o st → Ensures P (RunEnds o order) (run_stages env o order st)
  unfolding run_stages
  run_stages-Ends st v =
      let shape = stage_order-shape o.mode order known_order in
      run_from-Ends [] order _ 0 st refl shape.0 shape.1 (At-start o order st known_order v)

module _ {W : Type 0} (env : Env W) (o : InstallOptions) (order : List InstallStage)
    (st : InstallState) (s : Session W) where
  -- In a run over the stages from a state that the checks accept, every state file is as before but
  -- the one that the options name, and that one is as before or holds a state that the checks of the
  -- next run accept, whatever the actions and the writes return.
  pub run_stages-SavedOnly :
      stage_order o.mode ≡ ok order
      → IsValid o st
      → SavedOnly o s.files (run_stages env o order st s).1.files
  run_stages-SavedOnly known_order v =
      (run_stages-Ends env o (λ _. SavedOnly o s.files) (SavedOnly-KeepsValid o s.files) order
          known_order st v).kept
        s (λ p. inl refl)

  -- A run over the stages from a state that the checks accept that returns a result returns exit
  -- code 0 with the outcome of a success and with every stage of the order completed, or exit code 1
  -- with the outcome of an action, or exit code 2 with the outcome of a blocked stage or a failure;
  -- in each case the checks of the next run accept the state of the result.
  pub run_stages-RunEnds :
      stage_order o.mode ≡ ok order
      → IsValid o st
      → Returns (RunEnds o order) (run_stages env o order st s).0
  run_stages-RunEnds known_order v =
      (run_stages-Ends env o (λ _. SavedOnly o s.files) (SavedOnly-KeepsValid o s.files) order
          known_order st v).gives
        s (λ p. inl refl)
