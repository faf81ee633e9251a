-- ===== src/Installer/Workflow/Proofs/Rounds.antt =====
-- One round of the loop over the stages: what it saves is a state that the next run accepts, and it
-- ends at the next stage or with a result that is no success.
use Prim.Native.String.{◌++◌}
use mathlib.Core.List.{◌++◌ as append, append_assoc}
use strix_halo_rocm_toolkit.Prelude.{
  ◌≡◌, refl, ◌⊎◌, inl, inr, String, Bool, true, false, List, [], ◌∷◌, some, if◌then◌else◌, or_text,
  ap, sym, ◌∙◌,
}
use strix_halo_rocm_toolkit.Results.{ok}
use strix_halo_rocm_toolkit.Exec.{pure, ◌>>◌}
use strix_halo_rocm_toolkit.Exec.Ensures.{
  Ensures, Keeps, Keeps-intro, Keeps-bind, Ensures-bind, Ensures-after, Ensures-pure, Ensures-raise,
  Ensures-if, Ensures-choice, Ensures-option, Ensures-result,
}
use strix_halo_rocm_toolkit.Installer.Stages.{InstallStage, stage_value}
use strix_halo_rocm_toolkit.Installer.Models.{
  InstallOptions, InstallState, StageResult, Output, is_completed, set_digest,
}
use strix_halo_rocm_toolkit.Installer.Workflow.Session.{
  Env, Session, StateFile, stored, StageInputs, StagePosition, WorkflowResult, ProgressOutcome,
  Failure, interrupted, replace_file, save_state, after_write, WriteOutcome, written, not_written,
  written_then, stage_passed, tell,
}
use strix_halo_rocm_toolkit.Installer.Workflow.Construction.{Ensures-constructed}
use strix_halo_rocm_toolkit.Installer.Workflow.Transition.{stage_order, checkpoint}
use strix_halo_rocm_toolkit.Installer.Workflow.Stage.{
  Control, proceed, stop, ended_with, dispatch_failed, following, save, stop_blocked, apply_report,
  pass_guard, rerun_completed_guard, resume_stage, finish_stage, wait_for_reboot, judge_stage,
  perform_stage, run_stage, report_if_release, warn_unverified,
}
use strix_halo_rocm_toolkit.Installer.Workflow.Proofs.Files.{
  FileProperty, OnFiles, base, now-Keeps, stage_inputs-Keeps, dispatch-Keeps, stage_result-Keeps,
  validate_completed_stage-Keeps, tell-Keeps, check_disk-Keeps,
}
use strix_halo_rocm_toolkit.Installer.Workflow.Proofs.Changes.{
  apply_output-Same, record_reports-Same,
}
use strix_halo_rocm_toolkit.Installer.Workflow.Proofs.Position.{
  SameProgress, At, At-same, At-IsValid, At-skip, At-complete, IsValid,
}
use strix_halo_rocm_toolkit.Installer.Workflow.Proofs.Prefix.{distinct, ends_complete}

-- A result that is no success, with a state that the next run accepts.
pub record Stopped (o : InstallOptions) (r : WorkflowResult) : Type 0 where
  pub last : InstallState
  pub kept : r.state ≡ some last
  pub valid : IsValid o last
  pub code :
      ((r.exit_code ≡ 1) × (r.progress_outcome ≡ ProgressOutcome.action))
      ⊎ ((r.exit_code ≡ 2)
          × ((r.progress_outcome ≡ ProgressOutcome.blocked)
              ⊎ (r.progress_outcome ≡ ProgressOutcome.failure)))

-- How a round at `stage` ends.
abbrev pub RoundEnds :
    InstallOptions → List InstallStage → InstallStage → List InstallStage → Control → Type 0
RoundEnds o d stage rest (proceed st) = At o (append d (stage ∷ [])) rest st
RoundEnds o d stage rest (stop r) = Stopped o r

-- What is kept is kept when the state file is replaced by a state that the next run accepts.
abbrev pub KeepsValid : InstallOptions → FileProperty → Type 0
KeepsValid o F =
    (o1 : InstallOptions) (st : InstallState) (f : String → StateFile)
    → IsValid o st
    → F o1 f
    → F o1 (replace_file o.state_path (stored st) f)

module _ {W : Type 0} (env : Env W) (o : InstallOptions) (F : FileProperty)
    (valid_kept : KeepsValid o F) where
  abbrev P : Session W → Type 0
  P = OnFiles F

  after_write-kept :
      (st : InstallState) (w : WriteOutcome × W) (s : Session W)
      → IsValid o st
      → P s
      → P (after_write o.state_path st w s).1
  after_write-kept st (written, w) s v h = valid_kept s.options st s.files v h
  after_write-kept st (not_written e, w) s v h = h
  after_write-kept st (written_then e, w) s v h = valid_kept s.options st s.files v h

  pub save-Keeps : (st : InstallState) → IsValid o st → Keeps P (save_state env o.state_path st)
  unfolding save_state
  save-Keeps st v =
      Keeps-intro (save_state env o.state_path st)
        (λ s h. after_write-kept st (env.write_state o.state_path st s.world) s v h)

  apply_report-Same :
      (st : InstallState) (stage : InstallStage) (output : Output) (outcome : StageResult)
      → Ensures P (SameProgress st) (apply_report env o st stage output outcome)
  apply_report-Same st stage (Output.report r) outcome =
      apply_output-Same env o F st stage (Output.report r) outcome
  apply_report-Same st stage _ outcome =
      Ensures-pure st (record { mode = refl; current = refl; completed = refl })

  checkpoint-Gives :
      (st : InstallState) (stage : InstallStage) (inputs : StageInputs) (next : InstallStage)
      → Ensures P
          (λ st1.
            (st1.mode ≡ st.mode)
            × (st1.completed ≡ set_digest stage (env.input_digest inputs) st.completed)
            × (st1.current_stage ≡ next))
          (checkpoint env st stage inputs next)
  unfolding checkpoint
  checkpoint-Gives st stage inputs next =
      Ensures-after _ _ (now-Keeps env o F) (λ time. Ensures-constructed env _ (refl, refl, refl))

  module _ (d rest : List InstallStage) (stage : InstallStage)
      (known_order : stage_order o.mode ≡ ok (append d (stage ∷ rest))) where
    abbrev Ends : Control → Type 0
    Ends = RoundEnds o d stage rest

    abbrev Here : InstallState → Type 0
    Here = At o d (stage ∷ rest)

    stopped :
        (st : InstallState) (r : WorkflowResult)
        → Here st
        → r.state ≡ some st
        → ((r.exit_code ≡ 1) × (r.progress_outcome ≡ ProgressOutcome.action))
          ⊎ ((r.exit_code ≡ 2)
              × ((r.progress_outcome ≡ ProgressOutcome.blocked)
                  ⊎ (r.progress_outcome ≡ ProgressOutcome.failure)))
        → Stopped o r
    stopped st r a kept code = record {
      last = st;
      kept = kept;
      valid = At-IsValid o d (stage ∷ rest) st known_order a;
      code = code;
    }

    dispatch_failed-Ends :
        (st : InstallState) (e : Failure) → Here st → Ends (dispatch_failed stage st e)
    unfolding dispatch_failed
    dispatch_failed-Ends st interrupted a = stopped st _ a refl (inl (refl, refl))
    dispatch_failed-Ends st _ a = stopped st _ a refl (inr (refl, inr refl))

    stop_blocked-Ends :
        (st : InstallState) (output : Output) (outcome : StageResult)
        → Here st
        → Ensures P Ends (stop_blocked env o stage st output outcome)
    unfolding stop_blocked
    stop_blocked-Ends st output outcome a =
        Ensures-bind _ _ (apply_report-Same st stage output outcome) λ st1 s1.
          Ensures-bind _ _ (record_reports-Same env o F st1 outcome) λ st2 s2.
            let a2 =
              At-same o d (stage ∷ rest) st1 st2 s2 (At-same o d (stage ∷ rest) st st1 s1 a) in
            Ensures-after _ _ (save-Keeps st2 (At-IsValid o d (stage ∷ rest) st2 known_order a2))
              λ _. Ensures-pure _ (stopped st2 _ a2 refl (inr (refl, inl refl)))

    wait_for_reboot-Ends :
        (st : InstallState) (outcome : StageResult)
        → Here st
        → Ensures P Ends (wait_for_reboot env o st outcome)
    wait_for_reboot-Ends st outcome a =
        Ensures-bind _ _ (record_reports-Same env o F st outcome) λ st1 s1.
          let a1 = At-same o d (stage ∷ rest) st st1 s1 a in
          Ensures-after _ _ (save-Keeps st1 (At-IsValid o d (stage ∷ rest) st1 known_order a1))
            λ _. Ensures-pure _ (stopped st1 _ a1 refl (inl (refl, refl)))

    pass_guard-Ends :
        (position : StagePosition) (st : InstallState) (output : Output) (outcome : StageResult)
        → Here st
        → is_completed stage st.completed ≡ true
        → Ensures P Ends (pass_guard env o stage position st output outcome)
    pass_guard-Ends position st output outcome a done =
        Ensures-bind _ _ (apply_output-Same env o F st stage output outcome) λ st1 s1.
          Ensures-bind _ _ (record_reports-Same env o F st1 outcome) λ st2 s2.
            let a2 =
              At-same o d (stage ∷ rest) st1 st2 s2 (At-same o d (stage ∷ rest) st st1 s1 a) in
            let done2 = ap (is_completed stage) (s2.completed ∙ s1.completed) ∙ done in
            Ensures-after _ _
              (Keeps-bind _ _
                (Keeps-bind _ _ (save-Keeps st2 (At-IsValid o d (stage ∷ rest) st2 known_order a2))
                  (λ _. search base))
                (λ _. search base))
              (λ _. Ensures-pure _ (At-skip o d rest stage st2 a2 done2))

    rerun_completed_guard-Ends :
        (position : StagePosition) (st : InstallState)
        → Here st
        → is_completed stage st.completed ≡ true
        → Ensures P Ends (rerun_completed_guard env o stage position st)
    unfolding rerun_completed_guard
    rerun_completed_guard-Ends position st a done =
        Ensures-after _ _ (search (base, dispatch-Keeps)) λ result.
          Ensures-result result _ _
            (λ output. Ensures-after _ _ (stage_result-Keeps env o F stage output) λ outcome.
              Ensures-choice _ _ _ (stop_blocked-Ends st output outcome a)
                (pass_guard-Ends position st output outcome a done))
            (λ e. Ensures-pure _ (dispatch_failed-Ends st e a))

    resume_stage-Ends :
        (position : StagePosition) (st : InstallState)
        → Here st
        → is_completed stage st.completed ≡ true
        → Ensures P Ends (resume_stage env o stage position st)
    unfolding resume_stage
    resume_stage-Ends position st a done =
        Ensures-after _ _ (stage_inputs-Keeps env o F stage st) λ inputs.
          Ensures-after _ _ (validate_completed_stage-Keeps env o F st stage inputs) λ _.
            Ensures-choice _ _ _ (rerun_completed_guard-Ends position st a done) (
              Ensures-after _ _ (search base)
                (λ _. Ensures-pure _ (At-skip o d rest stage st a done)))

    known_next : stage_order o.mode ≡ ok (append (append d (stage ∷ [])) rest)
    known_next = known_order ∙ ap ok (sym (append_assoc d (stage ∷ []) rest))

    report_if_release-Keeps : (output : Output) → Keeps P (report_if_release env o stage output)
    report_if_release-Keeps output = reported stage output
      where
        reported : (s : InstallStage) (x : Output) → Keeps P (report_if_release env o s x)
        reported InstallStage.release_resolve (Output.release r) = search base
        reported InstallStage.release_resolve _ = search base
        reported _ x = search base

    -- What follows the checkpoint of a stage that passed.
    saved_next-Ends :
        (position : StagePosition) (st : InstallState) (output : Output) (outcome : StageResult)
        → At o (append d (stage ∷ [])) rest st
        → Keeps P (warn_unverified env o stage output outcome)
        → Ensures P Ends (
            save env o st
            >> tell env (stage_passed position)
            >> warn_unverified env o stage output outcome
            >> pure (
                if outcome.action_required
                then ended_with 1 st
                    (or_text outcome.message (stage_value stage ++ " requires operator action"))
                    ProgressOutcome.action
                else proceed st))
    saved_next-Ends position st output outcome a warned =
        Ensures-after _ _
          (Keeps-bind _ _
            (Keeps-bind _ _
              (save-Keeps st (At-IsValid o (append d (stage ∷ [])) rest st known_next a))
              (λ _. tell-Keeps env o F (stage_passed position)))
            (λ _. warned))
          (λ _. Ensures-pure _ (ends (outcome.action_required)))
      where
        ends :
            (b : Bool)
            → Ends (
                if b
                then ended_with 1 st
                    (or_text outcome.message (stage_value stage ++ " requires operator action"))
                    ProgressOutcome.action
                else proceed st)
        ends true = record {
          last = st;
          kept = refl;
          valid = At-IsValid o (append d (stage ∷ [])) rest st known_next a;
          code = inl (refl, refl);
        }
        ends false = a

    module _ (apart : distinct (stage ∷ rest) ≡ true)
        (last : ends_complete (stage ∷ rest) ≡ true) where
      finish_stage-Ends :
          (position : StagePosition) (st : InstallState) (inputs : StageInputs) (output : Output)
          (outcome : StageResult)
          → Here st
          → is_completed stage st.completed ≡ false
          → Ensures P Ends
              (finish_stage env o stage position (following stage rest) st inputs output outcome)
      unfolding finish_stage
      finish_stage-Ends position st inputs output outcome a fresh =
          Ensures-bind _ _ (apply_output-Same env o F st stage output outcome) λ st1 s1.
            Ensures-bind _ _
              (Ensures-after _ _ (report_if_release-Keeps output)
                (λ _. checkpoint-Gives st1 stage inputs (following stage rest)))
              λ st2 g.
                saved_next-Ends position st2 output outcome
                  (At-complete o d rest stage (env.input_digest inputs) st1 st2 apart last
                    (At-same o d (stage ∷ rest) st st1 s1 a)
                    (ap (is_completed stage) s1.completed ∙ fresh) g.0 g.1 g.2)
                  (search base)

      judge_stage-Ends :
          (position : StagePosition) (st : InstallState) (inputs : StageInputs) (output : Output)
          → Here st
          → is_completed stage st.completed ≡ false
          → Ensures P Ends
              (judge_stage env o stage position (following stage rest) st inputs output)
      unfolding judge_stage
      judge_stage-Ends position st inputs output a fresh =
          Ensures-after _ _ (stage_result-Keeps env o F stage output) λ outcome.
            Ensures-choice _ _ _ (stop_blocked-Ends st output outcome a) (
              Ensures-choice _ _ _ (wait_for_reboot-Ends st outcome a)
                (finish_stage-Ends position st inputs output outcome a fresh))

      perform_stage-Ends :
          (position : StagePosition) (st : InstallState)
          → Here st
          → is_completed stage st.completed ≡ false
          → Ensures P Ends (perform_stage env o stage position (following stage rest) st)
      unfolding perform_stage
      perform_stage-Ends position st a fresh = Ensures-choice _ _ _ (Ensures-raise _) (
          Ensures-after _ _ (search (base, stage_inputs-Keeps)) λ inputs.
            Ensures-after _ _ (check_disk-Keeps env o F stage st) λ shortage.
              Ensures-option shortage _ _
                (Ensures-after _ _ (search (base, dispatch-Keeps)) λ result.
                  Ensures-result result _ _
                    (λ output. judge_stage-Ends position st inputs output a fresh)
                    (λ e. Ensures-pure _ (dispatch_failed-Ends st e a)))
                (λ message. Ensures-pure _ (stopped st _ a refl (inr (refl, inr refl)))))

      pub run_stage-Ends :
          (position : StagePosition) (st : InstallState)
          → Here st
          → Ensures P Ends (run_stage env o stage position (following stage rest) st)
      unfolding run_stage
      run_stage-Ends position st a = Ensures-after _ _ (search base) λ _.
          Ensures-if (is_completed stage st.completed) _ _
            (λ done. resume_stage-Ends position st a done)
            (λ fresh. perform_stage-Ends position st a fresh)
