-- ===== src/Installer/Workflow/Proofs/Locked.antt =====
-- A run under its locks (`run` in workflow.py): what it leaves in the state files.
use strix_halo_rocm_toolkit.Prelude.{
  ◌≡◌, refl, ap, sym, ◌∙◌, ◌⊎◌, inl, inr, String, Bool, true, false, List, [], ◌∷◌, Option, some,
  none, ℕ, suc, str_eq, eq_iff, if◌then◌else◌, on_option,
}
use strix_halo_rocm_toolkit.Results.{ok, err}
use strix_halo_rocm_toolkit.Exec.{pure, lift, ◌>>◌, modify}
use strix_halo_rocm_toolkit.Exec.Ensures.{
  Ensures, Keeps, Keeps-intro, Keeps-bind, Keeps-pure, Ensures-bind, Ensures-after, Ensures-pure,
  Ensures-known, Ensures-if, Ensures-weaken,
}
use strix_halo_rocm_toolkit.Installer.Stages.{InstallMode, InstallStage, mode_eq}
use strix_halo_rocm_toolkit.Installer.Models.{InstallOptions, InstallState}
use strix_halo_rocm_toolkit.Installer.Workflow.Session.{
  Env, Session, StateFile, missing, corrupt, stored, Failure, WorkflowResult, ProgressOutcome,
  load_state, load_file, after_preserve, save_state,
}
use strix_halo_rocm_toolkit.Installer.Workflow.Transition.{
  stage_order, next_incomplete, or_complete, validate_transition,
}
use strix_halo_rocm_toolkit.Installer.Workflow.Construction.{constructed, Ensures-constructed}
use strix_halo_rocm_toolkit.Installer.Workflow.Update.{adopt_compatible_installer_update}
use strix_halo_rocm_toolkit.Installer.Workflow.Plans.{resolved_registry_policy}
use strix_halo_rocm_toolkit.Installer.Workflow.Run.{
  first_stage, new_state, new_state_at, report_session_plan, announce_stages, run_dry, remember,
  resume_state, run_locked,
}
use strix_halo_rocm_toolkit.Installer.Workflow.Proofs.Files.{
  FileProperty, OnFiles, base, stage_inputs-Keeps,
}
use strix_halo_rocm_toolkit.Installer.Workflow.Proofs.Position.{At-IsValid, IsValid}
use strix_halo_rocm_toolkit.Installer.Workflow.Proofs.Prefix.{all_done, none_done, is_prefix-none}
use strix_halo_rocm_toolkit.Installer.Workflow.Proofs.Rounds.{KeepsValid, save-Keeps}
use strix_halo_rocm_toolkit.Installer.Workflow.Proofs.Runs.{RunEnds, run_stages-Ends}

-- The state is accepted by the checks of a run in the mode.
pub record Accepted (m : InstallMode) (st : InstallState) : Type 0 where
  pub by : InstallOptions
  pub in_mode : by.mode ≡ m
  pub valid : IsValid by st

-- What may have become of a state file: it is as before; it was corrupt and has been moved aside; or,
-- unless the run is dry, it holds a state that a run in the same mode accepts.
pub data Became (m : InstallMode) (dry : Bool) (before after : StateFile) : Type 0 where
  unchanged : after ≡ before → Became m dry before after
  moved_aside :
      (reason : String) → before ≡ corrupt reason → after ≡ missing → Became m dry before after
  saved :
      (st : InstallState)
      → dry ≡ false
      → Accepted m st
      → after ≡ stored st
      → Became m dry before after

abbrev pub RunFiles : InstallMode → Bool → (String → StateFile) → (String → StateFile) → Type 0
RunFiles m dry before f = (p : String) → Became m dry (before p) (f p)

-- What a result says: a success has completed every stage of the mode, or is a dry run's; anything
-- else has the exit code of its outcome.
pub data Concludes (m : InstallMode) (dry : Bool) (r : WorkflowResult) : Type 0 where
  rehearsed :
      dry ≡ true
      → r.exit_code ≡ 0
      → r.progress_outcome ≡ ProgressOutcome.success
      → Concludes m dry r
  completed :
      dry ≡ false
      → (order : List InstallStage) (st : InstallState) → stage_order m ≡ ok order
      → r.state ≡ some st
      → all_done order st.completed ≡ true
      → r.exit_code ≡ 0
      → r.progress_outcome ≡ ProgressOutcome.success
      → Concludes m dry r
  acted : r.exit_code ≡ 1 → r.progress_outcome ≡ ProgressOutcome.action → Concludes m dry r
  failed :
      r.exit_code ≡ 2
      → (r.progress_outcome ≡ ProgressOutcome.blocked)
        ⊎ (r.progress_outcome ≡ ProgressOutcome.failure)
      → Concludes m dry r

none_done-nil : (order : List InstallStage) → none_done order [] ≡ true
none_done-nil [] = refl
none_done-nil (s ∷ order) = none_done-nil order

first_stage-next :
    (order : List InstallStage) → first_stage order ≡ or_complete (next_incomplete order [])
first_stage-next [] = refl
first_stage-next (s ∷ order) = refl

mode_eq_refl : (m : InstallMode) → mode_eq m m ≡ true
mode_eq_refl InstallMode.full = refl
mode_eq_refl InstallMode.container = refl
mode_eq_refl InstallMode.doctor = refl

module _ {W : Type 0} (env : Env W) (o : InstallOptions) (before : String → StateFile) where
  -- What holds all along a run with these options.
  abbrev pub F : FileProperty
  F o1 f = (o1.mode ≡ o.mode) × (o1.dry_run ≡ o.dry_run) × (RunFiles o.mode o.dry_run before f)

  abbrev pub P : Session W → Type 0
  P = OnFiles F

  saved-Keeps : o.dry_run ≡ false → KeepsValid o F
  saved-Keeps wet o1 st f v (m, d, h) = (m, d, λ p. at p (str_eq p o.state_path))
    where
      at :
          (p : String) (b : Bool)
          → Became o.mode o.dry_run (before p) (if b then stored st else f p)
      at p true = saved st wet (record { by = o; in_mode = refl; valid = v }) refl
      at p false = h p

  new_state-IsValid :
      (order : List InstallStage) (project time user : String)
      → stage_order o.mode ≡ ok order
      → IsValid o (new_state_at env o project time user (first_stage order))
  new_state-IsValid order project time user known_order =
      At-IsValid o [] order _ known_order (record {
        mode = mode_eq_refl o.mode;
        owned = refl;
        finished = refl;
        prefix = is_prefix-none order [] (none_done-nil order);
        current = first_stage-next order;
      })

  was_corrupt :
      (x y : StateFile) (reason : String)
      → y ≡ corrupt reason
      → Became o.mode o.dry_run x y
      → Became o.mode o.dry_run x missing
  was_corrupt x y reason e (unchanged same) = moved_aside reason (sym same ∙ e) refl
  was_corrupt x y reason e (moved_aside r b a) = cc
  was_corrupt x y reason e (saved st _ _ a) = cc

  load_file-kept :
      (s : Session W) (x : StateFile)
      → s.files o.state_path ≡ x
      → P s
      → P (load_file env o.state_path x s).1
  load_file-kept s missing e h = h
  load_file-kept s (corrupt reason) e (m, d, h) =
      moved (env.preserve_corrupt o.state_path reason s.world)
    where
      aside :
          (p : String) (b : Bool)
          → str_eq p o.state_path ≡ b
          → Became o.mode o.dry_run (before p) (if b then missing else s.files p)
      aside p true k =
          was_corrupt (before p) (s.files p) reason (ap s.files ((eq_iff p o.state_path).0 k) ∙ e)
            (h p)
      aside p false k = h p

      moved : (x : (Bool × Failure) × W) → P (after_preserve o.state_path x s).1
      moved ((true, e1), w) = (m, d, λ p. aside p (str_eq p o.state_path) refl)
      moved ((false, e1), w) = (m, d, h)
  load_file-kept s (stored st) e h = h

  load_state-Keeps : Keeps P (load_state env o.state_path)
  unfolding load_state
  load_state-Keeps =
      Keeps-intro (load_state env o.state_path)
        (λ s h. read s h (env.unreadable o.state_path s.world))
    where
      read :
          (s : Session W)
          → P s
          → (x : Option Failure)
          → P
              (on_option x
                (load_file env o.state_path (s.files o.state_path) s)
                (λ e. (err e, s))).1
      read s h none = load_file-kept s (s.files o.state_path) refl h
      read s h (some e) = h

  remember-Keeps : (st : InstallState) → Keeps P (remember env st)
  unfolding modify
  remember-Keeps st = Keeps-intro (remember env st) (λ s h. h)

  -- Only a run that is not dry has a new state to save.
  abbrev Fresh : InstallState × Bool → Type 0
  Fresh x = x.1 ≡ true → o.dry_run ≡ false

  constructed-Keeps : (st : InstallState) → Keeps P (constructed env st)
  constructed-Keeps st = Ensures-constructed env st tt

  adopt-Keeps : (st : InstallState) → Keeps P (adopt_compatible_installer_update env o st)
  unfolding adopt_compatible_installer_update
  adopt-Keeps st = search (base, stage_inputs-Keeps, constructed-Keeps) depth 9

  new_state-Valid : (project : String) → Ensures P (IsValid o) (new_state env o project)
  unfolding new_state
  new_state-Valid project = Ensures-after _ _ (search base) λ time.
      Ensures-after _ _ (search base) λ user.
        Ensures-bind _ _ (Ensures-known (stage_order o.mode)) λ order known_order.
          Ensures-constructed env _ (new_state-IsValid order project time user known_order)

  saves_fresh-Keeps :
      (st : InstallState)
      → IsValid o st
      → Keeps P (if o.dry_run then pure tt else save_state env o.state_path st)
  saves_fresh-Keeps st v =
      Ensures-if o.dry_run _ _ (λ _. Keeps-pure tt)
        (λ wet. save-Keeps env o F (saved-Keeps wet) st v)

  resume_state-Fresh :
      (project : String) (found : Option InstallState)
      → Ensures P Fresh (resume_state env o project found)
  unfolding resume_state
  resume_state-Fresh project none = Ensures-bind _ _ (new_state-Valid project) λ st v.
      Ensures-after _ _ (Keeps-bind _ _ (remember-Keeps st) (λ _. saves_fresh-Keeps st v))
        λ _. Ensures-pure _ (λ e. cc)
  resume_state-Fresh project (some st) = Ensures-after _ _ (remember-Keeps st) λ _.
      Ensures-if o.dry_run _ _ (λ _. Ensures-pure _ (λ e. cc))
        (λ wet. Ensures-weaken _ (λ x _ _. wet) (adopt-Keeps st))

  announce_stages-Keeps :
      (total index : ℕ) (order : List InstallStage)
      → Keeps P (announce_stages env total index order)
  unfolding announce_stages
  announce_stages-Keeps total index [] = Keeps-pure tt
  announce_stages-Keeps total index (stage ∷ rest) =
      Keeps-bind _ _ (search base) (λ _. announce_stages-Keeps total (suc index) rest)

  report_session_plan-Keeps :
      (project : String) (order : List InstallStage) (st : InstallState)
      → Keeps P (report_session_plan env o project order st)
  unfolding report_session_plan resolved_registry_policy
  report_session_plan-Keeps project order st = search base depth 9

  abbrev pub Q : WorkflowResult → Type 0
  Q = Concludes o.mode o.dry_run

  run_dry-Concludes :
      (order : List InstallStage) (st : InstallState)
      → o.dry_run ≡ true
      → Ensures P Q (run_dry env order st)
  unfolding run_dry
  run_dry-Concludes order st dry =
      Ensures-after _ _ (announce_stages-Keeps _ 0 order)
        λ _. Ensures-pure _ (rehearsed dry refl refl)

  concludes :
      (order : List InstallStage) (r : WorkflowResult)
      → o.dry_run ≡ false
      → stage_order o.mode ≡ ok order
      → RunEnds o order r
      → Q r
  concludes order r wet known_order (inl f) =
      completed wet order f.last known_order f.kept f.all_stages f.code.0 f.code.1
  concludes order r wet known_order (inr s) = stopped s.code
    where
      stopped :
          ((r.exit_code ≡ 1) × (r.progress_outcome ≡ ProgressOutcome.action))
            ⊎ ((r.exit_code ≡ 2)
                × ((r.progress_outcome ≡ ProgressOutcome.blocked)
                    ⊎ (r.progress_outcome ≡ ProgressOutcome.failure)))
          → Q r
      stopped (inl (c, a)) = acted c a
      stopped (inr (c, a)) = failed c a

  saves_adopted-Keeps :
      (x : InstallState × Bool)
      → Fresh x
      → IsValid o x.0
      → Keeps P (if x.1 then save_state env o.state_path x.0 else pure tt)
  saves_adopted-Keeps x fresh v =
      Ensures-if x.1 _ _ (λ adopted. save-Keeps env o F (saved-Keeps (fresh adopted)) x.0 v)
        (λ _. Keeps-pure tt)

  -- The state that a run goes on with is valid, and saved if it is new.
  resumed-Valid :
      (x : InstallState × Bool)
      → Fresh x
      → Ensures P
          (λ order. (IsValid o x.0) × (stage_order o.mode ≡ ok order))
          (remember env x.0
            >> lift (validate_transition o x.0)
            >> (if x.1 then save_state env o.state_path x.0 else pure tt)
            >> lift (stage_order o.mode))
  resumed-Valid x fresh =
      Ensures-bind {Q = λ _. IsValid o x.0} _ _
        (Ensures-bind {Q = λ _. IsValid o x.0} {R = λ _. IsValid o x.0} _ _
          (Ensures-after _ _ (remember-Keeps x.0) λ _. Ensures-known (validate_transition o x.0))
          λ _ v. Ensures-weaken _ (λ _ _. v) (saves_adopted-Keeps x fresh v))
        λ _ v. Ensures-weaken _ (λ order e. (v, e)) (Ensures-known (stage_order o.mode))

  pub run_locked-Concludes : (project : String) → Ensures P Q (run_locked env o project)
  unfolding run_locked
  run_locked-Concludes project = Ensures-after _ _ load_state-Keeps λ found.
      Ensures-bind _ _ (resume_state-Fresh project found) λ x fresh.
        Ensures-bind _ _ (resumed-Valid x fresh) λ order ready.
          Ensures-after _ _ (report_session_plan-Keeps project order x.0) λ _.
            Ensures-if o.dry_run _ _ (λ dry. run_dry-Concludes order x.0 dry)
              (λ wet.
                Ensures-weaken _ (λ r e. concludes order r wet ready.1 e)
                  (run_stages-Ends env o F (saved-Keeps wet) order ready.1 x.0 ready.0))
