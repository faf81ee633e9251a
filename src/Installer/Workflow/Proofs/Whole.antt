-- ===== src/Installer/Workflow/Proofs/Whole.antt =====
-- A whole run of the workflow (`run` in workflow.py): it returns, and what its result says of the
-- installation and what it leaves in the state files.
use strix_halo_rocm_toolkit.Prelude.{◌≡◌, refl, inr, String, Option, some, none, sym, on_option}
use strix_halo_rocm_toolkit.Results.{Result, ok, err, on_result}
use strix_halo_rocm_toolkit.Exec.{pure, gets, modify, ◌>>=◌, attempt, raise, continue}
use strix_halo_rocm_toolkit.Exec.Ensures.{
  Ensures, Keeps, Keeps-intro, Keeps-bind, Ensures-bind, Ensures-after, Ensures-pure, Ensures-raise,
  Ensures-gets, Ensures-choice, Ensures-option, Ensures-try_finally, Keeps-attempt, Returns,
  Ensures-weaken, Anything,
}
use strix_halo_rocm_toolkit.Installer.Models.{InstallOptions, InstallState}
use strix_halo_rocm_toolkit.Installer.Workflow.Session.{
  Env, Session, Method, StateFile, Failure, interrupted, WorkflowResult,
}
use strix_halo_rocm_toolkit.Installer.Workflow.Options.{prepare_options, select_state_path}
use strix_halo_rocm_toolkit.Installer.Workflow.Run.{
  locked, run_body, result_of, finish_progress, run, first_error, run_locked, progress_failed,
  finish_failed, attempt_error, reraise,
}
use strix_halo_rocm_toolkit.Installer.Workflow.Proofs.Files.{base, modify-Keeps}
use strix_halo_rocm_toolkit.Installer.Workflow.Proofs.Locked.{
  P, RunFiles, unchanged, Concludes, acted, failed, run_locked-Concludes,
}

-- A call returns a value with `Q`, or it raises an interruption and nothing else.
abbrev pub EndsWith : {A : Type 0} → (A → Type 0) → Result Failure A → Type 0
EndsWith Q (ok a) = Q a
EndsWith Q (err e) = e ≡ interrupted

module _ {W A : Type 0} where
  pure-EndsWith :
      (Q : A → Type 0) (a : A) (s : Session W) → Q a → EndsWith Q (pure {E = Failure} a s).0
  unfolding pure
  pure-EndsWith Q a s q = q

  gets-EndsWith : (f : Session W → A) (s : Session W) → EndsWith Anything (gets {E = Failure} f s).0
  unfolding gets
  gets-EndsWith f s = tt

  attempt_error-EndsWith :
      (env : Env W) (m : Method W A) (s : Session W) → EndsWith Anything (attempt_error env m s).0
  unfolding ◌>>=◌ attempt pure raise
  attempt_error-EndsWith env m s = raised (m s).0
    where
      raised : (x : Result Failure A) → EndsWith Anything (reraise env x (m s).1).0
      raised (ok a) = tt
      raised (err interrupted) = refl
      raised (err _) = tt

module _ {W A B : Type 0} (Q : A → Type 0) (R : B → Type 0) where
  bind-EndsWith :
      (m : Method W A) (f : A → Method W B) (s : Session W)
      → EndsWith Q (m s).0
      → ((a : A) → Q a → (s1 : Session W) → EndsWith R (f a s1).0)
      → EndsWith R ((m >>= f) s).0
  unfolding ◌>>=◌
  bind-EndsWith m f s q k = on (m s).0 (m s).1 q
    where
      on : (x : Result Failure A) (s1 : Session W) → EndsWith Q x → EndsWith R (continue x f s1).0
      on (ok a) s1 h = k a h s1
      on (err e) s1 h = h

module _ {W : Type 0} (env : Env W) (o0 : InstallOptions) (before : String → StateFile) where
  abbrev P0 : Session W → Type 0
  P0 = P env o0 before

  abbrev Q0 : WorkflowResult → Type 0
  Q0 = Concludes o0.mode o0.dry_run

  abbrev Like : InstallOptions → Type 0
  Like o = (o.mode ≡ o0.mode) × (o.dry_run ≡ o0.dry_run)

  set_options-Keeps :
      (f : Session W → Session W)
      → ((s : Session W) → Like (f s).options)
      → ((s : Session W) → (f s).files ≡ s.files)
      → Keeps P0 (modify {E = Failure} f)
  unfolding modify
  set_options-Keeps f like same =
      Keeps-intro (modify f) (λ s h. ((like s).0, (like s).1, rw (same s) (h.2)))

  prepare_options-Like : Ensures P0 Like (prepare_options env)
  unfolding prepare_options
  prepare_options-Like = Ensures-bind {Q = Like} _ _ (Ensures-gets _ (λ s h. (h.0, h.1))) λ o like.
      Ensures-choice _ _ _ (Ensures-raise _) (
        Ensures-option (o.project_dir) _ _
          (Ensures-after _ _ (search base) λ dir.
            Ensures-after _ _ (set_options-Keeps _ (λ s. like) (λ s. refl))
              λ _. Ensures-pure _ like)
          (λ _. Ensures-pure _ like))

  select_state_path-Like :
      (o : InstallOptions) (project : String)
      → Like o
      → Ensures P0 Like (select_state_path env o project)
  unfolding select_state_path
  select_state_path-Like o project like = Ensures-after _ _ (search base) λ selection.
      Ensures-after _ _ (set_options-Keeps _ (λ s. like) (λ s. refl))
        λ _. Ensures-after _ _ (search base) λ _. Ensures-pure _ like

  locked-Ensures :
      (path : String) (m : Method W WorkflowResult)
      → Ensures P0 Q0 m
      → Ensures P0 Q0 (locked env path m)
  locked-Ensures path m km =
      Ensures-after _ _ (search base) λ _. Ensures-try_finally m _ km (search base)

  run_selected-Concludes :
      (o : InstallOptions) (project : String) → Like o → Ensures P0 Q0 (run_locked env o project)
  run_selected-Concludes o project like =
      rw (sym like.0, sym like.1) (run_locked-Concludes env o before project)

  run_body-Concludes : Ensures P0 Q0 (run_body env)
  unfolding run_body
  run_body-Concludes = Ensures-bind {Q = Like} _ _ prepare_options-Like λ o like.
      Ensures-after _ _ (search base) λ project. Ensures-after _ _ (search base) λ policy.
        Ensures-after _ _
          (Keeps-bind _ _ (modify-Keeps env o0 _ _ (λ s. refl) (λ s. refl)) (λ _. search base))
          λ _. locked-Ensures _ _ (
            Ensures-bind {Q = Like} _ _ (select_state_path-Like o project like)
              λ selected at. locked-Ensures _ _ (run_selected-Concludes selected project at))

  result_of-Concludes :
      (o : InstallOptions) (st : Option InstallState) (e : Failure) → Q0 (result_of env o st e)
  unfolding result_of
  result_of-Concludes o st interrupted = acted refl refl
  result_of-Concludes o st _ = failed refl (inr refl)

  abbrev Ends : Result Failure WorkflowResult → Type 0
  Ends = EndsWith Q0

  progress_failed-Ends :
      (r : WorkflowResult) (e : Failure) (s : Session W) → Ends (progress_failed env r e s).0
  progress_failed-Ends r e s =
      bind-EndsWith Anything Q0 _ _ s (attempt_error-EndsWith env _ s)
        (λ _ _ s1. pure-EndsWith Q0 _ s1 (failed refl (inr refl)))

  -- The end of a run returns, or it is interrupted, whatever the progress reporter does.
  finish_progress-Ends :
      (r : WorkflowResult) (s : Session W) → Q0 r → Ends (finish_progress env r s).0
  unfolding finish_progress
  finish_progress-Ends r s q =
      bind-EndsWith Anything Q0 (gets (λ s1. s1.position)) _ s (gets-EndsWith _ s) λ position _ s1.
        bind-EndsWith Anything Q0 _ _ s1 (attempt_error-EndsWith env _ s1) λ finished _ s2.
          bind-EndsWith Anything Q0 _ _ s2 (attempt_error-EndsWith env _ s2)
            λ closed _ s3. settled (first_error env finished closed) s3
    where
      settled :
          (x : Option Failure) (s1 : Session W)
          → Ends (on_option x (pure r) (λ e. progress_failed env r e) s1).0
      settled none s1 = pure-EndsWith Q0 r s1 q
      settled (some e) s1 = progress_failed-Ends r e s1

  reraise-Keeps : {A : Type 0} (r : Result Failure A) → Keeps P0 (reraise env r)
  reraise-Keeps (ok a) = search base
  reraise-Keeps (err interrupted) = search base
  reraise-Keeps (err _) = search base

  finish_progress-Keeps : (r : WorkflowResult) → Keeps P0 (finish_progress env r)
  unfolding finish_progress
  finish_progress-Keeps r = search (base, reraise-Keeps) depth 9

  finish_failed-Keeps : (e : Failure) → Keeps P0 (finish_failed env e)
  finish_failed-Keeps e = search (base, finish_progress-Keeps)

  run-Keeps : Keeps P0 (run env)
  unfolding run
  run-Keeps =
      Keeps-bind _ _
        (Keeps-attempt _ (Ensures-weaken {R = Anything} _ (λ _ _. tt) run_body-Concludes))
        (λ ended. search (base, finish_progress-Keeps, finish_failed-Keeps))

  run-Ends : (s : Session W) → P0 s → Ends (run env s).0
  unfolding run ◌>>=◌ attempt gets
  run-Ends s h = ending (run_body env s).0 (run_body env s).1 (run_body-Concludes.gives s h)
    where
      ending :
          (x : Result Failure WorkflowResult) (s1 : Session W)
          → Returns Q0 x
          → Ends (on_result x (λ r. finish_progress env r) (λ e. finish_failed env e) s1).0
      ending (ok r) s1 q = finish_progress-Ends r s1 q
      ending (err e) s1 q =
          finish_progress-Ends (result_of env s1.options s1.loaded e) s1
            (result_of-Concludes s1.options s1.loaded e)

module _ {W : Type 0} (env : Env W) (s : Session W) where
  started : P env s.options s.files s
  started = (refl, refl, λ p. unchanged refl)

  -- A run returns a result, whatever the actions, the prompts, the writes and the progress reporter do
  -- and raise, unless it is interrupted while it reports its end, when it raises that interruption. The
  -- result has exit code 0 and the outcome of a success, and either the run is dry or the state of the
  -- result has every stage of the order of its mode completed; or exit code 1 and the outcome of an
  -- action; or exit code 2 and the outcome of a blocked stage or a failure.
  pub run-Concludes : EndsWith (Concludes s.options.mode s.options.dry_run) (run env s).0
  run-Concludes = run-Ends env s.options s.files s started

  -- After a run, each state file is as before, or it was corrupt and has been moved aside, or the run
  -- is not dry and the file holds a state that the checks of a run in the same mode accept.
  pub run-RunFiles : RunFiles s.options.mode s.options.dry_run s.files (run env s).1.files
  run-RunFiles = ((run-Keeps env s.options s.files).kept s started).2
