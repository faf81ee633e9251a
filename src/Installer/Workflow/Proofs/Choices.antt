-- ===== src/Installer/Workflow/Proofs/Choices.antt =====
-- The choices that a run makes by itself: the state file, the room on the disk, and the source of the
-- images when they cannot be pulled (workflow.py, state.py).
use mathlib.Core.Path.{fun_ext}
use mathlib.Core.Bool.{true≢false}
use strix_halo_rocm_toolkit.Prelude.{
  ◌≡◌, ◌≢◌, refl, sym, ap, ◌⊎◌, inl, inr, ◌↔◌, String, Bool, true, false, Option, some, none,
  if◌then◌else◌, str_eq, eq_iff, arith,
}
use strix_halo_rocm_toolkit.Exec.{pure, try_catch, ◌>>=◌}
use strix_halo_rocm_toolkit.Installer.Models.{InstallOptions, InstallState, StableRelease, Output}
use strix_halo_rocm_toolkit.Installer.Workflow.Session.{
  Env, Session, Method, Call, Failure, release_acquisition, StateFile, stored, tell, missing,
  corrupt,
}
use strix_halo_rocm_toolkit.Installer.Workflow.Options.{
  select_install_state_path, exists, legacy_or, inspect_state_project_path,
}
use strix_halo_rocm_toolkit.Installer.Workflow.Plans.{resolved_release, resolved_registry_policy}
use strix_halo_rocm_toolkit.Installer.Workflow.Inputs.{source_or_pull}
use strix_halo_rocm_toolkit.Installer.Workflow.Dispatch.{
  fall_back, when_pull_fails, acquire_images, pull_release_candidates, build_local, pull_candidates,
}

module _ {W : Type 0} (env : Env W) where
  -- The file at a path can be read and names another project.
  abbrev pub IsForeign : StateFile → Option Failure → String → Type 0
  IsForeign file unreadable project =
      (st : InstallState) × (owner : String) × (file ≡ stored st)
      × (unreadable ≡ none)
      × (st.project_path ≡ some owner)
      × (owner ≢ project)

  legacy_or_iff :
      (unreadable : Option Failure) (file : StateFile) (project requested own : String)
      → own ≢ requested
      → ((legacy_or env project requested own (inspect_state_project_path env unreadable file)).0
          ≡ requested)
        ↔ ((file ≢ missing) × ¬ (IsForeign file unreadable project))
  legacy_or_iff unreadable missing project requested own other =
      ((λ h. absurd (other h)), (λ (h, _). absurd (h refl)))
  legacy_or_iff unreadable (corrupt m) project requested own other =
      ((λ _. ((λ h. cc), (λ (st, owner, h, _, _, _). cc))), (λ _. refl))
  legacy_or_iff (some e) (stored st) project requested own other =
      ((λ _. ((λ h. cc), (λ (st', owner, _, h, _, _). cc))), (λ _. refl))
  legacy_or_iff none (stored st) project requested own other = by_owner st.project_path refl
    where
      Selected : Option String → Type 0
      Selected o =
          ((legacy_or env project requested own (true, o)).0 ≡ requested)
          ↔ ((stored st ≢ missing) × ¬ (IsForeign (stored st) none project))

      chosen : Bool → String × String
      chosen b = if b then (requested, "legacy") else (own, "project")

      compared :
          (owner : String) (b : Bool)
          → st.project_path ≡ some owner
          → str_eq owner project ≡ b
          → ((chosen b).0 ≡ requested)
            ↔ ((stored st ≢ missing) × ¬ (IsForeign (stored st) none project))
      compared owner true e same = (
        (λ _. (
          (λ h. cc),
          (λ (st', owner', f, _, p, n).
              let is : owner ≡ project = ground (arith, eq_iff owner project) in n cc),
        )),
        (λ _. refl),
      )
      compared owner false e differ = (
        (λ h. absurd (other h)),
        (λ (_, n).
            absurd (n (st, owner, refl, refl, e, (λ same. ground (arith, eq_iff owner project))))),
      )

      by_owner : (o : Option String) → st.project_path ≡ o → Selected o
      by_owner none e = ((λ _. ((λ h. cc), (λ (st', owner, f, _, p, _). cc))), (λ _. refl))
      by_owner (some owner) e = compared owner (str_eq owner project) e refl

  -- Where the project's own path is not the requested one: the file at the requested path is selected
  -- exactly when the path is explicit, or when the project has no file of its own and there is a file at
  -- the requested path that is not one that can be read and names another project.
  pub select_install_state_path-requested :
      (files : String → StateFile) (unreadable : String → Option Failure)
      (project requested : String) (explicit : Bool)
      → env.project_state_path project requested ≢ requested
      → ((select_install_state_path env files unreadable project requested explicit).0 ≡ requested)
        ↔ ((explicit ≡ true)
            ⊎ ((files (env.project_state_path project requested) ≡ missing)
                × (files requested ≢ missing)
                × ¬ (IsForeign (files requested) (unreadable requested) project)))
  unfolding select_install_state_path
  select_install_state_path-requested files unreadable project requested true other =
      ((λ _. inl refl), (λ _. refl))
  select_install_state_path-requested files unreadable project requested false other =
      at (files (env.project_state_path project requested)) refl
    where
      own : String
      own = env.project_state_path project requested

      legacy : String × String
      legacy =
          legacy_or env project requested own
            (inspect_state_project_path env (unreadable requested) (files requested))

      Condition : Type 0
      Condition =
          (false ≡ true)
          ⊎ ((files own ≡ missing)
              × (files requested ≢ missing)
              × ¬ (IsForeign (files requested) (unreadable requested) project))

      taken : files own ≢ missing → ((own ≡ requested) ↔ Condition)
      taken there = ((λ h. absurd (other h)), λ c. absurd (none_of c))
        where
          none_of : Condition → ⊥
          none_of (inl h) = true≢false (sym h)
          none_of (inr (h, _, _)) = there h

      at :
          (f : StateFile)
          → files own ≡ f
          → ((if exists env f then (own, "project") else legacy).0 ≡ requested) ↔ Condition
      at (corrupt m) e = taken (λ h. cc)
      at (stored st) e = taken (λ h. cc)
      at missing e = ((λ h. inr (e, (iff.0 h).0, (iff.0 h).1)), λ c. iff.1 (left c))
        where
          iff : (legacy.0 ≡ requested) ↔ (
              (files requested ≢ missing)
              × ¬ (IsForeign (files requested) (unreadable requested) project))
          iff = legacy_or_iff (unreadable requested) (files requested) project requested own other

          left :
              Condition
              → (files requested ≢ missing)
                × ¬ (IsForeign (files requested) (unreadable requested) project)
          left (inl h) = absurd (true≢false (sym h))
          left (inr (_, a, b)) = (a, b)

-- The same environment, but that it builds the images in another way.
abbrev pub other_build : {W : Type 0} → (String → String → Call W Output) → Env W → Env W
other_build build env = record env { build_local_images = build }

module _ {W : Type 0} (env : Env W) (o : InstallOptions) (build : String → String → Call W Output)
    (silent : o.non_interactive ≡ true) where
  fall_back-same :
      (release : StableRelease) (m : String)
      → fall_back env o release m ≡ fall_back (other_build build env) o release m
  fall_back-same release m = rw silent

  when_pull_fails-same :
      (release : StableRelease) (e : Failure)
      → when_pull_fails env o release e ≡ when_pull_fails (other_build build env) o release e
  when_pull_fails-same release (release_acquisition m) = fall_back-same release m
  when_pull_fails-same release _ = refl

  -- The images of a release, pulled or built.
  abbrev sourced : Bool → Env W → StableRelease → Method W Output
  sourced b e release =
      if b
      then try_catch (pull_release_candidates e o release >>= λ v. pure (Output.images v))
          (when_pull_fails e o release)
      else build_local e o

  -- A run without prompts that is to pull its images never builds them instead: the stage is the same
  -- whatever the local build would do.
  pub acquire_images-no_build :
      (st : InstallState) (s : Session W)
      → str_eq (source_or_pull o.image_source) "pull" ≡ true
      → acquire_images env o st s ≡ acquire_images (other_build build env) o st s
  unfolding acquire_images resolved_release resolved_registry_policy pull_candidates tell
  acquire_images-no_build st s pulls =
      ap (λ (k : StableRelease → Method W Output). (resolved_release env o st >>= k) s)
        (pulled_or (str_eq (source_or_pull o.image_source) "pull") pulls)
    where
      pulled_or : (b : Bool) → b ≡ true → sourced b env ≡ sourced b (other_build build env)
      pulled_or true e = fun_ext λ release.
          ap (try_catch (pull_release_candidates env o release >>= λ v. pure (Output.images v)))
            (fun_ext (when_pull_fails-same release))
      pulled_or false e = cc
