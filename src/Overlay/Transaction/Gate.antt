-- ===== src/Overlay/Transaction/Gate.antt =====
-- What a generation must pass before it is activated.
use mathlib.Core.Path.{ap}
use strix_halo_rocm_toolkit.Prelude.{
  ◌≡◌, ◌⊎◌, inl, inr, ◌==◌, String, Bool, true, false, str_eq, arith,
}
use strix_halo_rocm_toolkit.Results.{Result}
use strix_halo_rocm_toolkit.Exec.{try_finally, ended, ◌>>=◌}
use strix_halo_rocm_toolkit.Exec.Ensures.{Ensures, Ensures-raise, Ensures-try_catch, Keeps-intro}
use strix_halo_rocm_toolkit.Exec.Known.{Always, Ensures-next, bind-agree, bind-agree_after}
use strix_halo_rocm_toolkit.Overlay.Transaction.{
  Env, Method, Failure, lock_error, transaction_error, other_error, OverlayState, ProtectedProfile,
  PipResult, overlay_transaction, create_generation, fail_with, on_lock_error,
  validate_artifacts_of, judge_pip, install, verify_generation, state_for, commit, build_generation,
}

-- A method that never returns a value: every run of it raises.
abbrev pub NeverReturns : {W A : Type 0} → Method W A → Type 0
NeverReturns m = Ensures Always (λ _. ⊥) m

-- The same environment, but that it replaces the current link in another way.
abbrev pub other_current : {W : Type 0} → (String → Method W (Unit {0})) → Env W → Env W
other_current deny env = record env { replace_current = deny }

module _ {W : Type 0} (env : Env W) where
  -- The lock does not pass the validation that was asked for, pip fails on a lock that is not empty, or
  -- the verifier fails.
  abbrev pub IsRefused : String → String → Bool → Type 0
  IsRefused lock_text id validate_artifacts =
      ((validate_artifacts ≡ true) × NeverReturns (env.validate_lock lock_text))
      ⊎ ((str_eq lock_text "" ≡ false)
          × Ensures Always (λ (r : PipResult). (r.returncode == 0) ≡ false) (env.run_pip id))
      ⊎ NeverReturns (env.verifier id)

  fail_with-NeverReturns :
      {A : Type 0} (id note message : String) → NeverReturns (fail_with env {A = A} id note message)
  fail_with-NeverReturns id note message =
      Ensures-next (Keeps-intro _ (λ _ _. tt)) (λ _ _. Ensures-raise (transaction_error message))

  on_lock_error-NeverReturns : (id : String) (e : Failure) → NeverReturns (on_lock_error env id e)
  on_lock_error-NeverReturns id (lock_error m) = fail_with-NeverReturns id _ _
  on_lock_error-NeverReturns id (transaction_error m) = Ensures-raise (transaction_error m)
  on_lock_error-NeverReturns id (other_error m) = Ensures-raise (other_error m)

  validation-NeverReturns :
      (id lock_text : String)
      → NeverReturns (env.validate_lock lock_text)
      → NeverReturns (validate_artifacts_of env true id lock_text)
  validation-NeverReturns id lock_text h =
      Ensures-try_catch (env.validate_lock lock_text) (on_lock_error env id) h
        (on_lock_error-NeverReturns id)

  judge_pip-NeverReturns :
      (id : String) (r : PipResult)
      → (r.returncode == 0) ≡ false
      → NeverReturns (judge_pip env id r)
  judge_pip-NeverReturns id r h = rw h (fail_with-NeverReturns id _ _)

  install-NeverReturns :
      (id lock_text : String)
      → str_eq lock_text "" ≡ false
      → Ensures Always (λ (r : PipResult). (r.returncode == 0) ≡ false) (env.run_pip id)
      → NeverReturns (install env id lock_text)
  install-NeverReturns id lock_text filled fails =
      rw filled (Ensures-next fails (judge_pip-NeverReturns id))

  verify_generation-NeverReturns :
      (id : String) → NeverReturns (env.verifier id) → NeverReturns (verify_generation env id)
  verify_generation-NeverReturns id h =
      Ensures-try_catch (env.verifier id) _ h (λ e. fail_with-NeverReturns id _ _)

-- What comes after a method that never returns does not matter.
never-agree :
    {W A B : Type 0} (m : Method W A) (f g : A → Method W B)
    → NeverReturns m
    → (w : W) → (m >>= f) w ≡ (m >>= g) w
never-agree m f g never = bind-agree m f g never (λ a no. absurd no)

module _ {W : Type 0} (env : Env W) (deny : String → Method W (Unit {0}))
    (profile : ProtectedProfile) (input_text lock_text id : String) where
  abbrev other : Env W
  other = other_current deny env

  -- The steps from the validation on.
  abbrev steps : Env W → Bool → Method W OverlayState
  steps e validate = validate_artifacts_of e validate id lock_text >>= λ _.
      install e id lock_text >>= λ _.
      verify_generation e id >>= λ _. state_for e id input_text lock_text profile >>= commit e id

  steps-agree :
      (validate : Bool)
      → IsRefused env lock_text id validate
      → (w : W) → steps env validate w ≡ steps other validate w
  steps-agree true (inl (_, h)) =
      never-agree (validate_artifacts_of env true id lock_text) _ _
        (validation-NeverReturns env id lock_text h)
  steps-agree false (inl (k, _)) = ground arith
  steps-agree validate (inr (inl (filled, fails))) =
      bind-agree_after (validate_artifacts_of env validate id lock_text) _ _ (λ _.
        never-agree (install env id lock_text) _ _
          (install-NeverReturns env id lock_text filled fails))
  steps-agree validate (inr (inr h)) =
      bind-agree_after (validate_artifacts_of env validate id lock_text) _ _ (λ _.
        bind-agree_after (install env id lock_text) _ _ (λ _.
          never-agree (verify_generation env id) _ _ (verify_generation-NeverReturns env id h)))

  abbrev body : Env W → Bool → Method W OverlayState
  body e validate = create_generation e id >>= λ _.
      e.write_generation id "overlay.requirements.lock" lock_text >>= λ _.
      e.write_generation id "overlay.requirements.in" input_text >>= λ _. steps e validate

  body-agree :
      (validate : Bool)
      → IsRefused env lock_text id validate
      → (w : W) → body env validate w ≡ body other validate w
  unfolding ◌>>=◌ create_generation
  body-agree validate h = bind-agree_after (create_generation env id) _ _ (λ _.
      bind-agree_after (env.write_generation id "overlay.requirements.lock" lock_text) _ _ (λ _.
        bind-agree_after (env.write_generation id "overlay.requirements.in" input_text) _ _
          (λ _. steps-agree validate h)))

  try_finally-agree :
      {A : Type 0} (m n : Method W A) (after : Method W (Unit {0}))
      → ((w : W) → m w ≡ n w)
      → (w : W) → try_finally m after w ≡ try_finally n after w
  unfolding try_finally
  try_finally-agree {A} m n after same w =
      ap (λ (r : Result Failure A × W). (ended (after r.1).0 r.0, (after r.1).1)) (same w)

  -- A generation is activated only after its lock was validated, if that was asked for, pip installed a
  -- lock that is not empty, and the verifier accepted the packages: where one of these can only fail, the
  -- build is the same whatever the replacement of the current link would do.
  pub build_generation-gated :
      (validate acquire_lock : Bool)
      → IsRefused env lock_text id validate
      → (w : W)
      → build_generation env profile input_text lock_text id validate acquire_lock w
        ≡ build_generation
            (other_current deny env)
            profile
            input_text
            lock_text
            id
            validate
            acquire_lock
            w
  unfolding build_generation overlay_transaction create_generation
  build_generation-gated validate false h w = body-agree validate h w
  build_generation-gated validate true h w =
      bind-agree_after env.ensure_layout _ _
        (λ _. bind-agree_after env.acquire_lock _ _ (λ _.
          try_finally-agree (body env validate) (body other validate) env.release_lock
            (body-agree validate h)))
        w
