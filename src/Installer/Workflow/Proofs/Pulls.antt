-- ===== src/Installer/Workflow/Proofs/Pulls.antt =====
-- What the image stage pulls (`_pull_release_candidates` in workflow.py).
use mathlib.Core.Path.{fun_ext}
use strix_halo_rocm_toolkit.Installer.Workflow.Plans.{resolved_registry_policy}
use mathlib.Core.List.{◌++◌ as append}
use Prim.Native.String.{◌++◌}
use strix_halo_rocm_toolkit.Prelude.{
  ◌≡◌, refl, ap, sym, ◌∙◌, String, Bool, true, List, [], ◌∷◌, Option, if◌then◌else◌, All,
}
use strix_halo_rocm_toolkit.Results.{Result, ok, err}
use strix_halo_rocm_toolkit.Exec.{pure, lift, try_catch, ◌>>=◌, ◌>>◌}
use strix_halo_rocm_toolkit.Installer.Models.{InstallOptions, StableRelease, VerifiedReleaseImages}
use strix_halo_rocm_toolkit.Installer.Registry.{
  RegistryPolicy, RegistryCandidate, registry_candidates, RegistryError, policy_error, key_error,
}
use strix_halo_rocm_toolkit.Installer.Registry.Identity.{
  IsReplica, IsReplica-SameRelease, registry_candidates-IsReplica, SameRelease,
}
use strix_halo_rocm_toolkit.Installer.Workflow.Session.{
  Env, Session, Method, Call, call, tell, detail,
}
use strix_halo_rocm_toolkit.Installer.Workflow.Dispatch.{
  pull_candidate, pull_candidates, pull_release_candidates, pulled, on_pull, adopt,
  when_unavailable, from_registry,
}

-- The same environment, but that it pulls a release that is not allowed in another way.
abbrev pub other_pull :
    {W : Type 0}
    → (StableRelease → Bool)
    → (StableRelease → Call W (Option VerifiedReleaseImages))
    → Env W
    → Env W
other_pull allow deny env = record env {
  pull_release = λ r. if allow r then env.pull_release r else deny r;
}

module _ {W : Type 0} (env : Env W) (o : InstallOptions) (allow : StableRelease → Bool)
    (deny : StableRelease → Call W (Option VerifiedReleaseImages)) where
  abbrev Allowed : RegistryCandidate → Type 0
  Allowed c = allow c.release ≡ true

  pull_candidate-same :
      (c : RegistryCandidate) (rest : List RegistryCandidate)
      → Allowed c
      → pull_candidate env o c rest ≡ pull_candidate (other_pull allow deny env) o c rest
  unfolding tell
  pull_candidate-same c rest e =
      ap
        (λ b.
          tell env (detail ("当前仓库=" ++ c.label ++ "，来源=公开匿名镜像"))
          >> try_catch
              (call (if b then env.pull_release c.release else deny c.release) >>= λ answer.
                pure (pulled answer))
              (when_unavailable env o c rest))
        (sym e)

  pull_candidates-same :
      (cs : List RegistryCandidate) (failures : List String)
      → All Allowed cs
      → pull_candidates env o cs failures
        ≡ pull_candidates (other_pull allow deny env) o cs failures
  unfolding pull_candidates tell
  pull_candidates-same [] failures all = refl
  pull_candidates-same (c ∷ cs) failures (e, all) =
      ap
        (λ m. m >>= λ attempt.
          on_pull attempt (λ answer. adopt env o c answer)
            (λ reason. pull_candidates env o cs (append failures (reason ∷ []))))
        (pull_candidate-same c cs e)
      ∙ ap
          (λ (k : List String → Method W VerifiedReleaseImages).
            pull_candidate (other_pull allow deny env) o c cs >>= λ attempt.
            on_pull attempt (λ answer. adopt env o c answer)
              (λ reason. k (append failures (reason ∷ []))))
          (fun_ext (λ fs. pull_candidates-same cs fs all))

  allowed :
      (release : StableRelease)
      → ((r : StableRelease) → SameRelease r release → allow r ≡ true)
      → (policy : RegistryPolicy) (cs : List RegistryCandidate) → All (IsReplica policy release) cs
      → All Allowed cs
  allowed release pass policy [] all = tt
  allowed release pass policy (c ∷ cs) (h, all) = (
    pass c.release (IsReplica-SameRelease policy release c h),
    allowed release pass policy cs all,
  )

  -- The candidates of a release are pulled in the same way if the action did anything else with every
  -- release that differs from it in its ID, its source revision or a digest: no other image is pulled.
  pub pull_release_candidates-replica :
      (release : StableRelease) (s : Session W)
      → ((r : StableRelease) → SameRelease r release → allow r ≡ true)
      → pull_release_candidates env o release s
        ≡ pull_release_candidates (other_pull allow deny env) o release s
  unfolding pull_release_candidates resolved_registry_policy ◌>>=◌ lift
  pull_release_candidates-replica release s pass =
      ap
        (λ (k : RegistryPolicy → Method W VerifiedReleaseImages).
          (resolved_registry_policy env o >>= k) s)
        (fun_ext λ policy. with_candidates (registry_candidates release o.registry policy) (λ cs e.
          allowed release pass policy cs
            (registry_candidates-IsReplica release o.registry policy e)))
    where
      with_candidates :
          (x : Result RegistryError (List RegistryCandidate))
          → ((cs : List RegistryCandidate) → x ≡ ok cs → All Allowed cs)
          → (lift {S = Session W} (from_registry x) >>= λ cs. pull_candidates env o cs []) ≡ (
              lift {S = Session W} (from_registry x) >>= λ cs.
              pull_candidates (other_pull allow deny env) o cs [])
      with_candidates (ok cs) all = pull_candidates-same cs [] (all cs refl)
      with_candidates (err (policy_error m)) all = refl
      with_candidates (err (key_error m)) all = refl
