-- ===== src/Installer/Workflow/Construction.antt =====
-- The construction of a state, new or by `dataclasses.replace`: `InstallState.__post_init__` runs, and
-- its `InstallerModelError` is one of the failures that `run` knows (models.py, workflow.py).
use strix_halo_rocm_toolkit.Prelude.{String}
use strix_halo_rocm_toolkit.Results.{Result, ok, err}
use strix_halo_rocm_toolkit.Exec.{pure, lift, ◌>>◌}
use strix_halo_rocm_toolkit.Exec.Ensures.{Ensures, Ensures-after, Ensures-pure, Keeps-lift}
use strix_halo_rocm_toolkit.Installer.Models.{InstallState}
use strix_halo_rocm_toolkit.Installer.Validation.{validate_state}
use strix_halo_rocm_toolkit.Installer.Workflow.Session.{Failure, known, Env, Session, Method}

abbrev refusal : Result String InstallState → Result Failure (Unit {0})
refusal (ok _) = ok tt
refusal (err m) = err (known m)

module _ {W : Type 0} (env : Env W) where
  unfoldable pub constructed : InstallState → Method W InstallState
  constructed st = lift (refusal (validate_state env.is_normalized st)) >> pure st

  -- What is constructed is the state itself.
  pub Ensures-constructed :
      {P : Session W → Type 0} {Q : InstallState → Type 0} (st : InstallState)
      → Q st
      → Ensures P Q (constructed st)
  unfolding constructed
  Ensures-constructed st q =
      Ensures-after _ _ (Keeps-lift (refusal (validate_state env.is_normalized st)))
        (λ _. Ensures-pure st q)
