-- ===== src/Overlay/Transaction/Tests.antt =====
-- Concrete builds, in a world that lists what was written.
use strix_halo_rocm_toolkit.Prelude.{◌≡◌, refl, inr, String, true, false, List, [], ◌∷◌}
use strix_halo_rocm_toolkit.Results.{err}
use strix_halo_rocm_toolkit.Exec.{pure, raise, modify, lift, check, try_catch, try_finally, ◌>>=◌}
use strix_halo_rocm_toolkit.Exec.Ensures.{Ensures-raise}
use strix_halo_rocm_toolkit.Regex.{fullmatch}
use strix_halo_rocm_toolkit.Overlay.Transaction.{
  Env, Method, transaction_error, other_error, ProtectedProfile, OverlayState, overlay_transaction,
  create_generation, activate_generation, mirror_metadata, build_generation,
}
use strix_halo_rocm_toolkit.Overlay.Transaction.Gate.{other_current, build_generation-gated}

abbrev World : Type 0
World = List String

abbrev note : String → Method World (Unit {0})
note s = modify (λ log. s ∷ log)

abbrev an_id : String
an_id = "20260101T000000Z-0123abcd"

-- A project in which everything succeeds, with the given verifier.
abbrev project : Method World (Unit {0}) → Env World
project verifier = record {
  ensure_layout = pure tt;
  acquire_lock = note "lock";
  release_lock = note "unlock";
  generation_exists = λ id. pure false;
  make_generation = λ id. pure tt;
  write_generation = λ id name content. note name;
  write_mirror = λ name content. pure tt;
  read_generation = λ id name. pure "";
  fsync_generation = λ id. pure tt;
  validate_lock = λ lock. pure tt;
  run_pip = λ id. pure (record { returncode = 0; stdout = ""; stderr = "" });
  verifier = λ id. verifier;
  is_inside = λ id. pure true;
  replace_current = λ id. note "activated";
  now = pure "2026-01-01T00:00:00Z";
  sha256 = λ s. s;
  state_json = λ st. "";
}

abbrev a_profile : ProtectedProfile
a_profile = record { profile_id = "p"; parent_config_digest = "d" }

abbrev build : Env World → Method World OverlayState
build env = build_generation env a_profile "in" "lock" an_id true true

good_run :
    (build (project (pure tt)) []).1
    ≡ "unlock" ∷ "activated" ∷ "overlay-state.json" ∷ "overlay.requirements.in"
      ∷ "overlay.requirements.lock" ∷ "lock" ∷ []
unfolding build_generation overlay_transaction create_generation activate_generation mirror_metadata
    check lift pure modify try_catch try_finally fullmatch ◌>>=◌
good_run = refl

bad_run : build (project (raise (other_error "broken"))) [] ≡ (
  err (transaction_error "overlay verification failed: broken"),
  "unlock" ∷ "transaction-failure.txt" ∷ "overlay.requirements.in" ∷ "overlay.requirements.lock"
      ∷ "lock" ∷ [],
)
unfolding build_generation overlay_transaction create_generation activate_generation mirror_metadata
    check lift pure raise modify try_catch try_finally fullmatch ◌>>=◌
bad_run = refl

build_generation-gated_example :
    build (project (raise (other_error "broken"))) []
    ≡ build (other_current (λ id. note "lost") (project (raise (other_error "broken")))) []
build_generation-gated_example =
    build_generation-gated (project (raise (other_error "broken"))) (λ id. note "lost") a_profile
      "in" "lock" an_id true true (inr (inr (Ensures-raise (other_error "broken")))) []
