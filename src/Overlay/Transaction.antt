-- ===== src/Overlay/Transaction.antt =====
-- The transaction that builds and activates a generation (src/amd_ai/overlay/transaction.py). The file
-- system, the lock, the clock, pip and the verifier are calls of an environment that act on a world of
-- their own; a file of a generation is named by the generation's ID and its name.
pub mod Gate
pub mod Tests
use Prim.Native.String.{◌++◌}
use strix_halo_rocm_toolkit.Prelude.{
  ℕ, ◌==◌, String, Bool, true, false, not, ◌||◌, Option, none, some, str_eq, or_text, if◌then◌else◌,
}
use strix_halo_rocm_toolkit.Results.{Result, ok, err}
use strix_halo_rocm_toolkit.Exec.{Exec, pure, raise, check, try_catch, try_finally, ◌>>=◌, ◌>>◌}
use strix_halo_rocm_toolkit.Lines.{strip}
use strix_halo_rocm_toolkit.Regex.{fullmatch}
use strix_halo_rocm_toolkit.Doctor.Plan.{generation_pattern}

-- `TransactionError`, a `LockError` of the lock file, and any other exception, each with its text.
pub data Failure : Type 0 where
  transaction_error lock_error other_error : String → Failure

-- `OverlayState`
pub record OverlayState : Type 0 where
  pub generation_id : String
  pub input_digest : String
  pub lock_digest : String
  pub profile_id : String
  pub parent_config_digest : String
  pub created_at : String
  pub healthy : Bool
  pub schema_version : ℕ

-- What the transaction reads of `ProtectedProfile`.
pub record ProtectedProfile : Type 0 where
  pub profile_id : String
  pub parent_config_digest : String

pub record PipResult : Type 0 where
  pub returncode : ℕ
  pub stdout : String
  pub stderr : String

abbrev pub Method : Type 0 → Type 0 → Type 0
Method W A = Exec Failure W A

pub record Env (W : Type 0) : Type 0 where
  pub ensure_layout : Method W (Unit {0})
  -- `os.open` and `flock` of the lock file, and its release.
  pub acquire_lock : Method W (Unit {0})
  pub release_lock : Method W (Unit {0})
  pub generation_exists : String → Method W Bool
  pub make_generation : String → Method W (Unit {0})
  -- `_atomic_write` into a generation, and next to the generations.
  pub write_generation : String → String → String → Method W (Unit {0})
  pub write_mirror : String → String → Method W (Unit {0})
  pub read_generation : String → String → Method W String
  pub fsync_generation : String → Method W (Unit {0})
  -- `parse_lock` and `validate_lock_artifacts`
  pub validate_lock : String → Method W (Unit {0})
  -- pip with `install_argv`, and the verifier of the caller, on the generation.
  pub run_pip : String → Method W PipResult
  pub verifier : String → Method W (Unit {0})
  -- Whether the resolved generation stands directly below the generations and has packages.
  pub is_inside : String → Method W Bool
  -- The replacement of the link `current` by one to the generation.
  pub replace_current : String → Method W (Unit {0})
  pub now : Method W String
  -- `hashlib.sha256` and `_state_json`
  pub sha256 : String → String
  pub state_json : OverlayState → String

abbrev pub message_of : Failure → String
message_of (transaction_error m) = m
message_of (lock_error m) = m
message_of (other_error m) = m

module _ {W : Type 0} (env : Env W) where
  -- `overlay_transaction`
  unfoldable pub overlay_transaction : {A : Type 0} → Method W A → Method W A
  overlay_transaction body =
      env.ensure_layout >>= λ _. env.acquire_lock >>= λ _. try_finally body env.release_lock

  -- `overlay_transaction(paths) if acquire_lock else nullcontext()`
  abbrev pub in_transaction : {A : Type 0} → Bool → Method W A → Method W A
  in_transaction true body = overlay_transaction body
  in_transaction false body = body

  -- `_create_generation`
  unfoldable pub create_generation : String → Method W (Unit {0})
  create_generation id =
      check (not (fullmatch generation_pattern id))
        (transaction_error ("invalid transaction ID: " ++ id))
        (env.generation_exists id >>= λ exists.
          check exists (transaction_error ("generation already exists: " ++ id))
            (env.make_generation id))

  -- `_write_failure`, before the error is raised.
  abbrev pub fail_with : {A : Type 0} → String → String → String → Method W A
  fail_with id note message =
      env.write_generation id "transaction-failure.txt" (note ++ "\n") >>= λ _.
      raise (transaction_error message)

  -- The validation of the lock.
  abbrev pub on_lock_error : String → Failure → Method W (Unit {0})
  on_lock_error id (lock_error m) =
      fail_with id ("lock validation failed: " ++ m) ("overlay lock validation failed: " ++ m)
  on_lock_error id (transaction_error m) = raise (transaction_error m)
  on_lock_error id (other_error m) = raise (other_error m)

  abbrev pub validate_artifacts_of : Bool → String → String → Method W (Unit {0})
  validate_artifacts_of true id lock_text =
      try_catch (env.validate_lock lock_text) (on_lock_error id)
  validate_artifacts_of false id lock_text = pure tt

  -- The installation of a lock that is not empty.
  abbrev evidence_of : PipResult → String
  evidence_of r = or_text (strip r.stderr) (or_text (strip r.stdout) "no output")

  abbrev pub judge_pip : String → PipResult → Method W (Unit {0})
  judge_pip id r =
      if not (r.returncode == 0)
      then fail_with id ("install failed: " ++ evidence_of r)
          ("overlay install failed: " ++ evidence_of r)
      else pure tt

  abbrev pub install : String → String → Method W (Unit {0})
  install id lock_text = if str_eq lock_text "" then pure tt else env.run_pip id >>= judge_pip id

  -- `verifier(site_packages)`, with every exception of it.
  abbrev pub verify_generation : String → Method W (Unit {0})
  verify_generation id = try_catch (env.verifier id) (λ e.
      fail_with id ("verification failed: " ++ message_of e)
        ("overlay verification failed: " ++ message_of e))

  -- `_state_for`
  abbrev pub state_for : String → String → String → ProtectedProfile → Method W OverlayState
  state_for id input_text lock_text profile = env.now >>= λ created_at. pure (record {
    generation_id = id;
    input_digest = env.sha256 input_text;
    lock_digest = env.sha256 lock_text;
    profile_id = profile.profile_id;
    parent_config_digest = profile.parent_config_digest;
    created_at = created_at;
    healthy = false;
    schema_version = 1;
  })

  -- `activate_generation`
  unfoldable pub activate_generation : String → Method W (Unit {0})
  activate_generation id = env.ensure_layout >>= λ _. env.is_inside id >>= λ inside.
      check (not inside || not (fullmatch generation_pattern id))
        (transaction_error ("generation is outside the overlay boundary: " ++ id))
        (env.replace_current id)

  abbrev mirror_file : String → String → Method W (Unit {0})
  mirror_file id name = env.read_generation id name >>= env.write_mirror name

  -- `_mirror_metadata`
  unfoldable pub mirror_metadata : String → Method W (Unit {0})
  mirror_metadata id = mirror_file id "overlay.requirements.in" >>= λ _.
      mirror_file id "overlay.requirements.lock" >>= λ _. mirror_file id "overlay-state.json"

  -- A mirror that fails leaves a warning in the generation.
  abbrev on_mirror_error : String → Failure → Method W (Unit {0})
  on_mirror_error id (transaction_error m) =
      env.write_generation id "mirror-warning.txt" (m ++ "\n")
  on_mirror_error id (lock_error m) = raise (lock_error m)
  on_mirror_error id (other_error m) = raise (other_error m)

  -- The end of `build_generation`, after the verification.
  abbrev pub commit : String → OverlayState → Method W OverlayState
  commit id state = env.write_generation id "overlay-state.json" (env.state_json state) >>= λ _.
      env.fsync_generation id >>= λ _. activate_generation id >>= λ _.
      try_catch (mirror_metadata id) (on_mirror_error id) >>= λ _. pure state

  -- `build_generation`, for a given transaction ID.
  unfoldable pub build_generation :
      ProtectedProfile → String → String → String → Bool → Bool → Method W OverlayState
  build_generation profile input_text lock_text id validate_artifacts acquire_lock =
      in_transaction acquire_lock (
        create_generation id >>= λ _.
        env.write_generation id "overlay.requirements.lock" lock_text >>= λ _.
        env.write_generation id "overlay.requirements.in" input_text >>= λ _.
        validate_artifacts_of validate_artifacts id lock_text >>= λ _. install id lock_text >>= λ _.
        verify_generation id >>= λ _. state_for id input_text lock_text profile >>= commit id)
