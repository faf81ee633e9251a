-- ===== src/Installer/Workflow/Options.antt =====
-- The options of a run: their validation (`InstallOptions.validate` in models.py), the project
-- directory, and the selection of the state file (`select_install_state_path` in state.py).
use Prim.Native.String.{◌++◌}
use strix_halo_rocm_toolkit.Prelude.{
  on_option, ℕ, leb, String, Bool, true, false, not, ◌&&◌, ◌||◌, ◌==◌, Option, none, some, List, [],
  ◌∷◌, all, length, codes, str_eq, opt_text_eq, if◌then◌else◌,
}
use strix_halo_rocm_toolkit.Results.{Result, raise_if, ◌>>◌}
use strix_halo_rocm_toolkit.Exec.{pure, raise, gets, modify, ◌>>=◌}
use strix_halo_rocm_toolkit.Installer.Stages.{InstallMode, mode_eq}
use strix_halo_rocm_toolkit.Installer.Models.{InstallOptions}
use strix_halo_rocm_toolkit.Installer.Workflow.Session.{
  Failure, known, status, StateFile, missing, corrupt, stored, Env, Method, call, tell,
}
use strix_halo_rocm_toolkit.Installer.Workflow.Plans.{workflow_error}

is_lower_or_digit : ℕ → Bool
is_lower_or_digit c = (leb b'0' c && leb c b'9') || (leb b'a' c && leb c b'z')

is_hex : ℕ → Bool
is_hex c = (leb b'0' c && leb c b'9') || (leb b'a' c && leb c b'f')

is_letter : ℕ → Bool
is_letter c = (leb b'A' c && leb c b'Z') || (leb b'a' c && leb c b'z')

-- One character of a first class, then at most `n` of a second.
abbrev has_shape : (ℕ → Bool) → (ℕ → Bool) → ℕ → List ℕ → Bool
has_shape first rest n [] = false
has_shape first rest n (c ∷ cs) = first c && all rest cs && leb (length cs) n

-- `[0-9a-f]{n}`
unfoldable pub is_hex_digest : ℕ → String → Bool
unfolding is_hex
is_hex_digest n s = all is_hex (codes s) && length (codes s) == n

-- `[a-z0-9][a-z0-9._-]{0,62}`
unfoldable pub is_project_name : String → Bool
unfolding is_lower_or_digit
is_project_name s =
    has_shape is_lower_or_digit (λ c. is_lower_or_digit c || c == b'.' || c == b'_' || c == b'-') 62
      (codes s)

-- `[A-Za-z_][A-Za-z0-9_.-]{0,31}`
unfoldable pub is_user_name : String → Bool
unfolding is_letter
is_user_name s =
    has_shape (λ c. is_letter c || c == b'_')
      (λ c. is_letter c || leb b'0' c && leb c b'9' || c == b'_' || c == b'.' || c == b'-') 31
      (codes s)

abbrev holds : (String → Bool) → Option String → Bool
holds p none = true
holds p (some s) = p s

abbrev is_none : Option String → Bool
is_none none = true
is_none (some _) = false

abbrev check : Bool → String → Result Failure (Unit {0})
check test message = raise_if (not test) (known message)

module _ {W : Type 0} (env : Env W) where
  -- `InstallOptions.validate`; the types of the flags hold by construction.
  unfoldable pub validate_options : InstallOptions → Result Failure (Unit {0})
  validate_options o =
      check env.is_python_312 "the installer requires Python 3.12"
      >> check (is_project_name o.project_name) "project name is invalid"
      >> check (holds (λ s. str_eq s "pull" || str_eq s "build") o.image_source)
          "image source must be pull or build"
      >> check (str_eq o.registry "auto" || str_eq o.registry "swr" || str_eq o.registry "ghcr")
          "registry must be auto, swr, or ghcr"
      >> check (not (opt_text_eq o.image_source (some "build") && not (str_eq o.registry "auto")))
          "local image build does not use a registry"
      >> check (holds is_user_name o.target_user) "target user is invalid"
      >> check (holds (is_hex_digest 64) o.accepted_kernel_plan_digest)
          "accepted_kernel_plan_digest is invalid"
      >> check (holds (is_hex_digest 64) o.accepted_host_plan_digest)
          "accepted_host_plan_digest is invalid"
      >> check (env.is_normalized o.source_root) "source_root must be normalized"
      >> check (env.is_normalized o.stable_manifest_path) "stable_manifest_path must be normalized"
      >> check (env.is_normalized o.state_path) "state_path must be normalized"
      >> check (env.is_normalized o.coordination_state_path)
          "coordination_state_path must be normalized"
      >> check (holds env.is_normalized o.project_dir) "project_dir must be normalized"
      >> check
          (not
            (o.non_interactive && not (mode_eq o.mode InstallMode.doctor) && is_none o.project_dir))
          "non-interactive install requires a project directory"
      >> check
          (not (
            o.non_interactive && not (mode_eq o.mode InstallMode.doctor) && is_none o.image_source))
          "non-interactive install requires an image source"

  -- `_prepare_options`
  unfoldable pub prepare_options : Method W InstallOptions
  prepare_options = gets (λ s. s.options) >>= λ o.
      if mode_eq o.mode InstallMode.doctor
      then raise (workflow_error "doctor mode is routed outside the install workflow")
      else on_option (o.project_dir)
          (call (env.ask_project_dir) >>= λ dir.
            modify (λ s. record s { options = record o { project_dir = some dir } }) >>= λ _.
            pure (record o { project_dir = some dir }))
          (λ _. pure o)

  -- `_inspect_state_project_path`: whether the file is there, and the project that it names.
  abbrev pub inspect_state_project_path : Option Failure → StateFile → Bool × Option String
  inspect_state_project_path _ missing = (false, none)
  inspect_state_project_path _ (corrupt _) = (true, none)
  inspect_state_project_path none (stored st) = (true, st.project_path)
  inspect_state_project_path (some _) (stored st) = (true, none)

  abbrev pub exists : StateFile → Bool
  exists missing = false
  exists (corrupt _) = true
  exists (stored _) = true

  abbrev pub legacy_or : String → String → String → Bool × Option String → String × String
  legacy_or project requested per_project (false, _) = (per_project, "project")
  legacy_or project requested per_project (true, none) = (requested, "legacy")
  legacy_or project requested per_project (true, some owner) =
      if str_eq owner project then (requested, "legacy") else (per_project, "project")

  -- `select_install_state_path`: the path, and where it comes from.
  unfoldable pub select_install_state_path :
      (String → StateFile) → (String → Option Failure) → String → String → Bool → String × String
  select_install_state_path files unreadable project requested explicit =
      let per_project = env.project_state_path project requested in
      if explicit
      then (requested, "explicit")
      else if exists (files per_project)
      then (per_project, "project")
      else legacy_or project requested per_project
          (inspect_state_project_path (unreadable requested) (files requested))

  -- `_select_state_path`
  unfoldable pub select_state_path : InstallOptions → String → Method W InstallOptions
  unfolding select_install_state_path
  select_state_path o project =
      gets (λ s.
        select_install_state_path s.files (λ p. env.unreadable p s.world) project o.state_path
          o.state_path_explicit)
      >>= λ selection.
          modify (λ s. record s {
            options = record o { state_path = selection.0 };
            state_source = selection.1;
          })
          >>= λ _.
              tell env (status "INFO" ("installer state (" ++ selection.1 ++ "): " ++ selection.0))
              >>= λ _. pure (record o { state_path = selection.0 })
