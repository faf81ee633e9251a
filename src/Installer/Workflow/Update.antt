-- ===== src/Installer/Workflow/Update.antt =====
-- The adoption of a compatible update of the installer by an installation that is under way
-- (`_adopt_compatible_installer_update` in workflow.py).
use Prim.Native.String.{◌++◌}
use strix_halo_rocm_toolkit.Prelude.{
  on_option, ℕ, ◌+◌, ◌*◌, ◌-◌, ◌==◌, leb, String, Bool, true, false, not, ◌&&◌, ◌||◌, Option, none,
  some, List, [], ◌∷◌, all, str_eq, codes, if◌then◌else◌,
}
use strix_halo_rocm_toolkit.Exec.{pure, ◌>>=◌, ◌>>◌}
use strix_halo_rocm_toolkit.Installer.Stages.{
  InstallMode, InstallStage, stage_eq, full_stage_order, container_stage_order,
}
use strix_halo_rocm_toolkit.Installer.Models.{InstallOptions, InstallState, digest_of, set_digest}
use strix_halo_rocm_toolkit.Installer.Workflow.Session.{
  text, StageInputs, status, Env, Method, now, tell,
}
use strix_halo_rocm_toolkit.Installer.Workflow.Construction.{constructed}
use strix_halo_rocm_toolkit.Installer.Workflow.Transition.{stage_in}
use strix_halo_rocm_toolkit.Installer.Workflow.Inputs.{stage_inputs}

is_digit : ℕ → Bool
is_digit c = leb b'0' c && leb c b'9'

-- A run of digits, with its value so far.
number_from : ℕ → List ℕ → ℕ × List ℕ
unfolding is_digit
number_from acc [] = (acc, [])
number_from acc (c ∷ cs) =
    if is_digit c then number_from (acc * 10 + (c - b'0')) cs else (acc, c ∷ cs)

number : List ℕ → Option (ℕ × List ℕ)
unfolding number_from is_digit
number [] = none
number (c ∷ cs) = if is_digit c then some (number_from (c - b'0') cs) else none

dot : List ℕ → Option (List ℕ)
dot [] = none
dot (c ∷ cs) = if c == b'.' then some cs else none

is_suffix_character : ℕ → Bool
unfolding is_digit
is_suffix_character c =
    is_digit c || (leb b'A' c && leb c b'Z') || (leb b'a' c && leb c b'z') || c == b'.' || c == b'-'

-- `(?:[+.-][0-9A-Za-z.-]+)?` up to the end of the text
is_suffix : List ℕ → Bool
unfolding is_suffix_character
is_suffix [] = true
is_suffix (c ∷ []) = false
is_suffix (c ∷ d ∷ ds) = (c == b'+' || c == b'.' || c == b'-') && all is_suffix_character (d ∷ ds)

-- `_installer_series`, for the ASCII digits
unfoldable pub installer_series : String → Option (ℕ × ℕ)
unfolding number dot is_suffix
installer_series version = elim (number (codes version)) [
  | none ↦ none
  | some (major, rest) ↦ elim (dot rest) [
    | none ↦ none
    | some rest1 ↦ elim (number rest1) [
      | none ↦ none
      | some (minor, rest2) ↦ elim (dot rest2) [
        | none ↦ none
        | some rest3 ↦ elim (number rest3) [
          | none ↦ none
          | some (patch, rest4) ↦ if is_suffix rest4 then some (major, minor) else none
        ]
      ]
    ]
  ]
]

abbrev is_series : Option (ℕ × ℕ) → ℕ → ℕ → Bool
is_series none major minor = false
is_series (some (a, b)) major minor = a == major && b == minor

abbrev same_series : Option (ℕ × ℕ) → Option (ℕ × ℕ) → Bool
same_series none _ = false
same_series (some (a, b)) current = is_series current a b

-- `order[order.index(start):]`
abbrev pub stages_from : InstallStage → List InstallStage → List InstallStage
stages_from start [] = []
stages_from start (s ∷ order) = if stage_eq s start then s ∷ order else stages_from start order

abbrev tail_of : List InstallStage → List InstallStage
tail_of [] = []
tail_of (_ ∷ stages) = stages

abbrev is_bootstrapped : InstallState → Bool
is_bootstrapped st = elim (digest_of InstallStage.bootstrap st.completed) [
  | none ↦ false
  | some _ ↦ true
]

abbrev pub can_adopt_in : InstallMode → String → InstallState → Bool
can_adopt_in InstallMode.full version st =
    stage_in st.current_stage (
      stages_from
        (if str_eq st.installer_version "0.3.0" && str_eq version "0.3.1"
          then InstallStage.kernel_verify
          else InstallStage.host_verify)
        full_stage_order)
    && same_series (installer_series st.installer_version) (installer_series version)
can_adopt_in InstallMode.container version st =
    is_bootstrapped st
    && stage_in st.current_stage (tail_of container_stage_order)
    && (same_series (installer_series st.installer_version) (installer_series version)
        || is_series (installer_series st.installer_version) 0 2
          && is_series (installer_series version) 0 3)
can_adopt_in InstallMode.doctor version st = false

-- `_can_adopt_installer_update`
unfoldable pub can_adopt_installer_update : String → InstallState → Bool
can_adopt_installer_update version st = can_adopt_in st.mode version st

-- `previous_inputs.update({…})`
abbrev pub with_identity : InstallState → StageInputs → StageInputs
with_identity st [] = []
with_identity st ((key, value) ∷ inputs) =
    (
      key,
      if str_eq key "installer_version"
          then text st.installer_version
          else if str_eq key "installer_source_revision"
          then text st.installer_source_revision
          else if str_eq key "source_root"
          then text st.source_root
          else value,
    )
    ∷ with_identity st inputs

module _ {W : Type 0} (env : Env W) (o : InstallOptions) where
  -- The state under the new identity of the installer.
  abbrev pub adopted : InstallState → StageInputs → String → InstallState
  adopted st inputs time = record st {
    installer_version = env.installer_version;
    installer_source_revision = env.installer_source_revision;
    source_root = o.source_root;
    completed = set_digest InstallStage.bootstrap (env.input_digest inputs) st.completed;
    updated_at = time;
  }

  abbrev pub is_same_installer : InstallState → Bool
  is_same_installer st =
      str_eq st.installer_version env.installer_version
      && str_eq st.installer_source_revision env.installer_source_revision
      && str_eq st.source_root o.source_root

  abbrev pub announce_update : InstallState → Method W (Unit {0})
  announce_update st = tell env (
      status "WARN" (
        "resuming after compatible installer update "
        ++ st.installer_version
        ++ "@"
        ++ env.first_twelve st.installer_source_revision
        ++ " -> "
        ++ env.installer_version
        ++ "@"
        ++ env.first_twelve env.installer_source_revision))

  -- `_adopt_compatible_installer_update`: the state, and whether it is a new object.
  unfoldable pub adopt_compatible_installer_update : InstallState → Method W (InstallState × Bool)
  adopt_compatible_installer_update st =
      if is_same_installer st
      then pure (st, false)
      else if not (can_adopt_installer_update env.installer_version st)
      then pure (st, false)
      else on_option (digest_of InstallStage.bootstrap st.completed) (pure (st, false)) (λ expected.
        stage_inputs env o InstallStage.bootstrap st >>= λ inputs.
        if not (str_eq (env.input_digest (with_identity st inputs)) expected)
        then pure (st, false)
        else (now env >>= λ time. constructed env (adopted st inputs time) >>= λ updated.
            announce_update st >> pure (updated, true)))
