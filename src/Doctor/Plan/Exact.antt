-- ===== src/Doctor/Plan/Exact.antt =====
-- Every target of a plan is one that the release or the project owns.
use mathlib.Core.List.{◌++◌}
use mathlib.Core.Path.{subst}
use strix_halo_rocm_toolkit.Prelude.{
  ◌≡◌, refl, ap, sym, ◌∙◌, String, true, Option, none, some, List, [], ◌∷◌, Dict, lookup, All,
  text_in, arith,
}
use strix_halo_rocm_toolkit.Results.{Result, ok, Gives}
use strix_halo_rocm_toolkit.Results.Known.{
  Gives-ok, Gives-known, Gives-bind, Gives-check, Gives-need, Gives-on_value, Gives-raise_as,
  Gives-self,
}
use strix_halo_rocm_toolkit.Json.{Json, null, text, as_text-is}
use strix_halo_rocm_toolkit.Regex.{fullmatch}
use strix_halo_rocm_toolkit.Paths.{
  PurePath, parse_path, path_text, child, parent, path_name, path_eq_sound,
}
use strix_halo_rocm_toolkit.Installer.Models.{StableRelease}
use strix_halo_rocm_toolkit.Installer.Registry.{RegistryPolicy, trusted_image_references}
use strix_halo_rocm_toolkit.Doctor.Models.{DoctorReport, RepairAction, repair_action}
use strix_halo_rocm_toolkit.Doctor.Plan.{
  RepairPlan, nonempty_text, fact_string, normalized_absolute, image_id_pattern, generation_pattern,
  config_of, project_config_path, generation_path, action_of, parent_actions, removal_actions,
  project_actions, overlay_actions, unique_from, planned_actions, plan_repair,
}

-- A directory of a generation of the project's overlay.
abbrev pub IsGenerationOf : PurePath → PurePath → Type 0
IsGenerationOf project g =
    (parent g ≡ child (child project ".amd-ai") "generations")
    × (fullmatch generation_pattern (path_name g) ≡ true)

-- A fact of the doctor's report that is a text.
abbrev pub HasFact : Dict Json → String → String → Type 0
HasFact facts name value = lookup name facts ≡ some (text value)

-- The generation that the doctor found to be the current one, below the project's generations.
abbrev pub IsSelected : Dict Json → PurePath → PurePath → Type 0
IsSelected facts project g =
    (current : String) × HasFact facts "current_generation" current
    × (g ≡ parse_path current)
    × IsGenerationOf project g

-- What an action may name: a trusted replica of the release, the image that the doctor found for the
-- project, or a path of the project.
pub data Owns (policy : RegistryPolicy) (facts : Dict Json) (release : Option StableRelease)
    (project : Option PurePath) : String → String → Type 0 where
  owns_parent :
      (r : StableRelease) (references : List String) {reference : String}
      → release ≡ some r
      → trusted_image_references r "torch" policy ≡ ok references
      → text_in reference references ≡ true
      → Owns policy facts release project "pull-parent" reference
  owns_image :
      {image_id : String}
      → HasFact facts "project_image_id" image_id
      → fullmatch image_id_pattern image_id ≡ true
      → Owns policy facts release project "remove-project-image" image_id
  owns_build :
      (p : PurePath)
      → project ≡ some p
      → Owns policy facts release project "build-project-image" (path_text (config_of p))
  owns_generation :
      (p g : PurePath)
      → project ≡ some p
      → IsSelected facts p g
      → Owns policy facts release project "quarantine-overlay" (path_text g)
  owns_lock :
      (p g : PurePath)
      → project ≡ some p
      → IsSelected facts p g
      → Owns policy facts release project "rebuild-overlay"
          (path_text (child g "overlay.requirements.lock"))
  owns_project :
      (p : PurePath)
      → project ≡ some p
      → Owns policy facts release project "verify-project" (path_text (config_of p))

abbrev Targets : RepairAction → String → String → Type 0
Targets a kind target = (a.kind ≡ kind) × (a.exact_target ≡ target)

repair_action-Targets :
    (kind target reason : String)
    → Gives (λ a. Targets a kind target) (repair_action kind target reason)
unfolding repair_action
repair_action-Targets kind target reason =
    Gives-check _ (λ _. Gives-check _ (λ _. Gives-check _ (λ _. Gives-ok (refl, refl))))

action_of-Targets :
    (kind target reason : String)
    → Gives (λ a. Targets a kind target) (action_of kind target reason)
action_of-Targets kind target reason = Gives-raise_as _ (repair_action-Targets kind target reason)

-- A fact that is a text.
HasFact-nonempty_text :
    (value : Option Json) (s : String) → nonempty_text value ≡ some s → value ≡ some (text s)
HasFact-nonempty_text value s h = ground arith

normalized_absolute-is :
    (value : String) → Gives (λ p. p ≡ parse_path value) (normalized_absolute value)
unfolding normalized_absolute
normalized_absolute-is value = Gives-check _ (λ _. Gives-ok refl)

module _ (policy : RegistryPolicy) (facts : Dict Json) (release : Option StableRelease)
    (project : Option PurePath) where
  abbrev pub IsOwned : RepairAction → Type 0
  IsOwned a = Owns policy facts release project a.kind a.exact_target

  owned :
      (a : RepairAction) {kind target : String}
      → Targets a kind target
      → Owns policy facts release project kind target
      → IsOwned a
  owned a {kind} {target} t o =
      subst (λ k. Owns policy facts release project k a.exact_target) (sym t.0)
        (subst (Owns policy facts release project kind) (sym t.1) o)

  parent_actions-Owned :
      (repairable : List String)
      → Gives (All IsOwned) (parent_actions policy facts release repairable)
  unfolding parent_actions
  parent_actions-Owned repairable =
      Gives-on_value (λ _. Gives-ok tt)
        (λ reason _. Gives-known (λ reference _. Gives-need _ (λ r known.
          Gives-bind (Gives-raise_as _ Gives-self) (λ refs e. Gives-check _ (λ listed.
            Gives-bind (action_of-Targets "pull-parent" reference reason)
              (λ a t. Gives-ok (owned a t (owns_parent r refs known e (ground arith)), tt)))))))

  removal_actions-Owned :
      (image_id : Option Json) (reason : String)
      → lookup "project_image_id" facts ≡ image_id
      → Gives (All IsOwned) (removal_actions image_id reason)
  unfolding removal_actions
  removal_actions-Owned none reason fact = Gives-ok tt
  removal_actions-Owned (some null) reason fact = Gives-ok tt
  removal_actions-Owned (some value) reason fact = Gives-need _ (λ id e. Gives-check _ (λ exact.
      Gives-bind (action_of-Targets "remove-project-image" id reason) (λ a t.
        Gives-ok
          (owned a t (owns_image (fact ∙ ap some (as_text-is value id e)) (ground arith)), tt))))

  All-append :
      (as_ bs : List RepairAction) → All IsOwned as_ → All IsOwned bs → All IsOwned (as_ ++ bs)
  All-append [] bs x y = y
  All-append (a ∷ as_) bs x y = (x.0, All-append as_ bs x.1 y)

  All-unique : (seen as_ : List RepairAction) → All IsOwned as_ → All IsOwned (unique_from seen as_)
  All-unique seen [] x = tt
  All-unique seen (a ∷ as_) x =
      ground (arith, All-unique seen as_ x.1, All-unique (a ∷ seen) as_ x.1)

  project_config_path-IsConfig :
      Gives
        (λ path. (p : PurePath) × (project ≡ some p) × (path ≡ config_of p))
        (project_config_path facts project)
  unfolding project_config_path
  project_config_path-IsConfig = Gives-known (λ value _. Gives-known (λ path _.
      Gives-need _ (λ p known.
        Gives-check _
          (λ same. Gives-ok (p, known, path_eq_sound path (config_of p) (ground arith))))))

  project_actions-Owned :
      (repairable : List String) → Gives (All IsOwned) (project_actions facts project repairable)
  unfolding project_actions
  project_actions-Owned repairable =
      Gives-on_value (λ _. Gives-ok tt)
        (λ reason _. Gives-bind (project_config_path-IsConfig) (λ config is.
          Gives-bind (removal_actions-Owned (lookup "project_image_id" facts) reason refl)
            (λ removal own.
              Gives-bind (action_of-Targets "build-project-image" (path_text config) reason) (λ a t.
                Gives-ok (
                  All-append removal (a ∷ []) own
                    (owned a (t.0, t.1 ∙ ap path_text is.2) (owns_build is.0 is.1), tt))))))

  generation_path-IsGeneration :
      (value : String) (p : PurePath)
      → Gives (λ g. (g ≡ parse_path value) × IsGenerationOf p g) (generation_path value p)
  unfolding generation_path
  generation_path-IsGeneration value p = Gives-bind (normalized_absolute-is value) (λ g is.
      Gives-check _ (λ same. Gives-ok (
        is,
        (
          path_eq_sound (parent g) (child (child p ".amd-ai") "generations") (ground arith),
          ground arith,
        ),
      )))

  current_fact : Gives (HasFact facts "current_generation") (fact_string facts "current_generation")
  current_fact =
      Gives-need _ (λ current e.
        Gives-ok (HasFact-nonempty_text (lookup "current_generation" facts) current e))

  overlay_actions-Owned :
      (repairable : List String) → Gives (All IsOwned) (overlay_actions facts project repairable)
  unfolding overlay_actions
  overlay_actions-Owned repairable =
      Gives-on_value (λ _. Gives-ok tt)
        (λ reason _. Gives-need _ (λ p known. Gives-bind current_fact (λ current fact.
          Gives-bind (generation_path-IsGeneration current p) (λ g is. Gives-known (λ lock_text _.
            Gives-known (λ lock _. Gives-check _ (λ same.
              Gives-bind (project_config_path-IsConfig) (λ config c.
                Gives-bind (action_of-Targets "quarantine-overlay" (path_text g) reason) (λ a s.
                  Gives-bind (action_of-Targets "rebuild-overlay" (path_text lock) reason) (λ b t.
                    Gives-bind (action_of-Targets "verify-project" (path_text config) reason)
                      (λ d u. Gives-ok (
                        owned a s (owns_generation p g known (current, fact, is.0, is.1)),
                        (
                          owned b
                              (
                                t.0,
                                t.1
                                    ∙ ap path_text (
                                        path_eq_sound lock (child g "overlay.requirements.lock")
                                          (ground arith)),
                              )
                              (owns_lock p g known (current, fact, is.0, is.1)),
                          (owned d (u.0, u.1 ∙ ap path_text c.2) (owns_project c.0 c.1), tt),
                        ),
                      ))))))))))))

  planned_actions-Owned :
      (repairable : List String)
      → Gives (All IsOwned) (planned_actions policy facts release project repairable)
  unfolding planned_actions
  planned_actions-Owned repairable = Gives-bind (parent_actions-Owned repairable) (λ parents x.
      Gives-bind (project_actions-Owned repairable) (λ projects y.
        Gives-bind (overlay_actions-Owned repairable) (λ overlays z. Gives-ok (
          All-unique [] (parents ++ (projects ++ overlays))
            (All-append parents (projects ++ overlays) x (All-append projects overlays y z))))))

-- A plan with what its actions may touch.
abbrev pub IsSafe : RegistryPolicy → RepairPlan → Type 0
IsSafe policy plan =
    (plan.blocked ≡ true → plan.actions ≡ [])
    × All (IsOwned policy plan.report.facts plan.release plan.project_path) plan.actions

plan_repair-Gives :
    (load : String → Result String StableRelease) (policy : RegistryPolicy) (report : DoctorReport)
    → Gives (IsSafe policy) (plan_repair load policy report)
unfolding plan_repair
plan_repair-Gives load policy report = Gives-known (λ release _. Gives-known (λ project _.
    Gives-on_value
      (λ _.
        Gives-bind (planned_actions-Owned policy report.facts release project _)
          (λ actions own. Gives-ok (λ h. ground arith, own)))
      (λ _ _. Gives-ok (λ h. refl, tt))))

-- Every action of a repair plan names something that the installation owns: the parent image is a
-- trusted replica of the plan's release, a removal names the exact image ID that the doctor found for the
-- project, a build and a verification name the configuration of the plan's project, and the overlay's
-- actions name the one generation that the doctor found to be the current one, which is directly below
-- the project's generations, and the lock in that same generation. A blocked plan has no actions.
pub plan_repair-IsSafe :
    (load : String → Result String StableRelease) (policy : RegistryPolicy) (report : DoctorReport)
    {plan : RepairPlan}
    → plan_repair load policy report ≡ ok plan
    → IsSafe policy plan
plan_repair-IsSafe load policy report h = (plan_repair-Gives load policy report).on_ok h
