-- ===== src/Doctor/Execute/Removal.antt =====
-- When an image is removed.
use mathlib.Core.Path.{ap}
use strix_halo_rocm_toolkit.Prelude.{
  ◌≡◌, refl, String, Option, none, some, ◌⊎◌, inl, inr, str_eq, eq_iff, if◌then◌else◌, arith,
  lookup, Dict,
}
use strix_halo_rocm_toolkit.Results.{Result}
use strix_halo_rocm_toolkit.Exec.{Exec}
use strix_halo_rocm_toolkit.Exec.Ensures.{Ensures, Ensures-pure}
use strix_halo_rocm_toolkit.Exec.Known.{
  Always, Ensures-next, Ensures-check, bind-agree, bind-agree_after, bind-agree_first, check-agree,
  need-agree,
}
use strix_halo_rocm_toolkit.Paths.{PurePath}
use strix_halo_rocm_toolkit.Installer.Models.{StableRelease}
use strix_halo_rocm_toolkit.Installer.Registry.{RegistryPolicy}
use strix_halo_rocm_toolkit.Doctor.Models.{RepairAction}
use strix_halo_rocm_toolkit.Doctor.Plan.{RepairPlan}
use strix_halo_rocm_toolkit.Doctor.Execute.{
  Raised, RepairExecutor, by_kind, guarded, failed, pull_parent, build_image, remove_image,
  repair_body, execute_repair,
}

-- The same executor, but that it removes the one image in another way.
abbrev pub other_removal :
    {W : Type 0} → String → Exec Raised W (Unit {0}) → RepairExecutor W → RepairExecutor W
other_removal kept deny executor = record executor {
  remove_image_id = λ id. if str_eq id kept then deny else executor.remove_image_id id;
}

guarded-agree :
    {W A : Type 0} (m n : Exec Raised W A)
    → ((w : W) → m w ≡ n w)
    → (w : W) → guarded m w ≡ guarded n w
unfolding guarded
guarded-agree {W} {A} m n same w = ap (λ (r : Result Raised A × W). (failed r.0, r.1)) (same w)

module _ {W : Type 0} (executor : RepairExecutor W) (policy : RegistryPolicy) (kept : String)
    (deny : Exec Raised W (Unit {0})) where
  abbrev other : RepairExecutor W
  other = other_removal kept deny executor

  build_image-Ensures :
      (project : PurePath) (release : StableRelease) (build : Option RepairAction)
      → ((p : PurePath) (digest : String)
          → Ensures Always (λ id. id ≡ kept) (executor.build_project p digest))
      → Ensures Always
          (λ r. (r ≡ none) ⊎ (r ≡ some kept))
          (build_image executor policy project release build)
  build_image-Ensures project release none h = Ensures-pure none (inl refl)
  build_image-Ensures project release (some build) h = Ensures-check _ (λ _.
      Ensures-next (h project release.torch.config_digest)
        (λ id same. Ensures-check _ (λ _. Ensures-pure (some id) (inr (ap some same)))))

  remove_image-agree :
      (removal : Option RepairAction) (rebuilt : Option String)
      → (rebuilt ≡ none) ⊎ (rebuilt ≡ some kept)
      → (w : W)
      → remove_image executor policy removal rebuilt w ≡ remove_image other policy removal rebuilt w
  remove_image-agree none rebuilt q w = refl
  remove_image-agree (some removal) rebuilt q w =
      check-agree _ _ _ _
        (need-agree rebuilt _ _ _ (λ id is w1.
          ground (arith, eq_iff removal.exact_target id, eq_iff removal.exact_target kept)))
        w

  repair_body-agree :
      (actions : Dict RepairAction) (release : StableRelease) (project : PurePath)
      → ((p : PurePath) (digest : String)
          → Ensures Always (λ id. id ≡ kept) (executor.build_project p digest))
      → (w : W)
      → repair_body executor policy actions release project w
        ≡ repair_body other policy actions release project w
  unfolding repair_body
  repair_body-agree actions release project h w =
      bind-agree_after (pull_parent executor policy release (lookup "pull-parent" actions)) _ _
        (λ _.
          bind-agree
            (build_image executor policy project release (lookup "build-project-image" actions)) _ _
            (build_image-Ensures project release (lookup "build-project-image" actions) h)
            (λ rebuilt q w1.
              bind-agree_first
                (remove_image executor policy (lookup "remove-project-image" actions) rebuilt)
                (remove_image other policy (lookup "remove-project-image" actions) rebuilt) _ w1
                (remove_image-agree (lookup "remove-project-image" actions) rebuilt q w1)))
        w

  -- An image is removed only after a build of the project returned, and never the image that it
  -- returned: if a build never returns any ID but `kept`, the repair is the same whatever a removal of
  -- `kept` does. When the build only fails, this holds of every ID.
  pub execute_repair-keeps_built :
      (plan : RepairPlan)
      → ((p : PurePath) (digest : String)
          → Ensures Always (λ id. id ≡ kept) (executor.build_project p digest))
      → (w : W)
      → execute_repair executor policy plan w
        ≡ execute_repair (other_removal kept deny executor) policy plan w
  unfolding execute_repair
  execute_repair-keeps_built plan h w =
      check-agree _ _ _ _
        (need-agree _ _ _ _ (λ _ _. need-agree _ _ _ _ (λ release _.
          need-agree _ _ _ _ (λ project _ w1.
            bind-agree_first _ _ _ w1 (
              guarded-agree _ _ (repair_body-agree (by_kind plan.actions) release project h) w1)))))
        w
