-- ===== src/Installer/Registry.antt =====
-- The registries from which a release is pulled (src/amd_ai/installer/registry.py). A source's
-- mapping of repositories has exactly the keys `base` and `torch`, which its loader checks.
pub mod Identity
use Prim.Native.String.{◌++◌}
use text.Mathlib.Text.{starts_with}
use mathlib.Core.List.{head?}
use strix_halo_rocm_toolkit.Prelude.{
  ℕ, String, Bool, true, false, not, ◌&&◌, ◌||◌, Option, none, some, List, [], ◌∷◌, map, str_eq,
  Dict, lookup, if◌then◌else◌,
}
use strix_halo_rocm_toolkit.Results.{Result, ok, err, ◌>>=◌, ◌>>◌, or_raise, raise_if}
use strix_halo_rocm_toolkit.Installer.Models.{ReleaseImage, StableRelease, image_reference}

pub data RegistryChoice : Type 0 where
  auto swr ghcr : RegistryChoice

abbrev pub choice_value : RegistryChoice → String
choice_value auto = "auto"
choice_value swr = "swr"
choice_value ghcr = "ghcr"

abbrev pub is_auto : RegistryChoice → Bool
is_auto auto = true
is_auto swr = false
is_auto ghcr = false

pub record RegistrySource : Type 0 where
  pub name : String
  pub label : String
  pub base_repository : String
  pub torch_repository : String

pub record RegistryPolicy : Type 0 where
  pub schema_version : ℕ
  pub default_order : List String
  pub sources : Dict RegistrySource

pub record RegistryCandidate : Type 0 where
  pub name : String
  pub label : String
  pub release : StableRelease

-- The messages of `RegistryPolicyError`, and the `KeyError` of a policy that has no such source.
pub data RegistryError : Type 0 where
  policy_error : String → RegistryError
  key_error : String → RegistryError

-- `RegistryChoice(value)`
unfoldable pub registry_choice : String → Result RegistryError RegistryChoice
registry_choice value =
    if str_eq value "auto"
    then ok auto
    else if str_eq value "swr"
    then ok swr
    else if str_eq value "ghcr"
    then ok ghcr
    else err (policy_error "registry choice is invalid")

abbrev is_canonical_image : ReleaseImage → Bool
is_canonical_image image = starts_with image.image "ghcr.io/"

-- The release with the images of one source in place of the canonical ones.
abbrev pub mirrored : RegistrySource → StableRelease → StableRelease
mirrored source release = record release {
  base = record (release.base) { image = source.base_repository };
  torch = record (release.torch) { image = source.torch_repository };
}

-- The body of the loop over the source names: the candidate of one source, or none if the source
-- is passed over.
unfoldable pub candidate_of :
    RegistryPolicy
    → StableRelease
    → RegistryChoice
    → Bool
    → String
    → Result RegistryError (Option RegistryCandidate)
candidate_of policy release selected canonical_matches source_name =
    or_raise (lookup source_name policy.sources)
      (policy_error ("registry policy has no source: " ++ source_name))
    >>= λ source.
        if str_eq source_name "ghcr"
        then (if not (is_canonical_image release.base) || not (is_canonical_image release.torch)
            then err (policy_error "stable release canonical images are not GHCR repositories")
            else ok (some (record { name = source.name; label = source.label; release = release })))
        else if not canonical_matches
        then (if is_auto selected
            then ok none
            else err
                (policy_error ("stable release has no trusted " ++ source.label ++ " mapping")))
        else ok (
            some (record {
              name = source.name;
              label = source.label;
              release = mirrored source release;
            }))

abbrev pub prepend : Option RegistryCandidate → List RegistryCandidate → List RegistryCandidate
prepend none cs = cs
prepend (some c) cs = c ∷ cs

unfoldable pub candidates_from :
    RegistryPolicy
    → StableRelease
    → RegistryChoice
    → Bool
    → List String
    → Result RegistryError (List RegistryCandidate)
candidates_from policy release selected canonical_matches [] = ok []
candidates_from policy release selected canonical_matches (name ∷ names) =
    candidate_of policy release selected canonical_matches name >>= λ found.
    candidates_from policy release selected canonical_matches names >>= λ rest.
    ok (prepend found rest)

-- `choice` is given its value; `policy` is the one that the caller resolved.
unfoldable pub registry_candidates :
    StableRelease → String → RegistryPolicy → Result RegistryError (List RegistryCandidate)
unfolding registry_choice
registry_candidates release choice policy = registry_choice choice >>= λ selected.
    or_raise (lookup "ghcr" policy.sources) (key_error "ghcr") >>= λ canonical.
    candidates_from policy release selected
      (str_eq release.base.image canonical.base_repository
        && str_eq release.torch.image canonical.torch_repository)
      (if is_auto selected then policy.default_order else choice_value selected ∷ [])

-- `trusted_image_references`, for the kinds `base` and `torch`.
unfoldable pub trusted_image_references :
    StableRelease → String → RegistryPolicy → Result RegistryError (List String)
trusted_image_references release kind policy =
    raise_if (not (str_eq kind "base" || str_eq kind "torch"))
      (policy_error "release image kind is invalid")
    >> registry_candidates release "auto" policy
    >>= λ candidates. ok (
        map
          (λ (c : RegistryCandidate).
            image_reference (if str_eq kind "base" then c.release.base else c.release.torch))
          candidates)

-- `registry_plan_label`
unfoldable pub registry_plan_label : String → RegistryPolicy → Result RegistryError String
unfolding registry_choice
registry_plan_label choice policy = registry_choice choice >>= λ selected.
    if is_auto selected
    then (or_raise (head? policy.default_order) (key_error "tuple index out of range") >>= λ first.
        or_raise (lookup first policy.sources) (key_error first) >>= λ preferred.
        or_raise (lookup "ghcr" policy.sources) (key_error "ghcr") >>= λ canonical.
        ok ("auto（" ++ preferred.label ++ " 优先，" ++ canonical.label ++ " 回退）"))
    else (or_raise (lookup (choice_value selected) policy.sources)
          (policy_error ("registry policy has no source: " ++ choice_value selected))
        >>= λ source. ok (choice_value selected ++ "（仅" ++ source.label ++ "，不回退）"))
