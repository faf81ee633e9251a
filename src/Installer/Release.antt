-- ===== src/Installer/Release.antt =====
-- The verification of a release's images (src/amd_ai/installer/release.py). The Docker client is a
-- parameter that acts on a world of its own; an exception of it is its text. The messages of the
-- errors leave out the values that they print.
pub mod Verified
pub mod Tests
use Prim.Native.String.{◌++◌}
use strix_halo_rocm_toolkit.Prelude.{
  String, Bool, true, false, not, ◌&&◌, ◌||◌, ◌==◌, Option, none, some, List, [], ◌∷◌, str_eq,
  length, Dict, lookup, all, text_in, on_option, if◌then◌else◌, opt_text_eq,
}
use mathlib.Core.List.{◌++◌ as append}
use strix_halo_rocm_toolkit.Results.{Result, ok, err}
use strix_halo_rocm_toolkit.Exec.{Exec, pure, raise, for_each, check, need, ◌>>=◌, ◌>>◌}
use strix_halo_rocm_toolkit.Json.{Json, as_object, as_array, all_texts, text_values, text_is}
use strix_halo_rocm_toolkit.Installer.Models.{
  ReleaseImage, StableRelease, image_reference, VerifiedImageIdentity, VerifiedReleaseImages,
}

-- `ReleaseAcquisitionError`, `ReleaseIdentityError`, and the `KeyError` of a digest that the manifest
-- lacks.
pub data ReleaseError : Type 0 where
  acquisition_error identity_error key_error : String → ReleaseError

-- The protocol `ReleaseDocker`.
pub record ReleaseDocker (W : Type 0) : Type 0 where
  pub pull : String → Exec String W (Unit {0})
  pub inspect : String → Exec String W Json
  pub manifest_config_digest : String → Exec String W String
  pub hash_file : String → String → Exec String W String

abbrev pub map_error : {A E F : Type 0} → (E → F) → Result E A → Result F A
map_error f (ok a) = ok a
map_error f (err e) = err (f e)

-- `try: call except Exception as error: raise …`
unfoldable pub wrap : {A W E F : Type 0} → (E → F) → Exec E W A → Exec F W A
wrap f m w = (map_error f (m w).0, (m w).1)

-- `BASE_ARTIFACT_PATHS` and `TORCH_ARTIFACT_PATHS`
abbrev pub base_artifact_paths : List (String × String)
base_artifact_paths =
    ("rocm_keyring", "/etc/apt/keyrings/rocm.gpg")
    ∷ ("rocm_packages_lock", "/opt/amd-ai/locks/rocm-packages.lock")
    ∷ []

abbrev pub torch_artifact_paths : List (String × String)
torch_artifact_paths =
    ("profile", "/opt/amd-ai/profile.env")
    ∷ ("requirements_lock", "/opt/amd-ai/profile.requirements.lock")
    ∷ ("torch_manifest", "/opt/amd-ai/torch-manifest.json")
    ∷ []

abbrev pub artifact_paths : String → List (String × String)
artifact_paths kind = if str_eq kind "torch" then torch_artifact_paths else base_artifact_paths

abbrev pub expected_labels : StableRelease → String → List (String × String)
expected_labels release kind =
    append
      (("org.opencontainers.image.source", release.source_repository)
        ∷ ("org.opencontainers.image.revision", release.source_revision)
        ∷ ("org.amd-ai.rocm.version", release.rocm_version)
        ∷ ("org.amd-ai.python.version", release.python_version)
        ∷ [])
      (if str_eq kind "torch"
        then ("org.amd-ai.profile.id", release.torch_profile_id)
          ∷ ("org.amd-ai.profile.status", "verified")
          ∷ ("org.amd-ai.torch.version", release.torch_version)
          ∷ []
        else [])

-- `image == expected_image`; the order of a dict does not matter.
abbrev pub dict_eq : Dict String → Dict String → Bool
dict_eq c d =
    length c == length d && all (λ (e : String × String). opt_text_eq (lookup e.0 d) (some e.1)) c

abbrev pub image_eq : ReleaseImage → ReleaseImage → Bool
image_eq a b =
    str_eq a.image b.image
    && str_eq a.manifest_digest b.manifest_digest
    && str_eq a.config_digest b.config_digest
    && dict_eq a.artifact_digests b.artifact_digests

abbrev pub expected_image : StableRelease → String → ReleaseImage
expected_image release kind = if str_eq kind "base" then release.base else release.torch

module _ {W : Type 0} (docker : ReleaseDocker W) (release : StableRelease) where
  -- The config digest behind the local image ID.
  abbrev pub config_digest_of : ReleaseImage → String → Option Json → Exec ReleaseError W String
  config_digest_of image kind local_image_id =
      if text_is local_image_id image.config_digest
      then pure image.config_digest
      else if text_is local_image_id image.manifest_digest
      then wrap
          (λ error. identity_error (
            "cannot inspect exact release manifest config descriptor "
            ++ image_reference image
            ++ ": "
            ++ error))
          (docker.manifest_config_digest (image_reference image))
      else raise
          (identity_error ("release " ++ kind ++ " image ID does not match the config or manifest"))

  abbrev pub check_label : String → Dict String → String × String → Exec ReleaseError W (Unit {0})
  check_label kind labels (name, expected) =
      check (not (opt_text_eq (lookup name labels) (some expected)))
        (identity_error ("release " ++ kind ++ " image label " ++ name ++ " does not match"))
        (pure tt)

  abbrev pub check_artifact :
      ReleaseImage → String → String × String → Exec ReleaseError W (Unit {0})
  check_artifact image kind (name, path) =
      wrap
        (λ error.
          identity_error ("cannot hash release " ++ kind ++ " artifact " ++ path ++ ": " ++ error))
        (docker.hash_file (image_reference image) path)
      >>= λ actual. need (lookup name image.artifact_digests) (key_error name) (λ expected.
        check (not (str_eq actual expected))
          (identity_error ("release " ++ kind ++ " artifact digest does not match: " ++ path))
          (pure tt))

  -- The checks on the record that the client returned.
  abbrev pub verify_record :
      ReleaseImage → String → Dict Json → Exec ReleaseError W VerifiedImageIdentity
  verify_record image kind inspected =
      config_digest_of image kind (lookup "Id" inspected) >>= λ config_digest.
      check (not (str_eq config_digest image.config_digest))
        (identity_error ("release " ++ kind ++ " config digest does not match"))
        (need
          (on_option (lookup "RepoDigests" inspected) none
            (λ v. on_option (as_array v) none all_texts))
          (identity_error ("release " ++ kind ++ " RepoDigest does not include the image"))
          (λ repo_digests.
            check (not (text_in (image_reference image) repo_digests))
              (identity_error ("release " ++ kind ++ " RepoDigest does not include the image"))
              (need (on_option (lookup "Config" inspected) none as_object)
                (identity_error ("release " ++ kind ++ " image config is invalid"))
                (λ config.
                  need
                    (on_option (lookup "Labels" config) none
                      (λ v. on_option (as_object v) none text_values))
                    (identity_error ("release " ++ kind ++ " image labels are invalid"))
                    (λ labels.
                      for_each (check_label kind labels) (expected_labels release kind)
                      >> (for_each (check_artifact image kind) (artifact_paths kind)
                          >> pure (record {
                            reference = image_reference image;
                            config_digest = config_digest;
                            repo_digests = repo_digests;
                            labels = labels;
                          })))))))

  -- `verify_release_image`
  unfoldable pub verify_release_image :
      ReleaseImage → String → Exec ReleaseError W VerifiedImageIdentity
  verify_release_image image kind =
      check (not (str_eq kind "base" || str_eq kind "torch"))
        (identity_error ("unsupported release image kind: " ++ kind))
        (check (not (image_eq image (expected_image release kind)))
          (identity_error
            ("stable release " ++ kind ++ " verifier received the wrong image identity"))
          (wrap
              (λ error.
                identity_error
                  ("cannot inspect exact release image " ++ image_reference image ++ ": " ++ error))
              (docker.inspect (image_reference image))
            >>= λ answer.
                need (as_object answer)
                  (identity_error ("release " ++ kind ++ " image inspect record is invalid"))
                  (verify_record image kind)))

  -- One round of the loop of `pull_and_verify_release`.
  abbrev pub pull_and_verify_image :
      String → ReleaseImage → Exec ReleaseError W VerifiedImageIdentity
  pull_and_verify_image kind image =
      wrap
        (λ error. acquisition_error (
          "cannot pull exact "
          ++ kind
          ++ " release image "
          ++ image_reference image
          ++ ": "
          ++ error))
        (docker.pull (image_reference image))
      >> verify_release_image image kind

  -- `pull_and_verify_release`
  unfoldable pub pull_and_verify_release : Exec ReleaseError W VerifiedReleaseImages
  pull_and_verify_release = pull_and_verify_image "base" release.base >>= λ base.
      pull_and_verify_image "torch" release.torch >>= λ torch.
      pure (record { base = base; torch = torch })
