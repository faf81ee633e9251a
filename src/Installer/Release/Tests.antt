-- ===== src/Installer/Release/Tests.antt =====
-- A concrete release, and a client that has its images.
use strix_halo_rocm_toolkit.Prelude.{◌≡◌, refl, String, [], ◌∷◌, str_eq, if◌then◌else◌}
use strix_halo_rocm_toolkit.Results.{ok, err}
use strix_halo_rocm_toolkit.Exec.{pure, raise, lift, gets, for_each, check, need, ◌>>=◌}
use strix_halo_rocm_toolkit.Json.{Json, object, array, text, items_of, fields_of}
use strix_halo_rocm_toolkit.Installer.Models.{
  ReleaseImage, StableRelease, VerifiedImageIdentity, VerifiedReleaseImages, image_reference,
}
use strix_halo_rocm_toolkit.Installer.Release.{
  ReleaseDocker, identity_error, wrap, verify_release_image, pull_and_verify_release,
}
use strix_halo_rocm_toolkit.Installer.Release.Verified.{
  IsVerifiedBase, IsVerifiedTorch, pull_and_verify_release-IsVerified,
}

abbrev base_image : ReleaseImage
base_image = record {
  image = "ghcr.io/a/base";
  manifest_digest = "m1";
  config_digest = "c1";
  artifact_digests = ("rocm_keyring", "k1") ∷ ("rocm_packages_lock", "k1") ∷ [];
}

abbrev torch_image : ReleaseImage
torch_image = record {
  image = "ghcr.io/a/torch";
  manifest_digest = "m2";
  config_digest = "c2";
  artifact_digests =
      ("profile", "k1") ∷ ("requirements_lock", "k1") ∷ ("torch_manifest", "k1") ∷ [];
}

abbrev the_release : StableRelease
the_release = record {
  schema_version = 1;
  release_id = "1.0.0";
  source_repository = "https://github.com/a/b";
  source_revision = "r";
  qualification_profile_digest = "";
  qualification_report_digest = "";
  sbom_digest = "";
  gpu_arch = "gfx1151";
  supported_host_adapter_ids = [];
  rocm_version = "7.2.1";
  python_version = "3.12";
  torch_version = "2.9.1";
  torch_profile_id = "p";
  torch_profile_digest = "k1";
  base = base_image;
  torch = torch_image;
  published_at = "";
}

-- The record of the image with the given ID.
abbrev inspected : String → String → Json
inspected id reference = object (
    fields_of (
      ("Id", text id)
      ∷ ("RepoDigests", array (items_of (text reference ∷ [])))
      ∷ (
        "Config",
        object (
            fields_of (
              (
                "Labels",
                object (
                    fields_of (
                      ("org.opencontainers.image.source", text "https://github.com/a/b")
                      ∷ ("org.opencontainers.image.revision", text "r")
                      ∷ ("org.amd-ai.rocm.version", text "7.2.1")
                      ∷ ("org.amd-ai.python.version", text "3.12")
                      ∷ ("org.amd-ai.profile.id", text "p")
                      ∷ ("org.amd-ai.profile.status", text "verified")
                      ∷ ("org.amd-ai.torch.version", text "2.9.1")
                      ∷ [])),
              )
              ∷ [])),
      )
      ∷ []))

-- The client counts nothing and hashes every file to the digest that is its world.
abbrev client : ReleaseDocker String
client = record {
  pull = λ reference. pure tt;
  inspect = λ reference. pure (
      if str_eq reference "ghcr.io/a/base@m1"
      then inspected "c1" reference
      else inspected "m2" reference);
  manifest_config_digest = λ reference. pure "c2";
  hash_file = λ reference path. gets (λ w. w);
}

abbrev identity : ReleaseImage → VerifiedImageIdentity
identity image = record {
  reference = image_reference image;
  config_digest = image.config_digest;
  repo_digests = image_reference image ∷ [];
  labels =
      ("org.opencontainers.image.source", "https://github.com/a/b")
      ∷ ("org.opencontainers.image.revision", "r")
      ∷ ("org.amd-ai.rocm.version", "7.2.1")
      ∷ ("org.amd-ai.python.version", "3.12")
      ∷ ("org.amd-ai.profile.id", "p")
      ∷ ("org.amd-ai.profile.status", "verified")
      ∷ ("org.amd-ai.torch.version", "2.9.1")
      ∷ [];
}

abbrev both : VerifiedReleaseImages
both = record { base = identity base_image; torch = identity torch_image }

pull_run : (pull_and_verify_release client the_release "k1").0 ≡ ok both
unfolding pull_and_verify_release verify_release_image wrap check need lift pure gets raise for_each
    ◌>>=◌
pull_run = refl

tampered_run :
    (pull_and_verify_release client the_release "k2").0
    ≡ err (identity_error "release base artifact digest does not match: /etc/apt/keyrings/rocm.gpg")
unfolding pull_and_verify_release verify_release_image wrap check need lift pure gets raise for_each
    ◌>>=◌
tampered_run = refl

pull_and_verify_release-IsVerified_example :
    IsVerifiedBase client the_release both.base × IsVerifiedTorch client the_release both.torch
pull_and_verify_release-IsVerified_example =
    pull_and_verify_release-IsVerified client the_release "k1" pull_run
