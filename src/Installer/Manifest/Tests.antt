-- ===== src/Installer/Manifest/Tests.antt =====
-- A concrete manifest.
use strix_halo_rocm_toolkit.Prelude.{◌≡◌, refl, String, Bool, true, [], ◌∷◌, Dict}
use Prim.Native.String.{◌++◌}
use strix_halo_rocm_toolkit.Results.{ok, err, check, need, ◌>>=◌}
use strix_halo_rocm_toolkit.Json.{Json, number, text, array, object, items_of, fields_of}
use strix_halo_rocm_toolkit.Regex.{fullmatch}
use strix_halo_rocm_toolkit.Installer.Models.{StableRelease, ReleaseImage}
use strix_halo_rocm_toolkit.Installer.Manifest.{
  require_string, require_digest, require_exact, parse_artifacts, parse_image, parse_adapters,
  load_stable_release,
}
use strix_halo_rocm_toolkit.Installer.Manifest.Pinned.{IsPinned, load_stable_release-IsPinned}

abbrev digest : String → String
digest last = "sha256:0123456789abcdef0123456789abcdef0123456789abcdef0123456789abcde" ++ last

abbrev image_object : String → String → Dict Json → Json
image_object manifest config artifacts = object (
    fields_of (
      ("image", text "ghcr.io/a/b")
      ∷ ("manifest_digest", text (digest manifest))
      ∷ ("config_digest", text (digest config))
      ∷ ("artifact_digests", object (fields_of artifacts))
      ∷ []))

-- The manifest, whose profile has the given digest.
abbrev manifest_file : String → Json
manifest_file profile = object (
    fields_of (
      ("schema_version", number 1)
      ∷ ("release_id", text "1.0.0-rc.1")
      ∷ ("source_repository", text "https://github.com/a/b")
      ∷ ("source_revision", text "0123456789abcdef0123456789abcdef01234567")
      ∷ ("qualification_profile_digest", text (digest "0"))
      ∷ ("qualification_report_digest", text (digest "0"))
      ∷ ("sbom_digest", text (digest "0"))
      ∷ ("gpu_arch", text "gfx1151")
      ∷ ("supported_host_adapter_ids", array (items_of (text "ubuntu-24.04" ∷ [])))
      ∷ ("rocm_version", text "7.2.1")
      ∷ ("python_version", text "3.12")
      ∷ ("torch_version", text "2.9.1")
      ∷ ("torch_profile_id", text "rocm-7.2.1-py3.12-torch-2.9.1")
      ∷ ("torch_profile_digest", text (digest "5"))
      ∷ (
        "base",
        image_object "1" "2"
            (("rocm_keyring", text (digest "3")) ∷ ("rocm_packages_lock", text (digest "4")) ∷ []),
      )
      ∷ (
        "torch",
        image_object "3" "4" (
            ("profile", text (digest profile))
            ∷ ("requirements_lock", text (digest "6"))
            ∷ ("torch_manifest", text (digest "7"))
            ∷ []),
      )
      ∷ ("published_at", text "2026-01-01T00:00:00Z")
      ∷ []))

abbrev any_time : String → Bool
any_time _ = true

abbrev loaded_image : String → String → Dict String → ReleaseImage
loaded_image manifest config artifacts = record {
  image = "ghcr.io/a/b";
  manifest_digest = digest manifest;
  config_digest = digest config;
  artifact_digests = artifacts;
}

abbrev loaded_release : StableRelease
loaded_release = record {
  schema_version = 1;
  release_id = "1.0.0-rc.1";
  source_repository = "https://github.com/a/b";
  source_revision = "0123456789abcdef0123456789abcdef01234567";
  qualification_profile_digest = digest "0";
  qualification_report_digest = digest "0";
  sbom_digest = digest "0";
  gpu_arch = "gfx1151";
  supported_host_adapter_ids = "ubuntu-24.04" ∷ [];
  rocm_version = "7.2.1";
  python_version = "3.12";
  torch_version = "2.9.1";
  torch_profile_id = "rocm-7.2.1-py3.12-torch-2.9.1";
  torch_profile_digest = digest "5";
  base =
      loaded_image "1" "2" (("rocm_keyring", digest "3") ∷ ("rocm_packages_lock", digest "4") ∷ []);
  torch = loaded_image "3" "4" (
      ("profile", digest "5")
      ∷ ("requirements_lock", digest "6")
      ∷ ("torch_manifest", digest "7")
      ∷ []);
  published_at = "2026-01-01T00:00:00Z";
}

manifest_run : load_stable_release any_time (manifest_file "5") ≡ ok loaded_release
unfolding load_stable_release require_string require_digest require_exact parse_artifacts
    parse_image parse_adapters check need fullmatch ◌>>=◌
manifest_run = refl

profile_run :
    load_stable_release any_time (manifest_file "6")
    ≡ err "Torch profile digest differs from embedded profile artifact"
unfolding load_stable_release require_string require_digest require_exact parse_artifacts
    parse_image parse_adapters check need fullmatch ◌>>=◌
profile_run = refl

load_stable_release-IsPinned_example : IsPinned loaded_release
load_stable_release-IsPinned_example =
    load_stable_release-IsPinned any_time (manifest_file "5") manifest_run
