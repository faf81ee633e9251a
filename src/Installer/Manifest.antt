-- ===== src/Installer/Manifest.antt =====
-- The manifest of a release (`load_stable_release` in src/amd_ai/installer/release.py), on the JSON value
-- of its file. Keys of an object that occur twice are refused when the file is parsed. The messages leave
-- out the field and the kind of the image.
pub mod Pinned
pub mod Tests
use Prim.Native.String.{◌++◌}
use Prim.Native.Char.{code}
use strix_halo_rocm_toolkit.Prelude.{
  ℕ, ◌+◌, ◌-◌, ◌*◌, ◌%◌, ◌==◌, ltb, leb, String, Bool, true, false, not, ◌&&◌, ◌||◌, Option, none,
  some, List, [], ◌∷◌, any, all, codes, str_eq, text_in, on_option, Dict, lookup, has_key,
  if◌then◌else◌,
}
use strix_halo_rocm_toolkit.Results.{Result, ok, err, check, need, ◌>>=◌}
use strix_halo_rocm_toolkit.Json.{Json, number, as_text, as_object, as_array, all_texts}
use strix_halo_rocm_toolkit.Regex.{
  Regex, fullmatch, literal, all_of, any_of, times, up_to, class, star, plus, optional, choice,
  digits, hex_digits,
}
use strix_halo_rocm_toolkit.Installer.Models.{ReleaseImage, StableRelease}

abbrev digest_pattern : Regex
digest_pattern = all_of (literal "sha256:" ∷ times 64 (class hex_digits) ∷ [])

abbrev revision_pattern : Regex
revision_pattern = times 40 (class hex_digits)

-- A part of a semantic version, and an identifier of its pre-release.
abbrev version_number : Regex
version_number = choice (literal "0") (all_of (class ((49, 57) ∷ []) ∷ star (class digits) ∷ []))

abbrev version_letters : List (ℕ × ℕ)
version_letters = (45, 45) ∷ (48, 57) ∷ (65, 90) ∷ (97, 122) ∷ []

abbrev pre_release : Regex
pre_release = choice version_number (
    all_of (
      star (class version_letters)
      ∷ class ((45, 45) ∷ (65, 90) ∷ (97, 122) ∷ [])
      ∷ star (class version_letters)
      ∷ []))

abbrev semver_pattern : Regex
semver_pattern = all_of (
    version_number
    ∷ literal "."
    ∷ version_number
    ∷ literal "."
    ∷ version_number
    ∷ optional
        (all_of (literal "-" ∷ pre_release ∷ star (all_of (literal "." ∷ pre_release ∷ [])) ∷ []))
    ∷ optional (
        all_of (
          literal "+"
          ∷ plus (class version_letters)
          ∷ star (all_of (literal "." ∷ plus (class version_letters) ∷ []))
          ∷ []))
    ∷ [])

-- A name that starts and ends with one of `edges`, with any of `inner` between.
abbrev edged : List (ℕ × ℕ) → List (ℕ × ℕ) → Regex
edged edges inner =
    all_of (class edges ∷ optional (all_of (star (class inner) ∷ class edges ∷ [])) ∷ [])

abbrev small_edges : List (ℕ × ℕ)
small_edges = (48, 57) ∷ (97, 122) ∷ []

abbrev small_inner : List (ℕ × ℕ)
small_inner = (45, 46) ∷ (48, 57) ∷ (95, 95) ∷ (97, 122) ∷ []

abbrev ghcr_image_pattern : Regex
ghcr_image_pattern = all_of (
    literal "ghcr.io/"
    ∷ edged small_edges small_inner
    ∷ literal "/"
    ∷ edged small_edges small_inner
    ∷ [])

abbrev any_edges : List (ℕ × ℕ)
any_edges = (48, 57) ∷ (65, 90) ∷ (97, 122) ∷ []

abbrev any_inner : List (ℕ × ℕ)
any_inner = (45, 46) ∷ (48, 57) ∷ (65, 90) ∷ (95, 95) ∷ (97, 122) ∷ []

abbrev repository_pattern : Regex
repository_pattern = all_of (
    literal "https://github.com/"
    ∷ edged any_edges any_inner
    ∷ literal "/"
    ∷ edged any_edges any_inner
    ∷ [])

abbrev adapter_pattern : Regex
adapter_pattern = all_of (class small_edges ∷ up_to 127 (class small_inner) ∷ [])

-- `ROOT_KEYS`, `IMAGE_KEYS`, `BASE_ARTIFACT_KEYS` and `TORCH_ARTIFACT_KEYS`; the last two sorted.
abbrev root_keys : List String
root_keys =
    "schema_version" ∷ "release_id" ∷ "source_repository" ∷ "source_revision"
    ∷ "qualification_profile_digest" ∷ "qualification_report_digest" ∷ "sbom_digest" ∷ "gpu_arch"
    ∷ "supported_host_adapter_ids" ∷ "rocm_version" ∷ "python_version" ∷ "torch_version"
    ∷ "torch_profile_id" ∷ "torch_profile_digest" ∷ "base" ∷ "torch" ∷ "published_at" ∷ []

abbrev image_keys : List String
image_keys = "image" ∷ "manifest_digest" ∷ "config_digest" ∷ "artifact_digests" ∷ []

abbrev pub base_artifact_keys : List String
base_artifact_keys = "rocm_keyring" ∷ "rocm_packages_lock" ∷ []

abbrev pub torch_artifact_keys : List String
torch_artifact_keys = "profile" ∷ "requirements_lock" ∷ "torch_manifest" ∷ []

-- `_require_keys`, before the rest.
abbrev pub require_keys : {B : Type 0} → Dict Json → List String → Result String B → Result String B
require_keys values expected rest =
    check (any (λ k. not (has_key k values)) expected) "missing keys"
      (check (any (λ (e : String × Json). not (text_in e.0 expected)) values) "unknown keys" rest)

abbrev has_nul : String → Bool
has_nul s = any (λ c. c == 0) (codes s)

-- `_require_string`, `_require_digest` and `_require_exact`
unfoldable pub require_string : Dict Json → String → Result String String
require_string values name =
    need (on_option (lookup name values) none as_text) "field must be a string"
      (λ s. check (str_eq s "" || has_nul s) "field must be a string" (ok s))

abbrev pub is_digest : String → Bool
is_digest s = fullmatch digest_pattern s

unfoldable pub require_digest : Dict Json → String → Result String String
require_digest values name =
    require_string values name >>= λ s. check (not (is_digest s)) "digest is invalid" (ok s)

unfoldable pub require_exact : Dict Json → String → String → Result String String
require_exact values name expected = require_string values name >>= λ s.
    check (not (str_eq s expected)) "field has another value" (ok s)

-- `{name: _require_digest(artifacts, name) for name in sorted(keys)}`
unfoldable pub parse_artifacts : Dict Json → List String → Result String (Dict String)
parse_artifacts artifacts [] = ok []
parse_artifacts artifacts (k ∷ ks) = require_digest artifacts k >>= λ digest.
    parse_artifacts artifacts ks >>= λ rest. ok ((k, digest) ∷ rest)

-- `_parse_image`
unfoldable pub parse_image : Option Json → List String → Result String ReleaseImage
parse_image raw artifact_keys =
    need (on_option raw none as_object) "image must be an object" (λ values.
      require_keys values image_keys (
        require_string values "image" >>= λ image.
        check (not (fullmatch ghcr_image_pattern image)) "image must be an untagged GHCR name" (
          require_digest values "manifest_digest" >>= λ manifest_digest.
          require_digest values "config_digest" >>= λ config_digest.
          check (str_eq manifest_digest config_digest) "manifest and config digests are ambiguous" (
            need (on_option (lookup "artifact_digests" values) none as_object)
              "artifact digests must be an object"
              (λ artifacts. require_keys artifacts artifact_keys (
                parse_artifacts artifacts artifact_keys >>= λ parsed. ok (record {
                  image = image;
                  manifest_digest = manifest_digest;
                  config_digest = config_digest;
                  artifact_digests = parsed;
                })))))))

abbrev has_duplicates : List String → Bool
has_duplicates [] = false
has_duplicates (s ∷ ss) = text_in s ss || has_duplicates ss

abbrev is_empty : List String → Bool
is_empty [] = true
is_empty (_ ∷ _) = false

-- The checks of the adapter IDs.
unfoldable pub parse_adapters : Option Json → Result String (List String)
parse_adapters raw =
    need (on_option raw none (λ v. on_option (as_array v) none all_texts)) "adapter IDs are invalid"
      (λ adapters.
        check (is_empty adapters || not (all (fullmatch adapter_pattern) adapters))
          "adapter IDs are invalid"
          (check (has_duplicates adapters) "adapter IDs contain duplicates" (ok adapters)))

abbrev is_one : Json → Bool
is_one (number n) = n == 1
is_one _ = false

module _ (is_canonical_utc : String → Bool) where
  -- `load_stable_release`, on the object of the file. Whether a text is a canonical time in UTC is a
  -- question to `datetime`, a parameter.
  unfoldable pub load_stable_release : Json → Result String StableRelease
  load_stable_release file = need (as_object file) "manifest must be an object" (λ payload.
      require_keys payload root_keys (
        check (not (on_option (lookup "schema_version" payload) false is_one))
          "schema_version must be integer 1"
          (require_string payload "release_id" >>= λ release_id.
            check (not (fullmatch semver_pattern release_id))
              "release ID is not semantic versioning"
              (require_string payload "source_repository" >>= λ source_repository.
                check (not (fullmatch repository_pattern source_repository))
                  "source repository is invalid"
                  (require_string payload "source_revision" >>= λ source_revision.
                    check (not (fullmatch revision_pattern source_revision))
                      "source revision is invalid"
                      (require_digest payload "qualification_profile_digest" >>= λ profile.
                        require_digest payload "qualification_report_digest" >>= λ report.
                        require_digest payload "sbom_digest" >>= λ sbom.
                        require_exact payload "gpu_arch" "gfx1151" >>= λ gpu_arch.
                        require_exact payload "rocm_version" "7.2.1" >>= λ rocm_version.
                        require_exact payload "python_version" "3.12" >>= λ python_version.
                        require_exact payload "torch_version" "2.9.1" >>= λ torch_version.
                        require_exact payload "torch_profile_id" "rocm-7.2.1-py3.12-torch-2.9.1"
                        >>= λ torch_profile_id.
                            require_digest payload "torch_profile_digest" >>= λ torch_profile.
                            parse_adapters (lookup "supported_host_adapter_ids" payload)
                            >>= λ adapters.
                                require_string payload "published_at" >>= λ published_at.
                                check (not (is_canonical_utc published_at))
                                  "published_at is not canonical UTC"
                                  (parse_image (lookup "base" payload) base_artifact_keys
                                    >>= λ base.
                                        parse_image (lookup "torch" payload) torch_artifact_keys
                                        >>= λ torch.
                                            need (lookup "profile" torch.artifact_digests)
                                              "Torch profile digest is missing"
                                              (λ embedded.
                                                check (not (str_eq torch_profile embedded))
                                                  "Torch profile digest differs from embedded profile artifact"
                                                  (ok (record {
                                                    schema_version = 1;
                                                    release_id = release_id;
                                                    source_repository = source_repository;
                                                    source_revision = source_revision;
                                                    qualification_profile_digest = profile;
                                                    qualification_report_digest = report;
                                                    sbom_digest = sbom;
                                                    gpu_arch = gpu_arch;
                                                    supported_host_adapter_ids = adapters;
                                                    rocm_version = rocm_version;
                                                    python_version = python_version;
                                                    torch_version = torch_version;
                                                    torch_profile_id = torch_profile_id;
                                                    torch_profile_digest = torch_profile;
                                                    base = base;
                                                    torch = torch;
                                                    published_at = published_at;
                                                  }))))))))))
