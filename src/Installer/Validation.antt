-- ===== src/Installer/Validation.antt =====
-- The checks of a state (`InstallState.__post_init__` in src/amd_ai/installer/models.py). Whether a path
-- is normalized is asked of the file system, a parameter. A canonical UUID is the text of its 32 small
-- hexadecimal digits in five groups. The messages of checks that differ in the field only are one.
use strix_halo_rocm_toolkit.Prelude.{
  ◌==◌, String, Bool, true, false, not, ◌&&◌, ◌||◌, Option, some, List, [], ◌∷◌, any, all, codes,
  str_eq, text_in, on_option,
}
use strix_halo_rocm_toolkit.Results.{Result, ok, check}
use strix_halo_rocm_toolkit.Regex.{
  Regex, fullmatch, literal, all_of, times, up_to, class, hex_digits,
}
use strix_halo_rocm_toolkit.Lines.{starts_with, removeprefix}
use strix_halo_rocm_toolkit.Installer.Stages.{InstallStage}
use strix_halo_rocm_toolkit.Installer.Models.{InstallState}

abbrev sha256_pattern : Regex
sha256_pattern = times 64 (class hex_digits)

abbrev revision_pattern : Regex
revision_pattern = times 40 (class hex_digits)

-- `[A-Za-z_][A-Za-z0-9_.-]{0,31}`
abbrev user_pattern : Regex
user_pattern = all_of (
    class ((65, 90) ∷ (95, 95) ∷ (97, 122) ∷ [])
    ∷ up_to 31 (class ((45, 46) ∷ (48, 57) ∷ (65, 90) ∷ (95, 95) ∷ (97, 122) ∷ []))
    ∷ [])

-- `[A-Z][A-Z0-9_.-]{1,127}`
abbrev finding_tail : Regex
finding_tail = class ((45, 46) ∷ (48, 57) ∷ (65, 90) ∷ (95, 95) ∷ [])

abbrev finding_code_pattern : Regex
finding_code_pattern = all_of (class ((65, 90) ∷ []) ∷ finding_tail ∷ up_to 126 finding_tail ∷ [])

-- `[0-9A-Za-z][0-9A-Za-z.+_-]{0,127}`
abbrev kernel_name_pattern : Regex
kernel_name_pattern = all_of (
    class ((48, 57) ∷ (65, 90) ∷ (97, 122) ∷ [])
    ∷ up_to 127 (class ((43, 43) ∷ (45, 46) ∷ (48, 57) ∷ (65, 90) ∷ (95, 95) ∷ (97, 122) ∷ []))
    ∷ [])

abbrev uuid_pattern : Regex
uuid_pattern = all_of (
    times 8 (class hex_digits)
    ∷ literal "-"
    ∷ times 4 (class hex_digits)
    ∷ literal "-"
    ∷ times 4 (class hex_digits)
    ∷ literal "-"
    ∷ times 4 (class hex_digits)
    ∷ literal "-"
    ∷ times 12 (class hex_digits)
    ∷ [])

-- A missing value passes.
abbrev optional_passes : (String → Bool) → Option String → Bool
optional_passes p value = on_option value true p

-- `_require_optional_revision`, `_require_optional_sha256`, `_require_optional_boot_id` and
-- `_require_optional_kernel`.
abbrev pub optional_revision : Option String → Bool
optional_revision value = optional_passes (fullmatch revision_pattern) value

abbrev pub optional_sha256 : Option String → Bool
optional_sha256 value = optional_passes (fullmatch sha256_pattern) value

abbrev pub optional_prefixed_sha256 : Option String → Bool
optional_prefixed_sha256 value =
    optional_passes
      (λ v. fullmatch sha256_pattern (removeprefix "sha256:" v) && starts_with v "sha256:") value

abbrev pub optional_boot_id : Option String → Bool
optional_boot_id value = optional_passes (fullmatch uuid_pattern) value

abbrev pub optional_kernel : Option String → Bool
optional_kernel value = optional_passes (fullmatch kernel_name_pattern) value

abbrev verification_statuses : List String
verification_statuses =
    "pass" ∷ "change-required" ∷ "reboot-required" ∷ "unverified" ∷ "blocked" ∷ []

abbrev has_duplicates : List String → Bool
has_duplicates [] = false
has_duplicates (s ∷ ss) = text_in s ss || has_duplicates ss

abbrev is_none : Option String → Bool
is_none value = on_option value true (λ _. false)

abbrev same_truth : Bool → Bool → Bool
same_truth true b = b
same_truth false b = not b

abbrev is_empty : List String → Bool
is_empty [] = true
is_empty (_ ∷ _) = false

-- `_validate_verification_identity`
unfoldable pub verification_identity : Option String → Option String → List String → Bool
verification_identity status kernel findings =
    optional_passes (λ s. text_in s verification_statuses) status
    && optional_kernel kernel
    && same_truth (is_none status) (is_none kernel)
    && all (fullmatch finding_code_pattern) findings
    && not (has_duplicates findings)
    && (not (is_none status) || is_empty findings)

abbrev has_nul : String → Bool
has_nul s = any (λ c. c == 0) (codes s)

module _ (is_normalized : String → Bool) where
  -- `InstallState.__post_init__`
  unfoldable pub validate_state : InstallState → Result String InstallState
  validate_state st =
      check (not (st.schema_version == 3)) "install state schema version is invalid" (
        check (str_eq st.installer_version "") "installer version is invalid" (
          check (not (optional_passes (fullmatch user_pattern) st.target_user))
            "install state target user is invalid"
            (check
              (not (optional_revision st.source_revision)
                || not (optional_revision (some st.installer_source_revision)))
              "revision is invalid"
              (check
                (not (optional_prefixed_sha256 st.base_manifest_digest)
                  || not (optional_prefixed_sha256 st.torch_manifest_digest)
                  || not (optional_sha256 st.host_plan_digest)
                  || not (optional_sha256 st.kernel_plan_digest)
                  || not (optional_prefixed_sha256 st.base_config_digest)
                  || not (optional_prefixed_sha256 st.torch_config_digest))
                "digest is invalid"
                (check
                  (not (
                    optional_passes (λ a. not (str_eq a "") && not (has_nul a)) st.host_adapter_id))
                  "install state host adapter ID is invalid"
                  (check
                    (not (optional_boot_id st.reboot_boot_id)
                      || not (optional_boot_id st.kernel_reboot_boot_id))
                    "boot ID is invalid"
                    (check (not (optional_kernel st.recovery_kernel)) "recovery_kernel is invalid" (
                      check
                        (not (
                          verification_identity st.host_verification_status st.host_kernel
                            st.host_verification_findings))
                        "install state host verification is invalid"
                        (check
                          (not (
                            verification_identity st.kernel_verification_status st.kernel_kernel
                              st.kernel_verification_findings))
                          "install state kernel verification is invalid"
                          (check (not (is_normalized st.source_root))
                            "install state source_root is not normalized"
                            (check (not (on_option st.project_path false is_normalized))
                              "install state project_path is missing or not normalized"
                              (check
                                (not (
                                  all (λ (e : InstallStage × String). fullmatch sha256_pattern e.1)
                                    st.completed))
                                "completed stage digest is invalid"
                                (check (not (all is_normalized st.last_report_paths))
                                  "install state report path is not normalized"
                                  (check (str_eq st.created_at "" || str_eq st.updated_at "")
                                    "install state created_at or updated_at is invalid"
                                    (ok st)))))))))))))))
