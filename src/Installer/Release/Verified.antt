-- ===== src/Installer/Release/Verified.antt =====
-- What a verified image satisfies.
use mathlib.Core.Path.{subst}
use strix_halo_rocm_toolkit.Prelude.{
  ◌≡◌, refl, sym, ap, ◌∙◌, Option-cases, ◌⊎◌, inl, inr, String, true, Option, none, some, All,
  eq_iff, opt_text_eq_sound, lookup, text_in, on_option, Dict, arith,
}
use strix_halo_rocm_toolkit.Results.{Result, ok, err}
use strix_halo_rocm_toolkit.Exec.{Exec}
use strix_halo_rocm_toolkit.Exec.Ensures.{
  Ensures, Returns, Ensures-pure, Ensures-raise, Ensures-if, Ensures-weaken,
}
use strix_halo_rocm_toolkit.Exec.Known.{
  Observed, Ensures-check, Ensures-need, Ensures-each, Ensures-next, Ensures-ok, Always,
}
use strix_halo_rocm_toolkit.Json.{
  Json, text, text_is, as_text, as_text-is, as_object, as_array, all_texts, text_values,
}
use strix_halo_rocm_toolkit.Installer.Models.{
  ReleaseImage, StableRelease, image_reference, VerifiedImageIdentity, VerifiedReleaseImages,
}
use strix_halo_rocm_toolkit.Installer.Release.{
  ReleaseDocker, wrap, map_error, artifact_paths, expected_labels, config_digest_of, check_label,
  check_artifact, verify_record, verify_release_image, pull_and_verify_image,
  pull_and_verify_release,
}

module _ {W : Type 0} (docker : ReleaseDocker W) where
  -- The client hashed the file to the digest that the manifest pins.
  abbrev pub ArtifactMatches : ReleaseImage → String × String → Type 0
  ArtifactMatches image (name, path) =
      (digest : String) × (lookup name image.artifact_digests ≡ some digest)
      × Observed (docker.hash_file (image_reference image) path) digest

  -- The ID is the pinned config digest, or it is the manifest's digest and the client resolved the
  -- manifest to the pinned config digest.
  abbrev pub IsPinnedId : ReleaseImage → Option Json → Type 0
  IsPinnedId image id =
      (id ≡ some (text image.config_digest))
      ⊎ ((id ≡ some (text image.manifest_digest))
          × Observed (docker.manifest_config_digest (image_reference image)) image.config_digest)

  -- The client's record of the image: its ID, its repository digests and its labels.
  abbrev pub IsInspected : ReleaseImage → VerifiedImageIdentity → Type 0
  IsInspected image v =
      (answer : Json) × (record_ config : Dict Json) × (digests labels : Json) × Observed
        (docker.inspect (image_reference image)) answer
      × (as_object answer ≡ some record_)
      × IsPinnedId image (lookup "Id" record_)
      × (lookup "RepoDigests" record_ ≡ some digests)
      × (on_option (as_array digests) none all_texts ≡ some v.repo_digests)
      × (on_option (lookup "Config" record_) none as_object ≡ some config)
      × (lookup "Labels" config ≡ some labels)
      × (on_option (as_object labels) none text_values ≡ some v.labels)

  abbrev pub HasLabel : VerifiedImageIdentity → String → String → Type 0
  HasLabel v name value = lookup name v.labels ≡ some value

  -- The identity is that of the pinned image, as the client has it, and it bears the labels of every
  -- image of the release.
  abbrev pub IsVerified : StableRelease → ReleaseImage → VerifiedImageIdentity → Type 0
  IsVerified release image v =
      (v.reference ≡ image_reference image)
      × (v.config_digest ≡ image.config_digest)
      × (text_in (image_reference image) v.repo_digests ≡ true)
      × IsInspected image v
      × HasLabel v "org.opencontainers.image.source" release.source_repository
      × HasLabel v "org.opencontainers.image.revision" release.source_revision
      × HasLabel v "org.amd-ai.rocm.version" release.rocm_version
      × HasLabel v "org.amd-ai.python.version" release.python_version

  abbrev pub IsVerifiedBase : StableRelease → VerifiedImageIdentity → Type 0
  IsVerifiedBase release v =
      IsVerified release release.base v
      × ArtifactMatches release.base ("rocm_keyring", "/etc/apt/keyrings/rocm.gpg")
      × ArtifactMatches release.base ("rocm_packages_lock", "/opt/amd-ai/locks/rocm-packages.lock")

  abbrev pub IsVerifiedTorch : StableRelease → VerifiedImageIdentity → Type 0
  IsVerifiedTorch release v =
      IsVerified release release.torch v
      × HasLabel v "org.amd-ai.profile.id" release.torch_profile_id
      × HasLabel v "org.amd-ai.profile.status" "verified"
      × HasLabel v "org.amd-ai.torch.version" release.torch_version
      × ArtifactMatches release.torch ("profile", "/opt/amd-ai/profile.env")
      × ArtifactMatches release.torch ("requirements_lock", "/opt/amd-ai/profile.requirements.lock")
      × ArtifactMatches release.torch ("torch_manifest", "/opt/amd-ai/torch-manifest.json")

  -- What the checks of an image establish, before its tables are spelled out.
  abbrev Established : StableRelease → String → ReleaseImage → VerifiedImageIdentity → Type 0
  Established release kind image v =
      (v.reference ≡ image_reference image)
      × (v.config_digest ≡ image.config_digest)
      × (text_in (image_reference image) v.repo_digests ≡ true)
      × IsInspected image v
      × All (λ (e : String × String). HasLabel v e.0 e.1) (expected_labels release kind)
      × All (ArtifactMatches image) (artifact_paths kind)

Ensures-wrap :
    {A W E F : Type 0} (f : E → F) (m : Exec E W A) → Ensures Always (λ a. Observed m a) (wrap f m)
unfolding wrap
Ensures-wrap {A} {W} {E} {F} f m = record { kept = λ w _. tt; gives = λ w _. seen (m w).0 w refl }
  where
    seen : (r : Result E A) (w : W) → (m w).0 ≡ r → Returns (λ a. Observed m a) (map_error f r)
    seen (ok a) w h = (w, h)
    seen (err e) w h = tt

text_is_sound : (value : Option Json) (s : String) → text_is value s ≡ true → value ≡ some (text s)
text_is_sound none s h = cc
text_is_sound (some v) s h = elim (Option-cases (as_text v)) [
  | inl missing ↦ absurd (ground arith)
  | inr (t, e) ↦
      let same : s ≡ t = ground (arith, eq_iff s t) in
      ap some (as_text-is v t e ∙ ap text (sym same))
]

on_option-some :
    {A B : Type 0} (o : Option A) (f : A → Option B) {b : B}
    → on_option o none f ≡ some b
    → (a : A) × (o ≡ some a) × (f a ≡ some b)
on_option-some none f h = cc
on_option-some (some a) f h = (a, refl, h)

module _ {W : Type 0} (docker : ReleaseDocker W) (release : StableRelease) where
  -- The digest that an ID stands for.
  abbrev DigestOf : ReleaseImage → Option Json → String → Type 0
  DigestOf image id digest =
      ((id ≡ some (text image.config_digest)) × (digest ≡ image.config_digest))
      ⊎ ((id ≡ some (text image.manifest_digest))
          × Observed (docker.manifest_config_digest (image_reference image)) digest)

  config_digest_of-Ensures :
      (image : ReleaseImage) (kind : String) (id : Option Json)
      → Ensures Always (DigestOf image id) (config_digest_of docker release image kind id)
  config_digest_of-Ensures image kind id =
      Ensures-if (text_is id image.config_digest) _ _
        (λ h. Ensures-pure _ (inl (text_is_sound id image.config_digest h, refl)))
        (λ _.
          Ensures-if (text_is id image.manifest_digest) _ _
            (λ h.
              Ensures-weaken _ (λ d seen. inr (text_is_sound id image.manifest_digest h, seen))
                (Ensures-wrap _ (docker.manifest_config_digest (image_reference image))))
            (λ _. Ensures-raise _))

  pinned_id :
      (image : ReleaseImage) (id : Option Json) (digest : String)
      → digest ≡ image.config_digest
      → DigestOf image id digest
      → IsPinnedId docker image id
  pinned_id image id digest same (inl (is, _)) = inl is
  pinned_id image id digest same (inr (is, seen)) =
      inr (is, subst (Observed (docker.manifest_config_digest (image_reference image))) same seen)

  check_label-Ensures :
      (kind : String) (labels : Dict String) (e : String × String)
      → Ensures Always
          (λ _. lookup e.0 labels ≡ some e.1)
          (check_label docker release kind labels e)
  check_label-Ensures kind labels (name, expected) =
      Ensures-check _ (λ h.
        Ensures-pure tt (opt_text_eq_sound (lookup name labels) (some expected) (ground arith)))

  check_artifact-Ensures :
      (image : ReleaseImage) (kind : String) (e : String × String)
      → Ensures Always
          (λ _. ArtifactMatches docker image e)
          (check_artifact docker release image kind e)
  check_artifact-Ensures image kind (name, path) =
      Ensures-next (Ensures-wrap _ (docker.hash_file (image_reference image) path)) (λ actual seen.
        Ensures-need _ (λ expected pinned.
          Ensures-check _
            (λ h. Ensures-pure tt (actual, ground (arith, eq_iff actual expected), seen))))

  verify_record-Ensures :
      (image : ReleaseImage) (kind : String) (answer : Json) (inspected : Dict Json)
      → Observed (docker.inspect (image_reference image)) answer
      → as_object answer ≡ some inspected
      → Ensures Always
          (Established docker release kind image)
          (verify_record docker release image kind inspected)
  verify_record-Ensures image kind answer inspected seen is =
      Ensures-next (config_digest_of-Ensures image kind (lookup "Id" inspected)) (λ digest of.
        Ensures-check _ (λ same. Ensures-need _ (λ repo_digests listing. Ensures-check _ (λ listed.
          Ensures-need _ (λ config e. Ensures-need _ (λ labels labelling.
            Ensures-each (λ (l : String × String). lookup l.0 labels ≡ some l.1) _
              (check_label-Ensures kind labels)
              (λ labelled.
                Ensures-each (ArtifactMatches docker image) _ (check_artifact-Ensures image kind)
                  (λ pinned.
                    let digest_is : digest ≡ image.config_digest =
                      ground (arith, eq_iff digest image.config_digest) in
                    let (ds, ds_is, ds_texts) = on_option-some _ _ listing in
                    let (ls, ls_is, ls_texts) = on_option-some _ _ labelling in
                    Ensures-pure _ (
                      refl,
                      digest_is,
                      ground arith,
                      (
                        answer,
                        inspected,
                        config,
                        ds,
                        ls,
                        seen,
                        is,
                        pinned_id image (lookup "Id" inspected) digest digest_is of,
                        ds_is,
                        ds_texts,
                        e,
                        ls_is,
                        ls_texts,
                      ),
                      labelled,
                      pinned,
                    )))))))))

  verify_release_image-Ensures :
      (image : ReleaseImage) (kind : String)
      → Ensures Always
          (Established docker release kind image)
          (verify_release_image docker release image kind)
  unfolding verify_release_image
  verify_release_image-Ensures image kind = Ensures-check _ (λ _. Ensures-check _ (λ _.
      Ensures-next (Ensures-wrap _ (docker.inspect (image_reference image))) (λ answer seen.
        Ensures-need _
          (λ inspected is. verify_record-Ensures image kind answer inspected seen is))))

  pull_and_verify_image-Ensures :
      (kind : String) (image : ReleaseImage)
      → Ensures Always
          (Established docker release kind image)
          (pull_and_verify_image docker release kind image)
  pull_and_verify_image-Ensures kind image =
      Ensures-next (Ensures-wrap _ (docker.pull (image_reference image)))
        (λ _ _. verify_release_image-Ensures image kind)

  IsVerifiedBase-Established :
      (v : VerifiedImageIdentity)
      → Established docker release "base" release.base v
      → IsVerifiedBase docker release v
  IsVerifiedBase-Established v
        (e, c, l, i, (source, (revision, (rocm, (python, _)))), (keyring, (packages, _))) =
      ((e, c, l, i, source, revision, rocm, python), keyring, packages)

  IsVerifiedTorch-Established :
      (v : VerifiedImageIdentity)
      → Established docker release "torch" release.torch v
      → IsVerifiedTorch docker release v
  IsVerifiedTorch-Established v
        (
          e,
          c,
          l,
          i,
          (source, (revision, (rocm, (python, (profile, (status, (version, _))))))),
          (env, (lock, (manifest, _))),
        ) =
      ((e, c, l, i, source, revision, rocm, python), profile, status, version, env, lock, manifest)

  pulled-Ensures :
      Ensures Always
        (λ v. IsVerifiedBase docker release v.base × IsVerifiedTorch docker release v.torch)
        (pull_and_verify_release docker release)
  unfolding pull_and_verify_release
  pulled-Ensures = Ensures-next (pull_and_verify_image-Ensures "base" release.base) (λ base b.
      Ensures-next (pull_and_verify_image-Ensures "torch" release.torch) (λ torch t.
        Ensures-pure _ (IsVerifiedBase-Established base b, IsVerifiedTorch-Established torch t)))

  -- When a pull returns, both images are verified. For each, an inspection of the pinned reference by
  -- the client gave a record whose ID is the pinned config digest, or is the manifest's digest, which
  -- the client resolved to that config digest; the repository digests and the labels of the result are
  -- those of that record; the repository digests include the pinned reference; the labels name the
  -- release's source, revision, ROCm and Python, and for the Torch image its verified profile and
  -- version; and every pinned artifact, two of the base image and three of the Torch image, was hashed
  -- by the client in the image to the digest of the manifest. What the client gave, it gave in some
  -- world of it.
  pub pull_and_verify_release-IsVerified :
      (w : W) {v : VerifiedReleaseImages}
      → (pull_and_verify_release docker release w).0 ≡ ok v
      → IsVerifiedBase docker release v.base × IsVerifiedTorch docker release v.torch
  pull_and_verify_release-IsVerified w {v} h =
      Ensures-ok (pull_and_verify_release docker release) pulled-Ensures w tt h
