-- ===== src/Qualification/KernelLog/Tests.antt =====
-- Concrete logs.
use strix_halo_rocm_toolkit.Qualification.KernelLog.Counts.{count, count-new_kernel_lines}
use strix_halo_rocm_toolkit.Qualification.KernelLog.Errors.{
  is_err, Disjoint, IsPartOf, new_kernel_lines-refused, new_kernel_lines-IsPartOf,
}
use strix_halo_rocm_toolkit.Prelude.{◌≡◌, refl, [], ◌∷◌, map, true, String, ◌↔◌, ◌≢◌, ◌-◌}
use strix_halo_rocm_toolkit.Results.{ok}
use strix_halo_rocm_toolkit.Lines.{splitlines}
use strix_halo_rocm_toolkit.Regex.{search}
use strix_halo_rocm_toolkit.Qualification.KernelLog.{
  new_kernel_lines, classify_new_lines, relevant_gpu_lines,
}

lines_run : splitlines "a\nb\r\nc\n" ≡ "a" ∷ "b" ∷ "c" ∷ []
unfolding splitlines
lines_run = refl

new_run : new_kernel_lines "a\nb\nb\n" "b\nc\nb\nb\n" ≡ ok ("c" ∷ "b" ∷ [])
unfolding new_kernel_lines splitlines
new_run = refl

classify_run :
    map
      (λ f. f.code)
      (classify_new_lines
        ("usb 1-1: new" ∷ "[1] amdgpu: MES failed to respond" ∷ "amdgpu: GPU reset begin" ∷ []))
    ≡ "GPU.MES_TIMEOUT" ∷ "GPU.RESET" ∷ []
unfolding classify_new_lines search
classify_run = refl

relevant_run : relevant_gpu_lines ("amdgpux" ∷ "x kfd: y" ∷ []) ≡ "x kfd: y" ∷ []
unfolding relevant_gpu_lines search
relevant_run = refl

abbrev log_before : String
log_before = "a\nb\nb\n"

abbrev log_after : String
log_after = "b\nc\nb\nb\n"

count-new_kernel_lines_example :
    count "b" ("c" ∷ "b" ∷ [])
    ≡ count "b" (splitlines log_after) - count "b" (splitlines log_before)
count-new_kernel_lines_example = count-new_kernel_lines log_before log_after new_run "b"

new_kernel_lines-refused_example :
    (is_err (new_kernel_lines log_before log_after) ≡ true)
    ↔ ((splitlines log_before ≢ []) × Disjoint (splitlines log_before) (splitlines log_after))
new_kernel_lines-refused_example = new_kernel_lines-refused log_before log_after

new_kernel_lines-IsPartOf_example : IsPartOf ("c" ∷ "b" ∷ []) (splitlines log_after)
new_kernel_lines-IsPartOf_example = new_kernel_lines-IsPartOf log_before log_after new_run

refused_run : is_err (new_kernel_lines "a\n" "b\n") ≡ true
unfolding new_kernel_lines splitlines
refused_run = refl
