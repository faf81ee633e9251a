-- ===== src/Qualification/KernelLog.antt =====
-- The kernel log before and after a run (src/amd_ai/qualification/kernel_log.py).
pub mod Counts
pub mod Errors
pub mod Tests
use strix_halo_rocm_toolkit.Prelude.{
  ℕ, ◌+◌, ◌-◌, ◌==◌, leb, ltb, length, drop, String, Bool, true, false, ◌&&◌, Option, none, some,
  List, [], ◌∷◌, Dict, lookup, insert, on_option, if◌then◌else◌, str_eq,
}
use strix_halo_rocm_toolkit.Results.{Result, ok, err}
use strix_halo_rocm_toolkit.Report.{Finding, Severity}
use strix_halo_rocm_toolkit.Lines.{splitlines}
use strix_halo_rocm_toolkit.Regex.{
  Regex, search, literal, any_of, all_of, class, star, choice, boundary, dot, spaces,
}

pub data LogError : Type 0 where
  log_empty no_common_lines : LogError

-- `counter[line]`
abbrev pub at : String → Dict ℕ → ℕ
at x d = on_option (lookup x d) 0 (λ n. n)

-- `Counter(lines)`, from a counter of the lines before.
abbrev pub count_onto : Dict ℕ → List String → Dict ℕ
count_onto d [] = d
count_onto d (x ∷ xs) = count_onto (insert x (at x d + 1) d) xs

abbrev pub counter : List String → Dict ℕ
counter xs = count_onto [] xs

-- `sum((c & d).values())`
abbrev pub overlap : Dict ℕ → Dict ℕ → ℕ
overlap [] d = 0
overlap ((x, n) ∷ c) d = (if leb n (at x d) then n else at x d) + overlap c d

-- `after_lines[: len(before_lines)] == before_lines`
abbrev pub is_prefix : List String → List String → Bool
is_prefix [] ys = true
is_prefix (x ∷ xs) [] = false
is_prefix (x ∷ xs) (y ∷ ys) = str_eq x y && is_prefix xs ys

-- The loop over the lines after the run, with the counter of those that remain to be seen.
abbrev pub unseen : Dict ℕ → List String → List String
unseen remaining [] = []
unseen remaining (x ∷ xs) = elim (ltb 0 (at x remaining)) [
  | true ↦ unseen (insert x (at x remaining - 1) remaining) xs
  | false ↦ x ∷ unseen remaining xs
]

-- The rest of `new_kernel_lines`, on the lines of both logs.
abbrev pub new_lines : List String → List String → Result LogError (List String)
new_lines before after =
    if ltb 0 (length before) && length after == 0
    then err log_empty
    else if is_prefix before after
    then ok (drop (length before) after)
    else if ltb 0 (length before) && overlap (counter before) (counter after) == 0
    then err no_common_lines
    else ok (unseen (counter before) after)

-- `new_kernel_lines`
unfoldable pub new_kernel_lines : String → String → Result LogError (List String)
new_kernel_lines before after = new_lines (splitlines before) (splitlines after)

-- `FAILURE_PATTERNS`: each pattern with its code and its summary.
abbrev any_text : Regex
any_text = star (class dot)

abbrev pub failure_patterns : List (Regex × String × String)
failure_patterns =
    (
      any_of (
          literal "fatal error during gpu init"
          ∷ all_of (
              literal "amdgpu:"
              ∷ star (class spaces)
              ∷ literal "probe of "
              ∷ any_text
              ∷ literal " failed with error"
              ∷ [])
          ∷ []),
      "GPU.INIT_FATAL",
      "AMD GPU initialization failed",
    )
    ∷ (
      all_of (
          boundary
          ∷ literal "mes"
          ∷ boundary
          ∷ any_text
          ∷ choice (literal "timeout") (literal "failed to respond")
          ∷ []),
      "GPU.MES_TIMEOUT",
      "AMD GPU MES timeout or response failure",
    )
    ∷ (literal "gpu reset begin", "GPU.RESET", "AMD GPU reset began during qualification")
    ∷ (
      all_of (literal "amdgpu" ∷ any_text ∷ literal "page fault" ∷ []),
      "GPU.PAGE_FAULT",
      "AMD GPU page fault occurred during qualification",
    )
    ∷ (
      all_of (literal "ring " ∷ any_text ∷ literal " timeout" ∷ []),
      "GPU.RING_TIMEOUT",
      "AMD GPU ring timeout occurred during qualification",
    )
    ∷ (
      literal "failed to load firmware",
      "GPU.FIRMWARE",
      "GPU firmware failed to load during qualification",
    )
    ∷ []

abbrev gpu_evidence_pattern : Regex
gpu_evidence_pattern = all_of (
    boundary
    ∷ any_of
        (literal "amdgpu" ∷ literal "drm" ∷ literal "kfd" ∷ literal "ttm" ∷ literal "firmware" ∷ [])
    ∷ boundary
    ∷ [])

-- `relevant_gpu_lines`
unfoldable pub relevant_gpu_lines : List String → List String
relevant_gpu_lines [] = []
relevant_gpu_lines (l ∷ ls) =
    if search gpu_evidence_pattern l then l ∷ relevant_gpu_lines ls else relevant_gpu_lines ls

-- The loop over the patterns, which stops at the first that is found in the line.
abbrev pub classify_line : String → List (Regex × String × String) → Option Finding
classify_line line [] = none
classify_line line ((pattern, code, summary) ∷ ps) = elim (search pattern line) [
  | true ↦ some (record {
    code = code;
    severity = Severity.error;
    summary = summary;
    evidence = line;
    remediation =
        "Preserve the report bundle and diagnose the host driver before rerunning qualification.";
  })
  | false ↦ classify_line line ps
]

-- `classify_new_lines`
unfoldable pub classify_new_lines : List String → List Finding
classify_new_lines [] = []
classify_new_lines (l ∷ ls) =
    on_option (classify_line l failure_patterns) (classify_new_lines ls)
      (λ f. f ∷ classify_new_lines ls)
