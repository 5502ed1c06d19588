-- ===== src/Platform/Redfish/Trims.antt =====
-- `trim_copy` of src/platform/redfish.c at a text with a newline at its end.
use thermal_observatory.Base.{
  ℕ, zero, suc, ◌-◌, Bool-cases, ◌≡◌, refl, ap, ◌∙◌, inl, inr, [], ◌∷◌, ◌++◌, append-nil, Bytes,
  codes, length, take,
}
use thermal_observatory.Base.Collect.{take-append}
use thermal_observatory.Libc.Lines.{trim_end, put_front}
use thermal_observatory.Libc.Scan.{is_space, skip_space}
use thermal_observatory.Platform.Redfish.{trim_copy}

-- Trimming takes the newline off.
trim_end-space : (s : Bytes) → trim_end (s ++ codes "\n") ≡ trim_end s
unfolding trim_end is_space
trim_end-space [] = refl
trim_end-space (c ∷ s) = ap (put_front c) (trim_end-space s)

trim_end-take : (n : ℕ) (s : Bytes) → trim_end (take n (s ++ codes "\n")) ≡ trim_end (take n s)
trim_end-take n s = ap trim_end (take-append n s (codes "\n")) ∙ behind (n - length s)
  where
    behind : (k : ℕ) → trim_end (take n s ++ take k (codes "\n")) ≡ trim_end (take n s)
    behind zero = ap trim_end (append-nil (take n s))
    behind (suc k) =
        ap (λ t. trim_end (take n s ++ (b'\n' ∷ t))) (nothing k) ∙ trim_end-space (take n s)
      where
        nothing : (j : ℕ) → take {A = ℕ} j [] ≡ []
        nothing zero = refl
        nothing (suc j) = refl

skip_space-newline : skip_space (codes "\n") ≡ []
unfolding skip_space is_space
skip_space-newline = refl

trim_end-skip_space :
    (n : ℕ) (s : Bytes)
    → trim_end (take n (skip_space (s ++ codes "\n"))) ≡ trim_end (take n (skip_space s))
unfolding skip_space
trim_end-skip_space n [] = ap (λ t. trim_end (take n t)) skip_space-newline
trim_end-skip_space n (c ∷ s) = elim (Bool-cases (is_space c)) [
  | inl white ↦ rw white (trim_end-skip_space n s)
  | inr black ↦ rw black (trim_end-take n (c ∷ s))
]

pub trim_copy-newline : (len : ℕ) (s : Bytes) → trim_copy len (s ++ codes "\n") ≡ trim_copy len s
unfolding trim_copy
trim_copy-newline len s = trim_end-skip_space (len - 1) s
