-- ===== src/Gpu/Dcgm/Marks.antt =====
-- Which bits `tm_collect_nvidia_dcgm` sets.
use thermal_observatory.Base.{
  Bool, Bool-cases, true, false, ◌||◌, ◌&&◌, ◌≡◌, refl, ap, sym, ◌∙◌, subst, inl, inr, Option,
  Option-cases, none, some, List, [], ◌∷◌, ◌==◌, Bytes, codes, arith,
}
use thermal_observatory.Base.Int.{ℤ}
use thermal_observatory.Gpu.Dcgm.{
  scan_gpu_index, has_index, mark_index, collect_dcgm_lines, tm_collect_nvidia_dcgm,
}
use thermal_observatory.Libc.Lines.{lines}
use thermal_observatory.Platform.{Host}
use thermal_observatory.Platform.Ipmi.{command_exists}
use thermal_observatory.Snapshot.{NvidiaGpu, Snapshot}
use thermal_observatory.Snapshot.Bounds.{IsBounded, IsBounded-capabilities}
use thermal_observatory.Snapshot.Capability.{Capability, has, place, has-with_cap, nvidia_dcgm}

module _ {ℓ} {D : Type ℓ} where
  -- Whether a line names a GPU of the list.
  abbrev pub names_gpu : List (NvidiaGpu D) → Option ℤ → Bool
  names_gpu gpus none = false
  names_gpu gpus (some k) = has_index k gpus

  abbrev pub any_line : List (NvidiaGpu D) → List Bytes → Bool
  any_line gpus [] = false
  any_line gpus (line ∷ rest) = names_gpu gpus (scan_gpu_index line) || any_line gpus rest

  -- The bits of one snapshot and all else of another.
  abbrev with_bits_of : Snapshot D → Snapshot D → Snapshot D
  with_bits_of t s = record s { capabilities = t.capabilities }

  mark_index-bits :
      (s : Snapshot D) (found : Option ℤ) → mark_index s found ≡ with_bits_of (mark_index s found) s
  mark_index-bits s none = refl
  mark_index-bits s (some k) = elim (Bool-cases (has_index k s.nvidia_gpus)) [
    | inl e ↦ rw e refl
    | inr e ↦ rw e refl
  ]

  has-mark_index :
      (s : Snapshot D) (found : Option ℤ) (e : Capability)
      → has (mark_index s found).capabilities e
        ≡ (has s.capabilities e || names_gpu s.nvidia_gpus found && place nvidia_dcgm == place e)
  has-mark_index s none e = grind arith
  has-mark_index s (some k) e = elim (Bool-cases (has_index k s.nvidia_gpus)) [
    | inl named ↦ rw named (has-with_cap s.capabilities nvidia_dcgm e)
    | inr other ↦ rw other (grind arith)
  ]

  gpus-mark_index :
      (s : Snapshot D) (found : Option ℤ) → (mark_index s found).nvidia_gpus ≡ s.nvidia_gpus
  gpus-mark_index s found = ap (λ (u : Snapshot D). u.nvidia_gpus) (mark_index-bits s found)

  has-collect_dcgm_lines :
      (s : Snapshot D) (rest : List Bytes) (e : Capability)
      → has (collect_dcgm_lines s rest).capabilities e
        ≡ (has s.capabilities e || any_line s.nvidia_gpus rest && place nvidia_dcgm == place e)
  unfolding collect_dcgm_lines
  has-collect_dcgm_lines s [] e = grind arith
  has-collect_dcgm_lines s (line ∷ rest) e =
      has-collect_dcgm_lines (mark_index s (scan_gpu_index line)) rest e
      ∙ ap
          (λ gpus.
            has (mark_index s (scan_gpu_index line)).capabilities e
            || any_line gpus rest && place nvidia_dcgm == place e)
          (gpus-mark_index s (scan_gpu_index line))
      ∙ rw (has-mark_index s (scan_gpu_index line) e) (grind arith)

  pub tm_collect_nvidia_dcgm-has :
      (host : Host) (output : Bytes) (s : Snapshot D) (e : Capability)
      → command_exists host (codes "dcgmi") ≡ true
      → host.popen (codes "dcgmi discovery -l 2>/dev/null") ≡ some output
      → has (tm_collect_nvidia_dcgm host s).capabilities e ≡ (
          has s.capabilities e
          || any_line s.nvidia_gpus (lines 512 output) && place nvidia_dcgm == place e)
  unfolding tm_collect_nvidia_dcgm
  tm_collect_nvidia_dcgm-has host output s e found opened =
      rw (found, opened, tm_collect_nvidia_dcgm) (has-collect_dcgm_lines s (lines 512 output) e)

  collect_dcgm_lines-bits :
      (s : Snapshot D) (rest : List Bytes)
      → collect_dcgm_lines s rest ≡ with_bits_of (collect_dcgm_lines s rest) s
  unfolding collect_dcgm_lines
  collect_dcgm_lines-bits s [] = refl
  collect_dcgm_lines-bits s (line ∷ rest) =
      collect_dcgm_lines-bits (mark_index s (scan_gpu_index line)) rest
      ∙ ap (with_bits_of (collect_dcgm_lines (mark_index s (scan_gpu_index line)) rest))
          (mark_index-bits s (scan_gpu_index line))

  pub tm_collect_nvidia_dcgm-bits :
      (host : Host) (s : Snapshot D)
      → tm_collect_nvidia_dcgm host s ≡ with_bits_of (tm_collect_nvidia_dcgm host s) s
  unfolding tm_collect_nvidia_dcgm
  tm_collect_nvidia_dcgm-bits host s = elim (Bool-cases (command_exists host (codes "dcgmi"))) [
    | inl found ↦ elim (Option-cases (host.popen (codes "dcgmi discovery -l 2>/dev/null"))) [
      | inl closed ↦ rw (found, closed, tm_collect_nvidia_dcgm) refl
      | inr (output, opened) ↦
          rw (found, opened, tm_collect_nvidia_dcgm) (collect_dcgm_lines-bits s (lines 512 output))
    ]
    | inr missing ↦ rw missing refl
  ]

  pub tm_collect_nvidia_dcgm-IsBounded :
      (host : Host) (s : Snapshot D) → IsBounded s → IsBounded (tm_collect_nvidia_dcgm host s)
  tm_collect_nvidia_dcgm-IsBounded host s h =
      subst IsBounded (sym (tm_collect_nvidia_dcgm-bits host s)) (IsBounded-capabilities s _ h)
