-- ===== src/Gpu/Dcgm.antt =====
-- src/gpu/nvidia_dcgm.c: `tm_collect_nvidia_dcgm` over the output of `dcgmi`.
pub mod Marks
pub mod Named
use thermal_observatory.Base.{
  ℕ, Bool, true, false, not, ◌||◌, ◌&&◌, Option, none, some, List, [], ◌∷◌, ◌==◌, if◌then◌else◌,
  Bytes, codes, ◌>>=◌,
}
use thermal_observatory.Base.Int.{ℤ, pos_part, neg_part}
use thermal_observatory.Libc.Lines.{lines}
use thermal_observatory.Libc.Scan.{strip_prefix, scan_long, to_int, take_until}
use thermal_observatory.Platform.{Host}
use thermal_observatory.Platform.Ipmi.{command_exists}
use thermal_observatory.Snapshot.{NvidiaGpu, Snapshot}
use thermal_observatory.Snapshot.Capability.{with_cap, nvidia_dcgm}

-- `sscanf(line, "GPU %d", &gpu_index) == 1`
unfoldable pub scan_gpu_index : Bytes → Option ℤ
scan_gpu_index line = do
  rest ← strip_prefix (codes "GPU") (take_until 0 line)
  n ← scan_long rest
  some (to_int n)

abbrev pub equal_ℤ : ℤ → ℤ → Bool
equal_ℤ a b = pos_part a == pos_part b && neg_part a == neg_part b

module _ {ℓ} {D : Type ℓ} where
  -- the inner loop, up to its `break`
  unfoldable pub has_index : ℤ → List (NvidiaGpu D) → Bool
  has_index k [] = false
  has_index k (gpu ∷ gpus) = let later = has_index k gpus in equal_ℤ gpu.gpu_index k || later

  abbrev mark_index : Snapshot D → Option ℤ → Snapshot D
  mark_index snap none = snap
  mark_index snap (some k) =
      if has_index k snap.nvidia_gpus
      then record snap { capabilities = with_cap snap.capabilities nvidia_dcgm }
      else snap

  unfoldable pub collect_dcgm_lines : Snapshot D → List Bytes → Snapshot D
  collect_dcgm_lines snap [] = snap
  collect_dcgm_lines snap (line ∷ rest) =
      collect_dcgm_lines (mark_index snap (scan_gpu_index line)) rest

  unfoldable pub tm_collect_nvidia_dcgm : Host → Snapshot D → Snapshot D
  tm_collect_nvidia_dcgm host snap =
      if not (command_exists host (codes "dcgmi"))
      then snap
      else elim (host.popen (codes "dcgmi discovery -l 2>/dev/null")) [
        | none ↦ snap
        | some output ↦ collect_dcgm_lines snap (lines 512 output)
      ]
