-- ===== src/Gpu/Cuda.antt =====
-- src/gpu/gpu_nvidia_cuda.c: `load_cuda_runtime`, `match_by_pci` and `tm_collect_nvidia_cuda`.
pub mod Kept
pub mod First
pub mod Formats
use thermal_observatory.Base.{
  ℕ, zero, suc, ◌+◌, ◌-◌, ◌%◌, ◌^◌, Bool, true, false, not, ◌&&◌, Option, none, some, List, [], ◌∷◌,
  ◌++◌, ltb, if◌then◌else◌, Bytes, codes, equal, length, ◌>>=◌,
}
use thermal_observatory.Base.Int.{ℤ, pos, negsuc, pos_part, ltb_ℤ}
use thermal_observatory.Gpu.{CudaRuntime, CudaDevice, open_first, count_from, is_found, answer_or}
use thermal_observatory.Libc.Print.{hexadecimal, zero_padded}
use thermal_observatory.Platform.Paths.{snprintf}
use thermal_observatory.Snapshot.{NvidiaGpu, Snapshot}
use thermal_observatory.Snapshot.Capability.{with_cap, nvidia_cuda}

abbrev pub cuda_paths : List Bytes
cuda_paths =
    codes "libcudart.so" ∷ codes "libcudart.so.12" ∷ codes "/usr/local/cuda/lib64/libcudart.so" ∷ []

unfoldable pub load_cuda_runtime : (Bytes → Option CudaRuntime) → Option CudaRuntime
load_cuda_runtime dlopen = do
  lib ← open_first dlopen cuda_paths
  if is_found lib.count && is_found lib.properties then some lib else none

-- an `int` as "%x" reads it
unfoldable pub to_unsigned : ℤ → ℕ
to_unsigned (pos n) = n % 2 ^ 32
to_unsigned (negsuc n) = 2 ^ 32 - 1 - n % 2 ^ 32

-- `snprintf(wanted, sizeof(wanted), "%04x:%02x:%02x.0", domain, bus, device)`
unfoldable pub wanted_id : ℤ → ℤ → ℤ → Bytes
wanted_id domain bus device = snprintf 32 (
    zero_padded 4 (hexadecimal (to_unsigned domain))
    ++ (codes ":"
        ++ (zero_padded 2 (hexadecimal (to_unsigned bus))
            ++ (codes ":" ++ (zero_padded 2 (hexadecimal (to_unsigned device)) ++ codes ".0")))))

module _ {ℓ} {D : Type ℓ} where
  -- `pci_bus_id[0] != '\0' && strcmp(pci_bus_id, wanted) == 0`
  abbrev pub is_match : Bytes → NvidiaGpu D → Bool
  is_match wanted gpu = ltb 0 (length gpu.pci_bus_id) && equal gpu.pci_bus_id wanted

  -- the loop from index `i` on; `none` is -1
  unfoldable pub match_from : Bytes → ℕ → List (NvidiaGpu D) → Option ℕ
  match_from wanted i [] = none
  match_from wanted i (gpu ∷ gpus) =
      let later = match_from wanted (suc i) gpus in if is_match wanted gpu then some i else later

  unfoldable pub match_by_pci : Snapshot D → ℤ → ℤ → ℤ → Option ℕ
  match_by_pci snap domain bus device = match_from (wanted_id domain bus device) 0 snap.nvidia_gpus

  -- what is written to the GPU with the matching id
  unfoldable pub with_cuda : ℕ → ℤ → ℤ → CudaDevice → NvidiaGpu D → NvidiaGpu D
  with_cuda ordinal driver runtime prop gpu = record gpu {
    cuda_ordinal = pos ordinal;
    cuda_compute_major = prop.major;
    cuda_compute_minor = prop.minor;
    cuda_multiprocessors = prop.multiprocessors;
    cuda_driver_version = driver;
    cuda_runtime_version = runtime;
    cuda_total_memory_bytes = prop.total_memory;
  }

  -- `nvidia_gpus[index] = …`
  unfoldable pub update_at :
      ℕ → (NvidiaGpu D → NvidiaGpu D) → List (NvidiaGpu D) → List (NvidiaGpu D)
  update_at i f [] = []
  update_at zero f (gpu ∷ gpus) = f gpu ∷ gpus
  update_at (suc i) f (gpu ∷ gpus) = gpu ∷ update_at i f gpus

  -- `continue` without a match
  abbrev set_matched : Snapshot D → (NvidiaGpu D → NvidiaGpu D) → Option ℕ → Snapshot D
  set_matched snap f none = snap
  set_matched snap f (some i) = record snap { nvidia_gpus = update_at i f snap.nvidia_gpus }

  -- `continue` without properties
  unfoldable pub collect_cuda_device : ℤ → ℤ → ℕ → Option CudaDevice → Snapshot D → Snapshot D
  collect_cuda_device driver runtime ordinal none snap = snap
  collect_cuda_device driver runtime ordinal (some prop) snap =
      set_matched snap (with_cuda ordinal driver runtime prop)
        (match_by_pci snap prop.pci_domain prop.pci_bus prop.pci_device)

  unfoldable pub collect_cuda_devices :
      ℤ → ℤ → (ℕ → Option CudaDevice) → List ℕ → Snapshot D → Snapshot D
  collect_cuda_devices driver runtime properties [] snap = snap
  collect_cuda_devices driver runtime properties (ordinal ∷ ordinals) snap =
      collect_cuda_devices driver runtime properties ordinals
        (collect_cuda_device driver runtime ordinal (properties ordinal) snap)

  unfoldable pub mark_cuda : ℤ → Snapshot D → Snapshot D
  mark_cuda count snap =
      if ltb_ℤ (pos 0) count
      then record snap { capabilities = with_cap snap.capabilities nvidia_cuda }
      else snap

  -- what follows a count
  abbrev collect_counted_cuda :
      CudaRuntime → (ℕ → Option CudaDevice) → Snapshot D → Option ℤ → Snapshot D
  collect_counted_cuda lib properties snap none = snap
  collect_counted_cuda lib properties snap (some count) =
      let driver = answer_or (pos 0) (λ n. n) lib.driver_version in
      let runtime = answer_or (pos 0) (λ n. n) lib.runtime_version in
      mark_cuda count
        (collect_cuda_devices driver runtime properties (count_from 0 (pos_part count)) snap)

  abbrev collect_loaded_cuda : Snapshot D → Option CudaRuntime → Option (Snapshot D)
  collect_loaded_cuda snap none = some snap
  collect_loaded_cuda snap (some lib) = do
    counted ← lib.count
    properties ← lib.properties
    some (collect_counted_cuda lib properties snap counted)

  unfoldable pub tm_collect_nvidia_cuda :
      (Bytes → Option CudaRuntime) → Snapshot D → Option (Snapshot D)
  tm_collect_nvidia_cuda dlopen snap = collect_loaded_cuda snap (load_cuda_runtime dlopen)
