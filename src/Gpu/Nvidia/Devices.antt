-- ===== src/Gpu/Nvidia/Devices.antt =====
-- Which GPUs `tm_collect_nvidia` records.
use thermal_observatory.Base.{
  ℕ, Bool-cases, true, ◌≡◌, refl, sym, ap, ◌∙◌, inl, inr, some-injective, Option, none, some, Bytes,
  ◌>>=◌, >>=-eq-some, ltb, length,
}
use thermal_observatory.Base.Collect.{
  Collects, all_found, add_found, fill, while_room-fill, reads_always,
}
use thermal_observatory.Base.Loops.{while_room}
use thermal_observatory.Double.{Double}
use thermal_observatory.Gpu.{Nvml, count_from}
use thermal_observatory.Gpu.Nvidia.{
  load_nvml, read_nvidia, nvidia_room, add_nvidia, add_handle, collect_nvidia, mark_nvidia,
  collect_counted, collect_nvml, tm_collect_nvidia,
}
use thermal_observatory.Snapshot.{NvidiaGpu, Snapshot, max_nvidia_gpus}

module _ {ℓ} {D : Type ℓ} ⦃d : Double D⦄ (lib : Nvml) where
  -- The GPU with an index, if NVML gives a handle for it.
  abbrev pub handled : ℕ → Option ℕ → Option (Option (NvidiaGpu D))
  handled i none = some none
  handled i (some dev) = do gpu ← read_nvidia lib i dev; some (some gpu)

  abbrev pub device_at : ℕ → Option (Option (NvidiaGpu D))
  device_at i = do handle ← lib.handle; handled i (handle i)

  add_handle-handled :
      (i : ℕ) (s : Snapshot D) (handle : Option ℕ)
      → add_handle lib i s handle
        ≡ (handled i handle >>= λ found. some (add_found (add_nvidia lib) s found))
  add_handle-handled i s none = refl
  add_handle-handled i s (some dev) = reads_always (add_nvidia lib) s (read_nvidia lib i dev)

  handle-reads :
      (o : Option (ℕ → Option ℕ)) (i : ℕ) (s : Snapshot D)
      → (o >>= λ handle. add_handle lib i s (handle i)) ≡ (
          (o >>= λ handle. handled i (handle i)) >>= λ found.
          some (add_found (add_nvidia lib) s found))
  handle-reads none i s = refl
  handle-reads (some handle) i s = add_handle-handled i s (handle i)

  devices-Collects :
      Collects
        (λ (s : Snapshot D). s.nvidia_gpus)
        max_nvidia_gpus
        (add_nvidia lib)
        device_at
        (nvidia_room lib)
        (collect_nvidia lib)
  unfolding nvidia_room collect_nvidia
  devices-Collects = record {
    has_room = λ s. refl;
    appends = λ s gpu. refl;
    reads = λ i s. handle-reads lib.handle i s;
  }

  gpus-mark_nvidia : (s : Snapshot D) → (mark_nvidia lib s).nvidia_gpus ≡ s.nvidia_gpus
  unfolding mark_nvidia
  gpus-mark_nvidia s = elim (Bool-cases (ltb 0 (length s.nvidia_gpus))) [
    | inl e ↦ rw e refl
    | inr e ↦ rw e refl
  ]

  gpus-collect_counted :
      (s t : Snapshot D) (count : ℕ)
      → collect_counted lib s (some count) ≡ some t
      → t.nvidia_gpus
        ≡ fill max_nvidia_gpus s.nvidia_gpus (all_found device_at (count_from 0 count))
  gpus-collect_counted s t count h =
      let (after, looped, e) =
        >>=-eq-some (while_room (nvidia_room lib) (collect_nvidia lib) (count_from 0 count) s) _
          h in
      ap (λ (u : Snapshot D). u.nvidia_gpus) (sym (some-injective _ _ e))
      ∙ gpus-mark_nvidia after
      ∙ while_room-fill devices-Collects (count_from 0 count) s after looped

module _ {ℓ} {D : Type ℓ} ⦃d : Double D⦄ where
  -- Where an NVML library loads, starts and counts `count` devices, and the collector has a result:
  -- the NVIDIA GPUs in it are those before and, in the order of their indices, the devices below
  -- `count` that NVML gives a handle for, the first ones as far as the array has room.
  pub tm_collect_nvidia-fill :
      (dlopen : Bytes → Option Nvml) (lib : Nvml) (count : ℕ) (s t : Snapshot D)
      → load_nvml dlopen ≡ some lib
      → lib.init ≡ some true
      → lib.count ≡ some (some count)
      → tm_collect_nvidia dlopen s ≡ some t
      → t.nvidia_gpus
        ≡ fill max_nvidia_gpus s.nvidia_gpus (all_found (device_at lib) (count_from 0 count))
  unfolding tm_collect_nvidia collect_nvml nvidia_room collect_nvidia mark_nvidia read_nvidia
  tm_collect_nvidia-fill dlopen lib count s t loaded started counted h =
      gpus-collect_counted lib s t count (rw (started, counted) at (rw loaded at h))
