-- ===== src/Gpu/Cuda/Kept.antt =====
-- What `tm_collect_nvidia_cuda` leaves as it was.
use thermal_observatory.Base.{
  ℕ, zero, suc, Bool-cases, ◌&&◌, ◌≡◌, refl, ap, sym, ◌∙◌, subst, inl, inr, Option, Option-cases,
  none, some, some-injective, List, [], ◌∷◌, map, Bytes, >>=-eq-some, All, length, ◌≤◌, ◌↔◌, arith,
}
use thermal_observatory.Base.Int.{ℤ, pos, negsuc, ltb_ℤ}
use thermal_observatory.Gpu.{
  CudaRuntime, CudaDevice, IsThere, is_found-IsThere, is_found, open_first,
}
use thermal_observatory.Gpu.Cuda.{
  cuda_paths, load_cuda_runtime, with_cuda, update_at, match_by_pci, set_matched,
  collect_cuda_device, collect_cuda_devices, mark_cuda, collect_counted_cuda,
  tm_collect_nvidia_cuda,
}
use thermal_observatory.Snapshot.{NvidiaGpu, Snapshot, max_nvidia_gpus}
use thermal_observatory.Snapshot.Bounds.{IsBounded, FitsArray, NvidiaFits}

-- The functions that are asked for are there.
pub load_cuda_runtime-found :
    (dlopen : Bytes → Option CudaRuntime) (lib : CudaRuntime)
    → load_cuda_runtime dlopen ≡ some lib
    → IsThere lib.count × IsThere lib.properties
unfolding load_cuda_runtime
load_cuda_runtime-found dlopen lib h =
    let (found, opened, e) = >>=-eq-some (open_first dlopen cuda_paths) _ h in
    elim (Bool-cases (is_found found.count && is_found found.properties)) [
      | inl usable ↦
          subst (λ (l : CudaRuntime). IsThere l.count × IsThere l.properties)
            (some-injective _ _ (rw usable at e))
            (
              is_found-IsThere found.count (grind (arith, usable)),
              is_found-IsThere found.properties (grind (arith, usable)),
            )
      | inr missing ↦ cc (rw missing at e)
    ]

module _ {ℓ} {D : Type ℓ} where
  -- A GPU without what CUDA says of it.
  abbrev pub without_cuda : NvidiaGpu D → NvidiaGpu D
  without_cuda gpu = record gpu {
    cuda_ordinal = negsuc 0;
    cuda_compute_major = pos 0;
    cuda_compute_minor = pos 0;
    cuda_multiprocessors = pos 0;
    cuda_driver_version = pos 0;
    cuda_runtime_version = pos 0;
    cuda_total_memory_bytes = 0;
  }

  -- A snapshot without what CUDA says of its GPUs, and without the bits.
  abbrev pub apart_from_cuda : Snapshot D → Snapshot D
  apart_from_cuda snap = record snap {
    capabilities = 0;
    nvidia_gpus = map without_cuda snap.nvidia_gpus;
  }

  update_at-without_cuda :
      (i : ℕ) (f : NvidiaGpu D → NvidiaGpu D)
      → ((gpu : NvidiaGpu D) → without_cuda (f gpu) ≡ without_cuda gpu)
      → (gpus : List (NvidiaGpu D)) → map without_cuda (update_at i f gpus) ≡ map without_cuda gpus
  unfolding update_at
  update_at-without_cuda i f keeps [] = refl
  update_at-without_cuda zero f keeps (gpu ∷ gpus) = ap (λ g. g ∷ map without_cuda gpus) (keeps gpu)
  update_at-without_cuda (suc i) f keeps (gpu ∷ gpus) =
      ap (◌∷◌ (without_cuda gpu)) (update_at-without_cuda i f keeps gpus)

  set_matched-apart :
      (s : Snapshot D) (f : NvidiaGpu D → NvidiaGpu D) (found : Option ℕ)
      → ((gpu : NvidiaGpu D) → without_cuda (f gpu) ≡ without_cuda gpu)
      → apart_from_cuda (set_matched s f found) ≡ apart_from_cuda s
  set_matched-apart s f none keeps = refl
  set_matched-apart s f (some i) keeps =
      ap (λ gpus. record s { capabilities = 0; nvidia_gpus = gpus })
        (update_at-without_cuda i f keeps s.nvidia_gpus)

  collect_cuda_device-apart :
      (driver runtime : ℤ) (ordinal : ℕ) (prop : Option CudaDevice) (s : Snapshot D)
      → apart_from_cuda (collect_cuda_device driver runtime ordinal prop s) ≡ apart_from_cuda s
  unfolding collect_cuda_device with_cuda
  collect_cuda_device-apart driver runtime ordinal none s = refl
  collect_cuda_device-apart driver runtime ordinal (some prop) s =
      set_matched-apart s (with_cuda ordinal driver runtime prop)
        (match_by_pci s prop.pci_domain prop.pci_bus prop.pci_device) (λ gpu. refl)

  collect_cuda_devices-apart :
      (driver runtime : ℤ) (properties : ℕ → Option CudaDevice) (ordinals : List ℕ)
      → (s : Snapshot D)
      → apart_from_cuda (collect_cuda_devices driver runtime properties ordinals s)
        ≡ apart_from_cuda s
  unfolding collect_cuda_devices
  collect_cuda_devices-apart driver runtime properties [] s = refl
  collect_cuda_devices-apart driver runtime properties (ordinal ∷ ordinals) s =
      collect_cuda_devices-apart driver runtime properties ordinals
        (collect_cuda_device driver runtime ordinal (properties ordinal) s)
      ∙ collect_cuda_device-apart driver runtime ordinal (properties ordinal) s

  mark_cuda-apart :
      (count : ℤ) (s : Snapshot D) → apart_from_cuda (mark_cuda count s) ≡ apart_from_cuda s
  unfolding mark_cuda
  mark_cuda-apart count s = elim (Bool-cases (ltb_ℤ (pos 0) count)) [
    | inl e ↦ rw e refl
    | inr e ↦ rw e refl
  ]

  collect_counted_cuda-apart :
      (lib : CudaRuntime) (properties : ℕ → Option CudaDevice) (s : Snapshot D)
      → (counted : Option ℤ)
      → apart_from_cuda (collect_counted_cuda lib properties s counted) ≡ apart_from_cuda s
  collect_counted_cuda-apart lib properties s none = refl
  collect_counted_cuda-apart lib properties s (some count) =
      mark_cuda-apart count _ ∙ collect_cuda_devices-apart _ _ properties _ s

  -- Whatever the runtime answers, and whether it is there or not: the collector has a result, and in
  -- that nothing but the CUDA fields of the NVIDIA GPUs and the capability bits differs from the
  -- snapshot before, in particular not the number and the order of the GPUs.
  pub tm_collect_nvidia_cuda-apart :
      (dlopen : Bytes → Option CudaRuntime) (s : Snapshot D)
      → (t : Snapshot D) × (tm_collect_nvidia_cuda dlopen s ≡ some t)
        × (apart_from_cuda t ≡ apart_from_cuda s)
  unfolding tm_collect_nvidia_cuda
  tm_collect_nvidia_cuda-apart dlopen s = elim (Option-cases (load_cuda_runtime dlopen)) [
    | inl absent ↦ (s, rw absent refl, refl)
    | inr (lib, loaded) ↦
        let ((counted, c), (properties, p)) = load_cuda_runtime-found dlopen lib loaded in
        (
          collect_counted_cuda lib properties s counted,
          rw loaded (simp (c, p)),
          collect_counted_cuda-apart lib properties s counted,
        )
  ]

  NvidiaFits-without_cuda :
      (gpus : List (NvidiaGpu D)) → All NvidiaFits (map without_cuda gpus) ≡ All NvidiaFits gpus
  NvidiaFits-without_cuda [] = refl
  NvidiaFits-without_cuda (gpu ∷ gpus) = ap (λ T. NvidiaFits gpu × T) (NvidiaFits-without_cuda gpus)

  length-apart : (gpus : List (NvidiaGpu D)) → length (map without_cuda gpus) ≡ length gpus
  length-apart [] = refl
  length-apart (gpu ∷ gpus) = ap suc (length-apart gpus)

  NvidiaFits-apart :
      (gpus : List (NvidiaGpu D))
      → FitsArray max_nvidia_gpus NvidiaFits (map without_cuda gpus)
        ↔ FitsArray max_nvidia_gpus NvidiaFits gpus
  NvidiaFits-apart gpus = (
    (λ h. record {
      count = subst (λ n. n ≤ max_nvidia_gpus) (length-apart gpus) h.count;
      each = subst (λ T. T) (NvidiaFits-without_cuda gpus) h.each;
    }),
    (λ h. record {
      count = subst (λ n. n ≤ max_nvidia_gpus) (sym (length-apart gpus)) h.count;
      each = subst (λ T. T) (sym (NvidiaFits-without_cuda gpus)) h.each;
    }),
  )

  apart-IsBounded : (s : Snapshot D) → IsBounded (apart_from_cuda s) ↔ IsBounded s
  apart-IsBounded s = (
    (λ h. ground (arith, (NvidiaFits-apart s.nvidia_gpus).0 h.nvidia_fit)),
    (λ h. ground (arith, (NvidiaFits-apart s.nvidia_gpus).1 h.nvidia_fit)),
  )

  pub tm_collect_nvidia_cuda-IsBounded :
      (dlopen : Bytes → Option CudaRuntime) (s t : Snapshot D)
      → IsBounded s
      → tm_collect_nvidia_cuda dlopen s ≡ some t
      → IsBounded t
  tm_collect_nvidia_cuda-IsBounded dlopen s t h e =
      let (u, e1, same) = tm_collect_nvidia_cuda-apart dlopen s in
      let kept : apart_from_cuda t ≡ apart_from_cuda s =
        subst (λ v. apart_from_cuda v ≡ apart_from_cuda s) (some-injective _ _ (sym e1 ∙ e)) same in
      (apart-IsBounded t).0 (subst IsBounded (sym kept) ((apart-IsBounded s).1 h))
