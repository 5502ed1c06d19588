-- ===== src/Gpu/Cuda/First.antt =====
-- `match_by_pci` and the writes to `nvidia_gpus[index]`, against a description without an index.
use thermal_observatory.Base.{
  ℕ, suc, Bool, Bool-cases, ◌≡◌, refl, ap, ◌∙◌, inl, inr, Option, none, some, List, [], ◌∷◌,
  if◌then◌else◌, Bytes,
}
use thermal_observatory.Base.Int.{ℤ}
use thermal_observatory.Gpu.{CudaDevice}
use thermal_observatory.Gpu.Cuda.{
  wanted_id, is_match, match_from, match_by_pci, with_cuda, update_at, set_matched,
  collect_cuda_device, collect_cuda_devices,
}
use thermal_observatory.Snapshot.{NvidiaGpu, Snapshot}

-- The first element that passes the test is changed.
abbrev pub update_first {ℓ} : {A : Type ℓ} → (A → Bool) → (A → A) → List A → List A
update_first p f [] = []
update_first p f (x ∷ xs) = if p x then f x ∷ xs else x ∷ update_first p f xs

-- A place in a list that has one more element in front.
abbrev shifted : Option ℕ → Option ℕ
shifted none = none
shifted (some i) = some (suc i)

module _ {ℓ} {D : Type ℓ} where
  -- What each device with properties does to the GPUs, in the order of the ordinals.
  abbrev pub correlate :
      ℤ → ℤ → (ℕ → Option CudaDevice) → List ℕ → List (NvidiaGpu D) → List (NvidiaGpu D)
  correlate driver runtime properties [] gpus = gpus
  correlate driver runtime properties (ordinal ∷ ordinals) gpus =
      correlate driver runtime properties ordinals (elim (properties ordinal) [
        | none ↦ gpus
        | some prop ↦
            update_first (is_match (wanted_id prop.pci_domain prop.pci_bus prop.pci_device))
              (with_cuda ordinal driver runtime prop) gpus
      ])

  abbrev updated_at :
      (NvidiaGpu D → NvidiaGpu D) → List (NvidiaGpu D) → Option ℕ → List (NvidiaGpu D)
  updated_at f gpus none = gpus
  updated_at f gpus (some i) = update_at i f gpus

  -- Where the loop starts counting does not matter.
  match_from-shifted :
      (wanted : Bytes) (k : ℕ) (gpus : List (NvidiaGpu D))
      → match_from wanted (suc k) gpus ≡ shifted (match_from wanted k gpus)
  unfolding match_from
  match_from-shifted wanted k [] = refl
  match_from-shifted wanted k (gpu ∷ gpus) = elim (Bool-cases (is_match wanted gpu)) [
    | inl same ↦ rw same refl
    | inr other ↦ rw other (match_from-shifted wanted (suc k) gpus)
  ]

  updated_at-shifted :
      (f : NvidiaGpu D → NvidiaGpu D) (gpu : NvidiaGpu D) (gpus : List (NvidiaGpu D))
      → (found : Option ℕ)
      → updated_at f (gpu ∷ gpus) (shifted found) ≡ gpu ∷ updated_at f gpus found
  unfolding update_at
  updated_at-shifted f gpu gpus none = refl
  updated_at-shifted f gpu gpus (some i) = refl

  updated_at-first :
      (wanted : Bytes) (f : NvidiaGpu D → NvidiaGpu D) (gpus : List (NvidiaGpu D))
      → updated_at f gpus (match_from wanted 0 gpus) ≡ update_first (is_match wanted) f gpus
  unfolding match_from update_at
  updated_at-first wanted f [] = refl
  updated_at-first wanted f (gpu ∷ gpus) = elim (Bool-cases (is_match wanted gpu)) [
    | inl same ↦ rw same refl
    | inr other ↦ rw other (
        ap (updated_at f (gpu ∷ gpus)) (match_from-shifted wanted 0 gpus)
        ∙ updated_at-shifted f gpu gpus (match_from wanted 0 gpus)
        ∙ ap (◌∷◌ gpu) (updated_at-first wanted f gpus))
  ]

  gpus-set_matched :
      (s : Snapshot D) (f : NvidiaGpu D → NvidiaGpu D) (found : Option ℕ)
      → (set_matched s f found).nvidia_gpus ≡ updated_at f s.nvidia_gpus found
  gpus-set_matched s f none = refl
  gpus-set_matched s f (some i) = refl

  gpus-collect_cuda_device :
      (driver runtime : ℤ) (ordinal : ℕ) (prop : Option CudaDevice) (s : Snapshot D)
      → (collect_cuda_device driver runtime ordinal prop s).nvidia_gpus ≡ elim prop [
        | none ↦ s.nvidia_gpus
        | some prop ↦
            update_first
              (is_match (wanted_id prop.pci_domain prop.pci_bus prop.pci_device))
              (with_cuda ordinal driver runtime prop)
              s.nvidia_gpus
      ]
  unfolding collect_cuda_device match_by_pci
  gpus-collect_cuda_device driver runtime ordinal none s = refl
  gpus-collect_cuda_device driver runtime ordinal (some prop) s =
      gpus-set_matched s _ (match_by_pci s prop.pci_domain prop.pci_bus prop.pci_device)
      ∙ updated_at-first _ _ s.nvidia_gpus

  -- For every list of ordinals: the GPUs that the loop over the devices leaves are those that come
  -- of changing, for one device with properties after the other, the first GPU whose PCI bus id is
  -- not empty and equal to the device's.
  pub collect_cuda_devices-correlate :
      (driver runtime : ℤ) (properties : ℕ → Option CudaDevice) (ordinals : List ℕ)
      → (s : Snapshot D)
      → (collect_cuda_devices driver runtime properties ordinals s).nvidia_gpus
        ≡ correlate driver runtime properties ordinals s.nvidia_gpus
  unfolding collect_cuda_devices
  collect_cuda_devices-correlate driver runtime properties [] s = refl
  collect_cuda_devices-correlate driver runtime properties (ordinal ∷ ordinals) s =
      collect_cuda_devices-correlate driver runtime properties ordinals
        (collect_cuda_device driver runtime ordinal (properties ordinal) s)
      ∙ ap (correlate driver runtime properties ordinals)
          (gpus-collect_cuda_device driver runtime ordinal (properties ordinal) s)
