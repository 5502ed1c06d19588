-- ===== src/Gpu/Cuda/Formats.antt =====
-- The PCI bus ids that `match_by_pci` looks for, beside those that NVML gives.
use thermal_observatory.Base.{
  ℕ, suc, ◌%◌, ◌^◌, ◌+◌, ◌<◌, Bool, Bool-cases, true, false, ◌≡◌, refl, ap, ◌∙◌, inl, inr, Option,
  Option-cases, some, List, [], ◌∷◌, ◌++◌, Bytes, codes, equal, length, length-append, take_self,
  All, arith, ◌==◌,
}
use thermal_observatory.Base.Int.{ℤ, pos}
use thermal_observatory.Gpu.{CudaDevice}
use thermal_observatory.Gpu.Cuda.{to_unsigned, wanted_id, is_match, with_cuda, collect_cuda_devices}
use thermal_observatory.Gpu.Cuda.First.{update_first, correlate, collect_cuda_devices-correlate}
use thermal_observatory.Libc.Print.{hexadecimal, zero_padded}
use thermal_observatory.Libc.Print.Lengths.{pow16, length-hexadecimal, length-zero_padded}
use thermal_observatory.Snapshot.{NvidiaGpu, Snapshot}

-- A device whose PCI address has 16 bits for the domain and 8 for the bus and the device.
pub record HasAddress (prop : CudaDevice) : Type 0 where
  pub domain : ℕ
  pub bus : ℕ
  pub device : ℕ
  pub is_domain : prop.pci_domain ≡ pos domain
  pub is_bus : prop.pci_bus ≡ pos bus
  pub is_device : prop.pci_device ≡ pos device
  pub small_domain : domain < 65_536
  pub small_bus : bus < 256
  pub small_device : device < 256

field-length :
    (k n : ℕ)
    → n < pow16 (suc k)
    → n < 2 ^ 32
    → length (zero_padded (suc k) (hexadecimal (to_unsigned (pos n)))) ≡ suc k
unfolding to_unsigned
field-length k n h small =
    let same : n % 2 ^ 32 ≡ n = omega arith in
    rw same (length-zero_padded (suc k) (hexadecimal n) (length-hexadecimal n k h))

length-parts :
    (a b c : Bytes)
    → length (a ++ (codes ":" ++ (b ++ (codes ":" ++ (c ++ codes ".0")))))
      ≡ length a + length b + length c + 4
length-parts a b c = omega (
  arith,
  length-append a (codes ":" ++ (b ++ (codes ":" ++ (c ++ codes ".0")))),
  length-append b (codes ":" ++ (c ++ codes ".0")),
  length-append c (codes ".0"),
)

length-wanted_id :
    (domain bus device : ℕ)
    → domain < 65_536
    → bus < 256
    → device < 256
    → length (wanted_id (pos domain) (pos bus) (pos device)) ≡ 12
unfolding wanted_id
length-wanted_id domain bus device h1 h2 h3 =
    let a = field-length 3 domain (omega arith) (omega arith) in
    let b = field-length 1 bus (omega arith) (omega arith) in
    let c = field-length 1 device (omega arith) (omega arith) in
    let whole =
      length-parts (zero_padded 4 (hexadecimal (to_unsigned (pos domain))))
        (zero_padded 2 (hexadecimal (to_unsigned (pos bus))))
        (zero_padded 2 (hexadecimal (to_unsigned (pos device)))) in
    ap length (take_self 31 _ (omega arith)) ∙ omega arith

-- Equal texts have equal lengths.
equal-length : (a b : Bytes) → equal a b ≡ true → length a ≡ length b
unfolding equal
equal-length [] [] h = refl
equal-length [] (y ∷ b) h = cc
equal-length (x ∷ a) [] h = cc
equal-length (x ∷ a) (y ∷ b) h = elim (Bool-cases (x == y)) [
  | inl same ↦ ap suc (equal-length a b (rw same at h))
  | inr other ↦ cc (rw other at h)
]

module _ {ℓ} {D : Type ℓ} where
  -- A bus id in NVML's form, with eight digits for the domain.
  abbrev pub IsLong : NvidiaGpu D → Type 0
  IsLong gpu = length gpu.pci_bus_id ≡ 16

  long-other :
      (prop : CudaDevice) (gpu : NvidiaGpu D)
      → HasAddress prop
      → IsLong gpu
      → is_match (wanted_id prop.pci_domain prop.pci_bus prop.pci_device) gpu ≡ false
  long-other prop gpu h long =
      let size =
        length-wanted_id h.domain h.bus h.device h.small_domain h.small_bus h.small_device in
      elim (Bool-cases
        (equal gpu.pci_bus_id (wanted_id (pos h.domain) (pos h.bus) (pos h.device)))) [
          | inl same ↦ absurd (let e = equal-length _ _ same in omega arith)
          | inr other ↦ rw (h.is_domain, h.is_bus, h.is_device) (grind (arith, other))
        ]

  update_first-none :
      (p : NvidiaGpu D → Bool) (f : NvidiaGpu D → NvidiaGpu D) (gpus : List (NvidiaGpu D))
      → All (λ gpu. p gpu ≡ false) gpus
      → update_first p f gpus ≡ gpus
  update_first-none p f [] h = refl
  update_first-none p f (gpu ∷ gpus) (here, later) =
      rw here (ap (◌∷◌ gpu) (update_first-none p f gpus later))

  each_other :
      (prop : CudaDevice)
      → HasAddress prop
      → (gpus : List (NvidiaGpu D)) → All IsLong gpus
      → All
          (λ gpu. is_match (wanted_id prop.pci_domain prop.pci_bus prop.pci_device) gpu ≡ false)
          gpus
  each_other prop h [] long = tt
  each_other prop h (gpu ∷ gpus) (here, later) =
      (long-other prop gpu h here, each_other prop h gpus later)

  correlate-long :
      (driver runtime : ℤ) (properties : ℕ → Option CudaDevice)
      → ((ordinal : ℕ) (prop : CudaDevice) → properties ordinal ≡ some prop → HasAddress prop)
      → (ordinals : List ℕ) (gpus : List (NvidiaGpu D)) → All IsLong gpus
      → correlate driver runtime properties ordinals gpus ≡ gpus
  correlate-long driver runtime properties addressed [] gpus long = refl
  correlate-long driver runtime properties addressed (ordinal ∷ ordinals) gpus long =
      elim (Option-cases (properties ordinal)) [
        | inl missing ↦
            rw missing (correlate-long driver runtime properties addressed ordinals gpus long)
        | inr (prop, e) ↦ rw e (
            ap (correlate driver runtime properties ordinals) (
              update_first-none _ (with_cuda ordinal driver runtime prop) gpus
                (each_other prop (addressed ordinal prop e) gpus long))
            ∙ correlate-long driver runtime properties addressed ordinals gpus long)
      ]

  -- Where each device that CUDA describes has a PCI address of 16, 8 and 8 bits, and each NVIDIA GPU
  -- of the snapshot has a bus id of 16 bytes, as NVML writes it: the loop over the devices changes no
  -- GPU, whichever they are, since it looks for an id of 12 bytes.
  pub collect_cuda_devices-long :
      (driver runtime : ℤ) (properties : ℕ → Option CudaDevice) (ordinals : List ℕ)
      → (s : Snapshot D)
      → ((ordinal : ℕ) (prop : CudaDevice) → properties ordinal ≡ some prop → HasAddress prop)
      → All IsLong s.nvidia_gpus
      → (collect_cuda_devices driver runtime properties ordinals s).nvidia_gpus ≡ s.nvidia_gpus
  collect_cuda_devices-long driver runtime properties ordinals s addressed long =
      collect_cuda_devices-correlate driver runtime properties ordinals s
      ∙ correlate-long driver runtime properties addressed ordinals s.nvidia_gpus long
