-- ===== src/Gpu.antt =====
-- src/gpu: the collectors that ask vendor libraries or their tools. A library is a parameter of the
-- model: a record with what each of its functions answers. A function that dlsym does not find is
-- `none`, and so a call of it without a test is a fault.
pub mod Nvidia
pub mod Cuda
pub mod Dcgm
pub mod Amd
use thermal_observatory.Base.{
  Bool, true, false, ℕ, zero, suc, ◌≡◌, refl, subst, inl, inr, Option, Option-cases, none, some,
  some-injective, List, [], ◌∷◌, Bytes, ◌>>=◌, if◌then◌else◌,
}
use thermal_observatory.Base.Int.{ℤ}

-- NVML. The inner `none` of an answer is any result but NVML_SUCCESS.
pub record Nvml : Type 0 where
  -- `nvmlInit() == NVML_SUCCESS`
  pub init : Option Bool
  -- whether `nvmlShutdown` is there
  pub shutdown : Bool
  pub count : Option (Option ℕ)
  -- the handle of the device with an index
  pub handle : Option (ℕ → Option ℕ)
  -- the text in a zeroed buffer of a length after the call
  pub name : Option (ℕ → ℕ → Bytes)
  pub uuid : Option (ℕ → ℕ → Bytes)
  pub temperature : Option (ℕ → ℕ → Option ℕ)
  pub power_usage : Option (ℕ → Option ℕ)
  pub power_limit : Option (ℕ → Option ℕ)
  pub clock : Option (ℕ → ℕ → Option ℕ)
  -- the two rates, of the GPU and of its memory
  pub utilization : Option (ℕ → Option (ℕ × ℕ))
  pub throttle_reasons : Option (ℕ → Option ℕ)
  -- the field `busId`
  pub bus_id : Option (ℕ → Option Bytes)

-- The fields of `cudaDeviceProp` that are read.
pub record CudaDevice : Type 0 where
  pub major : ℤ
  pub minor : ℤ
  pub multiprocessors : ℤ
  pub total_memory : ℕ
  pub pci_domain : ℤ
  pub pci_bus : ℤ
  pub pci_device : ℤ

-- The CUDA runtime. A version is what the variable, 0 before, holds after the call.
pub record CudaRuntime : Type 0 where
  pub count : Option (Option ℤ)
  pub properties : Option (ℕ → Option CudaDevice)
  pub driver_version : Option ℤ
  pub runtime_version : Option ℤ

-- ROCm SMI.
pub record Rsmi : Type 0 where
  -- `rsmi_init(0) == RSMI_STATUS_SUCCESS`
  pub init : Option Bool
  -- whether `rsmi_shut_down` is there
  pub shut_down : Bool
  pub count : Option (Option ℕ)
  pub name : Option (ℕ → ℕ → Bytes)
  -- the temperature of a device, by its type
  pub temperature : Option (ℕ → ℕ → Option ℤ)
  pub power_average : Option (ℕ → Option ℕ)
  pub power_cap : Option (ℕ → Option ℕ)

-- `dlopen`, by path.
pub record Libraries : Type 0 where
  pub nvml : Bytes → Option Nvml
  pub cuda : Bytes → Option CudaRuntime
  pub rsmi : Bytes → Option Rsmi

-- `for (i = 0; paths[i] != NULL; ++i) { handle = dlopen(paths[i]); if (handle) break; }`
unfoldable pub open_first {ℓ} : {L : Type ℓ} → (Bytes → Option L) → List Bytes → Option L
open_first dlopen [] = none
open_first dlopen (path ∷ paths) = elim (dlopen path) [
  | some library ↦ some library
  | none ↦ open_first dlopen paths
]

-- The numbers from `i` on, `n` of them: the values of a loop's counter.
unfoldable pub count_from : ℕ → ℕ → List ℕ
count_from i zero = []
count_from i (suc n) = i ∷ count_from (suc i) n

-- A field that keeps its value where the call does not succeed.
abbrev pub answer_or {ℓ κ} : {A : Type ℓ} {B : Type κ} → B → (A → B) → Option A → B
answer_or kept f none = kept
answer_or kept f (some a) = f a

-- Whether a symbol was found.
abbrev pub is_found {ℓ} : {A : Type ℓ} → Option A → Bool
is_found none = false
is_found (some a) = true

-- What holds of every library holds of the one that is opened.
pub open_first-opened {ℓ κ} :
    {L : Type ℓ} (P : L → Type κ) (dlopen : Bytes → Option L)
    → ((path : Bytes) (library : L) → dlopen path ≡ some library → P library)
    → (paths : List Bytes) (library : L) → open_first dlopen paths ≡ some library
    → P library
unfolding open_first
open_first-opened P dlopen h [] library e = cc
open_first-opened P dlopen h (path ∷ paths) library e = elim (Option-cases (dlopen path)) [
  | inl closed ↦ open_first-opened P dlopen h paths library (rw (closed, open_first) at e)
  | inr (found, opened) ↦
      subst P (some-injective _ _ (rw (opened, open_first) at e)) (h path found opened)
]

-- Where a symbol was found, or has to be.
abbrev pub IsThere {ℓ} : {A : Type ℓ} → Option A → Type ℓ
IsThere {A} o = (a : A) × (o ≡ some a)

pub is_found-IsThere {ℓ} : {A : Type ℓ} (o : Option A) → is_found o ≡ true → IsThere o
is_found-IsThere none h = cc
is_found-IsThere (some a) h = (a, refl)

-- A chain of steps has a result where each of them has.
pub bind-IsThere {ℓ κ} :
    {A : Type ℓ} {B : Type κ} {o : Option A} {f : A → Option B}
    → IsThere o
    → ((a : A) → IsThere (f a))
    → IsThere (o >>= f)
bind-IsThere {f = f} (a, e) g = let (b, e') = g a in (b, rw e e')

pub if-IsThere {ℓ} :
    {A : Type ℓ} {o r : Option A} (b : Bool) → IsThere o → IsThere r → IsThere (if b then o else r)
if-IsThere true h k = h
if-IsThere false h k = k
