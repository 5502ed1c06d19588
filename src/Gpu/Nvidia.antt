-- ===== src/Gpu/Nvidia.antt =====
-- src/gpu/gpu_nvidia.c: `load_nvml` and `tm_collect_nvidia`.
pub mod Bounds
pub mod Safe
pub mod Devices
use thermal_observatory.Base.{
  Bool-cases, inl, inr, subst, some-injective, ◌≡◌, >>=-eq-some, arith, ℕ, Bool, true, false, ◌&&◌,
  Option, none, some, List, [], ◌∷◌, ◌++◌, ltb, if◌then◌else◌, Bytes, codes, length, take, ◌>>=◌,
}
use thermal_observatory.Base.Int.{ℤ, pos, negsuc}
use thermal_observatory.Base.Loops.{while_room}
use thermal_observatory.Double.{Double, nought, milli, of_unsigned}
use thermal_observatory.Gpu.{
  Nvml, open_first, open_first-opened, count_from, answer_or, is_found, IsThere, is_found-IsThere,
}
use thermal_observatory.Libc.Scan.{to_int}
use thermal_observatory.Snapshot.{NvidiaGpu, Snapshot, max_nvidia_gpus}
use thermal_observatory.Snapshot.Capability.{with_cap, nvidia_nvml}

abbrev pub nvml_paths : List Bytes
nvml_paths =
    codes "libnvidia-ml.so.1"
    ∷ codes "libnvidia-ml.so"
    ∷ codes "/usr/local/cuda/lib64/libnvidia-ml.so.1"
    ∷ []

-- The library, if it has the three functions that are asked for.
unfoldable pub load_nvml : (Bytes → Option Nvml) → Option Nvml
load_nvml dlopen = do
  lib ← open_first dlopen nvml_paths
  if is_found lib.init && lib.shutdown && is_found lib.count then some lib else none

-- What holds of every NVML library that can be opened holds of the one that is used.
pub load_nvml-opened {κ} :
    (P : Nvml → Type κ) (dlopen : Bytes → Option Nvml)
    → ((path : Bytes) (lib : Nvml) → dlopen path ≡ some lib → P lib)
    → (lib : Nvml) → load_nvml dlopen ≡ some lib
    → P lib
unfolding load_nvml
load_nvml-opened P dlopen holds lib h =
    let (found, opened, e) = >>=-eq-some (open_first dlopen nvml_paths) _ h in
    elim (Bool-cases (is_found found.init && found.shutdown && is_found found.count)) [
      | inl usable ↦
          subst P (some-injective _ _ (rw usable at e))
            (open_first-opened P dlopen holds nvml_paths found opened)
      | inr missing ↦ cc (rw missing at e)
    ]

-- The functions that are asked for are there.
pub load_nvml-found :
    (dlopen : Bytes → Option Nvml) (lib : Nvml)
    → load_nvml dlopen ≡ some lib
    → IsThere lib.init × IsThere lib.count
unfolding load_nvml
load_nvml-found dlopen lib h =
    let (found, opened, e) = >>=-eq-some (open_first dlopen nvml_paths) _ h in
    elim (Bool-cases (is_found found.init && found.shutdown && is_found found.count)) [
      | inl usable ↦
          subst (λ (l : Nvml). IsThere l.init × IsThere l.count)
            (some-injective _ _ (rw usable at e))
            (
              is_found-IsThere found.init (grind (arith, usable)),
              is_found-IsThere found.count (grind (arith, usable)),
            )
      | inr missing ↦ cc (rw missing at e)
    ]

-- `p_nvmlDeviceGetPciInfo_v3 && p_nvmlDeviceGetPciInfo_v3(dev, &pci) == NVML_SUCCESS`
abbrev pub ask {ℓ κ} : {A : Type ℓ} {B : Type κ} → Option (A → Option B) → A → Option B
ask none a = none
ask (some f) a = f a

abbrev pub ask_clock : Option (ℕ → ℕ → Option ℕ) → ℕ → ℕ → Option ℕ
ask_clock none dev kind = none
ask_clock (some f) dev kind = f dev kind

module _ {ℓ} {D : Type ℓ} ⦃d : Double D⦄ (lib : Nvml) where
  -- The GPU with index `i` and handle `dev`. The functions that are called without a test must be
  -- there.
  unfoldable pub read_nvidia : ℕ → ℕ → Option (NvidiaGpu D)
  read_nvidia i dev = do
    name ← lib.name
    uuid ← lib.uuid
    temperature ← lib.temperature
    power_usage ← lib.power_usage
    power_limit ← lib.power_limit
    utilization ← lib.utilization
    throttle_reasons ← lib.throttle_reasons
    some (record {
      gpu_index = to_int (pos i);
      name = name dev 128;
      uuid = uuid dev 96;
      pci_bus_id = answer_or [] (take 31) (ask lib.bus_id dev);
      gpu_temp_c = answer_or nought of_unsigned (temperature dev 0);
      memory_temp_c = answer_or nought of_unsigned (temperature dev 2);
      power_draw_w = answer_or nought (λ n. milli (pos n)) (power_usage dev);
      power_limit_w = answer_or nought (λ n. milli (pos n)) (power_limit dev);
      sm_clock_mhz = answer_or 0 (λ n. n) (ask_clock lib.clock dev 1);
      mem_clock_mhz = answer_or 0 (λ n. n) (ask_clock lib.clock dev 2);
      gpu_util_pct = answer_or 0 (λ rates. rates.0) (utilization dev);
      mem_util_pct = answer_or 0 (λ rates. rates.1) (utilization dev);
      throttle_reasons = answer_or 0 (λ n. n) (throttle_reasons dev);
      cuda_ordinal = negsuc 0;
      cuda_compute_major = pos 0;
      cuda_compute_minor = pos 0;
      cuda_multiprocessors = pos 0;
      cuda_driver_version = pos 0;
      cuda_runtime_version = pos 0;
      cuda_total_memory_bytes = 0;
    })

  unfoldable pub nvidia_room : Snapshot D → Bool
  nvidia_room snap = ltb (length snap.nvidia_gpus) max_nvidia_gpus

  abbrev add_nvidia : Snapshot D → NvidiaGpu D → Snapshot D
  add_nvidia snap gpu = record snap { nvidia_gpus = snap.nvidia_gpus ++ gpu ∷ [] }

  -- `continue` without a handle
  abbrev add_handle : ℕ → Snapshot D → Option ℕ → Option (Snapshot D)
  add_handle i snap none = some snap
  add_handle i snap (some dev) = do gpu ← read_nvidia i dev; some (add_nvidia snap gpu)

  unfoldable pub collect_nvidia : ℕ → Snapshot D → Option (Snapshot D)
  collect_nvidia i snap = do handle ← lib.handle; add_handle i snap (handle i)

  unfoldable pub mark_nvidia : Snapshot D → Snapshot D
  mark_nvidia snap =
      if ltb 0 (length snap.nvidia_gpus)
      then record snap { capabilities = with_cap snap.capabilities nvidia_nvml }
      else snap

  -- what follows a successful `nvmlInit`
  abbrev collect_counted : Snapshot D → Option ℕ → Option (Snapshot D)
  collect_counted snap none = some snap
  collect_counted snap (some count) = do
    after ← while_room nvidia_room collect_nvidia (count_from 0 count) snap
    some (mark_nvidia after)

  unfoldable pub collect_nvml : Snapshot D → Option (Snapshot D)
  collect_nvml snap = do
    started ← lib.init
    counted ← lib.count
    if started then collect_counted snap counted else some snap

module _ {ℓ} {D : Type ℓ} ⦃d : Double D⦄ where
  abbrev collect_loaded : Snapshot D → Option Nvml → Option (Snapshot D)
  collect_loaded snap none = some snap
  collect_loaded snap (some lib) = collect_nvml lib snap

  unfoldable pub tm_collect_nvidia : (Bytes → Option Nvml) → Snapshot D → Option (Snapshot D)
  tm_collect_nvidia dlopen snap = collect_loaded snap (load_nvml dlopen)
