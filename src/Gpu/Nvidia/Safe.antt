-- ===== src/Gpu/Nvidia/Safe.antt =====
-- `tm_collect_nvidia` has no undefined behaviour with a library that has all its functions.
use thermal_observatory.Base.{
  ℕ, ◌≡◌, refl, inl, inr, Option, Option-cases, none, some, everywhere, Bytes,
}
use thermal_observatory.Base.Loops.{while_room_total}
use thermal_observatory.Double.{Double}
use thermal_observatory.Gpu.{Nvml, IsThere, bind-IsThere, if-IsThere, count_from}
use thermal_observatory.Gpu.Nvidia.{
  load_nvml, load_nvml-opened, load_nvml-found, read_nvidia, nvidia_room, add_handle,
  collect_nvidia, collect_counted, collect_nvml, tm_collect_nvidia,
}
use thermal_observatory.Snapshot.{Snapshot}

-- The functions that are called with no test of their pointers are there.
pub record IsComplete (lib : Nvml) : Type 0 where
  pub has_handle : IsThere lib.handle
  pub has_name : IsThere lib.name
  pub has_uuid : IsThere lib.uuid
  pub has_temperature : IsThere lib.temperature
  pub has_power_usage : IsThere lib.power_usage
  pub has_power_limit : IsThere lib.power_limit
  pub has_utilization : IsThere lib.utilization
  pub has_throttle_reasons : IsThere lib.throttle_reasons

module _ {ℓ} {D : Type ℓ} ⦃d : Double D⦄ (lib : Nvml) (whole : IsComplete lib) where
  read_nvidia-IsThere : (i dev : ℕ) → IsThere (read_nvidia {D = D} lib i dev)
  unfolding read_nvidia
  read_nvidia-IsThere i dev = bind-IsThere whole.has_name λ name.
      bind-IsThere whole.has_uuid λ uuid. bind-IsThere whole.has_temperature λ temperature.
        bind-IsThere whole.has_power_usage λ usage. bind-IsThere whole.has_power_limit λ limit.
          bind-IsThere whole.has_utilization
            λ rates. bind-IsThere whole.has_throttle_reasons λ reasons. (_, refl)

  add_handle-IsThere :
      (i : ℕ) (s : Snapshot D) (handle : Option ℕ) → IsThere (add_handle lib i s handle)
  add_handle-IsThere i s none = (s, refl)
  add_handle-IsThere i s (some dev) = bind-IsThere (read_nvidia-IsThere i dev) λ gpu. (_, refl)

  collect_nvidia-IsThere : (i : ℕ) (s : Snapshot D) → IsThere (collect_nvidia lib i s)
  unfolding collect_nvidia
  collect_nvidia-IsThere i s =
      bind-IsThere whole.has_handle λ handle. add_handle-IsThere i s (handle i)

  collect_counted-IsThere :
      (s : Snapshot D) (counted : Option ℕ) → IsThere (collect_counted lib s counted)
  collect_counted-IsThere s none = (s, refl)
  collect_counted-IsThere s (some count) =
      bind-IsThere
        (while_room_total (nvidia_room lib) (collect_nvidia lib) (λ _. Unit {0})
          (λ i u _. collect_nvidia-IsThere i u) (count_from 0 count) s
          (everywhere _ (count_from 0 count) (λ _. tt)))
        λ after. (_, refl)

  collect_nvml-IsThere :
      (s : Snapshot D) → IsThere lib.init → IsThere lib.count → IsThere (collect_nvml lib s)
  unfolding collect_nvml
  collect_nvml-IsThere s init count = bind-IsThere init λ started.
      bind-IsThere count λ counted. if-IsThere started (collect_counted-IsThere s counted) (s, refl)

module _ {ℓ} {D : Type ℓ} ⦃d : Double D⦄ where
  -- Where each NVML library that can be opened has all the functions that are called with no test
  -- of their pointers, `tm_collect_nvidia` has a result: it does nothing that C leaves undefined.
  pub tm_collect_nvidia-some :
      (dlopen : Bytes → Option Nvml) (s : Snapshot D)
      → ((path : Bytes) (lib : Nvml) → dlopen path ≡ some lib → IsComplete lib)
      → (t : Snapshot D) × (tm_collect_nvidia dlopen s ≡ some t)
  unfolding tm_collect_nvidia
  tm_collect_nvidia-some dlopen s complete = elim (Option-cases (load_nvml dlopen)) [
    | inl absent ↦ (s, rw absent refl)
    | inr (lib, loaded) ↦
        let (init, count) = load_nvml-found dlopen lib loaded in
        rw loaded (
          collect_nvml-IsThere lib (load_nvml-opened IsComplete dlopen complete lib loaded) s init
            count)
  ]
