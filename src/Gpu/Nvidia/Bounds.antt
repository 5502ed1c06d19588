-- ===== src/Gpu/Nvidia/Bounds.antt =====
-- `tm_collect_nvidia` keeps every array and every text within its bounds, if NVML does.
use thermal_observatory.Base.{
  ℕ, ◌<◌, true, ◌≡◌, subst, some-injective, Option, Option-cases, none, some, [], arith, Bytes,
  length, inl, inr, Bool-cases, ltb, ltb→lt, >>=-eq-some, take,
}
use thermal_observatory.Base.Loops.{while_room, while_room_inv}
use thermal_observatory.Double.{Double}
use thermal_observatory.Gpu.{Nvml, count_from, answer_or}
use thermal_observatory.Gpu.Nvidia.{
  load_nvml, load_nvml-opened, ask, read_nvidia, nvidia_room, add_handle, collect_nvidia,
  mark_nvidia, collect_counted, collect_nvml, tm_collect_nvidia,
}
use thermal_observatory.Platform.Bounds.{length-take-le}
use thermal_observatory.Platform.Ipmi.Bounds.{IsBounded-if}
use thermal_observatory.Snapshot.{NvidiaGpu, Snapshot, max_nvidia_gpus}
use thermal_observatory.Snapshot.Bounds.{
  NvidiaFits, FitsArray-concat, IsBounded, IsBounded-capabilities,
}

-- What NVML documents of the texts that it writes: they fit the buffer with their NUL.
pub record WritesTexts (lib : Nvml) : Type 0 where
  pub name_fits :
      (f : ℕ → ℕ → Bytes) → lib.name ≡ some f → (dev len : ℕ) → 0 < len → length (f dev len) < len
  pub uuid_fits :
      (f : ℕ → ℕ → Bytes) → lib.uuid ≡ some f → (dev len : ℕ) → 0 < len → length (f dev len) < len

bus_id-lt : (o : Option Bytes) → length (answer_or [] (take 31) o) < 32
bus_id-lt none = omega arith
bus_id-lt (some id) = omega (arith, length-take-le {0} 31 id)

module _ {ℓ} {D : Type ℓ} ⦃d : Double D⦄ (lib : Nvml) (texts : WritesTexts lib) where
  read_nvidia-NvidiaFits :
      (i dev : ℕ) (gpu : NvidiaGpu D) → read_nvidia lib i dev ≡ some gpu → NvidiaFits gpu
  unfolding read_nvidia
  read_nvidia-NvidiaFits i dev gpu h =
      let (name, n, h1) = >>=-eq-some lib.name _ h in
      let (uuid, u, h2) = >>=-eq-some lib.uuid _ h1 in
      let (temperature, _, h3) = >>=-eq-some lib.temperature _ h2 in
      let (usage, _, h4) = >>=-eq-some lib.power_usage _ h3 in
      let (limit, _, h5) = >>=-eq-some lib.power_limit _ h4 in
      let (rates, _, h6) = >>=-eq-some lib.utilization _ h5 in
      let (reasons, _, h7) = >>=-eq-some lib.throttle_reasons _ h6 in
      subst NvidiaFits (some-injective _ _ h7) (
        texts.name_fits name n dev 128 (omega arith),
        texts.uuid_fits uuid u dev 96 (omega arith),
        bus_id-lt (ask lib.bus_id dev),
      )

  add_handle-IsBounded :
      (i : ℕ) (s t : Snapshot D) (handle : Option ℕ)
      → IsBounded s
      → length s.nvidia_gpus < max_nvidia_gpus
      → add_handle lib i s handle ≡ some t
      → IsBounded t
  add_handle-IsBounded i s t none h lt e = subst IsBounded (some-injective _ _ e) h
  add_handle-IsBounded i s t (some dev) h lt e =
      let (gpu, r, e1) = >>=-eq-some (read_nvidia lib i dev) _ e in
      subst IsBounded (some-injective _ _ e1) (
        ground (
          arith,
          FitsArray-concat max_nvidia_gpus NvidiaFits s.nvidia_gpus gpu h.nvidia_fit lt
              (read_nvidia-NvidiaFits i dev gpu r),
        ))

  collect_nvidia-IsBounded :
      (i : ℕ) (s t : Snapshot D)
      → IsBounded s
      → nvidia_room lib s ≡ true
      → collect_nvidia lib i s ≡ some t
      → IsBounded t
  unfolding collect_nvidia nvidia_room
  collect_nvidia-IsBounded i s t h room e =
      let (handle, _, e1) = >>=-eq-some lib.handle _ e in
      add_handle-IsBounded i s t (handle i) h (ltb→lt _ _ room) e1

  collect_counted-IsBounded :
      (s t : Snapshot D) (counted : Option ℕ)
      → IsBounded s
      → collect_counted lib s counted ≡ some t
      → IsBounded t
  unfolding mark_nvidia
  collect_counted-IsBounded s t none h e = subst IsBounded (some-injective _ _ e) h
  collect_counted-IsBounded s t (some count) h e =
      let (after, looped, e1) =
        >>=-eq-some (while_room (nvidia_room lib) (collect_nvidia lib) (count_from 0 count) s) _
          e in
      let kept =
        while_room_inv (nvidia_room lib) (collect_nvidia lib) IsBounded collect_nvidia-IsBounded
          (count_from 0 count) s after h looped in
      subst IsBounded (some-injective _ _ e1) (
        IsBounded-if (ltb 0 (length after.nvidia_gpus)) _ _ (IsBounded-capabilities after _ kept)
          kept)

  collect_nvml-IsBounded :
      (s t : Snapshot D) → IsBounded s → collect_nvml lib s ≡ some t → IsBounded t
  unfolding collect_nvml
  collect_nvml-IsBounded s t h e =
      let (started, _, e1) = >>=-eq-some lib.init _ e in
      let (counted, _, e2) = >>=-eq-some lib.count _ e1 in
      elim (Bool-cases started) [
        | inl yes_started ↦ collect_counted-IsBounded s t counted h (rw yes_started at e2)
        | inr no_start ↦ subst IsBounded (some-injective _ _ (rw no_start at e2)) h
      ]

module _ {ℓ} {D : Type ℓ} ⦃d : Double D⦄ where
  -- Where the texts that each NVML library writes fit their buffers, and the snapshot before fits its
  -- arrays and texts: if `tm_collect_nvidia` has a result, it fits them too.
  pub tm_collect_nvidia-IsBounded :
      (dlopen : Bytes → Option Nvml) (s t : Snapshot D)
      → ((path : Bytes) (lib : Nvml) → dlopen path ≡ some lib → WritesTexts lib)
      → IsBounded s
      → tm_collect_nvidia dlopen s ≡ some t
      → IsBounded t
  unfolding tm_collect_nvidia
  tm_collect_nvidia-IsBounded dlopen s t texts h e = elim (Option-cases (load_nvml dlopen)) [
    | inl absent ↦ subst IsBounded (some-injective _ _ (rw absent at e)) h
    | inr (lib, loaded) ↦
        collect_nvml-IsBounded lib (load_nvml-opened WritesTexts dlopen texts lib loaded) s t h
          (rw loaded at e)
  ]
