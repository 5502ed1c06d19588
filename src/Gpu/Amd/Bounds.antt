-- ===== src/Gpu/Amd/Bounds.antt =====
-- `tm_collect_amd` keeps every array and every text within its bounds, if ROCm SMI does.
use thermal_observatory.Base.{
  ℕ, ◌<◌, Bool-cases, true, ◌≡◌, subst, some-injective, Option, Option-cases, none, some, arith,
  Bytes, codes, equal, length, inl, inr, ltb, ltb→lt, >>=-eq-some,
}
use thermal_observatory.Base.Loops.{while_room, while_room_inv, with_list_inv}
use thermal_observatory.Double.{Double}
use thermal_observatory.Gpu.{Rsmi, count_from}
use thermal_observatory.Gpu.Amd.{
  load_rsmi, load_rsmi-opened, amd_room, add_amd, read_rsmi, collect_rsmi, mark_rsmi,
  collect_rsmi_devices, amdgpu_at, base_of, add_named, collect_amdgpu, mark_amdgpu,
  collect_amdgpu_paths, collect_amdgpu_hwmon, devices_of, collect_counted_rsmi, tm_collect_amd,
}
use thermal_observatory.Platform.{Host, read_string}
use thermal_observatory.Platform.Ipmi.Bounds.{IsBounded-if}
use thermal_observatory.Snapshot.{AmdGpu, Snapshot, max_amd_gpus}
use thermal_observatory.Snapshot.Bounds.{
  AmdFits, FitsArray-concat, IsBounded, IsBounded-capabilities,
}

-- What ROCm SMI documents of a name that it writes: it fits the buffer with its NUL.
abbrev pub WritesNames : Rsmi → Type 0
WritesNames lib =
    (f : ℕ → ℕ → Bytes) → lib.name ≡ some f → (i len : ℕ) → 0 < len → length (f i len) < len

module _ {ℓ} {D : Type ℓ} ⦃d : Double D⦄ where
  add_amd-IsBounded :
      (s : Snapshot D) (gpu : AmdGpu D)
      → IsBounded s
      → amd_room s ≡ true
      → AmdFits gpu
      → IsBounded (add_amd s gpu)
  unfolding amd_room
  add_amd-IsBounded s gpu h room fits =
      ground (
        arith,
        FitsArray-concat max_amd_gpus AmdFits s.amd_gpus gpu h.amd_fit (ltb→lt _ _ room) fits,
      )

  collect_rsmi-IsBounded :
      (lib : Rsmi)
      → WritesNames lib
      → (i : ℕ) (s t : Snapshot D) → IsBounded s
      → amd_room s ≡ true
      → collect_rsmi lib i s ≡ some t
      → IsBounded t
  unfolding collect_rsmi read_rsmi
  collect_rsmi-IsBounded lib names i s t h room e =
      let (gpu, r, e1) = >>=-eq-some (read_rsmi lib i) _ e in
      let (name, n, r1) = >>=-eq-some lib.name _ r in
      let (temperature, _, r2) = >>=-eq-some lib.temperature _ r1 in
      let (average, _, r3) = >>=-eq-some lib.power_average _ r2 in
      let (cap, _, r4) = >>=-eq-some lib.power_cap _ r3 in
      subst IsBounded (some-injective _ _ e1) (
        add_amd-IsBounded s gpu h room
          (subst AmdFits (some-injective _ _ r4) (names name n i 128 (omega arith))))

  collect_rsmi_devices-IsBounded :
      (lib : Rsmi)
      → WritesNames lib
      → (count : ℕ) (s t : Snapshot D) → IsBounded s
      → collect_rsmi_devices lib count s ≡ some t
      → IsBounded t
  unfolding collect_rsmi_devices mark_rsmi
  collect_rsmi_devices-IsBounded lib names count s t h e =
      let (after, looped, e1) =
        >>=-eq-some (while_room amd_room (collect_rsmi lib) (count_from 0 count) s) _ e in
      let kept =
        while_room_inv amd_room (collect_rsmi lib) IsBounded (collect_rsmi-IsBounded lib names)
          (count_from 0 count) s after h looped in
      subst IsBounded (some-injective _ _ e1) (
        IsBounded-if (ltb 0 (length after.amd_gpus)) _ _ (IsBounded-capabilities after _ kept) kept)

amdgpu_at-AmdFits {ℓ} :
    (D : Type ℓ) ⦃d : Double D⦄ (host : Host) (index : ℕ) (base : Bytes)
    → AmdFits (amdgpu_at {D = D} host index base)
unfolding amdgpu_at
amdgpu_at-AmdFits D host index base = omega arith

module _ {ℓ} {D : Type ℓ} ⦃d : Double D⦄ (host : Host) where
  add_named-IsBounded :
      (path name : Bytes) (s t : Snapshot D)
      → IsBounded s
      → amd_room s ≡ true
      → add_named host path s name ≡ some t
      → IsBounded t
  add_named-IsBounded path name s t h room e = elim (Bool-cases (equal name (codes "amdgpu"))) [
    | inl same ↦
        let (base, _, e1) = >>=-eq-some (base_of path) _ (rw same at e) in
        subst IsBounded (some-injective _ _ e1)
          (add_amd-IsBounded s _ h room (amdgpu_at-AmdFits D host (length s.amd_gpus) base))
    | inr other ↦ subst IsBounded (some-injective _ _ (rw other at e)) h
  ]

  collect_amdgpu-IsBounded :
      (path : Bytes) (s t : Snapshot D)
      → IsBounded s
      → amd_room s ≡ true
      → collect_amdgpu host path s ≡ some t
      → IsBounded t
  unfolding collect_amdgpu
  collect_amdgpu-IsBounded path s t h room e = elim (Option-cases (read_string host path 64)) [
    | inl missing ↦ subst IsBounded (some-injective _ _ (rw (missing, collect_amdgpu) at e)) h
    | inr (name, r) ↦ add_named-IsBounded path name s t h room (rw (r, collect_amdgpu) at e)
  ]

  collect_amdgpu_hwmon-IsBounded :
      (s t : Snapshot D) → IsBounded s → collect_amdgpu_hwmon host s ≡ some t → IsBounded t
  unfolding collect_amdgpu_hwmon collect_amdgpu_paths mark_amdgpu
  collect_amdgpu_hwmon-IsBounded s t h e =
      with_list_inv IsBounded (host.glob _) (collect_amdgpu_paths host) s
        (λ paths u e1.
          let (after, looped, e2) =
            >>=-eq-some (while_room amd_room (collect_amdgpu host) paths s) _ e1 in
          let kept =
            while_room_inv amd_room (collect_amdgpu host) IsBounded collect_amdgpu-IsBounded paths s
              after h looped in
          subst IsBounded (some-injective _ _ e2) (
            IsBounded-if (ltb 0 (length after.amd_gpus)) _ _ (IsBounded-capabilities after _ kept)
              kept))
        t h e

  collect_counted_rsmi-IsBounded :
      (lib : Rsmi)
      → WritesNames lib
      → (s t : Snapshot D) (counted : Option ℕ) → IsBounded s
      → collect_counted_rsmi host s lib counted ≡ some t
      → IsBounded t
  collect_counted_rsmi-IsBounded lib names s t none h e = collect_amdgpu_hwmon-IsBounded s t h e
  collect_counted_rsmi-IsBounded lib names s t (some count) h e =
      collect_rsmi_devices-IsBounded lib names count s t h e

  -- Where the names that each ROCm library writes fit their buffer, and the snapshot before fits its
  -- arrays and texts: if `tm_collect_amd` has a result, by ROCm or by hwmon, it fits them too.
  pub tm_collect_amd-IsBounded :
      (dlopen : Bytes → Option Rsmi) (s t : Snapshot D)
      → ((path : Bytes) (lib : Rsmi) → dlopen path ≡ some lib → WritesNames lib)
      → IsBounded s
      → tm_collect_amd host dlopen s ≡ some t
      → IsBounded t
  unfolding tm_collect_amd
  tm_collect_amd-IsBounded dlopen s t names h e = elim (Option-cases (load_rsmi dlopen)) [
    | inl absent ↦ collect_amdgpu_hwmon-IsBounded s t h (rw absent at e)
    | inr (lib, loaded) ↦
        collect_counted_rsmi-IsBounded lib (load_rsmi-opened WritesNames dlopen names lib loaded) s
          t (devices_of lib) h (rw loaded at e)
  ]
