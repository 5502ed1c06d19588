-- ===== src/Gpu/Amd/Safe.antt =====
-- `tm_collect_amd` has no undefined behaviour with a whole library and paths of the usual form.
use thermal_observatory.Base.{
  ℕ, ◌<◌, lt→ltb, true, not, ◌≡◌, refl, inl, inr, Option, Option-cases, none, some, List, All,
  everywhere, Bytes, codes, equal, length,
}
use thermal_observatory.Base.Loops.{while_room_total}
use thermal_observatory.Double.{Double}
use thermal_observatory.Gpu.{Rsmi, IsThere, bind-IsThere, if-IsThere, count_from}
use thermal_observatory.Gpu.Amd.{
  load_rsmi, load_rsmi-opened, amd_room, read_rsmi, collect_rsmi, collect_rsmi_devices, base_of,
  add_named, collect_amdgpu, collect_amdgpu_paths, collect_amdgpu_hwmon, devices_of,
  collect_counted_rsmi, tm_collect_amd,
}
use thermal_observatory.Libc.Scan.{split_first, contains}
use thermal_observatory.Platform.{Host, read_string}
use thermal_observatory.Platform.Paths.{copy_path, tm_glob_join}
use thermal_observatory.Snapshot.{Snapshot}

-- The functions that are called with no test of their pointers are there.
pub record IsWhole (lib : Rsmi) : Type 0 where
  pub has_name : IsThere lib.name
  pub has_temperature : IsThere lib.temperature
  pub has_power_average : IsThere lib.power_average
  pub has_power_cap : IsThere lib.power_cap

-- A path that a `char[256]` array holds and that has "/name" in it, as the pattern of `glob` asks.
abbrev pub IsNamePath : Bytes → Type 0
IsNamePath path = (length path < 255) × (contains path (codes "/name") ≡ true)

-- The paths that `glob` gives for the pattern of names.
abbrev pub NamePaths : Host → Type 0
NamePaths host =
    (paths : List Bytes)
    → host.glob (tm_glob_join host 256 (codes "/sys/class/drm/card*/device/hwmon/hwmon*/name"))
      ≡ some paths
    → All IsNamePath paths

split_first-IsThere : (needle s : Bytes) → contains s needle ≡ true → IsThere (split_first needle s)
unfolding contains
split_first-IsThere needle s h = elim (Option-cases (split_first needle s)) [
  | inl e ↦ cc (rw (e, contains) at h)
  | inr found ↦ found
]

base_of-IsThere : (path : Bytes) → IsNamePath path → IsThere (base_of path)
unfolding base_of copy_path
base_of-IsThere path (fits, found) =
    rw (lt→ltb _ _ fits)
      (bind-IsThere (split_first-IsThere (codes "/name") path found) λ parts. (_, refl))

module _ {ℓ} {D : Type ℓ} ⦃d : Double D⦄ where
  read_rsmi-IsThere : (lib : Rsmi) → IsWhole lib → (i : ℕ) → IsThere (read_rsmi {D = D} lib i)
  unfolding read_rsmi
  read_rsmi-IsThere lib whole i = bind-IsThere whole.has_name λ name.
      bind-IsThere whole.has_temperature λ temperature.
        bind-IsThere whole.has_power_average
          λ average. bind-IsThere whole.has_power_cap λ cap. (_, refl)

  collect_rsmi-IsThere :
      (lib : Rsmi) → IsWhole lib → (i : ℕ) (s : Snapshot D) → IsThere (collect_rsmi lib i s)
  unfolding collect_rsmi
  collect_rsmi-IsThere lib whole i s = bind-IsThere (read_rsmi-IsThere lib whole i) λ gpu. (_, refl)

  collect_rsmi_devices-IsThere :
      (lib : Rsmi)
      → IsWhole lib
      → (count : ℕ) (s : Snapshot D) → IsThere (collect_rsmi_devices lib count s)
  unfolding collect_rsmi_devices
  collect_rsmi_devices-IsThere lib whole count s =
      bind-IsThere
        (while_room_total amd_room (collect_rsmi lib) (λ _. Unit {0})
          (λ i u _. collect_rsmi-IsThere lib whole i u) (count_from 0 count) s
          (everywhere _ (count_from 0 count) (λ _. tt)))
        λ after. (_, refl)

module _ {ℓ} {D : Type ℓ} ⦃d : Double D⦄ (host : Host) where
  add_named-IsThere :
      (path : Bytes) (s : Snapshot D) (name : Bytes)
      → IsNamePath path
      → IsThere (add_named host path s name)
  add_named-IsThere path s name h =
      if-IsThere (not (equal name (codes "amdgpu"))) (s, refl)
        (bind-IsThere (base_of-IsThere path h) λ base. (_, refl))

  collect_amdgpu-IsThere :
      (path : Bytes) (s : Snapshot D) → IsNamePath path → IsThere (collect_amdgpu host path s)
  unfolding collect_amdgpu
  collect_amdgpu-IsThere path s h = elim (Option-cases (read_string host path 64)) [
    | inl missing ↦ (s, rw (missing, collect_amdgpu) refl)
    | inr (name, r) ↦ rw (r, collect_amdgpu) (add_named-IsThere path s name h)
  ]

  collect_amdgpu_hwmon-IsThere :
      (s : Snapshot D) → NamePaths host → IsThere (collect_amdgpu_hwmon host s)
  unfolding collect_amdgpu_hwmon collect_amdgpu_paths
  collect_amdgpu_hwmon-IsThere s fits =
      elim (Option-cases (
        host.glob
          (tm_glob_join host 256 (codes "/sys/class/drm/card*/device/hwmon/hwmon*/name")))) [
            | inl e ↦ (s, rw e refl)
            | inr (paths, e) ↦ rw e (
                bind-IsThere
                  (while_room_total amd_room (collect_amdgpu host) IsNamePath collect_amdgpu-IsThere
                    paths s (fits paths e))
                  λ after. (_, refl))
          ]

  collect_counted_rsmi-IsThere :
      (lib : Rsmi)
      → IsWhole lib
      → NamePaths host
      → (s : Snapshot D) (counted : Option ℕ) → IsThere (collect_counted_rsmi host s lib counted)
  collect_counted_rsmi-IsThere lib whole fits s none = collect_amdgpu_hwmon-IsThere s fits
  collect_counted_rsmi-IsThere lib whole fits s (some count) =
      collect_rsmi_devices-IsThere lib whole count s

  -- Where each ROCm library that can be opened has all the functions that are called, and each path
  -- that `glob` gives is shorter than 255 bytes and has "/name" in it: `tm_collect_amd` has a result,
  -- so it does nothing that C leaves undefined.
  pub tm_collect_amd-some :
      (dlopen : Bytes → Option Rsmi) (s : Snapshot D)
      → ((path : Bytes) (lib : Rsmi) → dlopen path ≡ some lib → IsWhole lib)
      → NamePaths host
      → (t : Snapshot D) × (tm_collect_amd host dlopen s ≡ some t)
  unfolding tm_collect_amd
  tm_collect_amd-some dlopen s whole fits = elim (Option-cases (load_rsmi dlopen)) [
    | inl absent ↦ rw absent (collect_amdgpu_hwmon-IsThere s fits)
    | inr (lib, loaded) ↦ rw loaded (
        collect_counted_rsmi-IsThere lib (load_rsmi-opened IsWhole dlopen whole lib loaded) fits s
          (devices_of lib))
  ]
