-- ===== src/Gpu/Amd.antt =====
-- src/gpu/gpu_amd.c: `load_rsmi`, `collect_amdgpu_hwmon` and `tm_collect_amd`.
pub mod Bounds
pub mod Safe
use thermal_observatory.Base.{
  Bool-cases, inl, inr, subst, some-injective, ◌≡◌, >>=-eq-some, ℕ, Bool, true, false, not, ◌&&◌,
  Option, none, some, List, [], ◌∷◌, ◌++◌, ltb, if◌then◌else◌, Bytes, codes, equal, length, ◌>>=◌,
}
use thermal_observatory.Base.Int.{ℤ, pos}
use thermal_observatory.Base.Loops.{while_room, with_list}
use thermal_observatory.Double.{Double, nought, milli, micro}
use thermal_observatory.Gpu.{Rsmi, open_first, open_first-opened, count_from, is_found, answer_or}
use thermal_observatory.Libc.Scan.{split_first, to_int}
use thermal_observatory.Platform.{Host, read_long, read_string}
use thermal_observatory.Platform.Paths.{snprintf, tm_glob_join, copy_path}
use thermal_observatory.Snapshot.{AmdGpu, Snapshot, max_amd_gpus}
use thermal_observatory.Snapshot.Capability.{with_cap, amd_rocm_smi, amdgpu_hwmon}

abbrev pub rsmi_paths : List Bytes
rsmi_paths =
    codes "librocm_smi64.so"
    ∷ codes "librocm_smi64.so.1"
    ∷ codes "/opt/rocm/lib/librocm_smi64.so"
    ∷ []

unfoldable pub load_rsmi : (Bytes → Option Rsmi) → Option Rsmi
load_rsmi dlopen = do
  lib ← open_first dlopen rsmi_paths
  if is_found lib.init && lib.shut_down && is_found lib.count then some lib else none

-- `strncpy(base, path, sizeof(base) - 1); *strstr(base, "/name") = '\0';`
unfoldable pub base_of : Bytes → Option Bytes
base_of path = do
  copied ← copy_path 256 path
  (base, _) ← split_first (codes "/name") copied
  some base

-- `rsmi_init(0) == RSMI_STATUS_SUCCESS && rsmi_num_monitor_devices(&count) == RSMI_STATUS_SUCCESS`
unfoldable pub devices_of : Rsmi → Option ℕ
devices_of lib = do started ← lib.init; counted ← lib.count; if started then counted else none

-- What holds of every ROCm library that can be opened holds of the one that is used.
pub load_rsmi-opened {κ} :
    (P : Rsmi → Type κ) (dlopen : Bytes → Option Rsmi)
    → ((path : Bytes) (lib : Rsmi) → dlopen path ≡ some lib → P lib)
    → (lib : Rsmi) → load_rsmi dlopen ≡ some lib
    → P lib
unfolding load_rsmi
load_rsmi-opened P dlopen holds lib h =
    let (found, opened, e) = >>=-eq-some (open_first dlopen rsmi_paths) _ h in
    elim (Bool-cases (is_found found.init && found.shut_down && is_found found.count)) [
      | inl usable ↦
          subst P (some-injective _ _ (rw usable at e))
            (open_first-opened P dlopen holds rsmi_paths found opened)
      | inr missing ↦ cc (rw missing at e)
    ]

module _ {ℓ} {D : Type ℓ} ⦃d : Double D⦄ where
  unfoldable pub amd_room : Snapshot D → Bool
  amd_room snap = ltb (length snap.amd_gpus) max_amd_gpus

  abbrev pub add_amd : Snapshot D → AmdGpu D → Snapshot D
  add_amd snap gpu = record snap { amd_gpus = snap.amd_gpus ++ gpu ∷ [] }

  -- The device `i` of ROCm SMI. The functions that are called without a test must be there.
  unfoldable pub read_rsmi : Rsmi → ℕ → Option (AmdGpu D)
  read_rsmi lib i = do
    name ← lib.name
    temperature ← lib.temperature
    power_average ← lib.power_average
    power_cap ← lib.power_cap
    some (record {
      gpu_index = to_int (pos i);
      name = name i 128;
      edge_temp_c = answer_or nought milli (temperature i 0);
      junction_temp_c = answer_or nought milli (temperature i 1);
      memory_temp_c = answer_or nought milli (temperature i 2);
      avg_power_w = answer_or nought (λ n. micro (pos n)) (power_average i);
      power_cap_w = answer_or nought (λ n. micro (pos n)) (power_cap i);
      thermal_throttling = false;
    })

  unfoldable pub collect_rsmi : Rsmi → ℕ → Snapshot D → Option (Snapshot D)
  collect_rsmi lib i snap = do gpu ← read_rsmi lib i; some (add_amd snap gpu)

  unfoldable pub mark_rsmi : Snapshot D → Snapshot D
  mark_rsmi snap =
      if ltb 0 (length snap.amd_gpus)
      then record snap { capabilities = with_cap snap.capabilities amd_rocm_smi }
      else snap

  unfoldable pub collect_rsmi_devices : Rsmi → ℕ → Snapshot D → Option (Snapshot D)
  collect_rsmi_devices lib count snap = do
    after ← while_room amd_room (collect_rsmi lib) (count_from 0 count) snap
    some (mark_rsmi after)

  -- The GPU whose hwmon directory is `base`; `index` is the count before it.
  unfoldable pub amdgpu_at : Host → ℕ → Bytes → AmdGpu D
  amdgpu_at host index base = record {
    gpu_index = pos index;
    name = codes "amdgpu";
    edge_temp_c =
        answer_or nought milli (read_long host (snprintf 256 (base ++ codes "/temp1_input")));
    junction_temp_c =
        answer_or nought milli (read_long host (snprintf 256 (base ++ codes "/temp2_input")));
    memory_temp_c =
        answer_or nought milli (read_long host (snprintf 256 (base ++ codes "/temp3_input")));
    avg_power_w =
        answer_or nought micro (read_long host (snprintf 256 (base ++ codes "/power1_average")));
    power_cap_w =
        answer_or nought micro (read_long host (snprintf 256 (base ++ codes "/power1_cap")));
    thermal_throttling = false;
  }

  -- `continue` if the driver is another one
  abbrev pub add_named : Host → Bytes → Snapshot D → Bytes → Option (Snapshot D)
  add_named host path snap name =
      if not (equal name (codes "amdgpu"))
      then some snap
      else do base ← base_of path; some (add_amd snap (amdgpu_at host (length snap.amd_gpus) base))

  -- `continue` if the driver's name cannot be read
  unfoldable pub collect_amdgpu : Host → Bytes → Snapshot D → Option (Snapshot D)
  collect_amdgpu host path snap = elim (read_string host path 64) [
    | none ↦ some snap
    | some name ↦ add_named host path snap name
  ]

  unfoldable pub mark_amdgpu : Snapshot D → Snapshot D
  mark_amdgpu snap =
      if ltb 0 (length snap.amd_gpus)
      then record snap { capabilities = with_cap snap.capabilities amdgpu_hwmon }
      else snap

  unfoldable pub collect_amdgpu_paths : Host → List Bytes → Snapshot D → Option (Snapshot D)
  collect_amdgpu_paths host paths snap = do
    after ← while_room amd_room (collect_amdgpu host) paths snap
    some (mark_amdgpu after)

  unfoldable pub collect_amdgpu_hwmon : Host → Snapshot D → Option (Snapshot D)
  collect_amdgpu_hwmon host snap =
      with_list
        (host.glob (tm_glob_join host 256 (codes "/sys/class/drm/card*/device/hwmon/hwmon*/name")))
        (collect_amdgpu_paths host) snap

  abbrev collect_counted_rsmi : Host → Snapshot D → Rsmi → Option ℕ → Option (Snapshot D)
  collect_counted_rsmi host snap lib none = collect_amdgpu_hwmon host snap
  collect_counted_rsmi host snap lib (some count) = collect_rsmi_devices lib count snap

  abbrev collect_loaded_rsmi : Host → Snapshot D → Option Rsmi → Option (Snapshot D)
  collect_loaded_rsmi host snap none = collect_amdgpu_hwmon host snap
  collect_loaded_rsmi host snap (some lib) = collect_counted_rsmi host snap lib (devices_of lib)

  unfoldable pub tm_collect_amd : Host → (Bytes → Option Rsmi) → Snapshot D → Option (Snapshot D)
  tm_collect_amd host dlopen snap = collect_loaded_rsmi host snap (load_rsmi dlopen)
