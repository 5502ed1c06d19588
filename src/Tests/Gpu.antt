-- ===== src/Tests/Gpu.antt =====
-- The GPU collectors' theorems with libraries that know one device each.
use thermal_observatory.Base.{
  ◌↔◌, ◌⊎◌, ℕ, ◌<◌, ◌≡◌, refl, true, false, some, none, some-injective, subst, [], ◌∷◌, Bytes,
  codes, equal, take, length, length-take, arith, ◌-◌, Option,
}
use thermal_observatory.Base.Collect.{fill, all_found}
use thermal_observatory.Base.Int.{pos, negsuc}
use thermal_observatory.Base.Loops.{while_room}
use thermal_observatory.Gpu.{Nvml, CudaDevice, CudaRuntime, Rsmi, Libraries, open_first, count_from}
use thermal_observatory.Gpu.Amd.{
  load_rsmi, amd_room, read_rsmi, collect_rsmi, mark_rsmi, collect_rsmi_devices, devices_of,
  tm_collect_amd,
}
use thermal_observatory.Gpu.Amd.Bounds.{WritesNames, tm_collect_amd-IsBounded}
use thermal_observatory.Gpu.Amd.Safe.{IsWhole, NamePaths, tm_collect_amd-some}
use thermal_observatory.Gpu.Cuda.{collect_cuda_devices, tm_collect_nvidia_cuda}
use thermal_observatory.Gpu.Cuda.First.{correlate, collect_cuda_devices-correlate}
use thermal_observatory.Gpu.Cuda.Formats.{HasAddress, collect_cuda_devices-long}
use thermal_observatory.Gpu.Cuda.Kept.{apart_from_cuda, tm_collect_nvidia_cuda-apart}
use thermal_observatory.Gpu.Dcgm.{
  scan_gpu_index, has_index, collect_dcgm_lines, tm_collect_nvidia_dcgm,
}
use thermal_observatory.Gpu.Dcgm.Named.{NamesSome, tm_collect_nvidia_dcgm-NamesSome}
use thermal_observatory.Gpu.Nvidia.{
  load_nvml, read_nvidia, nvidia_room, collect_nvidia, mark_nvidia, collect_nvml, tm_collect_nvidia,
}
use thermal_observatory.Gpu.Nvidia.Bounds.{WritesTexts, tm_collect_nvidia-IsBounded}
use thermal_observatory.Gpu.Nvidia.Devices.{device_at, tm_collect_nvidia-fill}
use thermal_observatory.Gpu.Nvidia.Safe.{IsComplete, tm_collect_nvidia-some}
use thermal_observatory.Libc.Lines.{lines}
use thermal_observatory.Libc.Scan.{strip_prefix, take_until, scan_long, to_int}
use thermal_observatory.Platform.{Host}
use thermal_observatory.Platform.Ipmi.{command_exists}
use thermal_observatory.Platform.Paths.{tm_glob_join, tm_sysroot}
use thermal_observatory.Snapshot.{Snapshot, NvidiaGpu, max_nvidia_gpus}
use thermal_observatory.Snapshot.Bounds.{IsBounded}
use thermal_observatory.Snapshot.Capability.{has, with_cap, mask, nvidia_dcgm}
use thermal_observatory.Tests.Collectors.{blank-IsBounded}
use thermal_observatory.Tests.Machine.{Milli, milli_double, machine, blank}

-- The text cut to its buffer, as each library writes it.
abbrev within : Bytes → ℕ → ℕ → Bytes
within text dev len = take (len - 1) text

within-fits : (text : Bytes) (dev len : ℕ) → 0 < len → length (within text dev len) < len
within-fits text dev len h = omega (arith, length-take (len - 1) text)

abbrev pub nvml : Nvml
nvml = record {
  init = some true;
  shutdown = true;
  count = some (some 1);
  handle = some (λ i. some i);
  name = some (within (codes "A100"));
  uuid = some (within (codes "GPU-7"));
  temperature = some (λ dev kind. some 61);
  power_usage = some (λ dev. some 250_000);
  power_limit = some (λ dev. some 400_000);
  clock = some (λ dev kind. none);
  utilization = some (λ dev. some (97, 40));
  throttle_reasons = some (λ dev. none);
  bus_id = some (λ dev. some (codes "00000000:01:00.0"));
}

abbrev pub cuda_device : CudaDevice
cuda_device = record {
  major = pos 8;
  minor = pos 0;
  multiprocessors = pos 108;
  total_memory = 42_949_672_960;
  pci_domain = pos 0;
  pci_bus = pos 1;
  pci_device = pos 0;
}

abbrev pub cuda : CudaRuntime
cuda = record {
  count = some (some (pos 1));
  properties = some (λ ordinal. some cuda_device);
  driver_version = some (pos 12_040);
  runtime_version = none;
}

abbrev pub rsmi : Rsmi
rsmi = record {
  init = some true;
  shut_down = true;
  count = some (some 1);
  name = some (within (codes "MI300X"));
  temperature = some (λ i kind. some (pos 55_000));
  power_average = some (λ i. some 300_000_000);
  power_cap = some (λ i. none);
}

abbrev pub libraries : Libraries
libraries = record { nvml = λ path. some nvml; cuda = λ path. some cuda; rsmi = λ path. some rsmi }

pub nvml_texts : (path : Bytes) (lib : Nvml) → libraries.nvml path ≡ some lib → WritesTexts lib
nvml_texts path lib e = subst WritesTexts (some-injective _ _ e) (record {
  name_fits = λ f h dev len lt.
      subst (λ (g : ℕ → ℕ → Bytes). length (g dev len) < len) (some-injective _ _ h)
        (within-fits (codes "A100") dev len lt);
  uuid_fits = λ f h dev len lt.
      subst (λ (g : ℕ → ℕ → Bytes). length (g dev len) < len) (some-injective _ _ h)
        (within-fits (codes "GPU-7") dev len lt);
})

pub nvml-IsComplete : (path : Bytes) (lib : Nvml) → libraries.nvml path ≡ some lib → IsComplete lib
nvml-IsComplete path lib e = subst IsComplete (some-injective _ _ e) (record {
  has_handle = (_, refl);
  has_name = (_, refl);
  has_uuid = (_, refl);
  has_temperature = (_, refl);
  has_power_usage = (_, refl);
  has_power_limit = (_, refl);
  has_utilization = (_, refl);
  has_throttle_reasons = (_, refl);
})

pub rsmi_names : (path : Bytes) (lib : Rsmi) → libraries.rsmi path ≡ some lib → WritesNames lib
rsmi_names path lib e = subst WritesNames (some-injective _ _ e) (λ f h i len lt.
    subst (λ (g : ℕ → ℕ → Bytes). length (g i len) < len) (some-injective _ _ h)
      (within-fits (codes "MI300X") i len lt))

pub rsmi-IsWhole : (path : Bytes) (lib : Rsmi) → libraries.rsmi path ≡ some lib → IsWhole lib
rsmi-IsWhole path lib e = subst IsWhole (some-injective _ _ e) (record {
  has_name = (_, refl);
  has_temperature = (_, refl);
  has_power_average = (_, refl);
  has_power_cap = (_, refl);
})

pub no_names : NamePaths machine
unfolding tm_glob_join tm_sysroot equal
no_names paths e = cc

abbrev pub found_gpu : NvidiaGpu Milli
found_gpu = record {
  gpu_index = pos 0;
  name = codes "A100";
  uuid = codes "GPU-7";
  pci_bus_id = codes "00000000:01:00.0";
  gpu_temp_c = pos 61_000;
  memory_temp_c = pos 61_000;
  power_draw_w = pos 250_000;
  power_limit_w = pos 400_000;
  sm_clock_mhz = 0;
  mem_clock_mhz = 0;
  gpu_util_pct = 97;
  mem_util_pct = 40;
  throttle_reasons = 0;
  cuda_ordinal = negsuc 0;
  cuda_compute_major = pos 0;
  cuda_compute_minor = pos 0;
  cuda_multiprocessors = pos 0;
  cuda_driver_version = pos 0;
  cuda_runtime_version = pos 0;
  cuda_total_memory_bytes = 0;
}

abbrev pub with_nvidia : Snapshot Milli
with_nvidia = record blank { capabilities = 32; nvidia_gpus = found_gpu ∷ [] }

finds_nvidia : tm_collect_nvidia libraries.nvml blank ≡ some with_nvidia
unfolding tm_collect_nvidia load_nvml open_first collect_nvml while_room nvidia_room collect_nvidia
    read_nvidia mark_nvidia count_from with_cap mask to_int
finds_nvidia = refl

loads_nvml : load_nvml libraries.nvml ≡ some nvml
unfolding load_nvml open_first
loads_nvml = refl

tm_collect_nvidia-IsBounded_example : IsBounded with_nvidia
tm_collect_nvidia-IsBounded_example =
    tm_collect_nvidia-IsBounded libraries.nvml blank with_nvidia nvml_texts blank-IsBounded
      finds_nvidia

tm_collect_nvidia-some_example :
    (t : Snapshot Milli) × (tm_collect_nvidia libraries.nvml blank ≡ some t)
tm_collect_nvidia-some_example = tm_collect_nvidia-some libraries.nvml blank nvml-IsComplete

tm_collect_nvidia-fill_example :
    with_nvidia.nvidia_gpus
    ≡ fill max_nvidia_gpus blank.nvidia_gpus (all_found (device_at nvml) (count_from 0 1))
tm_collect_nvidia-fill_example =
    tm_collect_nvidia-fill libraries.nvml nvml 1 blank with_nvidia loads_nvml refl refl finds_nvidia

abbrev with_amd : Snapshot Milli
with_amd = record blank {
  capabilities = 64;
  amd_gpus =
      record {
        gpu_index = pos 0;
        name = codes "MI300X";
        edge_temp_c = pos 55_000;
        junction_temp_c = pos 55_000;
        memory_temp_c = pos 55_000;
        avg_power_w = pos 300_000;
        power_cap_w = pos 0;
        thermal_throttling = false;
      }
      ∷ [];
}

finds_amd : tm_collect_amd machine libraries.rsmi blank ≡ some with_amd
unfolding tm_collect_amd load_rsmi open_first devices_of collect_rsmi_devices while_room amd_room
    collect_rsmi read_rsmi mark_rsmi count_from with_cap mask to_int
finds_amd = refl

tm_collect_amd-IsBounded_example : IsBounded with_amd
tm_collect_amd-IsBounded_example =
    tm_collect_amd-IsBounded machine libraries.rsmi blank with_amd rsmi_names blank-IsBounded
      finds_amd

tm_collect_amd-some_example :
    (t : Snapshot Milli) × (tm_collect_amd machine libraries.rsmi blank ≡ some t)
tm_collect_amd-some_example = tm_collect_amd-some machine libraries.rsmi blank rsmi-IsWhole no_names

tm_collect_nvidia_cuda-apart_example :
    (t : Snapshot Milli) × (tm_collect_nvidia_cuda libraries.cuda with_nvidia ≡ some t)
    × (apart_from_cuda t ≡ apart_from_cuda with_nvidia)
tm_collect_nvidia_cuda-apart_example = tm_collect_nvidia_cuda-apart libraries.cuda with_nvidia

collect_cuda_devices-correlate_example :
    (collect_cuda_devices
      (pos 12_040)
      (pos 0)
      (λ ordinal. some cuda_device)
      (0 ∷ [])
      with_nvidia).nvidia_gpus
    ≡ correlate (pos 12_040) (pos 0) (λ ordinal. some cuda_device) (0 ∷ []) with_nvidia.nvidia_gpus
collect_cuda_devices-correlate_example =
    collect_cuda_devices-correlate (pos 12_040) (pos 0) (λ ordinal. some cuda_device) (0 ∷ [])
      with_nvidia

cuda_device-HasAddress : HasAddress cuda_device
cuda_device-HasAddress = record {
  domain = 0;
  bus = 1;
  device = 0;
  is_domain = refl;
  is_bus = refl;
  is_device = refl;
  small_domain = omega arith;
  small_bus = omega arith;
  small_device = omega arith;
}

addressed :
    (ordinal : ℕ) (prop : CudaDevice)
    → Path (Option CudaDevice) (some cuda_device) (some prop)
    → HasAddress prop
addressed ordinal prop e = subst HasAddress (some-injective _ _ e) cuda_device-HasAddress

collect_cuda_devices-long_example :
    (collect_cuda_devices
      (pos 12_040)
      (pos 0)
      (λ ordinal. some cuda_device)
      (0 ∷ [])
      with_nvidia).nvidia_gpus
    ≡ with_nvidia.nvidia_gpus
collect_cuda_devices-long_example =
    collect_cuda_devices-long (pos 12_040) (pos 0) (λ ordinal. some cuda_device) (0 ∷ [])
      with_nvidia addressed (refl, tt)

-- Two GPUs, of which a line names the second; the number 0 stands on a line without "GPU".
abbrev two_gpus : Snapshot Milli
two_gpus = record with_nvidia {
  nvidia_gpus = found_gpu ∷ record found_gpu { gpu_index = pos 1 } ∷ [];
}

abbrev dcgm_output : Bytes
dcgm_output = codes "2 GPUs found.\n0\nGPU 1\n"

abbrev dcgm_machine : Host
dcgm_machine = record machine { popen = λ command. some dcgm_output }

dcgmi_found : command_exists dcgm_machine (codes "dcgmi") ≡ true
unfolding command_exists
dcgmi_found = refl

marks_dcgm : tm_collect_nvidia_dcgm dcgm_machine two_gpus ≡ record two_gpus { capabilities = 4128 }
unfolding tm_collect_nvidia_dcgm command_exists collect_dcgm_lines has_index scan_gpu_index
    strip_prefix take_until scan_long to_int lines with_cap mask
marks_dcgm = refl

tm_collect_nvidia_dcgm-NamesSome_example :
    (has (tm_collect_nvidia_dcgm dcgm_machine two_gpus).capabilities nvidia_dcgm ≡ true) ↔ (
      (has 32 nvidia_dcgm ≡ true)
      ⊎ (NamesSome (lines 512 dcgm_output) two_gpus.nvidia_gpus × (nvidia_dcgm ≡ nvidia_dcgm)))
tm_collect_nvidia_dcgm-NamesSome_example =
    tm_collect_nvidia_dcgm-NamesSome dcgm_machine dcgm_output two_gpus nvidia_dcgm dcgmi_found refl
