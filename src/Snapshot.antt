-- ===== src/Snapshot.antt =====
-- include/thermal_monitor.h: the snapshot that the collectors fill and the formatters read. A pair
-- of a count and an array is the list of the first `count` elements; the capacity of the array is
-- the bound on its length. A `char` array is the text in front of its NUL.
pub mod Capability
pub mod Bounds
use thermal_observatory.Base.{ℕ, Bool, List, Bytes}
use thermal_observatory.Base.Int.{ℤ}

abbrev pub max_cpu_packages : ℕ
max_cpu_packages = 16

abbrev pub max_cpu_cores : ℕ
max_cpu_cores = 512

abbrev pub max_arm_clusters : ℕ
max_arm_clusters = 64

abbrev pub max_nvidia_gpus : ℕ
max_nvidia_gpus = 16

abbrev pub max_amd_gpus : ℕ
max_amd_gpus = 16

abbrev pub max_hwmon_sensors : ℕ
max_hwmon_sensors = 128

abbrev pub max_thermal_zones : ℕ
max_thermal_zones = 128

abbrev pub max_board_sensors : ℕ
max_board_sensors = 128

abbrev pub max_fans : ℕ
max_fans = 64

abbrev pub max_psus : ℕ
max_psus = 16

-- `tm_arch_t`
pub data Arch : Type 0 where
  unknown x86_64 arm64 : Arch

pub record CpuCore {ℓ} (D : Type ℓ) : Type ℓ where
  pub core_id : ℤ
  pub temp_c : D
  pub crit_c : D
  pub max_c : D
  pub throttling : Bool

pub record CpuPackage {ℓ} (D : Type ℓ) : Type ℓ where
  pub package_id : ℤ
  pub package_temp_c : D
  pub tjmax_c : D
  pub rapl_energy_uj : D
  pub power_limit_1_w : D
  pub power_limit_2_w : D
  pub cores : List (CpuCore D)

pub record ArmCluster {ℓ} (D : Type ℓ) : Type ℓ where
  pub cluster_id : ℤ
  pub zone_name : Bytes
  pub zone_type : Bytes
  pub temp_c : D
  pub cur_freq_mhz : D
  pub throttling : Bool

pub record NvidiaGpu {ℓ} (D : Type ℓ) : Type ℓ where
  pub gpu_index : ℤ
  pub name : Bytes
  pub uuid : Bytes
  pub pci_bus_id : Bytes
  pub gpu_temp_c : D
  pub memory_temp_c : D
  pub power_draw_w : D
  pub power_limit_w : D
  pub sm_clock_mhz : ℕ
  pub mem_clock_mhz : ℕ
  pub gpu_util_pct : ℕ
  pub mem_util_pct : ℕ
  pub throttle_reasons : ℕ
  pub cuda_ordinal : ℤ
  pub cuda_compute_major : ℤ
  pub cuda_compute_minor : ℤ
  pub cuda_multiprocessors : ℤ
  pub cuda_driver_version : ℤ
  pub cuda_runtime_version : ℤ
  pub cuda_total_memory_bytes : ℕ

pub record AmdGpu {ℓ} (D : Type ℓ) : Type ℓ where
  pub gpu_index : ℤ
  pub name : Bytes
  pub edge_temp_c : D
  pub junction_temp_c : D
  pub memory_temp_c : D
  pub avg_power_w : D
  pub power_cap_w : D
  pub thermal_throttling : Bool

pub record Sensor {ℓ} (D : Type ℓ) : Type ℓ where
  pub name : Bytes
  pub label : Bytes
  pub value : D
  pub unit : Bytes

pub record BoardSensor {ℓ} (D : Type ℓ) : Type ℓ where
  pub name : Bytes
  pub sensor_type : Bytes
  pub source : Bytes
  pub value : D
  pub unit : Bytes

pub record FanSensor {ℓ} (D : Type ℓ) : Type ℓ where
  pub name : Bytes
  pub source : Bytes
  pub rpm : D
  pub pwm_pct : D

pub record PsuSensor {ℓ} (D : Type ℓ) : Type ℓ where
  pub name : Bytes
  pub source : Bytes
  pub inlet_temp_c : D
  pub exhaust_temp_c : D
  pub power_w : D
  pub present : Bool

-- `struct timespec`
pub record Timespec : Type 0 where
  pub sec : ℤ
  pub nsec : ℤ

pub record Snapshot {ℓ} (D : Type ℓ) : Type ℓ where
  pub timestamp : Timespec
  pub arch : Arch
  pub capabilities : ℕ
  pub cpu_packages : List (CpuPackage D)
  pub arm_clusters : List (ArmCluster D)
  pub nvidia_gpus : List (NvidiaGpu D)
  pub amd_gpus : List (AmdGpu D)
  pub hwmon_sensors : List (Sensor D)
  pub thermal_zones : List (Sensor D)
  pub board_sensors : List (BoardSensor D)
  pub fan_sensors : List (FanSensor D)
  pub psu_sensors : List (PsuSensor D)
