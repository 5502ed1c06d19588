-- ===== src/Snapshot/Bounds.antt =====
-- Which snapshots fit the arrays of include/thermal_monitor.h: no list is longer than its array, and
-- no text is too long for its `char` array with the NUL behind it.
use thermal_observatory.Base.{
  ℕ, ◌≤◌, ◌<◌, List, [], ◌∷◌, ◌++◌, arith, length, length-append, All, All-append,
}
use thermal_observatory.Snapshot.{
  max_cpu_packages, max_cpu_cores, max_arm_clusters, max_nvidia_gpus, max_amd_gpus,
  max_hwmon_sensors, max_thermal_zones, max_board_sensors, max_fans, max_psus, CpuPackage,
  ArmCluster, NvidiaGpu, AmdGpu, Sensor, BoardSensor, FanSensor, PsuSensor, Snapshot,
}

-- A list of at most `n` elements, each of which fits.
pub record FitsArray {ℓ κ} {A : Type ℓ} (n : ℕ) (P : A → Type κ) (xs : List A) : Type κ where
  pub count : length xs ≤ n
  pub each : All P xs

pub FitsArray-concat {ℓ κ} :
    {A : Type ℓ} (n : ℕ) (P : A → Type κ) (xs : List A) (x : A)
    → FitsArray n P xs
    → length xs < n
    → P x
    → FitsArray n P (xs ++ x ∷ [])
FitsArray-concat n P xs x h lt p = record {
  count = omega (arith, length-append xs (x ∷ []));
  each = All-append P xs (x ∷ []) h.each (p, tt);
}

module _ {ℓ} {D : Type ℓ} where
  abbrev pub PackageFits : CpuPackage D → Type 0
  PackageFits pkg = length pkg.cores ≤ max_cpu_cores

  abbrev pub ClusterFits : ArmCluster D → Type 0
  ClusterFits c = (length c.zone_name < 64) × (length c.zone_type < 64)

  abbrev pub NvidiaFits : NvidiaGpu D → Type 0
  NvidiaFits g = (length g.name < 128) × (length g.uuid < 96) × (length g.pci_bus_id < 32)

  abbrev pub AmdFits : AmdGpu D → Type 0
  AmdFits g = length g.name < 128

  abbrev pub SensorFits : Sensor D → Type 0
  SensorFits s = (length s.name < 64) × (length s.label < 64) × (length s.unit < 16)

  abbrev pub BoardFits : BoardSensor D → Type 0
  BoardFits s =
      (length s.name < 64)
      × (length s.sensor_type < 32)
      × (length s.source < 32)
      × (length s.unit < 16)

  abbrev pub FanFits : FanSensor D → Type 0
  FanFits f = (length f.name < 64) × (length f.source < 32)

  abbrev pub PsuFits : PsuSensor D → Type 0
  PsuFits p = (length p.name < 64) × (length p.source < 32)

  pub record IsBounded (snap : Snapshot D) : Type 0 where
    pub packages_fit : FitsArray max_cpu_packages PackageFits snap.cpu_packages
    pub clusters_fit : FitsArray max_arm_clusters ClusterFits snap.arm_clusters
    pub nvidia_fit : FitsArray max_nvidia_gpus NvidiaFits snap.nvidia_gpus
    pub amd_fit : FitsArray max_amd_gpus AmdFits snap.amd_gpus
    pub hwmon_fit : FitsArray max_hwmon_sensors SensorFits snap.hwmon_sensors
    pub zones_fit : FitsArray max_thermal_zones SensorFits snap.thermal_zones
    pub boards_fit : FitsArray max_board_sensors BoardFits snap.board_sensors
    pub fans_fit : FitsArray max_fans FanFits snap.fan_sensors
    pub psus_fit : FitsArray max_psus PsuFits snap.psu_sensors

  -- The bits say nothing of the arrays.
  pub IsBounded-capabilities :
      (snap : Snapshot D) (caps : ℕ)
      → IsBounded snap
      → IsBounded (record snap { capabilities = caps })
  IsBounded-capabilities snap caps h = ground arith
