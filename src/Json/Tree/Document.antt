-- ===== src/Json/Tree/Document.antt =====
-- The JSON value that a snapshot stands for.
use thermal_observatory.Base.{ℕ, not, List, [], ◌∷◌, ◌++◌, Bytes, codes, length, if◌then◌else◌}
use thermal_observatory.Base.Int.{ℤ}
use thermal_observatory.Double.{Double, of_unsigned}
use thermal_observatory.Json.{snapshot_timestamp_ns, arch_name, nvidia_source, amd_source}
use thermal_observatory.Json.Capabilities.{cap_names}
use thermal_observatory.Json.Tree.{
  Json, bool, null, num, str, arr, Items, nil, cons, items, Fields, obj, fields_of, object, ◌:=◌,
}
use thermal_observatory.Libc.Print.{decimal, signed}
use thermal_observatory.Snapshot.{
  CpuCore, CpuPackage, ArmCluster, NvidiaGpu, AmdGpu, Sensor, BoardSensor, FanSensor, PsuSensor,
  Snapshot,
}
use thermal_observatory.Snapshot.Capability.{Capability, has}

-- A reading with its provenance.
unfoldable pub metric : Json → Bytes → Bytes → ℤ → Json
metric value unit source ts_ns = object (
    ("value" := value)
    ∷ ("unit" := str unit)
    ∷ ("source" := str source)
    ∷ ("timestamp_ns" := num (signed ts_ns))
    ∷ ("error" := null)
    ∷ [])

-- The names of the bits that are set, in the order of the table.
abbrev pub set_names : ℕ → List (Capability × Bytes) → Items
set_names caps [] = nil
set_names caps ((bit, name) ∷ rest) =
    if not (has caps bit) then set_names caps rest else cons (str name) (set_names caps rest)

module _ {ℓ} {D : Type ℓ} ⦃d : Double D⦄ (ts_ns : ℤ) where
  abbrev pub number : D → Bytes → Bytes → Json
  number value unit source = metric (num (d.fixed 6 value)) unit source ts_ns

  unfoldable pub core_tree : CpuCore D → Json
  core_tree core = object (
      ("core_id" := num (signed core.core_id))
      ∷ ("metrics"
          := object (
              ("temp_c" := number core.temp_c (codes "celsius") (codes "coretemp"))
              ∷ ("crit_c" := number core.crit_c (codes "celsius") (codes "coretemp"))
              ∷ ("max_c" := number core.max_c (codes "celsius") (codes "coretemp"))
              ∷ ("throttling"
                  := metric (bool core.throttling) (codes "bool") (codes "coretemp") ts_ns)
              ∷ []))
      ∷ [])

  unfoldable pub package_tree : CpuPackage D → Json
  package_tree pkg = object (
      ("package_id" := num (signed pkg.package_id))
      ∷ ("metrics"
          := object (
              ("package_temp_c" := number pkg.package_temp_c (codes "celsius") (codes "coretemp"))
              ∷ ("tjmax_c" := number pkg.tjmax_c (codes "celsius") (codes "coretemp"))
              ∷ ("rapl_energy_uj"
                  := number pkg.rapl_energy_uj (codes "microjoules") (codes "powercap"))
              ∷ ("power_limit_1_w" := number pkg.power_limit_1_w (codes "watts") (codes "powercap"))
              ∷ ("power_limit_2_w" := number pkg.power_limit_2_w (codes "watts") (codes "powercap"))
              ∷ []))
      ∷ ("cores" := arr (items core_tree pkg.cores))
      ∷ [])

  unfoldable pub cluster_tree : ArmCluster D → Json
  cluster_tree cluster = object (
      ("cluster_id" := num (signed cluster.cluster_id))
      ∷ ("zone_name" := str cluster.zone_name)
      ∷ ("zone_type" := str cluster.zone_type)
      ∷ ("metrics"
          := object (
              ("temp_c" := number cluster.temp_c (codes "celsius") (codes "thermal_zone"))
              ∷ ("cur_freq_mhz" := number cluster.cur_freq_mhz (codes "mhz") (codes "cpufreq"))
              ∷ ("throttling"
                  := metric (bool cluster.throttling) (codes "bool") (codes "thermal_zone") ts_ns)
              ∷ []))
      ∷ [])

  unfoldable pub board_tree : BoardSensor D → Json
  board_tree sensor = object (
      ("name" := str sensor.name)
      ∷ ("sensor_type" := str sensor.sensor_type)
      ∷ ("metric" := number sensor.value sensor.unit sensor.source)
      ∷ [])

  unfoldable pub fan_tree : FanSensor D → Json
  fan_tree fan = object (
      ("name" := str fan.name)
      ∷ ("metrics"
          := object (
              ("rpm" := number fan.rpm (codes "rpm") fan.source)
              ∷ ("pwm_pct" := number fan.pwm_pct (codes "percent") fan.source)
              ∷ []))
      ∷ [])

  unfoldable pub psu_tree : PsuSensor D → Json
  psu_tree psu = object (
      ("name" := str psu.name)
      ∷ ("metrics"
          := object (
              ("inlet_temp_c" := number psu.inlet_temp_c (codes "celsius") psu.source)
              ∷ ("exhaust_temp_c" := number psu.exhaust_temp_c (codes "celsius") psu.source)
              ∷ ("power_w" := number psu.power_w (codes "watts") psu.source)
              ∷ ("present" := metric (bool psu.present) (codes "bool") psu.source ts_ns)
              ∷ []))
      ∷ [])

module _ {ℓ} {D : Type ℓ} ⦃d : Double D⦄ (ts_ns : ℤ) (src : Bytes) where
  unfoldable pub sensor_tree : Sensor D → Json
  sensor_tree sensor = object (
      ("name" := str sensor.name)
      ∷ ("label" := str sensor.label)
      ∷ ("metric" := number ts_ns sensor.value sensor.unit src)
      ∷ [])

  unfoldable pub nvidia_metrics_fields : NvidiaGpu D → Fields
  nvidia_metrics_fields gpu = fields_of (
      ("gpu_temp_c" := number ts_ns gpu.gpu_temp_c (codes "celsius") src)
      ∷ ("memory_temp_c" := number ts_ns gpu.memory_temp_c (codes "celsius") src)
      ∷ ("power_draw_w" := number ts_ns gpu.power_draw_w (codes "watts") src)
      ∷ ("power_limit_w" := number ts_ns gpu.power_limit_w (codes "watts") src)
      ∷ ("sm_clock_mhz" := number {D = D} ts_ns (of_unsigned gpu.sm_clock_mhz) (codes "mhz") src)
      ∷ ("mem_clock_mhz" := number {D = D} ts_ns (of_unsigned gpu.mem_clock_mhz) (codes "mhz") src)
      ∷ ("gpu_util_pct"
          := number {D = D} ts_ns (of_unsigned gpu.gpu_util_pct) (codes "percent") src)
      ∷ ("mem_util_pct"
          := number {D = D} ts_ns (of_unsigned gpu.mem_util_pct) (codes "percent") src)
      ∷ ("throttle_reasons"
          := number {D = D} ts_ns (of_unsigned gpu.throttle_reasons) (codes "bitmask") src)
      ∷ [])

  unfoldable pub nvidia_cuda_fields : NvidiaGpu D → Fields
  nvidia_cuda_fields gpu = fields_of (
      ("ordinal" := number {D = D} ts_ns (d.of_int gpu.cuda_ordinal) (codes "index") (codes "cuda"))
      ∷ ("compute_major"
          := number {D = D} ts_ns (d.of_int gpu.cuda_compute_major) (codes "version_component")
              (codes "cuda"))
      ∷ ("compute_minor"
          := number {D = D} ts_ns (d.of_int gpu.cuda_compute_minor) (codes "version_component")
              (codes "cuda"))
      ∷ ("multiprocessors"
          := number {D = D} ts_ns (d.of_int gpu.cuda_multiprocessors) (codes "count")
              (codes "cuda"))
      ∷ ("driver_version"
          := number {D = D} ts_ns (d.of_int gpu.cuda_driver_version) (codes "version")
              (codes "cuda"))
      ∷ ("runtime_version"
          := number {D = D} ts_ns (d.of_int gpu.cuda_runtime_version) (codes "version")
              (codes "cuda"))
      ∷ ("total_memory_bytes"
          := number {D = D} ts_ns (of_unsigned gpu.cuda_total_memory_bytes) (codes "bytes")
              (codes "cuda"))
      ∷ [])

  unfoldable pub nvidia_tree : NvidiaGpu D → Json
  nvidia_tree gpu = object (
      ("gpu_index" := num (signed gpu.gpu_index))
      ∷ ("name" := str gpu.name)
      ∷ ("uuid" := str gpu.uuid)
      ∷ ("pci_bus_id" := str gpu.pci_bus_id)
      ∷ ("metrics" := obj (nvidia_metrics_fields gpu))
      ∷ ("cuda" := obj (nvidia_cuda_fields gpu))
      ∷ [])

  unfoldable pub amd_tree : AmdGpu D → Json
  amd_tree gpu = object (
      ("gpu_index" := num (signed gpu.gpu_index))
      ∷ ("name" := str gpu.name)
      ∷ ("metrics"
          := object (
              ("edge_temp_c" := number ts_ns gpu.edge_temp_c (codes "celsius") src)
              ∷ ("junction_temp_c" := number ts_ns gpu.junction_temp_c (codes "celsius") src)
              ∷ ("memory_temp_c" := number ts_ns gpu.memory_temp_c (codes "celsius") src)
              ∷ ("avg_power_w" := number ts_ns gpu.avg_power_w (codes "watts") src)
              ∷ ("power_cap_w" := number ts_ns gpu.power_cap_w (codes "watts") src)
              ∷ ("thermal_throttling"
                  := metric (bool gpu.thermal_throttling) (codes "bool") src ts_ns)
              ∷ []))
      ∷ [])

module _ {ℓ} {D : Type ℓ} ⦃d : Double D⦄ (snap : Snapshot D) where
  unfoldable pub summary_tree : Json
  summary_tree = object (
      ("cpu_package_count" := num (decimal (length snap.cpu_packages)))
      ∷ ("arm_cluster_count" := num (decimal (length snap.arm_clusters)))
      ∷ ("nvidia_gpu_count" := num (decimal (length snap.nvidia_gpus)))
      ∷ ("amd_gpu_count" := num (decimal (length snap.amd_gpus)))
      ∷ ("hwmon_sensor_count" := num (decimal (length snap.hwmon_sensors)))
      ∷ ("thermal_zone_count" := num (decimal (length snap.thermal_zones)))
      ∷ ("board_sensor_count" := num (decimal (length snap.board_sensors)))
      ∷ ("fan_sensor_count" := num (decimal (length snap.fan_sensors)))
      ∷ ("psu_sensor_count" := num (decimal (length snap.psu_sensors)))
      ∷ [])

  unfoldable pub header_fields : List (Bytes × Json)
  header_fields =
      ("schema_version" := str (codes "0.3.0"))
      ∷ ("release_version" := str (codes "0.1.0"))
      ∷ ("timestamp"
          := object (
              ("sec" := num (signed snap.timestamp.sec))
              ∷ ("nsec" := num (signed snap.timestamp.nsec))
              ∷ ("timestamp_ns" := num (signed (snapshot_timestamp_ns snap.timestamp)))
              ∷ []))
      ∷ ("arch" := str (arch_name snap.arch))
      ∷ ("capability_mask" := num (decimal snap.capabilities))
      ∷ ("capabilities" := arr (set_names snap.capabilities cap_names))
      ∷ []

  unfoldable pub host_fields : List (Bytes × Json)
  host_fields =
      let ts_ns = snapshot_timestamp_ns snap.timestamp in
      ("cpu_packages" := arr (items (package_tree ts_ns) snap.cpu_packages))
      ∷ ("arm_clusters" := arr (items (cluster_tree ts_ns) snap.arm_clusters))
      ∷ ("nvidia_gpus"
          := arr (items (nvidia_tree ts_ns (nvidia_source snap.capabilities)) snap.nvidia_gpus))
      ∷ ("amd_gpus" := arr (items (amd_tree ts_ns (amd_source snap.capabilities)) snap.amd_gpus))
      ∷ []

  unfoldable pub sensor_fields : List (Bytes × Json)
  sensor_fields =
      let ts_ns = snapshot_timestamp_ns snap.timestamp in
      ("hwmon_sensors" := arr (items (sensor_tree ts_ns (codes "hwmon")) snap.hwmon_sensors))
      ∷ ("thermal_zones"
          := arr (items (sensor_tree ts_ns (codes "thermal_zone")) snap.thermal_zones))
      ∷ ("board_sensors" := arr (items (board_tree ts_ns) snap.board_sensors))
      ∷ ("fan_sensors" := arr (items (fan_tree ts_ns) snap.fan_sensors))
      ∷ ("psu_sensors" := arr (items (psu_tree ts_ns) snap.psu_sensors))
      ∷ []

  unfoldable pub document_tree : Json
  unfolding header_fields host_fields sensor_fields
  document_tree =
      object
        (header_fields ++ (host_fields ++ (sensor_fields ++ (("summary" := summary_tree) ∷ []))))
