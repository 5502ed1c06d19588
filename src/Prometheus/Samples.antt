-- ===== src/Prometheus/Samples.antt =====
-- The samples that a snapshot stands for, and their text in the Prometheus exposition format, stated
-- with no reference to the formatter.
use Prim.Native.Nat.{bit_and}
use Prim.Native.String.{String}
use thermal_observatory.Base.{
  ℕ, ◌^◌, not, List, [], ◌∷◌, ◌++◌, ◌==◌, if◌then◌else◌, Bytes, codes, ltb, length, take, Bool,
  true, false,
}
use thermal_observatory.Base.Int.{ℤ}
use thermal_observatory.Double.{Double, of_unsigned}
use thermal_observatory.Libc.Print.{signed}
use thermal_observatory.Prometheus.{flag}
use thermal_observatory.Prometheus.Document.{seconds}
use thermal_observatory.Prometheus.Gpu.{reasons}
use thermal_observatory.Snapshot.{
  CpuCore, CpuPackage, ArmCluster, NvidiaGpu, AmdGpu, Sensor, BoardSensor, FanSensor, PsuSensor,
  Snapshot,
}
use thermal_observatory.Snapshot.Capability.{has, nvidia_nvml, amd_rocm_smi}

-- A labelled reading: the name of its metric, its labels and its value.
pub record Sample {ℓ} (D : Type ℓ) : Type ℓ where
  pub metric : Bytes
  pub labels : List (Bytes × Bytes)
  pub value : D

-- `key="value"` and a comma between two of them; values stand as they are.
abbrev pub label_text : Bool → List (Bytes × Bytes) → Bytes
label_text later [] = []
label_text true ((key, value) ∷ labels) =
    b',' ∷ (key ++ (b'=' ∷ b'"' ∷ (value ++ (b'"' ∷ label_text true labels))))
label_text false ((key, value) ∷ labels) =
    key ++ (b'=' ∷ b'"' ∷ (value ++ (b'"' ∷ label_text true labels)))

-- The labels between braces, which are left out with no labels; the first 511 bytes of them.
abbrev pub braces : Bytes → Bytes
braces text = if ltb 0 (length text) then b'{' ∷ (text ++ b'}' ∷ []) else []

abbrev pub concat_map {ℓ κ} : {A : Type ℓ} {B : Type κ} → (A → List B) → List A → List B
concat_map f [] = []
concat_map f (x ∷ xs) = f x ++ concat_map f xs

module _ {ℓ} {D : Type ℓ} ⦃d : Double D⦄ where
  unfoldable pub sample_line : Sample D → Bytes
  sample_line s =
      s.metric
      ++ (braces (take 511 (label_text false s.labels))
          ++ (b' ' ∷ (d.fixed 6 s.value ++ b'\n' ∷ [])))

  unfoldable pub exposition : List (Sample D) → Bytes
  exposition [] = []
  exposition (s ∷ samples) = sample_line s ++ exposition samples

  abbrev pub sample : String → List (Bytes × Bytes) → D → Sample D
  sample name labels value = record { metric = codes name; labels = labels; value = value }

  unfoldable pub core_samples : ℤ → CpuCore D → List (Sample D)
  core_samples package_id core =
      let labels =
        (codes "package", signed package_id)
        ∷ (codes "core", signed core.core_id)
        ∷ (codes "source", codes "coretemp")
        ∷ [] in
      sample "thermal_cpu_core_temperature_celsius" labels core.temp_c
      ∷ sample "thermal_cpu_core_crit_celsius" labels core.crit_c
      ∷ sample "thermal_cpu_core_max_celsius" labels core.max_c
      ∷ sample "thermal_cpu_core_throttling" labels (flag core.throttling)
      ∷ []

  unfoldable pub package_samples : CpuPackage D → List (Sample D)
  package_samples pkg =
      let labels =
        (codes "package", signed pkg.package_id)
        ∷ (codes "source", codes "coretemp_powercap")
        ∷ [] in
      sample "thermal_cpu_package_temperature_celsius" labels pkg.package_temp_c
      ∷ sample "thermal_cpu_package_tjmax_celsius" labels pkg.tjmax_c
      ∷ sample "thermal_cpu_package_rapl_energy_uj" labels pkg.rapl_energy_uj
      ∷ sample "thermal_cpu_package_power_limit_1_watts" labels pkg.power_limit_1_w
      ∷ sample "thermal_cpu_package_power_limit_2_watts" labels pkg.power_limit_2_w
      ∷ concat_map (core_samples pkg.package_id) pkg.cores

  unfoldable pub cluster_samples : ArmCluster D → List (Sample D)
  cluster_samples cluster =
      let labels =
        (codes "cluster", signed cluster.cluster_id)
        ∷ (codes "zone", cluster.zone_name)
        ∷ (codes "type", cluster.zone_type)
        ∷ (codes "source", codes "thermal_zone_cpufreq")
        ∷ [] in
      sample "thermal_arm_cluster_temperature_celsius" labels cluster.temp_c
      ∷ sample "thermal_arm_cluster_frequency_mhz" labels cluster.cur_freq_mhz
      ∷ sample "thermal_arm_cluster_throttling" labels (flag cluster.throttling)
      ∷ []

  unfoldable pub reason_samples : NvidiaGpu D → ℕ × Bytes → List (Sample D)
  reason_samples gpu (k, reason) =
      sample "thermal_gpu_throttle_reason"
        ((codes "vendor", codes "nvidia")
          ∷ (codes "index", signed gpu.gpu_index)
          ∷ (codes "uuid", gpu.uuid)
          ∷ (codes "reason", reason)
          ∷ (codes "source", codes "nvml")
          ∷ [])
        (flag (not (bit_and gpu.throttle_reasons (2 ^ k) == 0)))
      ∷ []

  unfoldable pub nvidia_samples : ℕ → NvidiaGpu D → List (Sample D)
  nvidia_samples caps gpu =
      let labels =
        (codes "vendor", codes "nvidia")
        ∷ (codes "index", signed gpu.gpu_index)
        ∷ (codes "uuid", gpu.uuid)
        ∷ (codes "source", if has caps nvidia_nvml then codes "nvml" else codes "cuda")
        ∷ [] in
      sample "thermal_gpu_temperature_celsius" labels gpu.gpu_temp_c
      ∷ sample "thermal_gpu_memory_temperature_celsius" labels gpu.memory_temp_c
      ∷ sample "thermal_gpu_power_watts" labels gpu.power_draw_w
      ∷ sample "thermal_gpu_power_limit_watts" labels gpu.power_limit_w
      ∷ sample "thermal_gpu_sm_clock_mhz" labels (of_unsigned gpu.sm_clock_mhz)
      ∷ sample "thermal_gpu_memory_clock_mhz" labels (of_unsigned gpu.mem_clock_mhz)
      ∷ sample "thermal_gpu_utilization_percent" labels (of_unsigned gpu.gpu_util_pct)
      ∷ sample "thermal_gpu_memory_utilization_percent" labels (of_unsigned gpu.mem_util_pct)
      ∷ sample "thermal_gpu_cuda_ordinal" labels (d.of_int gpu.cuda_ordinal)
      ∷ sample "thermal_gpu_cuda_total_memory_bytes" labels
          (of_unsigned gpu.cuda_total_memory_bytes)
      ∷ concat_map (reason_samples gpu) reasons

  unfoldable pub amd_samples : ℕ → AmdGpu D → List (Sample D)
  amd_samples caps gpu =
      let labels =
        (codes "vendor", codes "amd")
        ∷ (codes "index", signed gpu.gpu_index)
        ∷ (codes "name", gpu.name)
        ∷ (codes "source", if has caps amd_rocm_smi then codes "rocm_smi" else codes "amdgpu_hwmon")
        ∷ [] in
      sample "thermal_gpu_temperature_celsius" labels gpu.edge_temp_c
      ∷ sample "thermal_gpu_junction_temperature_celsius" labels gpu.junction_temp_c
      ∷ sample "thermal_gpu_memory_temperature_celsius" labels gpu.memory_temp_c
      ∷ sample "thermal_gpu_power_watts" labels gpu.avg_power_w
      ∷ sample "thermal_gpu_power_limit_watts" labels gpu.power_cap_w
      ∷ sample "thermal_gpu_thermal_throttling" labels (flag gpu.thermal_throttling)
      ∷ []

  -- A sensor of the metric `name`, from the collector `source`.
  unfoldable pub sensor_samples : String → String → Sensor D → List (Sample D)
  sensor_samples name source sensor =
      sample name
        ((codes "name", sensor.name)
          ∷ (codes "label", sensor.label)
          ∷ (codes "source", codes source)
          ∷ [])
        sensor.value
      ∷ []

  unfoldable pub board_samples : BoardSensor D → List (Sample D)
  board_samples sensor =
      sample "thermal_board_sensor_value"
        ((codes "name", sensor.name)
          ∷ (codes "sensor_type", sensor.sensor_type)
          ∷ (codes "source", sensor.source)
          ∷ [])
        sensor.value
      ∷ []

  unfoldable pub fan_samples : FanSensor D → List (Sample D)
  fan_samples fan =
      let labels = (codes "name", fan.name) ∷ (codes "source", fan.source) ∷ [] in
      sample "thermal_fan_rpm" labels fan.rpm
      ∷ sample "thermal_fan_pwm_percent" labels fan.pwm_pct
      ∷ []

  unfoldable pub psu_samples : PsuSensor D → List (Sample D)
  psu_samples psu =
      let labels = (codes "name", psu.name) ∷ (codes "source", psu.source) ∷ [] in
      sample "thermal_psu_inlet_temperature_celsius" labels psu.inlet_temp_c
      ∷ sample "thermal_psu_exhaust_temperature_celsius" labels psu.exhaust_temp_c
      ∷ sample "thermal_psu_power_watts" labels psu.power_w
      ∷ sample "thermal_psu_present" labels (flag psu.present)
      ∷ []

module _ {ℓ} {D : Type ℓ} ⦃d : Double D⦄ (snap : Snapshot D) where
  unfoldable pub list_samples : List (Sample D)
  list_samples =
      concat_map package_samples snap.cpu_packages
      ++ (concat_map cluster_samples snap.arm_clusters
          ++ (concat_map (nvidia_samples snap.capabilities) snap.nvidia_gpus
              ++ (concat_map (amd_samples snap.capabilities) snap.amd_gpus
                  ++ (concat_map (sensor_samples "thermal_hwmon_value" "hwmon") snap.hwmon_sensors
                      ++ (concat_map (sensor_samples "thermal_zone_value" "thermal_zone")
                            snap.thermal_zones
                          ++ (concat_map board_samples snap.board_sensors
                              ++ (concat_map fan_samples snap.fan_sensors
                                  ++ concat_map psu_samples snap.psu_sensors)))))))

  -- The exposition of a snapshot: a help line, a type line and the samples.
  unfoldable pub prometheus_text : Bytes
  prometheus_text =
      codes "# HELP thermal_snapshot_timestamp_seconds Snapshot collection time.\n"
      ++ (codes "# TYPE thermal_snapshot_timestamp_seconds gauge\n"
          ++ exposition (
              sample "thermal_snapshot_timestamp_seconds" [] (seconds snap.timestamp)
              ∷ list_samples))
