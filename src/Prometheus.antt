-- ===== src/Prometheus.antt =====
-- src/format/prometheus.c: `append_metric` and the bodies of the loops of
-- `tm_snapshot_to_prometheus`. The writer is that of Writer.antt; the return value of
-- `append_metric` is dropped, so a chain of calls is a chain with `⨾`.
pub mod Gpu
pub mod Document
pub mod Samples
pub mod Simulates
pub mod Emits
pub mod Writes
pub mod Renders
use thermal_observatory.Base.{
  ℕ, Bool, true, false, [], ◌∷◌, ◌++◌, ltb, if◌then◌else◌, Bytes, codes, length,
}
use thermal_observatory.Base.Int.{ℤ}
use thermal_observatory.Double.{Double, nought, one}
use thermal_observatory.Libc.Print.{signed}
use thermal_observatory.Platform.Paths.{snprintf}
use thermal_observatory.Snapshot.{
  CpuCore, CpuPackage, ArmCluster, Sensor, BoardSensor, FanSensor, PsuSensor,
}
use thermal_observatory.Writer.{Action, Sink, ◌⨾◌, for_each}

-- `b ? 1.0 : 0.0`
abbrev pub flag {ℓ} : {D : Type ℓ} ⦃d : Double D⦄ → Bool → D
flag b = if b then one else nought

module _ {ℓ} {W : Type 0} ⦃sink : Sink W⦄ {D : Type ℓ} ⦃d : Double D⦄ where
  unfoldable pub append_metric : Bytes → Bytes → D → Action W
  append_metric name labels value =
      if ltb 0 (length labels)
      then sink.append
          (name ++ (codes "{" ++ (labels ++ (codes "} " ++ (d.fixed 6 value ++ codes "\n")))))
      else sink.append (name ++ (codes " " ++ (d.fixed 6 value ++ codes "\n")))

  unfoldable pub prom_core : ℤ → CpuCore D → Action W
  prom_core package_id core =
      let labels = snprintf 512 (
        codes "package=\""
        ++ (signed package_id
            ++ (codes "\",core=\"" ++ (signed core.core_id ++ codes "\",source=\"coretemp\"")))) in
      append_metric (codes "thermal_cpu_core_temperature_celsius") labels core.temp_c
      ⨾ append_metric (codes "thermal_cpu_core_crit_celsius") labels core.crit_c
      ⨾ append_metric (codes "thermal_cpu_core_max_celsius") labels core.max_c
      ⨾ append_metric (codes "thermal_cpu_core_throttling") labels (flag core.throttling)

  unfoldable pub prom_package : CpuPackage D → Action W
  prom_package pkg =
      let labels = snprintf 512 (
        codes "package=\"" ++ (signed pkg.package_id ++ codes "\",source=\"coretemp_powercap\"")) in
      append_metric (codes "thermal_cpu_package_temperature_celsius") labels pkg.package_temp_c
      ⨾ append_metric (codes "thermal_cpu_package_tjmax_celsius") labels pkg.tjmax_c
      ⨾ append_metric (codes "thermal_cpu_package_rapl_energy_uj") labels pkg.rapl_energy_uj
      ⨾ append_metric (codes "thermal_cpu_package_power_limit_1_watts") labels pkg.power_limit_1_w
      ⨾ append_metric (codes "thermal_cpu_package_power_limit_2_watts") labels pkg.power_limit_2_w
      ⨾ for_each (prom_core pkg.package_id) pkg.cores

  unfoldable pub prom_cluster : ArmCluster D → Action W
  prom_cluster cluster =
      let labels = snprintf 512 (
        codes "cluster=\""
        ++ (signed cluster.cluster_id
            ++ (codes "\",zone=\""
                ++ (cluster.zone_name
                    ++ (codes "\",type=\""
                        ++ (cluster.zone_type ++ codes "\",source=\"thermal_zone_cpufreq\"")))))) in
      append_metric (codes "thermal_arm_cluster_temperature_celsius") labels cluster.temp_c
      ⨾ append_metric (codes "thermal_arm_cluster_frequency_mhz") labels cluster.cur_freq_mhz
      ⨾ append_metric (codes "thermal_arm_cluster_throttling") labels (flag cluster.throttling)

  unfoldable pub prom_hwmon : Sensor D → Action W
  prom_hwmon sensor =
      append_metric (codes "thermal_hwmon_value")
        (snprintf 512 (
          codes "name=\""
          ++ (sensor.name
              ++ (codes "\",label=\"" ++ (sensor.label ++ codes "\",source=\"hwmon\"")))))
        sensor.value

  unfoldable pub prom_zone : Sensor D → Action W
  prom_zone sensor =
      append_metric (codes "thermal_zone_value")
        (snprintf 512 (
          codes "name=\""
          ++ (sensor.name
              ++ (codes "\",label=\"" ++ (sensor.label ++ codes "\",source=\"thermal_zone\"")))))
        sensor.value

  unfoldable pub prom_board : BoardSensor D → Action W
  prom_board sensor =
      append_metric (codes "thermal_board_sensor_value")
        (snprintf 512 (
          codes "name=\""
          ++ (sensor.name
              ++ (codes "\",sensor_type=\""
                  ++ (sensor.sensor_type
                      ++ (codes "\",source=\"" ++ (sensor.source ++ codes "\"")))))))
        sensor.value

  unfoldable pub prom_fan : FanSensor D → Action W
  prom_fan fan =
      let labels =
        snprintf 512
          (codes "name=\"" ++ (fan.name ++ (codes "\",source=\"" ++ (fan.source ++ codes "\"")))) in
      append_metric (codes "thermal_fan_rpm") labels fan.rpm
      ⨾ append_metric (codes "thermal_fan_pwm_percent") labels fan.pwm_pct

  unfoldable pub prom_psu : PsuSensor D → Action W
  prom_psu psu =
      let labels =
        snprintf 512
          (codes "name=\"" ++ (psu.name ++ (codes "\",source=\"" ++ (psu.source ++ codes "\"")))) in
      append_metric (codes "thermal_psu_inlet_temperature_celsius") labels psu.inlet_temp_c
      ⨾ append_metric (codes "thermal_psu_exhaust_temperature_celsius") labels psu.exhaust_temp_c
      ⨾ append_metric (codes "thermal_psu_power_watts") labels psu.power_w
      ⨾ append_metric (codes "thermal_psu_present") labels (flag psu.present)
