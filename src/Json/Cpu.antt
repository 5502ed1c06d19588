-- ===== src/Json/Cpu.antt =====
-- The loops over CPU packages and ARM clusters in `tm_snapshot_to_json`.
use thermal_observatory.Base.{false, ◌++◌, codes}
use thermal_observatory.Base.Int.{ℤ}
use thermal_observatory.Double.{Double}
use thermal_observatory.Json.{lit, append_json_string, append_metric_number, append_metric_bool}
use thermal_observatory.Libc.Print.{signed}
use thermal_observatory.Snapshot.{CpuCore, CpuPackage, ArmCluster}
use thermal_observatory.Writer.{Action, Sink, ◌>>◌, for_separated}

module _ {ℓ} {W : Type 0} ⦃sink : Sink W⦄ {D : Type ℓ} ⦃d : Double D⦄ (ts_ns : ℤ) where
  unfoldable pub json_core : CpuCore D → Action W
  json_core core =
      sink.append (codes "{\"core_id\":" ++ (signed core.core_id ++ codes ",\"metrics\":{"))
      >> lit "\"temp_c\":"
      >> append_metric_number core.temp_c (codes "celsius") (codes "coretemp") ts_ns
      >> lit ",\"crit_c\":"
      >> append_metric_number core.crit_c (codes "celsius") (codes "coretemp") ts_ns
      >> lit ",\"max_c\":"
      >> append_metric_number core.max_c (codes "celsius") (codes "coretemp") ts_ns
      >> lit ",\"throttling\":"
      >> append_metric_bool core.throttling (codes "coretemp") ts_ns
      >> lit "}}"

  unfoldable pub json_package : CpuPackage D → Action W
  json_package pkg =
      sink.append (codes "{\"package_id\":" ++ (signed pkg.package_id ++ codes ",\"metrics\":{"))
      >> lit "\"package_temp_c\":"
      >> append_metric_number pkg.package_temp_c (codes "celsius") (codes "coretemp") ts_ns
      >> lit ",\"tjmax_c\":"
      >> append_metric_number pkg.tjmax_c (codes "celsius") (codes "coretemp") ts_ns
      >> lit ",\"rapl_energy_uj\":"
      >> append_metric_number pkg.rapl_energy_uj (codes "microjoules") (codes "powercap") ts_ns
      >> lit ",\"power_limit_1_w\":"
      >> append_metric_number pkg.power_limit_1_w (codes "watts") (codes "powercap") ts_ns
      >> lit ",\"power_limit_2_w\":"
      >> append_metric_number pkg.power_limit_2_w (codes "watts") (codes "powercap") ts_ns
      >> lit "},\"cores\":["
      >> for_separated (lit ",") json_core false pkg.cores
      >> lit "]}"

  unfoldable pub json_cluster : ArmCluster D → Action W
  json_cluster cluster =
      sink.append
        (codes "{\"cluster_id\":" ++ (signed cluster.cluster_id ++ codes ",\"zone_name\":"))
      >> append_json_string cluster.zone_name
      >> lit ",\"zone_type\":"
      >> append_json_string cluster.zone_type
      >> lit ",\"metrics\":{"
      >> lit "\"temp_c\":"
      >> append_metric_number cluster.temp_c (codes "celsius") (codes "thermal_zone") ts_ns
      >> lit ",\"cur_freq_mhz\":"
      >> append_metric_number cluster.cur_freq_mhz (codes "mhz") (codes "cpufreq") ts_ns
      >> lit ",\"throttling\":"
      >> append_metric_bool cluster.throttling (codes "thermal_zone") ts_ns
      >> lit "}}"
