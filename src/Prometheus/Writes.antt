-- ===== src/Prometheus/Writes.antt =====
-- Each loop of `tm_snapshot_to_prometheus` writes the samples of its element, and the whole document
-- the exposition of the snapshot.
use thermal_observatory.Base.{
  ℕ, ◌≡◌, ap, ◌∙◌, [], ◌∷◌, append-nil, append_assoc, Bytes, codes, if◌then◌else◌,
}
use thermal_observatory.Base.Int.{ℤ}
use thermal_observatory.Double.{Double}
use thermal_observatory.Libc.Print.{signed}
use thermal_observatory.Prometheus.{
  flag, prom_core, prom_package, prom_cluster, prom_hwmon, prom_zone, prom_board, prom_fan,
  prom_psu,
}
use thermal_observatory.Prometheus.Document.{prom_lists, prom_document, seconds}
use thermal_observatory.Prometheus.Emits.{
  Emits, Emits-append_metric, Emits-cons, Emits-seq, Emits-for_each,
}
use thermal_observatory.Prometheus.Gpu.{prom_reason, prom_nvidia, prom_amd, reasons}
use thermal_observatory.Prometheus.Samples.{
  core_samples, package_samples, cluster_samples, reason_samples, nvidia_samples, amd_samples,
  sensor_samples, board_samples, fan_samples, psu_samples, list_samples, prometheus_text,
}
use thermal_observatory.Snapshot.{
  CpuCore, CpuPackage, ArmCluster, NvidiaGpu, AmdGpu, Sensor, BoardSensor, FanSensor, PsuSensor,
  Snapshot,
}
use thermal_observatory.Snapshot.Capability.{has, nvidia_nvml, amd_rocm_smi}
use thermal_observatory.Writer.{text_sink, text_of, ◌⨾◌}

module _ {ℓ} {D : Type ℓ} ⦃d : Double D⦄ where
  Emits-prom_core :
      (package_id : ℤ) (core : CpuCore D)
      → Emits (prom_core package_id core) (core_samples package_id core)
  unfolding prom_core core_samples
  Emits-prom_core package_id core =
      let labels =
        (codes "package", signed package_id)
        ∷ (codes "core", signed core.core_id)
        ∷ (codes "source", codes "coretemp")
        ∷ [] in
      Emits-cons _ labels core.temp_c (
        Emits-cons _ labels core.crit_c
          (Emits-cons _ labels core.max_c (Emits-append_metric _ labels (flag core.throttling))))

  Emits-prom_package : (pkg : CpuPackage D) → Emits (prom_package pkg) (package_samples pkg)
  unfolding prom_package package_samples
  Emits-prom_package pkg =
      let labels =
        (codes "package", signed pkg.package_id)
        ∷ (codes "source", codes "coretemp_powercap")
        ∷ [] in
      Emits-cons _ labels pkg.package_temp_c (
        Emits-cons _ labels pkg.tjmax_c (
          Emits-cons _ labels pkg.rapl_energy_uj (
            Emits-cons _ labels pkg.power_limit_1_w (
              Emits-cons _ labels pkg.power_limit_2_w
                (Emits-for_each (Emits-prom_core pkg.package_id) pkg.cores)))))

  Emits-prom_cluster :
      (cluster : ArmCluster D) → Emits (prom_cluster cluster) (cluster_samples cluster)
  unfolding prom_cluster cluster_samples
  Emits-prom_cluster cluster =
      let labels =
        (codes "cluster", signed cluster.cluster_id)
        ∷ (codes "zone", cluster.zone_name)
        ∷ (codes "type", cluster.zone_type)
        ∷ (codes "source", codes "thermal_zone_cpufreq")
        ∷ [] in
      Emits-cons _ labels _ (Emits-cons _ labels _ (Emits-append_metric _ labels _))

  Emits-prom_reason :
      (gpu : NvidiaGpu D) (r : ℕ × Bytes) → Emits (prom_reason gpu r) (reason_samples gpu r)
  unfolding prom_reason reason_samples
  Emits-prom_reason gpu (k, reason) =
      Emits-append_metric _
        ((codes "vendor", codes "nvidia")
          ∷ (codes "index", signed gpu.gpu_index)
          ∷ (codes "uuid", gpu.uuid)
          ∷ (codes "reason", reason)
          ∷ (codes "source", codes "nvml")
          ∷ [])
        _

  Emits-prom_nvidia :
      (caps : ℕ) (gpu : NvidiaGpu D) → Emits (prom_nvidia caps gpu) (nvidia_samples caps gpu)
  unfolding prom_nvidia nvidia_samples
  Emits-prom_nvidia caps gpu =
      let labels =
        (codes "vendor", codes "nvidia")
        ∷ (codes "index", signed gpu.gpu_index)
        ∷ (codes "uuid", gpu.uuid)
        ∷ (codes "source", if has caps nvidia_nvml then codes "nvml" else codes "cuda")
        ∷ [] in
      Emits-cons _ labels _ (
        Emits-cons _ labels _ (
          Emits-cons _ labels _ (
            Emits-cons _ labels _ (
              Emits-cons _ labels _ (
                Emits-cons _ labels _ (
                  Emits-cons _ labels _ (
                    Emits-cons _ labels _ (
                      Emits-cons _ labels _ (
                        Emits-cons _ labels _
                          (Emits-for_each (Emits-prom_reason gpu) reasons))))))))))

  Emits-prom_amd : (caps : ℕ) (gpu : AmdGpu D) → Emits (prom_amd caps gpu) (amd_samples caps gpu)
  unfolding prom_amd amd_samples
  Emits-prom_amd caps gpu =
      let labels =
        (codes "vendor", codes "amd")
        ∷ (codes "index", signed gpu.gpu_index)
        ∷ (codes "name", gpu.name)
        ∷ (codes "source", if has caps amd_rocm_smi then codes "rocm_smi" else codes "amdgpu_hwmon")
        ∷ [] in
      Emits-cons _ labels _ (
        Emits-cons _ labels _ (
          Emits-cons _ labels _
            (Emits-cons _ labels _ (Emits-cons _ labels _ (Emits-append_metric _ labels _)))))

  Emits-prom_hwmon :
      (sensor : Sensor D)
      → Emits (prom_hwmon sensor) (sensor_samples "thermal_hwmon_value" "hwmon" sensor)
  unfolding prom_hwmon sensor_samples
  Emits-prom_hwmon sensor =
      Emits-append_metric _
        ((codes "name", sensor.name)
          ∷ (codes "label", sensor.label)
          ∷ (codes "source", codes "hwmon")
          ∷ [])
        sensor.value

  Emits-prom_zone :
      (sensor : Sensor D)
      → Emits (prom_zone sensor) (sensor_samples "thermal_zone_value" "thermal_zone" sensor)
  unfolding prom_zone sensor_samples
  Emits-prom_zone sensor =
      Emits-append_metric _
        ((codes "name", sensor.name)
          ∷ (codes "label", sensor.label)
          ∷ (codes "source", codes "thermal_zone")
          ∷ [])
        sensor.value

  Emits-prom_board : (sensor : BoardSensor D) → Emits (prom_board sensor) (board_samples sensor)
  unfolding prom_board board_samples
  Emits-prom_board sensor =
      Emits-append_metric _
        ((codes "name", sensor.name)
          ∷ (codes "sensor_type", sensor.sensor_type)
          ∷ (codes "source", sensor.source)
          ∷ [])
        sensor.value

  Emits-prom_fan : (fan : FanSensor D) → Emits (prom_fan fan) (fan_samples fan)
  unfolding prom_fan fan_samples
  Emits-prom_fan fan =
      let labels = (codes "name", fan.name) ∷ (codes "source", fan.source) ∷ [] in
      Emits-cons _ labels _ (Emits-append_metric _ labels _)

  Emits-prom_psu : (psu : PsuSensor D) → Emits (prom_psu psu) (psu_samples psu)
  unfolding prom_psu psu_samples
  Emits-prom_psu psu =
      let labels = (codes "name", psu.name) ∷ (codes "source", psu.source) ∷ [] in
      Emits-cons _ labels _
        (Emits-cons _ labels _ (Emits-cons _ labels _ (Emits-append_metric _ labels _)))

module _ {ℓ} {D : Type ℓ} ⦃d : Double D⦄ (snap : Snapshot D) where
  Emits-prom_lists : Emits (prom_lists snap) (list_samples snap)
  unfolding prom_lists list_samples
  Emits-prom_lists = Emits-seq (Emits-for_each Emits-prom_package snap.cpu_packages) (
      Emits-seq (Emits-for_each Emits-prom_cluster snap.arm_clusters) (
        Emits-seq (Emits-for_each (Emits-prom_nvidia snap.capabilities) snap.nvidia_gpus) (
          Emits-seq (Emits-for_each (Emits-prom_amd snap.capabilities) snap.amd_gpus) (
            Emits-seq (Emits-for_each Emits-prom_hwmon snap.hwmon_sensors) (
              Emits-seq (Emits-for_each Emits-prom_zone snap.thermal_zones) (
                Emits-seq (Emits-for_each Emits-prom_board snap.board_sensors) (
                  Emits-seq (Emits-for_each Emits-prom_fan snap.fan_sensors)
                    (Emits-for_each Emits-prom_psu snap.psu_sensors))))))))

  pub text_of-prom_document : text_of (prom_document snap) ≡ prometheus_text snap
  unfolding prom_document prometheus_text ◌⨾◌
  text_of-prom_document =
      let samples =
        Emits-cons (codes "thermal_snapshot_timestamp_seconds") [] (seconds snap.timestamp)
          Emits-prom_lists in
      ap (λ r. r.1 []) (samples.writes _) ∙ simp (append-nil, append_assoc)
