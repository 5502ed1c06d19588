-- ===== src/Prometheus/Simulates.antt =====
-- Every action of the Prometheus formatter writes one text, whatever the writer.
use thermal_observatory.Base.{ℕ, ltb, length, Bytes}
use thermal_observatory.Base.Int.{ℤ}
use thermal_observatory.Double.{Double}
use thermal_observatory.Prometheus.{
  append_metric, prom_core, prom_package, prom_cluster, prom_hwmon, prom_zone, prom_board, prom_fan,
  prom_psu,
}
use thermal_observatory.Prometheus.Document.{prom_lists, prom_document}
use thermal_observatory.Prometheus.Gpu.{prom_reason, prom_nvidia, prom_amd}
use thermal_observatory.Snapshot.{
  CpuCore, CpuPackage, ArmCluster, NvidiaGpu, AmdGpu, Sensor, BoardSensor, FanSensor, PsuSensor,
  Snapshot,
}
use thermal_observatory.Writer.{buffer_sink, text_sink}
use thermal_observatory.Writer.Simulates.{
  Simulates, Simulates-append, Simulates-seq, Simulates-if, Simulates-for_each,
}

module _ {ℓ} {D : Type ℓ} ⦃d : Double D⦄ where
  pub Simulates-append_metric :
      (name labels : Bytes) (value : D)
      → Simulates (append_metric name labels value) (append_metric name labels value)
  unfolding append_metric
  Simulates-append_metric name labels value =
      Simulates-if (ltb 0 (length labels)) (Simulates-append _) (Simulates-append _)

ruleset metric_rules = (Simulates-append, Simulates-append_metric, Simulates-seq)

module _ {ℓ} {D : Type ℓ} ⦃d : Double D⦄ where
  Simulates-prom_core :
      (package_id : ℤ) (core : CpuCore D)
      → Simulates (prom_core package_id core) (prom_core package_id core)
  unfolding prom_core
  Simulates-prom_core package_id core = search metric_rules depth 12

  Simulates-prom_package : (pkg : CpuPackage D) → Simulates (prom_package pkg) (prom_package pkg)
  unfolding prom_package
  Simulates-prom_package pkg =
      search (metric_rules, Simulates-for_each, Simulates-prom_core) depth 16

  Simulates-prom_cluster : (c : ArmCluster D) → Simulates (prom_cluster c) (prom_cluster c)
  unfolding prom_cluster
  Simulates-prom_cluster c = search metric_rules depth 12

  Simulates-prom_reason :
      (gpu : NvidiaGpu D) (r : ℕ × Bytes) → Simulates (prom_reason gpu r) (prom_reason gpu r)
  unfolding prom_reason
  Simulates-prom_reason gpu (k, reason) = Simulates-append_metric _ _ _

  Simulates-prom_nvidia :
      (caps : ℕ) (gpu : NvidiaGpu D) → Simulates (prom_nvidia caps gpu) (prom_nvidia caps gpu)
  unfolding prom_nvidia
  Simulates-prom_nvidia caps gpu =
      search (metric_rules, Simulates-for_each, Simulates-prom_reason) depth 24

  Simulates-prom_amd :
      (caps : ℕ) (gpu : AmdGpu D) → Simulates (prom_amd caps gpu) (prom_amd caps gpu)
  unfolding prom_amd
  Simulates-prom_amd caps gpu = search metric_rules depth 16

  Simulates-prom_hwmon : (s : Sensor D) → Simulates (prom_hwmon s) (prom_hwmon s)
  unfolding prom_hwmon
  Simulates-prom_hwmon s = Simulates-append_metric _ _ _

  Simulates-prom_zone : (s : Sensor D) → Simulates (prom_zone s) (prom_zone s)
  unfolding prom_zone
  Simulates-prom_zone s = Simulates-append_metric _ _ _

  Simulates-prom_board : (s : BoardSensor D) → Simulates (prom_board s) (prom_board s)
  unfolding prom_board
  Simulates-prom_board s = Simulates-append_metric _ _ _

  Simulates-prom_fan : (s : FanSensor D) → Simulates (prom_fan s) (prom_fan s)
  unfolding prom_fan
  Simulates-prom_fan s = search metric_rules depth 8

  Simulates-prom_psu : (s : PsuSensor D) → Simulates (prom_psu s) (prom_psu s)
  unfolding prom_psu
  Simulates-prom_psu s = search metric_rules depth 12

ruleset list_rules = (
  metric_rules, Simulates-for_each, Simulates-prom_package, Simulates-prom_cluster,
  Simulates-prom_nvidia, Simulates-prom_amd, Simulates-prom_hwmon, Simulates-prom_zone,
  Simulates-prom_board, Simulates-prom_fan, Simulates-prom_psu,
)

module _ {ℓ} {D : Type ℓ} ⦃d : Double D⦄ where
  pub Simulates-prom_lists : (snap : Snapshot D) → Simulates (prom_lists snap) (prom_lists snap)
  unfolding prom_lists
  Simulates-prom_lists snap = search list_rules depth 30

  pub Simulates-prom_document :
      (snap : Snapshot D) → Simulates (prom_document snap) (prom_document snap)
  unfolding prom_document
  Simulates-prom_document snap = search (metric_rules, Simulates-prom_lists) depth 12
