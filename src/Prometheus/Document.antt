-- ===== src/Prometheus/Document.antt =====
-- `tm_snapshot_to_prometheus` of src/format/prometheus.c.
use thermal_observatory.Base.{ℕ, [], codes}
use thermal_observatory.Base.Int.{ℤ, pos}
use thermal_observatory.Double.{Double}
use thermal_observatory.Prometheus.{
  append_metric, prom_package, prom_cluster, prom_hwmon, prom_zone, prom_board, prom_fan, prom_psu,
}
use thermal_observatory.Prometheus.Gpu.{prom_nvidia, prom_amd}
use thermal_observatory.Snapshot.{Snapshot, Timespec}
use thermal_observatory.Writer.{Action, Sink, ◌⨾◌, for_each, Memory, buffer_sink, fresh, written}

-- `(double)tv_sec + ((double)tv_nsec / 1e9)`
unfoldable pub seconds {ℓ} : {D : Type ℓ} ⦃d : Double D⦄ → Timespec → D
seconds ⦃d⦄ t = d.add (d.of_int t.sec) (d.div (d.of_int t.nsec) (d.of_int (pos 1_000_000_000)))

module _ {ℓ} {W : Type 0} ⦃sink : Sink W⦄ {D : Type ℓ} ⦃d : Double D⦄ (snap : Snapshot D) where
  unfoldable pub prom_lists : Action W
  prom_lists =
      for_each prom_package snap.cpu_packages
      ⨾ for_each prom_cluster snap.arm_clusters
      ⨾ for_each (prom_nvidia snap.capabilities) snap.nvidia_gpus
      ⨾ for_each (prom_amd snap.capabilities) snap.amd_gpus
      ⨾ for_each prom_hwmon snap.hwmon_sensors
      ⨾ for_each prom_zone snap.thermal_zones
      ⨾ for_each prom_board snap.board_sensors
      ⨾ for_each prom_fan snap.fan_sensors
      ⨾ for_each prom_psu snap.psu_sensors

  unfoldable pub prom_document : Action W
  prom_document =
      sink.append (codes "# HELP thermal_snapshot_timestamp_seconds Snapshot collection time.\n")
      ⨾ sink.append (codes "# TYPE thermal_snapshot_timestamp_seconds gauge\n")
      ⨾ append_metric {D = D} (codes "thermal_snapshot_timestamp_seconds") []
          (seconds snap.timestamp)
      ⨾ prom_lists

unfoldable pub tm_snapshot_to_prometheus {ℓ} :
    {D : Type ℓ} ⦃d : Double D⦄ → Snapshot D → Memory → ℕ → ℤ × Memory
tm_snapshot_to_prometheus snap buf len = written (prom_document snap (fresh buf len)).1
