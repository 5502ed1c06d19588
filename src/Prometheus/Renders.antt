-- ===== src/Prometheus/Renders.antt =====
-- `tm_snapshot_to_prometheus` against the exposition of the snapshot.
use thermal_observatory.Base.{ℕ, zero, suc, ◌<◌, true, ◌≡◌, refl, ap, [], arith, codes, length}
use thermal_observatory.Base.Int.{negsuc}
use thermal_observatory.Double.{Double}
use thermal_observatory.Prometheus.Document.{seconds, prom_document, tm_snapshot_to_prometheus}
use thermal_observatory.Prometheus.Samples.{prometheus_text}
use thermal_observatory.Prometheus.Simulates.{
  Simulates-append_metric, Simulates-prom_lists, Simulates-prom_document,
}
use thermal_observatory.Prometheus.Writes.{text_of-prom_document}
use thermal_observatory.Snapshot.{Snapshot}
use thermal_observatory.Writer.{Memory, buffer_sink, text_sink, appendf, ◌⨾◌, fresh, written}
use thermal_observatory.Writer.Renders.{Renders, Renders-written, fresh-Holds}
use thermal_observatory.Writer.Simulates.{Simulates-append, Simulates-seq}

module _ {ℓ} {D : Type ℓ} ⦃d : Double D⦄ (snap : Snapshot D) where
  -- With no room at all the first `appendf` fails, and none after it writes.
  no_room_left : (buf : Memory) → tm_snapshot_to_prometheus snap buf 0 ≡ (negsuc 0, buf)
  unfolding tm_snapshot_to_prometheus prom_document ◌⨾◌ appendf
  no_room_left buf =
      let rest =
        Simulates-seq (Simulates-append (codes "# TYPE thermal_snapshot_timestamp_seconds gauge\n"))
          (Simulates-seq
            (Simulates-append_metric (codes "thermal_snapshot_timestamp_seconds") []
              (seconds snap.timestamp))
            (Simulates-prom_lists snap)) in
      ap written (rest.stuck (record (fresh buf 0) { failed = true }) refl)

  prometheus_text_nonempty : 0 < length (prometheus_text snap)
  unfolding prometheus_text
  prometheus_text_nonempty = omega arith

  -- For every snapshot, every buffer and every length `len`: if the exposition of the snapshot is
  -- shorter than `len`, then `tm_snapshot_to_prometheus` returns its length and leaves it in the
  -- buffer with a NUL behind it; if not, it returns -1; and no byte at or past `len` is written.
  pub tm_snapshot_to_prometheus-Renders :
      (buf : Memory) (len : ℕ)
      → Renders (prometheus_text snap) buf len (tm_snapshot_to_prometheus snap buf len)
  tm_snapshot_to_prometheus-Renders buf zero =
      rw no_room_left
        record { fits = λ lt. elim lt [ ]; too_long = λ _. refl; in_bounds = λ j h. refl }
  tm_snapshot_to_prometheus-Renders buf (suc n) =
      unfold tm_snapshot_to_prometheus in
      Renders-written (prometheus_text snap) buf (suc n) _ _ prometheus_text_nonempty (
        rw text_of-prom_document at (
          (Simulates-prom_document snap).appends (fresh buf (suc n)) []
            (fresh-Holds buf (suc n) (omega arith))))
