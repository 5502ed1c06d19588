-- ===== src/Json/Gpu.antt =====
-- The loops over GPUs in `tm_snapshot_to_json`. The integer fields are passed where a `double` is
-- wanted, so C converts them.
use thermal_observatory.Base.{Bytes, ◌++◌, codes}
use thermal_observatory.Base.Int.{ℤ}
use thermal_observatory.Double.{Double, of_unsigned}
use thermal_observatory.Json.{lit, append_json_string, append_metric_number, append_metric_bool}
use thermal_observatory.Libc.Print.{signed}
use thermal_observatory.Snapshot.{NvidiaGpu, AmdGpu}
use thermal_observatory.Writer.{Action, Sink, ◌>>◌}

-- `src` is what `nvidia_source` and `amd_source` give for the snapshot.
module _ {ℓ} {W : Type 0} ⦃sink : Sink W⦄ {D : Type ℓ} ⦃d : Double D⦄ (ts_ns : ℤ)
    (src : Bytes) where
  unfoldable pub json_nvidia_metrics : NvidiaGpu D → Action W
  json_nvidia_metrics gpu =
      lit "\"gpu_temp_c\":"
      >> append_metric_number gpu.gpu_temp_c (codes "celsius") src ts_ns
      >> lit ",\"memory_temp_c\":"
      >> append_metric_number gpu.memory_temp_c (codes "celsius") src ts_ns
      >> lit ",\"power_draw_w\":"
      >> append_metric_number gpu.power_draw_w (codes "watts") src ts_ns
      >> lit ",\"power_limit_w\":"
      >> append_metric_number gpu.power_limit_w (codes "watts") src ts_ns
      >> lit ",\"sm_clock_mhz\":"
      >> append_metric_number {D = D} (of_unsigned gpu.sm_clock_mhz) (codes "mhz") src ts_ns
      >> lit ",\"mem_clock_mhz\":"
      >> append_metric_number {D = D} (of_unsigned gpu.mem_clock_mhz) (codes "mhz") src ts_ns
      >> lit ",\"gpu_util_pct\":"
      >> append_metric_number {D = D} (of_unsigned gpu.gpu_util_pct) (codes "percent") src ts_ns
      >> lit ",\"mem_util_pct\":"
      >> append_metric_number {D = D} (of_unsigned gpu.mem_util_pct) (codes "percent") src ts_ns
      >> lit ",\"throttle_reasons\":"
      >> append_metric_number {D = D} (of_unsigned gpu.throttle_reasons) (codes "bitmask") src ts_ns

  unfoldable pub json_nvidia_cuda : NvidiaGpu D → Action W
  json_nvidia_cuda gpu =
      lit "\"ordinal\":"
      >> append_metric_number (d.of_int gpu.cuda_ordinal) (codes "index") (codes "cuda") ts_ns
      >> lit ",\"compute_major\":"
      >> append_metric_number (d.of_int gpu.cuda_compute_major) (codes "version_component")
          (codes "cuda") ts_ns
      >> lit ",\"compute_minor\":"
      >> append_metric_number (d.of_int gpu.cuda_compute_minor) (codes "version_component")
          (codes "cuda") ts_ns
      >> lit ",\"multiprocessors\":"
      >> append_metric_number (d.of_int gpu.cuda_multiprocessors) (codes "count") (codes "cuda")
          ts_ns
      >> lit ",\"driver_version\":"
      >> append_metric_number (d.of_int gpu.cuda_driver_version) (codes "version") (codes "cuda")
          ts_ns
      >> lit ",\"runtime_version\":"
      >> append_metric_number (d.of_int gpu.cuda_runtime_version) (codes "version") (codes "cuda")
          ts_ns
      >> lit ",\"total_memory_bytes\":"
      >> append_metric_number {D = D} (of_unsigned gpu.cuda_total_memory_bytes) (codes "bytes")
          (codes "cuda") ts_ns

  unfoldable pub json_nvidia : NvidiaGpu D → Action W
  json_nvidia gpu =
      sink.append (codes "{\"gpu_index\":" ++ (signed gpu.gpu_index ++ codes ",\"name\":"))
      >> append_json_string gpu.name
      >> lit ",\"uuid\":"
      >> append_json_string gpu.uuid
      >> lit ",\"pci_bus_id\":"
      >> append_json_string gpu.pci_bus_id
      >> lit ",\"metrics\":{"
      >> json_nvidia_metrics gpu
      >> lit "},\"cuda\":{"
      >> json_nvidia_cuda gpu
      >> lit "}}"

  unfoldable pub json_amd : AmdGpu D → Action W
  json_amd gpu =
      sink.append (codes "{\"gpu_index\":" ++ (signed gpu.gpu_index ++ codes ",\"name\":"))
      >> append_json_string gpu.name
      >> lit ",\"metrics\":{"
      >> lit "\"edge_temp_c\":"
      >> append_metric_number gpu.edge_temp_c (codes "celsius") src ts_ns
      >> lit ",\"junction_temp_c\":"
      >> append_metric_number gpu.junction_temp_c (codes "celsius") src ts_ns
      >> lit ",\"memory_temp_c\":"
      >> append_metric_number gpu.memory_temp_c (codes "celsius") src ts_ns
      >> lit ",\"avg_power_w\":"
      >> append_metric_number gpu.avg_power_w (codes "watts") src ts_ns
      >> lit ",\"power_cap_w\":"
      >> append_metric_number gpu.power_cap_w (codes "watts") src ts_ns
      >> lit ",\"thermal_throttling\":"
      >> append_metric_bool gpu.thermal_throttling src ts_ns
      >> lit "}}"
