-- ===== src/Prometheus/Gpu.antt =====
-- The loops over GPUs in `tm_snapshot_to_prometheus`.
use Prim.Native.Nat.{bit_and}
use thermal_observatory.Base.{ℕ, ◌^◌, not, List, [], ◌∷◌, ◌++◌, ◌==◌, if◌then◌else◌, Bytes, codes}
use thermal_observatory.Double.{Double, of_unsigned}
use thermal_observatory.Libc.Print.{signed}
use thermal_observatory.Platform.Paths.{snprintf}
use thermal_observatory.Prometheus.{append_metric, flag}
use thermal_observatory.Snapshot.{NvidiaGpu, AmdGpu}
use thermal_observatory.Snapshot.Capability.{has, nvidia_nvml, amd_rocm_smi}
use thermal_observatory.Writer.{Action, Sink, ◌⨾◌, for_each}

-- The table `reasons`, by the places of the bits.
abbrev pub reasons : List (ℕ × Bytes)
reasons =
    (0, codes "gpu_idle")
    ∷ (1, codes "applications_clocks")
    ∷ (2, codes "sw_power_cap")
    ∷ (3, codes "hw_slowdown")
    ∷ (5, codes "sw_thermal_slowdown")
    ∷ (7, codes "hw_power_brake_slowdown")
    ∷ (8, codes "hw_thermal_slowdown")
    ∷ []

module _ {ℓ} {W : Type 0} ⦃sink : Sink W⦄ {D : Type ℓ} ⦃d : Double D⦄ where
  unfoldable pub prom_reason : NvidiaGpu D → ℕ × Bytes → Action W
  prom_reason gpu (k, reason) =
      append_metric {D = D} (codes "thermal_gpu_throttle_reason")
        (snprintf 512 (
          codes "vendor=\"nvidia\",index=\""
          ++ (signed gpu.gpu_index
              ++ (codes "\",uuid=\""
                  ++ (gpu.uuid
                      ++ (codes "\",reason=\"" ++ (reason ++ codes "\",source=\"nvml\"")))))))
        (flag (not (bit_and gpu.throttle_reasons (2 ^ k) == 0)))

  unfoldable pub prom_nvidia : ℕ → NvidiaGpu D → Action W
  prom_nvidia caps gpu =
      let labels = snprintf 512 (
        codes "vendor=\"nvidia\",index=\""
        ++ (signed gpu.gpu_index
            ++ (codes "\",uuid=\""
                ++ (gpu.uuid
                    ++ (codes "\",source=\""
                        ++ ((if has caps nvidia_nvml then codes "nvml" else codes "cuda")
                            ++ codes "\"")))))) in
      append_metric {D = D} (codes "thermal_gpu_temperature_celsius") labels gpu.gpu_temp_c
      ⨾ append_metric {D = D} (codes "thermal_gpu_memory_temperature_celsius") labels
          gpu.memory_temp_c
      ⨾ append_metric {D = D} (codes "thermal_gpu_power_watts") labels gpu.power_draw_w
      ⨾ append_metric {D = D} (codes "thermal_gpu_power_limit_watts") labels gpu.power_limit_w
      ⨾ append_metric {D = D} (codes "thermal_gpu_sm_clock_mhz") labels
          (of_unsigned gpu.sm_clock_mhz)
      ⨾ append_metric {D = D} (codes "thermal_gpu_memory_clock_mhz") labels
          (of_unsigned gpu.mem_clock_mhz)
      ⨾ append_metric {D = D} (codes "thermal_gpu_utilization_percent") labels
          (of_unsigned gpu.gpu_util_pct)
      ⨾ append_metric {D = D} (codes "thermal_gpu_memory_utilization_percent") labels
          (of_unsigned gpu.mem_util_pct)
      ⨾ append_metric {D = D} (codes "thermal_gpu_cuda_ordinal") labels (d.of_int gpu.cuda_ordinal)
      ⨾ append_metric {D = D} (codes "thermal_gpu_cuda_total_memory_bytes") labels
          (of_unsigned gpu.cuda_total_memory_bytes)
      ⨾ for_each (prom_reason gpu) reasons

  unfoldable pub prom_amd : ℕ → AmdGpu D → Action W
  prom_amd caps gpu =
      let labels = snprintf 512 (
        codes "vendor=\"amd\",index=\""
        ++ (signed gpu.gpu_index
            ++ (codes "\",name=\""
                ++ (gpu.name
                    ++ (codes "\",source=\""
                        ++ ((if has caps amd_rocm_smi
                              then codes "rocm_smi"
                              else codes "amdgpu_hwmon")
                            ++ codes "\"")))))) in
      append_metric {D = D} (codes "thermal_gpu_temperature_celsius") labels gpu.edge_temp_c
      ⨾ append_metric {D = D} (codes "thermal_gpu_junction_temperature_celsius") labels
          gpu.junction_temp_c
      ⨾ append_metric {D = D} (codes "thermal_gpu_memory_temperature_celsius") labels
          gpu.memory_temp_c
      ⨾ append_metric {D = D} (codes "thermal_gpu_power_watts") labels gpu.avg_power_w
      ⨾ append_metric {D = D} (codes "thermal_gpu_power_limit_watts") labels gpu.power_cap_w
      ⨾ append_metric {D = D} (codes "thermal_gpu_thermal_throttling") labels
          (flag gpu.thermal_throttling)
