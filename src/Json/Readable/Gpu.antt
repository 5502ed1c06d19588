-- ===== src/Json/Readable/Gpu.antt =====
-- The parts of the document that are about GPUs are JSON.
use thermal_observatory.Base.{ℕ, true, ◌≡◌, refl, Bytes, codes}
use thermal_observatory.Base.Int.{ℤ}
use thermal_observatory.Double.{Double, of_unsigned}
use thermal_observatory.Json.Tree.Document.{
  nvidia_metrics_fields, nvidia_cuda_fields, nvidia_tree, amd_tree,
}
use thermal_observatory.Json.Tree.Numbers.{is_number}
use thermal_observatory.Json.Tree.Reader.{is_readable, have_readable}
use thermal_observatory.Json.Tree.Strings.{is_text}
use thermal_observatory.Libc.Print.Numbers.{is_number-signed}
use thermal_observatory.Snapshot.{NvidiaGpu, AmdGpu}
use thermal_observatory.Json.Readable.{IsText, flag-readable, number-readable}

module _ {ℓ} {D : Type ℓ} ⦃d : Double D⦄
    (numeric : (digits : ℕ) (x : D) → is_number (d.fixed digits x) ≡ true) (ts_ns : ℤ) where
  nvidia_metrics-readable :
      (src : Bytes)
      → IsText src
      → (gpu : NvidiaGpu D) → have_readable (nvidia_metrics_fields ts_ns src gpu) ≡ true
  unfolding nvidia_metrics_fields have_readable is_text
  nvidia_metrics-readable src h gpu =
      simp
        (
          number-readable numeric ts_ns gpu.gpu_temp_c (codes "celsius") src refl h,
          number-readable numeric ts_ns gpu.memory_temp_c (codes "celsius") src refl h,
          number-readable numeric ts_ns gpu.power_draw_w (codes "watts") src refl h,
          number-readable numeric ts_ns gpu.power_limit_w (codes "watts") src refl h,
          number-readable numeric ts_ns (of_unsigned gpu.sm_clock_mhz) (codes "mhz") src refl h,
          number-readable numeric ts_ns (of_unsigned gpu.mem_clock_mhz) (codes "mhz") src refl h,
          number-readable numeric ts_ns (of_unsigned gpu.gpu_util_pct) (codes "percent") src refl h,
          number-readable numeric ts_ns (of_unsigned gpu.mem_util_pct) (codes "percent") src refl h,
          number-readable numeric ts_ns (of_unsigned gpu.throttle_reasons) (codes "bitmask") src
              refl h,
        )
        refl

  nvidia_cuda-readable :
      (src : Bytes) (gpu : NvidiaGpu D) → have_readable (nvidia_cuda_fields ts_ns src gpu) ≡ true
  unfolding nvidia_cuda_fields have_readable is_text
  nvidia_cuda-readable src gpu =
      simp
        (
          number-readable numeric ts_ns (d.of_int gpu.cuda_ordinal) (codes "index") (codes "cuda")
              refl refl,
          number-readable numeric ts_ns (d.of_int gpu.cuda_compute_major)
              (codes "version_component") (codes "cuda") refl refl,
          number-readable numeric ts_ns (d.of_int gpu.cuda_compute_minor)
              (codes "version_component") (codes "cuda") refl refl,
          number-readable numeric ts_ns (d.of_int gpu.cuda_multiprocessors) (codes "count")
              (codes "cuda") refl refl,
          number-readable numeric ts_ns (d.of_int gpu.cuda_driver_version) (codes "version")
              (codes "cuda") refl refl,
          number-readable numeric ts_ns (d.of_int gpu.cuda_runtime_version) (codes "version")
              (codes "cuda") refl refl,
          number-readable numeric ts_ns (of_unsigned gpu.cuda_total_memory_bytes) (codes "bytes")
              (codes "cuda") refl refl,
        )
        refl

  pub nvidia_tree-readable :
      (src : Bytes)
      → IsText src
      → (gpu : NvidiaGpu D) → IsText gpu.name × IsText gpu.uuid × IsText gpu.pci_bus_id
      → is_readable (nvidia_tree ts_ns src gpu) ≡ true
  unfolding nvidia_tree is_readable have_readable is_text
  nvidia_tree-readable src h gpu (n, u, b) =
      simp
        (
          is_number-signed gpu.gpu_index,
          n,
          u,
          b,
          nvidia_metrics-readable src h gpu,
          nvidia_cuda-readable src gpu,
        )
        refl

  pub amd_tree-readable :
      (src : Bytes)
      → IsText src
      → (gpu : AmdGpu D) → IsText gpu.name
      → is_readable (amd_tree ts_ns src gpu) ≡ true
  unfolding amd_tree is_readable have_readable is_text
  amd_tree-readable src h gpu n =
      simp
        (
          is_number-signed gpu.gpu_index,
          n,
          number-readable numeric ts_ns gpu.edge_temp_c (codes "celsius") src refl h,
          number-readable numeric ts_ns gpu.junction_temp_c (codes "celsius") src refl h,
          number-readable numeric ts_ns gpu.memory_temp_c (codes "celsius") src refl h,
          number-readable numeric ts_ns gpu.avg_power_w (codes "watts") src refl h,
          number-readable numeric ts_ns gpu.power_cap_w (codes "watts") src refl h,
          flag-readable gpu.thermal_throttling (codes "bool") src ts_ns refl h,
        )
        refl
