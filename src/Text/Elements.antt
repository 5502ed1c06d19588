-- ===== src/Text/Elements.antt =====
-- How many lines each `printf` of `tm_print_snapshot_text` prints.
use thermal_observatory.Base.{
  ℕ, ◌+◌, refl, Bool, Bool-cases, true, false, inl, inr, codes, everywhere, if◌then◌else◌,
}
use thermal_observatory.Base.Int.{pos, ltb_ℤ}
use thermal_observatory.Double.{Double}
use thermal_observatory.Libc.Print.{signed, decimal}
use thermal_observatory.Libc.Print.Plain.{
  newlines, IsPlain, HasLines, plain_then, decimal-IsPlain, signed-IsPlain,
}
use thermal_observatory.Snapshot.{
  CpuCore, CpuPackage, ArmCluster, NvidiaGpu, AmdGpu, BoardSensor, FanSensor, PsuSensor,
}
use thermal_observatory.Text.{
  bool_text, text_clocks, text_core, text_package, text_cluster, text_cuda, text_nvidia, text_amd,
  text_board, text_fan, text_psu,
}
use thermal_observatory.Text.Lines.{
  WritesLines, line-WritesLines, done-WritesLines, seq-WritesLines, for_each-WritesLines, total,
}
use thermal_observatory.Writer.{text_sink}

bool_text-IsPlain : (b : Bool) → IsPlain (bool_text b)
unfolding newlines
bool_text-IsPlain true = refl
bool_text-IsPlain false = refl

module _ {ℓ} {D : Type ℓ} where
  abbrev pub package_lines : CpuPackage D → ℕ
  package_lines pkg = 1 + total (λ core. 1) pkg.cores

  abbrev pub nvidia_lines : NvidiaGpu D → ℕ
  nvidia_lines gpu = 1 + (if ltb_ℤ gpu.cuda_ordinal (pos 0) then 0 else 1)

  clocks-HasLines : (gpu : NvidiaGpu D) → HasLines (text_clocks gpu) 1
  unfolding newlines
  clocks-HasLines gpu =
      (plain_then (decimal gpu.sm_clock_mhz) (decimal-IsPlain gpu.sm_clock_mhz) (
        plain_then (codes "MHz memclk=") refl (
          plain_then (decimal gpu.mem_clock_mhz) (decimal-IsPlain gpu.mem_clock_mhz) (
            plain_then (codes "MHz util=") refl (
              plain_then (decimal gpu.gpu_util_pct) (decimal-IsPlain gpu.gpu_util_pct) (
                plain_then (codes "% mem=") refl (
                  plain_then (decimal gpu.mem_util_pct) (decimal-IsPlain gpu.mem_util_pct)
                    (record { counted = refl }))))))))

module _ {ℓ} {D : Type ℓ} ⦃d : Double D⦄
    (plain : (digits : ℕ) (x : D) → IsPlain (d.fixed digits x)) where
  text_core-WritesLines : (core : CpuCore D) → WritesLines (text_core core) 1
  unfolding text_core newlines
  text_core-WritesLines core = line-WritesLines (
      plain_then (codes "  core ") refl (
        plain_then (signed core.core_id) (signed-IsPlain core.core_id) (
          plain_then (codes ": temp=") refl (
            plain_then (d.fixed 1 core.temp_c) (plain 1 core.temp_c) (
              plain_then (codes "C crit=") refl (
                plain_then (d.fixed 1 core.crit_c) (plain 1 core.crit_c) (
                  plain_then (codes "C max=") refl (
                    plain_then (d.fixed 1 core.max_c) (plain 1 core.max_c)
                      (record { counted = refl })))))))))

  pub text_package-WritesLines :
      (pkg : CpuPackage D) → WritesLines (text_package pkg) (package_lines pkg)
  unfolding text_package newlines
  text_package-WritesLines pkg =
      seq-WritesLines
        (line-WritesLines (
          plain_then (codes "CPU package ") refl (
            plain_then (signed pkg.package_id) (signed-IsPlain pkg.package_id) (
              plain_then (codes ": temp=") refl (
                plain_then (d.fixed 1 pkg.package_temp_c) (plain 1 pkg.package_temp_c) (
                  plain_then (codes "C tjmax=") refl (
                    plain_then (d.fixed 1 pkg.tjmax_c) (plain 1 pkg.tjmax_c) (
                      plain_then (codes "C rapl_energy=") refl (
                        plain_then (d.fixed 0 pkg.rapl_energy_uj) (plain 0 pkg.rapl_energy_uj)
                          (record { counted = refl }))))))))))
        (for_each-WritesLines (λ core. 1) (λ _. Unit {0}) (λ core _. text_core-WritesLines core)
          pkg.cores (everywhere _ pkg.cores (λ _. tt)))

  pub text_cluster-WritesLines :
      (cluster : ArmCluster D)
      → IsPlain cluster.zone_name × IsPlain cluster.zone_type
      → WritesLines (text_cluster cluster) 1
  unfolding text_cluster newlines
  text_cluster-WritesLines cluster h = line-WritesLines (
      plain_then (codes "ARM cluster ") refl (
        plain_then (signed cluster.cluster_id) (signed-IsPlain cluster.cluster_id) (
          plain_then (codes ": zone=") refl (
            plain_then (cluster.zone_name) (h.0) (
              plain_then (codes " type=") refl (
                plain_then (cluster.zone_type) (h.1) (
                  plain_then (codes " temp=") refl (
                    plain_then (d.fixed 1 cluster.temp_c) (plain 1 cluster.temp_c) (
                      plain_then (codes "C freq=") refl (
                        plain_then (d.fixed 0 cluster.cur_freq_mhz) (plain 0 cluster.cur_freq_mhz)
                          (record { counted = refl })))))))))))

  text_cuda-WritesLines :
      (gpu : NvidiaGpu D) → IsPlain gpu.pci_bus_id → WritesLines (text_cuda gpu) 1
  unfolding text_cuda newlines
  text_cuda-WritesLines gpu h = line-WritesLines (
      plain_then (codes "  CUDA ordinal=") refl (
        plain_then (signed gpu.cuda_ordinal) (signed-IsPlain gpu.cuda_ordinal) (
          plain_then (codes " cc=") refl (
            plain_then (signed gpu.cuda_compute_major) (signed-IsPlain gpu.cuda_compute_major) (
              plain_then (codes ".") refl (
                plain_then (signed gpu.cuda_compute_minor) (signed-IsPlain gpu.cuda_compute_minor) (
                  plain_then (codes " sms=") refl (
                    plain_then (signed gpu.cuda_multiprocessors)
                      (signed-IsPlain gpu.cuda_multiprocessors)
                      (plain_then (codes " vram=") refl (
                        plain_then (decimal gpu.cuda_total_memory_bytes)
                          (decimal-IsPlain gpu.cuda_total_memory_bytes)
                          (plain_then (codes "B driver=") refl (
                            plain_then (signed gpu.cuda_driver_version)
                              (signed-IsPlain gpu.cuda_driver_version)
                              (plain_then (codes " runtime=") refl (
                                plain_then (signed gpu.cuda_runtime_version)
                                  (signed-IsPlain gpu.cuda_runtime_version)
                                  (plain_then (codes " pci=") refl (
                                    plain_then (gpu.pci_bus_id) (h)
                                      (record { counted = refl })))))))))))))))))

  pub text_nvidia-WritesLines :
      (gpu : NvidiaGpu D)
      → IsPlain gpu.name × IsPlain gpu.pci_bus_id
      → WritesLines (text_nvidia gpu) (nvidia_lines gpu)
  unfolding text_nvidia newlines
  text_nvidia-WritesLines gpu (h, id) =
      seq-WritesLines
        (line-WritesLines (
          plain_then (codes "NVIDIA GPU ") refl (
            plain_then (signed gpu.gpu_index) (signed-IsPlain gpu.gpu_index) (
              plain_then (codes ": ") refl (
                plain_then (gpu.name) (h) (
                  plain_then (codes " temp=") refl (
                    plain_then (d.fixed 1 gpu.gpu_temp_c) (plain 1 gpu.gpu_temp_c) (
                      plain_then (codes "C mem=") refl (
                        plain_then (d.fixed 1 gpu.memory_temp_c) (plain 1 gpu.memory_temp_c) (
                          plain_then (codes "C power=") refl (
                            plain_then (d.fixed 1 gpu.power_draw_w) (plain 1 gpu.power_draw_w) (
                              plain_then (codes "/") refl (
                                plain_then (d.fixed 1 gpu.power_limit_w) (plain 1 gpu.power_limit_w)
                                  (plain_then (codes "W sm=") refl
                                    (clocks-HasLines gpu)))))))))))))))
        (elim (Bool-cases (ltb_ℤ gpu.cuda_ordinal (pos 0))) [
          | inl unknown ↦ rw unknown done-WritesLines
          | inr known ↦ rw known (text_cuda-WritesLines gpu id)
        ])

  pub text_amd-WritesLines : (gpu : AmdGpu D) → IsPlain gpu.name → WritesLines (text_amd gpu) 1
  unfolding text_amd newlines
  text_amd-WritesLines gpu h = line-WritesLines (
      plain_then (codes "AMD GPU ") refl (
        plain_then (signed gpu.gpu_index) (signed-IsPlain gpu.gpu_index) (
          plain_then (codes ": ") refl (
            plain_then (gpu.name) (h) (
              plain_then (codes " edge=") refl (
                plain_then (d.fixed 1 gpu.edge_temp_c) (plain 1 gpu.edge_temp_c) (
                  plain_then (codes "C junction=") refl (
                    plain_then (d.fixed 1 gpu.junction_temp_c) (plain 1 gpu.junction_temp_c) (
                      plain_then (codes "C mem=") refl (
                        plain_then (d.fixed 1 gpu.memory_temp_c) (plain 1 gpu.memory_temp_c) (
                          plain_then (codes "C power=") refl (
                            plain_then (d.fixed 1 gpu.avg_power_w) (plain 1 gpu.avg_power_w) (
                              plain_then (codes "/") refl (
                                plain_then (d.fixed 1 gpu.power_cap_w) (plain 1 gpu.power_cap_w)
                                  (record { counted = refl })))))))))))))))

  pub text_board-WritesLines :
      (sensor : BoardSensor D)
      → IsPlain sensor.name
        × IsPlain sensor.sensor_type
        × IsPlain sensor.unit
        × IsPlain sensor.source
      → WritesLines (text_board sensor) 1
  unfolding text_board newlines
  text_board-WritesLines sensor h = line-WritesLines (
      plain_then (codes "Board sensor: ") refl (
        plain_then (sensor.name) (h.0) (
          plain_then (codes " type=") refl (
            plain_then (sensor.sensor_type) (h.1) (
              plain_then (codes " value=") refl (
                plain_then (d.fixed 1 sensor.value) (plain 1 sensor.value) (
                  plain_then (codes " ") refl (
                    plain_then (sensor.unit) (h.2) (
                      plain_then (codes " source=") refl
                        (plain_then (sensor.source) (h.3) (record { counted = refl })))))))))))

  pub text_fan-WritesLines :
      (fan : FanSensor D) → IsPlain fan.name × IsPlain fan.source → WritesLines (text_fan fan) 1
  unfolding text_fan newlines
  text_fan-WritesLines fan h = line-WritesLines (
      plain_then (codes "Fan: ") refl (
        plain_then (fan.name) (h.0) (
          plain_then (codes " rpm=") refl (
            plain_then (d.fixed 0 fan.rpm) (plain 0 fan.rpm) (
              plain_then (codes " source=") refl
                (plain_then (fan.source) (h.1) (record { counted = refl })))))))

  pub text_psu-WritesLines :
      (psu : PsuSensor D) → IsPlain psu.name × IsPlain psu.source → WritesLines (text_psu psu) 1
  unfolding text_psu newlines
  text_psu-WritesLines psu h = line-WritesLines (
      plain_then (codes "PSU: ") refl (
        plain_then (psu.name) (h.0) (
          plain_then (codes " inlet=") refl (
            plain_then (d.fixed 1 psu.inlet_temp_c) (plain 1 psu.inlet_temp_c) (
              plain_then (codes "C exhaust=") refl (
                plain_then (d.fixed 1 psu.exhaust_temp_c) (plain 1 psu.exhaust_temp_c) (
                  plain_then (codes "C power=") refl (
                    plain_then (d.fixed 1 psu.power_w) (plain 1 psu.power_w) (
                      plain_then (codes "W present=") refl (
                        plain_then (bool_text psu.present) (bool_text-IsPlain psu.present) (
                          plain_then (codes " source=") refl
                            (plain_then (psu.source) (h.1) (record { counted = refl })))))))))))))
