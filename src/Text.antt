-- ===== src/Text.antt =====
-- src/format/text.c: `tm_print_snapshot_text`. A `printf` is one `append` of the text that its format
-- and its arguments expand to; its return value is dropped.
pub mod Lines
pub mod Elements
pub mod Counts
use thermal_observatory.Base.{Bool, ◌++◌, if◌then◌else◌, Bytes, codes}
use thermal_observatory.Base.Int.{pos, ltb_ℤ}
use thermal_observatory.Double.{Double}
use thermal_observatory.Json.{arch_name}
use thermal_observatory.Libc.Print.{signed, decimal, hexadecimal, zero_padded}
use thermal_observatory.Snapshot.{
  CpuCore, CpuPackage, ArmCluster, NvidiaGpu, AmdGpu, BoardSensor, FanSensor, PsuSensor, Snapshot,
}
use thermal_observatory.Writer.{Action, Sink, ◌⨾◌, done, for_each}

-- `b ? "true" : "false"`
abbrev pub bool_text : Bool → Bytes
bool_text b = if b then codes "true" else codes "false"

-- the end of the first line of a GPU, from the clock of its multiprocessors on
abbrev text_clocks {ℓ} : {D : Type ℓ} → NvidiaGpu D → Bytes
text_clocks gpu =
    decimal gpu.sm_clock_mhz
    ++ (codes "MHz memclk="
        ++ (decimal gpu.mem_clock_mhz
            ++ (codes "MHz util="
                ++ (decimal gpu.gpu_util_pct
                    ++ (codes "% mem=" ++ (decimal gpu.mem_util_pct ++ codes "%\n"))))))

module _ {ℓ} {W : Type 0} ⦃sink : Sink W⦄ {D : Type ℓ} ⦃d : Double D⦄ where
  unfoldable pub text_core : CpuCore D → Action W
  text_core core = sink.append (
      codes "  core "
      ++ (signed core.core_id
          ++ (codes ": temp="
              ++ (d.fixed 1 core.temp_c
                  ++ (codes "C crit="
                      ++ (d.fixed 1 core.crit_c
                          ++ (codes "C max=" ++ (d.fixed 1 core.max_c ++ codes "C\n"))))))))

  unfoldable pub text_package : CpuPackage D → Action W
  text_package pkg =
      sink.append (
        codes "CPU package "
        ++ (signed pkg.package_id
            ++ (codes ": temp="
                ++ (d.fixed 1 pkg.package_temp_c
                    ++ (codes "C tjmax="
                        ++ (d.fixed 1 pkg.tjmax_c
                            ++ (codes "C rapl_energy="
                                ++ (d.fixed 0 pkg.rapl_energy_uj ++ codes " uJ\n"))))))))
      ⨾ for_each text_core pkg.cores

  unfoldable pub text_cluster : ArmCluster D → Action W
  text_cluster cluster = sink.append (
      codes "ARM cluster "
      ++ (signed cluster.cluster_id
          ++ (codes ": zone="
              ++ (cluster.zone_name
                  ++ (codes " type="
                      ++ (cluster.zone_type
                          ++ (codes " temp="
                              ++ (d.fixed 1 cluster.temp_c
                                  ++ (codes "C freq="
                                      ++ (d.fixed 0 cluster.cur_freq_mhz ++ codes "MHz\n"))))))))))

  unfoldable pub text_cuda : NvidiaGpu D → Action W
  text_cuda gpu = sink.append (
      codes "  CUDA ordinal="
      ++ (signed gpu.cuda_ordinal
          ++ (codes " cc="
              ++ (signed gpu.cuda_compute_major
                  ++ (codes "."
                      ++ (signed gpu.cuda_compute_minor
                          ++ (codes " sms="
                              ++ (signed gpu.cuda_multiprocessors
                                  ++ (codes " vram="
                                      ++ (decimal gpu.cuda_total_memory_bytes
                                          ++ (codes "B driver="
                                              ++ (signed gpu.cuda_driver_version
                                                  ++ (codes " runtime="
                                                      ++ (signed gpu.cuda_runtime_version
                                                          ++ (codes " pci="
                                                            ++ (gpu.pci_bus_id
                                                            ++ codes "\n"))))))))))))))))

  unfoldable pub text_nvidia : NvidiaGpu D → Action W
  text_nvidia gpu =
      sink.append (
        codes "NVIDIA GPU "
        ++ (signed gpu.gpu_index
            ++ (codes ": "
                ++ (gpu.name
                    ++ (codes " temp="
                        ++ (d.fixed 1 gpu.gpu_temp_c
                            ++ (codes "C mem="
                                ++ (d.fixed 1 gpu.memory_temp_c
                                    ++ (codes "C power="
                                        ++ (d.fixed 1 gpu.power_draw_w
                                            ++ (codes "/"
                                                ++ (d.fixed 1 gpu.power_limit_w
                                                    ++ (codes "W sm="
                                                        ++ text_clocks gpu)))))))))))))
      ⨾ (if ltb_ℤ gpu.cuda_ordinal (pos 0) then done else text_cuda gpu)

  unfoldable pub text_amd : AmdGpu D → Action W
  text_amd gpu = sink.append (
      codes "AMD GPU "
      ++ (signed gpu.gpu_index
          ++ (codes ": "
              ++ (gpu.name
                  ++ (codes " edge="
                      ++ (d.fixed 1 gpu.edge_temp_c
                          ++ (codes "C junction="
                              ++ (d.fixed 1 gpu.junction_temp_c
                                  ++ (codes "C mem="
                                      ++ (d.fixed 1 gpu.memory_temp_c
                                          ++ (codes "C power="
                                              ++ (d.fixed 1 gpu.avg_power_w
                                                  ++ (codes "/"
                                                      ++ (d.fixed 1 gpu.power_cap_w
                                                          ++ codes "W\n"))))))))))))))

  unfoldable pub text_board : BoardSensor D → Action W
  text_board sensor = sink.append (
      codes "Board sensor: "
      ++ (sensor.name
          ++ (codes " type="
              ++ (sensor.sensor_type
                  ++ (codes " value="
                      ++ (d.fixed 1 sensor.value
                          ++ (codes " "
                              ++ (sensor.unit
                                  ++ (codes " source=" ++ (sensor.source ++ codes "\n"))))))))))

  unfoldable pub text_fan : FanSensor D → Action W
  text_fan fan = sink.append (
      codes "Fan: "
      ++ (fan.name
          ++ (codes " rpm="
              ++ (d.fixed 0 fan.rpm ++ (codes " source=" ++ (fan.source ++ codes "\n"))))))

  unfoldable pub text_psu : PsuSensor D → Action W
  text_psu psu = sink.append (
      codes "PSU: "
      ++ (psu.name
          ++ (codes " inlet="
              ++ (d.fixed 1 psu.inlet_temp_c
                  ++ (codes "C exhaust="
                      ++ (d.fixed 1 psu.exhaust_temp_c
                          ++ (codes "C power="
                              ++ (d.fixed 1 psu.power_w
                                  ++ (codes "W present="
                                      ++ (bool_text psu.present
                                          ++ (codes " source="
                                              ++ (psu.source ++ codes "\n"))))))))))))

  unfoldable pub tm_print_snapshot_text : Snapshot D → Action W
  tm_print_snapshot_text snap =
      sink.append (codes "Thermal Observatory\n")
      ⨾ sink.append (codes "  arch: " ++ (arch_name snap.arch ++ codes "\n"))
      ⨾ sink.append (
          codes "  capabilities: 0x"
          ++ (zero_padded 8 (hexadecimal snap.capabilities) ++ codes "\n"))
      ⨾ for_each text_package snap.cpu_packages
      ⨾ for_each text_cluster snap.arm_clusters
      ⨾ for_each text_nvidia snap.nvidia_gpus
      ⨾ for_each text_amd snap.amd_gpus
      ⨾ for_each text_board snap.board_sensors
      ⨾ for_each text_fan snap.fan_sensors
      ⨾ for_each text_psu snap.psu_sensors
