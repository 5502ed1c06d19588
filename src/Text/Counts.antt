-- ===== src/Text/Counts.antt =====
-- How many lines the plain text of a snapshot has. The hwmon sensors and the thermal zones of a
-- snapshot are not printed in it.
use thermal_observatory.Base.{ℕ, ◌+◌, ◌≡◌, refl, codes, All, everywhere}
use thermal_observatory.Double.{Double}
use thermal_observatory.Json.{arch_name}
use thermal_observatory.Libc.Print.{hexadecimal, zero_padded}
use thermal_observatory.Libc.Print.Plain.{
  newlines, IsPlain, plain_then, padded-IsPlain, hexadecimal-IsPlain,
}
use thermal_observatory.Snapshot.{
  ArmCluster, NvidiaGpu, AmdGpu, BoardSensor, FanSensor, PsuSensor, Snapshot,
}
use thermal_observatory.Text.{tm_print_snapshot_text}
use thermal_observatory.Text.Elements.{
  package_lines, nvidia_lines, text_package-WritesLines, text_cluster-WritesLines,
  text_nvidia-WritesLines, text_amd-WritesLines, text_board-WritesLines, text_fan-WritesLines,
  text_psu-WritesLines,
}
use thermal_observatory.Text.Lines.{
  line-WritesLines, seq-WritesLines, for_each-WritesLines, total, newlines-text_of,
  arch_name-IsPlain,
}
use thermal_observatory.Writer.{text_sink, text_of}

-- No text in the snapshot has a newline.
pub record IsOneLined {ℓ} {D : Type ℓ} (snap : Snapshot D) : Type 0 where
  pub clusters :
      All (λ (c : ArmCluster D). IsPlain c.zone_name × IsPlain c.zone_type) snap.arm_clusters
  pub nvidia : All (λ (g : NvidiaGpu D). IsPlain g.name × IsPlain g.pci_bus_id) snap.nvidia_gpus
  pub amd : All (λ (g : AmdGpu D). IsPlain g.name) snap.amd_gpus
  pub boards :
      All
        (λ (s : BoardSensor D).
          IsPlain s.name × IsPlain s.sensor_type × IsPlain s.unit × IsPlain s.source)
        snap.board_sensors
  pub fans : All (λ (f : FanSensor D). IsPlain f.name × IsPlain f.source) snap.fan_sensors
  pub psus : All (λ (p : PsuSensor D). IsPlain p.name × IsPlain p.source) snap.psu_sensors

module _ {ℓ} {D : Type ℓ} where
  -- Three lines in front, one for each part of the machine, one for each core, and a second one for
  -- a GPU that CUDA knows.
  abbrev pub snapshot_lines : Snapshot D → ℕ
  snapshot_lines snap =
      1
      + (1
          + (1
              + (total package_lines snap.cpu_packages
                  + (total (λ c. 1) snap.arm_clusters
                      + (total nvidia_lines snap.nvidia_gpus
                          + (total (λ g. 1) snap.amd_gpus
                              + (total (λ s. 1) snap.board_sensors
                                  + (total (λ f. 1) snap.fan_sensors
                                      + total (λ p. 1) snap.psu_sensors))))))))

module _ {ℓ} {D : Type ℓ} ⦃d : Double D⦄
    (plain : (digits : ℕ) (x : D) → IsPlain (d.fixed digits x)) where
  -- Where printf's "%.nf" writes no newline, and no text in the snapshot has one: the plain text of the
  -- snapshot has three lines in front, and behind them one line for each CPU package, core, ARM
  -- cluster, GPU, board sensor, fan and power supply, and one more for each NVIDIA GPU whose CUDA
  -- ordinal is not negative.
  pub tm_print_snapshot_text-lines :
      (snap : Snapshot D)
      → IsOneLined snap
      → newlines (text_of (tm_print_snapshot_text snap)) ≡ snapshot_lines snap
  unfolding tm_print_snapshot_text newlines
  tm_print_snapshot_text-lines snap h =
      newlines-text_of (tm_print_snapshot_text snap) (snapshot_lines snap) (
        seq-WritesLines
          (line-WritesLines {s = codes "Thermal Observatory\n"} (record { counted = refl }))
          (seq-WritesLines
            (line-WritesLines (
              plain_then (codes "  arch: ") refl (
                plain_then (arch_name snap.arch) (arch_name-IsPlain snap.arch)
                  (record { counted = refl }))))
            (seq-WritesLines
              (line-WritesLines (
                plain_then (codes "  capabilities: 0x") refl (
                  plain_then (zero_padded 8 (hexadecimal snap.capabilities))
                    (padded-IsPlain 8 _ (hexadecimal-IsPlain snap.capabilities))
                    (record { counted = refl }))))
              (seq-WritesLines
                (for_each-WritesLines package_lines (λ _. Unit {0})
                  (λ pkg _. text_package-WritesLines plain pkg) snap.cpu_packages
                  (everywhere _ snap.cpu_packages (λ _. tt)))
                (seq-WritesLines
                  (for_each-WritesLines (λ c. 1) _ (text_cluster-WritesLines plain)
                    snap.arm_clusters h.clusters)
                  (seq-WritesLines
                    (for_each-WritesLines nvidia_lines _ (text_nvidia-WritesLines plain)
                      snap.nvidia_gpus h.nvidia)
                    (seq-WritesLines
                      (for_each-WritesLines (λ g. 1) _ (text_amd-WritesLines plain) snap.amd_gpus
                        h.amd)
                      (seq-WritesLines
                        (for_each-WritesLines (λ s. 1) _ (text_board-WritesLines plain)
                          snap.board_sensors h.boards)
                        (seq-WritesLines
                          (for_each-WritesLines (λ f. 1) _ (text_fan-WritesLines plain)
                            snap.fan_sensors h.fans)
                          (for_each-WritesLines (λ p. 1) _ (text_psu-WritesLines plain)
                            snap.psu_sensors h.psus))))))))))
