-- ===== src/Json/Valid.antt =====
-- The text of `tm_snapshot_to_json` is JSON, and it is read as the value of the snapshot.
use thermal_observatory.Base.{ℕ, ◌<◌, true, ◌≡◌, refl, Bytes, codes, All, everywhere, length, some}
use thermal_observatory.Base.Int.{pos}
use thermal_observatory.Double.{Double}
use thermal_observatory.Json.{snapshot_timestamp_ns, arch_name, nvidia_source, amd_source}
use thermal_observatory.Json.Capabilities.{cap_names}
use thermal_observatory.Json.Document.{tm_snapshot_to_json}
use thermal_observatory.Json.Readable.{
  IsText, items-readable, set_names-readable, nvidia_source-IsText, amd_source-IsText,
  package_tree-readable, cluster_tree-readable, board_tree-readable, fan_tree-readable,
  psu_tree-readable, sensor_tree-readable,
}
use thermal_observatory.Json.Readable.Gpu.{nvidia_tree-readable, amd_tree-readable}
use thermal_observatory.Json.Renders.{snapshot_text, tm_snapshot_to_json-Renders}
use thermal_observatory.Json.Tree.Document.{
  package_tree, cluster_tree, nvidia_tree, amd_tree, sensor_tree, board_tree, fan_tree, psu_tree,
  summary_tree, header_fields, host_fields, sensor_fields, document_tree,
}
use thermal_observatory.Json.Tree.Numbers.{is_number}
use thermal_observatory.Json.Tree.Reader.{read_json, is_readable, have_readable}
use thermal_observatory.Json.Tree.RoundTrip.Whole.{read_json-print}
use thermal_observatory.Json.Tree.Strings.{is_text}
use thermal_observatory.Libc.Print.Numbers.{is_number-decimal, is_number-signed}
use thermal_observatory.Snapshot.{
  Arch, x86_64, arm64, unknown, ArmCluster, NvidiaGpu, AmdGpu, Sensor, BoardSensor, FanSensor,
  PsuSensor, Snapshot,
}
use thermal_observatory.Snapshot.Capability.{Capability}
use thermal_observatory.Writer.{Memory}
use thermal_observatory.Writer.Memory.{HasAt}

-- No text in the snapshot has a control character but newline, carriage return and tab.
pub record HasTexts {ℓ} {D : Type ℓ} (snap : Snapshot D) : Type 0 where
  pub clusters :
      All (λ (c : ArmCluster D). IsText c.zone_name × IsText c.zone_type) snap.arm_clusters
  pub nvidia :
      All
        (λ (g : NvidiaGpu D). IsText g.name × IsText g.uuid × IsText g.pci_bus_id)
        snap.nvidia_gpus
  pub amd : All (λ (g : AmdGpu D). IsText g.name) snap.amd_gpus
  pub hwmons :
      All (λ (s : Sensor D). IsText s.name × IsText s.label × IsText s.unit) snap.hwmon_sensors
  pub zones :
      All (λ (s : Sensor D). IsText s.name × IsText s.label × IsText s.unit) snap.thermal_zones
  pub boards :
      All
        (λ (s : BoardSensor D).
          IsText s.name × IsText s.sensor_type × IsText s.unit × IsText s.source)
        snap.board_sensors
  pub fans : All (λ (f : FanSensor D). IsText f.name × IsText f.source) snap.fan_sensors
  pub psus : All (λ (p : PsuSensor D). IsText p.name × IsText p.source) snap.psu_sensors

arch_name-IsText : (arch : Arch) → IsText (arch_name arch)
unfolding arch_name is_text
arch_name-IsText x86_64 = refl
arch_name-IsText arm64 = refl
arch_name-IsText unknown = refl

cap_names-IsText : All (λ (n : Capability × Bytes). IsText n.1) cap_names
unfolding is_text
cap_names-IsText = (
  refl,
  (
    refl,
    (refl, (refl, (refl, (refl, (refl, (refl, (refl, (refl, (refl, (refl, (refl, tt))))))))))),
  ),
)

module _ {ℓ} {D : Type ℓ} ⦃d : Double D⦄ (snap : Snapshot D) where
  summary_tree-readable : is_readable (summary_tree snap) ≡ true
  unfolding summary_tree is_readable have_readable is_text
  summary_tree-readable =
      simp
        (
          is_number-decimal (length snap.cpu_packages),
          is_number-decimal (length snap.arm_clusters),
          is_number-decimal (length snap.nvidia_gpus),
          is_number-decimal (length snap.amd_gpus),
          is_number-decimal (length snap.hwmon_sensors),
          is_number-decimal (length snap.thermal_zones),
          is_number-decimal (length snap.board_sensors),
          is_number-decimal (length snap.fan_sensors),
          is_number-decimal (length snap.psu_sensors),
        )
        refl

module _ {ℓ} {D : Type ℓ} ⦃d : Double D⦄
    (numeric : (digits : ℕ) (x : D) → is_number (d.fixed digits x) ≡ true) (snap : Snapshot D) where
  pub document_tree-readable : HasTexts snap → is_readable (document_tree snap) ≡ true
  unfolding document_tree header_fields host_fields sensor_fields is_readable have_readable is_text
  document_tree-readable h =
      let ts_ns = snapshot_timestamp_ns snap.timestamp in
      let nv = nvidia_source-IsText snap.capabilities in
      let am = amd_source-IsText snap.capabilities in
      simp
        (
          is_number-signed snap.timestamp.sec,
          is_number-signed snap.timestamp.nsec,
          is_number-signed (snapshot_timestamp_ns snap.timestamp),
          arch_name-IsText snap.arch,
          is_number-decimal snap.capabilities,
          set_names-readable snap.capabilities cap_names cap_names-IsText,
          items-readable (package_tree ts_ns) (λ _. Unit {0})
              (λ pkg _. package_tree-readable numeric ts_ns pkg) snap.cpu_packages
              (everywhere _ snap.cpu_packages (λ _. tt)),
          items-readable (cluster_tree ts_ns) _ (cluster_tree-readable numeric ts_ns)
              snap.arm_clusters h.clusters,
          items-readable (nvidia_tree ts_ns (nvidia_source snap.capabilities)) _
              (nvidia_tree-readable numeric ts_ns _ nv) snap.nvidia_gpus h.nvidia,
          items-readable (amd_tree ts_ns (amd_source snap.capabilities)) _
              (amd_tree-readable numeric ts_ns _ am) snap.amd_gpus h.amd,
          items-readable (sensor_tree ts_ns (codes "hwmon")) _
              (sensor_tree-readable numeric ts_ns (codes "hwmon") refl) snap.hwmon_sensors h.hwmons,
          items-readable (sensor_tree ts_ns (codes "thermal_zone")) _
              (sensor_tree-readable numeric ts_ns (codes "thermal_zone") refl) snap.thermal_zones
              h.zones,
          items-readable (board_tree ts_ns) _ (board_tree-readable numeric ts_ns) snap.board_sensors
              h.boards,
          items-readable (fan_tree ts_ns) _ (fan_tree-readable numeric ts_ns) snap.fan_sensors
              h.fans,
          items-readable (psu_tree ts_ns) _ (psu_tree-readable numeric ts_ns) snap.psu_sensors
              h.psus,
          summary_tree-readable snap,
        )
        refl

  -- Where "%.nf" writes a JSON number for every value, no text in the snapshot has a control
  -- character but newline, carriage return and tab, and the JSON text is shorter than the buffer:
  -- `tm_snapshot_to_json` leaves a text in the buffer that a strict JSON reader accepts, and the value
  -- that it reads, to the last byte, is the one that the snapshot stands for.
  pub tm_snapshot_to_json-read_json :
      (buf : Memory) (len : ℕ)
      → HasTexts snap
      → length (snapshot_text snap) < len
      → (text : Bytes) × ((tm_snapshot_to_json snap buf len).0 ≡ pos (length text))
        × HasAt (tm_snapshot_to_json snap buf len).1 0 text
        × (read_json text ≡ some (document_tree snap))
  tm_snapshot_to_json-read_json buf len h lt =
      let (returned, bytes, _) = (tm_snapshot_to_json-Renders snap buf len).fits lt in
      (
        snapshot_text snap,
        returned,
        bytes,
        read_json-print (document_tree snap) (document_tree-readable h),
      )
