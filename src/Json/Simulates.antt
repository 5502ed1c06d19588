-- ===== src/Json/Simulates.antt =====
-- Every action of the JSON formatter writes one text, whatever the writer.
use thermal_observatory.Base.{ℕ, Bool, false, List, [], ◌∷◌, Bytes, not}
use thermal_observatory.Base.Int.{ℤ}
use thermal_observatory.Double.{Double}
use thermal_observatory.Json.{
  append_json_byte, append_json_bytes, append_json_string, append_metric_bool, append_metric_number,
}
use thermal_observatory.Json.Capabilities.{append_cap_names, append_capabilities}
use thermal_observatory.Json.Cpu.{json_core, json_package, json_cluster}
use thermal_observatory.Json.Gpu.{json_nvidia_metrics, json_nvidia_cuda, json_nvidia, json_amd}
use thermal_observatory.Json.Sensors.{json_sensor, json_board_sensor, json_fan, json_psu}
use thermal_observatory.Json.Document.{json_header, json_hosts, json_sensors, json_document}
use thermal_observatory.Snapshot.{
  CpuCore, CpuPackage, ArmCluster, NvidiaGpu, AmdGpu, Sensor, BoardSensor, FanSensor, PsuSensor,
  Snapshot,
}
use thermal_observatory.Snapshot.Capability.{Capability, has}
use thermal_observatory.Writer.{buffer_sink, text_sink}
use thermal_observatory.Writer.Simulates.{
  Simulates, Simulates-append, Simulates-then, Simulates-done, Simulates-if,
  Simulates-for_separated,
}

ruleset chain_rules = (Simulates-append, Simulates-then, Simulates-done, Simulates-if)

Simulates-append_json_byte : (c : ℕ) → Simulates (append_json_byte c) (append_json_byte c)
unfolding append_json_byte
Simulates-append_json_byte c = search chain_rules depth 12

Simulates-append_json_bytes : (s : Bytes) → Simulates (append_json_bytes s) (append_json_bytes s)
unfolding append_json_bytes
Simulates-append_json_bytes [] = Simulates-append _
Simulates-append_json_bytes (c ∷ s) =
    Simulates-then (Simulates-append_json_byte c) (Simulates-append_json_bytes s)

Simulates-append_json_string : (s : Bytes) → Simulates (append_json_string s) (append_json_string s)
unfolding append_json_string
Simulates-append_json_string s = Simulates-then (Simulates-append _) (Simulates-append_json_bytes s)

Simulates-append_metric_bool :
    (value : Bool) (source : Bytes) (ts_ns : ℤ)
    → Simulates (append_metric_bool value source ts_ns) (append_metric_bool value source ts_ns)
unfolding append_metric_bool
Simulates-append_metric_bool value source ts_ns =
    search (chain_rules, Simulates-append_json_string) depth 12

ruleset string_rules = (chain_rules, Simulates-append_json_string, Simulates-append_metric_bool)

module _ {ℓ} {D : Type ℓ} ⦃d : Double D⦄ where
  Simulates-append_metric_number :
      (value : D) (unit source : Bytes) (ts_ns : ℤ)
      → Simulates
          (append_metric_number value unit source ts_ns)
          (append_metric_number value unit source ts_ns)
  unfolding append_metric_number
  Simulates-append_metric_number value unit source ts_ns = search string_rules depth 30

ruleset number_rules = (string_rules, Simulates-append_metric_number)

module _ {ℓ} {D : Type ℓ} ⦃d : Double D⦄ (ts_ns : ℤ) where
  Simulates-json_core : (core : CpuCore D) → Simulates (json_core ts_ns core) (json_core ts_ns core)
  unfolding json_core
  Simulates-json_core core = search number_rules depth 60

  Simulates-json_package :
      (pkg : CpuPackage D) → Simulates (json_package ts_ns pkg) (json_package ts_ns pkg)
  unfolding json_package
  Simulates-json_package pkg =
      search
        (
          number_rules,
          Simulates-for_separated Simulates-json_core (Simulates-append _) false pkg.cores,
        )
        depth 60

  Simulates-json_cluster :
      (cluster : ArmCluster D) → Simulates (json_cluster ts_ns cluster) (json_cluster ts_ns cluster)
  unfolding json_cluster
  Simulates-json_cluster cluster = search number_rules depth 60

  Simulates-json_board_sensor :
      (sensor : BoardSensor D)
      → Simulates (json_board_sensor ts_ns sensor) (json_board_sensor ts_ns sensor)
  unfolding json_board_sensor
  Simulates-json_board_sensor sensor = search number_rules depth 60

  Simulates-json_fan : (fan : FanSensor D) → Simulates (json_fan ts_ns fan) (json_fan ts_ns fan)
  unfolding json_fan
  Simulates-json_fan fan = search number_rules depth 60

  Simulates-json_psu : (psu : PsuSensor D) → Simulates (json_psu ts_ns psu) (json_psu ts_ns psu)
  unfolding json_psu
  Simulates-json_psu psu = search number_rules depth 60

module _ {ℓ} {D : Type ℓ} ⦃d : Double D⦄ (ts_ns : ℤ) (src : Bytes) where
  Simulates-json_sensor :
      (sensor : Sensor D) → Simulates (json_sensor ts_ns src sensor) (json_sensor ts_ns src sensor)
  unfolding json_sensor
  Simulates-json_sensor sensor = search number_rules depth 60

  Simulates-json_nvidia_metrics :
      (gpu : NvidiaGpu D)
      → Simulates (json_nvidia_metrics ts_ns src gpu) (json_nvidia_metrics ts_ns src gpu)
  unfolding json_nvidia_metrics
  Simulates-json_nvidia_metrics gpu = search number_rules depth 60

  Simulates-json_nvidia_cuda :
      (gpu : NvidiaGpu D)
      → Simulates (json_nvidia_cuda ts_ns src gpu) (json_nvidia_cuda ts_ns src gpu)
  unfolding json_nvidia_cuda
  Simulates-json_nvidia_cuda gpu = search number_rules depth 60

  Simulates-json_nvidia :
      (gpu : NvidiaGpu D) → Simulates (json_nvidia ts_ns src gpu) (json_nvidia ts_ns src gpu)
  unfolding json_nvidia
  Simulates-json_nvidia gpu =
      search (number_rules, Simulates-json_nvidia_metrics, Simulates-json_nvidia_cuda) depth 60

  Simulates-json_amd :
      (gpu : AmdGpu D) → Simulates (json_amd ts_ns src gpu) (json_amd ts_ns src gpu)
  unfolding json_amd
  Simulates-json_amd gpu = search number_rules depth 60

Simulates-append_cap_names :
    (caps : ℕ) (first : Bool) (names : List (Capability × Bytes))
    → Simulates (append_cap_names caps first names) (append_cap_names caps first names)
unfolding append_cap_names
Simulates-append_cap_names caps first [] = Simulates-done
Simulates-append_cap_names caps first ((bit, name) ∷ rest) =
    Simulates-if (not (has caps bit)) (Simulates-append_cap_names caps first rest) (
      Simulates-then (Simulates-if (not first) (Simulates-append _) Simulates-done) (
        Simulates-then (Simulates-append_json_string name)
          (Simulates-append_cap_names caps false rest)))

Simulates-append_capabilities :
    (caps : ℕ) → Simulates (append_capabilities caps) (append_capabilities caps)
unfolding append_capabilities
Simulates-append_capabilities caps = search (chain_rules, Simulates-append_cap_names) depth 10

module _ {ℓ} {D : Type ℓ} ⦃d : Double D⦄ (snap : Snapshot D) where
  Simulates-json_header : Simulates (json_header snap) (json_header snap)
  unfolding json_header
  Simulates-json_header = search (string_rules, Simulates-append_capabilities) depth 40

  Simulates-json_hosts : Simulates (json_hosts snap) (json_hosts snap)
  unfolding json_hosts
  Simulates-json_hosts =
      search
        (
          chain_rules, Simulates-for_separated, Simulates-json_package, Simulates-json_cluster,
          Simulates-json_nvidia, Simulates-json_amd,
        )
        depth 40

  Simulates-json_sensors : Simulates (json_sensors snap) (json_sensors snap)
  unfolding json_sensors
  Simulates-json_sensors =
      search
        (
          chain_rules, Simulates-for_separated, Simulates-json_sensor, Simulates-json_board_sensor,
          Simulates-json_fan, Simulates-json_psu,
        )
        depth 40

  pub Simulates-json_document : Simulates (json_document snap) (json_document snap)
  unfolding json_document
  Simulates-json_document =
      search (chain_rules, Simulates-json_header, Simulates-json_hosts, Simulates-json_sensors)
        depth 10
