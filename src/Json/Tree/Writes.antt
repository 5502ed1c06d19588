-- ===== src/Json/Tree/Writes.antt =====
-- The text that each action of src/format/json.c writes is the text of a JSON value.
use thermal_observatory.Base.{
  ℕ, Bool, true, false, List, [], ◌∷◌, ◌++◌, append_assoc, ◌≡◌, refl, arith, Bytes, not, Bool-cases,
  inl, inr, codes,
}
use thermal_observatory.Base.Int.{ℤ}
use thermal_observatory.Double.{Double}
use thermal_observatory.Libc.Print.{decimal}
use thermal_observatory.Json.{
  snapshot_timestamp_ns, nvidia_source, amd_source, lit, append_json_byte, append_json_bytes,
  append_json_string, append_metric_bool, append_metric_number,
}
use thermal_observatory.Json.Cpu.{json_core, json_package, json_cluster}
use thermal_observatory.Json.Capabilities.{append_cap_names, append_capabilities, cap_names}
use thermal_observatory.Json.Gpu.{json_nvidia_metrics, json_nvidia_cuda, json_nvidia, json_amd}
use thermal_observatory.Json.Sensors.{json_sensor, json_board_sensor, json_fan, json_psu}
use thermal_observatory.Json.Document.{
  json_header, json_hosts, json_sensors, json_document, summary_text,
}
use thermal_observatory.Json.Tree.{
  Json, items, arr, bool, num, print_items, print_fields, fields_of, escape, escaped, quoted, print,
}
use thermal_observatory.Json.Tree.Document.{
  metric, core_tree, package_tree, cluster_tree, board_tree, fan_tree, psu_tree, sensor_tree,
  nvidia_metrics_fields, nvidia_cuda_fields, nvidia_tree, amd_tree, set_names, summary_tree,
  document_tree, header_fields, host_fields, sensor_fields,
}
use thermal_observatory.Snapshot.{
  CpuCore, CpuPackage, ArmCluster, NvidiaGpu, AmdGpu, Sensor, BoardSensor, FanSensor, PsuSensor,
  Snapshot,
}
use thermal_observatory.Snapshot.Capability.{Capability, has}
use thermal_observatory.Writer.{Action, Text, text_sink, ◌>>◌, done, for_separated}

append_json_byte-escape :
    (c : ℕ) (t : Text) → append_json_byte c t ≡ (true, λ rest. t (escape c ++ rest))
unfolding append_json_byte escape
append_json_byte-escape c t = ground arith

append_json_bytes-escaped :
    (s : Bytes) (t : Text) → append_json_bytes s t ≡ (true, λ rest. t (escaped s rest))
unfolding append_json_bytes escaped ◌>>◌
append_json_bytes-escaped [] t = refl
append_json_bytes-escaped (c ∷ s) t = simp (append_json_byte-escape, append_json_bytes-escaped s)

pub append_json_string-quoted :
    (s : Bytes) (t : Text) → append_json_string s t ≡ (true, λ rest. t (quoted s rest))
unfolding append_json_string ◌>>◌
append_json_string-quoted s t = append_json_bytes-escaped s (λ rest. t (b'"' ∷ rest))

append_metric_bool-metric :
    (value : Bool) (source : Bytes) (ts_ns : ℤ) (t : Text)
    → append_metric_bool value source ts_ns t
      ≡ (true, λ rest. t (print (metric (bool value) (codes "bool") source ts_ns) rest))
unfolding append_metric_bool ◌>>◌ metric print escape
append_metric_bool-metric true source ts_ns t = simp (append_json_string-quoted, append_assoc)
append_metric_bool-metric false source ts_ns t = simp (append_json_string-quoted, append_assoc)

-- A loop over elements is an array of their values.
for_separated-items {ℓ} :
    {A : Type ℓ} (f : A → Action Text) (g : A → Json)
    → ((x : A) (t : Text) → f x t ≡ (true, λ rest. t (print (g x) rest)))
    → (later : Bool) (xs : List A) (t : Text)
    → for_separated (lit ",") f later xs t ≡ (true, λ rest. t (print_items later (items g xs) rest))
unfolding for_separated ◌>>◌ print
for_separated-items f g each later [] t = refl
for_separated-items f g each true (x ∷ xs) t = simp (each, for_separated-items f g each true xs)
for_separated-items f g each false (x ∷ xs) t = simp (each, for_separated-items f g each true xs)

ruleset string_texts = (append_json_string-quoted, append_metric_bool-metric, append_assoc)

module _ {ℓ} {D : Type ℓ} ⦃d : Double D⦄ (ts_ns : ℤ) where
  append_metric_number-metric :
      (value : D) (unit source : Bytes) (t : Text)
      → append_metric_number value unit source ts_ns t
        ≡ (true, λ rest. t (print (metric (num (d.fixed 6 value)) unit source ts_ns) rest))
  unfolding append_metric_number ◌>>◌ metric print escape
  append_metric_number-metric value unit source t = simp (append_json_string-quoted, append_assoc)

ruleset texts = (string_texts, append_metric_number-metric)

module _ {ℓ} {D : Type ℓ} ⦃d : Double D⦄ (ts_ns : ℤ) where
  json_core-core_tree :
      (core : CpuCore D) (t : Text)
      → json_core ts_ns core t ≡ (true, λ rest. t (print (core_tree ts_ns core) rest))
  unfolding json_core ◌>>◌ core_tree print escape
  json_core-core_tree core t = simp texts

  json_package-package_tree :
      (pkg : CpuPackage D) (t : Text)
      → json_package ts_ns pkg t ≡ (true, λ rest. t (print (package_tree ts_ns pkg) rest))
  unfolding json_package ◌>>◌ package_tree print escape
  json_package-package_tree pkg t =
      simp (texts, for_separated-items (json_core ts_ns) (core_tree ts_ns) json_core-core_tree)

  json_cluster-cluster_tree :
      (cluster : ArmCluster D) (t : Text)
      → json_cluster ts_ns cluster t ≡ (true, λ rest. t (print (cluster_tree ts_ns cluster) rest))
  unfolding json_cluster ◌>>◌ cluster_tree print escape
  json_cluster-cluster_tree cluster t = simp texts

  json_board_sensor-board_tree :
      (sensor : BoardSensor D) (t : Text)
      → json_board_sensor ts_ns sensor t ≡ (true, λ rest. t (print (board_tree ts_ns sensor) rest))
  unfolding json_board_sensor ◌>>◌ board_tree print escape
  json_board_sensor-board_tree sensor t = simp texts

  json_fan-fan_tree :
      (fan : FanSensor D) (t : Text)
      → json_fan ts_ns fan t ≡ (true, λ rest. t (print (fan_tree ts_ns fan) rest))
  unfolding json_fan ◌>>◌ fan_tree print escape
  json_fan-fan_tree fan t = simp texts

  json_psu-psu_tree :
      (psu : PsuSensor D) (t : Text)
      → json_psu ts_ns psu t ≡ (true, λ rest. t (print (psu_tree ts_ns psu) rest))
  unfolding json_psu ◌>>◌ psu_tree print escape
  json_psu-psu_tree psu t = simp texts

module _ {ℓ} {D : Type ℓ} ⦃d : Double D⦄ (ts_ns : ℤ) (src : Bytes) where
  json_sensor-sensor_tree :
      (sensor : Sensor D) (t : Text)
      → json_sensor ts_ns src sensor t
        ≡ (true, λ rest. t (print (sensor_tree ts_ns src sensor) rest))
  unfolding json_sensor ◌>>◌ sensor_tree print escape
  json_sensor-sensor_tree sensor t = simp texts

  json_amd-amd_tree :
      (gpu : AmdGpu D) (t : Text)
      → json_amd ts_ns src gpu t ≡ (true, λ rest. t (print (amd_tree ts_ns src gpu) rest))
  unfolding json_amd ◌>>◌ amd_tree print escape
  json_amd-amd_tree gpu t = simp texts

  json_nvidia_metrics-fields :
      (gpu : NvidiaGpu D) (t : Text)
      → json_nvidia_metrics ts_ns src gpu t
        ≡ (true, λ rest. t (print_fields false (nvidia_metrics_fields ts_ns src gpu) rest))
  unfolding json_nvidia_metrics ◌>>◌ nvidia_metrics_fields print escape
  json_nvidia_metrics-fields gpu t = simp texts

  json_nvidia_cuda-fields :
      (gpu : NvidiaGpu D) (t : Text)
      → json_nvidia_cuda ts_ns src gpu t
        ≡ (true, λ rest. t (print_fields false (nvidia_cuda_fields ts_ns src gpu) rest))
  unfolding json_nvidia_cuda ◌>>◌ nvidia_cuda_fields print escape
  json_nvidia_cuda-fields gpu t = simp texts

  json_nvidia-nvidia_tree :
      (gpu : NvidiaGpu D) (t : Text)
      → json_nvidia ts_ns src gpu t ≡ (true, λ rest. t (print (nvidia_tree ts_ns src gpu) rest))
  unfolding json_nvidia ◌>>◌ nvidia_tree print escape
  json_nvidia-nvidia_tree gpu t = simp (texts, json_nvidia_metrics-fields, json_nvidia_cuda-fields)

append_cap_names-set_names :
    (caps : ℕ) (first : Bool) (names : List (Capability × Bytes)) (t : Text)
    → append_cap_names caps first names t
      ≡ (true, λ rest. t (print_items (not first) (set_names caps names) rest))
unfolding append_cap_names ◌>>◌ print done
append_cap_names-set_names caps first [] t = refl
append_cap_names-set_names caps true ((bit, name) ∷ names) t = elim (Bool-cases (has caps bit)) [
  | inl e ↦ rw e (simp (append_json_string-quoted, append_cap_names-set_names caps false names))
  | inr e ↦ rw e (append_cap_names-set_names caps true names t)
]
append_cap_names-set_names caps false ((bit, name) ∷ names) t = elim (Bool-cases (has caps bit)) [
  | inl e ↦ rw e (simp (append_json_string-quoted, append_cap_names-set_names caps false names))
  | inr e ↦ rw e (append_cap_names-set_names caps false names t)
]

append_capabilities-set_names :
    (caps : ℕ) (t : Text)
    → append_capabilities caps t ≡ (true, λ rest. t (print (arr (set_names caps cap_names)) rest))
unfolding append_capabilities ◌>>◌ print
append_capabilities-set_names caps t = simp append_cap_names-set_names

module _ {ℓ} {D : Type ℓ} ⦃d : Double D⦄ (snap : Snapshot D) where
  json_summary :
      (rest : Bytes)
      → summary_text snap ++ rest
        ≡ b',' ∷ quoted (codes "summary") (b':' ∷ print (summary_tree snap) (b'}' ∷ rest))
  unfolding summary_text summary_tree print escape
  json_summary rest = simp append_assoc

  json_header-fields :
      (t : Text)
      → json_header snap t
        ≡ (true, λ rest. t (b'{' ∷ print_fields false (fields_of (header_fields snap)) rest))
  unfolding json_header ◌>>◌ header_fields print escape decimal
  json_header-fields t = simp (string_texts, append_capabilities-set_names)

  json_hosts-fields :
      (t : Text)
      → json_hosts snap t
        ≡ (true, λ rest. t (print_fields true (fields_of (host_fields snap)) rest))
  unfolding json_hosts ◌>>◌ host_fields print escape for_separated
  json_hosts-fields t = simp (
    for_separated-items _ _
        (json_package-package_tree {D = D} (snapshot_timestamp_ns snap.timestamp)),
    for_separated-items _ _
        (json_cluster-cluster_tree {D = D} (snapshot_timestamp_ns snap.timestamp)),
    for_separated-items _ _ (
        json_nvidia-nvidia_tree {D = D} (snapshot_timestamp_ns snap.timestamp)
          (nvidia_source snap.capabilities)),
    for_separated-items _ _ (
        json_amd-amd_tree {D = D} (snapshot_timestamp_ns snap.timestamp)
          (amd_source snap.capabilities)),
  )

  json_sensors-fields :
      (t : Text)
      → json_sensors snap t
        ≡ (true, λ rest. t (print_fields true (fields_of (sensor_fields snap)) rest))
  unfolding json_sensors ◌>>◌ sensor_fields print escape for_separated
  json_sensors-fields t = simp (
    for_separated-items _ _
        (json_sensor-sensor_tree {D = D} (snapshot_timestamp_ns snap.timestamp) (codes "hwmon")),
    for_separated-items _ _ (
        json_sensor-sensor_tree {D = D} (snapshot_timestamp_ns snap.timestamp)
          (codes "thermal_zone")),
    for_separated-items _ _
        (json_board_sensor-board_tree {D = D} (snapshot_timestamp_ns snap.timestamp)),
    for_separated-items _ _ (json_fan-fan_tree {D = D} (snapshot_timestamp_ns snap.timestamp)),
    for_separated-items _ _ (json_psu-psu_tree {D = D} (snapshot_timestamp_ns snap.timestamp)),
  )

  pub json_document-document_tree :
      (t : Text) → json_document snap t ≡ (true, λ rest. t (print (document_tree snap) rest))
  unfolding json_document ◌>>◌ document_tree print escape
  json_document-document_tree t =
      simp (json_header-fields, json_hosts-fields, json_sensors-fields, json_summary)
