-- ===== src/Json.antt =====
-- src/format/json.c: the helpers that `tm_snapshot_to_json` calls. A chain of `appendf(…) != 0 ||
-- …` is a chain of actions; a helper returns 0 (`true`) or -1 (`false`). The strings passed are
-- never NULL, so `unit ? unit : ""` is `unit`.
pub mod Capabilities
pub mod Cpu
pub mod Gpu
pub mod Sensors
pub mod Document
pub mod Simulates
pub mod Tree
pub mod Strings
pub mod Renders
pub mod Readable
pub mod Valid
use thermal_observatory.Base.{
  ℕ, ◌+◌, ◌*◌, Bool, true, false, ◌&&◌, ◌||◌, [], ◌∷◌, ◌++◌, ◌==◌, if◌then◌else◌, Bytes, codes,
}
use Prim.Native.String.{String}
use thermal_observatory.Base.Int.{ℤ, pos, pos_part, neg_part, sub_ℕ}
use thermal_observatory.Double.{Double}
use thermal_observatory.Libc.Print.{signed}
use thermal_observatory.Snapshot.{Arch, x86_64, arm64, unknown, Snapshot, Timespec}
use thermal_observatory.Snapshot.Capability.{
  has, nvidia_nvml, nvidia_cuda, amd_rocm_smi, amdgpu_hwmon,
}
use thermal_observatory.Writer.{Action, Sink, ◌>>◌}

-- `sec * 1000000000LL + nsec`, which fits a `long long` until the year 2262
unfoldable pub snapshot_timestamp_ns : Timespec → ℤ
snapshot_timestamp_ns t =
    sub_ℕ (pos_part t.sec * 1_000_000_000 + pos_part t.nsec)
      (neg_part t.sec * 1_000_000_000 + neg_part t.nsec)

unfoldable pub arch_name : Arch → Bytes
arch_name x86_64 = codes "x86_64"
arch_name arm64 = codes "arm64"
arch_name unknown = codes "unknown"

unfoldable pub nvidia_source : ℕ → Bytes
nvidia_source caps =
    if has caps nvidia_nvml && has caps nvidia_cuda
    then codes "nvml+cuda"
    else if has caps nvidia_nvml
    then codes "nvml"
    else if has caps nvidia_cuda
    then codes "cuda"
    else codes "unknown"

unfoldable pub amd_source : ℕ → Bytes
amd_source caps =
    if has caps amd_rocm_smi
    then codes "rocm_smi"
    else if has caps amdgpu_hwmon
    then codes "amdgpu_hwmon"
    else codes "unknown"

module _ {W : Type 0} ⦃sink : Sink W⦄ where
  -- `appendf` on a format with no conversion
  abbrev pub lit : String → Action W
  lit s = sink.append (codes s)

  -- what the loop of `append_json_string` appends for one byte
  unfoldable pub append_json_byte : ℕ → Action W
  append_json_byte c =
      if c == b'\\' || c == b'"'
      then sink.append (b'\\' ∷ c ∷ [])
      else if c == b'\n'
      then lit "\\n"
      else if c == b'\r'
      then lit "\\r"
      else if c == b'\t'
      then lit "\\t"
      else sink.append (c ∷ [])

  unfoldable pub append_json_bytes : Bytes → Action W
  append_json_bytes [] = lit "\""
  append_json_bytes (c ∷ s) = append_json_byte c >> append_json_bytes s

  unfoldable pub append_json_string : Bytes → Action W
  append_json_string s = lit "\"" >> append_json_bytes s

  unfoldable pub append_metric_bool : Bool → Bytes → ℤ → Action W
  append_metric_bool value source ts_ns =
      sink.append (
        codes "{\"value\":"
        ++ ((if value then codes "true" else codes "false") ++ codes ",\"unit\":\"bool\","))
      >> lit "\"source\":"
      >> append_json_string source
      >> sink.append (codes ",\"timestamp_ns\":" ++ (signed ts_ns ++ codes ",\"error\":null}"))

module _ {ℓ} {W : Type 0} ⦃sink : Sink W⦄ {D : Type ℓ} ⦃d : Double D⦄ where
  unfoldable pub append_metric_number : D → Bytes → Bytes → ℤ → Action W
  append_metric_number value unit source ts_ns =
      sink.append (codes "{\"value\":" ++ (d.fixed 6 value ++ codes ",\"unit\":"))
      >> append_json_string unit
      >> lit ",\"source\":"
      >> append_json_string source
      >> sink.append (codes ",\"timestamp_ns\":" ++ (signed ts_ns ++ codes ",\"error\":null}"))
