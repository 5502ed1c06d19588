-- ===== src/Json/Document.antt =====
-- `tm_snapshot_to_json` of src/format/json.c.
use thermal_observatory.Base.{ℕ, Bool, true, false, ◌++◌, Bytes, codes, length}
use thermal_observatory.Base.Int.{ℤ, negsuc}
use thermal_observatory.Double.{Double}
use thermal_observatory.Json.{
  lit, append_json_string, snapshot_timestamp_ns, arch_name, nvidia_source, amd_source,
}
use thermal_observatory.Json.Capabilities.{append_capabilities}
use thermal_observatory.Json.Cpu.{json_package, json_cluster}
use thermal_observatory.Json.Gpu.{json_nvidia, json_amd}
use thermal_observatory.Json.Sensors.{json_sensor, json_board_sensor, json_fan, json_psu}
use thermal_observatory.Libc.Print.{decimal, signed}
use thermal_observatory.Snapshot.{Snapshot}
use thermal_observatory.Writer.{
  Action, Sink, ◌>>◌, for_separated, Memory, Writer, buffer_sink, fresh, written,
}

-- The format of the last `appendf`, with the nine counts in it.
unfoldable pub summary_text {ℓ} : {D : Type ℓ} → Snapshot D → Bytes
summary_text snap =
    codes ",\"summary\":{\"cpu_package_count\":"
    ++ (decimal (length snap.cpu_packages)
        ++ (codes ",\"arm_cluster_count\":"
            ++ (decimal (length snap.arm_clusters)
                ++ (codes ",\"nvidia_gpu_count\":"
                    ++ (decimal (length snap.nvidia_gpus)
                        ++ (codes ",\"amd_gpu_count\":"
                            ++ (decimal (length snap.amd_gpus)
                                ++ (codes ",\"hwmon_sensor_count\":"
                                    ++ (decimal (length snap.hwmon_sensors)
                                        ++ (codes ",\"thermal_zone_count\":"
                                            ++ (decimal (length snap.thermal_zones)
                                                ++ (codes ",\"board_sensor_count\":"
                                                    ++ (decimal (length snap.board_sensors)
                                                        ++ (codes ",\"fan_sensor_count\":"
                                                            ++ (decimal (length snap.fan_sensors)
                                                            ++ (codes ",\"psu_sensor_count\":"
                                                            ++ (decimal (length snap.psu_sensors)
                                                            ++ codes "}}")))))))))))))))))

module _ {ℓ} {W : Type 0} ⦃sink : Sink W⦄ {D : Type ℓ} ⦃d : Double D⦄ (snap : Snapshot D) where
  -- what stands in front of the first list
  unfoldable pub json_header : Action W
  json_header =
      let ts_ns = snapshot_timestamp_ns snap.timestamp in
      lit "{"
      >> lit "\"schema_version\":\"0.3.0\","
      >> sink.append (
          codes "\"release_version\":\""
          ++ (decimal 0 ++ (codes "." ++ (decimal 1 ++ (codes "." ++ (decimal 0 ++ codes "\","))))))
      >> sink.append (
          codes "\"timestamp\":{\"sec\":"
          ++ (signed snap.timestamp.sec
              ++ (codes ",\"nsec\":"
                  ++ (signed snap.timestamp.nsec
                      ++ (codes ",\"timestamp_ns\":" ++ (signed ts_ns ++ codes "},"))))))
      >> lit "\"arch\":"
      >> append_json_string (arch_name snap.arch)
      >> sink.append (
          codes ",\"capability_mask\":"
          ++ (decimal snap.capabilities ++ codes ",\"capabilities\":"))
      >> append_capabilities snap.capabilities

  -- the lists, each between its opening and its closing bracket
  unfoldable pub json_hosts : Action W
  json_hosts =
      let ts_ns = snapshot_timestamp_ns snap.timestamp in
      lit ",\"cpu_packages\":["
      >> for_separated (lit ",") (json_package ts_ns) false snap.cpu_packages
      >> lit "]"
      >> lit ",\"arm_clusters\":["
      >> for_separated (lit ",") (json_cluster ts_ns) false snap.arm_clusters
      >> lit "]"
      >> lit ",\"nvidia_gpus\":["
      >> for_separated (lit ",") (json_nvidia ts_ns (nvidia_source snap.capabilities)) false
          snap.nvidia_gpus
      >> lit "]"
      >> lit ",\"amd_gpus\":["
      >> for_separated (lit ",") (json_amd ts_ns (amd_source snap.capabilities)) false snap.amd_gpus
      >> lit "]"

  unfoldable pub json_sensors : Action W
  json_sensors =
      let ts_ns = snapshot_timestamp_ns snap.timestamp in
      lit ",\"hwmon_sensors\":["
      >> for_separated (lit ",") (json_sensor ts_ns (codes "hwmon")) false snap.hwmon_sensors
      >> lit "]"
      >> lit ",\"thermal_zones\":["
      >> for_separated (lit ",") (json_sensor ts_ns (codes "thermal_zone")) false snap.thermal_zones
      >> lit "]"
      >> lit ",\"board_sensors\":["
      >> for_separated (lit ",") (json_board_sensor ts_ns) false snap.board_sensors
      >> lit "]"
      >> lit ",\"fan_sensors\":["
      >> for_separated (lit ",") (json_fan ts_ns) false snap.fan_sensors
      >> lit "]"
      >> lit ",\"psu_sensors\":["
      >> for_separated (lit ",") (json_psu ts_ns) false snap.psu_sensors
      >> lit "]"

  unfoldable pub json_document : Action W
  json_document = json_header >> json_hosts >> json_sensors >> sink.append (summary_text snap)

-- An action that returns -1 makes the function return -1 at once.
abbrev pub result : Bool × Writer → ℤ × Memory
result (true, w) = written w
result (false, w) = (negsuc 0, w.buf)

unfoldable pub tm_snapshot_to_json {ℓ} :
    {D : Type ℓ} ⦃d : Double D⦄ → Snapshot D → Memory → ℕ → ℤ × Memory
tm_snapshot_to_json snap buf len = result (json_document snap (fresh buf len))
