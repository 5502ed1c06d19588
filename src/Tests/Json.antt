-- ===== src/Tests/Json.antt =====
-- A snapshot whose readings are whole numbers, written and read back.
use thermal_observatory.Base.{
  ℕ, ◌<◌, ◌+◌, ◌/◌, ◌≡◌, refl, none, some, [], ◌∷◌, Bytes, codes, equal, ◌++◌, length, ltb, ltb→lt,
  false, true,
}
use thermal_observatory.Base.Int.{pos, pos_part}
use thermal_observatory.Double.{Double}
use thermal_observatory.Json.Document.{tm_snapshot_to_json}
use thermal_observatory.Json.Renders.{snapshot_text}
use thermal_observatory.Json.Tree.{print, escaped, escape}
use thermal_observatory.Json.{arch_name, amd_source, snapshot_timestamp_ns}
use thermal_observatory.Json.Tree.Document.{
  document_tree, header_fields, host_fields, sensor_fields, metric, amd_tree, summary_tree,
}
use thermal_observatory.Json.Tree.Numbers.{is_number}
use thermal_observatory.Json.Tree.Reader.{read_json}
use thermal_observatory.Json.Tree.Strings.{is_text}
use thermal_observatory.Json.Valid.{HasTexts, tm_snapshot_to_json-read_json}
use thermal_observatory.Libc.Print.{decimal, signed}
use thermal_observatory.Libc.Print.Numbers.{is_number-decimal}
use thermal_observatory.Base.Loops.{while_room}
use thermal_observatory.Cpu.Arm64.{tm_collect_arm64}
use thermal_observatory.Gpu.{Libraries, open_first, count_from}
use thermal_observatory.Gpu.Amd.{
  load_rsmi, amd_room, read_rsmi, collect_rsmi, mark_rsmi, collect_rsmi_devices, devices_of,
  tm_collect_amd,
}
use thermal_observatory.Gpu.Cuda.{load_cuda_runtime, tm_collect_nvidia_cuda}
use thermal_observatory.Gpu.Dcgm.{tm_collect_nvidia_dcgm}
use thermal_observatory.Gpu.Nvidia.{load_nvml, tm_collect_nvidia}
use thermal_observatory.Libc.Scan.{to_int}
use thermal_observatory.Monitor.{blank_snapshot, collect_cpu, tm_collect_snapshot}
use thermal_observatory.Monitor.Loop.{Round, exits, with_flags, main}
use thermal_observatory.Monitor.Loop.JsonRun.{json_options, main-read_json}
use thermal_observatory.Monitor.Options.{default_options, read_arguments, choose, set_flag}
use thermal_observatory.Monitor.Show.{prints}
use thermal_observatory.Platform.{Host}
use thermal_observatory.Platform.Ipmi.{command_exists, tm_collect_ipmi}
use thermal_observatory.Platform.Redfish.{tm_collect_redfish}
use thermal_observatory.Platform.Sysfs.{
  tm_context_init, arch_of, tm_collect_generic_linux, collect_zones, collect_hwmons,
}
use thermal_observatory.Tests.Gpu.{rsmi}
use thermal_observatory.Snapshot.{Snapshot, arm64}
use thermal_observatory.Snapshot.Capability.{has, mask, with_cap}
use thermal_observatory.Writer.Memory.{HasAt}

instance abbrev whole_double : Double ℕ
whole_double = record {
  of_int = pos_part;
  div = λ x y. x / y;
  add = λ x y. x + y;
  gt = λ x y. ltb y x;
  fixed = λ digits x. decimal x;
  strtod = λ text. none;
}

writes_numbers : (digits x : ℕ) → is_number (whole_double.fixed digits x) ≡ true
writes_numbers digits x = is_number-decimal x

abbrev one_gpu : Snapshot ℕ
one_gpu = record (blank_snapshot arm64 (record { sec = pos 1; nsec = pos 500 })) {
  capabilities = 64;
  amd_gpus =
      record {
        gpu_index = pos 0;
        name = codes "MI \"300\"\n";
        edge_temp_c = 55;
        junction_temp_c = 61;
        memory_temp_c = 48;
        avg_power_w = 300;
        power_cap_w = 0;
        thermal_throttling = false;
      }
      ∷ [];
}

one_gpu-HasTexts : HasTexts one_gpu
unfolding is_text blank_snapshot
one_gpu-HasTexts = record {
  clusters = tt;
  nvidia = tt;
  amd = (refl, tt);
  hwmons = tt;
  zones = tt;
  boards = tt;
  fans = tt;
  psus = tt;
}

text_fits : length (snapshot_text one_gpu) < 65_536
unfolding document_tree header_fields host_fields sensor_fields print escaped escape metric amd_tree
    summary_tree signed decimal has mask arch_name amd_source snapshot_timestamp_ns blank_snapshot
text_fits = ltb→lt _ _ refl

tm_snapshot_to_json-read_json_example :
    (text : Bytes) × ((tm_snapshot_to_json one_gpu (λ address. 0) 65_536).0 ≡ pos (length text))
    × HasAt (tm_snapshot_to_json one_gpu (λ address. 0) 65_536).1 0 text
    × (read_json text ≡ some (document_tree one_gpu))
tm_snapshot_to_json-read_json_example =
    tm_snapshot_to_json-read_json writes_numbers one_gpu (λ address. 0) 65_536 one_gpu-HasTexts
      text_fits

-- A machine with no sensors and one AMD GPU.
abbrev bare : Host
bare = record {
  getenv = λ name. none;
  file = λ path. none;
  glob = λ pattern. none;
  system = λ command. false;
  popen = λ command. none;
  machine = some (codes "aarch64");
  clock = record { sec = pos 1; nsec = pos 500 };
}

abbrev amd_only : Libraries
amd_only = record { nvml = λ path. none; cuda = λ path. none; rsmi = λ path. some rsmi }

abbrev round : Round
round = record {
  host = bare;
  libraries = amd_only;
  writable = λ path. false;
  buf = λ address. 7;
  signal_before = false;
  signal_after = false;
}

abbrev collected_gpu : Snapshot ℕ
collected_gpu = record (blank_snapshot arm64 (record { sec = pos 1; nsec = pos 500 })) {
  capabilities = 64;
  amd_gpus =
      record {
        gpu_index = pos 0;
        name = codes "MI300X";
        edge_temp_c = 55;
        junction_temp_c = 55;
        memory_temp_c = 55;
        avg_power_w = 300;
        power_cap_w = 0;
        thermal_throttling = false;
      }
      ∷ [];
}

collects_gpu :
    tm_collect_snapshot bare amd_only (with_flags (tm_context_init bare) json_options)
    ≡ some collected_gpu
unfolding tm_collect_snapshot blank_snapshot collect_cpu tm_context_init arch_of equal
    tm_collect_generic_linux collect_zones collect_hwmons tm_collect_arm64 tm_collect_nvidia
    load_nvml open_first tm_collect_nvidia_cuda load_cuda_runtime tm_collect_nvidia_dcgm
    command_exists tm_collect_amd load_rsmi devices_of collect_rsmi_devices while_room amd_room
    collect_rsmi read_rsmi mark_rsmi count_from with_cap mask to_int tm_collect_ipmi
    tm_collect_redfish
collects_gpu = refl

collected_gpu-HasTexts : HasTexts collected_gpu
unfolding is_text blank_snapshot
collected_gpu-HasTexts = record {
  clusters = tt;
  nvidia = tt;
  amd = (refl, tt);
  hwmons = tt;
  zones = tt;
  boards = tt;
  fans = tt;
  psus = tt;
}

collected_fits : length (snapshot_text collected_gpu) < 65_536
unfolding document_tree header_fields host_fields sensor_fields print escaped escape metric amd_tree
    summary_tree signed decimal has mask arch_name amd_source snapshot_timestamp_ns blank_snapshot
collected_fits = ltb→lt _ _ refl

reads_json : read_arguments (codes "--json" ∷ []) default_options ≡ some json_options
unfolding read_arguments choose set_flag equal
reads_json = refl

main-read_json_example :
    (text : Bytes) × (main ℕ bare (codes "thermal") (codes "--json" ∷ []) (round ∷ [])
      ≡ (prints (text ++ codes "\n") ∷ [], exits (pos 0)))
    × (read_json text ≡ some (document_tree collected_gpu))
main-read_json_example =
    main-read_json writes_numbers bare (codes "thermal") (codes "--json" ∷ []) round []
      collected_gpu reads_json collects_gpu collected_gpu-HasTexts collected_fits
