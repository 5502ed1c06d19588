-- ===== src/Platform/Sysfs.antt =====
-- src/platform/linux_sysfs.c: `tm_context_init` and `tm_collect_generic_linux`.
pub mod Bounds
pub mod Marks
pub mod Zones
pub mod Hwmons
pub mod Safe
use thermal_observatory.Base.{
  ℕ, ◌-◌, Bool, true, false, ◌||◌, Option, none, some, List, [], ◌∷◌, ◌++◌, ltb, if◌then◌else◌,
  Bytes, codes, length, take, ◌>>=◌, equal,
}
use thermal_observatory.Base.Int.{ℤ}
use thermal_observatory.Base.Loops.{while_room, with_list}
use thermal_observatory.Double.{Double, milli}
use thermal_observatory.Libc.Scan.{strip_prefix, take_until, contains, after_last}
use thermal_observatory.Platform.{Host, read_long, read_string}
use thermal_observatory.Platform.Paths.{
  snprintf, tm_sysroot, tm_glob_join, tm_strip_sysroot_path, copy_path, retarget,
}
use thermal_observatory.Snapshot.{
  Arch, unknown, x86_64, arm64, Sensor, Snapshot, max_thermal_zones, max_hwmon_sensors,
}
use thermal_observatory.Snapshot.Capability.{with_cap, linux_thermal, linux_hwmon}

-- `tm_context_t`
pub record Context : Type 0 where
  pub arch : Arch
  pub want_json : Bool
  pub want_experimental_kernel : Bool

unfoldable pub arch_of : Option Bytes → Arch
arch_of none = unknown
arch_of (some machine) =
    if equal machine (codes "x86_64")
    then x86_64
    else if equal machine (codes "aarch64") || equal machine (codes "arm64")
    then arm64
    else unknown

unfoldable pub tm_context_init : Host → Context
tm_context_init host = record {
  arch = arch_of host.machine;
  want_json = false;
  want_experimental_kernel = false;
}

-- `sscanf(path, "<directory>%63[^/]…", name) == 1`: a name of at least one and at most 63 bytes
unfoldable pub scan_name : Bytes → Bytes → Option Bytes
scan_name directory path = do
  rest ← strip_prefix directory path
  elim (take_until b'/' rest) [ [] ↦ none | c ∷ name ↦ some (take 63 (c ∷ name)) ]

abbrev pub or_else : Option Bytes → Bytes → Bytes
or_else none s = s
or_else (some t) s = t

-- The label beside an input: its file, or the input's own name.
unfoldable pub hwmon_label : Host → Bytes → Bytes → Bytes
hwmon_label host label_path input_path =
    or_else (read_string host label_path 64)
      (take 63 (or_else (after_last b'/' input_path) (codes "temp")))

-- `if (strstr(label_path, "_input")) strcpy(strstr(label_path, "_input"), "_label");`
unfoldable pub label_path_of : Bytes → Option Bytes
label_path_of path =
    if contains path (codes "_input")
    then retarget (codes "_input") (codes "_label") path
    else some path

module _ {ℓ} {D : Type ℓ} ⦃d : Double D⦄ (host : Host) where
  -- The sensor for a thermal zone whose `temp` file is at `path`, or `none` where the loop goes on.
  unfoldable pub read_zone : Bytes → Option (Sensor D)
  read_zone path = do
    temp_mc ← read_long host path
    zone_name ← scan_name (codes "/sys/class/thermal/") (tm_strip_sysroot_path host path 512)
    let base = snprintf 256 (tm_sysroot host ++ (codes "/sys/class/thermal/" ++ zone_name))
    let type_path = snprintf 256 (base ++ codes "/type")
    some (record {
      name = take 63 zone_name;
      label = or_else (read_string host type_path 64) [];
      value = milli temp_mc;
      unit = codes "celsius";
    })

  abbrev add_zone : Snapshot D → Option (Sensor D) → Snapshot D
  add_zone snap none = snap
  add_zone snap (some sensor) = record snap { thermal_zones = snap.thermal_zones ++ sensor ∷ [] }

  unfoldable pub zone_room : Snapshot D → Bool
  zone_room snap = ltb (length snap.thermal_zones) max_thermal_zones

  unfoldable pub collect_zone : Bytes → Snapshot D → Option (Snapshot D)
  collect_zone path snap = some (add_zone snap (read_zone path))

  unfoldable pub collect_zone_paths : List Bytes → Snapshot D → Option (Snapshot D)
  collect_zone_paths paths snap = do
    after ← while_room zone_room collect_zone paths snap
    some (record after { capabilities = with_cap after.capabilities linux_thermal })

  unfoldable pub collect_zones : Snapshot D → Option (Snapshot D)
  collect_zones snap =
      with_list (host.glob (tm_glob_join host 256 (codes "/sys/class/thermal/thermal_zone*/temp")))
        collect_zone_paths snap

  unfoldable pub hwmon_record : ℤ → Bytes → Bytes → Bytes → Sensor D
  hwmon_record temp_mc hwmon input_path label_path =
      let name_path =
        snprintf 512 (tm_sysroot host ++ (codes "/sys/class/hwmon/" ++ (hwmon ++ codes "/name"))) in
      record {
        name = or_else (read_string host name_path 64) [];
        label = hwmon_label host label_path input_path;
        value = milli temp_mc;
        unit = codes "celsius";
      }

  -- The sensor for an input whose reading and directory are known.
  unfoldable pub hwmon_sensor : Bytes → ℤ → Bytes → Option (Sensor D)
  hwmon_sensor path temp_mc hwmon = do
    input_path ← copy_path 512 path
    label_copy ← copy_path 512 path
    label_path ← label_path_of label_copy
    some (hwmon_record temp_mc hwmon input_path label_path)

  -- `continue` without a directory; the outer `none` is a fault.
  abbrev with_directory : Bytes → ℤ → Option Bytes → Option (Option (Sensor D))
  with_directory path temp_mc none = some none
  with_directory path temp_mc (some hwmon) = do
    sensor ← hwmon_sensor path temp_mc hwmon
    some (some sensor)

  -- `continue` without a reading
  abbrev with_reading : Bytes → Option ℤ → Option (Option (Sensor D))
  with_reading path none = some none
  with_reading path (some temp_mc) =
      with_directory path temp_mc
        (scan_name (codes "/sys/class/hwmon/") (tm_strip_sysroot_path host path 512))

  unfoldable pub read_hwmon : Bytes → Option (Option (Sensor D))
  read_hwmon path = with_reading path (read_long host path)

  abbrev add_hwmon : Snapshot D → Option (Sensor D) → Snapshot D
  add_hwmon snap none = snap
  add_hwmon snap (some sensor) = record snap { hwmon_sensors = snap.hwmon_sensors ++ sensor ∷ [] }

  unfoldable pub hwmon_room : Snapshot D → Bool
  hwmon_room snap = ltb (length snap.hwmon_sensors) max_hwmon_sensors

  unfoldable pub collect_hwmon : Bytes → Snapshot D → Option (Snapshot D)
  collect_hwmon path snap = do found ← read_hwmon path; some (add_hwmon snap found)

  unfoldable pub collect_hwmon_paths : List Bytes → Snapshot D → Option (Snapshot D)
  collect_hwmon_paths paths snap = do
    after ← while_room hwmon_room collect_hwmon paths snap
    some (record after { capabilities = with_cap after.capabilities linux_hwmon })

  unfoldable pub collect_hwmons : Snapshot D → Option (Snapshot D)
  collect_hwmons snap =
      with_list (host.glob (tm_glob_join host 256 (codes "/sys/class/hwmon/hwmon*/temp*_input")))
        collect_hwmon_paths snap

  unfoldable pub tm_collect_generic_linux : Snapshot D → Option (Snapshot D)
  tm_collect_generic_linux snap = do zoned ← collect_zones snap; collect_hwmons zoned
