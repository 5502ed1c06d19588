-- ===== src/Tests/Collectors.antt =====
-- The collectors' theorems at the machine of Tests/Machine.antt.
use thermal_observatory.Base.{
  ◌+◌, ◌<◌, true, false, ◌↔◌, ◌⊎◌, ◌||◌, ◌&&◌, ◌==◌, ltb, ◌≡◌, refl, some, some-injective, subst,
  List, [], ◌∷◌, arith, Bytes, codes, All, length, equal,
}
use thermal_observatory.Base.Int.{pos}
use thermal_observatory.Base.Loops.{while_room}
use thermal_observatory.Cpu.X86.{
  scan_core_id, read_rapl, read_core_at, read_core, add_core, core_room, collect_core, add_package,
  collect_labels, collect_coretemp, rapl_package, collect_rapl, tm_collect_x86,
}
use thermal_observatory.Cpu.X86.Bounds.{tm_collect_x86-IsBounded}
use thermal_observatory.Cpu.X86.Peak.{HasPeaks, tm_collect_x86-HasPeaks}
use thermal_observatory.Cpu.X86.Safe.{tm_collect_x86-some, IsLabelPath}
use thermal_observatory.Libc.Scan.{
  contains, take_until, after_last, fgets, strip_prefix, cut_line, split_first, scan_long, to_int,
}
use thermal_observatory.Platform.{read_long, read_string}
use thermal_observatory.Platform.Paths.{
  tm_sysroot, tm_glob_join, tm_path_join, tm_strip_sysroot_path, tm_strip_sysroot_path-tm_path_join,
  copy_path, retarget,
}
use thermal_observatory.Snapshot.{Snapshot}
use thermal_observatory.Snapshot.Bounds.{IsBounded}
use thermal_observatory.Snapshot.Capability.{
  has, with_cap, mask, place, linux_rapl, platform_redfish, nvidia_dcgm,
}
use thermal_observatory.Snapshot.Capability.Apart.{has-with_cap_iff}
use thermal_observatory.Cpu.Arm64.{
  read_cluster, cluster_room, collect_cluster, mark_clusters, collect_cluster_paths,
  tm_collect_arm64,
}
use thermal_observatory.Cpu.Arm64.Bounds.{tm_collect_arm64-IsBounded}
use thermal_observatory.Platform.Ipmi.Bounds.{tm_collect_ipmi-IsBounded}
use thermal_observatory.Platform.Ipmi.{tm_collect_ipmi}
use thermal_observatory.Platform.Redfish.{tm_collect_redfish}
use thermal_observatory.Platform.Redfish.Bounds.{tm_collect_redfish-IsBounded}
use thermal_observatory.Platform.Redfish.Marks.{tm_collect_redfish-has}
use thermal_observatory.Platform.Sysfs.{
  scan_name, read_zone, zone_room, collect_zone, collect_zone_paths, collect_zones, hwmon_label,
  label_path_of, hwmon_record, hwmon_sensor, read_hwmon, hwmon_room, collect_hwmon,
  collect_hwmon_paths, collect_hwmons, tm_collect_generic_linux,
}
use thermal_observatory.Platform.Sysfs.Bounds.{tm_collect_generic_linux-IsBounded}
use thermal_observatory.Platform.Sysfs.Safe.{tm_collect_generic_linux-some, FitsPath}
use thermal_observatory.Tests.Machine.{
  Milli, milli_double, milli_IsOrdered, machine, blank, label_paths,
}

abbrev pub cored : Snapshot Milli
cored = record blank {
  capabilities = 4;
  cpu_packages =
      record {
        package_id = pos 0;
        package_temp_c = pos 44_000;
        tjmax_c = pos 100_000;
        rapl_energy_uj = pos 123_456_789_000;
        power_limit_1_w = pos 0;
        power_limit_2_w = pos 0;
        cores =
            record {
              core_id = pos 0;
              temp_c = pos 44_000;
              crit_c = pos 100_000;
              max_c = pos 85_000;
              throttling = false;
            }
            ∷ [];
      }
      ∷ [];
}

pub collects_x86 : tm_collect_x86 machine blank ≡ some cored
unfolding tm_collect_x86 collect_coretemp collect_rapl collect_labels rapl_package add_package
    while_room collect_core core_room add_core read_core read_core_at read_rapl scan_core_id
    tm_glob_join tm_sysroot copy_path retarget read_long read_string equal with_cap mask scan_long
    to_int fgets strip_prefix cut_line split_first
collects_x86 = refl

abbrev pub sensed : Snapshot Milli
sensed = record blank {
  capabilities = 3;
  thermal_zones =
      record {
        name = codes "thermal_zone0";
        label = codes "x86_pkg_temp";
        value = pos 47_000;
        unit = codes "celsius";
      }
      ∷ [];
  hwmon_sensors =
      record {
        name = codes "coretemp";
        label = codes "Package id 0";
        value = pos 45_500;
        unit = codes "celsius";
      }
      ∷ [];
}

pub senses : tm_collect_generic_linux machine blank ≡ some sensed
unfolding tm_collect_generic_linux collect_zones collect_zone_paths collect_zone zone_room read_zone
    collect_hwmons collect_hwmon_paths collect_hwmon hwmon_room read_hwmon hwmon_sensor hwmon_record
    hwmon_label label_path_of scan_name tm_glob_join tm_sysroot tm_strip_sysroot_path copy_path
    retarget read_long read_string while_room equal with_cap mask scan_long fgets strip_prefix
    cut_line split_first contains take_until after_last
senses = refl

pub blank-IsBounded : IsBounded blank
blank-IsBounded = ground arith

blank-HasPeaks : All (HasPeaks {D = Milli}) blank.cpu_packages
blank-HasPeaks = tt

label_paths-IsLabelPath : All IsLabelPath label_paths
unfolding contains split_first strip_prefix
label_paths-IsLabelPath = ((omega arith, refl), tt)

pub glob_labels :
    (paths : List Bytes)
    → machine.glob (
        tm_glob_join machine 256
          (codes "/sys/devices/platform/coretemp.*/hwmon/hwmon*/temp*_label"))
      ≡ some paths
    → All IsLabelPath paths
unfolding tm_glob_join tm_sysroot equal
glob_labels paths e = subst (All IsLabelPath) (some-injective _ _ e) label_paths-IsLabelPath

pub glob_hwmons :
    (paths : List Bytes)
    → machine.glob (tm_glob_join machine 256 (codes "/sys/class/hwmon/hwmon*/temp*_input"))
      ≡ some paths
    → All FitsPath paths
unfolding tm_glob_join tm_sysroot equal
glob_hwmons paths e = subst (All FitsPath) (some-injective _ _ e) (omega arith, tt)

tm_collect_x86-IsBounded_example : IsBounded cored
tm_collect_x86-IsBounded_example =
    tm_collect_x86-IsBounded machine blank cored blank-IsBounded collects_x86

tm_collect_x86-HasPeaks_example : All (HasPeaks {D = Milli}) cored.cpu_packages
tm_collect_x86-HasPeaks_example =
    tm_collect_x86-HasPeaks milli_IsOrdered machine blank cored blank-HasPeaks collects_x86

tm_collect_x86-some_example : (t : Snapshot Milli) × (tm_collect_x86 machine blank ≡ some t)
tm_collect_x86-some_example = tm_collect_x86-some machine blank glob_labels

tm_collect_generic_linux-IsBounded_example : IsBounded sensed
tm_collect_generic_linux-IsBounded_example =
    tm_collect_generic_linux-IsBounded machine blank sensed blank-IsBounded senses

tm_collect_generic_linux-some_example :
    (t : Snapshot Milli) × (tm_collect_generic_linux machine blank ≡ some t)
tm_collect_generic_linux-some_example = tm_collect_generic_linux-some machine blank glob_hwmons

tm_collect_ipmi-IsBounded_example : IsBounded (tm_collect_ipmi machine blank)
tm_collect_ipmi-IsBounded_example = tm_collect_ipmi-IsBounded machine blank blank-IsBounded

tm_collect_redfish-IsBounded_example : IsBounded (tm_collect_redfish machine blank)
tm_collect_redfish-IsBounded_example = tm_collect_redfish-IsBounded machine blank blank-IsBounded

abbrev clustered : Snapshot Milli
clustered = record blank {
  capabilities = 18;
  arm_clusters =
      record {
        cluster_id = pos 0;
        zone_name = codes "thermal_zone0";
        zone_type = codes "x86_pkg_temp";
        temp_c = pos 47_000;
        cur_freq_mhz = pos 0;
        throttling = false;
      }
      ∷ [];
}

clusters : tm_collect_arm64 machine blank ≡ some clustered
unfolding tm_collect_arm64 collect_cluster_paths collect_cluster cluster_room mark_clusters
    read_cluster scan_name tm_glob_join tm_sysroot tm_strip_sysroot_path read_long read_string
    while_room equal with_cap mask scan_long fgets strip_prefix cut_line take_until
clusters = refl

tm_collect_arm64-IsBounded_example : IsBounded clustered
tm_collect_arm64-IsBounded_example =
    tm_collect_arm64-IsBounded machine blank clustered blank-IsBounded clusters

pub sample_path : machine.getenv (codes "TM_REDFISH_SAMPLE") ≡ some (codes "/tmp/board.csv")
unfolding equal
sample_path = refl

pub sample_contents :
    machine.file (codes "/tmp/board.csv")
    ≡ some (codes "CPU0,temperature,55,celsius\nPSU1,power,120,watts\n")
unfolding equal
sample_contents = refl

tm_collect_redfish-has_example : has (tm_collect_redfish machine blank).capabilities linux_rapl ≡ (
    has 0 linux_rapl
    || ltb 0 (length (tm_collect_redfish machine blank).board_sensors)
      && place platform_redfish == place linux_rapl)
tm_collect_redfish-has_example =
    tm_collect_redfish-has machine (codes "/tmp/board.csv")
      (codes "CPU0,temperature,55,celsius\nPSU1,power,120,watts\n") blank linux_rapl sample_path
      sample_contents

has-with_cap_iff_example :
    (has (with_cap 3 nvidia_dcgm) platform_redfish ≡ true)
    ↔ ((has 3 platform_redfish ≡ true) ⊎ (nvidia_dcgm ≡ platform_redfish))
has-with_cap_iff_example = has-with_cap_iff 3 nvidia_dcgm platform_redfish

room_for_path : length (tm_sysroot machine) + length (codes "/sys/class/hwmon") < 512
unfolding tm_sysroot equal
room_for_path = omega arith

tm_strip_sysroot_path-tm_path_join_example :
    tm_strip_sysroot_path machine (tm_path_join machine 512 (codes "/sys/class/hwmon")) 512
    ≡ codes "/sys/class/hwmon"
tm_strip_sysroot_path-tm_path_join_example =
    tm_strip_sysroot_path-tm_path_join machine (codes "/sys/class/hwmon") 512 512 room_for_path
      (omega arith)
