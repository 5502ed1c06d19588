-- ===== src/Tests/Sysfs.antt =====
-- What the generic and the x86 collectors record and mark, at the machine of Tests/Machine.antt.
use thermal_observatory.Base.{
  ◌≡◌, refl, arith, ◌++◌, ◌||◌, ◌&&◌, ◌==◌, some, codes, equal, ltb, length,
}
use thermal_observatory.Base.Collect.{fill, all_found}
use thermal_observatory.Cpu.X86.{read_rapl}
use thermal_observatory.Cpu.X86.Cores.{cores_of, one_package, found_cores, tm_collect_x86-cores}
use thermal_observatory.Cpu.X86.Marks.{tm_collect_x86-has}
use thermal_observatory.Platform.Paths.{tm_glob_join, tm_sysroot}
use thermal_observatory.Platform.Sysfs.{read_hwmon}
use thermal_observatory.Platform.Sysfs.Hwmons.{tm_collect_generic_linux-fill_hwmons}
use thermal_observatory.Snapshot.{max_hwmon_sensors}
use thermal_observatory.Platform.Sysfs.Marks.{is_some, tm_collect_generic_linux-has}
use thermal_observatory.Platform.Sysfs.Zones.{
  with_zones, readable_zones, tm_collect_generic_linux-with_zones,
}
use thermal_observatory.Snapshot.Capability.{has, place, linux_thermal, linux_hwmon, linux_rapl}
use thermal_observatory.Tests.Collectors.{sensed, senses, cored, collects_x86}
use thermal_observatory.Tests.Machine.{
  milli_double, machine, blank, zone_paths, hwmon_paths, label_paths,
}

glob_zones :
    machine.glob (tm_glob_join machine 256 (codes "/sys/class/thermal/thermal_zone*/temp"))
    ≡ some zone_paths
unfolding tm_glob_join tm_sysroot equal
glob_zones = refl

tm_collect_generic_linux-with_zones_example :
    sensed.thermal_zones ≡ with_zones machine blank (readable_zones machine zone_paths)
tm_collect_generic_linux-with_zones_example =
    tm_collect_generic_linux-with_zones machine blank sensed zone_paths glob_zones senses

glob_inputs :
    machine.glob (tm_glob_join machine 256 (codes "/sys/class/hwmon/hwmon*/temp*_input"))
    ≡ some hwmon_paths
unfolding tm_glob_join tm_sysroot equal
glob_inputs = refl

tm_collect_generic_linux-fill_hwmons_example :
    sensed.hwmon_sensors
    ≡ fill max_hwmon_sensors blank.hwmon_sensors (all_found (read_hwmon machine) hwmon_paths)
tm_collect_generic_linux-fill_hwmons_example =
    tm_collect_generic_linux-fill_hwmons machine blank sensed hwmon_paths glob_inputs senses

glob_cores :
    machine.glob
      (tm_glob_join machine 256 (codes "/sys/devices/platform/coretemp.*/hwmon/hwmon*/temp*_label"))
    ≡ some label_paths
unfolding tm_glob_join tm_sysroot equal
glob_cores = refl

tm_collect_x86-cores_example :
    cores_of machine cored
    ≡ cores_of machine blank ++ one_package machine (found_cores machine label_paths)
tm_collect_x86-cores_example =
    tm_collect_x86-cores machine blank cored label_paths (omega arith) glob_cores collects_x86

tm_collect_generic_linux-has_example : has sensed.capabilities linux_hwmon ≡ (
    (has 0 linux_hwmon
      || is_some
          (machine.glob (tm_glob_join machine 256 (codes "/sys/class/thermal/thermal_zone*/temp")))
        && place linux_thermal == place linux_hwmon)
    || is_some
        (machine.glob (tm_glob_join machine 256 (codes "/sys/class/hwmon/hwmon*/temp*_input")))
      && place linux_hwmon == place linux_hwmon)
tm_collect_generic_linux-has_example =
    tm_collect_generic_linux-has machine blank sensed linux_hwmon senses

tm_collect_x86-has_example : has cored.capabilities linux_rapl ≡ (
    has 0 linux_rapl
    || (ltb 0 (length cored.cpu_packages) && is_some (read_rapl machine (codes "/energy_uj")))
      && place linux_rapl == place linux_rapl)
tm_collect_x86-has_example = tm_collect_x86-has machine blank cored linux_rapl collects_x86
