-- ===== src/Cpu/Arm64.antt =====
-- src/cpu/cpu_arm64.c: `tm_collect_arm64`.
pub mod Bounds
use thermal_observatory.Base.{
  ℕ, Bool, false, Option, none, some, List, [], ◌∷◌, ◌++◌, ltb, if◌then◌else◌, Bytes, codes, length,
  take, ◌>>=◌,
}
use thermal_observatory.Base.Int.{ℤ, pos}
use thermal_observatory.Base.Loops.{while_room, with_list}
use thermal_observatory.Double.{Double, nought, milli}
use thermal_observatory.Platform.{Host, read_long, read_string}
use thermal_observatory.Platform.Paths.{snprintf, tm_sysroot, tm_glob_join, tm_strip_sysroot_path}
use thermal_observatory.Platform.Sysfs.{scan_name, or_else}
use thermal_observatory.Snapshot.{ArmCluster, Snapshot, max_arm_clusters}
use thermal_observatory.Snapshot.Capability.{with_cap, arm_scmi, linux_thermal}

module _ {ℓ} {D : Type ℓ} ⦃d : Double D⦄ (host : Host) where
  abbrev frequency : Option ℤ → D
  frequency none = nought
  frequency (some freq_khz) = milli freq_khz

  -- The cluster for a zone, which is the `index`-th one, or `none` where the loop goes on.
  unfoldable pub read_cluster : Bytes → ℕ → Option (ArmCluster D)
  read_cluster path index = do
    temp_mc ← read_long host path
    zone ← scan_name (codes "/sys/class/thermal/") (tm_strip_sysroot_path host path 512)
    let type_path =
        snprintf 256 (tm_sysroot host ++ (codes "/sys/class/thermal/" ++ (zone ++ codes "/type")))
    let freq_path =
        snprintf 256
          (tm_sysroot host ++ codes "/sys/devices/system/cpu/cpu0/cpufreq/scaling_cur_freq")
    some (record {
      cluster_id = pos index;
      zone_name = take 63 zone;
      zone_type = or_else (read_string host type_path 64) [];
      temp_c = milli temp_mc;
      cur_freq_mhz = frequency (read_long host freq_path);
      throttling = false;
    })

  abbrev add_cluster : Snapshot D → Option (ArmCluster D) → Snapshot D
  add_cluster snap none = snap
  add_cluster snap (some cluster) = record snap { arm_clusters = snap.arm_clusters ++ cluster ∷ [] }

  unfoldable pub cluster_room : Snapshot D → Bool
  cluster_room snap = ltb (length snap.arm_clusters) max_arm_clusters

  unfoldable pub collect_cluster : Bytes → Snapshot D → Option (Snapshot D)
  collect_cluster path snap = some (add_cluster snap (read_cluster path (length snap.arm_clusters)))

  -- `capabilities |= TM_CAP_ARM_SCMI | TM_CAP_LINUX_THERMAL`
  unfoldable pub mark_clusters : Snapshot D → Snapshot D
  mark_clusters snap =
      if ltb 0 (length snap.arm_clusters)
      then record snap {
        capabilities = with_cap (with_cap snap.capabilities arm_scmi) linux_thermal;
      }
      else snap

  unfoldable pub collect_cluster_paths : List Bytes → Snapshot D → Option (Snapshot D)
  collect_cluster_paths paths snap = do
    after ← while_room cluster_room collect_cluster paths snap
    some (mark_clusters after)

  unfoldable pub tm_collect_arm64 : Snapshot D → Option (Snapshot D)
  tm_collect_arm64 snap =
      with_list (host.glob (tm_glob_join host 256 (codes "/sys/class/thermal/thermal_zone*/temp")))
        collect_cluster_paths snap
