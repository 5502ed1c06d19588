-- ===== src/Monitor.antt =====
-- src/thermal_main.c: `tm_collect_snapshot`, which runs the collectors one after the other. The
-- command line and the loop are in the children.
pub mod Bounds
pub mod Safe
pub mod Options
pub mod Show
pub mod Loop
use thermal_observatory.Base.{Option, some, [], ◌>>=◌}
use thermal_observatory.Cpu.Arm64.{tm_collect_arm64}
use thermal_observatory.Cpu.X86.{tm_collect_x86}
use thermal_observatory.Double.{Double}
use thermal_observatory.Gpu.{Libraries}
use thermal_observatory.Gpu.Amd.{tm_collect_amd}
use thermal_observatory.Gpu.Cuda.{tm_collect_nvidia_cuda}
use thermal_observatory.Gpu.Dcgm.{tm_collect_nvidia_dcgm}
use thermal_observatory.Gpu.Nvidia.{tm_collect_nvidia}
use thermal_observatory.Platform.{Host}
use thermal_observatory.Platform.Ipmi.{tm_collect_ipmi}
use thermal_observatory.Platform.Redfish.{tm_collect_redfish}
use thermal_observatory.Platform.Sysfs.{Context, tm_collect_generic_linux}
use thermal_observatory.Snapshot.{Arch, unknown, x86_64, arm64, Timespec, Snapshot}

module _ {ℓ} {D : Type ℓ} where
  -- `memset`, then the architecture and the time
  unfoldable pub blank_snapshot : Arch → Timespec → Snapshot D
  blank_snapshot arch now = record {
    timestamp = now;
    arch = arch;
    capabilities = 0;
    cpu_packages = [];
    arm_clusters = [];
    nvidia_gpus = [];
    amd_gpus = [];
    hwmon_sensors = [];
    thermal_zones = [];
    board_sensors = [];
    fan_sensors = [];
    psu_sensors = [];
  }

module _ {ℓ} {D : Type ℓ} ⦃d : Double D⦄ (host : Host) where
  unfoldable pub collect_cpu : Arch → Snapshot D → Option (Snapshot D)
  collect_cpu x86_64 snap = tm_collect_x86 host snap
  collect_cpu arm64 snap = tm_collect_arm64 host snap
  collect_cpu unknown snap = some snap

  unfoldable pub tm_collect_snapshot : Libraries → Context → Option (Snapshot D)
  tm_collect_snapshot libraries ctx = do
    sensed ← tm_collect_generic_linux host (blank_snapshot ctx.arch host.clock)
    cored ← collect_cpu ctx.arch sensed
    nvidia ← tm_collect_nvidia libraries.nvml cored
    cuda ← tm_collect_nvidia_cuda libraries.cuda nvidia
    amd ← tm_collect_amd host libraries.rsmi (tm_collect_nvidia_dcgm host cuda)
    some (tm_collect_redfish host (tm_collect_ipmi host amd))
