-- ===== src/Monitor/Safe.antt =====
-- `tm_collect_snapshot` has no undefined behaviour with whole libraries and paths of the usual form.
use thermal_observatory.Base.{Bytes, some, refl, ◌≡◌, List, All, codes}
use thermal_observatory.Cpu.Arm64.Bounds.{tm_collect_arm64-some}
use thermal_observatory.Cpu.X86.Safe.{IsLabelPath, tm_collect_x86-some}
use thermal_observatory.Double.{Double}
use thermal_observatory.Gpu.{Libraries, Nvml, Rsmi, IsThere, bind-IsThere}
use thermal_observatory.Gpu.Amd.Safe.{IsWhole, NamePaths, tm_collect_amd-some}
use thermal_observatory.Gpu.Cuda.Kept.{tm_collect_nvidia_cuda-apart}
use thermal_observatory.Gpu.Dcgm.{tm_collect_nvidia_dcgm}
use thermal_observatory.Gpu.Nvidia.Safe.{IsComplete, tm_collect_nvidia-some}
use thermal_observatory.Monitor.{blank_snapshot, collect_cpu, tm_collect_snapshot}
use thermal_observatory.Platform.{Host}
use thermal_observatory.Platform.Paths.{tm_glob_join}
use thermal_observatory.Platform.Sysfs.{Context}
use thermal_observatory.Platform.Sysfs.Safe.{FitsPath, tm_collect_generic_linux-some}
use thermal_observatory.Snapshot.{Arch, unknown, x86_64, arm64, Snapshot}

-- What the kernel's names come to: each path that `glob` finds for a pattern fits the array it is
-- copied to, and has the part that the pattern ends in.
pub record UsualPaths (host : Host) : Type 0 where
  pub inputs :
      (paths : List Bytes)
      → host.glob (tm_glob_join host 256 (codes "/sys/class/hwmon/hwmon*/temp*_input")) ≡ some paths
      → All FitsPath paths
  pub labels :
      (paths : List Bytes)
      → host.glob (
          tm_glob_join host 256 (codes "/sys/devices/platform/coretemp.*/hwmon/hwmon*/temp*_label"))
        ≡ some paths
      → All IsLabelPath paths
  pub names : NamePaths host

-- The libraries that can be opened have the functions that are called with no test.
pub record WholeLibraries (libraries : Libraries) : Type 0 where
  pub nvml_whole : (path : Bytes) (lib : Nvml) → libraries.nvml path ≡ some lib → IsComplete lib
  pub rsmi_whole : (path : Bytes) (lib : Rsmi) → libraries.rsmi path ≡ some lib → IsWhole lib

module _ {ℓ} {D : Type ℓ} ⦃d : Double D⦄ (host : Host) (usual : UsualPaths host) where
  collect_cpu-IsThere : (arch : Arch) (s : Snapshot D) → IsThere (collect_cpu host arch s)
  unfolding collect_cpu
  collect_cpu-IsThere x86_64 s = tm_collect_x86-some host s usual.labels
  collect_cpu-IsThere arm64 s = tm_collect_arm64-some host s
  collect_cpu-IsThere unknown s = (s, refl)

  -- Where the paths that `glob` finds are of the usual form, and each library that can be opened has
  -- the functions that are called with no test of their pointers: `tm_collect_snapshot` has a result
  -- on every machine, so no collector does what C leaves undefined.
  pub tm_collect_snapshot-some :
      (libraries : Libraries) (ctx : Context)
      → WholeLibraries libraries
      → (t : Snapshot D) × (tm_collect_snapshot host libraries ctx ≡ some t)
  unfolding tm_collect_snapshot
  tm_collect_snapshot-some libraries ctx whole =
      bind-IsThere
        (tm_collect_generic_linux-some host (blank_snapshot ctx.arch host.clock) usual.inputs)
        λ sensed. bind-IsThere (collect_cpu-IsThere ctx.arch sensed) λ cored.
          bind-IsThere (tm_collect_nvidia-some libraries.nvml cored whole.nvml_whole) λ nvidia.
            let (u, e, _) = tm_collect_nvidia_cuda-apart libraries.cuda nvidia in
            bind-IsThere (u, e)
              λ cuda.
                bind-IsThere
                  (tm_collect_amd-some host libraries.rsmi (tm_collect_nvidia_dcgm host cuda)
                    whole.rsmi_whole usual.names)
                  λ amd. (_, refl)
