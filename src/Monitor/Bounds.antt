-- ===== src/Monitor/Bounds.antt =====
-- The snapshot that `tm_collect_snapshot` leaves fits its arrays and texts.
use thermal_observatory.Base.{Bytes, some, some-injective, subst, arith, ◌≡◌, >>=-eq-some}
use thermal_observatory.Cpu.Arm64.Bounds.{tm_collect_arm64-IsBounded}
use thermal_observatory.Cpu.X86.Bounds.{tm_collect_x86-IsBounded}
use thermal_observatory.Double.{Double}
use thermal_observatory.Gpu.{Libraries, Nvml, Rsmi}
use thermal_observatory.Gpu.Amd.{tm_collect_amd}
use thermal_observatory.Gpu.Amd.Bounds.{WritesNames, tm_collect_amd-IsBounded}
use thermal_observatory.Gpu.Cuda.{tm_collect_nvidia_cuda}
use thermal_observatory.Gpu.Cuda.Kept.{tm_collect_nvidia_cuda-IsBounded}
use thermal_observatory.Gpu.Dcgm.{tm_collect_nvidia_dcgm}
use thermal_observatory.Gpu.Dcgm.Marks.{tm_collect_nvidia_dcgm-IsBounded}
use thermal_observatory.Gpu.Nvidia.{tm_collect_nvidia}
use thermal_observatory.Gpu.Nvidia.Bounds.{WritesTexts, tm_collect_nvidia-IsBounded}
use thermal_observatory.Monitor.{blank_snapshot, collect_cpu, tm_collect_snapshot}
use thermal_observatory.Platform.{Host}
use thermal_observatory.Platform.Ipmi.Bounds.{tm_collect_ipmi-IsBounded}
use thermal_observatory.Platform.Redfish.Bounds.{tm_collect_redfish-IsBounded}
use thermal_observatory.Platform.Sysfs.{Context, tm_collect_generic_linux}
use thermal_observatory.Platform.Sysfs.Bounds.{tm_collect_generic_linux-IsBounded}
use thermal_observatory.Snapshot.{Arch, unknown, x86_64, arm64, Timespec, Snapshot}
use thermal_observatory.Snapshot.Bounds.{IsBounded}

-- What the vendors document: each library writes texts that fit the buffers it is given.
pub record WritesWithin (libraries : Libraries) : Type 0 where
  pub nvml_texts : (path : Bytes) (lib : Nvml) → libraries.nvml path ≡ some lib → WritesTexts lib
  pub rsmi_names : (path : Bytes) (lib : Rsmi) → libraries.rsmi path ≡ some lib → WritesNames lib

blank_snapshot-IsBounded {ℓ} :
    (D : Type ℓ) (arch : Arch) (now : Timespec) → IsBounded {D = D} (blank_snapshot arch now)
unfolding blank_snapshot
blank_snapshot-IsBounded D arch now = ground arith

module _ {ℓ} {D : Type ℓ} ⦃d : Double D⦄ (host : Host) where
  collect_cpu-IsBounded :
      (arch : Arch) (s t : Snapshot D)
      → IsBounded s
      → collect_cpu host arch s ≡ some t
      → IsBounded t
  unfolding collect_cpu
  collect_cpu-IsBounded x86_64 s t h e = tm_collect_x86-IsBounded host s t h e
  collect_cpu-IsBounded arm64 s t h e = tm_collect_arm64-IsBounded host s t h e
  collect_cpu-IsBounded unknown s t h e = subst IsBounded (some-injective _ _ e) h

  -- Where the vendors' libraries write no more than the buffers hold, and whatever else the machine
  -- answers: if `tm_collect_snapshot` has a result, no array of the snapshot has more elements than
  -- it has room for, and no text is longer than its buffer.
  pub tm_collect_snapshot-IsBounded :
      (libraries : Libraries) (ctx : Context) (t : Snapshot D)
      → WritesWithin libraries
      → tm_collect_snapshot host libraries ctx ≡ some t
      → IsBounded t
  unfolding tm_collect_snapshot
  tm_collect_snapshot-IsBounded libraries ctx t within h =
      let blank = blank_snapshot ctx.arch host.clock in
      let (sensed, e1, h1) = >>=-eq-some (tm_collect_generic_linux host blank) _ h in
      let (cored, e2, h2) = >>=-eq-some (collect_cpu host ctx.arch sensed) _ h1 in
      let (nvidia, e3, h3) = >>=-eq-some (tm_collect_nvidia libraries.nvml cored) _ h2 in
      let (cuda, e4, h4) = >>=-eq-some (tm_collect_nvidia_cuda libraries.cuda nvidia) _ h3 in
      let (amd, e5, h5) =
        >>=-eq-some (tm_collect_amd host libraries.rsmi (tm_collect_nvidia_dcgm host cuda)) _ h4 in
      let b1 =
        tm_collect_generic_linux-IsBounded host blank sensed
          (blank_snapshot-IsBounded D ctx.arch host.clock) e1 in
      let b2 = collect_cpu-IsBounded ctx.arch sensed cored b1 e2 in
      let b3 = tm_collect_nvidia-IsBounded libraries.nvml cored nvidia within.nvml_texts b2 e3 in
      let b4 = tm_collect_nvidia_cuda-IsBounded libraries.cuda nvidia cuda b3 e4 in
      let b5 =
        tm_collect_amd-IsBounded host libraries.rsmi (tm_collect_nvidia_dcgm host cuda) amd
          within.rsmi_names (tm_collect_nvidia_dcgm-IsBounded host cuda b4) e5 in
      subst IsBounded (some-injective _ _ h5)
        (tm_collect_redfish-IsBounded host _ (tm_collect_ipmi-IsBounded host amd b5))
