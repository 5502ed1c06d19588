-- ===== src/Cpu/X86.antt =====
-- src/cpu/cpu_x86.c: `collect_coretemp`, `collect_rapl` and `tm_collect_x86`.
pub mod Bounds
pub mod Marks
pub mod Peak
pub mod Safe
pub mod Cores
use thermal_observatory.Base.{
  ℕ, Bool, true, false, Option, none, some, List, [], ◌∷◌, ◌++◌, ltb, leb, if◌then◌else◌, Bytes,
  codes, length, ◌>>=◌,
}
use thermal_observatory.Base.Int.{ℤ, pos}
use thermal_observatory.Base.Loops.{while_room, with_list}
use thermal_observatory.Double.{Double, nought, milli, micro}
use thermal_observatory.Libc.Scan.{strip_prefix, scan_long, to_int}
use thermal_observatory.Platform.{Host, read_long, read_string}
use thermal_observatory.Platform.Paths.{snprintf, tm_sysroot, tm_glob_join, copy_path, retarget}
use thermal_observatory.Snapshot.{CpuCore, CpuPackage, Snapshot, max_cpu_packages, max_cpu_cores}
use thermal_observatory.Snapshot.Capability.{with_cap, linux_rapl}

-- `sscanf(label, "Core %d", &core_id) == 1`
unfoldable pub scan_core_id : Bytes → Option ℤ
scan_core_id label = do
  rest ← strip_prefix (codes "Core") label
  n ← scan_long rest
  some (to_int n)

-- A variable that starts as 0 and that a failing `read_long` leaves alone.
abbrev or_zero : Option ℤ → ℤ
or_zero none = pos 0
or_zero (some n) = n

-- A file of the first zone, or of the other spelling of its name if that one cannot be read. The
-- file is read once more to fetch the value.
unfoldable pub read_rapl : Host → Bytes → Option ℤ
read_rapl host file =
    let base =
      snprintf 256 (tm_sysroot host ++ codes "/sys/class/powercap/intel-rapl/intel-rapl:0") in
    let alt_base =
      snprintf 256 (tm_sysroot host ++ codes "/sys/class/powercap/intel-rapl/intel-rapl_0") in
    let path : Bytes = elim (read_long host (snprintf 256 (base ++ file))) [
      | none ↦ snprintf 256 (alt_base ++ file)
      | some _ ↦ snprintf 256 (base ++ file)
    ] in
    read_long host path

abbrev pub apply_reading {ℓ} : {P : Type ℓ} → (ℤ → P → P) → Option ℤ → P → P
apply_reading f none p = p
apply_reading f (some n) p = f n p

abbrev rapl_capability : ℕ → Option ℤ → ℕ
rapl_capability caps none = caps
rapl_capability caps (some n) = with_cap caps linux_rapl

module _ {ℓ} {D : Type ℓ} ⦃d : Double D⦄ (host : Host) where
  -- The core whose label is in the file at `path`, once its number is known. The outer `none` is a
  -- fault, the inner one `continue`.
  unfoldable pub read_core_at : Bytes → ℤ → Option (Option (CpuCore D))
  read_core_at path core_id = do
    copied ← copy_path 512 path
    input_path ← retarget (codes "_label") (codes "_input") copied
    crit_path ← retarget (codes "_label") (codes "_crit") copied
    max_path ← retarget (codes "_label") (codes "_max") copied
    elim (read_long host input_path) [
      | none ↦ some none
      | some input_mc ↦ some (
          some (record {
            core_id = core_id;
            temp_c = milli input_mc;
            crit_c = milli (or_zero (read_long host crit_path));
            max_c = milli (or_zero (read_long host max_path));
            throttling = false;
          }))
    ]

  -- The label is read as by `read_string`: `fopen`, `fgets`, and a cut at the newline.
  unfoldable pub read_core : Bytes → Option (Option (CpuCore D))
  read_core path = elim (do label ← read_string host path 64; scan_core_id label) [
    | none ↦ some none
    | some core_id ↦ read_core_at path core_id
  ]

  -- The package's readings are the highest of its cores'.
  unfoldable pub add_core : CpuPackage D → Option (CpuCore D) → CpuPackage D
  add_core pkg none = pkg
  add_core pkg (some core) = record pkg {
    cores = pkg.cores ++ core ∷ [];
    package_temp_c =
        if d.gt core.temp_c pkg.package_temp_c then core.temp_c else pkg.package_temp_c;
    tjmax_c = if d.gt core.crit_c pkg.tjmax_c then core.crit_c else pkg.tjmax_c;
  }

  unfoldable pub core_room : CpuPackage D → Bool
  core_room pkg = ltb (length pkg.cores) max_cpu_cores

  unfoldable pub collect_core : Bytes → CpuPackage D → Option (CpuPackage D)
  collect_core path pkg = do found ← read_core path; some (add_core pkg found)

  -- what memset leaves; `package_id` is 0 too
  abbrev pub empty_package : CpuPackage D
  empty_package = record {
    package_id = pos 0;
    package_temp_c = nought;
    tjmax_c = nought;
    rapl_energy_uj = nought;
    power_limit_1_w = nought;
    power_limit_2_w = nought;
    cores = [];
  }

  -- A package without cores is not counted.
  unfoldable pub add_package : Snapshot D → CpuPackage D → Snapshot D
  add_package snap pkg =
      if ltb 0 (length pkg.cores)
      then record snap { cpu_packages = snap.cpu_packages ++ pkg ∷ [] }
      else snap

  unfoldable pub collect_labels : List Bytes → Snapshot D → Option (Snapshot D)
  collect_labels paths snap =
      if leb max_cpu_packages (length snap.cpu_packages) then some snap else do
        pkg ← while_room core_room collect_core paths empty_package
        some (add_package snap pkg)

  unfoldable pub collect_coretemp : Snapshot D → Option (Snapshot D)
  collect_coretemp snap =
      with_list
        (host.glob (
          tm_glob_join host 256
            (codes "/sys/devices/platform/coretemp.*/hwmon/hwmon*/temp*_label")))
        collect_labels snap

  unfoldable pub rapl_package : CpuPackage D → CpuPackage D
  rapl_package pkg =
      let p0 =
        apply_reading (λ n (p : CpuPackage D). record p { rapl_energy_uj = d.of_int n })
          (read_rapl host (codes "/energy_uj")) pkg in
      let p1 =
        apply_reading (λ n (p : CpuPackage D). record p { power_limit_1_w = micro n })
          (read_rapl host (codes "/constraint_0_power_limit_uw")) p0 in
      apply_reading (λ n (p : CpuPackage D). record p { power_limit_2_w = micro n })
        (read_rapl host (codes "/constraint_1_power_limit_uw")) p1

  -- `pkg` is the first package; without one nothing is read.
  abbrev collect_rapl_first : Snapshot D → List (CpuPackage D) → Snapshot D
  collect_rapl_first snap [] = snap
  collect_rapl_first snap (pkg ∷ packages) = record snap {
    cpu_packages = rapl_package pkg ∷ packages;
    capabilities = rapl_capability snap.capabilities (read_rapl host (codes "/energy_uj"));
  }

  unfoldable pub collect_rapl : Snapshot D → Snapshot D
  collect_rapl snap = collect_rapl_first snap snap.cpu_packages

  unfoldable pub tm_collect_x86 : Snapshot D → Option (Snapshot D)
  tm_collect_x86 snap = do cored ← collect_coretemp snap; some (collect_rapl cored)
