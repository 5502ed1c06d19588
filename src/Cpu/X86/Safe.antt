-- ===== src/Cpu/X86/Safe.antt =====
-- `tm_collect_x86` has no undefined behaviour on the paths that its pattern matches.
use thermal_observatory.Base.{
  Bool-cases, true, inl, inr, Option, Option-cases, none, some, ◌≡◌, refl, List, All, Bytes, codes,
  length, leb, ◌>>=◌,
}
use thermal_observatory.Base.Int.{ℤ}
use thermal_observatory.Base.Loops.{while_room_total}
use thermal_observatory.Cpu.X86.{
  scan_core_id, read_core_at, read_core, add_core, core_room, collect_core, empty_package,
  add_package, collect_labels, collect_coretemp, collect_rapl, tm_collect_x86,
}
use thermal_observatory.Double.{Double}
use thermal_observatory.Libc.Scan.{contains}
use thermal_observatory.Platform.{Host, read_long, read_string}
use thermal_observatory.Platform.Paths.{tm_glob_join}
use thermal_observatory.Platform.Sysfs.Safe.{FitsPath, copy_path-some, retarget-some}
use thermal_observatory.Snapshot.{CpuCore, CpuPackage, Snapshot, max_cpu_packages}

-- A path that a `char[512]` array holds and that has "_label" in it, as the pattern of `glob` asks.
abbrev pub IsLabelPath : Bytes → Type 0
IsLabelPath path = FitsPath path × (contains path (codes "_label") ≡ true)

module _ {ℓ} {D : Type ℓ} ⦃d : Double D⦄ (host : Host) where
  core-some :
      (reading : Option ℤ) (f : ℤ → CpuCore D)
      → (x : Option (CpuCore D)) × (elim reading [ none ↦ some none | some mc ↦ some (some (f mc)) ]
          ≡ some x)
  core-some none f = (none, refl)
  core-some (some mc) f = (some (f mc), refl)

  read_core_at-some :
      (path : Bytes) (core_id : ℤ)
      → IsLabelPath path
      → (x : Option (CpuCore D)) × (read_core_at host path core_id ≡ some x)
  unfolding read_core_at
  read_core_at-some path core_id (fits, found) =
      let (input, e1) = retarget-some (codes "_label") (codes "_input") path found in
      let (crit, e2) = retarget-some (codes "_label") (codes "_crit") path found in
      let (highest, e3) = retarget-some (codes "_label") (codes "_max") path found in
      rw (copy_path-some path fits) (rw (e1, e2, e3) (core-some (read_long host input) _))

  read_core-some :
      (path : Bytes) → IsLabelPath path → (x : Option (CpuCore D)) × (read_core host path ≡ some x)
  unfolding read_core
  read_core-some path h =
      elim (Option-cases (do label ← read_string host path 64; scan_core_id label)) [
        | inl e ↦ (none, rw (e, read_core) refl)
        | inr (core_id, e) ↦
            let (x, e') = read_core_at-some path core_id h in (x, rw (e, read_core) e')
      ]

  collect_core-some :
      (path : Bytes) (pkg : CpuPackage D)
      → IsLabelPath path
      → (p : CpuPackage D) × (collect_core host path pkg ≡ some p)
  unfolding collect_core
  collect_core-some path pkg h =
      let (x, e) = read_core-some path h in (add_core host pkg x, rw e refl)

  collect_labels-some :
      (paths : List Bytes) (s : Snapshot D)
      → All IsLabelPath paths
      → (t : Snapshot D) × (collect_labels host paths s ≡ some t)
  unfolding collect_labels
  collect_labels-some paths s h = elim (Bool-cases (leb max_cpu_packages (length s.cpu_packages))) [
    | inl full ↦ (s, rw full refl)
    | inr free ↦
        let (pkg, e) =
          while_room_total (core_room host) (collect_core host) IsLabelPath collect_core-some paths
            (empty_package host) h in
        (add_package host s pkg, rw (free, e) refl)
  ]

  -- Where each path that `glob` gives for the label pattern is shorter than 511 bytes and has
  -- "_label" in it, the collector has a result, so it does nothing that C leaves undefined.
  pub tm_collect_x86-some :
      (s : Snapshot D)
      → ((paths : List Bytes)
          → host.glob (
              tm_glob_join host 256
                (codes "/sys/devices/platform/coretemp.*/hwmon/hwmon*/temp*_label"))
            ≡ some paths
          → All IsLabelPath paths)
      → (t : Snapshot D) × (tm_collect_x86 host s ≡ some t)
  unfolding tm_collect_x86 collect_coretemp
  tm_collect_x86-some s labels =
      elim (Option-cases (
        host.glob (
          tm_glob_join host 256
            (codes "/sys/devices/platform/coretemp.*/hwmon/hwmon*/temp*_label")))) [
              | inl e ↦ (collect_rapl host s, rw e refl)
              | inr (paths, e) ↦
                  let (cored, e') = collect_labels-some paths s (labels paths e) in
                  (collect_rapl host cored, rw (e, e') refl)
            ]
