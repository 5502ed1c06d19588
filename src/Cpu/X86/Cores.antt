-- ===== src/Cpu/X86/Cores.antt =====
-- Which cores `tm_collect_x86` records.
use thermal_observatory.Base.{
  ℕ, ◌<◌, Bool-cases, false, inl, inr, ◌≡◌, refl, sym, ap, ◌∙◌, some-injective, Option, none, some,
  List, [], ◌∷◌, ◌++◌, map, ltb, leb, ◌>>=◌, >>=-eq-some, Bytes, codes, arith, length, append-nil,
  if◌then◌else◌,
}
use thermal_observatory.Base.Collect.{Collects, all_found, add_found, fill, while_room-fill}
use thermal_observatory.Base.Loops.{while_room}
use thermal_observatory.Cpu.X86.{
  read_core, add_core, core_room, collect_core, empty_package, add_package, collect_labels,
  collect_coretemp, rapl_package, collect_rapl_first, collect_rapl, tm_collect_x86,
}
use thermal_observatory.Double.{Double}
use thermal_observatory.Platform.{Host}
use thermal_observatory.Platform.Paths.{tm_glob_join}
use thermal_observatory.Snapshot.{CpuCore, CpuPackage, Snapshot, max_cpu_packages, max_cpu_cores}

leb-full : (n : ℕ) → n < max_cpu_packages → leb max_cpu_packages n ≡ false
leb-full n lt = ground arith

module _ {ℓ} {D : Type ℓ} ⦃d : Double D⦄ (host : Host) where
  add_core-found :
      (pkg : CpuPackage D) (found : Option (CpuCore D))
      → add_core host pkg found ≡ add_found (λ p core. add_core host p (some core)) pkg found
  unfolding add_core
  add_core-found pkg none = refl
  add_core-found pkg (some core) = refl

  cores-Collects :
      Collects
        (λ (pkg : CpuPackage D). pkg.cores)
        max_cpu_cores
        (λ pkg core. add_core host pkg (some core))
        (read_core host)
        (core_room host)
        (collect_core host)
  unfolding core_room collect_core add_core
  cores-Collects = record {
    has_room = λ pkg. refl;
    appends = λ pkg core. refl;
    reads = λ path pkg.
        ap
          (λ (f : Option (CpuCore D) → CpuPackage D).
            read_core host path >>= λ found. some (f found))
          (λ i found. add_core-found pkg found i);
  }

  -- The cores that the label files of a machine name, the first ones as far as there is room.
  abbrev pub found_cores : List Bytes → List (CpuCore D)
  found_cores paths = fill max_cpu_cores [] (all_found (read_core host) paths)

  -- The cores of one more package, if there is one.
  abbrev pub one_package : List (CpuCore D) → List (List (CpuCore D))
  one_package cores = if ltb 0 (length cores) then cores ∷ [] else []

  abbrev pub cores_of : Snapshot D → List (List (CpuCore D))
  cores_of s = map (λ pkg. pkg.cores) s.cpu_packages

  map-append_one :
      (packages : List (CpuPackage D)) (pkg : CpuPackage D)
      → map (λ (p : CpuPackage D). p.cores) (packages ++ pkg ∷ [])
        ≡ map (λ p. p.cores) packages ++ pkg.cores ∷ []
  map-append_one [] pkg = refl
  map-append_one (first ∷ packages) pkg = ap (◌∷◌ first.cores) (map-append_one packages pkg)

  cores_of-add_package :
      (s : Snapshot D) (pkg : CpuPackage D)
      → cores_of (add_package host s pkg) ≡ cores_of s ++ one_package pkg.cores
  unfolding add_package
  cores_of-add_package s pkg = elim (Bool-cases (ltb 0 (length pkg.cores))) [
    | inl some_core ↦ rw some_core (map-append_one s.cpu_packages pkg)
    | inr no_core ↦ rw no_core (sym (append-nil (cores_of s)))
  ]

  cores-rapl_first :
      (s : Snapshot D) (packages : List (CpuPackage D))
      → s.cpu_packages ≡ packages
      → cores_of (collect_rapl_first host s packages) ≡ map (λ p. p.cores) packages
  unfolding rapl_package
  cores-rapl_first s [] e = rw e refl
  cores-rapl_first s (pkg ∷ packages) e = ground arith

  -- Where `glob` finds label files, there is room for a package, and the x86 collector has a result:
  -- the packages in it have the cores that those before had, and one more package has the cores that
  -- the label files name, in the order of the paths and as far as the array has room, unless there
  -- are none.
  pub tm_collect_x86-cores :
      (s t : Snapshot D) (paths : List Bytes)
      → length s.cpu_packages < max_cpu_packages
      → host.glob (
          tm_glob_join host 256 (codes "/sys/devices/platform/coretemp.*/hwmon/hwmon*/temp*_label"))
        ≡ some paths
      → tm_collect_x86 host s ≡ some t
      → cores_of t ≡ cores_of s ++ one_package (found_cores paths)
  unfolding tm_collect_x86 collect_rapl collect_coretemp collect_labels
  tm_collect_x86-cores s t paths lt labels h =
      let (cored, e1, e2) = >>=-eq-some (collect_coretemp host s) _ h in
      let (pkg, looped, e3) =
        >>=-eq-some (while_room (core_room host) (collect_core host) paths (empty_package host)) _
          (rw (leb-full (length s.cpu_packages) lt) at (rw labels at e1)) in
      ap cores_of (sym (some-injective _ _ e2))
      ∙ cores-rapl_first cored cored.cpu_packages refl
      ∙ ap cores_of (sym (some-injective _ _ e3))
      ∙ cores_of-add_package s pkg
      ∙ ap (λ cores. cores_of s ++ one_package cores)
          (while_room-fill cores-Collects paths (empty_package host) pkg looped)
