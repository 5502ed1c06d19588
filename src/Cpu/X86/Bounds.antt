-- ===== src/Cpu/X86/Bounds.antt =====
-- `tm_collect_x86` keeps every array within its bounds.
use thermal_observatory.Base.{
  ◌<◌, Bool-cases, inl, inr, true, Option, none, some, some-injective, subst, ◌≡◌, List, [], ◌∷◌,
  arith, Bytes, length, length-append, leb, ltb→lt, >>=-eq-some,
}
use thermal_observatory.Base.Loops.{while_room, while_room_inv, with_list_inv}
use thermal_observatory.Double.{Double}
use thermal_observatory.Platform.{Host}
use thermal_observatory.Cpu.X86.{
  read_core, add_core, core_room, collect_core, empty_package, add_package, collect_labels,
  collect_coretemp, rapl_package, collect_rapl_first, collect_rapl, tm_collect_x86,
}
use thermal_observatory.Snapshot.{CpuCore, CpuPackage, Snapshot, max_cpu_packages, max_cpu_cores}
use thermal_observatory.Snapshot.Bounds.{PackageFits, FitsArray, FitsArray-concat, IsBounded}

module _ {ℓ} {D : Type ℓ} ⦃d : Double D⦄ (host : Host) where
  add_core-PackageFits :
      (pkg : CpuPackage D) (found : Option (CpuCore D))
      → length pkg.cores < max_cpu_cores
      → PackageFits (add_core host pkg found)
  unfolding add_core
  add_core-PackageFits pkg none h = omega arith
  add_core-PackageFits pkg (some core) h = omega (arith, length-append pkg.cores (core ∷ []))

  collect_core-PackageFits :
      (path : Bytes) (s t : CpuPackage D)
      → PackageFits s
      → core_room host s ≡ true
      → collect_core host path s ≡ some t
      → PackageFits t
  unfolding collect_core core_room
  collect_core-PackageFits path s t h room e =
      let (found, _, e1) = >>=-eq-some (read_core host path) _ e in
      subst PackageFits (some-injective _ _ e1) (add_core-PackageFits s found (ltb→lt _ _ room))

  add_package-IsBounded :
      (snap : Snapshot D) (pkg : CpuPackage D)
      → IsBounded snap
      → length snap.cpu_packages < max_cpu_packages
      → PackageFits pkg
      → IsBounded (add_package host snap pkg)
  unfolding add_package
  add_package-IsBounded snap pkg h lt fits = ground (
    arith,
    FitsArray-concat max_cpu_packages PackageFits snap.cpu_packages pkg h.packages_fit lt fits,
  )

  collect_labels-IsBounded :
      (paths : List Bytes) (s t : Snapshot D)
      → IsBounded s
      → collect_labels host paths s ≡ some t
      → IsBounded t
  unfolding collect_labels
  collect_labels-IsBounded paths s t h e =
      elim (Bool-cases (leb max_cpu_packages (length s.cpu_packages))) [
        | inl full ↦ subst IsBounded (some-injective _ _ (rw full at e)) h
        | inr free ↦
            let (pkg, looped, e1) =
              >>=-eq-some
                (while_room (core_room host) (collect_core host) paths (empty_package host)) _
                (rw free at e) in
            subst IsBounded (some-injective _ _ e1) (
              add_package-IsBounded s pkg h (ground arith) (
                while_room_inv (core_room host) (collect_core host) PackageFits
                  collect_core-PackageFits paths (empty_package host) pkg (omega arith) looped))
      ]

  collect_coretemp-IsBounded :
      (s t : Snapshot D) → IsBounded s → collect_coretemp host s ≡ some t → IsBounded t
  unfolding collect_coretemp
  collect_coretemp-IsBounded s t h e =
      with_list_inv IsBounded (host.glob _) (collect_labels host) s
        (λ paths u. collect_labels-IsBounded paths s u h) t h e

  cores-rapl_package : (pkg : CpuPackage D) → (rapl_package host pkg).cores ≡ pkg.cores
  unfolding rapl_package
  cores-rapl_package pkg = ground arith

  collect_rapl_first-IsBounded :
      (s : Snapshot D) (packages : List (CpuPackage D))
      → FitsArray max_cpu_packages PackageFits packages
      → IsBounded s
      → IsBounded (collect_rapl_first host s packages)
  collect_rapl_first-IsBounded s [] f h = h
  collect_rapl_first-IsBounded s (pkg ∷ packages) f h = ground (arith, cores-rapl_package pkg)

  -- Where the x86 collector has a result, it is a snapshot that fits its arrays and texts if the one
  -- before did.
  pub tm_collect_x86-IsBounded :
      (s t : Snapshot D) → IsBounded s → tm_collect_x86 host s ≡ some t → IsBounded t
  unfolding tm_collect_x86 collect_rapl
  tm_collect_x86-IsBounded s t h e =
      let (cored, e1, e2) = >>=-eq-some (collect_coretemp host s) _ e in
      let kept = collect_coretemp-IsBounded s cored h e1 in
      subst IsBounded (some-injective _ _ e2)
        (collect_rapl_first-IsBounded cored cored.cpu_packages kept.packages_fit kept)
