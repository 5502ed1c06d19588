-- ===== src/Cpu/X86/Peak.antt =====
-- The package's temperature and `tjmax` are the highest of its cores' readings.
use thermal_observatory.Base.{
  Bool-cases, inl, inr, ◌⊎◌, refl, true, false, Option, none, some, some-injective, subst, ◌≡◌,
  List, [], ◌∷◌, ◌++◌, Bytes, All, All-append, >>=-eq-some, if◌then◌else◌, ltb, leb, length, arith,
}
use thermal_observatory.Base.Loops.{while_room, while_room_inv, with_list_inv}
use thermal_observatory.Cpu.X86.{
  read_core, add_core, core_room, collect_core, empty_package, add_package, collect_labels,
  collect_coretemp, rapl_package, collect_rapl_first, collect_rapl, tm_collect_x86,
}
use thermal_observatory.Double.{Double, nought}
use thermal_observatory.Platform.{Host}
use thermal_observatory.Snapshot.{CpuCore, CpuPackage, Snapshot, max_cpu_packages}

-- What IEEE 754 says of `>` between numbers that are no NaN.
pub record IsOrdered {ℓ} (D : Type ℓ) ⦃d : Double D⦄ : Type ℓ where
  pub gt_irrefl : (x : D) → d.gt x x ≡ false
  -- what is not above y and y not above z is not above z
  pub le_trans : (x y z : D) → d.gt x y ≡ false → d.gt y z ≡ false → d.gt x z ≡ false
  pub gt_asymm : (x y : D) → d.gt x y ≡ true → d.gt y x ≡ false

module _ {ℓ} {D : Type ℓ} ⦃d : Double D⦄ where
  -- `top` is what memset left or the reading of one of the cores.
  abbrev pub IsOneOf : D → (CpuCore D → D) → List (CpuCore D) → Type ℓ
  IsOneOf top reading [] = top ≡ nought
  IsOneOf top reading (core ∷ cores) = (top ≡ reading core) ⊎ IsOneOf top reading cores

  IsOneOf-concat :
      (top : D) (reading : CpuCore D → D) (cores : List (CpuCore D)) (core : CpuCore D)
      → IsOneOf top reading cores
      → IsOneOf top reading (cores ++ core ∷ [])
  IsOneOf-concat top reading [] core h = inr h
  IsOneOf-concat top reading (first ∷ cores) core (inl e) = inl e
  IsOneOf-concat top reading (first ∷ cores) core (inr h) =
      inr (IsOneOf-concat top reading cores core h)

  IsOneOf-last :
      (reading : CpuCore D → D) (cores : List (CpuCore D)) (core : CpuCore D)
      → IsOneOf (reading core) reading (cores ++ core ∷ [])
  IsOneOf-last reading [] core = inl refl
  IsOneOf-last reading (first ∷ cores) core = inr (IsOneOf-last reading cores core)

  -- No reading is above `top`.
  pub record IsPeak (top : D) (reading : CpuCore D → D) (cores : List (CpuCore D)) : Type ℓ where
    pub highest : All (λ core. d.gt (reading core) top ≡ false) cores
    -- and `top` is not below what memset left
    pub from_nought : d.gt nought top ≡ false
    pub attained : IsOneOf top reading cores

  pub record HasPeaks (pkg : CpuPackage D) : Type ℓ where
    pub temp : IsPeak pkg.package_temp_c (λ core. core.temp_c) pkg.cores
    pub tjmax : IsPeak pkg.tjmax_c (λ core. core.crit_c) pkg.cores

module _ {ℓ} {D : Type ℓ} ⦃d : Double D⦄ (laws : IsOrdered D) where
  All-raise :
      (reading : CpuCore D → D) (cores : List (CpuCore D)) (low high : D)
      → d.gt low high ≡ false
      → All (λ core. d.gt (reading core) low ≡ false) cores
      → All (λ core. d.gt (reading core) high ≡ false) cores
  All-raise reading [] low high h a = tt
  All-raise reading (core ∷ cores) low high h a =
      (laws.le_trans (reading core) low high a.0 h, All-raise reading cores low high h a.1)

  -- `if (reading > top) top = reading;`
  IsPeak-concat :
      (reading : CpuCore D → D) (cores : List (CpuCore D)) (core : CpuCore D) (top : D)
      → IsPeak top reading cores
      → IsPeak (if d.gt (reading core) top then reading core else top) reading (cores ++ core ∷ [])
  IsPeak-concat reading cores core top h = elim (Bool-cases (d.gt (reading core) top)) [
    | inl above ↦
        let raised = laws.gt_asymm (reading core) top above in
        rw above record {
          highest =
              All-append _ cores (core ∷ [])
                (All-raise reading cores top (reading core) raised h.highest)
                (laws.gt_irrefl (reading core), tt);
          from_nought = laws.le_trans nought top (reading core) h.from_nought raised;
          attained = IsOneOf-last reading cores core;
        }
    | inr below ↦ rw below record {
      highest = All-append _ cores (core ∷ []) h.highest (below, tt);
      from_nought = h.from_nought;
      attained = IsOneOf-concat top reading cores core h.attained;
    }
  ]

  add_core-HasPeaks :
      (host : Host) (pkg : CpuPackage D) (found : Option (CpuCore D))
      → HasPeaks pkg
      → HasPeaks (add_core host pkg found)
  unfolding add_core
  add_core-HasPeaks host pkg none h = h
  add_core-HasPeaks host pkg (some core) h = record {
    temp = IsPeak-concat (λ c. c.temp_c) pkg.cores core pkg.package_temp_c h.temp;
    tjmax = IsPeak-concat (λ c. c.crit_c) pkg.cores core pkg.tjmax_c h.tjmax;
  }

  collect_core-HasPeaks :
      (host : Host) (path : Bytes) (s t : CpuPackage D)
      → HasPeaks s
      → core_room host s ≡ true
      → collect_core host path s ≡ some t
      → HasPeaks t
  unfolding collect_core
  collect_core-HasPeaks host path s t h room e =
      let (found, _, e1) = >>=-eq-some (read_core host path) _ e in
      subst HasPeaks (some-injective _ _ e1) (add_core-HasPeaks host s found h)

  empty_package-HasPeaks : (host : Host) → HasPeaks (empty_package {D = D} host)
  empty_package-HasPeaks host = record {
    temp = record { highest = tt; from_nought = laws.gt_irrefl nought; attained = refl };
    tjmax = record { highest = tt; from_nought = laws.gt_irrefl nought; attained = refl };
  }

  core_loop-HasPeaks :
      (host : Host) (paths : List Bytes) (pkg : CpuPackage D)
      → while_room (core_room host) (collect_core host) paths (empty_package host) ≡ some pkg
      → HasPeaks pkg
  core_loop-HasPeaks host paths pkg e =
      while_room_inv (core_room host) (collect_core host) HasPeaks (collect_core-HasPeaks host)
        paths (empty_package host) pkg (empty_package-HasPeaks host) e

module _ {ℓ} {D : Type ℓ} ⦃d : Double D⦄ (laws : IsOrdered D) (host : Host) where
  add_package-HasPeaks :
      (s : Snapshot D) (pkg : CpuPackage D)
      → All HasPeaks s.cpu_packages
      → HasPeaks pkg
      → All HasPeaks (add_package host s pkg).cpu_packages
  unfolding add_package
  add_package-HasPeaks s pkg h p = elim (Bool-cases (ltb 0 (length pkg.cores))) [
    | inl some_core ↦ rw some_core (All-append HasPeaks s.cpu_packages (pkg ∷ []) h (p, tt))
    | inr no_core ↦ rw no_core h
  ]

  collect_labels-HasPeaks :
      (paths : List Bytes) (s t : Snapshot D)
      → All HasPeaks s.cpu_packages
      → collect_labels host paths s ≡ some t
      → All HasPeaks t.cpu_packages
  unfolding collect_labels
  collect_labels-HasPeaks paths s t h e =
      elim (Bool-cases (leb max_cpu_packages (length s.cpu_packages))) [
        | inl full ↦ subst (λ u. All HasPeaks u.cpu_packages) (some-injective _ _ (rw full at e)) h
        | inr free ↦
            let (pkg, looped, e1) =
              >>=-eq-some
                (while_room (core_room host) (collect_core host) paths (empty_package host)) _
                (rw free at e) in
            subst (λ u. All HasPeaks u.cpu_packages) (some-injective _ _ e1)
              (add_package-HasPeaks s pkg h (core_loop-HasPeaks laws host paths pkg looped))
      ]

  -- RAPL's readings are no temperatures.
  rapl_package-HasPeaks : (pkg : CpuPackage D) → HasPeaks pkg → HasPeaks (rapl_package host pkg)
  unfolding rapl_package
  rapl_package-HasPeaks pkg h = ground arith

  collect_rapl_first-HasPeaks :
      (s : Snapshot D) (packages : List (CpuPackage D))
      → All HasPeaks packages
      → All HasPeaks s.cpu_packages
      → All HasPeaks (collect_rapl_first host s packages).cpu_packages
  collect_rapl_first-HasPeaks s [] p h = h
  collect_rapl_first-HasPeaks s (pkg ∷ packages) p h = (rapl_package-HasPeaks pkg p.0, p.1)

  -- Where `>` orders the readings, and the temperature and `tjmax` of every package before are the
  -- peaks of its cores' readings: if the x86 collector has a result, the same holds of every package
  -- in it. A peak has no reading above it, 0 is not above it either, and it is 0 or a core's reading.
  pub tm_collect_x86-HasPeaks :
      (s t : Snapshot D)
      → All HasPeaks s.cpu_packages
      → tm_collect_x86 host s ≡ some t
      → All HasPeaks t.cpu_packages
  unfolding tm_collect_x86 collect_rapl collect_coretemp
  tm_collect_x86-HasPeaks s t h e =
      let (cored, e1, e2) = >>=-eq-some (collect_coretemp host s) _ e in
      let kept =
        with_list_inv (λ (u : Snapshot D). All HasPeaks u.cpu_packages) (host.glob _)
          (collect_labels host) s (λ paths u. collect_labels-HasPeaks paths s u h) cored h e1 in
      subst (λ u. All HasPeaks u.cpu_packages) (some-injective _ _ e2)
        (collect_rapl_first-HasPeaks cored cored.cpu_packages kept kept)
