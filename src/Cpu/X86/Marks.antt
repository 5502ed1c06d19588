-- ===== src/Cpu/X86/Marks.antt =====
-- Which bits `tm_collect_x86` sets.
use thermal_observatory.Base.{
  ℕ, Bool-cases, inl, inr, ◌||◌, ◌&&◌, ◌≡◌, refl, sym, ap, ◌∙◌, some-injective, Option, none, some,
  List, [], ◌∷◌, ◌==◌, >>=-eq-some, Bytes, codes, ltb, leb, length, lt→ltb, suc, arith, subst,
}
use thermal_observatory.Base.Int.{ℤ}
use thermal_observatory.Base.Loops.{while_room, with_list_inv}
use thermal_observatory.Cpu.X86.{
  read_rapl, rapl_capability, core_room, collect_core, empty_package, add_package, collect_labels,
  collect_coretemp, collect_rapl_first, collect_rapl, tm_collect_x86,
}
use thermal_observatory.Double.{Double}
use thermal_observatory.Platform.{Host}
use thermal_observatory.Platform.Sysfs.Marks.{is_some, or_false}
use thermal_observatory.Snapshot.{CpuPackage, Snapshot, max_cpu_packages}
use thermal_observatory.Snapshot.Capability.{Capability, has, place, has-with_cap, linux_rapl}

has-rapl_capability :
    (caps : ℕ) (reading : Option ℤ) (e : Capability)
    → has (rapl_capability caps reading) e
      ≡ (has caps e || is_some reading && place linux_rapl == place e)
has-rapl_capability caps none e = or_false (has caps e)
has-rapl_capability caps (some n) e = has-with_cap caps linux_rapl e

module _ {ℓ} {D : Type ℓ} ⦃d : Double D⦄ (host : Host) where
  capabilities-add_package :
      (s : Snapshot D) (pkg : CpuPackage D) → (add_package host s pkg).capabilities ≡ s.capabilities
  unfolding add_package
  capabilities-add_package s pkg = elim (Bool-cases (ltb 0 (length pkg.cores))) [
    | inl e ↦ rw e refl
    | inr e ↦ rw e refl
  ]

  capabilities-collect_labels :
      (s : Snapshot D) (paths : List Bytes) (t : Snapshot D)
      → collect_labels host paths s ≡ some t
      → t.capabilities ≡ s.capabilities
  unfolding collect_labels
  capabilities-collect_labels s paths t h =
      elim (Bool-cases (leb max_cpu_packages (length s.cpu_packages))) [
        | inl full ↦
            ap (λ (x : Snapshot D). x.capabilities) (sym (some-injective _ _ (rw full at h)))
        | inr free ↦
            let (pkg, _, e) =
              >>=-eq-some
                (while_room (core_room host) (collect_core host) paths (empty_package host)) _
                (rw free at h) in
            ap (λ (x : Snapshot D). x.capabilities) (sym (some-injective _ _ e))
            ∙ capabilities-add_package s pkg
      ]

  has-collect_rapl_first :
      (s : Snapshot D) (packages : List (CpuPackage D)) (e : Capability)
      → s.cpu_packages ≡ packages
      → has (collect_rapl_first host s packages).capabilities e ≡ (
          has s.capabilities e
          || (ltb 0 (length (collect_rapl_first host s packages).cpu_packages)
              && is_some (read_rapl host (codes "/energy_uj")))
            && place linux_rapl == place e)
  has-collect_rapl_first s [] e h = rw h (or_false (has s.capabilities e))
  has-collect_rapl_first s (pkg ∷ packages) e h =
      rw (lt→ltb 0 (suc (length packages)) (omega arith))
        (has-rapl_capability s.capabilities (read_rapl host (codes "/energy_uj")) e)

  -- Where the x86 collector has a result: it sets the RAPL bit exactly if the result has a CPU
  -- package and the energy counter can be read, and changes no other bit.
  pub tm_collect_x86-has :
      (s t : Snapshot D) (e : Capability)
      → tm_collect_x86 host s ≡ some t
      → has t.capabilities e ≡ (
          has s.capabilities e
          || (ltb 0 (length t.cpu_packages) && is_some (read_rapl host (codes "/energy_uj")))
            && place linux_rapl == place e)
  unfolding tm_collect_x86 collect_rapl collect_coretemp
  tm_collect_x86-has s t e h =
      let (cored, e1, e2) = >>=-eq-some (collect_coretemp host s) _ h in
      let kept : cored.capabilities ≡ s.capabilities =
        with_list_inv (λ (v : Snapshot D). v.capabilities ≡ s.capabilities) (host.glob _)
          (collect_labels host) s (capabilities-collect_labels s) cored refl e1 in
      subst
        (λ (u : Snapshot D). has u.capabilities e ≡ (
          has s.capabilities e
          || (ltb 0 (length u.cpu_packages) && is_some (read_rapl host (codes "/energy_uj")))
            && place linux_rapl == place e))
        (some-injective _ _ e2)
        (has-collect_rapl_first cored cored.cpu_packages e refl
          ∙ ap
              (λ caps.
                has caps e
                || (ltb 0 (length (collect_rapl_first host cored cored.cpu_packages).cpu_packages)
                    && is_some (read_rapl host (codes "/energy_uj")))
                  && place linux_rapl == place e)
              kept)
