-- ===== src/Snapshot/Capability/Apart.antt =====
-- The thirteen bits of `tm_capability_t` are apart: setting one sets no other.
use thermal_observatory.Base.{
  ℕ, true, ◌≡◌, refl, sym, ap, ◌∙◌, ◌↔◌, ◌⊎◌, inl, inr, some, some-injective, List, [], ◌∷◌, ◌==◌,
  ==_iff, or_iff, get_elem?,
}
use thermal_observatory.Snapshot.Capability.{
  Capability, place, has, with_cap, has-with_cap, linux_hwmon, linux_thermal, linux_rapl, x86_msr,
  arm_scmi, nvidia_nvml, amd_rocm_smi, amdgpu_hwmon, experimental_kmod, nvidia_cuda, platform_ipmi,
  platform_redfish, nvidia_dcgm,
}

abbrev all_capabilities : List Capability
all_capabilities =
    linux_hwmon ∷ linux_thermal ∷ linux_rapl ∷ x86_msr ∷ arm_scmi ∷ nvidia_nvml ∷ amd_rocm_smi
    ∷ amdgpu_hwmon ∷ experimental_kmod ∷ nvidia_cuda ∷ platform_ipmi ∷ platform_redfish
    ∷ nvidia_dcgm ∷ []

get_elem?-place : (c : Capability) → get_elem? all_capabilities (place c) ≡ some c
unfolding place
get_elem?-place linux_hwmon = refl
get_elem?-place linux_thermal = refl
get_elem?-place linux_rapl = refl
get_elem?-place x86_msr = refl
get_elem?-place arm_scmi = refl
get_elem?-place nvidia_nvml = refl
get_elem?-place amd_rocm_smi = refl
get_elem?-place amdgpu_hwmon = refl
get_elem?-place experimental_kmod = refl
get_elem?-place nvidia_cuda = refl
get_elem?-place platform_ipmi = refl
get_elem?-place platform_redfish = refl
get_elem?-place nvidia_dcgm = refl

place-injective : (c e : Capability) → place c ≡ place e → c ≡ e
place-injective c e same =
    some-injective _ _
      (sym (get_elem?-place c) ∙ ap (get_elem? all_capabilities) same ∙ get_elem?-place e)

pub place_iff : (c e : Capability) → ((place c == place e) ≡ true) ↔ (c ≡ e)
place_iff c e = (
  (λ h. place-injective c e ((==_iff (place c) (place e)).0 h)),
  (λ same. (==_iff (place c) (place e)).1 (ap place same)),
)

-- For every mask and any two capabilities of the thirteen: after the first is set in the mask, the
-- second is in it exactly if it was before or is the same capability.
pub has-with_cap_iff :
    (caps : ℕ) (c e : Capability)
    → (has (with_cap caps c) e ≡ true) ↔ ((has caps e ≡ true) ⊎ (c ≡ e))
has-with_cap_iff caps c e = (
  (λ h. elim ((or_iff (has caps e) (place c == place e)).0 (sym (has-with_cap caps c e) ∙ h)) [
    | inl before ↦ inl before
    | inr same ↦ inr ((place_iff c e).0 same)
  ]),
  (λ h.
      has-with_cap caps c e
      ∙ (or_iff (has caps e) (place c == place e)).1
          (elim h [ inl before ↦ inl before | inr same ↦ inr ((place_iff c e).1 same) ])),
)
