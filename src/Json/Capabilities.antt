-- ===== src/Json/Capabilities.antt =====
-- `append_capabilities` of src/format/json.c.
use thermal_observatory.Base.{ℕ, Bool, true, false, not, List, [], ◌∷◌, if◌then◌else◌, Bytes, codes}
use thermal_observatory.Json.{lit, append_json_string}
use thermal_observatory.Snapshot.Capability.{Capability, has}
use thermal_observatory.Writer.{Action, Sink, ◌>>◌, done}

-- The table `cap_names`.
abbrev pub cap_names : List (Capability × Bytes)
cap_names =
    (Capability.linux_hwmon, codes "linux_hwmon")
    ∷ (Capability.linux_thermal, codes "linux_thermal")
    ∷ (Capability.linux_rapl, codes "linux_rapl")
    ∷ (Capability.x86_msr, codes "x86_msr")
    ∷ (Capability.arm_scmi, codes "arm_scmi")
    ∷ (Capability.nvidia_nvml, codes "nvidia_nvml")
    ∷ (Capability.amd_rocm_smi, codes "amd_rocm_smi")
    ∷ (Capability.amdgpu_hwmon, codes "amdgpu_hwmon")
    ∷ (Capability.experimental_kmod, codes "experimental_kmod")
    ∷ (Capability.nvidia_cuda, codes "nvidia_cuda")
    ∷ (Capability.platform_ipmi, codes "platform_ipmi")
    ∷ (Capability.platform_redfish, codes "platform_redfish")
    ∷ (Capability.nvidia_dcgm, codes "nvidia_dcgm")
    ∷ []

module _ {W : Type 0} ⦃sink : Sink W⦄ where
  -- the loop, from an entry of the table on
  unfoldable pub append_cap_names : ℕ → Bool → List (Capability × Bytes) → Action W
  append_cap_names caps first [] = done
  append_cap_names caps first ((bit, name) ∷ rest) =
      let skipped = append_cap_names caps first rest in
      let named =
        (if not first then lit "," else done)
        >> append_json_string name
        >> append_cap_names caps false rest in
      if not (has caps bit) then skipped else named

  unfoldable pub append_capabilities : ℕ → Action W
  append_capabilities caps = lit "[" >> append_cap_names caps true cap_names >> lit "]"
