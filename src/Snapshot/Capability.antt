-- ===== src/Snapshot/Capability.antt =====
-- `tm_capability_t`: the bits of `capabilities`, and the two ways in which the code uses them.
pub mod Apart
use Prim.Native.Nat.{bit_and, bit_or}
use thermal_observatory.Base.{ℕ, ◌^◌, Bool, ap, not, ◌||◌, ◌≡◌, ◌==◌}
use thermal_observatory.Base.Bits.{bit, bit-bit_or, bit_and-pow-eq-zero, bit-pow, or-eq-zero}

-- The place of each bit.
pub data Capability : Type 0 where
  linux_hwmon linux_thermal linux_rapl x86_msr arm_scmi nvidia_nvml : Capability
  amd_rocm_smi amdgpu_hwmon experimental_kmod nvidia_cuda : Capability
  platform_ipmi platform_redfish nvidia_dcgm : Capability

unfoldable pub place : Capability → ℕ
place linux_hwmon = 0
place linux_thermal = 1
place linux_rapl = 2
place x86_msr = 3
place arm_scmi = 4
place nvidia_nvml = 5
place amd_rocm_smi = 6
place amdgpu_hwmon = 7
place experimental_kmod = 8
place nvidia_cuda = 9
place platform_ipmi = 10
place platform_redfish = 11
place nvidia_dcgm = 12

unfoldable pub mask : Capability → ℕ
unfolding place
mask c = 2 ^ place c

-- `(caps & TM_CAP_…) != 0`
unfoldable pub has : ℕ → Capability → Bool
has caps c = not (bit_and caps (mask c) == 0)

-- `caps |= TM_CAP_…`
unfoldable pub with_cap : ℕ → Capability → ℕ
with_cap caps c = bit_or caps (mask c)

has-bit : (caps : ℕ) (c : Capability) → has caps c ≡ not (bit (place c) caps == 0)
unfolding has mask
has-bit caps c = ap not (bit_and-pow-eq-zero (place c) caps)

-- For every mask and any two capabilities: after the first is set, the second is set exactly if it
-- was before or is at the same place.
pub has-with_cap :
    (caps : ℕ) (c e : Capability) → has (with_cap caps c) e ≡ (has caps e || place c == place e)
unfolding with_cap mask
has-with_cap caps c e =
    rw
      (
        has-bit (with_cap caps c) e,
        has-bit caps e,
        bit-bit_or (place e) caps (2 ^ place c),
        bit-pow (place e) (place c),
      )
      (or-eq-zero (bit (place e) caps) (place c == place e))
