-- ===== src/Kernel.antt =====
-- kernel/k_thermal_probe.c: `kthermal_read`, over the kernel's `simple_read_from_buffer`, which is a
-- parameter: from a buffer, the bytes available in it, the bytes wanted and the offset it gives the
-- bytes read and the new offset, or `none` for an error.
use thermal_observatory.Base.{ℕ, Option, ◌++◌, Bytes, codes, length}

abbrev pub ReadFrom : Type 0
ReadFrom = Bytes → ℕ → ℕ → ℕ → Option (Bytes × ℕ)

-- the array without its NUL
unfoldable pub payload : Bytes
payload =
    codes "{\"status\":\"experimental\","
    ++ codes
        "\"message\":\"kernel collector scaffold only; implement MSR and thermal-zone hooks incrementally\"}\n"

-- `simple_read_from_buffer(buf, len, ppos, payload, sizeof(payload) - 1)`
unfoldable pub kthermal_read : ReadFrom → ℕ → ℕ → Option (Bytes × ℕ)
kthermal_read read_from len ppos = read_from payload (length payload) len ppos
