-- ===== src/Libc/Print.antt =====
-- printf's conversions of integers.
pub mod Lengths
pub mod Plain
pub mod Numbers
use Prim.Native.Nat.{◌/◌, ◌%◌}
use thermal_observatory.Base.{
  ℕ, zero, suc, ◌+◌, ◌-◌, ◌≡◌, refl, [], ◌∷◌, ◌++◌, ltb, if◌then◌else◌, Bytes, length, codes,
}
use thermal_observatory.Base.Int.{ℤ, pos, negsuc}

-- A digit below 16, in lower case.
digit : ℕ → ℕ
digit k = if ltb k 10 then b'0' + k else b'a' + (k - 10)

-- The digits of `n` in front of `out`, with one unit of fuel for each.
write_digits : ℕ → ℕ → ℕ → Bytes → Bytes
unfolding digit
write_digits base zero n out = out
write_digits base (suc fuel) n out =
    let rest = write_digits base fuel (n / base) (digit (n % base) ∷ out) in
    if ltb n base then digit n ∷ out else rest

-- "%u", "%llu", "%zu": a number has fewer digits than `n + 1`.
unfoldable pub decimal : ℕ → Bytes
unfolding write_digits
decimal n = write_digits 10 (suc n) n []

-- "%x"
unfoldable pub hexadecimal : ℕ → Bytes
unfolding write_digits
hexadecimal n = write_digits 16 (suc n) n []

-- "%d", "%ld", "%lld"
unfoldable pub signed : ℤ → Bytes
unfolding decimal
signed (pos n) = decimal n
signed (negsuc n) = b'-' ∷ decimal (suc n)

zeros : ℕ → Bytes
zeros zero = []
zeros (suc n) = b'0' ∷ zeros n

-- A field width with the flag 0: zeros in front, up to `width` bytes.
unfoldable pub zero_padded : ℕ → Bytes → Bytes
unfolding zeros
zero_padded width s = zeros (width - length s) ++ s

print_runs :
    (decimal 1048576 ≡ codes "1048576")
    × (signed (negsuc 41) ≡ codes "-42")
    × (zero_padded 4 (hexadecimal 0xbeef) ≡ codes "beef")
    × (zero_padded 2 (hexadecimal 0xa) ≡ codes "0a")
unfolding decimal signed zero_padded hexadecimal
print_runs = (refl, refl, refl, refl)
