-- ===== src/Libc/Print/Plain.antt =====
-- Texts with no newline, as printf writes numbers.
use Prim.Native.Nat.{◌/◌}
use thermal_observatory.Base.{
  ℕ, zero, suc, ◌+◌, ◌-◌, ◌%◌, ◌≡◌, refl, Bool-cases, inl, inr, [], ◌∷◌, ◌++◌, if◌then◌else◌, ltb,
  ◌==◌, Bytes, length, arith,
}
use thermal_observatory.Base.Int.{ℤ, pos, negsuc}
use thermal_observatory.Libc.Print.{
  digit, write_digits, decimal, hexadecimal, signed, zeros, zero_padded,
}

unfoldable pub newlines : Bytes → ℕ
newlines [] = 0
newlines (c ∷ s) = (if c == b'\n' then 1 else 0) + newlines s

-- A text with no newline.
abbrev pub IsPlain : Bytes → Type 0
IsPlain s = newlines s ≡ 0

pub newlines-append : (a b : Bytes) → newlines (a ++ b) ≡ newlines a + newlines b
unfolding newlines
newlines-append [] b = omega arith
newlines-append (c ∷ a) b = omega (arith, newlines-append a b)

-- A text with `n` newlines.
pub record HasLines (s : Bytes) (n : ℕ) : Type 0 where
  pub counted : newlines s ≡ n

-- A plain text in front changes no count.
pub plain_then : {b : Bytes} {n : ℕ} (a : Bytes) → IsPlain a → HasLines b n → HasLines (a ++ b) n
plain_then {b} a h k = record { counted = omega (arith, newlines-append a b, k.counted) }

write_digits-IsPlain :
    (base fuel n : ℕ) (out : Bytes) → IsPlain out → IsPlain (write_digits base fuel n out)
unfolding write_digits digit newlines
write_digits-IsPlain base zero n out h = h
write_digits-IsPlain base (suc fuel) n out h = elim (Bool-cases (ltb n base)) [
  | inl small ↦ rw small (ground (arith, h))
  | inr large ↦
      rw large
        (write_digits-IsPlain base fuel (n / base) (digit (n % base) ∷ out) (ground (arith, h)))
]

pub decimal-IsPlain : (n : ℕ) → IsPlain (decimal n)
unfolding decimal newlines
decimal-IsPlain n = write_digits-IsPlain 10 (suc n) n [] refl

pub signed-IsPlain : (n : ℤ) → IsPlain (signed n)
unfolding signed newlines
signed-IsPlain (pos n) = decimal-IsPlain n
signed-IsPlain (negsuc n) = omega (arith, decimal-IsPlain (suc n))

zeros-IsPlain : (n : ℕ) → IsPlain (zeros n)
unfolding zeros newlines
zeros-IsPlain zero = refl
zeros-IsPlain (suc n) = omega (arith, zeros-IsPlain n)

pub hexadecimal-IsPlain : (n : ℕ) → IsPlain (hexadecimal n)
unfolding hexadecimal newlines
hexadecimal-IsPlain n = write_digits-IsPlain 16 (suc n) n [] refl

pub padded-IsPlain : (width : ℕ) (s : Bytes) → IsPlain s → IsPlain (zero_padded width s)
unfolding zero_padded
padded-IsPlain width s h =
    omega (arith, newlines-append (zeros (width - length s)) s, zeros-IsPlain (width - length s), h)
