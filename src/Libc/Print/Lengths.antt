-- ===== src/Libc/Print/Lengths.antt =====
-- How long a number in base 16 is.
use Prim.Native.Nat.{◌/◌, ◌%◌}
use thermal_observatory.Base.{
  ℕ, zero, suc, ◌+◌, ◌-◌, ◌*◌, ◌≤◌, ◌<◌, ◌≡◌, [], ◌∷◌, inl, inr, Bool-cases, ltb, arith, Bytes,
  length, length-append,
}
use thermal_observatory.Libc.Print.{digit, write_digits, hexadecimal, zeros, zero_padded}

-- `16 ^ k`
abbrev pub pow16 : ℕ → ℕ
pow16 zero = 1
pow16 (suc k) = 16 * pow16 k

length-write_digits :
    (fuel n k : ℕ) (out : Bytes)
    → n < pow16 (suc k)
    → length (write_digits 16 fuel n out) ≤ suc k + length out
unfolding write_digits
length-write_digits zero n k out h = omega arith
length-write_digits (suc fuel) n k out h = elim (Bool-cases (ltb n 16)) [
  | inl small ↦ rw small (omega arith)
  | inr large ↦ rw large (
      elim k
          as (λ k.
            n < pow16 (suc k)
            → length (write_digits 16 fuel (n / 16) (digit (n % 16) ∷ out)) ≤ suc k + length out) [
              | zero ↦ λ lt. absurd (ground arith)
              | suc j ↦ λ lt.
                  let rest =
                    length-write_digits fuel (n / 16) j (digit (n % 16) ∷ out) (omega arith) in
                  omega arith
            ]
        h)
]

-- A number below `16 ^ (k + 1)` has at most `k + 1` digits.
pub length-hexadecimal : (n k : ℕ) → n < pow16 (suc k) → length (hexadecimal n) ≤ suc k
unfolding hexadecimal
length-hexadecimal n k h = omega (arith, length-write_digits (suc n) n k [] h)

length-zeros : (n : ℕ) → length (zeros n) ≡ n
unfolding zeros
length-zeros zero = omega arith
length-zeros (suc n) = omega (arith, length-zeros n)

-- Padding makes a text no longer than the width, if it is not longer itself.
pub length-zero_padded :
    (width : ℕ) (s : Bytes) → length s ≤ width → length (zero_padded width s) ≡ width
unfolding zero_padded
length-zero_padded width s h =
    omega (arith, length-append (zeros (width - length s)) s, length-zeros (width - length s))
