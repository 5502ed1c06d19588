-- ===== src/Base/Bits.antt =====
-- `|` and `&` of unsigned words, bit by bit.
use Prim.Native.Nat.{
  bit_and, bit_or, bit_and-bitwise, bit_or-bitwise, digits, min, max, ◌^◌, ◌%◌, ◌/◌, ◌*◌, ◌+◌, ◌<◌,
  ◌≤◌, ℕ, zero, suc,
}
use Prim.Native.Nat.pow
use mathlib.Core.Path.{◌≡◌, refl, ◌∙◌, ap}
use mathlib.Core.Bool.{Bool, not, ◌||◌}
use native.Mathlib.Omega.{arith}
use thermal_observatory.Base.Tests.{◌==◌, if◌then◌else◌}

-- Any count of digits that suffices gives the same result.
digits_fuel :
    (z : ℕ → ℕ) (f : ℕ → ℕ → ℕ) (n m a b : ℕ) → a ≤ n → a ≤ m → digits z f n a b ≡ digits z f m a b
digits_fuel z f zero zero a b p q = refl
digits_fuel z f zero (suc m) zero b p q = refl
digits_fuel z f zero (suc m) (suc a) b p q = absurd (omega arith)
digits_fuel z f (suc n) zero zero b p q = refl
digits_fuel z f (suc n) zero (suc a) b p q = absurd (omega arith)
digits_fuel z f (suc n) (suc m) zero b p q = refl
digits_fuel z f (suc n) (suc m) (suc a) b p q =
    ap (λ (t : ℕ). t * 2 + f (suc a % 2) (b % 2))
      (digits_fuel z f n m (suc a / 2) (b / 2) (omega arith) (omega arith))

-- The last digit and the rest of a word made of two others.
or_halves : (x y : ℕ) → bit_or x y ≡ max (x % 2) (y % 2) + 2 * bit_or (x / 2) (y / 2)
or_halves zero y = omega (arith, bit_or-bitwise 0 y, bit_or-bitwise 0 (y / 2))
or_halves (suc n) y =
    let enough =
      digits_fuel (λ t. t) max n (suc n / 2) (suc n / 2) (y / 2) (omega arith) (omega arith) in
    omega (arith, enough, bit_or-bitwise (suc n / 2) (y / 2), bit_or-bitwise (suc n) y)

and_halves : (x y : ℕ) → bit_and x y ≡ min (x % 2) (y % 2) + 2 * bit_and (x / 2) (y / 2)
and_halves zero y = omega (arith, bit_and-bitwise 0 y, bit_and-bitwise 0 (y / 2))
and_halves (suc n) y =
    let enough =
      digits_fuel (λ _. 0) min n (suc n / 2) (suc n / 2) (y / 2) (omega arith) (omega arith) in
    omega (arith, enough, bit_and-bitwise (suc n / 2) (y / 2), bit_and-bitwise (suc n) y)

-- Bit `k` of `n`.
unfoldable pub bit : ℕ → ℕ → ℕ
bit zero n = n % 2
bit (suc k) n = bit k (n / 2)

pub bit-bit_or : (k a b : ℕ) → bit k (bit_or a b) ≡ max (bit k a) (bit k b)
unfolding bit
bit-bit_or zero a b = omega (arith, or_halves a b)
bit-bit_or (suc k) a b = ap (bit k) (omega (arith, or_halves a b)) ∙ bit-bit_or k (a / 2) (b / 2)

pow_suc : (k : ℕ) → 2 ^ suc k ≡ 2 ^ k * 2
pow_suc k = omega (arith, pow.suc 2 k)

half_pow : (k : ℕ) → 2 ^ suc k / 2 ≡ 2 ^ k
half_pow k = omega (arith, pow_suc k)

bit_and-zero : (n a : ℕ) → a ≤ n → bit_and a 0 ≡ 0
bit_and-zero zero zero h = bit_and-bitwise 0 0
bit_and-zero zero (suc a) h = absurd (omega arith)
bit_and-zero (suc n) zero h = bit_and-bitwise 0 0
bit_and-zero (suc n) (suc a) h =
    omega (arith, and_halves (suc a) 0, bit_and-zero n (suc a / 2) (omega arith))

-- Masking with one bit tests that bit.
pub bit_and-pow : (k a : ℕ) → bit_and a (2 ^ k) ≡ bit k a * 2 ^ k
unfolding bit
bit_and-pow zero a = omega (arith, and_halves a 1, bit_and-zero (a / 2) (a / 2) (omega arith))
bit_and-pow (suc k) a = omega (
  arith,
  and_halves a (2 ^ suc k),
  pow_suc k,
  ap (bit_and (a / 2)) (half_pow k),
  ap (λ (t : ℕ). bit k (a / 2) * t) (pow_suc k),
  bit_and-pow k (a / 2),
)

bit-zero : (j : ℕ) → bit j 0 ≡ 0
unfolding bit
bit-zero zero = refl
bit-zero (suc j) = bit-zero j

pub bit-pow : (j k : ℕ) → bit j (2 ^ k) ≡ (if k == j then 1 else 0)
unfolding bit
bit-pow zero zero = refl
bit-pow zero (suc k) = ground (arith, pow_suc k)
bit-pow (suc j) zero = ground (arith, bit-zero j)
bit-pow (suc j) (suc k) = ap (bit j) (half_pow k) ∙ bit-pow j k ∙ ground arith

pub pow_pos : (k : ℕ) → 0 < 2 ^ k
pow_pos zero = omega arith
pow_pos (suc k) = omega (arith, pow_suc k, pow_pos k)

-- A word has a bit exactly if masking with the bit leaves something.
pub bit_and-pow-eq-zero : (k a : ℕ) → (bit_and a (2 ^ k) == 0) ≡ (bit k a == 0)
bit_and-pow-eq-zero k a = grind (arith, bit_and-pow k a, pow_pos k)

pub or-eq-zero : (x : ℕ) (b : Bool) → not (max x (if b then 1 else 0) == 0) ≡ (not (x == 0) || b)
or-eq-zero x b = ground arith
