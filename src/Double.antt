-- ===== src/Double.antt =====
-- What the code does with a `double`: C conversions from integers, two operations, one comparison,
-- printf's "%.*f" and strtod. The type is a parameter of every module that has readings in it.
use thermal_observatory.Base.{ℕ, Bool, Option, Bytes}
use thermal_observatory.Base.Int.{ℤ, pos, negsuc}

pub record Double {ℓ} (D : Type ℓ) : Type ℓ where
  pub of_int : ℤ → D
  pub div : D → D → D
  pub add : D → D → D
  pub gt : D → D → Bool
  -- the text of "%.nf"
  pub fixed : ℕ → D → Bytes
  -- the value and what stands behind it, or `none` if the text begins with no number
  pub strtod : Bytes → Option (D × Bytes)

module _ {ℓ} {D : Type ℓ} ⦃d : Double D⦄ where
  -- `0.0`, which is also what memset leaves
  abbrev pub nought : D
  nought = d.of_int (pos 0)

  abbrev pub one : D
  one = d.of_int (pos 1)

  -- `(double)n / 1000.0`
  abbrev pub milli : ℤ → D
  milli n = d.div (d.of_int n) (d.of_int (pos 1000))

  -- `(double)n / 1000000.0`
  abbrev pub micro : ℤ → D
  micro n = d.div (d.of_int n) (d.of_int (pos 1000000))

  -- an unsigned integer where a `double` is wanted
  abbrev pub of_unsigned : ℕ → D
  of_unsigned n = d.of_int (pos n)

  -- `-1.0`
  abbrev pub minus_one : D
  minus_one = d.of_int (negsuc 0)
