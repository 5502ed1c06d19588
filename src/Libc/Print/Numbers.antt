-- ===== src/Libc/Print/Numbers.antt =====
-- printf's integers are JSON numbers.
use Prim.Native.Nat.{◌/◌}
use thermal_observatory.Base.{
  ℕ, zero, suc, ◌<◌, ◌≤◌, ◌%◌, Bool-cases, true, ◌≡◌, ◌∙◌, refl, ap, inl, inr, [], ◌∷◌, ltb, Bytes,
  arith,
}
use thermal_observatory.Base.Int.{ℤ, pos, negsuc}
use thermal_observatory.Json.Tree.Numbers.{
  State, start, signed_start, whole, step, symbol, run, accepts, is_number,
}
use thermal_observatory.Libc.Print.{digit, write_digits, decimal, signed}

-- A state in which a number's first digit is awaited.
abbrev AwaitsDigit : State → Type 0
AwaitsDigit state = (k : ℕ) → 0 < k → k < 10 → step state (symbol (digit k)) ≡ whole

start-AwaitsDigit : AwaitsDigit start
unfolding step symbol digit
start-AwaitsDigit k h lt = ground arith

signed_start-AwaitsDigit : AwaitsDigit signed_start
unfolding step symbol digit
signed_start-AwaitsDigit k h lt = ground arith

step-whole : (k : ℕ) → k < 10 → step whole (symbol (digit k)) ≡ whole
unfolding step symbol digit
step-whole k lt = ground arith

run-write_digits :
    (state : State)
    → AwaitsDigit state
    → (fuel n : ℕ) (out : Bytes) → 0 < n
    → n < fuel
    → run whole out ≡ whole
    → run state (write_digits 10 fuel n out) ≡ whole
unfolding write_digits run digit
run-write_digits state awaits zero n out h lt ends = absurd (omega arith)
run-write_digits state awaits (suc fuel) n out h lt ends = elim (Bool-cases (ltb n 10)) [
  | inl small ↦
      let begun = awaits n h (ground arith) in
      rw small (ap (λ t. run t out) (rw small at begun) ∙ ends)
  | inr large ↦
      let big : 10 ≤ n = ground arith in
      rw large (
        run-write_digits state awaits fuel (n / 10) (digit (n % 10) ∷ out) (omega arith)
          (omega arith) (ap (λ t. run t out) (step-whole (n % 10) (omega arith)) ∙ ends))
]

run-decimal : (state : State) → AwaitsDigit state → (n : ℕ) → 0 < n → run state (decimal n) ≡ whole
unfolding decimal run
run-decimal state awaits n h = run-write_digits state awaits (suc n) n [] h (omega arith) refl

pub is_number-decimal : (n : ℕ) → is_number (decimal n) ≡ true
unfolding is_number accepts decimal run step symbol
is_number-decimal zero = refl
is_number-decimal (suc n) = ap accepts (run-decimal start start-AwaitsDigit (suc n) (omega arith))

pub is_number-signed : (n : ℤ) → is_number (signed n) ≡ true
unfolding signed is_number run step symbol accepts
is_number-signed (pos n) = is_number-decimal n
is_number-signed (negsuc n) =
    ap accepts (run-decimal signed_start signed_start-AwaitsDigit (suc n) (omega arith))
