-- ===== src/Json/Tree/Numbers.antt =====
-- JSON numbers, after the grammar of RFC 8259, as a machine that reads one byte after the other.
use thermal_observatory.Base.{
  ℕ, Bool, Bool-cases, true, false, ◌&&◌, ◌||◌, ◌≡◌, refl, ap, inl, inr, [], ◌∷◌, ◌++◌, leb, ◌==◌,
  if◌then◌else◌, Bytes,
}

pub data Symbol : Type 0 where
  nought nonzero minus plus dot mark other : Symbol

unfoldable pub symbol : ℕ → Symbol
symbol c =
    if c == b'0'
    then nought
    else if leb b'1' c && leb c b'9'
    then nonzero
    else if c == b'-'
    then minus
    else if c == b'+'
    then plus
    else if c == b'.'
    then dot
    else if c == b'e' || c == b'E'
    then mark
    else other

-- What was read of a number: nothing, its sign, a single 0, digits, digits and the point, and so on.
pub data State : Type 0 where
  start signed_start single whole point fraction exponent exponent_sign power bad : State

unfoldable pub step : State → Symbol → State
step start minus = signed_start
step start nought = single
step start nonzero = whole
step signed_start nought = single
step signed_start nonzero = whole
step single dot = point
step single mark = exponent
step whole nought = whole
step whole nonzero = whole
step whole dot = point
step whole mark = exponent
step point nought = fraction
step point nonzero = fraction
step fraction nought = fraction
step fraction nonzero = fraction
step fraction mark = exponent
step exponent plus = exponent_sign
step exponent minus = exponent_sign
step exponent nought = power
step exponent nonzero = power
step exponent_sign nought = power
step exponent_sign nonzero = power
step power nought = power
step power nonzero = power
step _ _ = bad

unfoldable pub run : State → Bytes → State
run state [] = state
run state (c ∷ s) = run (step state (symbol c)) s

unfoldable pub accepts : State → Bool
accepts single = true
accepts whole = true
accepts fraction = true
accepts power = true
accepts _ = false

unfoldable pub is_number : Bytes → Bool
is_number s = accepts (run start s)

unfoldable pub is_other : Symbol → Bool
is_other other = true
is_other _ = false

abbrev with_front : ℕ → Bytes × Bytes → Bytes × Bytes
with_front c (text, rest) = (c ∷ text, rest)

-- The bytes in front that can stand in a number, and what is behind them.
unfoldable pub split_number : Bytes → Bytes × Bytes
split_number [] = ([], [])
split_number (c ∷ s) =
    let later = split_number s in if is_other (symbol c) then ([], c ∷ s) else with_front c later

-- A text that does not go on with a byte of a number.
unfoldable pub ends_number : Bytes → Bool
ends_number [] = true
ends_number (c ∷ s) = is_other (symbol c)

pub step-other :
    (state : State) (symbol : Symbol) → is_other symbol ≡ true → step state symbol ≡ bad
unfolding step is_other
step-other start other h = refl
step-other signed_start other h = refl
step-other single other h = refl
step-other whole other h = refl
step-other point other h = refl
step-other fraction other h = refl
step-other exponent other h = refl
step-other exponent_sign other h = refl
step-other power other h = refl
step-other bad other h = refl
step-other state _ h = cc

run-bad : (s : Bytes) → run bad s ≡ bad
unfolding run step
run-bad [] = refl
run-bad (c ∷ s) = run-bad s

pub not_accepted : (s : Bytes) → accepts (run bad s) ≡ false
unfolding accepts
not_accepted s = rw (run-bad s) refl

-- A number is split off whole from a text that does not go on with a byte of a number.
pub split_number-append :
    (state : State) (s rest : Bytes)
    → accepts (run state s) ≡ true
    → ends_number rest ≡ true
    → split_number (s ++ rest) ≡ (s, rest)
unfolding split_number run ends_number
split_number-append state [] [] h e = refl
split_number-append state [] (c ∷ rest) h e = rw e refl
split_number-append state (c ∷ s) rest h e = elim (Bool-cases (is_other (symbol c))) [
  | inl off ↦
      let dead : step state (symbol c) ≡ bad = step-other state (symbol c) off in
      let refused = not_accepted s in cc (refused, rw dead at h)
  | inr on ↦ rw on (ap (with_front c) (split_number-append (step state (symbol c)) s rest h e))
]

-- A number begins with a byte of a number.
pub is_number-front :
    (s : Bytes)
    → is_number s ≡ true
    → (c : ℕ) × (t : Bytes) × (s ≡ c ∷ t) × (is_other (symbol c) ≡ false)
unfolding is_number run accepts
is_number-front [] h = cc
is_number-front (c ∷ s) h = elim (Bool-cases (is_other (symbol c))) [
  | inl off ↦
      let dead : step start (symbol c) ≡ bad = step-other start (symbol c) off in
      let refused = not_accepted s in cc (refused, rw dead at h)
  | inr on ↦ (c, s, refl, on)
]

is_number_runs :
    (is_number (b'-' ∷ b'0' ∷ b'.' ∷ b'5' ∷ []) ≡ true)
    × (is_number (b'0' ∷ b'1' ∷ []) ≡ false)
    × (is_number (b'1' ∷ b'e' ∷ b'+' ∷ b'9' ∷ []) ≡ true)
    × (is_number (b'n' ∷ b'a' ∷ b'n' ∷ []) ≡ false)
unfolding is_number run step symbol accepts
is_number_runs = (refl, refl, refl, refl)
