-- ===== src/Monitor/Options/Interval.antt =====
-- What holds of the options after every list of arguments.
use thermal_observatory.Base.{
  Bool-cases, true, false, ◌≡◌, refl, subst, inl, inr, Option, some, some-injective, List, [], ◌∷◌,
  Bytes, ◌>>=◌, >>=-eq-some,
}
use thermal_observatory.Base.Int.{pos, ltb_ℤ}
use thermal_observatory.Monitor.Options.{
  Options, Choice, json, prometheus, textfile, watching, every, experimental, help, other, choose,
  atoi, interval_of, set_flag, take_value, read_arguments,
}

-- An interval that `sleep` waits for at least a second.
abbrev pub Waits : Options → Type 0
Waits o = ltb_ℤ o.interval (pos 1) ≡ false

interval_of-Waits : (s : Bytes) → ltb_ℤ (interval_of s) (pos 1) ≡ false
unfolding interval_of
interval_of-Waits s = elim (Bool-cases (ltb_ℤ (atoi s) (pos 1))) [
  | inl less ↦ rw less refl
  | inr more ↦ rw more more
]

set_flag-Waits : (c : Choice) (o o' : Options) → Waits o → set_flag c o ≡ some o' → Waits o'
unfolding set_flag
set_flag-Waits json o o' h e = subst Waits (some-injective _ _ e) h
set_flag-Waits prometheus o o' h e = subst Waits (some-injective _ _ e) h
set_flag-Waits textfile o o' h e = subst Waits (some-injective _ _ e) h
set_flag-Waits watching o o' h e = subst Waits (some-injective _ _ e) h
set_flag-Waits every o o' h e = subst Waits (some-injective _ _ e) h
set_flag-Waits experimental o o' h e = subst Waits (some-injective _ _ e) h
set_flag-Waits help o o' h e = cc
set_flag-Waits other o o' h e = subst Waits (some-injective _ _ e) h

-- A loop over arguments that keeps the interval.
abbrev KeepsWaits : (Options → Option Options) → Type 0
KeepsWaits f = (o o' : Options) → Waits o → f o ≡ some o' → Waits o'

flag_then-Waits :
    (c : Choice) (next : Options → Option Options)
    → KeepsWaits next
    → KeepsWaits (λ o. set_flag c o >>= next)
flag_then-Waits c next keeps o o' h e =
    let (u, e1, e2) = >>=-eq-some (set_flag c o) next e in keeps u o' (set_flag-Waits c o u h e1) e2

take_value-Waits :
    (c : Choice) (value : Bytes) (after next : Options → Option Options)
    → KeepsWaits after
    → KeepsWaits next
    → KeepsWaits (take_value c value after next)
unfolding take_value
take_value-Waits textfile value after next ka kn o o' h e = ka _ o' h e
take_value-Waits every value after next ka kn o o' h e = ka _ o' (interval_of-Waits value) e
take_value-Waits json value after next ka kn o o' h e = flag_then-Waits json next kn o o' h e
take_value-Waits prometheus value after next ka kn o o' h e =
    flag_then-Waits prometheus next kn o o' h e
take_value-Waits watching value after next ka kn o o' h e =
    flag_then-Waits watching next kn o o' h e
take_value-Waits experimental value after next ka kn o o' h e =
    flag_then-Waits experimental next kn o o' h e
take_value-Waits help value after next ka kn o o' h e = flag_then-Waits help next kn o o' h e
take_value-Waits other value after next ka kn o o' h e = flag_then-Waits other next kn o o' h e

-- Whatever the arguments are, with numbers that are 0, negative, too large or no numbers at all: if
-- the interval is at least 1 before the loop over them, it is at least 1 in the options that the
-- loop leaves.
pub read_arguments-Waits : (arguments : List Bytes) → KeepsWaits (read_arguments arguments)
unfolding read_arguments
read_arguments-Waits [] o o' h e = subst Waits (some-injective _ _ e) h
read_arguments-Waits (arg ∷ []) o o' h e = set_flag-Waits (choose false arg) o o' h e
read_arguments-Waits (arg ∷ value ∷ rest) o o' h e =
    take_value-Waits (choose true arg) value (read_arguments rest) (read_arguments (value ∷ rest))
      (read_arguments-Waits rest) (read_arguments-Waits (value ∷ rest)) o o' h e
