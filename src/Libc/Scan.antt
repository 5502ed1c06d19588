-- ===== src/Libc/Scan.antt =====
-- The C library's searching and scanning of texts, as far as the collectors use it.
use Prim.Native.Nat.{min}
use thermal_observatory.Base.{
  ℕ, zero, suc, ◌+◌, ◌-◌, ◌*◌, ◌%◌, ◌^◌, Bool, true, false, ◌&&◌, ◌||◌, ◌≡◌, refl, Option, none,
  some, [], ◌∷◌, leb, ltb, ◌==◌, if◌then◌else◌, Bytes, codes, ◌>>=◌,
}
use thermal_observatory.Base.Int.{ℤ, pos, negsuc}

-- `isspace` in the C locale
unfoldable pub is_space : ℕ → Bool
is_space c = c == 32 || leb 9 c && leb c 13

is_digit : ℕ → Bool
is_digit c = leb b'0' c && leb c b'9'

unfoldable pub skip_space : Bytes → Bytes
unfolding is_space
skip_space [] = []
skip_space (c ∷ s) = let rest = skip_space s in if is_space c then rest else c ∷ s

-- The value of the leading digits, if there is one.
unfoldable pub scan_digits : Option ℕ → Bytes → Option ℕ
unfolding is_digit
scan_digits acc [] = acc
scan_digits none (c ∷ s) =
    let more = scan_digits (some (c - b'0')) s in if is_digit c then more else none
scan_digits (some n) (c ∷ s) =
    let more = scan_digits (some (n * 10 + (c - b'0'))) s in if is_digit c then more else some n

abbrev long_max : ℕ
long_max = 2 ^ 63 - 1

-- A value out of range is taken to the nearer end, as glibc does.
unfoldable pub positive_long : ℕ → ℤ
positive_long n = pos (min n long_max)

unfoldable pub negative_long : ℕ → ℤ
negative_long zero = pos 0
negative_long (suc n) = negsuc (min n long_max)

-- "%ld": the value, or `none` if the text begins with no number.
unfoldable pub scan_signed : Bytes → Option ℤ
unfolding scan_digits positive_long negative_long
scan_signed [] = none
scan_signed (c ∷ s) =
    if c == b'-'
    then (do n ← scan_digits none s; some (negative_long n))
    else if c == b'+'
    then (do n ← scan_digits none s; some (positive_long n))
    else do n ← scan_digits none (c ∷ s); some (positive_long n)

unfoldable pub scan_long : Bytes → Option ℤ
unfolding scan_signed skip_space
scan_long s = scan_signed (skip_space s)

-- `(int)` of a `long`
unfoldable pub to_int : ℤ → ℤ
to_int (pos n) =
    if ltb (n % 2 ^ 32) (2 ^ 31) then pos (n % 2 ^ 32) else negsuc (2 ^ 32 - 1 - n % 2 ^ 32)
to_int (negsuc n) =
    if ltb (n % 2 ^ 32) (2 ^ 31) then negsuc (n % 2 ^ 32) else pos (2 ^ 32 - 1 - n % 2 ^ 32)

-- What stands behind `p` in a text that begins with it.
unfoldable pub strip_prefix : Bytes → Bytes → Option Bytes
strip_prefix [] s = some s
strip_prefix (p ∷ ps) [] = none
strip_prefix (p ∷ ps) (c ∷ s) = if p == c then strip_prefix ps s else none

-- "%[^x]" with no width: the bytes in front of the first `stop`
unfoldable pub take_until : ℕ → Bytes → Bytes
take_until stop [] = []
take_until stop (c ∷ s) = if c == stop then [] else c ∷ take_until stop s

-- `strstr(s, needle)`: what stands in front of the first occurrence, and behind it
unfoldable pub split_first : Bytes → Bytes → Option (Bytes × Bytes)
unfolding strip_prefix
split_first needle [] = none
split_first needle (c ∷ s) =
    let later = split_first needle s in
    elim (strip_prefix needle (c ∷ s)) [
      | some rest ↦ some ([], rest)
      | none ↦ elim later [ none ↦ none | some (front, rest) ↦ some (c ∷ front, rest) ]
    ]

-- `strstr(s, needle) != NULL`
unfoldable pub contains : Bytes → Bytes → Bool
unfolding split_first
contains s needle = elim (split_first needle s) [ none ↦ false | some _ ↦ true ]

-- `strrchr(s, c) + 1`
unfoldable pub after_last : ℕ → Bytes → Option Bytes
after_last c [] = none
after_last c (b ∷ s) = elim (after_last c s) [
  | some t ↦ some t
  | none ↦ if b == c then some s else none
]

-- The first line, its newline included, and at most `n` bytes of it.
unfoldable pub line_prefix : ℕ → Bytes → Bytes
line_prefix zero s = []
line_prefix (suc n) [] = []
line_prefix (suc n) (c ∷ s) = if c == b'\n' then c ∷ [] else c ∷ line_prefix n s

-- `fgets(buf, size, fp)` at the beginning of a file: `none` at its end
unfoldable pub fgets : ℕ → Bytes → Option Bytes
unfolding line_prefix
fgets size [] = none
fgets size (c ∷ s) = some (line_prefix (size - 1) (c ∷ s))

-- `buf[strcspn(buf, "\n")] = '\0'`: the text in front of the first newline or NUL
unfoldable pub cut_line : Bytes → Bytes
cut_line [] = []
cut_line (c ∷ s) = if c == b'\n' || c == 0 then [] else c ∷ cut_line s

-- `strtok(s, x)`: the token and what is left for the next call
unfoldable pub skip_byte : ℕ → Bytes → Bytes
skip_byte x [] = []
skip_byte x (c ∷ s) = let rest = skip_byte x s in if c == x then rest else c ∷ s

unfoldable pub drop_past : ℕ → Bytes → Bytes
drop_past x [] = []
drop_past x (c ∷ s) = let rest = drop_past x s in if c == x then s else rest

unfoldable pub strtok : ℕ → Bytes → Option (Bytes × Bytes)
unfolding take_until drop_past skip_byte
strtok x s = elim (skip_byte x s) [
  | [] ↦ none
  | c ∷ t ↦ some (take_until x (c ∷ t), drop_past x (c ∷ t))
]

scan_runs :
    (scan_long (codes " 45000\n") ≡ some (pos 45000))
    × (scan_long (codes "-5000") ≡ some (negsuc 4999))
    × (scan_long (codes "abc") ≡ none)
    × (split_first (codes "_label") (codes "temp2_label") ≡ some (codes "temp2", []))
    × (after_last b'/' (codes "/a/b/c_x") ≡ some (codes "c_x"))
    × (strtok b'|' (codes "|a b|c") ≡ some (codes "a b", codes "c"))
    × (fgets 64 (codes "Core 0\nx") ≡ some (codes "Core 0\n"))
unfolding scan_long split_first after_last strtok fgets
scan_runs = (refl, refl, refl, refl, refl, refl, refl)
