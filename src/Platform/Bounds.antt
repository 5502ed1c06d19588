-- ===== src/Platform/Bounds.antt =====
-- The lengths of the texts that the helpers on files leave in their buffers.
use thermal_observatory.Base.{
  ℕ, zero, suc, ◌+◌, ◌-◌, ◌≤◌, ◌<◌, Bool, true, false, Option, none, some, ◌≡◌, [], ◌∷◌, arith,
  Bytes, length, take, length-take, ◌>>=◌, >>=-eq-some,
}
use thermal_observatory.Libc.Scan.{line_prefix, fgets, cut_line}
use thermal_observatory.Platform.{Host, read_string}

pub length-take-le {ℓ} :
    {A : Type ℓ} (n : ℕ) (xs : thermal_observatory.Base.List A) → length (take n xs) ≤ n
length-take-le n xs = omega (arith, length-take n xs)

line_prefix-le : (n : ℕ) (s : Bytes) → length (line_prefix n s) ≤ n
unfolding line_prefix
line_prefix-le zero s = omega arith
line_prefix-le (suc n) [] = omega arith
line_prefix-le (suc n) (c ∷ s) = ground (arith, line_prefix-le n s)

cut_line-le : (s : Bytes) → length (cut_line s) ≤ length s
unfolding cut_line
cut_line-le [] = omega arith
cut_line-le (c ∷ s) = ground (arith, cut_line-le s)

fgets-lt : (n : ℕ) (s : Bytes) {line : Bytes} → fgets (suc n) s ≡ some line → length line ≤ n
unfolding fgets
fgets-lt n [] e = cc
fgets-lt n (c ∷ s) e = ground (arith, line_prefix-le (suc n - 1) (c ∷ s))

-- What `read_string` leaves in a buffer has room for its NUL.
pub read_string-lt :
    (host : Host) (path : Bytes) (n : ℕ) {s : Bytes}
    → read_string host path (suc n) ≡ some s
    → length s < suc n
unfolding read_string
read_string-lt host path n {s} e =
    let (contents, _, e1) = >>=-eq-some (host.file path) _ e in
    let (line, e2, e3) = >>=-eq-some (fgets (suc n) contents) _ e1 in
    ground (arith, fgets-lt n contents e2, cut_line-le line)
