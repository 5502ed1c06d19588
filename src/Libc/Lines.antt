-- ===== src/Libc/Lines.antt =====
-- `while (fgets(line, size, fp))`: the pieces that a file is read in.
use thermal_observatory.Base.{
  ℕ, zero, suc, ◌-◌, true, false, ◌≡◌, refl, List, [], ◌∷◌, Bytes, codes, length, drop,
}
use thermal_observatory.Libc.Scan.{line_prefix, is_space}

-- One unit of fuel for each call of `fgets`.
unfoldable pub read_lines : ℕ → ℕ → Bytes → List Bytes
unfolding line_prefix
read_lines zero size s = []
read_lines (suc fuel) size [] = []
read_lines (suc fuel) size (c ∷ s) =
    let line = line_prefix (size - 1) (c ∷ s) in
    line ∷ read_lines fuel size (drop (length line) (c ∷ s))

-- A file has at most as many lines as bytes.
unfoldable pub lines : ℕ → Bytes → List Bytes
unfolding read_lines
lines size s = read_lines (length s) size s

-- `*s` of a prefix that is white space
unfoldable pub leading_space : Bytes → Bytes
unfolding is_space
leading_space [] = []
leading_space (c ∷ s) = elim (is_space c) [ true ↦ c ∷ leading_space s | false ↦ [] ]

-- The text without the white space at its end.
abbrev pub put_front : ℕ → Bytes → Bytes
put_front c [] = elim (is_space c) [ true ↦ [] | false ↦ c ∷ [] ]
put_front c (b ∷ s) = c ∷ b ∷ s

unfoldable pub trim_end : Bytes → Bytes
trim_end [] = []
trim_end (c ∷ s) = put_front c (trim_end s)

line_runs :
    lines 6 (codes "abc\nabcdefgh\n\nx")
    ≡ codes "abc\n" ∷ codes "abcde" ∷ codes "fgh\n" ∷ codes "\n" ∷ codes "x" ∷ []
unfolding lines
line_runs = refl
