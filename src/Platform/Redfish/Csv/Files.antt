-- ===== src/Platform/Redfish/Csv/Files.antt =====
-- How `fgets` of src/platform/redfish.c reads a file of comma-separated values.
use thermal_observatory.Base.{
  ℕ, zero, suc, ◌+◌, ◌-◌, ◌≤◌, ◌<◌, ◌≡◌, refl, sym, ap, ◌∙◌, List, [], ◌∷◌, ◌++◌, map, append_assoc,
  Bytes, codes, length, length-append, drop, All, arith,
}
use thermal_observatory.Libc.Lines.{read_lines, lines}
use thermal_observatory.Libc.Scan.{line_prefix}
use thermal_observatory.Platform.Redfish.{Row}
use thermal_observatory.Platform.Redfish.Csv.{
  csv_line, csv, IsRow, Lacks, csv_line-Lacks, field-Lacks,
}

-- `fgets` gives back the lines of a text.
line_prefix-line :
    (n : ℕ) (body rest : Bytes)
    → Lacks b'\n' body
    → length body < n
    → line_prefix n (body ++ b'\n' ∷ rest) ≡ body ++ codes "\n"
unfolding line_prefix
line_prefix-line zero body rest h lt = absurd (omega arith)
line_prefix-line (suc n) [] rest h lt = refl
line_prefix-line (suc n) (c ∷ body) rest (here, h) lt =
    rw here (ap (◌∷◌ c) (line_prefix-line n body rest h (omega arith)))

drop-length : (front back : Bytes) → drop (length front) (front ++ back) ≡ back
drop-length [] back = refl
drop-length (c ∷ front) back = drop-length front back

read_lines_step :
    (fuel size : ℕ) (s : Bytes)
    → 0 < length s
    → read_lines (suc fuel) size s
      ≡ line_prefix (size - 1) s ∷ read_lines fuel size (drop (length (line_prefix (size - 1) s)) s)
unfolding read_lines
read_lines_step fuel size [] filled = absurd (omega arith)
read_lines_step fuel size (c ∷ s) filled = refl

read_lines-line :
    (fuel size : ℕ) (body rest : Bytes)
    → Lacks b'\n' body
    → length body + 1 < size
    → read_lines (suc fuel) size (body ++ b'\n' ∷ rest)
      ≡ (body ++ codes "\n") ∷ read_lines fuel size rest
read_lines-line fuel size body rest h lt =
    let filled : 0 < length (body ++ b'\n' ∷ rest) =
      omega (arith, length-append body (b'\n' ∷ rest)) in
    let line = body ++ codes "\n" in
    let back : drop (length line) (body ++ b'\n' ∷ rest) ≡ rest =
      ap (drop (length line)) (sym (append_assoc body (codes "\n") rest)) ∙ drop-length line rest in
    read_lines_step fuel size (body ++ b'\n' ∷ rest) filled
    ∙ ap (λ l. l ∷ read_lines fuel size (drop (length l) (body ++ b'\n' ∷ rest)))
        (line_prefix-line (size - 1) body rest h (omega arith))
    ∙ ap (λ r. line ∷ read_lines fuel size r) back

-- The line of a row without its newline.
abbrev body_of : Row → Bytes
body_of row =
    row.name_field
    ++ (b',' ∷ (row.type_field ++ (b',' ∷ (row.value_field ++ (b',' ∷ row.unit_field)))))

csv_line-body : (row : Row) → csv_line row ≡ body_of row ++ codes "\n"
csv_line-body row = simp (append_assoc)

body_of-Lacks : (row : Row) → IsRow row → Lacks b'\n' (body_of row)
body_of-Lacks row h =
    csv_line-Lacks b'\n' row.name_field row.type_field row.value_field refl
      (field-Lacks row.name_field h.name_is_field).1 (field-Lacks row.type_field h.type_is_field).1
      (field-Lacks row.value_field h.value_is_field).1 row.unit_field
      (field-Lacks row.unit_field h.unit_is_field).1

csv-body : (row : Row) (rows : List Row) → csv (row ∷ rows) ≡ body_of row ++ b'\n' ∷ csv rows
csv-body row rows =
    ap (λ l. l ++ csv rows) (csv_line-body row) ∙ append_assoc (body_of row) (codes "\n") (csv rows)

length-csv_line : (row : Row) → length (csv_line row) ≡ length (body_of row) + 1
length-csv_line row = ap length (csv_line-body row) ∙ length-append (body_of row) (codes "\n")

length-csv : (row : Row) (rows : List Row) → length (csv rows) < length (csv (row ∷ rows))
length-csv row rows = omega (arith, length-csv_line row, length-append (csv_line row) (csv rows))

read_lines-csv :
    (fuel : ℕ) (rows : List Row)
    → All IsRow rows
    → length (csv rows) ≤ fuel
    → read_lines fuel 512 (csv rows) ≡ map csv_line rows
unfolding read_lines
read_lines-csv zero [] h enough = refl
read_lines-csv (suc fuel) [] h enough = refl
read_lines-csv zero (row ∷ rows) (here, h) enough = absurd (omega (arith, length-csv row rows))
read_lines-csv (suc n) (row ∷ rows) (here, h) enough =
    let body_fits : length (body_of row) + 1 < 512 =
      omega (arith, here.fits_line, length-csv_line row) in
    ap (read_lines (suc n) 512) (csv-body row rows)
    ∙ read_lines-line n 512 (body_of row) (csv rows) (body_of-Lacks row here) body_fits
    ∙ ap (λ l. l ∷ read_lines n 512 (csv rows)) (sym (csv_line-body row))
    ∙ ap (◌∷◌ (csv_line row)) (read_lines-csv n rows h (omega (arith, length-csv row rows)))

-- The loop over `fgets` reads a file of rows one line at a time.
pub lines-csv : (rows : List Row) → All IsRow rows → lines 512 (csv rows) ≡ map csv_line rows
unfolding lines
lines-csv rows h = read_lines-csv (length (csv rows)) rows h (omega arith)
