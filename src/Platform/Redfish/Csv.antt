-- ===== src/Platform/Redfish/Csv.antt =====
-- Texts of comma-separated values, and how `strtok` takes a line of them apart, as in
-- src/platform/redfish.c.
pub mod Files
use thermal_observatory.Base.{
  ℕ, zero, suc, ◌+◌, ◌-◌, ◌≤◌, ◌<◌, Bool, Bool-cases, true, false, not, ◌&&◌, ◌≡◌, refl, sym, ap,
  ◌∙◌, inl, inr, some, List, [], ◌∷◌, ◌++◌, map, append-nil, append_assoc, ◌==◌, Bytes, codes,
  length, length-append, take, drop, All, All-append, arith, and_iff, if◌then◌else◌,
}
use thermal_observatory.Base.Collect.{take-append}
use thermal_observatory.Libc.Lines.{read_lines, lines, trim_end, put_front}
use thermal_observatory.Libc.Scan.{
  is_space, skip_space, take_until, line_prefix, skip_byte, drop_past, strtok,
}
use thermal_observatory.Platform.Redfish.{trim_copy, Row, row_of_line}

-- A byte that may stand in a field: no comma, no newline and no NUL.
abbrev pub is_inner : ℕ → Bool
is_inner c = not (c == b',') && (not (c == b'\n') && not (c == 0))

abbrev pub all_inner : Bytes → Bool
all_inner [] = true
all_inner (c ∷ s) = is_inner c && all_inner s

-- A field is not empty, since `strtok` skips an empty one.
pub record IsField (s : Bytes) : Type 0 where
  pub filled : 0 < length s
  pub inner : all_inner s ≡ true

-- A line of four fields, its newline included.
abbrev pub csv_line : Row → Bytes
csv_line row =
    row.name_field
    ++ (b','
        ∷ (row.type_field ++ (b',' ∷ (row.value_field ++ (b',' ∷ row.unit_field ++ codes "\n")))))

abbrev pub csv : List Row → Bytes
csv [] = []
csv (row ∷ rows) = csv_line row ++ csv rows

-- A row of proper fields that fits the buffer of a line.
pub record IsRow (row : Row) : Type 0 where
  pub name_is_field : IsField row.name_field
  pub type_is_field : IsField row.type_field
  pub value_is_field : IsField row.value_field
  pub unit_is_field : IsField row.unit_field
  pub fits_line : length (csv_line row) < 512

abbrev pub Lacks : ℕ → Bytes → Type 0
Lacks x = All (λ c. (c == x) ≡ false)

false_of_not : (b : Bool) → not b ≡ true → b ≡ false
false_of_not true h = cc
false_of_not false h = refl

all_inner-Lacks : (s : Bytes) → all_inner s ≡ true → Lacks b',' s × Lacks b'\n' s × Lacks 0 s
all_inner-Lacks [] h = (tt, tt, tt)
all_inner-Lacks (c ∷ s) h =
    let (here, there) = (and_iff (is_inner c) (all_inner s)).0 h in
    let (comma, others) = (and_iff (not (c == b',')) _).0 here in
    let (newline, nul) = (and_iff (not (c == b'\n')) (not (c == 0))).0 others in
    let (commas, newlines, nuls) = all_inner-Lacks s there in
    ((false_of_not _ comma, commas), (false_of_not _ newline, newlines), (false_of_not _ nul, nuls))

module _ (x : ℕ) where
  take_until-stop : (s rest : Bytes) → Lacks x s → take_until x (s ++ x ∷ rest) ≡ s
  unfolding take_until
  take_until-stop [] rest h = ground arith
  take_until-stop (c ∷ s) rest (here, h) = rw here (ap (◌∷◌ c) (take_until-stop s rest h))

  take_until-all : (s : Bytes) → Lacks x s → take_until x s ≡ s
  unfolding take_until
  take_until-all [] h = refl
  take_until-all (c ∷ s) (here, h) = rw here (ap (◌∷◌ c) (take_until-all s h))

  drop_past-stop : (s rest : Bytes) → Lacks x s → drop_past x (s ++ x ∷ rest) ≡ rest
  unfolding drop_past
  drop_past-stop [] rest h = ground arith
  drop_past-stop (c ∷ s) rest (here, h) = rw here (drop_past-stop s rest h)

  drop_past-all : (s : Bytes) → Lacks x s → drop_past x s ≡ []
  unfolding drop_past
  drop_past-all [] h = refl
  drop_past-all (c ∷ s) (here, h) = rw here (drop_past-all s h)

  -- `strtok` at a field in front of a separator, and at the last field.
  strtok-stop :
      (s rest : Bytes) → 0 < length s → Lacks x s → strtok x (s ++ x ∷ rest) ≡ some (s, rest)
  unfolding strtok skip_byte
  strtok-stop [] rest filled h = absurd (omega arith)
  strtok-stop (c ∷ s) rest filled h =
      rw (h.0, strtok)
        (ap (λ front. some (front, drop_past x (c ∷ s ++ x ∷ rest)))
            (take_until-stop (c ∷ s) rest h)
          ∙ ap (λ back. some (c ∷ s, back)) (drop_past-stop (c ∷ s) rest h))

  strtok-all : (s : Bytes) → 0 < length s → Lacks x s → strtok x s ≡ some (s, [])
  unfolding strtok skip_byte
  strtok-all [] filled h = absurd (omega arith)
  strtok-all (c ∷ s) filled h =
      rw (h.0, strtok)
        (ap (λ front. some (front, drop_past x (c ∷ s))) (take_until-all (c ∷ s) h)
          ∙ ap (λ back. some (c ∷ s, back)) (drop_past-all (c ∷ s) h))

-- A row as `strtok` finds it: the newline stays with the last field.
abbrev pub with_newline : Row → Row
with_newline row = record row { unit_field = row.unit_field ++ codes "\n" }

newline-Lacks : (x : ℕ) → (b'\n' == x) ≡ false → (s : Bytes) → Lacks x s → Lacks x (s ++ codes "\n")
newline-Lacks x other s h = All-append _ s (codes "\n") h (other, tt)

pub field-Lacks : (s : Bytes) → IsField s → Lacks b',' s × Lacks b'\n' s × Lacks 0 s
field-Lacks s field = all_inner-Lacks s field.inner

pub csv_line-Lacks :
    (x : ℕ) (a b c : Bytes)
    → (b',' == x) ≡ false
    → Lacks x a
    → Lacks x b
    → Lacks x c
    → (d : Bytes) → Lacks x d
    → Lacks x (a ++ (b',' ∷ (b ++ (b',' ∷ (c ++ (b',' ∷ d))))))
csv_line-Lacks x a b c comma ha hb hc d hd =
    All-append _ a _ ha (comma, All-append _ b _ hb (comma, All-append _ c _ hc (comma, hd)))

pub row_of_line-csv_line :
    (row : Row) → IsRow row → row_of_line (csv_line row) ≡ some (with_newline row)
unfolding row_of_line
row_of_line-csv_line row h =
    let (ca, na, za) = field-Lacks row.name_field h.name_is_field in
    let (cb, nb, zb) = field-Lacks row.type_field h.type_is_field in
    let (cc', nc, zc) = field-Lacks row.value_field h.value_is_field in
    let (cd, nd, zd) = field-Lacks row.unit_field h.unit_is_field in
    let unit = row.unit_field ++ codes "\n" in
    let filled : 0 < length unit = omega (arith, length-append row.unit_field (codes "\n")) in
    rw
      (
        take_until-all 0 (csv_line row) (
            csv_line-Lacks 0 row.name_field row.type_field row.value_field refl za zb zc unit
              (newline-Lacks 0 refl row.unit_field zd)),
        strtok-stop b',' row.name_field _ h.name_is_field.filled ca,
        strtok-stop b',' row.type_field _ h.type_is_field.filled cb,
        strtok-stop b',' row.value_field _ h.value_is_field.filled cc',
        strtok-all b',' unit filled (newline-Lacks b',' refl row.unit_field cd),
      )
      refl
