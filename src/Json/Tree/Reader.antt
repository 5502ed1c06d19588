-- ===== src/Json/Tree/Reader.antt =====
-- A strict reader of compact JSON texts, written from RFC 8259 with no reference to the formatter.
use thermal_observatory.Base.{
  ℕ, zero, suc, ◌+◌, Bool, true, false, ◌&&◌, Option, none, some, [], ◌∷◌, ◌==◌, if◌then◌else◌,
  Bytes, codes, length, ◌>>=◌,
}
use thermal_observatory.Json.Tree.{
  Json, bool, null, num, str, arr, obj, Items, nil, cons, Fields, end, field,
}
use thermal_observatory.Json.Tree.Numbers.{is_number, split_number}
use thermal_observatory.Json.Tree.Strings.{read_string, is_text}
use thermal_observatory.Libc.Scan.{strip_prefix}

-- Which value a text begins with, and what is behind its first byte.
pub data Start : Type 0 where
  says_true says_false says_null opens_array opens_object : Bytes → Start
  opens_string opens_number : Start

unfoldable pub first : Bytes → Start
first [] = opens_number
first (c ∷ s) =
    if c == b'"'
    then opens_string
    else if c == b'['
    then opens_array s
    else if c == b'{'
    then opens_object s
    else if c == b't'
    then says_true s
    else if c == b'f'
    then says_false s
    else if c == b'n'
    then says_null s
    else opens_number

-- What is behind a byte that a text has to begin with.
unfoldable pub after_byte : ℕ → Bytes → Option Bytes
after_byte c [] = none
after_byte c (b ∷ s) = if b == c then some s else none

-- The comma in front of every element but the first.
unfoldable pub after_comma : Bool → Bytes → Option Bytes
after_comma false s = some s
after_comma true s = after_byte b',' s

unfoldable pub read_word : Bytes → Json → Bytes → Option (Json × Bytes)
read_word rest_of_word v s = do rest ← strip_prefix rest_of_word s; some (v, rest)

unfoldable pub read_str : Bytes → Option (Json × Bytes)
read_str s = do (text, rest) ← read_string s; some (str text, rest)

abbrev checked : Bytes × Bytes → Option (Json × Bytes)
checked (text, rest) = if is_number text then some (num text, rest) else none

unfoldable pub read_num : Bytes → Option (Json × Bytes)
read_num s = checked (split_number s)

unfoldable pub read_key : Bytes → Option (Bytes × Bytes)
read_key s = do (key, rest) ← read_string s; behind ← after_byte b':' rest; some (key, behind)

-- With a unit of fuel for each value and each element.
unfoldable mutual
  pub read_value : ℕ → Bytes → Option (Json × Bytes)
  read_value zero s = none
  read_value (suc n) s = elim (first s) [
    | says_true t ↦ read_word (codes "rue") (bool true) t
    | says_false t ↦ read_word (codes "alse") (bool false) t
    | says_null t ↦ read_word (codes "ull") null t
    | opens_string ↦ read_str s
    | opens_number ↦ read_num s
    | opens_array t ↦ do (xs, rest) ← read_items n false t; some (arr xs, rest)
    | opens_object t ↦ do (fs, rest) ← read_fields n false t; some (obj fs, rest)
  ]

  pub read_items : ℕ → Bool → Bytes → Option (Items × Bytes)
  read_items zero later s = none
  read_items (suc n) later s = elim (after_byte b']' s) [
    | some rest ↦ some (nil, rest)
    | none ↦ do
      here ← after_comma later s
      (x, behind) ← read_value n here
      (xs, rest) ← read_items n true behind
      some (cons x xs, rest)
  ]

  pub read_fields : ℕ → Bool → Bytes → Option (Fields × Bytes)
  read_fields zero later s = none
  read_fields (suc n) later s = elim (after_byte b'}' s) [
    | some rest ↦ some (end, rest)
    | none ↦ do
      here ← after_comma later s
      (key, there) ← read_key here
      (x, behind) ← read_value n there
      (fs, rest) ← read_fields n true behind
      some (field key x fs, rest)
  ]

-- A text that is one JSON value and nothing else.
unfoldable pub read_json : Bytes → Option Json
read_json s = do
  (v, rest) ← read_value (length s + 1) s
  elim rest [ [] ↦ some v | c ∷ more ↦ none ]

-- The values whose text is JSON: each string is a text and each number a number.
unfoldable mutual
  pub is_readable : Json → Bool
  is_readable (bool b) = true
  is_readable null = true
  is_readable (num text) = is_number text
  is_readable (str s) = is_text s
  is_readable (arr xs) = are_readable xs
  is_readable (obj fs) = have_readable fs

  pub are_readable : Items → Bool
  are_readable nil = true
  are_readable (cons x xs) = is_readable x && are_readable xs

  pub have_readable : Fields → Bool
  have_readable end = true
  have_readable (field key x fs) = is_text key && (is_readable x && have_readable fs)
