-- ===== src/Json/Tree/RoundTrip.antt =====
-- The text of a readable value, in front of a rest, reads back as the value and the rest.
pub mod Whole
use thermal_observatory.Base.{
  ℕ, zero, suc, ◌+◌, ◌≤◌, ◌<◌, Bool, Bool-cases, true, false, ◌&&◌, ◌≡◌, refl, ap, inl, inr, Option,
  none, some, [], ◌∷◌, ◌++◌, Bytes, codes, length, length-append, arith, ◌>>=◌,
}
use thermal_observatory.Json.Tree.{
  Json, bool, null, num, str, arr, obj, Items, nil, cons, Fields, end, field, print, print_items,
  print_fields, quoted, escaped, escape,
}
use thermal_observatory.Json.Tree.Numbers.{
  is_number, is_number-front, is_other, symbol, split_number, split_number-append, ends_number,
  start, Symbol,
}
use thermal_observatory.Json.Tree.Reader.{
  Start, opens_number, first, after_byte, after_comma, read_word, read_str, read_num, read_key,
  read_value, read_items, read_fields, read_json, is_readable, are_readable, have_readable,
}
use thermal_observatory.Json.Tree.Strings.{is_text, read_string, read_string-quoted}
use thermal_observatory.Libc.Scan.{strip_prefix}

-- The fuel that a value takes.
unfoldable mutual
  pub size : Json → ℕ
  size (bool b) = 0
  size null = 0
  size (num text) = 0
  size (str s) = 0
  size (arr xs) = 1 + size_items xs
  size (obj fs) = 1 + size_fields fs

  pub size_items : Items → ℕ
  size_items nil = 0
  size_items (cons x xs) = 1 + (size x + size_items xs)

  pub size_fields : Fields → ℕ
  size_fields end = 0
  size_fields (field key x fs) = 1 + (size x + size_fields fs)

first-number : (c : ℕ) (s : Bytes) → is_other (symbol c) ≡ false → first (c ∷ s) ≡ opens_number
unfolding first symbol is_other
first-number c s h = ground arith

read_num-number :
    (text rest : Bytes)
    → is_number text ≡ true
    → ends_number rest ≡ true
    → read_num (text ++ rest) ≡ some (num text, rest)
unfolding read_num is_number
read_num-number text rest h e = rw (split_number-append start text rest h e) (rw h refl)

read_str-quoted :
    (s rest : Bytes) → is_text s ≡ true → read_str (quoted s rest) ≡ some (str s, rest)
unfolding read_str
read_str-quoted s rest h = rw (read_string-quoted s rest) (rw h refl)

read_key-quoted :
    (s rest : Bytes) → is_text s ≡ true → read_key (quoted s (b':' ∷ rest)) ≡ some (s, rest)
unfolding read_key after_byte
read_key-quoted s rest h = rw (read_string-quoted s (b':' ∷ rest)) (rw h refl)

-- No value looks like the end of an array.
after_byte-number :
    (c : ℕ) (s : Bytes) → is_other (symbol c) ≡ false → after_byte b']' (c ∷ s) ≡ none
unfolding after_byte symbol is_other
after_byte-number c s h = ground arith

after_byte-print :
    (v : Json) (rest : Bytes) → is_readable v ≡ true → after_byte b']' (print v rest) ≡ none
unfolding after_byte print is_readable
after_byte-print (bool true) rest h = refl
after_byte-print (bool false) rest h = refl
after_byte-print null rest h = refl
after_byte-print (num text) rest h =
    let (c, t, e, on) = is_number-front text h in rw e (after_byte-number c (t ++ rest) on)
after_byte-print (str s) rest h = refl
after_byte-print (arr xs) rest h = refl
after_byte-print (obj fs) rest h = refl

ends_number-items :
    (xs : Items) (rest : Bytes) → ends_number (print_items true xs (b']' ∷ rest)) ≡ true
unfolding ends_number print_items symbol is_other
ends_number-items nil rest = refl
ends_number-items (cons x xs) rest = refl

ends_number-fields :
    (fs : Fields) (rest : Bytes) → ends_number (print_fields true fs (b'}' ∷ rest)) ≡ true
unfolding ends_number print_fields symbol is_other
ends_number-fields end rest = refl
ends_number-fields (field key x fs) rest = refl

abbrev ReadsValue : Json → Type 0
ReadsValue v =
    is_readable v ≡ true
    → (rest : Bytes) → ends_number rest ≡ true
    → (f : ℕ) → size v < f
    → read_value f (print v rest) ≡ some (v, rest)

abbrev ReadsItems : Items → Type 0
ReadsItems xs =
    are_readable xs ≡ true
    → (later : Bool) (rest : Bytes) (f : ℕ) → size_items xs < f
    → read_items f later (print_items later xs (b']' ∷ rest)) ≡ some (xs, rest)

abbrev ReadsFields : Fields → Type 0
ReadsFields fs =
    have_readable fs ≡ true
    → (later : Bool) (rest : Bytes) (f : ℕ) → size_fields fs < f
    → read_fields f later (print_fields later fs (b'}' ∷ rest)) ≡ some (fs, rest)

-- More fuel than a bound is one unit and at least the bound.
with_fuel {ℓ} :
    (Goal : ℕ → Type ℓ) (bound : ℕ)
    → ((less : ℕ) → bound ≤ less → Goal (suc less))
    → (fuel : ℕ) → bound < fuel
    → Goal fuel
with_fuel Goal bound go zero enough = absurd (omega arith)
with_fuel Goal bound go (suc less) enough = go less (omega arith)

pub and-true : (a b : Bool) → (a && b) ≡ true → (a ≡ true) × (b ≡ true)
and-true true b h = (refl, h)
and-true false b h = cc

number-Reads : (text : Bytes) → ReadsValue (num text)
unfolding read_value print is_readable size
number-Reads text h rest e = with_fuel _ _ λ f lt.
    let (c, t, same, on) = is_number-front text h in
    let opens : first (text ++ rest) ≡ opens_number = rw same (first-number c (t ++ rest) on) in
    rw (opens, read_value) (read_num-number text rest h e)

items-Reads : (x : Json) (xs : Items) → ReadsValue x → ReadsItems xs → ReadsItems (cons x xs)
unfolding read_items print_items are_readable size_items after_byte after_comma
items-Reads x xs ih ihs h true rest = with_fuel _ _ λ f lt.
    let (hx, hxs) = and-true (is_readable x) (are_readable xs) h in
    let value =
      ih hx (print_items true xs (b']' ∷ rest)) (ends_number-items xs rest) f (omega arith) in
    rw value (rw (ihs hxs true rest f (omega arith)) refl)
items-Reads x xs ih ihs h false rest = with_fuel _ _ λ f lt.
    let (hx, hxs) = and-true (is_readable x) (are_readable xs) h in
    let value =
      ih hx (print_items true xs (b']' ∷ rest)) (ends_number-items xs rest) f (omega arith) in
    let going = after_byte-print x (print_items true xs (b']' ∷ rest)) hx in
    rw (going, read_items) (rw value (rw (ihs hxs true rest f (omega arith)) refl))

fields-Reads :
    (key : Bytes) (x : Json) (fs : Fields)
    → ReadsValue x
    → ReadsFields fs
    → ReadsFields (field key x fs)
unfolding read_fields print_fields have_readable size_fields after_byte after_comma
fields-Reads key x fs ih ihs h later rest = with_fuel _ _ λ f lt.
    let (hk, hb) = and-true (is_text key) (is_readable x && have_readable fs) h in
    let (hx, hfs) = and-true (is_readable x) (have_readable fs) hb in
    let name = read_key-quoted key (print x (print_fields true fs (b'}' ∷ rest))) hk in
    let value =
      ih hx (print_fields true fs (b'}' ∷ rest)) (ends_number-fields fs rest) f (omega arith) in
    elim later
      as (λ later.
        read_fields (suc f) later (print_fields later (field key x fs) (b'}' ∷ rest))
        ≡ some (field key x fs, rest)) [
          | true ↦ rw name (rw value (rw (ihs hfs true rest f (omega arith)) refl))
          | false ↦ rw name (rw value (rw (ihs hfs true rest f (omega arith)) refl))
        ]

pub read_value-Reads : (v : Json) → ReadsValue v
unfolding read_value read_items read_fields print print_items print_fields is_readable are_readable
    have_readable first read_word strip_prefix size size_items size_fields after_byte after_comma
read_value-Reads v = elim v as ReadsValue ReadsItems ReadsFields [
  | bool true ↦ λ h rest e. with_fuel _ _ λ f lt. refl
  | bool false ↦ λ h rest e. with_fuel _ _ λ f lt. refl
  | null ↦ λ h rest e. with_fuel _ _ λ f lt. refl
  | num text ↦ number-Reads text
  | str s ↦ λ h rest e. with_fuel _ _ λ f lt. read_str-quoted s rest h
  | arr (xs → ih) ↦ λ h rest e. with_fuel _ _ λ f lt. rw (ih h false rest f (omega arith)) refl
  | obj (fs → ih) ↦ λ h rest e. with_fuel _ _ λ f lt. rw (ih h false rest f (omega arith)) refl
  | nil ↦ λ h later rest. with_fuel _ _ λ f lt. refl
  | cons (x → ih) (xs → ihs) ↦ items-Reads x xs ih ihs
  | end ↦ λ h later rest. with_fuel _ _ λ f lt. refl
  | field key (x → ih) (fs → ihs) ↦ fields-Reads key x fs ih ihs
]
