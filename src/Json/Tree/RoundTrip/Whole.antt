-- ===== src/Json/Tree/RoundTrip/Whole.antt =====
-- The reader has fuel enough, so the text of a readable value reads back as the value.
use thermal_observatory.Base.{
  ◌+◌, ◌≤◌, Bool, true, false, ◌&&◌, ◌≡◌, refl, some, [], ◌∷◌, Bytes, length, length-append, arith,
}
use thermal_observatory.Json.Tree.{
  Json, bool, null, num, str, arr, obj, Items, nil, cons, Fields, end, field, print, print_items,
  print_fields, escaped, escape,
}
use thermal_observatory.Json.Tree.Numbers.{is_number-front, ends_number}
use thermal_observatory.Json.Tree.Reader.{read_json, is_readable, are_readable, have_readable}
use thermal_observatory.Json.Tree.Strings.{is_text}
use thermal_observatory.Json.Tree.RoundTrip.{
  size, size_items, size_fields, and-true, read_value-Reads,
}

length-escaped : (s rest : Bytes) → length rest ≤ length (escaped s rest)
unfolding escaped
length-escaped [] rest = omega arith
length-escaped (c ∷ s) rest =
    omega (arith, length-append (escape c) (escaped s rest), length-escaped s rest)

abbrev Room : Json → Type 0
Room v = is_readable v ≡ true → (rest : Bytes) → size v + 1 + length rest ≤ length (print v rest)

abbrev RoomItems : Items → Type 0
RoomItems xs =
    are_readable xs ≡ true
    → (later : Bool) (rest : Bytes)
    → size_items xs + length rest ≤ length (print_items later xs rest)

abbrev RoomFields : Fields → Type 0
RoomFields fs =
    have_readable fs ≡ true
    → (later : Bool) (rest : Bytes)
    → size_fields fs + length rest ≤ length (print_fields later fs rest)

number-Room : (text : Bytes) → Room (num text)
unfolding is_readable size print
number-Room text h rest =
    let (c, t, e, _) = is_number-front text h in rw e (omega (arith, length-append t rest))

items-Room : (x : Json) (xs : Items) → Room x → RoomItems xs → RoomItems (cons x xs)
unfolding are_readable size_items print_items
items-Room x xs ih ihs h later rest =
    let (hx, hxs) = and-true (is_readable x) (are_readable xs) h in
    let one = ih hx (print_items true xs rest) in
    let more = ihs hxs true rest in
    elim later
      as (λ later.
        size_items (cons x xs) + length rest ≤ length (print_items later (cons x xs) rest)) [
          | true ↦ omega arith
          | false ↦ omega arith
        ]

fields-Room :
    (key : Bytes) (x : Json) (fs : Fields) → Room x → RoomFields fs → RoomFields (field key x fs)
unfolding have_readable size_fields print_fields
fields-Room key x fs ih ihs h later rest =
    let (hk, hb) = and-true (is_text key) (is_readable x && have_readable fs) h in
    let (hx, hfs) = and-true (is_readable x) (have_readable fs) hb in
    let one = ih hx (print_fields true fs rest) in
    let more = ihs hfs true rest in
    let name = length-escaped key (b':' ∷ print x (print_fields true fs rest)) in
    elim later
      as (λ later.
        size_fields (field key x fs) + length rest
        ≤ length (print_fields later (field key x fs) rest)) [
          | true ↦ omega arith
          | false ↦ omega arith
        ]

print-Room : (v : Json) → Room v
unfolding is_readable are_readable have_readable size size_items size_fields print print_items
    print_fields
print-Room v = elim v as Room RoomItems RoomFields [
  | bool true ↦ λ h rest. omega arith
  | bool false ↦ λ h rest. omega arith
  | null ↦ λ h rest. omega arith
  | num text ↦ number-Room text
  | str s ↦ λ h rest. omega (arith, length-escaped s rest)
  | arr (xs → ih) ↦ λ h rest. omega (arith, ih h false (b']' ∷ rest))
  | obj (fs → ih) ↦ λ h rest. omega (arith, ih h false (b'}' ∷ rest))
  | nil ↦ λ h later rest. omega arith
  | cons (x → ih) (xs → ihs) ↦ items-Room x xs ih ihs
  | end ↦ λ h later rest. omega arith
  | field key (x → ih) (fs → ihs) ↦ fields-Room key x fs ih ihs
]

-- The text of a readable value is one JSON value, and that value.
pub read_json-print : (v : Json) → is_readable v ≡ true → read_json (print v []) ≡ some v
unfolding read_json ends_number
read_json-print v h =
    let enough = print-Room v h [] in
    rw (read_value-Reads v h [] refl (length (print v []) + 1) (omega arith)) refl
