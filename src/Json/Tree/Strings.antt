-- ===== src/Json/Tree/Strings.antt =====
-- Reading a JSON string back: a reader written from RFC 8259 alone, strict about control characters,
-- against the strings that `append_json_string` of src/format/json.c writes.
use thermal_observatory.Base.{
  ℕ, Bool, true, false, ◌&&◌, ◌||◌, ◌≡◌, refl, Option, none, some, [], ◌∷◌, ◌++◌, arith, ltb, ◌==◌,
  if◌then◌else◌, Bytes,
}
use thermal_observatory.Json.Tree.{escape, escaped, quoted}

-- The character that a two-byte escape stands for. Escapes by code point, which the program never
-- writes, are not read.
unfoldable pub unescape : ℕ → Option ℕ
unescape c =
    if c == b'"' || c == b'\\' || c == b'/'
    then some c
    else if c == b'n'
    then some b'\n'
    else if c == b'r'
    then some b'\r'
    else if c == b't'
    then some b'\t'
    else none

abbrev pub push : ℕ → Option (Bytes × Bytes) → Option (Bytes × Bytes)
push c none = none
push c (some (s, rest)) = some (c ∷ s, rest)

abbrev pub push_escape : Option ℕ → Option (Bytes × Bytes) → Option (Bytes × Bytes)
push_escape none r = none
push_escape (some c) r = push c r

-- What stands in front of the closing quote, and behind it. The flag says whether a backslash
-- stands before. A control character must not stand in a string as it is.
unfoldable pub read_string_body : Bool → Bytes → Option (Bytes × Bytes)
unfolding unescape
read_string_body after_backslash [] = none
read_string_body true (c ∷ s) = push_escape (unescape c) (read_string_body false s)
read_string_body false (c ∷ s) =
    let escape_read = read_string_body true s in
    let plain_read = read_string_body false s in
    if c == b'"'
    then some ([], s)
    else if c == b'\\'
    then escape_read
    else if ltb c 32
    then none
    else push c plain_read

-- The bytes that the program can put in a string: no control character but the three it escapes.
unfoldable pub is_text_byte : ℕ → Bool
is_text_byte c = ltb 31 c || c == b'\n' || c == b'\r' || c == b'\t'

unfoldable pub is_text : Bytes → Bool
unfolding is_text_byte
is_text [] = true
is_text (c ∷ s) = is_text_byte c && is_text s

abbrev read_back : Bool → ℕ → Option (Bytes × Bytes) → Option (Bytes × Bytes)
read_back good c r = if good then push c r else none

read_string_body-escape :
    (c : ℕ) (s : Bytes)
    → read_string_body false (escape c ++ s)
      ≡ read_back (is_text_byte c) c (read_string_body false s)
unfolding read_string_body escape is_text_byte unescape
read_string_body-escape c s = grind arith

push-if :
    (here there : Bool) (c : ℕ) (s rest : Bytes)
    → read_back here c (if there then some (s, rest) else none)
      ≡ (if here && there then some (c ∷ s, rest) else none)
push-if true true c s rest = refl
push-if true false c s rest = refl
push-if false there c s rest = refl

read_string_body-escaped :
    (s rest : Bytes)
    → read_string_body false (escaped s rest) ≡ (if is_text s then some (s, rest) else none)
unfolding escaped is_text
read_string_body-escaped [] rest = unfold read_string_body in refl
read_string_body-escaped (c ∷ s) rest =
    rw (read_string_body-escape c (escaped s rest), read_string_body-escaped s rest)
      (push-if (is_text_byte c) (is_text s) c s rest)

-- A string literal at the beginning of a text.
unfoldable pub read_string : Bytes → Option (Bytes × Bytes)
unfolding read_string_body
read_string [] = none
read_string (c ∷ s) = let body = read_string_body false s in if c == b'"' then body else none

-- The literal that is written for `s` reads back as `s`, with nothing of the rest taken, if `s` is a
-- text, and is no JSON string if it is not.
pub read_string-quoted :
    (s rest : Bytes) → read_string (quoted s rest) ≡ (if is_text s then some (s, rest) else none)
unfolding read_string
read_string-quoted s rest = read_string_body-escaped s rest
