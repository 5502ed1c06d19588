-- ===== src/Json/Tree.antt =====
-- JSON values and their compact text, stated with no reference to the formatter: what the text that
-- src/format/json.c writes is compared with.
pub mod Document
pub mod Strings
pub mod Numbers
pub mod Reader
pub mod RoundTrip
pub mod Nul
pub mod Writes
use Prim.Native.String.{String}
use thermal_observatory.Base.{
  ℕ, Bool, true, false, ◌||◌, List, [], ◌∷◌, ◌++◌, ◌==◌, if◌then◌else◌, Bytes, codes,
}

mutual
  pub data Json : Type 0 where
    bool : Bool → Json
    null : Json
    -- a number, by its text
    num : Bytes → Json
    str : Bytes → Json
    arr : Items → Json
    obj : Fields → Json

  pub data Items : Type 0 where
    nil : Items
    cons : Json → Items → Items

  pub data Fields : Type 0 where
    end : Fields
    field : Bytes → Json → Fields → Fields

-- RFC 8259's two-byte escapes, for the bytes that the program escapes; any other byte is itself.
unfoldable pub escape : ℕ → Bytes
escape c =
    if c == b'\\' || c == b'"'
    then b'\\' ∷ c ∷ []
    else if c == b'\n'
    then b'\\' ∷ b'n' ∷ []
    else if c == b'\r'
    then b'\\' ∷ b'r' ∷ []
    else if c == b'\t'
    then b'\\' ∷ b't' ∷ []
    else c ∷ []

-- A string literal after its opening quote, in front of `rest`.
unfoldable pub escaped : Bytes → Bytes → Bytes
escaped [] rest = b'"' ∷ rest
escaped (c ∷ s) rest = escape c ++ escaped s rest

abbrev pub quoted : Bytes → Bytes → Bytes
quoted s rest = b'"' ∷ escaped s rest

-- The text of a value in front of `rest`. The flag says whether an element stands before.
unfoldable mutual
  unfolding escaped

  pub print : Json → Bytes → Bytes
  print (bool true) rest = codes "true" ++ rest
  print (bool false) rest = codes "false" ++ rest
  print null rest = codes "null" ++ rest
  print (num text) rest = text ++ rest
  print (str s) rest = quoted s rest
  print (arr xs) rest = b'[' ∷ print_items false xs (b']' ∷ rest)
  print (obj fs) rest = b'{' ∷ print_fields false fs (b'}' ∷ rest)

  pub print_items : Bool → Items → Bytes → Bytes
  print_items later nil rest = rest
  print_items true (cons x xs) rest = b',' ∷ print x (print_items true xs rest)
  print_items false (cons x xs) rest = print x (print_items true xs rest)

  pub print_fields : Bool → Fields → Bytes → Bytes
  print_fields later end rest = rest
  print_fields true (field k x fs) rest =
      b',' ∷ quoted k (b':' ∷ print x (print_fields true fs rest))
  print_fields false (field k x fs) rest = quoted k (b':' ∷ print x (print_fields true fs rest))

abbrev pub items {ℓ} : {A : Type ℓ} → (A → Json) → List A → Items
items f [] = nil
items f (x ∷ xs) = cons (f x) (items f xs)

abbrev pub fields_of : List (Bytes × Json) → Fields
fields_of [] = end
fields_of ((k, v) ∷ fs) = field k v (fields_of fs)

abbrev pub object : List (Bytes × Json) → Json
object fs = obj (fields_of fs)

infix 20 ◌:=◌
abbrev pub ◌:=◌ : String → Json → Bytes × Json
k := v = (codes k, v)
