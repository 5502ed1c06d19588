-- ===== src/Json/Strings.antt =====
-- `append_json_string` of src/format/json.c against a strict reader of JSON strings.
use thermal_observatory.Base.{
  ◌≡◌, ◌∙◌, refl, ap, some, none, [], ◌∷◌, ◌++◌, append_assoc, if◌then◌else◌, Bytes,
}
use thermal_observatory.Json.{append_json_string}
use thermal_observatory.Json.Tree.{escape, escaped, quoted}
use thermal_observatory.Json.Tree.Strings.{is_text, read_string, read_string-quoted}
use thermal_observatory.Json.Tree.Writes.{append_json_string-quoted}
use thermal_observatory.Writer.{text_sink, text_of}

escaped-append : (s r rest : Bytes) → escaped s r ++ rest ≡ escaped s (r ++ rest)
unfolding escaped
escaped-append [] r rest = refl
escaped-append (c ∷ s) r rest =
    append_assoc (escape c) (escaped s r) rest ∙ ap (◌++◌ (escape c)) (escaped-append s r rest)

text_of-append_json_string : (s : Bytes) → text_of (append_json_string s) ≡ quoted s []
text_of-append_json_string s = ap (λ r. r.1 []) (append_json_string-quoted s (λ rest. rest))

-- For every string `s` and every text `rest`: the text that `append_json_string` writes for `s`, in
-- front of `rest`, is read by a strict JSON reader as the string `s` followed by `rest` if every
-- byte of `s` is at least 32 or one of \n, \r and \t; and if some byte is another control
-- character, the reader rejects it.
pub append_json_string-read_string :
    (s rest : Bytes)
    → read_string (text_of (append_json_string s) ++ rest)
      ≡ (if is_text s then some (s, rest) else none)
append_json_string-read_string s rest =
    rw (text_of-append_json_string s) (rw (escaped-append s [] rest) (read_string-quoted s rest))
