-- ===== src/Json/Renders.antt =====
-- `tm_snapshot_to_json` against the JSON text of the snapshot.
use thermal_observatory.Base.{
  ℕ, zero, suc, ◌<◌, Bool, true, false, ◌≡◌, refl, ap, [], arith, Bytes, length, inl, inr,
  Bool-cases, ltb,
}
use thermal_observatory.Base.Int.{negsuc}
use thermal_observatory.Double.{Double}
use thermal_observatory.Json.Document.{json_document, json_header, result, tm_snapshot_to_json}
use thermal_observatory.Json.Simulates.{Simulates-json_document}
use thermal_observatory.Json.Tree.{print}
use thermal_observatory.Json.Tree.Document.{document_tree}
use thermal_observatory.Json.Tree.Writes.{json_document-document_tree}
use thermal_observatory.Snapshot.{Snapshot}
use thermal_observatory.Writer.{
  Memory, Writer, buffer_sink, text_sink, text_of, appendf, ◌>>◌, fresh, written,
}
use thermal_observatory.Writer.Renders.{Renders, Renders-written, fresh-Holds}
use thermal_observatory.Writer.Simulates.{Appends}

abbrev pub snapshot_text {ℓ} : {D : Type ℓ} ⦃d : Double D⦄ → Snapshot D → Bytes
snapshot_text snap = print (document_tree snap) []

-- A document that returns -1 has failed, so the two ways out of the function agree.
result-written :
    (text : Bytes) (buf : Memory) (len : ℕ) (x : Bool × Writer)
    → Appends (fresh buf len) [] text x.0 x.1
    → result x ≡ written x.1
result-written text buf len (true, w) a = refl
result-written text buf len (false, w) a = elim (Bool-cases (ltb (length text) len)) [
  | inl lt ↦ cc ((a.fits (ground arith)).0)
  | inr ge ↦ rw (a.spills (ground arith)) refl
]

Renders-result :
    (text : Bytes) (buf : Memory) (len : ℕ) (x : Bool × Writer)
    → 0 < length text
    → Appends (fresh buf len) [] text x.0 x.1
    → Renders text buf len (result x)
Renders-result text buf len x nonempty a =
    rw (result-written text buf len x a) (Renders-written text buf len x.0 x.1 nonempty a)

module _ {ℓ} {D : Type ℓ} ⦃d : Double D⦄ (snap : Snapshot D) where
  text_of-json_document : text_of (json_document snap) ≡ snapshot_text snap
  text_of-json_document = ap (λ r. r.1 []) (json_document-document_tree snap (λ rest. rest))

  -- With no room at all the first `appendf` fails and writes nothing.
  no_room : (buf : Memory) → tm_snapshot_to_json snap buf 0 ≡ (negsuc 0, buf)
  unfolding tm_snapshot_to_json json_document json_header ◌>>◌ appendf
  no_room buf = refl

  snapshot_text_nonempty : 0 < length (snapshot_text snap)
  unfolding document_tree print
  snapshot_text_nonempty = omega arith

  -- For every snapshot, every buffer and every length `len`: if the JSON text of the snapshot is
  -- shorter than `len`, then `tm_snapshot_to_json` returns its length and leaves it in the buffer
  -- with a NUL behind it; if not, it returns -1; and no byte at or past `len` is written.
  pub tm_snapshot_to_json-Renders :
      (buf : Memory) (len : ℕ)
      → Renders (snapshot_text snap) buf len (tm_snapshot_to_json snap buf len)
  tm_snapshot_to_json-Renders buf zero =
      rw no_room record { fits = λ lt. elim lt [ ]; too_long = λ _. refl; in_bounds = λ j h. refl }
  tm_snapshot_to_json-Renders buf (suc n) =
      unfold tm_snapshot_to_json in
      Renders-result (snapshot_text snap) buf (suc n) _ snapshot_text_nonempty (
        rw text_of-json_document at (
          (Simulates-json_document snap).appends (fresh buf (suc n)) []
            (fresh-Holds buf (suc n) (omega arith))))
