-- ===== src/Monitor/Show/Announces.antt =====
-- What a round of `main` shows, in terms of the texts of the snapshot.
use thermal_observatory.Base.{
  ℕ, zero, suc, ◌+◌, ◌<◌, Bool, Bool-cases, true, false, ◌≡◌, refl, ap, inl, inr, Option, none,
  some, List, [], ◌∷◌, ltb, if◌then◌else◌, Bytes, length, arith,
}
use thermal_observatory.Base.Int.{ℤ}
use thermal_observatory.Double.{Double}
use thermal_observatory.Json.Renders.{snapshot_text, tm_snapshot_to_json-Renders}
use thermal_observatory.Libc.Scan.{take_until}
use thermal_observatory.Monitor.Options.{Options}
use thermal_observatory.Monitor.Show.{
  Event, prints, replaces, complains, c_string, buffer_size, rendered, put, put_line, contents_of,
  show_textfile, show_stdout, show_to, show,
}
use thermal_observatory.Prometheus.Renders.{tm_snapshot_to_prometheus-Renders}
use thermal_observatory.Prometheus.Samples.{prometheus_text}
use thermal_observatory.Snapshot.{Snapshot}
use thermal_observatory.Text.{tm_print_snapshot_text}
use thermal_observatory.Writer.{Memory, text_of, text_sink}
use thermal_observatory.Writer.Memory.{HasAt}
use thermal_observatory.Writer.Renders.{Renders}

-- A buffer that holds a text and a NUL behind it holds the C string of the text in front of its
-- first NUL, if it has one itself.
c_string-HasAt :
    (n : ℕ) (m : Memory) (i j : ℕ) (text : Bytes)
    → length text < n
    → HasAt m i text
    → i + length text ≡ j
    → m j ≡ 0
    → c_string n m i ≡ take_until 0 text
unfolding c_string take_until
c_string-HasAt zero m i j text lt h e nul = absurd (omega arith)
c_string-HasAt (suc n) m i j [] lt h e nul = let here : i ≡ j = omega arith in rw (here, nul) refl
c_string-HasAt (suc n) m i j (b ∷ text) lt (first, h) e nul =
    let later = c_string-HasAt n m (i + 1) j text (omega arith) h (omega arith) nul in
    rw (first, later) refl

-- The text in front of its first NUL, if the whole of it fits a buffer of `main`.
abbrev pub fitting : Bytes → Option Bytes
fitting text = if ltb (length text) buffer_size then some (take_until 0 text) else none

rendered-fitting :
    (text : Bytes) (buf : Memory) (r : ℤ × Memory)
    → Renders text buf buffer_size r
    → rendered r ≡ fitting text
unfolding rendered
rendered-fitting text buf (result, m) h = elim (Bool-cases (ltb (length text) buffer_size)) [
  | inl lt ↦
      let (length_returned, bytes, nul) = h.fits (ground arith) in
      rw (lt, length_returned)
        (ap some (
          c_string-HasAt buffer_size m 0 (length text) text (ground arith) bytes (omega arith) nul))
  | inr ge ↦ let failed = h.too_long (ground arith) in rw (ge, failed) refl
]

module _ {ℓ} {D : Type ℓ} ⦃d : Double D⦄ where
  abbrev pub announce_textfile : Bool → Bytes → Snapshot D → List Event × Bool
  announce_textfile true path snap =
      (replaces path (contents_of (fitting (prometheus_text snap))) ∷ [], true)
  announce_textfile false path snap = (complains ∷ [], false)

  abbrev pub announce_stdout : Bool → Bool → Snapshot D → List Event
  announce_stdout true want_json snap = put (fitting (prometheus_text snap))
  announce_stdout false true snap = put_line (fitting (snapshot_text snap))
  announce_stdout false false snap = prints (text_of (tm_print_snapshot_text snap)) ∷ []

  abbrev pub announce_to : Option Bytes → Options → (Bytes → Bool) → Snapshot D → List Event × Bool
  announce_to (some path) o writable snap = announce_textfile (writable path) path snap
  announce_to none o writable snap = (announce_stdout o.want_prometheus o.want_json snap, true)

  -- What a round should show: no buffer is in it.
  abbrev pub announce : Options → (Bytes → Bool) → Snapshot D → List Event × Bool
  announce o = announce_to o.prometheus_textfile o

  show_textfile-announce :
      (writable : Bool) (path : Bytes) (buf : Memory) (snap : Snapshot D)
      → show_textfile writable path buf snap ≡ announce_textfile writable path snap
  unfolding show_textfile
  show_textfile-announce true path buf snap =
      ap (λ text. (replaces path (contents_of text) ∷ [], true))
        (rendered-fitting _ buf _ (tm_snapshot_to_prometheus-Renders snap buf buffer_size))
  show_textfile-announce false path buf snap = refl

  show_stdout-announce :
      (want_prometheus want_json : Bool) (buf : Memory) (snap : Snapshot D)
      → show_stdout want_prometheus want_json buf snap
        ≡ announce_stdout want_prometheus want_json snap
  unfolding show_stdout
  show_stdout-announce true want_json buf snap =
      ap put (rendered-fitting _ buf _ (tm_snapshot_to_prometheus-Renders snap buf buffer_size))
  show_stdout-announce false true buf snap =
      ap put_line (rendered-fitting _ buf _ (tm_snapshot_to_json-Renders snap buf buffer_size))
  show_stdout-announce false false buf snap = refl

  show_to-announce_to :
      (file : Option Bytes) (o : Options) (writable : Bytes → Bool) (buf : Memory)
      → (snap : Snapshot D) → show_to file o writable buf snap ≡ announce_to file o writable snap
  show_to-announce_to none o writable buf snap =
      ap (λ events. (events, true)) (show_stdout-announce o.want_prometheus o.want_json buf snap)
  show_to-announce_to (some path) o writable buf snap =
      show_textfile-announce (writable path) path buf snap

  -- For every choice of options and every snapshot, whatever the buffers held before: a round writes
  -- the exposition to the file, or the exposition or the JSON text and a newline or the plain text to
  -- standard output. An exposition or a JSON text of 65536 bytes or more is not written at all, and
  -- one that has a NUL in it is written up to there. If the file cannot be opened, the round only
  -- complains and the program stops.
  pub show-announce :
      (o : Options) (writable : Bytes → Bool) (buf : Memory) (snap : Snapshot D)
      → show o writable buf snap ≡ announce o writable snap
  unfolding show
  show-announce o writable buf snap = show_to-announce_to o.prometheus_textfile o writable buf snap
