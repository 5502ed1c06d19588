-- ===== src/Monitor/Show.antt =====
-- src/thermal_main.c: what one round of the loop of `main` does with its snapshot. What can be seen
-- of the program is a list of events.
pub mod Announces
use thermal_observatory.Base.{
  ℕ, zero, suc, ◌+◌, Bool, true, false, Option, none, some, List, [], ◌∷◌, ◌++◌, ◌==◌,
  if◌then◌else◌, Bytes, codes,
}
use thermal_observatory.Base.Int.{ℤ, pos, negsuc}
use thermal_observatory.Double.{Double}
use thermal_observatory.Json.Document.{tm_snapshot_to_json}
use thermal_observatory.Monitor.Options.{Options}
use thermal_observatory.Prometheus.Document.{tm_snapshot_to_prometheus}
use thermal_observatory.Snapshot.{Snapshot}
use thermal_observatory.Text.{tm_print_snapshot_text}
use thermal_observatory.Writer.{Memory, text_of, text_sink}

pub data Event : Type 0 where
  -- bytes on standard output
  prints : Bytes → Event
  -- the file at a path holds these bytes and no more
  replaces : Bytes → Bytes → Event
  -- `perror("fopen")`
  complains : Event
  sleeps : ℤ → Event

-- The C string in a buffer of `n` bytes from an address on.
unfoldable pub c_string : ℕ → Memory → ℕ → Bytes
c_string zero m i = []
c_string (suc n) m i = let rest = c_string n m (i + 1) in if m i == 0 then [] else m i ∷ rest

abbrev pub buffer_size : ℕ
buffer_size = 65_536

-- `if (tm_snapshot_to_…(&snap, buf, sizeof(buf)) >= 0)`: the string to be written, if so.
unfoldable pub rendered : ℤ × Memory → Option Bytes
rendered (pos n, m) = some (c_string buffer_size m 0)
rendered (negsuc n, m) = none

-- `fputs(prom_buf, stdout)`
abbrev pub put : Option Bytes → List Event
put none = []
put (some text) = prints text ∷ []

-- `puts(json_buf)`
abbrev pub put_line : Option Bytes → List Event
put_line none = []
put_line (some text) = prints (text ++ codes "\n") ∷ []

-- `fputs(prom_buf, fp)`, where the file is empty
abbrev pub contents_of : Option Bytes → Bytes
contents_of none = []
contents_of (some text) = text

module _ {ℓ} {D : Type ℓ} ⦃d : Double D⦄ where
  -- What is shown of a snapshot, and whether the program goes on: it stops where the file cannot be
  -- opened. `buf` is what the buffer, an uninitialised array, holds before.
  unfoldable pub show_textfile : Bool → Bytes → Memory → Snapshot D → List Event × Bool
  show_textfile writable path buf snap =
      if writable
      then (
        replaces path (contents_of (rendered (tm_snapshot_to_prometheus snap buf buffer_size)))
            ∷ [],
        true,
      )
      else (complains ∷ [], false)

  unfoldable pub show_stdout : Bool → Bool → Memory → Snapshot D → List Event
  show_stdout want_prometheus want_json buf snap =
      if want_prometheus
      then put (rendered (tm_snapshot_to_prometheus snap buf buffer_size))
      else if want_json
      then put_line (rendered (tm_snapshot_to_json snap buf buffer_size))
      else prints (text_of (tm_print_snapshot_text snap)) ∷ []

  abbrev pub show_to :
      Option Bytes → Options → (Bytes → Bool) → Memory → Snapshot D → List Event × Bool
  show_to (some path) o writable buf snap = show_textfile (writable path) path buf snap
  show_to none o writable buf snap = (show_stdout o.want_prometheus o.want_json buf snap, true)

  unfoldable pub show : Options → (Bytes → Bool) → Memory → Snapshot D → List Event × Bool
  show o = show_to o.prometheus_textfile o
