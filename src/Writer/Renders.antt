-- ===== src/Writer/Renders.antt =====
-- What a formatter promises of its buffer: the contract between the writer and its callers.
use thermal_observatory.Base.{
  ℕ, ◌≤◌, ◌<◌, Bool, true, false, ◌≡◌, refl, ap, [], arith, Bytes, length, inl, inr, Bool-cases,
  ltb,
}
use thermal_observatory.Base.Int.{ℤ, pos, negsuc}
use thermal_observatory.Writer.{Memory, Writer, fresh, written}
use thermal_observatory.Writer.Memory.{HasAt}
use thermal_observatory.Writer.Simulates.{Holds, Appends}

-- What a caller may rely on when `text` is asked for in a buffer of `len` bytes: the whole text with
-- its NUL and its length if it fits, -1 if not, and in both cases no byte past the buffer written.
pub record Renders (text : Bytes) (buf : Memory) (len : ℕ) (r : ℤ × Memory) : Type 0 where
  pub fits :
      length text < len → (r.0 ≡ pos (length text)) × HasAt r.1 0 text × (r.1 (length text) ≡ 0)
  pub too_long : len ≤ length text → r.0 ≡ negsuc 0
  pub in_bounds : (j : ℕ) → len ≤ j → r.1 j ≡ buf j

pub fresh-Holds : (buf : Memory) (len : ℕ) → 0 < len → Holds (fresh buf len) []
fresh-Holds buf len h = record {
  going = refl;
  at_end = refl;
  room = h;
  bytes = tt;
  ended = λ lt. absurd (omega arith);
}

module _ (w : Writer) where
  written-failed : w.failed ≡ true → written w ≡ (negsuc 0, w.buf)
  written-failed e = rw e

  written-going : w.failed ≡ false → written w ≡ (pos w.pos, w.buf)
  written-going e = rw e

-- The return statement after an action that appends `text` to an empty buffer.
pub Renders-written :
    (text : Bytes) (buf : Memory) (len : ℕ) (r : Bool) (w : Writer)
    → 0 < length text
    → Appends (fresh buf len) [] text r w
    → Renders text buf len (written w)
Renders-written text buf len r w nonempty a = elim (Bool-cases (ltb (length text) len)) [
  | inl lt ↦
      let (ok, h) = a.fits (ground arith) in
      rw (written-going w h.going) (record {
        fits = λ _. (ap pos h.at_end, h.bytes, h.ended nonempty);
        too_long = λ le. absurd (ground arith);
        in_bounds = a.above;
      })
  | inr ge ↦
      rw (written-failed w (a.spills (ground arith)))
        (record { fits = λ lt. absurd (ground arith); too_long = λ _. refl; in_bounds = a.above })
]
