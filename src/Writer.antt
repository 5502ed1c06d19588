-- ===== src/Writer.antt =====
-- The buffer writers of src/format/json.c and src/format/prometheus.c, which are the same code
-- twice: `tm_json_writer_t`, `tm_prom_writer_t` and `appendf`. A formatter is written over the
-- interface `Sink`; the buffer is one sink, and a text with no bound is the other.
pub mod Memory
pub mod Simulates
pub mod Renders
use thermal_observatory.Base.{
  ℕ, ◌+◌, ◌-◌, Bool, true, false, not, ◌≡◌, List, [], ◌∷◌, ◌++◌, ltb, leb, ◌==◌, if◌then◌else◌,
  Bytes, length, take,
}
use thermal_observatory.Base.Int.{ℤ, pos, negsuc}

-- A step that writes: `true` is the return value 0 and `false` is -1.
abbrev pub Action {ℓ} : Type ℓ → Type ℓ
Action W = W → Bool × W

-- What a formatter asks of its writer: `appendf`, on the text that the format string and its
-- arguments expand to.
pub record Sink {ℓ} (W : Type ℓ) : Type ℓ where
  pub append : Bytes → Action W

module _ {ℓ} {W : Type ℓ} where
  -- `a != 0 || b != 0`, `a == 0 && b == 0`: `b` runs if `a` returned 0.
  abbrev pub and_then : Bool × W → Action W → Bool × W
  and_then (true, w) b = b w
  and_then (false, w) b = (false, w)

  infixr 5 ◌>>◌
  unfoldable pub ◌>>◌ : Action W → Action W → Action W
  ◌>>◌ a b w = and_then (a w) b

  -- `a; b`: the return value of `a` is dropped.
  infixr 6 ◌⨾◌
  unfoldable pub ◌⨾◌ : Action W → Action W → Action W
  ◌⨾◌ a b w = b (a w).1

  unfoldable pub done : Action W
  done w = (true, w)

  -- `for (i = 0; i < count; ++i)` with `if (i > 0 && appendf(w, ",") != 0) return -1;` in front of
  -- the body: the flag is `i > 0`.
  unfoldable pub for_separated {κ} :
      {A : Type κ} → Action W → (A → Action W) → Bool → List A → Action W
  unfolding ◌>>◌ done
  for_separated comma body later [] = done
  for_separated comma body later (x ∷ xs) =
      (if later then comma else done) >> body x >> for_separated comma body true xs

  -- A loop whose body's return value is dropped.
  unfoldable pub for_each {κ} : {A : Type κ} → (A → Action W) → List A → Action W
  unfolding ◌⨾◌ done
  for_each body [] = done
  for_each body (x ∷ xs) = body x ⨾ for_each body xs

-- The bytes of the process, by address; `buf` starts at address 0.
abbrev pub Memory : Type 0
Memory = ℕ → ℕ

abbrev pub write_byte : Memory → ℕ → ℕ → Memory
write_byte m i v = λ j. if j == i then v else m j

unfoldable pub store : Memory → ℕ → Bytes → Memory
store m i [] = m
store m i (b ∷ bs) = store (write_byte m i b) (i + 1) bs

-- `vsnprintf(at, n, …)`: at most n - 1 bytes of the text and a NUL, and nothing if n is 0.
unfoldable pub vsnprintf : Memory → ℕ → ℕ → Bytes → Memory
unfolding store
vsnprintf m at n text = if n == 0 then m else store m at (take (n - 1) text ++ 0 ∷ [])

pub record Writer : Type 0 where
  pub buf : Memory
  pub len : ℕ
  pub pos : ℕ
  pub failed : Bool

-- `appendf`. The text is shorter than 2^31 bytes, so `rc` is its length and not negative.
unfoldable pub appendf : Bytes → Action Writer
unfolding vsnprintf
appendf text w =
    if w.failed
    then (false, w)
    else let buf' = vsnprintf w.buf w.pos (w.len - w.pos) text in
      if leb (w.len - w.pos) (length text)
      then (false, record w { buf = buf'; failed = true })
      else (true, record w { buf = buf'; pos = w.pos + length text })

abbrev pub fresh : Memory → ℕ → Writer
fresh buf len = record { buf = buf; len = len; pos = 0; failed = false }

-- `return w.failed ? -1 : (int)w.pos;`
abbrev pub written : Writer → ℤ × Memory
written w = (if w.failed then negsuc 0 else pos w.pos, w.buf)

instance abbrev pub buffer_sink : Sink Writer
buffer_sink = record { append = appendf }

-- A text with no bound: `t` stands for the function that puts the text written in front of a rest.
abbrev pub Text : Type 0
Text = Bytes → Bytes

abbrev pub append_text : Bytes → Action Text
append_text s t = (true, λ rest. t (s ++ rest))

instance abbrev pub text_sink : Sink Text
text_sink = record { append = append_text }

-- All that an action writes where there is room for everything.
abbrev pub text_of : Action Text → Bytes
text_of p = (p (λ rest. rest)).1 []
