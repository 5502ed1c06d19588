-- ===== src/Writer/Memory.antt =====
-- What `store` and `vsnprintf` change, and what they leave alone.
use thermal_observatory.Base.{
  ℕ, ◌+◌, ◌-◌, ◌≤◌, ◌<◌, ◌≡◌, refl, ◌∙◌, [], ◌∷◌, ◌++◌, inl, inr, ◌⊎◌, arith, Bytes, length,
  length-append, length-take, take, take_self, Bool-cases, ◌==◌,
}
use thermal_observatory.Writer.{Memory, write_byte, store, vsnprintf}

-- `m` holds the bytes `s` from address `i` on.
abbrev pub HasAt : Memory → ℕ → Bytes → Type 0
HasAt m i [] = Unit
HasAt m i (b ∷ s) = (m i ≡ b) × HasAt m (i + 1) s

-- Nothing outside [i, i + n) differs.
abbrev pub SameOutside : Memory → Memory → ℕ → ℕ → Type 0
SameOutside m m' i n = (j : ℕ) → (j < i) ⊎ (i + n ≤ j) → m' j ≡ m j

pub store-SameOutside : (s : Bytes) (m : Memory) (i : ℕ) → SameOutside m (store m i s) i (length s)
unfolding store
store-SameOutside [] m i j h = refl
store-SameOutside (b ∷ s) m i j h =
    ground (arith, store-SameOutside s (write_byte m i b) (i + 1) j (omega arith))

-- A text depends on its own addresses alone.
pub HasAt-SameOutside :
    (s : Bytes) (m m' : Memory) (i k n : ℕ)
    → SameOutside m m' k n
    → i + length s ≤ k
    → HasAt m i s
    → HasAt m' i s
HasAt-SameOutside [] m m' i k n same h has = tt
HasAt-SameOutside (b ∷ s) m m' i k n same h has =
    (same i (omega arith) ∙ has.0, HasAt-SameOutside s m m' (i + 1) k n same (omega arith) has.1)

pub store-HasAt : (s : Bytes) (m : Memory) (i : ℕ) → HasAt (store m i s) i s
unfolding store
store-HasAt [] m i = tt
store-HasAt (b ∷ s) m i = (
  store-SameOutside s (write_byte m i b) (i + 1) i (omega arith) ∙ ground arith,
  store-HasAt s (write_byte m i b) (i + 1),
)

pub HasAt-append :
    (s t : Bytes) (m : Memory) (i j : ℕ)
    → i + length s ≡ j
    → HasAt m i s
    → HasAt m j t
    → HasAt m i (s ++ t)
HasAt-append [] t m i j e hs ht = let e' : i ≡ j = omega arith in rw e' ht
HasAt-append (b ∷ s) t m i j e hs ht = (hs.0, HasAt-append s t m (i + 1) j (omega arith) hs.1 ht)

-- `vsnprintf` writes to the n bytes that it is given and to no other.
pub vsnprintf-SameOutside :
    (text : Bytes) (m : Memory) (i n : ℕ) → SameOutside m (vsnprintf m i n text) i n
unfolding vsnprintf
vsnprintf-SameOutside text m i n j h = ground (
  arith,
  store-SameOutside (take (n - 1) text ++ 0 ∷ []) m i j,
  length-append (take (n - 1) text) (0 ∷ []),
  length-take (n - 1) text,
)

-- A text that fits is written whole, with a NUL behind it.
pub vsnprintf-HasAt :
    (text : Bytes) (m : Memory) (i n : ℕ)
    → length text < n
    → HasAt (vsnprintf m i n text) i (text ++ 0 ∷ [])
unfolding vsnprintf
vsnprintf-HasAt text m i n h = elim (Bool-cases (n == 0)) [
  | inl e ↦ absurd (ground arith)
  | inr e ↦ rw e (rw (take_self (n - 1) text (omega arith)) (store-HasAt (text ++ 0 ∷ []) m i))
]

pub HasAt-prefix : (s t : Bytes) (m : Memory) (i : ℕ) → HasAt m i (s ++ t) → HasAt m i s
HasAt-prefix [] t m i h = tt
HasAt-prefix (b ∷ s) t m i h = (h.0, HasAt-prefix s t m (i + 1) h.1)

pub HasAt-behind :
    (s : Bytes) (b : ℕ) (m : Memory) (i j : ℕ)
    → i + length s ≡ j
    → HasAt m i (s ++ b ∷ [])
    → m j ≡ b
HasAt-behind [] b m i j e h = let e' : i ≡ j = omega arith in rw (← e') h.0
HasAt-behind (c ∷ s) b m i j e h = HasAt-behind s b m (i + 1) j (omega arith) h.1
