-- ===== src/Writer/Simulates.antt =====
-- An action on the buffer against the same action on an unbounded text: where the text fits, the
-- buffer holds it; where it does not, the writer has failed. Neither touches a byte past `len`.
use thermal_observatory.Base.{
  ℕ, ◌+◌, ◌-◌, ◌≤◌, ◌<◌, Bool, true, false, ◌≡◌, refl, ap, ◌∙◌, List, [], ◌∷◌, ◌++◌, inl, inr,
  arith, Bytes, length, length-append, if◌then◌else◌, append-nil, append_assoc, ltb, ltb→lt,
  Bool-cases,
}
use thermal_observatory.Writer.{
  Action, and_then, ◌>>◌, ◌⨾◌, done, for_separated, for_each, Memory, vsnprintf, Writer, appendf,
  buffer_sink, Text, append_text, text_sink, text_of,
}
use thermal_observatory.Writer.Memory.{
  HasAt, HasAt-append, HasAt-prefix, HasAt-behind, HasAt-SameOutside, vsnprintf-SameOutside,
  vsnprintf-HasAt,
}

-- The writer has not failed and its buffer holds `s`, with a NUL behind it once anything has been
-- written.
pub record Holds (w : Writer) (s : Bytes) : Type 0 where
  pub going : w.failed ≡ false
  pub at_end : w.pos ≡ length s
  pub room : length s < w.len
  pub bytes : HasAt w.buf 0 s
  pub ended : 0 < length s → w.buf (length s) ≡ 0

-- `w'` is a state to which writing `t` behind `s` leads.
pub record Appends (w : Writer) (s t : Bytes) (r : Bool) (w' : Writer) : Type 0 where
  pub same_len : w'.len ≡ w.len
  pub above : (j : ℕ) → w.len ≤ j → w'.buf j ≡ w.buf j
  pub fits : length s + length t < w.len → (r ≡ true) × Holds w' (s ++ t)
  pub spills : w.len ≤ length s + length t → w'.failed ≡ true

pub record Simulates (m : Action Writer) (p : Action Text) : Type 0 where
  pub text_only : (t : Text) → p t ≡ (true, λ rest. t (text_of p ++ rest))
  pub appends : (w : Writer) (s : Bytes) → Holds w s → Appends w s (text_of p) (m w).0 (m w).1
  -- A writer that has failed stays as it is.
  pub stuck : (w : Writer) → w.failed ≡ true → (m w).1 ≡ w

appendf_fits :
    (text : Bytes) (w : Writer) (s : Bytes)
    → Holds w s
    → length s + length text < w.len
    → appendf text w ≡ (
      true,
      record w { buf = vsnprintf w.buf w.pos (w.len - w.pos) text; pos = w.pos + length text },
    )
unfolding appendf
appendf_fits text w s h lt = ground arith

appendf_spills :
    (text : Bytes) (w : Writer) (s : Bytes)
    → Holds w s
    → w.len ≤ length s + length text
    → appendf text w
      ≡ (false, record w { buf = vsnprintf w.buf w.pos (w.len - w.pos) text; failed = true })
unfolding appendf
appendf_spills text w s h le = ground arith

-- The bytes from `pos` to `len` are the only ones that a call writes.
appendf-above : (text : Bytes) (w : Writer) (j : ℕ) → w.len ≤ j → (appendf text w).1.buf j ≡ w.buf j
unfolding appendf
appendf-above text w j le = ground (arith, vsnprintf-SameOutside text w.buf w.pos (w.len - w.pos) j)

Holds-appendf :
    (text : Bytes) (w : Writer) (s : Bytes)
    → Holds w s
    → length s + length text < w.len
    → Holds (appendf text w).1 (s ++ text)
Holds-appendf text w s h lt = rw (appendf_fits text w s h lt) record {
  going = h.going;
  at_end = omega (arith, length-append s text, h.at_end);
  room = omega (arith, length-append s text);
  bytes =
      HasAt-append s text buf' 0 w.pos (omega arith)
        (HasAt-SameOutside s w.buf buf' 0 w.pos (w.len - w.pos)
          (vsnprintf-SameOutside text w.buf w.pos (w.len - w.pos)) (omega arith) h.bytes)
        (HasAt-prefix text (0 ∷ []) buf' w.pos written);
  ended = λ _.
      HasAt-behind text 0 buf' w.pos (length (s ++ text))
        (omega (arith, length-append s text, h.at_end)) written;
}
  where
    buf' : Memory
    buf' = vsnprintf w.buf w.pos (w.len - w.pos) text

    written : HasAt buf' w.pos (text ++ 0 ∷ [])
    written = vsnprintf-HasAt text w.buf w.pos (w.len - w.pos) (omega (arith, h.at_end))

Appends-appendf :
    (text : Bytes) (w : Writer) (s : Bytes)
    → Holds w s
    → Appends w s text (appendf text w).0 (appendf text w).1
Appends-appendf text w s h = record {
  same_len = unfold appendf in ground arith;
  above = appendf-above text w;
  fits = λ lt. (rw (appendf_fits text w s h lt), Holds-appendf text w s h lt);
  spills = λ le. rw (appendf_spills text w s h le);
}

text_of-append : (text : Bytes) → text_of (append_text text) ≡ text
text_of-append text = append-nil text

pub Simulates-append : (text : Bytes) → Simulates (appendf text) (append_text text)
Simulates-append text = record {
  text_only = λ t. rw append-nil;
  appends = λ w s h. rw append-nil (Appends-appendf text w s h);
  stuck = λ w e. unfold appendf in rw e;
}

pub Simulates-done : Simulates done done
unfolding done
Simulates-done = record {
  text_only = λ t. refl;
  appends = λ w s h. record {
    same_len = refl;
    above = λ j le. refl;
    fits = λ lt. (refl, rw append-nil h);
    spills = λ le. absurd (omega (arith, h.room));
  };
  stuck = λ w e. refl;
}

-- Two writes in a row: the second one runs, or it finds a writer that has failed.
Appends-append :
    (w w' w'' : Writer) (s t u : Bytes) (r r' : Bool)
    → Appends w s t r w'
    → (r ≡ true → Holds w' (s ++ t) → Appends w' (s ++ t) u r' w'')
    → (w'.failed ≡ true → w'' ≡ w')
    → Appends w s (t ++ u) r' w''
Appends-append w w' w'' s t u r r' first second stuck =
    elim (Bool-cases (ltb (length s + length t) w.len)) [
      | inl lt ↦
          let (e, h) = first.fits (ltb→lt _ _ lt) in
          let next = second e h in
          record {
            same_len = next.same_len ∙ first.same_len;
            above = λ j le. next.above j (rw first.same_len le) ∙ first.above j le;
            fits = λ fit.
                rw append_assoc at
                  (next.fits (omega (arith, length-append s t, length-append t u, first.same_len)));
            spills = λ le.
                next.spills (omega (arith, length-append s t, length-append t u, first.same_len));
          }
      | inr ge ↦
          let full : w.len ≤ length s + length t = ground arith in
          let w_failed = first.spills full in
          rw (stuck w_failed) (record {
            same_len = first.same_len;
            above = first.above;
            fits = λ fit. absurd (omega (arith, length-append t u));
            spills = λ le. w_failed;
          })
    ]

module _ {W : Type 0} where
  and_then-true : (x : Bool × W) (b : Action W) → x.0 ≡ true → and_then x b ≡ b x.1
  and_then-true (true, w) b e = refl
  and_then-true (false, w) b e = cc

  and_then-stuck : (x : Bool × W) (b : Action W) → (b x.1).1 ≡ x.1 → (and_then x b).1 ≡ x.1
  and_then-stuck (true, w) b e = e
  and_then-stuck (false, w) b e = refl

module _ {a b : Action Writer} {p q : Action Text} (sa : Simulates a p) (sb : Simulates b q) where
  then-eq : (t : Text) → (p >> q) t ≡ (true, λ rest. t (text_of p ++ (text_of q ++ rest)))
  unfolding ◌>>◌
  then-eq t = ap (λ r. and_then r q) (sa.text_only t) ∙ sb.text_only (λ rest. t (text_of p ++ rest))

  pub text_of-then : text_of (p >> q) ≡ text_of p ++ text_of q
  text_of-then = ap (λ (r : Bool × Text). r.1 []) (then-eq (λ rest. rest)) ∙ rw append-nil

  seq-eq : (t : Text) → (p ⨾ q) t ≡ (true, λ rest. t (text_of p ++ (text_of q ++ rest)))
  unfolding ◌⨾◌
  seq-eq t =
      ap (λ (r : Bool × Text). q r.1) (sa.text_only t)
      ∙ sb.text_only (λ rest. t (text_of p ++ rest))

  pub text_of-seq : text_of (p ⨾ q) ≡ text_of p ++ text_of q
  text_of-seq = ap (λ (r : Bool × Text). r.1 []) (seq-eq (λ rest. rest)) ∙ rw append-nil

  pub Simulates-then : Simulates (a >> b) (p >> q)
  Simulates-then = record {
    text_only = λ t. rw text_of-then (then-eq t ∙ simp append_assoc);
    appends = λ w s h. rw text_of-then (
        unfold ◌>>◌ in
        Appends-append w (a w).1 _ s (text_of p) (text_of q) (a w).0 _ (sa.appends w s h)
          (λ e h'. rw (and_then-true (a w) b e) (sb.appends (a w).1 (s ++ text_of p) h'))
          (λ e. and_then-stuck (a w) b (sb.stuck (a w).1 e)));
    stuck = λ w e.
        let ea = sa.stuck w e in unfold ◌>>◌ in and_then-stuck (a w) b (rw ea (sb.stuck w e)) ∙ ea;
  }

  pub Simulates-seq : Simulates (a ⨾ b) (p ⨾ q)
  Simulates-seq = record {
    text_only = λ t. rw text_of-seq (seq-eq t ∙ simp append_assoc);
    appends = λ w s h. rw text_of-seq (
        unfold ◌⨾◌ in
        Appends-append w (a w).1 _ s (text_of p) (text_of q) (a w).0 _ (sa.appends w s h)
          (λ e h'. sb.appends (a w).1 (s ++ text_of p) h') (λ e. sb.stuck (a w).1 e));
    stuck = λ w e.
        let ea = sa.stuck w e in unfold ◌⨾◌ in ap (λ (w' : Writer). (b w').1) ea ∙ sb.stuck w e;
  }

pub Simulates-if :
    (c : Bool) {a b : Action Writer} {p q : Action Text}
    → Simulates a p
    → Simulates b q
    → Simulates (if c then a else b) (if c then p else q)
Simulates-if true sa sb = sa
Simulates-if false sa sb = sb

module _ {ℓ} {A : Type ℓ} {f : A → Action Writer} {g : A → Action Text}
    (each : (x : A) → Simulates (f x) (g x)) where
  pub Simulates-for_separated :
      {comma : Action Writer} {comma' : Action Text}
      → Simulates comma comma'
      → (later : Bool) (xs : List A)
      → Simulates (for_separated comma f later xs) (for_separated comma' g later xs)
  unfolding for_separated
  Simulates-for_separated c later [] = Simulates-done
  Simulates-for_separated c later (x ∷ xs) =
      Simulates-then (Simulates-if later c Simulates-done)
        (Simulates-then (each x) (Simulates-for_separated c true xs))

  pub Simulates-for_each : (xs : List A) → Simulates (for_each f xs) (for_each g xs)
  unfolding for_each
  Simulates-for_each [] = Simulates-done
  Simulates-for_each (x ∷ xs) = Simulates-seq (each x) (Simulates-for_each xs)
