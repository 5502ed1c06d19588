-- ===== src/Text/Lines.antt =====
-- How many lines `tm_print_snapshot_text` prints.
use thermal_observatory.Base.{
  ℕ, ◌+◌, ◌≡◌, refl, ap, sym, ◌∙◌, true, [], ◌∷◌, ◌++◌, append_assoc, append-nil, List, Bytes, All,
  arith,
}
use thermal_observatory.Libc.Print.Plain.{newlines, HasLines, IsPlain, newlines-append}
use thermal_observatory.Snapshot.{Arch, x86_64, arm64, unknown}
use thermal_observatory.Json.{arch_name}
use thermal_observatory.Writer.{Action, Text, text_sink, text_of, ◌⨾◌, done, for_each}

pub arch_name-IsPlain : (arch : Arch) → IsPlain (arch_name arch)
unfolding arch_name newlines
arch_name-IsPlain x86_64 = refl
arch_name-IsPlain arm64 = refl
arch_name-IsPlain unknown = refl

-- An action that writes a text of `n` lines and returns 0.
pub record WritesLines (act : Action Text) (n : ℕ) : Type 0 where
  pub text : Bytes
  pub writes : (t : Text) → act t ≡ (true, λ rest. t (text ++ rest))
  pub count : newlines text ≡ n

pub line-WritesLines : {s : Bytes} {n : ℕ} → HasLines s n → WritesLines (text_sink.append s) n
line-WritesLines {s} h = record { text = s; writes = λ t. refl; count = h.counted }

pub done-WritesLines : WritesLines done 0
unfolding done newlines
done-WritesLines = record { text = []; writes = λ t. refl; count = refl }

pub seq-WritesLines :
    {a b : Action Text} {n m : ℕ} → WritesLines a n → WritesLines b m → WritesLines (a ⨾ b) (n + m)
unfolding ◌⨾◌
seq-WritesLines {a} {b} h k = record {
  text = h.text ++ k.text;
  writes = λ t.
      ap (λ r. b r.1) (h.writes t)
      ∙ k.writes (λ rest. t (h.text ++ rest))
      ∙ (λ i. (true, λ rest. t (sym (append_assoc h.text k.text rest) i)));
  count = newlines-append h.text k.text ∙ omega (arith, h.count, k.count);
}

-- The sum of a number for each element.
abbrev pub total {ℓ} : {A : Type ℓ} → (A → ℕ) → List A → ℕ
total f [] = 0
total f (x ∷ xs) = f x + total f xs

pub for_each-WritesLines {ℓ κ} :
    {A : Type ℓ} {body : A → Action Text} (f : A → ℕ) (Q : A → Type κ)
    → ((x : A) → Q x → WritesLines (body x) (f x))
    → (xs : List A) → All Q xs
    → WritesLines (for_each body xs) (total f xs)
unfolding for_each
for_each-WritesLines f Q each [] h = done-WritesLines
for_each-WritesLines f Q each (x ∷ xs) (here, later) =
    seq-WritesLines (each x here) (for_each-WritesLines f Q each xs later)

pub newlines-text_of : (act : Action Text) (n : ℕ) → WritesLines act n → newlines (text_of act) ≡ n
newlines-text_of act n h =
    ap (λ r. newlines (r.1 [])) (h.writes (λ rest. rest))
    ∙ ap newlines (append-nil h.text)
    ∙ h.count
