-- ===== src/Json/Tree/Nul.antt =====
-- The text of a readable value has no NUL in it, so that a C string holds all of it.
use thermal_observatory.Base.{
  ℕ, Bool, Bool-cases, true, false, ◌&&◌, ◌≡◌, refl, ap, ◌∙◌, inl, inr, [], ◌∷◌, ◌++◌, ◌==◌, Bytes,
  arith,
}
use thermal_observatory.Json.Tree.{
  Json, bool, null, num, str, arr, obj, Items, nil, cons, Fields, end, field, print, print_items,
  print_fields, escaped, escape,
}
use thermal_observatory.Json.Tree.Numbers.{
  State, bad, start, is_number, is_other, symbol, step, run, accepts, step-other, not_accepted,
}
use thermal_observatory.Json.Tree.Reader.{is_readable, are_readable, have_readable}
use thermal_observatory.Json.Tree.RoundTrip.{and-true}
use thermal_observatory.Json.Tree.Strings.{is_text, is_text_byte}
use thermal_observatory.Libc.Scan.{take_until}

take_until-escape :
    (c : ℕ) (s : Bytes)
    → is_text_byte c ≡ true
    → take_until 0 (escape c ++ s) ≡ escape c ++ take_until 0 s
unfolding take_until escape is_text_byte
take_until-escape c s h = ground arith

take_until-escaped :
    (s rest : Bytes)
    → is_text s ≡ true
    → take_until 0 (escaped s rest) ≡ escaped s (take_until 0 rest)
unfolding escaped is_text
take_until-escaped [] rest h = unfold take_until in refl
take_until-escaped (c ∷ s) rest h =
    let (here, later) = and-true (is_text_byte c) (is_text s) h in
    take_until-escape c (escaped s rest) here
    ∙ ap (◌++◌ (escape c)) (take_until-escaped s rest later)

symbol-nul : (c : ℕ) → is_other (symbol c) ≡ false → (c == 0) ≡ false
unfolding symbol is_other
symbol-nul c h = ground arith

take_until-number :
    (state : State) (s rest : Bytes)
    → accepts (run state s) ≡ true
    → take_until 0 (s ++ rest) ≡ s ++ take_until 0 rest
unfolding run take_until
take_until-number state [] rest h = refl
take_until-number state (c ∷ s) rest h = elim (Bool-cases (is_other (symbol c))) [
  | inl off ↦
      let dead : step state (symbol c) ≡ bad = step-other state (symbol c) off in
      let refused = not_accepted s in cc (refused, rw dead at h)
  | inr on ↦ rw (symbol-nul c on) (ap (◌∷◌ c) (take_until-number (step state (symbol c)) s rest h))
]

abbrev Kept : Json → Type 0
Kept v =
    is_readable v ≡ true
    → (rest : Bytes) → take_until 0 (print v rest) ≡ print v (take_until 0 rest)

abbrev KeptItems : Items → Type 0
KeptItems xs =
    are_readable xs ≡ true
    → (later : Bool) (rest : Bytes)
    → take_until 0 (print_items later xs rest) ≡ print_items later xs (take_until 0 rest)

abbrev KeptFields : Fields → Type 0
KeptFields fs =
    have_readable fs ≡ true
    → (later : Bool) (rest : Bytes)
    → take_until 0 (print_fields later fs rest) ≡ print_fields later fs (take_until 0 rest)

items-Kept : (x : Json) (xs : Items) → Kept x → KeptItems xs → KeptItems (cons x xs)
unfolding are_readable print_items take_until
items-Kept x xs ih ihs h later rest =
    let (hx, hxs) = and-true (is_readable x) (are_readable xs) h in
    let here = ih hx (print_items true xs rest) ∙ ap (print x) (ihs hxs true rest) in
    elim later
      as (λ later.
        take_until 0 (print_items later (cons x xs) rest)
        ≡ print_items later (cons x xs) (take_until 0 rest)) [
          | true ↦ ap (◌∷◌ b',') here
          | false ↦ here
        ]

fields-Kept :
    (key : Bytes) (x : Json) (fs : Fields) → Kept x → KeptFields fs → KeptFields (field key x fs)
unfolding have_readable print_fields take_until
fields-Kept key x fs ih ihs h later rest =
    let (hk, hb) = and-true (is_text key) (is_readable x && have_readable fs) h in
    let (hx, hfs) = and-true (is_readable x) (have_readable fs) hb in
    let value = ih hx (print_fields true fs rest) ∙ ap (print x) (ihs hfs true rest) in
    let here =
      take_until-escaped key (b':' ∷ print x (print_fields true fs rest)) hk
      ∙ ap (λ t. escaped key (b':' ∷ t)) value in
    elim later
      as (λ later.
        take_until 0 (print_fields later (field key x fs) rest)
        ≡ print_fields later (field key x fs) (take_until 0 rest)) [
          | true ↦ ap (λ t. b',' ∷ b'"' ∷ t) here
          | false ↦ ap (◌∷◌ b'"') here
        ]

-- A NUL that follows is the first one.
pub take_until-print : (v : Json) → Kept v
unfolding is_readable are_readable have_readable print print_items print_fields take_until is_number
take_until-print v = elim v as Kept KeptItems KeptFields [
  | bool true ↦ λ h rest. refl
  | bool false ↦ λ h rest. refl
  | null ↦ λ h rest. refl
  | num text ↦ λ h rest. take_until-number start text rest h
  | str s ↦ λ h rest. ap (◌∷◌ b'"') (take_until-escaped s rest h)
  | arr (xs → ih) ↦ λ h rest. ap (◌∷◌ b'[') (ih h false (b']' ∷ rest))
  | obj (fs → ih) ↦ λ h rest. ap (◌∷◌ b'{') (ih h false (b'}' ∷ rest))
  | nil ↦ λ h later rest. refl
  | cons (x → ih) (xs → ihs) ↦ items-Kept x xs ih ihs
  | end ↦ λ h later rest. refl
  | field key (x → ih) (fs → ihs) ↦ fields-Kept key x fs ih ihs
]
