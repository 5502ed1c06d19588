-- ===== src/Base/Collect.antt =====
-- A loop of the shape that the collectors share: while an array has room, read one thing after the
-- other and append what was found. What the array holds in the end, stated without the loop.
use Prim.Native.Nat.{ℕ, zero, suc, ◌-◌, ◌≤◌, ◌<◌}
use mathlib.Core.Path.{◌≡◌, refl, sym, ap, ◌∙◌}
use mathlib.Core.Bool.{Bool, false}
use mathlib.Core.Logic.{inl, inr}
use mathlib.Core.Option.{Option, none, some, some-injective}
use mathlib.Core.List.{List, [], ◌∷◌, ◌++◌, append-nil, append_assoc}
use native.Mathlib.Omega.{arith}
use thermal_observatory.Base.Tests.{
  ltb, leb, leb→le, if◌then◌else◌, ltb→lt, Bool-cases, ◌>>=◌, >>=-eq-some,
}
use thermal_observatory.Base.Lists.{length, length-append, take, length-take}
use thermal_observatory.Base.Loops.{while_room}

take_none {ℓ} : {A : Type ℓ} (n : ℕ) → take {A = A} n [] ≡ []
take_none zero = refl
take_none (suc n) = refl

take_zero {ℓ} : {A : Type ℓ} (n : ℕ) (xs : List A) → n ≡ 0 → take n xs ≡ []
take_zero zero xs h = refl
take_zero (suc n) xs h = absurd (omega arith)

take_more {ℓ} :
    {A : Type ℓ} (n : ℕ) (x : A) (xs : List A) → 0 < n → take n (x ∷ xs) ≡ x ∷ take (n - 1) xs
take_more zero x xs h = absurd (omega arith)
take_more (suc n) x xs h = ap (λ k. x ∷ take k xs) (omega arith)

-- The elements before, and behind them the others as far as there is room for `cap`.
abbrev pub fill {ℓ} : {B : Type ℓ} → ℕ → List B → List B → List B
fill cap before others = before ++ take (cap - length before) others

pub fill_none {ℓ} : {B : Type ℓ} (cap : ℕ) (before : List B) → before ≡ fill cap before []
fill_none cap before = rw (take_none (cap - length before)) (sym (append-nil before))

fill_full {ℓ} :
    {B : Type ℓ} (cap : ℕ) (before others : List B)
    → cap ≤ length before
    → before ≡ fill cap before others
fill_full cap before others full =
    rw (take_zero (cap - length before) others (omega arith)) (sym (append-nil before))

fill_more {ℓ} :
    {B : Type ℓ} (cap : ℕ) (before : List B) (b : B) (others : List B)
    → length before < cap
    → fill cap (before ++ b ∷ []) others ≡ fill cap before (b ∷ others)
fill_more cap before b others lt = rw (take_more (cap - length before) b others (omega arith)) (
    append_assoc before (b ∷ []) (take (cap - length (before ++ b ∷ [])) others)
    ∙ ap (λ k. before ++ b ∷ take k others) (omega (arith, length-append before (b ∷ []))))

pub take-append {ℓ} :
    {B : Type ℓ} (n : ℕ) (xs ys : List B) → take n (xs ++ ys) ≡ take n xs ++ take (n - length xs) ys
take-append zero xs ys = sym (take_zero (0 - length xs) ys (omega arith))
take-append (suc n) [] ys = let all : suc n ≡ suc n - 0 = omega arith in ap (λ k. take k ys) all
take-append (suc n) (x ∷ xs) ys =
    let left : n - length xs ≡ suc n - suc (length xs) = omega arith in
    ap (◌∷◌ x) (take-append n xs ys ∙ ap (λ k. take n xs ++ take k ys) left)

-- What is appended in two steps may be appended in one.
pub fill-fill {ℓ} :
    {B : Type ℓ} (cap : ℕ) (before xs ys : List B)
    → fill cap (fill cap before xs) ys ≡ fill cap before (xs ++ ys)
fill-fill cap before xs ys =
    let room = cap - length before in
    let left : cap - length (fill cap before xs) ≡ room - length xs =
      omega (arith, length-append before (take room xs), length-take room xs) in
    append_assoc before (take room xs) (take (cap - length (fill cap before xs)) ys)
    ∙ ap (λ k. before ++ (take room xs ++ take k ys)) left
    ∙ ap (λ zs. before ++ zs) (sym (take-append room xs ys))

-- One element appended where there is room.
pub fill_one {ℓ} :
    {B : Type ℓ} (cap : ℕ) (before : List B) (b : B)
    → (if leb cap (length before) then before else before ++ b ∷ []) ≡ fill cap before (b ∷ [])
fill_one cap before b = elim (Bool-cases (leb cap (length before))) [
  | inl full ↦ rw full (fill_full cap before (b ∷ []) (leb→le _ _ full))
  | inr free ↦ rw free (
      fill_none cap (before ++ b ∷ [])
      ∙ fill_more cap before b [] (lt_of_not_leb cap (length before) free))
]
  where
    lt_of_not_leb : (a c : ℕ) → leb a c ≡ false → c < a
    lt_of_not_leb a c h = ground arith

ltb-false : (a b : ℕ) → ltb a b ≡ false → b ≤ a
ltb-false a b h = ground arith

-- What a round found: nothing to add, or one element. The outer `none` is a fault.
abbrev pub cons_found {ℓ} : {B : Type ℓ} → Option (Option B) → List B → List B
cons_found none bs = bs
cons_found (some none) bs = bs
cons_found (some (some b)) bs = b ∷ bs

-- All that can be read, in the order of the list.
unfoldable pub all_found {ℓ κ} :
    {A : Type ℓ} {B : Type κ} → (A → Option (Option B)) → List A → List B
all_found read [] = []
all_found read (x ∷ xs) = cons_found (read x) (all_found read xs)

abbrev pub add_found {ℓ κ} : {S : Type ℓ} {B : Type κ} → (S → B → S) → S → Option B → S
add_found add s none = s
add_found add s (some b) = add s b

-- That a loop has this shape: `get` is the array in the state, and `add` appends to it.
pub record Collects {ℓ κ μ} {A : Type ℓ} {B : Type κ} {S : Type μ} (get : S → List B) (cap : ℕ)
    (add : S → B → S) (read : A → Option (Option B)) (room : S → Bool) (body : A → S → Option S)
    : Type (ℓ ⊔ κ ⊔ μ) where
  pub has_room : (s : S) → room s ≡ ltb (length (get s)) cap
  pub appends : (s : S) (b : B) → get (add s b) ≡ get s ++ b ∷ []
  pub reads : (x : A) (s : S) → body x s ≡ (read x >>= λ found. some (add_found add s found))

module _ {ℓ κ μ} {A : Type ℓ} {B : Type κ} {S : Type μ} {get : S → List B} {cap : ℕ}
    {add : S → B → S} {read : A → Option (Option B)} {room : S → Bool} {body : A → S → Option S}
    (c : Collects get cap add read room body) where
  get-add_found :
      (s : S) (found : Option B) (others : List B)
      → length (get s) < cap
      → fill cap (get (add_found add s found)) others
        ≡ fill cap (get s) (cons_found (some found) others)
  get-add_found s none others lt = refl
  get-add_found s (some b) others lt = rw (c.appends s b) (fill_more cap (get s) b others lt)

  -- Where no round faults, the array holds in the end what it held before, and behind that what
  -- can be read, in its order, the first of it as far as there is room.
  pub while_room-fill :
      (xs : List A) (s t : S)
      → while_room room body xs s ≡ some t
      → get t ≡ fill cap (get s) (all_found read xs)
  unfolding while_room all_found
  while_room-fill [] s t h = ap get (sym (some-injective _ _ h)) ∙ fill_none cap (get s)
  while_room-fill (x ∷ xs) s t h = elim (Bool-cases (room s)) [
    | inl more ↦
        let (u, here, later) = >>=-eq-some (body x s) (while_room room body xs) (rw more at h) in
        let (found, r, e) =
          >>=-eq-some (read x) (λ o. some (add_found add s o)) (sym (c.reads x s) ∙ here) in
        while_room-fill xs u t later
        ∙ ap (λ v. fill cap (get v) (all_found read xs)) (sym (some-injective _ _ e))
        ∙ get-add_found s found (all_found read xs) (ltb→lt _ _ (sym (c.has_room s) ∙ more))
        ∙ ap (λ o. fill cap (get s) (cons_found o (all_found read xs))) (sym r)
    | inr full ↦
        ap get (sym (some-injective _ _ (rw full at h)))
        ∙ fill_full cap (get s) (cons_found (read x) (all_found read xs))
            (ltb-false _ _ (sym (c.has_room s) ∙ full))
  ]

-- A reading that is appended at once is one that was found.
pub reads_always {ℓ κ} :
    {B : Type ℓ} {S : Type κ} (add : S → B → S) (s : S) (o : Option B)
    → (o >>= λ b. some (add s b))
      ≡ ((o >>= λ b. some (some b)) >>= λ found. some (add_found add s found))
reads_always add s none = refl
reads_always add s (some b) = refl
