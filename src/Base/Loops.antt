-- ===== src/Base/Loops.antt =====
-- `for (i = 0; i < n && count < capacity; ++i)`: a loop over a list that stops when an array is full.
-- A body may fault, and then the loop has no result.
use mathlib.Core.Path.{◌≡◌, refl, subst}
use mathlib.Core.Bool.{Bool, true}
use mathlib.Core.Logic.{inl, inr}
use mathlib.Core.Option.{Option, none, some, some-injective}
use mathlib.Core.List.{List, [], ◌∷◌}
use thermal_observatory.Base.Tests.{if◌then◌else◌, ◌>>=◌, Bool-cases, >>=-eq-some}
use thermal_observatory.Base.Lists.{All}

module _ {ℓ κ} {A : Type ℓ} {S : Type κ} (room : S → Bool) (body : A → S → Option S) where
  unfoldable pub while_room : List A → S → Option S
  while_room [] s = some s
  while_room (x ∷ xs) s =
      let rest = (do t ← body x s; while_room xs t) in if room s then rest else some s

module _ {ℓ κ μ} {A : Type ℓ} {S : Type κ} (room : S → Bool) (body : A → S → Option S) where
  -- Where no round faults, the loop has a result.
  pub while_room_total :
      (Q : A → Type μ)
      → ((x : A) (s : S) → Q x → (t : S) × (body x s ≡ some t))
      → (xs : List A) (s : S) → All Q xs
      → (t : S) × (while_room room body xs s ≡ some t)
  unfolding while_room
  while_room_total Q total [] s h = (s, refl)
  while_room_total Q total (x ∷ xs) s h = elim (Bool-cases (room s)) [
    | inl more ↦
        let (u, here) = total x s h.0 in
        let (t, later) = while_room_total Q total xs u h.1 in (t, rw more (rw here later))
    | inr full ↦ (s, rw full)
  ]

-- `if (glob(…) == 0) { … }`: without a list of paths nothing happens.
module _ {ℓ κ} {A : Type ℓ} {S : Type κ} where
  abbrev pub with_list : Option (List A) → (List A → S → Option S) → S → Option S
  with_list none body s = some s
  with_list (some xs) body s = body xs s

  pub with_list_inv {μ} :
      (P : S → Type μ) (o : Option (List A)) (body : List A → S → Option S)
      → (s : S) → ((xs : List A) (t : S) → body xs s ≡ some t → P t)
      → (t : S) → P s
      → with_list o body s ≡ some t
      → P t
  with_list_inv P none body s keep t h e = subst P (some-injective _ _ e) h
  with_list_inv P (some xs) body s keep t h e = keep xs t e

module _ {ℓ κ μ} {A : Type ℓ} {S : Type κ} (room : S → Bool) (body : A → S → Option S)
    (P : S → Type μ) where
  -- What each round keeps, while there is room, the loop keeps.
  pub while_room_inv :
      ((x : A) (s t : S) → P s → room s ≡ true → body x s ≡ some t → P t)
      → (xs : List A) (s t : S) → P s
      → while_room room body xs s ≡ some t
      → P t
  unfolding while_room
  while_room_inv keep [] s t h e = subst P (some-injective _ _ e) h
  while_room_inv keep (x ∷ xs) s t h e = elim (Bool-cases (room s)) [
    | inl more ↦
        let (u, here, later) =
          >>=-eq-some (body x s) (λ t. while_room room body xs t) (rw more at e) in
        while_room_inv keep xs u t (keep x s u h more here) later
    | inr full ↦ subst P (some-injective _ _ (rw full at e)) h
  ]
