-- ===== src/Prelude/Lists.antt =====
-- Lists measured and indexed by native numbers, and predicates on lists.
use Prim.Native.Nat.{ℕ, zero, suc, ◌+◌}
use mathlib.Core.Path.{◌≡◌, refl}
use mathlib.Core.Bool.{Bool, true, false, ◌&&◌}
use mathlib.Core.List.{List, [], ◌∷◌, ◌++◌}
use mathlib.Core.Option.{Option, none, some}
use native.Mathlib.Omega.{arith}
use open_bc.Prelude.Tests.{if◌then◌else◌}

module _ {ℓ} {A : Type ℓ} where
  abbrev pub length : List A → ℕ
  length [] = 0
  length (x ∷ xs) = suc (length xs)

  abbrev pub get_elem? : List A → ℕ → Option A
  get_elem? [] i = none
  get_elem? (x ∷ xs) zero = some x
  get_elem? (x ∷ xs) (suc i) = get_elem? xs i

  abbrev pub take : ℕ → List A → List A
  take zero xs = []
  take (suc n) [] = []
  take (suc n) (x ∷ xs) = x ∷ take n xs

  abbrev pub drop : ℕ → List A → List A
  drop zero xs = xs
  drop (suc n) [] = []
  drop (suc n) (x ∷ xs) = drop n xs

  -- The elements that pass a test, in order.
  abbrev pub select : (A → Bool) → List A → List A
  select p [] = []
  select p (x ∷ xs) = if p x then x ∷ select p xs else select p xs

  abbrev pub is_empty : List A → Bool
  is_empty [] = true
  is_empty (x ∷ xs) = false

  pub length-append : (xs ys : List A) → length (xs ++ ys) ≡ length xs + length ys
  length-append [] ys = omega arith
  length-append (x ∷ xs) ys = omega (arith, length-append xs ys)

module _ {ℓ κ} {A : Type ℓ} (P : A → Type κ) where
  abbrev pub All : List A → Type κ
  All [] = Unit
  All (x ∷ xs) = P x × All xs

  pub All-append : (xs ys : List A) → All xs → All ys → All (xs ++ ys)
  All-append [] ys _ hy = hy
  All-append (x ∷ xs) ys (px, hx) hy = (px, All-append xs ys hx hy)

module _ {ℓ κ} {A : Type ℓ} (R : A → A → Type κ) where
  -- Every element stands in `R` to all that follow.
  abbrev pub Ordered : List A → Type κ
  Ordered [] = Unit
  Ordered (x ∷ xs) = All (R x) xs × Ordered xs

module _ {ℓ} {A : Type ℓ} where
  pub select-select :
      (p q : A → Bool) (l : List A) → select p (select q l) ≡ select (λ x. q x && p x) l
  select-select p q [] = refl
  select-select p q (x ∷ l) = ground (arith, select-select p q l)

  pub select-append :
      (p : A → Bool) (xs ys : List A) → select p (xs ++ ys) ≡ select p xs ++ select p ys
  select-append p [] ys = refl
  select-append p (x ∷ xs) ys = ground (arith, select-append p xs ys)

  pub All-select {κ} : (P : A → Type κ) (p : A → Bool) (l : List A) → All P l → All P (select p l)
  All-select P p [] h = tt
  All-select P p (x ∷ l) h = go (p x) (All-select P p l (h.1))
    where
      go : (b : Bool) → All P (select p l) → All P (if b then x ∷ select p l else select p l)
      go true ih = (h.0, ih)
      go false ih = ih

  pub Ordered-select {κ} :
      (R : A → A → Type κ) (p : A → Bool) (l : List A) → Ordered R l → Ordered R (select p l)
  Ordered-select R p [] h = tt
  Ordered-select R p (x ∷ l) h = go (p x) (Ordered-select R p l (h.1))
    where
      go :
          (b : Bool) → Ordered R (select p l) → Ordered R (if b then x ∷ select p l else select p l)
      go true ih = (All-select (R x) p l (h.0), ih)
      go false ih = ih
