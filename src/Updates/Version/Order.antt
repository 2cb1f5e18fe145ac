-- ===== src/Updates/Version/Order.antt =====
-- `compareVersions` orders versions (crates/openbc-ui-qt/cpp/home/release_logic.h).
use Prim.Native.Nat.{Ordering}
use open_bc.Prelude.{ℕ, zero, suc, List, [], ◌∷◌, Text, ◌≡◌, ◌≢◌, ◌↔◌, refl, sym, ap, ◌∙◌, arith}
use open_bc.Updates.Version.{compare_versions, compare_parts, component, parse_version}

unfoldable pub flip : Ordering → Ordering
flip Ordering.lt = Ordering.gt
flip Ordering.eq = Ordering.eq
flip Ordering.gt = Ordering.lt

component-flip : (l r : ℕ) (o : Ordering) → component r l (flip o) ≡ flip (component l r o)
unfolding component flip
component-flip l r o = ground arith

compare_parts-flip : (x y : List ℕ) → compare_parts y x ≡ flip (compare_parts x y)
unfolding compare_parts
compare_parts-flip [] [] = unfold flip in refl
compare_parts-flip [] (r ∷ y) = rw (compare_parts-flip [] y) (component-flip 0 r _)
compare_parts-flip (l ∷ x) [] = rw (compare_parts-flip x []) (component-flip l 0 _)
compare_parts-flip (l ∷ x) (r ∷ y) = rw (compare_parts-flip x y) (component-flip l r _)

-- Not below: transitive, whatever the components.
component-ge :
    (a b c : ℕ) (ab bc ac : Ordering)
    → (ab ≢ Ordering.lt → bc ≢ Ordering.lt → ac ≢ Ordering.lt)
    → component a b ab ≢ Ordering.lt
    → component b c bc ≢ Ordering.lt
    → component a c ac ≢ Ordering.lt
unfolding component
component-ge a b c ab bc ac k p q = ground arith

compare_parts-ge :
    (x y z : List ℕ)
    → compare_parts x y ≢ Ordering.lt
    → compare_parts y z ≢ Ordering.lt
    → compare_parts x z ≢ Ordering.lt
unfolding compare_parts
compare_parts-ge [] [] z p q = q
compare_parts-ge [] (b ∷ y) [] p q = λ e. cc
compare_parts-ge [] (b ∷ y) (c ∷ z) p q = component-ge 0 b c _ _ _ (compare_parts-ge [] y z) p q
compare_parts-ge (a ∷ x) [] [] p q = p
compare_parts-ge (a ∷ x) [] (c ∷ z) p q = component-ge a 0 c _ _ _ (compare_parts-ge x [] z) p q
compare_parts-ge (a ∷ x) (b ∷ y) [] p q = component-ge a b 0 _ _ _ (compare_parts-ge x y []) p q
compare_parts-ge (a ∷ x) (b ∷ y) (c ∷ z) p q = component-ge a b c _ _ _ (compare_parts-ge x y z) p q

-- The comparison is a total preorder, as the sort needs it: swapping the versions flips the answer,
-- and "at least as new as" is transitive.
pub compare_versions_preorder :
    (a b c : Text)
    → (compare_versions b a ≡ flip (compare_versions a b))
      × (compare_versions a b ≢ Ordering.lt
          → compare_versions b c ≢ Ordering.lt
          → compare_versions a c ≢ Ordering.lt)
unfolding compare_versions
compare_versions_preorder a b c = (
  compare_parts-flip (parse_version a) (parse_version b),
  compare_parts-ge (parse_version a) (parse_version b) (parse_version c),
)

-- The component at a position; a missing one counts as 0.
pub part : List ℕ → ℕ → ℕ
part [] i = 0
part (n ∷ ns) zero = n
part (n ∷ ns) (suc i) = part ns i

component-eq :
    (l r : ℕ) (o : Ordering) → (component l r o ≡ Ordering.eq) ↔ ((l ≡ r) × (o ≡ Ordering.eq))
unfolding component
component-eq l r o = (λ e. (ground arith, ground arith), λ h. ground (arith, h.0, h.1))

parts-eq : (x y : List ℕ) → compare_parts x y ≡ Ordering.eq → (i : ℕ) → part x i ≡ part y i
unfolding compare_parts part
parts-eq [] [] e i = refl
parts-eq [] (r ∷ y) e zero = ((component-eq _ _ _).0 e).0
parts-eq [] (r ∷ y) e (suc i) = parts-eq [] y (((component-eq _ _ _).0 e).1) i
parts-eq (l ∷ x) [] e zero = ((component-eq _ _ _).0 e).0
parts-eq (l ∷ x) [] e (suc i) = parts-eq x [] (((component-eq _ _ _).0 e).1) i
parts-eq (l ∷ x) (r ∷ y) e zero = ((component-eq _ _ _).0 e).0
parts-eq (l ∷ x) (r ∷ y) e (suc i) = parts-eq x y (((component-eq _ _ _).0 e).1) i

eq-parts : (x y : List ℕ) → ((i : ℕ) → part x i ≡ part y i) → compare_parts x y ≡ Ordering.eq
unfolding compare_parts part
eq-parts [] [] h = refl
eq-parts [] (r ∷ y) h = (component-eq _ _ _).1 (h 0, eq-parts [] y (λ i. h (suc i)))
eq-parts (l ∷ x) [] h = (component-eq _ _ _).1 (h 0, eq-parts x [] (λ i. h (suc i)))
eq-parts (l ∷ x) (r ∷ y) h = (component-eq _ _ _).1 (h 0, eq-parts x y (λ i. h (suc i)))

equal_parts :
    (a b : Text)
    → (compare_versions a b ≡ Ordering.eq)
      ↔ ((i : ℕ) → part (parse_version a) i ≡ part (parse_version b) i)
unfolding compare_versions
equal_parts a b =
    (parts-eq (parse_version a) (parse_version b), eq-parts (parse_version a) (parse_version b))

-- Two versions compare equal exactly if they have the same component at every position, where a missing
-- component is 0. So a text without a component counts as the version 0: it is equal to every text
-- whose components are all 0, and to every other text without one.
pub compare_versions-eq :
    (a b : Text)
    → ((compare_versions a b ≡ Ordering.eq)
        ↔ ((i : ℕ) → part (parse_version a) i ≡ part (parse_version b) i))
      × (parse_version a ≡ []
          → (compare_versions a b ≡ Ordering.eq) ↔ ((i : ℕ) → part (parse_version b) i ≡ 0))
compare_versions-eq a b = (equal_parts a b, unnumbered)
  where
    unnumbered :
        parse_version a ≡ []
        → (compare_versions a b ≡ Ordering.eq) ↔ ((i : ℕ) → part (parse_version b) i ≡ 0)
    unnumbered e = (
      (λ h i. sym ((equal_parts a b).0 h i) ∙ nothing i),
      (λ h. (equal_parts a b).1 (λ i. nothing i ∙ sym (h i))),
    )
      where
        nothing : (i : ℕ) → part (parse_version a) i ≡ 0
        nothing i = ap (λ l. part l i) e ∙ unfold part in refl

pub equal_versions :
    (a b v : Text)
    → compare_versions a v ≡ Ordering.eq
    → compare_versions b v ≡ Ordering.eq
    → compare_versions a b ≡ Ordering.eq
equal_versions a b v p q =
    (equal_parts a b).1 (λ i. (equal_parts a v).0 p i ∙ sym ((equal_parts b v).0 q i))
