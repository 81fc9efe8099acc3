-- ===== src/Snmp/Agent/Places.antt =====
-- The places of a table, by native numbers.
use mockly.Base.{
  ℕ, zero, suc, ◌≤◌, ◌<◌, ◌≡◌, refl, ap, none, some, List, [], ◌∷◌, arith, length, drop, get_elem?,
  map,
}

module _ {ℓ κ} {A : Type ℓ} {B : Type κ} where
  pub get_elem?-map :
      (f : A → B) (xs : List A) (i : ℕ) (x : A)
      → get_elem? xs i ≡ some x
      → get_elem? (map f xs) i ≡ some (f x)
  get_elem?-map f [] i x h = ground arith
  get_elem?-map f (y ∷ xs) zero x h = ground (arith, h)
  get_elem?-map f (y ∷ xs) (suc i) x h = get_elem?-map f xs i x h

  pub length-map : (f : A → B) (xs : List A) → length (map f xs) ≡ length xs
  length-map f [] = refl
  length-map f (x ∷ xs) = ap suc (length-map f xs)

module _ {ℓ} {A : Type ℓ} where
  pub some_injective : (x y : A) → some x ≡ some y → x ≡ y
  some_injective x y e = ap (λ o. elim o [ none ↦ x | some z ↦ z ]) e

  pub at-below : (xs : List A) (i : ℕ) (x : A) → get_elem? xs i ≡ some x → i < length xs
  at-below [] i x e = ground arith
  at-below (y ∷ xs) zero x e = omega arith
  at-below (y ∷ xs) (suc i) x e = omega (arith, at-below xs i x e)

  pub below-at : (xs : List A) (i : ℕ) → i < length xs → (x : A) × (get_elem? xs i ≡ some x)
  below-at [] i h = ground arith
  below-at (x ∷ xs) zero h = (x, refl)
  below-at (x ∷ xs) (suc i) h = below-at xs i (omega (arith, h))

  pub drop-at :
      (xs : List A) (i : ℕ) (x : A) → get_elem? xs i ≡ some x → drop i xs ≡ x ∷ drop (suc i) xs
  drop-at [] i x e = ground arith
  drop-at (y ∷ xs) zero x e = ap (λ z. z ∷ xs) (some_injective y x e)
  drop-at (y ∷ xs) (suc i) x e = drop-at xs i x e

  pub drop-over : (xs : List A) (i : ℕ) → length xs ≤ i → drop i xs ≡ []
  drop-over [] zero h = refl
  drop-over [] (suc i) h = refl
  drop-over (x ∷ xs) zero h = ground arith
  drop-over (x ∷ xs) (suc i) h = drop-over xs i (omega (arith, h))
