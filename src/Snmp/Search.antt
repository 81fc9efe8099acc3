-- ===== src/Snmp/Search.antt =====
-- The order and the search of internal/protocols/snmpserver/oid.go.
use mathlib.Core.Path.{subst}
use mockly.Base.{
  ℕ, zero, suc, ◌+◌, ◌/◌, ◌≤◌, ◌<◌, ◌≡◌, refl, sym, Bool, true, false, not, some, List, [], ◌∷◌,
  arith, ltb, length, get_elem?, Bool-cases, All, inl, inr,
}
use mockly.Snmp.{Oid, compare_byte_string, search, is_negative, is_zero}

-- The first of two identifiers does not come after the second.
abbrev pub at_most : Oid → Oid → Bool
at_most a b = not (is_negative (compare_byte_string b a))

pub at_most_trans : (a b c : Oid) → at_most a b ≡ true → at_most b c ≡ true → at_most a c ≡ true
unfolding compare_byte_string
at_most_trans [] [] c h k = k
at_most_trans [] (y ∷ b) [] h k = refl
at_most_trans [] (y ∷ b) (z ∷ c) h k = refl
at_most_trans (x ∷ a) [] c h k = cc
at_most_trans (x ∷ a) (y ∷ b) [] h k = cc
at_most_trans (x ∷ a) (y ∷ b) (z ∷ c) h k = ground (arith, at_most_trans a b c)

pub at_most_refl : (a : Oid) → at_most a a ≡ true
unfolding compare_byte_string
at_most_refl [] = refl
at_most_refl (x ∷ a) = ground (arith, at_most_refl a)

pub at_most_antisym : (a b : Oid) → at_most a b ≡ true → at_most b a ≡ true → a ≡ b
unfolding compare_byte_string
at_most_antisym [] [] h k = refl
at_most_antisym [] (y ∷ b) h k = cc
at_most_antisym (x ∷ a) [] h k = cc
at_most_antisym (x ∷ a) (y ∷ b) h k = ground (arith, at_most_antisym a b)

pub zero_sound : (a b : Oid) → is_zero (compare_byte_string a b) ≡ true → a ≡ b
unfolding compare_byte_string
zero_sound [] [] h = refl
zero_sound [] (y ∷ b) h = cc
zero_sound (x ∷ a) [] h = cc
zero_sound (x ∷ a) (y ∷ b) h = ground (arith, zero_sound a b)

pub zero_refl : (a : Oid) → is_zero (compare_byte_string a a) ≡ true
unfolding compare_byte_string
zero_refl [] = refl
zero_refl (x ∷ a) = ground (arith, zero_refl a)

-- `f` turns true at `r`, at most at `n`.
abbrev pub TurnsAt : ℕ → (ℕ → Bool) → ℕ → Type 0
TurnsAt n f r = (r ≤ n) × ((m : ℕ) → m < r → f m ≡ false) × ((m : ℕ) → r ≤ m → m < n → f m ≡ true)

search-done : (fuel : ℕ) (f : ℕ → Bool) (i j : ℕ) → ltb i j ≡ false → search (suc fuel) f i j ≡ i
unfolding search
search-done fuel f i j h = ground arith

search-left :
    (fuel : ℕ) (f : ℕ → Bool) (i j : ℕ)
    → ltb i j ≡ true
    → f ((i + j) / 2) ≡ true
    → search (suc fuel) f i j ≡ search fuel f i ((i + j) / 2)
unfolding search
search-left fuel f i j h k = ground arith

search-right :
    (fuel : ℕ) (f : ℕ → Bool) (i j : ℕ)
    → ltb i j ≡ true
    → f ((i + j) / 2) ≡ false
    → search (suc fuel) f i j ≡ search fuel f (suc ((i + j) / 2)) j
unfolding search
search-right fuel f i j h k = ground arith

pub search-TurnsAt :
    (n fuel : ℕ) (f : ℕ → Bool) (i j : ℕ)
    → ((a b : ℕ) → a ≤ b → b < n → f a ≡ true → f b ≡ true)
    → j ≤ i + fuel
    → i ≤ j
    → j ≤ n
    → ((m : ℕ) → m < i → f m ≡ false)
    → ((m : ℕ) → j ≤ m → m < n → f m ≡ true)
    → TurnsAt n f (search fuel f i j)
unfolding search
search-TurnsAt n zero f i j mono short le bound low high =
    (omega arith, low, λ m h k. high m (omega arith) k)
search-TurnsAt n (suc fuel) f i j mono short le bound low high =
    let h = (i + j) / 2 in
    elim (Bool-cases (ltb i j)) [
      | inr done ↦
          subst (TurnsAt n f) (sym (search-done fuel f i j done))
            (omega arith, low, λ m le' k. high m (ground arith) k)
      | inl more ↦ elim (Bool-cases (f h)) [
        | inl here ↦ subst (TurnsAt n f) (sym (search-left fuel f i j more here)) (
            search-TurnsAt n fuel f i h mono (ground arith) (ground arith) (ground arith) low
              (λ m le' k. mono h m le' k here))
        | inr there ↦ subst (TurnsAt n f) (sym (search-right fuel f i j more there)) (
            search-TurnsAt n fuel f (suc h) j mono (ground arith) (ground arith) bound
              (λ m lt. below f h mono there (ground arith) m (omega arith)) high)
      ]
    ]
  where
    below :
        (f : ℕ → Bool) (h : ℕ)
        → ((a b : ℕ) → a ≤ b → b < n → f a ≡ true → f b ≡ true)
        → f h ≡ false
        → h < n
        → (m : ℕ) → m ≤ h
        → f m ≡ false
    below f h mono there lt m le = elim (Bool-cases (f m)) [
      | inl above ↦ absurd (cc (mono m h le lt above, there))
      | inr short ↦ short
    ]

-- A table whose identifiers do not fall, as `sortOIDs` leaves it.
abbrev pub Rising : List Oid → Type 0
Rising [] = Unit
Rising (a ∷ oids) = All (λ b. at_most a b ≡ true) oids × Rising oids

All-get_elem? :
    (a : Oid) (oids : List Oid) (i : ℕ) (b : Oid)
    → All (λ b. at_most a b ≡ true) oids
    → get_elem? oids i ≡ some b
    → at_most a b ≡ true
All-get_elem? a [] i b h e = cc
All-get_elem? a (x ∷ oids) zero b (one, h) e = ground arith
All-get_elem? a (x ∷ oids) (suc i) b (one, h) e = All-get_elem? a oids i b h e

pub Rising-get_elem? :
    (oids : List Oid) (i j : ℕ) (a b : Oid)
    → Rising oids
    → i ≤ j
    → get_elem? oids i ≡ some a
    → get_elem? oids j ≡ some b
    → at_most a b ≡ true
Rising-get_elem? [] i j a b h le e k = cc
Rising-get_elem? (x ∷ oids) zero zero a b h le e k = ground (arith, at_most_refl x)
Rising-get_elem? (x ∷ oids) zero (suc j) a b (first, h) le e k =
    ground (arith, All-get_elem? x oids j b first k)
Rising-get_elem? (x ∷ oids) (suc i) zero a b h le e k = absurd (omega arith)
Rising-get_elem? (x ∷ oids) (suc i) (suc j) a b (first, h) le e k =
    Rising-get_elem? oids i j a b h (omega arith) e k

pub get_elem?-below :
    (oids : List Oid) (i : ℕ) → i < length oids → (b : Oid) × (get_elem? oids i ≡ some b)
get_elem?-below [] i h = absurd (omega arith)
get_elem?-below (x ∷ oids) zero h = (x, refl)
get_elem?-below (x ∷ oids) (suc i) h = get_elem?-below oids i (omega arith)

pub below-get_elem? :
    (oids : List Oid) (i : ℕ) (b : Oid) → get_elem? oids i ≡ some b → i < length oids
below-get_elem? [] i b e = cc
below-get_elem? (x ∷ oids) zero b e = omega arith
below-get_elem? (x ∷ oids) (suc i) b e = omega (arith, below-get_elem? oids i b e)
