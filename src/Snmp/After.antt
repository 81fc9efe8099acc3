-- ===== src/Snmp/After.antt =====
-- What comes after an identifier in a table of internal/protocols/snmpserver/oid.go.
use mockly.Base.{
  ℕ, zero, suc, ◌≡◌, refl, sym, ap, ◌∙◌, Bool, true, false, Option, none, some, List, [], ◌∷◌,
  arith, ltb, leb, drop, get_elem?, Bool-cases, inl, inr, ◌≢◌, not, ◌&&◌, ◌||◌, ◌==◌, filter,
}
use mockly.Snmp.{Oid, compare_byte_string}
use mockly.Snmp.Search.{Rising, Rising-get_elem?, at_most, at_most_antisym}
use mockly.Snmp.Find.{Splits}

-- No identifier stands twice.
abbrev pub IsDistinct : List Oid → Type 0
IsDistinct oids =
    (i j : ℕ) (o : Oid) → get_elem? oids i ≡ some o → get_elem? oids j ≡ some o → i ≡ j

-- One identifier stands before another in a dictionary.
abbrev pub precedes : Oid → Oid → Bool
precedes [] [] = false
precedes [] (y ∷ b) = true
precedes (x ∷ a) [] = false
precedes (x ∷ a) (y ∷ b) = ltb x y || (x == y && precedes a b)

abbrev pub is_after : Option Oid → Oid → Bool
is_after none b = false
is_after (some a) b = precedes a b

precedes-at_most : (a b : Oid) → precedes a b ≡ not (at_most b a)
unfolding compare_byte_string
precedes-at_most [] [] = refl
precedes-at_most [] (y ∷ b) = refl
precedes-at_most (x ∷ a) [] = refl
precedes-at_most (x ∷ a) (y ∷ b) = ground (arith, precedes-at_most a b)

at_most_total : (a b : Oid) → at_most a b ≡ false → at_most b a ≡ true
unfolding compare_byte_string
at_most_total [] [] h = ground arith
at_most_total [] (y ∷ b) h = ground arith
at_most_total (x ∷ a) [] h = refl
at_most_total (x ∷ a) (y ∷ b) h = ground (arith, at_most_total a b)

pub drop-filter :
    {A : Type 0} (p : A → Bool) (xs : List A) (i : ℕ)
    → ((m : ℕ) (x : A) → get_elem? xs m ≡ some x → p x ≡ leb i m)
    → drop i xs ≡ filter p xs
drop-filter p [] zero h = refl
drop-filter p [] (suc i) h = refl
drop-filter p (x ∷ xs) zero h =
    let kept : p x ≡ true = h 0 x refl ∙ ground arith in
    rw kept (ap (λ l. x ∷ l) (drop-filter p xs zero (λ m y e. h (suc m) y e ∙ ground arith)))
drop-filter p (x ∷ xs) (suc i) h =
    let gone : p x ≡ false = h 0 x refl ∙ ground arith in
    rw gone (drop-filter p xs i (λ m y e. h (suc m) y e ∙ ground arith))

-- What comes after an identifier in a sorted table, by its place.
pub found-precedes :
    (oids : List Oid) (q b : Oid) (i m : ℕ)
    → Rising oids
    → IsDistinct oids
    → Splits oids q i
    → get_elem? oids i ≡ some q
    → get_elem? oids m ≡ some b
    → precedes q b ≡ leb (suc i) m
found-precedes oids q b i m h distinct (bound, splits) at_i at_m =
    elim (Bool-cases (leb (suc i) m)) [
      | inl e ↦ elim (Bool-cases (at_most b q)) [
        | inl below ↦
            let same : b ≡ q = at_most_antisym b q below ((splits m b at_m).1 (ground arith)) in
            let place : m ≡ i = distinct m i q (at_m ∙ ap some same) at_i in absurd (ground arith)
        | inr above ↦ precedes-at_most q b ∙ ap not above ∙ sym e
      ]
      | inr e ↦
          precedes-at_most q b
          ∙ ap not (Rising-get_elem? oids m i b q h (ground arith) at_m at_i)
          ∙ sym e
    ]

pub missing-precedes :
    (oids : List Oid) (q b : Oid) (i m : ℕ)
    → Splits oids q i
    → ((j : ℕ) → get_elem? oids j ≢ some q)
    → get_elem? oids m ≡ some b
    → precedes q b ≡ leb i m
missing-precedes oids q b i m (bound, splits) missing at_m = elim (Bool-cases (leb i m)) [
  | inl e ↦ elim (Bool-cases (at_most b q)) [
    | inl below ↦
        let same : b ≡ q = at_most_antisym b q below ((splits m b at_m).1 (ground arith)) in
        absurd (missing m (at_m ∙ ap some same))
    | inr above ↦ precedes-at_most q b ∙ ap not above ∙ sym e
  ]
  | inr e ↦ elim (Bool-cases (at_most q b)) [
    | inl over ↦ let le = (splits m b at_m).0 over in absurd (ground arith)
    | inr under ↦ precedes-at_most q b ∙ ap not (at_most_total q b under) ∙ sym e
  ]
]
