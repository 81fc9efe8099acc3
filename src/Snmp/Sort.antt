-- ===== src/Snmp/Sort.antt =====
-- `sortOIDs` of internal/protocols/snmpserver/oid.go.
use mockly.Base.{
  ℕ, suc, ◌≡◌, refl, ap, ◌∙◌, true, not, List, [], ◌∷◌, if◌then◌else◌, arith, All, Bool-cases, inl,
  inr,
}
use mockly.Snmp.{Oid, compare_byte_string, is_negative, is_zero, place_oid, sort_oids}
use mockly.Snmp.Search.{at_most, at_most_trans, Rising}

negative-at_most : (a b : Oid) → is_negative (compare_byte_string a b) ≡ true → at_most a b ≡ true
unfolding compare_byte_string
negative-at_most [] [] h = cc
negative-at_most [] (y ∷ b) h = refl
negative-at_most (x ∷ a) [] h = cc
negative-at_most (x ∷ a) (y ∷ b) h = ground (arith, negative-at_most a b)

All-at_most :
    (a b : Oid) (oids : List Oid)
    → at_most a b ≡ true
    → All (λ c. at_most b c ≡ true) oids
    → All (λ c. at_most a c ≡ true) oids
All-at_most a b [] h k = tt
All-at_most a b (c ∷ oids) h (one, k) = (at_most_trans a b c h one, All-at_most a b oids h k)

All-place_oid :
    (a b : Oid) (oids : List Oid)
    → at_most b a ≡ true
    → All (λ c. at_most b c ≡ true) oids
    → All (λ c. at_most b c ≡ true) (place_oid a oids)
unfolding place_oid
All-place_oid a b [] h k = (h, tt)
All-place_oid a b (c ∷ oids) h (one, k) =
    elim (Bool-cases (is_negative (compare_byte_string c a))) [
      | inl before ↦ rw before (one, All-place_oid a b oids h k)
      | inr behind ↦ rw behind (h, (one, k))
    ]

Rising-place_oid : (a : Oid) (oids : List Oid) → Rising oids → Rising (place_oid a oids)
unfolding place_oid
Rising-place_oid a [] h = (tt, tt)
Rising-place_oid a (b ∷ oids) (first, h) =
    elim (Bool-cases (is_negative (compare_byte_string b a))) [
      | inl before ↦
          rw before
            (All-place_oid a b oids (negative-at_most b a before) first, Rising-place_oid a oids h)
      | inr behind ↦
          let le : at_most a b ≡ true = ap not behind in
          rw behind ((le, All-at_most a b oids le first), (first, h))
    ]

Rising-sort_oids : (oids : List Oid) → Rising (sort_oids oids)
unfolding sort_oids
Rising-sort_oids [] = tt
Rising-sort_oids (a ∷ oids) = Rising-place_oid a (sort_oids oids) (Rising-sort_oids oids)

-- How often an identifier stands in a table.
abbrev pub count : Oid → List Oid → ℕ
count a [] = 0
count a (b ∷ oids) =
    let rest = count a oids in if is_zero (compare_byte_string b a) then suc rest else rest

count-place_oid : (c a : Oid) (oids : List Oid) → count c (place_oid a oids) ≡ count c (a ∷ oids)
unfolding place_oid
count-place_oid c a [] = refl
count-place_oid c a (b ∷ oids) = ground (arith, count-place_oid c a oids)

count-sort_oids : (c : Oid) (oids : List Oid) → count c (sort_oids oids) ≡ count c oids
unfolding sort_oids
count-sort_oids c [] = refl
count-sort_oids c (a ∷ oids) =
    count-place_oid c a (sort_oids oids)
    ∙ ap (λ n. if is_zero (compare_byte_string a c) then suc n else n) (count-sort_oids c oids)

-- `sortOIDs` leaves a table in which no identifier comes before an earlier one, and in which each
-- stands as often as it did.
pub sort_oids-Rising :
    (oids : List Oid)
    → Rising (sort_oids oids) × ((c : Oid) → count c (sort_oids oids) ≡ count c oids)
sort_oids-Rising oids = (Rising-sort_oids oids, λ c. count-sort_oids c oids)
