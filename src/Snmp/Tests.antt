-- ===== src/Snmp/Tests.antt =====
-- The table of identifiers at a concrete input.
use mockly.Base.{
  ℕ, ◌≡◌, ◌↔◌, refl, Bool, true, false, some, none, Option, List, [], ◌∷◌, ◌-◌, arith, Bytes, codes,
  get_elem?,
}
use mockly.Snmp.{Oid, sort_oids, find_oid, compare_byte_string, oid_to_byte_string}
use mockly.Snmp.Search.{Rising}
use mockly.Snmp.Find.{Splits, find_oid-Splits}

-- 1.3.2, 1.3.10 and 1.3.10.1
abbrev table : List Oid
table = (1 ∷ 3 ∷ 2 ∷ []) ∷ (1 ∷ 3 ∷ 10 ∷ []) ∷ (1 ∷ 3 ∷ 10 ∷ 1 ∷ []) ∷ []

table-Rising : Rising table
unfolding compare_byte_string
table-Rising = ((refl, (refl, tt)), ((refl, tt), (tt, tt)))

-- The component 10 sorts after 2.
sorted : sort_oids ((10 ∷ []) ∷ (2 ∷ []) ∷ []) ≡ (2 ∷ []) ∷ (10 ∷ []) ∷ []
unfolding sort_oids compare_byte_string
sorted = refl

find_oid-Splits_example :
    Splits table (1 ∷ 3 ∷ 9 ∷ []) (find_oid table (some (1 ∷ 3 ∷ 9 ∷ []))).1
    × (((find_oid table (some (1 ∷ 3 ∷ 9 ∷ []))).0 ≡ true)
        ↔ ((m : ℕ) × (get_elem? table m ≡ some (1 ∷ 3 ∷ 9 ∷ []))))
    × ((find_oid table (some (1 ∷ 3 ∷ 9 ∷ []))).0 ≡ true
        → get_elem? table (find_oid table (some (1 ∷ 3 ∷ 9 ∷ []))).1 ≡ some (1 ∷ 3 ∷ 9 ∷ []))
find_oid-Splits_example = find_oid-Splits table (1 ∷ 3 ∷ 9 ∷ []) table-Rising

found_at : find_oid table (some (1 ∷ 3 ∷ 10 ∷ [])) ≡ (true, 1)
unfolding find_oid mockly.Snmp.is_at mockly.Snmp.search mockly.Snmp.not_below compare_byte_string
found_at = refl

abbrev one_digit : Bytes → Option ℕ
one_digit (c ∷ []) = some (c - 48)
one_digit _ = none

parsed : oid_to_byte_string one_digit (codes ".1.3") ≡ some (1 ∷ 3 ∷ [])
unfolding oid_to_byte_string mockly.Base.split mockly.Base.text_eq
parsed = refl
