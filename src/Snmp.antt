-- ===== src/Snmp.antt =====
-- internal/protocols/snmpserver/oid.go: object identifiers, their order, and the search in a table
-- that is sorted by them. A component is a natural number below 2 ^ 32. The table is the list of the
-- parsed identifiers of its items; one that does not parse counts as the empty one.
pub mod Search
pub mod Find
pub mod After
pub mod Sort
pub mod Agent
mod Tests
use mockly.Base.{
  ℕ, zero, suc, ◌+◌, ◌/◌, Bool, true, false, not, Option, none, some, List, [], ◌∷◌, ◌||◌, Bytes,
  if◌then◌else◌, ltb, leb, text_eq, split, length, get_elem?,
}
use mockly.Base.Int.{ℤ, pos, negsuc}

abbrev pub Oid : Type 0
Oid = List ℕ

module _ (parse_uint : Bytes → Option ℕ) where
  -- The components behind the first one; `none` is an error.
  components : List Bytes → Option Oid
  components [] = some []
  components (p ∷ parts) =
      let rest = components parts in
      if text_eq p [] then none else elim (parse_uint p) [
        | none ↦ none
        | some n ↦ elim rest [ none ↦ none | some out ↦ some (n ∷ out) ]
      ]

  -- `oidToByteString`, by `strconv.ParseUint(p, 10, 32)`; a leading dot is tolerated.
  unfoldable pub oid_to_byte_string : Bytes → Option Oid
  unfolding components
  oid_to_byte_string oid = elim (split b'.' oid) [
    | [] ↦ some []
    | p ∷ parts ↦ if text_eq p [] then components parts else components (p ∷ parts)
  ]

-- `compareByteString`
unfoldable pub compare_byte_string : Oid → Oid → ℤ
compare_byte_string [] [] = pos 0
compare_byte_string [] (y ∷ b) = negsuc 0
compare_byte_string (x ∷ a) [] = pos 1
compare_byte_string (x ∷ a) (y ∷ b) =
    let rest = compare_byte_string a b in
    if ltb x y then negsuc 0 else if ltb y x then pos 1 else rest

abbrev pub is_negative : ℤ → Bool
is_negative (pos n) = false
is_negative (negsuc n) = true

-- `sortOIDs` on the identifiers, as an insertion sort by the test that it hands to `sort.Slice`.
unfoldable pub place_oid : Oid → List Oid → List Oid
place_oid a [] = a ∷ []
place_oid a (b ∷ oids) =
    let rest = place_oid a oids in
    if is_negative (compare_byte_string b a) then b ∷ rest else a ∷ b ∷ oids

unfoldable pub sort_oids : List Oid → List Oid
unfolding place_oid
sort_oids [] = []
sort_oids (a ∷ oids) = place_oid a (sort_oids oids)

-- `sort.Search`: the loop on the bounds, as many rounds as it has fuel.
unfoldable pub search : ℕ → (ℕ → Bool) → ℕ → ℕ → ℕ
search zero f i j = i
search (suc fuel) f i j = elim (ltb i j) [
  | false ↦ i
  | true ↦ elim (f ((i + j) / 2)) [
    | true ↦ search fuel f i ((i + j) / 2)
    | false ↦ search fuel f (suc ((i + j) / 2)) j
  ]
]

abbrev pub is_zero : ℤ → Bool
is_zero (pos zero) = true
is_zero _ = false

-- The test that `findOID` hands to `sort.Search`, for the identifiers of the items.
unfoldable pub not_below : List Oid → Oid → ℕ → Bool
not_below oids query i = elim (get_elem? oids i) [
  | none ↦ true
  | some b ↦ not (is_negative (compare_byte_string b query))
]

-- Whether the item at an index is the one that is looked for.
unfoldable pub is_at : List Oid → Oid → ℕ → Bool
is_at oids query i = elim (get_elem? oids i) [
  | none ↦ false
  | some b ↦ is_zero (compare_byte_string b query)
]

-- `findOID` on the identifiers of the items: whether the item at the index is an exact match, and the
-- index.
unfoldable pub find_oid : List Oid → Option Oid → Bool × ℕ
find_oid oids none = (false, length oids)
find_oid oids (some query) =
    let i = search (length oids) (not_below oids query) 0 (length oids) in (is_at oids query i, i)
