-- ===== src/Snmp/Find.antt =====
-- `findOID` of internal/protocols/snmpserver/oid.go.
use mockly.Base.{
  ℕ, ◌≤◌, ◌<◌, ◌≡◌, ◌↔◌, sym, ap, ◌∙◌, true, some, List, arith, length, get_elem?, Bool-cases,
  Option-cases, inl, inr, ltb,
}
use mockly.Snmp.{Oid, search, not_below, is_at, find_oid, compare_byte_string, is_zero}
use mockly.Snmp.Search.{
  at_most, at_most_refl, at_most_trans, at_most_antisym, zero_sound, zero_refl, search-TurnsAt,
  Rising, Rising-get_elem?, get_elem?-below, below-get_elem?,
}

not_below-get_elem? :
    (oids : List Oid) (query b : Oid) (i : ℕ)
    → get_elem? oids i ≡ some b
    → not_below oids query i ≡ at_most query b
unfolding not_below
not_below-get_elem? oids query b i e = ground arith

is_at-get_elem? :
    (oids : List Oid) (query b : Oid) (i : ℕ)
    → get_elem? oids i ≡ some b
    → is_at oids query i ≡ is_zero (compare_byte_string b query)
unfolding is_at
is_at-get_elem? oids query b i e = ground arith

-- The test of the search stays true once it is.
not_below_mono :
    (oids : List Oid) (query : Oid)
    → Rising oids
    → (i j : ℕ) → i ≤ j
    → j < length oids
    → not_below oids query i ≡ true
    → not_below oids query j ≡ true
not_below_mono oids query h i j le lt e =
    let (a, at_i) = get_elem?-below oids i (omega arith) in
    let (b, at_j) = get_elem?-below oids j lt in
    not_below-get_elem? oids query b j at_j
    ∙ at_most_trans query a b (sym (not_below-get_elem? oids query a i at_i) ∙ e)
        (Rising-get_elem? oids i j a b h le at_i at_j)

-- The index splits the table: the identifiers before it come before the query, and none of the others
-- does.
abbrev pub Splits : List Oid → Oid → ℕ → Type 0
Splits oids query i =
    (i ≤ length oids)
    × ((m : ℕ) (b : Oid) → get_elem? oids m ≡ some b → (at_most query b ≡ true) ↔ (i ≤ m))

split_at : List Oid → Oid → ℕ
split_at oids query = search (length oids) (not_below oids query) 0 (length oids)

split_at-Splits :
    (oids : List Oid) (query : Oid) → Rising oids → Splits oids query (split_at oids query)
unfolding split_at
split_at-Splits oids query h =
    let (bound, low, high) =
      search-TurnsAt (length oids) (length oids) (not_below oids query) 0 (length oids)
        (λ a b le lt e. not_below_mono oids query h a b le lt e) (omega arith) (omega arith)
        (omega arith) (λ m lt. absurd (omega arith)) (λ m le lt. absurd (omega arith)) in
    (
      bound,
      λ m b e. (
        λ yes_b. elim (Bool-cases (ltb m (split_at oids query))) [
          | inl before ↦
              absurd (cc (low m (ground arith), not_below-get_elem? oids query b m e, yes_b))
          | inr behind ↦ ground arith
        ],
        λ le. sym (not_below-get_elem? oids query b m e) ∙ high m le (below-get_elem? oids m b e),
      ),
    )

is_at-found :
    (oids : List Oid) (query : Oid) (i : ℕ)
    → is_at oids query i ≡ true
    → get_elem? oids i ≡ some query
unfolding is_at
is_at-found oids query i h = elim (Option-cases (get_elem? oids i)) [
  | inl missing ↦ absurd (ground arith)
  | inr (b, e) ↦ e ∙ ap some (zero_sound b query (sym (is_at-get_elem? oids query b i e) ∙ h))
]

is_at-split :
    (oids : List Oid) (query : Oid) (i m : ℕ)
    → Rising oids
    → Splits oids query i
    → get_elem? oids m ≡ some query
    → is_at oids query i ≡ true
is_at-split oids query i m h (bound, splits) e =
    let le = (splits m query e).0 (at_most_refl query) in
    let lt = below-get_elem? oids m query e in
    let (b, at_i) = get_elem?-below oids i (omega arith) in
    let same =
      at_most_antisym b query (Rising-get_elem? oids i m b query h le at_i e)
        ((splits i b at_i).1 (omega arith)) in
    is_at-get_elem? oids query b i at_i
    ∙ ap (λ a. is_zero (compare_byte_string a query)) same
    ∙ zero_refl query

-- On a table whose identifiers do not fall, `findOID` of an identifier that parses gives the index that splits the
-- table: all before it are smaller, and none from it on is. It reports a match exactly when
-- the table has the identifier, and the match then stands at that index.
pub find_oid-Splits :
    (oids : List Oid) (query : Oid)
    → Rising oids
    → Splits oids query (find_oid oids (some query)).1
      × (((find_oid oids (some query)).0 ≡ true) ↔ ((m : ℕ) × (get_elem? oids m ≡ some query)))
      × ((find_oid oids (some query)).0 ≡ true
          → get_elem? oids (find_oid oids (some query)).1 ≡ some query)
unfolding find_oid split_at
find_oid-Splits oids query h =
    let splits = split_at-Splits oids query h in
    (
      splits,
      (
        λ e. (split_at oids query, is_at-found oids query (split_at oids query) e),
        λ t. let (m, e) = t in is_at-split oids query (split_at oids query) m h splits e,
      ),
      λ e. is_at-found oids query (split_at oids query) e,
    )
