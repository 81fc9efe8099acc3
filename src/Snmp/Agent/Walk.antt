-- ===== src/Snmp/Agent/Walk.antt =====
-- A client that asks the agent of internal/protocols/snmpserver/agent.go for the next item, again and
-- again.
use mathlib.Core.Path.{subst}
use mockly.Base.{
  ℕ, zero, suc, ◌+◌, ◌≤◌, ◌<◌, ◌≡◌, refl, sym, ap, ◌∙◌, Bool, true, false, Option, none, some, List,
  [], ◌∷◌, Bytes, arith, if◌then◌else◌, ltb, leb, length, drop, get_elem?, map, All, Bool-cases,
  inl, inr, filter,
}
use mockly.Snmp.{Oid, find_oid}
use mockly.Snmp.Search.{Rising}
use mockly.Snmp.Find.{find_oid-Splits}
use mockly.Snmp.After.{IsDistinct, is_after, drop-filter, found-precedes, missing-precedes}
use mockly.Snmp.Agent.{
  v2c, get_next, Binding, end_of_mib_view, Got, got, error_text, Variable, Item, Request, oid_of,
  find_item, next_index, get_item, some_items, serve_get_next, last_name, exhausted, binding_of,
  response_for, append_variable,
}
use mockly.Snmp.Agent.Places.{
  get_elem?-map, length-map, some_injective, at-below, below-at, drop-at, drop-over,
}

module _ {V : Type 0} (parse : Bytes → Option Oid) where
  abbrev pub oids_of : List (Item V) → List Oid
  oids_of items = map (oid_of parse) items

  -- The names of the items are identifiers.
  abbrev pub AllParse : List (Item V) → Type 0
  AllParse items = All (λ item. (o : Oid) × (parse item.oid ≡ some o)) items

  parse-at :
      (items : List (Item V)) (i : ℕ) (item : Item V)
      → AllParse items
      → get_elem? items i ≡ some item
      → (o : Oid) × (parse item.oid ≡ some o)
  parse-at [] i item h e = ground arith
  parse-at (x ∷ items) zero item (h, hs) e =
      subst (λ i. (o : Oid) × (parse i.oid ≡ some o)) (some_injective x item e) h
  parse-at (x ∷ items) (suc i) item (h, hs) e = parse-at items i item hs e

  next_index-item :
      (items : List (Item V)) (k : ℕ) (item : Item V)
      → Rising (oids_of items)
      → IsDistinct (oids_of items)
      → AllParse items
      → get_elem? items k ≡ some item
      → next_index parse items item.oid ≡ suc k
  unfolding next_index find_item oid_of
  next_index-item items k item h distinct names e =
      let (o, p) = parse-at items k item names e in
      let same_oid : oid_of parse item ≡ o = rw (p, oid_of) refl in
      let at_k : get_elem? (oids_of items) k ≡ some o =
        get_elem?-map (oid_of parse) items k item e ∙ ap some same_oid in
      let (splits, match, at) = find_oid-Splits (oids_of items) o h in
      let found : (find_oid (oids_of items) (some o)).0 ≡ true = match.1 (k, at_k) in
      let here : (find_oid (oids_of items) (some o)).1 ≡ k = distinct _ k o (at found) at_k in
      ap
        (λ q.
          if (find_oid (oids_of items) q).0
          then suc (find_oid (oids_of items) q).1
          else (find_oid (oids_of items) q).1)
        p
      ∙ rw (found, here) refl

  -- The index that GetNext goes to, for a start that was read or not.
  abbrev index_after : List (Item V) → Option Oid → ℕ
  index_after items start =
      if (find_oid (oids_of items) start).0
      then suc (find_oid (oids_of items) start).1
      else (find_oid (oids_of items) start).1

  index_after-is_after :
      (items : List (Item V)) (start : Option Oid) (m : ℕ) (item : Item V)
      → Rising (oids_of items)
      → IsDistinct (oids_of items)
      → get_elem? items m ≡ some item
      → is_after start (oid_of parse item) ≡ leb (index_after items start) m
  unfolding find_oid
  index_after-is_after items none m item h distinct at =
      let lt = at-below items m item at in
      let same = length-map (oid_of parse) items in ground arith
  index_after-is_after items (some q) m item h distinct at =
      let (splits, match, found) = find_oid-Splits (oids_of items) q h in
      let at_m : get_elem? (oids_of items) m ≡ some (oid_of parse item) =
        get_elem?-map (oid_of parse) items m item at in
      elim (Bool-cases (find_oid (oids_of items) (some q)).0) [
        | inl e ↦ rw e (
            found-precedes (oids_of items) q (oid_of parse item)
              (find_oid (oids_of items) (some q)).1 m h distinct splits (found e) at_m)
        | inr e ↦ rw e (
            missing-precedes (oids_of items) q (oid_of parse item)
              (find_oid (oids_of items) (some q)).1 m splits (λ j at_j. cc (match.1 (j, at_j), e))
              at_m)
      ]

  next_index-is_after :
      (items : List (Item V)) (query : Bytes) (m : ℕ) (item : Item V)
      → Rising (oids_of items)
      → IsDistinct (oids_of items)
      → get_elem? items m ≡ some item
      → is_after (parse query) (oid_of parse item) ≡ leb (next_index parse items query) m
  unfolding next_index find_item
  next_index-is_after items query m item h distinct at =
      index_after-is_after items (parse query) m item h distinct at

  abbrev pub next_request : Bytes → V → Request V
  next_request query v = record {
    version = v2c;
    kind = get_next;
    variables = (query, v) ∷ [];
    non_repeaters = 0;
    max_repetitions = 0;
  }

  serve_get_next-item :
      (items : List (Item V)) (query : Bytes) (v : V) (item : Item V)
      → get_elem? items (next_index parse items query) ≡ some item
      → (serve_get_next parse items (next_request query v)).variables ≡ get_item item ∷ []
  unfolding serve_get_next last_name some_items response_for
  serve_get_next-item items query v item e =
      let below : next_index parse items query < length items = at-below items _ item e in
      let inside : leb (length items) (next_index parse items query) ≡ false = ground arith in
      let fits : ltb (length items) (next_index parse items query + 1) ≡ false = ground arith in
      rw (inside, fits, drop-at items _ item e) refl

  serve_get_next-end :
      (items : List (Item V)) (query : Bytes) (v : V)
      → length items ≤ next_index parse items query
      → (serve_get_next parse items (next_request query v)).variables
        ≡ record { name = query; binding = end_of_mib_view } ∷ []
  unfolding serve_get_next last_name exhausted append_variable response_for
  serve_get_next-end items query v h =
      let over : leb (length items) (next_index parse items query) ≡ true = ground arith in
      rw over refl

  -- A client that walks: the variables that it is given, one in each answer, and whether it came to
  -- the end of the table.
  abbrev pub is_end : Binding V → Bool
  is_end end_of_mib_view = true
  is_end _ = false

  abbrev pub visit :
      List (Variable V) → (Bytes → List (Variable V) × Bool) → List (Variable V) × Bool
  visit [] next = ([], true)
  visit (x ∷ xs) next =
      if is_end x.binding then ([], true) else (x ∷ (next x.name).0, (next x.name).1)

  abbrev pub walk : ℕ → List (Item V) → Bytes → V → List (Variable V) × Bool
  walk zero items query v = ([], false)
  walk (suc fuel) items query v =
      visit (serve_get_next parse items (next_request query v)).variables
        (λ name. walk fuel items name v)

  not_end : (g : Got V) → is_end (binding_of g) ≡ false
  not_end (got v) = refl
  not_end (error_text text) = refl

  walk-end :
      (fuel : ℕ) (items : List (Item V)) (query : Bytes) (v : V)
      → length items ≤ next_index parse items query
      → walk (suc fuel) items query v ≡ ([], true)
  walk-end fuel items query v h =
      ap (λ vs. visit vs (λ name. walk fuel items name v)) (serve_get_next-end items query v h)

  walk-step :
      (fuel : ℕ) (items : List (Item V)) (query : Bytes) (v : V) (item : Item V)
      → get_elem? items (next_index parse items query) ≡ some item
      → walk (suc fuel) items query v
        ≡ (get_item item ∷ (walk fuel items item.oid v).0, (walk fuel items item.oid v).1)
  unfolding get_item
  walk-step fuel items query v item e =
      ap (λ vs. visit vs (λ name. walk fuel items name v))
        (serve_get_next-item items query v item e)
      ∙ rw (not_end item.on_get) refl

  walk-over :
      (fuel : ℕ) (items : List (Item V)) (query : Bytes) (v : V)
      → length items ≤ next_index parse items query
      → walk (suc fuel) items query v
        ≡ (map get_item (drop (next_index parse items query) items), true)
  walk-over fuel items query v h =
      walk-end fuel items query v h
      ∙ ap (λ l. (map get_item l, true)) (sym (drop-over items (next_index parse items query) h))

  walk-from :
      (fuel : ℕ) (items : List (Item V)) (query : Bytes) (v : V)
      → Rising (oids_of items)
      → IsDistinct (oids_of items)
      → AllParse items
      → length items ≤ fuel + next_index parse items query
      → walk (suc fuel) items query v
        ≡ (map get_item (drop (next_index parse items query) items), true)
  walk-from zero items query v h distinct names enough =
      walk-over zero items query v (omega (arith, enough))
  walk-from (suc fuel) items query v h distinct names enough =
      elim (Bool-cases (ltb (next_index parse items query) (length items))) [
        | inl e ↦
            let (item, at) = below-at items (next_index parse items query) (ground arith) in
            let next : next_index parse items item.oid ≡ suc (next_index parse items query) =
              next_index-item items (next_index parse items query) item h distinct names at in
            let tail : walk (suc fuel) items item.oid v
                ≡ (map get_item (drop (suc (next_index parse items query)) items), true) =
              walk-from fuel items item.oid v h distinct names (omega (arith, next, enough))
              ∙ ap (λ i. (map get_item (drop i items), true)) next in
            walk-step (suc fuel) items query v item at
            ∙ ap (λ r. (get_item item ∷ r.0, r.1)) tail
            ∙ ap (λ l. (map get_item l, true))
                (sym (drop-at items (next_index parse items query) item at))
        | inr e ↦ walk-over (suc fuel) items query v (ground arith)
      ]

  -- On a table whose identifiers parse, rise and are all different, a client that starts at any
  -- name and asks each time for the item behind the last one gets, each of them once and in their
  -- order, the items whose identifiers come after its start in the order of the dictionary (none if
  -- its start is no identifier), and then the end of the table, within one request more than there
  -- are items.
  pub walk_lem :
      (fuel : ℕ) (items : List (Item V)) (query : Bytes) (v : V)
      → Rising (oids_of items)
      → IsDistinct (oids_of items)
      → AllParse items
      → length items ≤ fuel
      → walk (suc fuel) items query v
        ≡ (map get_item (filter (λ item. is_after (parse query) (oid_of parse item)) items), true)
  walk_lem fuel items query v h distinct names enough =
      walk-from fuel items query v h distinct names (omega (arith, enough))
      ∙ ap (λ l. (map get_item l, true))
          (drop-filter (λ item. is_after (parse query) (oid_of parse item)) items
            (next_index parse items query)
            (λ m item at. next_index-is_after items query m item h distinct at))
