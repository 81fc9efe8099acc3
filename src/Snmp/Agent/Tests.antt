-- ===== src/Snmp/Agent/Tests.antt =====
-- The agent on small tables, whose names are their identifiers.
use mockly.Base.{
  ℕ, zero, suc, ◌≡◌, refl, true, false, some, none, List, [], ◌∷◌, arith, filter, map,
}
use mockly.Snmp.{Oid, compare_byte_string}
use mockly.Snmp.Search.{Rising}
use mockly.Snmp.Agent.{
  Item, got, get_item, next_index, Request, Response, Variable, value, end_of_mib_view,
  no_such_instance, v1, get, get_bulk, serve_get_bulk, serve, no_such_name, oid_of,
}
use mockly.Snmp.After.{IsDistinct, is_after}
use mockly.Snmp.After.{IsDistinct, is_after}
use mockly.Snmp.Agent.Walk.{oids_of, walk, walk_lem}

abbrev item_at : ℕ → ℕ → Item ℕ
item_at oid v = record { oid = oid ∷ []; on_get = got v; on_set = none }

abbrev items : List (Item ℕ)
items = item_at 1 70 ∷ item_at 4 71 ∷ []

items-Rising : Rising (oids_of some items)
unfolding oid_of compare_byte_string
items-Rising = ((refl, tt), (tt, tt))

items-IsDistinct : IsDistinct (oids_of some items)
unfolding oid_of
items-IsDistinct zero zero o e k = refl
items-IsDistinct zero (suc zero) o e k = ground arith
items-IsDistinct zero (suc (suc j)) o e k = ground arith
items-IsDistinct (suc zero) zero o e k = ground arith
items-IsDistinct (suc zero) (suc zero) o e k = refl
items-IsDistinct (suc zero) (suc (suc j)) o e k = ground arith
items-IsDistinct (suc (suc i)) j o e k = ground arith

-- Two items with one identifier keep a client walking.
endless : (walk some 9 (item_at 1 70 ∷ item_at 1 71 ∷ []) [] 0).1 ≡ false
unfolding mockly.Snmp.Agent.serve_get_next mockly.Snmp.is_at mockly.Snmp.search
    mockly.Snmp.not_below compare_byte_string
endless = refl

bulk :
    (serve_get_bulk some items (record {
      version = v1;
      kind = get_bulk;
      variables = (2 ∷ [], 0) ∷ [];
      non_repeaters = 0;
      max_repetitions = 7;
    })).variables
    ≡ record { name = 4 ∷ []; binding = value 71 }
      ∷ record { name = 2 ∷ []; binding = end_of_mib_view }
      ∷ []
unfolding serve_get_bulk mockly.Snmp.is_at mockly.Snmp.search mockly.Snmp.not_below
    compare_byte_string
bulk = refl

walk_lem_example :
    walk some 3 items [] 0
    ≡ (map get_item (filter (λ item. is_after (some []) (oid_of some item)) items), true)
walk_lem_example =
    walk_lem some 2 items [] 0 items-Rising items-IsDistinct ((1 ∷ [], refl), ((4 ∷ [], refl), tt))
      (omega arith)
