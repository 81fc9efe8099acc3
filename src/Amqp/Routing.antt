-- ===== src/Amqp/Routing.antt =====
-- internal/protocols/amqpserver/server.go: which queues a message goes to, and which mock answers.
pub mod Laws
use mockly.Base.{
  ℕ, Bool, true, false, not, Option, none, some, List, [], ◌∷◌, ◌++◌, ◌&&◌, ◌||◌, Bytes, codes, any,
  filter, if◌then◌else◌, text_eq, is_nil, has_prefix, has_suffix, drop, cut,
}
use mockly.Engine.Platform.{Platform}
use mockly.State.{Store}
use mockly.State.Condition.{condition_holds}
use mockly.Amqp.Config.{Exchange, Binding, Mock, Config}
use mockly.Amqp.Topic.{binding_matches}

-- `exchangeType`
unfoldable pub type_of : Bytes → List Exchange → Bytes
type_of name [] = codes "direct"
type_of name (ex ∷ exchanges) =
    let rest = type_of name exchanges in
    if text_eq ex.name name then (if is_nil ex.type then codes "direct" else ex.type) else rest

-- The two tests at the start of the loop of `routeToQueues`.
unfoldable pub binds : Bytes → Bytes → Bytes → Binding → Bool
binds exchange_type exchange routing_key b =
    text_eq b.exchange exchange && binding_matches exchange_type b.routing_key_pattern routing_key

-- The keys of the map `seen`.
unfoldable pub is_seen : Bytes → List Bytes → Bool
is_seen queue = any (text_eq queue)

-- The loop of `routeToQueues`: the queues that are appended from here on.
unfoldable pub route : (Binding → Bool) → List Bytes → List Binding → List Bytes
unfolding is_seen
route test seen [] = []
route test seen (b ∷ bindings) =
    let skipped = route test seen bindings in
    let added = route test (b.queue ∷ seen) bindings in
    if not (test b) then skipped else if is_seen b.queue seen then skipped else b.queue ∷ added

unfoldable pub route_to_queues : Config → Bytes → Bytes → List Bytes
unfolding type_of route binds
route_to_queues cfg exchange routing_key =
    route (binds (type_of exchange cfg.exchanges) exchange routing_key) [] cfg.bindings

-- `matchAMQPRoutingKey`
unfoldable pub match_amqp_routing_key : Platform → Bytes → Bytes → Bool
match_amqp_routing_key lib pattern key =
    if is_nil pattern || text_eq pattern (codes "*")
    then true
    else if has_prefix pattern (codes "re:")
    then elim (lib.compile (drop 3 pattern)) [ none ↦ false | some matches ↦ matches key ]
    else elim (cut b'*' pattern) [
      | some (front, back) ↦ has_prefix key front && (is_nil back || has_suffix key back)
      | none ↦ text_eq pattern key
    ]

-- The loop that `matchMock` and `matchMockByQueue` share, with the test that differs.
unfoldable pub first_mock : (Mock → Bool) → ℕ → List Mock → Store → Option Mock × Store
first_mock test now [] s = (none, s)
first_mock test now (m ∷ mocks) s =
    let (ok, t) = condition_holds m.state now s in
    let rest = first_mock test now mocks t in if ok && test m then (some m, t) else rest

unfoldable pub match_mock_by_queue : Bytes → ℕ → List Mock → Store → Option Mock × Store
unfolding first_mock
match_mock_by_queue queue = first_mock (λ m. text_eq m.queue queue)

unfoldable pub match_mock : Platform → Bytes → Bytes → ℕ → List Mock → Store → Option Mock × Store
unfolding first_mock match_amqp_routing_key
match_mock lib exchange routing_key =
    first_mock
      (λ m. text_eq m.exchange exchange && match_amqp_routing_key lib m.routing_key routing_key)
