-- ===== src/Amqp/Routing/Laws.antt =====
-- `routeToQueues` of internal/protocols/amqpserver/server.go.
use mockly.Base.{
  ◌≡◌, ◌≢◌, ◌↔◌, ◌⊎◌, refl, sym, ap, ◌∙◌, inl, inr, Any, split, codes, Bool, true, false, not, List,
  [], ◌∷◌, ◌&&◌, Bytes, any, text_eq, text_eq_iff, text_eq_refl, arith, Bool-cases,
}
use mockly.Amqp.Topic.{binding_matches}
use mockly.Amqp.Topic.Laws.{Matches, topic_match_segments_iff}
use mockly.Amqp.Config.{Binding, Config}
use mockly.Amqp.Routing.{binds, is_seen, route, route_to_queues, type_of}

-- A list in which no text stands twice.
abbrev pub is_distinct : List Bytes → Bool
is_distinct [] = true
is_distinct (q ∷ qs) = not (any (text_eq q) qs) && is_distinct qs

route-skip :
    (test : Binding → Bool) (seen : List Bytes) (b : Binding) (bindings : List Binding)
    → (test b && not (is_seen b.queue seen)) ≡ false
    → route test seen (b ∷ bindings) ≡ route test seen bindings
unfolding route
route-skip test seen b bindings h = ground arith

route-add :
    (test : Binding → Bool) (seen : List Bytes) (b : Binding) (bindings : List Binding)
    → (test b && not (is_seen b.queue seen)) ≡ true
    → route test seen (b ∷ bindings) ≡ b.queue ∷ route test (b.queue ∷ seen) bindings
unfolding route
route-add test seen b bindings h = ground arith

-- The queues that are added are those of the bindings that pass and that were not seen.
route-member :
    (test : Binding → Bool) (q : Bytes) (seen : List Bytes) (bindings : List Binding)
    → any (text_eq q) (route test seen bindings)
      ≡ (not (is_seen q seen) && any (λ b. test b && text_eq q b.queue) bindings)
unfolding route is_seen
route-member test q seen [] = ground arith
route-member test q seen (b ∷ bindings) = elim (Bool-cases (test b && not (is_seen b.queue seen))) [
  | inl e ↦
      ap (any (text_eq q)) (route-add test seen b bindings e)
      ∙ ground (arith, route-member test q (b.queue ∷ seen) bindings, text_eq_iff q b.queue)
  | inr e ↦
      ap (any (text_eq q)) (route-skip test seen b bindings e)
      ∙ ground (arith, route-member test q seen bindings, text_eq_iff q b.queue)
]

route-is_distinct :
    (test : Binding → Bool) (seen : List Bytes) (bindings : List Binding)
    → is_distinct (route test seen bindings) ≡ true
unfolding route
route-is_distinct test seen [] = refl
route-is_distinct test seen (b ∷ bindings) =
    elim (Bool-cases (test b && not (is_seen b.queue seen))) [
      | inl e ↦
          ap is_distinct (route-add test seen b bindings e)
          ∙ rw (route-member test b.queue (b.queue ∷ seen) bindings, text_eq_refl b.queue)
              (route-is_distinct test (b.queue ∷ seen) bindings)
      | inr e ↦
          ap is_distinct (route-skip test seen b bindings e) ∙ route-is_distinct test seen bindings
    ]

any_iff :
    {A : Type 0} (p : A → Bool) (P : A → Type 0)
    → ((x : A) → (p x ≡ true) ↔ P x)
    → (xs : List A) → (any p xs ≡ true) ↔ Any P xs
any_iff p P h [] = (λ e. ground arith, λ t. absurd t)
any_iff p P h (x ∷ xs) =
    let (to, from) = h x in
    let (all_to, all_from) = any_iff p P h xs in
    (
      λ e. elim (Bool-cases (p x)) [
        | inl yes_x ↦ inl (to yes_x)
        | inr no_x ↦ inr (all_to (ground arith))
      ],
      λ t. elim t [ inl here ↦ rw (from here) refl | inr there ↦ ground (arith, all_from there) ],
    )

-- The routing keys that a binding's pattern takes, by the type of the exchange: any at a fanout
-- exchange, those made of the blocks of the pattern at a topic exchange, and the pattern itself at
-- any other; an empty pattern takes any key.
abbrev pub TakesKey : Bytes → Bytes → Bytes → Type 0
TakesKey type pattern key =
    (type ≡ codes "fanout")
    ⊎ ((pattern ≡ [])
        ⊎ (((type ≡ codes "topic") × Matches (split b'.' pattern) (split b'.' key))
            ⊎ ((type ≢ codes "topic") × (pattern ≡ key))))

binding_matches_iff :
    (type pattern key : Bytes)
    → (binding_matches type pattern key ≡ true) ↔ TakesKey type pattern key
unfolding binding_matches
binding_matches_iff type pattern key =
    let (to, from) = topic_match_segments_iff (split b'.' pattern) (split b'.' key) in
    ground (
      arith,
      text_eq_iff type (codes "fanout"),
      text_eq_iff type (codes "topic"),
      text_eq_iff pattern key,
      to,
      from,
    )

-- A binding that the loop takes for a queue.
abbrev pub Binds : Bytes → Bytes → Bytes → Bytes → Binding → Type 0
Binds type exchange routing_key queue b =
    (b.exchange ≡ exchange) × (b.queue ≡ queue) × TakesKey type b.routing_key_pattern routing_key

binds_iff :
    (type exchange routing_key queue : Bytes) (b : Binding)
    → ((binds type exchange routing_key b && text_eq queue b.queue) ≡ true)
      ↔ Binds type exchange routing_key queue b
unfolding binds
binds_iff type exchange routing_key queue b =
    let (to, from) = binding_matches_iff type b.routing_key_pattern routing_key in
    (
      λ h. (
        (text_eq_iff b.exchange exchange).0 (ground arith),
        sym ((text_eq_iff queue b.queue).0 (ground arith)),
        to (ground arith),
      ),
      λ t.
          let (e, q, k) = t in
          rw ((text_eq_iff b.exchange exchange).1 e, from k, (text_eq_iff queue b.queue).1 (sym q))
            refl,
    )

-- A message goes to a queue exactly if some binding of its exchange to that queue takes the routing
-- key, by the type of the exchange, and it goes to each queue once.
pub route_to_queues_lem :
    (cfg : Config) (exchange routing_key queue : Bytes)
    → ((any (text_eq queue) (route_to_queues cfg exchange routing_key) ≡ true)
        ↔ Any (Binds (type_of exchange cfg.exchanges) exchange routing_key queue) cfg.bindings)
      × (is_distinct (route_to_queues cfg exchange routing_key) ≡ true)
unfolding route_to_queues is_seen
route_to_queues_lem cfg exchange routing_key queue =
    let type = type_of exchange cfg.exchanges in
    let member = route-member (binds type exchange routing_key) queue [] cfg.bindings in
    let (to, from) =
      any_iff (λ b. binds type exchange routing_key b && text_eq queue b.queue)
        (Binds type exchange routing_key queue) (binds_iff type exchange routing_key queue)
        cfg.bindings in
    (
      (λ h. to (sym member ∙ h), λ t. member ∙ from t),
      route-is_distinct (binds type exchange routing_key) [] cfg.bindings,
    )
