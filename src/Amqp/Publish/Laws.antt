-- ===== src/Amqp/Publish/Laws.antt =====
-- The deliveries of `routePublish` in internal/protocols/amqpserver/server.go.
use mockly.Base.{
  ℕ, ◌+◌, ◌≡◌, refl, sym, ap, ◌∙◌, Bool, true, false, not, Option, none, some, List, [], ◌∷◌, ◌++◌,
  ◌&&◌, Bytes, map, filter, if◌then◌else◌, text_eq, Bool-cases, append_assoc, append_nil, inl, inr,
}
use mockly.Config.Faults.{Duration, AmqpFault}
use mockly.Base.Int.{pos, ltb_ℤ}
use mockly.State.{Store}
use mockly.Amqp.Config.{Mock, Response, Config}
use mockly.Amqp.Connection.{Consumer, PublishState, Conn}
use mockly.Amqp.Routing.{route_to_queues, match_mock_by_queue}
use mockly.Amqp.Publish.{
  Effect, sleeps, delivers, logs, Progress, Broker, deliver_each, consumers_for_queue, sleep,
  answer_queue, respond, answered, route_each, route_publish, is_dropped,
}

-- The consumers that get a delivery, in the order of the deliveries.
abbrev pub receivers : List Effect → List Consumer
receivers [] = []
receivers (delivers d ∷ effects) = d.consumer ∷ receivers effects
receivers (sleeps d ∷ effects) = receivers effects
receivers (logs path body id ∷ effects) = receivers effects

-- The consumers of a connection that read a queue.
abbrev pub readers : Bytes → List (ℕ × Consumer) → List Consumer
readers queue m = map (λ c. c.1) (filter (λ c. text_eq c.1.queue queue) m)

-- The mock of each queue, looked up one after the other at the instants of the clock; a lookup may
-- drop entries of the store that have expired.
abbrev pub found : List Bytes → (ℕ → ℕ) → ℕ → List Mock → Store → List (Bytes × Option Mock)
found [] clock i mocks st = []
found (queue ∷ queues) clock i mocks st =
    (queue, (match_mock_by_queue queue (clock i) mocks st).0)
    ∷ found queues clock (i + 1) mocks (match_mock_by_queue queue (clock i) mocks st).1

abbrev pub replies : Option Mock → Bool
replies none = false
replies (some m) = elim m.response [ none ↦ false | some r ↦ true ]

-- All the readers of each queue whose mock replies.
abbrev pub reached : Bool → List (ℕ × Consumer) → List (Bytes × Option Mock) → List Consumer
reached dropped m [] = []
reached dropped m ((queue, mock) ∷ rest) =
    (if replies mock && not dropped then readers queue m else []) ++ reached dropped m rest

receivers-append : (e f : List Effect) → receivers (e ++ f) ≡ receivers e ++ receivers f
receivers-append [] f = refl
receivers-append (delivers d ∷ e) f = ap (λ l. d.consumer ∷ l) (receivers-append e f)
receivers-append (sleeps d ∷ e) f = receivers-append e f
receivers-append (logs path body id ∷ e) f = receivers-append e f

receivers-deliver_each :
    (consumers : List Consumer) (resp : Response) (key : Bytes) (n : ℕ)
    → receivers (deliver_each consumers resp key n).0 ≡ consumers
unfolding deliver_each
receivers-deliver_each [] resp key n = refl
receivers-deliver_each (c ∷ consumers) resp key n =
    ap (λ l. c ∷ l) (receivers-deliver_each consumers resp key _)

receivers-sleep : (d : Duration) → receivers (sleep d) ≡ []
unfolding sleep
receivers-sleep d = elim (Bool-cases (ltb_ℤ (pos 0) d)) [
  | inl e ↦ rw (e, sleep) refl
  | inr e ↦ rw (e, sleep) refl
]

consumers_for_queue-readers :
    (queue : Bytes) (m : List (ℕ × Consumer)) → consumers_for_queue queue m ≡ readers queue m
unfolding consumers_for_queue
consumers_for_queue-readers queue [] = refl
consumers_for_queue-readers queue ((ch, c) ∷ m) = elim (Bool-cases (text_eq c.queue queue)) [
  | inl e ↦ rw e (ap (λ l. c ∷ l) (consumers_for_queue-readers queue m))
  | inr e ↦ rw e (consumers_for_queue-readers queue m)
]

-- What a round of the loop adds, for a mock with or without a response.
abbrev added : Option Response → Bool → List Consumer → List Consumer
added none dropped consumers = []
added (some resp) true consumers = []
added (some resp) false consumers = consumers

respond-receivers :
    (resp : Option Response) (mock : Mock) (dropped : Bool) (consumers : List Consumer)
    (key : Bytes) (p : Progress)
    → (receivers (respond resp mock dropped consumers key p).effects
        ≡ receivers p.effects ++ added resp dropped consumers)
      × ((respond resp mock dropped consumers key p).store ≡ p.store)
unfolding respond answer_queue
respond-receivers none mock dropped consumers key p = (sym (append_nil (receivers p.effects)), refl)
respond-receivers (some resp) mock true consumers key p =
    (sym (append_nil (receivers p.effects)), refl)
respond-receivers (some resp) mock false [] key p = (sym (append_nil (receivers p.effects)), refl)
respond-receivers (some resp) mock false (c ∷ consumers) key p =
    let sent = (deliver_each (c ∷ consumers) resp key p.delivery).0 in
    (
      receivers-append p.effects (sleep mock.delay ++ sent)
          ∙ ap (λ l. receivers p.effects ++ l)
              (receivers-append (sleep mock.delay) sent
                ∙ ap (λ l. l ++ receivers sent) (receivers-sleep mock.delay)
                ∙ receivers-deliver_each (c ∷ consumers) resp key p.delivery),
      refl,
    )

added-replies :
    (resp : Option Response) (mock : Mock) (dropped : Bool) (consumers : List Consumer)
    → mock.response ≡ resp
    → added resp dropped consumers ≡ (if replies (some mock) && not dropped then consumers else [])
added-replies none mock dropped consumers e = rw e refl
added-replies (some resp) mock true consumers e = rw e refl
added-replies (some resp) mock false consumers e = rw e refl

answered-receivers :
    (mock : Option Mock) (dropped : Bool) (consumers : List Consumer) (key : Bytes) (p : Progress)
    → (receivers (answered mock dropped consumers key p).effects
        ≡ receivers p.effects ++ (if replies mock && not dropped then consumers else []))
      × ((answered mock dropped consumers key p).store ≡ p.store)
unfolding answered
answered-receivers none dropped consumers key p = (sym (append_nil (receivers p.effects)), refl)
answered-receivers (some mock) dropped consumers key p =
    let (sent, kept) = respond-receivers mock.response mock dropped consumers key _ in
    (
      sent
          ∙ ap (λ l. receivers p.effects ++ l)
              (added-replies mock.response mock dropped consumers refl),
      kept,
    )

route_each-receivers :
    (queues : List Bytes) (dropped : Bool) (clock : ℕ → ℕ) (i : ℕ) (mocks : List Mock) (s : Conn)
    (key : Bytes) (p : Progress)
    → receivers (route_each queues dropped clock i mocks s key p).effects
      ≡ receivers p.effects ++ reached dropped s.consumers (found queues clock i mocks p.store)
unfolding route_each
route_each-receivers [] dropped clock i mocks s key p = sym (append_nil (receivers p.effects))
route_each-receivers (queue ∷ queues) dropped clock i mocks s key p =
    let next : Option Mock × Store = match_mock_by_queue queue (clock i) mocks p.store in
    let a : Progress =
      answered next.0 dropped (consumers_for_queue queue s.consumers) key
        (record p { store = next.1 }) in
    let tail : Store → List Consumer =
      λ t. reached dropped s.consumers (found queues clock (i + 1) mocks t) in
    let part : List Consumer → List Consumer =
      λ l. if replies next.0 && not dropped then l else [] in
    let (sent, kept) =
      answered-receivers next.0 dropped (consumers_for_queue queue s.consumers) key
        (record p { store = next.1 }) in
    route_each-receivers queues dropped clock (i + 1) mocks s key a
    ∙ ap (λ l. l ++ tail a.store) sent
    ∙ ap (λ t. receivers p.effects ++ part (consumers_for_queue queue s.consumers) ++ tail t) kept
    ∙ ap (λ l. receivers p.effects ++ part l ++ tail next.1)
        (consumers_for_queue-readers queue s.consumers)
    ∙ append_assoc (receivers p.effects) (part (readers queue s.consumers)) (tail next.1)

-- The consumers that get a delivery of a routed message are, for each queue that it goes to and in
-- the order of the queues, all the consumers of the connection that read the queue, if the mock that
-- is found for the queue has a response and the fault does not drop the message, and nobody else.
pub route_publish-receivers :
    (cfg : Config) (mocks : List Mock) (fault : Option AmqpFault) (draw : ℕ) (clock : ℕ → ℕ)
    (s : Conn) (p : PublishState) (b : Broker)
    → receivers (route_publish cfg mocks fault draw clock s p b).0
      ≡ reached
          (is_dropped fault draw)
          s.consumers
          (found (route_to_queues cfg p.exchange p.routing_key) clock 0 mocks b.store)
unfolding route_publish
route_publish-receivers cfg mocks fault draw clock s p b =
    let start : Progress = record {
      matched_id = [];
      store = b.store;
      delivery = b.delivery;
      effects = [];
    } in
    let queues : List Bytes = route_to_queues cfg p.exchange p.routing_key in
    let end : Progress =
      route_each queues (is_dropped fault draw) clock 0 mocks s p.routing_key start in
    receivers-append end.effects (logs p.routing_key p.body end.matched_id ∷ [])
    ∙ append_nil (receivers end.effects)
    ∙ route_each-receivers queues (is_dropped fault draw) clock 0 mocks s p.routing_key start
