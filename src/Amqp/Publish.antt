-- ===== src/Amqp/Publish.antt =====
-- internal/protocols/amqpserver/server.go: what the broker does with a published message.
-- What it does outside its own state is a list of effects, in their order. `clock i` is the instant
-- at which the mocks of the queue number i are looked up, each of them at that one instant; `draw` is
-- the random number that decides about a fault.
pub mod Laws
use mockly.Base.{
  ℕ, ◌+◌, ◌%◌, ◌^◌, Bool, true, false, not, Option, none, some, List, [], ◌∷◌, ◌++◌, ◌&&◌, ◌||◌,
  Bytes, if◌then◌else◌, ◌>>=◌, text_eq, is_nil, length,
}
use mockly.Base.Int.{pos, ltb_ℤ}
use mockly.Config.Faults.{Duration, AmqpFault, amqp}
use mockly.Engine.Platform.{Platform}
use mockly.Messages.{SliceStore, add_slice}
use mockly.Scenarios as Scenarios
use mockly.Scenarios.{roll_fault}
use mockly.Scenarios.Faults.{effective_fault}
use mockly.State.{Store}
use mockly.Amqp.Config.{Mock, Response, Config}
use mockly.Amqp.Connection.{Consumer, PublishState, Conn, at_channel}
use mockly.Amqp.Routing.{route_to_queues, match_mock, match_mock_by_queue}
use mockly.Amqp.Wire.{
  write_method_frame, write_header_frame, write_body_frame, encode_short_str, encode_long_long,
}

pub record Received : Type 0 where
  pub id : Bytes
  pub exchange : Bytes
  pub routing_key : Bytes
  pub body : Bytes
  pub timestamp : Bytes

-- A `Basic.Deliver` with its content.
pub record Delivery : Type 0 where
  pub consumer : Consumer
  pub delivery_tag : ℕ
  pub exchange : Bytes
  pub routing_key : Bytes
  pub body : Bytes

pub data Effect : Type 0 where
  sleeps : Duration → Effect
  delivers : Delivery → Effect
  -- the path, the body and the identifier of the mock in an entry of the request log
  logs : Bytes → Bytes → Bytes → Effect

-- The frames of a delivery, as `deliver` writes them.
unfoldable pub delivery_frames : Delivery → Bytes
delivery_frames d =
    write_method_frame d.consumer.channel 60 60 (
      encode_short_str d.consumer.tag
      ++ encode_long_long d.delivery_tag
      ++ 0 ∷ []
      ++ encode_short_str d.exchange
      ++ encode_short_str d.routing_key)
    ++ write_header_frame d.consumer.channel 60 (length d.body)
    ++ write_body_frame d.consumer.channel d.body

-- `deliver`, with the tag that `atomic.AddUint64` returns.
unfoldable pub deliver : Consumer → Response → Bytes → ℕ → Delivery × ℕ
deliver cons resp incoming counter =
    let tag = (counter + 1) % 2 ^ 64 in
    (
      record {
        consumer = cons;
        delivery_tag = tag;
        exchange = resp.exchange;
        routing_key = (if is_nil resp.routing_key then incoming else resp.routing_key);
        body = resp.body;
      },
      tag,
    )

-- `for _, cons := range consumers { s.deliver(…) }`
unfoldable pub deliver_each : List Consumer → Response → Bytes → ℕ → List Effect × ℕ
unfolding deliver
deliver_each [] resp incoming counter = ([], counter)
deliver_each (c ∷ consumers) resp incoming counter =
    let (d, next) = deliver c resp incoming counter in
    let (rest, last) = deliver_each consumers resp incoming next in (delivers d ∷ rest, last)

-- `consumersForQueue`
unfoldable pub consumers_for_queue : Bytes → List (ℕ × Consumer) → List Consumer
consumers_for_queue queue [] = []
consumers_for_queue queue ((ch, c) ∷ m) =
    let rest = consumers_for_queue queue m in if text_eq c.queue queue then c ∷ rest else rest

-- `if d > 0 { time.Sleep(d) }`
unfoldable pub sleep : Duration → List Effect
sleep d = if ltb_ℤ (pos 0) d then sleeps d ∷ [] else []

-- The variables that the loop of `routePublish` changes, with the effects so far.
pub record Progress : Type 0 where
  pub matched_id : Bytes
  pub store : Store
  pub delivery : ℕ
  pub effects : List Effect

-- The end of a round of the loop: the delays and the deliveries of a mock that answers.
unfoldable pub answer_queue : Mock → Response → List Consumer → Bytes → Progress → Progress
unfolding deliver_each sleep
answer_queue mock resp [] routing_key p = p
answer_queue mock resp (c ∷ consumers) routing_key p =
    let (sent, counter) = deliver_each (c ∷ consumers) resp routing_key p.delivery in
    record p { delivery = counter; effects = p.effects ++ (sleep mock.delay ++ sent) }

-- A round of the loop from the test `mock.Response == nil || dropped` on.
unfoldable pub respond : Option Response → Mock → Bool → List Consumer → Bytes → Progress → Progress
unfolding answer_queue
respond none mock dropped consumers routing_key p = p
respond (some resp) mock true consumers routing_key p = p
respond (some resp) mock false consumers routing_key p =
    answer_queue mock resp consumers routing_key p

-- `if ok && matchedID == "" { matchedID = mock.ID }`
unfoldable pub next_id : Mock → Bytes → Bytes
next_id mock id = if is_nil id then mock.id else id

-- A round of the loop after the mock was looked up.
unfoldable pub answered : Option Mock → Bool → List Consumer → Bytes → Progress → Progress
unfolding respond next_id
answered none dropped consumers routing_key p = p
answered (some mock) dropped consumers routing_key p =
    respond mock.response mock dropped consumers routing_key
      (record p { matched_id = next_id mock p.matched_id })

-- The loop of `routePublish`, from the queue number `i` on.
unfoldable pub route_each :
    List Bytes → Bool → (ℕ → ℕ) → ℕ → List Mock → Conn → Bytes → Progress → Progress
unfolding answered consumers_for_queue match_mock_by_queue
route_each [] dropped clock i mocks s routing_key p = p
route_each (queue ∷ queues) dropped clock i mocks s routing_key p =
    let (mock, t) = match_mock_by_queue queue (clock i) mocks p.store in
    route_each queues dropped clock (i + 1) mocks s routing_key (
      answered mock dropped (consumers_for_queue queue s.consumers) routing_key
        (record p { store = t }))

-- `fault != nil && s.scenarios.RollFault(fault.ErrorRate)`
unfoldable pub is_dropped : Option AmqpFault → ℕ → Bool
is_dropped none draw = false
is_dropped (some fault) draw = roll_fault fault.error_rate draw

-- The state of the broker that a message changes.
pub record Broker : Type 0 where
  pub store : Store
  pub messages : SliceStore Received
  pub delivery : ℕ

unfoldable pub route_publish :
    Config
    → List Mock
    → Option AmqpFault
    → ℕ
    → (ℕ → ℕ)
    → Conn
    → PublishState
    → Broker
    → List Effect × Broker
unfolding route_each is_dropped route_to_queues
route_publish cfg mocks fault draw clock s p b =
    let end =
      route_each (route_to_queues cfg p.exchange p.routing_key) (is_dropped fault draw) clock 0
        mocks s p.routing_key
        (record { matched_id = []; store = b.store; delivery = b.delivery; effects = [] }) in
    (
      end.effects ++ logs p.routing_key p.body end.matched_id ∷ [],
      record b { store = end.store; delivery = end.delivery },
    )

-- `state.consumers[channel]`, or the first of a range over the consumers.
unfoldable pub some_consumer : ℕ → List (ℕ × Consumer) → Option Consumer
some_consumer channel consumers = elim (at_channel channel consumers) [
  | some c ↦ some c
  | none ↦ elim consumers [ [] ↦ none | ((ch, c) ∷ rest) ↦ some c ]
]

-- The end of `processPublish` for a mock with a response.
unfoldable pub answer_flat : Mock → Response → Option Consumer → Bytes → ℕ → List Effect × ℕ
unfolding sleep deliver
answer_flat mock resp none routing_key counter = (sleep mock.delay, counter)
answer_flat mock resp (some c) routing_key counter =
    let (d, next) = deliver c resp routing_key counter in
    (sleep mock.delay ++ delivers d ∷ [], next)

-- `processPublish` from the call of `matchMock` on.
unfoldable pub flat_publish :
    Platform
    → List Mock
    → Option AmqpFault
    → ℕ
    → ℕ
    → Conn
    → ℕ
    → PublishState
    → Broker
    → List Effect × Broker
unfolding match_mock is_dropped some_consumer answer_flat
flat_publish lib mocks fault draw now s channel p b =
    let (mock, t) = match_mock lib p.exchange p.routing_key now mocks b.store in
    elim mock [
      | none ↦ (logs p.routing_key p.body [] ∷ [], record b { store = t })
      | some m ↦ elim m.response [
        | none ↦ (logs p.routing_key p.body m.id ∷ [], record b { store = t })
        | some resp ↦
            if is_dropped fault draw
            then (logs p.routing_key p.body m.id ∷ [], record b { store = t })
            else (let (sent, counter) =
                  answer_flat m resp (some_consumer channel s.consumers) p.routing_key b.delivery in
                (logs p.routing_key p.body m.id ∷ sent, record b { store = t; delivery = counter }))
      ]
    ]

-- `if fault != nil && fault.Delay.Duration > 0 { time.Sleep(…) }`
unfoldable pub fault_delay : Option AmqpFault → List Effect
unfolding sleep
fault_delay none = []
fault_delay (some fault) = sleep fault.delay

-- `processPublish`; the identifier and the time of the message are texts of the clock. `none` is a
-- panic.
unfoldable pub process_publish :
    Platform
    → Config
    → List Mock
    → Option Scenarios.Store
    → ℕ
    → (ℕ → ℕ)
    → Bytes
    → Bytes
    → Conn
    → ℕ
    → PublishState
    → Broker
    → Option (List Effect × Broker)
unfolding effective_fault route_publish flat_publish fault_delay add_slice
process_publish lib cfg mocks scenarios draw clock id timestamp s channel p b = do
  let fault = effective_fault amqp scenarios
  messages ←
      add_slice
        (record {
          id = id;
          exchange = p.exchange;
          routing_key = p.routing_key;
          body = p.body;
          timestamp = timestamp;
        })
        b.messages
  let stored = record b { messages = messages }
  let (effects, end) =
      if is_nil cfg.bindings
      then flat_publish lib mocks fault draw (clock 0) s channel p stored
      else route_publish cfg mocks fault draw clock s p stored
  some (fault_delay fault ++ effects, end)
