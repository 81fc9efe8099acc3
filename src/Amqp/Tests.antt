-- ===== src/Amqp/Tests.antt =====
-- The AMQP broker at concrete inputs.
use mockly.Base.{
  ℕ, ◌≤◌, ◌<◌, ◌≡◌, ◌↔◌, refl, Bool, true, false, Option, none, some, List, [], ◌∷◌, ◌++◌, ◌&&◌,
  Bytes, codes, arith, any, Any, length, take, text_eq, map, All, inl, inr, split,
}
use Prim.Native.String.{String}
use mockly.Base.Int.{pos}
use mockly.Engine.Examples.{go}
use mockly.State.{Store}
use mockly.Amqp.Config.{Mock, Config, Binding}
use mockly.Amqp.Connection.{
  Consumer, PublishState, Conn, drop_channel, take_frame, take_frames, Outcome, publishes, goes_on,
  panics,
}
use mockly.Amqp.Connection.Laws.{
  publish_frame, header_frame, body_frame, concat, take_frames-message,
}
use mockly.Amqp.Publish.{logs, delivers, Broker, route_publish, is_dropped}
use mockly.Amqp.Publish.Laws.{receivers, reached, found, route_publish-receivers}
use mockly.Amqp.Routing.{route_to_queues, match_amqp_routing_key, type_of}
use mockly.Amqp.Routing.Laws.{is_distinct, Binds, route_to_queues_lem}
use mockly.Amqp.Topic.{topic_match_segments, amqp_topic_matches}
use mockly.Amqp.Topic.Laws.{Matches, topic_match_segments_iff}
use mockly.Amqp.Wire.{Frame, read_frame, write_frame, read_short_str, encode_short_str, max_payload}
use mockly.Amqp.Wire.Laws.{read_frame-write_frame, read_short_str-encode_short_str}

abbrev orders : Bytes
orders = codes "orders"

abbrev eu_new : Bytes
eu_new = codes "eu.new"

abbrev bind_to : String → String → Binding
bind_to pattern queue = record {
  exchange = orders;
  routing_key_pattern = codes pattern;
  queue = codes queue;
}

abbrev topology : Config
topology = record {
  exchanges = record { name = orders; type = codes "topic" } ∷ [];
  bindings = bind_to "eu.#" "europe" ∷ bind_to "*.old" "archive" ∷ bind_to "#.new" "europe" ∷ [];
}

hash_takes_none : amqp_topic_matches (codes "eu.#.new") eu_new ≡ true
unfolding amqp_topic_matches split text_eq
hash_takes_none = refl

star_takes_one : amqp_topic_matches (codes "*") eu_new ≡ false
unfolding amqp_topic_matches split text_eq
star_takes_one = refl

once_to_europe : route_to_queues topology orders eu_new ≡ codes "europe" ∷ []
unfolding route_to_queues text_eq mockly.Amqp.Topic.binding_matches split
once_to_europe = refl

-- The parts of a pattern with `*` may overlap in the key.
overlap : match_amqp_routing_key go (codes "ab*ba") (codes "aba") ≡ true
unfolding match_amqp_routing_key text_eq mockly.Base.has_prefix mockly.Base.cut
    mockly.Base.has_suffix
overlap = refl

abbrev answering : Mock
answering = record {
  id = codes "m1";
  exchange = orders;
  routing_key = [];
  queue = codes "europe";
  response = some (record { exchange = []; routing_key = []; body = codes "ok" });
  delay = pos 0;
  state = none;
}

abbrev reader : Consumer
reader = record { channel = 1; tag = codes "c1"; queue = codes "europe" }

abbrev connected : Conn
connected = record { consumers = (1, reader) ∷ []; publishes = [] }

abbrev order : PublishState
order = record { exchange = orders; routing_key = eu_new; body_size = 2; body = codes "hi" }

abbrev broker : Broker
broker = record {
  store = record { entries = [] };
  messages = record { messages = []; max_size = 1000 };
  delivery = 6;
}

delivered :
    (route_publish topology (answering ∷ []) none 0 (λ i. 0) connected order broker).0
    ≡ delivers (record {
      consumer = reader;
      delivery_tag = 7;
      exchange = [];
      routing_key = eu_new;
      body = codes "ok";
    })
      ∷ logs eu_new (codes "hi") (codes "m1")
      ∷ []
unfolding route_publish text_eq mockly.Amqp.Topic.binding_matches split
    mockly.State.Condition.condition_holds
delivered = refl

-- A header that says that the body is empty completes nothing.
empty_body :
    take_frames (publish_frame 1 orders eu_new [] ∷ header_frame 1 0 ∷ []) [] connected
    ≡ goes_on [] (record connected {
      publishes =
          (1, record { exchange = orders; routing_key = eu_new; body_size = 0; body = [] }) ∷ [];
    })
unfolding take_frames mockly.Amqp.Wire.put_uint16 mockly.Amqp.Connection.at_channel
    mockly.Amqp.Connection.set_channel mockly.Amqp.Wire.uint64_at mockly.Amqp.Wire.put_uint64
    mockly.Amqp.Wire.parse_publish read_short_str mockly.Amqp.Wire.skip_short encode_short_str
empty_body = refl

-- A method frame without a class stops the program.
short_method :
    take_frame (record { frame_type = 1; channel = 0; payload = [] }) [] connected ≡ panics
unfolding take_frame
short_method = refl

topic_match_segments_iff_example :
    (topic_match_segments (codes "eu" ∷ codes "#" ∷ []) (codes "eu" ∷ codes "new" ∷ []) ≡ true)
    ↔ Matches (codes "eu" ∷ codes "#" ∷ []) (codes "eu" ∷ codes "new" ∷ [])
topic_match_segments_iff_example =
    topic_match_segments_iff (codes "eu" ∷ codes "#" ∷ []) (codes "eu" ∷ codes "new" ∷ [])

route_to_queues_lem_example :
    ((any (text_eq (codes "europe")) (route_to_queues topology orders eu_new) ≡ true)
      ↔ Any
          (Binds (type_of orders topology.exchanges) orders eu_new (codes "europe"))
          topology.bindings)
    × (is_distinct (route_to_queues topology orders eu_new) ≡ true)
route_to_queues_lem_example = route_to_queues_lem topology orders eu_new (codes "europe")

read_frame-write_frame_example :
    read_frame (write_frame 3 1 (codes "hi") ++ codes "rest")
    ≡ some (record { frame_type = 3; channel = 1; payload = codes "hi" }, codes "rest")
read_frame-write_frame_example =
    read_frame-write_frame 3 1 (codes "hi") (codes "rest") (omega arith) (omega arith)

read_short_str-encode_short_str_example :
    read_short_str (encode_short_str orders ++ eu_new) ≡ (take 255 orders, eu_new)
read_short_str-encode_short_str_example = read_short_str-encode_short_str orders eu_new

take_frames-message_example :
    take_frames
      (publish_frame 1 orders eu_new []
        ∷ header_frame 1 (length (concat (codes "h" ∷ codes "i" ∷ [])))
        ∷ map (body_frame 1) (codes "h" ∷ codes "i" ∷ []))
      []
      connected
    ≡ publishes 1 order (record connected { publishes = [] })
unfolding drop_channel
take_frames-message_example =
    take_frames-message 1 orders eu_new [] [] (codes "h") (codes "i" ∷ []) connected (omega arith)
      (omega arith) (omega arith) (omega arith, tt)

route_publish-receivers_example :
    receivers (route_publish topology (answering ∷ []) none 0 (λ i. 0) connected order broker).0
    ≡ reached
        (is_dropped none 0)
        connected.consumers
        (found (route_to_queues topology orders eu_new) (λ i. 0) 0 (answering ∷ []) broker.store)
route_publish-receivers_example =
    route_publish-receivers topology (answering ∷ []) none 0 (λ i. 0) connected order broker
