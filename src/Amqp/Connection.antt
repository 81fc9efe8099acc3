-- ===== src/Amqp/Connection.antt =====
-- internal/protocols/amqpserver/server.go: the state of a connection and the frames that it takes.
-- A map by channel is a list with one pair for each channel, in the order of a range over the map.
pub mod Laws
use mockly.Base.{
  ℕ, zero, suc, ◌+◌, Bool, true, false, Option, none, some, List, [], ◌∷◌, ◌++◌, ◌&&◌, ◌>>=◌, Bytes,
  codes, leb, ◌==◌, if◌then◌else◌, is_nil, length, drop,
}
use mockly.Amqp.Wire.{
  Frame, uint16_at, uint64_at, write_method_frame, encode_short_str, build_connection_start,
  build_connection_tune, build_queue_declare_ok, parse_consume, parse_publish,
}

pub record Consumer : Type 0 where
  pub channel : ℕ
  pub tag : Bytes
  pub queue : Bytes

pub record PublishState : Type 0 where
  pub exchange : Bytes
  pub routing_key : Bytes
  pub body_size : ℕ
  pub body : Bytes

module _ {ℓ} {V : Type ℓ} where
  unfoldable pub at_channel : ℕ → List (ℕ × V) → Option V
  at_channel ch [] = none
  at_channel ch ((c, v) ∷ m) = let rest = at_channel ch m in if c == ch then some v else rest

  unfoldable pub set_channel : ℕ → V → List (ℕ × V) → List (ℕ × V)
  set_channel ch v [] = (ch, v) ∷ []
  set_channel ch v ((c, w) ∷ m) =
      let rest = set_channel ch v m in if c == ch then (c, v) ∷ m else (c, w) ∷ rest

  unfoldable pub drop_channel : ℕ → List (ℕ × V) → List (ℕ × V)
  drop_channel ch [] = []
  drop_channel ch ((c, w) ∷ m) =
      let rest = drop_channel ch m in if c == ch then rest else (c, w) ∷ rest

pub record Conn : Type 0 where
  pub consumers : List (ℕ × Consumer)
  pub publishes : List (ℕ × PublishState)

-- The text of `writeMethodFrame`, the state, and whether the connection goes on.
abbrev pub Handled : Type 0
Handled = Bool × Conn × Bytes

-- `classID == c && methodID == m`
abbrev is_method : ℕ → ℕ → ℕ → ℕ → Bool
is_method class_id method_id c m = class_id == c && method_id == m

-- The case of `Basic.Consume`; `fresh` is the tag that is made for a consumer without one.
unfoldable pub consume : ℕ → Bytes → Bytes → Conn → Handled
consume channel args fresh s =
    let (queue, given) = parse_consume args in
    let tag = if is_nil given then fresh else given in
    (
      true,
      record s {
        consumers =
            set_channel channel (record { channel = channel; tag = tag; queue = queue })
              s.consumers;
      },
      write_method_frame channel 60 21 (encode_short_str tag),
    )

-- The case of `Basic.Publish`.
unfoldable pub begin_publish : ℕ → Bytes → Conn → Handled
begin_publish channel args s =
    let (exchange, routing_key) = parse_publish args in
    (
      true,
      record s {
        publishes =
            set_channel channel
              (record { exchange = exchange; routing_key = routing_key; body_size = 0; body = [] })
              s.publishes;
      },
      [],
    )

unfoldable pub handle_method : Conn → ℕ → ℕ → ℕ → Bytes → Bytes → Handled
unfolding consume begin_publish
handle_method s channel class_id method_id args fresh =
    let is = is_method class_id method_id in
    if is 10 11
    then (true, s, write_method_frame 0 10 30 build_connection_tune)
    else if is 10 31
    then (true, s, [])
    else if is 10 40
    then (true, s, write_method_frame 0 10 41 [])
    else if is 20 10
    then (true, s, write_method_frame channel 20 11 (0 ∷ 0 ∷ 0 ∷ 0 ∷ []))
    else if is 40 10
    then (true, s, write_method_frame channel 40 11 [])
    else if is 50 10
    then (true, s, write_method_frame channel 50 11 (build_queue_declare_ok args))
    else if is 50 20
    then (true, s, write_method_frame channel 50 21 [])
    else if is 60 20
    then consume channel args fresh s
    else if is 60 40
    then begin_publish channel args s
    else if is 20 40
    then (true, s, write_method_frame channel 20 41 [])
    else if is 10 50
    then (false, s, write_method_frame 0 10 51 [])
    else (true, s, [])

-- What a frame leads to: the program panics, the connection ends after a reply, it goes on after a
-- reply, or a message is complete, which `processPublish` takes before the connection goes on with
-- the state given.
pub data Outcome : Type 0 where
  panics : Outcome
  ends : Bytes → Outcome
  goes_on : Bytes → Conn → Outcome
  publishes : ℕ → PublishState → Conn → Outcome

-- `case 1`
unfoldable pub take_method : Frame → Bytes → Conn → Outcome
unfolding handle_method uint16_at
take_method f fresh s = elim (uint16_at 0 f.payload) [
  | none ↦ panics
  | some class_id ↦ elim (uint16_at 2 f.payload) [
    | none ↦ panics
    | some method_id ↦
        let (live, t, reply) =
          handle_method s f.channel class_id method_id (drop 4 f.payload) fresh in
        if live then goes_on reply t else ends reply
  ]
]

-- `case 2`: the size of the body.
unfoldable pub take_header : Frame → Conn → Outcome
take_header f s = elim (at_channel f.channel s.publishes) [
  | none ↦ goes_on [] s
  | some pub_state ↦ elim (uint64_at 4 f.payload) [
    | none ↦ goes_on [] s
    | some n ↦ goes_on [] (record s {
      publishes = set_channel f.channel (record pub_state { body_size = n }) s.publishes;
    })
  ]
]

-- `case 3`: a part of the body.
unfoldable pub take_body : Frame → Conn → Outcome
take_body f s = elim (at_channel f.channel s.publishes) [
  | none ↦ goes_on [] s
  | some pub_state ↦
      let grown = record pub_state { body = pub_state.body ++ f.payload } in
      if leb grown.body_size (length grown.body)
      then publishes f.channel grown (record s { publishes = drop_channel f.channel s.publishes })
      else goes_on [] (record s { publishes = set_channel f.channel grown s.publishes })
]

-- One round of the loop of `handleConn`.
unfoldable pub take_frame : Frame → Bytes → Conn → Outcome
unfolding take_method take_header take_body
take_frame f fresh s =
    if f.frame_type == 1
    then take_method f fresh s
    else if f.frame_type == 2
    then take_header f s
    else if f.frame_type == 3
    then take_body f s
    else goes_on [] s

-- The loop of `handleConn` on the frames that arrive, up to the first that does not let it go on.
unfoldable pub take_frames : List Frame → Bytes → Conn → Outcome
unfolding take_frame
take_frames [] fresh s = goes_on [] s
take_frames (f ∷ frames) fresh s = elim (take_frame f fresh s) [
  | panics ↦ panics
  | ends reply ↦ ends reply
  | goes_on reply t ↦ take_frames frames fresh t
  | publishes ch pub_state t ↦ publishes ch pub_state t
]
