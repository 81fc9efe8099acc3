-- ===== src/Amqp/Connection/Laws.antt =====
-- The frames of a published message, as internal/protocols/amqpserver/server.go takes them.
use mockly.Base.{
  ℕ, ◌+◌, ◌*◌, ◌/◌, ◌%◌, ◌≤◌, ◌<◌, ◌≡◌, refl, ap, ◌∙◌, true, false, some, List, [], ◌∷◌, ◌++◌,
  Bytes, arith, leb, ◌==◌, length, length-append, append_nil, append_assoc, map, All, inl, inr,
  Bool-cases,
}
use mockly.Amqp.Wire.{
  Frame, put_uint16, put_uint32, put_uint64, uint16_at, uint32_at, uint64_at, encode_short_str,
  parse_publish, skip_short,
}
use mockly.Amqp.Wire.Laws.{read_short_str-encode_short_str, take-short}
use mockly.Amqp.Connection.{
  PublishState, at_channel, set_channel, drop_channel, Conn, goes_on, publishes, take_method,
  take_header, take_body, take_frame, take_frames, handle_method, begin_publish,
}

module _ {ℓ} {V : Type ℓ} where
  pub at_channel-set_channel :
      (ch : ℕ) (v : V) (m : List (ℕ × V)) → at_channel ch (set_channel ch v m) ≡ some v
  unfolding at_channel set_channel
  at_channel-set_channel ch v [] = ground arith
  at_channel-set_channel ch v ((c, w) ∷ m) = ground (arith, at_channel-set_channel ch v m)

  drop_channel-set_channel :
      (ch : ℕ) (v : V) (m : List (ℕ × V)) → drop_channel ch (set_channel ch v m) ≡ drop_channel ch m
  unfolding drop_channel set_channel
  drop_channel-set_channel ch v [] = ground arith
  drop_channel-set_channel ch v ((c, w) ∷ m) = elim (Bool-cases (c == ch)) [
    | inl e ↦ rw e (rw e refl)
    | inr e ↦ ground (arith, drop_channel-set_channel ch v m)
  ]

-- The frames that a client sends for a message.
abbrev pub publish_frame : ℕ → Bytes → Bytes → Bytes → Frame
publish_frame ch exchange routing_key flags = record {
  frame_type = 1;
  channel = ch;
  payload =
      put_uint16 60
      ++ put_uint16 40
      ++ (0 ∷ 0 ∷ encode_short_str exchange ++ (encode_short_str routing_key ++ flags));
}

abbrev pub header_frame : ℕ → ℕ → Frame
header_frame ch n = record {
  frame_type = 2;
  channel = ch;
  payload = put_uint16 60 ++ put_uint16 0 ++ put_uint64 n ++ put_uint16 0;
}

abbrev pub body_frame : ℕ → Bytes → Frame
body_frame ch part = record { frame_type = 3; channel = ch; payload = part }

abbrev pub concat : List Bytes → Bytes
concat [] = []
concat (x ∷ xs) = x ++ concat xs

abbrev pub AreParts : List Bytes → Type 0
AreParts = All (λ p. 0 < length p)

abbrev low : ℕ → ℕ
low v = v / 256 % 256 * 256 + v % 256

abbrev high : ℕ → ℕ
high v = v / 65536 / 256 % 256 * 256 + v / 65536 % 256

join64 :
    (v : ℕ)
    → v < 18446744073709551616
    → (high (v / 4294967296) * 65536 + low (v / 4294967296)) * 4294967296 + (high v * 65536 + low v)
      ≡ v
join64 v h = omega (arith, h)

take_header-size :
    (ch n : ℕ) (p : PublishState) (s : Conn)
    → n < 18446744073709551616
    → at_channel ch s.publishes ≡ some p
    → take_header (header_frame ch n) s
      ≡ goes_on []
          (record s { publishes = set_channel ch (record p { body_size = n }) s.publishes })
unfolding take_header uint64_at uint32_at uint16_at put_uint16 put_uint32 put_uint64
take_header-size ch n p s h e = rw (e, take_header, join64 n h) refl

take_body-more :
    (ch : ℕ) (part : Bytes) (p : PublishState) (s : Conn)
    → at_channel ch s.publishes ≡ some p
    → length p.body + length part < p.body_size
    → take_body (body_frame ch part) s
      ≡ goes_on []
          (record s { publishes = set_channel ch (record p { body = p.body ++ part }) s.publishes })
unfolding take_body
take_body-more ch part p s e h = rw (e, take_body, waits) refl
  where
    waits : leb p.body_size (length (p.body ++ part)) ≡ false
    waits = ground (arith, length-append p.body part)

take_body-last :
    (ch : ℕ) (part : Bytes) (p : PublishState) (s : Conn)
    → at_channel ch s.publishes ≡ some p
    → p.body_size ≤ length p.body + length part
    → take_body (body_frame ch part) s
      ≡ publishes ch
          (record p { body = p.body ++ part })
          (record s { publishes = drop_channel ch s.publishes })
unfolding take_body
take_body-last ch part p s e h = rw (e, take_body, full) refl
  where
    full : leb p.body_size (length (p.body ++ part)) ≡ true
    full = ground (arith, length-append p.body part)

parse_publish-publish :
    (exchange routing_key flags : Bytes)
    → length exchange ≤ 255
    → length routing_key ≤ 255
    → parse_publish (0 ∷ 0 ∷ encode_short_str exchange ++ (encode_short_str routing_key ++ flags))
      ≡ (exchange, routing_key)
unfolding parse_publish skip_short
parse_publish-publish exchange routing_key flags h k =
    rw
      (
        read_short_str-encode_short_str exchange (encode_short_str routing_key ++ flags),
        read_short_str-encode_short_str routing_key flags,
        take-short 255 exchange h,
        take-short 255 routing_key k,
      )
      refl

take_frames-publishes :
    (f : Frame) (frames : List Frame) (fresh : Bytes) (s t : Conn) (ch : ℕ) (p : PublishState)
    → take_frame f fresh s ≡ publishes ch p t
    → take_frames (f ∷ frames) fresh s ≡ publishes ch p t
unfolding take_frames
take_frames-publishes f frames fresh s t ch p h = rw (h, take_frames) refl

take_frames-goes_on :
    (f : Frame) (frames : List Frame) (fresh reply : Bytes) (s t : Conn)
    → take_frame f fresh s ≡ goes_on reply t
    → take_frames (f ∷ frames) fresh s ≡ take_frames frames fresh t
unfolding take_frames
take_frames-goes_on f frames fresh reply s t h = rw (h, take_frames) refl

-- The parts of a body up to its size complete the message.
take_frames-body :
    (ch : ℕ) (q : Bytes) (parts : List Bytes) (p : PublishState) (fresh : Bytes) (s : Conn)
    → at_channel ch s.publishes ≡ some p
    → AreParts parts
    → p.body_size ≡ length p.body + length (concat (q ∷ parts))
    → take_frames (map (body_frame ch) (q ∷ parts)) fresh s
      ≡ publishes ch
          (record p { body = p.body ++ concat (q ∷ parts) })
          (record s { publishes = drop_channel ch s.publishes })
unfolding take_frame
take_frames-body ch q [] p fresh s e h k = rw (append_nil q) (
    take_frames-publishes (body_frame ch q) [] fresh s _ ch _
      (take_body-last ch q p s e (omega (arith, k, ap length (append_nil q)))))
take_frames-body ch q (r ∷ parts) p fresh s e (h, hs) k =
    let grown : PublishState = record p { body = p.body ++ q } in
    let next : Conn = record s { publishes = set_channel ch grown s.publishes } in
    take_frames-goes_on (body_frame ch q) (map (body_frame ch) (r ∷ parts)) fresh [] s next (
      take_body-more ch q p s e
        (omega (arith, k, h, length-append q (concat (r ∷ parts)), length-append r (concat parts))))
    ∙ take_frames-body ch r parts grown fresh next (at_channel-set_channel ch grown s.publishes) hs
        (omega (arith, k, length-append p.body q, length-append q (concat (r ∷ parts))))
    ∙ ap
        (λ b.
          publishes ch (record p { body = b })
            (record s { publishes = drop_channel ch next.publishes }))
        (append_assoc p.body q (concat (r ∷ parts)))
    ∙ ap
        (λ m.
          publishes ch (record p { body = p.body ++ (q ++ concat (r ∷ parts)) })
            (record s { publishes = m }))
        (drop_channel-set_channel ch grown s.publishes)

take_method-publish :
    (ch : ℕ) (exchange routing_key flags fresh : Bytes) (s : Conn)
    → length exchange ≤ 255
    → length routing_key ≤ 255
    → take_frame (publish_frame ch exchange routing_key flags) fresh s
      ≡ goes_on [] (record s {
        publishes =
            set_channel ch
              (record { exchange = exchange; routing_key = routing_key; body_size = 0; body = [] })
              s.publishes;
      })
unfolding take_frame take_method handle_method begin_publish uint16_at put_uint16
take_method-publish ch exchange routing_key flags fresh s h k =
    rw (parse_publish-publish exchange routing_key flags h k) refl

-- What a client publishes is what the broker takes: the frame of `Basic.Publish` with an exchange
-- and a routing key of at most 255 octets, the header with the size of the body, and the body in one
-- or more parts, of which only the first may be empty, complete one message with that exchange, that key and the
-- parts in their order, whatever stood open on the channel before.
pub take_frames-message :
    (ch : ℕ) (exchange routing_key flags fresh q : Bytes) (parts : List Bytes) (s : Conn)
    → length exchange ≤ 255
    → length routing_key ≤ 255
    → length (concat (q ∷ parts)) < 18446744073709551616
    → AreParts parts
    → take_frames
        (publish_frame ch exchange routing_key flags
          ∷ header_frame ch (length (concat (q ∷ parts)))
          ∷ map (body_frame ch) (q ∷ parts))
        fresh
        s
      ≡ publishes ch
          (record {
            exchange = exchange;
            routing_key = routing_key;
            body_size = length (concat (q ∷ parts));
            body = concat (q ∷ parts);
          })
          (record s { publishes = drop_channel ch s.publishes })
unfolding take_frame
take_frames-message ch exchange routing_key flags fresh q parts s h k l hs =
    let opened : PublishState = record {
      exchange = exchange;
      routing_key = routing_key;
      body_size = 0;
      body = [];
    } in
    let sized : PublishState = record opened { body_size = length (concat (q ∷ parts)) } in
    let one : Conn = record s { publishes = set_channel ch opened s.publishes } in
    let two : Conn = record s { publishes = set_channel ch sized one.publishes } in
    take_frames-goes_on (publish_frame ch exchange routing_key flags) _ fresh [] s one
      (take_method-publish ch exchange routing_key flags fresh s h k)
    ∙ take_frames-goes_on (header_frame ch _) _ fresh [] one two
        (take_header-size ch _ opened one l (at_channel-set_channel ch opened s.publishes))
    ∙ take_frames-body ch q parts sized fresh two (at_channel-set_channel ch sized one.publishes) hs
        (omega arith)
    ∙ ap
        (λ m.
          publishes ch (record sized { body = concat (q ∷ parts) }) (record s { publishes = m }))
        (drop_channel-set_channel ch sized one.publishes
          ∙ drop_channel-set_channel ch opened s.publishes)
