-- ===== src/Amqp/Wire.antt =====
-- internal/protocols/amqpserver/server.go: the frames of the protocol and the values in them. An
-- octet is a number below 256. A reader is the octets that are left to read.
pub mod Laws
use mockly.Base.{
  ℕ, ◌+◌, ◌*◌, ◌/◌, ◌%◌, Bool, true, false, Option, none, some, List, [], ◌∷◌, ◌++◌, ◌>>=◌, Bytes,
  codes, ltb, ◌==◌, if◌then◌else◌, length, take, drop, get_elem?, const_list,
}

-- `binary.BigEndian.PutUint16`, `PutUint32` and `PutUint64`
unfoldable pub put_uint16 : ℕ → Bytes
put_uint16 v = v / 256 % 256 ∷ v % 256 ∷ []

unfoldable pub put_uint32 : ℕ → Bytes
unfolding put_uint16
put_uint32 v = put_uint16 (v / 65536) ++ put_uint16 v

unfoldable pub put_uint64 : ℕ → Bytes
unfolding put_uint32
put_uint64 v = put_uint32 (v / 4294967296) ++ put_uint32 v

-- `binary.BigEndian.Uint16`, `Uint32` and `Uint64` of the octets at an offset; the program panics
-- where there are too few.
unfoldable pub uint16_at : ℕ → Bytes → Option ℕ
uint16_at i s = do a ← get_elem? s i; b ← get_elem? s (i + 1); some (a * 256 + b)

unfoldable pub uint32_at : ℕ → Bytes → Option ℕ
unfolding uint16_at
uint32_at i s = do a ← uint16_at i s; b ← uint16_at (i + 2) s; some (a * 65536 + b)

unfoldable pub uint64_at : ℕ → Bytes → Option ℕ
unfolding uint32_at
uint64_at i s = do a ← uint32_at i s; b ← uint32_at (i + 4) s; some (a * 4294967296 + b)

pub record Frame : Type 0 where
  pub frame_type : ℕ
  pub channel : ℕ
  pub payload : Bytes

-- `io.ReadFull` of a buffer: the octets and the rest, or an error.
unfoldable pub read_full : ℕ → Bytes → Option (Bytes × Bytes)
read_full n s = if ltb (length s) n then none else some (take n s, drop n s)

-- The largest payload that is read.
abbrev pub max_payload : ℕ
max_payload = 10 * 1024 * 1024

-- `payload[len(payload)-1] != 0xce` and the frame without that octet.
unfoldable pub checked_end : ℕ → ℕ → ℕ → Bytes → Option Frame
checked_end frame_type channel size payload = do
  last ← get_elem? payload size
  (if last == 206
      then some (record { frame_type = frame_type; channel = channel; payload = take size payload })
      else none)

-- `readFrame` after its first `io.ReadFull`.
unfoldable pub read_payload : Bytes → Bytes → Option (Frame × Bytes)
unfolding read_full checked_end uint16_at uint32_at
read_payload head r = do
  frame_type ← get_elem? head 0
  channel ← uint16_at 1 head
  size ← uint32_at 3 head
  (payload, rest) ← (if ltb max_payload size then none else read_full (size + 1) r)
  frame ← checked_end frame_type channel size payload
  some (frame, rest)

-- `readFrame`; an error is `none`.
unfoldable pub read_frame : Bytes → Option (Frame × Bytes)
unfolding read_full read_payload
read_frame s = do (head, r) ← read_full 7 s; read_payload head r

-- `writeFrame`: what a connection that does not fail receives.
unfoldable pub write_frame : ℕ → ℕ → Bytes → Bytes
unfolding put_uint16 put_uint32
write_frame frame_type channel payload =
    (frame_type ∷ put_uint16 channel ++ put_uint32 (length payload)) ++ payload ++ 206 ∷ []

unfoldable pub write_method_frame : ℕ → ℕ → ℕ → Bytes → Bytes
unfolding write_frame
write_method_frame channel class_id method_id args =
    write_frame 1 channel (put_uint16 class_id ++ put_uint16 method_id ++ args)

unfoldable pub write_header_frame : ℕ → ℕ → ℕ → Bytes
unfolding write_frame put_uint64
write_header_frame channel class_id body_size =
    write_frame 2 channel
      (put_uint16 class_id ++ put_uint16 0 ++ put_uint64 body_size ++ put_uint16 0)

unfoldable pub write_body_frame : ℕ → Bytes → Bytes
unfolding write_frame
write_body_frame channel body = write_frame 3 channel body

-- `readShort`, whose value no caller uses: `binary.Read` of two octets, or of all when they are
-- fewer.
unfoldable pub skip_short : Bytes → Bytes
skip_short = drop 2

-- `readShortStr`: the string and the rest. A string that is cut short is filled with zeros.
unfoldable pub padded : ℕ → Bytes → Bytes
padded n s = take n (s ++ const_list n 0)

unfoldable pub read_short_str : Bytes → Bytes × Bytes
unfolding padded
read_short_str [] = ([], [])
read_short_str (n ∷ s) = (padded n s, drop n s)

unfoldable pub encode_short_str : Bytes → Bytes
encode_short_str s = let t = if ltb 255 (length s) then take 255 s else s in length t ∷ t

unfoldable pub encode_long_str : Bytes → Bytes
unfolding put_uint32
encode_long_str s = put_uint32 (length s) ++ s

-- `encodeLongLong`
unfoldable pub encode_long_long : ℕ → Bytes
unfolding put_uint64
encode_long_long v = put_uint64 v

unfoldable pub build_connection_start : Bytes
unfolding encode_long_str
build_connection_start =
    0 ∷ 9 ∷ 0 ∷ 0 ∷ 0 ∷ 0 ∷ encode_long_str (codes "PLAIN") ++ encode_long_str (codes "en_US")

unfoldable pub build_connection_tune : Bytes
build_connection_tune = put_uint16 0 ++ put_uint32 131072 ++ put_uint16 0

unfoldable pub build_queue_declare_ok : Bytes → Bytes
build_queue_declare_ok args =
    let (queue, rest) = read_short_str (skip_short args) in encode_short_str queue ++ const_list 8 0

unfoldable pub parse_consume : Bytes → Bytes × Bytes
parse_consume args =
    let (queue, r) = read_short_str (skip_short args) in
    let (tag, rest) = read_short_str r in (queue, tag)

unfoldable pub parse_publish : Bytes → Bytes × Bytes
parse_publish args =
    let (exchange, r) = read_short_str (skip_short args) in
    let (routing_key, rest) = read_short_str r in (exchange, routing_key)
