-- ===== src/Messages.antt =====
-- internal/protocols/mqttserver/server.go, natsserver/server.go and amqpserver/server.go: the
-- `MessageStore` of a broker. MQTT and NATS write it alike, with a ring buffer; AMQP, Kafka and STOMP
-- write it alike, with a slice. An index out of range, where Go panics, is `none`.
pub mod Ring
pub mod Slice
mod Tests
use mockly.Base.{
  ℕ, zero, suc, ◌+◌, ◌-◌, ◌%◌, Bool, true, false, Option, none, some, List, [], ◌∷◌, ◌++◌, ltb, leb,
  ◌==◌, if◌then◌else◌, ◌>>=◌, length, get_elem?, drop, const_list,
}
use mockly.Base.Int.{ℤ, pos, negsuc}

-- `config.DefaultMessageStoreSize`, and the 1000 of `newMessageStore` in amqpserver/server.go
abbrev pub default_size : ℕ
default_size = 1000

-- `if maxSize <= 0 { maxSize = … }`
unfoldable pub size_of : ℤ → ℕ
size_of (pos zero) = default_size
size_of (pos (suc n)) = suc n
size_of (negsuc n) = default_size

pub record RingStore {ℓ} (A : Type ℓ) : Type ℓ where
  pub buf : List A
  pub head : ℕ
  pub count : ℕ
  pub max_size : ℕ

pub record SliceStore {ℓ} (A : Type ℓ) : Type ℓ where
  pub messages : List A
  pub max_size : ℕ

module _ {ℓ} {A : Type ℓ} where
  -- `buf[i] = x`
  unfoldable pub set_elem : List A → ℕ → A → Option (List A)
  set_elem [] i x = none
  set_elem (y ∷ ys) zero x = some (x ∷ ys)
  set_elem (y ∷ ys) (suc i) x = do rest ← set_elem ys i x; some (y ∷ rest)

  -- The first argument is the zero value of a message, which fills the new buffer.
  unfoldable pub new_ring : A → ℤ → RingStore A
  unfolding size_of
  new_ring blank max_size = record {
    buf = const_list (size_of max_size) blank;
    head = 0;
    count = 0;
    max_size = size_of max_size;
  }

  -- The last statement of `Add`, after the write.
  unfoldable pub advance : RingStore A → RingStore A
  advance r =
      if r.count == r.max_size
      then record r { head = (r.head + 1) % r.max_size }
      else record r { count = r.count + 1 }

  unfoldable pub add : A → RingStore A → Option (RingStore A)
  unfolding advance
  add msg r = do
    buf ← set_elem r.buf ((r.head + r.count) % r.max_size) msg
    some (advance (record r { buf = buf }))

  -- The loop of `All` from the index `i` on, with `k` rounds to go.
  unfoldable pub read_from : RingStore A → ℕ → ℕ → Option (List A)
  read_from r i zero = some []
  read_from r i (suc k) = do
    x ← get_elem? r.buf ((r.head + i) % r.max_size)
    rest ← read_from r (suc i) k
    some (x ∷ rest)

  unfoldable pub all : RingStore A → Option (List A)
  unfolding read_from
  all r = read_from r 0 r.count

  unfoldable pub clear : RingStore A → RingStore A
  clear r = record r { head = 0; count = 0 }

  unfoldable pub new_slice : ℤ → SliceStore A
  unfolding size_of
  new_slice max_size = record { messages = []; max_size = size_of max_size }

  -- `messages[1:]`, which panics on an empty slice.
  unfoldable pub tail_of : List A → Option (List A)
  tail_of [] = none
  tail_of (x ∷ xs) = some xs

  unfoldable pub add_slice : A → SliceStore A → Option (SliceStore A)
  unfolding tail_of
  add_slice msg s = do
    kept ← if leb s.max_size (length s.messages) then tail_of s.messages else some s.messages
    some (record s { messages = kept ++ msg ∷ [] })

  unfoldable pub all_slice : SliceStore A → List A
  all_slice s = s.messages

  unfoldable pub clear_slice : SliceStore A → SliceStore A
  clear_slice s = record s { messages = [] }

-- The calls that change a store.
pub data Call {ℓ} (A : Type ℓ) : Type ℓ where
  adds : A → Call A
  clears : Call A

module _ {ℓ} {A : Type ℓ} where
  unfoldable pub run_ring : RingStore A → List (Call A) → Option (RingStore A)
  unfolding add clear
  run_ring r [] = some r
  run_ring r (adds x ∷ calls) = do next ← add x r; run_ring next calls
  run_ring r (clears ∷ calls) = run_ring (clear r) calls

  unfoldable pub run_slice : SliceStore A → List (Call A) → Option (SliceStore A)
  unfolding add_slice clear_slice
  run_slice s [] = some s
  run_slice s (adds x ∷ calls) = do next ← add_slice x s; run_slice next calls
  run_slice s (clears ∷ calls) = run_slice (clear_slice s) calls

  -- The last `n` of a list.
  unfoldable pub last : ℕ → List A → List A
  last n xs = drop (length xs - n) xs

  -- What a broker promises: the messages since the last `Clear`, after those of `seen`.
  unfoldable pub since_clear : List A → List (Call A) → List A
  since_clear seen [] = seen
  since_clear seen (adds x ∷ calls) = since_clear (seen ++ x ∷ []) calls
  since_clear seen (clears ∷ calls) = since_clear [] calls
