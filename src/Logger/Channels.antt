-- ===== src/Logger/Channels.antt =====
-- internal/logger/logger.go: `Log` sends to the channels of the subscribers after it has left the
-- lock, and the cancel function of `Subscribe` closes its channel after it has left the lock. Each
-- part is one action; the actions of several goroutines follow each other in any order.
use mockly.Base.{
  ℕ, ◌≡◌, refl, ap, ◌∙◌, Bool, true, false, Option, none, some, List, [], ◌∷◌, ◌++◌, ◌>>=◌, Bytes,
  length, ltb, ◌==◌, arith, if◌then◌else◌,
}
use mockly.Logger.{Entry, Logger, append_entry, stamped, channels_of, unsubscribe, subscribe}

-- `make(chan Entry, 64)`
abbrev pub capacity : ℕ
capacity = 64

pub record Channel : Type 0 where
  pub buffer : List Entry
  pub closed : Bool

-- The log, its channels, and the sends that the calls of `Log` have still to make.
pub record World : Type 0 where
  pub log : Logger
  pub channels : ℕ → Channel
  pub in_flight : List (ℕ × Entry)

pub data Action : Type 0 where
  -- the part of `Log` up to the unlocking, at two instants
  logs : ℕ → ℕ → Entry → Action
  -- the next send of its loop
  sends : Action
  subscribes : Bytes → ℕ → Action
  -- the two parts of the cancel function
  unregisters : Bytes → Action
  closes : ℕ → Action

unfoldable pub with_channel : ℕ → Channel → (ℕ → Channel) → ℕ → Channel
with_channel c ch channels i = if i == c then ch else channels i

unfoldable pub sends_to : Entry → List ℕ → List (ℕ × Entry)
sends_to e [] = []
sends_to e (c ∷ cs) = (c, e) ∷ sends_to e cs

-- `select { case ch <- e: default: }`; a send on a closed channel panics.
unfoldable pub send : ℕ → Entry → World → Option World
unfolding with_channel
send c e w =
    let ch = w.channels c in
    if ch.closed
    then none
    else if ltb (length ch.buffer) capacity
    then some (record w {
      channels = with_channel c (record ch { buffer = ch.buffer ++ e ∷ [] }) w.channels;
    })
    else some w

-- One action; `none` is a panic.
unfoldable pub act : Action → World → Option World
unfolding send sends_to channels_of append_entry stamped subscribe unsubscribe with_channel
act (logs first second e) w =
    let named = stamped first second e in
    some (record w {
      log = append_entry named w.log;
      in_flight = w.in_flight ++ sends_to named (channels_of w.log.subscribers);
    })
act sends w = elim w.in_flight [
  | [] ↦ some w
  | ((c, e) ∷ rest) ↦ send c e (record w { in_flight = rest })
]
act (subscribes id c) w = some (record w {
  log = subscribe id c w.log;
  channels = with_channel c (record { buffer = []; closed = false }) w.channels;
})
act (unregisters id) w = some (record w { log = unsubscribe id w.log })
act (closes c) w =
    let ch = w.channels c in
    if ch.closed
    then none
    else some (record w { channels = with_channel c (record ch { closed = true }) w.channels })

unfoldable pub perform : List Action → World → Option World
unfolding act
perform [] w = some w
perform (a ∷ actions) w = do next ← act a w; perform actions next

panics-alone :
    (first second c : ℕ) (id : Bytes) (e : Entry) (l : Logger) (channels : ℕ → Channel)
    → (channels c).closed ≡ false
    → perform (logs first second e ∷ unregisters id ∷ closes c ∷ sends ∷ []) (record {
      log = record l { subscribers = (id, c) ∷ [] };
      channels = channels;
      in_flight = [];
    })
      ≡ none
unfolding perform act channels_of sends_to with_channel send
panics-alone first second c id e l channels k =
    let same : (c == c) ≡ true = ground arith in rw (k, same) refl

-- A subscriber that leaves between the two parts of a call of `Log` makes the call panic: whatever
-- the log holds, with one subscriber whose channel is open and no send under way, the entry that is
-- logged, the two parts of the cancel function and then the send end in a panic.
pub cancel_panics :
    (first second c : ℕ) (id : Bytes) (e : Entry) (l : Logger) (channels : ℕ → Channel)
    → l.subscribers ≡ (id, c) ∷ []
    → (channels c).closed ≡ false
    → perform
        (logs first second e ∷ unregisters id ∷ closes c ∷ sends ∷ [])
        (record { log = l; channels = channels; in_flight = [] })
      ≡ none
cancel_panics first second c id e l channels h k =
    ap
      (λ m.
        perform (logs first second e ∷ unregisters id ∷ closes c ∷ sends ∷ [])
          (record { log = record l { subscribers = m }; channels = channels; in_flight = [] }))
      h
    ∙ panics-alone first second c id e l channels k
