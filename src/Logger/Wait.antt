-- ===== src/Logger/Wait.antt =====
-- internal/logger/logger.go: `WaitFor`, beside any calls of `Log`, `Clear` and `ClearByMockID`.
pub mod Counts
pub mod Laws
use mockly.Base.{
  ℕ, zero, suc, ◌+◌, ◌-◌, Bool, true, false, ◌||◌, List, [], ◌∷◌, Bytes, length, ltb, leb,
  if◌then◌else◌,
}
use mockly.Logger.{Entry, Logger, append_entry, clear, clear_by_mock_id, entries_by_mock_id}
use mockly.Logger.Channels.{capacity}

-- Where a call of `WaitFor` stands: before it subscribes, between `Subscribe` and its first look at
-- the log, and in its loop.
pub data Phase : Type 0 where
  begins subscribed loops : Phase

-- A waiter for `count` entries of a mock: the log, where the waiter stands, the entries in the buffer
-- of its channel, the sends to the channel that are under way, and whether it has returned.
pub record Waiting : Type 0 where
  pub log : Logger
  pub phase : Phase
  pub buffered : ℕ
  pub in_flight : ℕ
  pub returned : Bool

-- `len(l.EntriesByMockID(mockID)) >= count`
unfoldable pub is_enough : Bytes → ℕ → Logger → Bool
unfolding entries_by_mock_id
is_enough mock_id count l = leb count (length (entries_by_mock_id mock_id l))

unfoldable pub start : Logger → Waiting
start l = record { log = l; phase = begins; buffered = 0; in_flight = 0; returned = false }

pub data Event : Type 0 where
  -- the two parts of a call of `Log`
  logs : Entry → Event
  sends : Event
  clears : Event
  clears_mock : Bytes → Event
  -- the next step of the waiter: it subscribes, it looks for the first time, or it takes an entry
  -- from the channel and looks again
  steps : Event

-- The sends that a call of `Log` has to make to the channel of the waiter, if that is subscribed.
unfoldable pub sends_to_waiter : Phase → ℕ
sends_to_waiter begins = 0
sends_to_waiter subscribed = 1
sends_to_waiter loops = 1

-- The next send, of as many as are under way; an entry is lost where the buffer is full.
unfoldable pub take_send : ℕ → Waiting → Waiting
take_send zero w = w
take_send (suc n) w = record w {
  in_flight = n;
  buffered = (if ltb w.buffered capacity then suc w.buffered else w.buffered);
}

-- `case _, ok := <-ch`, for as many entries as the buffer has.
unfoldable pub take_entry : Bytes → ℕ → ℕ → Waiting → Waiting
unfolding is_enough
take_entry mock_id count zero w = w
take_entry mock_id count (suc n) w =
    if w.returned then w else record w { buffered = n; returned = is_enough mock_id count w.log }

-- The steps of `WaitFor` in their order.
unfoldable pub proceed : Bytes → ℕ → Phase → Waiting → Waiting
unfolding is_enough take_entry
proceed mock_id count begins w = record w { phase = subscribed }
proceed mock_id count subscribed w = record w {
  phase = loops;
  returned = is_enough mock_id count w.log;
}
proceed mock_id count loops w = take_entry mock_id count w.buffered w

unfoldable pub happen : Bytes → ℕ → Event → Waiting → Waiting
unfolding append_entry clear clear_by_mock_id take_send proceed sends_to_waiter
happen mock_id count (logs e) w = record w {
  log = append_entry e w.log;
  in_flight = w.in_flight + sends_to_waiter w.phase;
}
happen mock_id count sends w = take_send w.in_flight w
happen mock_id count clears w = record w { log = clear w.log }
happen mock_id count (clears_mock other) w = record w { log = clear_by_mock_id other w.log }
happen mock_id count steps w = proceed mock_id count w.phase w

unfoldable pub happen_all : Bytes → ℕ → List Event → Waiting → Waiting
unfolding happen
happen_all mock_id count [] w = w
happen_all mock_id count (e ∷ events) w = happen_all mock_id count events (happen mock_id count e w)
