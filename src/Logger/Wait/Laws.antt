-- ===== src/Logger/Wait/Laws.antt =====
-- `WaitFor` of internal/logger/logger.go, under any order of the steps beside it.
use mockly.Base.{
  or_true, inl, inr, ap, ◌∙◌, Bool-cases, if◌then◌else◌, ℕ, zero, suc, ◌+◌, ◌≤◌, ◌<◌, ◌≡◌, refl,
  Bool, true, false, not, ◌||◌, List, [], ◌∷◌, Bytes, length, arith, ltb, text_eq,
}
use mockly.Logger.{Entry, Logger, append_entry, clear, clear_by_mock_id}
use mockly.Logger.Channels.{capacity}
use mockly.Logger.Wait.{
  Phase, begins, subscribed, loops, sends_to_waiter, proceed, Waiting, is_enough, start, Event,
  logs, sends, clears, clears_mock, steps, take_send, take_entry, happen, happen_all,
}
use mockly.Logger.Wait.Counts.{
  filter_le, enough-clear, enough-clear_by_mock_id, append_entry_le, blocked_short,
}

-- The waiter has looked at the log.
abbrev pub has_looked : Phase → Bool
has_looked begins = false
has_looked subscribed = false
has_looked loops = true

-- Either the waiter has returned, or it has still to look, or there are not enough entries yet, or
-- something will wake it.
abbrev pub is_awake : Bytes → ℕ → Waiting → Bool
is_awake mock_id count w =
    w.returned
    || (not (has_looked w.phase)
        || (not (is_enough mock_id count w.log) || ltb 0 (w.buffered + w.in_flight)))

take_send-is_awake :
    (mock_id : Bytes) (count n : ℕ) (w : Waiting)
    → w.in_flight ≡ n
    → is_awake mock_id count w ≡ true
    → is_awake mock_id count (take_send n w) ≡ true
unfolding take_send
take_send-is_awake mock_id count zero w e h = h
take_send-is_awake mock_id count (suc n) w e h = ground arith

take_entry-is_awake :
    (mock_id : Bytes) (count n : ℕ) (w : Waiting)
    → is_awake mock_id count w ≡ true
    → is_awake mock_id count (take_entry mock_id count n w) ≡ true
unfolding take_entry
take_entry-is_awake mock_id count zero w h = h
take_entry-is_awake mock_id count (suc n) w h = ground arith

logs-is_awake :
    (mock_id : Bytes) (count : ℕ) (e : Entry) (phase : Phase) (w : Waiting)
    → w.phase ≡ phase
    → is_awake mock_id count w ≡ true
    → is_awake mock_id count
        (record w { log = append_entry e w.log; in_flight = w.in_flight + sends_to_waiter phase })
      ≡ true
unfolding sends_to_waiter
logs-is_awake mock_id count e begins w same h = rw same (or_true w.returned)
logs-is_awake mock_id count e subscribed w same h = rw same (or_true w.returned)
logs-is_awake mock_id count e loops w same h = ground arith

proceed-is_awake :
    (mock_id : Bytes) (count : ℕ) (phase : Phase) (w : Waiting)
    → w.phase ≡ phase
    → is_awake mock_id count w ≡ true
    → is_awake mock_id count (proceed mock_id count phase w) ≡ true
unfolding proceed
proceed-is_awake mock_id count begins w same h = or_true w.returned
proceed-is_awake mock_id count subscribed w same h = ground arith
proceed-is_awake mock_id count loops w same h = take_entry-is_awake mock_id count w.buffered w h

happen-is_awake :
    (mock_id : Bytes) (count : ℕ) (e : Event) (w : Waiting)
    → is_awake mock_id count w ≡ true
    → is_awake mock_id count (happen mock_id count e w) ≡ true
unfolding happen
happen-is_awake mock_id count (logs e) w h = logs-is_awake mock_id count e w.phase w refl h
happen-is_awake mock_id count sends w h = take_send-is_awake mock_id count w.in_flight w refl h
happen-is_awake mock_id count clears w h = ground (arith, enough-clear mock_id count w.log)
happen-is_awake mock_id count (clears_mock other) w h =
    ground (arith, enough-clear_by_mock_id mock_id other count w.log)
happen-is_awake mock_id count steps w h = proceed-is_awake mock_id count w.phase w refl h

happen_all-is_awake :
    (mock_id : Bytes) (count : ℕ) (events : List Event) (w : Waiting)
    → is_awake mock_id count w ≡ true
    → is_awake mock_id count (happen_all mock_id count events w) ≡ true
unfolding happen_all
happen_all-is_awake mock_id count [] w h = h
happen_all-is_awake mock_id count (e ∷ events) w h =
    happen_all-is_awake mock_id count events (happen mock_id count e w)
      (happen-is_awake mock_id count e w h)

start-is_awake :
    (mock_id : Bytes) (count : ℕ) (l : Logger) → is_awake mock_id count (start l) ≡ true
unfolding start
start-is_awake mock_id count l = refl

taken :
    (mock_id : Bytes) (count m : ℕ) (w : Waiting)
    → (w.returned || ltb 0 m) ≡ true
    → is_enough mock_id count w.log ≡ true
    → (take_entry mock_id count m w).returned ≡ true
unfolding take_entry
taken mock_id count zero w h k = ground arith
taken mock_id count (suc m) w h k = ground arith

filled : (a b : Bool) (n : ℕ) → (a || (not b || ltb 0 (if ltb n capacity then suc n else n))) ≡ true
filled a b n = ground arith

-- A send, where one is under way, fills an empty buffer.
take_send-fills :
    (mock_id : Bytes) (count n : ℕ) (w : Waiting)
    → w.in_flight ≡ n
    → is_enough mock_id count w.log ≡ true
    → is_awake mock_id count w ≡ true
    → ((take_send n w).returned
        || (not (has_looked (take_send n w).phase) || ltb 0 (take_send n w).buffered))
      ≡ true
unfolding take_send
take_send-fills mock_id count zero w e k h = ground arith
take_send-fills mock_id count (suc n) w e k h = filled w.returned (has_looked w.phase) w.buffered

take_send-log : (n : ℕ) (w : Waiting) → (take_send n w).log ≡ w.log
unfolding take_send
take_send-log zero w = refl
take_send-log (suc n) w = refl

take_entry-phase :
    (mock_id : Bytes) (count n : ℕ) (w : Waiting) → (take_entry mock_id count n w).phase ≡ w.phase
unfolding take_entry
take_entry-phase mock_id count zero w = refl
take_entry-phase mock_id count (suc n) w = elim (Bool-cases w.returned) [
  | inl e ↦ rw (e, take_entry) refl
  | inr e ↦ rw (e, take_entry) refl
]

take_entry-returned :
    (mock_id : Bytes) (count n : ℕ) (w : Waiting)
    → w.returned ≡ true
    → (take_entry mock_id count n w).returned ≡ true
unfolding take_entry
take_entry-returned mock_id count zero w h = h
take_entry-returned mock_id count (suc n) w h = rw (h, take_entry) refl

-- Two steps of a waiter that something wakes, when there are enough entries.
two_steps :
    (mock_id : Bytes) (count : ℕ) (phase : Phase) (w : Waiting)
    → w.phase ≡ phase
    → is_enough mock_id count w.log ≡ true
    → (w.returned || (not (has_looked phase) || ltb 0 w.buffered)) ≡ true
    → (proceed mock_id count
        (proceed mock_id count phase w).phase
        (proceed mock_id count phase w)).returned
      ≡ true
unfolding proceed
two_steps mock_id count begins w same k h = k
two_steps mock_id count subscribed w same k h = take_entry-returned mock_id count w.buffered _ k
two_steps mock_id count loops w same k h =
    let next : Waiting = take_entry mock_id count w.buffered w in
    ap (λ q. (proceed mock_id count q next).returned)
      (take_entry-phase mock_id count w.buffered w ∙ same)
    ∙ take_entry-returned mock_id count next.buffered next (taken mock_id count w.buffered w h k)

-- No wake-up is lost: whatever calls of Log, Clear and ClearByMockID come before, between and after
-- the steps of the waiter, in which it subscribes, looks at the log and then waits, and however the
-- sends of the calls lie between them, once there are enough entries the waiter returns after the
-- next send, if one is under way, and two steps of its own.
pub waiter_returns :
    (mock_id : Bytes) (count : ℕ) (l : Logger) (events : List Event)
    → is_enough mock_id count (happen_all mock_id count events (start l)).log ≡ true
    → (happen_all mock_id count
        (sends ∷ steps ∷ steps ∷ [])
        (happen_all mock_id count events (start l))).returned
      ≡ true
unfolding happen_all happen
waiter_returns mock_id count l events k =
    let w : Waiting = happen_all mock_id count events (start l) in
    let v : Waiting = take_send w.in_flight w in
    two_steps mock_id count v.phase v refl
      (ap (is_enough mock_id count) (take_send-log w.in_flight w) ∙ k)
      (take_send-fills mock_id count w.in_flight w refl k
        (happen_all-is_awake mock_id count events (start l) (start-is_awake mock_id count l)))

-- The log stays within its bound, and the waiter does not return.
abbrev Blocked : ℕ → Waiting → Type 0
Blocked max w = (w.log.max_entries ≡ max) × (length w.log.entries ≤ max) × (w.returned ≡ false)

take_entry-Blocked :
    (mock_id : Bytes) (count max n : ℕ) (w : Waiting)
    → max < count
    → Blocked max w
    → Blocked max (take_entry mock_id count n w)
unfolding take_entry
take_entry-Blocked mock_id count max zero w lt h = h
take_entry-Blocked mock_id count max (suc n) w lt (a, b, c) =
    rw (c, take_entry) (a, b, blocked_short mock_id count w.log (omega (arith, lt, b)))

take_send-Blocked : (max n : ℕ) (w : Waiting) → Blocked max w → Blocked max (take_send n w)
unfolding take_send
take_send-Blocked max zero w h = h
take_send-Blocked max (suc n) w h = h

proceed-Blocked :
    (mock_id : Bytes) (count max : ℕ) (phase : Phase) (w : Waiting)
    → max < count
    → Blocked max w
    → Blocked max (proceed mock_id count phase w)
unfolding proceed
proceed-Blocked mock_id count max begins w lt h = h
proceed-Blocked mock_id count max subscribed w lt (a, b, c) =
    (a, b, blocked_short mock_id count w.log (omega (arith, lt, b)))
proceed-Blocked mock_id count max loops w lt h =
    take_entry-Blocked mock_id count max w.buffered w lt h

happen-Blocked :
    (mock_id : Bytes) (count max : ℕ) (e : Event) (w : Waiting)
    → max < count
    → Blocked max w
    → Blocked max (happen mock_id count e w)
unfolding happen append_entry clear clear_by_mock_id
happen-Blocked mock_id count max (logs e) w lt (a, b, c) =
    (a, omega (arith, a, append_entry_le e w.log), c)
happen-Blocked mock_id count max sends w lt h = take_send-Blocked max w.in_flight w h
happen-Blocked mock_id count max clears w lt (a, b, c) = (a, omega arith, c)
happen-Blocked mock_id count max (clears_mock other) w lt (a, b, c) =
    (a, omega (arith, b, filter_le (λ e. not (text_eq e.matched_id other)) w.log.entries), c)
happen-Blocked mock_id count max steps w lt h = proceed-Blocked mock_id count max w.phase w lt h

happen_all-Blocked :
    (mock_id : Bytes) (count max : ℕ) (events : List Event) (w : Waiting)
    → max < count
    → Blocked max w
    → Blocked max (happen_all mock_id count events w)
unfolding happen_all
happen_all-Blocked mock_id count max [] w lt h = h
happen_all-Blocked mock_id count max (e ∷ events) w lt h =
    happen_all-Blocked mock_id count max events (happen mock_id count e w) lt
      (happen-Blocked mock_id count max e w lt h)

-- On a log that is within its bound, a waiter for more entries than the log keeps has not returned
-- after any events, whatever is logged.
pub waiter_stays :
    (mock_id : Bytes) (count : ℕ) (l : Logger) (events : List Event)
    → length l.entries ≤ l.max_entries
    → l.max_entries < count
    → (happen_all mock_id count events (start l)).returned ≡ false
unfolding start
waiter_stays mock_id count l events h lt =
    let (a, b, c) =
      happen_all-Blocked mock_id count l.max_entries events (start l) lt (refl, h, refl) in
    c
