-- ===== src/Logger/Tests.antt =====
-- The request log at concrete entries.
use mockly.Base.{
  ℕ, ◌≡◌, ◌≤◌, ◌<◌, refl, Bool, true, false, none, some, List, [], ◌∷◌, Bytes, codes, arith, length,
}
use mockly.Base.Int.{pos}
use mockly.Logger.{Entry, Logger, append_entry}
use mockly.Logger.Channels.{Channel, logs, sends, unregisters, closes, perform, cancel_panics}
use mockly.Logger.Wait as Wait
use mockly.Logger.Wait.{Event, Waiting, happen_all, is_enough, start}
use mockly.Logger.Wait.Laws.{waiter_returns, waiter_stays}

abbrev call : Entry
call = record {
  id = codes "1";
  timestamp = some 5;
  protocol = codes "http";
  method = codes "GET";
  path = codes "/";
  status = pos 200;
  duration = pos 0;
  headers = [];
  body = [];
  matched_id = codes "m1";
  path_params = [];
  near_misses = [];
}

abbrev log : Logger
log = record { entries = []; max_entries = 2; subscribers = (codes "s", 3) ∷ [] }

abbrev open_channels : ℕ → Channel
open_channels c = record { buffer = []; closed = false }

two_kept :
    (append_entry call (append_entry call (append_entry call log))).entries ≡ call ∷ call ∷ []
unfolding append_entry
two_kept = refl

cancel_panics_example :
    perform
      (logs 1 2 call ∷ unregisters (codes "s") ∷ closes 3 ∷ sends ∷ [])
      (record { log = log; channels = open_channels; in_flight = [] })
    ≡ none
cancel_panics_example = cancel_panics 1 2 3 (codes "s") call log open_channels refl refl

abbrev two_calls : List Event
two_calls =
    Wait.logs call ∷ Wait.steps ∷ Wait.logs call ∷ Wait.steps ∷ Wait.sends ∷ Wait.logs call ∷ []

waiter_returns_example :
    (happen_all
      (codes "m1")
      2
      (Wait.sends ∷ Wait.steps ∷ Wait.steps ∷ [])
      (happen_all (codes "m1") 2 two_calls (start log))).returned
    ≡ true
unfolding is_enough happen_all start mockly.Base.text_eq
waiter_returns_example = waiter_returns (codes "m1") 2 log two_calls refl

waiter_stays_example : (happen_all (codes "m1") 3 two_calls (start log)).returned ≡ false
waiter_stays_example = waiter_stays (codes "m1") 3 log two_calls (omega arith) (omega arith)
