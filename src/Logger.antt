-- ===== src/Logger.antt =====
-- internal/logger/logger.go: the request log and its subscribers. An instant is a number of
-- nanoseconds; the zero time is `none`. A channel is a number. The methods under one lock are one
-- function each; Logger/Channels.antt splits Log and the cancel function of Subscribe where they
-- leave the lock, Logger/Wait.antt splits WaitFor.
pub mod Channels
pub mod Wait
mod Tests
use mockly.Base.{
  ℕ, zero, suc, ◌-◌, Bool, not, Option, none, some, List, [], ◌∷◌, ◌++◌, Bytes, Dict, insert,
  remove, filter, length, drop, ltb, text_eq, is_nil, decimal, if◌then◌else◌,
}
use mockly.Base.Int.{ℤ, pos, negsuc}

pub record NearMiss : Type 0 where
  pub mock_id : Bytes
  pub reason : Bytes

pub record Entry : Type 0 where
  pub id : Bytes
  pub timestamp : Option ℕ
  pub protocol : Bytes
  pub method : Bytes
  pub path : Bytes
  pub status : ℤ
  pub duration : ℤ
  pub headers : Dict Bytes
  pub body : Bytes
  pub matched_id : Bytes
  pub path_params : Dict Bytes
  pub near_misses : List NearMiss

pub record Logger : Type 0 where
  pub entries : List Entry
  pub max_entries : ℕ
  pub subscribers : Dict ℕ

unfoldable pub limit_of : ℤ → ℕ
limit_of (pos zero) = 500
limit_of (pos (suc n)) = suc n
limit_of (negsuc n) = 500

unfoldable pub new : ℤ → Logger
unfolding limit_of
new max_entries = record { entries = []; max_entries = limit_of max_entries; subscribers = [] }

-- The defaults of an entry's name and time, with the instants of the two calls of `time.Now`.
unfoldable pub stamped : ℕ → ℕ → Entry → Entry
stamped first second e = record e {
  id = (if is_nil e.id then decimal first else e.id);
  timestamp = (elim e.timestamp [ none ↦ some second | some t ↦ some t ]);
}

-- The part of `Log` under the lock, on the entries.
unfoldable pub append_entry : Entry → Logger → Logger
append_entry e l =
    let grown = l.entries ++ e ∷ [] in
    record l {
      entries =
          (if ltb l.max_entries (length grown)
            then drop (length grown - l.max_entries) grown
            else grown);
    }

-- The channels that `Log` copies: those of a range over the subscribers.
unfoldable pub channels_of : Dict ℕ → List ℕ
channels_of [] = []
channels_of ((id, c) ∷ m) = c ∷ channels_of m

unfoldable pub entries : Logger → List Entry
entries l = l.entries

unfoldable pub clear : Logger → Logger
clear l = record l { entries = [] }

unfoldable pub clear_by_mock_id : Bytes → Logger → Logger
clear_by_mock_id mock_id l = record l {
  entries = filter (λ e. not (text_eq e.matched_id mock_id)) l.entries;
}

unfoldable pub entries_by_mock_id : Bytes → Logger → List Entry
entries_by_mock_id mock_id l = filter (λ e. text_eq e.matched_id mock_id) l.entries

unfoldable pub subscribe : Bytes → ℕ → Logger → Logger
subscribe id ch l = record l { subscribers = insert id ch l.subscribers }

-- The part of the cancel function under the lock.
unfoldable pub unsubscribe : Bytes → Logger → Logger
unsubscribe id l = record l { subscribers = remove id l.subscribers }

unfoldable pub subscriber_count : Logger → ℕ
subscriber_count l = length l.subscribers
