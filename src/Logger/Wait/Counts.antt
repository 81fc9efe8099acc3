-- ===== src/Logger/Wait/Counts.antt =====
-- How many entries the log of internal/logger/logger.go holds, in all and of one mock.
use mockly.Base.{
  ℕ, ◌-◌, ◌≤◌, ◌<◌, ◌≡◌, Bool, false, not, List, [], ◌∷◌, ◌++◌, Bytes, length, filter, arith,
  text_eq, length-drop,
}
use mockly.Logger.{Entry, Logger, append_entry, clear, clear_by_mock_id, entries_by_mock_id}
use mockly.Logger.Wait.{is_enough}

module _ {ℓ} {A : Type ℓ} (p q : A → Bool) where
  filter-filter_le : (xs : List A) → length (filter p (filter q xs)) ≤ length (filter p xs)
  filter-filter_le [] = omega arith
  filter-filter_le (x ∷ xs) = ground (arith, filter-filter_le xs)

pub filter_le : {A : Type 0} (p : A → Bool) (xs : List A) → length (filter p xs) ≤ length xs
filter_le p [] = omega arith
filter_le p (x ∷ xs) = ground (arith, filter_le p xs)

-- Clearing never makes enough of what was not.
pub enough-clear :
    (mock_id : Bytes) (count : ℕ) (l : Logger)
    → is_enough mock_id count l ≡ false
    → is_enough mock_id count (clear l) ≡ false
unfolding is_enough entries_by_mock_id clear
enough-clear mock_id count l h = ground arith

pub enough-clear_by_mock_id :
    (mock_id other : Bytes) (count : ℕ) (l : Logger)
    → is_enough mock_id count l ≡ false
    → is_enough mock_id count (clear_by_mock_id other l) ≡ false
unfolding is_enough entries_by_mock_id clear_by_mock_id
enough-clear_by_mock_id mock_id other count l h = ground (
  arith,
  filter-filter_le (λ e. text_eq e.matched_id mock_id) (λ e. not (text_eq e.matched_id other))
      l.entries,
)

pub append_entry_le : (e : Entry) (l : Logger) → length (append_entry e l).entries ≤ l.max_entries
unfolding append_entry
append_entry_le e l =
    ground (arith, length-drop (length (l.entries ++ e ∷ []) - l.max_entries) (l.entries ++ e ∷ []))

pub blocked_short :
    (mock_id : Bytes) (count : ℕ) (l : Logger)
    → length l.entries < count
    → is_enough mock_id count l ≡ false
unfolding is_enough entries_by_mock_id
blocked_short mock_id count l h =
    ground (arith, filter_le (λ e. text_eq e.matched_id mock_id) l.entries)
