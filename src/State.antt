-- ===== src/State.antt =====
-- internal/state/store.go: the key-value store that drives stateful mocks, and the three template
-- functions of internal/engine/store.go that read and write it.
-- An instant is a number of nanoseconds; the zero `time.Time` of an entry that never expires is
-- `none`. Each method takes the instant that its call of `time.Now` returns. Every method but `Get`
-- runs under one lock and is one function; `Get` is also split at its lock in State/Race.antt.
pub mod Laws
pub mod Race
pub mod Condition
mod Tests
use mockly.Base.{
  ℕ, ◌+◌, ◌*◌, Bool, true, false, not, Option, none, some, [], ◌∷◌, Bytes, codes, ltb,
  if◌then◌else◌, Dict, lookup, insert, remove, retain, has_prefix,
}
use mockly.Base.Int.{ℤ, pos, negsuc, wrap64}

pub record Entry : Type 0 where
  pub value : Bytes
  pub expires_at : Option ℕ

-- `!e.expiresAt.IsZero() && now.After(e.expiresAt)`
unfoldable pub expired : Entry → ℕ → Bool
expired e now = elim e.expires_at [ none ↦ false | some t ↦ ltb t now ]

-- The field `data`, a reserved word here.
pub record Store : Type 0 where
  pub entries : Dict Entry

unfoldable pub new : Store
new = record { entries = [] }

abbrev expiry : ℤ → ℕ → Option ℕ
expiry (pos n) now = if ltb 0 n then some (now + n) else none
expiry (negsuc n) now = none

-- `SetTTL`; a duration is a signed number of nanoseconds.
unfoldable pub set_ttl : Bytes → Bytes → ℤ → ℕ → Store → Store
set_ttl key value ttl now s = record s {
  entries = insert key (record { value = value; expires_at = expiry ttl now }) s.entries;
}

unfoldable pub set : Bytes → Bytes → ℕ → Store → Store
unfolding set_ttl
set key value now s = set_ttl key value (pos 0) now s

unfoldable pub delete : Bytes → Store → Store
delete key s = record s { entries = remove key s.entries }

-- What `Get` reads under the read lock, and what it does next.
get_found : Bytes → ℕ → Option Entry → Store → Option Bytes × Store
get_found key now none s = (none, s)
get_found key now (some e) s = if expired e now then (none, delete key s) else (some e.value, s)

-- `("", false)` is `none`.
unfoldable pub get : Bytes → ℕ → Store → Option Bytes × Store
unfolding get_found
get key now s = get_found key now (lookup key s.entries) s

-- The snapshot that `All` builds.
values : Dict Entry → Dict Bytes
values [] = []
values ((k, e) ∷ m) = (k, e.value) ∷ values m

-- `All` deletes what has expired, and copies the rest.
unfoldable pub all : ℕ → Store → Dict Bytes × Store
unfolding values
all now s =
    let live = retain (λ k e. not (expired e now)) s.entries in
    (values live, record s { entries = live })

unfoldable pub reset : Store → Store
reset s = record s { entries = [] }

unfoldable pub reset_prefix : Bytes → Store → Store
reset_prefix prefix s = record s { entries = retain (λ k e. not (has_prefix k prefix)) s.entries }

-- `fnStateGet`: the value, or "".
abbrev pub or_empty : Option Bytes → Bytes
or_empty none = []
or_empty (some v) = v

unfoldable pub fn_state_get : Bytes → ℕ → Store → Bytes × Store
unfolding get
fn_state_get key now s = let (v, s') = get key now s in (or_empty v, s')

unfoldable pub fn_state_set : Bytes → Bytes → ℕ → Store → Bytes × Store
unfolding set
fn_state_set key value now s = ([], set key value now s)

abbrev pub second : ℕ
second = 1_000_000_000

abbrev seconds : ℤ → ℤ
seconds (pos n) = pos (n * second)
seconds (negsuc n) = negsuc (n * second + 999_999_999)

abbrev is_positive : ℤ → Bool
is_positive (pos n) = ltb 0 n
is_positive (negsuc n) = false

-- `fnStateSetTTL`: `none` is the error of a lifetime that is not positive. The product with
-- `time.Second` is an `int64`.
unfoldable pub fn_state_set_ttl : Bytes → Bytes → ℤ → ℕ → Store → Option Bytes × Store
unfolding set_ttl
fn_state_set_ttl key value ttl_seconds now s =
    if is_positive ttl_seconds
    then (some [], set_ttl key value (wrap64 (seconds ttl_seconds)) now s)
    else (none, s)
