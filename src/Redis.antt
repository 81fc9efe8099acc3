-- ===== src/Redis.antt =====
-- internal/protocols/redisserver/datastore.go: the store behind stateful Redis mocks: strings with an
-- expiry, counters, hashes and lists. `dataStore` is the map that it holds; `kind` and the three
-- fields of an entry are one value. An instant is a number of nanoseconds, and each argument `now`
-- or `later` is one reading of the clock, in the order of the readings.
pub mod Laws
pub mod Counters
pub mod Expiry
pub mod Hashes
pub mod Lists
pub mod Commands
mod Tests
use mockly.Base.{
  ℕ, suc, ◌+◌, ◌*◌, ◌/◌, ◌^◌, Bool, true, false, Option, none, some, List, [], ◌∷◌, ◌++◌, Bytes,
  codes, length, if◌then◌else◌, ltb, Dict, lookup, insert, remove,
}
use mockly.Base.Int.{ℤ, pos, negsuc, ◌+ℤ◌, ◌-ℤ◌, ltb_ℤ, wrap64}

pub data Value : Type 0 where
  str : Bytes → Value
  hash : Dict Bytes → Value
  list : List Bytes → Value

-- `none` is the zero instant: no expiry.
pub record Entry : Type 0 where
  pub value : Value
  pub expires_at : Option ℤ

abbrev pub DataStore : Type 0
DataStore = Dict Entry

-- What a method returns: a result, WRONGTYPE, or the error of `strconv.ParseInt`.
pub data Reply (A : Type 0) : Type 0 where
  ok : A → Reply A
  wrong_type not_integer : Reply A

unfoldable pub expired : Entry → ℕ → Bool
expired e now = elim e.expires_at [ none ↦ false | some t ↦ ltb_ℤ t (pos now) ]

get_found : Bytes → ℕ → Option Entry → DataStore → Option Entry × DataStore
get_found key now none s = (none, s)
get_found key now (some e) s = if expired e now then (none, remove key s) else (some e, s)

-- `getLocked`
unfoldable pub get_locked : Bytes → ℕ → DataStore → Option Entry × DataStore
unfolding get_found
get_locked key now s = get_found key now (lookup key s) s

unfoldable pub flush : DataStore → DataStore
flush s = []

abbrev expiry : ℤ → ℕ → Option ℤ
expiry (pos n) now = if ltb 0 n then some (pos (now + n)) else none
expiry (negsuc n) now = none

unfoldable pub set : Bytes → Bytes → ℤ → ℕ → DataStore → DataStore
set key value ttl now s = insert key (record { value = str value; expires_at = expiry ttl now }) s

abbrev string_of : Option Entry → Reply (Option Bytes)
string_of none = ok none
string_of (some e) = elim e.value [ str v ↦ ok (some v) | _ ↦ wrong_type ]

unfoldable pub get : Bytes → ℕ → DataStore → Reply (Option Bytes) × DataStore
get key now s = let (e, t) = get_locked key now s in (string_of e, t)

-- `Del` and `Exists`, each key with the instant at which its turn comes.
unfoldable pub del : Dict ℕ → DataStore → ℕ × DataStore
del [] s = (0, s)
del ((k, now) ∷ keys) s =
    let (e, t) = get_locked k now s in
    elim e [ none ↦ del keys t | some e ↦ (let (n, u) = del keys (remove k t) in (suc n, u)) ]

unfoldable pub exists : Dict ℕ → DataStore → ℕ × DataStore
exists [] s = (0, s)
exists ((k, now) ∷ keys) s =
    let (e, t) = get_locked k now s in
    let (n, u) = exists keys t in (elim e [ none ↦ n | some e ↦ suc n ], u)

abbrev second : ℕ
second = 1000000000

-- `time.Duration(seconds) * time.Second` before it wraps
abbrev pub seconds : ℤ → ℤ
seconds (pos n) = pos (n * second)
seconds (negsuc n) = pos 0 -ℤ pos (suc n * second)

unfoldable pub expire : Bytes → ℤ → ℕ → ℕ → DataStore → Bool × DataStore
expire key s now later store =
    let (found, t) = get_locked key now store in
    elim found [
      | none ↦ (false, t)
      | some e ↦
          (true, insert key (record e { expires_at = some (pos later +ℤ wrap64 (seconds s)) }) t)
    ]

-- `remaining.Round(time.Second).Seconds()`; a sum that overflows is the greatest duration.
unfoldable pub rounded : ℕ → ℕ
rounded n =
    let q = (n + 500000000) / second in if ltb (q * second) (2 ^ 63) then q else 2 ^ 63 / second

abbrev remaining : ℤ → ℤ
remaining (pos n) = pos (rounded n)
remaining (negsuc n) = negsuc 1

abbrev ttl_of : ℕ → Option Entry → ℤ
ttl_of later none = negsuc 1
ttl_of later (some e) = elim e.expires_at [ none ↦ negsuc 0 | some t ↦ remaining (t -ℤ pos later) ]

unfoldable pub ttl : Bytes → ℕ → ℕ → DataStore → ℤ × DataStore
ttl key now later s = let (e, t) = get_locked key now s in (ttl_of later e, t)

unfoldable pub persist : Bytes → ℕ → DataStore → Bool × DataStore
persist key now s =
    let (found, t) = get_locked key now s in
    elim found [
      | none ↦ (false, t)
      | some e ↦ elim e.expires_at [
        | none ↦ (false, t)
        | some at ↦ (true, insert key (record e { expires_at = none }) t)
      ]
    ]

abbrev pub fresh_entry : Value → Entry
fresh_entry v = record { value = v; expires_at = none }

-- The entry that a writing method goes on with: the live one, or a new one put into the map.
unfoldable pub live_or : Value → Bytes → ℕ → DataStore → Entry × DataStore
live_or fresh key now s =
    let (found, t) = get_locked key now s in
    elim found [ none ↦ (fresh_entry fresh, insert key (fresh_entry fresh) t) | some e ↦ (e, t) ]

-- The decimal texts of `strconv.ParseInt(s, 10, 64)` and `strconv.FormatInt(n, 10)`.
pub record Decimal : Type 0 where
  pub parse : Bytes → Option ℤ
  pub format : ℤ → Bytes

incr_entry : Decimal → Bytes → ℤ → Entry → DataStore → Reply ℤ × DataStore
incr_entry d key delta e s = elim e.value [
  | str v ↦ elim (d.parse v) [
    | none ↦ (not_integer, s)
    | some n ↦
        (let m = wrap64 (n +ℤ delta) in
          (ok m, insert key (record e { value = str (d.format m) }) s))
  ]
  | _ ↦ (wrong_type, s)
]

unfoldable pub incr_by : Decimal → Bytes → ℤ → ℕ → DataStore → Reply ℤ × DataStore
unfolding incr_entry
incr_by d key delta now s =
    let (e, t) = live_or (str (codes "0")) key now s in incr_entry d key delta e t

append_entry : Bytes → Bytes → Entry → DataStore → Reply ℕ × DataStore
append_entry key value e s = elim e.value [
  | str v ↦ (ok (length (v ++ value)), insert key (record e { value = str (v ++ value) }) s)
  | _ ↦ (wrong_type, s)
]

unfoldable pub append : Bytes → Bytes → ℕ → DataStore → Reply ℕ × DataStore
unfolding append_entry
append key value now s = let (e, t) = live_or (str []) key now s in append_entry key value e t
