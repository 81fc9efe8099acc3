-- ===== src/Redis/Tests.antt =====
-- Runs of the Redis store, and its theorems at concrete inputs.
use mockly.Base.{
  ℕ, ◌+◌, ◌-◌, ◌*◌, ◌≡◌, ◌≢◌, ◌↔◌, refl, true, none, some, Option, List, [], ◌∷◌, arith, Bytes,
  codes, lookup, has_key, Dict, has_distinct_keys, text_eq,
}
use mockly.Base.Int.{ℤ, pos, negsuc, wrap64, ◌+ℤ◌, ◌≤ℤ◌, ◌<ℤ◌}
use mockly.Redis.{
  Value, str, hash, list, Entry, DataStore, ok, del, Decimal, incr_by, expire, ttl, get,
}
use mockly.Redis.Counters.{incr_all, total, incr_by-incr_all}
use mockly.Redis.Expiry.{TtlUntil, ttl-expire}
use mockly.Redis.Hashes.{hset, hget_all}
use mockly.Redis.Hashes.Counts.{IsUpdated, hget_all-hset}
use mockly.Redis.Lists.{normalize_list_index, range, push, lrange}
use mockly.Redis.Lists.Range.{range_lem, range_panics_iff}
use mockly.Redis.Lists.Pushed.{lrange-push}
use mockly.Redis.Commands.{handle_stateful}
use mockly.Redis.Commands.Answers.{bulk, okay, null, integer, wrong_args}
use mockly.Redis.Commands.Errors.{store_after, handle_stateful-Untouched}
use mockly.Redis.Commands.Errors.Handlers.{Untouched}

abbrev hits : Bytes
hits = codes "hits"

abbrev queue : List Bytes
queue = codes "a" ∷ codes "b" ∷ []

abbrev profile : Dict Bytes
profile = (codes "name", codes "ann") ∷ []

abbrev keys : DataStore
keys =
    (codes "queue", record { value = list queue; expires_at = none })
    ∷ (codes "profile", record { value = hash profile; expires_at = none })
    ∷ []

-- Counters as a digit that stands for any number, with a second byte for a negative one.
abbrev read : Bytes → Option ℤ
read (c ∷ []) = some (pos (c - 48))
read (c ∷ d ∷ []) = some (negsuc c)
read _ = none

abbrev show : ℤ → Bytes
show (pos n) = (48 + n) ∷ []
show (negsuc n) = n ∷ 45 ∷ []

abbrev digits : Decimal
digits = record { parse = read; format = show }

digits_trip : (z : ℤ) → read (show z) ≡ some z
digits_trip (pos n) = ground arith
digits_trip (negsuc n) = refl

incr_by-incr_all_example :
    (incr_by digits hits (pos 4) 1 (incr_all digits hits (pos 3 ∷ negsuc 1 ∷ []) 1 keys)).0
    ≡ ok (wrap64 (total (wrap64 (pos 0)) (pos 3 ∷ negsuc 1 ∷ []) +ℤ pos 4))
unfolding wrap64 lookup text_eq
incr_by-incr_all_example =
    incr_by-incr_all digits hits (pos 3 ∷ negsuc 1 ∷ []) (pos 4) 1 keys
      (λ z. digits_trip (wrap64 z)) refl refl

ttl-expire_example :
    TtlUntil
      (2 + 30 * 1000000000)
      700000000
      (ttl (codes "queue") 600000000 700000000 (expire (codes "queue") (pos 30) 1 2 keys).1).0
unfolding lookup text_eq mockly.Redis.expired
ttl-expire_example =
    ttl-expire (codes "queue") 30 1 2 600000000 700000000 keys
      (record { value = list queue; expires_at = none }) (omega arith) refl (omega arith)
      (omega arith)

abbrev update : Dict Bytes
update = (codes "name", codes "bob") ∷ (codes "age", codes "7") ∷ []

hget_all-hset_example :
    (after : Dict Bytes) × (added : ℕ) × ((hset (codes "profile") update 1 keys).0 ≡ ok added)
    × ((hget_all (codes "profile") 1 (hset (codes "profile") update 1 keys).1).0 ≡ ok after)
    × IsUpdated update profile after added
unfolding has_distinct_keys has_key text_eq lookup mockly.Redis.expired
hget_all-hset_example = hget_all-hset (codes "profile") update profile 1 keys refl refl

lrange-push_example :
    ((push (codes "queue") true (codes "x" ∷ codes "y" ∷ []) 1 keys).0 ≡ ok 4)
    × ((lrange
          (codes "queue")
          (pos 0)
          (negsuc 0)
          1
          (push (codes "queue") true (codes "x" ∷ codes "y" ∷ []) 1 keys).1).0
        ≡ some (ok (codes "y" ∷ codes "x" ∷ queue)))
unfolding lookup text_eq mockly.Redis.expired
lrange-push_example =
    lrange-push (codes "queue") true (codes "x" ∷ codes "y" ∷ []) queue 1 keys refl

range_lem_example : range (negsuc 99) (negsuc 0) queue ≡ some queue
range_lem_example = range_lem (negsuc 99) (negsuc 0) 1 queue refl

range_panics_iff_example : (range (negsuc 99) (negsuc 49) queue ≡ none) ↔ (
    (queue ≢ [])
    × (normalize_list_index (negsuc 99) 2 ≤ℤ normalize_list_index (negsuc 49) 2)
    × (normalize_list_index (negsuc 49) 2 <ℤ negsuc 0))
range_panics_iff_example = range_panics_iff (negsuc 99) (negsuc 49) queue

-- `LRANGE queue -100 -50`
panics : range (negsuc 99) (negsuc 49) queue ≡ none
unfolding range
panics = refl

-- A command of the store on `keys`, at the instant 5.
abbrev answers :
    Bytes
    → List Bytes
    → DataStore
    → Option (Option mockly.Redis.Commands.Answers.Answer × DataStore)
answers = handle_stateful digits (λ i. 5)

-- Any option but EX and PX is passed over.
set_passes_over_nx :
    answers
      (codes "SET")
      (codes "k" ∷ codes "new" ∷ codes "NX" ∷ [])
      ((codes "k", record { value = str (codes "old"); expires_at = none }) ∷ [])
    ≡ some (some okay, (codes "k", record { value = str (codes "new"); expires_at = none }) ∷ [])
unfolding handle_stateful lookup text_eq mockly.Base.to_upper mockly.Redis.set mockly.Base.insert
set_passes_over_nx = refl

rpush_is_called_lpush :
    answers (codes "RPUSH") (codes "queue" ∷ []) keys
    ≡ some (some (wrong_args (codes "lpush")), keys)
unfolding handle_stateful lookup text_eq mockly.Redis.Commands.cmd_push
rpush_is_called_lpush = refl

unknown_left_to_mocks : answers (codes "PING") [] keys ≡ none
unfolding handle_stateful lookup text_eq
unknown_left_to_mocks = refl

handle_stateful-Untouched_example : Untouched (codes "queue") 5 keys (
    store_after keys
      (handle_stateful digits (λ i. 5) (codes "APPEND") (codes "queue" ∷ codes "x" ∷ []) keys))
unfolding handle_stateful lookup text_eq mockly.Redis.Commands.cmd_append mockly.Redis.append
    mockly.Redis.live_or mockly.Redis.get_locked mockly.Redis.expired
handle_stateful-Untouched_example =
    handle_stateful-Untouched digits (λ i. 5) (codes "APPEND") (codes "queue" ∷ codes "x" ∷ []) keys
      refl refl
