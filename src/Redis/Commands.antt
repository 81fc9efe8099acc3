-- ===== src/Redis/Commands.antt =====
-- internal/protocols/redisserver/command_stateful.go: the commands that read and write the store. A
-- number of Redis is read by `parse`, as `strconv.ParseInt` and `strconv.Atoi` do; `clock i` is the
-- reading number i of the clock.
pub mod Answers
pub mod Errors
use mockly.Base.{
  ℕ, suc, Bool, true, false, Option, none, some, List, [], ◌∷◌, Bytes, codes, if◌then◌else◌, Dict,
  lookup, insert,
}
use mockly.Base.Int.{ℤ, pos, ◌-ℤ◌, wrap64}
use mockly.Redis as Redis
use mockly.Redis.{DataStore, Reply, Decimal, incr_by}
use mockly.Redis.Hashes.{hset, hget, hget_all, hdel, hexists}
use mockly.Redis.Lists.{push, lrange, llen}
use mockly.Redis.Commands.Answers.{
  wrong_args, no_integer, okay, integer, array, Done, reply, answered, or_null, one_or_zero,
  natural, refused, ttl_of, too_few, unreadable, set_options,
}

unfoldable pub cmd_set : Decimal → ℕ → List Bytes → DataStore → Done
unfolding set_options
cmd_set d now (key ∷ value ∷ options) s = elim (set_options d options (pos 0)) [
  | ttl_of t ↦ (some okay, Redis.set key value t now s)
  | too_few ↦ refused (wrong_args (codes "set")) s
  | unreadable ↦ refused no_integer s
]
cmd_set d now _ s = refused (wrong_args (codes "set")) s

unfoldable pub cmd_get : ℕ → List Bytes → DataStore → Done
cmd_get now [] s = refused (wrong_args (codes "get")) s
cmd_get now (key ∷ args) s = answered or_null (Redis.get key now s)

-- Each key with the reading of the clock at its turn.
unfoldable pub timed : (ℕ → ℕ) → ℕ → List Bytes → Dict ℕ
timed clock i [] = []
timed clock i (k ∷ keys) = (k, clock i) ∷ timed clock (suc i) keys

unfoldable pub cmd_del : (ℕ → ℕ) → List Bytes → DataStore → Done
unfolding timed
cmd_del clock [] s = refused (wrong_args (codes "del")) s
cmd_del clock (k ∷ keys) s =
    let (n, t) = Redis.del (timed clock 0 (k ∷ keys)) s in (some (natural n), t)

unfoldable pub cmd_exists : (ℕ → ℕ) → List Bytes → DataStore → Done
unfolding timed
cmd_exists clock [] s = refused (wrong_args (codes "exists")) s
cmd_exists clock (k ∷ keys) s =
    let (n, t) = Redis.exists (timed clock 0 (k ∷ keys)) s in (some (natural n), t)

unfoldable pub cmd_expire : Decimal → ℕ → ℕ → List Bytes → DataStore → Done
cmd_expire d now later (key ∷ secs ∷ []) s = elim (d.parse secs) [
  | none ↦ refused no_integer s
  | some n ↦ (let (b, t) = Redis.expire key n now later s in (some (one_or_zero b), t))
]
cmd_expire d now later _ s = refused (wrong_args (codes "expire")) s

unfoldable pub cmd_ttl : ℕ → ℕ → List Bytes → DataStore → Done
cmd_ttl now later (key ∷ []) s = let (n, t) = Redis.ttl key now later s in (some (integer n), t)
cmd_ttl now later _ s = refused (wrong_args (codes "ttl")) s

unfoldable pub cmd_persist : ℕ → List Bytes → DataStore → Done
cmd_persist now (key ∷ []) s = let (b, t) = Redis.persist key now s in (some (one_or_zero b), t)
cmd_persist now _ s = refused (wrong_args (codes "persist")) s

-- `sign * n`, for a sign of 1 or -1
unfoldable pub signed : Bool → ℤ → ℤ
signed positive n = if positive then n else wrap64 (pos 0 -ℤ n)

-- INCR and DECR.
unfoldable pub cmd_incr : Decimal → Bool → ℕ → List Bytes → DataStore → Done
unfolding signed
cmd_incr d positive now (key ∷ []) s =
    answered integer (incr_by d key (signed positive (pos 1)) now s)
cmd_incr d positive now _ s = refused (wrong_args (codes "incrby")) s

-- `delta` as it was read.
unfoldable pub incr_parsed : Decimal → Bool → Bytes → ℕ → Option ℤ → DataStore → Done
unfolding signed
incr_parsed d positive key now none s = refused no_integer s
incr_parsed d positive key now (some n) s =
    answered integer (incr_by d key (signed positive n) now s)

-- INCRBY and DECRBY.
unfoldable pub cmd_incr_by : Decimal → Bool → ℕ → List Bytes → DataStore → Done
unfolding incr_parsed
cmd_incr_by d positive now (key ∷ delta ∷ []) s = incr_parsed d positive key now (d.parse delta) s
cmd_incr_by d positive now _ s = refused (wrong_args (codes "incrby")) s

unfoldable pub cmd_append : ℕ → List Bytes → DataStore → Done
cmd_append now (key ∷ value ∷ []) s = answered natural (Redis.append key value now s)
cmd_append now _ s = refused (wrong_args (codes "append")) s

-- The pairs of a field and a value; `none` where one is left over.
unfoldable pub pairs_of : List Bytes → Dict Bytes → Option (Dict Bytes)
pairs_of [] fields = some fields
pairs_of (f ∷ []) fields = none
pairs_of (f ∷ v ∷ rest) fields = pairs_of rest (insert f v fields)

unfoldable pub cmd_hset : ℕ → List Bytes → DataStore → Done
unfolding pairs_of
cmd_hset now (key ∷ f ∷ args) s = elim (pairs_of (f ∷ args) []) [
  | none ↦ refused (wrong_args (codes "hset")) s
  | some fields ↦ answered natural (hset key fields now s)
]
cmd_hset now _ s = refused (wrong_args (codes "hset")) s

unfoldable pub cmd_hget : ℕ → List Bytes → DataStore → Done
cmd_hget now (key ∷ f ∷ []) s = answered or_null (hget key f now s)
cmd_hget now _ s = refused (wrong_args (codes "hget")) s

unfoldable pub flattened : Dict Bytes → List Bytes
flattened [] = []
flattened ((k, v) ∷ m) = k ∷ v ∷ flattened m

unfoldable pub cmd_hget_all : ℕ → List Bytes → DataStore → Done
unfolding flattened
cmd_hget_all now (key ∷ []) s = answered (λ m. array (flattened m)) (hget_all key now s)
cmd_hget_all now _ s = refused (wrong_args (codes "hgetall")) s

unfoldable pub cmd_hdel : ℕ → List Bytes → DataStore → Done
cmd_hdel now (key ∷ f ∷ fields) s = answered natural (hdel key (f ∷ fields) now s)
cmd_hdel now _ s = refused (wrong_args (codes "hdel")) s

unfoldable pub cmd_hexists : ℕ → List Bytes → DataStore → Done
cmd_hexists now (key ∷ f ∷ []) s = answered one_or_zero (hexists key f now s)
cmd_hexists now _ s = refused (wrong_args (codes "hexists")) s

unfoldable pub cmd_push : Bool → ℕ → List Bytes → DataStore → Done
cmd_push left now (key ∷ v ∷ values) s = answered natural (push key left (v ∷ values) now s)
cmd_push left now _ s = refused (wrong_args (codes "lpush")) s

abbrev pub ranged : Option (Reply (List Bytes)) × DataStore → Done
ranged (none, s) = (none, s)
ranged (some r, s) = (some (reply array r), s)

unfoldable pub cmd_lrange : Decimal → ℕ → List Bytes → DataStore → Done
cmd_lrange d now (key ∷ first ∷ last ∷ []) s = elim (d.parse first) [
  | none ↦ refused no_integer s
  | some start ↦ elim (d.parse last) [
    | none ↦ refused no_integer s
    | some stop ↦ ranged (lrange key start stop now s)
  ]
]
cmd_lrange d now _ s = refused (wrong_args (codes "lrange")) s

unfoldable pub cmd_llen : ℕ → List Bytes → DataStore → Done
cmd_llen now (key ∷ []) s = answered natural (llen key now s)
cmd_llen now _ s = refused (wrong_args (codes "llen")) s

-- The switch of `handleStateful`, whose cases are the keys of statefulCommands.
unfoldable pub handlers : Decimal → (ℕ → ℕ) → Dict (List Bytes → DataStore → Done)
unfolding cmd_set
handlers d clock =
    (codes "SET", cmd_set d (clock 0))
    ∷ (codes "GET", cmd_get (clock 0))
    ∷ (codes "DEL", cmd_del clock)
    ∷ (codes "EXISTS", cmd_exists clock)
    ∷ (codes "EXPIRE", cmd_expire d (clock 0) (clock 1))
    ∷ (codes "TTL", cmd_ttl (clock 0) (clock 1))
    ∷ (codes "PERSIST", cmd_persist (clock 0))
    ∷ (codes "INCR", cmd_incr d true (clock 0))
    ∷ (codes "DECR", cmd_incr d false (clock 0))
    ∷ (codes "INCRBY", cmd_incr_by d true (clock 0))
    ∷ (codes "DECRBY", cmd_incr_by d false (clock 0))
    ∷ (codes "APPEND", cmd_append (clock 0))
    ∷ (codes "HSET", cmd_hset (clock 0))
    ∷ (codes "HGET", cmd_hget (clock 0))
    ∷ (codes "HGETALL", cmd_hget_all (clock 0))
    ∷ (codes "HDEL", cmd_hdel (clock 0))
    ∷ (codes "HEXISTS", cmd_hexists (clock 0))
    ∷ (codes "LPUSH", cmd_push true (clock 0))
    ∷ (codes "RPUSH", cmd_push false (clock 0))
    ∷ (codes "LRANGE", cmd_lrange d (clock 0))
    ∷ (codes "LLEN", cmd_llen (clock 0))
    ∷ []

-- `none` where the command is left to the mocks.
abbrev pub run_handler :
    Option (List Bytes → DataStore → Done) → List Bytes → DataStore → Option Done
run_handler none args s = none
run_handler (some handler) args s = some (handler args s)

unfoldable pub handle_stateful : Decimal → (ℕ → ℕ) → Bytes → List Bytes → DataStore → Option Done
unfolding handlers
handle_stateful d clock command args s = run_handler (lookup command (handlers d clock)) args s
