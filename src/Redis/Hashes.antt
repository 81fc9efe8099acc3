-- ===== src/Redis/Hashes.antt =====
-- The hashes of datastore.go.
pub mod Counts
use mockly.Base.{
  ℕ, zero, suc, ◌+◌, ◌≡◌, refl, sym, ap, ◌∙◌, Bool, true, false, Option, none, some, List, [], ◌∷◌,
  Bytes, if◌then◌else◌, arith, length, Dict, lookup, insert, remove, has_key, text_eq, text_eq_iff,
  has_key-insert, has_key-remove, Bool-cases, has_distinct_keys, has_distinct_keys-insert,
  has_distinct_keys-remove, lookup-insert, lookup-remove,
}
use mockly.Redis.{
  Value, str, hash, list, Entry, DataStore, Reply, ok, wrong_type, get_locked, live_or,
}

-- The loop of `HSet`: how many fields are new, and the hash.
unfoldable pub put_fields : Dict Bytes → Dict Bytes → ℕ × Dict Bytes
put_fields [] h = (0, h)
put_fields ((f, v) ∷ fields) h =
    let (n, out) = put_fields fields (insert f v h) in (if has_key f h then n else suc n, out)

unfoldable pub hset_entry : Bytes → Dict Bytes → Entry → DataStore → Reply ℕ × DataStore
hset_entry key fields e s = elim e.value [
  | hash h ↦
      (let (n, out) = put_fields fields h in (ok n, insert key (record e { value = hash out }) s))
  | _ ↦ (wrong_type, s)
]

unfoldable pub hset : Bytes → Dict Bytes → ℕ → DataStore → Reply ℕ × DataStore
unfolding hset_entry
hset key fields now s = let (e, t) = live_or (hash []) key now s in hset_entry key fields e t

abbrev pub hash_of : Option Entry → Reply (Dict Bytes)
hash_of none = ok []
hash_of (some e) = elim e.value [ hash h ↦ ok h | _ ↦ wrong_type ]

abbrev field_of : Bytes → Reply (Dict Bytes) → Reply (Option Bytes)
field_of f (ok h) = ok (lookup f h)
field_of f _ = wrong_type

abbrev has_field : Bytes → Reply (Dict Bytes) → Reply Bool
has_field f (ok h) = ok (has_key f h)
has_field f _ = wrong_type

unfoldable pub hget : Bytes → Bytes → ℕ → DataStore → Reply (Option Bytes) × DataStore
hget key f now s = let (e, t) = get_locked key now s in (field_of f (hash_of e), t)

unfoldable pub hget_all : Bytes → ℕ → DataStore → Reply (Dict Bytes) × DataStore
hget_all key now s = let (e, t) = get_locked key now s in (hash_of e, t)

unfoldable pub hexists : Bytes → Bytes → ℕ → DataStore → Reply Bool × DataStore
hexists key f now s = let (e, t) = get_locked key now s in (has_field f (hash_of e), t)

-- The loop of `HDel`: how many fields were there, and the hash.
unfoldable pub drop_fields : List Bytes → Dict Bytes → ℕ × Dict Bytes
drop_fields [] h = (0, h)
drop_fields (f ∷ fields) h =
    let (n, out) = drop_fields fields (remove f h) in (if has_key f h then suc n else n, out)

unfoldable pub hdel_entry : Bytes → List Bytes → Option Entry → DataStore → Reply ℕ × DataStore
hdel_entry key fields none s = (ok 0, s)
hdel_entry key fields (some e) s = elim e.value [
  | hash h ↦
      (let (n, out) = drop_fields fields h in (ok n, insert key (record e { value = hash out }) s))
  | _ ↦ (wrong_type, s)
]

unfoldable pub hdel : Bytes → List Bytes → ℕ → DataStore → Reply ℕ × DataStore
unfolding hdel_entry
hdel key fields now s = let (e, t) = get_locked key now s in hdel_entry key fields e t
