-- ===== src/Redis/Hashes/Counts.antt =====
-- The methods on hashes of internal/protocols/redisserver/datastore.go.
use mockly.Base.{
  ℕ, suc, ◌+◌, ◌≡◌, refl, ap, ◌∙◌, true, false, none, some, List, [], ◌∷◌, Bytes, if◌then◌else◌,
  arith, length, Dict, lookup, insert, remove, has_key, text_eq_iff, text_eq_refl, has_key-lookup,
  has_distinct_keys, has_distinct_keys-remove, lookup-insert,
}
use mockly.Redis.{hash, Entry, DataStore, ok, live_or}
use mockly.Redis.Laws.{view, or_fresh, live_or-view, written, view-written, get_locked-view}
use mockly.Redis.Hashes.{put_fields, drop_fields, hset, hset_entry, hash_of, hget_all}

length-insert :
    (k v : Bytes) (h : Dict Bytes)
    → length (insert k v h) ≡ (if has_key k h then length h else suc (length h))
unfolding insert has_key
length-insert k v [] = refl
length-insert k v ((j, w) ∷ h) = ground (arith, length-insert k v h)

remove_missing : (k : Bytes) (h : Dict Bytes) → has_key k h ≡ false → remove k h ≡ h
unfolding remove has_key
remove_missing k [] e = refl
remove_missing k ((j, w) ∷ h) e = ground (arith, remove_missing k h)

length-remove :
    (k : Bytes) (h : Dict Bytes)
    → has_distinct_keys h ≡ true
    → (if has_key k h then suc (length (remove k h)) else length (remove k h)) ≡ length h
unfolding remove has_key has_distinct_keys
length-remove k [] d = refl
length-remove k ((j, w) ∷ h) d =
    ground (arith, length-remove k h, text_eq_iff j k, remove_missing k h)

length-put_fields :
    (fields h : Dict Bytes) → length (put_fields fields h).1 ≡ length h + (put_fields fields h).0
unfolding put_fields
length-put_fields [] h = omega arith
length-put_fields ((f, v) ∷ fields) h =
    ground (arith, length-put_fields fields (insert f v h), length-insert f v h)

length-drop_fields :
    (fields : List Bytes) (h : Dict Bytes)
    → has_distinct_keys h ≡ true
    → length h ≡ length (drop_fields fields h).1 + (drop_fields fields h).0
unfolding drop_fields
length-drop_fields [] h d = omega arith
length-drop_fields (f ∷ fields) h d = ground (
  arith,
  length-drop_fields fields (remove f h) (has_distinct_keys-remove f h d),
  length-remove f h d,
)

lookup-put_fields :
    (fields h : Dict Bytes) (f : Bytes)
    → has_distinct_keys fields ≡ true
    → lookup f (put_fields fields h).1
      ≡ elim (lookup f fields) [ none ↦ lookup f h | some v ↦ some v ]
unfolding put_fields lookup has_distinct_keys
lookup-put_fields [] h f d = refl
lookup-put_fields ((k, v) ∷ fields) h f d = ground (
  arith,
  lookup-put_fields fields (insert k v h) f,
  lookup-insert k f v h,
  text_eq_iff k f,
  has_key-lookup k fields,
)

hset_entry-hash :
    (key : Bytes) (fields h : Dict Bytes) (e : Entry) (s : DataStore)
    → e.value ≡ hash h
    → hset_entry key fields e s ≡ (
      ok (put_fields fields h).0,
      insert key (record e { value = hash (put_fields fields h).1 }) s,
    )
unfolding hset_entry
hset_entry-hash key fields h e s is_hash = ground arith

hset-written :
    (key : Bytes) (fields h : Dict Bytes) (now : ℕ) (s : DataStore)
    → (or_fresh (hash []) (view key now s)).value ≡ hash h
    → hset key fields now s
      ≡ (ok (put_fields fields h).0, written (hash []) (hash (put_fields fields h).1) key now s)
unfolding hset
hset-written key fields h now s is_hash =
    ap (λ e. hset_entry key fields e (live_or (hash []) key now s).1)
      (live_or-view (hash []) key now s)
    ∙ hset_entry-hash key fields h (or_fresh (hash []) (view key now s))
        (live_or (hash []) key now s).1 is_hash

hget_all-written :
    (key : Bytes) (h : Dict Bytes) (now : ℕ) (s : DataStore)
    → (hget_all key now (written (hash []) (hash h) key now s)).0 ≡ ok h
unfolding hget_all
hget_all-written key h now s = ap hash_of (
    get_locked-view key now (written (hash []) (hash h) key now s)
    ∙ view-written (hash []) (hash h) key key now s
    ∙ ap
        (λ b.
          if b
          then some (record (or_fresh (hash []) (view key now s)) { value = hash h })
          else view key now s)
        (text_eq_refl key))

-- What `HGETALL` reads after `HSET`, and what `HSET` answers, for a hash that was `h`.
abbrev pub IsUpdated : Dict Bytes → Dict Bytes → Dict Bytes → ℕ → Type 0
IsUpdated fields h after added =
    (length after ≡ length h + added)
    × ((f : Bytes)
        → lookup f after ≡ elim (lookup f fields) [ none ↦ lookup f h | some v ↦ some v ])

-- If a key holds a hash, or nothing and the hash is empty, then after `HSET` of fields that differ from
-- each other `HGETALL` reads a hash that has each of them with its new value and the old value of every other
-- field, and the answer of `HSET` is the number of fields by which that hash has grown.
pub hget_all-hset :
    (key : Bytes) (fields h : Dict Bytes) (now : ℕ) (s : DataStore)
    → has_distinct_keys fields ≡ true
    → (or_fresh (hash []) (view key now s)).value ≡ hash h
    → (after : Dict Bytes) × (added : ℕ) × ((hset key fields now s).0 ≡ ok added)
      × ((hget_all key now (hset key fields now s).1).0 ≡ ok after)
      × IsUpdated fields h after added
hget_all-hset key fields h now s d is_hash =
    let (added, after) = put_fields fields h in
    let e = hset-written key fields h now s is_hash in
    (
      after,
      added,
      ap (λ r. r.0) e,
      ap (λ r. (hget_all key now r.1).0) e ∙ hget_all-written key after now s,
      (length-put_fields fields h, λ f. lookup-put_fields fields h f d),
    )
