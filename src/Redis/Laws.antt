-- ===== src/Redis/Laws.antt =====
-- The methods on keys of internal/protocols/redisserver/datastore.go, by what is read at an instant.
use mockly.Base.{
  ℕ, ◌≤◌, ◌≡◌, refl, ap, ◌∙◌, Option, none, some, [], ◌∷◌, Bytes, if◌then◌else◌, arith, Dict,
  lookup, insert, remove, has_key, text_eq, text_eq_iff, lookup-insert, lookup-remove, Option-cases,
  inl, inr,
}
use mockly.Redis.{
  Value, Entry, DataStore, expired, get_found, get_locked, live_or, del, fresh_entry,
}

abbrev pub live : ℕ → Option Entry → Option Entry
live now none = none
live now (some e) = if expired e now then none else some e

-- The entry of a key that has not expired.
abbrev pub view : Bytes → ℕ → DataStore → Option Entry
view key now s = live now (lookup key s)

pub get_locked-view :
    (key : Bytes) (now : ℕ) (s : DataStore) → (get_locked key now s).0 ≡ view key now s
unfolding get_locked get_found
get_locked-view key now s = ground arith

pub lookup-get_locked :
    (key j : Bytes) (now : ℕ) (s : DataStore)
    → lookup j (get_locked key now s).1 ≡ (if text_eq key j then view key now s else lookup j s)
unfolding get_locked get_found
lookup-get_locked key j now s = ground (arith, lookup-remove key j s, text_eq_iff key j)

-- What has expired stays so.
live-live :
    (now later : ℕ) (o : Option Entry) → now ≤ later → live later (live now o) ≡ live later o
unfolding expired
live-live now later none h = refl
live-live now later (some e) h = elim (Option-cases e.expires_at) [
  | inl never ↦ ground arith
  | inr (t, ends) ↦ ground arith
]

-- Reading a key changes nothing that can be read from then on.
pub view-get_locked :
    (key j : Bytes) (now later : ℕ) (s : DataStore)
    → now ≤ later
    → view j later (get_locked key now s).1 ≡ view j later s
view-get_locked key j now later s h =
    ap (live later) (lookup-get_locked key j now s)
    ∙ ground (arith, live-live now later (lookup key s), text_eq_iff key j)

abbrev pub or_fresh : Value → Option Entry → Entry
or_fresh fresh none = fresh_entry fresh
or_fresh fresh (some e) = e

pub live_or-view :
    (fresh : Value) (key : Bytes) (now : ℕ) (s : DataStore)
    → (live_or fresh key now s).0 ≡ or_fresh fresh (view key now s)
unfolding live_or
live_or-view fresh key now s = ground (arith, get_locked-view key now s)

-- The writing methods leave every other key, and put the entry that they go on with under theirs.
pub lookup-live_or :
    (fresh : Value) (key j : Bytes) (now : ℕ) (s : DataStore)
    → lookup j (live_or fresh key now s).1
      ≡ (if text_eq key j then some (or_fresh fresh (view key now s)) else lookup j s)
unfolding live_or
lookup-live_or fresh key j now s = ground (
  arith,
  get_locked-view key now s,
  lookup-get_locked key j now s,
  lookup-insert key j (fresh_entry fresh) (get_locked key now s).1,
)

-- The instants of the calls lie before `later`.
abbrev pub Before : ℕ → Dict ℕ → Type 0
Before later [] = Unit
Before later ((k, now) ∷ keys) = (now ≤ later) × Before later keys

view-remove :
    (k j : Bytes) (later : ℕ) (s : DataStore)
    → view j later (remove k s) ≡ (if text_eq k j then none else view j later s)
view-remove k j later s = ground (arith, lookup-remove k j s)

view-del-missed :
    (k : Bytes) (now : ℕ) (keys : Dict ℕ) (s : DataStore)
    → view k now s ≡ none
    → del ((k, now) ∷ keys) s ≡ del keys (get_locked k now s).1
unfolding del
view-del-missed k now keys s e = ground (arith, get_locked-view k now s)

view-del-found :
    (k : Bytes) (now : ℕ) (keys : Dict ℕ) (s : DataStore) (e : Entry)
    → view k now s ≡ some e
    → (del ((k, now) ∷ keys) s).1 ≡ (del keys (remove k (get_locked k now s).1)).1
unfolding del
view-del-found k now keys s e h = ground (arith, get_locked-view k now s)

-- After `DEL` none of its keys can be read, and every other key reads as before, at every instant
-- that does not lie before those of the deletion.
pub view-del :
    (keys : Dict ℕ) (later : ℕ) (j : Bytes) (s : DataStore)
    → Before later keys
    → view j later (del keys s).1 ≡ (if has_key j keys then none else view j later s)
unfolding has_key
view-del [] later j s b = unfold del in refl
view-del ((k, now) ∷ keys) later j s (le, b) = elim (Option-cases (view k now s)) [
  | inl missed ↦
      ap (λ r. view j later r.1) (view-del-missed k now keys s missed)
      ∙ view-del keys later j (get_locked k now s).1 b
      ∙ ground (
        arith,
        live-live now later (lookup k s) le,
        text_eq_iff k j,
        view-get_locked k j now later s le,
      )
  | inr (e, found) ↦
      ap (view j later) (view-del-found k now keys s e found)
      ∙ view-del keys later j (remove k (get_locked k now s).1) b
      ∙ ground
          (arith, view-remove k j later (get_locked k now s).1, view-get_locked k j now later s le)
]

-- The store after a writing method has put the value `w` under its key.
abbrev pub written : Value → Value → Bytes → ℕ → DataStore → DataStore
written fresh w key now s =
    insert key (record (or_fresh fresh (view key now s)) { value = w }) (live_or fresh key now s).1

live-or_fresh :
    (fresh w : Value) (now : ℕ) (o : Option Entry)
    → live now (some (record (or_fresh fresh (live now o)) { value = w }))
      ≡ some (record (or_fresh fresh (live now o)) { value = w })
unfolding expired
live-or_fresh fresh w now none = refl
live-or_fresh fresh w now (some e) = ground arith

-- It reads so, with the expiry that the key had, and every other key reads as before.
pub view-written :
    (fresh w : Value) (key j : Bytes) (now : ℕ) (s : DataStore)
    → view j now (written fresh w key now s) ≡ (
        if text_eq key j
        then some (record (or_fresh fresh (view key now s)) { value = w })
        else view j now s)
view-written fresh w key j now s =
    ap (live now) (lookup-insert key j _ (live_or fresh key now s).1)
    ∙ ground (arith, lookup-live_or fresh key j now s, live-or_fresh fresh w now (lookup key s))
