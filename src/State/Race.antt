-- ===== src/State/Race.antt =====
-- `Get` under concurrency: it reads under the read lock, lets go of it, and calls `Delete` in a
-- second critical section when what it read had expired. The other methods are one step each.
use mockly.Base.{
  ◌≡◌, refl, sym, ◌∙◌, true, false, none, some, List, [], ◌∷◌, ◌++◌, ℕ, Bytes, lookup,
  lookup-remove, text_eq, text_eq_refl, lookup-insert,
}
use mockly.Base.Int.{ℤ}
use mockly.State.{Entry, Store, expired, set_ttl, delete, all, reset, reset_prefix}
use mockly.State.Laws.{view, is_over, get-eq-view, get-set_ttl}

-- The store, and the keys of the calls of `Get` that are between their two critical sections.
pub record System : Type 0 where
  pub store : Store
  pub pending : List Bytes

-- One critical section of some thread.
pub data Step (u v : System) : Type 0 where
  begin_get :
      (key : Bytes) (now : ℕ) (e : Entry)
      → lookup key u.store.entries ≡ some e
      → expired e now ≡ true
      → v ≡ record u { pending = key ∷ u.pending }
      → Step u v
  end_get :
      (before after : List Bytes) (key : Bytes)
      → u.pending ≡ before ++ key ∷ after
      → v ≡ record { store = delete key u.store; pending = before ++ after }
      → Step u v
  write :
      (key value : Bytes) (ttl : ℤ) (now : ℕ)
      → v ≡ record u { store = set_ttl key value ttl now u.store }
      → Step u v
  erase : (key : Bytes) → v ≡ record u { store = delete key u.store } → Step u v
  sweep : (now : ℕ) → v ≡ record u { store = (all now u.store).1 } → Step u v
  wipe : v ≡ record u { store = reset u.store } → Step u v
  wipe_prefix : (p : Bytes) → v ≡ record u { store = reset_prefix p u.store } → Step u v

pub data Run : System → System → Type 0 where
  done : {u : System} → Run u u
  then : {u v w : System} → Step u v → Run v w → Run u w

view-delete : (key : Bytes) (now : ℕ) (s : Store) → view key now (delete key s) ≡ none
unfolding view delete
view-delete key now s = simp (lookup-remove, text_eq_refl)

view-written :
    (key value : Bytes) (ttl : ℤ) (now later : ℕ) (s : Store)
    → is_over ttl now later ≡ false
    → view key later (set_ttl key value ttl now s) ≡ some value
view-written key value ttl now later s h =
    sym (get-eq-view key later (set_ttl key value ttl now s))
    ∙ get-set_ttl key key value ttl now later s
    ∙ rw (text_eq_refl key, h) refl

others-unchanged :
    (key j value : Bytes) (ttl : ℤ) (now later : ℕ) (s : Store)
    → text_eq key j ≡ false
    → view j later (delete key (set_ttl key value ttl now s)) ≡ view j later s
unfolding view delete set_ttl
others-unchanged key j value ttl now later s h = simp (lookup-remove, lookup-insert, h)

-- A write can be lost. From any store in which the entry of a key has expired, a `Get` of that key
-- can begin and be overtaken by a `SetTTL` of it, of any value and lifetime. The key then shows the
-- value as long as its lifetime lasts; but the one step that is left to the `Get` leads to a store
-- in which the key shows nothing at any instant, and in which every other key shows what it did.
pub stale_get_loses_write :
    (key value : Bytes) (ttl : ℤ) (now : ℕ) (e : Entry) (s : Store)
    → lookup key s.entries ≡ some e
    → expired e now ≡ true
    → Run
        (record { store = s; pending = [] })
        (record { store = set_ttl key value ttl now s; pending = key ∷ [] })
      × ((later : ℕ)
          → is_over ttl now later ≡ false
          → view key later (set_ttl key value ttl now s) ≡ some value)
      × ((t : Store) × Step
            (record { store = set_ttl key value ttl now s; pending = key ∷ [] })
            (record { store = t; pending = [] })
          × ((later : ℕ) → view key later t ≡ none)
          × ((j : Bytes) (later : ℕ) → text_eq key j ≡ false → view j later t ≡ view j later s))
stale_get_loses_write key value ttl now e s found old = (
  then (begin_get key now e found old refl) (then (write key value ttl now refl) done),
  λ later h. view-written key value ttl now later s h,
  (
    delete key (set_ttl key value ttl now s),
    end_get [] [] key refl refl,
    λ later. view-delete key later (set_ttl key value ttl now s),
    λ j later h. others-unchanged key j value ttl now later s h,
  ),
)
