-- ===== src/State/Laws.antt =====
-- The methods of internal/state/store.go, by what a client of the store reads.
use mockly.Base.{
  ℕ, ◌+◌, ◌≤◌, Bool, false, ◌≡◌, refl, true, not, ◌&&◌, Option, none, some, [], ◌∷◌, arith, Bytes,
  ltb, if◌then◌else◌, text_eq, text_eq_iff, Dict, lookup, retain, has_prefix, has_distinct_keys,
  lookup-remove, lookup-retain, dict_laws,
}
use mockly.Base.Int.{ℤ, pos, negsuc}
use mockly.State.{Entry, Store, expired, set_ttl, delete, get, all, values, reset_prefix}

-- What stands under a key at an instant: the value of an entry that has not expired.
abbrev live : ℕ → Option Entry → Option Bytes
live now none = none
live now (some e) = if expired e now then none else some e.value

unfoldable pub view : Bytes → ℕ → Store → Option Bytes
view key now s = live now (lookup key s.entries)

abbrev pub IsWellFormed : Store → Type 0
IsWellFormed s = has_distinct_keys s.entries ≡ true

-- `get` returns the view.
pub get-eq-view : (key : Bytes) (now : ℕ) (s : Store) → (get key now s).0 ≡ view key now s
unfolding get view
get-eq-view key now s = ground arith

live_mono :
    (o : Option Entry) (now later : ℕ)
    → now ≤ later
    → live later (elim o [ none ↦ none | some e ↦ if expired e now then none else some e ])
      ≡ live later o
unfolding expired
live_mono o now later h = ground arith

-- The lazy deletion of `get` is invisible: every key shows the same value, then and later.
pub view-get :
    (key j : Bytes) (now later : ℕ) (s : Store)
    → now ≤ later
    → view j later (get key now s).1 ≡ view j later s
unfolding get view delete expired
view-get key j now later s h = ground (arith, lookup-remove key j s.entries, text_eq_iff key j)

-- A lifetime that began at one instant is over at another: it is positive and has passed.
abbrev pub is_over : ℤ → ℕ → ℕ → Bool
is_over (pos n) now later = ltb 0 n && ltb (now + n) later
is_over (negsuc n) now later = false

-- A read after `set_ttl` at any later instant: the key itself shows the value exactly while its
-- duration has not passed since the write, and for ever when the duration is not positive; any other
-- key is unchanged.
pub get-set_ttl :
    (key j value : Bytes) (ttl : ℤ) (now later : ℕ) (s : Store)
    → (get j later (set_ttl key value ttl now s)).0 ≡ (
        if text_eq key j
        then (if is_over ttl now later then none else some value)
        else (get j later s).0)
unfolding get set_ttl expired
get-set_ttl key j value (pos n) now later s = simp dict_laws (ground arith)
get-set_ttl key j value (negsuc n) now later s = simp dict_laws (ground arith)

live-values :
    (k : Bytes) (m : Dict Entry)
    → lookup k (values m) ≡ elim (lookup k m) [ none ↦ none | some e ↦ some e.value ]
unfolding lookup values
live-values k [] = refl
live-values k ((j, e) ∷ m) = ground (arith, live-values k m)

-- The snapshot of `all` has under each key what `get` returns for it at that instant.
pub lookup-all :
    (key : Bytes) (now : ℕ) (s : Store)
    → IsWellFormed s
    → lookup key (all now s).0 ≡ (get key now s).0
unfolding all get
lookup-all key now s h = ground (
  arith,
  live-values key (retain (λ k e. not (expired e now)) s.entries),
  lookup-retain (λ k e. not (expired e now)) key s.entries h,
)

-- The sweep of `all` is invisible too.
pub view-all :
    (key : Bytes) (now later : ℕ) (s : Store)
    → IsWellFormed s
    → now ≤ later
    → view key later (all now s).1 ≡ view key later s
unfolding all view expired
view-all key now later s w h =
    ground (arith, lookup-retain (λ k e. not (unfold expired in expired e now)) key s.entries w)

-- After `reset_prefix` the keys with the prefix are gone and every other key shows what it showed.
pub view-reset_prefix :
    (prefix key : Bytes) (now : ℕ) (s : Store)
    → IsWellFormed s
    → view key now (reset_prefix prefix s)
      ≡ (if has_prefix key prefix then none else view key now s)
unfolding reset_prefix view
view-reset_prefix prefix key now s h =
    ground (arith, lookup-retain (λ k e. not (has_prefix k prefix)) key s.entries h)
