-- ===== src/Base/Maps.antt =====
-- Go's `map[string]V` as an association list with one pair for each key. The order of the list is
-- the order in which a `range` over the map meets its keys, which Go leaves open.
use mathlib.Core.Path.{◌≡◌, refl}
use mathlib.Core.Logic.{◌↔◌}
use mathlib.Core.Bool.{Bool, true, false, ◌&&◌, ◌||◌}
use mathlib.Core.List.{List, [], ◌∷◌}
use mathlib.Core.Option.{Option, none, some}
use native.Mathlib.Omega.{arith}
use mockly.Base.Tests.{if◌then◌else◌}
use mockly.Base.Text.{Bytes, text_eq, text_eq_iff, text_eq_refl}

abbrev pub Dict {ℓ} : Type ℓ → Type ℓ
Dict V = List (Bytes × V)

module _ {ℓ} {V : Type ℓ} where
  -- `v, ok := m[k]`
  unfoldable pub lookup : Bytes → Dict V → Option V
  lookup k [] = none
  lookup k ((j, v) ∷ m) = if text_eq j k then some v else lookup k m

  -- `m[k] = v`
  unfoldable pub insert : Bytes → V → Dict V → Dict V
  insert k v [] = (k, v) ∷ []
  insert k v ((j, w) ∷ m) = if text_eq j k then (j, v) ∷ m else (j, w) ∷ insert k v m

  -- `delete(m, k)`
  unfoldable pub remove : Bytes → Dict V → Dict V
  remove k [] = []
  remove k ((j, v) ∷ m) = let rest = remove k m in if text_eq j k then rest else (j, v) ∷ rest

  -- A loop `for k, v := range m { if !keep(k, v) { delete(m, k) } }`.
  unfoldable pub retain : (Bytes → V → Bool) → Dict V → Dict V
  retain keep [] = []
  retain keep ((j, v) ∷ m) = let rest = retain keep m in if keep j v then (j, v) ∷ rest else rest

  -- `_, ok := m[k]`
  unfoldable pub has_key : Bytes → Dict V → Bool
  has_key k [] = false
  has_key k ((j, v) ∷ m) = text_eq j k || has_key k m

  pub lookup-insert :
      (k j : Bytes) (v : V) (m : Dict V)
      → lookup j (insert k v m) ≡ (if text_eq k j then some v else lookup j m)
  unfolding lookup insert
  lookup-insert k j v [] = refl
  lookup-insert k j v ((i, w) ∷ m) =
      ground (arith, text_eq_iff k j, text_eq_iff i k, text_eq_iff i j, lookup-insert k j v m)

  pub lookup-remove :
      (k j : Bytes) (m : Dict V)
      → lookup j (remove k m) ≡ (if text_eq k j then none else lookup j m)
  unfolding lookup remove
  lookup-remove k j [] = ground arith
  lookup-remove k j ((i, w) ∷ m) =
      ground (arith, lookup-remove k j m, text_eq_iff i k, text_eq_iff i j, text_eq_iff k j)

  pub has_key-insert :
      (k j : Bytes) (v : V) (m : Dict V)
      → has_key j (insert k v m) ≡ (if text_eq k j then true else has_key j m)
  unfolding has_key insert
  has_key-insert k j v [] = ground arith
  has_key-insert k j v ((i, w) ∷ m) =
      ground (arith, text_eq_iff k j, text_eq_iff i k, text_eq_iff i j, has_key-insert k j v m)

  pub has_key-remove :
      (k j : Bytes) (m : Dict V)
      → has_key j (remove k m) ≡ (if text_eq k j then false else has_key j m)
  unfolding has_key remove
  has_key-remove k j [] = ground arith
  has_key-remove k j ((i, w) ∷ m) =
      ground (arith, has_key-remove k j m, text_eq_iff i k, text_eq_iff i j, text_eq_iff k j)

  pub has_key-lookup :
      (k : Bytes) (m : Dict V) → has_key k m ≡ elim (lookup k m) [ none ↦ false | some v ↦ true ]
  unfolding has_key lookup
  has_key-lookup k [] = refl
  has_key-lookup k ((j, v) ∷ m) = ground (arith, has_key-lookup k m)

  -- Each key stands once.
  unfoldable pub has_distinct_keys : Dict V → Bool
  has_distinct_keys [] = true
  has_distinct_keys ((j, v) ∷ m) = (if has_key j m then false else true) && has_distinct_keys m

  pub has_distinct_keys-insert :
      (k : Bytes) (v : V) (m : Dict V)
      → has_distinct_keys m ≡ true
      → has_distinct_keys (insert k v m) ≡ true
  unfolding has_distinct_keys insert has_key
  has_distinct_keys-insert k v [] h = refl
  has_distinct_keys-insert k v ((j, w) ∷ m) h = ground (
    arith,
    has_distinct_keys-insert k v m,
    has_key-insert k j v m,
    text_eq_iff j k,
    text_eq_iff k j,
  )

  pub has_key-retain :
      (keep : Bytes → V → Bool) (k : Bytes) (m : Dict V)
      → has_key k m ≡ false
      → has_key k (retain keep m) ≡ false
  unfolding has_key retain
  has_key-retain keep k [] h = refl
  has_key-retain keep k ((j, v) ∷ m) h = ground (arith, has_key-retain keep k m)

  pub has_distinct_keys-retain :
      (keep : Bytes → V → Bool) (m : Dict V)
      → has_distinct_keys m ≡ true
      → has_distinct_keys (retain keep m) ≡ true
  unfolding has_distinct_keys retain
  has_distinct_keys-retain keep [] h = refl
  has_distinct_keys-retain keep ((j, v) ∷ m) h =
      ground (arith, has_distinct_keys-retain keep m, has_key-retain keep j m)

  pub has_distinct_keys-remove :
      (k : Bytes) (m : Dict V) → has_distinct_keys m ≡ true → has_distinct_keys (remove k m) ≡ true
  unfolding has_distinct_keys remove
  has_distinct_keys-remove k [] h = refl
  has_distinct_keys-remove k ((j, v) ∷ m) h =
      ground (arith, has_distinct_keys-remove k m, has_key-remove k j m)

  abbrev keep_opt : (V → Bool) → Option V → Option V
  keep_opt p none = none
  keep_opt p (some v) = if p v then some v else none

  -- After a sweep a key is found if it was, and passed the test.
  pub lookup-retain :
      (keep : Bytes → V → Bool) (k : Bytes) (m : Dict V)
      → has_distinct_keys m ≡ true
      → lookup k (retain keep m) ≡ keep_opt (keep k) (lookup k m)
  unfolding lookup retain has_distinct_keys
  lookup-retain keep k [] h = refl
  lookup-retain keep k ((j, v) ∷ m) h =
      ground (arith, lookup-retain keep k m, text_eq_iff j k, has_key-lookup j m)

module _ {ℓ} {V : Type ℓ} (test : Bytes → V → Bool) where
  -- A loop over a map that returns false at the first pair that fails a test.
  abbrev pub all_pairs : Dict V → Bool
  all_pairs [] = true
  all_pairs ((k, v) ∷ m) = if test k v then all_pairs m else false

  all_pairs_sound :
      (m : Dict V) (k : Bytes) (v : V) → all_pairs m ≡ true → lookup k m ≡ some v → test k v ≡ true
  unfolding lookup
  all_pairs_sound [] k v h e = cc
  all_pairs_sound ((j, w) ∷ m) k v h e = ground (arith, all_pairs_sound m k v, text_eq_iff j k)

  all_pairs_complete :
      (m : Dict V)
      → has_distinct_keys m ≡ true
      → ((k : Bytes) (v : V) → lookup k m ≡ some v → test k v ≡ true)
      → all_pairs m ≡ true
  unfolding lookup has_distinct_keys
  all_pairs_complete [] d h = refl
  all_pairs_complete ((j, w) ∷ m) d h =
      let first : test j w ≡ true = h j w (rw text_eq_refl refl) in
      let later : (k : Bytes) (v : V) → lookup k m ≡ some v → test k v ≡ true =
        λ k v e. h k v (ground (arith, has_key-lookup k m, text_eq_iff j k)) in
      rw first (all_pairs_complete m (ground arith) later)

  -- Such a loop passes exactly when what stands under each key passes, in whatever order.
  pub all_pairs_iff :
      (m : Dict V)
      → has_distinct_keys m ≡ true
      → (all_pairs m ≡ true) ↔ ((k : Bytes) (v : V) → lookup k m ≡ some v → test k v ≡ true)
  all_pairs_iff m d = (λ h k v e. all_pairs_sound m k v h e, all_pairs_complete m d)

pub ruleset dict_laws = (lookup-insert, lookup-remove)
