-- ===== src/Scenarios/Effective.antt =====
-- The effective fault of internal/scenarios/faults.go.
use mockly.Base.{
  ◌≡◌, ◌≢◌, refl, Bool, true, false, Option, none, some, [], ◌∷◌, arith, Bytes, sym, text_eq,
  text_eq_iff, text_eq_refl, text_lt, text_lt_irrefl, text_lt_trans, text_lt_connex, Dict, lookup,
  has_key, inl, inr, ◌⊎◌, Option-cases, Bool-cases, ◌∙◌, ap,
}
use mockly.Config.{Scenario}
use mockly.Config.Faults.{Protocol, Fault, select}
use mockly.Scenarios.{Store}
use mockly.Scenarios.Faults.{Winner, better, fault_of, winner, or_direct, effective_fault}

module _ (p : Protocol) (scenarios : Dict Scenario) where
  -- What a loop over the identifiers in `S` has found: nothing where none of them has a fault, and
  -- else the fault of the greatest that has one.
  abbrev Found : (Bytes → Type 0) → Winner (Fault p) → Type 0
  Found S none = (id : Bytes) → S id → fault_of p scenarios id ≡ none
  Found S (some (f, w)) =
      S w
      × (fault_of p scenarios w ≡ some f)
      × ((id : Bytes) → S id → fault_of p scenarios id ≢ none → text_lt w id ≡ false)

  Found-iff :
      (S T : Bytes → Type 0) (best : Winner (Fault p))
      → ((id : Bytes) → S id → T id)
      → ((id : Bytes) → T id → S id)
      → Found S best
      → Found T best
  Found-iff S T none to from h = λ id t. h id (from id t)
  Found-iff S T (some (f, w)) to from h = (to w h.0, h.1, λ id t. h.2 id (from id t))

  abbrev With : Bytes → (Bytes → Type 0) → Bytes → Type 0
  With id S j = S j ⊎ (j ≡ id)

  better_same :
      (id : Bytes) (S : Bytes → Type 0) (best : Winner (Fault p))
      → fault_of p scenarios id ≡ none
      → Found S best
      → Found (With id S) best
  better_same id S none e h =
      λ j t. elim t [ inl seen ↦ h j seen | inr same ↦ ap (fault_of p scenarios) same ∙ e ]
  better_same id S (some (f, w)) e h = (
    inl h.0,
    h.1,
    λ j t full. elim t [
      | inl seen ↦ h.2 j seen full
      | inr same ↦ absurd (full (ap (fault_of p scenarios) same ∙ e))
    ],
  )

  -- Nothing lies between the old winner and the new one.
  not_lt_trans : (w id j : Bytes) → text_lt w id ≡ true → text_lt w j ≡ false → text_lt id j ≡ false
  not_lt_trans w id j h k = elim (Bool-cases (text_lt id j)) [
    | inl above ↦ cc (text_lt_trans w id j h above)
    | inr below ↦ below
  ]

  better-Found :
      (id : Bytes) (S : Bytes → Type 0) (f : Fault p) (best : Winner (Fault p))
      → fault_of p scenarios id ≡ some f
      → Found S best
      → Found (With id S) (better id (some f) best)
  unfolding better
  better-Found id S f none e h = (
    inr refl,
    e,
    λ j t full. elim t [
      | inl seen ↦ absurd (full (h j seen))
      | inr same ↦ rw same (text_lt_irrefl id)
    ],
  )
  better-Found id S f (some (g, w)) e h = elim (Bool-cases (text_lt w id)) [
    | inl above ↦ rw above (
      inr refl,
      e,
      λ j t full. elim t [
        | inl seen ↦ not_lt_trans w id j above (h.2 j seen full)
        | inr same ↦ rw same (text_lt_irrefl id)
      ],
    )
    | inr below ↦
        rw below (
          inl h.0,
          h.1,
          λ j t full. elim t [ inl seen ↦ h.2 j seen full | inr same ↦ rw same below ],
        )
  ]

  round-Found :
      (id : Bytes) (S : Bytes → Type 0) (best : Winner (Fault p))
      → Found S best
      → Found (With id S) (better id (fault_of p scenarios id) best)
  round-Found id S best h = elim (Option-cases (fault_of p scenarios id)) [
    | inl empty ↦ rw empty (unfold better in better_same id S best empty h)
    | inr (f, full) ↦ rw full (better-Found id S f best full h)
  ]

  winner-Found :
      (m : Dict Bool) (S : Bytes → Type 0) (best : Winner (Fault p))
      → Found S best
      → Found (λ j. S j ⊎ (has_key j m ≡ true)) (winner p scenarios m best)
  unfolding winner has_key
  winner-Found [] S best h =
      Found-iff S _ best (λ id s. inl s) (λ id t. elim t [ inl s ↦ s | inr no_key ↦ cc ]) h
  winner-Found ((id, b) ∷ m) S best h =
      Found-iff (λ j. With id S j ⊎ (has_key j m ≡ true)) _
        (winner p scenarios m (better id (fault_of p scenarios id) best))
        (λ j t. elim t [
          | inl (inl s) ↦ inl s
          | inl (inr same) ↦ inr (rw same (rw (text_eq_refl id)))
          | inr later ↦ inr (ground arith)
        ])
        (λ j t. elim t [
          | inl s ↦ inl (inl s)
          | inr key ↦ elim (Bool-cases (text_eq id j)) [
            | inl here ↦ inl (inr (sym ((text_eq_iff id j).0 here)))
            | inr later ↦ inr (ground arith)
          ]
        ])
        (winner-Found m (With id S) (better id (fault_of p scenarios id) best)
          (round-Found id S best h))

  winner_greatest : (m : Dict Bool) → Found (λ j. has_key j m ≡ true) (winner p scenarios m none)
  winner_greatest m =
      Found-iff _ _ (winner p scenarios m none)
        (λ id t. elim t [ inl never ↦ absurd never | inr key ↦ key ]) (λ id key. inr key)
        (winner-Found m (λ j. ⊥) none (λ id never. absurd never))

-- The effective fault of a protocol, in every store: if an active scenario has a fault for it, it is
-- the fault of the active scenario with the greatest identifier among those that have one; if none
-- has, it is the direct fault.
pub effective_fault_cases :
    (p : Protocol) (s : Store)
    → ((id : Bytes) × (f : Fault p) × (has_key id s.active ≡ true)
        × (fault_of p s.scenarios id ≡ some f)
        × (effective_fault p (some s) ≡ some f)
        × ((j : Bytes)
            → has_key j s.active ≡ true
            → fault_of p s.scenarios j ≢ none
            → text_lt id j ≡ false))
      ⊎ (((j : Bytes) → has_key j s.active ≡ true → fault_of p s.scenarios j ≡ none)
          × (effective_fault p (some s) ≡ select p s.direct))
unfolding effective_fault
effective_fault_cases p s =
    split (winner p s.scenarios s.active none) (winner_greatest p s.scenarios s.active)
  where
    split :
        (best : Winner (Fault p))
        → Found p s.scenarios (λ j. has_key j s.active ≡ true) best
        → ((id : Bytes) × (f : Fault p) × (has_key id s.active ≡ true)
            × (fault_of p s.scenarios id ≡ some f)
            × (or_direct p s.direct best ≡ some f)
            × ((j : Bytes)
                → has_key j s.active ≡ true
                → fault_of p s.scenarios j ≢ none
                → text_lt id j ≡ false))
          ⊎ (((j : Bytes) → has_key j s.active ≡ true → fault_of p s.scenarios j ≡ none)
              × (or_direct p s.direct best ≡ select p s.direct))
    split none h = inr (h, refl)
    split (some (f, w)) h = inl (w, f, h.0, h.1, refl, h.2)

-- Two views of one store: the maps hold the same, met in any order.
pub record IsReordering (s t : Store) : Type 0 where
  pub same_scenarios : (id : Bytes) → lookup id s.scenarios ≡ lookup id t.scenarios
  pub same_active : (id : Bytes) → has_key id s.active ≡ has_key id t.active
  pub same_direct : s.direct ≡ t.direct

fault_of-reordering :
    (p : Protocol) (id : Bytes) (s t : Store)
    → IsReordering s t
    → fault_of p s.scenarios id ≡ fault_of p t.scenarios id
unfolding fault_of
fault_of-reordering p id s t r = rw (r.same_scenarios id, fault_of)

some-ne-none : {T : Type 0} (o : Option T) (x : T) → o ≡ some x → o ≢ none
some-ne-none o x e n = cc

-- The order in which Go meets the pairs of its maps does not change the effective fault.
pub effective_fault_order_free :
    (p : Protocol) (s t : Store)
    → IsReordering s t
    → effective_fault p (some s) ≡ effective_fault p (some t)
effective_fault_order_free p s t r =
    compare_both (effective_fault_cases p s) (effective_fault_cases p t)
  where
    faults : (id : Bytes) → fault_of p s.scenarios id ≡ fault_of p t.scenarios id
    faults id = fault_of-reordering p id s t r

    Greatest : Store → Type 0
    Greatest u =
        (id : Bytes) × (f : Fault p) × (has_key id u.active ≡ true)
        × (fault_of p u.scenarios id ≡ some f)
        × (effective_fault p (some u) ≡ some f)
        × ((j : Bytes)
            → has_key j u.active ≡ true
            → fault_of p u.scenarios j ≢ none
            → text_lt id j ≡ false)

    Direct : Store → Type 0
    Direct u =
        ((j : Bytes) → has_key j u.active ≡ true → fault_of p u.scenarios j ≡ none)
        × (effective_fault p (some u) ≡ select p u.direct)

    compare_both :
        Greatest s ⊎ Direct s
        → Greatest t ⊎ Direct t
        → effective_fault p (some s) ≡ effective_fault p (some t)
    compare_both (inl (i, f, ai, fi, ei, gi)) (inl (j, g, aj, gj, ej, hj)) =
        let same : i ≡ j =
          text_lt_connex i j (gi j (r.same_active j ∙ aj) (some-ne-none _ g (faults j ∙ gj)))
            (hj i (sym (r.same_active i) ∙ ai) (some-ne-none _ f (sym (faults i) ∙ fi))) in
        cc (ei, ej, fi, gj, faults j, ap (fault_of p s.scenarios) same)
    compare_both (inl (i, f, ai, fi, ei, gi)) (inr (none_t, et)) =
        absurd (some-ne-none _ f (sym (faults i) ∙ fi) (none_t i (sym (r.same_active i) ∙ ai)))
    compare_both (inr (none_s, es)) (inl (j, g, aj, gj, ej, hj)) =
        absurd (some-ne-none _ g (faults j ∙ gj) (none_s j (r.same_active j ∙ aj)))
    compare_both (inr (none_s, es)) (inr (none_t, et)) = es ∙ ap (select p) r.same_direct ∙ sym et
