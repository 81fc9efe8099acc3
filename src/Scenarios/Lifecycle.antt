-- ===== src/Scenarios/Lifecycle.antt =====
-- The definitions and the active set of internal/scenarios/store.go, call after call.
use mockly.Base.{
  or_true, ℕ, ◌≡◌, refl, Bool, true, false, none, some, List, [], ◌∷◌, arith, Bytes, length,
  text_eq, text_eq_iff, text_eq_refl, lookup-remove, ap, suc, sym, ◌∙◌, Option-cases, Dict, lookup,
  has_key, has_key-insert, has_key-remove, has_key-lookup, inl, inr,
}
use mockly.Config.{Scenario, MockPatch}
use mockly.Config.Faults.{ProtocolFaults}
use mockly.Base.Int.{ℤ}
use mockly.Scenarios.{
  Store, new, with_id, get, set, delete, activate, deactivate, active_scenarios, defined,
  set_direct_faults, clear_direct_faults, rate_limited, patch_in, patch_of, first_patch, patch_for,
  active_ids, keys,
}

-- Every active identifier names a defined scenario.
abbrev pub IsConsistent : Store → Type 0
IsConsistent s = (id : Bytes) → has_key id s.active ≡ true → has_key id s.scenarios ≡ true

-- The calls that change a store.
pub data Call : Type 0 where
  call_set : ℕ → Scenario → Call
  call_delete call_activate call_deactivate : Bytes → Call
  call_set_direct : ProtocolFaults → Call
  call_clear_direct : Call
  call_rate_limited : Bytes → ℤ → ℕ → Call

pub perform : Call → Store → Store
perform (call_set now sc) s = (set now sc s).1
perform (call_delete id) s = (delete id s).1
perform (call_activate id) s = (activate id s).1
perform (call_deactivate id) s = deactivate id s
perform (call_set_direct f) s = set_direct_faults f s
perform call_clear_direct s = clear_direct_faults s
perform (call_rate_limited key limit now) s = (rate_limited key limit now s).1

pub perform_all : List Call → Store → Store
perform_all [] s = s
perform_all (c ∷ cs) s = perform_all cs (perform c s)

perform-IsConsistent : (c : Call) (s : Store) → IsConsistent s → IsConsistent (perform c s)
unfolding perform set delete activate deactivate set_direct_faults clear_direct_faults rate_limited
perform-IsConsistent (call_set now sc) s h id a =
    ground (arith, has_key-insert (with_id now sc).id id (with_id now sc) s.scenarios, h id)
perform-IsConsistent (call_delete key) s h id a =
    ground (arith, has_key-remove key id s.scenarios, has_key-remove key id s.active, h id)
perform-IsConsistent (call_activate key) s h id a =
    ground (arith, has_key-insert key id true s.active, text_eq_iff key id, h id)
perform-IsConsistent (call_deactivate key) s h id a =
    ground (arith, has_key-remove key id s.active, h id)
perform-IsConsistent (call_set_direct f) s h id a = h id a
perform-IsConsistent call_clear_direct s h id a = h id a
perform-IsConsistent (call_rate_limited key limit now) s h id a = ground (arith, h id)

length-keys : (m : Dict Bool) → length (keys m) ≡ length m
unfolding keys
length-keys [] = refl
length-keys ((id, b) ∷ m) = ap suc (length-keys m)

perform_all_keeps :
    (calls : List Call) (s : Store) → IsConsistent s → IsConsistent (perform_all calls s)
unfolding perform_all
perform_all_keeps [] s h = h
perform_all_keeps (c ∷ cs) s h = perform_all_keeps cs (perform c s) (perform-IsConsistent c s h)

-- Whatever the initial definitions and the calls, in whatever order, every active identifier names
-- a defined scenario.
pub perform_all-IsConsistent :
    (initial : List (ℕ × Scenario)) (calls : List Call)
    → IsConsistent (perform_all calls (new initial))
unfolding new has_key
perform_all-IsConsistent initial calls = perform_all_keeps calls (new initial) (λ id a. cc)

length-defined :
    (scenarios : Dict Scenario) (m : Dict Bool)
    → ((id : Bytes) → has_key id m ≡ true → has_key id scenarios ≡ true)
    → length (defined scenarios m) ≡ length m
unfolding defined has_key
length-defined scenarios [] h = refl
length-defined scenarios ((id, b) ∷ m) h = ground (
  arith,
  h id,
  text_eq_refl id,
  has_key-lookup id scenarios,
  length-defined scenarios m (λ j a. h j (rw a (or_true (text_eq id j)))),
)

-- `ActiveScenarios` leaves no active identifier out: in a consistent store it returns one scenario
-- for each.
pub length-active_scenarios :
    (s : Store) → IsConsistent s → length (active_scenarios s) ≡ length (active_ids s)
unfolding active_scenarios active_ids
length-active_scenarios s h = length-defined s.scenarios s.active h ∙ sym (length-keys s.active)

-- After `Delete` the scenario is neither defined nor active and cannot be activated, and every
-- other identifier is defined and active as it was.
pub delete_forgets :
    (id : Bytes) (s : Store)
    → (get id (delete id s).1 ≡ none)
      × (has_key id (delete id s).1.active ≡ false)
      × ((activate id (delete id s).1).0 ≡ false)
      × ((j : Bytes)
          → text_eq id j ≡ false
          → (get j (delete id s).1 ≡ get j s)
            × (has_key j (delete id s).1.active ≡ has_key j s.active))
unfolding get delete activate
delete_forgets id s = (
  rw (lookup-remove, text_eq_refl),
  rw (has_key-remove, text_eq_refl),
  ground (arith, has_key-remove id id s.scenarios, text_eq_refl id),
  λ j e. (rw (lookup-remove, e), rw (has_key-remove, e)),
)

patch_in_sound :
    (mock_id : Bytes) (ps : List MockPatch) (p : MockPatch)
    → patch_in mock_id ps ≡ some p
    → p.mock_id ≡ mock_id
unfolding patch_in
patch_in_sound mock_id [] p h = cc
patch_in_sound mock_id (q ∷ ps) p h =
    ground (arith, patch_in_sound mock_id ps p, text_eq_iff q.mock_id mock_id)

-- An active scenario with a patch for a mock.
pub record IsPatchedBy (mock_id : Bytes) (m : Dict Bool) (scenarios : Dict Scenario) (p : MockPatch)
    : Type 0 where
  pub id : Bytes
  pub is_active : has_key id m ≡ true
  pub patch : patch_of mock_id scenarios id ≡ some p

first_patch_sound :
    (mock_id : Bytes) (scenarios : Dict Scenario) (m : Dict Bool) (p : MockPatch)
    → first_patch mock_id scenarios m ≡ some p
    → IsPatchedBy mock_id m scenarios p
unfolding first_patch has_key
first_patch_sound mock_id scenarios [] p h = cc
first_patch_sound mock_id scenarios ((id, b) ∷ m) p h =
    elim (Option-cases (patch_of mock_id scenarios id)) [
      | inl missed ↦
          let r = first_patch_sound mock_id scenarios m p (ground arith) in
          record {
            id = r.id;
            is_active = rw r.is_active (or_true (text_eq id r.id));
            patch = r.patch;
          }
      | inr (q, found) ↦ record { id = id; is_active = rw (text_eq_refl id); patch = ground arith }
    ]

patch_of_sound :
    (mock_id id : Bytes) (scenarios : Dict Scenario) (p : MockPatch)
    → patch_of mock_id scenarios id ≡ some p
    → p.mock_id ≡ mock_id
unfolding patch_of
patch_of_sound mock_id id scenarios p h = elim (Option-cases (lookup id scenarios)) [
  | inl missing ↦ absurd (ground arith)
  | inr (sc, found) ↦ patch_in_sound mock_id sc.patches p (ground arith)
]

-- A patch that `PatchFor` returns is for the mock asked for, and some active scenario has it.
pub patch_for_sound :
    (mock_id : Bytes) (s : Store) (p : MockPatch)
    → patch_for mock_id s ≡ some p
    → (p.mock_id ≡ mock_id) × IsPatchedBy mock_id s.active s.scenarios p
unfolding patch_for
patch_for_sound mock_id s p h =
    let r = first_patch_sound mock_id s.scenarios s.active p h in
    (patch_of_sound mock_id r.id s.scenarios p r.patch, r)

first_patch_complete :
    (mock_id id : Bytes) (scenarios : Dict Scenario) (m : Dict Bool)
    → first_patch mock_id scenarios m ≡ none
    → has_key id m ≡ true
    → patch_of mock_id scenarios id ≡ none
unfolding first_patch has_key
first_patch_complete mock_id id scenarios [] h a = cc
first_patch_complete mock_id id scenarios ((j, b) ∷ m) h a =
    ground (arith, first_patch_complete mock_id id scenarios m, text_eq_iff j id)

-- `PatchFor` returns nil only when no active scenario patches the mock.
pub patch_for_complete :
    (mock_id id : Bytes) (s : Store)
    → patch_for mock_id s ≡ none
    → has_key id s.active ≡ true
    → patch_of mock_id s.scenarios id ≡ none
unfolding patch_for
patch_for_complete mock_id id s h a = first_patch_complete mock_id id s.scenarios s.active h a
