-- ===== src/Scenarios/Tests.antt =====
-- Runs of the scenario store, and its theorems at concrete inputs.
use mockly.Base.{
  ℕ, ◌+◌, ◌-◌, ◌<◌, ◌≤◌, ◌≡◌, ◌≢◌, refl, Bool, true, false, none, some, Option, List, [], ◌∷◌, ◌++◌,
  arith, Bytes, codes, length, Dict, lookup, has_key, text_eq, text_lt, ◌⊎◌,
}
use Prim.Native.Nat.{min}
use mockly.Base.Int.{pos}
use mockly.Config.{Scenario, MockPatch}
use mockly.Config.Faults.{no_faults, Protocol, Fault, DnsFault, dns, tcp, select, TcpFault}
use mockly.Scenarios.{
  Store, new, get, set, delete, activate, active_scenarios, active_ids, patch_for, patch_of,
  resolve_delay, rate_limited, second,
}
use mockly.Scenarios.Faults.{
  effective_fault, protocol_of, get_direct_protocol_fault, set_direct_protocol_fault_json,
  clear_direct_protocol_fault, done, fault_of, AnyFault,
}
use mockly.Scenarios.Lifecycle.{
  IsConsistent, Call, call_set, call_activate, call_delete, perform_all, perform_all-IsConsistent,
}
use mockly.Scenarios.Effective.{IsReordering, effective_fault_cases}
use mockly.Scenarios.Limits.{serve, serve_first_window}

abbrev slow : DnsFault
slow = record { delay = pos 5; rcode = []; error_rate = pos 0 }

abbrev servfail : DnsFault
servfail = record { delay = pos 0; rcode = codes "SERVFAIL"; error_rate = pos 0 }

abbrev teapot : MockPatch
teapot = record {
  mock_id = codes "tea";
  status = pos 418;
  headers = [];
  body = [];
  delay = none;
  disabled = false;
}

abbrev outage : Scenario
outage = record {
  id = codes "outage";
  name = [];
  description = [];
  patches = [];
  faults = some (record no_faults { dns = some servfail });
}

abbrev brewing : Scenario
brewing = record {
  id = codes "brewing";
  name = [];
  description = [];
  patches = teapot ∷ [];
  faults = some (record no_faults { dns = some slow });
}

abbrev both : Store
both = record {
  scenarios = (codes "outage", outage) ∷ (codes "brewing", brewing) ∷ [];
  active = (codes "brewing", true) ∷ (codes "outage", true) ∷ [];
  direct = no_faults;
  rate_windows = [];
}

abbrev reversed : Store
reversed = record both { active = (codes "outage", true) ∷ (codes "brewing", true) ∷ [] }

both-effective : effective_fault dns (some both) ≡ some servfail
unfolding effective_fault mockly.Scenarios.Faults.better fault_of lookup text_eq select text_lt
both-effective = refl

names : (protocol_of (codes "DNS") ≡ some dns) × (protocol_of (codes "smb") ≡ none)
unfolding protocol_of lookup text_eq mockly.Base.to_lower
names = (refl, refl)

abbrev calls : List Call
calls = call_set 7 outage ∷ call_activate (codes "outage") ∷ call_delete (codes "brewing") ∷ []

perform_all-IsConsistent_example : IsConsistent (perform_all calls (new ((5, brewing) ∷ [])))
perform_all-IsConsistent_example = perform_all-IsConsistent ((5, brewing) ∷ []) calls

both-IsConsistent : IsConsistent both
unfolding has_key
both-IsConsistent id h = ground arith

abbrev Cases : Store → Type 0
Cases s =
    ((id : Bytes) × (f : DnsFault) × (has_key id s.active ≡ true)
      × (fault_of dns s.scenarios id ≡ some f)
      × (effective_fault dns (some s) ≡ some f)
      × ((j : Bytes)
          → has_key j s.active ≡ true
          → fault_of dns s.scenarios j ≢ none
          → text_lt id j ≡ false))
    ⊎ (((j : Bytes) → has_key j s.active ≡ true → fault_of dns s.scenarios j ≡ none)
        × (effective_fault dns (some s) ≡ select dns s.direct))

effective_fault_cases_example : Cases both
effective_fault_cases_example = effective_fault_cases dns both

both-reversed : IsReordering both reversed
unfolding has_key
both-reversed = record {
  same_scenarios = λ id. refl;
  same_active = λ id. ground arith;
  same_direct = refl;
}

-- A decoder that makes every body the same TCP fault.
abbrev to_tcp : TcpFault
to_tcp = record { delay = pos 0; response = codes "bye"; error_rate = pos 0 }

abbrev decode : (p : Protocol) → Bytes → Option (Fault p)
decode tcp json = some to_tcp
decode _ json = none

abbrev pred_of : ℕ → ℕ
pred_of n = n - 1

pred_of-lt : (n : ℕ) → 0 < n → pred_of n < n
pred_of-lt n h = omega arith

serve_first_window_example :
    (serve (codes "http:global") (pos 2) (5 ∷ 6 ∷ 7 ∷ []) both).0
    ≡ min 2 (length {A = ℕ} (5 ∷ 6 ∷ 7 ∷ []))
unfolding lookup
serve_first_window_example =
    serve_first_window (codes "http:global") 1 5 (6 ∷ 7 ∷ []) both refl (omega arith)
