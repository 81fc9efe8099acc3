-- ===== src/Scenarios.antt =====
-- internal/scenarios/store.go: scenario definitions, the set of active ones, the direct faults, and
-- the three tests that the protocol servers put to a fault (error rate, delay, rate limit).
-- A method takes the instant that its call of `time.Now` returns and the value that its generator
-- of random numbers draws. A method runs under one lock, so it is one function. A loop over a map
-- meets the pairs in the order of the list, which is any order.
pub mod Faults
pub mod Lifecycle
pub mod Effective
pub mod Direct
pub mod Limits
mod Tests
use mockly.Base.{
  ℕ, zero, ◌+◌, ◌-◌, ◌^◌, Bool, true, false, Option, none, some, List, [], ◌∷◌, ◌++◌, ◌||◌, Bytes,
  codes, ltb, leb, if◌then◌else◌, text_eq, decimal, Dict, lookup, insert, remove, has_key, suc,
}
use mockly.Base.Int.{ℤ, pos, negsuc, ◌+ℤ◌, ◌-ℤ◌, ltb_ℤ, leb_ℤ, wrap64}
use mockly.Config.{Scenario, MockPatch}
use mockly.Config.Faults.{Duration, Rate, DelayRange, ProtocolFaults, no_faults}

pub record RateWindow : Type 0 where
  pub start : ℕ
  pub count : ℕ

-- A key of `active` always has the value true.
pub record Store : Type 0 where
  pub scenarios : Dict Scenario
  pub active : Dict Bool
  pub direct : ProtocolFaults
  pub rate_windows : Dict RateWindow

-- `if sc.ID == "" { sc.ID = fmt.Sprintf("scenario-%d", time.Now().UnixNano()) }`
unfoldable pub with_id : ℕ → Scenario → Scenario
with_id now sc =
    if text_eq sc.id [] then record sc { id = codes "scenario-" ++ decimal now } else sc

load : List (ℕ × Scenario) → Dict Scenario → Dict Scenario
unfolding with_id
load [] m = m
load ((now, sc) ∷ initial) m = let named = with_id now sc in load initial (insert named.id named m)

-- `New`; each definition comes with the instant at which the loop reaches it.
unfoldable pub new : List (ℕ × Scenario) → Store
unfolding load
new initial = record {
  scenarios = load initial [];
  active = [];
  direct = no_faults;
  rate_windows = [];
}

unfoldable pub get : Bytes → Store → Option Scenario
get id s = lookup id s.scenarios

definitions : Dict Scenario → List Scenario
definitions [] = []
definitions ((k, sc) ∷ m) = sc ∷ definitions m

unfoldable pub all : Store → List Scenario
unfolding definitions
all s = definitions s.scenarios

-- `Set` returns the scenario with its identifier.
unfoldable pub set : ℕ → Scenario → Store → Scenario × Store
unfolding with_id
set now sc s =
    let named = with_id now sc in
    (named, record s { scenarios = insert named.id named s.scenarios })

unfoldable pub delete : Bytes → Store → Bool × Store
delete id s = (
  has_key id s.scenarios,
  record s { scenarios = remove id s.scenarios; active = remove id s.active },
)

unfoldable pub activate : Bytes → Store → Bool × Store
activate id s =
    if has_key id s.scenarios
    then (true, record s { active = insert id true s.active })
    else (false, s)

unfoldable pub deactivate : Bytes → Store → Store
deactivate id s = record s { active = remove id s.active }

keys : Dict Bool → List Bytes
keys [] = []
keys ((id, b) ∷ m) = id ∷ keys m

unfoldable pub active_ids : Store → List Bytes
unfolding keys
active_ids s = keys s.active

-- The loop of `ActiveScenarios`.
defined : Dict Scenario → Dict Bool → List Scenario
defined scenarios [] = []
defined scenarios ((id, b) ∷ m) = elim (lookup id scenarios) [
  | none ↦ defined scenarios m
  | some sc ↦ sc ∷ defined scenarios m
]

unfoldable pub active_scenarios : Store → List Scenario
unfolding defined
active_scenarios s = defined s.scenarios s.active

-- The inner loop of `PatchFor`.
unfoldable pub patch_in : Bytes → List MockPatch → Option MockPatch
patch_in mock_id [] = none
patch_in mock_id (p ∷ ps) = if text_eq p.mock_id mock_id then some p else patch_in mock_id ps

-- The patch of one active identifier, if its scenario is defined and has one.
unfoldable pub patch_of : Bytes → Dict Scenario → Bytes → Option MockPatch
unfolding patch_in
patch_of mock_id scenarios id = elim (lookup id scenarios) [
  | none ↦ none
  | some sc ↦ patch_in mock_id sc.patches
]

unfoldable pub first_patch : Bytes → Dict Scenario → Dict Bool → Option MockPatch
first_patch mock_id scenarios [] = none
first_patch mock_id scenarios ((id, b) ∷ m) =
    let rest = first_patch mock_id scenarios m in
    elim (patch_of mock_id scenarios id) [ none ↦ rest | some p ↦ some p ]

unfoldable pub patch_for : Bytes → Store → Option MockPatch
unfolding first_patch
patch_for mock_id s = first_patch mock_id s.scenarios s.active

unfoldable pub set_direct_faults : ProtocolFaults → Store → Store
set_direct_faults f s = record s { direct = f }

unfoldable pub direct_faults : Store → ProtocolFaults
direct_faults s = s.direct

unfoldable pub clear_direct_faults : Store → Store
clear_direct_faults s = record s { direct = no_faults }

-- `RollFault`, and `ShouldFault`, which calls it; `draw` is `rng.Float64()` times 2 ^ 53.
unfoldable pub roll_fault : Rate → ℕ → Bool
roll_fault rate draw =
    if leb_ℤ rate (pos 0) || leb_ℤ (pos (2 ^ 53)) rate then true else ltb_ℤ (pos draw) rate

-- A uniform draw below the width of the range; `Int63n` panics on a width that is not positive.
unfoldable pub draw_delay : Duration → ℤ → (ℕ → ℕ) → Option Duration
draw_delay low (pos zero) int63n = none
draw_delay low (pos (suc n)) int63n = some (wrap64 (low +ℤ pos (int63n (suc n))))
draw_delay low (negsuc n) int63n = none

delay_between : Duration → Duration → (ℕ → ℕ) → Option Duration
unfolding draw_delay
delay_between low high int63n =
    if leb_ℤ high low then some low else draw_delay low (wrap64 (high -ℤ low)) int63n

-- `ResolveDelay`; `none` is a panic of `Int63n`.
unfoldable pub resolve_delay : Duration → Option DelayRange → (ℕ → ℕ) → Option Duration
unfolding delay_between
resolve_delay fixed none int63n = some fixed
resolve_delay fixed (some range) int63n =
    if leb_ℤ range.max (pos 0)
    then some fixed
    else if ltb_ℤ range.max range.min
    then delay_between range.max range.min int63n
    else delay_between range.min range.max int63n

abbrev pub second : ℕ
second = 1_000_000_000

-- The window to count in: the one on record, or a new one.
unfoldable pub current_window : ℕ → Option RateWindow → RateWindow
current_window now none = record { start = now; count = 0 }
current_window now (some w) =
    if leb second (now - w.start) then record { start = now; count = 0 } else w

counted : Bytes → ℕ → RateWindow → Store → Bool × Store
counted key limit w s =
    let w' = record w { count = w.count + 1 } in
    (ltb limit w'.count, record s { rate_windows = insert key w' s.rate_windows })

-- `RateLimited`
unfoldable pub rate_limited : Bytes → ℤ → ℕ → Store → Bool × Store
unfolding counted current_window
rate_limited key (negsuc n) now s = (false, s)
rate_limited key (pos zero) now s = (false, s)
rate_limited key (pos (suc n)) now s =
    counted key (suc n) (current_window now (lookup key s.rate_windows)) s
