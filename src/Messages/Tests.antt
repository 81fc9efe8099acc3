-- ===== src/Messages/Tests.antt =====
-- The message stores at concrete calls.
use mockly.Base.{ℕ, ◌≡◌, refl, some, List, [], ◌∷◌, ◌>>=◌}
use mockly.Base.Int.{pos}
use mockly.Messages.{
  Call, adds, clears, new_ring, add, all, run_ring, new_slice, all_slice, run_slice, since_clear,
  last, size_of,
}
use mockly.Messages.Ring.{all-refines}
use mockly.Messages.Slice.{all_slice-refines}

abbrev calls : List (Call ℕ)
calls = adds 9 ∷ clears ∷ adds 1 ∷ adds 2 ∷ adds 3 ∷ adds 4 ∷ adds 5 ∷ []

three_kept : (run_ring (new_ring 0 (pos 3)) calls >>= λ r. all r) ≡ some (3 ∷ 4 ∷ 5 ∷ [])
unfolding run_ring mockly.Messages.set_elem new_ring all
three_kept = refl

default_kept :
    (run_slice (new_slice (pos 0)) calls >>= λ s. some (all_slice s))
    ≡ some (1 ∷ 2 ∷ 3 ∷ 4 ∷ 5 ∷ [])
unfolding run_slice new_slice all_slice
default_kept = refl

all-refines_example :
    (run_ring (new_ring 0 (pos 3)) calls >>= λ r. all r)
    ≡ some (last (size_of (pos 3)) (since_clear [] calls))
all-refines_example = all-refines 0 (pos 3) calls

all_slice-refines_example :
    (run_slice (new_slice (pos 3)) calls >>= λ s. some (all_slice s))
    ≡ some (last (size_of (pos 3)) (since_clear [] calls))
all_slice-refines_example = all_slice-refines (pos 3) calls
