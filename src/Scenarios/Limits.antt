-- ===== src/Scenarios/Limits.antt =====
-- The delays and rate limits of internal/scenarios/store.go.
use Prim.Native.Nat.{min, max}
use mockly.Base.{
  ℕ, zero, suc, ◌+◌, ◌-◌, ◌^◌, ◌≤◌, ◌<◌, ◌≡◌, ◌≢◌, refl, sym, ap, ◌++◌, Option, none, some, List,
  [], ◌∷◌, arith, Bytes, ltb, if◌then◌else◌, length, All, text_eq_refl, lookup, insert,
  lookup-insert,
}
use native.Mathlib.Decide.{dec_lt}
use mockly.Base.Int.{ℤ, pos, ◌+ℤ◌, ◌-ℤ◌, wrap64, wrap64_fits}
use mockly.Config.Faults.{Duration}
use mockly.Scenarios.{
  Store, RateWindow, second, draw_delay, delay_between, resolve_delay, rate_limited, current_window,
}

draw_delay_lem :
    (a b : ℕ) (int63n : ℕ → ℕ)
    → a < b
    → b < 2 ^ 63
    → int63n (b - a) < b - a
    → draw_delay (pos a) (wrap64 (pos b -ℤ pos a)) int63n ≡ some (pos (a + int63n (b - a)))
unfolding draw_delay
draw_delay_lem a b int63n h k drawn =
    let width : pos b -ℤ pos a ≡ pos (b - a) = ground arith in
    let positive : b - a ≡ suc (b - a - 1) = omega arith in
    let sum : pos a +ℤ pos (int63n (b - a)) ≡ pos (a + int63n (b - a)) = ground arith in
    rw (width, wrap64_fits (pos (b - a)) (omega arith) (omega arith), positive)
      (rw (← positive, sum, wrap64_fits (pos (a + int63n (b - a))) (omega arith) (omega arith)))

delay_between_lem :
    (a b : ℕ) (int63n : ℕ → ℕ)
    → ((n : ℕ) → 0 < n → int63n n < n)
    → a ≤ b
    → b < 2 ^ 63
    → (d : ℕ) × (delay_between (pos a) (pos b) int63n ≡ some (pos d))
      × (a ≤ d)
      × (d ≤ b)
      × (a ≢ b → d < b)
delay_between_lem a b int63n draws h k = elim (dec_lt a b) [
  | yes lt ↦
      let drawn = draws (b - a) (omega arith) in
      (
        a + int63n (b - a),
        unfold delay_between in ground (arith, draw_delay_lem a b int63n lt k drawn),
        omega arith,
        omega arith,
        λ ne. omega arith,
      )
  | no not_lt ↦ (
    a,
    unfold delay_between in ground arith,
    omega arith,
    omega arith,
    λ ne. absurd (ne (omega arith)),
  )
]

-- `ResolveDelay` with a range whose bounds are not negative and whose `max` is positive, and a
-- generator that draws below its argument, does not panic: the delay lies between the two bounds,
-- whichever is written first, and is less than the greater one unless they are equal.
pub resolve_delay_range :
    (fixed : Duration) (a b : ℕ) (int63n : ℕ → ℕ)
    → ((n : ℕ) → 0 < n → int63n n < n)
    → a < 2 ^ 63
    → b < 2 ^ 63
    → 0 < b
    → (d : ℕ) × (resolve_delay fixed (some (record { min = pos a; max = pos b })) int63n
        ≡ some (pos d))
      × (min a b ≤ d)
      × (d ≤ max a b)
      × (a ≢ b → d < max a b)
unfolding resolve_delay
resolve_delay_range fixed a b int63n draws ha hb some_max = elim (dec_lt b a) [
  | yes swapped ↦
      let (d, e, low, high, strict) = delay_between_lem b a int63n draws (omega arith) ha in
      (
        d,
        ground (arith, e),
        omega arith,
        omega arith,
        λ ne. ground (arith, strict (λ q. ne (sym q))),
      )
  | no ordered ↦
      let (d, e, low, high, strict) = delay_between_lem a b int63n draws (omega arith) hb in
      (d, ground (arith, e), omega arith, omega arith, λ ne. ground (arith, strict ne))
]

-- Requests at the given instants: how many are not limited, and the store after them.
pub serve : Bytes → ℤ → List ℕ → Store → ℕ × Store
serve key limit [] s = (0, s)
serve key limit (now ∷ times) s =
    let (over, t) = rate_limited key limit now s in
    let (n, u) = serve key limit times t in (if over then n else n + 1, u)

-- The store after a request that is counted in the window `w`.
abbrev count_in : Bytes → RateWindow → Store → Store
count_in key w s = record s {
  rate_windows = insert key (record w { count = w.count + 1 }) s.rate_windows;
}

lookup-count_in :
    (key : Bytes) (w : RateWindow) (s : Store)
    → lookup key (count_in key w s).rate_windows ≡ some (record w { count = w.count + 1 })
lookup-count_in key w s = simp (lookup-insert, text_eq_refl)

rate_limited_step :
    (key : Bytes) (limit now : ℕ) (s : Store) (w : RateWindow)
    → current_window now (lookup key s.rate_windows) ≡ w
    → rate_limited key (pos (suc limit)) now s ≡ (ltb (suc limit) (w.count + 1), count_in key w s)
unfolding rate_limited
rate_limited_step key limit now s w e = rw e

same_window :
    (now : ℕ) (o : Option RateWindow) (w : RateWindow)
    → o ≡ some w
    → now - w.start < second
    → current_window now o ≡ w
unfolding current_window
same_window now o w e h = ground arith

-- Requests in a window that is already on record.
serve_in_window :
    (key : Bytes) (limit : ℕ) (times : List ℕ) (s : Store) (w : RateWindow)
    → lookup key s.rate_windows ≡ some w
    → All (λ t. t - w.start < second) times
    → ((serve key (pos (suc limit)) times s).0 ≡ min (suc limit - w.count) (length times))
      × (lookup key (serve key (pos (suc limit)) times s).1.rate_windows
          ≡ some (record w { count = w.count + length times }))
unfolding serve
serve_in_window key limit [] s w found h = (omega arith, ground (arith, found))
serve_in_window key limit (now ∷ times) s w found (soon, h) =
    let step = rate_limited_step key limit now s w (same_window now _ w found soon) in
    let ih =
      serve_in_window key limit times (count_in key w s) (record w { count = w.count + 1 })
        (lookup-count_in key w s) h in
    (rw step (ground (arith, ih.0)), rw step (ground (arith, ih.1)))

-- The first request of a window, and those that follow in it.
serve_window :
    (key : Bytes) (limit now : ℕ) (times : List ℕ) (s : Store)
    → current_window now (lookup key s.rate_windows) ≡ record { start = now; count = 0 }
    → All (λ t. t - now < second) times
    → ((serve key (pos (suc limit)) (now ∷ times) s).0 ≡ min (suc limit) (length (now ∷ times)))
      × (lookup key (serve key (pos (suc limit)) (now ∷ times) s).1.rate_windows
          ≡ some (record { start = now; count = length (now ∷ times) }))
unfolding serve
serve_window key limit now times s fresh h =
    let w : RateWindow = record { start = now; count = 0 } in
    let step = rate_limited_step key limit now s w fresh in
    let ih =
      serve_in_window key limit times (count_in key w s) (record w { count = w.count + 1 })
        (lookup-count_in key w s) h in
    (rw step (ground (arith, ih.0)), rw step (ground (arith, ih.1)))

-- For a key that has no window yet, of the requests that arrive less than a second after the first
-- one a limit lets exactly as many through as its value, or all of them if there are fewer.
pub serve_first_window :
    (key : Bytes) (limit now : ℕ) (times : List ℕ) (s : Store)
    → lookup key s.rate_windows ≡ none
    → All (λ t. t - now < second) times
    → (serve key (pos (suc limit)) (now ∷ times) s).0 ≡ min (suc limit) (length (now ∷ times))
serve_first_window key limit now times s unseen h =
    (serve_window key limit now times s (unfold current_window in rw unseen) h).0

serve-append :
    (key : Bytes) (limit : ℤ) (xs ys : List ℕ) (s : Store)
    → (serve key limit (xs ++ ys) s).0
      ≡ (serve key limit xs s).0 + (serve key limit ys (serve key limit xs s).1).0
unfolding serve
serve-append key limit [] ys s = omega arith
serve-append key limit (now ∷ xs) ys s =
    ground (arith, serve-append key limit xs ys (rate_limited key limit now s).1)

abbrev pub repeat : ℕ → ℕ → List ℕ
repeat zero t = []
repeat (suc n) t = t ∷ repeat n t

length-repeat : (n t : ℕ) → length (repeat n t) ≡ n
length-repeat zero t = refl
length-repeat (suc n) t = ap suc (length-repeat n t)

repeat-All : (n t start : ℕ) → t - start < second → All (λ u. u - start < second) (repeat n t)
repeat-All zero t start h = tt
repeat-All (suc n) t start h = (h, repeat-All n t start h)

-- The window is fixed to its first request and does not trail: for a key that has no window yet,
-- one request at an instant, n more just under a second later and n + 1 at the full second all pass
-- a limit of n + 1 requests per second, so that 2 n + 1 pass within one nanosecond.
pub window_does_not_trail :
    (key : Bytes) (n now : ℕ) (s : Store)
    → lookup key s.rate_windows ≡ none
    → (serve key
        (pos (suc n))
        ((now ∷ repeat n (now + (second - 1))) ++ repeat (suc n) (now + second))
        s).0
      ≡ suc n + suc n
window_does_not_trail key n now s unseen =
    let first =
      serve_window key n now (repeat n (now + (second - 1))) s (unfold current_window in rw unseen)
        (repeat-All n (now + (second - 1)) now (omega arith)) in
    let after : Store = (serve key (pos (suc n)) (now ∷ repeat n (now + (second - 1))) s).1 in
    let again =
      serve_window key n (now + second) (repeat n (now + second)) after
        (unfold current_window in rw first.1 (ground arith))
        (repeat-All n (now + second) (now + second) (omega arith)) in
    rw serve-append (
      omega (
        arith,
        first.0,
        again.0,
        length-repeat n (now + (second - 1)),
        length-repeat n (now + second),
      ))
