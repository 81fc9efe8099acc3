-- ===== src/Redis/Lists/Range.antt =====
-- `LRange` of internal/protocols/redisserver/datastore.go.
use mockly.Base.{
  ℕ, zero, suc, ◌+◌, ◌-◌, ◌≤◌, ◌≡◌, ◌≢◌, ◌↔◌, refl, sym, ap, ◌∙◌, true, false, none, some, List, [],
  ◌∷◌, Bytes, if◌then◌else◌, arith, length, take, drop, length-drop, leb, Bool-cases, inl, inr, ◌⊎◌,
}
use mockly.Base.Int.{ℤ, pos, negsuc, pos_part, ◌+ℤ◌, ◌≤ℤ◌, ◌<ℤ◌}
use mockly.Redis.Lists.{normalize_list_index, copied, is_empty, from_head, to_tail, clipped, range}

copied-none :
    (i : ℕ) (stop : ℤ) (l : List Bytes) → (copied (pos i) stop l ≡ none) ↔ (stop +ℤ pos 1 <ℤ pos i)
copied-none i (pos j) l = ground arith
copied-none i (negsuc j) l = ground arith

from_head-pos : (start : ℤ) → from_head start ≡ pos (pos_part start)
from_head-pos (pos i) = ground arith
from_head-pos (negsuc i) = ground arith

nonempty_iff :
    (start stop : ℤ) (n : ℕ)
    → (is_empty start stop n ≡ false) ↔ ((n ≢ 0) × (start ≤ℤ stop) × (start <ℤ pos n))
nonempty_iff start stop n = ground arith

-- The last place that is copied, for a stop behind the head.
abbrev last_place : ℕ → ℕ → ℕ
last_place j n = if leb n j then n - 1 else j

to_tail-pos : (j n : ℕ) → n ≢ 0 → to_tail (pos j) n ≡ pos (last_place j n)
to_tail-pos j n some_n = ground arith

to_tail-negsuc : (j n : ℕ) → to_tail (negsuc j) n ≡ negsuc j
to_tail-negsuc j n = ground arith

to_tail_below :
    (start stop : ℤ) (n : ℕ)
    → n ≢ 0
    → start ≤ℤ stop
    → start <ℤ pos n
    → (to_tail stop n +ℤ pos 1 <ℤ pos (pos_part start)) ↔ (stop <ℤ negsuc 0)
to_tail_below start (pos j) n some_n le lt = rw (to_tail-pos j n some_n) (ground arith)
to_tail_below start (negsuc j) n some_n le lt = rw (to_tail-negsuc j n) (ground arith)

clipped-nonempty :
    (start stop : ℤ) (l : List Bytes)
    → is_empty start stop (length l) ≡ false
    → clipped start stop l ≡ copied (pos (pos_part start)) (to_tail stop (length l)) l
clipped-nonempty start stop l e =
    ap (λ b. if b then some [] else copied (from_head start) (to_tail stop (length l)) l) e
    ∙ ap (λ a. copied a (to_tail stop (length l)) l) (from_head-pos start)

clipped-empty :
    (start stop : ℤ) (l : List Bytes)
    → is_empty start stop (length l) ≡ true
    → clipped start stop l ≡ some []
clipped-empty start stop l e =
    ap (λ b. if b then some [] else copied (from_head start) (to_tail stop (length l)) l) e

clipped_panics :
    (start stop : ℤ) (l : List Bytes)
    → (clipped start stop l ≡ none) ↔ ((length l ≢ 0) × (start ≤ℤ stop) × (stop <ℤ negsuc 0))
clipped_panics start stop l = (
  λ e. elim (Bool-cases (is_empty start stop (length l))) [
    | inl empty ↦ absurd (cc (e, clipped-empty start stop l empty))
    | inr full ↦
        let (some_l, le, lt) = (nonempty_iff start stop (length l)).0 full in
        let short =
          (copied-none (pos_part start) (to_tail stop (length l)) l).0
            (sym (clipped-nonempty start stop l full) ∙ e) in
        (some_l, le, (to_tail_below start stop (length l) some_l le lt).0 short)
  ],
  λ h.
      let (some_l, le, below) = h in
      let lt : start <ℤ pos (length l) = ground arith in
      clipped-nonempty start stop l ((nonempty_iff start stop (length l)).1 (some_l, le, lt))
      ∙ (copied-none (pos_part start) (to_tail stop (length l)) l).1
          ((to_tail_below start stop (length l) some_l le lt).1 below),
)

-- `LRANGE` panics exactly when the list has an element and the stop, counted from the end of the
-- list, lies more than one place before its head and not before the start.
pub range_panics_iff :
    (start stop : ℤ) (l : List Bytes)
    → (range start stop l ≡ none) ↔ (
        (l ≢ [])
        × (normalize_list_index start (length l) ≤ℤ normalize_list_index stop (length l))
        × (normalize_list_index stop (length l) <ℤ negsuc 0))
unfolding range
range_panics_iff start stop l =
    let (to, from) =
      clipped_panics (normalize_list_index start (length l)) (normalize_list_index stop (length l))
        l in
    (
      λ e. let (some_l, le, below) = to e in (λ empty. some_l (ap length empty), le, below),
      λ h. let (some_l, le, below) = h in from (λ none_l. some_l (empty_of l none_l), le, below),
    )
  where
    empty_of : (l : List Bytes) → length l ≡ 0 → l ≡ []
    empty_of [] e = refl
    empty_of (x ∷ l) e = absurd (omega arith)

take-beyond : (m k : ℕ) (l : List Bytes) → length l ≤ m → length l ≤ k → take m l ≡ take k l
take-beyond zero zero [] h e = refl
take-beyond zero (suc k) [] h e = refl
take-beyond (suc m) zero [] h e = refl
take-beyond (suc m) (suc k) [] h e = refl
take-beyond m zero (x ∷ l) h e = absurd (omega arith)
take-beyond zero (suc k) (x ∷ l) h e = absurd (omega arith)
take-beyond (suc m) (suc k) (x ∷ l) h e =
    ap (λ t. x ∷ t) (take-beyond m k l (omega arith) (omega arith))

take-drop-beyond :
    (m k i : ℕ) (l : List Bytes)
    → length l ≤ m + i
    → length l ≤ k + i
    → take m (drop i l) ≡ take k (drop i l)
take-drop-beyond m k i l h e =
    take-beyond m k (drop i l) (omega (arith, length-drop i l)) (omega (arith, length-drop i l))

copied-pos :
    (i j : ℕ) (l : List Bytes)
    → i ≤ suc j
    → copied (pos i) (pos j) l ≡ some (take (suc j - i) (drop i l))
copied-pos i j l h = ground arith

empty_cases :
    (start : ℤ) (q n : ℕ)
    → is_empty start (pos q) n ≡ true
    → (suc q - pos_part start ≡ 0) ⊎ (n ≤ pos_part start)
empty_cases (pos i) q n e = ground arith
empty_cases (negsuc i) q n e = ground arith

take-last_place :
    (i q : ℕ) (l : List Bytes)
    → take (suc (last_place q (length l)) - i) (drop i l) ≡ take (suc q - i) (drop i l)
take-last_place i q l = elim (Bool-cases (leb (length l) q)) [
  | inl beyond ↦
      take-drop-beyond (suc (last_place q (length l)) - i) (suc q - i) i l (ground arith)
        (ground arith)
  | inr inside ↦ ap (λ j. take (suc j - i) (drop i l)) (ground arith)
]

last_place_fits :
    (start : ℤ) (q n : ℕ)
    → is_empty start (pos q) n ≡ false
    → (n ≢ 0) × (pos_part start ≤ suc (last_place q n))
last_place_fits (pos i) q n e = ground arith
last_place_fits (negsuc i) q n e = ground arith

clipped_lem :
    (start : ℤ) (q : ℕ) (l : List Bytes)
    → clipped start (pos q) l ≡ some (take (suc q - pos_part start) (drop (pos_part start) l))
clipped_lem start q l = elim (Bool-cases (is_empty start (pos q) (length l))) [
  | inl empty ↦
      clipped-empty start (pos q) l empty
      ∙ ap some (
          nothing (suc q - pos_part start) (pos_part start) l
            (empty_cases start q (length l) empty))
  | inr full ↦
      let (some_l, fits) = last_place_fits start q (length l) full in
      clipped-nonempty start (pos q) l full
      ∙ ap (λ a. copied (pos (pos_part start)) a l) (to_tail-pos q (length l) some_l)
      ∙ copied-pos (pos_part start) (last_place q (length l)) l fits
      ∙ ap some (take-last_place (pos_part start) q l)
]
  where
    nothing : (m i : ℕ) (l : List Bytes) → (m ≡ 0) ⊎ (length l ≤ i) → [] ≡ take m (drop i l)
    nothing m i l (inl e) = rw e refl
    nothing m i l (inr e) = take-drop-beyond 0 m i l (omega arith) (omega arith)

-- For a stop that lies in the list or behind it `LRANGE` answers the elements from the start, or from the head if the
-- start lies before it, to the stop, as many as there are.
pub range_lem :
    (start stop : ℤ) (q : ℕ) (l : List Bytes)
    → normalize_list_index stop (length l) ≡ pos q
    → range start stop l
      ≡ some (
          take
            (suc q - pos_part (normalize_list_index start (length l)))
            (drop (pos_part (normalize_list_index start (length l))) l))
unfolding range
range_lem start stop q l e = rw e (clipped_lem (normalize_list_index start (length l)) q l)
