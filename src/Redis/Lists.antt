-- ===== src/Redis/Lists.antt =====
-- The lists of datastore.go. `LRange` returns `none` where the program panics.
pub mod Range
pub mod Pushed
use mockly.Base.{
  ℕ, zero, suc, ◌+◌, ◌-◌, ◌≤◌, ◌≡◌, ◌≢◌, ◌↔◌, refl, sym, ap, ◌∙◌, Bool, true, false, Option, none,
  some, List, [], ◌∷◌, ◌++◌, ◌||◌, Bytes, if◌then◌else◌, arith, length, take, drop, length-drop,
  Dict, leb, ltb, Bool-cases, inl, inr, ◌⊎◌, insert, ◌==◌,
}
use mockly.Base.Int.{ℤ, pos, negsuc, pos_part, ◌+ℤ◌, ◌-ℤ◌, ltb_ℤ, leb_ℤ, ◌≤ℤ◌, ◌<ℤ◌}
use mockly.Redis.{
  Value, str, hash, list, Entry, DataStore, Reply, ok, wrong_type, get_locked, live_or,
}

-- The loop of `LPUSH`, and `append`.
unfoldable pub push_list : Bool → List Bytes → List Bytes → List Bytes
push_list true [] l = l
push_list true (v ∷ values) l = push_list true values (v ∷ l)
push_list false values l = l ++ values

unfoldable pub push_entry : Bytes → Bool → List Bytes → Entry → DataStore → Reply ℕ × DataStore
push_entry key left values e s = elim e.value [
  | list l ↦ (
    ok (length (push_list left values l)),
    insert key (record e { value = list (push_list left values l) }) s,
  )
  | _ ↦ (wrong_type, s)
]

unfoldable pub push : Bytes → Bool → List Bytes → ℕ → DataStore → Reply ℕ × DataStore
unfolding push_entry
push key left values now s =
    let (e, t) = live_or (list []) key now s in push_entry key left values e t

-- `normalizeListIndex`
abbrev pub normalize_list_index : ℤ → ℕ → ℤ
normalize_list_index (pos i) n = pos i
normalize_list_index (negsuc i) n = negsuc i +ℤ pos n

-- `make([]string, stop-start+1)`, which panics at a negative length, and the copy of the slice.
abbrev pub copied : ℤ → ℤ → List Bytes → Option (List Bytes)
copied start stop l = elim (stop -ℤ start +ℤ pos 1) [
  | negsuc m ↦ none
  | pos m ↦ some (take m (drop (pos_part start) l))
]

-- The bounds leave nothing to copy.
abbrev pub is_empty : ℤ → ℤ → ℕ → Bool
is_empty start stop n = ltb_ℤ stop start || leb_ℤ (pos n) start || n == 0

abbrev pub from_head : ℤ → ℤ
from_head start = if ltb_ℤ start (pos 0) then pos 0 else start

abbrev pub to_tail : ℤ → ℕ → ℤ
to_tail stop n = if leb_ℤ (pos n) stop then pos n -ℤ pos 1 else stop

abbrev pub clipped : ℤ → ℤ → List Bytes → Option (List Bytes)
clipped start stop l =
    if is_empty start stop (length l)
    then some []
    else copied (from_head start) (to_tail stop (length l)) l

unfoldable pub range : ℤ → ℤ → List Bytes → Option (List Bytes)
range start stop l =
    clipped (normalize_list_index start (length l)) (normalize_list_index stop (length l)) l

abbrev pub range_of : ℤ → ℤ → Option Entry → Option (Reply (List Bytes))
range_of start stop none = some (ok [])
range_of start stop (some e) = elim e.value [
  | list l ↦ elim (range start stop l) [ none ↦ none | some out ↦ some (ok out) ]
  | _ ↦ some wrong_type
]

unfoldable pub lrange : Bytes → ℤ → ℤ → ℕ → DataStore → Option (Reply (List Bytes)) × DataStore
lrange key start stop now s = let (e, t) = get_locked key now s in (range_of start stop e, t)

abbrev length_of : Option Entry → Reply ℕ
length_of none = ok 0
length_of (some e) = elim e.value [ list l ↦ ok (length l) | _ ↦ wrong_type ]

unfoldable pub llen : Bytes → ℕ → DataStore → Reply ℕ × DataStore
llen key now s = let (e, t) = get_locked key now s in (length_of e, t)
