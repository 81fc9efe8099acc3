-- ===== src/Redis/Lists/Pushed.antt =====
-- `LPush`, `RPush` and `LRange` of internal/protocols/redisserver/datastore.go.
use mathlib.Core.List.{reverse, reverse_aux, reverse_aux-eq}
use mockly.Base.{
  ℕ, suc, ◌-◌, ◌≡◌, refl, ap, ◌∙◌, Bool, true, false, none, some, List, [], ◌∷◌, ◌++◌, Bytes,
  if◌then◌else◌, arith, length, take, insert, text_eq_refl,
}
use mockly.Base.Int.{pos, negsuc}
use mockly.Redis.{list, Entry, DataStore, ok, live_or}
use mockly.Redis.Laws.{view, or_fresh, live_or-view, written, view-written, get_locked-view}
use mockly.Redis.Lists.{push_list, push, push_entry, range, range_of, lrange}
use mockly.Redis.Lists.Range.{range_lem}

push_list-left : (values l : List Bytes) → push_list true values l ≡ reverse_aux values l
unfolding push_list
push_list-left [] l = refl
push_list-left (v ∷ values) l = push_list-left values (v ∷ l)

push_entry-list :
    (key : Bytes) (left : Bool) (values l : List Bytes) (e : Entry) (s : DataStore)
    → e.value ≡ list l
    → push_entry key left values e s ≡ (
      ok (length (push_list left values l)),
      insert key (record e { value = list (push_list left values l) }) s,
    )
unfolding push_entry
push_entry-list key left values l e s is_list = ground arith

push-written :
    (key : Bytes) (left : Bool) (values l : List Bytes) (now : ℕ) (s : DataStore)
    → (or_fresh (list []) (view key now s)).value ≡ list l
    → push key left values now s ≡ (
      ok (length (push_list left values l)),
      written (list []) (list (push_list left values l)) key now s,
    )
unfolding push
push-written key left values l now s is_list =
    ap (λ e. push_entry key left values e (live_or (list []) key now s).1)
      (live_or-view (list []) key now s)
    ∙ push_entry-list key left values l (or_fresh (list []) (view key now s))
        (live_or (list []) key now s).1 is_list

take-length : (l : List Bytes) → take (length l) l ≡ l
take-length [] = refl
take-length (x ∷ l) = ap (λ t. x ∷ t) (take-length l)

minus_zero : (n : ℕ) → n - 0 ≡ n
minus_zero n = omega arith

-- The range from 0 to -1 is the whole list.
range_all : (l : List Bytes) → range (pos 0) (negsuc 0) l ≡ some l
range_all [] = unfold range in refl
range_all (x ∷ l) =
    range_lem (pos 0) (negsuc 0) (length l) (x ∷ l) (ground arith)
    ∙ ap (λ m. some (take m (x ∷ l))) (minus_zero (suc (length l)))
    ∙ ap some (take-length (x ∷ l))

lrange-written :
    (key : Bytes) (l : List Bytes) (now : ℕ) (s : DataStore)
    → (lrange key (pos 0) (negsuc 0) now (written (list []) (list l) key now s)).0 ≡ some (ok l)
unfolding lrange
lrange-written key l now s =
    ap (range_of (pos 0) (negsuc 0)) (
      get_locked-view key now (written (list []) (list l) key now s)
      ∙ view-written (list []) (list l) key key now s
      ∙ ap
          (λ b.
            if b
            then some (record (or_fresh (list []) (view key now s)) { value = list l })
            else view key now s)
          (text_eq_refl key))
    ∙ ap (λ o. elim o [ none ↦ none | some out ↦ some (ok out) ]) (range_all l)

-- The list after a push: the values of `LPUSH` stand in front, the last one first; those of `RPUSH`
-- stand behind, in their order.
abbrev pub pushed : Bool → List Bytes → List Bytes → List Bytes
pushed true values l = reverse values ++ l
pushed false values l = l ++ values

push_list-pushed :
    (left : Bool) (values l : List Bytes) → push_list left values l ≡ pushed left values l
unfolding push_list
push_list-pushed true values l = push_list-left values l ∙ reverse_aux-eq values l
push_list-pushed false values l = refl

-- If a key holds a list, or nothing and the list is empty, then after `LPUSH` the range from 0 to -1 is the
-- pushed values, the last one first, and the list, after `RPUSH` the list and the values in their
-- order; the answer of the push is the length of that range.
pub lrange-push :
    (key : Bytes) (left : Bool) (values l : List Bytes) (now : ℕ) (s : DataStore)
    → (or_fresh (list []) (view key now s)).value ≡ list l
    → ((push key left values now s).0 ≡ ok (length (pushed left values l)))
      × ((lrange key (pos 0) (negsuc 0) now (push key left values now s).1).0
          ≡ some (ok (pushed left values l)))
lrange-push key left values l now s is_list =
    let e = push-written key left values l now s is_list in
    let same = push_list-pushed left values l in
    (
      ap (λ r. r.0) e ∙ ap (λ out. ok (length out)) same,
      ap (λ r. (lrange key (pos 0) (negsuc 0) now r.1).0) e
          ∙ lrange-written key (push_list left values l) now s
          ∙ ap (λ out. some (ok out)) same,
    )
