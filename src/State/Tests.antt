-- ===== src/State/Tests.antt =====
-- Runs of the state store, and its theorems at concrete inputs.
use mockly.Base.{
  ℕ, ◌≡◌, refl, false, none, some, [], ◌∷◌, arith, Bytes, codes, lookup, has_distinct_keys, text_eq,
}
use mockly.Base.Int.{pos, negsuc}
use mockly.State.{Store, new, set_ttl, get, expired, fn_state_set_ttl}
use mockly.State.Laws.{view, is_over, get-set_ttl}
use mockly.State.Race.{System, Run, Step, stale_get_loses_write}

abbrev login : Bytes
login = codes "login:session"

abbrev cart : Bytes
cart = codes "cart"

abbrev two_keys : Store
two_keys = record {
  entries =
      (login, record { value = codes "ok"; expires_at = some 50 })
      ∷ (cart, record { value = codes "3"; expires_at = none })
      ∷ [];
}

set_then_get : (get login 40 (set_ttl login (codes "ok") (pos 30) 20 new)).0 ≡ some (codes "ok")
unfolding get set_ttl new lookup mockly.Base.insert text_eq expired
set_then_get = refl

expired_get : (get login 51 (set_ttl login (codes "ok") (pos 30) 20 new)).0 ≡ none
unfolding get set_ttl new expired lookup mockly.Base.insert text_eq
expired_get = refl

negative_ttl_stays :
    (get login 999 (set_ttl login (codes "ok") (negsuc 4) 20 new)).0 ≡ some (codes "ok")
unfolding get set_ttl new lookup mockly.Base.insert text_eq expired
negative_ttl_stays = refl

template_ttl : (fn_state_set_ttl login cart (pos 0) 5 new).0 ≡ none
unfolding fn_state_set_ttl
template_ttl = refl

get-set_ttl_example : (get login 51 (set_ttl login cart (pos 30) 20 two_keys)).0 ≡ none
unfolding text_eq
get-set_ttl_example = get-set_ttl login login cart (pos 30) 20 51 two_keys

abbrev at_rest : Store → System
at_rest s = record { store = s; pending = [] }

stale_get_loses_write_example :
    Run
      (at_rest two_keys)
      (record { store = set_ttl login cart (pos 0) 51 two_keys; pending = login ∷ [] })
    × ((later : ℕ)
        → is_over (pos 0) 51 later ≡ false
        → view login later (set_ttl login cart (pos 0) 51 two_keys) ≡ some cart)
    × ((t : Store) × Step
          (record { store = set_ttl login cart (pos 0) 51 two_keys; pending = login ∷ [] })
          (at_rest t)
        × ((later : ℕ) → view login later t ≡ none)
        × ((j : Bytes) (later : ℕ)
            → text_eq login j ≡ false
            → view j later t ≡ view j later two_keys))
unfolding lookup text_eq expired
stale_get_loses_write_example =
    stale_get_loses_write login cart (pos 0) 51
      (record { value = codes "ok"; expires_at = some 50 }) two_keys refl refl
