-- ===== src/Redis/Expiry.antt =====
-- `Expire` and `TTL` of internal/protocols/redisserver/datastore.go.
use mathlib.Core.Path.{subst}
use mockly.Base.{
  ltb, Bool-cases, inl, inr, ℕ, ◌+◌, ◌-◌, ◌*◌, ◌^◌, ◌<◌, ◌≤◌, ◌≡◌, sym, ap, ◌∙◌, none, some, Bytes,
  if◌then◌else◌, arith, lookup, text_eq_refl, lookup-insert,
}
use mockly.Base.Int.{ℤ, pos, negsuc, ◌-ℤ◌, wrap64_fits}
use mockly.Redis.{
  Entry, DataStore, get_locked, expire, ttl, ttl_of, rounded, expired, second, remaining,
}
use mockly.Redis.Laws.{view, live, get_locked-view}

-- `EXPIRE` puts the instant of its end under the key.
lookup-expire :
    (key : Bytes) (n now later : ℕ) (s : DataStore) (e : Entry)
    → n * second < 2 ^ 63
    → view key now s ≡ some e
    → lookup key (expire key (pos n) now later s).1
      ≡ some (record e { expires_at = some (pos (later + n * second)) })
unfolding expire
lookup-expire key n now later s e fits found = ground (
  arith,
  get_locked-view key now s,
  wrap64_fits (pos (n * second)),
  text_eq_refl key,
  lookup-insert key key (record e { expires_at = some (pos (later + n * second)) })
      (get_locked key now s).1,
)

-- The seconds that `TTL` answers when `r` nanoseconds remain: the nearest number, a half upwards.
abbrev IsNearest : ℕ → ℕ → Type 0
IsNearest r q = (q * second ≤ r + 500000000) × (r < q * second + 500000000)

rounded-IsNearest : (r : ℕ) → r + 500000000 < 2 ^ 63 → IsNearest r (rounded r)
unfolding rounded
rounded-IsNearest r fits = ground arith

-- What `TTL` answers at the instant `t` for an expiry at the instant `ends`: the nearest number of
-- seconds until then, and -2 once it has passed.
abbrev pub TtlUntil : ℕ → ℕ → ℤ → Type 0
TtlUntil ends t answer =
    (t ≤ ends → (q : ℕ) × (answer ≡ pos q) × IsNearest (ends - t) q)
    × (ends < t → answer ≡ negsuc 1)

sub-le : (a b : ℕ) → b ≤ a → pos a -ℤ pos b ≡ pos (a - b)
sub-le a b h = ground arith

sub-lt : (a b : ℕ) → a < b → pos a -ℤ pos b ≡ negsuc (b - a - 1)
sub-lt a b h = ground arith

ttl_of-ends :
    (ends t : ℕ) (e : Entry)
    → (ends - t) + 500000000 < 2 ^ 63
    → TtlUntil ends t (ttl_of t (some (record e { expires_at = some (pos ends) })))
ttl_of-ends ends t e fits = (
  λ le. (rounded (ends - t), ap remaining (sub-le ends t le), rounded-IsNearest (ends - t) fits),
  λ lt. ap remaining (sub-lt ends t lt),
)

live-ends :
    (ends t : ℕ) (e : Entry)
    → live t (some (record e { expires_at = some (pos ends) }))
      ≡ (if ltb ends t then none else some (record e { expires_at = some (pos ends) }))
unfolding expired
live-ends ends t e = ground arith

-- After `EXPIRE` of `n` seconds on a key that exists, `TTL` answers, while no more than `n` seconds
-- have passed since the second reading of the clock in `EXPIRE`, the nearest number of seconds that remain, and -2 from then on.
-- The seconds fit 64 bits in nanoseconds; the clock does not run backwards.
pub ttl-expire :
    (key : Bytes) (n now later t u : ℕ) (s : DataStore) (e : Entry)
    → n * second + 500000000 < 2 ^ 63
    → view key now s ≡ some e
    → later ≤ t
    → t ≤ u
    → TtlUntil (later + n * second) u (ttl key t u (expire key (pos n) now later s).1).0
unfolding ttl
ttl-expire key n now later t u s e fits found le le' =
    let ends = later + n * second in
    let after = (expire key (pos n) now later s).1 in
    let read =
      get_locked-view key t after
      ∙ ap (live t) (lookup-expire key n now later s e (omega arith) found)
      ∙ live-ends ends t e in
    elim (Bool-cases (ltb ends t)) [
      | inl over ↦ (
        λ still. absurd (ground arith),
        λ gone. ap (ttl_of u) (
            read
            ∙ ap (λ b. if b then none else some (record e { expires_at = some (pos ends) })) over),
      )
      | inr alive ↦
          subst (TtlUntil ends u)
            (sym (
              ap (ttl_of u) (
                read
                ∙ ap (λ b. if b then none else some (record e { expires_at = some (pos ends) }))
                    alive)))
            (ttl_of-ends ends u e (omega arith))
    ]
