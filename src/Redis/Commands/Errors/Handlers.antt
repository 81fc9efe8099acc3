-- ===== src/Redis/Commands/Errors/Handlers.antt =====
-- The handlers of internal/protocols/redisserver/command_stateful.go, where they answer an error.
use mockly.Base.{
  ℕ, ◌≡◌, refl, ◌⊎◌, inl, inr, Bool, true, false, Option, none, some, List, [], ◌∷◌, Bytes, codes,
  arith,
}
use mockly.Base.Int.{ℤ, pos}
use mockly.Redis as Redis
use mockly.Redis.{DataStore, get_locked, live_or, Decimal, incr_by, incr_entry, append_entry}
use mockly.Redis.Hashes.{hset, hset_entry, hget, hget_all, hdel, hdel_entry, hexists}
use mockly.Redis.Lists.{push, push_entry, lrange, llen}
use mockly.Redis.Commands.{
  incr_parsed, signed, cmd_set, cmd_get, cmd_del, cmd_exists, cmd_expire, cmd_ttl, cmd_persist,
  cmd_incr, cmd_incr_by, cmd_append, cmd_hset, cmd_hget, cmd_hget_all, cmd_hdel, cmd_hexists,
  cmd_push, cmd_lrange, cmd_llen,
}
use mockly.Redis.Commands.Answers.{Answer, wrong_args, wrong_kind, no_integer, integer, Done, reply}

abbrev pub is_error : Option Answer → Bool
is_error (some (wrong_args name)) = true
is_error (some wrong_kind) = true
is_error (some no_integer) = true
is_error _ = false

abbrev pub first_of : List Bytes → Bytes
first_of [] = []
first_of (k ∷ args) = k

-- The store is what it was, or lacks the key of the command, which had expired.
abbrev pub Untouched : Bytes → ℕ → DataStore → DataStore → Type 0
Untouched key now s t = (t ≡ s) ⊎ (t ≡ (get_locked key now s).1)

abbrev pub Keeps : ℕ → (List Bytes → DataStore → Done) → Type 0
Keeps now handler =
    (args : List Bytes) (s : DataStore)
    → is_error (handler args s).0 ≡ true
    → Untouched (first_of args) now s (handler args s).1

pub cmd_set-Keeps : (d : Decimal) (now : ℕ) → Keeps now (cmd_set d now)
unfolding cmd_set
cmd_set-Keeps d now [] s h = inl refl
cmd_set-Keeps d now (k ∷ []) s h = inl refl
cmd_set-Keeps d now (k ∷ v ∷ options) s h = ground arith

pub cmd_get-Keeps : (now : ℕ) → Keeps now (cmd_get now)
unfolding cmd_get mockly.Redis.get
cmd_get-Keeps now [] s h = inl refl
cmd_get-Keeps now (k ∷ args) s h = inr refl

pub cmd_llen-Keeps : (now : ℕ) → Keeps now (cmd_llen now)
unfolding cmd_llen llen
cmd_llen-Keeps now [] s h = inl refl
cmd_llen-Keeps now (k ∷ []) s h = inr refl
cmd_llen-Keeps now (k ∷ a ∷ args) s h = inl refl

pub cmd_append-Keeps : (now : ℕ) → Keeps now (cmd_append now)
unfolding cmd_append mockly.Redis.append live_or append_entry
cmd_append-Keeps now [] s h = inl refl
cmd_append-Keeps now (k ∷ []) s h = inl refl
cmd_append-Keeps now (k ∷ v ∷ []) s h = ground arith
cmd_append-Keeps now (k ∷ v ∷ a ∷ args) s h = inl refl

pub cmd_expire-Keeps : (d : Decimal) (now later : ℕ) → Keeps now (cmd_expire d now later)
unfolding cmd_expire mockly.Redis.expire
cmd_expire-Keeps d now later [] s h = inl refl
cmd_expire-Keeps d now later (k ∷ []) s h = inl refl
cmd_expire-Keeps d now later (k ∷ v ∷ []) s h = ground arith
cmd_expire-Keeps d now later (k ∷ v ∷ a ∷ args) s h = inl refl

pub cmd_del-Keeps : (now : ℕ) (clock : ℕ → ℕ) → Keeps now (cmd_del clock)
unfolding cmd_del
cmd_del-Keeps now clock [] s h = inl refl
cmd_del-Keeps now clock (k ∷ keys) s h = ground arith

pub cmd_exists-Keeps : (now : ℕ) (clock : ℕ → ℕ) → Keeps now (cmd_exists clock)
unfolding cmd_exists
cmd_exists-Keeps now clock [] s h = inl refl
cmd_exists-Keeps now clock (k ∷ keys) s h = ground arith

pub cmd_ttl-Keeps : (now later : ℕ) → Keeps now (cmd_ttl now later)
unfolding cmd_ttl
cmd_ttl-Keeps now later [] s h = inl refl
cmd_ttl-Keeps now later (k ∷ []) s h = ground arith
cmd_ttl-Keeps now later (k ∷ v ∷ args) s h = inl refl

pub cmd_persist-Keeps : (now : ℕ) → Keeps now (cmd_persist now)
unfolding cmd_persist
cmd_persist-Keeps now [] s h = inl refl
cmd_persist-Keeps now (k ∷ []) s h = ground arith
cmd_persist-Keeps now (k ∷ v ∷ args) s h = inl refl

incr_by-Keeps :
    (d : Decimal) (key : Bytes) (delta : ℤ) (now : ℕ) (s : DataStore)
    → d.parse (codes "0") ≡ some (pos 0)
    → is_error (some (reply integer (incr_by d key delta now s).0)) ≡ true
    → (incr_by d key delta now s).1 ≡ (get_locked key now s).1
unfolding incr_by live_or incr_entry
incr_by-Keeps d key delta now s z h = ground arith

pub cmd_incr-Keeps :
    (d : Decimal) (positive : Bool) (now : ℕ)
    → d.parse (codes "0") ≡ some (pos 0)
    → Keeps now (cmd_incr d positive now)
unfolding cmd_incr
cmd_incr-Keeps d positive now z [] s h = inl refl
cmd_incr-Keeps d positive now z (k ∷ []) s h =
    inr (incr_by-Keeps d k (signed positive (pos 1)) now s z h)
cmd_incr-Keeps d positive now z (k ∷ v ∷ args) s h = inl refl

incr_parsed-Keeps :
    (d : Decimal) (positive : Bool) (key : Bytes) (now : ℕ) (delta : Option ℤ) (s : DataStore)
    → d.parse (codes "0") ≡ some (pos 0)
    → is_error (incr_parsed d positive key now delta s).0 ≡ true
    → Untouched key now s (incr_parsed d positive key now delta s).1
unfolding incr_parsed
incr_parsed-Keeps d positive key now none s z h = inl refl
incr_parsed-Keeps d positive key now (some n) s z h =
    inr (incr_by-Keeps d key (signed positive n) now s z h)

pub cmd_incr_by-Keeps :
    (d : Decimal) (positive : Bool) (now : ℕ)
    → d.parse (codes "0") ≡ some (pos 0)
    → Keeps now (cmd_incr_by d positive now)
unfolding cmd_incr_by
cmd_incr_by-Keeps d positive now z [] s h = inl refl
cmd_incr_by-Keeps d positive now z (k ∷ []) s h = inl refl
cmd_incr_by-Keeps d positive now z (k ∷ v ∷ []) s h =
    incr_parsed-Keeps d positive k now (d.parse v) s z h
cmd_incr_by-Keeps d positive now z (k ∷ v ∷ a ∷ args) s h = inl refl

pub cmd_hset-Keeps : (now : ℕ) → Keeps now (cmd_hset now)
unfolding cmd_hset hset live_or hset_entry
cmd_hset-Keeps now [] s h = inl refl
cmd_hset-Keeps now (k ∷ []) s h = inl refl
cmd_hset-Keeps now (k ∷ f ∷ args) s h = ground arith

pub cmd_hget-Keeps : (now : ℕ) → Keeps now (cmd_hget now)
unfolding cmd_hget hget
cmd_hget-Keeps now [] s h = inl refl
cmd_hget-Keeps now (k ∷ []) s h = inl refl
cmd_hget-Keeps now (k ∷ f ∷ []) s h = inr refl
cmd_hget-Keeps now (k ∷ f ∷ a ∷ args) s h = inl refl

pub cmd_hget_all-Keeps : (now : ℕ) → Keeps now (cmd_hget_all now)
unfolding cmd_hget_all hget_all
cmd_hget_all-Keeps now [] s h = inl refl
cmd_hget_all-Keeps now (k ∷ []) s h = inr refl
cmd_hget_all-Keeps now (k ∷ f ∷ args) s h = inl refl

pub cmd_hdel-Keeps : (now : ℕ) → Keeps now (cmd_hdel now)
unfolding cmd_hdel hdel hdel_entry
cmd_hdel-Keeps now [] s h = inl refl
cmd_hdel-Keeps now (k ∷ []) s h = inl refl
cmd_hdel-Keeps now (k ∷ f ∷ args) s h = ground arith

pub cmd_hexists-Keeps : (now : ℕ) → Keeps now (cmd_hexists now)
unfolding cmd_hexists hexists
cmd_hexists-Keeps now [] s h = inl refl
cmd_hexists-Keeps now (k ∷ []) s h = inl refl
cmd_hexists-Keeps now (k ∷ f ∷ []) s h = inr refl
cmd_hexists-Keeps now (k ∷ f ∷ a ∷ args) s h = inl refl

pub cmd_push-Keeps : (left : Bool) (now : ℕ) → Keeps now (cmd_push left now)
unfolding cmd_push push live_or push_entry
cmd_push-Keeps left now [] s h = inl refl
cmd_push-Keeps left now (k ∷ []) s h = inl refl
cmd_push-Keeps left now (k ∷ v ∷ values) s h = ground arith

pub cmd_lrange-Keeps : (d : Decimal) (now : ℕ) → Keeps now (cmd_lrange d now)
unfolding cmd_lrange lrange
cmd_lrange-Keeps d now [] s h = inl refl
cmd_lrange-Keeps d now (k ∷ []) s h = inl refl
cmd_lrange-Keeps d now (k ∷ a ∷ []) s h = inl refl
cmd_lrange-Keeps d now (k ∷ a ∷ b ∷ []) s h = ground arith
cmd_lrange-Keeps d now (k ∷ a ∷ b ∷ c ∷ args) s h = inl refl
