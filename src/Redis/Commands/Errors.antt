-- ===== src/Redis/Commands/Errors.antt =====
-- `handleStateful` of internal/protocols/redisserver/command_stateful.go, where it answers an error.
pub mod Handlers
use mockly.Base.{
  ℕ, ◌≡◌, refl, inl, inr, Bool, true, false, Option, none, some, List, [], ◌∷◌, Bytes, codes, Dict,
  lookup, Bool-cases, text_eq, lookup,
}
use mockly.Base.Int.{pos}
use mockly.Redis as Redis
use mockly.Redis.{DataStore, Decimal}
use mockly.Redis.Hashes.{}
use mockly.Redis.Lists.{}
use mockly.Redis.Commands.{
  handle_stateful, run_handler, handlers, cmd_set, cmd_get, cmd_del, cmd_exists, cmd_expire,
  cmd_ttl, cmd_persist, cmd_incr, cmd_incr_by, cmd_append, cmd_hset, cmd_hget, cmd_hget_all,
  cmd_hdel, cmd_hexists, cmd_push, cmd_lrange, cmd_llen,
}
use mockly.Redis.Commands.Answers.{Answer, Done}
use mockly.Redis.Commands.Errors.Handlers.{
  is_error, first_of, Untouched, Keeps, cmd_set-Keeps, cmd_get-Keeps, cmd_llen-Keeps,
  cmd_append-Keeps, cmd_expire-Keeps, cmd_del-Keeps, cmd_exists-Keeps, cmd_ttl-Keeps,
  cmd_persist-Keeps, cmd_incr-Keeps, cmd_incr_by-Keeps, cmd_hset-Keeps, cmd_hget-Keeps,
  cmd_hget_all-Keeps, cmd_hdel-Keeps, cmd_hexists-Keeps, cmd_push-Keeps, cmd_lrange-Keeps,
}

abbrev AllKeep : ℕ → Dict (List Bytes → DataStore → Done) → Type 0
AllKeep now [] = Unit {0}
AllKeep now ((name, handler) ∷ table) = Keeps now handler × AllKeep now table

abbrev Kept : ℕ → Option (List Bytes → DataStore → Done) → Type 0
Kept now none = Unit {0}
Kept now (some handler) = Keeps now handler

lookup-Kept :
    (now : ℕ) (table : Dict (List Bytes → DataStore → Done)) (name : Bytes)
    → AllKeep now table
    → Kept now (lookup name table)
unfolding mockly.Base.lookup
lookup-Kept now [] name all = tt
lookup-Kept now ((other, first) ∷ table) name (keeps, all) =
    elim (Bool-cases (text_eq other name)) [
      | inl e ↦ rw e keeps
      | inr e ↦ rw e (lookup-Kept now table name all)
    ]

handlers-AllKeep :
    (d : Decimal) (clock : ℕ → ℕ)
    → d.parse (codes "0") ≡ some (pos 0)
    → AllKeep (clock 0) (handlers d clock)
unfolding handlers
handlers-AllKeep d clock z =
    let now : ℕ = clock 0 in
    let later : ℕ = clock 1 in
    (
      cmd_set-Keeps d now,
      (
        cmd_get-Keeps now,
        (
          cmd_del-Keeps now clock,
          (
            cmd_exists-Keeps now clock,
            (
              cmd_expire-Keeps d now later,
              (
                cmd_ttl-Keeps now later,
                (
                  cmd_persist-Keeps now,
                  (
                    cmd_incr-Keeps d true now z,
                    (
                      cmd_incr-Keeps d false now z,
                      (
                        cmd_incr_by-Keeps d true now z,
                        (
                          cmd_incr_by-Keeps d false now z,
                          (
                            cmd_append-Keeps now,
                            (
                              cmd_hset-Keeps now,
                              (
                                cmd_hget-Keeps now,
                                (
                                  cmd_hget_all-Keeps now,
                                  (
                                    cmd_hdel-Keeps now,
                                    (
                                      cmd_hexists-Keeps now,
                                      (
                                        cmd_push-Keeps true now,
                                        (
                                          cmd_push-Keeps false now,
                                          (cmd_lrange-Keeps d now, (cmd_llen-Keeps now, tt)),
                                        ),
                                      ),
                                    ),
                                  ),
                                ),
                              ),
                            ),
                          ),
                        ),
                      ),
                    ),
                  ),
                ),
              ),
            ),
          ),
        ),
      ),
    )

-- What is written, if the command is one of the store's.
abbrev pub answer_of : Option Done → Option Answer
answer_of none = none
answer_of (some (a, t)) = a

abbrev pub store_after : DataStore → Option Done → DataStore
store_after s none = s
store_after s (some (a, t)) = t

run_handler-Untouched :
    (now : ℕ) (found : Option (List Bytes → DataStore → Done)) (args : List Bytes) (s : DataStore)
    → Kept now found
    → is_error (answer_of (run_handler found args s)) ≡ true
    → Untouched (first_of args) now s (store_after s (run_handler found args s))
run_handler-Untouched now none args s k h = inl refl
run_handler-Untouched now (some handler) args s k h = k args s h

-- Whatever the command and its arguments, a command that is answered with one of the errors leaves
-- the store as it was, or only without the entry of its key if that had expired. The decimal text 0
-- must be readable, since a counter starts from it.
pub handle_stateful-Untouched :
    (d : Decimal) (clock : ℕ → ℕ) (command : Bytes) (args : List Bytes) (s : DataStore)
    → d.parse (codes "0") ≡ some (pos 0)
    → is_error (answer_of (handle_stateful d clock command args s)) ≡ true
    → Untouched (first_of args) (clock 0) s (store_after s (handle_stateful d clock command args s))
unfolding handle_stateful
handle_stateful-Untouched d clock command args s z h =
    run_handler-Untouched (clock 0) (lookup command (handlers d clock)) args s
      (lookup-Kept (clock 0) (handlers d clock) command (handlers-AllKeep d clock z)) h
