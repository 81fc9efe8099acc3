-- ===== src/Redis/Commands/Answers.antt =====
-- What the commands of command_stateful.go write, and the options of SET.
use mockly.Base.{
  ℕ, suc, ◌*◌, Bool, ◌||◌, Option, none, some, List, [], ◌∷◌, Bytes, codes, if◌then◌else◌, text_eq,
  to_upper,
}
use mockly.Base.Int.{ℤ, pos, negsuc, ◌-ℤ◌, wrap64}
use mockly.Redis.{DataStore, Reply, ok, wrong_type, not_integer, Decimal, seconds}

-- What is written to the connection. The three errors are those of `wrongArgsErr`, with the name of
-- the command, and of `writeDataErr`.
pub data Answer : Type 0 where
  wrong_args : Bytes → Answer
  wrong_kind no_integer okay null : Answer
  bulk : Bytes → Answer
  integer : ℤ → Answer
  array : List Bytes → Answer

-- The answer, or `none` for a panic.
abbrev pub Done : Type 0
Done = Option Answer × DataStore

abbrev pub reply : {A : Type 0} → (A → Answer) → Reply A → Answer
reply f (ok a) = f a
reply f wrong_type = wrong_kind
reply f not_integer = no_integer

-- `writeDataErr`, or the result.
abbrev pub answered : {A : Type 0} → (A → Answer) → Reply A × DataStore → Done
answered f (r, s) = (some (reply f r), s)

abbrev pub or_null : Option Bytes → Answer
or_null none = null
or_null (some v) = bulk v

abbrev pub one_or_zero : Bool → Answer
one_or_zero b = integer (pos (if b then 1 else 0))

abbrev pub natural : ℕ → Answer
natural n = integer (pos n)

abbrev pub refused : Answer → DataStore → Done
refused a s = (some a, s)

-- `time.Duration(ms) * time.Millisecond` before it wraps
abbrev pub milliseconds : ℤ → ℤ
milliseconds (pos n) = pos (n * 1000000)
milliseconds (negsuc n) = pos 0 -ℤ pos (suc n * 1000000)

-- What the loop over the options of SET finds.
pub data Options : Type 0 where
  ttl_of : ℤ → Options
  too_few unreadable : Options

-- The loop of `cmdSet`; an option that it does not know is passed over.
unfoldable pub set_options : Decimal → List Bytes → ℤ → Options
set_options d [] t = ttl_of t
set_options d (o ∷ []) t =
    if text_eq (to_upper o) (codes "EX") || text_eq (to_upper o) (codes "PX")
    then too_few
    else ttl_of t
set_options d (o ∷ v ∷ rest) t =
    let unknown = set_options d (v ∷ rest) t in
    let ex : Options = elim (d.parse v) [
      | none ↦ unreadable
      | some n ↦ set_options d rest (wrap64 (seconds n))
    ] in
    let px : Options = elim (d.parse v) [
      | none ↦ unreadable
      | some n ↦ set_options d rest (wrap64 (milliseconds n))
    ] in
    if text_eq (to_upper o) (codes "EX")
    then ex
    else if text_eq (to_upper o) (codes "PX")
    then px
    else unknown
