-- ===== src/State/Condition.antt =====
-- internal/protocols/amqpserver/server.go: the test of a mock's state condition, which the loops of
-- `matchMock` of the brokers write alike.
use mockly.Base.{ℕ, Bool, true, Option, none, some, [], Bytes, text_eq}
use mockly.Config.Http.{StateCondition}
use mockly.State.{Store, get}

-- `val, _ := store.Get(key)`: a missing key has the empty value.
unfoldable pub value_or_empty : Option Bytes → Bytes
value_or_empty none = []
value_or_empty (some v) = v

-- `m.State == nil || val == m.State.Value`, and the store, in which `Get` may drop an entry.
unfoldable pub condition_holds : Option StateCondition → ℕ → Store → Bool × Store
unfolding value_or_empty
condition_holds none now s = (true, s)
condition_holds (some cond) now s =
    let (v, t) = get cond.key now s in (text_eq (value_or_empty v) cond.value, t)
