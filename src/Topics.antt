-- ===== src/Topics.antt =====
-- internal/protocols/mqttserver/server.go and natsserver/server.go: the patterns of topics and
-- subjects, and the mock that answers. A match is the named captures, with no entry for nil.
pub mod Laws
mod Tests
use mockly.Base.{
  ℕ, Bool, true, false, Option, none, some, List, [], ◌∷◌, ◌&&◌, Bytes, codes, Dict, split, text_eq,
  is_nil, if◌then◌else◌,
}
use mockly.Config.Faults.{Duration}
use mockly.Config.Http.{StateCondition}
use mockly.Engine.Path.{is_named, name_of, capture}
use mockly.State.{Store}
use mockly.State.Condition.{condition_holds}

-- The loop over the parts of a pattern, which both functions write alike: `rest` is the part that
-- stands for all that is left, `one` the part that stands for any one.
unfoldable pub match_parts :
    Bytes → Bytes → List Bytes → List Bytes → Dict Bytes → Option (Dict Bytes)
match_parts rest one [] [] params = some params
match_parts rest one [] (s ∷ parts) params = none
match_parts rest one (p ∷ pattern) [] params = if text_eq p rest then some params else none
match_parts rest one (p ∷ pattern) (s ∷ parts) params =
    let plain = match_parts rest one pattern parts params in
    let captured = match_parts rest one pattern parts (capture (name_of p) s params) in
    if text_eq p rest
    then some params
    else if text_eq p one
    then plain
    else if is_named p
    then captured
    else if text_eq p s
    then plain
    else none

unfoldable pub match_mqtt_topic : Bytes → Bytes → Option (Dict Bytes)
unfolding match_parts
match_mqtt_topic filter topic =
    if text_eq filter (codes "#")
    then some []
    else if text_eq filter topic
    then some []
    else match_parts (codes "#") (codes "+") (split b'/' filter) (split b'/' topic) []

unfoldable pub match_nats_subject : Bytes → Bytes → Option (Dict Bytes)
unfolding match_parts
match_nats_subject pattern subject =
    if text_eq pattern subject
    then some []
    else match_parts (codes ">") (codes "*") (split b'.' pattern) (split b'.' subject) []

-- The fields of a mock of either server that choose it; MQTT has no queue groups.
pub record Mock : Type 0 where
  pub id : Bytes
  pub pattern : Bytes
  pub queue_group : Bytes
  pub state : Option StateCondition

-- `matchMock` of the MQTT server.
unfoldable pub match_mqtt_mock : Bytes → ℕ → List Mock → Store → Option (Mock × Dict Bytes) × Store
unfolding match_mqtt_topic
match_mqtt_mock topic now [] s = (none, s)
match_mqtt_mock topic now (m ∷ mocks) s =
    let (ok, t) = condition_holds m.state now s in
    let rest = match_mqtt_mock topic now mocks t in
    if ok
    then (elim (match_mqtt_topic m.pattern topic) [
      | none ↦ rest
      | some params ↦ (some (m, params), t)
    ])
    else rest

-- `matchPlainMock` of the NATS server.
unfoldable pub match_plain_mock : Bytes → ℕ → List Mock → Store → Option (Mock × Dict Bytes) × Store
unfolding match_nats_subject
match_plain_mock subject now [] s = (none, s)
match_plain_mock subject now (m ∷ mocks) s =
    let (ok, t) = condition_holds m.state now s in
    let skipped = match_plain_mock subject now mocks s in
    let rest = match_plain_mock subject now mocks t in
    if is_nil m.queue_group
    then (if ok
        then (elim (match_nats_subject m.pattern subject) [
          | none ↦ rest
          | some params ↦ (some (m, params), t)
        ])
        else rest)
    else skipped
