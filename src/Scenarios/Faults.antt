-- ===== src/Scenarios/Faults.antt =====
-- internal/scenarios/faults.go: the effective fault of a protocol, and the direct faults by name.
use mockly.Base.{
  Bool, true, false, Option, none, some, [], ◌∷◌, Bytes, codes, if◌then◌else◌, text_lt, to_lower,
  Dict, lookup,
}
use mockly.Config.{Scenario}
use mockly.Config.Faults.{
  ProtocolFaults, Protocol, Fault, select, assign, http, graphql, websocket, grpc, tcp, redis, mqtt,
  nats, smtp, snmp, dns, amqp, kafka, ldap, imap, ftp, memcached, stomp, coap, sip,
}
use mockly.Scenarios.{Store}

-- `result` and `winnerID`
abbrev pub Winner : Type 0 → Type 0
Winner T = Option (T × Bytes)

-- One round of the loop: what the scenario `id` has.
unfoldable pub better : {T : Type 0} → Bytes → Option T → Winner T → Winner T
better id none best = best
better id (some f) none = some (f, id)
better id (some f) (some (g, w)) = if text_lt w id then some (f, id) else some (g, w)

-- What the scenario of an active identifier has for a protocol.
unfoldable pub fault_of : (p : Protocol) → Dict Scenario → Bytes → Option (Fault p)
fault_of p scenarios id = elim (lookup id scenarios) [
  | none ↦ none
  | some sc ↦ elim sc.faults [ none ↦ none | some f ↦ select p f ]
]

unfoldable pub winner :
    (p : Protocol) → Dict Scenario → Dict Bool → Winner (Fault p) → Winner (Fault p)
winner p scenarios [] best = best
winner p scenarios ((id, b) ∷ m) best =
    winner p scenarios m (better id (fault_of p scenarios id) best)

unfoldable pub or_direct : (p : Protocol) → ProtocolFaults → Winner (Fault p) → Option (Fault p)
or_direct p direct none = select p direct
or_direct p direct (some (f, id)) = some f

-- `effectiveFault` with the selector of a protocol: the twenty methods `Effective…Fault`. The
-- receiver may be nil.
unfoldable pub effective_fault : (p : Protocol) → Option Store → Option (Fault p)
unfolding winner or_direct
effective_fault p none = none
effective_fault p (some s) = or_direct p s.direct (winner p s.scenarios s.active none)

-- The cases of the four switches on a protocol's name.
abbrev protocol_names : Dict Protocol
protocol_names =
    (codes "http", http)
    ∷ (codes "graphql", graphql)
    ∷ (codes "websocket", websocket)
    ∷ (codes "grpc", grpc)
    ∷ (codes "tcp", tcp)
    ∷ (codes "redis", redis)
    ∷ (codes "mqtt", mqtt)
    ∷ (codes "nats", nats)
    ∷ (codes "smtp", smtp)
    ∷ (codes "snmp", snmp)
    ∷ (codes "dns", dns)
    ∷ (codes "amqp", amqp)
    ∷ (codes "kafka", kafka)
    ∷ (codes "ldap", ldap)
    ∷ (codes "imap", imap)
    ∷ (codes "ftp", ftp)
    ∷ (codes "memcached", memcached)
    ∷ (codes "stomp", stomp)
    ∷ (codes "coap", coap)
    ∷ (codes "sip", sip)
    ∷ []

-- `switch strings.ToLower(protocol)`
unfoldable pub protocol_of : Bytes → Option Protocol
protocol_of name = lookup (to_lower name) protocol_names

-- An `interface{}` that holds a pointer to a fault: nil when there is none.
abbrev pub AnyFault : Type 0
AnyFault = (p : Protocol) × Option (Fault p)

abbrev get_at : Option Protocol → ((p : Protocol) → Option (Fault p)) → Option AnyFault
get_at none f = none
get_at (some p) f = some (p, f p)

-- `none` is the second result false.
unfoldable pub get_direct_protocol_fault : Bytes → Store → Option AnyFault
get_direct_protocol_fault name s = get_at (protocol_of name) (λ p. select p s.direct)

unfoldable pub get_effective_protocol_fault : Bytes → Option Store → Option AnyFault
get_effective_protocol_fault name s = get_at (protocol_of name) (λ p. effective_fault p s)

pub data SetResult : Type 0 where
  done unknown_protocol bad_json : SetResult

-- `json.Unmarshal` into the fault type of a protocol; `none` is its error.
module _ (unmarshal : (p : Protocol) → Bytes → Option (Fault p)) where
  set_decoded : (p : Protocol) → Option (Fault p) → Store → SetResult × Store
  set_decoded p none s = (bad_json, s)
  set_decoded p (some f) s = (done, record s { direct = assign p (some f) s.direct })

  set_at : Option Protocol → Bytes → Store → SetResult × Store
  unfolding set_decoded
  set_at none json s = (unknown_protocol, s)
  set_at (some p) json s = set_decoded p (unmarshal p json) s

  unfoldable pub set_direct_protocol_fault_json : Bytes → Bytes → Store → SetResult × Store
  unfolding set_at
  set_direct_protocol_fault_json name json s = set_at (protocol_of name) json s

clear_at : Option Protocol → Store → Bool × Store
clear_at none s = (false, s)
clear_at (some p) s = (true, record s { direct = assign p none s.direct })

unfoldable pub clear_direct_protocol_fault : Bytes → Store → Bool × Store
unfolding clear_at
clear_direct_protocol_fault name s = clear_at (protocol_of name) s
