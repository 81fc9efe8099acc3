-- ===== src/Scenarios/Direct.antt =====
-- The direct faults by a protocol's name, of internal/scenarios/faults.go.
use mockly.Base.{◌≡◌, ◌≢◌, refl, true, Option, none, some, Bytes}
use mockly.Config.Faults.{
  ProtocolFaults, Protocol, Fault, select, assign, http, graphql, websocket, grpc, tcp, redis, mqtt,
  nats, smtp, snmp, dns, amqp, kafka, ldap, imap, ftp, memcached, stomp, coap, sip,
}
use mockly.Scenarios.{Store}
use mockly.Scenarios.Faults.{
  protocol_of, get_direct_protocol_fault, set_direct_protocol_fault_json,
  clear_direct_protocol_fault, done,
}

select-assign_self :
    (p : Protocol) (x : Option (Fault p)) (f : ProtocolFaults) → select p (assign p x f) ≡ x
unfolding select assign
select-assign_self http x f = refl
select-assign_self _ x f = refl

select-assign_ne :
    (p q : Protocol) (x : Option (Fault p)) (f : ProtocolFaults)
    → p ≢ q
    → select q (assign p x f) ≡ select q f
unfolding select assign
select-assign_ne http http x f h = absurd (h refl)
select-assign_ne http _ x f h = refl
select-assign_ne graphql graphql x f h = absurd (h refl)
select-assign_ne graphql _ x f h = refl
select-assign_ne websocket websocket x f h = absurd (h refl)
select-assign_ne websocket _ x f h = refl
select-assign_ne grpc grpc x f h = absurd (h refl)
select-assign_ne grpc _ x f h = refl
select-assign_ne tcp tcp x f h = absurd (h refl)
select-assign_ne tcp _ x f h = refl
select-assign_ne redis redis x f h = absurd (h refl)
select-assign_ne redis _ x f h = refl
select-assign_ne mqtt mqtt x f h = absurd (h refl)
select-assign_ne mqtt _ x f h = refl
select-assign_ne nats nats x f h = absurd (h refl)
select-assign_ne nats _ x f h = refl
select-assign_ne smtp smtp x f h = absurd (h refl)
select-assign_ne smtp _ x f h = refl
select-assign_ne snmp snmp x f h = absurd (h refl)
select-assign_ne snmp _ x f h = refl
select-assign_ne dns dns x f h = absurd (h refl)
select-assign_ne dns _ x f h = refl
select-assign_ne amqp amqp x f h = absurd (h refl)
select-assign_ne amqp _ x f h = refl
select-assign_ne kafka kafka x f h = absurd (h refl)
select-assign_ne kafka _ x f h = refl
select-assign_ne ldap ldap x f h = absurd (h refl)
select-assign_ne ldap _ x f h = refl
select-assign_ne imap imap x f h = absurd (h refl)
select-assign_ne imap _ x f h = refl
select-assign_ne ftp ftp x f h = absurd (h refl)
select-assign_ne ftp _ x f h = refl
select-assign_ne memcached memcached x f h = absurd (h refl)
select-assign_ne memcached _ x f h = refl
select-assign_ne stomp stomp x f h = absurd (h refl)
select-assign_ne stomp _ x f h = refl
select-assign_ne coap coap x f h = absurd (h refl)
select-assign_ne coap _ x f h = refl
select-assign_ne sip sip x f h = absurd (h refl)
select-assign_ne sip _ x f h = refl

module _ (unmarshal : (p : Protocol) → Bytes → Option (Fault p)) where
  -- `SetDirectProtocolFaultJSON` with a known protocol and a body that decodes: under every spelling
  -- of the same protocol `GetDirectProtocolFault` then returns the new fault, and the direct fault of
  -- every other protocol is what it was.
  pub get-set_direct :
      (name spelling json : Bytes) (p : Protocol) (f : Fault p) (s : Store)
      → protocol_of name ≡ some p
      → protocol_of spelling ≡ some p
      → unmarshal p json ≡ some f
      → ((set_direct_protocol_fault_json unmarshal name json s).0 ≡ done)
        × (get_direct_protocol_fault spelling
              (set_direct_protocol_fault_json unmarshal name json s).1
            ≡ some (p, some f))
        × ((q : Protocol)
            → p ≢ q
            → select q (set_direct_protocol_fault_json unmarshal name json s).1.direct
              ≡ select q s.direct)
  unfolding set_direct_protocol_fault_json get_direct_protocol_fault
  get-set_direct name spelling json p f s named spelled decoded = (
    rw (named, decoded),
    rw (named, spelled, decoded, select-assign_self),
    λ q ne. rw (named, decoded) (select-assign_ne p q (some f) s.direct ne),
  )

-- `ClearDirectProtocolFault` with a known protocol: under every spelling of it there is then no
-- direct fault, and the direct fault of every other protocol is what it was.
pub get-clear_direct :
    (name spelling : Bytes) (p : Protocol) (s : Store)
    → protocol_of name ≡ some p
    → protocol_of spelling ≡ some p
    → ((clear_direct_protocol_fault name s).0 ≡ true)
      × (get_direct_protocol_fault spelling (clear_direct_protocol_fault name s).1 ≡ some (p, none))
      × ((q : Protocol)
          → p ≢ q
          → select q (clear_direct_protocol_fault name s).1.direct ≡ select q s.direct)
unfolding clear_direct_protocol_fault get_direct_protocol_fault
get-clear_direct name spelling p s named spelled = (
  rw named,
  rw (named, spelled, select-assign_self),
  λ q ne. rw named (select-assign_ne p q none s.direct ne),
)
