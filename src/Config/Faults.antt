-- ===== src/Config/Faults.antt =====
-- The fault configurations of internal/config/config.go, one type for each protocol.
-- A duration is a signed number of nanoseconds. An error rate r is the integer ⌈r * 2 ^ 53⌉: the
-- program only compares a rate with 0, with 1 and with a random multiple of 2 ^ -53.
-- A field `code` is spelled `status_code` here.
use mockly.Base.{Bool, Option, none, Bytes, Dict}
use mockly.Base.Int.{ℤ}

abbrev pub Duration : Type 0
Duration = ℤ

abbrev pub Rate : Type 0
Rate = ℤ

pub record DelayRange : Type 0 where
  pub min : Duration
  pub max : Duration

pub record RateLimitFault : Type 0 where
  pub requests_per_second : ℤ
  pub over_limit_status : ℤ
  pub body : Bytes

pub record DnsFault : Type 0 where
  pub delay : Duration
  pub rcode : Bytes
  pub error_rate : Rate

pub record GrpcFault : Type 0 where
  pub delay : Duration
  pub status_code : Bytes
  pub message : Bytes
  pub error_rate : Rate

pub record HttpFault : Type 0 where
  pub delay : Duration
  pub delay_range : Option DelayRange
  pub status : ℤ
  pub body : Bytes
  pub headers : Dict Bytes
  pub abort : Bool
  pub truncate_body : ℤ
  pub rate_limit : Option RateLimitFault
  pub error_rate : Rate

pub record WebSocketFault : Type 0 where
  pub delay : Duration
  pub close_code : ℤ
  pub message : Bytes
  pub error_rate : Rate

pub record TcpFault : Type 0 where
  pub delay : Duration
  pub response : Bytes
  pub error_rate : Rate

pub record RedisFault : Type 0 where
  pub delay : Duration
  pub error : Bytes
  pub error_rate : Rate

pub record MqttFault : Type 0 where
  pub delay : Duration
  pub error_rate : Rate

pub record NatsFault : Type 0 where
  pub delay : Duration
  pub error_rate : Rate

pub record SmtpFault : Type 0 where
  pub delay : Duration
  pub status_code : ℤ
  pub message : Bytes
  pub error_rate : Rate

pub record SnmpFault : Type 0 where
  pub delay : Duration
  pub message : Bytes
  pub error_rate : Rate

pub record AmqpFault : Type 0 where
  pub delay : Duration
  pub error_rate : Rate

pub record KafkaFault : Type 0 where
  pub delay : Duration
  pub error_code : ℤ
  pub error_rate : Rate

pub record LdapFault : Type 0 where
  pub delay : Duration
  pub result_code : ℤ
  pub message : Bytes
  pub error_rate : Rate

pub record ImapFault : Type 0 where
  pub delay : Duration
  pub response : Bytes
  pub message : Bytes
  pub error_rate : Rate

pub record FtpFault : Type 0 where
  pub delay : Duration
  pub status_code : ℤ
  pub message : Bytes
  pub error_rate : Rate

pub record MemcachedFault : Type 0 where
  pub delay : Duration
  pub error_type : Bytes
  pub message : Bytes
  pub error_rate : Rate

pub record StompFault : Type 0 where
  pub delay : Duration
  pub message : Bytes
  pub error_rate : Rate

pub record CoapFault : Type 0 where
  pub delay : Duration
  pub status_code : Bytes
  pub error_rate : Rate

pub record SipFault : Type 0 where
  pub delay : Duration
  pub status : ℤ
  pub reason : Bytes
  pub error_rate : Rate

-- The protocols that can be given a fault.
pub data Protocol : Type 0 where
  http graphql websocket grpc tcp redis mqtt nats smtp snmp dns amqp kafka ldap imap ftp memcached
        stomp coap sip :
      Protocol

abbrev pub Fault : Protocol → Type 0
Fault http = HttpFault
Fault graphql = HttpFault
Fault websocket = WebSocketFault
Fault grpc = GrpcFault
Fault tcp = TcpFault
Fault redis = RedisFault
Fault mqtt = MqttFault
Fault nats = NatsFault
Fault smtp = SmtpFault
Fault snmp = SnmpFault
Fault dns = DnsFault
Fault amqp = AmqpFault
Fault kafka = KafkaFault
Fault ldap = LdapFault
Fault imap = ImapFault
Fault ftp = FtpFault
Fault memcached = MemcachedFault
Fault stomp = StompFault
Fault coap = CoapFault
Fault sip = SipFault

-- A nil pointer is `none`.
pub record ProtocolFaults : Type 0 where
  pub http : Option HttpFault
  pub graphql : Option HttpFault
  pub websocket : Option WebSocketFault
  pub grpc : Option GrpcFault
  pub tcp : Option TcpFault
  pub redis : Option RedisFault
  pub mqtt : Option MqttFault
  pub nats : Option NatsFault
  pub smtp : Option SmtpFault
  pub snmp : Option SnmpFault
  pub dns : Option DnsFault
  pub amqp : Option AmqpFault
  pub kafka : Option KafkaFault
  pub ldap : Option LdapFault
  pub imap : Option ImapFault
  pub ftp : Option FtpFault
  pub memcached : Option MemcachedFault
  pub stomp : Option StompFault
  pub coap : Option CoapFault
  pub sip : Option SipFault

abbrev pub no_faults : ProtocolFaults
no_faults = record {
  http = none;
  graphql = none;
  websocket = none;
  grpc = none;
  tcp = none;
  redis = none;
  mqtt = none;
  nats = none;
  smtp = none;
  snmp = none;
  dns = none;
  amqp = none;
  kafka = none;
  ldap = none;
  imap = none;
  ftp = none;
  memcached = none;
  stomp = none;
  coap = none;
  sip = none;
}

-- The field of a protocol: what the selectors of internal/scenarios/faults.go return.
unfoldable pub select : (p : Protocol) → ProtocolFaults → Option (Fault p)
select http f = f.http
select graphql f = f.graphql
select websocket f = f.websocket
select grpc f = f.grpc
select tcp f = f.tcp
select redis f = f.redis
select mqtt f = f.mqtt
select nats f = f.nats
select smtp f = f.smtp
select snmp f = f.snmp
select dns f = f.dns
select amqp f = f.amqp
select kafka f = f.kafka
select ldap f = f.ldap
select imap f = f.imap
select ftp f = f.ftp
select memcached f = f.memcached
select stomp f = f.stomp
select coap f = f.coap
select sip f = f.sip

-- An assignment to the field of a protocol.
unfoldable pub assign : (p : Protocol) → Option (Fault p) → ProtocolFaults → ProtocolFaults
assign http x f = record f { http = x }
assign graphql x f = record f { graphql = x }
assign websocket x f = record f { websocket = x }
assign grpc x f = record f { grpc = x }
assign tcp x f = record f { tcp = x }
assign redis x f = record f { redis = x }
assign mqtt x f = record f { mqtt = x }
assign nats x f = record f { nats = x }
assign smtp x f = record f { smtp = x }
assign snmp x f = record f { snmp = x }
assign dns x f = record f { dns = x }
assign amqp x f = record f { amqp = x }
assign kafka x f = record f { kafka = x }
assign ldap x f = record f { ldap = x }
assign imap x f = record f { imap = x }
assign ftp x f = record f { ftp = x }
assign memcached x f = record f { memcached = x }
assign stomp x f = record f { stomp = x }
assign coap x f = record f { coap = x }
assign sip x f = record f { sip = x }

pub Protocol-discrete : Discrete Protocol
Protocol-discrete = hlevel
