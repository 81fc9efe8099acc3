-- ===== src/Amqp/Config.antt =====
-- internal/config/config.go: the configuration of the AMQP broker.
use mockly.Base.{Option, List, Bytes}
use mockly.Config.Faults.{Duration}
use mockly.Config.Http.{StateCondition}

pub record Exchange : Type 0 where
  pub name : Bytes
  pub type : Bytes

pub record Binding : Type 0 where
  pub exchange : Bytes
  pub routing_key_pattern : Bytes
  pub queue : Bytes

pub record Response : Type 0 where
  pub exchange : Bytes
  pub routing_key : Bytes
  pub body : Bytes

pub record Mock : Type 0 where
  pub id : Bytes
  pub exchange : Bytes
  pub routing_key : Bytes
  pub queue : Bytes
  pub response : Option Response
  pub delay : Duration
  pub state : Option StateCondition

pub record Config : Type 0 where
  pub exchanges : List Exchange
  pub bindings : List Binding
