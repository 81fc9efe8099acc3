-- ===== src/Config.antt =====
-- internal/config/config.go: the records of the configuration that the other components read.
pub mod Faults
pub mod Http
use mockly.Base.{Bool, Option, List, Bytes, Dict}
use mockly.Base.Int.{ℤ}
use mockly.Config.Faults.{Duration, ProtocolFaults}

-- The fields of a mock's response that an active scenario overrides.
pub record MockPatch : Type 0 where
  pub mock_id : Bytes
  pub status : ℤ
  pub headers : Dict Bytes
  pub body : Bytes
  pub delay : Option Duration
  pub disabled : Bool

pub record Scenario : Type 0 where
  pub id : Bytes
  pub name : Bytes
  pub description : Bytes
  pub patches : List MockPatch
  pub faults : Option ProtocolFaults
