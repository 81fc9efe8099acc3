-- ===== src/Config/Http.antt =====
-- The HTTP mocks of internal/config/config.go and internal/config/httpbody.go. A status is a native
-- number. Webhooks and the listener of a mock are not read by the matcher and are left out.
use mockly.Base.{ℕ, Bool, Option, List, Bytes, Dict}
use mockly.Config.Faults.{Duration, Rate, DelayRange, RateLimitFault}

pub record StateCondition : Type 0 where
  pub key : Bytes
  pub value : Bytes

-- The field `Type` is `scheme`.
pub record HttpAuth : Type 0 where
  pub scheme : Bytes
  pub token : Bytes
  pub username : Bytes
  pub password : Bytes
  pub header : Bytes
  pub query : Bytes
  pub value : Bytes

pub record HttpRequest : Type 0 where
  pub method : Bytes
  pub path : Bytes
  pub headers : Dict Bytes
  pub body : Bytes
  pub path_regex : Bytes
  pub query : Dict Bytes
  pub body_json : Dict Bytes
  pub body_form : Dict Bytes
  pub body_multipart : Dict Bytes
  pub body_xml : Dict Bytes
  pub auth : Option HttpAuth

pub record HttpBody : Type 0 where
  pub literal : Bytes
  pub file : Bytes
  pub dir : Bytes
  pub resolved_file : Bytes

pub record HttpStreamEvent : Type 0 where
  pub contents : Bytes
  pub event : Bytes
  pub id : Bytes
  pub delay : Duration

pub record HttpStream : Type 0 where
  pub events : List HttpStreamEvent
  pub keep_open : Bool

pub record HttpResponse : Type 0 where
  pub status : ℕ
  pub headers : Dict Bytes
  pub body : HttpBody
  pub delay : Duration
  pub stream : Option HttpStream

pub record MockFault : Type 0 where
  pub delay : Duration
  pub delay_range : Option DelayRange
  pub status_override : ℕ
  pub body : Bytes
  pub headers : Dict Bytes
  pub error_rate : Rate
  pub rate_limit : Option RateLimitFault

pub record HttpMock : Type 0 where
  pub id : Bytes
  pub listener : Bytes
  pub request : HttpRequest
  pub response : HttpResponse
  pub state : Option StateCondition
  pub sequence : List HttpResponse
  pub sequence_exhausted : Bytes
  pub fault : Option MockFault
