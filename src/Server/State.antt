-- ===== src/Server/State.antt =====
-- src/ida_bridge/server.py: the server object and the records that it keeps. Times are those of
-- the event loop's clock, in milliseconds; a `ServerConnection` is known by a number.
use ida_bridge.Common.{ℕ, String, Option}
use ida_bridge.Common.Dict.{Dict}
use ida_bridge.Protocol.Json.{Fields}
use ida_bridge.Protocol.Message.{Role, RequestType}

pub record Client : Type 0 where
  pub ws : ℕ
  pub role : Role
  pub meta : Fields

pub record TakeoverPending : Type 0 where
  pub from_session_id : String
  pub to_session_id : String
  pub req_id : String

pub record ReleasePending : Type 0 where
  pub session_id : String
  pub req_id : String

pub data Ownership : Type 0 where
  owned : String → ℕ → Ownership
  takeover_pending : TakeoverPending → Ownership
  release_pending : ReleasePending → Ownership
  locked_unknown : Ownership

pub record Pending : Type 0 where
  pub agent_id : String
  pub ida_id : String
  pub req_type : RequestType
  pub deadline : Option ℕ
  pub timeout_s : ℕ
  pub takeover : Option TakeoverPending
  pub release : Option ReleasePending

-- What `__init__` fixes.
pub record Config : Type 0 where
  pub bridge_id : String
  pub default_timeout_s : ℕ
  pub stateful_ttl : ℕ
  pub instance_id : String
  pub max_message_bytes : ℕ

pub record Server : Type 0 where
  pub config : Config
  pub open config use *
  pub now : ℕ
  pub clients : Dict String Client
  pub by_ws : Dict ℕ String
  pub pending : Dict String Pending
  pub ownership : Dict String Ownership
  pub ping_timeouts : Dict String (Unit {0})

abbrev pub second : ℕ
second = 1000
