-- ===== src/Protocol/Message.antt =====
-- src/ida_bridge/protocol.py: message classes. A routed message is a request or a response.
use ida_bridge.Common.{
  ℕ, String, Bool, true, false, Option, none, some, List, not, ◌&&◌, ◌≡◌, refl, ◌⊎◌, inl, inr,
}
use ida_bridge.Common.Int.{ℤ}
use ida_bridge.Protocol.Json.{Json, Fields}

pub data Role : Type 0 where
  agent ida : Role

pub data ListKind : Type 0 where
  kind_ida kind_all : ListKind

-- The `type` of a request, which `response_type` maps to the class of its response.
pub data RequestType : Type 0 where
  list remote exec reset quit : RequestType

pub record Route : Type 0 where
  pub id : String
  pub src : String
  pub dst : String

pub record ExecRequest : Type 0 where
  pub timeout_s : Option ℕ
  pub session_id : Option String
  pub persist : Bool
  pub reset_env : Bool
  pub code : String

pub record ResetRequest : Type 0 where
  pub timeout_s : Option ℕ
  pub session_id : String
  pub takeover : Bool
  pub release : Bool

pub data Request : Type 0 where
  list_request : ListKind → Request
  remote_request : List String → Request
  exec_request : ExecRequest → Request
  reset_request : ResetRequest → Request
  quit_request : Option ℕ → Request

pub record ClientInfo : Type 0 where
  pub client_id : String
  pub role : Role
  pub meta : Fields
  pub session_id : Option String

-- The fields of each response class beyond those of `ResponseBase`.
pub data Payload : Type 0 where
  list_payload : ListKind → Option (List ClientInfo) → Payload
  remote_payload : Option ℤ → Option String → Option String → Payload
  exec_payload : Option Json → Option String → Option String → Option String → Payload
  reset_payload quit_payload : Payload

pub record Response : Type 0 where
  pub ok : Bool
  pub code : Option String
  pub message : Option String
  pub trace : Option Fields
  pub payload : Payload

pub data Message : Type 0 where
  hello : Role → String → Fields → Message
  hello_ack : String → String → ℕ → Fields → Message
  protocol_error : String → String → Option Fields → Message
  request : Route → Request → Message
  response : Route → Response → Message

abbrev pub request_type : Request → RequestType
request_type (list_request k) = list
request_type (remote_request argv) = remote
request_type (exec_request e) = exec
request_type (reset_request r) = reset
request_type (quit_request t) = quit

abbrev pub response_type : Response → RequestType
response_type r = elim r.payload [
  | list_payload kind clients ↦ list
  | remote_payload exit_code stdout stderr ↦ remote
  | exec_payload result stdout stderr traceback ↦ exec
  | reset_payload ↦ reset
  | quit_payload ↦ quit
]

abbrev pub same_type : RequestType → RequestType → Bool
same_type list list = true
same_type remote remote = true
same_type exec exec = true
same_type reset reset = true
same_type quit quit = true
same_type _ _ = false

abbrev pub type_name : RequestType → String
type_name list = "list"
type_name remote = "remote"
type_name exec = "exec"
type_name reset = "reset"
type_name quit = "quit"

abbrev pub response_type_name : RequestType → String
response_type_name list = "list_response"
response_type_name remote = "remote_response"
response_type_name exec = "exec_response"
response_type_name reset = "reset_response"
response_type_name quit = "quit_response"

pub role_cases : (r : Role) → (r ≡ agent) ⊎ (r ≡ ida)
role_cases agent = inl refl
role_cases ida = inr refl

abbrev pub role_name : Role → String
role_name agent = "agent"
role_name ida = "ida"

-- `ExecRequest._validate_stateful_fields` and `ResetRequest._validate_reset_fields`.
unfoldable pub request_is_valid : Request → Bool
request_is_valid (exec_request e) = elim e.session_id [ none ↦ not e.persist | some s ↦ e.persist ]
request_is_valid (reset_request r) = not (r.takeover && r.release)
request_is_valid _ = true
