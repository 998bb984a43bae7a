-- ===== src/Server/Policy.antt =====
-- src/ida_bridge/server.py: `_apply_exec_env_policy`, which decides on each exec or reset request
-- from the ownership of its target.
pub mod Lawful
use ida_bridge.Common.{
  String, Bool, true, false, not, ◌&&◌, Option, none, some, ◌==◌, text_key, if◌then◌else◌,
}
use ida_bridge.Common.Dict.{get}
use ida_bridge.Protocol.Json.{text, Fields, end, field}
use ida_bridge.Protocol.Message.{
  ExecRequest, ResetRequest, Request, exec_request, reset_request, RequestType, Route,
}
use ida_bridge.Server.State.{
  Server, TakeoverPending, ReleasePending, Ownership, owned, takeover_pending, release_pending,
  locked_unknown,
}
use ida_bridge.Server.Co.{Co, ret, raise, read, write, modify, assertion_error, ◌>>=◌, ◌>>◌}
use ida_bridge.Server.Ownership.{
  expire_ownerships, claim_owner, refresh_owner, enter_takeover, enter_release,
}

-- `protocol.ExecRequest | protocol.ResetRequest`
pub data EnvRequest : Type 0 where
  exec : ExecRequest → EnvRequest
  reset : ResetRequest → EnvRequest

abbrev pub to_request : EnvRequest → Request
to_request (exec e) = exec_request e
to_request (reset r) = reset_request r

abbrev pub requested_session : EnvRequest → Option String
requested_session (exec e) = e.session_id
requested_session (reset r) = some r.session_id

-- `isinstance(msg, protocol.ExecRequest) and not msg.persist`
abbrev pub is_stateless : EnvRequest → Bool
is_stateless (exec e) = not e.persist
is_stateless (reset r) = false

abbrev pub is_release_only : EnvRequest → Bool
is_release_only (exec e) = false
is_release_only (reset r) = r.release

abbrev pub is_takeover_request : EnvRequest → Bool
is_takeover_request (exec e) = false
is_takeover_request (reset r) = r.takeover

-- `msg.model_copy(update={"reset_env": …})`, for an exec request only.
abbrev pub with_reset_env : Bool → EnvRequest → EnvRequest
with_reset_env b (exec e) = exec (record e { reset_env = b })
with_reset_env b (reset r) = reset r

pub record ForwardReject : Type 0 where
  pub code : String
  pub message : String
  pub trace : Option Fields

pub record ExecEnvPolicy : Type 0 where
  pub msg : EnvRequest
  pub claimed_owner : Bool
  pub takeover : Option TakeoverPending
  pub release : Option ReleasePending
  pub reject : Option ForwardReject

abbrev pub forward : EnvRequest → ExecEnvPolicy
forward msg = record {
  msg = msg;
  claimed_owner = false;
  takeover = none;
  release = none;
  reject = none;
}

abbrev pub rejection : EnvRequest → String → String → Fields → ExecEnvPolicy
rejection msg code message trace = record {
  msg = msg;
  claimed_owner = false;
  takeover = none;
  release = none;
  reject = some (record { code = code; message = message; trace = some trace });
}

abbrev optional_field : String → Option String → Fields → Fields
optional_field name none rest = rest
optional_field name (some value) rest = field name (text value) rest

abbrev pub trace_with_session : String → EnvRequest → Option String → Fields
trace_with_session dst msg current = field "target_client_id" (text dst) (
    optional_field "current_session_id" current
      (optional_field "requested_session_id" (requested_session msg) end))

abbrev pub other_session_trace : Route → String → String → Fields
other_session_trace route current requested =
    field "target_client_id" (text route.dst) (
      field "current_session_id" (text current) (field "requested_session_id" (text requested) end))

abbrev pub stateful_mode_trace : Route → String → Fields
stateful_mode_trace route current =
    field "target_client_id" (text route.dst) (field "current_session_id" (text current) end)

-- `_get_ownership`
unfoldable pub get_ownership : String → Co (Option Ownership)
get_ownership ida_id = do modify expire_ownerships; read (λ s. ret (get ida_id s.ownership))

unfoldable pub owned_by_other : Route → EnvRequest → String → String → Co ExecEnvPolicy
owned_by_other route msg current session_id =
    if is_takeover_request msg
    then (let takeover : TakeoverPending = record {
      from_session_id = current;
      to_session_id = session_id;
      req_id = route.id;
    } in
        write (enter_takeover route.dst takeover)
          (ret (record (forward msg) { takeover = some takeover })))
    else ret (
        rejection msg "SESSION_CONFLICT" "target exec environment is owned by another session"
          (other_session_trace route current session_id))

unfoldable pub owned_by_same : Route → EnvRequest → String → Co ExecEnvPolicy
owned_by_same route msg session_id =
    if is_release_only msg
    then (let release : ReleasePending = record { session_id = session_id; req_id = route.id } in
        write (enter_release route.dst release)
          (ret (record (forward msg) { release = some release })))
    else write (refresh_owner route.dst session_id) (ret (forward (with_reset_env false msg)))

unfoldable pub unowned : Route → EnvRequest → String → Co ExecEnvPolicy
unowned route msg session_id =
    if is_release_only msg
    then ret (forward msg)
    else write (claim_owner route.dst session_id)
        (ret (record (forward (with_reset_env true msg)) { claimed_owner = true }))

-- Requests of a session: a persistent exec or a reset.
unfoldable pub stateful_policy : Route → EnvRequest → Option Ownership → String → Co ExecEnvPolicy
unfolding owned_by_other owned_by_same unowned
stateful_policy route msg none session_id = unowned route msg session_id
stateful_policy route msg (some (owned current expires_at)) session_id =
    if current == session_id
    then owned_by_same route msg session_id
    else owned_by_other route msg current session_id
stateful_policy route msg (some _) session_id = raise assertion_error

unfoldable pub stateless_policy : Route → EnvRequest → Option Ownership → Co ExecEnvPolicy
stateless_policy route msg none = ret (forward (with_reset_env true msg))
stateless_policy route msg (some (owned current expires_at)) = ret (
    rejection msg "SESSION_CONFLICT" "target exec environment is in stateful mode"
      (stateful_mode_trace route current))
stateless_policy route msg (some _) = raise assertion_error

-- A pending or locked ownership blocks every request; the rest goes by the kind of request.
unfoldable pub policy_for : Route → EnvRequest → Option Ownership → Co ExecEnvPolicy
unfolding stateful_policy stateless_policy
policy_for route msg (some (takeover_pending t)) = ret (
    rejection msg "TAKEOVER_PENDING" "ownership transfer in progress"
      (trace_with_session route.dst msg none))
policy_for route msg (some (release_pending r)) = ret (
    rejection msg "RELEASE_PENDING" "ownership release in progress"
      (trace_with_session route.dst msg (some r.session_id)))
policy_for route msg (some locked_unknown) = ret (
    rejection msg "SESSION_LOCKED" "target exec environment ownership is locked"
      (trace_with_session route.dst msg none))
policy_for route msg ownership =
    if is_stateless msg
    then stateless_policy route msg ownership
    else elim (requested_session msg) [
      | none ↦ raise assertion_error
      | some session_id ↦ stateful_policy route msg ownership session_id
    ]

unfoldable pub apply_exec_env_policy : Route → EnvRequest → Co ExecEnvPolicy
unfolding get_ownership policy_for
apply_exec_env_policy route msg = do
  ownership ← get_ownership route.dst
  policy_for route msg ownership
