-- ===== src/Server/Forward.antt =====
-- src/ida_bridge/server.py: requests on their way to an IDA, `_forward_to_ida` and
-- `_forward_quit_to_ida`.
pub mod Lawful
pub mod Refusals
pub mod Accepts
use ida_bridge.Common.{
  ℕ, ◌+◌, ◌*◌, String, Bool, true, false, Option, none, some, ◌==◌, number_key, text_key,
  if◌then◌else◌,
}
use ida_bridge.Common.Dict.{get, put, pop, has}
use ida_bridge.Protocol.Json.{text, Fields, end, field}
use ida_bridge.Protocol.Message.{
  Message, request, Request, RequestType, quit, Route, agent, ida, request_type, role_name,
  quit_request, exec_request, reset_request,
}
use ida_bridge.Protocol.Response.{error_response}
use ida_bridge.Server.State.{Server, Client, Pending, second}
use ida_bridge.Server.Co.{
  Co, ret, raise, read, write, send, close, done, modify, valid, key_error, send_best_effort, ◌>>=◌,
  ◌>>◌,
}
use ida_bridge.Server.Ownership.{roll_back}
use ida_bridge.Server.Policy.{
  EnvRequest, exec, reset, to_request, ExecEnvPolicy, ForwardReject, apply_exec_env_policy,
}
use ida_bridge.Server.Disconnect.{protocol_fault, disconnect, drop_pending}

-- `self._clients[client_id].ws`
unfoldable pub ws_of : String → Co ℕ
ws_of client_id =
    read
      λ s. elim (get client_id s.clients) [ none ↦ raise key_error | some client ↦ ret client.ws ]

-- The agent is told that its request was refused; an agent that cannot be told is disconnected.
unfoldable pub answer_error :
    String → RequestType → String → String → String → Option Fields → Co (Unit {0})
answer_error agent_id req_type req_id code message trace = read λ s. elim (get agent_id s.clients) [
  | none ↦ done
  | some client ↦ do
    payload ← valid (error_response s.bridge_id req_type req_id agent_id code message trace)
    ok ← send_best_effort client.ws payload
    if ok then done else disconnect agent_id
]

abbrev pub dst_trace : String → Option Fields
dst_trace dst = some (field "dst" (text dst) end)

abbrev role_trace : String → Client → Option Fields
role_trace dst client =
    some (field "dst" (text dst) (field "dst_role" (text (role_name client.role)) end))

invalid_target_role : String → String → Client → Co (Unit {0})
unfolding ws_of
invalid_target_role agent_id dst client = do
  ws ← ws_of agent_id
  protocol_fault ws "INVALID_TARGET_ROLE" "destination must be an ida client"
      (role_trace dst client)

duplicate_request : String → String → Co (Unit {0})
unfolding ws_of
duplicate_request agent_id req_id = do
  ws ← ws_of agent_id
  protocol_fault ws "DUPLICATE_REQUEST_ID" "duplicate request id"
      (some (field "id" (text req_id) end))

abbrev pub timeout_of : Option ℕ → Server → ℕ
timeout_of none s = s.default_timeout_s
timeout_of (some t) s = t

-- 0 means no timeout.
abbrev pub deadline_of : ℕ → Server → Option ℕ
deadline_of t s = if t == 0 then none else some (s.now + t * second)

abbrev pub timeout_s_of : Request → Option ℕ
timeout_s_of (exec_request e) = e.timeout_s
timeout_s_of (reset_request r) = r.timeout_s
timeout_s_of (quit_request t) = t
timeout_s_of _ = none

abbrev pub new_pending : String → Route → Request → ExecEnvPolicy → Server → Pending
new_pending agent_id route req policy s = record {
  agent_id = agent_id;
  ida_id = route.dst;
  req_type = request_type req;
  deadline = deadline_of (timeout_of (timeout_s_of req) s) s;
  timeout_s = timeout_of (timeout_s_of req) s;
  takeover = policy.takeover;
  release = policy.release;
}

unfoldable pub add_pending : String → Pending → Server → Server
add_pending req_id p s = record s { pending = put req_id p s.pending }

-- The request did not reach the IDA: the agent is told, and the IDA is disconnected.
unfoldable pub target_disconnected : String → Route → RequestType → Co (Unit {0})
unfolding answer_error
target_disconnected agent_id route req_type = do
  answer_error agent_id req_type route.id "TARGET_DISCONNECTED" "target disconnected"
      (dst_trace route.dst)
  disconnect route.dst

-- From the entry in `_pending` on, for a request that the policy lets through.
unfoldable pub dispatch : String → Route → Client → ExecEnvPolicy → Co (Unit {0})
unfolding target_disconnected add_pending
dispatch agent_id route dst_client policy = do
  let req = to_request policy.msg
  modify (λ s. add_pending route.id (new_pending agent_id route req policy s) s)
  ok ← send_best_effort dst_client.ws (request route req)
  if ok then done else do
    modify (drop_pending route.id)
    modify (roll_back route.dst policy.takeover policy.release policy.claimed_owner)
    target_disconnected agent_id route (request_type req)

unfoldable pub decided : String → Route → EnvRequest → Client → ExecEnvPolicy → Co (Unit {0})
unfolding dispatch answer_error
decided agent_id route msg dst_client policy = elim policy.reject [
  | some r ↦ answer_error agent_id (request_type (to_request msg)) route.id r.code r.message r.trace
  | none ↦ dispatch agent_id route dst_client policy
]

unfoldable pub forward_to_ida : String → Route → EnvRequest → Co (Unit {0})
unfolding answer_error invalid_target_role duplicate_request decided apply_exec_env_policy
forward_to_ida agent_id route msg = read λ s. elim (get route.dst s.clients) [
  | none ↦
      answer_error agent_id (request_type (to_request msg)) route.id "TARGET_NOT_FOUND"
        "target not found" (dst_trace route.dst)
  | some dst_client ↦ elim dst_client.role [
    | agent ↦ invalid_target_role agent_id route.dst dst_client
    | ida ↦ if has route.id s.pending then duplicate_request agent_id route.id else do
      policy ← apply_exec_env_policy route msg
      decided agent_id route msg dst_client policy
  ]
]

-- A quit request passes by the ownership of its target.
dispatch_quit : String → Route → Client → Option ℕ → Co (Unit {0})
unfolding target_disconnected add_pending
dispatch_quit agent_id route dst_client timeout_s = do
  modify λ s.
      add_pending route.id
        (record {
          agent_id = agent_id;
          ida_id = route.dst;
          req_type = quit;
          deadline = deadline_of (timeout_of timeout_s s) s;
          timeout_s = timeout_of timeout_s s;
          takeover = none;
          release = none;
        })
        s
  ok ← send_best_effort dst_client.ws (request route (quit_request timeout_s))
  if ok then done else do modify (drop_pending route.id); target_disconnected agent_id route quit

unfoldable pub forward_quit_to_ida : String → Route → Option ℕ → Co (Unit {0})
unfolding answer_error invalid_target_role duplicate_request dispatch_quit
forward_quit_to_ida agent_id route timeout_s = read λ s. elim (get route.dst s.clients) [
  | none ↦
      answer_error agent_id quit route.id "TARGET_NOT_FOUND" "target not found"
        (dst_trace route.dst)
  | some dst_client ↦ elim dst_client.role [
    | agent ↦ invalid_target_role agent_id route.dst dst_client
    | ida ↦
        if has route.id s.pending
        then duplicate_request agent_id route.id
        else dispatch_quit agent_id route dst_client timeout_s
  ]
]
