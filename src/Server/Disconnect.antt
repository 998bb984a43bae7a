-- ===== src/Server/Disconnect.antt =====
-- src/ida_bridge/server.py: `_disconnect` and `_protocol_error`.
pub mod Lawful
pub mod Leaves
pub mod Exact
use ida_bridge.Common.{
  ℕ, String, Bool, true, false, not, ◌&&◌, Option, none, some, List, [], ◌∷◌, ◌==◌, text_key,
  number_key, if◌then◌else◌,
}
use ida_bridge.Common.Dict.{Dict, get, put, pop, has}
use ida_bridge.Protocol.Json.{Json, null, bool, int, float, text, arr, obj, Fields, end, field}
use ida_bridge.Protocol.Message.{Message, protocol_error, agent, ida, RequestType}
use ida_bridge.Protocol.Response.{error_response}
use ida_bridge.Server.State.{Server, Client, Pending}
use ida_bridge.Server.Co.{
  Co, ret, raise, read, write, send, close, done, modify, valid, type_error, send_best_effort,
  close_ws, ◌>>=◌, ◌>>◌,
}
use ida_bridge.Server.Ownership.{clear_ownership}

-- The bridge answers a protocol fault with an error message and closes the connection.
-- (The reason is `message[:120]`; every message here is shorter.)
unfoldable pub protocol_fault_with : ℕ → ℕ → String → String → Option Fields → Co (Unit {0})
protocol_fault_with close_code ws code message trace = do
  send_best_effort ws (protocol_error code message trace)
  close_ws ws close_code message

abbrev pub ws_close_protocol_error : ℕ
ws_close_protocol_error = 1002

abbrev pub ws_close_policy_violation : ℕ
ws_close_policy_violation = 1008

abbrev pub protocol_fault : ℕ → String → String → Option Fields → Co (Unit {0})
protocol_fault = protocol_fault_with ws_close_policy_violation

-- meta.get(name)
unfoldable pub meta_get : String → Fields → Option Json
meta_get name end = none
meta_get name (field key value rest) = if key == name then some value else meta_get name rest

-- `os.path.basename(meta.get("idb_path", ""))`, whose value is only logged: it raises a `TypeError`
-- on a value that is no string.
abbrev pub is_path : Option Json → Bool
is_path none = true
is_path (some (text path)) = true
is_path (some _) = false

abbrev pub log_idb_path : Fields → Co (Unit {0})
log_idb_path meta = if is_path (meta_get "idb_path" meta) then done else raise type_error

-- An agent's requests in flight, but for those that carry an ownership transition.
abbrev pub is_dropped_with : String → Pending → Bool
is_dropped_with client_id p =
    p.agent_id == client_id
    && elim p.takeover [ none ↦ true | some t ↦ false ]
    && elim p.release [ none ↦ true | some r ↦ false ]

unfoldable pub drop_requests :
    String → Dict String Pending → Dict String Pending → Dict String Pending
drop_requests client_id [] current = current
drop_requests client_id ((req_id, p) ∷ items) current =
    drop_requests client_id items
      (if is_dropped_with client_id p then pop req_id current else current)

abbrev pub drop_pending : String → Server → Server
drop_pending req_id s = record s { pending = pop req_id s.pending }

-- The error for one pending request of an IDA that is gone.
unfoldable pub fail_request : String → String → String → String → Pending → Co (Unit {0})
fail_request client_id code message req_id p = do
  modify (drop_pending req_id)
  read λ s. elim (get p.agent_id s.clients) [
    | none ↦ done
    | some agent_client ↦ do
      payload ← valid (
          error_response s.bridge_id p.req_type req_id p.agent_id code message
            (some (field "ida_id" (text client_id) end)))
      send_best_effort agent_client.ws payload
      done
  ]

unfoldable pub fail_requests : String → String → String → Dict String Pending → Co (Unit {0})
fail_requests client_id code message [] = done
fail_requests client_id code message ((req_id, p) ∷ items) =
    let rest = fail_requests client_id code message items in
    if p.ida_id == client_id then (fail_request client_id code message req_id p >> rest) else rest

disconnect_ida : String → Client → Bool → Co (Unit {0})
disconnect_ida client_id client ping_timeout = do
  modify (clear_ownership client_id)
  log_idb_path client.meta
  read λ s.
      if ping_timeout
      then fail_requests client_id "TARGET_PING_TIMEOUT" "keepalive ping timeout" s.pending
      else fail_requests client_id "TARGET_DISCONNECTED" "IDA disconnected" s.pending

disconnect_agent : String → Co (Unit {0})
disconnect_agent client_id =
    modify (λ s. record s { pending = drop_requests client_id s.pending s.pending })

abbrev pub unregister : String → ℕ → Server → Server
unregister client_id ws s = record s { clients = pop client_id s.clients; by_ws = pop ws s.by_ws }

unfoldable pub disconnect : String → Co (Unit {0})
unfolding disconnect_ida disconnect_agent fail_requests fail_request drop_requests
disconnect client_id = read λ s. elim (get client_id s.clients) [
  | none ↦ done
  | some client ↦ do
    modify (λ t. record (unregister client_id client.ws t) {
      ping_timeouts = pop client_id t.ping_timeouts;
    })
    elim client.role [
      | agent ↦ disconnect_agent client_id
      | ida ↦ disconnect_ida client_id client (has client_id s.ping_timeouts)
    ]
]

unfoldable pub mark_ping_timeout : String → Server → Server
mark_ping_timeout client_id s = record s { ping_timeouts = put client_id tt s.ping_timeouts }
