-- ===== src/Server/Reply.antt =====
-- src/ida_bridge/server.py: responses on their way back, `_forward_to_agent`.
pub mod Lawful
pub mod Settles
use ida_bridge.Common.{
  String, Bool, true, false, not, ◌&&◌, Option, none, some, ◌==◌, text_key, if◌then◌else◌,
}
use ida_bridge.Common.Dict.{get, pop}
use ida_bridge.Protocol.Json.{text, obj, Fields, end, field}
use ida_bridge.Protocol.Message.{
  Message, response, Response, RequestType, Route, agent, ida, response_type, response_type_name,
  same_type, role_name,
}
use ida_bridge.Server.State.{Server, Client, Pending}
use ida_bridge.Server.Co.{Co, ret, raise, read, write, done, modify, send_best_effort, ◌>>=◌, ◌>>◌}
use ida_bridge.Server.Ownership.{lock_unknown, commit}
use ida_bridge.Server.Disconnect.{protocol_fault, disconnect, drop_pending}
use ida_bridge.Server.Forward.{ws_of}

abbrev parties : String → String → RequestType → Fields
parties ida_id agent_id t =
    field "ida_id" (text ida_id)
      (field "agent_id" (text agent_id) (field "response_type" (text (response_type_name t)) end))

abbrev pub mismatch_trace : String → Route → Response → Pending → Fields
mismatch_trace ida_id route resp p = field "id" (text route.id) (
    field "expected" (obj (parties p.ida_id p.agent_id p.req_type))
      (field "got" (obj (parties ida_id route.dst (response_type resp))) end))

-- Strict correlation: the sender, the destination and the type of the response.
abbrev pub matches : String → Route → Response → Pending → Bool
matches ida_id route resp p =
    p.ida_id == ida_id && p.agent_id == route.dst && same_type (response_type resp) p.req_type

mismatch : String → Route → Response → Pending → Co (Unit {0})
unfolding ws_of
mismatch ida_id route resp p = do
  modify (lock_unknown p.ida_id p.takeover p.release)
  ws ← ws_of ida_id
  protocol_fault ws "RESPONSE_MISMATCH" "response does not match pending request"
      (some (mismatch_trace ida_id route resp p))

deliver : String → Route → Response → Co (Unit {0})
unfolding ws_of
deliver ida_id route resp = read λ s. elim (get route.dst s.clients) [
  | none ↦ done
  | some client ↦ elim client.role [
    | ida ↦ do
      ws ← ws_of ida_id
      protocol_fault ws "INVALID_MESSAGE" "destination must be an agent client" (
          some (field "dst" (text route.dst) (field "dst_role" (text (role_name client.role)) end)))
    | agent ↦ do
      ok ← send_best_effort client.ws (response route resp)
      if ok then done else disconnect route.dst
  ]
]

-- The ownership transition of the request is applied before the response is delivered.
accept : String → Route → Response → Pending → Co (Unit {0})
unfolding deliver
accept ida_id route resp p = do
  modify (commit p.ida_id p.takeover p.release resp.ok)
  deliver ida_id route resp

unfoldable pub forward_to_agent : String → Route → Response → Co (Unit {0})
unfolding mismatch accept
forward_to_agent ida_id route resp = read λ s. elim (get route.id s.pending) [
  | none ↦ done
  | some p ↦ do
    modify (drop_pending route.id)
    if matches ida_id route resp p then accept ida_id route resp p else mismatch ida_id route resp p
]
