-- ===== src/Server/Route.antt =====
-- src/ida_bridge/server.py: the dispatch of a routed message by its destination and by the role of its
-- sender, `_handle_msg_to_bridge`, `_handle_agent_message`, `_handle_ida_message` and the part of
-- `handler` that chooses between them.
pub mod Lawful
use ida_bridge.Common.{
  ℕ, String, Bool, true, false, Option, none, some, List, ◌==◌, text_key, if◌then◌else◌,
}
use ida_bridge.Protocol.Json.{text, Fields, end, field}
use ida_bridge.Protocol.Message.{
  Role, agent, ida, Route, Request, list_request, remote_request, exec_request, reset_request,
  quit_request, Response, RequestType, list, remote, request_type, response_type, type_name,
  response_type_name, role_name,
}
use ida_bridge.Server.Co.{Co, ret, read, ◌>>=◌, ◌>>◌}
use ida_bridge.Server.Policy
use ida_bridge.Server.Disconnect.{protocol_fault}
use ida_bridge.Server.Forward.{forward_to_ida, forward_quit_to_ida}
use ida_bridge.Server.Reply.{forward_to_agent}
use ida_bridge.Server.Bridge.{HostResult, handle_list, handle_remote}

-- `client_role` and `client_id`: none before the handshake.
abbrev pub Session : Type 0
Session = Option (Role × String)

-- The next iteration of the loop, with the handler's variables, or its `return`.
pub data Next : Type 0 where
  continue : Session → Next
  return : Next

abbrev pub stop : Co (Unit {0}) → Co Next
stop m = m >> ret return

unfoldable pub type_trace : String → Option Fields
type_trace name = some (field "type" (text name) end)

role_type_trace : Role → String → Option Fields
role_type_trace role name =
    some (field "role" (text (role_name role)) (field "type" (text name) end))

unfoldable pub unsupported : ℕ → String → Option Fields → Co (Unit {0})
unsupported ws message trace = protocol_fault ws "UNSUPPORTED_MESSAGE" message trace

handle_agent_message : ℕ → String → Route → Request → Co (Unit {0})
unfolding unsupported role_type_trace
handle_agent_message ws client_id route (exec_request e) =
    forward_to_ida client_id route (Policy.exec e)
handle_agent_message ws client_id route (reset_request r) =
    forward_to_ida client_id route (Policy.reset r)
handle_agent_message ws client_id route (quit_request t) = forward_quit_to_ida client_id route t
handle_agent_message ws client_id route req =
    unsupported ws "unsupported message type for role"
      (role_type_trace agent (type_name (request_type req)))

-- By the type of the response.
typed_ida_message : RequestType → ℕ → String → Route → Response → Co (Unit {0})
unfolding unsupported role_type_trace
typed_ida_message list ws client_id route resp =
    unsupported ws "unsupported message type for role" (role_type_trace ida "list_response")
typed_ida_message remote ws client_id route resp =
    unsupported ws "unsupported message type for role" (role_type_trace ida "remote_response")
typed_ida_message _ ws client_id route resp = forward_to_agent client_id route resp

handle_ida_message : ℕ → String → Route → Response → Co (Unit {0})
unfolding typed_ida_message
handle_ida_message ws client_id route resp =
    typed_ida_message (response_type resp) ws client_id route resp

unfoldable pub on_response : ℕ → Role → String → Route → Response → Co Next
unfolding handle_ida_message unsupported type_trace
on_response ws role client_id route resp = read λ s.
    if route.dst == s.bridge_id
    then stop (
        unsupported ws "unsupported message to bridge"
          (type_trace (response_type_name (response_type resp))))
    else elim role [
      | agent ↦ stop (
          unsupported ws "agents may only send requests"
            (type_trace (response_type_name (response_type resp))))
      | ida ↦ (handle_ida_message ws client_id route resp >> ret (continue (some (ida, client_id))))
    ]

module _ (host_cli : List String → HostResult) where
  handle_msg_to_bridge : ℕ → String → Role → Route → Request → Co (Unit {0})
  unfolding unsupported role_type_trace type_trace
  handle_msg_to_bridge ws client_id ida route req =
      unsupported ws "only agents may send messages to bridge"
        (role_type_trace ida (type_name (request_type req)))
  handle_msg_to_bridge ws client_id agent route (list_request kind) =
      handle_list ws client_id route kind
  handle_msg_to_bridge ws client_id agent route (remote_request argv) =
      handle_remote host_cli ws client_id route argv
  handle_msg_to_bridge ws client_id agent route req =
      unsupported ws "unsupported message to bridge" (type_trace (type_name (request_type req)))

  -- A request after the handshake, and a response.
  unfoldable pub on_request : ℕ → Role → String → Route → Request → Co Next
  unfolding handle_msg_to_bridge handle_agent_message unsupported type_trace
  on_request ws role client_id route req = read λ s.
      if route.dst == s.bridge_id
      then (handle_msg_to_bridge ws client_id role route req
          >> ret (continue (some (role, client_id))))
      else elim role [
        | agent ↦
            (handle_agent_message ws client_id route req
              >> ret (continue (some (agent, client_id))))
        | ida ↦ stop (
            unsupported ws "ida clients may only send responses"
              (type_trace (type_name (request_type req))))
      ]
