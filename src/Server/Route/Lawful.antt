-- ===== src/Server/Route/Lawful.antt =====
-- The dispatch of a routed message (src/ida_bridge/server.py) keeps the law of the server, whatever runs
-- at its awaits.
use ida_bridge.Common.{ℕ, String, Option, List, ◌==◌, text_key}
use ida_bridge.Protocol.Json.{Fields}
use ida_bridge.Protocol.Message.{
  Role, agent, ida, Route, Request, list_request, remote_request, exec_request, reset_request,
  quit_request, Response, RequestType, list, remote, response_type,
}
use ida_bridge.Server.Co.{Co, ret, ◌>>◌}
use ida_bridge.Server.Co.Within.{Within-ret, Within-read, Within-if, Within-role, Within-bind}
use ida_bridge.Server.Disconnect.Lawful.{IsLawful, protocol_fault_with-IsLawful}
use ida_bridge.Server.Policy
use ida_bridge.Server.Forward.Lawful.{forward_to_ida-IsLawful, forward_quit_to_ida-IsLawful}
use ida_bridge.Server.Reply.Lawful.{forward_to_agent-IsLawful}
use ida_bridge.Server.Hello.Lawful.{Returns}
use ida_bridge.Server.Bridge.{HostResult}
use ida_bridge.Server.Bridge.Lawful.{handle_list-IsLawful, handle_remote-IsLawful}
use ida_bridge.Server.Route.{
  Session, continue, return, stop, unsupported, handle_msg_to_bridge, handle_agent_message,
  typed_ida_message, handle_ida_message, on_request, on_response,
}

pub stop-Returns : (m : Co (Unit {0})) → IsLawful m → Returns (stop m)
stop-Returns m h s = Within-bind m _ s (h s) (λ _ s' _. Within-ret return s' tt)

-- The loop goes on after the message is handled.
going_on-Returns :
    (m : Co (Unit {0})) (session : Session) → IsLawful m → Returns (m >> ret (continue session))
going_on-Returns m session h s = Within-bind m _ s (h s) (λ _ s' _. Within-ret _ s' tt)

pub unsupported-IsLawful :
    (ws : ℕ) (message : String) (trace : Option Fields) → IsLawful (unsupported ws message trace)
unfolding unsupported
unsupported-IsLawful ws message trace = protocol_fault_with-IsLawful _ ws _ message trace

handle_agent_message-IsLawful :
    (ws : ℕ) (client_id : String) (route : Route) (req : Request)
    → IsLawful (handle_agent_message ws client_id route req)
unfolding handle_agent_message
handle_agent_message-IsLawful ws client_id route (exec_request e) =
    forward_to_ida-IsLawful client_id route (Policy.exec e)
handle_agent_message-IsLawful ws client_id route (reset_request r) =
    forward_to_ida-IsLawful client_id route (Policy.reset r)
handle_agent_message-IsLawful ws client_id route (quit_request t) =
    forward_quit_to_ida-IsLawful client_id route t
handle_agent_message-IsLawful ws client_id route _ = unsupported-IsLawful ws _ _

typed_ida_message-IsLawful :
    (t : RequestType) (ws : ℕ) (client_id : String) (route : Route) (resp : Response)
    → IsLawful (typed_ida_message t ws client_id route resp)
unfolding typed_ida_message
typed_ida_message-IsLawful list ws client_id route resp = unsupported-IsLawful ws _ _
typed_ida_message-IsLawful remote ws client_id route resp = unsupported-IsLawful ws _ _
typed_ida_message-IsLawful _ ws client_id route resp =
    forward_to_agent-IsLawful client_id route resp

pub on_response-Returns :
    (ws : ℕ) (role : Role) (client_id : String) (route : Route) (resp : Response)
    → Returns (on_response ws role client_id route resp)
unfolding on_response handle_ida_message
on_response-Returns ws role client_id route resp s = Within-read _ s (
    Within-if (route.dst == s.bridge_id) _ _ s (λ _. stop-Returns _ (unsupported-IsLawful ws _ _) s)
      (λ _.
        Within-role role _ _ s (λ _. stop-Returns _ (unsupported-IsLawful ws _ _) s)
          (λ _.
            going_on-Returns _ _
              (typed_ida_message-IsLawful (response_type resp) ws client_id route resp) s)))

module _ (host_cli : List String → HostResult) where
  handle_msg_to_bridge-IsLawful :
      (ws : ℕ) (client_id : String) (role : Role) (route : Route) (req : Request)
      → IsLawful (handle_msg_to_bridge host_cli ws client_id role route req)
  unfolding handle_msg_to_bridge
  handle_msg_to_bridge-IsLawful ws client_id ida route req = unsupported-IsLawful ws _ _
  handle_msg_to_bridge-IsLawful ws client_id agent route (list_request kind) =
      handle_list-IsLawful ws client_id route kind
  handle_msg_to_bridge-IsLawful ws client_id agent route (remote_request argv) =
      handle_remote-IsLawful host_cli ws client_id route argv
  handle_msg_to_bridge-IsLawful ws client_id agent route _ = unsupported-IsLawful ws _ _

  pub on_request-Returns :
      (ws : ℕ) (role : Role) (client_id : String) (route : Route) (req : Request)
      → Returns (on_request host_cli ws role client_id route req)
  unfolding on_request
  on_request-Returns ws role client_id route req s = Within-read _ s (
      Within-if (route.dst == s.bridge_id) _ _ s
        (λ _. going_on-Returns _ _ (handle_msg_to_bridge-IsLawful ws client_id role route req) s)
        (λ _.
          Within-role role _ _ s
            (λ _. going_on-Returns _ _ (handle_agent_message-IsLawful ws client_id route req) s)
            (λ _. stop-Returns _ (unsupported-IsLawful ws _ _) s)))
