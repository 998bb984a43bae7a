-- ===== src/Server/Bridge/Lawful.antt =====
-- Requests to the bridge itself (src/ida_bridge/server.py) keep the law of the server, whatever runs
-- at their awaits.
use ida_bridge.Common.{ℕ, String, List, [], ◌∷◌}
use ida_bridge.Common.Dict.{Dict}
use ida_bridge.Protocol.Message.{Route, ListKind, ClientInfo}
use ida_bridge.Server.State.{Client}
use ida_bridge.Server.Co.{Co}
use ida_bridge.Server.Co.Within.{
  Within-ret, Within-read, Within-send, Within-pause, Within-if, Within-option, Within-role,
  Within-bind, Within-valid_alone,
}
use ida_bridge.Server.Policy.{get_ownership}
use ida_bridge.Server.Policy.Lawful.{get_ownership-Lawful}
use ida_bridge.Server.Disconnect.Lawful.{IsLawful, done-IsLawful, disconnect-IsLawful}
use ida_bridge.Server.Hello.Lawful.{Returns}
use ida_bridge.Server.Bridge.{
  owner_of, client_info, include_agent, append_info, collect, handle_list, denied_reason,
  HostResult, finished, not_started, host_answer, remote_answer, handle_remote,
}

append_info-Returns :
    (info : ClientInfo) (others : Co (List ClientInfo))
    → Returns others
    → Returns (append_info info others)
unfolding append_info
append_info-Returns info others h s =
    Within-bind others _ s (h s) (λ infos s' _. Within-ret (info ∷ infos) s' tt)

collect-Returns : (kind : ListKind) (items : Dict String Client) → Returns (collect kind items)
unfolding collect
collect-Returns kind [] s = Within-ret [] s tt
collect-Returns kind ((client_id, client) ∷ rest) s =
    let others = collect-Returns kind rest in
    Within-role client.role _ _ s
      (λ _.
        Within-if (include_agent kind) _ _ s (λ _. append_info-Returns _ _ others s)
          (λ _. others s))
      (λ _.
        Within-bind (get_ownership client_id)
          (λ o. append_info (client_info client_id client (owner_of o)) (collect kind rest)) s
          (get_ownership-Lawful client_id s) (λ o s' _. append_info-Returns _ _ others s'))

pub handle_list-IsLawful :
    (ws : ℕ) (agent_id : String) (route : Route) (kind : ListKind)
    → IsLawful (handle_list ws agent_id route kind)
unfolding handle_list
handle_list-IsLawful ws agent_id route kind s = Within-read _ s (
    Within-bind (collect kind s.clients) _ s (collect-Returns kind s.clients s) λ infos s' _.
      Within-send _ _ _ s' λ s'' b.
        Within-if b _ _ s'' (λ _. done-IsLawful s'') (λ _. disconnect-IsLawful agent_id s''))

host_answer-Returns :
    (bridge_id agent_id : String) (route : Route) (argv : List String) (r : HostResult)
    → Returns (host_answer bridge_id agent_id route argv r)
unfolding host_answer
host_answer-Returns bridge_id agent_id route argv (not_started detail) s = Within-valid_alone _ s
host_answer-Returns bridge_id agent_id route argv (finished c o e) s = Within-ret _ s tt

module _ (host_cli : List String → HostResult) where
  remote_answer-Returns :
      (bridge_id agent_id : String) (route : Route) (argv : List String)
      → Returns (remote_answer host_cli bridge_id agent_id route argv)
  unfolding remote_answer
  remote_answer-Returns bridge_id agent_id route argv s =
      Within-option (denied_reason argv) _ _ s
        (λ _. Within-pause _ s (host_answer-Returns bridge_id agent_id route argv (host_cli argv)))
        (λ reason _. Within-valid_alone _ s)

  pub handle_remote-IsLawful :
      (ws : ℕ) (agent_id : String) (route : Route) (argv : List String)
      → IsLawful (handle_remote host_cli ws agent_id route argv)
  unfolding handle_remote
  handle_remote-IsLawful ws agent_id route argv s = Within-read _ s (
      Within-bind (remote_answer host_cli s.bridge_id agent_id route argv) _ s
        (remote_answer-Returns s.bridge_id agent_id route argv s)
        λ payload s' _. Within-send _ _ _ s' λ s'' b.
          Within-if b _ _ s'' (λ _. done-IsLawful s'') (λ _. disconnect-IsLawful agent_id s''))
