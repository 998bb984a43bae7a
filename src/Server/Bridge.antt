-- ===== src/Server/Bridge.antt =====
-- src/ida_bridge/server.py: requests to the bridge itself, `_handle_list` and `_handle_remote`, and
-- src/ida_bridge/remote.py: the commands that a remote request may not run.
pub mod Lawful
use Prim.Native.Nat.{Ordering}
use Prim.Native.String.{compare, ◌++◌}
use ida_bridge.Common.{
  ℕ, String, Bool, true, false, Option, none, some, List, [], ◌∷◌, ◌==◌, text_key, if◌then◌else◌,
}
use ida_bridge.Common.Int.{ℤ}
use ida_bridge.Common.Dict.{Dict}
use ida_bridge.Protocol.Message.{
  Message, response, Response, Route, ClientInfo, ListKind, kind_ida, kind_all, agent, ida,
  list_payload, remote_payload, remote_request,
}
use ida_bridge.Protocol.Response.{error_for_request}
use ida_bridge.Server.State.{Server, Client, Ownership, owned}
use ida_bridge.Server.Co.{Co, ret, read, done, pause, valid, send_best_effort, ◌>>=◌, ◌>>◌}
use ida_bridge.Server.Policy.{get_ownership}
use ida_bridge.Server.Disconnect.{disconnect}

abbrev pub owner_of : Option Ownership → Option String
owner_of (some (owned session_id expires_at)) = some session_id
owner_of _ = none

abbrev pub client_info : String → Client → Option String → ClientInfo
client_info client_id client session_id = record {
  client_id = client_id;
  role = client.role;
  meta = client.meta;
  session_id = session_id;
}

abbrev include_agent : ListKind → Bool
include_agent kind_ida = false
include_agent kind_all = true

unfoldable pub append_info : ClientInfo → Co (List ClientInfo) → Co (List ClientInfo)
append_info info others = others >>= λ infos. ret (info ∷ infos)

unfoldable pub collect : ListKind → Dict String Client → Co (List ClientInfo)
unfolding get_ownership append_info
collect kind [] = ret []
collect kind ((client_id, client) ∷ rest) =
    let others = collect kind rest in
    elim client.role [
      | ida ↦ do
        ownership ← get_ownership client_id
        append_info (client_info client_id client (owner_of ownership)) others
      | agent ↦
          if include_agent kind
          then append_info (client_info client_id client none) others
          else others
    ]

-- `clients.sort(key=lambda c: c.client_id)`: Python's sort is stable.
abbrev before_or_same : ClientInfo → ClientInfo → Bool
before_or_same a b = elim (compare a.client_id b.client_id) [ Ordering.gt ↦ false | _ ↦ true ]

unfoldable pub insert_client : ClientInfo → List ClientInfo → List ClientInfo
insert_client c [] = c ∷ []
insert_client c (d ∷ rest) =
    let later = d ∷ insert_client c rest in if before_or_same c d then c ∷ d ∷ rest else later

unfoldable pub sort_clients : List ClientInfo → List ClientInfo
unfolding insert_client
sort_clients [] = []
sort_clients (c ∷ rest) = insert_client c (sort_clients rest)

abbrev list_response : ListKind → List ClientInfo → Response
list_response kind clients = record {
  ok = true;
  code = none;
  message = none;
  trace = none;
  payload = list_payload kind (some clients);
}

unfoldable pub handle_list : ℕ → String → Route → ListKind → Co (Unit {0})
unfolding collect sort_clients
handle_list ws agent_id route kind = do
  s ← read (λ s. ret s)
  clients ← collect kind s.clients
  ok ← send_best_effort ws (
      response (record { id = route.id; src = s.bridge_id; dst = agent_id })
        (list_response kind (sort_clients clients)))
  if ok then done else disconnect agent_id

-- `remote.denied_reason`
unfoldable pub denied_reason : List String → Option String
denied_reason [] = none
denied_reason (command ∷ args) =
    if command == "remote"
    then some
        "remote cannot run remote: the command would call this bridge again. Pass the host command after --."
    else if command == "server"
    then some
        "remote cannot run server commands: they manage the bridge serving this request, and `server log` never exits. Run them on the bridge host."
    else none

-- What `remote.run` comes to: the exit code and the two streams of the command, or the class and
-- text of the `OSError` or `ValueError` that starting it raised.
pub data HostResult : Type 0 where
  finished : ℤ → String → String → HostResult
  not_started : String → HostResult

abbrev remote_response : ℤ → String → String → Response
remote_response exit_code stdout stderr = record {
  ok = true;
  code = none;
  message = none;
  trace = none;
  payload = remote_payload (some exit_code) (some stdout) (some stderr);
}

host_answer : String → String → Route → List String → HostResult → Co Message
host_answer bridge_id agent_id route argv (not_started detail) = valid (
    error_for_request route (remote_request argv) "REMOTE_FAILED"
      ("could not run the host CLI: " ++ detail) none)
host_answer bridge_id agent_id route argv (finished exit_code stdout stderr) = ret (
    response (record { id = route.id; src = bridge_id; dst = agent_id })
      (remote_response exit_code stdout stderr))

-- The host's CLI is a program of its own: what it does with the arguments is a parameter.
module _ (host_cli : List String → HostResult) where
  remote_answer : String → String → Route → List String → Co Message
  unfolding host_answer
  remote_answer bridge_id agent_id route argv = elim (denied_reason argv) [
    | some reason ↦
        valid (error_for_request route (remote_request argv) "REMOTE_DENIED" reason none)
    | none ↦ pause (host_answer bridge_id agent_id route argv (host_cli argv))
  ]

  unfoldable pub handle_remote : ℕ → String → Route → List String → Co (Unit {0})
  unfolding remote_answer denied_reason
  handle_remote ws agent_id route argv = do
    s ← read (λ s. ret s)
    payload ← remote_answer s.bridge_id agent_id route argv
    ok ← send_best_effort ws payload
    if ok then done else disconnect agent_id
