-- ===== src/Server/Hello.antt =====
-- src/ida_bridge/server.py: `_handle_hello`.
pub mod Lawful
pub mod Registers
use ida_bridge.Common.{
  ℕ, String, Bool, true, false, Option, none, some, ◌==◌, text_key, number_key, if◌then◌else◌,
}
use ida_bridge.Common.Dict.{get, put, pop, has}
use ida_bridge.Protocol.Json.{text, Fields, end, field}
use ida_bridge.Protocol.Message.{Message, hello_ack, Role, agent, ida}
use ida_bridge.Server.State.{Server, Client}
use ida_bridge.Server.Co.{
  Co, ret, raise, read, write, done, modify, abort_connection, send_best_effort, close_ws, ◌>>=◌,
  ◌>>◌,
}
use ida_bridge.Server.Disconnect.{protocol_fault, log_idb_path, unregister}

refuse : ℕ → String → String → Option Fields → Co (Role × String)
refuse ws code message trace = do protocol_fault ws code message trace; raise abort_connection

abbrev pub id_trace : String → Option Fields
id_trace client_id = some (field "client_id" (text client_id) end)

abbrev pub register : String → Client → Server → Server
register client_id client s = record s {
  clients = put client_id client s.clients;
  by_ws = put client.ws client_id s.by_ws;
}

abbrev log_connected : Role → Fields → Co (Unit {0})
log_connected agent meta = done
log_connected ida meta = log_idb_path meta

abbrev pub ack : String → Server → Message
ack client_id s =
    hello_ack client_id s.bridge_id s.max_message_bytes
      (field "server" (text "ida-bridge") (field "instance_id" (text s.instance_id) end))

unfoldable pub greet : ℕ → Role → String → Fields → Co (Role × String)
greet ws role client_id meta = do
  modify (register client_id (record { ws = ws; role = role; meta = meta }))
  log_connected role meta
  s ← read (λ s. ret s)
  ok ← send_best_effort ws (ack client_id s)
  if ok then ret (role, client_id) else do
    modify (unregister client_id ws)
    close_ws ws 1011 "failed to send hello_ack"
    raise abort_connection

unfoldable pub handle_hello : ℕ → Role → String → Fields → Co (Role × String)
unfolding refuse greet
handle_hello ws role client_id meta = read λ s.
    if client_id == ""
    then refuse ws "INVALID_CLIENT_ID" "client_id must be a non-empty string" none
    else if client_id == s.bridge_id
    then refuse ws "INVALID_CLIENT_ID" "client_id is reserved" (id_trace client_id)
    else if has client_id s.clients
    then refuse ws "DUPLICATE_CLIENT_ID" "duplicate client_id" (id_trace client_id)
    else greet ws role client_id meta
