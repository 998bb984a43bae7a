-- ===== src/Agent.antt =====
-- src/ida_bridge/agent_client.py: an agent's attachment to the bridge, one request at a time.
pub mod Receive
pub mod Sound
use ida_bridge.Common.{
  ℕ, String, Bool, true, false, not, ◌&&◌, Option, none, some, List, [], ◌∷◌, ltb, text_key, ◌==◌,
  if◌then◌else◌,
}
use ida_bridge.Protocol.Json.{Fields}
use ida_bridge.Protocol.Message.{
  Message, hello, hello_ack, protocol_error, request, response, Role, agent, Route, Request,
  Response, ListKind, ExecRequest, ResetRequest, list_request, exec_request, reset_request,
  quit_request, remote_request, request_type, response_type, same_type,
}

-- `_ConnState`, and the client.
pub record Conn : Type 0 where
  pub ws : ℕ
  pub max_message_bytes : ℕ

pub record AgentClient : Type 0 where
  pub client_id : String
  pub bridge_id : Option String
  pub conn : Option Conn

-- What the websocket library makes of a send and of a receive: the connection may be closed
-- (`ConnectionClosed`), another exception may come, or the task may be cancelled.
pub data Fault : Type 0 where
  connection_closed exception cancelled : Fault

pub data Incoming : Type 0 where
  text_frame : String → Incoming
  binary_frame : Incoming
  recv_fault : Fault → Incoming

pub data Sending : Type 0 where
  sent_whole : Sending
  send_fault : Fault → Sending

-- What a call does to the websocket: a message goes out, or it is closed, with a code or without.
pub data Effect : Type 0 where
  send : Message → Effect
  close : ℕ → Option ℕ → Effect

pub data AgentError : Type 0 where
  not_connected already_connected unreachable : AgentError
  disconnected : AgentError
  bridge_protocol_error : String → String → AgentError
  request_too_large : ℕ → ℕ → AgentError
  session_id_required session_id_unexpected takeover_and_release : AgentError
  propagated : Fault → AgentError

pub data Outcome (A : Type 0) : Type 0 where
  returned : A → Outcome A
  raised : AgentError → Outcome A

-- A call's result, the client afterwards, and the effects in their order.
abbrev pub Call : Type 0 → Type 0
Call A = Outcome A × AgentClient × List Effect

abbrev pub ws_close_protocol_error : ℕ
ws_close_protocol_error = 1002

abbrev pub ws_close_policy_violation : ℕ
ws_close_policy_violation = 1008

-- `_disconnect`
unfoldable pub disconnect : Option ℕ → AgentClient → AgentClient × List Effect
disconnect code client = elim client.conn [
  | none ↦ (record client { conn = none; bridge_id = none }, [])
  | some conn ↦ (record client { conn = none; bridge_id = none }, close conn.ws code ∷ [])
]

-- A call that disconnects and raises.
abbrev pub fail : {A : Type 0} → Option ℕ → AgentError → AgentClient → Call A
fail code e client = (raised e, (disconnect code client).0, (disconnect code client).1)

-- What `pydantic` makes of a text is `parse`, `none` for a ValidationError; `size` is the length of
-- the JSON text of a message.
module _ (parse : String → Option Message) (size : Message → ℕ) where
  -- The message that answers the hello; a failed check closes the websocket with its code, and
  -- the handler of exceptions closes it again.
  unfoldable pub greeted : ℕ → Option Message → AgentClient → Call (Unit {0})
  greeted ws none client =
      (raised disconnected, client, close ws (some ws_close_protocol_error) ∷ close ws none ∷ [])
  greeted ws (some (protocol_error code message trace)) client = (
    raised (bridge_protocol_error code message),
    client,
    close ws (some ws_close_policy_violation) ∷ close ws none ∷ [],
  )
  greeted ws (some (hello_ack client_id bridge_id limit meta)) client =
      if client_id == client.client_id
      then (
        returned tt,
        record client {
          bridge_id = some bridge_id;
          conn = some (record { ws = ws; max_message_bytes = limit });
        },
        [],
      )
      else (
        raised disconnected,
        client,
        close ws (some ws_close_policy_violation) ∷ close ws none ∷ [],
      )
  greeted ws (some _) client =
      (raised disconnected, client, close ws (some ws_close_policy_violation) ∷ close ws none ∷ [])

  -- What the handlers of `connect` do with a fault: a closed connection is reported, another
  -- exception closes the websocket, a cancellation passes them.
  unfoldable pub connect_fault : ℕ → Fault → AgentClient → Call (Unit {0})
  connect_fault ws connection_closed client = (raised disconnected, client, [])
  connect_fault ws exception client = (raised (propagated exception), client, close ws none ∷ [])
  connect_fault ws cancelled client = (raised (propagated cancelled), client, [])

  unfoldable pub receive_hello_ack : ℕ → Incoming → AgentClient → Call (Unit {0})
  unfolding greeted connect_fault
  receive_hello_ack ws (text_frame s) client = greeted ws (parse s) client
  receive_hello_ack ws binary_frame client =
      (raised disconnected, client, close ws (some ws_close_protocol_error) ∷ close ws none ∷ [])
  receive_hello_ack ws (recv_fault f) client = connect_fault ws f client

  -- An effect before those of a call.
  abbrev pub after : {A : Type 0} → Effect → Call A → Call A
  after effect (result, client, effects) = (result, client, effect ∷ effects)

  -- `connect`, where `opened` is the websocket that `websockets.connect` gives, if it does.
  unfoldable pub connect : Option ℕ → Fields → Sending → Incoming → AgentClient → Call (Unit {0})
  unfolding receive_hello_ack connect_fault
  connect opened meta sending incoming client = elim client.conn [
    | some conn ↦ (raised already_connected, client, [])
    | none ↦ elim opened [
      | none ↦ (raised unreachable, client, [])
      | some ws ↦ elim sending [
        | send_fault f ↦ connect_fault ws f client
        | sent_whole ↦
            after (send (hello agent client.client_id meta)) (receive_hello_ack ws incoming client)
      ]
    ]
  ]

  -- The response of a request, checked field by field.
  unfoldable pub check_response : Route → Request → Option Message → AgentClient → Call Response
  check_response route req none client = fail (some ws_close_protocol_error) disconnected client
  check_response route req (some (protocol_error code message trace)) client =
      fail (some ws_close_policy_violation) (bridge_protocol_error code message) client
  check_response route req (some (response r resp)) client =
      if not (same_type (response_type resp) (request_type req))
      then fail (some ws_close_protocol_error) disconnected client
      else if not (r.dst == client.client_id)
      then fail (some ws_close_protocol_error) disconnected client
      else if not (r.id == route.id)
      then fail (some ws_close_protocol_error) disconnected client
      else (returned resp, client, [])
  check_response route req (some _) client = fail (some ws_close_protocol_error) disconnected client

  -- A fault in a request leaves the connection's state unknown: the client disconnects.
  unfoldable pub request_fault : Fault → AgentClient → Call Response
  request_fault connection_closed client = fail none disconnected client
  request_fault exception client = fail none (propagated exception) client
  request_fault cancelled client = fail none (propagated cancelled) client

  -- `_recv_response`
  unfoldable pub recv_response : Route → Request → Incoming → AgentClient → Call Response
  unfolding check_response request_fault
  recv_response route req (text_frame s) client = check_response route req (parse s) client
  recv_response route req binary_frame client =
      fail (some ws_close_protocol_error) disconnected client
  recv_response route req (recv_fault f) client = request_fault f client

  -- `_request`
  unfoldable pub call : Route → Request → Sending → Incoming → AgentClient → Call Response
  unfolding recv_response request_fault
  call route req sending incoming client = elim client.conn [
    | none ↦ (raised not_connected, client, [])
    | some conn ↦
        let bytes = size (request route req) in
        if ltb conn.max_message_bytes bytes
        then (raised (request_too_large bytes conn.max_message_bytes), client, [])
        else elim sending [
          | send_fault f ↦ request_fault f client
          | sent_whole ↦ after (send (request route req)) (recv_response route req incoming client)
        ]
  ]

  -- The requests, with the id that `new_req_id` gives.
  abbrev pub route_to : String → AgentClient → String → Route
  route_to id client dst = record { id = id; src = client.client_id; dst = dst }

  unfoldable pub list : String → ListKind → Sending → Incoming → AgentClient → Call Response
  unfolding call
  list id kind sending incoming client = elim client.bridge_id [
    | none ↦ (raised not_connected, client, [])
    | some bridge ↦ call (route_to id client bridge) (list_request kind) sending incoming client
  ]

  unfoldable pub remote : String → List String → Sending → Incoming → AgentClient → Call Response
  unfolding call
  remote id argv sending incoming client = elim client.bridge_id [
    | none ↦ (raised not_connected, client, [])
    | some bridge ↦ call (route_to id client bridge) (remote_request argv) sending incoming client
  ]

  unfoldable pub exec :
      String
      → String
      → String
      → Option String
      → Bool
      → Option ℕ
      → Sending
      → Incoming
      → AgentClient
      → Call Response
  unfolding call
  exec id dst code none true timeout_s sending incoming client =
      (raised session_id_required, client, [])
  exec id dst code (some session) false timeout_s sending incoming client =
      (raised session_id_unexpected, client, [])
  exec id dst code session_id persist timeout_s sending incoming client =
      call (route_to id client dst)
        (exec_request (record {
          timeout_s = timeout_s;
          session_id = session_id;
          persist = persist;
          reset_env = true;
          code = code;
        }))
        sending incoming client

  unfoldable pub reset :
      String
      → String
      → String
      → Bool
      → Bool
      → Option ℕ
      → Sending
      → Incoming
      → AgentClient
      → Call Response
  unfolding call
  reset id dst session takeover release timeout_s sending incoming client =
      if takeover && release
      then (raised takeover_and_release, client, [])
      else call (route_to id client dst)
          (reset_request (record {
            timeout_s = timeout_s;
            session_id = session;
            takeover = takeover;
            release = release;
          }))
          sending incoming client

  unfoldable pub quit :
      String → String → Option ℕ → Sending → Incoming → AgentClient → Call Response
  unfolding call
  quit id dst timeout_s sending incoming client =
      call (route_to id client dst) (quit_request timeout_s) sending incoming client
