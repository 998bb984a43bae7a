-- ===== src/Agent/Receive.antt =====
-- What an agent (src/ida_bridge/agent_client.py) makes of what it receives for a request.
use ida_bridge.Common.{
  ℕ, ◌≡◌, refl, ap, inl, inr, String, true, Option, none, some, [], ◌∷◌, text_key, ◌==◌, same_iff,
  Bool-cases,
}
use ida_bridge.Protocol.Message.{
  Message, hello, hello_ack, protocol_error, request, response, Route, Request, Response,
  request_type, response_type, same_type,
}
use ida_bridge.Agent.{
  AgentClient, Conn, Fault, connection_closed, exception, cancelled, Incoming, text_frame,
  binary_frame, recv_fault, close, AgentError, bridge_protocol_error, disconnected, propagated,
  returned, raised, Call, disconnect, check_response, request_fault, recv_response, fail, after,
}

-- The client has no connection, and nothing else of it has changed.
abbrev pub Disconnected : AgentClient → AgentClient → Type 0
Disconnected before after = after ≡ record before { conn = none; bridge_id = none }

-- The response in the frame answers the request of this client.
abbrev pub Answers :
    (String → Option Message) → AgentClient → Route → Request → Incoming → Response → Type 0
Answers parse client route req (text_frame s) resp =
    (r : Route) × (parse s ≡ some (response r resp))
    × (same_type (response_type resp) (request_type req) ≡ true)
    × (r.dst ≡ client.client_id)
    × (r.id ≡ route.id)
Answers parse client route req _ resp = ⊥

module _ (parse : String → Option Message) (size : Message → ℕ) (route : Route) (req : Request)
    (client : AgentClient) (conn : Conn) (open_conn : client.conn ≡ some conn) where
  -- After the message has gone out: a response that answers it leaves the client as it is;
  -- anything else disconnects it and closes the websocket.
  abbrev pub Settles : Incoming → Call Response → Type 0
  Settles incoming (returned resp, after, effects) =
      Answers parse client route req incoming resp × (after ≡ client) × (effects ≡ [])
  Settles incoming (raised e, after, effects) =
      Disconnected client after × ((code : Option ℕ) × (effects ≡ close conn.ws code ∷ []))

  disconnect-lem :
      (code : Option ℕ)
      → disconnect code client
        ≡ (record client { conn = none; bridge_id = none }, close conn.ws code ∷ [])
  unfolding disconnect
  disconnect-lem code = rw (open_conn) refl

  pub fail-Settles :
      (incoming : Incoming) (code : Option ℕ) (e : AgentError)
      → Settles incoming (fail {A = Response} code e client)
  fail-Settles incoming code e =
      (ap (λ r. r.0) (disconnect-lem code), (code, ap (λ r. r.1) (disconnect-lem code)))

  check_response-Settles :
      (s : String) (m : Option Message)
      → parse s ≡ m
      → Settles (text_frame s) (check_response parse size route req m client)
  unfolding check_response
  check_response-Settles s none parsed = fail-Settles (text_frame s) _ disconnected
  check_response-Settles s (some (protocol_error code message trace)) parsed =
      fail-Settles (text_frame s) _ (bridge_protocol_error code message)
  check_response-Settles s (some (response r resp)) parsed =
      elim (Bool-cases (same_type (response_type resp) (request_type req))) [
        | inr other ↦ rw (other) (fail-Settles (text_frame s) _ disconnected)
        | inl same ↦ elim (Bool-cases (r.dst == client.client_id)) [
          | inr other ↦ rw (same, other) (fail-Settles (text_frame s) _ disconnected)
          | inl here ↦ elim (Bool-cases (r.id == route.id)) [
            | inr other ↦ rw (same, here, other) (fail-Settles (text_frame s) _ disconnected)
            | inl asked ↦
                rw (same, here, asked)
                  ((r, parsed, same, (same_iff _ _).0 here, (same_iff _ _).0 asked), refl, refl)
          ]
        ]
      ]
  check_response-Settles s (some (hello a b c)) parsed = fail-Settles (text_frame s) _ disconnected
  check_response-Settles s (some (hello_ack a b c d)) parsed =
      fail-Settles (text_frame s) _ disconnected
  check_response-Settles s (some (request a b)) parsed = fail-Settles (text_frame s) _ disconnected

  request_fault-Settles :
      (incoming : Incoming) (f : Fault) → Settles incoming (request_fault parse size f client)
  unfolding request_fault
  request_fault-Settles incoming connection_closed = fail-Settles incoming none disconnected
  request_fault-Settles incoming exception = fail-Settles incoming none (propagated exception)
  request_fault-Settles incoming cancelled = fail-Settles incoming none (propagated cancelled)

  pub recv_response-Settles :
      (incoming : Incoming) → Settles incoming (recv_response parse size route req incoming client)
  unfolding recv_response
  recv_response-Settles (text_frame s) = check_response-Settles s (parse s) refl
  recv_response-Settles binary_frame = fail-Settles binary_frame _ disconnected
  recv_response-Settles (recv_fault f) = request_fault-Settles (recv_fault f) f
