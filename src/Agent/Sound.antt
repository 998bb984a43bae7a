-- ===== src/Agent/Sound.antt =====
-- What a request of an agent (src/ida_bridge/agent_client.py) gives, on every way out.
use ida_bridge.Common.{
  ℕ, ◌≡◌, ◌⊎◌, String, true, false, Option, none, some, List, [], ◌∷◌, ltb, text_key, if◌then◌else◌,
}
use ida_bridge.Protocol.Message.{Message, request, Route, Request, Response}
use ida_bridge.Agent.{
  AgentClient, Conn, Incoming, Sending, sent_whole, send_fault, Effect, send, close, not_connected,
  request_too_large, returned, raised, Call, request_fault, recv_response, after,
}
use ida_bridge.Agent.Receive.{Disconnected, Answers}

-- What goes out before a receive.
abbrev pub sent : Sending → Message → List Effect → List Effect
sent sent_whole m effects = send m ∷ effects
sent (send_fault f) m effects = effects

-- Every way out of `_request`: the connection is not open, or the message is over its limit, and
-- nothing has happened; or the message went out, and the response answers it and the client is as
-- before; or an error is raised, the client is disconnected and the websocket closed.
abbrev pub Settled :
    (String → Option Message)
    → (Message → ℕ)
    → Route
    → Request
    → Sending
    → Incoming
    → AgentClient
    → Call Response
    → Type 0
Settled parse size route req sending incoming client (returned resp, after, effects) =
    (conn : Conn) × (client.conn ≡ some conn)
    × (ltb conn.max_message_bytes (size (request route req)) ≡ false)
    × (sending ≡ sent_whole)
    × Answers parse client route req incoming resp
    × (after ≡ client)
    × (effects ≡ send (request route req) ∷ [])
Settled parse size route req sending incoming client (raised e, after, effects) =
    ((client.conn ≡ none) × (e ≡ not_connected) × (after ≡ client) × (effects ≡ []))
    ⊎ ((conn : Conn) × (client.conn ≡ some conn)
        × (((ltb conn.max_message_bytes (size (request route req)) ≡ true)
              × (e ≡ request_too_large (size (request route req)) conn.max_message_bytes)
              × (after ≡ client)
              × (effects ≡ []))
            ⊎ ((ltb conn.max_message_bytes (size (request route req)) ≡ false)
                × Disconnected client after
                × ((code : Option ℕ) × (effects
                      ≡ sent sending (request route req) (close conn.ws code ∷ []))))))

module _ (parse : String → Option Message) (size : Message → ℕ) (route : Route) (req : Request)
    (client : AgentClient) where
  abbrev attempt : Conn → Sending → Incoming → Call Response
  attempt conn sending incoming =
      let bytes = size (request route req) in
      if ltb conn.max_message_bytes bytes
      then (raised (request_too_large bytes conn.max_message_bytes), client, [])
      else elim sending [
        | send_fault f ↦ request_fault parse size f client
        | sent_whole ↦
            after parse size (send (request route req))
              (recv_response parse size route req incoming client)
      ]
