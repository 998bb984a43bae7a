-- ===== src/Conn/Send.antt =====
-- src/ida_bridge/bridge_conn.py: `send`. The length of a message's JSON is a parameter, `none` when
-- pydantic cannot serialize it; so are whether the websocket takes a message, and the texts that a
-- failure is described with.
use ida_bridge.Common.{
  ℕ, String, Bool, true, false, Option, none, some, List, [], ◌∷◌, ltb, if◌then◌else◌,
}
use Prim.Native.String.{◌++◌}
use ida_bridge.Protocol.Message.{Message, Response, Route, response}
use ida_bridge.Protocol.Response.{error_from_response}
use ida_bridge.Conn.State.{Conn, Action, sends, mark_disconnected}

-- What `send` makes of a message before it looks at the websocket: a message to put on it, nothing,
-- or an exception that its caller sees.
pub data Outgoing : Type 0 where
  goes : Message → Outgoing
  dropped : Outgoing
  raises : Outgoing

pub record Codec : Type 0 where
  pub dump : Message → Option ℕ
  pub describe : Message → String
  pub bad_fields : Message → List String
  pub too_large : ℕ → ℕ → String

unfoldable pub join : List String → String
join [] = ""
join (name ∷ []) = name
join (name ∷ next ∷ rest) = name ++ (", " ++ join (next ∷ rest))

unfoldable pub not_serializable_message : Codec → Message → String
unfolding join
not_serializable_message k msg = elim (k.bad_fields msg) [
  | [] ↦ k.describe msg
  | name ∷ rest ↦ "cannot serialize " ++ (join (name ∷ rest) ++ (": " ++ k.describe msg))
]

-- From the test of the length on, for a message that replaces nothing or a response.
unfoldable pub fit : Codec → ℕ → Option (Route × Response) → Message → ℕ → Outgoing
fit k limit origin msg size =
    if ltb limit size
    then elim origin [
      | none ↦ dropped
      | some r ↦ elim (error_from_response r.0 r.1 "RESPONSE_TOO_LARGE" (k.too_large size limit)) [
        | none ↦ raises
        | some error ↦ elim (k.dump error) [ none ↦ raises | some n ↦ goes error ]
      ]
    ]
    else goes msg

unfoldable pub replaced : Codec → ℕ → Route → Response → Outgoing
unfolding fit not_serializable_message
replaced k limit route resp =
    let msg = response route resp in
    elim (error_from_response route resp "RESPONSE_NOT_SERIALIZABLE"
      (not_serializable_message k msg)) [
        | none ↦ dropped
        | some error ↦ elim (k.dump error) [
          | none ↦ dropped
          | some size ↦ fit k limit (some (route, resp)) error size
        ]
      ]

unfoldable pub outgoing : Codec → ℕ → Message → Outgoing
unfolding fit replaced
outgoing k limit (response route resp) = elim (k.dump (response route resp)) [
  | none ↦ replaced k limit route resp
  | some size ↦ fit k limit (some (route, resp)) (response route resp) size
]
outgoing k limit msg = elim (k.dump msg) [ none ↦ dropped | some size ↦ fit k limit none msg size ]

-- The result: the connection, what went out, and whether the caller sees an exception.
pub record Sent : Type 0 where
  pub conn : Conn
  pub actions : List Action
  pub raised : Bool

module _ (k : Codec) (accepts : ℕ → Message → Bool) (now : ℕ) where
  unfoldable pub transmit : Option ℕ → Message → Conn → Sent
  transmit none msg c = record { conn = c; actions = []; raised = false }
  transmit (some ws) msg c =
      if accepts ws msg
      then record { conn = c; actions = sends ws msg ∷ []; raised = false }
      else record { conn = mark_disconnected now c; actions = []; raised = false }

  unfoldable pub put_out : Outgoing → Conn → Sent
  unfolding transmit
  put_out (goes msg) c = transmit c.ws msg c
  put_out dropped c = record { conn = c; actions = []; raised = false }
  put_out raises c = record { conn = c; actions = []; raised = true }

  unfoldable pub send : Message → Conn → Sent
  unfolding outgoing put_out
  send msg c = put_out (outgoing k c.max_message_bytes msg) c
