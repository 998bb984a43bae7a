-- ===== src/Server/Hello/Lawful.antt =====
-- The handshake (src/ida_bridge/server.py) keeps the law of the server, whatever runs at its awaits:
-- in particular nobody is registered under the bridge's own name.
use ida_bridge.Common.{ℕ, String, ◌≡◌, false, Option, arith, ◌==◌, text_key, number_key}
use ida_bridge.Common.Dict.{has, get-put, get-pop}
use ida_bridge.Protocol.Json.{Fields}
use ida_bridge.Protocol.Message.{Role, agent, ida}
use ida_bridge.Server.State.{Server, Client}
use ida_bridge.Server.Co.{Co, abort_connection}
use ida_bridge.Server.Co.Within.{
  Within, Always, Within-ret, Within-raise, Within-read, Within-write, Within-send, Within-close,
  Within-if, Within-bind,
}
use ida_bridge.Server.Law.{Lawful, registry_law}
use ida_bridge.Server.Disconnect.{unregister}
use ida_bridge.Server.Disconnect.Lawful.{protocol_fault_with-IsLawful, log_idb_path-IsLawful}
use ida_bridge.Server.Hello.{refuse, register, log_connected, greet, handle_hello}

abbrev pub Returns : {A : Type 0} → Co A → Type 0
Returns c = (s : Server) → Within Lawful Always c s

refuse-Returns :
    (ws : ℕ) (code message : String) (trace : Option Fields)
    → Returns (refuse ws code message trace)
unfolding refuse
refuse-Returns ws code message trace s =
    Within-bind _ _ s (protocol_fault_with-IsLawful _ ws code message trace s)
      (λ _ s' _. Within-raise abort_connection s')

log_connected-Returns : (role : Role) (meta : Fields) → Returns (log_connected role meta)
log_connected-Returns agent meta s = Within-ret tt s tt
log_connected-Returns ida meta s = log_idb_path-IsLawful meta s

register-Lawful :
    (client_id : String) (client : Client) (s : Server)
    → (client_id == s.bridge_id) ≡ false
    → Lawful s (register client_id client s)
register-Lawful client_id client s other =
    registry_law s _ _ s.ping_timeouts
      (λ h. ground (arith, get-put client_id s.bridge_id client s.clients))

unregister-Lawful :
    (client_id : String) (ws : ℕ) (s : Server) → Lawful s (unregister client_id ws s)
unregister-Lawful client_id ws s =
    registry_law s _ _ s.ping_timeouts
      (λ h. ground (arith, get-pop client_id s.bridge_id s.clients))

greet-Within :
    (ws : ℕ) (role : Role) (client_id : String) (meta : Fields) (s : Server)
    → (client_id == s.bridge_id) ≡ false
    → Within Lawful Always (greet ws role client_id meta) s
unfolding greet
greet-Within ws role client_id meta s other =
    Within-write _ _ s (register-Lawful client_id _ s other) (
      Within-bind (log_connected role meta) _ _ (log_connected-Returns role meta _) λ _ s' _.
        Within-read _ s' (
          Within-send _ _ _ s' λ s'' b.
            Within-if b _ _ s'' (λ _. Within-ret _ s'' tt)
              λ _.
                Within-write _ _ s'' (unregister-Lawful client_id ws s'')
                  (Within-close _ _ _ _ _ λ t. Within-raise abort_connection t)))

pub handle_hello-Returns :
    (ws : ℕ) (role : Role) (client_id : String) (meta : Fields)
    → Returns (handle_hello ws role client_id meta)
unfolding handle_hello
handle_hello-Returns ws role client_id meta s = Within-read _ s (
    Within-if (client_id == "") _ _ s (λ _. refuse-Returns ws _ _ _ s)
      λ _.
        Within-if (client_id == s.bridge_id) _ _ s (λ _. refuse-Returns ws _ _ _ s)
          λ other.
            Within-if (has client_id s.clients) _ _ s (λ _. refuse-Returns ws _ _ _ s)
              (λ _. greet-Within ws role client_id meta s other))
