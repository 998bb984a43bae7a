-- ===== src/Server/Disconnect/Lawful.antt =====
-- `_disconnect` and `_protocol_error` (src/ida_bridge/server.py) keep the law of the server, whatever
-- runs at their awaits.
use ida_bridge.Common.{
  ℕ, String, ◌≡◌, Bool, true, false, Option, some, [], ◌∷◌, inl, arith, ◌==◌, text_key, number_key,
  if◌then◌else◌,
}
use ida_bridge.Common.Dict.{Dict, get, pop, get-pop, IsUnique, pop-IsUnique, has}
use ida_bridge.Protocol.Json.{Fields}
use ida_bridge.Server.State.{Server, Client, Pending}
use ida_bridge.Server.Co.{Co, done, modify, type_error, ◌>>◌}
use ida_bridge.Server.Co.Within.{
  Within, Always, Within-ret, Within-raise, Within-read, Within-write, Within-send, Within-close,
  Within-if, Within-option, Within-role, Within-bind, Within-valid,
}
use ida_bridge.Server.Law.{Lawful, ownership_law, pending_law, registry_law}
use ida_bridge.Server.Ownership.Moves.{clear_ownership-Moves}
use ida_bridge.Server.Ownership.Frame.{clear_ownership-Only}
use ida_bridge.Server.Disconnect.{
  protocol_fault_with, is_dropped_with, drop_requests, drop_pending, fail_request, fail_requests,
  disconnect_ida, disconnect_agent, disconnect, log_idb_path, meta_get, is_path,
}

abbrev pub IsLawful : Co (Unit {0}) → Type 0
IsLawful c = (s : Server) → Within Lawful Always c s

pub done-IsLawful : IsLawful done
done-IsLawful s = Within-ret tt s tt

-- A write, and the rest after it.
pub modify-then :
    (g : Server → Server) (c : Co (Unit {0}))
    → ((s : Server) → Lawful s (g s))
    → IsLawful c
    → IsLawful (modify g >> c)
modify-then g c h k s = Within-write g c s (h s) (k (g s))

pub then-IsLawful : (m c : Co (Unit {0})) → IsLawful m → IsLawful c → IsLawful (m >> c)
then-IsLawful m c h k s = Within-bind m (λ _. c) s (h s) (λ _ s' _. k s')

pub protocol_fault_with-IsLawful :
    (close_code ws : ℕ) (code message : String) (trace : Option Fields)
    → IsLawful (protocol_fault_with close_code ws code message trace)
unfolding protocol_fault_with
protocol_fault_with-IsLawful close_code ws code message trace s =
    Within-send _ _ _ s λ s' b. Within-close _ _ _ _ s' λ s''. done-IsLawful s''

pub drop_pending-Lawful : (req_id : String) (s : Server) → Lawful s (drop_pending req_id s)
drop_pending-Lawful req_id s =
    pending_law s (pop req_id s.pending) (λ j p e. inl (ground (arith, get-pop req_id j s.pending)))
      (pop-IsUnique req_id s.pending)

fail_request-IsLawful :
    (client_id code message req_id : String) (p : Pending)
    → IsLawful (fail_request client_id code message req_id p)
unfolding fail_request
fail_request-IsLawful client_id code message req_id p =
    modify-then _ _ (drop_pending-Lawful req_id) λ s. Within-read _ s (
      Within-option (get p.agent_id s.clients) _ _ s (λ _. done-IsLawful s)
        λ client _. Within-valid _ _ s λ payload. Within-send _ _ _ s λ s' b. done-IsLawful s')

fail_requests-IsLawful :
    (client_id code message : String) (items : Dict String Pending)
    → IsLawful (fail_requests client_id code message items)
unfolding fail_requests
fail_requests-IsLawful client_id code message [] s = done-IsLawful s
fail_requests-IsLawful client_id code message ((req_id, p) ∷ items) s =
    let rest = fail_requests-IsLawful client_id code message items in
    Within-if (p.ida_id == client_id) _ _ s
      (λ _. then-IsLawful _ _ (fail_request-IsLawful client_id code message req_id p) rest s)
      (λ _. rest s)

pub log_idb_path-IsLawful : (meta : Fields) → IsLawful (log_idb_path meta)
log_idb_path-IsLawful meta s =
    Within-if (is_path (meta_get "idb_path" meta)) _ _ s (λ _. done-IsLawful s)
      (λ _. Within-raise type_error s)

disconnect_ida-IsLawful :
    (client_id : String) (client : Client) (ping_timeout : Bool)
    → IsLawful (disconnect_ida client_id client ping_timeout)
unfolding disconnect_ida
disconnect_ida-IsLawful client_id client ping_timeout =
    modify-then _ _
      (λ s.
        ownership_law _ _ (clear_ownership-Only client_id s) (clear_ownership-Moves client_id s))
      (then-IsLawful (log_idb_path client.meta) _ (log_idb_path-IsLawful client.meta) λ s.
        Within-read _ s (
          Within-if ping_timeout _ _ s (λ _. fail_requests-IsLawful client_id _ _ s.pending s)
            (λ _. fail_requests-IsLawful client_id _ _ s.pending s)))

-- Dropping requests from the dictionary adds none.
drop_requests-from :
    (client_id : String) (items current : Dict String Pending) (j : String) (p : Pending)
    → get j (drop_requests client_id items current) ≡ some p
    → get j current ≡ some p
unfolding drop_requests
drop_requests-from client_id [] current j p e = e
drop_requests-from client_id ((k, q) ∷ items) current j p e = ground (
  arith,
  drop_requests-from client_id items
      (if is_dropped_with client_id q then pop k current else current) j p e,
  get-pop k j current,
)

drop_requests-IsUnique :
    (client_id : String) (items current : Dict String Pending)
    → IsUnique current
    → IsUnique (drop_requests client_id items current)
unfolding drop_requests
drop_requests-IsUnique client_id [] current u = u
drop_requests-IsUnique client_id ((k, q) ∷ items) current u =
    drop_requests-IsUnique client_id items _ (chosen (is_dropped_with client_id q))
  where
    chosen : (b : Bool) → IsUnique (if b then pop k current else current)
    chosen true = pop-IsUnique k current u
    chosen false = u

disconnect_agent-IsLawful : (client_id : String) → IsLawful (disconnect_agent client_id)
unfolding disconnect_agent
disconnect_agent-IsLawful client_id s =
    Within-write _ _ s
      (pending_law s _ (λ j p e. inl (drop_requests-from client_id s.pending s.pending j p e))
        (drop_requests-IsUnique client_id s.pending s.pending))
      (done-IsLawful _)

pub disconnect-IsLawful : (client_id : String) → IsLawful (disconnect client_id)
unfolding disconnect
disconnect-IsLawful client_id s = Within-read _ s (
    Within-option (get client_id s.clients) _ _ s (λ _. done-IsLawful s)
      λ client _.
        Within-write _ _ s
          (registry_law s _ _ _ (λ h. ground (arith, get-pop client_id s.bridge_id s.clients)))
          (Within-role client.role _ _ _ (λ _. disconnect_agent-IsLawful client_id _)
            (λ _. disconnect_ida-IsLawful client_id client (has client_id s.ping_timeouts) _)))
