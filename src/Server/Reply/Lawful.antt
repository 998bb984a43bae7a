-- ===== src/Server/Reply/Lawful.antt =====
-- Handing a response on (src/ida_bridge/server.py) keeps the law of the server, whatever runs at its
-- awaits.
use ida_bridge.Common.{String, text_key}
use ida_bridge.Common.Dict.{get}
use ida_bridge.Protocol.Message.{Response, Route}
use ida_bridge.Server.State.{Server, Pending}
use ida_bridge.Server.Co.Within.{Within-read, Within-send, Within-if, Within-option, Within-role}
use ida_bridge.Server.Law.{Lawful, ownership_law}
use ida_bridge.Server.Ownership.{lock_unknown}
use ida_bridge.Server.Ownership.Moves.{lock_unknown-Moves, commit-Moves}
use ida_bridge.Server.Ownership.Frame.{lock_unknown-Only, commit-Only}
use ida_bridge.Server.Disconnect.Lawful.{
  IsLawful, done-IsLawful, modify-then, drop_pending-Lawful, disconnect-IsLawful,
}
use ida_bridge.Server.Forward.Lawful.{fault_to-IsLawful}
use ida_bridge.Server.Reply.{matches, mismatch, deliver, accept, forward_to_agent}

pub lock_unknown-Lawful :
    (p : Pending) (s : Server) → Lawful s (lock_unknown p.ida_id p.takeover p.release s)
lock_unknown-Lawful p s =
    ownership_law _ _ (lock_unknown-Only p.ida_id p.takeover p.release s)
      (lock_unknown-Moves p.ida_id p.takeover p.release s)

mismatch-IsLawful :
    (ida_id : String) (route : Route) (resp : Response) (p : Pending)
    → IsLawful (mismatch ida_id route resp p)
unfolding mismatch
mismatch-IsLawful ida_id route resp p =
    modify-then _ _ (lock_unknown-Lawful p) (fault_to-IsLawful ida_id _ _ _)

deliver-IsLawful :
    (ida_id : String) (route : Route) (resp : Response) → IsLawful (deliver ida_id route resp)
unfolding deliver
deliver-IsLawful ida_id route resp s = Within-read _ s (
    Within-option (get route.dst s.clients) _ _ s (λ _. done-IsLawful s)
      λ client _.
        Within-role client.role _ _ s
          (λ _. Within-send _ _ _ s λ s' b.
            Within-if b _ _ s' (λ _. done-IsLawful s') (λ _. disconnect-IsLawful route.dst s'))
          (λ _. fault_to-IsLawful ida_id _ _ _ s))

accept-IsLawful :
    (ida_id : String) (route : Route) (resp : Response) (p : Pending)
    → IsLawful (accept ida_id route resp p)
unfolding accept
accept-IsLawful ida_id route resp p =
    modify-then _ _
      (λ s.
        ownership_law _ _ (commit-Only p.ida_id p.takeover p.release resp.ok s)
          (commit-Moves p.ida_id p.takeover p.release resp.ok s))
      (deliver-IsLawful ida_id route resp)

pub forward_to_agent-IsLawful :
    (ida_id : String) (route : Route) (resp : Response)
    → IsLawful (forward_to_agent ida_id route resp)
unfolding forward_to_agent
forward_to_agent-IsLawful ida_id route resp s = Within-read _ s (
    Within-option (get route.id s.pending) _ _ s (λ _. done-IsLawful s)
      λ p _.
        modify-then _ _ (drop_pending-Lawful route.id)
          (λ s'.
            Within-if (matches ida_id route resp p) _ _ s'
              (λ _. accept-IsLawful ida_id route resp p s')
              (λ _. mismatch-IsLawful ida_id route resp p s'))
          s)
