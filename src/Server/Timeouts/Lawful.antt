-- ===== src/Server/Timeouts/Lawful.antt =====
-- A round of the timeout loop (src/ida_bridge/server.py) keeps the law of the server, whatever runs
-- at its awaits.
use ida_bridge.Common.{String, List, [], ◌∷◌, text_key}
use ida_bridge.Common.Dict.{get, has}
use ida_bridge.Server.State.{Pending}
use ida_bridge.Server.Co.Within.{Within-read, Within-send, Within-if, Within-option, Within-valid}
use ida_bridge.Server.Law.{ownership_law}
use ida_bridge.Server.Ownership.Moves.{expire_ownerships-Moves}
use ida_bridge.Server.Ownership.Frame.{expire_ownerships-Only}
use ida_bridge.Server.Disconnect.Lawful.{
  IsLawful, done-IsLawful, modify-then, then-IsLawful, drop_pending-Lawful,
}
use ida_bridge.Server.Reply.Lawful.{lock_unknown-Lawful}
use ida_bridge.Server.Timeouts.{time_out, time_out_each, timeout_round}

time_out-IsLawful : (req_id : String) (p : Pending) → IsLawful (time_out req_id p)
unfolding time_out
time_out-IsLawful req_id p s = Within-read _ s (
    Within-if (has req_id s.pending) _ _ s
      (λ _.
        modify-then _ _ (drop_pending-Lawful req_id)
          (modify-then _ _ (lock_unknown-Lawful p) λ t. Within-read _ t (
            Within-option (get p.agent_id t.clients) _ _ t (λ _. done-IsLawful t)
              λ client _.
                Within-valid _ _ t λ payload. Within-send _ _ _ t λ t' b. done-IsLawful t'))
          s)
      (λ _. done-IsLawful s))

time_out_each-IsLawful : (due : List (String × Pending)) → IsLawful (time_out_each due)
unfolding time_out_each
time_out_each-IsLawful [] s = done-IsLawful s
time_out_each-IsLawful ((req_id, p) ∷ due) s =
    then-IsLawful (time_out req_id p) (time_out_each due) (time_out-IsLawful req_id p)
      (time_out_each-IsLawful due) s

pub timeout_round-IsLawful : IsLawful timeout_round
unfolding timeout_round
timeout_round-IsLawful =
    modify-then _ _ (λ s. ownership_law _ _ (expire_ownerships-Only s) (expire_ownerships-Moves s))
      (λ s. Within-read _ s (time_out_each-IsLawful _ s))
