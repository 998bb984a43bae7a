-- ===== src/Server/Timeouts.antt =====
-- src/ida_bridge/server.py: one round of `_timeout_loop`, after its sleep.
pub mod Lawful
pub mod Round
pub mod Settles
use ida_bridge.Common.{
  ℕ, String, Bool, true, false, Option, none, some, List, [], ◌∷◌, leb, text_key, keep_if,
  if◌then◌else◌,
}
use ida_bridge.Common.Int.{pos}
use ida_bridge.Common.Dict.{Dict, get, pop, has}
use ida_bridge.Protocol.Json.{int, text, Fields, end, field}
use ida_bridge.Protocol.Response.{error_response}
use ida_bridge.Server.State.{Server, Pending}
use ida_bridge.Server.Co.{
  Co, ret, raise, read, write, done, modify, valid, send_best_effort, ◌>>=◌, ◌>>◌,
}
use ida_bridge.Server.Ownership.{expire_ownerships, lock_unknown}
use ida_bridge.Server.Disconnect.{drop_pending}

unfoldable pub is_due : ℕ → Pending → Bool
is_due now p = elim p.deadline [ none ↦ false | some deadline ↦ leb deadline now ]

-- A request that is no longer pending was handled at an earlier await of the same round.
unfoldable pub time_out : String → Pending → Co (Unit {0})
time_out req_id p = read λ s.
    if has req_id s.pending
    then (do
      modify (drop_pending req_id)
      modify (lock_unknown p.ida_id p.takeover p.release)
      read λ t. elim (get p.agent_id t.clients) [
        | none ↦ done
        | some client ↦ do
          payload ← valid (
              error_response t.bridge_id p.req_type req_id p.agent_id "TIMEOUT" "request timed out"
                (some
                  (field "timeout_s" (int (pos p.timeout_s)) (field "ida_id" (text p.ida_id) end))))
          send_best_effort client.ws payload
          done
      ])
    else done

unfoldable pub time_out_each : List (String × Pending) → Co (Unit {0})
unfolding time_out
time_out_each [] = done
time_out_each ((req_id, p) ∷ rest) = time_out req_id p >> time_out_each rest

unfoldable pub timeout_round : Co (Unit {0})
unfolding time_out_each is_due
timeout_round = do
  modify expire_ownerships
  read (λ s. time_out_each (keep_if (λ e. is_due s.now e.1) s.pending))
