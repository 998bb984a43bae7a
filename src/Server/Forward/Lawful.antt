-- ===== src/Server/Forward/Lawful.antt =====
-- Forwarding a request (src/ida_bridge/server.py) keeps the law of the server, whatever runs at its
-- awaits.
use ida_bridge.Common.{
  ℕ, String, ◌≡◌, Option, some, ◌⊎◌, inl, inr, arith, ◌==◌, text_key, same_iff, Bool-cases,
}
use ida_bridge.Common.Dict.{get, put, has, get-put, put-IsUnique}
use ida_bridge.Protocol.Json.{Fields}
use ida_bridge.Protocol.Message.{RequestType, Route, request_type}
use ida_bridge.Server.State.{Server, Client, Pending}
use ida_bridge.Server.Co.{key_error, ◌>>=◌}
use ida_bridge.Server.Co.Within.{
  Always, Within-ret, Within-raise, Within-read, Within-send, Within-if, Within-option, Within-role,
  Within-bind, Within-valid,
}
use ida_bridge.Server.Law.{Lawful, Tags, IsAnswerable, IsSound, ownership_law, pending_law}
use ida_bridge.Server.Ownership.Moves.{roll_back-Moves}
use ida_bridge.Server.Ownership.Frame.{roll_back-Only}
use ida_bridge.Server.Disconnect.Lawful.{
  IsLawful, done-IsLawful, modify-then, then-IsLawful, protocol_fault_with-IsLawful,
  drop_pending-Lawful, disconnect-IsLawful,
}
use ida_bridge.Server.Disconnect.{protocol_fault}
use ida_bridge.Server.Policy.{
  EnvRequest, exec, reset, to_request, ExecEnvPolicy, apply_exec_env_policy,
}
use ida_bridge.Server.Policy.Lawful.{apply_exec_env_policy-Lawful}
use ida_bridge.Server.Forward.{
  ws_of, answer_error, add_pending, target_disconnected, dispatch, decided, forward_to_ida,
  dispatch_quit, forward_quit_to_ida,
}

-- A fault reported on a client's own connection.
pub fault_to-IsLawful :
    (client_id code message : String) (trace : Option Fields)
    → IsLawful (ws_of client_id >>= λ ws. protocol_fault ws code message trace)
unfolding ws_of
fault_to-IsLawful client_id code message trace s =
    Within-bind {Q = Always} (ws_of client_id) _ s
      (Within-read _ s (
        Within-option (get client_id s.clients) _ _ s (λ _. Within-raise key_error s)
          (λ client _. Within-ret client.ws s tt)))
      (λ ws s' _. protocol_fault_with-IsLawful _ ws code message trace s')

pub answer_error-IsLawful :
    (agent_id : String) (t : RequestType) (req_id code message : String) (trace : Option Fields)
    → IsLawful (answer_error agent_id t req_id code message trace)
unfolding answer_error
answer_error-IsLawful agent_id t req_id code message trace s = Within-read _ s (
    Within-option (get agent_id s.clients) _ _ s (λ _. done-IsLawful s)
      λ client _. Within-valid _ _ s λ payload.
        Within-send _ _ _ s
          λ s' b. Within-if b _ _ s' (λ _. done-IsLawful s') (λ _. disconnect-IsLawful agent_id s'))

pub target_disconnected-IsLawful :
    (agent_id : String) (route : Route) (t : RequestType)
    → IsLawful (target_disconnected agent_id route t)
unfolding target_disconnected
target_disconnected-IsLawful agent_id route t =
    then-IsLawful _ _ (answer_error-IsLawful agent_id t route.id _ _ _)
      (disconnect-IsLawful route.dst)

add_pending-Lawful :
    (req_id : String) (p : Pending) (s : Server)
    → IsSound req_id p
    → Lawful s (add_pending req_id p s)
unfolding add_pending
add_pending-Lawful req_id p s t =
    pending_law s (put req_id p s.pending) from (put-IsUnique req_id p s.pending)
  where
    from :
        (j : String) (q : Pending)
        → get j (put req_id p s.pending) ≡ some q
        → (get j s.pending ≡ some q) ⊎ IsSound j q
    from j q e = elim (Bool-cases (req_id == j)) [
      | inl same ↦
          let pq : p ≡ q = ground (arith, get-put req_id j p s.pending) in
          inr (rw (← pq, ← (same_iff req_id j).0 same) t)
      | inr other ↦ inl (ground (arith, get-put req_id j p s.pending))
    ]

answerable : (msg : EnvRequest) → IsAnswerable (request_type (to_request msg))
answerable (exec e) = tt
answerable (reset r) = tt

dispatch-IsLawful :
    (agent_id : String) (route : Route) (client : Client) (policy : ExecEnvPolicy)
    → Tags route.id policy.takeover policy.release
    → IsLawful (dispatch agent_id route client policy)
unfolding dispatch
dispatch-IsLawful agent_id route client policy t =
    modify-then _ _ (λ s. add_pending-Lawful route.id _ s (t, answerable policy.msg))
      λ s. Within-send _ _ _ s λ s' b.
        Within-if b _ _ s' (λ _. done-IsLawful s')
          λ _.
            modify-then _ _ (drop_pending-Lawful route.id)
              (modify-then _ _
                (λ s''.
                  ownership_law _ _
                    (roll_back-Only route.dst policy.takeover policy.release policy.claimed_owner
                      s'')
                    (roll_back-Moves route.dst policy.takeover policy.release policy.claimed_owner
                      s''))
                (target_disconnected-IsLawful agent_id route _))
              s'

decided-IsLawful :
    (agent_id : String) (route : Route) (msg : EnvRequest) (client : Client)
    (policy : ExecEnvPolicy)
    → Tags route.id policy.takeover policy.release
    → IsLawful (decided agent_id route msg client policy)
unfolding decided
decided-IsLawful agent_id route msg client policy t s =
    Within-option policy.reject _ _ s (λ _. dispatch-IsLawful agent_id route client policy t s)
      (λ r _. answer_error-IsLawful agent_id _ route.id r.code r.message r.trace s)

pub forward_to_ida-IsLawful :
    (agent_id : String) (route : Route) (msg : EnvRequest)
    → IsLawful (forward_to_ida agent_id route msg)
unfolding forward_to_ida
forward_to_ida-IsLawful agent_id route msg s = Within-read _ s (
    Within-option (get route.dst s.clients) _ _ s
      (λ _. answer_error-IsLawful agent_id _ route.id _ _ _ s)
      λ client _.
        Within-role client.role _ _ s (λ _. fault_to-IsLawful agent_id _ _ _ s)
          λ _.
            Within-if (has route.id s.pending) _ _ s (λ _. fault_to-IsLawful agent_id _ _ _ s)
              λ _.
                Within-bind (apply_exec_env_policy route msg) _ s
                  (apply_exec_env_policy-Lawful route msg s)
                  (λ policy s' t. decided-IsLawful agent_id route msg client policy t s'))

dispatch_quit-IsLawful :
    (agent_id : String) (route : Route) (client : Client) (timeout_s : Option ℕ)
    → IsLawful (dispatch_quit agent_id route client timeout_s)
unfolding dispatch_quit
dispatch_quit-IsLawful agent_id route client timeout_s =
    modify-then _ _ (λ s. add_pending-Lawful route.id _ s (tt, tt))
      λ s. Within-send _ _ _ s λ s' b.
        Within-if b _ _ s' (λ _. done-IsLawful s')
          λ _.
            modify-then _ _ (drop_pending-Lawful route.id)
              (target_disconnected-IsLawful agent_id route _) s'

pub forward_quit_to_ida-IsLawful :
    (agent_id : String) (route : Route) (timeout_s : Option ℕ)
    → IsLawful (forward_quit_to_ida agent_id route timeout_s)
unfolding forward_quit_to_ida
forward_quit_to_ida-IsLawful agent_id route timeout_s s = Within-read _ s (
    Within-option (get route.dst s.clients) _ _ s
      (λ _. answer_error-IsLawful agent_id _ route.id _ _ _ s)
      λ client _.
        Within-role client.role _ _ s (λ _. fault_to-IsLawful agent_id _ _ _ s)
          λ _.
            Within-if (has route.id s.pending) _ _ s (λ _. fault_to-IsLawful agent_id _ _ _ s)
              (λ _. dispatch_quit-IsLawful agent_id route client timeout_s s))
