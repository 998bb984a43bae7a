-- ===== src/Server/Reply/Settles.antt =====
-- What a response does (src/ida_bridge/server.py, `_forward_to_agent`), with nothing running at the
-- awaits and every peer there to receive.
use ida_bridge.Common.{
  String, ◌≡◌, ◌≢◌, ◌⊎◌, refl, ap, sym, ◌∙◌, ◌+◌, inl, inr, Bool, true, false, none, some, [], ◌∷◌,
  arith, text_key, same_self, same_iff, if◌then◌else◌, Bool-cases, Option-cases,
}
use ida_bridge.Common.Dict.{get, pop, get-put, get-pop}
use ida_bridge.Protocol.Message.{
  agent, role_cases, Route, Response, response, protocol_error, response_type, same_type,
}
use ida_bridge.Server.State.{
  Server, Client, Pending, takeover_pending, release_pending, locked_unknown, TakeoverPending,
  ReleasePending,
}
use ida_bridge.Server.Co.Run.{run, returned, sent, closed, delivers_all}
use ida_bridge.Server.Ownership.{
  is_takeover, is_release, commit, commit_takeover, commit_release, clear_ownership, new_lease,
  lock_unknown,
}
use ida_bridge.Server.Expected.{
  with_outcome, with_lock, commit-with_outcome, lock_unknown-with_lock,
}
use ida_bridge.Server.Ownership.Frame.{commit-Only, lock_unknown-Only}
use ida_bridge.Server.Disconnect.{drop_pending, protocol_fault_with, ws_close_policy_violation}
use ida_bridge.Server.Forward.{ws_of}
use ida_bridge.Server.Reply.{matches, mismatch_trace, mismatch, deliver, accept, forward_to_agent}

-- The server once a matching response to `p` has been taken in.
abbrev pub settled : Route → Response → Pending → Server → Server
settled route resp p s = commit p.ida_id p.takeover p.release resp.ok (drop_pending route.id s)

-- The server once a response has come that does not match `p`.
abbrev pub locked : Route → Pending → Server → Server
locked route p s = lock_unknown p.ida_id p.takeover p.release (drop_pending route.id s)

settled-clients :
    (route : Route) (resp : Response) (p : Pending) (s : Server)
    → (settled route resp p s).clients ≡ s.clients
settled-clients route resp p s =
    ap (λ (t : Server). t.clients)
      (commit-Only p.ida_id p.takeover p.release resp.ok (drop_pending route.id s)).rest

locked-clients : (route : Route) (p : Pending) (s : Server) → (locked route p s).clients ≡ s.clients
locked-clients route p s =
    ap (λ (t : Server). t.clients)
      (lock_unknown-Only p.ida_id p.takeover p.release (drop_pending route.id s)).rest

settled-pending :
    (route : Route) (resp : Response) (p : Pending) (s : Server)
    → (settled route resp p s).pending ≡ pop route.id s.pending
settled-pending route resp p s =
    ap (λ (t : Server). t.pending)
      (commit-Only p.ida_id p.takeover p.release resp.ok (drop_pending route.id s)).rest

locked-pending :
    (route : Route) (p : Pending) (s : Server) → (locked route p s).pending ≡ pop route.id s.pending
locked-pending route p s =
    ap (λ (t : Server). t.pending)
      (lock_unknown-Only p.ida_id p.takeover p.release (drop_pending route.id s)).rest

deliver-server :
    (ida_id : String) (route : Route) (resp : Response) (s : Server)
    → (run delivers_all (deliver ida_id route resp) s).server ≡ s
unfolding deliver run ws_of protocol_fault_with
deliver-server ida_id route resp s = elim (Option-cases (get route.dst s.clients)) [
  | inl gone ↦ rw (gone, run) refl
  | inr (a, here) ↦ elim (role_cases a.role) [
    | inl is_agent ↦ rw (here, is_agent, run) refl
    | inr is_ida ↦ elim (Option-cases (get ida_id s.clients)) [
      | inl gone ↦ rw (here, is_ida, gone, run) refl
      | inr (i, there) ↦ rw (here, is_ida, there, run) refl
    ]
  ]
]

-- The response comes from the IDA that the request went to, for the agent that asked, and is of the type
-- of the request.
abbrev pub Correlates : String → Route → Response → Pending → Type 0
Correlates ida_id route resp p =
    (p.ida_id ≡ ida_id)
    × (p.agent_id ≡ route.dst)
    × (same_type (response_type resp) p.req_type ≡ true)

-- It comes from another IDA, for another agent, or is of another type.
abbrev pub Differs : String → Route → Response → Pending → Type 0
Differs ida_id route resp p =
    (p.ida_id ≢ ida_id)
    ⊎ ((p.agent_id ≢ route.dst) ⊎ (same_type (response_type resp) p.req_type ≡ false))

Correlates-matches :
    (ida_id : String) (route : Route) (resp : Response) (p : Pending)
    → Correlates ida_id route resp p
    → matches ida_id route resp p ≡ true
Correlates-matches ida_id route resp p (from_ida, for_agent, kind) =
    ground (arith, same_iff p.ida_id ida_id, same_iff p.agent_id route.dst)

Differs-matches :
    (ida_id : String) (route : Route) (resp : Response) (p : Pending)
    → Differs ida_id route resp p
    → matches ida_id route resp p ≡ false
Differs-matches ida_id route resp p (inl other) = ground (arith, same_iff p.ida_id ida_id)
Differs-matches ida_id route resp p (inr (inl other)) =
    ground (arith, same_iff p.agent_id route.dst)
Differs-matches ida_id route resp p (inr (inr kind)) = ground arith

-- The server without the request, once its transition has succeeded or failed; and once its outcome is
-- unknown.
abbrev pub concluded : Route → Bool → Pending → Server → Server
concluded route ok p s = record s {
  pending = pop route.id s.pending;
  ownership = with_outcome p.ida_id p.takeover p.release ok (s.now + s.stateful_ttl) s.ownership;
}

abbrev pub abandoned : Route → Pending → Server → Server
abandoned route p s = record s {
  pending = pop route.id s.pending;
  ownership = with_lock p.ida_id p.takeover p.release s.ownership;
}

-- A response that comes from the IDA that its pending request went to, names the agent that asked, and is of
-- the request's type goes to that agent and to nobody else; the request is no longer pending, and if
-- the ownership is in the transition that it carries, that has succeeded or failed as the response says.
pub response_delivered :
    (s : Server) (ida_id : String) (route : Route) (resp : Response) (p : Pending) (a : Client)
    → get route.id s.pending ≡ some p
    → Correlates ida_id route resp p
    → get p.agent_id s.clients ≡ some a
    → a.role ≡ agent
    → run delivers_all (forward_to_agent ida_id route resp) s ≡ record {
      outcome = returned tt;
      server = concluded route resp.ok p s;
      outputs = sent a.ws (response route resp) true ∷ [];
    }
unfolding forward_to_agent accept deliver run
response_delivered s ida_id route resp p a pending m registered is_agent =
    let here : get route.dst s.clients ≡ some a =
      ap (λ k. get k s.clients) (sym m.1) ∙ registered in
    rw
      (
        pending,
        Correlates-matches ida_id route resp p m,
        settled-clients route resp p s,
        here,
        is_agent,
        run,
        commit-with_outcome p.ida_id p.takeover p.release resp.ok (drop_pending route.id s),
      )
      refl

-- A response that comes from another IDA than its pending request went to, names another agent than the one that
-- asked, or is of another type reaches no agent: the IDA that sent it is told and its connection
-- closed, the request is no longer pending, and if the ownership is in the transition that it carries,
-- it is locked.
pub mismatch_reported :
    (s : Server) (ida_id : String) (route : Route) (resp : Response) (p : Pending) (i : Client)
    → get route.id s.pending ≡ some p
    → Differs ida_id route resp p
    → get ida_id s.clients ≡ some i
    → run delivers_all (forward_to_agent ida_id route resp) s ≡ record {
      outcome = returned tt;
      server = abandoned route p s;
      outputs =
          sent i.ws
            (protocol_error "RESPONSE_MISMATCH" "response does not match pending request"
              (some (mismatch_trace ida_id route resp p)))
            true
          ∷ closed i.ws ws_close_policy_violation
          ∷ [];
    }
unfolding forward_to_agent mismatch ws_of run protocol_fault_with
mismatch_reported s ida_id route resp p i pending m registered =
    rw
      (
        pending,
        Differs-matches ida_id route resp p m,
        locked-clients route p s,
        registered,
        run,
        lock_unknown-with_lock p.ida_id p.takeover p.release (drop_pending route.id s),
      )
      refl

-- Whatever comes of the delivery, the server is the settled or the locked one.
forward_to_agent-server :
    (s : Server) (ida_id : String) (route : Route) (resp : Response) (p : Pending)
    → get route.id s.pending ≡ some p
    → ((run delivers_all (forward_to_agent ida_id route resp) s).server
        ≡ (if matches ida_id route resp p then settled route resp p s else locked route p s))
unfolding forward_to_agent accept mismatch run ws_of protocol_fault_with
forward_to_agent-server s ida_id route resp p pending =
    elim (Bool-cases (matches ida_id route resp p)) [
      | inl m ↦ rw (pending, m, run) (deliver-server ida_id route resp (settled route resp p s))
      | inr m ↦ elim (Option-cases (get ida_id s.clients)) [
        | inl gone ↦ rw (pending, m, locked-clients route p s, gone, run) refl
        | inr (i, here) ↦ rw (pending, m, locked-clients route p s, here, run) refl
      ]
    ]

-- Once the response to a request has come, matching or not, a second one with its id does nothing,
-- whoever sends it and whatever it says: no message and no change.
pub second_response_ignored :
    (s : Server) (ida_id : String) (route : Route) (resp : Response) (p : Pending)
    (other_id : String) (again : Route) (resp' : Response)
    → get route.id s.pending ≡ some p
    → again.id ≡ route.id
    → (let s' = (run delivers_all (forward_to_agent ida_id route resp) s).server in
        run delivers_all (forward_to_agent other_id again resp') s'
        ≡ record { outcome = returned tt; server = s'; outputs = [] })
unfolding forward_to_agent run
second_response_ignored s ida_id route resp p other_id again resp' pending same_id =
    rw (same_id, gone, run) refl
  where
    chosen :
        (b : Bool)
        → (get route.id (if b then settled route resp p s else locked route p s).pending ≡ none)
    chosen true = rw (settled-pending route resp p s, get-pop, same_self route.id) refl
    chosen false = rw (locked-pending route p s, get-pop, same_self route.id) refl

    gone :
        get route.id (run delivers_all (forward_to_agent ida_id route resp) s).server.pending ≡ none
    gone =
        rw (forward_to_agent-server s ida_id route resp p pending)
          (chosen (matches ida_id route resp p))

matches-sender :
    (ida_id : String) (route : Route) (resp : Response) (p : Pending)
    → matches ida_id route resp p ≡ true
    → p.ida_id ≡ ida_id
matches-sender ida_id route resp p m = ground (arith, same_iff p.ida_id ida_id)

takeover_commit :
    (s : Server) (k : String) (t : TakeoverPending) (ok : Bool)
    → get k s.ownership ≡ some (takeover_pending t)
    → (get k (commit_takeover k t ok s).ownership
        ≡ (if ok then some (new_lease t.to_session_id s) else some locked_unknown))
unfolding commit_takeover is_takeover
takeover_commit s k t true o = simp (
  o,
  same_self t.from_session_id,
  same_self t.to_session_id,
  same_self t.req_id,
  get-put,
  same_self k,
)
takeover_commit s k t false o = simp (
  o,
  same_self t.from_session_id,
  same_self t.to_session_id,
  same_self t.req_id,
  get-put,
  same_self k,
)

release_commit :
    (s : Server) (k : String) (r : ReleasePending) (ok : Bool)
    → get k s.ownership ≡ some (release_pending r)
    → (get k (commit_release k r ok s).ownership
        ≡ (if ok then none else some (new_lease r.session_id s)))
unfolding commit_release is_release clear_ownership
release_commit s k r true o =
    simp (o, same_self r.session_id, same_self r.req_id, get-pop, same_self k)
release_commit s k r false o =
    simp (o, same_self r.session_id, same_self r.req_id, get-put, same_self k)

module _ (s : Server) (ida_id : String) (route : Route) (resp : Response) (p : Pending) where
  -- The matching answer to a takeover, while the ownership of the IDA is in that takeover, decides it: on
  -- success the new session owns the environment, with a lease from now, and after a failure the
  -- environment is locked.
  pub takeover_settled :
      (t : TakeoverPending)
      → get route.id s.pending ≡ some p
      → matches ida_id route resp p ≡ true
      → p.takeover ≡ some t
      → get ida_id s.ownership ≡ some (takeover_pending t)
      → (get ida_id (run delivers_all (forward_to_agent ida_id route resp) s).server.ownership
          ≡ (if resp.ok then some (new_lease t.to_session_id s) else some locked_unknown))
  takeover_settled t pending m takeover o =
      rw
        (
          forward_to_agent-server s ida_id route resp p pending,
          m,
          takeover,
          matches-sender ida_id route resp p m,
        )
        (takeover_commit (drop_pending route.id s) ida_id t resp.ok o)

  -- The matching answer to a release, while the ownership of the IDA is in that release, decides it: on
  -- success nobody owns the environment, and after a failure its session owns it as before, with a
  -- lease from now.
  pub release_settled :
      (r : ReleasePending)
      → get route.id s.pending ≡ some p
      → matches ida_id route resp p ≡ true
      → p.takeover ≡ none
      → p.release ≡ some r
      → get ida_id s.ownership ≡ some (release_pending r)
      → (get ida_id (run delivers_all (forward_to_agent ida_id route resp) s).server.ownership
          ≡ (if resp.ok then none else some (new_lease r.session_id s)))
  release_settled r pending m no_takeover release o =
      rw
        (
          forward_to_agent-server s ida_id route resp p pending,
          m,
          no_takeover,
          release,
          matches-sender ida_id route resp p m,
        )
        (release_commit (drop_pending route.id s) ida_id r resp.ok o)
