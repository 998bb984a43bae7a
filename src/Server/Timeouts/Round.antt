-- ===== src/Server/Timeouts/Round.antt =====
-- What a round of the timeout loop leaves (src/ida_bridge/server.py, `_timeout_loop`), with nothing
-- running at its awaits.
use ida_bridge.Common.{
  ℕ, String, ◌≡◌, refl, ap, ◌∙◌, inl, inr, Bool, Option, none, some, List, [], ◌∷◌, ◌++◌, arith,
  keep_if, ◌==◌, text_key, same_iff, same_self, Bool-cases, Option-cases,
}
use ida_bridge.Common.Dict.{Dict, get, pop, get-pop, IsUnique, get-keep_if, keep_if-IsUnique}
use ida_bridge.Common.Int.{pos}
use ida_bridge.Protocol.Json.{int, text, Fields, end, field}
use ida_bridge.Protocol.Message.{Message}
use ida_bridge.Protocol.Response.{error_response}
use ida_bridge.Server.State.{Server, Client, Pending}
use ida_bridge.Server.Co.{valid}
use ida_bridge.Server.Co.Run.{run, returned, Output, sent, run-bind, after}
use ida_bridge.Server.Ownership.{lock_unknown, expire_ownerships}
use ida_bridge.Server.Ownership.Frame.{OnlyOwnership, lock_unknown-Only, expire_ownerships-Only}
use ida_bridge.Server.Disconnect.{drop_pending}
use ida_bridge.Server.Law.{IsAnswerable, IsWf, answer}
use ida_bridge.Server.Expected.{has_come, with_lock, is_due-has_come, lock_unknown-with_lock}
use ida_bridge.Server.Timeouts.{is_due, time_out, time_out_each, timeout_round}

-- The server once a request has timed out.
abbrev pub timed_out : String → Pending → Server → Server
timed_out req_id p s = lock_unknown p.ida_id p.takeover p.release (drop_pending req_id s)

module _ (req_id : String) (p : Pending) (s : Server) where
  pub only : OnlyOwnership (drop_pending req_id s) (timed_out req_id p s)
  only = lock_unknown-Only p.ida_id p.takeover p.release (drop_pending req_id s)

  pub timed_out-clients : (timed_out req_id p s).clients ≡ s.clients
  timed_out-clients = ap (λ (t : Server). t.clients) only.rest

  pub timed_out-config : (timed_out req_id p s).config ≡ s.config
  timed_out-config = ap (λ (t : Server). t.config) only.rest

  pub timed_out-pending : (timed_out req_id p s).pending ≡ pop req_id s.pending
  timed_out-pending = ap (λ (t : Server). t.pending) only.rest

abbrev pub timed_out_each : Dict String Pending → Server → Server
timed_out_each [] s = s
timed_out_each ((req_id, p) ∷ due) s = timed_out_each due (timed_out req_id p s)

abbrev timeout_trace : Pending → Option Fields
timeout_trace p =
    some (field "timeout_s" (int (pos p.timeout_s)) (field "ida_id" (text p.ida_id) end))

abbrev timeout_error : String → String → Pending → Option Message
timeout_error bridge_id req_id p =
    error_response bridge_id p.req_type req_id p.agent_id "TIMEOUT" "request timed out"
      (timeout_trace p)

module _ (delivers : ℕ → Message → Bool) where
  -- The message to the agent of one request, if it is still there.
  abbrev pub notice : Dict String Client → String → String → Pending → List Output
  notice clients bridge_id req_id p = elim (get p.agent_id clients) [
    | none ↦ []
    | some client ↦ elim (timeout_error bridge_id req_id p) [
      | none ↦ []
      | some m ↦ sent client.ws m (delivers client.ws m) ∷ []
    ]
  ]

  abbrev pub notices : Dict String Client → String → Dict String Pending → List Output
  notices clients bridge_id [] = []
  notices clients bridge_id ((req_id, p) ∷ due) =
      notice clients bridge_id req_id p ++ notices clients bridge_id due

  time_out-run :
      (req_id : String) (p q : Pending) (s : Server)
      → IsAnswerable p.req_type
      → get req_id s.pending ≡ some q
      → run delivers (time_out req_id p) s ≡ record {
        outcome = returned tt;
        server = timed_out req_id p s;
        outputs = notice s.clients s.bridge_id req_id p;
      }
  unfolding time_out run valid
  time_out-run req_id p q s answerable here = elim (Option-cases (get p.agent_id s.clients)) [
    | inl gone ↦ rw (here, timed_out-clients req_id p s, gone, notice, run) refl
    | inr (client, there) ↦
        let (m, e) =
          answer p.req_type answerable s.bridge_id req_id p.agent_id "TIMEOUT" "request timed out"
            (timeout_trace p) in
        rw (here, timed_out-clients req_id p s, there, timed_out-config req_id p s, e, notice, run)
          refl
  ]

  later :
      (k : String) (q : Pending) (due : Dict String Pending) (s : Server)
      → get k due ≡ none
      → ((req_id : String) (p : Pending)
          → get req_id ((k, q) ∷ due) ≡ some p
          → IsAnswerable p.req_type × (get req_id s.pending ≡ some p))
      → (req_id : String) (p : Pending) → get req_id due ≡ some p
      → IsAnswerable p.req_type × (get req_id (timed_out k q s).pending ≡ some p)
  unfolding get
  later k q due s fresh sub req_id p e = elim (Bool-cases (k == req_id)) [
    | inl same ↦ let eq : k ≡ req_id = (same_iff k req_id).0 same in absurd (cc)
    | inr differ ↦
        let (a, here) = sub req_id p (rw differ e) in
        (a, rw (timed_out-pending k q s, get-pop k req_id s.pending, differ) here)
  ]

  time_out_each-run :
      (due : Dict String Pending) (s : Server)
      → IsUnique due
      → ((req_id : String) (p : Pending)
          → get req_id due ≡ some p
          → IsAnswerable p.req_type × (get req_id s.pending ≡ some p))
      → run delivers (time_out_each due) s ≡ record {
        outcome = returned tt;
        server = timed_out_each due s;
        outputs = notices s.clients s.bridge_id due;
      }
  unfolding time_out_each run
  time_out_each-run [] s u sub = refl
  time_out_each-run ((req_id, p) ∷ due) s (fresh, u) sub =
      let (answerable, here) = sub req_id p (unfold get in rw (same_self req_id) refl) in
      let s' = timed_out req_id p s in
      run-bind delivers (λ _. time_out_each due) (time_out req_id p) s
      ∙ ap (λ r. after r (λ _. run delivers (time_out_each due)))
          (time_out-run req_id p p s answerable here)
      ∙ ap
          (λ r.
            after
              (record {
                outcome = returned tt;
                server = s';
                outputs = notice s.clients s.bridge_id req_id p;
              })
              (λ _ _. r))
          (time_out_each-run due s' u (later req_id p due s fresh sub))
      ∙ rw (timed_out-clients req_id p s, timed_out-config req_id p s) refl

  -- The requests that a round times out.
  abbrev pub due_in : Server → Dict String Pending
  due_in s = keep_if (λ e. is_due s.now e.1) s.pending

  due_in-sub :
      (s : Server)
      → IsWf s
      → (req_id : String) (p : Pending) → get req_id (due_in s) ≡ some p
      → IsAnswerable p.req_type × (get req_id (expire_ownerships s).pending ≡ some p)
  due_in-sub s wf req_id p e =
      let here : get req_id s.pending ≡ some p =
        ground (arith, get-keep_if (is_due s.now) req_id s.pending wf.unique_pending) in
      ((wf.tagged req_id p here).1, rw (expire_ownerships-Only s).rest here)

  pub timeout_round-run :
      (s : Server)
      → IsWf s
      → run delivers timeout_round s ≡ record {
        outcome = returned tt;
        server = timed_out_each (due_in s) (expire_ownerships s);
        outputs = notices s.clients s.bridge_id (due_in s);
      }
  unfolding timeout_round run expire_ownerships
  timeout_round-run s wf =
      time_out_each-run (due_in s) (expire_ownerships s)
        (keep_if-IsUnique (is_due s.now) s.pending wf.unique_pending) (due_in-sub s wf)

-- The server once a request has timed out: it is not pending, and if the ownership is in the
-- transition that the request carries, it is locked.
abbrev pub with_timeout : String → Pending → Server → Server
with_timeout req_id p s = record s {
  pending = pop req_id s.pending;
  ownership = with_lock p.ida_id p.takeover p.release s.ownership;
}

abbrev pub with_timeouts : Dict String Pending → Server → Server
with_timeouts [] s = s
with_timeouts ((req_id, p) ∷ late) s = with_timeouts late (with_timeout req_id p s)

timed_out_each-with_timeouts :
    (due : Dict String Pending) (s : Server) → timed_out_each due s ≡ with_timeouts due s
timed_out_each-with_timeouts [] s = refl
timed_out_each-with_timeouts ((req_id, p) ∷ due) s =
    ap (timed_out_each due)
      (lock_unknown-with_lock p.ida_id p.takeover p.release (drop_pending req_id s))
    ∙ timed_out_each-with_timeouts due (with_timeout req_id p s)

-- The requests whose deadline is not after now.
abbrev pub late_in : Server → Dict String Pending
late_in s = keep_if (λ e. has_come s.now e.1.deadline) s.pending

module _ (delivers : ℕ → Message → Bool) where
  due_in-late_in : (s : Server) → due_in delivers s ≡ late_in s
  due_in-late_in s = agree s.pending
    where
      agree :
          (d : Dict String Pending)
          → keep_if (λ (e : String × Pending). is_due s.now e.1) d
            ≡ keep_if (λ e. has_come s.now e.1.deadline) d
      agree [] = refl
      agree ((k, p) ∷ d) = rw (is_due-has_come s.now p, agree d) refl

  -- In a well-formed server a round of the timeout loop ends, and times out exactly the requests
  -- whose deadline is not after now, in the order in which they are pending: each is no longer pending,
  -- an ownership that is in the transition that it carries is locked, and its agent, if it is still
  -- registered, gets a TIMEOUT error.
  pub timeout_round_exact :
      (s : Server)
      → IsWf s
      → run delivers timeout_round s ≡ record {
        outcome = returned tt;
        server = with_timeouts (late_in s) (expire_ownerships s);
        outputs = notices delivers s.clients s.bridge_id (late_in s);
      }
  timeout_round_exact s wf =
      timeout_round-run delivers s wf
      ∙ ap
          (λ due. record {
            outcome = returned tt;
            server = timed_out_each due (expire_ownerships s);
            outputs = notices delivers s.clients s.bridge_id due;
          })
          (due_in-late_in s)
      ∙ ap
          (λ (s' : Server). record {
            outcome = returned tt;
            server = s';
            outputs = notices delivers s.clients s.bridge_id (late_in s);
          })
          (timed_out_each-with_timeouts (late_in s) (expire_ownerships s))
