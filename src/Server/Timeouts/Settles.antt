-- ===== src/Server/Timeouts/Settles.antt =====
-- What a round of the timeout loop (src/ida_bridge/server.py) leaves pending, and of the ownership of
-- the IDAs whose transitions it times out.
use ida_bridge.Common.{
  ℕ, String, ◌≡◌, refl, ◌∙◌, ◌⊎◌, inl, inr, Bool, true, false, Option, none, some, [], ◌∷◌, arith,
  ◌==◌, text_key, same_self, if◌then◌else◌, Bool-cases,
}
use ida_bridge.Common.Dict.{Dict, get, put, pop, has, get-pop, get-put, get-keep_if}
use ida_bridge.Protocol.Message.{Message}
use ida_bridge.Server.State.{
  Server, Pending, TakeoverPending, ReleasePending, Ownership, takeover_pending, release_pending,
  locked_unknown,
}
use ida_bridge.Server.Co.Run.{run}
use ida_bridge.Server.Ownership.{
  expire_ownerships, lock_unknown, lock_takeover_unknown, lock_release_unknown, is_takeover,
  is_release, is_expired,
}
use ida_bridge.Server.Ownership.Frame.{expire_ownerships-Only}
use ida_bridge.Server.Ownership.Expiry.{get-expire}
use ida_bridge.Server.Law.{IsWf}
use ida_bridge.Server.Disconnect.{drop_pending}
use ida_bridge.Server.Timeouts.{is_due, timeout_round}
use ida_bridge.Server.Timeouts.Round.{
  timed_out, timed_out_each, timed_out-pending, due_in, timeout_round-run,
}

drop_each :
    (k req_id : String) (p : Pending) (due d : Dict String Pending)
    → (if has req_id due then none else get req_id (pop k d))
      ≡ (if has req_id ((k, p) ∷ due) then none else get req_id d)
unfolding get
drop_each k req_id p due d = ground (arith, get-pop k req_id d)

timed_out_each-pending :
    (due : Dict String Pending) (s : Server) (req_id : String)
    → get req_id (timed_out_each due s).pending
      ≡ (if has req_id due then none else get req_id s.pending)
unfolding get
timed_out_each-pending [] s req_id = refl
timed_out_each-pending ((k, p) ∷ due) s req_id =
    timed_out_each-pending due (timed_out k p s) req_id
    ∙ rw (timed_out-pending k p s) (drop_each k req_id p due s.pending)

-- After a round in a well-formed server no request is pending whose deadline has come, and every other one is pending as
-- before.
pub timeout_round_pending :
    (delivers : ℕ → Message → Bool) (s : Server) (req_id : String)
    → IsWf s
    → get req_id (run delivers timeout_round s).server.pending ≡ elim (get req_id s.pending) [
      | none ↦ none
      | some p ↦ if is_due s.now p then none else some p
    ]
timeout_round_pending delivers s req_id wf = rw (timeout_round-run delivers s wf) (
    timed_out_each-pending (due_in delivers s) (expire_ownerships s) req_id
    ∙ rw (expire_ownerships-Only s).rest
        (ground (arith, get-keep_if (is_due s.now) req_id s.pending wf.unique_pending)))

-- A lock leaves an entry as it is or locks it.
abbrev Locks : String → Server → Server → Type 0
Locks k s s' = (get k s'.ownership ≡ some locked_unknown) ⊎ (get k s'.ownership ≡ get k s.ownership)

lock_if :
    (b : Bool) (j k : String) (s : Server)
    → Locks k s (if b then record s { ownership = put j locked_unknown s.ownership } else s)
lock_if true j k s = ground (arith, get-put j k locked_unknown s.ownership)
lock_if false j k s = inr refl

lock_unknown-Locks :
    (j k : String) (t : Option TakeoverPending) (r : Option ReleasePending) (s : Server)
    → Locks k s (lock_unknown j t r s)
unfolding lock_takeover_unknown lock_release_unknown
lock_unknown-Locks j k (some t) r s = lock_if (is_takeover (get j s.ownership) t) j k s
lock_unknown-Locks j k none (some r) s = lock_if (is_release (get j s.ownership) r) j k s
lock_unknown-Locks j k none none s = inr refl

timed_out_each-Locks :
    (k : String) (due : Dict String Pending) (s : Server) → Locks k s (timed_out_each due s)
timed_out_each-Locks k [] s = inr refl
timed_out_each-Locks k ((req_id, p) ∷ due) s =
    elim (timed_out_each-Locks k due (timed_out req_id p s)) [
      | inl locked ↦ inl locked
      | inr same ↦
          elim (lock_unknown-Locks p.ida_id k p.takeover p.release (drop_pending req_id s)) [
            | inl locked ↦ inl (same ∙ locked)
            | inr same' ↦ inr (same ∙ same')
          ]
    ]

-- The request whose transition the ownership of its IDA is in.
abbrev IsTransition : Option TakeoverPending → Option ReleasePending → Ownership → Type 0
IsTransition (some t) r o = o ≡ takeover_pending t
IsTransition none (some r) o = o ≡ release_pending r
IsTransition none none o = ⊥

abbrev pub Holds : Pending → Ownership → Type 0
Holds p o = IsTransition p.takeover p.release o

lasts :
    (t : Option TakeoverPending) (r : Option ReleasePending) (o : Ownership) (now : ℕ)
    → IsTransition t r o
    → is_expired now o ≡ false
unfolding is_expired
lasts (some t) r o now h = rw h refl
lasts none (some r) o now h = rw h refl
lasts none none o now h = absurd h

timed_out-locks :
    (req_id : String) (p : Pending) (o : Ownership) (s : Server)
    → Holds p o
    → get p.ida_id s.ownership ≡ some o
    → get p.ida_id (timed_out req_id p s).ownership ≡ some locked_unknown
unfolding lock_takeover_unknown lock_release_unknown is_takeover is_release
timed_out-locks req_id p o s holds e = by_transition p.takeover p.release holds
  where
    by_transition :
        (t : Option TakeoverPending) (r : Option ReleasePending)
        → IsTransition t r o
        → get p.ida_id (lock_unknown p.ida_id t r (drop_pending req_id s)).ownership
          ≡ some locked_unknown
    by_transition (some t) r h = simp (
      e,
      h,
      same_self t.from_session_id,
      same_self t.to_session_id,
      same_self t.req_id,
      get-put,
      same_self p.ida_id,
    )
    by_transition none (some r) h =
        simp (e, h, same_self r.session_id, same_self r.req_id, get-put, same_self p.ida_id)
    by_transition none none h = absurd h

settle :
    (k : String) (s s' : Server)
    → get k s.ownership ≡ some locked_unknown
    → Locks k s s'
    → get k s'.ownership ≡ some locked_unknown
settle k s s' locked (inl now) = now
settle k s s' locked (inr same) = same ∙ locked

timed_out_each-locks :
    (due : Dict String Pending) (req_id : String) (p : Pending) (o : Ownership) (s : Server)
    → get req_id due ≡ some p
    → Holds p o
    → get p.ida_id s.ownership ≡ some o
    → get p.ida_id (timed_out_each due s).ownership ≡ some locked_unknown
unfolding get
timed_out_each-locks [] req_id p o s here holds e = absurd (cc)
timed_out_each-locks ((k, q) ∷ due) req_id p o s here holds e = elim (Bool-cases (k == req_id)) [
  | inl same ↦
      let is_p : q ≡ p = ground arith in
      rw is_p (
        settle p.ida_id (timed_out k p s) (timed_out_each due (timed_out k p s))
          (timed_out-locks k p o s holds e) (timed_out_each-Locks p.ida_id due (timed_out k p s)))
  | inr differ ↦
      let later : get req_id due ≡ some p = ground arith in
      elim (lock_unknown-Locks q.ida_id p.ida_id q.takeover q.release (drop_pending k s)) [
        | inl locked ↦
            settle p.ida_id (timed_out k q s) (timed_out_each due (timed_out k q s)) locked
              (timed_out_each-Locks p.ida_id due (timed_out k q s))
        | inr unchanged ↦
            timed_out_each-locks due req_id p o (timed_out k q s) later holds (unchanged ∙ e)
      ]
]

-- When in a well-formed server a takeover or release request times out while the ownership of its IDA is in that transition,
-- the round leaves the ownership locked, whatever else times out in the same round.
pub timed_out_transition_locks :
    (delivers : ℕ → Message → Bool) (s : Server) (req_id : String) (p : Pending) (o : Ownership)
    → IsWf s
    → get req_id s.pending ≡ some p
    → is_due s.now p ≡ true
    → Holds p o
    → get p.ida_id s.ownership ≡ some o
    → get p.ida_id (run delivers timeout_round s).server.ownership ≡ some locked_unknown
timed_out_transition_locks delivers s req_id p o wf pending due holds e =
    rw (timeout_round-run delivers s wf) (
      timed_out_each-locks (due_in delivers s) req_id p o (expire_ownerships s)
        (ground (arith, get-keep_if (is_due s.now) req_id s.pending wf.unique_pending)) holds
        (rw (get-expire s p.ida_id wf.unique_ownership, e, lasts p.takeover p.release o s.now holds)
          refl))
