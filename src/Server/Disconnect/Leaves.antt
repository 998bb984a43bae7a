-- ===== src/Server/Disconnect/Leaves.antt =====
-- What a client that disconnects leaves behind (src/ida_bridge/server.py, `_disconnect`), with nothing
-- running at the awaits.
use ida_bridge.Common.{
  ℕ, String, ◌≡◌, refl, ap, ◌∙◌, Bool, Option, none, some, List, [], ◌∷◌, ◌++◌, arith, keep_if, All,
  ◌==◌, text_key, number_key, if◌then◌else◌, Bool-cases, Option-cases, inl, inr,
}
use ida_bridge.Common.Dict.{Dict, get, pop, has, is_some, only_if, get-pop, IsUnique, get-keep_if}
use ida_bridge.Protocol.Json.{text, Fields, end, field}
use ida_bridge.Protocol.Message.{Message}
use ida_bridge.Protocol.Response.{error_response}
use ida_bridge.Server.State.{Server, Client, Pending}
use ida_bridge.Server.Co.{valid}
use ida_bridge.Server.Co.Run.{run, returned, Output, sent, run-bind, after}
use ida_bridge.Server.Law.{IsAnswerable, answer}
use ida_bridge.Server.Disconnect.{
  is_dropped_with, drop_requests, drop_pending, fail_request, fail_requests,
}

-- The items with a property, dropped one after the other.
abbrev pub drop_if :
    (Pending → Bool) → Dict String Pending → Dict String Pending → Dict String Pending
drop_if q [] current = current
drop_if q ((req_id, p) ∷ items) current =
    drop_if q items (if q p then pop req_id current else current)

drop_step :
    (q : Pending → Bool) (k req_id : String) (p : Pending) (items d : Dict String Pending)
    → (if has req_id (keep_if (λ e. q e.1) items)
        then none
        else get req_id (if q p then pop k d else d))
      ≡ (if has req_id (keep_if (λ e. q e.1) ((k, p) ∷ items)) then none else get req_id d)
unfolding get
drop_step q k req_id p items d = ground (arith, get-pop k req_id d, q p)

get-drop_if_from :
    (q : Pending → Bool) (req_id : String) (items d : Dict String Pending)
    → get req_id (drop_if q items d)
      ≡ (if has req_id (keep_if (λ e. q e.1) items) then none else get req_id d)
unfolding get
get-drop_if_from q req_id [] d = refl
get-drop_if_from q req_id ((k, p) ∷ items) d =
    get-drop_if_from q req_id items _ ∙ drop_step q k req_id p items d

-- What is left of a dictionary without the items that have a property.
abbrev pub left : (Pending → Bool) → Option Pending → Option Pending
left q none = none
left q (some p) = if q p then none else some p

pub get-drop_if :
    (q : Pending → Bool) (req_id : String) (d : Dict String Pending)
    → IsUnique d
    → get req_id (drop_if q d d) ≡ left q (get req_id d)
get-drop_if q req_id d u =
    get-drop_if_from q req_id d d ∙ rw (get-keep_if q req_id d u) (by_entry (get req_id d))
  where
    by_entry : (o : Option Pending) → (if is_some (only_if q o) then none else o) ≡ left q o
    by_entry none = refl
    by_entry (some p) = ground (arith, q p)

pub drop_requests-drop_if :
    (client_id : String) (items d : Dict String Pending)
    → drop_requests client_id items d ≡ drop_if (is_dropped_with client_id) items d
unfolding drop_requests
drop_requests-drop_if client_id [] d = refl
drop_requests-drop_if client_id ((k, p) ∷ items) d = drop_requests-drop_if client_id items _

-- The requests that wait for an IDA.
abbrev pub is_waiting_for : String → Pending → Bool
is_waiting_for client_id p = p.ida_id == client_id

abbrev ida_trace : String → Option Fields
ida_trace client_id = some (field "ida_id" (text client_id) end)

module _ (delivers : ℕ → Message → Bool) (client_id code message : String) where
  -- The error to the agent of one such request, if it is still there.
  abbrev pub failure : Dict String Client → String → String → Pending → List Output
  failure clients bridge_id req_id p = elim (get p.agent_id clients) [
    | none ↦ []
    | some client ↦
        elim (error_response bridge_id p.req_type req_id p.agent_id code message
          (ida_trace client_id)) [
            | none ↦ []
            | some m ↦ sent client.ws m (delivers client.ws m) ∷ []
          ]
  ]

  abbrev pub failures : Dict String Client → String → Dict String Pending → List Output
  failures clients bridge_id [] = []
  failures clients bridge_id ((req_id, p) ∷ items) =
      let rest = failures clients bridge_id items in
      if is_waiting_for client_id p then failure clients bridge_id req_id p ++ rest else rest

  fail_request-run :
      (req_id : String) (p : Pending) (s : Server)
      → IsAnswerable p.req_type
      → run delivers (fail_request client_id code message req_id p) s ≡ record {
        outcome = returned tt;
        server = drop_pending req_id s;
        outputs = failure s.clients s.bridge_id req_id p;
      }
  unfolding fail_request run valid
  fail_request-run req_id p s answerable = elim (Option-cases (get p.agent_id s.clients)) [
    | inl gone ↦ rw (gone, failure, run) refl
    | inr (client, there) ↦
        let (m, e) =
          answer p.req_type answerable s.bridge_id req_id p.agent_id code message
            (ida_trace client_id) in
        rw (there, e, failure, run) refl
  ]

  pub fail_requests-run :
      (items : Dict String Pending) (s : Server)
      → All (λ e. IsAnswerable e.1.req_type) items
      → run delivers (fail_requests client_id code message items) s ≡ record {
        outcome = returned tt;
        server = record s { pending = drop_if (is_waiting_for client_id) items s.pending };
        outputs = failures s.clients s.bridge_id items;
      }
  unfolding fail_requests run
  fail_requests-run [] s all = refl
  fail_requests-run ((req_id, p) ∷ items) s (answerable, all) =
      elim (Bool-cases (is_waiting_for client_id p)) [
        | inl waits ↦ rw waits (
            run-bind delivers (λ _. fail_requests client_id code message items)
              (fail_request client_id code message req_id p) s
            ∙ ap (λ r. after r (λ _. run delivers (fail_requests client_id code message items)))
                (fail_request-run req_id p s answerable)
            ∙ rw (fail_requests-run items (drop_pending req_id s) all) refl)
        | inr not_waiting ↦ rw not_waiting (fail_requests-run items s all)
      ]
