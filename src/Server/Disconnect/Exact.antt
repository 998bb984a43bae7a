-- ===== src/Server/Disconnect/Exact.antt =====
-- `_disconnect` (src/ida_bridge/server.py) as a whole, with nothing running at its awaits.
use ida_bridge.Common.{
  ℕ, String, ◌≡◌, refl, ◌∙◌, ◌&&◌, ◌==◌, Option, none, if◌then◌else◌, Bool, true, false, some, [],
  All, text_key, number_key, Bool-cases, inl, inr,
}
use ida_bridge.Common.Dict.{Dict, get, pop, has, get-All}
use ida_bridge.Protocol.Message.{Message, agent, ida}
use ida_bridge.Server.State.{Server, Client, Pending, TakeoverPending, ReleasePending}
use ida_bridge.Server.Co.Run.{run, returned}
use ida_bridge.Server.Ownership.{clear_ownership}
use ida_bridge.Server.Law.{IsAnswerable, IsWf}
use ida_bridge.Server.Disconnect.{
  meta_get, is_path, is_dropped_with, disconnect_ida, disconnect_agent, disconnect,
}
use ida_bridge.Server.Disconnect.Leaves.{
  drop_if, left, get-drop_if, drop_requests-drop_if, is_waiting_for, failures, fail_requests-run,
}

-- The registry without a client.
abbrev pub without : String → ℕ → Server → Server
without client_id ws s = record s {
  clients = pop client_id s.clients;
  by_ws = pop ws s.by_ws;
  ping_timeouts = pop client_id s.ping_timeouts;
}

-- The error that an IDA's requests fail with.
abbrev pub fault_code : Bool → String
fault_code true = "TARGET_PING_TIMEOUT"
fault_code false = "TARGET_DISCONNECTED"

abbrev pub fault_message : Bool → String
fault_message true = "keepalive ping timeout"
fault_message false = "IDA disconnected"

-- A request after an agent has gone: its own requests that carry no transition are dropped.
abbrev pub kept_from : Bool → Option TakeoverPending → Option ReleasePending → Bool
kept_from true none none = false
kept_from true none (some r) = true
kept_from true (some t) r = true
kept_from false t r = true

abbrev pub still_awaited : String → Option Pending → Option Pending
still_awaited client_id none = none
still_awaited client_id (some p) =
    if kept_from (p.agent_id == client_id) p.takeover p.release then some p else none

left-still_awaited :
    (client_id : String) (o : Option Pending)
    → left (is_dropped_with client_id) o ≡ still_awaited client_id o
left-still_awaited client_id none = refl
left-still_awaited client_id (some p) = by_fields (p.agent_id == client_id) p.takeover p.release
  where
    by_fields :
        (b : Bool) (t : Option TakeoverPending) (r : Option ReleasePending)
        → (if b
              && elim t [ none ↦ true | some u ↦ false ]
              && elim r [ none ↦ true | some q ↦ false ]
            then none
            else some p)
          ≡ (if kept_from b t r then some p else none)
    by_fields true none none = refl
    by_fields true none (some r) = refl
    by_fields true (some t) r = refl
    by_fields false t r = refl

module _ (delivers : ℕ → Message → Bool) (s : Server) (client_id : String) (client : Client) where
  -- An IDA that disconnects from a well-formed server is unregistered, nobody owns its environment any more, and each of its
  -- requests, and no other, is dropped and answered with an error to its agent: TARGET_PING_TIMEOUT
  -- after a keepalive timeout, else TARGET_DISCONNECTED. This holds when the `idb_path` of its hello
  -- is a string or absent.
  pub ida_disconnect_exact :
      IsWf s
      → get client_id s.clients ≡ some client
      → client.role ≡ ida
      → is_path (meta_get "idb_path" client.meta) ≡ true
      → run delivers (disconnect client_id) s ≡ (
          let pinged = has client_id s.ping_timeouts in
          record {
            outcome = returned tt;
            server = record (without client_id client.ws s) {
              ownership = pop client_id s.ownership;
              pending = drop_if (is_waiting_for client_id) s.pending s.pending;
            };
            outputs =
                failures delivers client_id
                  (fault_code pinged)
                  (fault_message pinged)
                  (pop client_id s.clients)
                  s.bridge_id
                  s.pending;
          })
  unfolding disconnect disconnect_ida run clear_ownership
  ida_disconnect_exact wf registered is_ida path =
      let all : All (λ e. IsAnswerable e.1.req_type) s.pending =
        get-All (λ p. IsAnswerable p.req_type) s.pending wf.unique_pending
          (λ k p e. (wf.tagged k p e).1) in
      let s' = record (without client_id client.ws s) { ownership = pop client_id s.ownership } in
      elim (Bool-cases (has client_id s.ping_timeouts)) [
        | inl pinged ↦
            rw (registered, is_ida, path, pinged, run)
              (fail_requests-run delivers client_id (fault_code true) (fault_message true) s.pending
                s' all)
        | inr not_pinged ↦
            rw (registered, is_ida, path, not_pinged, run)
              (fail_requests-run delivers client_id (fault_code false) (fault_message false)
                s.pending s' all)
      ]

  -- Under the same conditions, exactly the requests that waited for the IDA are no longer pending.
  pub ida_disconnect_pending :
      (req_id : String)
      → IsWf s
      → get client_id s.clients ≡ some client
      → client.role ≡ ida
      → is_path (meta_get "idb_path" client.meta) ≡ true
      → get req_id (run delivers (disconnect client_id) s).server.pending
        ≡ left (is_waiting_for client_id) (get req_id s.pending)
  ida_disconnect_pending req_id wf registered is_ida path =
      rw (ida_disconnect_exact wf registered is_ida path)
        (get-drop_if (is_waiting_for client_id) req_id s.pending wf.unique_pending)

  -- An agent that disconnects from a well-formed server is unregistered and nobody is told. Its requests
  -- in flight are dropped, so that their responses are ignored, but for the takeovers and
  -- releases, which stay pending as the requests of other agents do; no ownership changes.
  pub agent_disconnect_exact :
      IsWf s
      → get client_id s.clients ≡ some client
      → client.role ≡ agent
      → (pending : Dict String Pending) × (run delivers (disconnect client_id) s ≡ record {
        outcome = returned tt;
        server = record (without client_id client.ws s) { pending = pending };
        outputs = [];
      })
        × ((req_id : String) → get req_id pending ≡ still_awaited client_id (get req_id s.pending))
  unfolding disconnect disconnect_agent run
  agent_disconnect_exact wf registered is_agent = (
    drop_if (is_dropped_with client_id) s.pending s.pending,
    rw (registered, is_agent, drop_requests-drop_if client_id s.pending s.pending, run) refl,
    λ req_id.
        get-drop_if (is_dropped_with client_id) req_id s.pending wf.unique_pending
        ∙ left-still_awaited client_id (get req_id s.pending),
  )
