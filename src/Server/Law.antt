-- ===== src/Server/Law.antt =====
-- What every handler of the bridge (src/ida_bridge/server.py) keeps at each of its writes.
use ida_bridge.Common.{
  ℕ, ap, ◌⊎◌, String, ◌≡◌, refl, Option, none, some, text_key, number_key, inl, inr,
}
use ida_bridge.Common.Dict.{Dict, get, IsUnique}
use ida_bridge.Protocol.Json.{Fields}
use ida_bridge.Protocol.Message.{Message, RequestType, list, remote, exec, reset, quit}
use ida_bridge.Protocol.Response.{error_response}
use ida_bridge.Server.State.{Server, Client, Pending, TakeoverPending, ReleasePending}
use ida_bridge.Server.Ownership.Moves.{Moves, Moves-refl}
use ida_bridge.Server.Ownership.Frame.{OnlyOwnership}

-- A request carries at most one ownership transition, and that is its own.
abbrev pub Tags : String → Option TakeoverPending → Option ReleasePending → Type 0
Tags req_id none none = Unit
Tags req_id (some t) none = t.req_id ≡ req_id
Tags req_id none (some r) = r.req_id ≡ req_id
Tags req_id (some t) (some r) = ⊥

-- A response class with all fields defaulted can answer it.
abbrev pub IsAnswerable : RequestType → Type 0
IsAnswerable list = ⊥
IsAnswerable _ = Unit

abbrev pub IsSound : String → Pending → Type 0
IsSound req_id p = Tags req_id p.takeover p.release × IsAnswerable p.req_type

pub record IsWf (s : Server) : Type 0 where
  pub reserved : get s.bridge_id s.clients ≡ none
  pub tagged : (req_id : String) (p : Pending) → get req_id s.pending ≡ some p → IsSound req_id p
  pub unique_pending : IsUnique s.pending
  pub unique_ownership : IsUnique s.ownership

pub record Lawful (s s' : Server) : Type 0 where
  pub same_config : s'.config ≡ s.config
  pub moves : Moves s s'
  pub keeps : IsWf s → IsWf s'

-- A change of the ownership alone.
pub ownership_law : (s s' : Server) → OnlyOwnership s s' → Moves s s' → Lawful s s'
ownership_law s s' only m = record {
  same_config = ap (λ (t : Server). t.config) only.rest;
  moves = m;
  keeps = λ wf. record {
    reserved = rw only.rest wf.reserved;
    tagged = rw only.rest wf.tagged;
    unique_pending = rw only.rest wf.unique_pending;
    unique_ownership = only.unique wf.unique_ownership;
  };
}

-- A change of the pending requests alone.
pub pending_law :
    (s : Server) (pending : Dict String Pending)
    → ((req_id : String) (p : Pending)
        → get req_id pending ≡ some p
        → (get req_id s.pending ≡ some p) ⊎ IsSound req_id p)
    → (IsUnique s.pending → IsUnique pending)
    → Lawful s (record s { pending = pending })
pending_law s pending from unique = record {
  same_config = refl;
  moves = Moves-refl s;
  keeps = λ wf. record {
    reserved = wf.reserved;
    tagged = λ req_id p e. elim (from req_id p e) [ inl old ↦ wf.tagged req_id p old | inr t ↦ t ];
    unique_pending = unique wf.unique_pending;
    unique_ownership = wf.unique_ownership;
  };
}

-- A change of the registry alone, that does not register the bridge's own name.
pub registry_law :
    (s : Server) (clients : Dict String Client) (by_ws : Dict ℕ String)
    (ping_timeouts : Dict String (Unit {0}))
    → (get s.bridge_id s.clients ≡ none → get s.bridge_id clients ≡ none)
    → Lawful s (record s { clients = clients; by_ws = by_ws; ping_timeouts = ping_timeouts })
registry_law s clients by_ws ping_timeouts reserved = record {
  same_config = refl;
  moves = Moves-refl s;
  keeps = λ wf. record {
    reserved = reserved wf.reserved;
    tagged = wf.tagged;
    unique_pending = wf.unique_pending;
    unique_ownership = wf.unique_ownership;
  };
}

-- A request of such a type has an error response.
pub answer :
    (t : RequestType)
    → IsAnswerable t
    → (bridge_id req_id dst code message : String) (trace : Option Fields)
    → (m : Message) × (error_response bridge_id t req_id dst code message trace ≡ some m)
unfolding error_response
answer list absurd_type bridge_id req_id dst code message trace = absurd absurd_type
answer remote a bridge_id req_id dst code message trace = (_, refl)
answer exec a bridge_id req_id dst code message trace = (_, refl)
answer reset a bridge_id req_id dst code message trace = (_, refl)
answer quit a bridge_id req_id dst code message trace = (_, refl)
