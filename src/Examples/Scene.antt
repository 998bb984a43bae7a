-- ===== src/Examples/Scene.antt =====
-- A small bridge for the tests of src/ida_bridge/server.py: two agents and one IDA.
use ida_bridge.Common.{String, Bool, true, false, Option, none, some, List, [], ◌∷◌, refl, text_key}
use ida_bridge.Common.Dict.{Dict, get, All-get}
use ida_bridge.Protocol.Json.{text, end, field}
use ida_bridge.Protocol.Message.{
  agent, ida, ExecRequest, ResetRequest, Route, RequestType, Response, exec_payload, reset_payload,
  Message,
}
use ida_bridge.Server.State.{
  Client, Pending, Config, Server, Ownership, TakeoverPending, ReleasePending,
}
use ida_bridge.Server.Bridge.{HostResult, not_started}
use ida_bridge.Server.Handler.{Parsed, parsed}
use ida_bridge.Server.Law.{IsWf, IsSound}

abbrev pub config : Config
config = record {
  bridge_id = "bridge";
  default_timeout_s = 30;
  stateful_ttl = 1800000;
  instance_id = "1";
  max_message_bytes = 1000000;
}

abbrev pub agent_client : Client
agent_client = record { ws = 1; role = agent; meta = end }

abbrev pub other_agent : Client
other_agent = record { ws = 2; role = agent; meta = end }

abbrev pub ida_client : Client
ida_client = record { ws = 7; role = ida; meta = field "idb_path" (text "/tmp/a.i64") end }

abbrev pub bridge_with : Dict String Pending → Dict String Ownership → Server
bridge_with pending ownership = record {
  config = config;
  now = 1000;
  clients = ("agent", agent_client) ∷ ("other", other_agent) ∷ ("ida", ida_client) ∷ [];
  by_ws = [];
  pending = pending;
  ownership = ownership;
  ping_timeouts = [];
}

abbrev pub route : Route
route = record { id = "r1"; src = "agent"; dst = "ida" }

abbrev pub back : Route
back = record { id = "r1"; src = "ida"; dst = "agent" }

abbrev pub exec_of : Option String → Bool → ExecRequest
exec_of session_id persist = record {
  session_id = session_id;
  persist = persist;
  code = "x = 1";
  timeout_s = none;
  reset_env = false;
}

abbrev pub reset_of : String → Bool → Bool → ResetRequest
reset_of session_id takeover release = record {
  session_id = session_id;
  timeout_s = none;
  takeover = takeover;
  release = release;
}

abbrev pub taking : TakeoverPending
taking = record { from_session_id = "a"; to_session_id = "b"; req_id = "r1" }

abbrev pub letting_go : ReleasePending
letting_go = record { session_id = "a"; req_id = "r1" }

-- A request of the agent that is due at 900.
abbrev pub request_of : RequestType → Option TakeoverPending → Option ReleasePending → Pending
request_of t takeover release = record {
  agent_id = "agent";
  ida_id = "ida";
  req_type = t;
  deadline = some 900;
  timeout_s = 1;
  takeover = takeover;
  release = release;
}

abbrev pub fine : Response
fine = record {
  ok = true;
  code = none;
  message = none;
  trace = none;
  payload = exec_payload none none none none;
}

abbrev pub reset_done : Response
reset_done = record fine { payload = reset_payload }

-- The bridge with one sound request in flight.
pub in_flight-IsWf :
    (p : Pending) (o : Ownership)
    → IsSound "r1" p
    → IsWf (bridge_with (("r1", p) ∷ []) (("ida", o) ∷ []))
unfolding get
in_flight-IsWf p o sound = record {
  reserved = refl;
  tagged = All-get IsSound (("r1", p) ∷ []) (sound, tt);
  unique_pending = (refl, tt);
  unique_ownership = (refl, tt);
}

abbrev pub parse_as : Message → String → Parsed
parse_as msg raw = parsed msg

abbrev pub no_host : List String → HostResult
no_host args = not_started "no such command"
