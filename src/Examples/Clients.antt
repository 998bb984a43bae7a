-- ===== src/Examples/Clients.antt =====
-- A request of an agent (src/ida_bridge/agent_client.py), and the processes below one
-- (src/ida_bridge/proc.py), on concrete inputs.
use ida_bridge.Common.{ℕ, ◌≡◌, ◌≢◌, ◌↔◌, String, true, Option, none, some, List, [], ◌∷◌}
use ida_bridge.Protocol.Message.{Message, Route, kind_ida, Response, response, list_payload}
use ida_bridge.Process.Tree.{Entry, descendant_pids, is_member}
use ida_bridge.Process.Tree.Exact.{Descends, IsDistinct, descendants_exact}
use ida_bridge.Agent.{AgentClient}

-- A chain 4, 7, 9 below process 4, a cycle that leads back to it, and a process elsewhere.
abbrev processes : List Entry
processes =
    record { parent = 4; pid = 7 }
    ∷ record { parent = 7; pid = 9 }
    ∷ record { parent = 9; pid = 4 }
    ∷ record { parent = 1; pid = 2 }
    ∷ []

descendants_exact_example :
    (pids : List ℕ) × (descendant_pids processes 4 ≡ some pids)
    × IsDistinct pids
    × ((x : ℕ) → (is_member x pids ≡ true) ↔ (Descends processes 4 x × (x ≢ 4)))
descendants_exact_example = descendants_exact processes 4

abbrev attached : AgentClient
attached = record {
  client_id = "agent-1";
  bridge_id = some "bridge";
  conn = some (record { ws = 3; max_message_bytes = 1000 });
}

abbrev asked : Route
asked = record { id = "r1"; src = "agent-1"; dst = "bridge" }

abbrev listing : Response
listing = record {
  ok = true;
  code = none;
  message = none;
  trace = none;
  payload = list_payload kind_ida (some []);
}

abbrev parse : String → Option Message
parse s = some (response (record { id = "r1"; src = "bridge"; dst = "agent-1" }) listing)

abbrev size : Message → ℕ
size m = 90
