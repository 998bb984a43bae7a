-- ===== src/Examples/Loop.antt =====
-- The event loop of src/ida_bridge/server.py from a small bridge on.
use ida_bridge.Common.{refl, none, some, [], ◌∷◌}
use ida_bridge.Protocol.Message.{hello, agent, reset}
use ida_bridge.Protocol.Json.{end}
use ida_bridge.Server.State.{takeover_pending}
use ida_bridge.Server.Co.Within.{Within, Always}
use ida_bridge.Server.Law.{IsWf}
use ida_bridge.Server.Handler.{text_frame, closed_ok, handler}
use ida_bridge.Server.Loop.{Loop, here, next, ticks}
use ida_bridge.Server.Loop.Invariant.{idle, Reach-IsWf}
use ida_bridge.Server.Loop.Ownership.{AllowedAt, handler_ownership}
use ida_bridge.Examples.Scene.{bridge_with, request_of, taking, in_flight-IsWf, parse_as, no_host}

abbrev s0 : ida_bridge.Server.State.Server
s0 =
    bridge_with (("r1", request_of reset (some taking) none) ∷ [])
      (("ida", takeover_pending taking) ∷ [])

abbrev later : Loop
later = record (idle s0) { server = record s0 { now = 1005 } }

Reach-IsWf_example : IsWf later.server
Reach-IsWf_example =
    Reach-IsWf (parse_as (hello agent "third" end)) no_host
      (in_flight-IsWf (request_of reset (some taking) none) (takeover_pending taking) (refl, tt))
      (next here (ticks 5 refl))

handler_ownership_example :
    Within AllowedAt Always
      (handler (parse_as (hello agent "third" end)) no_host 9 none (text_frame "{}" ∷ []) closed_ok)
      s0
handler_ownership_example =
    handler_ownership (parse_as (hello agent "third" end)) no_host 9 none (text_frame "{}" ∷ [])
      closed_ok s0
