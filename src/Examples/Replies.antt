-- ===== src/Examples/Replies.antt =====
-- Responses of an IDA (src/ida_bridge/server.py, `_forward_to_agent`).
use ida_bridge.Common.{◌≡◌, refl, inr, true, none, some, [], ◌∷◌, text_key}
use ida_bridge.Common.Dict.{get}
use ida_bridge.Protocol.Message.{response, protocol_error, exec, reset}
use ida_bridge.Server.State.{Server, owned, takeover_pending, release_pending}
use ida_bridge.Server.Co.Run.{run, returned, sent, closed, delivers_all}
use ida_bridge.Server.Ownership.{new_lease}
use ida_bridge.Server.Disconnect.{ws_close_policy_violation}
use ida_bridge.Server.Reply.{forward_to_agent, mismatch_trace}
use ida_bridge.Server.Reply.Settles.{
  concluded, abandoned, response_delivered, mismatch_reported, takeover_settled, release_settled,
}
use ida_bridge.Examples.Scene.{
  bridge_with, agent_client, ida_client, back, request_of, taking, letting_go, fine, reset_done,
}

abbrev executing : Server
executing = bridge_with (("r1", request_of exec none none) ∷ []) (("ida", owned "a" 5000) ∷ [])

response_delivered_example :
    run delivers_all (forward_to_agent "ida" back fine) executing ≡ record {
      outcome = returned tt;
      server = concluded back true (request_of exec none none) executing;
      outputs = sent agent_client.ws (response back fine) true ∷ [];
    }
response_delivered_example =
    response_delivered executing "ida" back fine (request_of exec none none) agent_client
      (unfold get in refl) (refl, refl, refl) (unfold get in refl) refl

-- The answer to an exec is no answer to a reset.
abbrev transferring : Server
transferring =
    bridge_with (("r1", request_of reset (some taking) none) ∷ [])
      (("ida", takeover_pending taking) ∷ [])

mismatch_reported_example :
    run delivers_all (forward_to_agent "ida" back fine) transferring ≡ record {
      outcome = returned tt;
      server = abandoned back (request_of reset (some taking) none) transferring;
      outputs =
          sent ida_client.ws
            (protocol_error "RESPONSE_MISMATCH" "response does not match pending request"
              (some (mismatch_trace "ida" back fine (request_of reset (some taking) none))))
            true
          ∷ closed ida_client.ws ws_close_policy_violation
          ∷ [];
    }
mismatch_reported_example =
    mismatch_reported transferring "ida" back fine (request_of reset (some taking) none) ida_client
      (unfold get in refl) (inr (inr refl)) (unfold get in refl)

takeover_settled_example :
    get "ida"
      (run delivers_all (forward_to_agent "ida" back reset_done) transferring).server.ownership
    ≡ some (new_lease "b" transferring)
takeover_settled_example =
    takeover_settled transferring "ida" back reset_done (request_of reset (some taking) none) taking
      (unfold get in refl) refl refl (unfold get in refl)

abbrev releasing : Server
releasing =
    bridge_with (("r1", request_of reset none (some letting_go)) ∷ [])
      (("ida", release_pending letting_go) ∷ [])

release_settled_example :
    get "ida" (run delivers_all (forward_to_agent "ida" back reset_done) releasing).server.ownership
    ≡ none
release_settled_example =
    release_settled releasing "ida" back reset_done (request_of reset none (some letting_go))
      letting_go (unfold get in refl) refl refl refl (unfold get in refl)
