-- ===== src/Protocol/Response.antt =====
-- src/ida_bridge/protocol.py: the validators of the response classes, and the error responses that
-- the bridge and the IDA side build. A constructor that breaks a validator raises.
use ida_bridge.Common.{String, Bool, true, false, not, ◌&&◌, Option, none, some, if◌then◌else◌}
use ida_bridge.Protocol.Json.{Fields}
use ida_bridge.Protocol.Message.{
  RequestType, list, remote, exec, reset, quit, Route, Request, Payload, list_payload,
  remote_payload, exec_payload, reset_payload, quit_payload, Response, Message, response,
  request_type, response_type,
}

abbrev is_none {ℓ} : {A : Type ℓ} → Option A → Bool
is_none none = true
is_none (some a) = false

-- `_enforce_ok`, `_enforce_ok_only` and `_enforce_err_only`, at a field that is absent or not.
unfoldable pub enforce_ok : Bool → Bool → Bool → Bool
enforce_ok ok require_when_ok absent =
    if ok
    then (if require_when_ok then not absent else absent)
    else (if require_when_ok then absent else not absent)

unfoldable pub enforce_ok_only : Bool → Bool → Bool → Bool
enforce_ok_only ok require absent = if ok then (if require then not absent else absent) else true

unfoldable pub enforce_err_only : Bool → Bool → Bool → Bool
enforce_err_only ok require absent = if ok then true else (if require then not absent else absent)

unfoldable pub payload_is_valid : Bool → Payload → Bool
unfolding enforce_ok enforce_ok_only enforce_err_only
payload_is_valid ok (list_payload kind clients) = enforce_ok ok true (is_none clients)
payload_is_valid ok (remote_payload exit_code stdout stderr) =
    enforce_ok ok true (is_none exit_code)
    && enforce_ok ok true (is_none stdout)
    && enforce_ok ok true (is_none stderr)
payload_is_valid ok (exec_payload result stdout stderr traceback) =
    enforce_ok_only ok false (is_none traceback) && enforce_err_only ok false (is_none result)
payload_is_valid ok reset_payload = true
payload_is_valid ok quit_payload = true

unfoldable pub response_is_valid : Response → Bool
unfolding payload_is_valid
response_is_valid r =
    enforce_ok r.ok false (is_none r.code)
    && enforce_ok_only r.ok false (is_none r.message)
    && enforce_ok_only r.ok false (is_none r.trace)
    && payload_is_valid r.ok r.payload

-- The response class with its defaults. `ListResponse` has no default for `kind`: `none` is the
-- validation error of leaving it out.
unfoldable pub empty_payload : RequestType → Option Payload
empty_payload list = none
empty_payload remote = some (remote_payload none none none)
empty_payload exec = some (exec_payload none none none none)
empty_payload reset = some reset_payload
empty_payload quit = some quit_payload

abbrev pub error_body : String → String → Option Fields → Payload → Response
error_body code message trace payload = record {
  ok = false;
  code = some code;
  message = some message;
  trace = trace;
  payload = payload;
}

abbrev with_traceback : Option String → Payload → Payload
with_traceback none payload = payload
with_traceback (some tb) (exec_payload result stdout stderr traceback) =
    exec_payload result stdout stderr (some tb)
with_traceback (some tb) payload = payload

-- `error_for_request`: a traceback on a response that has no such field is an extra field, which
-- the model forbids.
unfoldable pub error_for_request :
    Route → Request → String → String → Option String → Option Message
unfolding empty_payload
error_for_request route req code message traceback = elim (empty_payload (request_type req)) [
  | none ↦ none
  | some payload ↦
      let answer =
        response (record { id = route.id; src = route.dst; dst = route.src })
          (error_body code message none (with_traceback traceback payload)) in
      elim traceback [
        | none ↦ some answer
        | some tb ↦ elim (request_type req) [ exec ↦ some answer | _ ↦ none ]
      ]
]

-- `error_from_response`: the same class with none of its fields.
unfoldable pub error_from_response : Route → Response → String → String → Option Message
unfolding empty_payload
error_from_response route resp code message = elim (empty_payload (response_type resp)) [
  | none ↦ none
  | some payload ↦ some (response route (error_body code message none payload))
]

-- `BridgeServer._error_response`.
unfoldable pub error_response :
    String → RequestType → String → String → String → String → Option Fields → Option Message
unfolding empty_payload
error_response bridge_id req_type req_id dst code message trace = elim (empty_payload req_type) [
  | none ↦ none
  | some payload ↦ some (
      response (record { id = req_id; src = bridge_id; dst = dst })
        (error_body code message trace payload))
]
