-- ===== src/Runtime/Handler.antt =====
-- src/ida_bridge/ida_runtime.py: `RequestHandler` and the responses that it builds. The exec environment and
-- what user code does to it are parameters, as are the texts of exceptions and whether `send` raises.
use ida_bridge.Common.{
  String, Bool, true, false, Option, none, some, List, [], ◌∷◌, ◌==◌, text_key, if◌then◌else◌,
}
use ida_bridge.Protocol.Json.{Json}
use ida_bridge.Protocol.Message.{
  Route, Request, Response, Message, response, ExecRequest, exec_request, reset_request,
  quit_request, exec_payload, reset_payload, quit_payload, Payload,
}
use ida_bridge.Protocol.Response.{error_for_request}

-- What `run_user_code` gives back: the value as `serialize_result` gives it (`none` when that raises), the
-- two streams, and the exception of the user's code.
pub record Executed (X : Type 0) : Type 0 where
  pub value : Option Json
  pub serialization_failure : X
  pub stdout : String
  pub stderr : String
  pub error : Option X

-- `run_code` may fail itself, with an `Exception`. The user's code may also leave it with an exception that
-- is none, such as `SystemExit` or `KeyboardInterrupt`, which nothing here catches.
pub data Ran (X : Type 0) : Type 0 where
  ran : Executed X → Ran X
  broke : X → Ran X
  leaves : X → Ran X

-- What a call of the user's `idb` comes to.
pub data Called (X : Type 0) : Type 0 where
  returns : Called X
  fails : X → Called X
  exits : X → Called X

-- The texts of an exception: its `str`, its traceback and its name with its `str`, `none` where making it
-- raises. `strip` is
-- Python's, which a `NonBlankStr` field applies, and `blank_message` the error of one that is then empty.
pub record Texts (X : Type 0) : Type 0 where
  pub strip : String → String
  pub blank_message : X
  pub message_of : X → Option String
  pub traceback_of : X → Option String
  pub internal_message : X → Option String
  pub internal_traceback : X → String

-- The exec environment: a fresh one, and the `idb` helper, which user code may have removed or put
-- something else for. `quit_flag` is `none` where reading the attribute raises.
pub record Environment (E X : Type 0) : Type 0 where
  pub make_exec_env : E
  pub has_idb : E → Bool
  pub quit : E → Called X × E
  pub quit_flag : E → Option Bool

abbrev or_none : String → Option String
or_none s = if s == "" then none else some s

abbrev succeeded : Payload → Response
succeeded payload = record {
  ok = true;
  code = none;
  message = none;
  trace = none;
  payload = payload;
}

module _ {X : Type 0} (t : Texts X) where
  -- An empty text counts as none.
  abbrev exec_message : Option String → String
  exec_message none = "execution failed"
  exec_message (some m) = if m == "" then "execution failed" else m

  abbrev exec_traceback : Option String → String
  exec_traceback none = "<traceback unavailable>"
  exec_traceback (some tb) = tb

  abbrev exec_failure : X → String → Response
  exec_failure e m = record {
    ok = false;
    code = some "EXEC_ERROR";
    message = some m;
    trace = none;
    payload = exec_payload none none none (some (exec_traceback (t.traceback_of e)));
  }

  -- `none` is the validation error of a blank message.
  unfoldable pub build_exec_error : X → Option Response
  build_exec_error e =
      let m = t.strip (exec_message (t.message_of e)) in
      if m == "" then none else some (exec_failure e m)

  unfoldable pub exec_outcome : Executed X → Option X → Option Json → Option Response
  unfolding build_exec_error
  exec_outcome r (some e) value = build_exec_error e
  exec_outcome r none none = build_exec_error r.serialization_failure
  exec_outcome r none (some ser) =
      some (succeeded (exec_payload (some ser) (or_none r.stdout) (or_none r.stderr) none))

  unfoldable pub build_exec_response : Executed X → Option Response
  unfolding exec_outcome
  build_exec_response r = exec_outcome r r.error r.value

abbrev pub back_to : Route → Route
back_to route = record { id = route.id; src = route.dst; dst = route.src }

-- One call of `handle`: the environment after it, the messages that `send` was given, in order, and the
-- exception that leaves the call.
pub record Handled (E X : Type 0) : Type 0 where
  pub env : E
  pub given : List Message
  pub raised : Option X

module _ {E X : Type 0} (world : Environment E X) (t : Texts X) (run_code : String → E → Ran X × E)
    (client_id : String)
    -- The exception of a `send` that raises.
    (send_raises : Message → Option X) where
  abbrev answer_of : Route → Response → Message
  answer_of route r = response (record { id = route.id; src = client_id; dst = route.src }) r

  abbrev traceback_for : Request → X → Option String
  traceback_for (exec_request e) x = some (t.internal_traceback x)
  traceback_for _ x = none

  -- `_internal_error_response`
  unfoldable pub internal_error_response : Route → Request → X → Option Message
  internal_error_response route req x = elim (t.internal_message x) [
    | none ↦ none
    | some message ↦
        error_for_request route req "TARGET_INTERNAL_ERROR" message (traceback_for req x)
  ]

  -- `except Exception`: the error response, whose own failure is only logged.
  unfoldable pub internal_error : Route → Request → X → List Message
  unfolding internal_error_response
  internal_error route req x = elim (internal_error_response route req x) [
    | none ↦ []
    | some m ↦ m ∷ []
  ]

  unfoldable pub sent_or_answered : Route → Request → E → Message → Handled E X
  unfolding internal_error
  sent_or_answered route req env m = elim (send_raises m) [
    | none ↦ record { env = env; given = m ∷ []; raised = none }
    | some x ↦ record { env = env; given = m ∷ internal_error route req x; raised = none }
  ]

  -- What becomes of the code's outcome, and of the response that is built from it.
  unfoldable pub answer_built : Route → Request → E → Option Response → Handled E X
  unfolding sent_or_answered
  answer_built route req env none = record {
    env = env;
    given = internal_error route req t.blank_message;
    raised = none;
  }
  answer_built route req env (some r) = sent_or_answered route req env (answer_of route r)

  unfoldable pub answer_ran : Route → Request → E → Ran X → Handled E X
  unfolding answer_built build_exec_response
  answer_ran route req env (broke x) = record {
    env = env;
    given = internal_error route req x;
    raised = none;
  }
  answer_ran route req env (leaves x) = record { env = env; given = []; raised = some x }
  answer_ran route req env (ran r) = answer_built route req env (build_exec_response t r)

  unfoldable pub handle_exec : Route → ExecRequest → E → Handled E X
  unfolding answer_ran
  handle_exec route e env =
      let after = run_code e.code (if e.reset_env then world.make_exec_env else env) in
      answer_ran route (exec_request e) after.1 after.0

  unfoldable pub answer_quit : Route → Request → Called X → E → Handled E X
  unfolding sent_or_answered
  answer_quit route req returns env =
      sent_or_answered route req env (answer_of route (succeeded quit_payload))
  answer_quit route req (fails x) env = record {
    env = env;
    given = internal_error route req x;
    raised = none;
  }
  answer_quit route req (exits x) env = record { env = env; given = []; raised = some x }

  unfoldable pub quit_idb : E → Called X × E
  quit_idb env = if world.has_idb env then world.quit env else (returns, env)

  unfoldable pub handle_quit : Route → Request → E → Handled E X
  unfolding answer_quit quit_idb
  handle_quit route req env = let after = quit_idb env in answer_quit route req after.0 after.1

  unfoldable pub handle : Route → Request → E → Handled E X
  unfolding handle_exec handle_quit sent_or_answered
  handle route (exec_request e) env = handle_exec route e env
  handle route (reset_request r) env =
      sent_or_answered route (reset_request r) world.make_exec_env
        (answer_of route (succeeded reset_payload))
  handle route (quit_request timeout_s) env = handle_quit route (quit_request timeout_s) env
  handle route req env = record { env = env; given = []; raised = none }

  -- `none` where the attribute of the user's `idb` cannot be read.
  unfoldable pub quit_requested : E → Option Bool
  quit_requested env = if world.has_idb env then world.quit_flag env else some false
