-- ===== src/Examples/Running.antt =====
-- Requests in an IDA (src/ida_bridge/ida_runtime.py) at concrete inputs.
use ida_bridge.Common.{
  ℕ, String, ◌≡◌, refl, true, Option, none, some, [], ◌∷◌, ◌≤◌, ◌+◌, differ, if◌then◌else◌, ◌==◌,
  text_key,
}
use ida_bridge.Protocol.Json.{null}
use ida_bridge.Protocol.Message.{Response, Request, Message, response, exec_request}
use ida_bridge.Runtime.Serialize.{Object, sequence_value, serialize_result, max_depth}
use ida_bridge.Runtime.Depth.{json_depth, serialize_result-depth}
use ida_bridge.Runtime.Handler.{
  Executed, Ran, ran, leaves, returns, Texts, Environment, back_to, handle,
}
use ida_bridge.Runtime.Answers.{Settles, handle-Answers, blank_message_is_internal}
use ida_bridge.Examples.Scene.{route, exec_of}

-- A list that contains itself.
abbrev circle : ℕ → Object
circle x = record { type_name = "list"; repr = "[[...]]"; node = sequence_value (0 ∷ []) }

serialize_result-depth_example : json_depth (serialize_result circle 0) ≤ max_depth + 2 + 0
serialize_result-depth_example = serialize_result-depth circle 0 (λ x. tt) 0

circle_depth : json_depth (serialize_result circle 0) ≡ 6
unfolding json_depth serialize_result
circle_depth = refl

-- Exceptions are known by their text; the environment counts the quits.
abbrev texts : Texts String
texts = record {
  strip = λ s. if s == " " then "" else s;
  blank_message = "ValidationError";
  message_of = λ x. some x;
  traceback_of = λ x. none;
  internal_message = λ x. some x;
  internal_traceback = λ x. x;
}

abbrev world : Environment ℕ String
world = record {
  make_exec_env = 0;
  has_idb = λ env. true;
  quit = λ env. (returns, env + 1);
  quit_flag = λ env. some true;
}

-- User code that raises an exception with the text " ".
abbrev fails_blank : Executed String
fails_blank = record {
  value = some null;
  serialization_failure = "TypeError";
  stdout = "";
  stderr = "";
  error = some " ";
}

abbrev run_code : String → ℕ → Ran String × ℕ
run_code code env = (ran fails_blank, env)

abbrev never : Message → Option String
never m = none

-- User code that leaves with SystemExit, after a reset.
abbrev exit_code : String → ℕ → Ran String × ℕ
exit_code code env = (leaves "SystemExit", env + 1)

abbrev exec_request_a : Request
exec_request_a = exec_request (exec_of (some "a") true)

handle-Answers_example :
    Settles world texts exit_code "ida" never route refl
      (some "SystemExit")
      exec_request_a
      (handle world texts exit_code "ida" never route exec_request_a 3)
handle-Answers_example =
    handle-Answers world texts exit_code "ida" never route refl (λ m. refl) (λ x. (x, refl))
      exec_request_a 3 refl

-- The other ending: an answer.
answered :
    Settles world texts run_code "ida" never route refl none exec_request_a
      (handle world texts run_code "ida" never route exec_request_a 0)
answered =
    handle-Answers world texts run_code "ida" never route refl (λ m. refl) (λ x. (x, refl))
      exec_request_a 0 refl

blank_message_is_internal_example :
    (r : Response) × ((handle world texts run_code "ida" never route
        (exec_request (exec_of (some "a") true))
        0).given
      ≡ response (back_to route) r ∷ [])
    × (r.code ≡ some "TARGET_INTERNAL_ERROR")
blank_message_is_internal_example =
    blank_message_is_internal world texts run_code "ida" never route refl (λ m. refl)
      (λ x. (x, refl)) (exec_of (some "a") true) 0 0 fails_blank " " " " refl refl refl
      (differ " " "" refl) refl
