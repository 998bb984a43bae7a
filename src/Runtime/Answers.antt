-- ===== src/Runtime/Answers.antt =====
-- Which requests that an IDA takes are answered (src/ida_bridge/ida_runtime.py, `RequestHandler.handle`).
use ida_bridge.Common.{
  ℕ, inl, inr, Bool-cases, String, ◌≡◌, ◌≢◌, refl, ap, ◌∙◌, true, false, Option, none, some, List,
  [], ◌∷◌, arith, ◌==◌, text_key, same_iff, if◌then◌else◌,
}
use ida_bridge.Protocol.Json.{Json}
use ida_bridge.Protocol.Message.{
  Route, Request, Response, Message, response, exec_request, reset_request, quit_request,
  ExecRequest, list_request, remote_request, request_type, response_type, exec,
}
use ida_bridge.Protocol.Response.{error_for_request, empty_payload}
use ida_bridge.Conn.Receive.{is_ida_request}
use ida_bridge.Runtime.Handler.{
  Executed, Ran, ran, broke, leaves, Called, returns, fails, exits, Handled,
  internal_error_response, answer_quit, quit_idb, handle_quit, Texts, Environment, build_exec_error,
  build_exec_response, exec_outcome, back_to, internal_error, sent_or_answered, answer_built,
  answer_ran, handle_exec, handle,
}

module _ {E X : Type 0} (world : Environment E X) (t : Texts X) (run_code : String → E → Ran X × E)
    (client_id : String) (send_raises : Message → Option X) (route : Route)
    (ours : route.dst ≡ client_id) where
  -- Exactly one answer on the way back, of the type that the bridge expects.
  abbrev Answers : Request → List Message → Type 0
  Answers req given =
      (r : Response) × (given ≡ response (back_to route) r ∷ [])
      × (response_type r ≡ request_type req)

  -- The exception with which the user's code or the user's `idb` leaves the call, if it does.
  abbrev leaves_with : Ran X → Option X
  leaves_with (leaves x) = some x
  leaves_with _ = none

  abbrev exits_with : Called X → Option X
  exits_with (exits x) = some x
  exits_with _ = none

  abbrev pub left_with : Request → E → Option X
  left_with (exec_request e) env =
      leaves_with (run_code e.code (if e.reset_env then world.make_exec_env else env)).0
  left_with (quit_request s) env = if world.has_idb env then exits_with (world.quit env).0 else none
  left_with req env = none

  -- One answer and a normal return, or no answer where the user's code leaves with that exception.
  abbrev pub Settles : Option X → Request → Handled E X → Type 0
  Settles none req h = Answers req h.given × (h.raised ≡ none)
  Settles (some x) req h = (h.given ≡ []) × (h.raised ≡ some x)

  module _ (quiet : (m : Message) → send_raises m ≡ none)
      (named : (x : X) → (m : String) × (t.internal_message x ≡ some m)) where
    internal_error-Answers :
        (req : Request) (x : X)
        → is_ida_request req ≡ true
        → Answers req (internal_error world t run_code client_id send_raises route req x)
    unfolding internal_error internal_error_response error_for_request empty_payload
    internal_error-Answers (list_request kind) x h = absurd (cc)
    internal_error-Answers (remote_request argv) x h = absurd (cc)
    internal_error-Answers (exec_request e) x h = rw (internal_error, (named x).1) (_, refl, refl)
    internal_error-Answers (reset_request q) x h = rw (internal_error, (named x).1) (_, refl, refl)
    internal_error-Answers (quit_request s) x h = rw (internal_error, (named x).1) (_, refl, refl)

    sent-Answers :
        (req : Request) (env : E) (r : Response)
        → response_type r ≡ request_type req
        → Settles none req (
            sent_or_answered world t run_code client_id send_raises route req env
              (response (record { id = route.id; src = client_id; dst = route.src }) r))
    unfolding sent_or_answered
    sent-Answers req env r same =
        let m = response (record { id = route.id; src = client_id; dst = route.src }) r in
        let e : m ≡ response (back_to route) r = rw ours refl in
        (
          (r, rw (sent_or_answered, quiet m) (ap (λ (x : Message). x ∷ []) e), same),
          rw (sent_or_answered, quiet m) refl,
        )

    built-Answers :
        (e : ExecRequest) (env : E) (o : Option Response)
        → ((r : Response) → o ≡ some r → response_type r ≡ exec)
        → Settles none
            (exec_request e)
            (answer_built world t run_code client_id send_raises route (exec_request e) env o)
    unfolding answer_built
    built-Answers e env none same =
        (internal_error-Answers (exec_request e) t.blank_message refl, refl)
    built-Answers e env (some r) same = sent-Answers (exec_request e) env r (same r refl)

    error-type : (x : X) (r : Response) → build_exec_error t x ≡ some r → response_type r ≡ exec
    unfolding build_exec_error
    error-type x r e = ground arith

    outcome-type :
        (d : Executed X) (o : Option X) (v : Option Json) (r : Response)
        → exec_outcome t d o v ≡ some r
        → response_type r ≡ exec
    unfolding exec_outcome
    outcome-type d (some x) v r e = error-type x r e
    outcome-type d none none r e = error-type d.serialization_failure r e
    outcome-type d none (some ser) r e = ground arith

    ran-Answers :
        (e : ExecRequest) (env : E) (o : Ran X)
        → Settles
            (leaves_with o)
            (exec_request e)
            (answer_ran world t run_code client_id send_raises route (exec_request e) env o)
    unfolding answer_ran build_exec_response
    ran-Answers e env (broke x) = (internal_error-Answers (exec_request e) x refl, refl)
    ran-Answers e env (leaves x) = (refl, refl)
    ran-Answers e env (ran d) = built-Answers e env _ (outcome-type d d.error d.value)

    called-Answers :
        (s : Option ℕ) (env : E) (o : Called X)
        → Settles
            (exits_with o)
            (quit_request s)
            (answer_quit world t run_code client_id send_raises route (quit_request s) o env)
    unfolding answer_quit
    called-Answers s env returns = sent-Answers (quit_request s) env _ refl
    called-Answers s env (fails x) = (internal_error-Answers (quit_request s) x refl, refl)
    called-Answers s env (exits x) = (refl, refl)

    quit-Answers :
        (s : Option ℕ) (env : E)
        → Settles
            (left_with (quit_request s) env)
            (quit_request s)
            (handle_quit world t run_code client_id send_raises route (quit_request s) env)
    unfolding handle_quit quit_idb
    quit-Answers s env = elim (Bool-cases (world.has_idb env)) [
      | inl has ↦ rw has (called-Answers s _ _)
      | inr has_not ↦ rw has_not (called-Answers s env returns)
    ]

    internal_error-code :
        (e : ExecRequest) (x : X)
        → (r : Response) × (internal_error world t run_code client_id send_raises route
              (exec_request e)
              x
            ≡ response (back_to route) r ∷ [])
          × (r.code ≡ some "TARGET_INTERNAL_ERROR")
    unfolding internal_error internal_error_response error_for_request empty_payload
    internal_error-code e x = rw (internal_error, (named x).1) (_, refl, refl)

    error-blank :
        (x : X) (m : String)
        → t.message_of x ≡ some m
        → m ≢ ""
        → t.strip m ≡ ""
        → build_exec_error t x ≡ none
    unfolding build_exec_error
    error-blank x m text filled blank =
        let named : (m == "") ≡ false = ground (arith, same_iff m "") in
        rw (text, named, blank) refl

    -- When the text of the exception that user code raised is not empty, but blank, the agent is told of an
    -- internal error instead of EXEC_ERROR, whether the environment is reset or kept, as long as `send` does not
    -- raise and the text of an internal error can be made.
    pub blank_message_is_internal :
        (e : ExecRequest) (env env' : E) (d : Executed X) (x : X) (m : String)
        → run_code e.code (if e.reset_env then world.make_exec_env else env) ≡ (ran d, env')
        → d.error ≡ some x
        → t.message_of x ≡ some m
        → m ≢ ""
        → t.strip m ≡ ""
        → (r : Response) × ((handle world t run_code client_id send_raises route
              (exec_request e)
              env).given
            ≡ response (back_to route) r ∷ [])
          × (r.code ≡ some "TARGET_INTERNAL_ERROR")
    unfolding handle handle_exec answer_ran answer_built build_exec_response exec_outcome
    blank_message_is_internal e env env' d x m ran_to failed text filled blank =
        let (r, told, code) = internal_error-code e t.blank_message in
        let outcome : exec_outcome t d d.error d.value ≡ none =
          ap (λ o. exec_outcome t d o d.value) failed ∙ error-blank x m text filled blank in
        (
          r,
          ap
                (λ a.
                  (answer_ran world t run_code client_id send_raises route (exec_request e) a.1
                    a.0).given)
                ran_to
              ∙ ap
                  (λ o.
                    (answer_built world t run_code client_id send_raises route (exec_request e) env'
                      o).given)
                  outcome
              ∙ told,
          code,
        )

    -- An exec, reset or quit request that is handed to the runtime gets exactly one answer, on the way back to
    -- its sender and of the type that the bridge expects, and the call returns, unless the user's code (or the
    -- user's `idb` on a quit) leaves with an exception that is no `Exception`, such as `SystemExit`: then
    -- nothing is sent and that exception leaves the call. This holds as long as `send` does not raise and the
    -- text of an internal error can be made.
    pub handle-Answers :
        (req : Request) (env : E)
        → is_ida_request req ≡ true
        → Settles
            (left_with req env)
            req
            (handle world t run_code client_id send_raises route req env)
    unfolding handle handle_exec
    handle-Answers (list_request kind) env h = absurd (cc)
    handle-Answers (remote_request argv) env h = absurd (cc)
    handle-Answers (exec_request e) env h = ran-Answers e _ _
    handle-Answers (reset_request q) env h = sent-Answers (reset_request q) _ _ refl
    handle-Answers (quit_request s) env h = quit-Answers s env
