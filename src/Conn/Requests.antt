-- ===== src/Conn/Requests.antt =====
-- What becomes of a request that reaches an attached IDA (src/ida_bridge/bridge_conn.py, `_on_message`).
use ida_bridge.Common.{
  ℕ, ◌≡◌, refl, ap, Bool, true, false, not, ◌||◌, Option, none, some, [], ◌∷◌, ◌++◌, ◌≤◌, arith,
  ltb, length, ◌==◌, number_key, text_key, same_iff, ◌∙◌, if◌then◌else◌,
}
use ida_bridge.Protocol.Message.{
  Message, Response, Route, Request, request, response, exec_request, reset_request, quit_request,
}
use ida_bridge.Protocol.Response.{error_for_request, empty_payload}
use ida_bridge.Conn.State.{Conn, incoming, put_nowait, sends}
use ida_bridge.Conn.Answers.{IsError}
use ida_bridge.Conn.Send.{Codec, goes, send, outgoing, fit, put_out, transmit}
use ida_bridge.Conn.Receive.{on_request, enqueue, queued, only, answer, is_ida_request}

-- The error for a request that finds the queue full.
abbrev pub full_error : Route → Request → Option Message
full_error route req = error_for_request route req "QUEUE_FULL" "request queue is full" none

abbrev pub reversed : Route → Route
reversed route = record { id = route.id; src = route.dst; dst = route.src }

full_error-reports :
    (route : Route) (req : Request)
    → is_ida_request req ≡ true
    → (r : ida_bridge.Protocol.Message.Response) × (full_error route req
        ≡ some (response (reversed route) r))
      × IsError r "QUEUE_FULL"
unfolding error_for_request empty_payload
full_error-reports route (ida_bridge.Protocol.Message.list_request kind) h = absurd (cc)
full_error-reports route (ida_bridge.Protocol.Message.remote_request argv) h = absurd (cc)
full_error-reports route (exec_request e) h = (_, refl, (refl, refl))
full_error-reports route (reset_request r) h = (_, refl, (refl, refl))
full_error-reports route (quit_request t) h = (_, refl, (refl, refl))

skip {ℓ} : {A : Type ℓ} (b : Bool) (x y : A) → b ≡ false → (if b then x else y) ≡ y
skip b x y e = rw e refl

abbrev pub has_room : Conn → Bool
has_room c = c.setup.queue_max == 0 || ltb (length c.inbox) c.setup.queue_max

module _ (k : Codec) (accepts : ℕ → Message → Bool) (now ws : ℕ) (route : Route) (req : Request)
    (c : Conn) where
  accepted :
      c.ready ≡ true
      → is_ida_request req ≡ true
      → route.dst ≡ c.setup.client_id
      → on_request k accepts now ws route req c ≡ enqueue k accepts now route req c
  unfolding on_request
  accepted is_ready kind ours =
      skip (not c.ready) _ _ (ground arith)
      ∙ skip (not (is_ida_request req)) _ _ (ground arith)
      ∙ skip (not (route.dst == c.setup.client_id)) _ _
          (ground (arith, same_iff route.dst c.setup.client_id))

  outgoing-goes :
      (route' : Route) (r : Response) (n : ℕ)
      → k.dump (response route' r) ≡ some n
      → n ≤ c.max_message_bytes
      → outgoing k c.max_message_bytes (response route' r) ≡ goes (response route' r)
  unfolding outgoing fit
  outgoing-goes route' r n d small =
      let fits : ltb c.max_message_bytes n ≡ false = ground arith in rw (outgoing, d, fits) refl

  told :
      (route' : Route) (r : Response)
      → c.ws ≡ some ws
      → ((m : Message) → accepts ws m ≡ true)
      → transmit k accepts now c.ws (response route' r) c
        ≡ record { conn = c; actions = sends ws (response route' r) ∷ []; raised = false }
  unfolding transmit
  told route' r current takes =
      ap (λ w. transmit k accepts now w (response route' r) c) current
      ∙ rw (takes (response route' r)) refl

  by_room :
      (r : Response)
      → full_error route req ≡ some (response (reversed route) r)
      → (n : ℕ) → k.dump (response (reversed route) r) ≡ some n
      → n ≤ c.max_message_bytes
      → c.ws ≡ some ws
      → ((m : Message) → accepts ws m ≡ true)
      → (b : Bool)
      → queued k accepts now
          (if b then some (c.inbox ++ incoming route req ∷ []) else none)
          route
          req
          c
        ≡ (if b then only (record c { inbox = c.inbox ++ incoming route req ∷ [] }) else record {
          conn = c;
          actions = sends ws (response (reversed route) r) ∷ [];
          raised = false;
        })
  unfolding queued answer send put_out
  by_room r e n d fits current takes true = refl
  by_room r e n d fits current takes false =
      ap (λ o. answer k accepts now o c) e
      ∙ ap (λ o. put_out k accepts now o c) (outgoing-goes (reversed route) r n d fits)
      ∙ told (reversed route) r current takes

  -- A request for an attached IDA is never lost: it goes to the end of the queue when there is room,
  -- and else its sender gets a QUEUE_FULL error with the request's id. (That error is a short text that
  -- serializes within the limit, and the websocket takes it.)
  pub request_kept_or_answered :
      c.ready ≡ true
      → is_ida_request req ≡ true
      → route.dst ≡ c.setup.client_id
      → c.ws ≡ some ws
      → ((m : Message) → accepts ws m ≡ true)
      → ((r : Response)
          → full_error route req ≡ some (response (reversed route) r)
          → (n : ℕ) × (k.dump (response (reversed route) r) ≡ some n) × (n ≤ c.max_message_bytes))
      → (r : Response) × IsError r "QUEUE_FULL"
        × (on_request k accepts now ws route req c ≡ (
            if has_room c
            then only (record c { inbox = c.inbox ++ incoming route req ∷ [] })
            else record {
              conn = c;
              actions = sends ws (response (reversed route) r) ∷ [];
              raised = false;
            }))
  unfolding enqueue put_nowait
  request_kept_or_answered is_ready kind ours current takes small =
      let (r, e, is_error) = full_error-reports route req kind in
      let (n, d, fits) = small r e in
      (r, is_error, accepted is_ready kind ours ∙ by_room r e n d fits current takes (has_room c))
