-- ===== src/Conn/Methods.antt =====
-- Each method of a `BridgeConn` (src/ida_bridge/bridge_conn.py) as the sequence of its accesses.
use ida_bridge.Common.{
  ℕ, zero, suc, ◌≡◌, refl, sym, subst, inl, inr, Bool, true, false, not, ◌&&◌, Option, none, some,
  List, String, [], ◌∷◌, arith, ◌==◌, text_key, number_key, if◌then◌else◌, Bool-cases,
}
use ida_bridge.Protocol.Message.{
  Message, hello, hello_ack, protocol_error, request, response, Route, Request,
}
use ida_bridge.Server.Handler.{Parsed, parsed, invalid}
use ida_bridge.Conn.State.{
  Conn, Item, incoming, sentinel, between, dialing, opened, put_nowait, wake, shutdown_queue, stop,
  mark_disconnected, recv, take_item, min_message_bytes, slow_retry, Phase,
}
use ida_bridge.Conn.Send.{
  Codec, Sent, send, put_out, transmit, outgoing, Outgoing, goes, dropped, raises,
}
use ida_bridge.Conn.Receive.{
  on_open, on_message, on_parsed, on_request, enqueue, queued, answer, reject, forget_ws,
  begin_attempt, end_attempt, announce, is_ida_request,
}
use ida_bridge.Conn.Loop.{
  Threads, at_rest, passes_tests, put_request, Access, clears, limits, attaches, renews, tests,
  puts, takes, wakes, stops, notes, sets_ws, dials, opens, ends, Accesses, here, next, Call, begins,
  opens_ws, receives, fails, ends_ws, recvs, sends, stops_conn,
}

-- From one connection to another, with no request held.
abbrev Leads : Conn → Conn → Type 0
Leads c d = Accesses (at_rest c) (at_rest d)

joined : {t u v : Threads} → Accesses t u → Accesses u v → Accesses t v
joined r here = r
joined r (next s step) = next (joined r s) step

one : {t u : Threads} → Access t u → Accesses t u
one step = next here step

choose :
    (b : Bool) (c d e : Conn)
    → (b ≡ true → Leads c d)
    → (b ≡ false → Leads c e)
    → Leads c (if b then d else e)
choose true c d e h g = h refl
choose false c d e h g = g refl

settle :
    (b : Bool) (c : Conn) (x y : Sent)
    → (b ≡ true → Leads c x.conn)
    → (b ≡ false → Leads c y.conn)
    → Leads c (if b then x else y).conn
settle true c x y h g = h refl
settle false c x y h g = g refl

-- `_mark_disconnected` behind its clearing, which `phase` is the phase of.
cleared-Leads :
    (now : ℕ) (phase : Phase) (c : Conn)
    → Leads
        (record c { ready = false; phase = phase })
        (record (mark_disconnected now c) { phase = phase })
unfolding mark_disconnected
cleared-Leads now phase c = elim (Bool-cases c.ready) [
  | inl was_ready ↦
      rw was_ready (next (next (one (limits min_message_bytes)) (notes now false false)) renews)
  | inr was_not ↦ rw was_not (one (limits min_message_bytes))
]

mark_disconnected-Leads : (now : ℕ) (c : Conn) → Leads c (mark_disconnected now c)
unfolding mark_disconnected
mark_disconnected-Leads now c = elim (Bool-cases c.ready) [
  | inl was_ready ↦
      rw was_ready
        (next (next (next (one clears) (limits min_message_bytes)) (notes now false false)) renews)
  | inr was_not ↦ rw was_not (next (one clears) (limits min_message_bytes))
]

forget_ws-Leads : (ws : ℕ) (c : Conn) → Leads c (forget_ws ws c)
unfolding forget_ws
forget_ws-Leads ws c =
    elim c.ws
      as (λ o. Leads c (elim o [
        | none ↦ c
        | some current ↦ if current == ws then record c { ws = none } else c
      ])) [
        | none ↦ here
        | some current ↦ choose (current == ws) c _ _ (λ e. one (sets_ws none)) (λ e. here)
      ]

reject-Leads : (now ws status : ℕ) (c : Conn) → Leads c (reject now ws status c).conn
unfolding reject
reject-Leads now ws status c =
    joined (mark_disconnected-Leads now c) (forget_ws-Leads ws (mark_disconnected now c))

announce-Leads : (sleep : ℕ) (c : Conn) → Leads c (announce sleep c)
unfolding announce
announce-Leads sleep c =
    choose (not c.retry_announced) c _ _
      (λ e. one (notes c.last_disconnect_at true c.backoff_announced))
      (λ e.
        choose (not c.backoff_announced && sleep == slow_retry) c _ _
          (λ f. one (notes c.last_disconnect_at c.retry_announced true)) (λ f. here))

end_attempt-Leads : (now ws : ℕ) (c : Conn) → Leads c (end_attempt now ws c)
unfolding end_attempt
end_attempt-Leads now ws c =
    joined (joined (one ends) (cleared-Leads now between c))
      (forget_ws-Leads ws (record (mark_disconnected now c) { phase = between }))

recv-Leads : (c : Conn) → Leads c (recv c).1
unfolding recv
recv-Leads c = taken c.inbox refl
  where
    taken : (q : List Item) → c.inbox ≡ q → Leads c (take_item q c).1
    taken [] e = here
    taken (incoming route req ∷ rest) e = one (takes (incoming route req) rest e)
    taken (sentinel ∷ rest) e = one (takes sentinel rest e)

-- The loop of `shutdown_queue` takes what is queued.
drained-Leads : (q : List Item) (c : Conn) → c.inbox ≡ q → Leads c (record c { inbox = [] })
drained-Leads [] c e = subst (λ q. Leads c (record c { inbox = q })) e here
drained-Leads (item ∷ rest) c e =
    joined (one (takes item rest e)) (drained-Leads rest (record c { inbox = rest }) refl)

sentinel_fits : (maxsize : ℕ) → put_nowait maxsize sentinel [] ≡ some (sentinel ∷ [])
unfolding put_nowait
sentinel_fits zero = refl
sentinel_fits (suc m) = ground arith

woken-Leads :
    (c : Conn)
    → Leads
        (record c { inbox = [] })
        (record c { inbox = shutdown_queue c.setup.queue_max true c.inbox })
unfolding shutdown_queue wake
woken-Leads c =
    let fits = sentinel_fits c.setup.queue_max in
    let woken : wake c.setup.queue_max [] ≡ sentinel ∷ [] = rw (wake, fits) refl in
    subst (λ q. Leads (record c { inbox = [] }) (record c { inbox = q })) (sym woken)
      (one (wakes (sentinel ∷ []) fits))

stop-Leads : (c : Conn) → Leads c (stop c).0
unfolding stop shutdown_queue
stop-Leads c = elim (Bool-cases c.stopped) [
  | inl already ↦ rw already here
  | inr going ↦ rw going (
      joined (joined (one stops) (drained-Leads c.inbox (record c { stopped = true }) refl))
        (woken-Leads (record c { stopped = true })))
]

module _ (k : Codec) (accepts : ℕ → Message → Bool) (now : ℕ) where
  transmit-Leads :
      (ws : Option ℕ) (msg : Message) (c : Conn) → Leads c (transmit k accepts now ws msg c).conn
  unfolding transmit
  transmit-Leads none msg c = here
  transmit-Leads (some ws) msg c = elim (Bool-cases (accepts ws msg)) [
    | inl out ↦ rw out here
    | inr lost ↦ rw lost (mark_disconnected-Leads now c)
  ]

  put_out-Leads : (o : Outgoing) (c : Conn) → Leads c (put_out k accepts now o c).conn
  unfolding put_out
  put_out-Leads (goes msg) c = transmit-Leads c.ws msg c
  put_out-Leads dropped c = here
  put_out-Leads raises c = here

  send-Leads : (msg : Message) (c : Conn) → Leads c (send k accepts now msg c).conn
  unfolding send
  send-Leads msg c = put_out-Leads (outgoing k c.max_message_bytes msg) c

  on_open-Leads : (c : Conn) → c.phase ≡ dialing → Leads c (on_open k accepts now c).conn
  unfolding on_open
  on_open-Leads c dialed = joined (one (opens dialed)) (send-Leads _ _)

  answer-Leads : (o : Option Message) (c : Conn) → Leads c (answer k accepts now o c).conn
  unfolding answer
  answer-Leads none c = here
  answer-Leads (some error) c = send-Leads error c

  -- The tests and `put_nowait`, with nothing in between.
  put-Leads :
      (route : Route) (req : Request) (c : Conn)
      → passes_tests route req c ≡ true
      → Leads c (put_request route req c)
  put-Leads route req c e = next (one (tests route req e)) (puts route req refl)

  enqueue-Leads :
      (route : Route) (req : Request) (c : Conn)
      → passes_tests route req c ≡ true
      → Leads c (enqueue k accepts now route req c).conn
  unfolding enqueue queued put_request
  enqueue-Leads route req c e = queued-Leads _ refl
    where
      queued-Leads :
          (o : Option (List Item))
          → put_nowait c.setup.queue_max (incoming route req) c.inbox ≡ o
          → Leads c (queued k accepts now o route req c).conn
      queued-Leads none full = answer-Leads _ c
      queued-Leads (some q) room =
          subst (Leads c) (rw (put_request, room) refl) (put-Leads route req c e)

  on_request-Leads :
      (ws : ℕ) (route : Route) (req : Request) (c : Conn)
      → Leads c (on_request k accepts now ws route req c).conn
  unfolding on_request passes_tests
  on_request-Leads ws route req c =
      let rejected = reject-Leads now ws 1008 c in
      settle (not c.ready) c _ _ (λ e. rejected)
        (λ is_ready.
          settle (not (is_ida_request req)) c _ _ (λ e. rejected)
            (λ kind.
              settle (not (route.dst == c.setup.client_id)) c _ _ (λ e. rejected)
                (λ ours. enqueue-Leads route req c (ground arith))))

  on_parsed-Leads :
      (ws : ℕ) (p : Parsed) (c : Conn)
      → c.phase ≡ opened
      → Leads c (on_parsed k accepts now ws p c).conn
  unfolding on_parsed
  on_parsed-Leads ws (invalid errors trace) c opn = reject-Leads now ws 1002 c
  on_parsed-Leads ws (parsed (hello_ack i b limit m)) c opn =
      settle c.ready c _ _ (λ again. reject-Leads now ws 1008 c)
        (λ fresh. next (one (limits limit)) (attaches opn))
  on_parsed-Leads ws (parsed (protocol_error code m t)) c opn = reject-Leads now ws 1008 c
  on_parsed-Leads ws (parsed (request route req)) c opn = on_request-Leads ws route req c
  on_parsed-Leads ws (parsed (hello r i m)) c opn = reject-Leads now ws 1008 c
  on_parsed-Leads ws (parsed (response route resp)) c opn = reject-Leads now ws 1008 c

-- Each method, run with no other thread in between, is a sequence of accesses.
Call-Accesses :
    (k : Codec) (accepts : ℕ → Message → Bool) (parse : String → Parsed) {c d : Conn}
    → Call k accepts parse c d
    → Leads c d
unfolding on_message begin_attempt
Call-Accesses k accepts parse {c} (begins ws idle) = next (one (sets_ws (some ws))) (dials idle)
Call-Accesses k accepts parse {c} (opens_ws now dialed) = on_open-Leads k accepts now c dialed
Call-Accesses k accepts parse {c} (receives now ws raw opn) =
    on_parsed-Leads k accepts now ws (parse raw) c opn
Call-Accesses k accepts parse {c} (fails now) = mark_disconnected-Leads now c
Call-Accesses k accepts parse {c} (ends_ws now ws) =
    joined (end_attempt-Leads now ws c) (announce-Leads _ _)
Call-Accesses k accepts parse {c} recvs = recv-Leads c
Call-Accesses k accepts parse {c} (sends now msg) = send-Leads k accepts now msg c
Call-Accesses k accepts parse {c} stops_conn = stop-Leads c
