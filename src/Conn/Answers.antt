-- ===== src/Conn/Answers.antt =====
-- Every response of an IDA is answered (src/ida_bridge/bridge_conn.py, `send`), with itself or with an
-- error in its place.
use ida_bridge.Common.{
  ℕ, String, ◌≡◌, refl, sym, subst, ◌⊎◌, inl, inr, false, none, some, ◌≤◌, arith, ltb, Bool-cases,
  Option-cases,
}
use ida_bridge.Protocol.Message.{
  Message, Response, Route, response, response_type, RequestType, list, remote, exec, reset, quit,
}
use ida_bridge.Protocol.Response.{error_from_response, empty_payload, error_body}
use ida_bridge.Server.Law.{IsAnswerable}
use ida_bridge.Conn.Send.{Codec, Outgoing, goes, fit, replaced, outgoing, not_serializable_message}

abbrev pub IsError : Response → String → Type 0
IsError r code = (r.ok ≡ false) × (r.code ≡ some code)

-- What stands for a response on the wire.
abbrev pub StandsFor : Response → Response → Type 0
StandsFor resp r =
    (r ≡ resp) ⊎ (IsError r "RESPONSE_NOT_SERIALIZABLE" ⊎ IsError r "RESPONSE_TOO_LARGE")

pub record Answered (k : Codec) (limit : ℕ) (route : Route) (resp : Response) (o : Outgoing)
    : Type 0 where
  pub sent_response : Response
  pub goes_out : o ≡ goes (response route sent_response)
  pub stands_for : StandsFor resp sent_response
  pub size : ℕ
  pub serialized : k.dump (response route sent_response) ≡ some size
  pub fits : size ≤ limit

-- Error responses consist of short ASCII texts: they serialize, and the one that reports an oversize
-- response is within the limit (the protocol's minimum is 16 KiB).
pub record Reports (k : Codec) (limit : ℕ) (route : Route) (resp : Response) : Type 0 where
  pub serialize :
      (code message : String) (error : Message)
      → error_from_response route resp code message ≡ some error
      → (n : ℕ) × (k.dump error ≡ some n)
  pub small :
      (size n : ℕ) (error : Message)
      → error_from_response route resp "RESPONSE_TOO_LARGE" (k.too_large size limit) ≡ some error
      → k.dump error ≡ some n
      → n ≤ limit

failure_for :
    (route : Route) (resp : Response) (code message : String)
    → IsAnswerable (response_type resp)
    → (r : Response) × (error_from_response route resp code message ≡ some (response route r))
      × IsError r code
unfolding error_from_response empty_payload
failure_for route resp code message answerable = by_type (response_type resp) answerable
  where
    by_type :
        (t : RequestType)
        → IsAnswerable t
        → (r : Response) × ((elim (empty_payload t) [
          | none ↦ none
          | some payload ↦ some (response route (error_body code message none payload))
        ])
            ≡ some (response route r))
          × IsError r code
    by_type list a = absurd a
    by_type remote a = (_, refl, (refl, refl))
    by_type exec a = (_, refl, (refl, refl))
    by_type reset a = (_, refl, (refl, refl))
    by_type quit a = (_, refl, (refl, refl))

module _ (k : Codec) (limit : ℕ) (route : Route) (resp : Response)
    (answerable : IsAnswerable (response_type resp)) (reports : Reports k limit route resp) where
  fit-Answered :
      (r : Response) (size : ℕ)
      → StandsFor resp r
      → k.dump (response route r) ≡ some size
      → Answered k limit route resp (fit k limit (some (route, resp)) (response route r) size)
  unfolding fit
  fit-Answered r size stands serialized = elim (Bool-cases (ltb limit size)) [
    | inl too_large ↦
        let (r', e, is_error) =
          failure_for route resp "RESPONSE_TOO_LARGE" (k.too_large size limit) answerable in
        let (n, d) = reports.serialize "RESPONSE_TOO_LARGE" (k.too_large size limit) _ e in
        record {
          sent_response = r';
          goes_out = rw (too_large, e, d) refl;
          stands_for = inr (inr is_error);
          size = n;
          serialized = d;
          fits = reports.small size n _ e d;
        }
    | inr fits ↦ record {
      sent_response = r;
      goes_out = rw fits refl;
      stands_for = stands;
      size = size;
      serialized = serialized;
      fits = ground arith;
    }
  ]

  -- `send` turns every response whose class can report an error into exactly one message, on the same
  -- route and within the limit: the response itself, or an error that says that it could not be
  -- serialized or was too large. (Error responses serialize, and the one for an oversize response is
  -- within the limit.)
  pub response-Answered : Answered k limit route resp (outgoing k limit (response route resp))
  unfolding outgoing replaced
  response-Answered = elim (Option-cases (k.dump (response route resp))) [
    | inl fails ↦
        let (r, e, is_error) =
          failure_for route resp "RESPONSE_NOT_SERIALIZABLE"
            (not_serializable_message k (response route resp)) answerable in
        let (n, d) = reports.serialize "RESPONSE_NOT_SERIALIZABLE" _ _ e in
        let step : outgoing k limit (response route resp)
            ≡ fit k limit (some (route, resp)) (response route r) n =
          rw (outgoing, fails, replaced, e, d) refl in
        subst (Answered k limit route resp) (sym step) (fit-Answered r n (inr (inl is_error)) d)
    | inr (size, d) ↦
        let step : outgoing k limit (response route resp)
            ≡ fit k limit (some (route, resp)) (response route resp) size =
          rw (outgoing, d) refl in
        subst (Answered k limit route resp) (sym step) (fit-Answered resp size (inl refl) d)
  ]
