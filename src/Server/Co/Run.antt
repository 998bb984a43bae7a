-- ===== src/Server/Co/Run.antt =====
-- A coroutine run with no other handler between its awaits: the answer to each send comes from
-- `delivers`, and what goes out is listed in order.
use ida_bridge.Common.{ℕ, Bool, true, List, [], ◌∷◌, ◌++◌, ◌≡◌, refl, ap, ◌∙◌}
use ida_bridge.Protocol.Message.{Message}
use ida_bridge.Server.State.{Server}
use ida_bridge.Server.Co.{Co, Exception, ret, raise, read, write, send, close, pause, ◌>>=◌}

pub data Outcome (A : Type 0) : Type 0 where
  returned : A → Outcome A
  raised : Exception → Outcome A

pub data Output : Type 0 where
  sent : ℕ → Message → Bool → Output
  closed : ℕ → ℕ → Output

pub record Run (A : Type 0) : Type 0 where
  pub outcome : Outcome A
  pub server : Server
  pub outputs : List Output

module _ {A : Type 0} (delivers : ℕ → Message → Bool) where
  unfoldable pub run : Co A → Server → Run A
  run (ret a) s = record { outcome = returned a; server = s; outputs = [] }
  run (raise e) s = record { outcome = raised e; server = s; outputs = [] }
  run (read k) s = run (k s) s
  run (write g c) s = run c (g s)
  run (send w m k) s =
      let r = run (k (delivers w m)) s in record r { outputs = sent w m (delivers w m) ∷ r.outputs }
  run (close w n reason c) s = let r = run c s in record r { outputs = closed w n ∷ r.outputs }
  run (pause c) s = run c s

-- Every peer is there to receive.
abbrev pub delivers_all : ℕ → Message → Bool
delivers_all ws msg = true

-- What runs after a coroutine that returned; an exception ends the rest.
abbrev pub after : {A B : Type 0} → Run A → (A → Server → Run B) → Run B
after r next = elim r.outcome [
  | returned a ↦
      (let q = next a r.server in
        record { outcome = q.outcome; server = q.server; outputs = r.outputs ++ q.outputs })
  | raised e ↦ record { outcome = raised e; server = r.server; outputs = r.outputs }
]

abbrev emit : {A : Type 0} → Output → Run A → Run A
emit o r = record { outcome = r.outcome; server = r.server; outputs = o ∷ r.outputs }

emit-after :
    {A B : Type 0} (o : Output) (t : Outcome A) (s : Server) (os : List Output)
    (next : A → Server → Run B)
    → emit o (after (record { outcome = t; server = s; outputs = os }) next)
      ≡ after (record { outcome = t; server = s; outputs = o ∷ os }) next
emit-after o (returned a) s os next = refl
emit-after o (raised e) s os next = refl

module _ {A B : Type 0} (delivers : ℕ → Message → Bool) (f : A → Co B) where
  pub run-bind :
      (c : Co A) (s : Server)
      → run delivers (c >>= f) s ≡ after (run delivers c s) (λ a. run delivers (f a))
  unfolding run
  run-bind (ret a) s = refl
  run-bind (raise e) s = refl
  run-bind (read k) s = run-bind (k s) s
  run-bind (write g c) s = run-bind c (g s)
  run-bind (send w m k) s =
      let r = run delivers (k (delivers w m)) s in
      ap (emit (sent w m (delivers w m))) (run-bind (k (delivers w m)) s)
      ∙ emit-after (sent w m (delivers w m)) r.outcome r.server r.outputs (λ a. run delivers (f a))
  run-bind (close w n reason c) s =
      let r = run delivers c s in
      ap (emit (closed w n)) (run-bind c s)
      ∙ emit-after (closed w n) r.outcome r.server r.outputs (λ a. run delivers (f a))
  run-bind (pause c) s = run-bind c s
