-- ===== src/Server/Loop/Invariant.antt =====
-- Under every interleaving of the handlers (src/ida_bridge/server.py) the server stays well-formed.
use ida_bridge.Common.{ℕ, ◌+◌, subst, String, Bool, none, List, [], ◌∷◌, ◌++◌, All, text_key}
use ida_bridge.Server.State.{Server}
use ida_bridge.Server.Co.{ret, raise, read, write, send, close, pause}
use ida_bridge.Server.Co.Within.{Within, Always}
use ida_bridge.Server.Law.{Lawful, IsWf}
use ida_bridge.Server.Bridge.{HostResult}
use ida_bridge.Server.Handler.{Parsed, handler, Frame, Ending}
use ida_bridge.Server.Handler.Lawful.{handler-IsLawful}
use ida_bridge.Server.Timeouts.{timeout_round}
use ida_bridge.Server.Timeouts.Lawful.{timeout_round-IsLawful}
use ida_bridge.Server.Loop.{
  Task, advance, resume, Loop, Step, runs, connects, wakes, ticks, Reach, here, next,
}

abbrev Keeps : Server → Server → Type 0
Keeps s s' = IsWf s → IsWf s'

-- A waiting coroutine may be resumed in any server.
abbrev IsReady : Task → Type 0
IsReady c = (b : Bool) (s : Server) → Within Lawful Always (resume b c) s

advance-Evolves :
    (c : Task) (s : Server)
    → Within Lawful Always c s
    → Keeps s (advance c s).1 × IsReady (advance c s).0
unfolding advance resume
advance-Evolves (ret a) s w = ((λ wf. wf), λ b s'. record { at = tt })
advance-Evolves (raise e) s w = ((λ wf. wf), λ b s'. record { at = tt })
advance-Evolves (read k) s w = advance-Evolves (k s) s (record { at = w.at })
advance-Evolves (write g c) s w =
    let (e, r) = advance-Evolves c (g s) (record { at = w.at.1 }) in
    ((λ wf. e (w.at.0.keeps wf)), r)
advance-Evolves (send w m k) s h = ((λ wf. wf), λ b s'. record { at = h.at s' b })
advance-Evolves (close w n r c) s h = ((λ wf. wf), λ b s'. record { at = h.at s' })
advance-Evolves (pause c) s h = ((λ wf. wf), λ b s'. record { at = h.at s' })

All-middle :
    {P : Task → Type 0} (before after : List Task) (c : Task)
    → All P (before ++ c ∷ after)
    → P c × ((d : Task) → P d → All P (before ++ d ∷ after))
All-middle [] after c (h, hs) = (h, λ d p. (p, hs))
All-middle (b ∷ before) after c (h, hs) =
    let (hc, back) = All-middle before after c hs in (hc, λ d p. (h, back d p))

abbrev pub IsReadyLoop : Loop → Type 0
IsReadyLoop x = All IsReady x.tasks

abbrev pub idle : Server → Loop
idle s = record { server = s; tasks = [] }

module _ (parse : String → Parsed) (host_cli : List String → HostResult) where
  handler-IsReady :
      (ws : ℕ) (frames : List Frame) (ending : Ending)
      → IsReady (handler parse host_cli ws none frames ending)
  unfolding handler resume
  handler-IsReady ws [] ending b s = record {
    at = (handler-IsLawful parse host_cli ws none [] ending s).at s;
  }
  handler-IsReady ws (frame ∷ frames) ending b s = record {
    at = (handler-IsLawful parse host_cli ws none (frame ∷ frames) ending s).at s;
  }

  timeout-IsReady : IsReady (pause timeout_round)
  unfolding resume
  timeout-IsReady b s = timeout_round-IsLawful s

  passes : (s : Server) (elapsed : ℕ) → Keeps s (record s { now = s.now + elapsed })
  passes s elapsed wf = record {
    reserved = wf.reserved;
    tagged = wf.tagged;
    unique_pending = wf.unique_pending;
    unique_ownership = wf.unique_ownership;
  }

  abbrev Carries : Loop → Loop → Type 0
  Carries x y = Keeps x.server y.server × IsReadyLoop y

  Step-Carries : {x y : Loop} → IsReadyLoop x → Step parse host_cli x y → Carries x y
  Step-Carries {x} ready (runs before after c delivered e f) =
      let (rc, back) = All-middle before after c (subst (All IsReady) e ready) in
      let (ev, ready') = advance-Evolves (resume delivered c) x.server (rc delivered x.server) in
      rw f (ev, back _ ready')
  Step-Carries {x} ready (connects ws frames ending f) =
      rw f ((λ wf. wf), (handler-IsReady ws frames ending, ready))
  Step-Carries {x} ready (wakes f) = rw f ((λ wf. wf), (timeout-IsReady, ready))
  Step-Carries {x} ready (ticks elapsed f) = rw f (passes x.server elapsed, ready)

  pub Reach-Carries : {x y : Loop} → IsReadyLoop x → Reach parse host_cli x y → Carries x y
  Reach-Carries {x} ready here = ((λ wf. wf), ready)
  Reach-Carries ready (next r st) =
      let (ev, ready') = Reach-Carries ready r in
      let (ev', ready'') = Step-Carries ready' st in ((λ wf. ev' (ev wf)), ready'')

  -- Whatever connections come in, whatever they send, and however the handlers and the timeout loop
  -- interleave at their awaits: a server that starts well-formed stays so. Nobody is ever registered
  -- under the bridge's own name, and every pending request carries at most one ownership transition,
  -- which bears the request's own id, and has a response class that can report an error for it.
  pub Reach-IsWf :
      {s : Server} {y : Loop} → IsWf s → Reach parse host_cli (idle s) y → IsWf y.server
  Reach-IsWf wf r = (Reach-Carries tt r).0 wf
