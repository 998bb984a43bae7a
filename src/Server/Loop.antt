-- ===== src/Server/Loop.antt =====
-- The event loop (src/ida_bridge/server.py under asyncio): the server, and the coroutines that wait at
-- an await. A step runs one of them up to its next await; a connection comes in; the timeout
-- loop wakes up; time passes.
pub mod Invariant
pub mod Ownership
use ida_bridge.Common.{
  ℕ, ◌+◌, ◌≡◌, refl, String, Bool, Option, none, some, List, [], ◌∷◌, ◌++◌, All,
}
use ida_bridge.Server.State.{Server}
use ida_bridge.Server.Co.{Co, ret, raise, read, write, send, close, pause, done}
use ida_bridge.Server.Bridge.{HostResult}
use ida_bridge.Server.Handler.{Frame, Ending, Parsed, handler}
use ida_bridge.Server.Timeouts.{timeout_round}

abbrev pub Task : Type 0
Task = Co (Unit {0})

-- Up to the next await.
unfoldable pub advance : Task → Server → Task × Server
advance (ret a) s = (ret a, s)
advance (raise e) s = (raise e, s)
advance (read k) s = advance (k s) s
advance (write g c) s = advance c (g s)
advance (send w m k) s = (send w m k, s)
advance (close w n r c) s = (close w n r c, s)
advance (pause c) s = (pause c, s)

-- What comes after an await; the Boolean is the answer to a send.
unfoldable pub resume : Bool → Task → Task
resume b (send w m k) = k b
resume b (close w n r c) = c
resume b (pause c) = c
resume b c = c

pub record Loop : Type 0 where
  pub server : Server
  pub tasks : List Task

module _ (parse : String → Parsed) (host_cli : List String → HostResult) where
  pub data Step (x y : Loop) : Type 0 where
    runs :
        (before after : List Task) (c : Task) (delivered : Bool)
        → x.tasks ≡ before ++ c ∷ after
        → y ≡ record {
          server = (advance (resume delivered c) x.server).1;
          tasks = before ++ (advance (resume delivered c) x.server).0 ∷ after;
        }
        → Step x y
    connects :
        (ws : ℕ) (frames : List Frame) (ending : Ending)
        → y ≡ record x { tasks = handler parse host_cli ws none frames ending ∷ x.tasks }
        → Step x y
    wakes : y ≡ record x { tasks = pause timeout_round ∷ x.tasks } → Step x y
    ticks :
        (elapsed : ℕ)
        → y ≡ record x { server = record x.server { now = x.server.now + elapsed } }
        → Step x y

  pub data Reach (x : Loop) : Loop → Type 0 where
    here : Reach x x
    next : {y z : Loop} → Reach x y → Step y z → Reach x z
