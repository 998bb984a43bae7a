-- ===== src/Server/Co.antt =====
-- Coroutines of the event loop: between two awaits a handler has the server to itself, and at an
-- await any other handler may run. `send` is `_send_best_effort` (its answer says whether the
-- message went out; it never raises), `close` an `await ws.close(…)` whose errors are dropped, and
-- `pause` any other await: the next message, a sleep, a subprocess.
pub mod Run
pub mod Within
use ida_bridge.Common.{ℕ, String, Bool, List, [], ◌∷◌, Option, none, some}
use ida_bridge.Protocol.Message.{Message}
use ida_bridge.Server.State.{Server}

-- `_AbortConnection`, and what `except Exception` of the handler catches.
pub data Exception : Type 0 where
  abort_connection key_error assertion_error validation_error type_error : Exception

pub data Co (A : Type 0) : Type 0 where
  ret : A → Co A
  raise : Exception → Co A
  read : (Server → Co A) → Co A
  write : (Server → Server) → Co A → Co A
  send : ℕ → Message → (Bool → Co A) → Co A
  close : ℕ → ℕ → String → Co A → Co A
  pause : Co A → Co A

infixl 5 ◌>>=◌ ◌>>◌
abbrev pub ◌>>=◌ : {A B : Type 0} → Co A → (A → Co B) → Co B
ret a >>= f = f a
raise e >>= f = raise e
read k >>= f = read (λ s. k s >>= f)
write g c >>= f = write g (c >>= f)
send w m k >>= f = send w m (λ b. k b >>= f)
close w n r c >>= f = close w n r (c >>= f)
pause c >>= f = pause (c >>= f)

abbrev pub ◌>>◌ : {A B : Type 0} → Co A → Co B → Co B
m >> n = m >>= λ _. n

abbrev pub done : Co (Unit {0})
done = ret tt

abbrev pub modify : (Server → Server) → Co (Unit {0})
modify f = write f done

abbrev pub send_best_effort : ℕ → Message → Co Bool
send_best_effort ws msg = send ws msg (λ ok. ret ok)

abbrev pub close_ws : ℕ → ℕ → String → Co (Unit {0})
close_ws ws code reason = close ws code reason done

-- `try … except`: `handler` sees the exception.
unfoldable pub catch : {A : Type 0} → Co A → (Exception → Co A) → Co A
catch (ret a) h = ret a
catch (raise e) h = h e
catch (read k) h = read (λ s. catch (k s) h)
catch (write g c) h = write g (catch c h)
catch (send w m k) h = send w m (λ b. catch (k b) h)
catch (close w n r c) h = close w n r (catch c h)
catch (pause c) h = pause (catch c h)

-- A pydantic model whose validators refuse its fields raises.
unfoldable pub valid : {A : Type 0} → Option A → Co A
valid none = raise validation_error
valid (some a) = ret a
