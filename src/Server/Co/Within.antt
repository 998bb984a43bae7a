-- ===== src/Server/Co/Within.antt =====
-- What a coroutine may do to the server, whatever other handlers do at its awaits: every write is
-- a step of `R`, and what it returns satisfies `Q`. After an await nothing is known of the server
-- but what a new read tells.
use ida_bridge.Common.{ℕ, String, Bool, true, false, Option, none, some, ◌≡◌, refl, if◌then◌else◌}
use ida_bridge.Protocol.Message.{Message, Role, agent, ida}
use ida_bridge.Server.State.{Server}
use ida_bridge.Server.Co.{
  Co, Exception, ret, raise, read, write, send, close, pause, ◌>>=◌, catch, valid,
}

abbrev Steps :
    (Server → Server → Type 0) → {A : Type 0} → (A → Server → Type 0) → Co A → Server → Type 0
Steps R Q (ret a) s = Q a s
Steps R Q (raise e) s = Unit
Steps R Q (read k) s = Steps R Q (k s) s
Steps R Q (write g c) s = R s (g s) × Steps R Q c (g s)
Steps R Q (send w m k) s = (s' : Server) (b : Bool) → Steps R Q (k b) s'
Steps R Q (close w n r c) s = (s' : Server) → Steps R Q c s'
Steps R Q (pause c) s = (s' : Server) → Steps R Q c s'

pub record Within (R : Server → Server → Type 0) {A : Type 0} (Q : A → Server → Type 0) (c : Co A)
    (s : Server) : Type 0 where
  pub at : Steps R Q c s

-- Nothing is said of what is returned.
abbrev pub Always : {A : Type 0} → A → Server → Type 0
Always a s = Unit

-- The rules that follow how a coroutine is built.
module _ {R : Server → Server → Type 0} {A : Type 0} {Q : A → Server → Type 0} where
  pub Within-ret : (a : A) (s : Server) → Q a s → Within R Q (ret a) s
  Within-ret a s h = record { at = h }

  pub Within-raise : (e : Exception) (s : Server) → Within R Q (raise e) s
  Within-raise e s = record { at = tt }

  pub Within-read : (k : Server → Co A) (s : Server) → Within R Q (k s) s → Within R Q (read k) s
  Within-read k s h = record { at = h.at }

  pub Within-write :
      (g : Server → Server) (c : Co A) (s : Server)
      → R s (g s)
      → Within R Q c (g s)
      → Within R Q (write g c) s
  Within-write g c s r h = record { at = (r, h.at) }

  pub Within-send :
      (w : ℕ) (m : Message) (k : Bool → Co A) (s : Server)
      → ((s' : Server) (b : Bool) → Within R Q (k b) s')
      → Within R Q (send w m k) s
  Within-send w m k s h = record { at = λ s' b. (h s' b).at }

  pub Within-close :
      (w n : ℕ) (reason : String) (c : Co A) (s : Server)
      → ((s' : Server) → Within R Q c s')
      → Within R Q (close w n reason c) s
  Within-close w n reason c s h = record { at = λ s'. (h s').at }

  pub Within-pause :
      (c : Co A) (s : Server) → ((s' : Server) → Within R Q c s') → Within R Q (pause c) s
  Within-pause c s h = record { at = λ s'. (h s').at }

  pub Within-if :
      (b : Bool) (m n : Co A) (s : Server)
      → (b ≡ true → Within R Q m s)
      → (b ≡ false → Within R Q n s)
      → Within R Q (if b then m else n) s
  Within-if true m n s t f = t refl
  Within-if false m n s t f = f refl

  pub Within-option :
      {B : Type 0} (o : Option B) (m : Co A) (f : B → Co A) (s : Server)
      → (o ≡ none → Within R Q m s)
      → ((b : B) → o ≡ some b → Within R Q (f b) s)
      → Within R Q (elim o [ none ↦ m | some b ↦ f b ]) s
  Within-option none m f s h k = h refl
  Within-option (some b) m f s h k = k b refl

  pub Within-role :
      (role : Role) (m n : Co A) (s : Server)
      → (role ≡ agent → Within R Q m s)
      → (role ≡ ida → Within R Q n s)
      → Within R Q (elim role [ agent ↦ m | ida ↦ n ]) s
  Within-role agent m n s h k = h refl
  Within-role ida m n s h k = k refl

  pub Within-catch :
      (m : Co A) (f : Exception → Co A) (s : Server)
      → Within R Q m s
      → ((e : Exception) (s' : Server) → Within R Q (f e) s')
      → Within R Q (catch m f) s
  unfolding catch
  Within-catch (ret a) f s h k = record { at = h.at }
  Within-catch (raise e) f s h k = k e s
  Within-catch (read r) f s h k = record {
    at = (Within-catch (r s) f s (record { at = h.at }) k).at;
  }
  Within-catch (write g c) f s h k = record {
    at = (h.at.0, (Within-catch c f (g s) (record { at = h.at.1 }) k).at);
  }
  Within-catch (send w m r) f s h k = record {
    at = λ s' b. (Within-catch (r b) f s' (record { at = h.at s' b }) k).at;
  }
  Within-catch (close w n r c) f s h k = record {
    at = λ s'. (Within-catch c f s' (record { at = h.at s' }) k).at;
  }
  Within-catch (pause c) f s h k = record {
    at = λ s'. (Within-catch c f s' (record { at = h.at s' }) k).at;
  }

module _ {R : Server → Server → Type 0} {A B : Type 0} {Q : A → Server → Type 0}
    {P : B → Server → Type 0} where
  pub Within-bind :
      (m : Co A) (f : A → Co B) (s : Server)
      → Within R Q m s
      → ((a : A) (s' : Server) → Q a s' → Within R P (f a) s')
      → Within R P (m >>= f) s
  Within-bind (ret a) f s h k = k a s h.at
  Within-bind (raise e) f s h k = record { at = tt }
  Within-bind (read r) f s h k = record { at = (Within-bind (r s) f s (record { at = h.at }) k).at }
  Within-bind (write g c) f s h k = record {
    at = (h.at.0, (Within-bind c f (g s) (record { at = h.at.1 }) k).at);
  }
  Within-bind (send w m r) f s h k = record {
    at = λ s' b. (Within-bind (r b) f s' (record { at = h.at s' b }) k).at;
  }
  Within-bind (close w n r c) f s h k = record {
    at = λ s'. (Within-bind c f s' (record { at = h.at s' }) k).at;
  }
  Within-bind (pause c) f s h k = record {
    at = λ s'. (Within-bind c f s' (record { at = h.at s' }) k).at;
  }

module _ {R : Server → Server → Type 0} {A B : Type 0} {P : B → Server → Type 0} where
  pub Within-valid :
      (o : Option A) (f : A → Co B) (s : Server)
      → ((a : A) → Within R P (f a) s)
      → Within R P (valid o >>= f) s
  unfolding valid
  Within-valid none f s h = record { at = tt }
  Within-valid (some a) f s h = h a

pub Within-valid_alone :
    {R : Server → Server → Type 0} {A : Type 0} (o : Option A) (s : Server)
    → Within R Always (valid o) s
unfolding valid
Within-valid_alone none s = record { at = tt }
Within-valid_alone (some a) s = record { at = tt }

-- A weaker relation.
pub Within-weaken :
    {R S : Server → Server → Type 0} {A : Type 0} {Q : A → Server → Type 0} (c : Co A) (s : Server)
    → ((t t' : Server) → R t t' → S t t')
    → Within R Q c s
    → Within S Q c s
Within-weaken (ret a) s f h = record { at = h.at }
Within-weaken (raise e) s f h = record { at = tt }
Within-weaken (read k) s f h = record { at = (Within-weaken (k s) s f (record { at = h.at })).at }
Within-weaken (write g c) s f h = record {
  at = (f s (g s) h.at.0, (Within-weaken c (g s) f (record { at = h.at.1 })).at);
}
Within-weaken (send w m k) s f h = record {
  at = λ s' b. (Within-weaken (k b) s' f (record { at = h.at s' b })).at;
}
Within-weaken (close w n r c) s f h = record {
  at = λ s'. (Within-weaken c s' f (record { at = h.at s' })).at;
}
Within-weaken (pause c) s f h = record {
  at = λ s'. (Within-weaken c s' f (record { at = h.at s' })).at;
}
