-- ===== src/Server/Hello/Registers.antt =====
-- The registry under `_handle_hello` (src/ida_bridge/server.py), with nothing running at its awaits.
use ida_bridge.Common.{
  ℕ, String, ◌≡◌, ◌≢◌, refl, Bool, true, false, none, some, [], ◌∷◌, arith, ◌==◌, text_key,
  number_key, same_iff, Bool-cases, inl, inr,
}
use ida_bridge.Common.Dict.{get, put, pop, has, get-put, get-pop}
use ida_bridge.Protocol.Json.{Fields}
use ida_bridge.Protocol.Message.{Message, Role, agent, ida, role_cases}
use ida_bridge.Server.State.{Server, Client}
use ida_bridge.Server.Co.Run.{run, returned, sent, delivers_all}
use ida_bridge.Server.Disconnect.{protocol_fault_with, meta_get, is_path}
use ida_bridge.Server.Hello.{register, ack, refuse, greet, handle_hello}

module _ (s : Server) (ws : ℕ) (client_id other : String) (client c : Client) where
  put_keeps :
      get other s.clients ≡ some client
      → has client_id s.clients ≡ false
      → get other (put client_id c s.clients) ≡ some client
  put_keeps registered fresh =
      ground (arith, get-put client_id other c s.clients, same_iff client_id other)

  pop_keeps :
      get other s.clients ≡ some client
      → has client_id s.clients ≡ false
      → get other (pop client_id (put client_id c s.clients)) ≡ some client
  pop_keeps registered fresh = ground (
    arith,
    get-pop client_id other (put client_id c s.clients),
    get-put client_id other c s.clients,
    same_iff client_id other,
  )

module _ (delivers : ℕ → Message → Bool) (s : Server) (ws : ℕ) (client_id : String) (meta : Fields)
    (other : String) (client : Client) where
  greet_keeps :
      (role : Role)
      → get other s.clients ≡ some client
      → has client_id s.clients ≡ false
      → get other (run delivers (greet ws role client_id meta) s).server.clients ≡ some client
  unfolding greet run
  greet_keeps agent registered fresh = elim (Bool-cases (delivers ws (ack client_id s))) [
    | inl out ↦ rw (out, run) (put_keeps s ws client_id other client _ registered fresh)
    | inr lost ↦ rw (lost, run) (pop_keeps s ws client_id other client _ registered fresh)
  ]
  greet_keeps ida registered fresh = elim (Bool-cases (is_path (meta_get "idb_path" meta))) [
    | inl path ↦ elim (Bool-cases (delivers ws (ack client_id s))) [
      | inl out ↦ rw (path, out, run) (put_keeps s ws client_id other client _ registered fresh)
      | inr lost ↦ rw (path, lost, run) (pop_keeps s ws client_id other client _ registered fresh)
    ]
    | inr no_path ↦ rw (no_path, run) (put_keeps s ws client_id other client _ registered fresh)
  ]

-- A hello never touches a registered client: an id that is in use keeps its connection, its role and
-- its meta, whatever the hello says and whether or not its answer goes out.
pub hello_never_replaces :
    (delivers : ℕ → Message → Bool) (s : Server) (ws : ℕ) (role : Role) (client_id : String)
    (meta : Fields) (other : String) (client : Client)
    → get other s.clients ≡ some client
    → get other (run delivers (handle_hello ws role client_id meta) s).server.clients ≡ some client
unfolding handle_hello refuse run protocol_fault_with
hello_never_replaces delivers s ws role client_id meta other client registered =
    elim (Bool-cases (client_id == "")) [
      | inl empty ↦ rw (empty, run) registered
      | inr named ↦ elim (Bool-cases (client_id == s.bridge_id)) [
        | inl reserved ↦ rw (named, reserved, run) registered
        | inr free ↦ elim (Bool-cases (has client_id s.clients)) [
          | inl taken ↦ rw (named, free, taken, run) registered
          | inr fresh ↦
              rw (named, free, fresh, run)
                (greet_keeps delivers s ws client_id meta other client role registered fresh)
        ]
      ]
    ]

-- A hello with an id that is not empty, not the bridge's and not in use registers its connection
-- under that id with its role and meta, and is answered with the bridge's acknowledgement. (The
-- `idb_path` of an IDA's meta is a string or absent.)
pub hello_registers :
    (s : Server) (ws : ℕ) (role : Role) (client_id : String) (meta : Fields)
    → client_id ≢ ""
    → client_id ≢ s.bridge_id
    → get client_id s.clients ≡ none
    → is_path (meta_get "idb_path" meta) ≡ true
    → run delivers_all (handle_hello ws role client_id meta) s ≡ record {
      outcome = returned (role, client_id);
      server = register client_id (record { ws = ws; role = role; meta = meta }) s;
      outputs = sent ws (ack client_id s) true ∷ [];
    }
unfolding handle_hello greet run
hello_registers s ws role client_id meta named free fresh path =
    let e1 : (client_id == "") ≡ false = ground (arith, same_iff client_id "") in
    let e2 : (client_id == s.bridge_id) ≡ false = ground (arith, same_iff client_id s.bridge_id) in
    elim (role_cases role) [
      | inl is_agent ↦ rw (e1, e2, fresh, is_agent, run) refl
      | inr is_ida ↦ rw (e1, e2, fresh, is_ida, path, run) refl
    ]
