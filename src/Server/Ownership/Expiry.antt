-- ===== src/Server/Ownership/Expiry.antt =====
-- Which leases `_expire_ownerships` ends (src/ida_bridge/server.py).
use ida_bridge.Common.{
  ℕ, ◌≡◌, refl, String, Bool, false, Option, none, some, [], ◌∷◌, arith, text_key, same_iff,
  if◌then◌else◌,
}
use ida_bridge.Common.Dict.{Dict, get, pop, get-pop, IsUnique}
use ida_bridge.Server.State.{Server, Ownership}
use ida_bridge.Server.Ownership.{is_expired, expire_each, expire_ownerships}

abbrev pub is_over : ℕ → Option Ownership → Bool
is_over now none = false
is_over now (some o) = is_expired now o

get-expire_each :
    (now : ℕ) (items current : Dict String Ownership) (j : String)
    → IsUnique items
    → get j (expire_each now items current)
      ≡ (if is_over now (get j items) then none else get j current)
unfolding expire_each get
get-expire_each now [] current j u = refl
get-expire_each now ((k, o) ∷ items) current j (fresh, u) = ground (
  arith,
  get-expire_each now items (if is_expired now o then pop k current else current) j u,
  get-pop k j current,
  same_iff k j,
)

-- Exactly the leases that have run out go; the rest is as it was.
pub get-expire :
    (s : Server) (j : String)
    → IsUnique s.ownership
    → get j (expire_ownerships s).ownership
      ≡ (if is_over s.now (get j s.ownership) then none else get j s.ownership)
unfolding expire_ownerships
get-expire s j u = get-expire_each s.now s.ownership s.ownership j u
