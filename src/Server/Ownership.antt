-- ===== src/Server/Ownership.antt =====
-- src/ida_bridge/server.py: the ownership of each IDA's exec environment. Each function is one
-- method of `BridgeServer`, as a change of the server.
pub mod Moves
pub mod Frame
pub mod Expiry
use ida_bridge.Common.{
  ℕ, ◌+◌, String, Bool, true, false, Option, none, some, List, [], ◌∷◌, ◌&&◌, leb, ◌==◌, text_key,
  if◌then◌else◌,
}
use ida_bridge.Common.Dict.{Dict, get, put, pop}
use ida_bridge.Server.State.{
  Server, TakeoverPending, ReleasePending, Ownership, owned, takeover_pending, release_pending,
  locked_unknown,
}

-- `_owned`: a lease that runs from now.
abbrev pub new_lease : String → Server → Ownership
new_lease session_id s = owned session_id (s.now + s.stateful_ttl)

-- `isinstance(ownership, _Owned) and ownership.expires_at <= current_time`
unfoldable pub is_expired : ℕ → Ownership → Bool
is_expired now (owned session_id expires_at) = leb expires_at now
is_expired now _ = false

-- The loop of `_expire_ownerships` over the items as they were when it began.
unfoldable pub expire_each :
    ℕ → Dict String Ownership → Dict String Ownership → Dict String Ownership
expire_each now [] current = current
expire_each now ((ida_id, ownership) ∷ items) current =
    expire_each now items (if is_expired now ownership then pop ida_id current else current)

unfoldable pub expire_ownerships : Server → Server
expire_ownerships s = record s { ownership = expire_each s.now s.ownership s.ownership }

abbrev pub set_ownership : String → Ownership → Server → Server
set_ownership ida_id o s = record s { ownership = put ida_id o s.ownership }

unfoldable pub claim_owner : String → String → Server → Server
claim_owner ida_id session_id s = set_ownership ida_id (new_lease session_id s) s

unfoldable pub refresh_owner : String → String → Server → Server
refresh_owner ida_id session_id s = set_ownership ida_id (new_lease session_id s) s

unfoldable pub enter_takeover : String → TakeoverPending → Server → Server
enter_takeover ida_id takeover s = set_ownership ida_id (takeover_pending takeover) s

unfoldable pub enter_release : String → ReleasePending → Server → Server
enter_release ida_id release s = set_ownership ida_id (release_pending release) s

unfoldable pub clear_ownership : String → Server → Server
clear_ownership ida_id s = record s { ownership = pop ida_id s.ownership }

-- `self._ownership_by_ida.get(ida_id) == takeover`, an equation of frozen dataclasses.
unfoldable pub is_takeover : Option Ownership → TakeoverPending → Bool
is_takeover none t = false
is_takeover (some (takeover_pending u)) t =
    u.from_session_id == t.from_session_id
    && u.to_session_id == t.to_session_id
    && u.req_id == t.req_id
is_takeover (some _) t = false

unfoldable pub is_release : Option Ownership → ReleasePending → Bool
is_release none r = false
is_release (some (release_pending q)) r = q.session_id == r.session_id && q.req_id == r.req_id
is_release (some _) r = false

unfoldable pub lock_takeover_unknown : String → TakeoverPending → Server → Server
lock_takeover_unknown ida_id t s =
    if is_takeover (get ida_id s.ownership) t then set_ownership ida_id locked_unknown s else s

unfoldable pub lock_release_unknown : String → ReleasePending → Server → Server
lock_release_unknown ida_id r s =
    if is_release (get ida_id s.ownership) r then set_ownership ida_id locked_unknown s else s

unfoldable pub commit_takeover : String → TakeoverPending → Bool → Server → Server
commit_takeover ida_id t ok s =
    if is_takeover (get ida_id s.ownership) t
    then (if ok
        then set_ownership ida_id (new_lease t.to_session_id s) s
        else set_ownership ida_id locked_unknown s)
    else s

unfoldable pub commit_release : String → ReleasePending → Bool → Server → Server
unfolding clear_ownership
commit_release ida_id r ok s =
    if is_release (get ida_id s.ownership) r
    then (if ok
        then clear_ownership ida_id s
        else set_ownership ida_id (new_lease r.session_id s) s)
    else s

unfoldable pub restore_owner : String → TakeoverPending → Server → Server
restore_owner ida_id t s =
    if is_takeover (get ida_id s.ownership) t
    then set_ownership ida_id (new_lease t.from_session_id s) s
    else s

unfoldable pub restore_release_owner : String → ReleasePending → Server → Server
restore_release_owner ida_id r s =
    if is_release (get ida_id s.ownership) r
    then set_ownership ida_id (new_lease r.session_id s) s
    else s

-- The `if pending.takeover is not None … elif pending.release is not None …` chains.
abbrev pub lock_unknown : String → Option TakeoverPending → Option ReleasePending → Server → Server
lock_unknown ida_id (some t) release s = lock_takeover_unknown ida_id t s
lock_unknown ida_id none (some r) s = lock_release_unknown ida_id r s
lock_unknown ida_id none none s = s

abbrev pub commit : String → Option TakeoverPending → Option ReleasePending → Bool → Server → Server
commit ida_id (some t) release ok s = commit_takeover ida_id t ok s
commit ida_id none (some r) ok s = commit_release ida_id r ok s
commit ida_id none none ok s = s

abbrev pub roll_back :
    String → Option TakeoverPending → Option ReleasePending → Bool → Server → Server
roll_back ida_id (some t) release claimed_owner s = restore_owner ida_id t s
roll_back ida_id none (some r) claimed_owner s = restore_release_owner ida_id r s
roll_back ida_id none none claimed_owner s = if claimed_owner then clear_ownership ida_id s else s
