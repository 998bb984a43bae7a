-- ===== src/Protocol/Classify.antt =====
-- src/ida_bridge/protocol.py: `classify_validation_error`.
use ida_bridge.Common.{String, Bool, false, ◌&&◌, List, [], ◌∷◌, any, ◌==◌, text_key, if◌then◌else◌}

-- One entry of pydantic's `exc.errors()`.
pub record ErrorDetail : Type 0 where
  pub kind : String
  pub loc : List String

unfoldable pub loc_endswith : String → List String → Bool
loc_endswith name [] = false
loc_endswith name (part ∷ []) = part == name
loc_endswith name (part ∷ next ∷ rest) = loc_endswith name (next ∷ rest)

abbrev pub any_kind : String → List ErrorDetail → Bool
any_kind kind = any (λ e. e.kind == kind)

abbrev pub any_at : String → String → List ErrorDetail → Bool
any_at kind name = any (λ e. e.kind == kind && loc_endswith name e.loc)

-- The stable error code and its message; the trace is the list of errors itself.
unfoldable pub classify_validation_error : List ErrorDetail → String × String
unfolding loc_endswith
classify_validation_error errors =
    if any_kind "json_invalid" errors
    then ("INVALID_JSON", "invalid json")
    else if any_kind "missing_version" errors
    then ("MISSING_VERSION", "missing protocol version")
    else if any_kind "unsupported_version" errors
    then ("UNSUPPORTED_VERSION", "unsupported protocol version")
    else if any_kind "invalid_request_id" errors
    then ("INVALID_REQUEST_ID", "invalid request id")
    else if any_kind "union_tag_invalid" errors
    then ("UNSUPPORTED_MESSAGE", "unsupported message type")
    else if any_at "literal_error" "role" errors
    then ("INVALID_ROLE", "invalid role")
    else if any_at "missing" "client_id" errors
    then ("INVALID_CLIENT_ID", "client_id is required")
    else if any_at "string_too_short" "client_id" errors
    then ("INVALID_CLIENT_ID", "client_id must be non-empty")
    else ("INVALID_MESSAGE", "invalid message")
