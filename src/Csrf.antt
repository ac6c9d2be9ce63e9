-- ===== src/Csrf.antt =====
-- server/middleware/csrf.py: the double-submit check of a request, and of a websocket message. Tokens
-- are ASCII. A route behind the middleware is reached or not; `fresh` is the token that
-- `secrets.token_hex` would return for the request.
pub mod DoubleSubmit
use vivarium_connection.Common.{
  String, str_eq, Bool, true, false, ◌||◌, Option, none, some, List, [], ◌∷◌, map, if◌then◌else◌,
}
use vivarium_connection.Common.Text.{Text, codes, text_eq, one_of}
use vivarium_connection.Serial.{to_lower, has_prefix}

pub record Request : Type 0 where
  pub method : Text
  pub path : Text
  pub upgrade : Text
  pub cookie_token : Option String
  pub header_token : Option String

-- The request is refused with a reason, or it reaches its route; the cookie that the response then sets
-- is left out where the middleware does not look at it.
pub data Reply : Type 0 where
  cookie_missing header_required token_mismatch : Reply
  passed_through : Reply
  called : String → Reply

abbrev pub csrf_methods : List Text
csrf_methods = codes "POST" ∷ codes "PUT" ∷ codes "DELETE" ∷ codes "PATCH" ∷ []

-- `any(path.startswith(p) for p in _EXEMPT_PREFIXES)`
unfoldable pub is_exempt : Text → Bool
is_exempt path = has_prefix (codes "/auth/") path || has_prefix (codes "/provision") path

-- `not token` for a token that is None or ""
unfoldable pub given : Option String → Option String
given none = none
given (some token) = if str_eq token "" then none else some token

-- the double submission: the first of the three refusals, if there is one
unfoldable pub refusal : Option String → Option String → Option Reply
refusal none header = some cookie_missing
refusal (some cookie) none = some header_required
refusal (some cookie) (some header) = if str_eq cookie header then none else some token_mismatch

-- `existing or _generate_token()`
unfoldable pub or_fresh : String → Option String → String
or_fresh fresh none = fresh
or_fresh fresh (some token) = token

unfoldable pub answer : String → Option String → Option Reply → Reply
answer fresh cookie (some reply) = reply
answer fresh cookie none = called (or_fresh fresh cookie)

unfoldable pub check_tokens : Request → Option Reply
check_tokens r =
    if one_of r.method csrf_methods
    then refusal (given r.cookie_token) (given r.header_token)
    else none

unfoldable pub is_websocket : Request → Bool
is_websocket r = text_eq (map to_lower r.upgrade) (codes "websocket")

unfoldable pub dispatch : Bool → String → Request → Reply
dispatch enabled fresh r =
    if enabled
    then (if is_websocket r || is_exempt r.path
        then passed_through
        else answer fresh (given r.cookie_token) (check_tokens r))
    else passed_through

-- The HTTPException, if it is raised.
unfoldable pub validate_csrf_header : Bool → Option String → Option String → Option Reply
validate_csrf_header enabled cookie_token header_token =
    if enabled then refusal (given cookie_token) (given header_token) else none
