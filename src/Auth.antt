-- ===== src/Auth.antt =====
-- server/middleware/auth.py, `decode_token` of server/core/security.py and the websocket's resolution
-- of an identity in server/api/websocket.py: who a caller is, and what the caller may do.
pub mod Roles
use vivarium_connection.Common.{
  ℕ, String, str_eq, Bool, true, false, not, ◌==◌, Option, none, some, List, [], ◌∷◌, map,
  if◌then◌else◌, Result, ok, raised,
}
use vivarium_connection.Common.Text.{Text, codes, text_eq}
use vivarium_connection.Csrf.{given}
use vivarium_connection.Serial.{to_lower, strip}

-- the claims of a verified token
pub record Claims : Type 0 where
  pub sub : Option String
  pub role : Option String

-- What the code calls and does not contain: the verification of a JWT, and the tests that
-- core/security.py names in its documentation.
pub record Authority : Type 0 where
  pub jwt_decode : Text → Option Claims
  pub is_valid_admin_token : Text → Bool
  pub looks_like_mqtt_credential : Text → Bool
  pub is_valid_pi_api_key : Text → Bool
  pub user_has_rack_access : String → String → String → Bool

pub record CurrentUser : Type 0 where
  pub user_id : String
  pub role : String
  pub is_admin_token : Bool

pub data Refusal : Type 0 where
  unauthorized forbidden : Refusal

pub data Access : Type 0 where
  granted : CurrentUser → Access
  refused : Refusal → Access

unfoldable pub admin_token_user : CurrentUser
admin_token_user = record { user_id = "_admin_token_user"; role = "admin"; is_admin_token = true }

-- `text.partition(" ")`: the text before the first blank, and the text behind it
unfoldable pub partition : Text → Text × Text
partition [] = ([], [])
partition (c ∷ cs) =
    let (scheme, token) = partition cs in if c == 32 then ([], cs) else (c ∷ scheme, token)

-- `token.strip() or None`
unfoldable pub nonempty : Text → Option Text
nonempty [] = none
nonempty (c ∷ cs) = some (c ∷ cs)

unfoldable pub bearer_of : Text × Text → Option Text
bearer_of (scheme, token) =
    if text_eq (map to_lower scheme) (codes "bearer") then nonempty (strip token) else none

unfoldable pub extract_bearer : Option Text → Option Text
extract_bearer none = none
extract_bearer (some authorization) = bearer_of (partition authorization)

-- JWTError and ValueError are not told apart: every caller treats them alike.
unfoldable pub claims_of : Option String → Option String → Option (String × String)
claims_of (some user_id) (some role) = some (user_id, role)
claims_of _ _ = none

unfoldable pub decode_payload : Option Claims → Option (String × String)
decode_payload none = none
decode_payload (some c) = claims_of (given c.sub) (given c.role)

unfoldable pub decode_token : Authority → Text → Option (String × String)
decode_token a token = decode_payload (a.jwt_decode token)

unfoldable pub from_payload : Option (String × String) → Access
from_payload none = refused unauthorized
from_payload (some (user_id, role)) =
    granted (record { user_id = user_id; role = role; is_admin_token = false })

unfoldable pub resolve_token : Authority → Option Text → Access
resolve_token a none = refused unauthorized
resolve_token a (some token) =
    if a.is_valid_admin_token token
    then granted admin_token_user
    else if a.looks_like_mqtt_credential token
    then refused unauthorized
    else from_payload (decode_token a token)

unfoldable pub resolve_browser_identity : Authority → Option Text → Access
resolve_browser_identity a authorization = resolve_token a (extract_bearer authorization)

unfoldable pub require_browser_user : Authority → Option Text → Access
require_browser_user a authorization = resolve_browser_identity a authorization

unfoldable pub operator_only : Access → Access
operator_only (refused r) = refused r
operator_only (granted user) = if str_eq user.role "viewer" then refused forbidden else granted user

unfoldable pub require_operator : Authority → Option Text → Access
require_operator a authorization = operator_only (resolve_browser_identity a authorization)

unfoldable pub admin_only : Access → Access
admin_only (refused r) = refused r
admin_only (granted user) = if str_eq user.role "admin" then granted user else refused forbidden

unfoldable pub require_admin : Authority → Option Text → Access
require_admin a authorization = admin_only (resolve_browser_identity a authorization)

unfoldable pub assigned_only : Authority → String → Access → Access
assigned_only a rack_id (refused r) = refused r
assigned_only a rack_id (granted user) =
    if str_eq user.role "viewer"
    then refused forbidden
    else if user.is_admin_token
    then granted user
    else if a.user_has_rack_access user.user_id user.role rack_id
    then granted user
    else refused forbidden

unfoldable pub require_rack_operator : Authority → String → Option Text → Access
require_rack_operator a rack_id authorization =
    assigned_only a rack_id (resolve_browser_identity a authorization)

-- `if not x_api_key`, then the two tests of the key
unfoldable pub check_key : Authority → Option Text → Option Text
check_key a none = none
check_key a (some key) =
    if a.looks_like_mqtt_credential key
    then none
    else if a.is_valid_pi_api_key key
    then some key
    else none

unfoldable pub or_none : Option Text → Option Text
or_none none = none
or_none (some key) = nonempty key

-- the key, or none for an HTTPException (401 each time)
unfoldable pub require_pi_api_key : Authority → Option Text → Option Text → Option Text
require_pi_api_key a x_api_key authorization = elim (extract_bearer authorization) [
  | some token ↦ none
  | none ↦ check_key a (or_none x_api_key)
]

unfoldable pub ws_identity_of : Authority → Text → Option (String × String)
ws_identity_of a token =
    if a.is_valid_admin_token token
    then some ("_admin_token_user", "admin")
    else decode_token a token

unfoldable pub resolve_ws_identity : Authority → Option Text → Option (String × String)
resolve_ws_identity a none = none
resolve_ws_identity a (some token) = elim (nonempty token) [
  | none ↦ none
  | some t ↦ ws_identity_of a token
]

-- server/middleware/rate_limit.py: the key of a caller's counter. `host` is the client's address.
unfoldable pub key_of_token : Authority → String → Text → String
key_of_token a host [] = host
key_of_token a host (c ∷ cs) =
    if a.is_valid_admin_token (c ∷ cs)
    then "_admin_token_user"
    else key_of_payload host (decode_token a (c ∷ cs))
  where
    key_of_payload : String → Option (String × String) → String
    key_of_payload host none = host
    key_of_payload host (some (user_id, role)) = user_id

unfoldable pub key_user : Authority → String → Text → String
key_user a host authorization = key_of_token a host (strip (partition authorization).1)
