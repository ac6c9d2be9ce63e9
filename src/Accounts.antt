-- ===== src/Accounts.antt =====
-- server/api/routes.py: the accounts, and the routes that log in and create them. A password's hash and
-- the random part of a user id are made outside; a session is committed before the answer.
pub mod Setup
use vivarium_connection.Common.{
  ℕ, String, str_eq, Bool, true, false, Option, none, some, List, [], ◌∷◌, ◌++◌, if◌then◌else◌,
}
use vivarium_connection.Common.Clock.{Stamp, utc}
use vivarium_connection.Common.Text.{Text}
use vivarium_connection.Auth.{
  Authority, CurrentUser, Access, granted, refused, Refusal, unauthorized, forbidden, require_admin,
}

pub record User : Type 0 where
  pub id : String
  pub username : String
  pub password_hash : String
  pub role : String
  pub last_login_at : Option Stamp

abbrev pub Users : Type 0
Users = List User

-- `bcrypt`, and the id that `uuid4` gives a new user of a role
pub record Crypto : Type 0 where
  pub hash_password : String → String
  pub verify_password : String → String → Bool
  pub new_id : String → String

-- the body of a request
pub record NewUser : Type 0 where
  pub username : String
  pub password : String
  pub role : String

pub data AccountAnswer : Type 0 where
  unauthorized_401 forbidden_403 bad_role_400 taken_409 complete_409 : AccountAnswer
  logged_in : String → String → AccountAnswer
  created : String → String → AccountAnswer

unfoldable pub find_username : String → Users → Option User
find_username name [] = none
find_username name (u ∷ us) = if str_eq u.username name then some u else find_username name us

unfoldable pub has_admin : Users → Bool
has_admin [] = false
has_admin (u ∷ us) = if str_eq u.role "admin" then true else has_admin us

-- the row of a user name, changed
unfoldable pub change_user : String → (User → User) → Users → Users
change_user name change [] = []
change_user name change (u ∷ us) =
    let rest = change_user name change us in
    if str_eq u.username name then change u ∷ us else u ∷ rest

unfoldable pub record_login : ℕ → User → User
record_login now u = record u { last_login_at = some (utc now) }

unfoldable pub login_as : Crypto → ℕ → String → String → Users → Option User → Users × AccountAnswer
login_as c now username password users none = (users, unauthorized_401)
login_as c now username password users (some user) =
    if c.verify_password password user.password_hash
    then (change_user username (record_login now) users, logged_in user.id user.role)
    else (users, unauthorized_401)

unfoldable pub login : Crypto → ℕ → String → String → Users → Users × AccountAnswer
login c now username password users =
    login_as c now username password users (find_username username users)

unfoldable pub new_user : Crypto → NewUser → User
new_user c body = record {
  id = c.new_id body.role;
  username = body.username;
  password_hash = c.hash_password body.password;
  role = body.role;
  last_login_at = none;
}

-- a user name that is not taken
unfoldable pub add_user : Crypto → NewUser → Users → Option User → Users × AccountAnswer
add_user c body users (some existing) = (users, taken_409)
add_user c body users none =
    (users ++ (new_user c body ∷ []), created (c.new_id body.role) body.role)

unfoldable pub is_role : String → Bool
is_role role =
    if str_eq role "viewer"
    then true
    else if str_eq role "operator"
    then true
    else str_eq role "admin"

unfoldable pub create_by : Crypto → NewUser → Users → Access → Users × AccountAnswer
create_by c body users (refused unauthorized) = (users, unauthorized_401)
create_by c body users (refused forbidden) = (users, forbidden_403)
create_by c body users (granted admin) =
    if is_role body.role
    then add_user c body users (find_username body.username users)
    else (users, bad_role_400)

unfoldable pub create_user :
    Authority → Crypto → Option Text → NewUser → Users → Users × AccountAnswer
create_user a c authorization body users = create_by c body users (require_admin a authorization)

unfoldable pub as_admin : String → String → NewUser
as_admin username password = record { username = username; password = password; role = "admin" }

unfoldable pub first_time_setup : Crypto → String → String → Users → Users × AccountAnswer
first_time_setup c username password users =
    if has_admin users
    then (users, complete_409)
    else add_user c (as_admin username password) users (find_username username users)
