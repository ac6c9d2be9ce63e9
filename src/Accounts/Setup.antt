-- ===== src/Accounts/Setup.antt =====
-- Histories of the account routes of server/api/routes.py.
use vivarium_connection.Common.{
  ℕ, ◌≡◌, refl, String, true, Bool-cases, inl, inr, Option, none, some, [], ◌∷◌, ◌++◌, arith,
}
use vivarium_connection.Common.Text.{Text}
use vivarium_connection.Auth.{Authority, Access, granted, refused, unauthorized, forbidden}
use vivarium_connection.Accounts.{
  User, Users, Crypto, NewUser, complete_409, find_username, has_admin, change_user, record_login,
  login_as, login, new_user, add_user, is_role, create_by, create_user, first_time_setup,
}

-- One request to a route that reads or writes the accounts.
pub data Step (a : Authority) (c : Crypto) : Users → Users → Type 0 where
  logs_in :
      (now : ℕ) (name password : String) (u : Users) → Step a c u (login c now name password u).0
  creates :
      (header : Option Text) (body : NewUser) (u : Users)
      → Step a c u (create_user a c header body u).0
  sets_up : (name password : String) (u : Users) → Step a c u (first_time_setup c name password u).0

pub data Run (a : Authority) (c : Crypto) : Users → Users → Type 0 where
  nothing : (u : Users) → Run a c u u
  after : {u v w : Users} → Run a c u v → Step a c v w → Run a c u w

-- A user name stands in one row.
abbrev pub UniqueNames : Users → Type 0
UniqueNames [] = Unit
UniqueNames (u ∷ us) = (find_username u.username us ≡ none) × UniqueNames us

has_admin-append :
    (users : Users) (u : User) → has_admin users ≡ true → has_admin (users ++ (u ∷ [])) ≡ true
unfolding has_admin
has_admin-append [] u h = ground arith
has_admin-append (v ∷ vs) u h = ground (arith, has_admin-append vs u)

has_admin-change :
    (now : ℕ) (name : String) (users : Users)
    → has_admin (change_user name (record_login now) users) ≡ has_admin users
unfolding has_admin change_user record_login
has_admin-change now name [] = refl
has_admin-change now name (v ∷ vs) = ground (arith, has_admin-change now name vs)

add_user-has_admin :
    (c : Crypto) (body : NewUser) (users : Users) (found : Option User)
    → has_admin users ≡ true
    → has_admin (add_user c body users found).0 ≡ true
unfolding add_user
add_user-has_admin c body users (some old) h = h
add_user-has_admin c body users none h = has_admin-append users (new_user c body) h

login_as-has_admin :
    (c : Crypto) (now : ℕ) (name password : String) (users : Users) (found : Option User)
    → has_admin users ≡ true
    → has_admin (login_as c now name password users found).0 ≡ true
unfolding login_as
login_as-has_admin c now name password users none h = h
login_as-has_admin c now name password users (some u) h =
    elim (Bool-cases (c.verify_password password u.password_hash)) [
      | inl good ↦ rw good (rw (has_admin-change now name users) h)
      | inr bad ↦ rw bad h
    ]

create_by-has_admin :
    (c : Crypto) (body : NewUser) (users : Users) (x : Access)
    → has_admin users ≡ true
    → has_admin (create_by c body users x).0 ≡ true
unfolding create_by
create_by-has_admin c body users (refused unauthorized) h = h
create_by-has_admin c body users (refused forbidden) h = h
create_by-has_admin c body users (granted admin) h = elim (Bool-cases (is_role body.role)) [
  | inl role ↦ rw role (add_user-has_admin c body users (find_username body.username users) h)
  | inr bad ↦ rw bad h
]

Step-has_admin :
    (a : Authority) (c : Crypto) (u v : Users)
    → Step a c u v
    → has_admin u ≡ true
    → has_admin v ≡ true
unfolding login create_user first_time_setup
Step-has_admin a c _ _ (logs_in now name password u) h =
    login_as-has_admin c now name password u (find_username name u) h
Step-has_admin a c _ _ (creates header body u) h = create_by-has_admin c body u _ h
Step-has_admin a c _ _ (sets_up name password u) h = rw h h

Run-has_admin :
    (a : Authority) (c : Crypto) (u v : Users)
    → Run a c u v
    → has_admin u ≡ true
    → has_admin v ≡ true
Run-has_admin a c _ _ (nothing u) h = h
Run-has_admin a c u w (after {v = v} run step) h =
    Step-has_admin a c v w step (Run-has_admin a c u v run h)

-- Once there is an admin, after any history of logins, new users and setups, the setup that needs no
-- authentication is refused and changes nothing.
pub first_time_setup-locked :
    (a : Authority) (c : Crypto) (u v : Users) (name password : String)
    → has_admin u ≡ true
    → Run a c u v
    → first_time_setup c name password v ≡ (v, complete_409)
unfolding first_time_setup
first_time_setup-locked a c u v name password h run = rw (Run-has_admin a c u v run h) refl
