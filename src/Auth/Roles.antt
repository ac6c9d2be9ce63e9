-- ===== src/Auth/Roles.antt =====
-- Who passes the dependencies of server/middleware/auth.py.
use vivarium_connection.Common.{
  ◌≡◌, refl, subst, ap, String, str_eq, Bool, true, false, Bool-cases, Option-cases, if◌then◌else◌,
  ◌⊎◌, inl, inr, Option, none, some, [], ◌∷◌, map, arith,
}
use vivarium_connection.Common.Text.{Text, codes, text_eq}
use vivarium_connection.Serial.{to_lower, strip}
use vivarium_connection.Auth.{
  Authority, CurrentUser, Access, granted, refused, unauthorized, forbidden, admin_token_user,
  partition, nonempty, bearer_of, extract_bearer, decode_token, from_payload, resolve_token,
  resolve_browser_identity, assigned_only, require_rack_operator, ws_identity_of,
  resolve_ws_identity, key_of_token, key_user,
}

-- How a granted identity came about: by the static token, or by the claims of a token.
pub data Grant (a : Authority) (token : Text) : CurrentUser → Type 0 where
  by_admin_token : a.is_valid_admin_token token ≡ true → Grant a token admin_token_user
  by_claims :
      (user_id role : String)
      → a.is_valid_admin_token token ≡ false
      → decode_token a token ≡ some (user_id, role)
      → Grant a token (record { user_id = user_id; role = role; is_admin_token = false })

user_of : CurrentUser → Access → CurrentUser
user_of d (granted u) = u
user_of d (refused r) = d

granted_inj : (u v : CurrentUser) → granted u ≡ granted v → u ≡ v
unfolding user_of
granted_inj u v h = ap (user_of u) h

from_payload-Grant :
    (a : Authority) (token : Text) (u : CurrentUser) (p : Option (String × String))
    → a.is_valid_admin_token token ≡ false
    → decode_token a token ≡ p
    → from_payload p ≡ granted u
    → Grant a token u
unfolding from_payload
from_payload-Grant a token u none other e h = ground arith
from_payload-Grant a token u (some (user_id, role)) other e h =
    subst (Grant a token) (granted_inj _ u h) (by_claims user_id role other e)

resolve_token-Grant :
    (a : Authority) (token : Text) (u : CurrentUser)
    → resolve_token a (some token) ≡ granted u
    → Grant a token u
unfolding resolve_token
resolve_token-Grant a token u h = elim (Bool-cases (a.is_valid_admin_token token)) [
  | inl known ↦
      let same : granted admin_token_user ≡ granted u = (rw known at h) in
      subst (Grant a token) (granted_inj _ u same) (by_admin_token known)
  | inr other ↦ elim (Bool-cases (a.looks_like_mqtt_credential token)) [
    | inl mqtt ↦
        let impossible : refused unauthorized ≡ granted u = (rw (other, mqtt) at h) in ground arith
    | inr e ↦ from_payload-Grant a token u (decode_token a token) other refl (rw (other, e) at h)
  ]
]

-- A granted identity came with a bearer token.
resolve_browser_identity-Grant :
    (a : Authority) (header : Option Text) (u : CurrentUser)
    → resolve_browser_identity a header ≡ granted u
    → (token : Text) × (extract_bearer header ≡ some token) × Grant a token u
unfolding resolve_browser_identity resolve_token
resolve_browser_identity-Grant a header u h = elim (Option-cases (extract_bearer header)) [
  | inl e ↦
      let impossible : refused unauthorized ≡ granted u = (rw (e, resolve_token) at h) in
      ground arith
  | inr (token, e) ↦ (token, e, resolve_token-Grant a token u (rw e at h))
]

nonempty-some : (t u : Text) → nonempty t ≡ some u → (t ≡ u) × (nonempty u ≡ some u)
unfolding nonempty
nonempty-some [] u h = ground arith
nonempty-some (c ∷ cs) u h =
    let same : c ∷ cs ≡ u = ground arith in (same, subst (λ t. nonempty t ≡ some t) same refl)

bearer_of-some :
    (scheme rest token : Text)
    → bearer_of (scheme, rest) ≡ some token
    → (strip rest ≡ token) × (nonempty token ≡ some token)
unfolding bearer_of
bearer_of-some scheme rest token h =
    elim (Bool-cases (text_eq (map to_lower scheme) (codes "bearer"))) [
      | inr e ↦
          let impossible : ◌≡◌ {A = Option Text} none (some token) = (rw e at h) in ground arith
      | inl e ↦ nonempty-some (strip rest) token (rw e at h)
    ]

extract_bearer-some :
    (header : Option Text) (token : Text)
    → extract_bearer header ≡ some token
    → nonempty token ≡ some token
unfolding extract_bearer
extract_bearer-some none token h = ground arith
extract_bearer-some (some text) token h =
    (bearer_of-some (partition text).0 (partition text).1 token h).1

Grant-ws :
    (a : Authority) (token : Text) (u : CurrentUser)
    → Grant a token u
    → ws_identity_of a token ≡ some (u.user_id, u.role)
unfolding ws_identity_of admin_token_user
Grant-ws a token _ (by_admin_token known) = rw known refl
Grant-ws a token _ (by_claims user_id role other e) = rw other e

-- Whoever an HTTP request is granted to is the same user, with the same role, on the websocket.
pub resolve_ws_identity-same :
    (a : Authority) (header : Option Text) (u : CurrentUser)
    → resolve_browser_identity a header ≡ granted u
    → resolve_ws_identity a (extract_bearer header) ≡ some (u.user_id, u.role)
unfolding resolve_ws_identity
resolve_ws_identity-same a header u h =
    let (token, e, g) = resolve_browser_identity-Grant a header u h in
    rw (e, extract_bearer-some header token e, resolve_ws_identity) (Grant-ws a token u g)

Grant-admin_token :
    (a : Authority) (token : Text) (u : CurrentUser)
    → Grant a token u
    → u.is_admin_token ≡ true
    → u ≡ admin_token_user
Grant-admin_token a token _ (by_admin_token known) h = refl
Grant-admin_token a token _ (by_claims user_id role other e) h = ground arith

-- What lets a user pass, carried along an equation of users.
same_user :
    (a : Authority) (rack_id : String) (v u : CurrentUser)
    → v ≡ u
    → str_eq v.role "viewer" ≡ false
    → (v.is_admin_token ≡ true) ⊎ (a.user_has_rack_access v.user_id v.role rack_id ≡ true)
    → (granted v ≡ granted u)
      × (str_eq u.role "viewer" ≡ false)
      × ((u.is_admin_token ≡ true) ⊎ (a.user_has_rack_access u.user_id u.role rack_id ≡ true))
same_user a rack_id v u same operator why = (
  ap granted same,
  subst (λ (w : CurrentUser). str_eq w.role "viewer" ≡ false) same operator,
  subst
      (λ (w : CurrentUser).
        (w.is_admin_token ≡ true) ⊎ (a.user_has_rack_access w.user_id w.role rack_id ≡ true))
      same why,
)

three_tests :
    (v u : CurrentUser) (viewer static assigned : Bool)
    → (if viewer
        then refused forbidden
        else if static
        then granted v
        else if assigned
        then granted v
        else refused forbidden)
      ≡ granted u
    → (v ≡ u) × (viewer ≡ false) × ((static ≡ true) ⊎ (assigned ≡ true))
three_tests v u true static assigned h = ground arith
three_tests v u false true assigned h = (granted_inj v u h, refl, inl refl)
three_tests v u false false true h = (granted_inj v u h, refl, inr refl)
three_tests v u false false false h = ground arith

assigned_only-granted :
    (a : Authority) (rack_id : String) (u : CurrentUser) (x : Access)
    → assigned_only a rack_id x ≡ granted u
    → (x ≡ granted u)
      × (str_eq u.role "viewer" ≡ false)
      × ((u.is_admin_token ≡ true) ⊎ (a.user_has_rack_access u.user_id u.role rack_id ≡ true))
unfolding assigned_only
assigned_only-granted a rack_id u (refused r) h = ground arith
assigned_only-granted a rack_id u (granted v) h =
    let (same, operator, why) =
      three_tests v u (str_eq v.role "viewer") v.is_admin_token
        (a.user_has_rack_access v.user_id v.role rack_id) h in
    same_user a rack_id v u same operator why

-- Whoever passes for a rack is no viewer, and is the user of the static admin token or has access to
-- the rack.
pub require_rack_operator-granted :
    (a : Authority) (rack_id : String) (header : Option Text) (u : CurrentUser)
    → require_rack_operator a rack_id header ≡ granted u
    → (str_eq u.role "viewer" ≡ false)
      × ((u ≡ admin_token_user) ⊎ (a.user_has_rack_access u.user_id u.role rack_id ≡ true))
unfolding require_rack_operator
require_rack_operator-granted a rack_id header u h =
    let (resolved, operator, why) =
      assigned_only-granted a rack_id u (resolve_browser_identity a header) h in
    let (token, e, g) = resolve_browser_identity-Grant a header u resolved in
    (
      operator,
      elim why [
        | inl static ↦ inl (Grant-admin_token a token u g static)
        | inr assigned ↦ inr assigned
      ],
    )

Grant-key :
    (a : Authority) (host : String) (token : Text) (u : CurrentUser)
    → nonempty token ≡ some token
    → Grant a token u
    → key_of_token a host token ≡ u.user_id
unfolding key_of_token nonempty admin_token_user
Grant-key a host [] u full g = ground arith
Grant-key a host (c ∷ cs) _ full (by_admin_token known) = rw known refl
Grant-key a host (c ∷ cs) _ full (by_claims user_id role other e) = rw (other, e) refl

-- Every authenticated caller's requests are counted under the caller's own user id.
pub key_user-granted :
    (a : Authority) (host : String) (header : Text) (u : CurrentUser)
    → resolve_browser_identity a (some header) ≡ granted u
    → key_user a host header ≡ u.user_id
unfolding key_user extract_bearer
key_user-granted a host header u h =
    let (token, e, g) = resolve_browser_identity-Grant a (some header) u h in
    let (stripped, full) = bearer_of-some (partition header).0 (partition header).1 token e in
    rw stripped (Grant-key a host token u full g)
