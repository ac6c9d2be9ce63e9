-- ===== src/Websocket/Guarded.antt =====
-- Which messages of server/api/websocket.py reach the server behind the connections.
use vivarium_connection.Common.{
  ℕ, ◌≡◌, refl, String, str_eq, Bool, true, false, Bool-cases, Option-cases, ◌⊎◌, inl, inr, Option,
  none, some,
}
use vivarium_connection.Csrf.{Reply, given}
use vivarium_connection.Websocket.Commands.{
  WsEnv, Site, Fields, Received, no_json, no_object, object, close, subscribe, unsubscribe,
  set_racks_of, checked_command, is_command, refusal_of, on_object, on_message,
}
use vivarium_connection.Websocket.{pong, csrf_failed, invalid_json, subscribed}
use vivarium_connection.Routes.Parity.{reply-server}

-- A command message whose CSRF token is accepted.
pub record IsChecked (e : WsEnv) (i : ℕ) (s : Site) (r : Received) : Type 0 where
  pub fields : Fields
  pub received : r ≡ object fields
  pub kind : is_command fields.msg_type ≡ true
  pub passed : refusal_of e i fields s ≡ none

subscribe-server :
    (e : WsEnv) (i : ℕ) (rack : Option String) (s : Site) → (subscribe e i rack s).server ≡ s.server
unfolding subscribe set_racks_of
subscribe-server e i none s = refl
subscribe-server e i (some rack_id) s = reply-server e i (subscribed rack_id) _

unsubscribe-server :
    (i : ℕ) (rack : Option String) (s : Site) → (unsubscribe i rack s).server ≡ s.server
unfolding unsubscribe set_racks_of
unsubscribe-server i none s = refl
unsubscribe-server i (some rack_id) s = refl

-- The branches of a message that is no command.
other_kind :
    (e : WsEnv) (db_ok : Bool) (now i : ℕ) (m : Fields) (s : Site)
    → is_command m.msg_type ≡ false
    → (on_object e db_ok now i m s).server ≡ s.server
unfolding on_object
other_kind e db_ok now i m s other = rw other (elim (Bool-cases (str_eq m.msg_type "subscribe")) [
  | inl sub ↦ rw sub (subscribe-server e i (given m.rack_id) s)
  | inr e1 ↦ elim (Bool-cases (str_eq m.msg_type "unsubscribe")) [
    | inl unsub ↦ rw (e1, unsub) (unsubscribe-server i (given m.rack_id) s)
    | inr e2 ↦ elim (Bool-cases (str_eq m.msg_type "ping")) [
      | inl ping ↦ rw (e1, e2, ping) (reply-server e i pong s)
      | inr e3 ↦ rw (e1, e2, e3) refl
    ]
  ]
])

refused_command :
    (e : WsEnv) (db_ok : Bool) (now i : ℕ) (m : Fields) (s : Site) (reason : Reply)
    → is_command m.msg_type ≡ true
    → refusal_of e i m s ≡ some reason
    → (on_object e db_ok now i m s).server ≡ s.server
unfolding on_object checked_command
refused_command e db_ok now i m s reason kind no_token =
    rw kind (rw (no_token, checked_command) (reply-server e i csrf_failed s))

-- Whatever a connection sends, the server behind the connections is as before, or the message was a
-- command whose CSRF token is accepted.
pub on_message-IsChecked :
    (e : WsEnv) (db_ok : Bool) (now i : ℕ) (r : Received) (s : Site)
    → ((on_message e db_ok now i r s).server ≡ s.server) ⊎ IsChecked e i s r
unfolding on_message close
on_message-IsChecked e db_ok now i no_json s = inl (reply-server e i invalid_json s)
on_message-IsChecked e db_ok now i no_object s = inl refl
on_message-IsChecked e db_ok now i (object m) s = elim (Bool-cases (is_command m.msg_type)) [
  | inr other ↦ inl (other_kind e db_ok now i m s other)
  | inl kind ↦ elim (Option-cases (refusal_of e i m s)) [
    | inr (reason, no_token) ↦ inl (refused_command e db_ok now i m s reason kind no_token)
    | inl passed ↦ inr (record { fields = m; received = refl; kind = kind; passed = passed })
  ]
]
