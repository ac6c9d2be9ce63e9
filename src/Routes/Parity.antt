-- ===== src/Routes/Parity.antt =====
-- A command over HTTP, in server/api/routes.py, against the same command over the websocket, in
-- server/api/websocket.py.
use vivarium_connection.Common.{
  ℕ, ◌≡◌, refl, subst, String, Bool, true, false, Bool-cases, inl, inr, Option, some, Result, ok,
  raised, type_error, integrity_error, runtime_error, serial_exception, value_error, index_error,
  operational_error, validation_error, arith,
}
use vivarium_connection.Common.Text.{Text}
use vivarium_connection.Queue.{
  published, queued, emergency, error_rack_not_found, error_publish_failed, error_emergency_failed,
}
use vivarium_connection.Handler.{
  Server, CommandResult, from_queue, from_scan, rack_missing, routed, stop_sent, handle_command,
}
use vivarium_connection.Auth.{Authority, CurrentUser, granted, require_rack_operator}
use vivarium_connection.Websocket.{WsMessage}
use vivarium_connection.Websocket.Commands.{
  WsEnv, Site, reply, close, close_session, after_emergency, acknowledge, run_command,
}
use vivarium_connection.Routes.{answer_command, command_by, send_command}

abbrev pub is_scan : Result CommandResult → Bool
is_scan (ok (from_scan a)) = true
is_scan _ = false

pub reply-server :
    (e : WsEnv) (i : ℕ) (m : WsMessage) (s : Site) → (reply e i m s).server ≡ s.server
unfolding reply
reply-server e i m s = elim (Bool-cases (e.alive i)) [
  | inl up ↦ rw up refl
  | inr down ↦ rw down refl
]

after_emergency-server :
    (e : WsEnv) (now : ℕ) (rack_id user : String) (s t : Site)
    → s.server ≡ t.server
    → (after_emergency e now rack_id user s).server ≡ (after_emergency e now rack_id user t).server
unfolding after_emergency
after_emergency-server e now rack_id user s t h = rw h refl

-- Both paths leave the same server, whatever `handle_command` answered, unless it started a scan.
same_server :
    (e : WsEnv) (now i : ℕ) (rack_id : String) (command : Text) (s : Site) (after : Server)
    (r : Result CommandResult)
    → is_scan r ≡ false
    → (acknowledge e now i rack_id command s (close_session s.server (after, r))).server
      ≡ (answer_command e now rack_id (s.hub.conn i).user_id s (after, r)).0.server
unfolding acknowledge close_session answer_command close
same_server e now i rack_id command s after (ok (from_scan a)) h = ground arith
same_server e now i rack_id command s after (ok rack_missing) h = reply-server e i _ _
same_server e now i rack_id command s after (ok stop_sent) h = reply-server e i _ _
same_server e now i rack_id command s after (ok routed) h = reply-server e i _ _
same_server e now i rack_id command s after (ok (from_queue published)) h = reply-server e i _ _
same_server e now i rack_id command s after (ok (from_queue queued)) h = reply-server e i _ _
same_server e now i rack_id command s after (ok (from_queue emergency)) h =
    after_emergency-server e now rack_id (s.hub.conn i).user_id _ _ (reply-server e i _ _)
same_server e now i rack_id command s after (ok (from_queue error_rack_not_found)) h =
    reply-server e i _ _
same_server e now i rack_id command s after (ok (from_queue error_publish_failed)) h =
    reply-server e i _ _
same_server e now i rack_id command s after (ok (from_queue error_emergency_failed)) h =
    reply-server e i _ _
same_server e now i rack_id command s after (raised type_error) h = refl
same_server e now i rack_id command s after (raised integrity_error) h = refl
same_server e now i rack_id command s after (raised runtime_error) h = refl
same_server e now i rack_id command s after (raised serial_exception) h = refl
same_server e now i rack_id command s after (raised value_error) h = refl
same_server e now i rack_id command s after (raised index_error) h = refl
same_server e now i rack_id command s after (raised operational_error) h = refl
same_server e now i rack_id command s after (raised validation_error) h = reply-server e i _ _

-- A command that starts no scan changes the server in the same way over the websocket as over HTTP,
-- for the user of the connection, once the HTTP request is granted: the queue and the published
-- messages, the locks, the pending commands and the attributions agree, on every outcome and error.
pub send_command-run_command :
    (a : Authority) (e : WsEnv) (db_ok : Bool) (now i : ℕ) (rack_id : String) (header : Option Text)
    (command : Text) (u : CurrentUser) (s : Site)
    → require_rack_operator a rack_id header ≡ granted u
    → (s.hub.conn i).user_id ≡ u.user_id
    → is_scan (handle_command e.senv db_ok now rack_id command (some u.user_id) s.server).1 ≡ false
    → (run_command e db_ok now i rack_id command s).server
      ≡ (send_command a e db_ok now rack_id header command s).0.server
unfolding run_command send_command command_by
send_command-run_command a e db_ok now i rack_id header command u s pass same h =
    let (after, r) = handle_command e.senv db_ok now rack_id command (some u.user_id) s.server in
    rw (pass, same)
      (subst
        (λ user.
          (acknowledge e now i rack_id command s (close_session s.server (after, r))).server
          ≡ (answer_command e now rack_id user s (after, r)).0.server)
        same (same_server e now i rack_id command s after r h))
