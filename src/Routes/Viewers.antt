-- ===== src/Routes/Viewers.antt =====
-- A viewer's command: refused by server/api/routes.py, and run by server/api/websocket.py.
use vivarium_connection.Common.{
  ℕ, ◌≡◌, refl, ap, ◌∙◌, String, str_eq, Bool, true, Option, none, some, ◌∷◌, Result, ok,
}
use vivarium_connection.Common.Text.{Text}
use vivarium_connection.Csrf.{given}
use vivarium_connection.Queue.{published}
use vivarium_connection.Handler.{Server, CommandResult, from_queue, handle_command}
use vivarium_connection.Auth.{
  Authority, CurrentUser, granted, refused, forbidden, resolve_browser_identity, assigned_only,
  require_rack_operator,
}
use vivarium_connection.Websocket.{command_ack}
use vivarium_connection.Websocket.Commands.{
  WsEnv, Site, Fields, object, close_session, acknowledge, run_command, on_command, checked_command,
  command_or_default, is_command, refusal_of, on_object, on_message,
}
use vivarium_connection.Routes.{http_403, command_by, send_command, of_refusal}
use vivarium_connection.Routes.Parity.{reply-server}

viewer-refused :
    (a : Authority) (rack_id : String) (header : Option Text) (u : CurrentUser)
    → resolve_browser_identity a header ≡ granted u
    → str_eq u.role "viewer" ≡ true
    → require_rack_operator a rack_id header ≡ refused forbidden
unfolding require_rack_operator assigned_only
viewer-refused a rack_id header u h viewer = rw (h, assigned_only) (rw viewer refl)

-- A command message that passes the CSRF check runs its command.
pub on_message-command :
    (e : WsEnv) (db_ok : Bool) (now i : ℕ) (m : Fields) (s : Site) (rack_id : String) (c : ℕ)
    (cs : Text)
    → is_command m.msg_type ≡ true
    → refusal_of e i m s ≡ none
    → given m.rack_id ≡ some rack_id
    → command_or_default m.msg_type m.command ≡ c ∷ cs
    → on_message e db_ok now i (object m) s ≡ run_command e db_ok now i rack_id (c ∷ cs) s
unfolding on_message on_object checked_command on_command
on_message-command e db_ok now i m s rack_id c cs kind passed rack command =
    rw kind (rw (passed, checked_command) (rw (rack, command, on_command) refl))

-- A viewer's command is refused over HTTP and changes nothing; sent over the viewer's own websocket,
-- with a valid CSRF token, the same command is run as that user, and published where the handler
-- publishes it.
pub viewer_published :
    (a : Authority) (e : WsEnv) (db_ok : Bool) (now i : ℕ) (header : Option Text) (u : CurrentUser)
    (m : Fields) (s : Site) (rack_id : String) (c : ℕ) (cs : Text) (after : Server)
    → resolve_browser_identity a header ≡ granted u
    → str_eq u.role "viewer" ≡ true
    → (s.hub.conn i).user_id ≡ u.user_id
    → is_command m.msg_type ≡ true
    → refusal_of e i m s ≡ none
    → given m.rack_id ≡ some rack_id
    → command_or_default m.msg_type m.command ≡ c ∷ cs
    → handle_command e.senv db_ok now rack_id (c ∷ cs) (some u.user_id) s.server
      ≡ (after, ok (from_queue published))
    → (send_command a e db_ok now rack_id header (c ∷ cs) s ≡ (s, http_403))
      × ((on_message e db_ok now i (object m) s).server ≡ after)
unfolding send_command command_by of_refusal run_command acknowledge close_session
viewer_published a e db_ok now i header u m s rack_id c cs after h viewer same kind passed rack
      command run =
    (
      rw (viewer-refused a rack_id header u h viewer, command_by) refl,
      ap {B = Server} (λ (x : Site). x.server)
            (on_message-command e db_ok now i m s rack_id c cs kind passed rack command)
          ∙ rw same (
              ap {B = Server}
                (λ (r : Server × Result CommandResult).
                  (acknowledge e now i rack_id (c ∷ cs) s (close_session s.server r)).server)
                run
              ∙ reply-server e i (command_ack rack_id (c ∷ cs) (from_queue published)) _),
    )
