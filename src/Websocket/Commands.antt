-- ===== src/Websocket/Commands.antt =====
-- server/api/websocket.py: `websocket_endpoint`, from the resolved identity on, one received message at
-- a time. The endpoint's database session is closed and never committed: what a command writes through
-- it is lost, and what it writes through sessions of its own stays. A field that is absent is none; a
-- null or an empty field is the empty text.
use vivarium_connection.Common.{
  ℕ, String, str_eq, Bool, ◌||◌, ◌==◌, Option, none, some, List, [], ◌∷◌, ◌++◌, if◌then◌else◌,
  Result, ok, raised, validation_error,
}
use vivarium_connection.Common.Text.{Text, codes}
use vivarium_connection.Locking.{contains}
use vivarium_connection.Csrf.{Reply, given, validate_csrf_header}
use vivarium_connection.Queue.{emergency, session_release}
use vivarium_connection.ScanEngine.{ScanEnv}
use vivarium_connection.Handler.{
  Server, CommandResult, from_queue, from_scan, set_world, handle_command,
}
use vivarium_connection.Websocket.{
  WsConnection, WsMessage, connected, invalid_json, csrf_failed, fields_required, pong, subscribed,
  command_ack, command_error, Hub, add, remove, broadcast_stream_close,
}

pub record Fields : Type 0 where
  pub msg_type : String
  pub rack_id : Option String
  pub command : Option Text
  pub csrf_token : Option String

-- what was received: text that is no JSON, JSON that is no object, or an object
pub data Received : Type 0 where
  no_json no_object : Received
  object : Fields → Received

-- `alive` says whether a socket's `send_text` returns.
pub record WsEnv : Type 0 where
  pub senv : ScanEnv
  pub csrf_enabled : Bool
  pub alive : ℕ → Bool

-- the server that the commands change, and the browsers' connections
pub record Site : Type 0 where
  pub server : Server
  pub hub : Hub

unfoldable pub set_conn : ℕ → WsConnection → Hub → Hub
set_conn i c h = record h { conn = λ j. if j == i then c else h.conn j }

unfoldable pub open_connection : String → String → Option String → WsConnection
open_connection user_id role cookie = record {
  user_id = user_id;
  role = role;
  rack_ids = [];
  csrf_cookie_token = cookie;
}

-- Steps 1 to 3. A socket without an identity is closed; the greeting stands outside the `try`, and a
-- socket that fails on it stays registered.
unfoldable pub connect : WsEnv → ℕ → Option (String × String) → Option String → Hub → Hub
connect e i none cookie h = h
connect e i (some (user_id, role)) cookie h =
    let h' = add i (set_conn i (open_connection user_id role cookie) h) in
    if e.alive i then record h' { sent = h'.sent ++ ((i, connected user_id role) ∷ []) } else h'

-- `send_text` to the connection itself; where it raises, the loop ends and the connection is removed.
unfoldable pub reply : WsEnv → ℕ → WsMessage → Site → Site
reply e i m s =
    if e.alive i
    then record s { hub = record s.hub { sent = s.hub.sent ++ ((i, m) ∷ []) } }
    else record s { hub = remove i s.hub }

-- an exception that ends the loop
unfoldable pub close : ℕ → Site → Site
close i s = record s { hub = remove i s.hub }

-- `rack_ids.add`
unfoldable pub add_rack : String → List String → List String
add_rack rack_id racks = if contains racks rack_id then racks else rack_id ∷ racks

-- `rack_ids.discard`
unfoldable pub discard_rack : String → List String → List String
discard_rack rack_id [] = []
discard_rack rack_id (r ∷ rs) =
    let rest = discard_rack rack_id rs in if str_eq r rack_id then rest else r ∷ rest

unfoldable pub set_racks_of : (List String → List String) → ℕ → Site → Site
set_racks_of change i s =
    let c = s.hub.conn i in
    record s { hub = set_conn i (record c { rack_ids = change c.rack_ids }) s.hub }

unfoldable pub subscribe : WsEnv → ℕ → Option String → Site → Site
subscribe e i none s = s
subscribe e i (some rack_id) s =
    reply e i (subscribed rack_id) (set_racks_of (add_rack rack_id) i s)

unfoldable pub unsubscribe : ℕ → Option String → Site → Site
unsubscribe i none s = s
unsubscribe i (some rack_id) s = set_racks_of (discard_rack rack_id) i s

-- What is left when the session is closed: the scan engine's writes of an operator's scan went through
-- it, those of the queue manager and the cache through sessions of their own.
unfoldable pub close_session :
    Server → Server × Result CommandResult → Server × Result CommandResult
close_session before (after, ok (from_scan a)) = (
  record after {
    engine = record after.engine {
      plant = record after.engine.plant {
        sessions = before.engine.plant.sessions;
        world = record after.engine.plant.world {
          store = record after.engine.plant.world.store {
            racks = before.engine.plant.world.store.racks;
          };
        };
      };
    };
  },
  ok (from_scan a),
)
close_session before (after, ok o) = (after, ok o)
close_session before (after, raised error) = (after, raised error)

-- the lock released and the stream closed, after a stop
unfoldable pub after_emergency : WsEnv → ℕ → String → String → Site → Site
after_emergency e now rack_id user_id s = record s {
  server =
      set_world (session_release e.senv.env now rack_id s.server.engine.plant.world).1 s.server;
  hub = broadcast_stream_close e.alive rack_id (some user_id) s.hub;
}

-- The broadcast is scheduled behind the answer.
unfoldable pub acknowledge :
    WsEnv → ℕ → ℕ → String → Text → Site → Server × Result CommandResult → Site
acknowledge e now i rack_id command s (server, raised validation_error) =
    reply e i (command_error validation_error) (record s { server = server })
acknowledge e now i rack_id command s (server, raised error) =
    close i (record s { server = server })
acknowledge e now i rack_id command s (server, ok (from_queue emergency)) =
    after_emergency e now rack_id (s.hub.conn i).user_id (
      reply e i (command_ack rack_id command (from_queue emergency)) (record s { server = server }))
acknowledge e now i rack_id command s (server, ok o) =
    reply e i (command_ack rack_id command o) (record s { server = server })

unfoldable pub run_command : WsEnv → Bool → ℕ → ℕ → String → Text → Site → Site
run_command e db_ok now i rack_id command s = acknowledge e now i rack_id command s (
    close_session s.server
      (handle_command e.senv db_ok now rack_id command (some (s.hub.conn i).user_id) s.server))

-- `msg.get("command", default)`
unfoldable pub command_or_default : String → Option Text → Text
command_or_default msg_type none = if str_eq msg_type "CAPTURE" then codes "CAPTURE" else []
command_or_default msg_type (some command) = command

-- `if rack_id and command`
unfoldable pub on_command : WsEnv → Bool → ℕ → ℕ → Option String → Text → Site → Site
on_command e db_ok now i none command s = reply e i fields_required s
on_command e db_ok now i (some rack_id) [] s = reply e i fields_required s
on_command e db_ok now i (some rack_id) (c ∷ cs) s = run_command e db_ok now i rack_id (c ∷ cs) s

unfoldable pub is_command : String → Bool
is_command msg_type = str_eq msg_type "command" || str_eq msg_type "CAPTURE"

unfoldable pub refusal_of : WsEnv → ℕ → Fields → Site → Option Reply
refusal_of e i m s =
    validate_csrf_header e.csrf_enabled (s.hub.conn i).csrf_cookie_token m.csrf_token

unfoldable pub checked_command : WsEnv → Bool → ℕ → ℕ → Fields → Site → Option Reply → Site
checked_command e db_ok now i m s (some refused) = reply e i csrf_failed s
checked_command e db_ok now i m s none =
    on_command e db_ok now i (given m.rack_id) (command_or_default m.msg_type m.command) s

unfoldable pub on_object : WsEnv → Bool → ℕ → ℕ → Fields → Site → Site
on_object e db_ok now i m s =
    if is_command m.msg_type
    then checked_command e db_ok now i m s (refusal_of e i m s)
    else if str_eq m.msg_type "subscribe"
    then subscribe e i (given m.rack_id) s
    else if str_eq m.msg_type "unsubscribe"
    then unsubscribe i (given m.rack_id) s
    else if str_eq m.msg_type "ping"
    then reply e i pong s
    else s

unfoldable pub on_message : WsEnv → Bool → ℕ → ℕ → Received → Site → Site
on_message e db_ok now i no_json s = reply e i invalid_json s
on_message e db_ok now i no_object s = close i s
on_message e db_ok now i (object m) s = on_object e db_ok now i m s
