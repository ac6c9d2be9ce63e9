-- ===== src/Routes.antt =====
-- server/api/routes.py: the routes that command a rack and release its lock, and those that read its
-- state. A rate limit that is passed, and the response's encoding, are left out.
pub mod Parity
pub mod Viewers
use vivarium_connection.Common.{
  ℕ, String, str_eq, Bool, true, false, not, ◌&&◌, Option, none, some, List, if◌then◌else◌, Result,
  ok, raised, Error, validation_error, is_some,
}
use vivarium_connection.Common.Dict
use vivarium_connection.Common.Clock.{Stamp}
use vivarium_connection.Common.Text.{Text, codes}
use vivarium_connection.Models.{Float, Rack}
use vivarium_connection.State.{RackState}
use vivarium_connection.Queue.{
  Outcome, published, queued, emergency, error_rack_not_found, error_publish_failed,
  error_emergency_failed, session_release,
}
use vivarium_connection.Plant.{Plant, command_message, send}
use vivarium_connection.ScanEngine.Handlers.{
  Answer, scan_published, scan_queued, error_pi_offline, error_lock, error_internal,
}
use vivarium_connection.ScanEngine.Handlers
use vivarium_connection.Handler.{
  Server, CommandResult, from_queue, from_scan, rack_missing, routed, stop_sent, set_world,
  handle_command,
}
use vivarium_connection.Auth.{
  Authority, CurrentUser, Access, granted, refused, Refusal, unauthorized, forbidden,
  require_rack_operator,
}
use vivarium_connection.Websocket.{broadcast_stream_close}
use vivarium_connection.Websocket.Commands.{WsEnv, Site, after_emergency}

pub record Position : Type 0 where
  pub x : Option Float
  pub y : Option Float
  pub c : Option Float
  pub homed_x : Bool
  pub homed_y : Bool
  pub homed_c : Bool
  pub last_homed_at : Option Stamp
  pub mqtt_status : String

pub data LayoutSource : Type 0 where
  from_state from_db : LayoutSource

pub record Layout : Type 0 where
  pub source : LayoutSource
  pub rows : Option ℕ
  pub columns : Option ℕ
  pub pitch_x : Option Float
  pub pitch_y : Option Float
  pub offset_x : Option Float
  pub offset_y : Option Float
  pub limit_x_mm : Option Float
  pub limit_y_mm : Option Float
  pub limit_c_mm : Option Float

pub data HttpAnswer : Type 0 where
  http_400 http_401 http_403 http_404 http_500 : HttpAnswer
  command_response : CommandResult → HttpAnswer
  released not_locked : HttpAnswer
  position : Position → HttpAnswer
  layout : Layout → HttpAnswer
  limits : Option Float → Option Float → Option Float → HttpAnswer

unfoldable pub of_refusal : Refusal → HttpAnswer
of_refusal unauthorized = http_401
of_refusal forbidden = http_403

-- `outcome.startswith("error:")`, and "rack_not_found" in it
unfoldable pub queue_answer : Outcome → HttpAnswer
queue_answer error_rack_not_found = http_404
queue_answer error_publish_failed = http_400
queue_answer error_emergency_failed = http_400
queue_answer o = command_response (from_queue o)

unfoldable pub scan_answer : Answer → HttpAnswer
scan_answer Handlers.error_rack_not_found = http_404
scan_answer error_lock = http_404
scan_answer error_pi_offline = http_400
scan_answer error_internal = http_400
scan_answer o = command_response (from_scan o)

unfoldable pub command_answer : CommandResult → HttpAnswer
command_answer rack_missing = http_404
command_answer stop_sent = command_response stop_sent
command_answer routed = command_response routed
command_answer (from_queue o) = queue_answer o
command_answer (from_scan o) = scan_answer o

-- From the result of `handle_command` on; the request's session is committed behind the answer, and a
-- refused command has written nothing through it.
unfoldable pub answer_command :
    WsEnv → ℕ → String → String → Site → Server × Result CommandResult → Site × HttpAnswer
answer_command e now rack_id user_id s (server, raised validation_error) =
    (record s { server = server }, http_400)
answer_command e now rack_id user_id s (server, raised error) =
    (record s { server = server }, http_500)
answer_command e now rack_id user_id s (server, ok (from_queue emergency)) = (
  after_emergency e now rack_id user_id (record s { server = server }),
  command_response (from_queue emergency),
)
answer_command e now rack_id user_id s (server, ok o) =
    (record s { server = server }, command_answer o)

unfoldable pub command_by : WsEnv → Bool → ℕ → String → Text → Site → Access → Site × HttpAnswer
command_by e db_ok now rack_id command s (refused r) = (s, of_refusal r)
command_by e db_ok now rack_id command s (granted user) =
    answer_command e now rack_id user.user_id s
      (handle_command e.senv db_ok now rack_id command (some user.user_id) s.server)

unfoldable pub send_command :
    Authority → WsEnv → Bool → ℕ → String → Option Text → Text → Site → Site × HttpAnswer
send_command a e db_ok now rack_id authorization command s =
    command_by e db_ok now rack_id command s (require_rack_operator a rack_id authorization)

-- `rack.lock_holder_user_id != current_user.user_id`
unfoldable pub holds : Option String → String → Bool
holds none user_id = false
holds (some holder) user_id = str_eq holder user_id

unfoldable pub may_release : CurrentUser → Rack → Bool
may_release user rack =
    if str_eq user.role "admin" then true else holds rack.lock_holder_user_id user.user_id

unfoldable pub close_after : WsEnv → String → String → Bool → Site → Site × HttpAnswer
close_after e rack_id user_id true s =
    (record s { hub = broadcast_stream_close e.alive rack_id (some user_id) s.hub }, released)
close_after e rack_id user_id false s = (s, not_locked)

-- The session of the request is committed behind the answer, and the callbacks run inside it.
unfoldable pub release_for : WsEnv → ℕ → String → String → Site → Site × HttpAnswer
release_for e now rack_id user_id s =
    let (freed, w) = session_release e.senv.env now rack_id s.server.engine.plant.world in
    close_after e rack_id user_id freed (record s { server = set_world w s.server })

unfoldable pub release_by : WsEnv → ℕ → String → Site → Access → Site × HttpAnswer
release_by e now rack_id s (refused r) = (s, of_refusal r)
release_by e now rack_id s (granted user) =
    elim (Dict.lookup rack_id s.server.engine.plant.world.store.racks) [
      | none ↦ (s, http_404)
      | some rack ↦
          if may_release user rack then release_for e now rack_id user.user_id s else (s, http_403)
    ]

unfoldable pub release_lock_endpoint :
    Authority → WsEnv → ℕ → String → Option Text → Site → Site × HttpAnswer
release_lock_endpoint a e now rack_id authorization s =
    release_by e now rack_id s (require_rack_operator a rack_id authorization)

unfoldable pub position_of : Option RackState → HttpAnswer
position_of none = http_404
position_of (some state) = position (record {
  x = state.last_position_x;
  y = state.last_position_y;
  c = state.last_position_c;
  homed_x = state.homed_x;
  homed_y = state.homed_y;
  homed_c = state.homed_c;
  last_homed_at = state.last_homed_at;
  mqtt_status = state.mqtt_status;
})

unfoldable pub get_position : Authority → String → Option Text → Site → HttpAnswer
get_position a rack_id authorization s = elim (require_rack_operator a rack_id authorization) [
  | refused r ↦ of_refusal r
  | granted user ↦ position_of (Dict.lookup rack_id s.server.engine.plant.world.store.mirror)
]

unfoldable pub state_layout : RackState → Layout
state_layout state = record {
  source = from_state;
  rows = state.grid_rows;
  columns = state.grid_cols;
  pitch_x = state.pitch_x_mm;
  pitch_y = state.pitch_y_mm;
  offset_x = state.x0_offset_mm;
  offset_y = state.y0_offset_mm;
  limit_x_mm = state.limit_x_mm;
  limit_y_mm = state.limit_y_mm;
  limit_c_mm = state.limit_c_mm;
}

unfoldable pub db_layout : Rack → Layout
db_layout rack = record {
  source = from_db;
  rows = some rack.grid_rows;
  columns = some rack.grid_cols;
  pitch_x = some rack.pitch_x_mm;
  pitch_y = some rack.pitch_y_mm;
  offset_x = some rack.x0_offset_mm;
  offset_y = some rack.y0_offset_mm;
  limit_x_mm = rack.limit_x_mm;
  limit_y_mm = rack.limit_y_mm;
  limit_c_mm = rack.limit_c_mm;
}

-- `state and state.pitch_x_mm is not None`
unfoldable pub stored_layout : Option RackState → Rack → Layout
stored_layout none rack = db_layout rack
stored_layout (some state) rack =
    if is_some state.pitch_x_mm then state_layout state else db_layout rack

unfoldable pub layout_for : String → Site → Access → HttpAnswer
layout_for rack_id s (refused r) = of_refusal r
layout_for rack_id s (granted user) =
    elim (Dict.lookup rack_id s.server.engine.plant.world.store.racks) [
      | none ↦ http_404
      | some rack ↦
          layout (stored_layout (Dict.lookup rack_id s.server.engine.plant.world.store.mirror) rack)
    ]

-- without `?live=true`
unfoldable pub get_rack_layout : Authority → String → Option Text → Site → HttpAnswer
get_rack_layout a rack_id authorization s =
    layout_for rack_id s (require_rack_operator a rack_id authorization)

unfoldable pub set_plant : Plant → Server → Server
set_plant plant server = record server { engine = record server.engine { plant = plant } }

unfoldable pub limits_for : WsEnv → String → Site → Access → Site × HttpAnswer
limits_for e rack_id s (refused r) = (s, of_refusal r)
limits_for e rack_id s (granted user) =
    elim (Dict.lookup rack_id s.server.engine.plant.world.store.racks) [
      | none ↦ (s, http_404)
      | some rack ↦ (
        record s {
          server =
              set_plant
                (send e.senv.env (command_message rack_id (codes "M799") 1) s.server.engine.plant).1
                s.server;
        },
        limits rack.limit_x_mm rack.limit_y_mm rack.limit_c_mm,
      )
    ]

unfoldable pub query_machine_limits :
    Authority → WsEnv → String → Option Text → Site → Site × HttpAnswer
query_machine_limits a e rack_id authorization s =
    limits_for e rack_id s (require_rack_operator a rack_id authorization)
