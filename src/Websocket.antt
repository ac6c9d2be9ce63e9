-- ===== src/Websocket.antt =====
-- server/api/websocket.py: the registry of the browsers' connections, and the routing of messages to
-- them. A connection is an object that the registry's list and its endpoint share: it stands in a
-- table under the number of its socket, and the registry lists those numbers. A broadcast is one
-- atomic step, though the event loop may change the list between two sends.
pub mod Registry
pub mod Commands
pub mod Uncommitted
pub mod Guarded
use vivarium_connection.Common.{
  ℕ, String, str_eq, Bool, true, false, not, ◌&&◌, ◌||◌, ◌==◌, Option, none, some, List, [], ◌∷◌,
  ◌++◌, if◌then◌else◌, Error,
}
use vivarium_connection.Common.Dict
use vivarium_connection.Common.Text.{Text}
use vivarium_connection.Locking.{contains}
use vivarium_connection.State.{RackState, Mirror}
use vivarium_connection.Handler.{CommandResult}

pub record WsConnection : Type 0 where
  pub user_id : String
  pub role : String
  pub rack_ids : List String
  pub csrf_cookie_token : Option String

-- the JSON messages to a browser
pub data WsMessage : Type 0 where
  connected : String → String → WsMessage
  invalid_json csrf_failed fields_required pong : WsMessage
  subscribed : String → WsMessage
  command_ack : String → Text → CommandResult → WsMessage
  command_error : Error → WsMessage
  relayed : String → String → Text → WsMessage
  stream_close : String → WsMessage
  capture_complete :
      String → Option String → Option String → String → Option ℕ → Option ℕ → WsMessage

-- `ConnectionRegistry`, the table of the connections, and what the sockets have sent
pub record Hub : Type 0 where
  pub loop_running : Bool
  pub connections : List ℕ
  pub conn : ℕ → WsConnection
  pub sent : List (ℕ × WsMessage)

unfoldable pub set_loop : Hub → Hub
set_loop h = record h { loop_running = true }

unfoldable pub add : ℕ → Hub → Hub
add i h = record h { connections = h.connections ++ (i ∷ []) }

-- `list.remove`: the first occurrence, if there is one
unfoldable pub remove_first : ℕ → List ℕ → List ℕ
remove_first i [] = []
remove_first i (j ∷ js) = let rest = remove_first i js in if j == i then js else j ∷ rest

unfoldable pub remove : ℕ → Hub → Hub
remove i h = record h { connections = remove_first i h.connections }

unfoldable pub get_all : Hub → List ℕ
get_all h = h.connections

-- the first test: a connection without subscriptions takes every rack's messages
unfoldable pub follows : String → List String → Bool
follows rack_id [] = true
follows rack_id (r ∷ rs) = str_eq rack_id "" || contains (r ∷ rs) rack_id

-- `not (lock_holder_user_id and conn.user_id != lock_holder_user_id)`
unfoldable pub is_holder : Option String → String → Bool
is_holder none user_id = true
is_holder (some holder) user_id = str_eq holder "" || str_eq user_id holder

unfoldable pub receives : String → Option String → Bool → WsConnection → Bool
receives rack_id holder holder_only c =
    follows rack_id c.rack_ids
    && (if holder_only then not (str_eq c.role "viewer") && is_holder holder c.user_id else true)

-- The sends so far, and the connections whose send raised.
pub record Delivery : Type 0 where
  pub sent : List (ℕ × WsMessage)
  pub dead : List ℕ

unfoldable pub send_one : (ℕ → Bool) → (ℕ → Bool) → WsMessage → ℕ → Delivery → Delivery
send_one alive takes m i d =
    if takes i
    then (if alive i
        then record d { sent = d.sent ++ ((i, m) ∷ []) }
        else record d { dead = d.dead ++ (i ∷ []) })
    else d

unfoldable pub send_each : (ℕ → Bool) → (ℕ → Bool) → WsMessage → List ℕ → Delivery → Delivery
send_each alive takes m [] d = d
send_each alive takes m (i ∷ is) d = send_each alive takes m is (send_one alive takes m i d)

unfoldable pub remove_each : List ℕ → List ℕ → List ℕ
remove_each [] live = live
remove_each (i ∷ is) live = remove_each is (remove_first i live)

-- `alive i` says whether `send_text` returns on socket i.
unfoldable pub broadcast_to_rack :
    (ℕ → Bool) → String → WsMessage → Option String → Bool → Hub → Hub
broadcast_to_rack alive rack_id m holder holder_only h =
    let d =
      send_each alive (λ i. receives rack_id holder holder_only (h.conn i)) m h.connections
        (record { sent = h.sent; dead = [] }) in
    record h { sent = d.sent; connections = remove_each d.dead h.connections }

unfoldable pub broadcast_from_thread :
    (ℕ → Bool) → String → WsMessage → Option String → Bool → Hub → Hub
broadcast_from_thread alive rack_id m holder holder_only h =
    if h.loop_running then broadcast_to_rack alive rack_id m holder holder_only h else h

unfoldable pub holder_of : Option RackState → Option String
holder_of none = none
holder_of (some state) = state.lock_holder_user_id

unfoldable pub get_lock_holder : String → Mirror → Option String
get_lock_holder rack_id mirror = holder_of (Dict.lookup rack_id mirror)

unfoldable pub relay_mqtt_to_ws : (ℕ → Bool) → Mirror → Option String → String → Text → Hub → Hub
relay_mqtt_to_ws alive mirror none subtopic payload h = h
relay_mqtt_to_ws alive mirror (some rack_id) subtopic payload h =
    if str_eq subtopic "capture_complete"
    then broadcast_from_thread alive rack_id (relayed rack_id subtopic payload)
        (get_lock_holder rack_id mirror) true h
    else broadcast_from_thread alive rack_id (relayed rack_id subtopic payload) none false h

-- server/services/streaming.py: a user who is known is the only one who is told.
unfoldable pub broadcast_stream_close : (ℕ → Bool) → String → Option String → Hub → Hub
broadcast_stream_close alive rack_id none h =
    broadcast_from_thread alive rack_id (stream_close rack_id) none false h
broadcast_stream_close alive rack_id (some user_id) h =
    if str_eq user_id ""
    then broadcast_from_thread alive rack_id (stream_close rack_id) none false h
    else broadcast_from_thread alive rack_id (stream_close rack_id) (some user_id) true h
