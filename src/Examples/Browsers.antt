-- ===== src/Examples/Browsers.antt =====
-- The theorems on server/api/websocket.py and the commands of server/api/routes.py, with two browsers.
use vivarium_connection.M114.{or_else, literal, nonempty as nonempty_run, spaces}
use vivarium_connection.Plant.{set_racks}
use vivarium_connection.Common.{
  String, raised, validation_error, ℕ, ◌≡◌, refl, str_eq, Bool, true, false, not, ◌&&◌, ◌==◌, ◌⊎◌,
  Option, none, some, [], ◌∷◌, ◌++◌, arith, ok, if◌then◌else◌,
}
use vivarium_connection.Common.Dict
use vivarium_connection.Common.Text.{Text, codes, words, upper, one_of, is_space, to_upper}
use vivarium_connection.State.{RackState, from_row}
use vivarium_connection.Locking.{contains, acquire_lock, blocks, grant, granted_store, write}
use vivarium_connection.Csrf.{given, refusal, validate_csrf_header}
use vivarium_connection.Command.{
  scan_engine, ParsedCommand, validate_command, parse_command, parse_tokens, params_from, route_for,
  check, grid_ok, in_range, get_param, add_param, param_of, is_letter, number, digits, digits_from,
  is_digit, set_param,
}
use vivarium_connection.ScanEngine.{
  pi_alive, begin_scan, publish_scan_start, set_active, set_scan_state,
}
use vivarium_connection.ScanEngine.Handlers.{
  trigger_manual_scan, trigger_online, with_operator_lock,
}
use vivarium_connection.Queue.{
  published, submit, user_or_anonymous, submit_token, token_of, first_word, dispatch, publish_step,
}
use vivarium_connection.Queue.Dispatch.{message_of}
use vivarium_connection.Handler.{
  Server, from_queue, handle_command, dispatch_parsed, dispatch_route, from_submit,
}
use vivarium_connection.Serial.{has_prefix, strip, lstrip, rstrip, keep_char, to_lower}
use vivarium_connection.Auth.{
  Authority, CurrentUser, granted, extract_bearer, resolve_browser_identity, require_rack_operator,
  partition, nonempty, bearer_of, resolve_token, assigned_only, decode_token, decode_payload,
  claims_of, from_payload,
}
use vivarium_connection.Websocket.{WsConnection, pong, Hub, receives, broadcast_to_rack}
use vivarium_connection.Websocket.Registry.{keep, addressed, broadcast_to_rack_lem}
use vivarium_connection.Websocket.Commands.{
  WsEnv, Site, Fields, object, is_command, refusal_of, command_or_default, on_message, run_command,
}
use vivarium_connection.Websocket.Guarded.{IsChecked, on_message-IsChecked}
use vivarium_connection.Websocket.Uncommitted.{run_command-unprotected}
use vivarium_connection.Routes.{get_rack_layout, layout, state_layout, http_403, send_command}
use vivarium_connection.Routes.Parity.{is_scan, send_command-run_command}
use vivarium_connection.Routes.Viewers.{viewer_published}
use vivarium_connection.Responses.Layout.{
  Board, search, rows_here, on_layout_response, two_values, value_of, run_of, is_decimal,
}
use vivarium_connection.Responses.Stale.{with_mirror, on_layout_response-stale}
use vivarium_connection.DeviceId.{to_int}
use vivarium_connection.Examples.{rack_row, env, jog}
use vivarium_connection.Examples.Engines.{senv, scanning, scanning_lem}
use vivarium_connection.Examples.Queues.{jog_token}
use vivarium_connection.Examples.Handlers.{idle_server}

abbrev alice_browser : WsConnection
alice_browser = record {
  user_id = "alice";
  role = "operator";
  rack_ids = "rack-1" ∷ [];
  csrf_cookie_token = some "a1";
}

abbrev bob_browser : WsConnection
bob_browser = record {
  user_id = "bob";
  role = "viewer";
  rack_ids = [];
  csrf_cookie_token = some "b1";
}

-- Socket 1 is alice's, and socket 2 bob's, which has failed.
abbrev pub hub : Hub
hub = record {
  loop_running = true;
  connections = 1 ∷ 2 ∷ [];
  conn = λ i. if i == 1 then alice_browser else bob_browser;
  sent = [];
}

abbrev first_only : ℕ → Bool
first_only i = i == 1

broadcast_to_rack_lem_example :
    let takes : ℕ → Bool = λ i. receives "rack-1" none false (hub.conn i) in
    let h' = broadcast_to_rack first_only "rack-1" pong none false hub in
    (h'.sent ≡ hub.sent ++ addressed pong (keep (λ i. takes i && first_only i) hub.connections))
    × (h'.connections ≡ keep (λ i. not (takes i && not (first_only i))) hub.connections)
broadcast_to_rack_lem_example =
    broadcast_to_rack_lem first_only "rack-1" pong none false hub (refl, (refl, tt))

abbrev ws_env : WsEnv
ws_env = record { senv = senv; csrf_enabled = true; alive = λ i. true }

abbrev site : Site
site = record { server = idle_server; hub = hub }

abbrev jog_message : Fields
jog_message = record {
  msg_type = "command";
  rack_id = some "rack-1";
  command = some jog;
  csrf_token = some "b1";
}

on_message-IsChecked_example :
    ((on_message ws_env true 3 2 (object jog_message) site).server ≡ site.server)
    ⊎ IsChecked ws_env 2 site (object jog_message)
on_message-IsChecked_example = on_message-IsChecked ws_env true 3 2 (object jog_message) site

-- A token is the name of its user; bob is a viewer, and alice has access to every rack.
abbrev pub authority : Authority
authority = record {
  jwt_decode = λ token. some (record {
    sub = some (if one_of token (codes "alice" ∷ []) then "alice" else "bob");
    role = some (if one_of token (codes "alice" ∷ []) then "operator" else "viewer");
  });
  is_valid_admin_token = λ token. false;
  looks_like_mqtt_credential = λ token. false;
  is_valid_pi_api_key = λ key. false;
  user_has_rack_access = λ user role rack. str_eq user "alice";
}

abbrev pub alice_header : Option Text
alice_header = some (codes "Bearer alice")

abbrev bob_header : Option Text
bob_header = some (codes "Bearer bob")

abbrev pub alice : CurrentUser
alice = record { user_id = "alice"; role = "operator"; is_admin_token = false }

abbrev bob : CurrentUser
bob = record { user_id = "bob"; role = "viewer"; is_admin_token = false }

bob_resolved : resolve_browser_identity authority bob_header ≡ granted bob
unfolding resolve_browser_identity resolve_token extract_bearer partition bearer_of nonempty strip
    lstrip rstrip keep_char is_space to_lower decode_token decode_payload claims_of given
    from_payload
bob_resolved = refl

pub alice_passes : require_rack_operator authority "rack-1" alice_header ≡ granted alice
unfolding require_rack_operator assigned_only resolve_browser_identity resolve_token extract_bearer
    partition bearer_of nonempty strip lstrip rstrip keep_char is_space to_lower decode_token
    decode_payload claims_of given from_payload
alice_passes = refl

bob_passed : refusal_of ws_env 2 jog_message site ≡ none
unfolding refusal_of validate_csrf_header refusal given
bob_passed = refl

rack_given : given jog_message.rack_id ≡ some "rack-1"
unfolding given
rack_given = refl

command_given : command_or_default jog_message.msg_type jog_message.command ≡ jog
unfolding command_or_default
command_given = refl

found : Dict.lookup "rack-1" idle_server.engine.plant.world.store.racks ≡ some rack_row
unfolding Dict.lookup
found = refl

bob_known : contains scanning.plant.world.store.users (user_or_anonymous (some "bob")) ≡ true
unfolding contains user_or_anonymous trigger_manual_scan pi_alive Dict.lookup trigger_online
    acquire_lock blocks grant with_operator_lock from_row begin_scan publish_scan_start set_active
    set_scan_state granted_store write Dict.insert set_racks
bob_known = refl

abbrev start : ParsedCommand
start = record { cmd = codes "SCAN_START"; params = []; route = scan_engine }

start_valid : validate_command (codes "SCAN_START") 12 7 ≡ ok start
unfolding validate_command parse_command parse_tokens words upper params_from route_for check one_of
    grid_ok
start_valid = refl

jog_is_no_scan :
    is_scan (handle_command senv true 3 "rack-1" jog (some "alice") site.server).1 ≡ false
unfolding handle_command Dict.lookup validate_command parse_command parse_tokens words upper
    params_from route_for check one_of grid_ok dispatch_parsed dispatch_route from_submit submit
    submit_token token_of first_word dispatch acquire_lock blocks grant contains user_or_anonymous
    publish_step in_range get_param add_param param_of is_letter number digits digits_from is_digit
    set_param
jog_is_no_scan = refl

send_command-run_command_example :
    (run_command ws_env true 3 1 "rack-1" jog site).server
    ≡ (send_command authority ws_env true 3 "rack-1" alice_header jog site).0.server
send_command-run_command_example =
    send_command-run_command authority ws_env true 3 1 "rack-1" alice_header jog alice site
      alice_passes refl jog_is_no_scan

abbrev after_jog : Server
after_jog = (handle_command senv true 3 "rack-1" jog (some "bob") idle_server).0

jog_published :
    handle_command senv true 3 "rack-1" jog (some "bob") idle_server
    ≡ (after_jog, ok (from_queue published))
unfolding handle_command Dict.lookup validate_command parse_command parse_tokens words upper
    params_from route_for check one_of grid_ok dispatch_parsed dispatch_route from_submit submit
    submit_token token_of first_word dispatch acquire_lock blocks grant contains user_or_anonymous
    publish_step in_range get_param add_param param_of is_letter number digits digits_from is_digit
    set_param
jog_published = refl

viewer_published_example :
    (send_command authority ws_env true 3 "rack-1" bob_header jog site ≡ (site, http_403))
    × ((on_message ws_env true 3 2 (object jog_message) site).server ≡ after_jog)
unfolding is_command
viewer_published_example =
    viewer_published authority ws_env true 3 2 bob_header bob jog_message site "rack-1" b'M' _
      after_jog bob_resolved refl refl refl bob_passed rack_given command_given jog_published

run_command-unprotected_example :
    let server = (run_command ws_env true 0 1 "rack-1" (codes "SCAN_START") site).server in
    let x = server.engine in
    let (w', r) = submit env false 1 "rack-1" jog (some "bob") x.plant.world in
    (x.plant.scan_starts ≡ scanning.plant.scan_starts)
    × (x.active_sessions ≡ scanning.active_sessions)
    × (x.plant.sessions ≡ site.server.engine.plant.sessions)
    × (x.plant.world.store.racks ≡ site.server.engine.plant.world.store.racks)
    × (r ≡ ok published)
    × (w'.published ≡ x.plant.world.published ++ message_of "rack-1" jog (codes "M700") ∷ [])
run_command-unprotected_example =
    run_command-unprotected ws_env true 0 1 1 "rack-1" (codes "SCAN_START") site rack_row start
      scanning jog (codes "M700") (some "bob") found start_valid refl refl scanning_lem
      (omega arith) jog_token refl bob_known refl

abbrev known_state : RackState
known_state = record (from_row rack_row) { pitch_x_mm = some 50 }

abbrev board : Board
board = record { mirror = ("rack-1", known_state) ∷ []; layouts = []; jobs = [] }

-- The controller has 20 rows; the database has 12.
abbrev rows_line : String
rows_line = "ROWS=20 COLS=9"

rows_parsed : search rows_here (codes rows_line) ≡ some (codes "20", codes "9")
unfolding search or_else rows_here two_values value_of literal to_upper nonempty_run run_of
    is_decimal spaces is_space lstrip
rows_parsed = refl

far_refused : validate_command (codes "M700 R15 C5") 12 7 ≡ raised validation_error
unfolding handle_command Dict.lookup validate_command parse_command parse_tokens words upper
    params_from route_for check one_of grid_ok dispatch_parsed dispatch_route from_submit submit
    submit_token token_of first_word dispatch acquire_lock blocks grant contains user_or_anonymous
    publish_step in_range get_param add_param param_of is_letter number digits digits_from is_digit
    set_param
far_refused = refl

is_rows : has_prefix (codes "ROWS") (codes rows_line) ≡ true
unfolding has_prefix
is_rows = refl

no_object_line : has_prefix (codes "{") (codes rows_line) ≡ false
unfolding has_prefix
no_object_line = refl

no_limits_line : has_prefix (codes "LIMITS") (codes rows_line) ≡ false
unfolding has_prefix
no_limits_line = refl

known_entry : Dict.lookup "rack-1" board.mirror ≡ some known_state
unfolding Dict.lookup
known_entry = refl

on_layout_response-stale_example :
    let mirror = (on_layout_response (λ text. ok 0) 3 60 "rack-1" rows_line none board).mirror in
    let server = with_mirror mirror site.server in
    (get_rack_layout authority "rack-1" alice_header (record site { server = server })
      ≡ layout (record (state_layout known_state) {
        rows = some (to_int 0 (codes "20"));
        columns = some (to_int 0 (codes "9"));
      }))
    × (handle_command senv true 3 "rack-1" (codes "M700 R15 C5") (some "alice") server
        ≡ (server, raised validation_error))
on_layout_response-stale_example =
    on_layout_response-stale authority senv (λ text. ok 0) true 3 60 "rack-1" rows_line none board
      (codes "20") (codes "9") known_state rack_row alice_header alice (codes "M700 R15 C5")
      validation_error site no_object_line no_limits_line is_rows rows_parsed known_entry refl found
      alice_passes far_refused
