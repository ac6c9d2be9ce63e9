-- ===== src/Examples/Handlers.antt =====
-- The theorems on `handle_command` of server/services/command_handler.py.
use vivarium_connection.Common.{◌≡◌, refl, true, some, [], ◌∷◌, ok}
use vivarium_connection.Common.Dict
use vivarium_connection.Common.Clock.{Stamp, utc}
use vivarium_connection.Cache.{consume_capture_attribution}
use vivarium_connection.Cache.Consume.{reload}
use vivarium_connection.Common.Text.{codes, words, upper, one_of}
use vivarium_connection.Locking.{blocks, ensure_utc}
use vivarium_connection.Command.{
  camera, ParsedCommand, parse_tokens, parse_command, params_from, route_for, check, grid_ok,
  validate_command,
}
use vivarium_connection.Queue.{queued, enqueue}
use vivarium_connection.Queue.Blocked.{IsBlocked}
use vivarium_connection.Handler.{Server, from_queue, user_or_empty, handle_command}
use vivarium_connection.Handler.Added.{AddsAllowed}
use vivarium_connection.Handler.Whitelist.{messages, handle_command-AddsAllowed}
use vivarium_connection.Handler.Attribution.{handle_command-attributes}
use vivarium_connection.Examples.{held_row, jog}
use vivarium_connection.Examples.Engines.{senv, idle_engine, held_engine}

abbrev pub idle_server : Server
idle_server = record { engine = idle_engine; attributions = [] }

abbrev held_server : Server
held_server = record {
  engine = held_engine;
  attributions = ("rack-1", record { operator_id = "alice"; expires_at = utc 30000000 }) ∷ [];
}

handle_command-AddsAllowed_example :
    AddsAllowed "rack-1"
      (messages idle_server)
      (messages (handle_command senv true 3 "rack-1" jog (some "alice") idle_server).0)
handle_command-AddsAllowed_example =
    handle_command-AddsAllowed senv true 3 "rack-1" jog (some "alice") idle_server

abbrev capture : ParsedCommand
capture = record { cmd = codes "CAPTURE"; params = []; route = camera }

capture_valid : validate_command (codes "capture") 12 7 ≡ ok capture
unfolding validate_command parse_command parse_tokens words upper params_from route_for check one_of
    grid_ok
capture_valid = refl

held_blocks : IsBlocked 3 "rack-1" held_server.engine.plant.world.store
unfolding Dict.lookup blocks ensure_utc
held_blocks = record { row = held_row; found = refl; locked = refl }

-- a driver that keeps the zone
abbrev keeping : Stamp → Stamp
keeping x = x

-- bob's waiting capture, while alice's runs
handle_command-attributes_example :
    let (s', r) = handle_command senv true 3 "rack-1" (codes "capture") (some "bob") held_server in
    let table = reload keeping s'.attributions in
    (r ≡ ok (from_queue queued))
    × (s'.engine.plant.world
        ≡ enqueue 3 "rack-1" (codes "CAPTURE") (some "bob") held_server.engine.plant.world)
    × (consume_capture_attribution 5 "rack-1" table ≡ (Dict.remove "rack-1" table, ok (some "bob")))
unfolding Dict.lookup user_or_empty
handle_command-attributes_example =
    handle_command-attributes senv true 3 "rack-1" (codes "capture") (some "bob") held_server
      held_row capture keeping 5 refl capture_valid refl held_blocks (λ x. refl)
