-- ===== src/Examples/Queues.antt =====
-- The theorems on server/core/queue_manager.py and server/services/command_handler.py at concrete commands.
use vivarium_connection.Common.{
  ◌≡◌, refl, true, false, none, some, List, [], ◌∷◌, ◌++◌, map, arith, ◌↔◌, Result, ok,
}
use vivarium_connection.Common.Dict
use vivarium_connection.Common.Text.{codes, words, upper, one_of}
use vivarium_connection.Locking.{
  motion, contains, blocks, ensure_utc, cleared_row, sweep_transaction, due_ids, row_due, sweep_due,
  acquire_lock, grant, locked_row, expiry_seconds,
}
use vivarium_connection.Queue.{
  World, Outcome, published, token_of, first_word, queue_of, submit, submit_token, dispatch,
  session_release, sweep_expired_locks, lock_type_for, publish_step, user_or_anonymous,
}
use vivarium_connection.Queue.Blocked.{waiting, IsBlocked, IsOrdinary}
use vivarium_connection.Queue.Release.{release_rotates}
use vivarium_connection.Queue.Dispatch.{sweep_dispatches, message_of}
use vivarium_connection.Queue.Order.{Request, submit_all, reload_world, wait, one_command_at_a_time}
use vivarium_connection.Command.{
  ParsedCommand, validate_command, parse_command, pos, mqtt_publish, allowed_commands,
}
use vivarium_connection.Command.Validate.{HasCell, validate_command_lem}
use vivarium_connection.Examples.{
  held_row, settings, env, naive, jog, queued_jog, free_world, held_world,
}

pub jog_token : token_of jog ≡ ok (codes "M700")
unfolding token_of first_word words upper
jog_token = refl

abbrev pub jog_ordinary : IsOrdinary jog
jog_ordinary = record { token = codes "M700"; first = jog_token; ordinary = refl }

unfoldable alice_blocks : IsBlocked 14000000 "rack-1" held_world.store
unfolding Dict.lookup blocks ensure_utc
alice_blocks = record { row = held_row; found = refl; locked = refl }

jog_waits : queue_of "rack-1" held_world ≡ queued_jog ∷ []
unfolding queue_of Dict.get_or Dict.lookup
jog_waits = refl

abbrev parsed_jog : ParsedCommand
parsed_jog = record {
  cmd = codes "M700";
  params = (b'R', pos 3) ∷ (b'C', pos 5) ∷ [];
  route = mqtt_publish;
}

validate_command_lem_example : (validate_command jog 12 7 ≡ ok parsed_jog) ↔ (
    (parse_command jog ≡ ok parsed_jog)
    × (one_of parsed_jog.cmd allowed_commands ≡ true)
    × HasCell 12 7 parsed_jog)
validate_command_lem_example = validate_command_lem jog 12 7 parsed_jog

release_rotates_example :
    let w = (session_release env 14000000 "rack-1" held_world).1 in
    ((session_release env 14000000 "rack-1" held_world).0 ≡ true)
    × (Dict.lookup "rack-1" w.store.racks ≡ some (cleared_row 14000000 held_row))
    × (queue_of "rack-1" w ≡ waiting 14000000 "rack-1" jog (some "bob") ∷ [])
    × (w.published ≡ [])
unfolding alice_blocks
release_rotates_example =
    release_rotates env 14000000 "rack-1" held_world alice_blocks jog_ordinary jog_waits

sweep_dispatches_example :
    let (released, w) = sweep_expired_locks env 16000000 held_world in
    (released ≡ "rack-1" ∷ [])
    × (w.published ≡ message_of "rack-1" jog (codes "M700") ∷ [])
    × (queue_of "rack-1" w ≡ [])
    × (Dict.lookup "rack-1" w.store.racks
        ≡ some (locked_row settings 16000000 "bob" motion (cleared_row 16000000 held_row)))
unfolding Dict.lookup row_due sweep_due sweep_transaction due_ids contains user_or_anonymous
    lock_type_for
sweep_dispatches_example =
    sweep_dispatches env 16000000 "rack-1" held_world jog_ordinary refl refl refl jog_waits refl
      refl

-- alice's command on the free rack, and two requests behind it
abbrev alice_moves : World × Result Outcome
alice_moves = submit env false 0 "rack-1" jog (some "alice") free_world

alice_moves_lem : alice_moves ≡ (alice_moves.0, ok published)
unfolding submit submit_token dispatch token_of first_word words upper acquire_lock Dict.lookup
    blocks ensure_utc grant contains user_or_anonymous publish_step
alice_moves_lem = refl

abbrev two_requests : List Request
two_requests =
    record { at = 14000000; command = jog; user = some "bob" }
    ∷ record { at = 14500000; command = jog; user = none }
    ∷ []

one_command_at_a_time_example :
    let later = submit_all env "rack-1" two_requests (reload_world naive alice_moves.0) in
    (later.published ≡ alice_moves.0.published)
    × (queue_of "rack-1" later
        ≡ queue_of "rack-1" alice_moves.0 ++ map (wait "rack-1") two_requests)
unfolding expiry_seconds lock_type_for
one_command_at_a_time_example =
    one_command_at_a_time env naive 0 "rack-1" jog (some "alice") free_world alice_moves.0
      two_requests jog_ordinary (λ x. refl) alice_moves_lem
      ((omega arith, jog_ordinary), ((omega arith, jog_ordinary), tt))
