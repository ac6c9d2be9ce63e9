-- ===== src/Handler/Whitelist.antt =====
-- What `handle_command` of server/services/command_handler.py lets through to the MQTT client.
use vivarium_connection.Common.{
  ℕ, String, ◌≡◌, refl, sym, ap, ◌∙◌, subst, Bool, true, false, inl, inr, Bool-cases, Option-cases,
  Option, List, Result, ok, raised, ◌>>=◌, arith, ◌&&◌, validation_error,
}
use vivarium_connection.Common.Dict
use vivarium_connection.Common.Text.{Text, codes, is_space, text_eq, one_of}
use vivarium_connection.Models.{Rack}
use vivarium_connection.Locking.{LockResult, acquired, already_locked, rack_not_found, Store}
use vivarium_connection.Command.{
  CommandRoute, mqtt_publish, emergency, camera, scan_engine, ParsedCommand, allowed_commands,
  grid_ok, check, parse_command, validate_command,
}
use vivarium_connection.Queue.{Message, World, Outcome, submit}
use vivarium_connection.Serial.{strip, rstrip, lstrip, keep_char}
use vivarium_connection.Plant.{Plant, send, command_message, set_racks}
use vivarium_connection.ScanEngine.{
  ScanEnv, Engine, set_scan_state, begin_scan, set_active, pi_alive,
}
use vivarium_connection.ScanEngine.Handlers.{
  with_operator_lock, trigger_online, trigger_manual_scan, send_scan_stop,
}
use vivarium_connection.ScanEngine.Handlers.Manual.{publish_scan_start-world}
use vivarium_connection.Handler.{
  Server, CommandResult, set_world, from_submit, from_trigger, attribute_capture, dispatch_scan,
  dispatch_route, dispatch_parsed, handle_command,
}
use vivarium_connection.Handler.Added.{
  IsAllowed, AddsAllowed, capture-IsAllowed, scan_stop-IsAllowed, submit_emergency-AddsAllowed,
  submit-AddsAllowed,
}

-- the messages of a server, without those that start a scan
pub messages : Server → List Message
messages s = s.engine.plant.world.published

from_submit-messages :
    (s : Server) (r : World × Result Outcome) → messages (from_submit s r).0 ≡ r.0.published
unfolding from_submit messages set_world
from_submit-messages s (w, raised e) = refl
from_submit-messages s (w, ok o) = refl

set_scan_state-published :
    (now : ℕ) (id state : String) (p : Plant)
    → (set_scan_state now id state p).world.published ≡ p.world.published
unfolding set_scan_state set_racks
set_scan_state-published now id state p = elim (Option-cases (Dict.lookup id p.world.store.racks)) [
  | inl absent ↦ rw (absent, set_scan_state) refl
  | inr (rack, found) ↦ rw (found, set_scan_state) refl
]

begin_scan-published :
    (senv : ScanEnv) (now : ℕ) (id : String) (rack : Rack) (store : Store) (x : Engine)
    → (begin_scan senv now id rack (λ p. p) store x).plant.world.published ≡ x.plant.world.published
unfolding begin_scan set_active
begin_scan-published senv now id rack store x =
    ap {B = List Message} (λ (w : World). w.published) (publish_scan_start-world senv _ _)
    ∙ set_scan_state-published now id "running" _

with_operator_lock-published :
    (senv : ScanEnv) (now : ℕ) (id : String) (rack : Rack) (x : Engine)
    (r : Result (LockResult × Store))
    → (with_operator_lock senv now id rack x r).0.plant.world.published ≡ x.plant.world.published
unfolding with_operator_lock
with_operator_lock-published senv now id rack x (raised e) = refl
with_operator_lock-published senv now id rack x (ok (already_locked, s)) = refl
with_operator_lock-published senv now id rack x (ok (rack_not_found, s)) = refl
with_operator_lock-published senv now id rack x (ok (acquired, s)) =
    begin_scan-published senv now id rack s x

trigger_online-published :
    (senv : ScanEnv) (db_ok : Bool) (now : ℕ) (id user : String) (x : Engine)
    → (trigger_online senv db_ok now id user x).0.plant.world.published ≡ x.plant.world.published
unfolding trigger_online
trigger_online-published senv false now id user x = refl
trigger_online-published senv true now id user x =
    elim (Option-cases (Dict.lookup id x.plant.world.store.racks)) [
      | inl absent ↦ rw (absent, trigger_online) refl
      | inr (rack, found) ↦
          rw (found, trigger_online) (with_operator_lock-published senv now id rack x _)
    ]

trigger_manual_scan-published :
    (senv : ScanEnv) (db_ok : Bool) (now : ℕ) (id user : String) (x : Engine)
    → (trigger_manual_scan senv db_ok now id user x).0.plant.world.published
      ≡ x.plant.world.published
unfolding trigger_manual_scan
trigger_manual_scan-published senv db_ok now id user x =
    elim (Bool-cases (pi_alive (Dict.lookup id x.plant.world.store.mirror))) [
      | inl e ↦ rw e (trigger_online-published senv db_ok now id user x)
      | inr e ↦ rw e refl
    ]

send_scan_stop-AddsAllowed :
    (senv : ScanEnv) (id : String) (x : Engine)
    → AddsAllowed id x.plant.world.published (send_scan_stop senv id x).plant.world.published
unfolding AddsAllowed send_scan_stop send command_message text_eq strip rstrip lstrip is_space
    keep_char
send_scan_stop-AddsAllowed senv id x =
    elim (Bool-cases (senv.env.delivers (command_message id (codes "SCAN_STOP") 1))) [
      | inl sent ↦ rw sent (inr (_, refl, refl, scan_stop-IsAllowed))
      | inr failed ↦ rw failed (inl refl)
    ]

-- a command with its result, of any server
abbrev Adds : String → Server → Server × Result CommandResult → Type 0
Adds id s r = AddsAllowed id (messages s) (messages r.0)

dispatch_scan-Adds :
    (senv : ScanEnv) (db_ok : Bool) (now : ℕ) (id : String) (cmd : Text) (user : Option String)
    (s : Server)
    → Adds id s (dispatch_scan senv db_ok now id cmd user s)
unfolding dispatch_scan from_trigger messages
dispatch_scan-Adds senv db_ok now id cmd user s =
    elim (Bool-cases (text_eq cmd (codes "SCAN_START"))) [
      | inl start ↦
          rw start
            (unfold AddsAllowed in inl (trigger_manual_scan-published senv db_ok now id _ s.engine))
      | inr other ↦ rw other (elim (Bool-cases (text_eq cmd (codes "SCAN_STOP"))) [
        | inl stop ↦ rw stop (send_scan_stop-AddsAllowed senv id s.engine)
        | inr neither ↦ rw neither (unfold AddsAllowed in inl refl)
      ])
    ]

dispatch_route-Adds :
    (senv : ScanEnv) (db_ok : Bool) (now : ℕ) (id : String) (raw cmd : Text) (user : Option String)
    (s : Server) (r : CommandRoute)
    → IsAllowed raw
    → Adds id s (dispatch_route senv db_ok now id raw cmd user s r)
unfolding dispatch_route set_world messages submit
dispatch_route-Adds senv db_ok now id raw cmd user s emergency allowed =
    submit_emergency-AddsAllowed senv.env id s.engine.plant.world
dispatch_route-Adds senv db_ok now id raw cmd user s camera allowed =
    subst (AddsAllowed id (messages s))
      (sym (from_submit-messages (attribute_capture senv now id user s) _))
      (submit-AddsAllowed senv.env false now id (codes "CAPTURE") user s.engine.plant.world
        capture-IsAllowed)
dispatch_route-Adds senv db_ok now id raw cmd user s scan_engine allowed =
    dispatch_scan-Adds senv db_ok now id cmd user s
dispatch_route-Adds senv db_ok now id raw cmd user s mqtt_publish allowed =
    subst (AddsAllowed id (messages s)) (sym (from_submit-messages s _))
      (submit-AddsAllowed senv.env false now id raw user s.engine.plant.world allowed)

-- what passes the validation has its first word in the whitelist
valid-IsAllowed :
    (raw : Text) (rows cols : ℕ) (p : ParsedCommand) (r : Result ParsedCommand)
    → parse_command raw ≡ r
    → (r >>= λ q. check (one_of q.cmd allowed_commands && grid_ok rows cols q) q) ≡ ok p
    → IsAllowed raw
unfolding IsAllowed check
valid-IsAllowed raw rows cols p (raised e) parsed h = ground arith
valid-IsAllowed raw rows cols p (ok q) parsed h =
    elim (Bool-cases (one_of q.cmd allowed_commands)) [
      | inl allowed ↦ (q, parsed, allowed)
      | inr refused ↦
          let impossible : ◌≡◌ {A = Result ParsedCommand} (raised validation_error) (ok p) =
            (rw refused at h) in
          ground arith
    ]

dispatch_parsed-Adds :
    (senv : ScanEnv) (db_ok : Bool) (now : ℕ) (id : String) (raw : Text) (user : Option String)
    (s : Server) (rows cols : ℕ) (r : Result ParsedCommand)
    → validate_command raw rows cols ≡ r
    → Adds id s (dispatch_parsed senv db_ok now id raw user s r)
unfolding dispatch_parsed validate_command
dispatch_parsed-Adds senv db_ok now id raw user s rows cols (raised e) h =
    unfold AddsAllowed in inl refl
dispatch_parsed-Adds senv db_ok now id raw user s rows cols (ok p) h =
    dispatch_route-Adds senv db_ok now id raw p.cmd user s p.route
      (valid-IsAllowed raw rows cols p _ refl h)

-- Whatever a user sends: besides the JSON object that starts a scan, `handle_command` publishes at most
-- one message, to the rack it was sent for, and the first word of that message is in the whitelist.
pub handle_command-AddsAllowed :
    (senv : ScanEnv) (db_ok : Bool) (now : ℕ) (id : String) (raw : Text) (user : Option String)
    (s : Server)
    → AddsAllowed id (messages s) (messages (handle_command senv db_ok now id raw user s).0)
unfolding handle_command
handle_command-AddsAllowed senv db_ok now id raw user s =
    elim (Option-cases (Dict.lookup id s.engine.plant.world.store.racks)) [
      | inl absent ↦ rw (absent, handle_command) (unfold AddsAllowed in inl refl)
      | inr (rack, found) ↦
          rw (found, handle_command)
            (dispatch_parsed-Adds senv db_ok now id raw user s rack.grid_rows rack.grid_cols _ refl)
    ]
