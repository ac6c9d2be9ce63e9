-- ===== src/Handler/Attribution.antt =====
-- Whom server/services/command_handler.py makes the operator of a capture.
use vivarium_connection.Common.{
  ℕ, String, ◌≡◌, refl, ap, ◌+◌, sym, subst, Bool, false, Option, none, some, Result, ok, raised,
  type_error, ltb, if◌then◌else◌,
}
use vivarium_connection.Common.Dict
use vivarium_connection.Common.Clock.{Stamp, utc, plus_seconds, seconds}
use vivarium_connection.Common.Text.{Text, codes, words, upper, text_eq}
use vivarium_connection.Models.{Rack}
use vivarium_connection.Cache.{Attributions, consume_capture_attribution}
use vivarium_connection.Cache.Consume.{reload, consume-set_capture_attribution}
use vivarium_connection.Command.{camera, ParsedCommand, validate_command}
use vivarium_connection.Queue.{World, queued, enqueue, token_of, first_word}
use vivarium_connection.Queue.Blocked.{IsBlocked, IsOrdinary, submit-blocked}
use vivarium_connection.ScanEngine.{ScanEnv}
use vivarium_connection.Handler.{
  Server, CommandResult, from_queue, user_or_empty, set_world, from_submit, attribute_capture,
  dispatch_route, dispatch_parsed, handle_command,
}

capture-IsOrdinary : IsOrdinary (codes "CAPTURE")
unfolding token_of first_word words upper text_eq
capture-IsOrdinary = record { token = codes "CAPTURE"; first = refl; ordinary = refl }

capture-queued :
    (senv : ScanEnv) (db_ok : Bool) (now : ℕ) (id : String) (raw : Text) (user : Option String)
    (s : Server) (rack : Rack) (p : ParsedCommand)
    → Dict.lookup id s.engine.plant.world.store.racks ≡ some rack
    → validate_command raw rack.grid_rows rack.grid_cols ≡ ok p
    → p.route ≡ camera
    → IsBlocked now id s.engine.plant.world.store
    → handle_command senv db_ok now id raw user s ≡ (
      set_world
          (enqueue now id (codes "CAPTURE") user s.engine.plant.world)
          (attribute_capture senv now id user s),
      ok (from_queue queued),
    )
unfolding handle_command dispatch_parsed dispatch_route from_submit
capture-queued senv db_ok now id raw user s rack p found valid route blocked =
    rw (found, handle_command)
      (rw (valid, dispatch_parsed)
        (rw (route, dispatch_route)
          (ap (from_submit (attribute_capture senv now id user s)) (
            submit-blocked senv.env false now id (codes "CAPTURE") user s.engine.plant.world blocked
              capture-IsOrdinary))))

-- A valid CAPTURE for a rack whose lock is held is queued, and yet replaces the rack's attribution,
-- whatever it was: the next consumption, by an image of the rack that arrives before any later command,
-- is given the sender of the waiting capture, if that attribution has not expired and its expiry is
-- read back with its zone, and raises TypeError if it is read back without one.
pub handle_command-attributes :
    (senv : ScanEnv) (db_ok : Bool) (now : ℕ) (id : String) (raw : Text) (user : Option String)
    (s : Server) (rack : Rack) (p : ParsedCommand) (driver : Stamp → Stamp) (t : ℕ)
    → Dict.lookup id s.engine.plant.world.store.racks ≡ some rack
    → validate_command raw rack.grid_rows rack.grid_cols ≡ ok p
    → p.route ≡ camera
    → IsBlocked now id s.engine.plant.world.store
    → ((x : Stamp) → (driver x).at ≡ x.at)
    → let (s', r) = handle_command senv db_ok now id raw user s in
      let ttl_s = senv.env.cfg.capture_lock_timeout_s in
      let table = reload driver s'.attributions in
      (r ≡ ok (from_queue queued))
      × (s'.engine.plant.world ≡ enqueue now id (codes "CAPTURE") user s.engine.plant.world)
      × (consume_capture_attribution t id table ≡ (
          if (driver (plus_seconds (utc now) ttl_s)).aware
          then (
            Dict.remove id table,
            ok (if ltb t (now + seconds ttl_s) then some (user_or_empty user) else none),
          )
          else (table, raised type_error)))
unfolding set_world attribute_capture
handle_command-attributes senv db_ok now id raw user s rack p driver t found valid route blocked
      keeps =
    let queued_only =
      capture-queued senv db_ok now id raw user s rack p found valid route blocked in
    let ttl_s = senv.env.cfg.capture_lock_timeout_s in
    let outcome_of : Attributions → Attributions × Result (Option String) → Type 0 = λ table x.
      x ≡ (
        if (driver (plus_seconds (utc now) ttl_s)).aware
        then (
          Dict.remove id table,
          ok (if ltb t (now + seconds ttl_s) then some (user_or_empty user) else none),
        )
        else (table, raised type_error)) in
    (
      ap (λ (x : Server × Result CommandResult). x.1) queued_only,
      ap {B = World} (λ (x : Server × Result CommandResult). x.0.engine.plant.world) queued_only,
      subst
          (λ (table : Attributions).
            outcome_of (reload driver table)
              (consume_capture_attribution t id (reload driver table)))
          (sym (
            ap {B = Attributions} (λ (x : Server × Result CommandResult). x.0.attributions)
              queued_only))
          (consume-set_capture_attribution driver now t id (user_or_empty user) ttl_s s.attributions
            keeps),
    )
