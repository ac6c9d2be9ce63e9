-- ===== src/Handler.antt =====
-- server/services/command_handler.py: `handle_command`, which brings together the validation, the queue
-- manager, the cache and the scan engine.
pub mod Added
pub mod Whitelist
pub mod Attribution
use vivarium_connection.Common.{
  ℕ, String, Bool, false, Option, none, some, if◌then◌else◌, Result, ok, raised, ◌>>=◌, List,
}
use vivarium_connection.Common.Dict
use vivarium_connection.Common.Text.{Text, codes, text_eq}
use vivarium_connection.Models.{Rack}
use vivarium_connection.Cache.{Attributions, set_capture_attribution}
use vivarium_connection.Command.{
  CommandRoute, mqtt_publish, emergency, camera, scan_engine, ParsedCommand, validate_command,
}
use vivarium_connection.Queue.{World, Outcome, submit, submit_emergency}
use vivarium_connection.ScanEngine.{ScanEnv, Engine}
use vivarium_connection.ScanEngine.Handlers.{Answer, trigger_manual_scan, send_scan_stop}

-- The engine with the queue manager's world, and the cache's table of attributions.
pub record Server : Type 0 where
  pub engine : Engine
  pub attributions : Attributions

-- what `outcome` says: the answer of the part that the command was routed to
pub data CommandResult : Type 0 where
  rack_missing stop_sent routed : CommandResult
  from_queue : Outcome → CommandResult
  from_scan : Answer → CommandResult

unfoldable pub set_world : World → Server → Server
set_world w s = record s {
  engine = record s.engine { plant = record s.engine.plant { world = w } };
}

-- user_id or ""
unfoldable pub user_or_empty : Option String → String
user_or_empty none = ""
user_or_empty (some u) = u

unfoldable pub from_submit : Server → World × Result Outcome → Server × Result CommandResult
from_submit s (w, raised e) = (set_world w s, raised e)
from_submit s (w, ok o) = (set_world w s, ok (from_queue o))

unfoldable pub from_trigger : Server → Engine × Answer → Server × Result CommandResult
from_trigger s (x, a) = (record s { engine = x }, ok (from_scan a))

unfoldable pub attribute_capture : ScanEnv → ℕ → String → Option String → Server → Server
attribute_capture senv now rack_id user_id s = record s {
  attributions =
      set_capture_attribution now rack_id (user_or_empty user_id)
        senv.env.cfg.capture_lock_timeout_s s.attributions;
}

unfoldable pub dispatch_scan :
    ScanEnv → Bool → ℕ → String → Text → Option String → Server → Server × Result CommandResult
dispatch_scan senv db_ok now rack_id cmd user_id s =
    if text_eq cmd (codes "SCAN_START")
    then from_trigger s
        (trigger_manual_scan senv db_ok now rack_id (user_or_empty user_id) s.engine)
    else if text_eq cmd (codes "SCAN_STOP")
    then (record s { engine = send_scan_stop senv rack_id s.engine }, ok stop_sent)
    else (s, ok routed)

unfoldable pub dispatch_route :
    ScanEnv
    → Bool
    → ℕ
    → String
    → Text
    → Text
    → Option String
    → Server
    → CommandRoute
    → Server × Result CommandResult
dispatch_route senv db_ok now rack_id raw cmd user_id s emergency =
    let (w, o) = submit_emergency senv.env rack_id s.engine.plant.world in
    (set_world w s, ok (from_queue o))
dispatch_route senv db_ok now rack_id raw cmd user_id s camera =
    from_submit (attribute_capture senv now rack_id user_id s)
      (submit senv.env false now rack_id (codes "CAPTURE") user_id s.engine.plant.world)
dispatch_route senv db_ok now rack_id raw cmd user_id s scan_engine =
    dispatch_scan senv db_ok now rack_id cmd user_id s
dispatch_route senv db_ok now rack_id raw cmd user_id s mqtt_publish =
    from_submit s (submit senv.env false now rack_id raw user_id s.engine.plant.world)

-- CommandValidationError is passed to the caller.
unfoldable pub dispatch_parsed :
    ScanEnv
    → Bool
    → ℕ
    → String
    → Text
    → Option String
    → Server
    → Result ParsedCommand
    → Server × Result CommandResult
dispatch_parsed senv db_ok now rack_id raw user_id s (raised e) = (s, raised e)
dispatch_parsed senv db_ok now rack_id raw user_id s (ok p) =
    dispatch_route senv db_ok now rack_id raw p.cmd user_id s p.route

-- `db_ok` says whether the caller's session still works when a scan is triggered.
unfoldable pub handle_command :
    ScanEnv → Bool → ℕ → String → Text → Option String → Server → Server × Result CommandResult
handle_command senv db_ok now rack_id raw user_id s =
    elim (Dict.lookup rack_id s.engine.plant.world.store.racks) [
      | none ↦ (s, ok rack_missing)
      | some rack ↦
          dispatch_parsed senv db_ok now rack_id raw user_id s
            (validate_command raw rack.grid_rows rack.grid_cols)
    ]
