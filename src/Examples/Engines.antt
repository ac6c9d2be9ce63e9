-- ===== src/Examples/Engines.antt =====
-- The theorems on server/services/scan_engine.py on three racks that are due.
use vivarium_connection.Plant.{set_racks}
use vivarium_connection.Common.{
  ◌≡◌, List, ◌∷◌, refl, ◌++◌, true, false, none, some, [], ◌∷◌, arith, ok,
}
use vivarium_connection.Common.Dict
use vivarium_connection.Common.Clock.{utc}
use vivarium_connection.Models.{ScanSchedule}
use vivarium_connection.State.{RackState, from_row}
use vivarium_connection.Locking.{
  contains, acquire_lock, blocks, grant, expiry_seconds, granted_store, write,
}
use vivarium_connection.Queue.{queued, submit, enqueue}
use vivarium_connection.Queue.Order.{reload_world}
use vivarium_connection.ScanEngine.{
  ScanEnv, Engine, pi_alive, Progress, StatusReport, begin_scan, publish_scan_start, set_active,
  set_scan_state, next_id, fresh_session,
}
use vivarium_connection.ScanEngine.Due.{due_rack_ids, take, drop, fire_batch, check_due_scans}
use vivarium_connection.ScanEngine.Due.Batches.{names}
use vivarium_connection.ScanEngine.Due.Stagger.{check_due_scans-names}
use vivarium_connection.ScanEngine.Due.Unknown.{IsIdle, check_due_scans-IsIdle}
use vivarium_connection.ScanEngine.Handlers.{
  scan_published, on_scan_status, with_operator_lock, trigger_online, trigger_manual_scan,
}
use vivarium_connection.ScanEngine.Handlers.Manual.{trigger_manual_scan-excludes}
use vivarium_connection.ScanEngine.Handlers.Ended.{ends, IsOver, on_scan_status-IsOver}
use vivarium_connection.ScanEngine.Handlers.Tracked.{IsTracked, is_tracked, has_session}
use vivarium_connection.ScanEngine.History.{
  Call, check, call, choose, trigger, progress, status, calls, IsNamed, AllNamed, calls-IsTracked,
}
use vivarium_connection.Examples.{env, free_world, held_row, jog, naive, rack_row, people}
use vivarium_connection.Examples.Queues.{jog_ordinary}

abbrev pub senv : ScanEnv
senv = record {
  env = env;
  settings = record {
    stagger_group_size = 2;
    stagger_delay_minutes = 5;
    postpone_minutes = 15;
    resume_window_s = 60;
  };
  sends = λ m. true;
}

abbrev due_now : ScanSchedule
due_now = record {
  interval = 24;
  next_scan_at = utc 0;
  last_scan_started_at = none;
  enabled = true;
}

abbrev online : RackState
online = from_row rack_row

abbrev pub idle_engine : Engine
idle_engine = record {
  plant = record {
    world = record free_world {
      store = record {
        users = people;
        racks = ("rack-1", rack_row) ∷ ("rack-2", rack_row) ∷ ("rack-3", rack_row) ∷ [];
        mirror = ("rack-1", online) ∷ ("rack-2", online) ∷ ("rack-3", online) ∷ [];
      };
    };
    schedules = ("rack-1", due_now) ∷ ("rack-2", due_now) ∷ ("rack-3", due_now) ∷ [];
    sessions = [];
    audits = [];
    alerts = [];
    scan_starts = [];
  };
  monitor = record { recovery = []; targets = []; stale_due = [] };
  active_sessions = [];
  resume_timers = [];
  staggered = [];
  broadcasts = [];
}

check_due_scans-names_example :
    let ids = due_rack_ids 7 idle_engine.plant.world.store.racks idle_engine.plant.schedules in
    let x' = check_due_scans senv true 7 idle_engine in
    (x'.plant ≡ (fire_batch senv true 7 (take 2 ids) idle_engine).plant)
    × (names x'.staggered ≡ names idle_engine.staggered ++ drop 2 ids)
    × (take 2 ids ++ drop 2 ids ≡ ids)
check_due_scans-names_example = check_due_scans-names senv 7 idle_engine (omega arith) (omega arith)

check_due_scans-IsIdle_example : IsIdle idle_engine (check_due_scans senv true 7 idle_engine)
unfolding contains
check_due_scans-IsIdle_example = check_due_scans-IsIdle senv true 7 idle_engine refl

abbrev pub scanning : Engine
scanning = (trigger_manual_scan senv true 0 "rack-1" "alice" idle_engine).0

pub scanning_lem :
    trigger_manual_scan senv true 0 "rack-1" "alice" idle_engine ≡ (scanning, scan_published)
unfolding trigger_manual_scan pi_alive Dict.lookup trigger_online acquire_lock blocks grant contains
    with_operator_lock from_row
scanning_lem = refl

trigger_manual_scan-excludes_example :
    let w = reload_world naive scanning.plant.world in
    submit env false 59000000 "rack-1" jog (some "bob") w
    ≡ (enqueue 59000000 "rack-1" jog (some "bob") w, ok queued)
unfolding expiry_seconds
trigger_manual_scan-excludes_example =
    trigger_manual_scan-excludes senv naive true 0 59000000 "rack-1" "alice" jog (some "bob")
      idle_engine scanning (λ d. refl) scanning_lem (omega arith) jog_ordinary

abbrev report : StatusReport
report = record {
  status = "complete";
  scan_session_id = some 1;
  abort_reason = none;
  last_completed_row = some 11;
  last_completed_col = some 0;
}

abbrev progress_message : Progress
progress_message = record {
  scan_session_id = some 1;
  cell_row = some 11;
  cell_col = some 0;
  cells_completed = 84;
  cells_failed = 0;
}

-- alice holds the lock of rack-1
abbrev pub held_engine : Engine
held_engine = record idle_engine {
  plant = record idle_engine.plant {
    world = record free_world {
      store = record { users = people; racks = ("rack-1", held_row) ∷ []; mirror = [] };
    };
  };
}

on_scan_status-IsOver_example :
    IsOver "rack-1" "complete"
      (on_scan_status senv true 9 (some "rack-1") (some report) held_engine)
unfolding Dict.lookup ends
on_scan_status-IsOver_example =
    on_scan_status-IsOver senv 9 "rack-1" held_row report held_engine refl refl

abbrev day : List Call
day =
    trigger true 8 "rack-1" "alice"
    ∷ choose true 9 "rack-1" 1 "resume" 12 7 (some 3) (some 2)
    ∷ check true 9
    ∷ progress true 9 (some "rack-1") (some progress_message)
    ∷ status true 10 (some "rack-1") (some report)
    ∷ []

day-AllNamed : AllNamed senv day idle_engine
unfolding AllNamed IsNamed call has_session trigger_manual_scan pi_alive Dict.lookup trigger_online
    acquire_lock blocks grant contains with_operator_lock from_row begin_scan publish_scan_start
    set_active set_scan_state granted_store write Dict.insert set_racks next_id fresh_session
day-AllNamed = (tt, (refl, (tt, (tt, (tt, tt)))))

calls-IsTracked_example :
    let x' = calls senv day idle_engine in IsTracked x'.active_sessions x'.plant.sessions
unfolding IsTracked is_tracked Dict.lookup
calls-IsTracked_example = calls-IsTracked senv day idle_engine day-AllNamed (λ rack_id. refl)
