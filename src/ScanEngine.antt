-- ===== src/ScanEngine.antt =====
-- server/services/scan_engine.py: the state of the scan engine and the steps that its operations
-- share. `now` is the clock reading of a call, and `db_ok` whether its database sessions work: their
-- exceptions are caught.
pub mod Due
pub mod Handlers
pub mod History
use vivarium_connection.Common.{
  ℕ, ◌+◌, ◌*◌, zero, suc, max, String, str_eq, Bool, true, false, Option, none, some, List, [], ◌∷◌,
  ◌++◌, is_some, ltb, ◌==◌, if◌then◌else◌, Result, ok, raised,
}
use vivarium_connection.Common.Dict
use vivarium_connection.Common.Dict.{Dict}
use vivarium_connection.Common.Clock.{Stamp, utc, gt, plus_seconds, seconds}
use vivarium_connection.Models.{Rack, Racks, ScanSchedule, ScanSession}
use vivarium_connection.State.{RackState}
use vivarium_connection.Locking.{Store}
use vivarium_connection.Queue.{Env}
use vivarium_connection.Plant.{Plant, ScanStart, set_racks}
use vivarium_connection.Recovery.{Monitor}

pub record ScanSettings : Type 0 where
  pub stagger_group_size : ℕ
  pub stagger_delay_minutes : ℕ
  pub postpone_minutes : ℕ
  pub resume_window_s : ℕ

-- The settings, and whether the publish call of a SCAN_START returns.
pub record ScanEnv : Type 0 where
  pub env : Env
  pub settings : ScanSettings
  pub sends : ScanStart → Bool

-- the JSON object of a scan_progress message
pub record Progress : Type 0 where
  pub scan_session_id : Option ℕ
  pub cell_row : Option ℕ
  pub cell_col : Option ℕ
  pub cells_completed : ℕ
  pub cells_failed : ℕ

-- the JSON object of a scan_status message
pub record StatusReport : Type 0 where
  pub status : String
  pub scan_session_id : Option ℕ
  pub abort_reason : Option String
  pub last_completed_row : Option ℕ
  pub last_completed_col : Option ℕ

-- `scan_resume_prompt`, without the text for the reader
pub record Prompt : Type 0 where
  pub scan_session_id : Option ℕ
  pub last_completed_row : Option ℕ
  pub last_completed_col : Option ℕ
  pub grid_rows : ℕ
  pub grid_cols : ℕ
  pub expires_at : Stamp

-- what the registry of the websockets is given for a rack
pub data Broadcast : Type 0 where
  scan_cell_complete : String → Progress → Broadcast
  scan_status : String → StatusReport → Broadcast
  scan_resume_prompt : String → Prompt → Broadcast

-- The plant, the position monitor, and the fields of the engine. A timer is the time at which it
-- fires; `staggered` holds those of the scans that are started later.
pub record Engine : Type 0 where
  pub plant : Plant
  pub monitor : Monitor
  pub active_sessions : Dict ℕ
  pub resume_timers : Dict ℕ
  pub staggered : List (ℕ × String)
  pub broadcasts : List Broadcast

unfoldable pub broadcast : Broadcast → Engine → Engine
broadcast b x = record x { broadcasts = x.broadcasts ++ (b ∷ []) }

-- `_SCAN_SYSTEM_USER_ID`
abbrev pub scan_system_user_id : String
scan_system_user_id = "_scan_engine"

-- `state is not None and state.mqtt_status == "online"`
unfoldable pub pi_alive : Option RackState → Bool
pi_alive none = false
pi_alive (some state) = str_eq state.mqtt_status "online"

-- A row whose state is that already is left as it is, its `updated_at` included.
unfoldable pub scanned_row : ℕ → String → Rack → Rack
scanned_row now state rack =
    if str_eq rack.scan_state state
    then rack
    else record rack { scan_state = state; updated_at = utc now }

unfoldable pub set_scan_state : ℕ → String → String → Plant → Plant
set_scan_state now rack_id state p = elim (Dict.lookup rack_id p.world.store.racks) [
  | none ↦ p
  | some rack ↦ set_racks (Dict.insert rack_id (scanned_row now state rack) p.world.store.racks) p
]

-- SQLite's next row id: one more than the largest.
unfoldable pub next_id : List (ℕ × ScanSession) → ℕ
next_id [] = 1
next_id ((id, session) ∷ rest) = max (suc id) (next_id rest)

unfoldable pub fresh_session : ℕ → String → Rack → ScanSession
fresh_session now rack_id rack = record {
  rack_id = rack_id;
  status = "running";
  started_at = some (utc now);
  completed_at = none;
  cells_total = rack.grid_rows * rack.grid_cols;
  cells_completed = 0;
  cells_failed = 0;
  last_completed_row = none;
  last_completed_col = none;
  abort_reason = none;
}

unfoldable pub change_session :
    ℕ → (ScanSession → ScanSession) → List (ℕ × ScanSession) → List (ℕ × ScanSession)
change_session id change [] = []
change_session id change ((j, session) ∷ rest) =
    (j, if j == id then change session else session) ∷ change_session id change rest

-- A session whose id is given and not 0 is changed, if it is there.
unfoldable pub update_session : Option ℕ → (ScanSession → ScanSession) → Plant → Plant
update_session none change p = p
update_session (some zero) change p = p
update_session (some (suc n)) change p = record p {
  sessions = change_session (suc n) change p.sessions;
}

unfoldable pub set_active : String → ℕ → Engine → Engine
set_active rack_id id x = record x { active_sessions = Dict.insert rack_id id x.active_sessions }

-- the fields of the rows are written as `json.dumps` does; without a row to resume at, the column is
-- left out
unfoldable pub scan_start_message : String → Option ℕ → ℕ → ℕ → Option ℕ → Option ℕ → ScanStart
scan_start_message rack_id session_id grid_rows grid_cols resume_row resume_col = record {
  rack_id = rack_id;
  scan_session_id = session_id;
  grid_rows = grid_rows;
  grid_cols = grid_cols;
  resume_row = resume_row;
  resume_col = if is_some resume_row then resume_col else none;
}

unfoldable pub publish_scan_start : ScanEnv → ScanStart → Engine → Engine
publish_scan_start senv message x =
    if senv.sends message
    then record x { plant = record x.plant { scan_starts = x.plant.scan_starts ++ (message ∷ []) } }
    else x

-- A scan that got its lock: its session, the row's state, the entry of the engine, and the message.
unfoldable pub begin_scan : ScanEnv → ℕ → String → Rack → (Plant → Plant) → Store → Engine → Engine
begin_scan senv now rack_id rack schedule store x =
    let p = record x.plant { world = record x.plant.world { store = store } } in
    let id = next_id p.sessions in
    let p' = record p { sessions = p.sessions ++ ((id, fresh_session now rack_id rack) ∷ []) } in
    publish_scan_start senv
      (scan_start_message rack_id (some id) rack.grid_rows rack.grid_cols none none)
      (set_active rack_id id
        (record x { plant = set_scan_state now rack_id "running" (schedule p') }))
