-- ===== src/Models.antt =====
-- server/db/models.py: the rows of `racks`, `scan_schedule`, `scan_sessions` and `audit_log`, with the
-- columns that the modelled code reads or writes. A float column is carried as its 64-bit pattern. A
-- datetime column is a `Stamp`, since what the driver hands back may be naive.
use vivarium_connection.Common.{ℕ, String, Bool, Option}
use vivarium_connection.Common.Dict.{Dict}
use vivarium_connection.Common.Clock.{Stamp}

abbrev pub Float : Type 0
Float = ℕ

pub record Rack : Type 0 where
  pub id : String
  pub grid_rows : ℕ
  pub grid_cols : ℕ
  pub x0_offset_mm : Float
  pub pitch_x_mm : Float
  pub y0_offset_mm : Float
  pub pitch_y_mm : Float
  pub position_tolerance_x_mm : Float
  pub position_tolerance_y_mm : Float
  pub mqtt_status : String
  pub camera_status : String
  pub last_position_x : Option Float
  pub last_position_y : Option Float
  pub last_position_c : Option Float
  pub homed_x : Bool
  pub homed_y : Bool
  pub homed_c : Bool
  pub last_homed_at : Option Stamp
  pub lock_holder_user_id : Option String
  pub lock_type : Option String
  pub lock_acquired_at : Option Stamp
  pub lock_expires_at : Option Stamp
  pub scan_state : String
  pub maintenance_required : Bool
  pub limit_x_mm : Option Float
  pub limit_y_mm : Option Float
  pub limit_c_mm : Option Float
  pub updated_at : Stamp

-- The table, under its primary key `id`.
abbrev pub Racks : Type 0
Racks = Dict Rack

-- A row of `scan_schedule`; `interval` is timedelta(hours=interval_hours) in microseconds.
pub record ScanSchedule : Type 0 where
  pub interval : ℕ
  pub next_scan_at : Stamp
  pub last_scan_started_at : Option Stamp
  pub enabled : Bool

-- A row of `scan_sessions`, under its autoincremented id.
pub record ScanSession : Type 0 where
  pub rack_id : String
  pub status : String
  pub started_at : Option Stamp
  pub completed_at : Option Stamp
  pub cells_total : ℕ
  pub cells_completed : ℕ
  pub cells_failed : ℕ
  pub last_completed_row : Option ℕ
  pub last_completed_col : Option ℕ
  pub abort_reason : Option String

-- A row of `audit_log`, without its details and time.
pub record AuditLog : Type 0 where
  pub event_type : String
  pub rack_id : String
  pub outcome : String
