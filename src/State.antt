-- ===== src/State.antt =====
-- server/core/state.py: the in-memory mirror of the rack rows. A float is carried as its 64-bit
-- pattern, since the mirror never computes with one. The keyword arguments of `upsert` are a list
-- of field assignments; the lock that guards the dict makes every method one atomic step.
pub mod Online
pub mod Reconcile
use vivarium_connection.Common.{
  ℕ, String, ◌≡◌, Bool, true, false, Option, none, some, List, [], ◌∷◌, str_eq, if◌then◌else◌,
  Result, ok, raised, ◌>>=◌,
}
use vivarium_connection.Common.Dict
use vivarium_connection.Common.Dict.{Dict}
use vivarium_connection.Common.Clock.{Stamp, ge}
use vivarium_connection.Models.{Float, Rack}

pub record RackState : Type 0 where
  pub rack_id : String
  pub last_position_x : Option Float
  pub last_position_y : Option Float
  pub last_position_c : Option Float
  pub homed_x : Bool
  pub homed_y : Bool
  pub homed_c : Bool
  pub last_homed_at : Option Stamp
  pub mqtt_status : String
  pub camera_status : String
  pub pi_online : Bool
  pub scan_state : String
  pub lock_holder_user_id : Option String
  pub lock_type : Option String
  pub lock_expires_at : Option Stamp
  pub maintenance_required : Bool
  pub grid_rows : Option ℕ
  pub grid_cols : Option ℕ
  pub pitch_x_mm : Option Float
  pub pitch_y_mm : Option Float
  pub x0_offset_mm : Option Float
  pub y0_offset_mm : Option Float
  pub limit_x_mm : Option Float
  pub limit_y_mm : Option Float
  pub limit_c_mm : Option Float
  pub updated_at : Option Stamp

-- RackState(rack_id=rack_id), with the defaults of the dataclass
unfoldable pub fresh : String → RackState
fresh rack_id = record {
  rack_id = rack_id;
  last_position_x = none;
  last_position_y = none;
  last_position_c = none;
  homed_x = false;
  homed_y = false;
  homed_c = false;
  last_homed_at = none;
  mqtt_status = "offline";
  camera_status = "unknown";
  pi_online = false;
  scan_state = "idle";
  lock_holder_user_id = none;
  lock_type = none;
  lock_expires_at = none;
  maintenance_required = false;
  grid_rows = none;
  grid_cols = none;
  pitch_x_mm = none;
  pitch_y_mm = none;
  x0_offset_mm = none;
  y0_offset_mm = none;
  limit_x_mm = none;
  limit_y_mm = none;
  limit_c_mm = none;
  updated_at = none;
}

-- One keyword argument of `upsert`; `unknown` is a key that is no field.
pub data Assign : Type 0 where
  last_position_x last_position_y last_position_c : Option Float → Assign
  homed_x homed_y homed_c maintenance_required pi_online : Bool → Assign
  last_homed_at lock_expires_at updated_at : Option Stamp → Assign
  mqtt_status camera_status scan_state : String → Assign
  lock_holder_user_id lock_type : Option String → Assign
  grid_rows grid_cols : Option ℕ → Assign
  pitch_x_mm pitch_y_mm x0_offset_mm y0_offset_mm : Option Float → Assign
  limit_x_mm limit_y_mm limit_c_mm : Option Float → Assign
  unknown : String → Assign

-- `if hasattr(state, key): setattr(state, key, value)`
unfoldable pub assign : Assign → RackState → RackState
assign (last_position_x v) s = record s { last_position_x = v }
assign (last_position_y v) s = record s { last_position_y = v }
assign (last_position_c v) s = record s { last_position_c = v }
assign (homed_x v) s = record s { homed_x = v }
assign (homed_y v) s = record s { homed_y = v }
assign (homed_c v) s = record s { homed_c = v }
assign (maintenance_required v) s = record s { maintenance_required = v }
assign (pi_online v) s = record s { pi_online = v }
assign (last_homed_at v) s = record s { last_homed_at = v }
assign (lock_expires_at v) s = record s { lock_expires_at = v }
assign (updated_at v) s = record s { updated_at = v }
assign (mqtt_status v) s = record s { mqtt_status = v }
assign (camera_status v) s = record s { camera_status = v }
assign (scan_state v) s = record s { scan_state = v }
assign (lock_holder_user_id v) s = record s { lock_holder_user_id = v }
assign (lock_type v) s = record s { lock_type = v }
assign (grid_rows v) s = record s { grid_rows = v }
assign (grid_cols v) s = record s { grid_cols = v }
assign (pitch_x_mm v) s = record s { pitch_x_mm = v }
assign (pitch_y_mm v) s = record s { pitch_y_mm = v }
assign (x0_offset_mm v) s = record s { x0_offset_mm = v }
assign (y0_offset_mm v) s = record s { y0_offset_mm = v }
assign (limit_x_mm v) s = record s { limit_x_mm = v }
assign (limit_y_mm v) s = record s { limit_y_mm = v }
assign (limit_c_mm v) s = record s { limit_c_mm = v }
assign (unknown key) s = s

unfoldable pub assign_all : List Assign → RackState → RackState
assign_all [] s = s
assign_all (a ∷ as_) s = assign_all as_ (assign a s)

-- GantryState._racks
abbrev pub Mirror : Type 0
Mirror = Dict RackState

unfoldable pub refresh : Stamp → RackState → RackState
refresh now s = record s { pi_online = str_eq s.mqtt_status "online"; updated_at = some now }

unfoldable pub upsert : Stamp → String → List Assign → Mirror → Mirror
unfolding fresh
upsert now rack_id kwargs racks =
    let state = Dict.get_or rack_id racks (fresh rack_id) in
    Dict.insert rack_id (refresh now (assign_all kwargs state)) racks

unfoldable pub get : String → Mirror → Option RackState
get rack_id racks = Dict.lookup rack_id racks

unfoldable pub remove : String → Mirror → Mirror
remove rack_id racks = Dict.remove rack_id racks

-- The state that `reconcile_from_db` builds from a row.
unfoldable pub from_row : Rack → RackState
from_row rack = record {
  rack_id = rack.id;
  last_position_x = rack.last_position_x;
  last_position_y = rack.last_position_y;
  last_position_c = rack.last_position_c;
  homed_x = rack.homed_x;
  homed_y = rack.homed_y;
  homed_c = rack.homed_c;
  last_homed_at = rack.last_homed_at;
  mqtt_status = rack.mqtt_status;
  camera_status = rack.camera_status;
  pi_online = str_eq rack.mqtt_status "online";
  scan_state = rack.scan_state;
  lock_holder_user_id = rack.lock_holder_user_id;
  lock_type = rack.lock_type;
  lock_expires_at = rack.lock_expires_at;
  maintenance_required = rack.maintenance_required;
  grid_rows = some rack.grid_rows;
  grid_cols = some rack.grid_cols;
  pitch_x_mm = some rack.pitch_x_mm;
  pitch_y_mm = some rack.pitch_y_mm;
  x0_offset_mm = some rack.x0_offset_mm;
  y0_offset_mm = some rack.y0_offset_mm;
  limit_x_mm = rack.limit_x_mm;
  limit_y_mm = rack.limit_y_mm;
  limit_c_mm = rack.limit_c_mm;
  updated_at = some rack.updated_at;
}

-- `existing is None or mem_updated is None or db_updated is None or db_updated >= mem_updated`;
-- the column `updated_at` is not nullable, so `db_updated` is never None.
unfoldable pub should_overwrite : Option RackState → Rack → Result Bool
should_overwrite none rack = ok true
should_overwrite (some existing) rack = elim existing.updated_at [
  | none ↦ ok true
  | some mem ↦ ge rack.updated_at mem
]

unfoldable pub overwrite : Bool → Rack → Mirror → Mirror
unfolding from_row
overwrite b rack racks = if b then Dict.insert rack.id (from_row rack) racks else racks

-- The loop of `reconcile_from_db`: an exception leaves the racks before it written.
unfoldable pub reconcile_from_db : List Rack → Mirror → Mirror × Result (Unit {0})
reconcile_from_db [] racks = (racks, ok tt)
reconcile_from_db (rack ∷ rest) racks = elim (should_overwrite (Dict.lookup rack.id racks) rack) [
  | raised e ↦ (racks, raised e)
  | ok b ↦ reconcile_from_db rest (overwrite b rack racks)
]
