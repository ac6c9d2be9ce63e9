-- ===== src/Examples.antt =====
-- Concrete racks, users and worlds, on which the modules below run the theorems.
pub mod Commands
pub mod Positions
pub mod Engines
pub mod Edges
pub mod Pictures
pub mod Handlers
pub mod Browsers
pub mod Devices
pub mod Locks
pub mod Serials
pub mod Scans
pub mod Queues
use vivarium_connection.Common.{ℕ, String, Bool, true, false, Option, none, some, List, [], ◌∷◌}
use vivarium_connection.Common.Clock.{Stamp, utc}
use vivarium_connection.Common.Text.{Text, codes}
use vivarium_connection.Models.{Rack}
use vivarium_connection.State.{RackState, from_row}
use vivarium_connection.Locking.{Settings, Store}
use vivarium_connection.Queue.{QueuedCommand, Message, Env, World}

abbrev pub rack_row : Rack
rack_row = record {
  id = "rack-1";
  grid_rows = 12;
  grid_cols = 7;
  x0_offset_mm = 0;
  pitch_x_mm = 50;
  y0_offset_mm = 0;
  pitch_y_mm = 50;
  position_tolerance_x_mm = 3;
  position_tolerance_y_mm = 2;
  mqtt_status = "online";
  camera_status = "unknown";
  last_position_x = none;
  last_position_y = none;
  last_position_c = none;
  homed_x = false;
  homed_y = false;
  homed_c = false;
  last_homed_at = none;
  lock_holder_user_id = none;
  lock_type = none;
  lock_acquired_at = none;
  lock_expires_at = none;
  scan_state = "idle";
  maintenance_required = false;
  limit_x_mm = none;
  limit_y_mm = none;
  limit_c_mm = none;
  updated_at = utc 0;
}

-- the row with a motion lock of alice that expires at 15 s
abbrev pub held_row : Rack
held_row = record rack_row {
  lock_holder_user_id = some "alice";
  lock_type = some "motion";
  lock_acquired_at = some (utc 0);
  lock_expires_at = some (utc 15000000);
}

abbrev pub people : List String
people = "alice" ∷ "bob" ∷ []

abbrev pub settings : Settings
settings = record {
  motion_timeout_s = 15;
  capture_lock_timeout_s = 30;
  scan_lock_timeout_s = 60;
  command_timeout_s = 10;
}

abbrev pub free_store : Store
free_store = record { users = people; racks = ("rack-1", rack_row) ∷ []; mirror = [] }

abbrev pub held_store : Store
held_store = record { users = people; racks = ("rack-1", held_row) ∷ []; mirror = [] }

-- SQLite's driver hands a datetime back without its zone
abbrev pub naive : Stamp → Stamp
naive x = record x { aware = false }

abbrev pub env : Env
env = record { cfg = settings; delivers = λ m. true }

abbrev pub jog : Text
jog = codes "M700 R3 C5"

abbrev pub queued_jog : QueuedCommand
queued_jog = record { rack_id = "rack-1"; command = jog; user_id = some "bob"; enqueued_at = 0 }

abbrev pub free_world : World
free_world = record {
  store = free_store;
  queues = [];
  pending = [];
  published = [];
  stream_closed = [];
}

-- alice holds the lock and bob's command waits
abbrev pub held_world : World
held_world = record {
  store = held_store;
  queues = ("rack-1", queued_jog ∷ []) ∷ [];
  pending = [];
  published = [];
  stream_closed = [];
}
