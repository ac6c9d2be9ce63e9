-- ===== src/Position.antt =====
-- server/services/position_monitor.py: the three checks of an M114 line. The arguments `now` and `db_ok`
-- are those of the recovery sequence.
pub mod FollowUp
pub mod History
use vivarium_connection.Common.{
  ℕ, ◌+◌, String, Bool, true, false, ◌&&◌, ◌||◌, not, ◌==◌, Option, none, some, List, [], ◌∷◌, ltb,
  if◌then◌else◌, Result, ok, raised, ◌>>=◌,
}
use vivarium_connection.Common.Dict
use vivarium_connection.Common.Clock.{Stamp, utc, gt, seconds}
use vivarium_connection.Common.Text.{Text}
use vivarium_connection.Models.{Float, Rack}
use vivarium_connection.State.{
  RackState, Assign, upsert, last_position_x, last_position_y, last_position_c, homed_x, homed_y,
  homed_c, last_homed_at,
}
use vivarium_connection.Queue.{Env}
use vivarium_connection.Plant.{Plant, set_mirror, alert, command_message, send}
use vivarium_connection.M114.{Groups, search}
use vivarium_connection.Recovery.{Monitor, update_row, audit_if, start_recovery}

-- Python's floats: `float(text)`, which raises ValueError on a text like "1.2.3", 0.0, and of two
-- numbers their distance and whether the first is above the second.
pub record Floats : Type 0 where
  pub of_text : Text → Result Float
  pub zero_mm : Float
  pub distance : Float → Float → Float
  pub above : Float → Float → Bool

-- The settings, and what the monitor calls.
pub record Setup : Type 0 where
  pub env : Env
  pub floats : Floats
  pub tolerance_x_mm : Float
  pub tolerance_y_mm : Float

pub record M114Result : Type 0 where
  pub rack_id : String
  pub x : Float
  pub y : Float
  pub c : Float
  pub homed_x : Bool
  pub homed_y : Bool
  pub homed_c : Bool

unfoldable pub all_homed : M114Result → Bool
all_homed r = r.homed_x && (r.homed_y && r.homed_c)

unfoldable pub numbers_of : Floats → String → Groups → Result M114Result
numbers_of floats rack_id g = do
  x ← floats.of_text g.x
  y ← floats.of_text g.y
  c ← floats.of_text g.c
  ok (record {
    rack_id = rack_id;
    x = x;
    y = y;
    c = c;
    homed_x = g.homed_x;
    homed_y = g.homed_y;
    homed_c = g.homed_c;
  })

unfoldable pub parse_m114 : Floats → String → Text → Result (Option M114Result)
parse_m114 floats rack_id raw = elim (search raw) [
  | none ↦ ok none
  | some g ↦ do r ← numbers_of floats rack_id g; ok (some r)
]

-- the keyword arguments of the mirror's update
unfoldable pub position_fields : ℕ → M114Result → List Assign
position_fields now r =
    last_position_x (some r.x)
    ∷ last_position_y (some r.y)
    ∷ last_position_c (some r.c)
    ∷ homed_x r.homed_x
    ∷ homed_y r.homed_y
    ∷ homed_c r.homed_c
    ∷ (if all_homed r then last_homed_at (some (utc now)) ∷ [] else [])

unfoldable pub update_state : ℕ → M114Result → Plant → Plant
update_state now r p =
    set_mirror (upsert (utc now) r.rack_id (position_fields now r) p.world.store.mirror) p

unfoldable pub same_float : Option Float → Float → Bool
same_float none x = false
same_float (some y) x = y == x

unfoldable pub same_flag : Bool → Bool → Bool
same_flag true b = b
same_flag false b = not b

-- The line changes no column: the session leaves the update out.
unfoldable pub unchanged : M114Result → Rack → Bool
unchanged r rack =
    same_float rack.last_position_x r.x
    && (same_float rack.last_position_y r.y
        && (same_float rack.last_position_c r.c
            && (same_flag rack.homed_x r.homed_x
                && (same_flag rack.homed_y r.homed_y
                    && (same_flag rack.homed_c r.homed_c && not (all_homed r))))))

-- An update of a row also refreshes its `updated_at`.
unfoldable pub positioned_row : ℕ → M114Result → Rack → Rack
positioned_row now r rack = record rack {
  last_position_x = some r.x;
  last_position_y = some r.y;
  last_position_c = some r.c;
  homed_x = r.homed_x;
  homed_y = r.homed_y;
  homed_c = r.homed_c;
  last_homed_at = if all_homed r then some (utc now) else rack.last_homed_at;
  updated_at = if unchanged r rack then rack.updated_at else utc now;
}

unfoldable pub persist_position : Bool → ℕ → M114Result → Plant → Plant
persist_position db_ok now r p = update_row db_ok r.rack_id (positioned_row now r) p

-- the tolerances of the row, or of the settings
unfoldable pub tolerances : Setup → Bool → String → Plant → Float × Float
tolerances setup false rack_id p = (setup.tolerance_x_mm, setup.tolerance_y_mm)
tolerances setup true rack_id p = elim (Dict.lookup rack_id p.world.store.racks) [
  | none ↦ (setup.tolerance_x_mm, setup.tolerance_y_mm)
  | some rack ↦ (rack.position_tolerance_x_mm, rack.position_tolerance_y_mm)
]

-- `abs(actual - target) if target is not None else 0.0`
unfoldable pub deviation : Floats → Float → Option Float → Float
deviation floats actual none = floats.zero_mm
deviation floats actual (some target) = floats.distance actual target

unfoldable pub off_target : Setup → Bool → M114Result → Option Float × Option Float → Plant → Bool
off_target setup db_ok r target p =
    let (tol_x, tol_y) = tolerances setup db_ok r.rack_id p in
    setup.floats.above (deviation setup.floats r.x target.0) tol_x
    || setup.floats.above (deviation setup.floats r.y target.1) tol_y

unfoldable pub check_tolerance :
    Setup → Bool → ℕ → M114Result → Option Float × Option Float → Monitor → Plant → Monitor × Plant
check_tolerance setup db_ok now r target m p =
    if off_target setup db_ok r target p
    then start_recovery setup.env db_ok now r.rack_id none
        (record m { targets = Dict.remove r.rack_id m.targets })
        (audit_if db_ok "position_error" r.rack_id "failure" p)
    else (m, p)

unfoldable pub check_target : Setup → Bool → ℕ → M114Result → Monitor → Plant → Monitor × Plant
check_target setup db_ok now r m p = elim (Dict.lookup r.rack_id m.targets) [
  | none ↦ (m, p)
  | some target ↦ check_tolerance setup db_ok now r target m p
]

-- `last_homed_at` is null or more than twelve hours ago.
unfoldable pub is_stale : ℕ → Option Stamp → Bool
is_stale now none = true
is_stale now (some homed) = ltb (homed.at + seconds 43200) now

unfoldable pub homed_at : Option RackState → Option Stamp
homed_at none = none
homed_at (some state) = state.last_homed_at

unfoldable pub check_stale_homing : ℕ → String → Plant → Plant
check_stale_homing now rack_id p =
    if is_stale now (homed_at (Dict.lookup rack_id p.world.store.mirror))
    then alert rack_id "warning" "stale_homing" p
    else p

unfoldable pub check_due : ℕ → String → Monitor → Plant → Monitor × Plant
check_due now rack_id m p = (
  record m { stale_due = Dict.remove rack_id m.stale_due },
  if Dict.get_or rack_id m.stale_due false then check_stale_homing now rack_id p else p,
)

-- The command to retry: the recovery of a rack that is homed again is over.
unfoldable pub end_recovery : M114Result → Monitor → Monitor × Option Text
end_recovery r m = elim (Dict.lookup r.rack_id m.recovery) [
  | none ↦ (m, none)
  | some rec ↦
      if rec.in_recovery && all_homed r
      then (
        record m {
          recovery = Dict.insert r.rack_id (record rec { in_recovery = false }) m.recovery;
        },
        rec.original_command,
      )
      else (m, none)
]

-- `lock_valid`; comparing a naive expiry raises TypeError
unfoldable pub lock_valid : ℕ → Option String → Option Stamp → Result Bool
lock_valid now none expiry = ok false
lock_valid now (some holder) none = ok false
lock_valid now (some holder) (some expiry) = gt expiry (utc now)

unfoldable pub mirror_lock_valid : ℕ → Option RackState → Result Bool
mirror_lock_valid now none = ok false
mirror_lock_valid now (some state) = lock_valid now state.lock_holder_user_id state.lock_expires_at

-- `_retry_command`: an empty command is not retried
unfoldable pub retry_command : Env → ℕ → String → Option Text → Plant → Result Plant
retry_command env now rack_id none p = ok p
retry_command env now rack_id (some []) p = ok p
retry_command env now rack_id (some (c ∷ cs)) p = do
  valid ← mirror_lock_valid now (Dict.lookup rack_id p.world.store.mirror)
  ok (if valid then (send env (command_message rack_id (c ∷ cs) 1) p).1 else p)

unfoldable pub after_retry :
    Monitor → Plant → M114Result → Result Plant → Monitor × Plant × Result (Option M114Result)
after_retry m p r (ok p') = (m, p', ok (some r))
after_retry m p r (raised e) = (m, p, raised e)

-- `on_m114` of a line that was parsed
unfoldable pub on_position :
    Setup → Bool → ℕ → M114Result → Monitor → Plant → Monitor × Plant × Result (Option M114Result)
on_position setup db_ok now r m p =
    let (m1, p1) =
      check_target setup db_ok now r m (persist_position db_ok now r (update_state now r p)) in
    let (m2, p2) = check_due now r.rack_id m1 p1 in
    let (m3, command) = end_recovery r m2 in
    after_retry m3 p2 r (retry_command setup.env now r.rack_id command p2)

unfoldable pub on_m114_parsed :
    Setup
    → Bool
    → ℕ
    → Result (Option M114Result)
    → Monitor
    → Plant
    → Monitor × Plant × Result (Option M114Result)
on_m114_parsed setup db_ok now (raised e) m p = (m, p, raised e)
on_m114_parsed setup db_ok now (ok none) m p = (m, p, ok none)
on_m114_parsed setup db_ok now (ok (some r)) m p = on_position setup db_ok now r m p

unfoldable pub on_m114 :
    Setup
    → Bool
    → ℕ
    → String
    → Text
    → Monitor
    → Plant
    → Monitor × Plant × Result (Option M114Result)
on_m114 setup db_ok now rack_id raw m p =
    on_m114_parsed setup db_ok now (parse_m114 setup.floats rack_id raw) m p
