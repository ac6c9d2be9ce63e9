-- ===== src/ScanEngine/Due.antt =====
-- server/services/scan_engine.py: the job that starts the scans that are due.
pub mod Batches
pub mod Timers
pub mod Stagger
pub mod Sessions
pub mod Unknown
use vivarium_connection.Common.{
  ℕ, zero, suc, ◌+◌, ◌*◌, String, Bool, true, false, not, ◌&&◌, Option, none, some, List, [], ◌∷◌,
  ◌++◌, leb, ◌==◌, length, if◌then◌else◌, Result, ok, raised,
}
use vivarium_connection.Common.Dict
use vivarium_connection.Common.Dict.{Dict}
use vivarium_connection.Common.Clock.{Stamp, utc, gt, plus_seconds, seconds}
use vivarium_connection.Models.{Rack, Racks, ScanSchedule}
use vivarium_connection.Locking.{
  LockResult, acquired, already_locked, rack_not_found, scan, Store, acquire_lock,
}
use vivarium_connection.Plant.{Plant}
use vivarium_connection.ScanEngine.{ScanEnv, Engine, scan_system_user_id, pi_alive, begin_scan}

-- the filters of the query, on a schedule and the rack that is joined to it
unfoldable pub is_due : ℕ → ScanSchedule → Option Rack → Bool
is_due now schedule none = false
is_due now schedule (some rack) =
    schedule.enabled && (leb schedule.next_scan_at.at now && not rack.maintenance_required)

-- `due_rack_ids`, in the order of the table
unfoldable pub due_rack_ids : ℕ → Racks → Dict ScanSchedule → List String
due_rack_ids now racks [] = []
due_rack_ids now racks ((id, schedule) ∷ rest) =
    let ids = due_rack_ids now racks rest in
    if is_due now schedule (Dict.lookup id racks) then id ∷ ids else ids

unfoldable pub postponed : ℕ → ℕ → String → Plant → Plant
postponed now minutes rack_id p = elim (Dict.lookup rack_id p.schedules) [
  | none ↦ p
  | some schedule ↦ record p {
    schedules =
        Dict.insert rack_id
          (record schedule { next_scan_at = plus_seconds (utc now) (minutes * 60) }) p.schedules;
  }
]

unfoldable pub postpone : Bool → ℕ → ℕ → String → Engine → Engine
postpone db_ok now minutes rack_id x =
    if db_ok then record x { plant = postponed now minutes rack_id x.plant } else x

-- `already_locked`; comparing a naive expiry raises TypeError
unfoldable pub locked_row_now : ℕ → Option String → Option Stamp → Result Bool
locked_row_now now none expiry = ok false
locked_row_now now (some holder) none = ok false
locked_row_now now (some holder) (some expiry) = gt expiry (utc now)

-- the update of the schedule when its scan starts
unfoldable pub rescheduled : ℕ → String → Plant → Plant
rescheduled now rack_id p = elim (Dict.lookup rack_id p.schedules) [
  | none ↦ p
  | some schedule ↦ record p {
    schedules =
        Dict.insert rack_id
          (record schedule {
            last_scan_started_at = some (utc now);
            next_scan_at = plus_seconds (utc now) (schedule.interval * 3600);
          })
          p.schedules;
  }
]

unfoldable pub with_lock :
    ScanEnv → ℕ → String → Rack → Engine → Result (LockResult × Store) → Engine
with_lock senv now rack_id rack x (raised e) = x
with_lock senv now rack_id rack x (ok (acquired, store)) =
    begin_scan senv now rack_id rack (rescheduled now rack_id) store x
with_lock senv now rack_id rack x (ok (already_locked, store)) =
    postpone true now senv.settings.postpone_minutes rack_id x
with_lock senv now rack_id rack x (ok (rack_not_found, store)) =
    postpone true now senv.settings.postpone_minutes rack_id x

unfoldable pub fire_gated : ScanEnv → ℕ → String → Rack → Result Bool → Engine → Engine
fire_gated senv now rack_id rack (raised e) x = x
fire_gated senv now rack_id rack (ok true) x =
    postpone true now senv.settings.postpone_minutes rack_id x
fire_gated senv now rack_id rack (ok false) x =
    with_lock senv now rack_id rack x
      (acquire_lock senv.env.cfg now rack_id scan_system_user_id scan x.plant.world.store)

-- from gate b on
unfoldable pub fire_online : ScanEnv → Bool → ℕ → String → Engine → Engine
fire_online senv false now rack_id x = x
fire_online senv true now rack_id x = elim (Dict.lookup rack_id x.plant.world.store.racks) [
  | none ↦ x
  | some rack ↦
      fire_gated senv now rack_id rack
        (locked_row_now now rack.lock_holder_user_id rack.lock_expires_at) x
]

unfoldable pub try_fire_scan : ScanEnv → Bool → ℕ → String → Engine → Engine
try_fire_scan senv db_ok now rack_id x =
    if pi_alive (Dict.lookup rack_id x.plant.world.store.mirror)
    then fire_online senv db_ok now rack_id x
    else postpone db_ok now senv.settings.postpone_minutes rack_id x

unfoldable pub take : ℕ → List String → List String
take zero ids = []
take (suc n) [] = []
take (suc n) (id ∷ ids) = id ∷ take n ids

unfoldable pub drop : ℕ → List String → List String
drop zero ids = ids
drop (suc n) [] = []
drop (suc n) (id ∷ ids) = drop n ids

-- The slices of `range(0, len(ids), size)`; the number of ids is enough fuel.
unfoldable pub batches : ℕ → ℕ → List String → List (List String)
batches fuel size [] = []
batches zero size (id ∷ ids) = []
batches (suc fuel) size (id ∷ ids) = take size (id ∷ ids) ∷ batches fuel size (drop size (id ∷ ids))

unfoldable pub fire_batch : ScanEnv → Bool → ℕ → List String → Engine → Engine
fire_batch senv db_ok now [] x = x
fire_batch senv db_ok now (id ∷ ids) x =
    fire_batch senv db_ok now ids (try_fire_scan senv db_ok now id x)

unfoldable pub timers_of : ℕ → List String → List (ℕ × String)
timers_of at [] = []
timers_of at (id ∷ ids) = (at, id) ∷ timers_of at ids

unfoldable pub handle_batch : ScanEnv → Bool → ℕ → ℕ → List String → Engine → Engine
handle_batch senv db_ok now delay_minutes batch x =
    if delay_minutes == 0 then fire_batch senv db_ok now batch x else record x {
      staggered = x.staggered ++ timers_of (now + seconds (delay_minutes * 60)) batch;
    }

unfoldable pub handle_batches : ScanEnv → Bool → ℕ → ℕ → List (List String) → Engine → Engine
handle_batches senv db_ok now batch_idx [] x = x
handle_batches senv db_ok now batch_idx (batch ∷ rest) x =
    handle_batches senv db_ok now (suc batch_idx) rest
      (handle_batch senv db_ok now (batch_idx * senv.settings.stagger_delay_minutes) batch x)

-- A group size of 0 makes `range` raise ValueError, which is caught.
unfoldable pub check_due_scans : ScanEnv → Bool → ℕ → Engine → Engine
check_due_scans senv false now x = x
check_due_scans senv true now x =
    let ids = due_rack_ids now x.plant.world.store.racks x.plant.schedules in
    if senv.settings.stagger_group_size == 0
    then x
    else handle_batches senv true now 0 (batches (length ids) senv.settings.stagger_group_size ids)
        x
