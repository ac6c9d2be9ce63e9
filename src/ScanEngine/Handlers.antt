-- ===== src/ScanEngine/Handlers.antt =====
-- server/services/scan_engine.py: the handlers of the Pi's messages, the conflict with manual commands,
-- and the scans that an operator starts.
pub mod Manual
pub mod Ended
pub mod Tracked
use vivarium_connection.Common.{
  ℕ, zero, suc, ◌+◌, ◌*◌, String, str_eq, Bool, true, false, Option, none, some, List, [], ◌∷◌,
  ◌++◌, if◌then◌else◌, Result, ok, raised,
}
use vivarium_connection.Common.Dict
use vivarium_connection.Common.Dict.{Dict}
use vivarium_connection.Common.Clock.{Stamp, utc, plus_seconds, seconds}
use vivarium_connection.Common.Text.{Text, codes}
use vivarium_connection.Models.{Rack, ScanSession}
use vivarium_connection.Locking.{
  LockResult, acquired, already_locked, rack_not_found, scan, Store, acquire_lock,
}
use vivarium_connection.Queue.{Env, session_release}
use vivarium_connection.Plant.{Plant, command_message, send}
use vivarium_connection.Recovery.{mark_stale_check_due}
use vivarium_connection.ScanEngine.{
  ScanEnv, Progress, StatusReport, Prompt, Broadcast, scan_cell_complete, scan_status,
  scan_resume_prompt, Engine, broadcast, pi_alive, set_scan_state, next_id, fresh_session,
  update_session, set_active, scan_start_message, publish_scan_start, begin_scan,
}

unfoldable pub progressed : Progress → ScanSession → ScanSession
progressed m session = record session {
  cells_completed = m.cells_completed;
  cells_failed = m.cells_failed;
  last_completed_row = m.cell_row;
  last_completed_col = m.cell_col;
}

-- A message that is no JSON object, or without a rack, does nothing.
unfoldable pub on_scan_progress : Bool → ℕ → Option String → Option Progress → Engine → Engine
on_scan_progress db_ok now none m x = x
on_scan_progress db_ok now (some rack_id) none x = x
on_scan_progress db_ok now (some rack_id) (some m) x =
    let p =
      set_scan_state now rack_id "running"
        (update_session m.scan_session_id (progressed m) x.plant) in
    broadcast (scan_cell_complete rack_id m) (if db_ok then record x { plant = p } else x)

unfoldable pub cancel_resume_timer : String → Engine → Engine
cancel_resume_timer rack_id x = record x { resume_timers = Dict.remove rack_id x.resume_timers }

unfoldable pub pop_active : String → Engine → Engine
pop_active rack_id x = record x { active_sessions = Dict.remove rack_id x.active_sessions }

-- The prompt to the operator, and the timer of its window.
unfoldable pub offer_resume_restart :
    ScanEnv → ℕ → String → Option ℕ → Option ℕ → Option ℕ → Rack → Engine → Engine
offer_resume_restart senv now rack_id session_id last_row last_col rack x =
    let window_s = senv.settings.resume_window_s in
    let x' =
      broadcast
        (scan_resume_prompt rack_id (record {
          scan_session_id = session_id;
          last_completed_row = last_row;
          last_completed_col = last_col;
          grid_rows = rack.grid_rows;
          grid_cols = rack.grid_cols;
          expires_at = plus_seconds (utc now) window_s;
        }))
        x in
    record x' { resume_timers = Dict.insert rack_id (now + seconds window_s) x'.resume_timers }

unfoldable pub on_resume_window_expired : String → Engine → Engine
on_resume_window_expired rack_id x = cancel_resume_timer rack_id (pop_active rack_id x)

unfoldable pub completed : ℕ → ScanSession → ScanSession
completed now session = record session { status = "complete"; completed_at = some (utc now) }

unfoldable pub paused : StatusReport → ScanSession → ScanSession
paused m session = record session {
  status = "paused";
  last_completed_row = m.last_completed_row;
  last_completed_col = m.last_completed_col;
}

unfoldable pub aborted : StatusReport → ScanSession → ScanSession
aborted m session = record session { status = "aborted"; abort_reason = m.abort_reason }

-- The session's row and the rack's state, and then `release_lock` in the same database session.
unfoldable pub release_scan :
    ScanEnv → ℕ → String → String → Option ℕ → (ScanSession → ScanSession) → Plant → Plant
release_scan senv now rack_id state session_id change p =
    let p' = set_scan_state now rack_id state (update_session session_id change p) in
    record p' { world = (session_release senv.env now rack_id p'.world).1 }

unfoldable pub scan_completed : ScanEnv → ℕ → String → StatusReport → Engine → Engine
scan_completed senv now rack_id m x = pop_active rack_id (record x {
  plant = release_scan senv now rack_id "complete" m.scan_session_id (completed now) x.plant;
})

unfoldable pub scan_paused : ScanEnv → ℕ → String → Rack → StatusReport → Engine → Engine
scan_paused senv now rack_id rack m x =
    offer_resume_restart senv now rack_id m.scan_session_id m.last_completed_row
      m.last_completed_col rack
      (record x {
        plant =
            set_scan_state now rack_id "paused"
              (update_session m.scan_session_id (paused m) x.plant);
      })

unfoldable pub is_emergency : Option String → Bool
is_emergency none = false
is_emergency (some reason) = str_eq reason "emergency_stop"

unfoldable pub scan_aborted : ScanEnv → ℕ → String → StatusReport → Engine → Engine
scan_aborted senv now rack_id m x =
    let x' = cancel_resume_timer rack_id (
      pop_active rack_id (record x {
        plant = release_scan senv now rack_id "aborted" m.scan_session_id (aborted m) x.plant;
      })) in
    if is_emergency m.abort_reason
    then record x' { monitor = mark_stale_check_due rack_id x'.monitor }
    else x'

unfoldable pub by_status : ScanEnv → ℕ → String → Rack → StatusReport → Engine → Engine
by_status senv now rack_id rack m x =
    if str_eq m.status "complete"
    then scan_completed senv now rack_id m x
    else if str_eq m.status "paused"
    then scan_paused senv now rack_id rack m x
    else if str_eq m.status "aborted"
    then scan_aborted senv now rack_id m x
    else x

-- The message for an unknown rack is not passed on.
unfoldable pub on_rack_status : ScanEnv → Bool → ℕ → String → StatusReport → Engine → Engine
on_rack_status senv false now rack_id m x = broadcast (scan_status rack_id m) x
on_rack_status senv true now rack_id m x = elim (Dict.lookup rack_id x.plant.world.store.racks) [
  | none ↦ x
  | some rack ↦ broadcast (scan_status rack_id m) (by_status senv now rack_id rack m x)
]

unfoldable pub on_scan_status :
    ScanEnv → Bool → ℕ → Option String → Option StatusReport → Engine → Engine
on_scan_status senv db_ok now none m x = x
on_scan_status senv db_ok now (some rack_id) none x = x
on_scan_status senv db_ok now (some rack_id) (some m) x = on_rack_status senv db_ok now rack_id m x

unfoldable pub send_scan_stop : ScanEnv → String → Engine → Engine
send_scan_stop senv rack_id x = record x {
  plant = (send senv.env (command_message rack_id (codes "SCAN_STOP") 1) x.plant).1;
}

unfoldable pub handle_manual_command_conflict : ScanEnv → Bool → ℕ → String → Engine → Engine
handle_manual_command_conflict senv false now rack_id x = x
handle_manual_command_conflict senv true now rack_id x =
    send_scan_stop senv rack_id (record x { plant = set_scan_state now rack_id "paused" x.plant })

-- The restart: a new session for a known rack. The given id, if it is not 0, is made active otherwise.
unfoldable pub restart_scan : ScanEnv → Bool → ℕ → String → ℕ → ℕ → ℕ → Engine → Engine
restart_scan senv false now rack_id session_id grid_rows grid_cols x =
    publish_scan_start senv
      (scan_start_message rack_id (some session_id) grid_rows grid_cols none none) x
restart_scan senv true now rack_id session_id grid_rows grid_cols x =
    elim (Dict.lookup rack_id x.plant.world.store.racks) [
      | some rack ↦ begin_scan senv now rack_id rack (λ p. p) x.plant.world.store x
      | none ↦
          publish_scan_start senv
            (scan_start_message rack_id (some session_id) grid_rows grid_cols none none)
            (elim session_id [ zero ↦ x | suc n ↦ set_active rack_id (suc n) x ])
    ]

unfoldable pub handle_resume_choice :
    ScanEnv → Bool → ℕ → String → ℕ → String → ℕ → ℕ → Option ℕ → Option ℕ → Engine → Engine
handle_resume_choice senv db_ok now rack_id session_id choice grid_rows grid_cols resume_row
      resume_col x =
    let x' = cancel_resume_timer rack_id x in
    if str_eq choice "resume"
    then publish_scan_start senv
        (scan_start_message rack_id (some session_id) grid_rows grid_cols resume_row resume_col) x'
    else restart_scan senv db_ok now rack_id session_id grid_rows grid_cols x'

pub data Answer : Type 0 where
  scan_published scan_queued error_pi_offline error_rack_not_found error_lock error_internal :
      Answer

unfoldable pub with_operator_lock :
    ScanEnv → ℕ → String → Rack → Engine → Result (LockResult × Store) → Engine × Answer
with_operator_lock senv now rack_id rack x (raised e) = (x, error_internal)
with_operator_lock senv now rack_id rack x (ok (already_locked, store)) = (x, scan_queued)
with_operator_lock senv now rack_id rack x (ok (rack_not_found, store)) = (x, error_lock)
with_operator_lock senv now rack_id rack x (ok (acquired, store)) =
    (begin_scan senv now rack_id rack (λ p. p) store x, scan_published)

unfoldable pub trigger_online : ScanEnv → Bool → ℕ → String → String → Engine → Engine × Answer
trigger_online senv false now rack_id user_id x = (x, error_internal)
trigger_online senv true now rack_id user_id x =
    elim (Dict.lookup rack_id x.plant.world.store.racks) [
      | none ↦ (x, error_rack_not_found)
      | some rack ↦
          with_operator_lock senv now rack_id rack x
            (acquire_lock senv.env.cfg now rack_id user_id scan x.plant.world.store)
    ]

-- `trigger_manual_scan` on the session of its caller, once that is committed.
unfoldable pub trigger_manual_scan : ScanEnv → Bool → ℕ → String → String → Engine → Engine × Answer
trigger_manual_scan senv db_ok now rack_id user_id x =
    if pi_alive (Dict.lookup rack_id x.plant.world.store.mirror)
    then trigger_online senv db_ok now rack_id user_id x
    else (x, error_pi_offline)
