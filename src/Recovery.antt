-- ===== src/Recovery.antt =====
-- server/services/position_monitor.py: the state of the monitor and its recovery sequence. `now` is the
-- clock reading of a call, and `db_ok` whether its database sessions work: their exceptions are caught.
-- What the code does in short-lived threads is done where they are started.
pub mod Escalation
use vivarium_connection.Common.{
  ℕ, ◌+◌, String, Bool, true, false, Option, none, some, List, [], ◌∷◌, leb, if◌then◌else◌,
}
use vivarium_connection.Common.Dict
use vivarium_connection.Common.Dict.{Dict}
use vivarium_connection.Common.Clock.{Stamp, utc}
use vivarium_connection.Common.Text.{Text, codes}
use vivarium_connection.Models.{Float, Rack, ScanSchedule}
use vivarium_connection.State.{upsert, maintenance_required}
use vivarium_connection.Queue.{Env}
use vivarium_connection.Plant.{
  Plant, set_racks, set_mirror, audit, alert, stop_message, command_message, send,
}

pub record RecoveryState : Type 0 where
  pub in_recovery : Bool
  pub recovery_attempt : ℕ
  pub original_command : Option Text
  pub triggered_at : Option Stamp

-- `_recovery`, `_commanded_targets` and `_stale_check_due`
pub record Monitor : Type 0 where
  pub recovery : Dict RecoveryState
  pub targets : Dict (Option Float × Option Float)
  pub stale_due : Dict Bool

abbrev pub idle : RecoveryState
idle = record {
  in_recovery = false;
  recovery_attempt = 0;
  original_command = none;
  triggered_at = none;
}

unfoldable pub set_commanded_target : String → Option Float → Option Float → Monitor → Monitor
set_commanded_target rack_id none none m = record m { targets = Dict.remove rack_id m.targets }
set_commanded_target rack_id none (some y) m = record m {
  targets = Dict.insert rack_id (none, some y) m.targets;
}
set_commanded_target rack_id (some x) y m = record m {
  targets = Dict.insert rack_id (some x, y) m.targets;
}

unfoldable pub mark_stale_check_due : String → Monitor → Monitor
mark_stale_check_due rack_id m = record m { stale_due = Dict.insert rack_id true m.stale_due }

-- a row of `racks` changed by one rule, if it is there and the session works
unfoldable pub update_row : Bool → String → (Rack → Rack) → Plant → Plant
update_row false rack_id change p = p
update_row true rack_id change p = elim (Dict.lookup rack_id p.world.store.racks) [
  | none ↦ p
  | some rack ↦ set_racks (Dict.insert rack_id (change rack) p.world.store.racks) p
]

unfoldable pub disable_schedule : String → Plant → Plant
disable_schedule rack_id p = elim (Dict.lookup rack_id p.schedules) [
  | none ↦ p
  | some schedule ↦ record p {
    schedules = Dict.insert rack_id (record schedule { enabled = false }) p.schedules;
  }
]

-- A row that needs maintenance already is left as it is, its `updated_at` included.
unfoldable pub maintenance_row : ℕ → Rack → Rack
maintenance_row now rack =
    if rack.maintenance_required
    then rack
    else record rack { maintenance_required = true; updated_at = utc now }

-- the session of `_escalate_to_maintenance`
unfoldable pub flag_maintenance : Bool → ℕ → String → Plant → Plant
flag_maintenance db_ok now rack_id p =
    let flagged = disable_schedule rack_id (update_row true rack_id (maintenance_row now) p) in
    if db_ok then audit "maintenance_flagged" rack_id "flagged" flagged else p

unfoldable pub escalate_to_maintenance : Bool → ℕ → String → Plant → Plant
escalate_to_maintenance db_ok now rack_id p =
    let p' = flag_maintenance db_ok now rack_id p in
    alert rack_id "error" "maintenance_required" (
      set_mirror (upsert (utc now) rack_id (maintenance_required true ∷ []) p'.world.store.mirror)
        p')

-- "!" and then "G28", unless the first call raises
unfoldable pub publish_recovery : Env → String → Plant → Plant
publish_recovery env rack_id p =
    let (sent, p') = send env (stop_message rack_id) p in
    if sent then (send env (command_message rack_id (codes "G28") 1) p').1 else p'

unfoldable pub audit_if : Bool → String → String → String → Plant → Plant
audit_if db_ok event_type rack_id outcome p =
    if db_ok then audit event_type rack_id outcome p else p

unfoldable pub begun : ℕ → Option Text → RecoveryState → RecoveryState
begun now original_command rec = record {
  in_recovery = true;
  recovery_attempt = rec.recovery_attempt + 1;
  original_command = original_command;
  triggered_at = some (utc now);
}

-- From the recorded recovery on.
unfoldable pub recovery_steps : Env → Bool → ℕ → String → ℕ → Plant → Plant
recovery_steps env db_ok now rack_id attempt p =
    let p' =
      audit_if db_ok "re_home_triggered" rack_id "success"
        (alert rack_id "warning" "re_homing" (publish_recovery env rack_id p)) in
    if leb 2 attempt then escalate_to_maintenance db_ok now rack_id p' else p'

unfoldable pub start_recovery :
    Env → Bool → ℕ → String → Option Text → Monitor → Plant → Monitor × Plant
start_recovery env db_ok now rack_id original_command m p =
    let rec = Dict.get_or rack_id m.recovery idle in
    if rec.in_recovery then (m, p) else (
      record m { recovery = Dict.insert rack_id (begun now original_command rec) m.recovery },
      recovery_steps env db_ok now rack_id (rec.recovery_attempt + 1) p,
    )

unfoldable pub trigger_recovery :
    Env → Bool → ℕ → String → Option Text → Monitor → Plant → Monitor × Plant
trigger_recovery env db_ok now rack_id original_command m p =
    start_recovery env db_ok now rack_id original_command m p
