-- ===== src/Plant.antt =====
-- The server's world with the tables and outputs that server/services/position_monitor.py and
-- server/services/scan_engine.py use besides the queue manager's, and the publish calls of
-- server/services/mqtt_client.py.
use vivarium_connection.Common.{
  ℕ, String, Bool, true, false, Option, List, [], ◌∷◌, ◌++◌, if◌then◌else◌,
}
use vivarium_connection.Common.Dict.{Dict}
use vivarium_connection.Common.Text.{Text, codes, text_eq}
use vivarium_connection.Models.{Racks, ScanSchedule, ScanSession, AuditLog}
use vivarium_connection.State.{Mirror}
use vivarium_connection.Serial.{strip}
use vivarium_connection.Queue.{World, Env, Message}

-- `_alert_msg`, without the text for the reader
pub record Alert : Type 0 where
  pub rack_id : String
  pub level : String
  pub code : String

-- the JSON object that `_publish_scan_start` publishes
pub record ScanStart : Type 0 where
  pub rack_id : String
  pub scan_session_id : Option ℕ
  pub grid_rows : ℕ
  pub grid_cols : ℕ
  pub resume_row : Option ℕ
  pub resume_col : Option ℕ

pub record Plant : Type 0 where
  pub world : World
  pub schedules : Dict ScanSchedule
  pub sessions : List (ℕ × ScanSession)
  pub audits : List AuditLog
  pub alerts : List Alert
  pub scan_starts : List ScanStart

unfoldable pub set_racks : Racks → Plant → Plant
set_racks racks p = record p {
  world = record p.world { store = record p.world.store { racks = racks } };
}

unfoldable pub set_mirror : Mirror → Plant → Plant
set_mirror mirror p = record p {
  world = record p.world { store = record p.world.store { mirror = mirror } };
}

unfoldable pub audit : String → String → String → Plant → Plant
audit event_type rack_id outcome p = record p {
  audits =
      p.audits ++ (record { event_type = event_type; rack_id = rack_id; outcome = outcome } ∷ []);
}

unfoldable pub alert : String → String → String → Plant → Plant
alert rack_id level code p = record p {
  alerts = p.alerts ++ (record { rack_id = rack_id; level = level; code = code } ∷ []);
}

abbrev pub stop_message : String → Message
stop_message rack_id = record { rack_id = rack_id; command = codes "!"; qos = 2 }

-- the message of `publish_command`, which sends "!" to the emergency topic
unfoldable pub command_message : String → Text → ℕ → Message
command_message rack_id command qos =
    if text_eq (strip command) (codes "!")
    then stop_message rack_id
    else record { rack_id = rack_id; command = command; qos = qos }

-- A publish call, and whether it returned.
unfoldable pub send : Env → Message → Plant → Bool × Plant
send env m p =
    if env.delivers m
    then (true, record p { world = record p.world { published = p.world.published ++ (m ∷ []) } })
    else (false, p)
