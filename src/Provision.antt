-- ===== src/Provision.antt =====
-- server/services/provisioning.py: the devices of the `racks` table, with the identity columns and those
-- that provisioning sets, in the order of their insertion. An id is ASCII text, compared by code
-- points as the database does. The three credentials that a request would be given are its argument.
pub mod Fleet
pub mod Again
pub mod Rows
pub mod Shared
use vivarium_connection.Common.{
  ℕ, zero, suc, ◌+◌, ◌-◌, ◌*◌, ◌%◌, ◌/◌, String, str_eq, Bool, true, false, ◌&&◌, ◌||◌, ◌==◌, ltb,
  leb, Option, none, some, List, [], ◌∷◌, ◌++◌, if◌then◌else◌, Result, ok, raised,
}
use vivarium_connection.Common.Text.{Text, codes, text_eq, one_of}
use vivarium_connection.Models.{Float}
use vivarium_connection.DeviceId.{device_name, last_from, next_num, decimal}
use vivarium_connection.Csrf.{given}
use vivarium_connection.Serial.{strip}

pub record Geometry : Type 0 where
  pub grid_rows : ℕ
  pub grid_cols : ℕ
  pub x0_offset_mm : Float
  pub pitch_x_mm : Float
  pub y0_offset_mm : Float
  pub pitch_y_mm : Float
  pub position_tolerance_x_mm : Float
  pub position_tolerance_y_mm : Float

pub record Credentials : Type 0 where
  pub mqtt_password : Text
  pub presign_api_key : Text
  pub rtsp_password : Text

pub record Device : Type 0 where
  pub id : Text
  pub display_name : Text
  pub cpu_serial : Option String
  pub pi_ip : Option String
  pub mqtt_username : Option Text
  pub mqtt_password_ref : Option Text
  pub rtsp_password_ref : Option Text
  pub presign_api_key_ref : Option Text
  pub geometry : Geometry
  pub mqtt_status : String
  pub camera_status : String
  pub scan_state : String
  pub maintenance_required : Bool

pub record Settings : Type 0 where
  pub provisioning_secret : String
  pub server_host : Text
  pub backend_port : ℕ
  pub mqtt_broker : Text
  pub mqtt_port : ℕ
  pub geometry : Geometry

pub record ProvisionRequest : Type 0 where
  pub cpu_serial : String
  pub provisioning_secret : String
  pub provision_token : Option String
  pub pi_ip : Option String

pub record ProvisionResult : Type 0 where
  pub device_id : Text
  pub mqtt_username : Text
  pub credentials : Credentials
  pub server_host : Text
  pub broker_host : Text
  pub broker_port : ℕ

-- the rows of `audit_log` that provisioning appends
pub data Audit : Type 0 where
  bad_secret : String → Audit
  idempotent new_provisioning : Text → String → Audit

pub record Registry : Type 0 where
  pub devices : List Device
  pub audits : List Audit

unfoldable pub ids : List Device → List Text
ids [] = []
ids (d ∷ ds) = d.id ∷ ids ds

-- SELECT id FROM racks ORDER BY id DESC LIMIT 1
unfoldable pub last_id : List Device → Option Text
last_id devices = last_from none (ids devices)

unfoldable pub assign_device_id : List Device → Text
assign_device_id devices = device_name (next_num (last_id devices))

unfoldable pub has_serial : String → Device → Bool
has_serial serial d = one_given d.cpu_serial serial
  where
    one_given : Option String → String → Bool
    one_given none serial = false
    one_given (some own) serial = str_eq own serial

unfoldable pub find_serial : String → List Device → Option Device
find_serial serial [] = none
find_serial serial (d ∷ ds) = if has_serial serial d then some d else find_serial serial ds

unfoldable pub find_id : Text → List Device → Option Device
find_id id [] = none
find_id id (d ∷ ds) = if text_eq d.id id then some d else find_id id ds

-- The row of the primary key is changed in place.
unfoldable pub change_id : Text → (Device → Device) → List Device → List Device
change_id id change [] = []
change_id id change (d ∷ ds) =
    let rest = change_id id change ds in if text_eq d.id id then change d ∷ ds else d ∷ rest

unfoldable pub new_device : Settings → Text → String → Credentials → Option String → Device
new_device cfg id serial keys pi_ip = record {
  id = id;
  display_name = id;
  cpu_serial = some serial;
  pi_ip = pi_ip;
  mqtt_username = some id;
  mqtt_password_ref = some keys.mqtt_password;
  rtsp_password_ref = some keys.rtsp_password;
  presign_api_key_ref = some keys.presign_api_key;
  geometry = cfg.geometry;
  mqtt_status = "offline";
  camera_status = "unknown";
  scan_state = "idle";
  maintenance_required = false;
}

unfoldable pub or_kept : Option String → Option String → Option String
or_kept none kept = kept
or_kept (some ip) kept = some ip

unfoldable pub reassigned : Text → String → Credentials → Option String → Device → Device
reassigned username serial keys pi_ip d = record d {
  mqtt_username = some username;
  mqtt_password_ref = some keys.mqtt_password;
  rtsp_password_ref = some keys.rtsp_password;
  presign_api_key_ref = some keys.presign_api_key;
  cpu_serial = some serial;
  pi_ip = or_kept pi_ip d.pi_ip;
}

-- `provision_device` passes the id as the MQTT user name.
unfoldable pub upsert_rack :
    Settings → Text → String → Credentials → Option String → List Device → List Device
upsert_rack cfg id serial keys pi_ip devices = elim (find_id id devices) [
  | none ↦ devices ++ (new_device cfg id serial keys pi_ip ∷ [])
  | some d ↦ change_id id (reassigned id serial keys pi_ip) devices
]

unfoldable pub unroutable : Text → Bool
unroutable host =
    text_eq host [] || one_of host (codes "0.0.0.0" ∷ codes "127.0.0.1" ∷ codes "localhost" ∷ [])

unfoldable pub build_server_host : Settings → Text
build_server_host cfg =
    let host = strip cfg.server_host in
    codes "http://"
    ++ (if unroutable host then cfg.mqtt_broker else host)
    ++ codes ":"
    ++ decimal cfg.backend_port

-- `value or default`
unfoldable pub text_or : Text → Option Text → Text
text_or default none = default
text_or default (some []) = default
text_or default (some (c ∷ cs)) = c ∷ cs

unfoldable pub result_for : Settings → Text → Text → Credentials → ProvisionResult
result_for cfg id username keys = record {
  device_id = id;
  mqtt_username = username;
  credentials = keys;
  server_host = build_server_host cfg;
  broker_host = cfg.mqtt_broker;
  broker_port = cfg.mqtt_port;
}

unfoldable pub stored_result : Settings → Device → ProvisionResult
stored_result cfg d = result_for cfg d.id (text_or d.id d.mqtt_username) (record {
  mqtt_password = text_or [] d.mqtt_password_ref;
  presign_api_key = text_or [] d.presign_api_key_ref;
  rtsp_password = text_or [] d.rtsp_password_ref;
})

-- a new address of a known device: `body.pi_ip and existing_rack.pi_ip != body.pi_ip`
unfoldable pub moved : Option String → Device → Device
moved none d = d
moved (some ip) d = record d { pi_ip = some ip }

unfoldable pub known_device :
    Settings → ProvisionRequest → Device → Registry → Registry × Option ProvisionResult
known_device cfg body d r = (
  record {
    devices = change_id d.id (moved (given body.pi_ip)) r.devices;
    audits = r.audits ++ (idempotent d.id body.cpu_serial ∷ []);
  },
  some (stored_result cfg d),
)

unfoldable pub unknown_device :
    Settings → Credentials → ProvisionRequest → Registry → Registry × Option ProvisionResult
unknown_device cfg keys body r =
    let id = assign_device_id r.devices in
    (
      record {
        devices = upsert_rack cfg id body.cpu_serial keys body.pi_ip r.devices;
        audits = r.audits ++ (new_provisioning id body.cpu_serial ∷ []);
      },
      some (result_for cfg id id keys),
    )

unfoldable pub by_serial :
    Settings
    → Credentials
    → ProvisionRequest
    → Registry
    → Option Device
    → Registry × Option ProvisionResult
by_serial cfg keys body r (some d) = known_device cfg body d r
by_serial cfg keys body r none = unknown_device cfg keys body r

-- No result stands for the answer 401.
unfoldable pub provision_device :
    Settings → Credentials → ProvisionRequest → Registry → Registry × Option ProvisionResult
provision_device cfg keys body r =
    if str_eq body.provisioning_secret cfg.provisioning_secret
    then by_serial cfg keys body r (find_serial body.cpu_serial r.devices)
    else (record r { audits = r.audits ++ (bad_secret body.cpu_serial ∷ []) }, none)
