-- ===== src/Examples/Devices.antt =====
-- The theorems on the accounts, on server/middleware/auth.py and on server/services/provisioning.py.
use vivarium_connection.Common.{
  ◌↔◌, ◌≡◌, refl, String, str_eq, true, false, ◌⊎◌, none, some, List, [], ◌∷◌, arith,
}
use vivarium_connection.Common.Text.{is_space, codes}
use vivarium_connection.Auth.{admin_token_user}
use vivarium_connection.Auth.Roles.{require_rack_operator-granted}
use vivarium_connection.Accounts.{
  Crypto, NewUser, Users, User, complete_409, first_time_setup, has_admin, create_user,
}
use vivarium_connection.Accounts.Setup.{nothing, after, creates, first_time_setup-locked}
use vivarium_connection.DeviceId.{
  all_digits, behind_dash, dash_here, is_digits, number_behind, text_lt, to_int, device_name,
  padded, decimal, print_digits, next_num, last_from, better,
}
use vivarium_connection.Provision.{
  upsert_rack, Credentials, Device, Settings, ProvisionRequest, ProvisionResult, Registry, ids,
  last_id, find_id, find_serial, new_device, result_for, provision_device, by_serial,
  unknown_device, assign_device_id, has_serial,
}
use vivarium_connection.Provision.Again.Between.{Fresh, provision_device-again}
use vivarium_connection.Provision.Fleet.{serve, IsNamed, provision_device-IsNamed}
use vivarium_connection.Provision.Shared.{provision_device-shared}
use vivarium_connection.ImagePath.{
  validate_local_path, match_local, fitting_rack, last_three, add_part, parts_fit, is_rack,
  is_empty, consume, fits, dashed_stamp, behind, at_end, is_root, any_newline, has_newline,
  is_rack_of,
}
use vivarium_connection.Serial.{keep_char, lstrip, rstrip, strip, has_prefix}
use vivarium_connection.Topics.{split, add_head}
use vivarium_connection.ImagePath.Own.{IsOwn, validate_local_path-IsOwn}
use vivarium_connection.Examples.Browsers.{authority, alice_header, alice, alice_passes}

require_rack_operator-granted_example :
    (str_eq alice.role "viewer" ≡ false)
    × ((alice ≡ admin_token_user)
        ⊎ (authority.user_has_rack_access alice.user_id alice.role "rack-1" ≡ true))
require_rack_operator-granted_example =
    require_rack_operator-granted authority "rack-1" alice_header alice alice_passes

abbrev crypto : Crypto
crypto = record {
  hash_password = λ password. password;
  verify_password = λ password hash. str_eq password hash;
  new_id = λ role. role;
}

abbrev admin : User
admin = record {
  id = "admin";
  username = "root";
  password_hash = "pw";
  role = "admin";
  last_login_at = none;
}

abbrev carol : NewUser
carol = record { username = "carol"; password = "pw"; role = "viewer" }

abbrev later_users : Users
later_users = (create_user authority crypto alice_header carol (admin ∷ [])).0

first_time_setup-locked_example :
    first_time_setup crypto "mallory" "pw" later_users ≡ (later_users, complete_409)
unfolding has_admin
first_time_setup-locked_example =
    first_time_setup-locked authority crypto (admin ∷ []) later_users "mallory" "pw" refl
      (after (nothing (admin ∷ [])) (creates alice_header carol (admin ∷ [])))

abbrev cfg : Settings
cfg = record {
  provisioning_secret = "s3";
  server_host = codes "0.0.0.0";
  backend_port = 80;
  mqtt_broker = codes "10.0.0.2";
  mqtt_port = 1883;
  geometry = record {
    grid_rows = 12;
    grid_cols = 7;
    x0_offset_mm = 0;
    pitch_x_mm = 50;
    y0_offset_mm = 0;
    pitch_y_mm = 50;
    position_tolerance_x_mm = 3;
    position_tolerance_y_mm = 2;
  };
}

abbrev keys_of : String → Credentials
keys_of text = record {
  mqtt_password = codes text;
  presign_api_key = codes text;
  rtsp_password = codes text;
}

abbrev request_of : String → ProvisionRequest
request_of serial = record {
  cpu_serial = serial;
  provisioning_secret = "s3";
  provision_token = none;
  pi_ip = some "10.0.0.7";
}

abbrev no_racks : Registry
no_racks = record { devices = []; audits = [] }

abbrev first_result : ProvisionResult
first_result = result_for cfg (codes "rack-001") (codes "rack-001") (keys_of "k1")

first_provisioned :
    (provision_device cfg (keys_of "k1") (request_of "c1") no_racks).1 ≡ some first_result
unfolding provision_device by_serial find_serial unknown_device assign_device_id device_name padded
    decimal print_digits next_num last_id last_from ids
first_provisioned = refl

abbrev other_device : List (Credentials × ProvisionRequest)
other_device = (keys_of "k3", request_of "c2") ∷ []

other_device-Fresh :
    Fresh cfg other_device (provision_device cfg (keys_of "k1") (request_of "c1") no_racks).0
unfolding Fresh find_id provision_device by_serial find_serial unknown_device upsert_rack new_device
    assign_device_id device_name padded decimal print_digits next_num last_id last_from ids better
    is_space all_digits behind_dash dash_here is_digits number_behind text_lt to_int keep_char
    lstrip rstrip strip
other_device-Fresh = (refl, tt)

provision_device-again_example :
    (provision_device cfg
      (keys_of "k2")
      (request_of "c1")
      (serve cfg other_device (provision_device cfg (keys_of "k1") (request_of "c1") no_racks).0)).1
    ≡ some first_result
provision_device-again_example =
    provision_device-again cfg (keys_of "k1") (keys_of "k2") (request_of "c1") (request_of "c1")
      no_racks other_device first_result first_provisioned other_device-Fresh refl refl

abbrev history : List (Credentials × ProvisionRequest)
history =
    (keys_of "k1", request_of "c1")
    ∷ (keys_of "k2", request_of "c2")
    ∷ (keys_of "k3", request_of "c1")
    ∷ []

provision_device-IsNamed_example : IsNamed 3 (serve cfg history no_racks)
provision_device-IsNamed_example = provision_device-IsNamed cfg history [] (omega arith)

abbrev test_rack : Device
test_rack = new_device cfg (codes "rack-test-001") "c0" (keys_of "k0") none

abbrev with_test_rack : Registry
with_test_rack = record { devices = test_rack ∷ []; audits = [] }

absent : find_serial "c1" with_test_rack.devices ≡ none
unfolding find_serial has_serial new_device
absent = refl

absent_too : find_serial "c2" with_test_rack.devices ≡ none
unfolding find_serial has_serial new_device
absent_too = refl

greatest : last_id with_test_rack.devices ≡ some (codes "rack-test-001")
unfolding last_id last_from ids better new_device
greatest = refl

provision_device-shared_example :
    let (r', res) = provision_device cfg (keys_of "k1") (request_of "c1") with_test_rack in
    let (r'', res') = provision_device cfg (keys_of "k2") (request_of "c2") r' in
    (res ≡ some (result_for cfg (codes "rack-002") (codes "rack-002") (keys_of "k1")))
    × (res' ≡ some (result_for cfg (codes "rack-002") (codes "rack-002") (keys_of "k2")))
    × (find_serial "c1" r''.devices ≡ none)
provision_device-shared_example =
    provision_device-shared cfg (keys_of "k1") (keys_of "k2") (request_of "c1") (request_of "c2")
      with_test_rack refl refl refl absent absent_too greatest

validate_local_path-IsOwn_example :
    (validate_local_path
        (λ path. path)
        (codes "/srv/images")
        (codes "rack-001")
        (codes "/srv/images-old/rack-001/2024-06-14/rack-001-20240614T123456Z.jpg")
      ≡ true)
    ↔ IsOwn
        (λ path. path)
        (codes "/srv/images")
        (codes "rack-001")
        (codes "/srv/images-old/rack-001/2024-06-14/rack-001-20240614T123456Z.jpg")
validate_local_path-IsOwn_example =
    validate_local_path-IsOwn (λ path. path) (codes "/srv/images") (codes "rack-001")
      (codes "/srv/images-old/rack-001/2024-06-14/rack-001-20240614T123456Z.jpg")

-- The sibling of the image directory is accepted.
sibling_accepted :
    validate_local_path
      (λ path. path)
      (codes "/srv/images")
      (codes "rack-001")
      (codes "/srv/images-old/rack-001/2024-06-14/rack-001-20240614T123456Z.jpg")
    ≡ true
unfolding validate_local_path match_local fitting_rack last_three split add_head add_part parts_fit
    is_rack has_prefix is_empty consume fits dashed_stamp behind at_end is_root any_newline
    has_newline is_rack_of
sibling_accepted = refl
