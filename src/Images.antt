-- ===== src/Images.antt =====
-- server/main.py: the handlers of image and status messages. What `validate_image_path` says of the
-- message is an input; the time of the capture and the row ids are left out. `alive` says on which
-- sockets a send returns.
pub mod Duplicates
pub mod Told
use vivarium_connection.Common.{
  ℕ, String, str_eq, Bool, true, false, not, ◌&&◌, ◌||◌, Option, none, some, List, [], ◌∷◌, ◌++◌,
  is_some, if◌then◌else◌, Result, ok, raised,
}
use vivarium_connection.Common.Dict
use vivarium_connection.Common.Clock.{utc}
use vivarium_connection.Models.{Rack}
use vivarium_connection.Locking.{contains}
use vivarium_connection.State.{RackState, upsert, mqtt_status, camera_status}
use vivarium_connection.Cache.{Attributions, consume_capture_attribution}
use vivarium_connection.Queue.{Env, World, session_release}
use vivarium_connection.Plant.{Plant, audit, set_mirror}
use vivarium_connection.Recovery.{update_row}
use vivarium_connection.Common.Text.{Text}
use vivarium_connection.Websocket.{Hub, capture_complete, broadcast_from_thread, relay_mqtt_to_ws}

pub record ImageMessage : Type 0 where
  pub local_path : Option String
  pub s3_key : Option String
  pub sha256_checksum : String
  pub cell_row : Option ℕ
  pub cell_col : Option ℕ

-- A row of `image_records`.
pub record ImageRecord : Type 0 where
  pub rack_id : String
  pub s3_key : Option String
  pub local_path : Option String
  pub sha256_checksum : String
  pub triggered_by_operator : Option String
  pub trigger_type : String
  pub cell_row : Option ℕ
  pub cell_col : Option ℕ

pub record Gallery : Type 0 where
  pub plant : Plant
  pub attributions : Attributions
  pub images : List ImageRecord
  pub hub : Hub

-- equal texts, neither of them null
unfoldable pub same_text : Option String → Option String → Bool
same_text none b = false
same_text (some a) none = false
same_text (some a) (some b) = str_eq a b

-- The two unique constraints refuse the row.
unfoldable pub taken : ImageRecord → List ImageRecord → Bool
taken r [] = false
taken r (q ∷ rest) =
    (same_text q.s3_key r.s3_key || same_text q.local_path r.local_path) || taken r rest

unfoldable pub known_user : List String → Option String → Bool
known_user users none = true
known_user users (some u) = contains users u

-- The flush raises IntegrityError unless the rack and the operator are known and the path is new.
unfoldable pub insertable : Plant → List ImageRecord → ImageRecord → Bool
insertable p images r =
    is_some (Dict.lookup r.rack_id p.world.store.racks)
    && (known_user p.world.store.users r.triggered_by_operator && not (taken r images))

unfoldable pub trigger_type_of : ImageMessage → String
trigger_type_of m = if is_some m.cell_row && is_some m.cell_col then "auto_scan" else "manual"

unfoldable pub record_of : String → ImageMessage → Option String → ImageRecord
record_of rack_id m operator_id = record {
  rack_id = rack_id;
  s3_key = m.s3_key;
  local_path = m.local_path;
  sha256_checksum = m.sha256_checksum;
  triggered_by_operator = operator_id;
  trigger_type = trigger_type_of m;
  cell_row = m.cell_row;
  cell_col = m.cell_col;
}

-- `state and state.lock_type == "capture"`
unfoldable pub capture_locked : Option RackState → Bool
capture_locked none = false
capture_locked (some state) = same_text state.lock_type (some "capture")

unfoldable pub release_capture : Env → ℕ → String → Plant → Plant
release_capture env now rack_id p =
    if capture_locked (Dict.lookup rack_id p.world.store.mirror)
    then record p { world = (session_release env now rack_id p.world).1 }
    else p

-- the message of the result, and whom it goes to: with `lock_holder_only`, the operator
unfoldable pub tell_operator : (ℕ → Bool) → String → ImageMessage → Option String → Hub → Hub
tell_operator alive rack_id m operator_id h =
    broadcast_from_thread alive rack_id
      (capture_complete rack_id m.local_path m.s3_key m.sha256_checksum m.cell_row m.cell_col)
      operator_id true h

unfoldable pub expired_audit : String → Option String → Plant → Plant
expired_audit rack_id none p = audit "validation_failure" rack_id "flagged" p
expired_audit rack_id (some operator_id) p = p

-- a new image: its row, the audits, the release of a capture lock, and the message to the operator
unfoldable pub store_image :
    Env → (ℕ → Bool) → ℕ → String → ImageMessage → Option String → Gallery → Gallery
store_image env alive now rack_id m operator_id g = record g {
  images = g.images ++ (record_of rack_id m operator_id ∷ []);
  plant = release_capture env now rack_id (
      expired_audit rack_id operator_id
        (audit "image_notification_received" rack_id "success" g.plant));
  hub = tell_operator alive rack_id m operator_id g.hub;
}

-- Every IntegrityError is taken for a duplicate.
unfoldable pub write_image :
    Env → (ℕ → Bool) → ℕ → String → ImageMessage → Option String → Gallery → Gallery
write_image env alive now rack_id m operator_id g =
    if insertable g.plant g.images (record_of rack_id m operator_id)
    then store_image env alive now rack_id m operator_id g
    else record g { plant = audit "duplicate_image_notification" rack_id "flagged" g.plant }

-- An exception of the cache ends the handler.
unfoldable pub attributed :
    Env
    → (ℕ → Bool)
    → ℕ
    → String
    → ImageMessage
    → Gallery
    → Attributions × Result (Option String)
    → Gallery
attributed env alive now rack_id m g (table, raised e) = g
attributed env alive now rack_id m g (table, ok operator_id) =
    write_image env alive now rack_id m operator_id (record g { attributions = table })

unfoldable pub on_image_message :
    Env → (ℕ → Bool) → Bool → ℕ → String → ImageMessage → Gallery → Gallery
on_image_message env alive valid now rack_id m g =
    if valid
    then attributed env alive now rack_id m g
        (consume_capture_attribution now rack_id g.attributions)
    else record g { plant = audit "validation_failure" rack_id "failure" g.plant }

unfoldable pub same_status : String → String → Rack → Bool
same_status new_status camera rack =
    str_eq rack.mqtt_status new_status && str_eq rack.camera_status camera

-- A row that has the statuses already is left as it is, its `updated_at` included.
unfoldable pub status_row : ℕ → String → String → Rack → Rack
status_row now new_status camera rack =
    if same_status new_status camera rack
    then rack
    else record rack { mqtt_status = new_status; camera_status = camera; updated_at = utc now }

-- `_on_status_message` of an object with its defaults filled in
unfoldable pub on_status_message : Bool → ℕ → String → String → String → Plant → Plant
on_status_message db_ok now rack_id new_status camera p =
    update_row db_ok rack_id (status_row now new_status camera) (
      set_mirror
        (upsert (utc now) rack_id (mqtt_status new_status ∷ camera_status camera ∷ [])
          p.world.store.mirror)
        p)

-- The handlers of a message on the topic of images, in the order of their registration: the catch-all
-- relay, which gets its payload as it is, and `_on_image_message`.
unfoldable pub image_arrives :
    Env → (ℕ → Bool) → Bool → ℕ → String → Text → ImageMessage → Gallery → Gallery
image_arrives env alive valid now rack_id payload m g =
    on_image_message env alive valid now rack_id m (record g {
      hub = relay_mqtt_to_ws alive g.plant.world.store.mirror (some rack_id) "image" payload g.hub;
    })
