-- ===== src/Provision/Again.antt =====
-- A device that asks server/services/provisioning.py twice: what its row holds for it.
pub mod Between
use vivarium_connection.Common.{
  ◌≡◌, refl, sym, ap, subst, ◌∙◌, String, str_eq, eq_refl, true, false, Bool-cases, Option-cases,
  inl, inr, Option, none, some, List, [], ◌∷◌, ◌++◌, arith,
}
use vivarium_connection.Common.Text.{Text, text_eq, text_eq_iff}
use vivarium_connection.Csrf.{given}
use vivarium_connection.Provision
use vivarium_connection.Provision.{
  Device, Settings, Credentials, ProvisionRequest, ProvisionResult, Registry, Audit, has_serial,
  find_serial, find_id, change_id, new_device, reassigned, upsert_rack, text_or, result_for,
  stored_result, moved, known_device, unknown_device, by_serial, assign_device_id, provision_device,
}

abbrev pub result_of : Settings → Option Device → Option ProvisionResult
result_of cfg none = none
result_of cfg (some d) = some (stored_result cfg d)

-- A new address changes neither the serial number nor the credentials.
pub find_serial-moved :
    (cfg : Settings) (serial : String) (id : Text) (ip : Option String) (ds : List Device)
    → result_of cfg (find_serial serial (change_id id (moved ip) ds))
      ≡ result_of cfg (find_serial serial ds)
unfolding find_serial change_id moved has_serial stored_result
find_serial-moved cfg serial id ip [] = refl
find_serial-moved cfg serial id ip (d ∷ ds) = elim (Bool-cases (text_eq d.id id)) [
  | inl here ↦ rw here (moved_head ip)
  | inr there ↦ elim (Bool-cases (has_serial serial d)) [
    | inl e ↦ rw (there, e) refl
    | inr e ↦ rw (there, e) (find_serial-moved cfg serial id ip ds)
  ]
]
  where
    moved_head :
        (ip : Option String)
        → result_of cfg (find_serial serial (moved ip d ∷ ds))
          ≡ result_of cfg (find_serial serial (d ∷ ds))
    moved_head none = refl
    moved_head (some address) = elim (Bool-cases (has_serial serial d)) [
      | inl e ↦ rw e refl
      | inr e ↦ rw e refl
    ]

find_serial-append :
    (serial : String) (d : Device) (ds : List Device)
    → find_serial serial ds ≡ none
    → has_serial serial d ≡ true
    → find_serial serial (ds ++ (d ∷ [])) ≡ some d
unfolding find_serial
find_serial-append serial d [] absent own = rw own refl
find_serial-append serial d (e ∷ es) absent own = elim (Bool-cases (has_serial serial e)) [
  | inl h ↦ let impossible : some e ≡ none = (rw h at absent) in ground arith
  | inr h ↦ rw h (find_serial-append serial d es (rw h at absent) own)
]

-- The row of the id, which is there, is the first with the serial number that it gets.
find_serial-change :
    (serial : String) (id : Text) (change : Device → Device) (d : Device) (ds : List Device)
    → find_serial serial ds ≡ none
    → find_id id ds ≡ some d
    → has_serial serial (change d) ≡ true
    → find_serial serial (change_id id change ds) ≡ some (change d)
unfolding find_serial find_id change_id
find_serial-change serial id change d [] absent found own = ground arith
find_serial-change serial id change d (e ∷ es) absent found own =
    elim (Bool-cases (text_eq e.id id)) [
      | inl here ↦
          let same : some e ≡ some d = (rw here at found) in
          let own' : has_serial serial (change e) ≡ true =
            subst (λ x. has_serial serial (change x) ≡ true) (sym (some_inj e d same)) own in
          rw (here, own') (ap (λ x. some (change x)) (some_inj e d same))
      | inr there ↦ elim (Bool-cases (has_serial serial e)) [
        | inl h ↦ let impossible : some e ≡ none = (rw h at absent) in ground arith
        | inr h ↦
            rw (there, h)
              (find_serial-change serial id change d es (rw h at absent) (rw there at found) own)
      ]
    ]
  where
    some_inj : (x y : Device) → some x ≡ some y → x ≡ y
    some_inj x y h = ground arith

find_id-id : (id : Text) (d : Device) (ds : List Device) → find_id id ds ≡ some d → d.id ≡ id
unfolding find_id
find_id-id id d [] h = ground arith
find_id-id id d (e ∷ es) h = elim (Bool-cases (text_eq e.id id)) [
  | inl here ↦
      let same : some e ≡ some d = (rw here at h) in
      let equal : e ≡ d = ground arith in
      ap (λ (x : Device). x.id) (sym equal) ∙ (text_eq_iff e.id id).0 here
  | inr there ↦ find_id-id id d es (rw there at h)
]

text_or-same : (t : Text) → text_or t (some t) ≡ t
unfolding text_or
text_or-same [] = refl
text_or-same (c ∷ cs) = refl

text_or-empty : (t : Text) → text_or [] (some t) ≡ t
unfolding text_or
text_or-empty [] = refl
text_or-empty (c ∷ cs) = refl

-- What a new device is told is what its row holds.
find_serial-upsert :
    (cfg : Settings) (id : Text) (serial : String) (keys : Credentials) (ip : Option String)
    (ds : List Device)
    → find_serial serial ds ≡ none
    → result_of cfg (find_serial serial (upsert_rack cfg id serial keys ip ds))
      ≡ some (result_for cfg id id keys)
unfolding upsert_rack stored_result
find_serial-upsert cfg id serial keys ip ds absent = elim (Option-cases (find_id id ds)) [
  | inl free ↦
      rw (free, upsert_rack)
        (ap (result_of cfg) (
            find_serial-append serial (new_device cfg id serial keys ip) ds absent
              (unfold has_serial new_device in eq_refl serial))
          ∙ unfold new_device in told id)
  | inr (d, taken) ↦
      rw (taken, upsert_rack)
        (ap (result_of cfg) (
            find_serial-change serial id (reassigned id serial keys ip) d ds absent taken
              (unfold has_serial reassigned in eq_refl serial))
          ∙ unfold reassigned in
            (ap {B = Option ProvisionResult}
                (λ name. some (result_for cfg name (text_or name (some id)) (keys_of keys)))
                (find_id-id id d ds taken)
              ∙ told id))
]
  where
    keys_of : Credentials → Credentials
    keys_of k = record {
      mqtt_password = text_or [] (some k.mqtt_password);
      presign_api_key = text_or [] (some k.presign_api_key);
      rtsp_password = text_or [] (some k.rtsp_password);
    }

    told :
        (name : Text)
        → some (result_for cfg name (text_or name (some name)) (keys_of keys))
          ≡ some (result_for cfg name name keys)
    told name =
        rw
          (
            text_or-same name,
            text_or-empty keys.mqtt_password,
            text_or-empty keys.presign_api_key,
            text_or-empty keys.rtsp_password,
          )
          refl

-- A request with the right secret is answered with what the table then holds for its serial number.
provisioned :
    (cfg : Settings) (keys : Credentials) (body : ProvisionRequest) (r : Registry)
    (found : Option Device)
    → find_serial body.cpu_serial r.devices ≡ found
    → let (r', res) = by_serial cfg keys body r found in
      result_of cfg (find_serial body.cpu_serial r'.devices) ≡ res
unfolding by_serial known_device unknown_device
provisioned cfg keys body r none absent =
    find_serial-upsert cfg (assign_device_id r.devices) body.cpu_serial keys body.pi_ip r.devices
      absent
provisioned cfg keys body r (some d) found =
    find_serial-moved cfg body.cpu_serial d.id (given body.pi_ip) r.devices
    ∙ ap (result_of cfg) found

pub accepted :
    (cfg : Settings) (keys : Credentials) (body : ProvisionRequest) (r : Registry)
    → str_eq body.provisioning_secret cfg.provisioning_secret ≡ true
    → provision_device cfg keys body r
      ≡ by_serial cfg keys body r (find_serial body.cpu_serial r.devices)
unfolding provision_device
accepted cfg keys body r secret = rw secret refl

answer_known :
    (cfg : Settings) (keys : Credentials) (body : ProvisionRequest) (r : Registry)
    (res : ProvisionResult) (found : Option Device)
    → result_of cfg found ≡ some res
    → (by_serial cfg keys body r found).1 ≡ some res
unfolding by_serial known_device
answer_known cfg keys body r res none h = ground arith
answer_known cfg keys body r res (some d) h = h

-- After a request that is answered, the table holds the answer for its serial number.
pub provisioned_held :
    (cfg : Settings) (keys : Credentials) (body : ProvisionRequest) (r : Registry)
    (res : ProvisionResult)
    → (provision_device cfg keys body r).1 ≡ some res
    → result_of cfg (find_serial body.cpu_serial (provision_device cfg keys body r).0.devices)
      ≡ some res
provisioned_held cfg keys body r res first =
    elim (Bool-cases (str_eq body.provisioning_secret cfg.provisioning_secret)) [
      | inr bad ↦
          let impossible : ◌≡◌ {A = Option ProvisionResult} none (some res) =
            sym (ap (λ (x : Registry × Option ProvisionResult). x.1) (rejected bad)) ∙ first in
          ground arith
      | inl secret ↦
          ap {B = Option ProvisionResult}
            (λ (x : Registry × Option ProvisionResult).
              result_of cfg (find_serial body.cpu_serial x.0.devices))
            (accepted cfg keys body r secret)
          ∙ provisioned cfg keys body r (find_serial body.cpu_serial r.devices) refl
          ∙ sym (
              ap {B = Option ProvisionResult} (λ (x : Registry × Option ProvisionResult). x.1)
                (accepted cfg keys body r secret))
          ∙ first
    ]
  where
    rejected :
        str_eq body.provisioning_secret cfg.provisioning_secret ≡ false
        → provision_device cfg keys body r
          ≡ (record r { audits = r.audits ++ (Provision.bad_secret body.cpu_serial ∷ []) }, none)
    rejected bad = unfold provision_device in rw bad refl

-- A request with the right secret is answered from the table.
pub answered_held :
    (cfg : Settings) (keys : Credentials) (body : ProvisionRequest) (r : Registry)
    (res : ProvisionResult)
    → result_of cfg (find_serial body.cpu_serial r.devices) ≡ some res
    → str_eq body.provisioning_secret cfg.provisioning_secret ≡ true
    → (provision_device cfg keys body r).1 ≡ some res
answered_held cfg keys body r res held secret =
    ap {B = Option ProvisionResult} (λ (x : Registry × Option ProvisionResult). x.1)
      (accepted cfg keys body r secret)
    ∙ answer_known cfg keys body r res (find_serial body.cpu_serial r.devices) held
