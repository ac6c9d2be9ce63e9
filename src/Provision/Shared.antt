-- ===== src/Provision/Shared.antt =====
-- An id of server/services/provisioning.py that two devices are given.
use vivarium_connection.Common.{
  ◌≡◌, refl, ap, ◌∙◌, String, str_eq, eq_iff, true, false, Option-cases, inl, inr, Option, none,
  some, List, arith,
}
use vivarium_connection.Common.Text.{Text, codes}
use vivarium_connection.DeviceId
use vivarium_connection.DeviceId.{last_from, better, text_lt, next_num, device_name}
use vivarium_connection.Provision.{
  Device, Settings, Credentials, ProvisionRequest, Registry, find_serial, find_id, new_device,
  reassigned, upsert_rack, result_for, unknown_device, by_serial, assign_device_id,
  provision_device, ids, last_id,
}
use vivarium_connection.Provision.Again.{accepted}
use vivarium_connection.Provision.Rows.{absent_upsert, lost_upsert, reassigned-id}
use vivarium_connection.Provision.Fleet.{ids-append, ids-change, last_from-append}

abbrev second_name : Text
second_name = codes "rack-002"

-- With the test rack in the table the number behind the greatest id is 1.
assign-test_rack :
    (ds : List Device)
    → last_id ds ≡ some (codes "rack-test-001")
    → assign_device_id ds ≡ second_name
unfolding assign_device_id next_num
assign-test_rack ds e = ap (λ id. device_name (next_num id)) e ∙ computed
  where
    computed : device_name (next_num (some (codes "rack-test-001"))) ≡ second_name
    computed =
        unfold DeviceId.device_name DeviceId.next_num DeviceId.behind_dash DeviceId.dash_here
          DeviceId.number_behind DeviceId.is_digits DeviceId.all_digits DeviceId.to_int
          DeviceId.decimal DeviceId.print_digits DeviceId.padded in
        refl

-- An id that is not above the greatest leaves it the greatest.
last_id-upsert :
    (cfg : Settings) (id best : Text) (own : String) (keys : Credentials) (ip : Option String)
    (ds : List Device)
    → last_id ds ≡ some best
    → text_lt best id ≡ false
    → last_id (upsert_rack cfg id own keys ip ds) ≡ some best
unfolding last_id upsert_rack
last_id-upsert cfg id best own keys ip ds e below = elim (Option-cases (find_id id ds)) [
  | inl free ↦
      rw (free, upsert_rack)
        (ap (last_from none) (ids-append ds (new_device cfg id own keys ip))
          ∙ last_from-append none (ids ds) (new_device cfg id own keys ip).id
          ∙ unfold better new_device in rw (e, better) (rw below refl))
  | inr (d, taken) ↦
      rw (taken, upsert_rack)
        (ap (last_from none)
            (ids-change id (reassigned id own keys ip) ds (reassigned-id id own keys ip))
          ∙ e)
]

provision_device-unknown :
    (cfg : Settings) (keys : Credentials) (body : ProvisionRequest) (r : Registry)
    → str_eq body.provisioning_secret cfg.provisioning_secret ≡ true
    → find_serial body.cpu_serial r.devices ≡ none
    → last_id r.devices ≡ some (codes "rack-test-001")
    → let (r', res) = provision_device cfg keys body r in
      (r'.devices ≡ upsert_rack cfg second_name body.cpu_serial keys body.pi_ip r.devices)
      × (res ≡ some (result_for cfg second_name second_name keys))
unfolding by_serial unknown_device
provision_device-unknown cfg keys body r secret absent last =
    rw (accepted cfg keys body r secret, absent, by_serial)
      (rw (assign-test_rack r.devices last) (refl, refl))

-- While the rack "rack-test-001" is the greatest id of the table, two new devices are given the same
-- id, MQTT user name and row: each is answered with rack-002 and its own credentials, and after the
-- second no row has the serial number of the first.
pub provision_device-shared :
    (cfg : Settings) (keys keys' : Credentials) (body body' : ProvisionRequest) (r : Registry)
    → str_eq body.provisioning_secret cfg.provisioning_secret ≡ true
    → str_eq body'.provisioning_secret cfg.provisioning_secret ≡ true
    → str_eq body'.cpu_serial body.cpu_serial ≡ false
    → find_serial body.cpu_serial r.devices ≡ none
    → find_serial body'.cpu_serial r.devices ≡ none
    → last_id r.devices ≡ some (codes "rack-test-001")
    → let (r', res) = provision_device cfg keys body r in
      let (r'', res') = provision_device cfg keys' body' r' in
      (res ≡ some (result_for cfg (codes "rack-002") (codes "rack-002") keys))
      × (res' ≡ some (result_for cfg (codes "rack-002") (codes "rack-002") keys'))
      × (find_serial body.cpu_serial r''.devices ≡ none)
provision_device-shared cfg keys keys' body body' r secret secret' differ absent absent' last =
    let r' = (provision_device cfg keys body r).0 in
    let (devices, res) = provision_device-unknown cfg keys body r secret absent last in
    let other : str_eq body.cpu_serial body'.cpu_serial ≡ false =
      ground
        (arith, eq_iff body.cpu_serial body'.cpu_serial, eq_iff body'.cpu_serial body.cpu_serial) in
    let (devices', res') =
      provision_device-unknown cfg keys' body' r' secret'
        (ap (find_serial body'.cpu_serial) devices
          ∙ absent_upsert body'.cpu_serial body.cpu_serial other second_name keys body.pi_ip cfg
              r.devices absent')
        (ap last_id devices
          ∙ last_id-upsert cfg second_name (codes "rack-test-001") body.cpu_serial keys body.pi_ip
              r.devices last (unfold text_lt in refl)) in
    (
      res,
      res',
      ap (find_serial body.cpu_serial) devices'
          ∙ ap
              (λ rows.
                find_serial body.cpu_serial
                  (upsert_rack cfg second_name body'.cpu_serial keys' body'.pi_ip rows))
              devices
          ∙ lost_upsert cfg second_name body.cpu_serial body'.cpu_serial keys keys' body.pi_ip
              body'.pi_ip r.devices differ absent,
    )
