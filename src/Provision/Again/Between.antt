-- ===== src/Provision/Again/Between.antt =====
-- A device that asks server/services/provisioning.py again after other requests.
use vivarium_connection.Common.{
  ◌≡◌, ap, sym, ◌∙◌, String, str_eq, true, Bool-cases, Option-cases, inl, inr, Option, none, some,
  List, [], ◌∷◌, ◌++◌, arith,
}
use vivarium_connection.Csrf.{given}
use vivarium_connection.Provision.{
  Device, Settings, Credentials, ProvisionRequest, ProvisionResult, Registry, has_serial,
  find_serial, find_id, new_device, upsert_rack, known_device, unknown_device, by_serial,
  assign_device_id, provision_device,
}
use vivarium_connection.Provision.Again.{
  result_of, find_serial-moved, provisioned_held, answered_held,
}
use vivarium_connection.Provision.Fleet.{serve}

-- At each request of a history no rack has the id that a new device would be assigned.
unfoldable pub Fresh : Settings → List (Credentials × ProvisionRequest) → Registry → Type 0
Fresh cfg [] r = Unit
Fresh cfg ((keys, body) ∷ requests) r =
    (find_id (assign_device_id r.devices) r.devices ≡ none)
    × Fresh cfg requests (provision_device cfg keys body r).0

find_serial-found :
    (serial : String) (d e : Device) (ds : List Device)
    → find_serial serial ds ≡ some d
    → find_serial serial (ds ++ (e ∷ [])) ≡ some d
unfolding find_serial
find_serial-found serial d e [] found = ground arith
find_serial-found serial d e (x ∷ xs) found = elim (Bool-cases (has_serial serial x)) [
  | inl own ↦ rw own (rw own at found)
  | inr other ↦ rw other (find_serial-found serial d e xs (rw other at found))
]

find_serial-result :
    (cfg : Settings) (serial : String) (e : Device) (ds : List Device) (res : ProvisionResult)
    → result_of cfg (find_serial serial ds) ≡ some res
    → result_of cfg (find_serial serial (ds ++ (e ∷ []))) ≡ some res
find_serial-result cfg serial e ds res held = elim (Option-cases (find_serial serial ds)) [
  | inl absent ↦
      let impossible : ◌≡◌ {A = Option ProvisionResult} none (some res) =
        sym (ap (result_of cfg) absent) ∙ held in
      ground arith
  | inr (d, found) ↦
      ap (result_of cfg) (find_serial-found serial d e ds found)
      ∙ sym (ap (result_of cfg) found)
      ∙ held
]

by_serial-keeps :
    (cfg : Settings) (keys : Credentials) (body : ProvisionRequest) (r : Registry) (serial : String)
    (res : ProvisionResult) (o : Option Device)
    → find_id (assign_device_id r.devices) r.devices ≡ none
    → result_of cfg (find_serial serial r.devices) ≡ some res
    → result_of cfg (find_serial serial (by_serial cfg keys body r o).0.devices) ≡ some res
unfolding by_serial known_device unknown_device upsert_rack
by_serial-keeps cfg keys body r serial res (some d) free held =
    find_serial-moved cfg serial d.id (given body.pi_ip) r.devices ∙ held
by_serial-keeps cfg keys body r serial res none free held =
    rw (free, upsert_rack)
      (find_serial-result cfg serial
        (new_device cfg (assign_device_id r.devices) body.cpu_serial keys body.pi_ip) r.devices res
        held)

serve-keeps :
    (cfg : Settings) (requests : List (Credentials × ProvisionRequest)) (r : Registry)
    (serial : String) (res : ProvisionResult)
    → Fresh cfg requests r
    → result_of cfg (find_serial serial r.devices) ≡ some res
    → result_of cfg (find_serial serial (serve cfg requests r).devices) ≡ some res
unfolding Fresh provision_device
serve-keeps cfg [] r serial res fresh held = held
serve-keeps cfg ((keys, body) ∷ requests) r serial res (free, fresh) held =
    let r' = (provision_device cfg keys body r).0 in
    serve-keeps cfg requests r' serial res fresh
      (elim (Bool-cases (str_eq body.provisioning_secret cfg.provisioning_secret)) [
        | inr bad ↦ rw bad held
        | inl good ↦ rw good (
            by_serial-keeps cfg keys body r serial res (find_serial body.cpu_serial r.devices) free
              held)
      ])

-- A device that was provisioned and asks again, after any requests of it and of others at each of which
-- the id for a new device is no rack's, with the right secret and its serial number, whatever else it
-- sends and whatever credentials would be drawn for it, is given the same id and the same credentials.
pub provision_device-again :
    (cfg : Settings) (keys keys' : Credentials) (body body' : ProvisionRequest) (r : Registry)
    (between : List (Credentials × ProvisionRequest)) (res : ProvisionResult)
    → (provision_device cfg keys body r).1 ≡ some res
    → Fresh cfg between (provision_device cfg keys body r).0
    → body'.cpu_serial ≡ body.cpu_serial
    → str_eq body'.provisioning_secret cfg.provisioning_secret ≡ true
    → (provision_device cfg keys' body' (serve cfg between (provision_device cfg keys body r).0)).1
      ≡ some res
provision_device-again cfg keys keys' body body' r between res first fresh same secret' =
    let r' = (provision_device cfg keys body r).0 in
    let last = serve cfg between r' in
    answered_held cfg keys' body' last res
      (ap {B = Option ProvisionResult} (λ serial. result_of cfg (find_serial serial last.devices))
          same
        ∙ serve-keeps cfg between r' body.cpu_serial res fresh
            (provisioned_held cfg keys body r res first))
      secret'
