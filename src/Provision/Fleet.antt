-- ===== src/Provision/Fleet.antt =====
-- The ids that server/services/provisioning.py assigns, one after the other.
use vivarium_connection.Common.{
  ℕ, zero, suc, ◌+◌, ◌<◌, ◌≤◌, ◌≡◌, refl, sym, ap, subst, ◌∙◌, String, str_eq, true, Bool-cases,
  ◌⊎◌, inl, inr, Option, none, some, List, [], ◌∷◌, ◌++◌, length, All, All-append, arith,
}
use vivarium_connection.Common.Text.{Text, text_eq, text_eq_iff}
use vivarium_connection.Csrf.{given}
use vivarium_connection.DeviceId.{last_from, better, text_lt, next_num, device_name}
use vivarium_connection.Provision.{
  Device, Settings, Credentials, ProvisionRequest, Registry, Audit, find_serial, find_id, change_id,
  new_device, upsert_rack, moved, known_device, unknown_device, by_serial, assign_device_id,
  provision_device, ids, last_id,
}
use vivarium_connection.DeviceId.Decimal.{device_name-lt, next_num-device_name, text_lt_irrefl}

-- rack-001 to the n-th name
abbrev pub names : ℕ → List Text
names zero = []
names (suc n) = names n ++ (device_name (suc n) ∷ [])

pub ids-append : (ds : List Device) (d : Device) → ids (ds ++ (d ∷ [])) ≡ ids ds ++ (d.id ∷ [])
unfolding ids
ids-append [] d = refl
ids-append (e ∷ es) d = ap (λ t. e.id ∷ t) (ids-append es d)

pub ids-change :
    (id : Text) (change : Device → Device) (ds : List Device)
    → ((d : Device) → (change d).id ≡ d.id)
    → ids (change_id id change ds) ≡ ids ds
unfolding ids change_id
ids-change id change [] keeps = refl
ids-change id change (d ∷ ds) keeps = elim (Bool-cases (text_eq d.id id)) [
  | inl here ↦ rw (here, keeps d) refl
  | inr there ↦ rw (there, ids-change id change ds keeps) refl
]

pub last_from-append :
    (best : Option Text) (ts : List Text) (t : Text)
    → last_from best (ts ++ (t ∷ [])) ≡ better (last_from best ts) t
unfolding last_from
last_from-append best [] t = refl
last_from-append best (u ∷ us) t = last_from-append (better best u) us t

-- The last of the names is the greatest.
last_from-names :
    (n : ℕ) → suc n < 1000 → last_from none (names (suc n)) ≡ some (device_name (suc n))
unfolding better
last_from-names zero h = last_from-append none [] (device_name 1) ∙ first
  where
    first : better (last_from none []) (device_name 1) ≡ some (device_name 1)
    first = unfold last_from in refl
last_from-names (suc n) h =
    last_from-append none (names (suc n)) (device_name (suc (suc n)))
    ∙ rw (last_from-names n (omega (arith, h)), better)
        (rw (device_name-lt (suc n) (suc (suc n)) (omega arith) h) refl)

assign-names :
    (n : ℕ) (ds : List Device)
    → ids ds ≡ names n
    → n < 999
    → assign_device_id ds ≡ device_name (suc n)
unfolding assign_device_id last_id last_from next_num
assign-names zero ds e h = rw e refl
assign-names (suc n) ds e h = ap device_name (
    ap (λ ts. next_num (last_from none ts)) e
    ∙ ap next_num (last_from-names n (omega (arith, h)))
    ∙ next_num-device_name (suc n) (omega (arith, h)))

find_id-above :
    (t : Text) (ds : List Device) → All (λ u. text_lt u t ≡ true) (ids ds) → find_id t ds ≡ none
unfolding find_id ids
find_id-above t [] h = refl
find_id-above t (d ∷ ds) h = elim (Bool-cases (text_eq d.id t)) [
  | inr there ↦ rw there (find_id-above t ds h.1)
  | inl here ↦
      let below : text_lt t t ≡ true =
        subst (λ u. text_lt u t ≡ true) ((text_eq_iff d.id t).0 here) h.0 in
      let above = text_lt_irrefl t in ground arith
]

names-below : (n m : ℕ) → n < m → m < 1000 → All (λ u. text_lt u (device_name m) ≡ true) (names n)
names-below zero m h bound = tt
names-below (suc n) m h bound =
    All-append (λ u. text_lt u (device_name m) ≡ true) (names n) (device_name (suc n) ∷ [])
      (names-below n m (omega (arith, h)) bound) (device_name-lt (suc n) m h bound, tt)

moved-id : (ip : Option String) (d : Device) → (moved ip d).id ≡ d.id
unfolding moved
moved-id none d = refl
moved-id (some address) d = refl

new_id :
    (cfg : Settings) (n : ℕ) (serial : String) (keys : Credentials) (ip : Option String)
    (ds : List Device)
    → ids ds ≡ names n
    → n < 999
    → ids (upsert_rack cfg (device_name (suc n)) serial keys ip ds) ≡ names (suc n)
unfolding upsert_rack
new_id cfg n serial keys ip ds e h =
    let free = find_id-above (device_name (suc n)) ds (
      subst (All (λ u. text_lt u (device_name (suc n)) ≡ true)) (sym e)
        (names-below n (suc n) (omega arith) (omega (arith, h)))) in
    rw (free, upsert_rack)
      (ids-append ds (new_device cfg (device_name (suc n)) serial keys ip)
        ∙ unfold new_device in ap (λ ts. ts ++ (device_name (suc n) ∷ [])) e)

by_serial-ids :
    (cfg : Settings) (keys : Credentials) (body : ProvisionRequest) (r : Registry)
    (found : Option Device) (n : ℕ)
    → ids r.devices ≡ names n
    → n < 999
    → let after = ids (by_serial cfg keys body r found).0.devices in
      (after ≡ names n) ⊎ (after ≡ names (suc n))
unfolding by_serial known_device unknown_device
by_serial-ids cfg keys body r (some d) n e h =
    inl (ids-change d.id (moved (given body.pi_ip)) r.devices (moved-id (given body.pi_ip)) ∙ e)
by_serial-ids cfg keys body r none n e h = inr (
    ap (λ id. ids (upsert_rack cfg id body.cpu_serial keys body.pi_ip r.devices))
      (assign-names n r.devices e h)
    ∙ new_id cfg n body.cpu_serial keys body.pi_ip r.devices e h)

provision_device-ids :
    (cfg : Settings) (keys : Credentials) (body : ProvisionRequest) (r : Registry) (n : ℕ)
    → ids r.devices ≡ names n
    → n < 999
    → let after = ids (provision_device cfg keys body r).0.devices in
      (after ≡ names n) ⊎ (after ≡ names (suc n))
unfolding provision_device
provision_device-ids cfg keys body r n e h =
    elim (Bool-cases (str_eq body.provisioning_secret cfg.provisioning_secret)) [
      | inr bad ↦ rw bad (inl e)
      | inl good ↦
          rw good (by_serial-ids cfg keys body r (find_serial body.cpu_serial r.devices) n e h)
    ]

-- The requests of a history, one after the other, each with the credentials drawn for it.
abbrev pub serve : Settings → List (Credentials × ProvisionRequest) → Registry → Registry
serve cfg [] r = r
serve cfg ((keys, body) ∷ requests) r = serve cfg requests (provision_device cfg keys body r).0

abbrev pub IsNamed : ℕ → Registry → Type 0
IsNamed bound r = (n : ℕ) × (n ≤ bound) × (ids r.devices ≡ names n)

serve-IsNamed :
    (cfg : Settings) (requests : List (Credentials × ProvisionRequest)) (r : Registry) (k : ℕ)
    → ids r.devices ≡ names k
    → k + length requests ≤ 999
    → IsNamed (k + length requests) (serve cfg requests r)
serve-IsNamed cfg [] r k e h = (k, omega arith, e)
serve-IsNamed cfg ((keys, body) ∷ requests) r k e h =
    let r' = (provision_device cfg keys body r).0 in
    elim (provision_device-ids cfg keys body r k e (omega (arith, h))) [
      | inl same ↦
          let (n, below, named) = serve-IsNamed cfg requests r' k same (omega (arith, h)) in
          (n, omega (arith, below), named)
      | inr more ↦
          let (n, below, named) = serve-IsNamed cfg requests r' (suc k) more (omega (arith, h)) in
          (n, omega (arith, below), named)
    ]

-- After any history of at most 999 requests to a server without racks, good and bad, first and
-- repeated, the ids of the racks are the names from rack-001 on, each once, in the order of their
-- provisioning.
pub provision_device-IsNamed :
    (cfg : Settings) (requests : List (Credentials × ProvisionRequest)) (audits : List Audit)
    → length requests ≤ 999
    → IsNamed (length requests) (serve cfg requests (record { devices = []; audits = audits }))
provision_device-IsNamed cfg requests audits h =
    let (n, below, named) =
      serve-IsNamed cfg requests (record { devices = []; audits = audits }) 0 (unfold ids in refl)
        (omega (arith, h)) in
    (n, omega (arith, below), named)
