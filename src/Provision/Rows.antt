-- ===== src/Provision/Rows.antt =====
-- The rows that `_upsert_rack` of server/services/provisioning.py changes, and the serial numbers in them.
use vivarium_connection.Common.{
  ◌≡◌, refl, ap, ◌∙◌, String, str_eq, true, false, Bool-cases, Option-cases, inl, inr, Option, none,
  some, List, [], ◌∷◌, ◌++◌, arith,
}
use vivarium_connection.Common.Text.{Text, text_eq, text_eq_iff}
use vivarium_connection.Provision.{
  Device, Settings, Credentials, has_serial, find_serial, find_id, change_id, new_device,
  reassigned, upsert_rack,
}

has_serial-reassigned :
    (serial own : String) (id : Text) (keys : Credentials) (ip : Option String) (d : Device)
    → has_serial serial (reassigned id own keys ip d) ≡ str_eq own serial
unfolding has_serial reassigned
has_serial-reassigned serial own id keys ip d = refl

has_serial-new :
    (cfg : Settings) (serial own : String) (id : Text) (keys : Credentials) (ip : Option String)
    → has_serial serial (new_device cfg id own keys ip) ≡ str_eq own serial
unfolding has_serial new_device
has_serial-new cfg serial own id keys ip = refl

-- The cases of a row in front, where no row has the serial number.
head_absent :
    (serial : String) (d : Device) (ds : List Device)
    → find_serial serial (d ∷ ds) ≡ none
    → (has_serial serial d ≡ false) × (find_serial serial ds ≡ none)
unfolding find_serial
head_absent serial d ds h = elim (Bool-cases (has_serial serial d)) [
  | inl e ↦ let impossible : ◌≡◌ {A = Option Device} (some d) none = (rw e at h) in ground arith
  | inr e ↦ (e, rw e at h)
]

find_serial-cons :
    (serial : String) (d : Device) (ds : List Device)
    → has_serial serial d ≡ false
    → find_serial serial ds ≡ none
    → find_serial serial (d ∷ ds) ≡ none
unfolding find_serial
find_serial-cons serial d ds e h = rw e h

module _ (serial own : String) (differ : str_eq own serial ≡ false) (id : Text) (keys : Credentials)
    (ip : Option String) where
  absent_change :
      (ds : List Device)
      → find_serial serial ds ≡ none
      → find_serial serial (change_id id (reassigned id own keys ip) ds) ≡ none
  unfolding change_id
  absent_change [] h = h
  absent_change (d ∷ ds) h =
      let (front, rest) = head_absent serial d ds h in
      elim (Bool-cases (text_eq d.id id)) [
        | inl here ↦ rw here (
            find_serial-cons serial (reassigned id own keys ip d) ds
              (has_serial-reassigned serial own id keys ip d ∙ differ) rest)
        | inr there ↦ rw there (find_serial-cons serial d _ front (absent_change ds rest))
      ]

  absent_append :
      (cfg : Settings) (ds : List Device)
      → find_serial serial ds ≡ none
      → find_serial serial (ds ++ (new_device cfg id own keys ip ∷ [])) ≡ none
  absent_append cfg [] h =
      find_serial-cons serial (new_device cfg id own keys ip) []
        (has_serial-new cfg serial own id keys ip ∙ differ) h
  absent_append cfg (d ∷ ds) h =
      let (front, rest) = head_absent serial d ds h in
      find_serial-cons serial d _ front (absent_append cfg ds rest)

  -- A serial number that no row has, and that is not assigned, is in no row.
  pub absent_upsert :
      (cfg : Settings) (ds : List Device)
      → find_serial serial ds ≡ none
      → find_serial serial (upsert_rack cfg id own keys ip ds) ≡ none
  unfolding upsert_rack
  absent_upsert cfg ds h = elim (Option-cases (find_id id ds)) [
    | inl free ↦ rw (free, upsert_rack) (absent_append cfg ds h)
    | inr (d, taken) ↦ rw (taken, upsert_rack) (absent_change ds h)
  ]

  -- The first row of the id loses the serial number that a change before gave it.
  lost_change :
      (change : Device → Device) (ds : List Device)
      → ((d : Device) → (change d).id ≡ d.id)
      → find_serial serial ds ≡ none
      → find_serial serial (change_id id (reassigned id own keys ip) (change_id id change ds))
        ≡ none
  unfolding change_id
  lost_change change [] keeps h = h
  lost_change change (d ∷ ds) keeps h =
      let (front, rest) = head_absent serial d ds h in
      elim (Bool-cases (text_eq d.id id)) [
        | inl here ↦
            let here' : text_eq (change d).id id ≡ true = ap (λ t. text_eq t id) (keeps d) ∙ here in
            rw (here, here')
              (find_serial-cons serial (reassigned id own keys ip (change d)) ds
                (has_serial-reassigned serial own id keys ip (change d) ∙ differ) rest)
        | inr there ↦
            rw (there, there, change_id)
              (find_serial-cons serial d _ front (lost_change change ds keeps rest))
      ]

  -- So does a row of the id at the end, where there was none.
  lost_append :
      (e : Device) (ds : List Device)
      → text_eq e.id id ≡ true
      → find_id id ds ≡ none
      → find_serial serial ds ≡ none
      → find_serial serial (change_id id (reassigned id own keys ip) (ds ++ (e ∷ []))) ≡ none
  unfolding change_id find_id
  lost_append e [] here free h = rw here (
      find_serial-cons serial (reassigned id own keys ip e) []
        (has_serial-reassigned serial own id keys ip e ∙ differ) h)
  lost_append e (d ∷ ds) here free h =
      let (front, rest) = head_absent serial d ds h in
      elim (Bool-cases (text_eq d.id id)) [
        | inl same ↦
            let impossible : ◌≡◌ {A = Option Device} (some d) none = (rw same at free) in
            ground arith
        | inr there ↦
            rw there
              (find_serial-cons serial d _ front (lost_append e ds here (rw there at free) rest))
      ]

find_id-change :
    (id : Text) (change : Device → Device) (d : Device) (ds : List Device)
    → ((e : Device) → (change e).id ≡ e.id)
    → find_id id ds ≡ some d
    → (e : Device) × (find_id id (change_id id change ds) ≡ some e)
unfolding find_id change_id
find_id-change id change d [] keeps h = ground arith
find_id-change id change d (e ∷ es) keeps h = elim (Bool-cases (text_eq e.id id)) [
  | inl here ↦
      let here' : text_eq (change e).id id ≡ true = ap (λ t. text_eq t id) (keeps e) ∙ here in
      (change e, rw (here, here') refl)
  | inr there ↦
      let (found, equal) = find_id-change id change d es keeps (rw there at h) in
      (found, rw (there, there, find_id) equal)
]

find_id-append :
    (id : Text) (e : Device) (ds : List Device)
    → text_eq e.id id ≡ true
    → find_id id ds ≡ none
    → find_id id (ds ++ (e ∷ [])) ≡ some e
unfolding find_id
find_id-append id e [] here free = rw here refl
find_id-append id e (d ∷ ds) here free = elim (Bool-cases (text_eq d.id id)) [
  | inl same ↦
      let impossible : ◌≡◌ {A = Option Device} (some d) none = (rw same at free) in ground arith
  | inr there ↦ rw there (find_id-append id e ds here (rw there at free))
]

pub reassigned-id :
    (id : Text) (own : String) (keys : Credentials) (ip : Option String) (d : Device)
    → (reassigned id own keys ip d).id ≡ d.id
unfolding reassigned
reassigned-id id own keys ip d = refl

new_device-id :
    (cfg : Settings) (id : Text) (own : String) (keys : Credentials) (ip : Option String)
    → text_eq (new_device cfg id own keys ip).id id ≡ true
unfolding new_device
new_device-id cfg id own keys ip = (text_eq_iff id id).1 refl

taken_upsert :
    (cfg : Settings) (id : Text) (own : String) (keys : Credentials) (ip : Option String)
    (ds : List Device) (d : Device)
    → find_id id ds ≡ some d
    → upsert_rack cfg id own keys ip ds ≡ change_id id (reassigned id own keys ip) ds
unfolding upsert_rack
taken_upsert cfg id own keys ip ds d taken = rw (taken, upsert_rack) refl

-- The second device that is given an id takes the row of the first.
pub lost_upsert :
    (cfg : Settings) (id : Text) (first second : String) (keys keys' : Credentials)
    (ip ip' : Option String) (ds : List Device)
    → str_eq second first ≡ false
    → find_serial first ds ≡ none
    → find_serial first (upsert_rack cfg id second keys' ip' (upsert_rack cfg id first keys ip ds))
      ≡ none
unfolding upsert_rack
lost_upsert cfg id first second keys keys' ip ip' ds differ h =
    elim (Option-cases (find_id id ds)) [
      | inl free ↦
          let new = new_device cfg id first keys ip in
          let named = new_device-id cfg id first keys ip in
          let appended : upsert_rack cfg id first keys ip ds ≡ ds ++ (new ∷ []) =
            rw (free, upsert_rack) refl in
          ap (λ rows. find_serial first (upsert_rack cfg id second keys' ip' rows)) appended
          ∙ ap (find_serial first) (
              taken_upsert cfg id second keys' ip' (ds ++ (new ∷ [])) new
                (find_id-append id new ds named free))
          ∙ lost_append first second differ id keys' ip' new ds named free h
      | inr (d, taken) ↦
          let change = reassigned id first keys ip in
          let keeps = reassigned-id id first keys ip in
          let (e, again) = find_id-change id change d ds keeps taken in
          ap (λ rows. find_serial first (upsert_rack cfg id second keys' ip' rows))
            (taken_upsert cfg id first keys ip ds d taken)
          ∙ ap (find_serial first)
              (taken_upsert cfg id second keys' ip' (change_id id change ds) e again)
          ∙ lost_change first second differ id keys' ip' change ds keeps h
    ]
