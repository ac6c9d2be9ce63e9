-- ===== src/Recovery/Escalation.antt =====
-- The second recovery of a rack in server/services/position_monitor.py flags it for maintenance.
use vivarium_connection.Common.{
  ℕ, ◌+◌, ◌<◌, String, str_eq, eq_iff, ◌≡◌, refl, sym, ap, ◌∙◌, Bool, true, false, Option, none,
  some, List, [], ◌∷◌, arith, leb, ◌&&◌, if◌then◌else◌, Bool-cases, Option-cases, ◌⊎◌, inl, inr,
}
use vivarium_connection.Common.Dict
use vivarium_connection.Common.Dict.{Dict}
use vivarium_connection.Common.Clock.{Stamp, utc}
use vivarium_connection.Common.Text.{Text}
use vivarium_connection.Models.{Rack}
use vivarium_connection.State.{
  RackState, Mirror, Assign, assign, assign_all, refresh, fresh, upsert, maintenance_required,
}
use vivarium_connection.Locking.Agreement.{lookup-upsert, upserted}
use vivarium_connection.Queue.{Env, Message}
use vivarium_connection.Plant.{Plant, set_racks, set_mirror, audit, alert, send, stop_message}
use vivarium_connection.Recovery.{
  RecoveryState, Monitor, idle, begun, update_row, disable_schedule, flag_maintenance,
  escalate_to_maintenance, publish_recovery, audit_if, recovery_steps, start_recovery,
}

unfoldable pub attempts : String → Dict RecoveryState → ℕ
attempts k recovery = (Dict.get_or k recovery idle).recovery_attempt

pub flag_of : Option RackState → Bool
flag_of none = false
flag_of (some state) = state.maintenance_required

-- The mirror has the rack flagged.
pub flagged : String → Mirror → Bool
flagged k mirror = flag_of (Dict.lookup k mirror)

-- A rack with two recoveries or more is flagged in the mirror.
abbrev pub IsEscalated : Dict RecoveryState → Mirror → Type 0
IsEscalated recovery mirror = (k : String) → (attempts k recovery < 2) ⊎ (flagged k mirror ≡ true)

-- no assignment of the maintenance flag
abbrev pub KeepsFlag : List Assign → Type 0
KeepsFlag kwargs =
    (s : RackState) → (assign_all kwargs s).maintenance_required ≡ s.maintenance_required

get_or-flag :
    (id : String) (mirror : Mirror)
    → (Dict.get_or id mirror (fresh id)).maintenance_required ≡ flagged id mirror
unfolding flagged flag_of fresh
get_or-flag id mirror = elim (Option-cases (Dict.lookup id mirror)) [
  | inl e ↦
      ap {B = Bool} (λ (s : RackState). s.maintenance_required)
        (Dict.get_or-none id mirror (fresh id) e)
      ∙ sym (ap flag_of e)
  | inr (s, e) ↦
      ap {B = Bool} (λ (s : RackState). s.maintenance_required)
        (Dict.get_or-some id mirror (fresh id) e)
      ∙ sym (ap flag_of e)
]

pub flagged-upsert :
    (now : Stamp) (id k : String) (kwargs : List Assign) (mirror : Mirror)
    → KeepsFlag kwargs
    → flagged k (upsert now id kwargs mirror) ≡ flagged k mirror
unfolding flagged flag_of upserted refresh
flagged-upsert now id k kwargs mirror keep =
    ap flag_of (lookup-upsert now id k kwargs mirror) ∙ elim (Bool-cases (str_eq id k)) [
      | inl same ↦ rw same (
          keep (Dict.get_or id mirror (fresh id))
          ∙ get_or-flag id mirror
          ∙ ap (λ j. flagged j mirror) ((eq_iff id k).0 same))
      | inr other ↦ rw other refl
    ]

flagged-maintenance :
    (now : Stamp) (id k : String) (mirror : Mirror)
    → flagged k (upsert now id (maintenance_required true ∷ []) mirror)
      ≡ (if str_eq id k then true else flagged k mirror)
unfolding flagged flag_of upserted refresh assign_all assign
flagged-maintenance now id k mirror =
    ap flag_of (lookup-upsert now id k _ mirror)
    ∙ elim (Bool-cases (str_eq id k)) [ inl same ↦ rw same refl | inr other ↦ rw other refl ]

-- The mirror after the parts of a recovery.
abbrev pub mirror_of : Plant → Mirror
mirror_of p = p.world.store.mirror

pub update_row-mirror :
    (db_ok : Bool) (id : String) (change : Rack → Rack) (p : Plant)
    → mirror_of (update_row db_ok id change p) ≡ mirror_of p
unfolding update_row mirror_of set_racks
update_row-mirror false id change p = refl
update_row-mirror true id change p = elim (Option-cases (Dict.lookup id p.world.store.racks)) [
  | inl e ↦ rw (e, update_row) refl
  | inr (rack, e) ↦ rw (e, update_row) refl
]

disable_schedule-mirror :
    (id : String) (p : Plant) → mirror_of (disable_schedule id p) ≡ mirror_of p
unfolding disable_schedule
disable_schedule-mirror id p = elim (Option-cases (Dict.lookup id p.schedules)) [
  | inl e ↦ rw (e, disable_schedule) refl
  | inr (schedule, e) ↦ rw (e, disable_schedule) refl
]

flag_maintenance-mirror :
    (db_ok : Bool) (now : ℕ) (id : String) (p : Plant)
    → mirror_of (flag_maintenance db_ok now id p) ≡ mirror_of p
unfolding flag_maintenance audit
flag_maintenance-mirror false now id p = refl
flag_maintenance-mirror true now id p =
    disable_schedule-mirror id (update_row true id _ p) ∙ update_row-mirror true id _ p

pub send-mirror : (env : Env) (m : Message) (p : Plant) → mirror_of (send env m p).1 ≡ mirror_of p
unfolding send
send-mirror env m p = elim (Bool-cases (env.delivers m)) [ inl e ↦ rw e refl | inr e ↦ rw e refl ]

publish_recovery-mirror :
    (env : Env) (id : String) (p : Plant) → mirror_of (publish_recovery env id p) ≡ mirror_of p
unfolding publish_recovery
publish_recovery-mirror env id p = elim (Bool-cases (send env (stop_message id) p).0) [
  | inl e ↦ rw e (send-mirror env _ (send env (stop_message id) p).1 ∙ send-mirror env _ p)
  | inr e ↦ rw e (send-mirror env _ p)
]

pub audit_if-mirror :
    (db_ok : Bool) (event_type id outcome : String) (p : Plant)
    → mirror_of (audit_if db_ok event_type id outcome p) ≡ mirror_of p
unfolding audit_if audit
audit_if-mirror false event_type id outcome p = refl
audit_if-mirror true event_type id outcome p = refl

escalate-flagged :
    (db_ok : Bool) (now : ℕ) (id k : String) (p : Plant)
    → flagged k (mirror_of (escalate_to_maintenance db_ok now id p))
      ≡ (if str_eq id k then true else flagged k (mirror_of p))
unfolding escalate_to_maintenance set_mirror alert
escalate-flagged db_ok now id k p =
    flagged-maintenance (utc now) id k (flag_maintenance db_ok now id p).world.store.mirror
    ∙ ap {B = Bool} (λ (m : Mirror). if str_eq id k then true else flagged k m)
        (flag_maintenance-mirror db_ok now id p)

-- What the recovery leaves of the flags.
recovery_steps-flagged :
    (env : Env) (db_ok : Bool) (now : ℕ) (id k : String) (attempt : ℕ) (p : Plant)
    → flagged k (mirror_of (recovery_steps env db_ok now id attempt p))
      ≡ (if leb 2 attempt && str_eq id k then true else flagged k (mirror_of p))
unfolding recovery_steps alert
recovery_steps-flagged env db_ok now id k attempt p =
    let told = alert id "warning" "re_homing" (publish_recovery env id p) in
    let q = audit_if db_ok "re_home_triggered" id "success" told in
    let same : mirror_of q ≡ mirror_of p =
      audit_if-mirror db_ok "re_home_triggered" id "success" told
      ∙ publish_recovery-mirror env id p in
    elim (Bool-cases (leb 2 attempt)) [
      | inl e ↦ rw e (
          escalate-flagged db_ok now id k q
          ∙ ap {B = Bool} (λ (m : Mirror). if str_eq id k then true else flagged k m) same)
      | inr e ↦ rw e (ap (flagged k) same)
    ]

pub attempts-insert :
    (id k : String) (rec : RecoveryState) (recovery : Dict RecoveryState)
    → attempts k (Dict.insert id rec recovery)
      ≡ (if str_eq id k then rec.recovery_attempt else attempts k recovery)
unfolding attempts
attempts-insert id k rec recovery =
    ap {B = ℕ} (λ (r : RecoveryState). r.recovery_attempt)
      (Dict.get_or-insert id k rec recovery idle)
    ∙ elim (Bool-cases (str_eq id k)) [ inl e ↦ rw e refl | inr e ↦ rw e refl ]

elsewhere :
    (n a : ℕ) (f : Bool)
    → (a < 2) ⊎ (f ≡ true)
    → (a < 2) ⊎ ((if leb 2 n && false then true else f) ≡ true)
elsewhere n a f h = elim (Bool-cases (leb 2 n)) [ inl e ↦ rw e h | inr e ↦ rw e h ]

second : (n : ℕ) (f : Bool) → (n < 2) ⊎ ((if leb 2 n && true then true else f) ≡ true)
second n f = elim (Bool-cases (leb 2 n)) [ inl e ↦ rw e (inr refl) | inr e ↦ inl (ground arith) ]

pub start_recovery-IsEscalated :
    (env : Env) (db_ok : Bool) (now : ℕ) (id : String) (command : Option Text) (m : Monitor)
    (p : Plant)
    → IsEscalated m.recovery (mirror_of p)
    → let (m', p') = start_recovery env db_ok now id command m p in
      IsEscalated m'.recovery (mirror_of p')
unfolding start_recovery begun
start_recovery-IsEscalated env db_ok now id command m p h =
    elim (Bool-cases (Dict.get_or id m.recovery idle).in_recovery) [
      | inl busy ↦ rw busy h
      | inr free ↦ rw free (λ k.
          let rec = Dict.get_or id m.recovery idle in
          let n = rec.recovery_attempt + 1 in
          let tried = attempts-insert id k (begun now command rec) m.recovery in
          let seen = recovery_steps-flagged env db_ok now id k n p in
          elim (Bool-cases (str_eq id k)) [
            | inr other ↦
                rw (tried, seen, other)
                  (elsewhere n (attempts k m.recovery) (flagged k (mirror_of p)) (h k))
            | inl same ↦ rw (tried, seen, same) (second n (flagged k (mirror_of p)))
          ])
    ]
