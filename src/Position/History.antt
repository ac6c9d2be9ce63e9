-- ===== src/Position/History.antt =====
-- Histories of calls of the monitor of server/services/position_monitor.py.
use vivarium_connection.Common.{
  ℕ, ◌<◌, String, str_eq, eq_iff, ◌≡◌, refl, sym, ap, ◌∙◌, subst, Bool, true, false, ◌&&◌, Option,
  none, some, List, [], ◌∷◌, arith, if◌then◌else◌, Bool-cases, Option-cases, ◌⊎◌, inl, inr, Result,
  ok, raised, ◌>>=◌,
}
use vivarium_connection.Common.Dict
use vivarium_connection.Common.Dict.{Dict}
use vivarium_connection.Common.Clock.{utc}
use vivarium_connection.Common.Text.{Text}
use vivarium_connection.Models.{Float}
use vivarium_connection.State.{assign, assign_all}
use vivarium_connection.Queue.{Env, Message}
use vivarium_connection.Plant.{Plant, set_mirror, alert, send, command_message}
use vivarium_connection.Recovery.{
  RecoveryState, Monitor, idle, audit_if, set_commanded_target, mark_stale_check_due,
  trigger_recovery,
}
use vivarium_connection.Recovery.Escalation.{
  IsEscalated, KeepsFlag, attempts, attempts-insert, flagged, flagged-upsert, mirror_of,
  update_row-mirror, audit_if-mirror, send-mirror, start_recovery-IsEscalated,
}
use vivarium_connection.Position.{
  Setup, M114Result, all_homed, parse_m114, position_fields, update_state, persist_position,
  positioned_row, off_target, check_tolerance, check_target, check_stale_homing, check_due,
  is_stale, homed_at, end_recovery, retry_command, mirror_lock_valid, after_retry, on_position,
  on_m114_parsed, on_m114,
}
use vivarium_connection.Position.FollowUp.{over, end_recovery-absent, end_recovery-found}

-- The monitor and the plant fulfil the invariant of escalation.
abbrev pub IsSafe : Monitor → Plant → Type 0
IsSafe m p = IsEscalated m.recovery (mirror_of p)

position_fields-KeepsFlag : (now : ℕ) (r : M114Result) → KeepsFlag (position_fields now r)
unfolding position_fields assign_all assign
position_fields-KeepsFlag now r s = elim (Bool-cases (all_homed r)) [
  | inl e ↦ rw e refl
  | inr e ↦ rw e refl
]

update_state-IsSafe :
    (now : ℕ) (r : M114Result) (m : Monitor) (p : Plant)
    → IsSafe m p
    → IsSafe m (update_state now r p)
unfolding update_state set_mirror
update_state-IsSafe now r m p h k = elim (h k) [
  | inl few ↦ inl few
  | inr f ↦ inr (
      flagged-upsert (utc now) r.rack_id k (position_fields now r) p.world.store.mirror
        (position_fields-KeepsFlag now r)
      ∙ f)
]

same_mirror-IsSafe :
    (m : Monitor) (p q : Plant) → mirror_of q ≡ mirror_of p → IsSafe m p → IsSafe m q
same_mirror-IsSafe m p q e h = subst (IsEscalated m.recovery) (sym e) h

check_target-IsSafe :
    (setup : Setup) (db_ok : Bool) (now : ℕ) (r : M114Result) (m : Monitor) (p : Plant)
    → IsSafe m p
    → let (m', p') = check_target setup db_ok now r m p in IsSafe m' p'
unfolding check_target check_tolerance
check_target-IsSafe setup db_ok now r m p h =
    elim (Option-cases (Dict.lookup r.rack_id m.targets)) [
      | inl e ↦ rw (e, check_target) h
      | inr (target, e) ↦
          rw (e, check_target)
            (elim (Bool-cases (off_target setup db_ok r target p)) [
              | inr near ↦ rw near h
              | inl off ↦ rw off (
                  start_recovery-IsEscalated setup.env db_ok now r.rack_id none
                    (record m { targets = Dict.remove r.rack_id m.targets })
                    (audit_if db_ok "position_error" r.rack_id "failure" p)
                    (same_mirror-IsSafe m p (audit_if db_ok "position_error" r.rack_id "failure" p)
                      (audit_if-mirror db_ok "position_error" r.rack_id "failure" p) h))
            ])
    ]

check_due-IsSafe :
    (now : ℕ) (id : String) (m : Monitor) (p : Plant)
    → IsSafe m p
    → let (m', p') = check_due now id m p in IsSafe m' p'
unfolding check_due check_stale_homing alert
check_due-IsSafe now id m p h = elim (Bool-cases (Dict.get_or id m.stale_due false)) [
  | inr early ↦ rw early h
  | inl due ↦
      rw due (elim (Bool-cases (is_stale now (homed_at (Dict.lookup id p.world.store.mirror)))) [
        | inl old ↦ rw old h
        | inr recent ↦ rw recent h
      ])
]

end_recovery-IsSafe :
    (r : M114Result) (m : Monitor) (p : Plant) → IsSafe m p → IsSafe (end_recovery r m).0 p
end_recovery-IsSafe r m p h = elim (Option-cases (Dict.lookup r.rack_id m.recovery)) [
  | inl e ↦ subst (λ (x : Monitor × Option Text). IsSafe x.0 p) (sym (end_recovery-absent r m e)) h
  | inr (rec, e) ↦
      subst (λ (x : Monitor × Option Text). IsSafe x.0 p) (sym (end_recovery-found r m e))
        (elim (Bool-cases (rec.in_recovery && all_homed r)) [
          | inr goes_on ↦ rw goes_on h
          | inl ends ↦ rw ends (λ k. over_attempts k rec e)
        ])
]
  where
    over_attempts :
        (k : String) (rec : RecoveryState)
        → Dict.lookup r.rack_id m.recovery ≡ some rec
        → (attempts k (Dict.insert r.rack_id (over rec) m.recovery) < 2)
          ⊎ (flagged k (mirror_of p) ≡ true)
    over_attempts k rec e = elim (Bool-cases (str_eq r.rack_id k)) [
      | inr other ↦ rw (attempts-insert r.rack_id k (over rec) m.recovery, other) (h k)
      | inl same ↦
          rw (attempts-insert r.rack_id k (over rec) m.recovery, same)
            (let here : attempts k m.recovery ≡ rec.recovery_attempt =
                ap (λ j. attempts j m.recovery) (sym ((eq_iff r.rack_id k).0 same))
                ∙ (unfold attempts in
                    ap {B = ℕ} (λ (s : RecoveryState). s.recovery_attempt)
                      (Dict.get_or-some r.rack_id m.recovery idle e)) in
              subst (λ n. (n < 2) ⊎ (flagged k (mirror_of p) ≡ true)) here (h k))
    ]

-- the command sent, if the lock is valid
sent : Env → Message → Plant → Result Bool → Result Plant
sent env message p valid = do v ← valid; ok (if v then (send env message p).1 else p)

sent-mirror :
    (env : Env) (message : Message) (p p' : Plant) (valid : Result Bool)
    → sent env message p valid ≡ ok p'
    → mirror_of p' ≡ mirror_of p
unfolding sent
sent-mirror env message p p' (raised x) e = ground arith
sent-mirror env message p p' (ok true) e =
    let same : (send env message p).1 ≡ p' = cc e in
    ap mirror_of (sym same) ∙ send-mirror env message p
sent-mirror env message p p' (ok false) e = let same : p ≡ p' = cc e in ap mirror_of (sym same)

retry_command-mirror :
    (env : Env) (now : ℕ) (id : String) (command : Option Text) (p p' : Plant)
    → retry_command env now id command p ≡ ok p'
    → mirror_of p' ≡ mirror_of p
unfolding retry_command sent
retry_command-mirror env now id none p p' e = let same : p ≡ p' = cc e in ap mirror_of (sym same)
retry_command-mirror env now id (some []) p p' e =
    let same : p ≡ p' = cc e in ap mirror_of (sym same)
retry_command-mirror env now id (some (c ∷ cs)) p p' e =
    sent-mirror env (command_message id (c ∷ cs) 1) p p'
      (mirror_lock_valid now (Dict.lookup id p.world.store.mirror)) e

after_retry-IsSafe :
    (m : Monitor) (p : Plant) (r : M114Result) (x : Result Plant)
    → ((p' : Plant) → x ≡ ok p' → mirror_of p' ≡ mirror_of p)
    → IsSafe m p
    → let (m', p', y) = after_retry m p r x in IsSafe m' p'
unfolding after_retry
after_retry-IsSafe m p r (ok p') keep h = same_mirror-IsSafe m p p' (keep p' refl) h
after_retry-IsSafe m p r (raised e) keep h = h

on_position-IsSafe :
    (setup : Setup) (db_ok : Bool) (now : ℕ) (r : M114Result) (m : Monitor) (p : Plant)
    → IsSafe m p
    → let (m', p', y) = on_position setup db_ok now r m p in IsSafe m' p'
unfolding on_position persist_position
on_position-IsSafe setup db_ok now r m p h =
    let p0 = update_state now r p in
    let q = persist_position db_ok now r p0 in
    let hq =
      same_mirror-IsSafe m p0 q (update_row-mirror db_ok r.rack_id (positioned_row now r) p0)
        (update_state-IsSafe now r m p h) in
    let a = check_target setup db_ok now r m q in
    let b = check_due now r.rack_id a.0 a.1 in
    let c = end_recovery r b.0 in
    after_retry-IsSafe c.0 b.1 r (retry_command setup.env now r.rack_id c.1 b.1)
      (λ p' e. retry_command-mirror setup.env now r.rack_id c.1 b.1 p' e)
      (end_recovery-IsSafe r b.0 b.1
        (check_due-IsSafe now r.rack_id a.0 a.1 (check_target-IsSafe setup db_ok now r m q hq)))

on_m114-IsSafe :
    (setup : Setup) (db_ok : Bool) (now : ℕ) (x : Result (Option M114Result)) (m : Monitor)
    (p : Plant)
    → IsSafe m p
    → let (m', p', y) = on_m114_parsed setup db_ok now x m p in IsSafe m' p'
unfolding on_m114_parsed
on_m114-IsSafe setup db_ok now (raised e) m p h = h
on_m114-IsSafe setup db_ok now (ok none) m p h = h
on_m114-IsSafe setup db_ok now (ok (some r)) m p h = on_position-IsSafe setup db_ok now r m p h

-- a call of the monitor
pub data Call : Type 0 where
  m114 : Bool → ℕ → String → Text → Call
  target : String → Option Float → Option Float → Call
  stale : String → Call
  trigger : Bool → ℕ → String → Option Text → Call

pub call : Setup → Call → Monitor × Plant → Monitor × Plant
call setup (m114 db_ok now id raw) (m, p) =
    let (m', p', y) = on_m114 setup db_ok now id raw m p in (m', p')
call setup (target id x y) (m, p) = (set_commanded_target id x y m, p)
call setup (stale id) (m, p) = (mark_stale_check_due id m, p)
call setup (trigger db_ok now id command) (m, p) =
    trigger_recovery setup.env db_ok now id command m p

pub calls : Setup → List Call → Monitor × Plant → Monitor × Plant
calls setup [] x = x
calls setup (c ∷ cs) x = calls setup cs (call setup c x)

call-IsSafe :
    (setup : Setup) (c : Call) (x : Monitor × Plant)
    → IsSafe x.0 x.1
    → let (m, p) = call setup c x in IsSafe m p
unfolding call on_m114 mark_stale_check_due trigger_recovery set_commanded_target
call-IsSafe setup (m114 db_ok now id raw) (m, p) h =
    on_m114-IsSafe setup db_ok now (parse_m114 setup.floats id raw) m p h
call-IsSafe setup (target id none none) (m, p) h = h
call-IsSafe setup (target id none (some y)) (m, p) h = h
call-IsSafe setup (target id (some x) y) (m, p) h = h
call-IsSafe setup (stale id) (m, p) h = h
call-IsSafe setup (trigger db_ok now id command) (m, p) h =
    start_recovery-IsEscalated setup.env db_ok now id command m p h

-- After any history of M114 lines, targets, reconnections and triggers from a monitor without
-- recoveries, whatever fails meanwhile: every rack with two recoveries or more is shown as in need of
-- maintenance by the mirror.
pub calls-IsEscalated :
    (setup : Setup) (cs : List Call) (m : Monitor) (p : Plant)
    → m.recovery ≡ []
    → let (m', p') = calls setup cs (m, p) in IsEscalated m'.recovery (mirror_of p')
unfolding calls attempts Dict.get_or Dict.lookup
calls-IsEscalated setup cs m p start = go cs (m, p) (λ k. inl (few k))
  where
    go :
        (cs : List Call) (x : Monitor × Plant)
        → IsSafe x.0 x.1
        → let (m', p') = calls setup cs x in IsSafe m' p'
    go [] x h = h
    go (c ∷ cs) x h = go cs (call setup c x) (call-IsSafe setup c x h)

    few : (k : String) → attempts k m.recovery < 2
    few k = rw start (ground arith)
