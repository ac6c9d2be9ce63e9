-- ===== src/Position/FollowUp.antt =====
-- What an M114 line does to recoveries and commands in server/services/position_monitor.py.
use vivarium_connection.Common.{
  ℕ, String, eq_refl, ◌≡◌, refl, ap, ◌∙◌, Bool, true, false, ◌&&◌, Option, none, some,
  if◌then◌else◌, Bool-cases, Option-cases, inl, inr, Result, ok, raised,
}
use vivarium_connection.Common.Dict
use vivarium_connection.Common.Dict.{Dict}
use vivarium_connection.Common.Text.{Text}
use vivarium_connection.Plant.{Plant}
use vivarium_connection.Recovery.{RecoveryState, Monitor, idle}
use vivarium_connection.Position.{
  Setup, M114Result, all_homed, parse_m114, end_recovery, after_retry, on_position, on_m114_parsed,
  on_m114,
}

-- The rack is in recovery.
pub recovering : String → Monitor → Bool
recovering id m = (Dict.get_or id m.recovery idle).in_recovery

-- the entry once its recovery is over
abbrev pub over : RecoveryState → RecoveryState
over rec = record rec { in_recovery = false }

pub end_recovery-absent :
    (r : M114Result) (m : Monitor)
    → Dict.lookup r.rack_id m.recovery ≡ none
    → end_recovery r m ≡ (m, none)
unfolding end_recovery
end_recovery-absent r m e = rw (e, end_recovery) refl

pub end_recovery-found :
    (r : M114Result) (m : Monitor) {rec : RecoveryState}
    → Dict.lookup r.rack_id m.recovery ≡ some rec
    → end_recovery r m ≡ (
        if rec.in_recovery && all_homed r
        then (
          record m { recovery = Dict.insert r.rack_id (over rec) m.recovery },
          rec.original_command,
        )
        else (m, none))
unfolding end_recovery
end_recovery-found r m e = rw (e, end_recovery) refl

end_recovery-over :
    (r : M114Result) (m : Monitor)
    → all_homed r ≡ true
    → recovering r.rack_id (end_recovery r m).0 ≡ false
unfolding recovering
end_recovery-over r m homed = elim (Option-cases (Dict.lookup r.rack_id m.recovery)) [
  | inl e ↦
      ap {B = Bool} (λ (x : Monitor × Option Text). recovering r.rack_id x.0)
        (end_recovery-absent r m e)
      ∙ ap {B = Bool} (λ (s : RecoveryState). s.in_recovery)
          (Dict.get_or-none r.rack_id m.recovery idle e)
  | inr (rec, e) ↦
      ap {B = Bool} (λ (x : Monitor × Option Text). recovering r.rack_id x.0)
        (end_recovery-found r m e)
      ∙ elim (Bool-cases rec.in_recovery) [
        | inl busy ↦
            rw (busy, homed)
              (ap {B = Bool} (λ (s : RecoveryState). s.in_recovery)
                  (Dict.get_or-insert r.rack_id r.rack_id (over rec) m.recovery idle)
                ∙ rw (eq_refl r.rack_id) refl)
        | inr free ↦ rw free (
            ap {B = Bool} (λ (s : RecoveryState). s.in_recovery)
              (Dict.get_or-some r.rack_id m.recovery idle e)
            ∙ free)
      ]
]

pub after_retry-monitor :
    (m : Monitor) (p : Plant) (r : M114Result) (x : Result Plant) → (after_retry m p r x).0 ≡ m
unfolding after_retry
after_retry-monitor m p r (ok p') = refl
after_retry-monitor m p r (raised e) = refl

-- After an M114 line with all axes homed the rack is not in recovery, even if the same line was off its
-- target and has just started one: the homing that was commanded is not waited for, and the next
-- trigger starts another recovery.
pub on_m114-over :
    (setup : Setup) (db_ok : Bool) (now : ℕ) (id : String) (raw : Text) (m : Monitor) (p : Plant)
    (r : M114Result)
    → parse_m114 setup.floats id raw ≡ ok (some r)
    → all_homed r ≡ true
    → recovering r.rack_id (on_m114 setup db_ok now id raw m p).0 ≡ false
unfolding on_m114 on_position on_m114_parsed
on_m114-over setup db_ok now id raw m p r parsed homed =
    ap {B = Bool}
      (λ (x : Result (Option M114Result)).
        recovering r.rack_id (on_m114_parsed setup db_ok now x m p).0)
      parsed
    ∙ ap {B = Bool} (recovering r.rack_id) (after_retry-monitor _ _ r _)
    ∙ end_recovery-over r _ homed
