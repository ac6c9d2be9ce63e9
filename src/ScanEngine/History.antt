-- ===== src/ScanEngine/History.antt =====
-- Histories of calls of the engine of server/services/scan_engine.py.
use vivarium_connection.Common.{
  ℕ, zero, suc, String, str_eq, eq_iff, ◌≡◌, refl, sym, subst, Bool, true, false, Bool-cases,
  Option-cases, inl, inr, Option, none, some, List, [], ◌∷◌, Result, ok, raised,
}
use vivarium_connection.Common.Dict
use vivarium_connection.Common.Dict.{Dict}
use vivarium_connection.Models.{Rack, ScanSession}
use vivarium_connection.Locking.{LockResult, acquired, already_locked, rack_not_found, Store}
use vivarium_connection.Plant.{Plant, send}
use vivarium_connection.Queue.{Env, Message}
use vivarium_connection.ScanEngine.{
  ScanEnv, Progress, StatusReport, Engine, broadcast, pi_alive, update_session, set_active,
}
use vivarium_connection.ScanEngine.Due.{try_fire_scan, check_due_scans}
use vivarium_connection.ScanEngine.Handlers.{
  progressed, on_scan_progress, cancel_resume_timer, pop_active, offer_resume_restart,
  on_resume_window_expired, completed, paused, aborted, release_scan, scan_completed, scan_paused,
  scan_aborted, is_emergency, by_status, on_rack_status, on_scan_status, send_scan_stop,
  handle_manual_command_conflict, with_operator_lock, trigger_online, trigger_manual_scan,
  restart_scan, handle_resume_choice,
}
use vivarium_connection.ScanEngine.Handlers.Tracked.{
  IsTracked, Tracks, set_scan_state-Tracks, IsTracked-update_session, IsTracked-remove,
  begin_scan-Tracks, has_session, is_tracked, publish_scan_start-Tracks,
}
use vivarium_connection.ScanEngine.Due.Sessions.{try_fire_scan-Tracks, check_due_scans-Tracks}

on_scan_progress-Tracks :
    (db_ok : Bool) (now : ℕ) (id : Option String) (m : Option Progress) (x : Engine)
    → Tracks x
    → Tracks (on_scan_progress db_ok now id m x)
unfolding on_scan_progress broadcast progressed
on_scan_progress-Tracks db_ok now none m x h = h
on_scan_progress-Tracks db_ok now (some id) none x h = h
on_scan_progress-Tracks false now (some id) (some m) x h = h
on_scan_progress-Tracks true now (some id) (some m) x h =
    set_scan_state-Tracks now id "running" (update_session m.scan_session_id (progressed m) x.plant)
      x.active_sessions
      (IsTracked-update_session m.scan_session_id (progressed m) x.plant x.active_sessions
        (λ s. refl) h)

release_scan-Tracks :
    (senv : ScanEnv) (now : ℕ) (id state : String) (sid : Option ℕ)
    (change : ScanSession → ScanSession) (x : Engine)
    → ((s : ScanSession) → (change s).rack_id ≡ s.rack_id)
    → Tracks x
    → IsTracked x.active_sessions (release_scan senv now id state sid change x.plant).sessions
unfolding release_scan
release_scan-Tracks senv now id state sid change x keeps h =
    set_scan_state-Tracks now id state (update_session sid change x.plant) x.active_sessions
      (IsTracked-update_session sid change x.plant x.active_sessions keeps h)

by_status-Tracks :
    (senv : ScanEnv) (now : ℕ) (id : String) (rack : Rack) (m : StatusReport) (x : Engine)
    → Tracks x
    → Tracks (by_status senv now id rack m x)
unfolding by_status scan_completed scan_paused scan_aborted pop_active cancel_resume_timer
    offer_resume_restart broadcast completed paused aborted
by_status-Tracks senv now id rack m x h = elim (Bool-cases (str_eq m.status "complete")) [
  | inl e ↦ rw e (
      IsTracked-remove id x.active_sessions _ (
        release_scan-Tracks senv now id "complete" m.scan_session_id (completed now) x (λ s. refl)
          h))
  | inr e ↦ rw e (elim (Bool-cases (str_eq m.status "paused")) [
    | inl p ↦ rw p (
        set_scan_state-Tracks now id "paused" (update_session m.scan_session_id (paused m) x.plant)
          x.active_sessions
          (IsTracked-update_session m.scan_session_id (paused m) x.plant x.active_sessions
            (λ s. refl) h))
    | inr p ↦ rw p (elim (Bool-cases (str_eq m.status "aborted")) [
      | inr o ↦ rw o h
      | inl a ↦
          let removed = IsTracked-remove id x.active_sessions _ (
            release_scan-Tracks senv now id "aborted" m.scan_session_id (aborted m) x (λ s. refl)
              h) in
          rw a (elim (Bool-cases (is_emergency m.abort_reason)) [
            | inl i ↦ rw i removed
            | inr i ↦ rw i removed
          ])
    ])
  ])
]

on_scan_status-Tracks :
    (senv : ScanEnv) (db_ok : Bool) (now : ℕ) (id : Option String) (m : Option StatusReport)
    (x : Engine)
    → Tracks x
    → Tracks (on_scan_status senv db_ok now id m x)
unfolding on_scan_status on_rack_status broadcast
on_scan_status-Tracks senv db_ok now none m x h = h
on_scan_status-Tracks senv db_ok now (some id) none x h = h
on_scan_status-Tracks senv false now (some id) (some m) x h = h
on_scan_status-Tracks senv true now (some id) (some m) x h =
    elim (Option-cases (Dict.lookup id x.plant.world.store.racks)) [
      | inl e ↦ rw (e, on_rack_status) h
      | inr (rack, e) ↦ rw (e, on_rack_status) (by_status-Tracks senv now id rack m x h)
    ]

send-sessions : (env : Env) (m : Message) (p : Plant) → (send env m p).1.sessions ≡ p.sessions
unfolding send
send-sessions env m p = elim (Bool-cases (env.delivers m)) [ inl e ↦ rw e refl | inr e ↦ rw e refl ]

send_scan_stop-Tracks :
    (senv : ScanEnv) (id : String) (x : Engine) → Tracks x → Tracks (send_scan_stop senv id x)
unfolding send_scan_stop
send_scan_stop-Tracks senv id x h =
    subst (IsTracked x.active_sessions) (sym (send-sessions senv.env _ x.plant)) h

conflict-Tracks :
    (senv : ScanEnv) (db_ok : Bool) (now : ℕ) (id : String) (x : Engine)
    → Tracks x
    → Tracks (handle_manual_command_conflict senv db_ok now id x)
unfolding handle_manual_command_conflict
conflict-Tracks senv false now id x h = h
conflict-Tracks senv true now id x h =
    send_scan_stop-Tracks senv id _
      (set_scan_state-Tracks now id "paused" x.plant x.active_sessions h)

with_operator_lock-Tracks :
    (senv : ScanEnv) (now : ℕ) (id : String) (rack : Rack) (x : Engine)
    (r : Result (LockResult × Store))
    → Tracks x
    → Tracks (with_operator_lock senv now id rack x r).0
unfolding with_operator_lock
with_operator_lock-Tracks senv now id rack x (raised e) h = h
with_operator_lock-Tracks senv now id rack x (ok (already_locked, s)) h = h
with_operator_lock-Tracks senv now id rack x (ok (rack_not_found, s)) h = h
with_operator_lock-Tracks senv now id rack x (ok (acquired, s)) h =
    begin_scan-Tracks senv now id rack (λ p. p) s x (λ p. refl) h

trigger_online-Tracks :
    (senv : ScanEnv) (db_ok : Bool) (now : ℕ) (id user : String) (x : Engine)
    → Tracks x
    → Tracks (trigger_online senv db_ok now id user x).0
unfolding trigger_online
trigger_online-Tracks senv false now id user x h = h
trigger_online-Tracks senv true now id user x h =
    elim (Option-cases (Dict.lookup id x.plant.world.store.racks)) [
      | inl e ↦ rw (e, trigger_online) h
      | inr (rack, e) ↦ rw (e, trigger_online) (with_operator_lock-Tracks senv now id rack x _ h)
    ]

trigger_manual_scan-Tracks :
    (senv : ScanEnv) (db_ok : Bool) (now : ℕ) (id user : String) (x : Engine)
    → Tracks x
    → Tracks (trigger_manual_scan senv db_ok now id user x).0
unfolding trigger_manual_scan
trigger_manual_scan-Tracks senv db_ok now id user x h =
    elim (Bool-cases (pi_alive (Dict.lookup id x.plant.world.store.mirror))) [
      | inl e ↦ rw e (trigger_online-Tracks senv db_ok now id user x h)
      | inr e ↦ rw e h
    ]

cancel_resume_timer-Tracks :
    (id : String) (x : Engine) → Tracks x → Tracks (cancel_resume_timer id x)
unfolding cancel_resume_timer
cancel_resume_timer-Tracks id x h = h

IsTracked-insert :
    (id : String) (sid : ℕ) (active : Dict ℕ) (sessions : List (ℕ × ScanSession))
    → has_session id sid sessions ≡ true
    → IsTracked active sessions
    → IsTracked (Dict.insert id sid active) sessions
unfolding IsTracked is_tracked
IsTracked-insert id sid active sessions own h k =
    rw (Dict.lookup-insert id k sid active) (elim (Bool-cases (str_eq id k)) [
      | inl e ↦ rw e (subst (λ r. has_session r sid sessions ≡ true) ((eq_iff id k).0 e) own)
      | inr e ↦ rw e (h k)
    ])

restart_scan-Tracks :
    (senv : ScanEnv) (db_ok : Bool) (now : ℕ) (id : String) (sid rows cols : ℕ) (x : Engine)
    → has_session id sid x.plant.sessions ≡ true
    → Tracks x
    → Tracks (restart_scan senv db_ok now id sid rows cols x)
unfolding restart_scan set_active
restart_scan-Tracks senv false now id sid rows cols x own h = publish_scan_start-Tracks senv _ x h
restart_scan-Tracks senv true now id sid rows cols x own h =
    elim (Option-cases (Dict.lookup id x.plant.world.store.racks)) [
      | inr (rack, e) ↦
          rw (e, restart_scan)
            (begin_scan-Tracks senv now id rack (λ p. p) x.plant.world.store x (λ p. refl) h)
      | inl e ↦ rw (e, restart_scan) (publish_scan_start-Tracks senv _ _ (named sid own))
    ]
  where
    named :
        (k : ℕ)
        → has_session id k x.plant.sessions ≡ true
        → Tracks (elim k [ zero ↦ x | suc n ↦ set_active id (suc n) x ])
    named zero mine = h
    named (suc n) mine = IsTracked-insert id (suc n) x.active_sessions x.plant.sessions mine h

resume_choice-Tracks :
    (senv : ScanEnv) (db_ok : Bool) (now : ℕ) (id choice : String) (sid rows cols : ℕ)
    (row col : Option ℕ) (x : Engine)
    → has_session id sid x.plant.sessions ≡ true
    → Tracks x
    → Tracks (handle_resume_choice senv db_ok now id sid choice rows cols row col x)
unfolding handle_resume_choice cancel_resume_timer
resume_choice-Tracks senv db_ok now id choice sid rows cols row col x own h =
    elim (Bool-cases (str_eq choice "resume")) [
      | inl e ↦ rw e (publish_scan_start-Tracks senv _ _ (cancel_resume_timer-Tracks id x h))
      | inr e ↦ rw e (
          restart_scan-Tracks senv db_ok now id sid rows cols (cancel_resume_timer id x) own
            (cancel_resume_timer-Tracks id x h))
    ]

-- A call of the engine, by the scheduler, a timer, the MQTT client or an operator. The database
-- session of an operator's scan is committed by its caller.
pub data Call : Type 0 where
  check : Bool → ℕ → Call
  fire_timer conflict : Bool → ℕ → String → Call
  stop : String → Call
  progress : Bool → ℕ → Option String → Option Progress → Call
  status : Bool → ℕ → Option String → Option StatusReport → Call
  window_expired : String → Call
  trigger : Bool → ℕ → String → String → Call
  choose : Bool → ℕ → String → ℕ → String → ℕ → ℕ → Option ℕ → Option ℕ → Call

unfoldable pub call : ScanEnv → Call → Engine → Engine
call senv (check db_ok now) x = check_due_scans senv db_ok now x
call senv (fire_timer db_ok now id) x = try_fire_scan senv db_ok now id x
call senv (conflict db_ok now id) x = handle_manual_command_conflict senv db_ok now id x
call senv (stop id) x = send_scan_stop senv id x
call senv (progress db_ok now id m) x = on_scan_progress db_ok now id m x
call senv (status db_ok now id m) x = on_scan_status senv db_ok now id m x
call senv (window_expired id) x = on_resume_window_expired id x
call senv (trigger db_ok now id user) x = (trigger_manual_scan senv db_ok now id user x).0
call senv (choose db_ok now id sid choice rows cols row col) x =
    handle_resume_choice senv db_ok now id sid choice rows cols row col x

pub calls : ScanEnv → List Call → Engine → Engine
calls senv [] x = x
calls senv (c ∷ cs) x = calls senv cs (call senv c x)

-- A choice to resume or restart names a session of its rack that `scan_sessions` has.
unfoldable pub IsNamed : Call → Engine → Type 0
IsNamed (check db_ok now) x = Unit
IsNamed (fire_timer db_ok now id) x = Unit
IsNamed (conflict db_ok now id) x = Unit
IsNamed (stop id) x = Unit
IsNamed (progress db_ok now id m) x = Unit
IsNamed (status db_ok now id m) x = Unit
IsNamed (window_expired id) x = Unit
IsNamed (trigger db_ok now id user) x = Unit
IsNamed (choose db_ok now id sid choice rows cols row col) x =
    has_session id sid x.plant.sessions ≡ true

-- the choices of a history, each at its own time
unfoldable pub AllNamed : ScanEnv → List Call → Engine → Type 0
AllNamed senv [] x = Unit
AllNamed senv (c ∷ cs) x = IsNamed c x × AllNamed senv cs (call senv c x)

call-Tracks :
    (senv : ScanEnv) (c : Call) (x : Engine) → IsNamed c x → Tracks x → Tracks (call senv c x)
unfolding call IsNamed on_resume_window_expired cancel_resume_timer pop_active
call-Tracks senv (check db_ok now) x n h = check_due_scans-Tracks senv db_ok now x h
call-Tracks senv (fire_timer db_ok now id) x n h = try_fire_scan-Tracks senv db_ok now id x h
call-Tracks senv (conflict db_ok now id) x n h = conflict-Tracks senv db_ok now id x h
call-Tracks senv (stop id) x n h = send_scan_stop-Tracks senv id x h
call-Tracks senv (progress db_ok now id m) x n h = on_scan_progress-Tracks db_ok now id m x h
call-Tracks senv (status db_ok now id m) x n h = on_scan_status-Tracks senv db_ok now id m x h
call-Tracks senv (window_expired id) x n h =
    IsTracked-remove id x.active_sessions x.plant.sessions h
call-Tracks senv (trigger db_ok now id user) x n h =
    trigger_manual_scan-Tracks senv db_ok now id user x h
call-Tracks senv (choose db_ok now id sid choice rows cols row col) x n h =
    resume_choice-Tracks senv db_ok now id choice sid rows cols row col x n h

-- Any history of checks, timers, progress and status messages, manual conflicts, stops, expired
-- windows, operator scans whose database session is committed, and choices to resume or restart a
-- session of the rack that `scan_sessions` has, whatever else fails meanwhile, keeps each active
-- session in `scan_sessions`, as a session of its rack.
pub calls-IsTracked :
    (senv : ScanEnv) (cs : List Call) (x : Engine)
    → AllNamed senv cs x
    → IsTracked x.active_sessions x.plant.sessions
    → let x' = calls senv cs x in IsTracked x'.active_sessions x'.plant.sessions
unfolding calls AllNamed
calls-IsTracked senv [] x n h = h
calls-IsTracked senv (c ∷ cs) x (n, ns) h =
    calls-IsTracked senv cs (call senv c x) ns (call-Tracks senv c x n h)
