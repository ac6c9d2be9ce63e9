-- ===== src/ScanEngine/Handlers/Ended.antt =====
-- The end of a scan in server/services/scan_engine.py, and a message that comes after it.
use vivarium_connection.Common.{
  ℕ, zero, suc, String, str_eq, eq_iff, ◌≡◌, refl, sym, ap, ◌∙◌, subst, Bool, true, false, ◌||◌,
  Bool-cases, inl, inr, Option, none, some, is_some, arith, eq_refl,
}
use vivarium_connection.Common.Dict
use vivarium_connection.Models.{Rack, ScanSession}
use vivarium_connection.Locking.{release_lock, cleared_row, write}
use vivarium_connection.Queue.{Env, World, session_release}
use vivarium_connection.Queue.Release.{release_lock-held}
use vivarium_connection.Plant.{Plant}
use vivarium_connection.ScanEngine.{
  ScanEnv, Progress, StatusReport, Engine, broadcast, scanned_row, set_scan_state, update_session,
}
use vivarium_connection.ScanEngine.Handlers.{
  progressed, on_scan_progress, cancel_resume_timer, pop_active, completed, aborted, release_scan,
  scan_completed, scan_aborted, is_emergency, by_status, on_rack_status, on_scan_status,
}
use vivarium_connection.ScanEngine.Handlers.Manual.{set_scan_state-lookup}

-- The rack is unlocked, its row has the state, and the engine has no session for it.
pub record IsOver (id state : String) (x : Engine) : Type 0 where
  pub row : Rack
  pub found : Dict.lookup id x.plant.world.store.racks ≡ some row
  pub free : row.lock_holder_user_id ≡ none
  pub scan_state : row.scan_state ≡ state
  pub inactive : Dict.lookup id x.active_sessions ≡ none

unlocked : (holder : Option String) → is_some holder ≡ false → holder ≡ none
unlocked none e = refl
unlocked (some u) e = ground arith

update_session-world :
    (sid : Option ℕ) (change : ScanSession → ScanSession) (p : Plant)
    → (update_session sid change p).world ≡ p.world
unfolding update_session
update_session-world none change p = refl
update_session-world (some zero) change p = refl
update_session-world (some (suc n)) change p = refl

scanned_row-state :
    (now : ℕ) (state : String) (rack : Rack) → (scanned_row now state rack).scan_state ≡ state
unfolding scanned_row
scanned_row-state now state rack = elim (Bool-cases (str_eq rack.scan_state state)) [
  | inl e ↦ rw e ((eq_iff rack.scan_state state).0 e)
  | inr e ↦ rw e refl
]

session_release-free :
    (env : Env) (now : ℕ) (id : String) (w : World) {row : Rack}
    → Dict.lookup id w.store.racks ≡ some row
    → (row' : Rack) × (Dict.lookup id (session_release env now id w).1.store.racks ≡ some row')
      × (row'.lock_holder_user_id ≡ none)
      × (row'.scan_state ≡ row.scan_state)
unfolding session_release release_lock write cleared_row
session_release-free env now id w {row} found =
    elim (Bool-cases (is_some row.lock_holder_user_id)) [
      | inl held ↦ (
        cleared_row now row,
        rw (release_lock-held now id w.store found held, session_release)
            (Dict.lookup-insert_self id _ w.store.racks),
        refl,
        refl,
      )
      | inr free ↦ (
        row,
        rw (found, release_lock) (rw free found),
        unlocked row.lock_holder_user_id free,
        refl,
      )
    ]

release_scan-free :
    (senv : ScanEnv) (now : ℕ) (id state : String) (sid : Option ℕ)
    (change : ScanSession → ScanSession) (p : Plant) {rack : Rack}
    → Dict.lookup id p.world.store.racks ≡ some rack
    → (row : Rack) × (Dict.lookup id (release_scan senv now id state sid change p).world.store.racks
        ≡ some row)
      × (row.lock_holder_user_id ≡ none)
      × (row.scan_state ≡ state)
unfolding release_scan
release_scan-free senv now id state sid change p {rack} found =
    let p' = update_session sid change p in
    let here = set_scan_state-lookup now id state p' (
      ap {B = Option Rack} (λ (w : World). Dict.lookup id w.store.racks)
        (update_session-world sid change p)
      ∙ found) in
    let (row, there, free, kept) =
      session_release-free senv.env now id (set_scan_state now id state p').world here in
    (row, there, free, kept ∙ scanned_row-state now state rack)

remove_self : (id : String) (m : Dict.Dict ℕ) → Dict.lookup id (Dict.remove id m) ≡ none
remove_self id m = Dict.lookup-remove id id m ∙ rw (eq_refl id) refl

scan_completed-IsOver :
    (senv : ScanEnv) (now : ℕ) (id : String) (m : StatusReport) (x : Engine) {rack : Rack}
    → Dict.lookup id x.plant.world.store.racks ≡ some rack
    → IsOver id "complete" (scan_completed senv now id m x)
unfolding scan_completed pop_active
scan_completed-IsOver senv now id m x found =
    let (row, there, free, state) =
      release_scan-free senv now id "complete" m.scan_session_id (completed now) x.plant found in
    record {
      row = row;
      found = there;
      free = free;
      scan_state = state;
      inactive = remove_self id x.active_sessions;
    }

scan_aborted-IsOver :
    (senv : ScanEnv) (now : ℕ) (id : String) (m : StatusReport) (x : Engine) {rack : Rack}
    → Dict.lookup id x.plant.world.store.racks ≡ some rack
    → IsOver id "aborted" (scan_aborted senv now id m x)
unfolding scan_aborted cancel_resume_timer pop_active
scan_aborted-IsOver senv now id m x found =
    let (row, there, free, state) =
      release_scan-free senv now id "aborted" m.scan_session_id (aborted m) x.plant found in
    elim (Bool-cases (is_emergency m.abort_reason)) [
      | inl e ↦ rw e (record {
        row = row;
        found = there;
        free = free;
        scan_state = state;
        inactive = remove_self id x.active_sessions;
      })
      | inr e ↦ rw e (record {
        row = row;
        found = there;
        free = free;
        scan_state = state;
        inactive = remove_self id x.active_sessions;
      })
    ]

-- the status of a report that ends its scan
unfoldable pub ends : String → Bool
ends status = str_eq status "complete" || str_eq status "aborted"

by_status-IsOver :
    (senv : ScanEnv) (now : ℕ) (id : String) (rack : Rack) (m : StatusReport) (x : Engine)
    → Dict.lookup id x.plant.world.store.racks ≡ some rack
    → ends m.status ≡ true
    → IsOver id m.status (by_status senv now id rack m x)
unfolding by_status ends
by_status-IsOver senv now id rack m x found ended = elim (Bool-cases (str_eq m.status "complete")) [
  | inl e ↦ rw e (
      subst (λ s. IsOver id s (scan_completed senv now id m x))
        (sym ((eq_iff m.status "complete").0 e)) (scan_completed-IsOver senv now id m x found))
  | inr e ↦
      let other : str_eq m.status "aborted" ≡ true = (rw e at ended) in
      let is_aborted : m.status ≡ "aborted" = (eq_iff m.status "aborted").0 other in
      let not_paused : str_eq m.status "paused" ≡ false = ap (λ s. str_eq s "paused") is_aborted in
      rw (e, not_paused, other)
        (subst (λ s. IsOver id s (scan_aborted senv now id m x)) (sym is_aborted)
          (scan_aborted-IsOver senv now id m x found))
]

-- A report that a scan is complete or aborted, on a known rack and a working database, leaves the rack
-- unlocked, whoever held the lock, with the report's status as its state and without an active session.
pub on_scan_status-IsOver :
    (senv : ScanEnv) (now : ℕ) (id : String) (rack : Rack) (m : StatusReport) (x : Engine)
    → Dict.lookup id x.plant.world.store.racks ≡ some rack
    → ends m.status ≡ true
    → IsOver id m.status (on_scan_status senv true now (some id) (some m) x)
unfolding on_scan_status on_rack_status broadcast
on_scan_status-IsOver senv now id rack m x found ended =
    let over = by_status-IsOver senv now id rack m x found ended in
    rw (found, on_rack_status)
      (record {
        row = over.row;
        found = over.found;
        free = over.free;
        scan_state = over.scan_state;
        inactive = over.inactive;
      })

scanned_row-holder :
    (now : ℕ) (state : String) (rack : Rack)
    → (scanned_row now state rack).lock_holder_user_id ≡ rack.lock_holder_user_id
unfolding scanned_row
scanned_row-holder now state rack = elim (Bool-cases (str_eq rack.scan_state state)) [
  | inl e ↦ rw e refl
  | inr e ↦ rw e refl
]

-- A progress message that is handled after such a report shows the rack as scanning again, although it
-- is unlocked and has no active session.
pub on_scan_progress-late :
    (senv : ScanEnv) (now later : ℕ) (id : String) (rack : Rack) (m : StatusReport)
    (late : Progress) (x : Engine)
    → Dict.lookup id x.plant.world.store.racks ≡ some rack
    → ends m.status ≡ true
    → IsOver id "running" (
        on_scan_progress true later
          (some id)
          (some late)
          (on_scan_status senv true now (some id) (some m) x))
unfolding on_scan_progress broadcast
on_scan_progress-late senv now later id rack m late x found ended =
    let y = on_scan_status senv true now (some id) (some m) x in
    let over = on_scan_status-IsOver senv now id rack m x found ended in
    let p = update_session late.scan_session_id (progressed late) y.plant in
    let here : Dict.lookup id p.world.store.racks ≡ some over.row =
      ap {B = Option Rack} (λ (w : World). Dict.lookup id w.store.racks)
        (update_session-world late.scan_session_id (progressed late) y.plant)
      ∙ over.found in
    record {
      row = scanned_row later "running" over.row;
      found = set_scan_state-lookup later id "running" p here;
      free = scanned_row-holder later "running" over.row ∙ over.free;
      scan_state = scanned_row-state later "running" over.row;
      inactive = over.inactive;
    }
