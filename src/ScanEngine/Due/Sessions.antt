-- ===== src/ScanEngine/Due/Sessions.antt =====
-- The table of active sessions under the scheduler's job of server/services/scan_engine.py.
use vivarium_connection.Common.{
  ℕ, suc, String, ◌≡◌, refl, Bool, true, false, Bool-cases, Option-cases, inl, inr, List, [], ◌∷◌,
  ◌==◌, Result, ok, raised,
}
use vivarium_connection.Common.Dict
use vivarium_connection.Models.{Rack}
use vivarium_connection.Locking.{LockResult, acquired, already_locked, rack_not_found, Store}
use vivarium_connection.Plant.{Plant}
use vivarium_connection.ScanEngine.{ScanEnv, Engine, pi_alive}
use vivarium_connection.ScanEngine.Due.{
  postpone, postponed, rescheduled, with_lock, fire_gated, fire_online, try_fire_scan, fire_batch,
  handle_batch, handle_batches, check_due_scans,
}
use vivarium_connection.ScanEngine.Handlers.Tracked.{Tracks, begin_scan-Tracks}

postpone-Tracks :
    (db_ok : Bool) (now minutes : ℕ) (id : String) (x : Engine)
    → Tracks x
    → Tracks (postpone db_ok now minutes id x)
unfolding postpone postponed
postpone-Tracks false now minutes id x h = h
postpone-Tracks true now minutes id x h = elim (Option-cases (Dict.lookup id x.plant.schedules)) [
  | inl e ↦ rw (e, postponed) h
  | inr (schedule, e) ↦ rw (e, postponed) h
]

rescheduled-sessions :
    (now : ℕ) (id : String) (p : Plant) → (rescheduled now id p).sessions ≡ p.sessions
unfolding rescheduled
rescheduled-sessions now id p = elim (Option-cases (Dict.lookup id p.schedules)) [
  | inl e ↦ rw (e, rescheduled) refl
  | inr (schedule, e) ↦ rw (e, rescheduled) refl
]

with_lock-Tracks :
    (senv : ScanEnv) (now : ℕ) (id : String) (rack : Rack) (x : Engine)
    (r : Result (LockResult × Store))
    → Tracks x
    → Tracks (with_lock senv now id rack x r)
unfolding with_lock
with_lock-Tracks senv now id rack x (raised e) h = h
with_lock-Tracks senv now id rack x (ok (acquired, s)) h =
    begin_scan-Tracks senv now id rack (rescheduled now id) s x (rescheduled-sessions now id) h
with_lock-Tracks senv now id rack x (ok (already_locked, s)) h = postpone-Tracks true now _ id x h
with_lock-Tracks senv now id rack x (ok (rack_not_found, s)) h = postpone-Tracks true now _ id x h

fire_gated-Tracks :
    (senv : ScanEnv) (now : ℕ) (id : String) (rack : Rack) (locked : Result Bool) (x : Engine)
    → Tracks x
    → Tracks (fire_gated senv now id rack locked x)
unfolding fire_gated
fire_gated-Tracks senv now id rack (raised e) x h = h
fire_gated-Tracks senv now id rack (ok true) x h = postpone-Tracks true now _ id x h
fire_gated-Tracks senv now id rack (ok false) x h = with_lock-Tracks senv now id rack x _ h

fire_online-Tracks :
    (senv : ScanEnv) (db_ok : Bool) (now : ℕ) (id : String) (x : Engine)
    → Tracks x
    → Tracks (fire_online senv db_ok now id x)
unfolding fire_online
fire_online-Tracks senv false now id x h = h
fire_online-Tracks senv true now id x h =
    elim (Option-cases (Dict.lookup id x.plant.world.store.racks)) [
      | inl e ↦ rw (e, fire_online) h
      | inr (rack, e) ↦ rw (e, fire_online) (fire_gated-Tracks senv now id rack _ x h)
    ]

pub try_fire_scan-Tracks :
    (senv : ScanEnv) (db_ok : Bool) (now : ℕ) (id : String) (x : Engine)
    → Tracks x
    → Tracks (try_fire_scan senv db_ok now id x)
unfolding try_fire_scan
try_fire_scan-Tracks senv db_ok now id x h =
    elim (Bool-cases (pi_alive (Dict.lookup id x.plant.world.store.mirror))) [
      | inl e ↦ rw e (fire_online-Tracks senv db_ok now id x h)
      | inr e ↦ rw e (postpone-Tracks db_ok now _ id x h)
    ]

fire_batch-Tracks :
    (senv : ScanEnv) (db_ok : Bool) (now : ℕ) (ids : List String) (x : Engine)
    → Tracks x
    → Tracks (fire_batch senv db_ok now ids x)
unfolding fire_batch
fire_batch-Tracks senv db_ok now [] x h = h
fire_batch-Tracks senv db_ok now (id ∷ ids) x h =
    fire_batch-Tracks senv db_ok now ids (try_fire_scan senv db_ok now id x)
      (try_fire_scan-Tracks senv db_ok now id x h)

handle_batch-Tracks :
    (senv : ScanEnv) (db_ok : Bool) (now minutes : ℕ) (b : List String) (x : Engine)
    → Tracks x
    → Tracks (handle_batch senv db_ok now minutes b x)
unfolding handle_batch
handle_batch-Tracks senv db_ok now minutes b x h = elim (Bool-cases (minutes == 0)) [
  | inl e ↦ rw e (fire_batch-Tracks senv db_ok now b x h)
  | inr e ↦ rw e h
]

handle_batches-Tracks :
    (senv : ScanEnv) (db_ok : Bool) (now idx : ℕ) (bs : List (List String)) (x : Engine)
    → Tracks x
    → Tracks (handle_batches senv db_ok now idx bs x)
unfolding handle_batches
handle_batches-Tracks senv db_ok now idx [] x h = h
handle_batches-Tracks senv db_ok now idx (b ∷ bs) x h =
    handle_batches-Tracks senv db_ok now (suc idx) bs _ (handle_batch-Tracks senv db_ok now _ b x h)

pub check_due_scans-Tracks :
    (senv : ScanEnv) (db_ok : Bool) (now : ℕ) (x : Engine)
    → Tracks x
    → Tracks (check_due_scans senv db_ok now x)
unfolding check_due_scans
check_due_scans-Tracks senv false now x h = h
check_due_scans-Tracks senv true now x h =
    elim (Bool-cases (senv.settings.stagger_group_size == 0)) [
      | inl e ↦ rw e h
      | inr e ↦ rw e (handle_batches-Tracks senv true now 0 _ x h)
    ]
