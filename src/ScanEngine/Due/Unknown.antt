-- ===== src/ScanEngine/Due/Unknown.antt =====
-- The scans of server/services/scan_engine.py that the clock starts, and the user they are locked for.
use vivarium_connection.Common.{
  ℕ, suc, ◌*◌, String, ◌≡◌, refl, ap, ◌∙◌, Bool, true, false, Bool-cases, Option-cases, inl, inr,
  List, [], ◌∷◌, ◌==◌, Result, ok, raised,
}
use vivarium_connection.Common.Dict
use vivarium_connection.Models.{Rack}
use vivarium_connection.Locking.{contains, blocks, ensure_utc, grant, scan, acquire_lock}
use vivarium_connection.Queue.{World}
use vivarium_connection.ScanEngine.{ScanEnv, Engine, scan_system_user_id, pi_alive}
use vivarium_connection.ScanEngine.Due.{
  postpone, postponed, with_lock, fire_gated, fire_online, try_fire_scan, fire_batch, handle_batch,
  handle_batches, check_due_scans,
}

-- The locks, the sessions and the messages are the same.
pub record IsIdle (x y : Engine) : Type 0 where
  pub world : y.plant.world ≡ x.plant.world
  pub sessions : y.plant.sessions ≡ x.plant.sessions
  pub scan_starts : y.plant.scan_starts ≡ x.plant.scan_starts

still : (x : Engine) → IsIdle x x
still x = record { world = refl; sessions = refl; scan_starts = refl }

and_then : (x y z : Engine) → IsIdle x y → IsIdle y z → IsIdle x z
and_then x y z a b = record {
  world = b.world ∙ a.world;
  sessions = b.sessions ∙ a.sessions;
  scan_starts = b.scan_starts ∙ a.scan_starts;
}

postpone-IsIdle :
    (db_ok : Bool) (now minutes : ℕ) (id : String) (x : Engine)
    → IsIdle x (postpone db_ok now minutes id x)
unfolding postpone postponed
postpone-IsIdle false now minutes id x = still x
postpone-IsIdle true now minutes id x = elim (Option-cases (Dict.lookup id x.plant.schedules)) [
  | inl e ↦ rw (e, postponed) (still x)
  | inr (schedule, e) ↦
      rw (e, postponed) (record { world = refl; sessions = refl; scan_starts = refl })
]

acquire-IsIdle :
    (senv : ScanEnv) (now : ℕ) (id : String) (rack : Rack) (x : Engine)
    → contains x.plant.world.store.users scan_system_user_id ≡ false
    → IsIdle x (
        with_lock senv now id rack x
          (acquire_lock senv.env.cfg now id scan_system_user_id scan x.plant.world.store))
unfolding acquire_lock grant with_lock
acquire-IsIdle senv now id rack x unknown =
    elim (Option-cases (Dict.lookup id x.plant.world.store.racks)) [
      | inl e ↦ rw (e, acquire_lock) (postpone-IsIdle true now senv.settings.postpone_minutes id x)
      | inr (row, e) ↦
          rw (e, acquire_lock)
            (elim (Bool-cases
              (blocks now row.lock_holder_user_id (ensure_utc row.lock_expires_at))) [
                | inl held ↦ rw held (postpone-IsIdle true now senv.settings.postpone_minutes id x)
                | inr free ↦ rw (free, unknown) (still x)
              ])
    ]

fire_gated-IsIdle :
    (senv : ScanEnv) (now : ℕ) (id : String) (rack : Rack) (locked : Result Bool) (x : Engine)
    → contains x.plant.world.store.users scan_system_user_id ≡ false
    → IsIdle x (fire_gated senv now id rack locked x)
unfolding fire_gated
fire_gated-IsIdle senv now id rack (raised e) x unknown = still x
fire_gated-IsIdle senv now id rack (ok true) x unknown =
    postpone-IsIdle true now senv.settings.postpone_minutes id x
fire_gated-IsIdle senv now id rack (ok false) x unknown = acquire-IsIdle senv now id rack x unknown

fire_online-IsIdle :
    (senv : ScanEnv) (db_ok : Bool) (now : ℕ) (id : String) (x : Engine)
    → contains x.plant.world.store.users scan_system_user_id ≡ false
    → IsIdle x (fire_online senv db_ok now id x)
unfolding fire_online
fire_online-IsIdle senv false now id x unknown = still x
fire_online-IsIdle senv true now id x unknown =
    elim (Option-cases (Dict.lookup id x.plant.world.store.racks)) [
      | inl e ↦ rw (e, fire_online) (still x)
      | inr (rack, e) ↦ rw (e, fire_online) (fire_gated-IsIdle senv now id rack _ x unknown)
    ]

-- Unless the table of users has one called "_scan_engine", a scan that is due, or whose timer has
-- fired, is never started: no lock, no session, no message.
pub try_fire_scan-IsIdle :
    (senv : ScanEnv) (db_ok : Bool) (now : ℕ) (id : String) (x : Engine)
    → contains x.plant.world.store.users scan_system_user_id ≡ false
    → IsIdle x (try_fire_scan senv db_ok now id x)
unfolding try_fire_scan
try_fire_scan-IsIdle senv db_ok now id x unknown =
    elim (Bool-cases (pi_alive (Dict.lookup id x.plant.world.store.mirror))) [
      | inl e ↦ rw e (fire_online-IsIdle senv db_ok now id x unknown)
      | inr e ↦ rw e (postpone-IsIdle db_ok now senv.settings.postpone_minutes id x)
    ]

fire_batch-IsIdle :
    (senv : ScanEnv) (db_ok : Bool) (now : ℕ) (ids : List String) (x : Engine)
    → contains x.plant.world.store.users scan_system_user_id ≡ false
    → IsIdle x (fire_batch senv db_ok now ids x)
unfolding fire_batch
fire_batch-IsIdle senv db_ok now [] x unknown = still x
fire_batch-IsIdle senv db_ok now (id ∷ ids) x unknown =
    let y = try_fire_scan senv db_ok now id x in
    let first = try_fire_scan-IsIdle senv db_ok now id x unknown in
    and_then x y (fire_batch senv db_ok now ids y) first (
      fire_batch-IsIdle senv db_ok now ids y
        (ap (λ (w : World). contains w.store.users scan_system_user_id) first.world ∙ unknown))

handle_batch-IsIdle :
    (senv : ScanEnv) (db_ok : Bool) (now minutes : ℕ) (b : List String) (x : Engine)
    → contains x.plant.world.store.users scan_system_user_id ≡ false
    → IsIdle x (handle_batch senv db_ok now minutes b x)
unfolding handle_batch
handle_batch-IsIdle senv db_ok now minutes b x unknown = elim (Bool-cases (minutes == 0)) [
  | inl e ↦ rw e (fire_batch-IsIdle senv db_ok now b x unknown)
  | inr e ↦ rw e (record { world = refl; sessions = refl; scan_starts = refl })
]

handle_batches-IsIdle :
    (senv : ScanEnv) (db_ok : Bool) (now idx : ℕ) (bs : List (List String)) (x : Engine)
    → contains x.plant.world.store.users scan_system_user_id ≡ false
    → IsIdle x (handle_batches senv db_ok now idx bs x)
unfolding handle_batches
handle_batches-IsIdle senv db_ok now idx [] x unknown = still x
handle_batches-IsIdle senv db_ok now idx (b ∷ bs) x unknown =
    let minutes = idx * senv.settings.stagger_delay_minutes in
    let y = handle_batch senv db_ok now minutes b x in
    let first = handle_batch-IsIdle senv db_ok now minutes b x unknown in
    and_then x y (handle_batches senv db_ok now (suc idx) bs y) first (
      handle_batches-IsIdle senv db_ok now (suc idx) bs y
        (ap (λ (w : World). contains w.store.users scan_system_user_id) first.world ∙ unknown))

-- Unless the table of users has one called "_scan_engine", the job starts no scan, whatever is due: no
-- lock is taken, no session is made and no message is sent.
pub check_due_scans-IsIdle :
    (senv : ScanEnv) (db_ok : Bool) (now : ℕ) (x : Engine)
    → contains x.plant.world.store.users scan_system_user_id ≡ false
    → IsIdle x (check_due_scans senv db_ok now x)
unfolding check_due_scans
check_due_scans-IsIdle senv false now x unknown = still x
check_due_scans-IsIdle senv true now x unknown =
    elim (Bool-cases (senv.settings.stagger_group_size == 0)) [
      | inl e ↦ rw e (still x)
      | inr e ↦ rw e (handle_batches-IsIdle senv true now 0 _ x unknown)
    ]
