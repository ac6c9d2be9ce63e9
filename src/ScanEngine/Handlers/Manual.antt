-- ===== src/ScanEngine/Handlers/Manual.antt =====
-- Scans that an operator starts, in server/services/scan_engine.py and server/core/queue_manager.py.
use vivarium_connection.Common.{
  ℕ, ◌+◌, ◌<◌, String, str_eq, ◌≡◌, refl, sym, ap, ◌∙◌, Bool, true, false, Bool-cases, Option-cases,
  ◌⊎◌, inl, inr, Option, some, arith, Result, ok, raised, lt→ltb,
}
use vivarium_connection.Common.Dict
use vivarium_connection.Common.Clock.{Stamp, seconds}
use vivarium_connection.Common.Text.{Text}
use vivarium_connection.Models.{Rack}
use vivarium_connection.Locking.{
  LockResult, acquired, already_locked, rack_not_found, scan, Store, acquire_lock, blocks,
  ensure_utc, expiry_seconds, locked_row,
}
use vivarium_connection.Locking.Exclusion.{reload_row, reloaded, acquired_row, blocks-reload}
use vivarium_connection.Queue.{World, queued, submit, enqueue}
use vivarium_connection.Queue.Blocked.{IsOrdinary, submit-blocked}
use vivarium_connection.Queue.Order.{reload_world}
use vivarium_connection.Plant.{Plant, ScanStart, set_racks}
use vivarium_connection.ScanEngine.{
  ScanEnv, Engine, pi_alive, scanned_row, set_scan_state, publish_scan_start, begin_scan,
  set_active,
}
use vivarium_connection.ScanEngine.Handlers.{
  Answer, scan_published, error_pi_offline, error_rack_not_found, with_operator_lock,
  trigger_online, trigger_manual_scan,
}

with_operator_lock-same :
    (senv : ScanEnv) (now : ℕ) (id : String) (rack : Rack) (x : Engine)
    (r : Result (LockResult × Store))
    → let (x', a) = with_operator_lock senv now id rack x r in (a ≡ scan_published) ⊎ (x' ≡ x)
unfolding with_operator_lock
with_operator_lock-same senv now id rack x (raised e) = inr refl
with_operator_lock-same senv now id rack x (ok (already_locked, s)) = inr refl
with_operator_lock-same senv now id rack x (ok (rack_not_found, s)) = inr refl
with_operator_lock-same senv now id rack x (ok (acquired, s)) = inl refl

trigger_online-same :
    (senv : ScanEnv) (db_ok : Bool) (now : ℕ) (id user : String) (x : Engine)
    → let (x', a) = trigger_online senv db_ok now id user x in (a ≡ scan_published) ⊎ (x' ≡ x)
unfolding trigger_online
trigger_online-same senv false now id user x = inr refl
trigger_online-same senv true now id user x =
    elim (Option-cases (Dict.lookup id x.plant.world.store.racks)) [
      | inl absent ↦ rw (absent, trigger_online) (inr refl)
      | inr (rack, found) ↦
          rw (found, trigger_online) (with_operator_lock-same senv now id rack x _)
    ]

-- An operator's scan that is not published changes nothing; in particular the answer "queued" puts
-- nothing in a queue.
pub trigger_manual_scan-same :
    (senv : ScanEnv) (db_ok : Bool) (now : ℕ) (id user : String) (x : Engine)
    → let (x', a) = trigger_manual_scan senv db_ok now id user x in (a ≡ scan_published) ⊎ (x' ≡ x)
unfolding trigger_manual_scan
trigger_manual_scan-same senv db_ok now id user x =
    elim (Bool-cases (pi_alive (Dict.lookup id x.plant.world.store.mirror))) [
      | inr e ↦ rw e (inr refl)
      | inl e ↦ rw e (trigger_online-same senv db_ok now id user x)
    ]

with_operator_lock-published :
    (senv : ScanEnv) (now : ℕ) (id : String) (rack : Rack) (x x' : Engine)
    (r : Result (LockResult × Store))
    → with_operator_lock senv now id rack x r ≡ (x', scan_published)
    → (s : Store) × (r ≡ ok (acquired, s)) × (begin_scan senv now id rack (λ p. p) s x ≡ x')
unfolding with_operator_lock
with_operator_lock-published senv now id rack x x' (raised e) h = ground arith
with_operator_lock-published senv now id rack x x' (ok (already_locked, s)) h = ground arith
with_operator_lock-published senv now id rack x x' (ok (rack_not_found, s)) h = ground arith
with_operator_lock-published senv now id rack x x' (ok (acquired, s)) h =
    (s, refl, ap {B = Engine} (λ (y : Engine × Answer). y.0) h)

pub trigger_online-published :
    (senv : ScanEnv) (db_ok : Bool) (now : ℕ) (id user : String) (x x' : Engine)
    → trigger_online senv db_ok now id user x ≡ (x', scan_published)
    → (s : Store) × (rack : Rack) × (acquire_lock senv.env.cfg now id user scan x.plant.world.store
        ≡ ok (acquired, s))
      × (begin_scan senv now id rack (λ p. p) s x ≡ x')
unfolding trigger_online
trigger_online-published senv false now id user x x' h = ground arith
trigger_online-published senv true now id user x x' h =
    elim (Option-cases (Dict.lookup id x.plant.world.store.racks)) [
      | inl absent ↦
          let impossible : (x, error_rack_not_found) ≡ (x', scan_published) =
            (rw (absent, trigger_online) at h) in
          ground arith
      | inr (rack, found) ↦
          let (s, locked, begun) =
            with_operator_lock-published senv now id rack x x' _
              (rw (found, trigger_online) at h) in
          (s, rack, locked, begun)
    ]

pub trigger-published :
    (senv : ScanEnv) (db_ok : Bool) (now : ℕ) (id user : String) (x x' : Engine)
    → trigger_manual_scan senv db_ok now id user x ≡ (x', scan_published)
    → trigger_online senv db_ok now id user x ≡ (x', scan_published)
unfolding trigger_manual_scan
trigger-published senv db_ok now id user x x' h =
    elim (Bool-cases (pi_alive (Dict.lookup id x.plant.world.store.mirror))) [
      | inr e ↦
          let impossible : (x, error_pi_offline) ≡ (x', scan_published) = (rw e at h) in
          ground arith
      | inl e ↦ rw e at h
    ]

scanned-blocks :
    (driver : Stamp → Stamp) (now t : ℕ) (state : String) (rack : Rack)
    → let row = reload_row driver (scanned_row now state rack) in
      let row' = reload_row driver rack in
      blocks t row.lock_holder_user_id (ensure_utc row.lock_expires_at)
      ≡ blocks t row'.lock_holder_user_id (ensure_utc row'.lock_expires_at)
unfolding reload_row scanned_row
scanned-blocks driver now t state rack = elim (Bool-cases (str_eq rack.scan_state state)) [
  | inl e ↦ rw e refl
  | inr e ↦ rw e refl
]

pub publish_scan_start-world :
    (senv : ScanEnv) (m : ScanStart) (x : Engine)
    → (publish_scan_start senv m x).plant.world ≡ x.plant.world
unfolding publish_scan_start
publish_scan_start-world senv m x = elim (Bool-cases (senv.sends m)) [
  | inl e ↦ rw e refl
  | inr e ↦ rw e refl
]

pub set_scan_state-lookup :
    (now : ℕ) (id state : String) (p : Plant) {row : Rack}
    → Dict.lookup id p.world.store.racks ≡ some row
    → Dict.lookup id (set_scan_state now id state p).world.store.racks
      ≡ some (scanned_row now state row)
unfolding set_scan_state set_racks
set_scan_state-lookup now id state p e =
    rw (e, set_scan_state) (Dict.lookup-insert_self id _ p.world.store.racks)

begin_scan-lookup :
    (senv : ScanEnv) (now : ℕ) (id : String) (rack : Rack) (s : Store) (x : Engine) {row : Rack}
    → Dict.lookup id s.racks ≡ some row
    → Dict.lookup id (begin_scan senv now id rack (λ p. p) s x).plant.world.store.racks
      ≡ some (scanned_row now "running" row)
unfolding begin_scan set_active
begin_scan-lookup senv now id rack s x e =
    ap {B = Option Rack} (λ (w : World). Dict.lookup id w.store.racks)
      (publish_scan_start-world senv _ _)
    ∙ set_scan_state-lookup now id "running" _ e

-- Once an operator's scan is published and its caller has committed the database session, every
-- command for the rack but an emergency stop, sent by anyone before the expiry of the scan's lock, is
-- queued and not published. Rows are read back with their instants kept.
pub trigger_manual_scan-excludes :
    (senv : ScanEnv) (driver : Stamp → Stamp) (db_ok : Bool) (now t : ℕ) (id user : String)
    (command : Text) (sender : Option String) (x x' : Engine)
    → ((d : Stamp) → (driver d).at ≡ d.at)
    → trigger_manual_scan senv db_ok now id user x ≡ (x', scan_published)
    → t < now + seconds (expiry_seconds senv.env.cfg scan)
    → IsOrdinary command
    → let w = reload_world driver x'.plant.world in
      submit senv.env false t id command sender w ≡ (enqueue t id command sender w, ok queued)
unfolding reload_world
trigger_manual_scan-excludes senv driver db_ok now t id user command sender x x' keeps e early o =
    let (s, rack, locked, begun) =
      trigger_online-published senv db_ok now id user x x'
        (trigger-published senv db_ok now id user x x' e) in
    let (old, row, users) =
      acquired_row senv.env.cfg now id user scan x.plant.world.store s locked in
    let found =
      ap {B = Option Rack} (λ (y : Engine). Dict.lookup id y.plant.world.store.racks) (sym begun)
      ∙ begin_scan-lookup senv now id rack s x row in
    submit-blocked senv.env false t id command sender (reload_world driver x'.plant.world)
      (record {
        row =
            reload_row driver
              (scanned_row now "running" (locked_row senv.env.cfg now user scan old));
        found = reloaded driver id x'.plant.world.store found;
        locked =
            scanned-blocks driver now t "running" (locked_row senv.env.cfg now user scan old)
            ∙ blocks-reload senv.env.cfg driver now t user scan old keeps
            ∙ lt→ltb t _ early;
      })
      o
