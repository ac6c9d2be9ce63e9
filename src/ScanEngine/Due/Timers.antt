-- ===== src/ScanEngine/Due/Timers.antt =====
-- The scans of server/services/scan_engine.py that are started at once set no timer.
use vivarium_connection.Common.{
  ℕ, String, ◌≡◌, refl, ◌∙◌, Bool, true, false, Bool-cases, inl, inr, List, [], ◌∷◌, Result, ok,
  raised, Option-cases,
}
use vivarium_connection.Common.Dict
use vivarium_connection.Models.{Rack}
use vivarium_connection.Locking.{LockResult, acquired, already_locked, rack_not_found, Store}
use vivarium_connection.Plant.{ScanStart}
use vivarium_connection.ScanEngine.{
  ScanEnv, Engine, pi_alive, begin_scan, publish_scan_start, set_active,
}
use vivarium_connection.ScanEngine.Due.{
  postpone, with_lock, fire_gated, fire_online, try_fire_scan, fire_batch,
}

publish_scan_start-staggered :
    (senv : ScanEnv) (m : ScanStart) (x : Engine)
    → (publish_scan_start senv m x).staggered ≡ x.staggered
unfolding publish_scan_start
publish_scan_start-staggered senv m x = elim (Bool-cases (senv.sends m)) [
  | inl e ↦ rw e refl
  | inr e ↦ rw e refl
]

with_lock-staggered :
    (senv : ScanEnv) (now : ℕ) (id : String) (rack : Rack) (x : Engine)
    (r : Result (LockResult × Store))
    → (with_lock senv now id rack x r).staggered ≡ x.staggered
unfolding with_lock begin_scan postpone set_active
with_lock-staggered senv now id rack x (raised e) = refl
with_lock-staggered senv now id rack x (ok (acquired, store)) =
    publish_scan_start-staggered senv _ _
with_lock-staggered senv now id rack x (ok (already_locked, store)) = refl
with_lock-staggered senv now id rack x (ok (rack_not_found, store)) = refl

fire_gated-staggered :
    (senv : ScanEnv) (now : ℕ) (id : String) (rack : Rack) (locked : Result Bool) (x : Engine)
    → (fire_gated senv now id rack locked x).staggered ≡ x.staggered
unfolding fire_gated postpone
fire_gated-staggered senv now id rack (raised e) x = refl
fire_gated-staggered senv now id rack (ok true) x = refl
fire_gated-staggered senv now id rack (ok false) x = with_lock-staggered senv now id rack x _

fire_online-staggered :
    (senv : ScanEnv) (db_ok : Bool) (now : ℕ) (id : String) (x : Engine)
    → (fire_online senv db_ok now id x).staggered ≡ x.staggered
unfolding fire_online
fire_online-staggered senv false now id x = refl
fire_online-staggered senv true now id x =
    elim (Option-cases (Dict.lookup id x.plant.world.store.racks)) [
      | inl e ↦ rw (e, fire_online) refl
      | inr (rack, e) ↦ rw (e, fire_online) (fire_gated-staggered senv now id rack _ x)
    ]

try_fire_scan-staggered :
    (senv : ScanEnv) (db_ok : Bool) (now : ℕ) (id : String) (x : Engine)
    → (try_fire_scan senv db_ok now id x).staggered ≡ x.staggered
unfolding try_fire_scan postpone
try_fire_scan-staggered senv db_ok now id x =
    elim (Bool-cases (pi_alive (Dict.lookup id x.plant.world.store.mirror))) [
      | inl e ↦ rw e (fire_online-staggered senv db_ok now id x)
      | inr e ↦ rw e (elim (Bool-cases db_ok) [ inl b ↦ rw b refl | inr b ↦ rw b refl ])
    ]

pub fire_batch-staggered :
    (senv : ScanEnv) (db_ok : Bool) (now : ℕ) (ids : List String) (x : Engine)
    → (fire_batch senv db_ok now ids x).staggered ≡ x.staggered
unfolding fire_batch
fire_batch-staggered senv db_ok now [] x = refl
fire_batch-staggered senv db_ok now (id ∷ ids) x =
    fire_batch-staggered senv db_ok now ids (try_fire_scan senv db_ok now id x)
    ∙ try_fire_scan-staggered senv db_ok now id x
