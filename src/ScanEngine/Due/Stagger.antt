-- ===== src/ScanEngine/Due/Stagger.antt =====
-- How the job of server/services/scan_engine.py spreads the due scans over time.
use mathlib.Core.List.{append_assoc, append-nil}
use vivarium_connection.Common.{
  ℕ, zero, suc, ◌+◌, ◌*◌, ◌≤◌, ◌<◌, String, ◌≡◌, refl, sym, ap, ◌∙◌, subst, Bool, true, false, inl,
  inr, ◌⊎◌, List, [], ◌∷◌, ◌++◌, ◌==◌, length, arith,
}
use vivarium_connection.Common.Clock.{seconds}
use vivarium_connection.Plant.{Plant}
use vivarium_connection.ScanEngine.{ScanEnv, Engine}
use vivarium_connection.ScanEngine.Due.{
  due_rack_ids, take, drop, batches, fire_batch, timers_of, handle_batch, handle_batches,
  check_due_scans,
}
use vivarium_connection.ScanEngine.Due.Batches.{
  names, take-drop, later_batches-bounded, names-append, count, count-append, timers_from,
  count-timers_from, start_of, later_batches, names-timers_from, concat-later_batches,
}
use vivarium_connection.ScanEngine.Due.Timers.{fire_batch-staggered}

handle_batch-later :
    (senv : ScanEnv) (db_ok : Bool) (now minutes : ℕ) (b : List String) (x : Engine)
    → 0 < minutes
    → (handle_batch senv db_ok now minutes b x).staggered
      ≡ x.staggered ++ timers_of (now + seconds (minutes * 60)) b
unfolding handle_batch
handle_batch-later senv db_ok now minutes b x h =
    let later : (minutes == 0) ≡ false = ground arith in rw later refl

handle_batches-staggered :
    (senv : ScanEnv) (db_ok : Bool) (now idx : ℕ) (bs : List (List String)) (x : Engine)
    → 0 < senv.settings.stagger_delay_minutes
    → (handle_batches senv db_ok now (suc idx) bs x).staggered
      ≡ x.staggered ++ timers_from now senv.settings.stagger_delay_minutes (suc idx) bs
unfolding handle_batches timers_from
handle_batches-staggered senv db_ok now idx [] x h = sym (append-nil x.staggered)
handle_batches-staggered senv db_ok now idx (b ∷ bs) x h =
    let delay = senv.settings.stagger_delay_minutes in
    let rest = timers_from now delay (suc (suc idx)) bs in
    handle_batches-staggered senv db_ok now (suc idx) bs
      (handle_batch senv db_ok now (suc idx * delay) b x) h
    ∙ ap (λ l. l ++ rest) (handle_batch-later senv db_ok now (suc idx * delay) b x (ground arith))
    ∙ append_assoc x.staggered (timers_of (start_of now delay (suc idx)) b) rest

handle_batch-first :
    (senv : ScanEnv) (now delay : ℕ) (b : List String) (x : Engine)
    → handle_batch senv true now (0 * delay) b x ≡ fire_batch senv true now b x
unfolding handle_batch
handle_batch-first senv now delay b x =
    let at_once : (0 * delay == 0) ≡ true = ground arith in rw at_once refl

-- The first batch is started at once, the others wait.
first_batch-staggered :
    (senv : ScanEnv) (now size : ℕ) (ids : List String) (x : Engine)
    → 0 < senv.settings.stagger_delay_minutes
    → (handle_batches senv true now 0 (batches (length ids) (suc size) ids) x).staggered
      ≡ x.staggered
        ++ timers_from now senv.settings.stagger_delay_minutes 1 (later_batches size ids)
unfolding batches later_batches drop handle_batches timers_from
first_batch-staggered senv now size [] x h = sym (append-nil x.staggered)
first_batch-staggered senv now size (id ∷ ids) x h =
    let rest = later_batches size (id ∷ ids) in
    let x' = fire_batch senv true now (take (suc size) (id ∷ ids)) x in
    ap {B = List (ℕ × String)} (λ y. (handle_batches senv true now 1 rest y).staggered)
      (handle_batch-first senv now senv.settings.stagger_delay_minutes (take (suc size) (id ∷ ids))
        x)
    ∙ handle_batches-staggered senv true now 0 rest x' h
    ∙ ap (λ l. l ++ timers_from now senv.settings.stagger_delay_minutes 1 rest)
        (fire_batch-staggered senv true now (take (suc size) (id ∷ ids)) x)

check_due_scans-staggered :
    (senv : ScanEnv) (now size : ℕ) (x : Engine)
    → senv.settings.stagger_group_size ≡ suc size
    → 0 < senv.settings.stagger_delay_minutes
    → (check_due_scans senv true now x).staggered
      ≡ x.staggered
        ++ timers_from now senv.settings.stagger_delay_minutes 1
            (later_batches size (due_rack_ids now x.plant.world.store.racks x.plant.schedules))
unfolding check_due_scans
check_due_scans-staggered senv now size x e h =
    let some_group : (senv.settings.stagger_group_size == 0) ≡ false = ground arith in
    rw some_group (
      subst
        (λ n.
          (handle_batches senv true now 0
            (batches (length (due_rack_ids now x.plant.world.store.racks x.plant.schedules)) n
              (due_rack_ids now x.plant.world.store.racks x.plant.schedules))
            x).staggered
          ≡ x.staggered
            ++ timers_from now senv.settings.stagger_delay_minutes 1
                (later_batches size (due_rack_ids now x.plant.world.store.racks x.plant.schedules)))
        (sym e)
        (first_batch-staggered senv now size
          (due_rack_ids now x.plant.world.store.racks x.plant.schedules) x h))

Nat-cases : (n : ℕ) → (n ≡ 0) ⊎ ((m : ℕ) × (n ≡ suc m))
Nat-cases zero = inl refl
Nat-cases (suc n) = inr (n, refl)

handle_batches-plant :
    (senv : ScanEnv) (now idx : ℕ) (bs : List (List String)) (x : Engine)
    → 0 < senv.settings.stagger_delay_minutes
    → (handle_batches senv true now (suc idx) bs x).plant ≡ x.plant
unfolding handle_batches handle_batch
handle_batches-plant senv now idx [] x h = refl
handle_batches-plant senv now idx (b ∷ bs) x h =
    let later : (suc idx * senv.settings.stagger_delay_minutes == 0) ≡ false = ground arith in
    handle_batches-plant senv now (suc idx) bs
      (handle_batch senv true now (suc idx * senv.settings.stagger_delay_minutes) b x) h
    ∙ rw later refl

-- What a check leaves, of a group size that is not 0: the first group, started at once.
first_batch-plant :
    (senv : ScanEnv) (now size : ℕ) (ids : List String) (x : Engine)
    → 0 < senv.settings.stagger_delay_minutes
    → (handle_batches senv true now 0 (batches (length ids) (suc size) ids) x).plant
      ≡ (fire_batch senv true now (take (suc size) ids) x).plant
unfolding batches take handle_batches fire_batch
first_batch-plant senv now size [] x h = refl
first_batch-plant senv now size (id ∷ ids) x h =
    let rest = batches (length ids) (suc size) (drop (suc size) (id ∷ ids)) in
    ap {B = Plant} (λ y. (handle_batches senv true now 1 rest y).plant)
      (handle_batch-first senv now senv.settings.stagger_delay_minutes (take (suc size) (id ∷ ids))
        x)
    ∙ handle_batches-plant senv now 0 rest (fire_batch senv true now (take (suc size) (id ∷ ids)) x)
        h

check_due_scans-plant :
    (senv : ScanEnv) (now size : ℕ) (x : Engine)
    → senv.settings.stagger_group_size ≡ suc size
    → 0 < senv.settings.stagger_delay_minutes
    → (check_due_scans senv true now x).plant
      ≡ (fire_batch senv true now
          (take (suc size) (due_rack_ids now x.plant.world.store.racks x.plant.schedules))
          x).plant
unfolding check_due_scans
check_due_scans-plant senv now size x e h =
    let some_group : (senv.settings.stagger_group_size == 0) ≡ false = ground arith in
    rw some_group (
      subst
        (λ n.
          (handle_batches senv true now 0
            (batches (length (due_rack_ids now x.plant.world.store.racks x.plant.schedules)) n
              (due_rack_ids now x.plant.world.store.racks x.plant.schedules))
            x).plant
          ≡ (fire_batch senv true now
              (take (suc size) (due_rack_ids now x.plant.world.store.racks x.plant.schedules))
              x).plant)
        (sym e)
        (first_batch-plant senv now size
          (due_rack_ids now x.plant.world.store.racks x.plant.schedules) x h))

-- A check of a working database leaves no due rack out: the first group is tried at once, rack by
-- rack, and each rack behind it gets a timer, in the order of the query.
pub check_due_scans-names :
    (senv : ScanEnv) (now : ℕ) (x : Engine)
    → 0 < senv.settings.stagger_group_size
    → 0 < senv.settings.stagger_delay_minutes
    → let ids = due_rack_ids now x.plant.world.store.racks x.plant.schedules in
      let size = senv.settings.stagger_group_size in
      let x' = check_due_scans senv true now x in
      (x'.plant ≡ (fire_batch senv true now (take size ids) x).plant)
      × (names x'.staggered ≡ names x.staggered ++ drop size ids)
      × (take size ids ++ drop size ids ≡ ids)
check_due_scans-names senv now x size delay = elim (Nat-cases senv.settings.stagger_group_size) [
  | inl e ↦ ground arith
  | inr (m, e) ↦
      let ids = due_rack_ids now x.plant.world.store.racks x.plant.schedules in
      (
        check_due_scans-plant senv now m x e delay
            ∙ ap (λ n. (fire_batch senv true now (take n ids) x).plant) (sym e),
        ap names (check_due_scans-staggered senv now m x e delay)
            ∙ names-append x.staggered
                (timers_from now senv.settings.stagger_delay_minutes 1 (later_batches m ids))
            ∙ ap (λ l. names x.staggered ++ l)
                (names-timers_from now senv.settings.stagger_delay_minutes 1 (later_batches m ids)
                  ∙ concat-later_batches m ids
                  ∙ ap (λ n. drop n ids) (sym e)),
        take-drop senv.settings.stagger_group_size ids,
      )
]

-- A check adds at most one group of timers for any one time.
pub check_due_scans-bounded :
    (senv : ScanEnv) (db_ok : Bool) (now t : ℕ) (x : Engine)
    → 0 < senv.settings.stagger_delay_minutes
    → count t (check_due_scans senv db_ok now x).staggered
      ≤ count t x.staggered + senv.settings.stagger_group_size
unfolding check_due_scans
check_due_scans-bounded senv false now t x delay = ground arith
check_due_scans-bounded senv true now t x delay =
    elim (Nat-cases senv.settings.stagger_group_size) [
      | inl e ↦
          let none_fit : (senv.settings.stagger_group_size == 0) ≡ true = ground arith in
          rw none_fit (ground arith)
      | inr (m, e) ↦
          let ids = due_rack_ids now x.plant.world.store.racks x.plant.schedules in
          let added = timers_from now senv.settings.stagger_delay_minutes 1 (later_batches m ids) in
          let sum =
            ap (count t) (check_due_scans-staggered senv now m x e delay)
            ∙ count-append t x.staggered added in
          let small =
            count-timers_from t now senv.settings.stagger_delay_minutes 1 (suc m)
              (later_batches m ids) delay (later_batches-bounded m ids) in
          omega arith
    ]
