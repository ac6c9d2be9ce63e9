-- ===== src/Locking/History.antt =====
-- Histories of lock operations of server/core/locking.py, each a committed transaction; one that
-- raises is rolled back.
use vivarium_connection.Common.{
  ℕ, String, ◌≡◌, refl, Bool, true, false, Option, none, some, List, [], ◌∷◌, arith, is_some,
  if◌then◌else◌, Result, ok, raised, Option-cases, Bool-cases, inl, inr, ◌∙◌, sym, ap,
}
use vivarium_connection.Common.Dict
use vivarium_connection.Common.Dict.{Every, Distinct}
use vivarium_connection.Common.Clock.{Stamp}
use vivarium_connection.Models.{Rack}
use vivarium_connection.State.{Assign}
use vivarium_connection.Locking.{
  LockType, LockResult, already_locked, Store, Settings, contains, locked_row, cleared_row,
  extended_row, blocks, sweep_row, row_due, sweep_due, write, clear_fields, extend_fields,
  lock_fields, grant, granted_store, acquire_lock, release_lock, extend_lock, sweep_transaction,
  is_locked, ensure_utc,
}
use vivarium_connection.Locking.Exclusion.{acquire_lock-found, acquire_lock-absent}
use vivarium_connection.Locking.Columns.{
  HasColumns, Columns, free, held, locked_row-HasColumns, cleared_row-HasColumns,
  extended_row-HasColumns, sweep_row-HasColumns, live, row_live, is_locked_lem,
}
use vivarium_connection.Locking.Agreement.{
  Agrees, granted_store-Agrees, cleared-Agrees, extended-Agrees,
}
use vivarium_connection.Locking.Sweep.{swept_row, sweep-Agrees}

pub data Call : Type 0 where
  acquires : ℕ → String → String → LockType → Call
  releases : ℕ → String → Call
  extends : ℕ → String → ℕ → Call
  sweeps : ℕ → Call

pub after : Result (LockResult × Store) → Store → Store
after (ok (r, s')) s = s'
after (raised e) s = s

pub step : Settings → Call → Store → Store
step cfg (acquires now id u kind) s = after (acquire_lock cfg now id u kind s) s
step cfg (releases now id) s = (release_lock now id s).1
step cfg (extends now id n) s = (extend_lock now id n s).1
step cfg (sweeps now) s = (sweep_transaction now s).1

pub run : Settings → List Call → Store → Store
run cfg [] s = s
run cfg (c ∷ cs) s = run cfg cs (step cfg c s)

-- The ids are keys, the lock columns of every row are set and cleared together, and the mirror
-- shows the lock columns of every row.
pub record IsSound (s : Store) : Type 0 where
  pub distinct : Distinct s.racks
  pub columns : Every (HasColumns s.users) s.racks
  pub agrees : Agrees s

write-IsSound :
    (now : ℕ) (id : String) (r : Rack) (fields : List Assign) (s : Store)
    → HasColumns s.users r
    → Agrees (write now id r fields s)
    → IsSound s
    → IsSound (write now id r fields s)
unfolding write
write-IsSound now id r fields s c a h = record {
  distinct = Dict.insert-Distinct id r s.racks h.distinct;
  columns = Dict.insert-Every (HasColumns s.users) id r s.racks c h.columns;
  agrees = a;
}

grant-IsSound :
    (cfg : Settings) (now : ℕ) (id u : String) (kind : LockType) (r : Rack) (s : Store)
    → IsSound s
    → IsSound (after (grant cfg now id u kind r s) s)
unfolding grant granted_store after
grant-IsSound cfg now id u kind r s h = elim (Bool-cases (contains s.users u)) [
  | inl known ↦ rw known (
      write-IsSound now id (locked_row cfg now u kind r) (lock_fields cfg now u kind) s
        (locked_row-HasColumns cfg s.users now u kind r known)
        (granted_store-Agrees cfg now id u kind r s h.agrees) h)
  | inr unknown ↦ rw unknown h
]

acquire-IsSound :
    (cfg : Settings) (now : ℕ) (id u : String) (kind : LockType) (s : Store)
    → IsSound s
    → IsSound (after (acquire_lock cfg now id u kind s) s)
unfolding after
acquire-IsSound cfg now id u kind s h = elim (Option-cases (Dict.lookup id s.racks)) [
  | inl absent ↦ rw (acquire_lock-absent cfg now id u kind s absent) h
  | inr (r, found) ↦
      rw (acquire_lock-found cfg now id u kind s found)
        (branch (blocks now r.lock_holder_user_id (ensure_utc r.lock_expires_at)) r)
]
  where
    branch :
        (b : Bool) (r : Rack)
        → IsSound (after (if b then ok (already_locked, s) else grant cfg now id u kind r s) s)
    branch true r = h
    branch false r = grant-IsSound cfg now id u kind r s h

release-IsSound :
    (now : ℕ) (id : String) (s : Store) → IsSound s → IsSound (release_lock now id s).1
unfolding release_lock
release-IsSound now id s h = elim (Option-cases (Dict.lookup id s.racks)) [
  | inl absent ↦ rw (absent, release_lock) h
  | inr (r, found) ↦ rw (found, release_lock) (branch (is_some r.lock_holder_user_id) r)
]
  where
    branch :
        (b : Bool) (r : Rack)
        → IsSound
            (if◌then◌else◌ {A = Bool × Store} b
              (true, write now id (cleared_row now r) clear_fields s)
              (false, s)).1
    branch true r =
        write-IsSound now id (cleared_row now r) clear_fields s
          (cleared_row-HasColumns s.users now r) (cleared-Agrees now id r s h.agrees) h
    branch false r = h

extend-IsSound :
    (now : ℕ) (id : String) (n : ℕ) (s : Store) → IsSound s → IsSound (extend_lock now id n s).1
unfolding extend_lock
extend-IsSound now id n s h = elim (Option-cases (Dict.lookup id s.racks)) [
  | inl absent ↦ rw (absent, extend_lock) h
  | inr (r, found) ↦
      rw (found, extend_lock)
        (elim (Bool-cases (is_some r.lock_holder_user_id)) [
          | inl locked ↦ rw locked (
              write-IsSound now id (extended_row now n r) (extend_fields now n) s
                (extended_row-HasColumns s.users now n r locked (h.columns id r found))
                (extended-Agrees now n id r s found locked h.agrees) h)
          | inr open_ ↦ rw open_ h
        ])
]

sweep-IsSound : (now : ℕ) (s : Store) → IsSound s → IsSound (sweep_transaction now s).1
unfolding sweep_transaction
sweep-IsSound now s h = record {
  distinct = Dict.map_values-Distinct (sweep_row now) s.racks h.distinct;
  columns =
      Dict.map_values-Every (HasColumns s.users) (sweep_row now) s.racks
        (λ r c. sweep_row-HasColumns s.users now r c) h.columns;
  agrees = sweep-Agrees now s h.distinct h.agrees;
}

step-IsSound : (cfg : Settings) (c : Call) (s : Store) → IsSound s → IsSound (step cfg c s)
unfolding step
step-IsSound cfg (acquires now id u kind) s h = acquire-IsSound cfg now id u kind s h
step-IsSound cfg (releases now id) s h = release-IsSound now id s h
step-IsSound cfg (extends now id n) s h = extend-IsSound now id n s h
step-IsSound cfg (sweeps now) s h = sweep-IsSound now s h

-- After any history of acquire, release, extend and sweep calls from a sound store, the store is
-- sound: the four lock columns of every row are null or set together, with a holder that the
-- database knows and a type that `LockType` reads back, and the mirror shows the holder, type and
-- expiry of every row.
pub run-IsSound : (cfg : Settings) (cs : List Call) (s : Store) → IsSound s → IsSound (run cfg cs s)
unfolding run
run-IsSound cfg [] s h = h
run-IsSound cfg (c ∷ cs) s h = run-IsSound cfg cs (step cfg c s) (step-IsSound cfg c s h)

pub holder_of : Option Rack → Option String
holder_of none = none
holder_of (some r) = r.lock_holder_user_id

-- For one row: a lock that is due is not live, and a lock that is kept is.
swept-Columns :
    {us : List String} (now : ℕ) {h t : Option String} {a e : Option Stamp}
    → Columns us h t a e
    → live now h e ≡ (if sweep_due now h e then false else is_some h)
unfolding live sweep_due
swept-Columns now free = refl
swept-Columns now (held u text kind a e p q) = ground arith

swept_live :
    {us : List String} (now : ℕ) (r : Rack)
    → HasColumns us r
    → (row_live now (some (sweep_row now r)) ≡ row_live now (some r))
      × (row_live now (some r) ≡ is_some (holder_of (some (sweep_row now r))))
unfolding row_live sweep_row row_due cleared_row holder_of live
swept_live now r c = elim (Bool-cases (sweep_due now r.lock_holder_user_id r.lock_expires_at)) [
  | inl due ↦ rw due (sym (swept-Columns now c ∙ rw due), swept-Columns now c ∙ rw due)
  | inr kept ↦ rw kept (refl, swept-Columns now c ∙ rw kept)
]

-- From a sound store the sweep changes no answer of `is_locked`: it clears only locks whose expiry
-- has passed. Afterwards it has cleared all of those: a rack has a holder exactly when `is_locked`
-- says so.
pub is_locked-sweep :
    (now : ℕ) (id : String) (s : Store)
    → IsSound s
    → let s' = (sweep_transaction now s).1 in
      (is_locked now id s' ≡ is_locked now id s)
      × (is_locked now id s' ≡ ok (is_some (holder_of (Dict.lookup id s'.racks))))
is_locked-sweep now id s h =
    let after_ = is_locked_lem now id (sweep_transaction now s).1 (sweep-IsSound now s h).columns in
    let (same, exact) = rows in
    (after_ ∙ ap ok same ∙ sym (is_locked_lem now id s h.columns), after_ ∙ ap ok (same ∙ exact))
  where
    rows :
        (row_live now (Dict.lookup id (sweep_transaction now s).1.racks)
          ≡ row_live now (Dict.lookup id s.racks))
        × (row_live now (Dict.lookup id s.racks)
            ≡ is_some (holder_of (Dict.lookup id (sweep_transaction now s).1.racks)))
    rows = elim (Option-cases (Dict.lookup id s.racks)) [
      | inl absent ↦ rw (swept_row now id s, absent) (unfold row_live holder_of in (refl, refl))
      | inr (r, found) ↦ rw (swept_row now id s, found) (swept_live now r (h.columns id r found))
    ]
