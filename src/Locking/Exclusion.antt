-- ===== src/Locking/Exclusion.antt =====
-- Mutual exclusion of `acquire_lock` in server/core/locking.py across sessions. Between two
-- sessions the rows are committed and read back, and the driver's conversion of a datetime is the
-- parameter `driver`: it may drop the time zone, as SQLite's does, and keeps the instant.
use vivarium_connection.Common.{
  ℕ, String, ◌≡◌, ◌<◌, ◌≤◌, ◌+◌, true, Option, none, some, arith, inl, inr, ◌∙◌, subst, sym,
  Option-cases, ok, le→ltb_false, lt→ltb, ltb, if◌then◌else◌,
}
use vivarium_connection.Common.Dict
use vivarium_connection.Common.Clock.{Stamp, seconds}
use vivarium_connection.Models.{Rack}
use vivarium_connection.Locking.{
  LockType, acquired, already_locked, rack_not_found, Settings, Store, expiry_seconds, acquire_lock,
  ensure_utc, grant, granted_store, write, locked_row, contains, blocks,
}

abbrev pub map_stamp : (Stamp → Stamp) → Option Stamp → Option Stamp
map_stamp f none = none
map_stamp f (some t) = some (f t)

unfoldable pub reload_row : (Stamp → Stamp) → Rack → Rack
reload_row driver rack = record rack {
  last_homed_at = map_stamp driver rack.last_homed_at;
  lock_acquired_at = map_stamp driver rack.lock_acquired_at;
  lock_expires_at = map_stamp driver rack.lock_expires_at;
  updated_at = driver rack.updated_at;
}

-- The store as a later session reads it.
pub reload : (Stamp → Stamp) → Store → Store
reload driver s = record s { racks = Dict.map_values (reload_row driver) s.racks }

-- The outcome of `acquire_lock` on a rack that is there.
pub acquire_lock-found :
    (cfg : Settings) (t : ℕ) (id u : String) (kind : LockType) (s : Store) {rack : Rack}
    → Dict.lookup id s.racks ≡ some rack
    → acquire_lock cfg t id u kind s ≡ (
        if blocks t rack.lock_holder_user_id (ensure_utc rack.lock_expires_at)
        then ok (already_locked, s)
        else grant cfg t id u kind rack s)
unfolding acquire_lock
acquire_lock-found cfg t id u kind s found = rw (found, acquire_lock)

pub acquire_lock-absent :
    (cfg : Settings) (t : ℕ) (id u : String) (kind : LockType) (s : Store)
    → Dict.lookup id s.racks ≡ none
    → acquire_lock cfg t id u kind s ≡ ok (rack_not_found, s)
unfolding acquire_lock
acquire_lock-absent cfg t id u kind s absent = rw (absent, acquire_lock)

pub granted_row :
    (cfg : Settings) (t : ℕ) (id u : String) (kind : LockType) (rack : Rack) (s s' : Store)
    → grant cfg t id u kind rack s ≡ ok (acquired, s')
    → (Dict.lookup id s'.racks ≡ some (locked_row cfg t u kind rack)) × (s'.users ≡ s.users)
unfolding grant granted_store write
granted_row cfg t id u kind rack s s' e =
    ground (arith, Dict.lookup-insert_self id (locked_row cfg t u kind rack) s.racks)

pub granted_known :
    (cfg : Settings) (t : ℕ) (id u : String) (kind : LockType) (rack : Rack) (s : Store)
    → contains s.users u ≡ true
    → grant cfg t id u kind rack s ≡ ok (acquired, granted_store cfg t id u kind rack s)
unfolding grant
granted_known cfg t id u kind rack s known = rw known

-- A granted lock is in the row of its rack.
pub acquired_row :
    (cfg : Settings) (t : ℕ) (id u : String) (kind : LockType) (s s' : Store)
    → acquire_lock cfg t id u kind s ≡ ok (acquired, s')
    → (rack : Rack) × (Dict.lookup id s'.racks ≡ some (locked_row cfg t u kind rack))
      × (s'.users ≡ s.users)
acquired_row cfg t id u kind s s' e = elim (Option-cases (Dict.lookup id s.racks)) [
  | inl absent ↦ cc (acquire_lock-absent cfg t id u kind s absent)
  | inr (rack, found) ↦
      let (row, users) =
        granted_row cfg t id u kind rack s s'
          (ground (arith, acquire_lock-found cfg t id u kind s found)) in
      (rack, row, users)
]

-- The row of a granted lock blocks, after any conversion that keeps instants, until its expiry.
pub blocks-reload :
    (cfg : Settings) (driver : Stamp → Stamp) (t t' : ℕ) (u : String) (kind : LockType)
    (rack : Rack)
    → ((x : Stamp) → (driver x).at ≡ x.at)
    → let row = reload_row driver (locked_row cfg t u kind rack) in
      blocks t' row.lock_holder_user_id (ensure_utc row.lock_expires_at)
      ≡ ltb t' (t + seconds (expiry_seconds cfg kind))
unfolding reload_row locked_row blocks ensure_utc
blocks-reload cfg driver t t' u kind rack keeps =
    ground (arith, keeps (record { at = t + seconds (expiry_seconds cfg kind); aware = true }))

pub reloaded :
    (driver : Stamp → Stamp) (id : String) (s : Store) {row : Rack}
    → Dict.lookup id s.racks ≡ some row
    → Dict.lookup id (reload driver s).racks ≡ some (reload_row driver row)
unfolding reload
reloaded driver id s e = rw (Dict.lookup-map_values, e)

module _ (cfg : Settings) (driver : Stamp → Stamp) (t t' : ℕ) (id u v : String)
    (kind kind' : LockType) (s s' : Store) (keeps : (x : Stamp) → (driver x).at ≡ x.at)
    (first : acquire_lock cfg t id u kind s ≡ ok (acquired, s')) where
  -- The second attempt comes down to whether the lock has expired.
  second_attempt :
      (rack : Rack) × (acquire_lock cfg t' id v kind' (reload driver s') ≡ (
        if ltb t' (t + seconds (expiry_seconds cfg kind))
        then ok (already_locked, reload driver s')
        else grant cfg t' id v kind' rack (reload driver s')))
  second_attempt =
      let (rack, row, users) = acquired_row cfg t id u kind s s' first in
      (
        reload_row driver (locked_row cfg t u kind rack),
        rw (acquire_lock-found cfg t' id v kind' (reload driver s') (reloaded driver id s' row))
            (rw (blocks-reload cfg driver t t' u kind rack keeps)),
      )

  -- Once `u` has been granted the lock of a rack at time `t`, an attempt of any user for any kind
  -- of lock, in a later session and before the expiry of the granted lock, is refused and changes
  -- nothing. The driver's conversion of a datetime between the sessions keeps the instant, and may
  -- drop the time zone.
  pub second_refused :
      t' < t + seconds (expiry_seconds cfg kind)
      → acquire_lock cfg t' id v kind' (reload driver s') ≡ ok (already_locked, reload driver s')
  second_refused early = second_attempt.1 ∙ rw (lt→ltb t' _ early)

  -- From the expiry of the granted lock on, swept or not, the same attempt is granted to every user
  -- that the database knows, and the row then names that user as the holder, with an expiry counted
  -- from the attempt.
  pub expired_taken_over :
      t + seconds (expiry_seconds cfg kind) ≤ t'
      → contains s.users v ≡ true
      → (s'' : Store) × (rack : Rack) × (acquire_lock cfg t' id v kind' (reload driver s')
          ≡ ok (acquired, s''))
        × (Dict.lookup id s''.racks ≡ some (locked_row cfg t' v kind' rack))
  unfolding reload
  expired_taken_over late known =
      let (rack, outcome) = second_attempt in
      let (_, _, users) = acquired_row cfg t id u kind s s' first in
      let done =
        granted_known cfg t' id v kind' rack (reload driver s')
          (subst (λ us. contains us v ≡ true) (sym users) known) in
      (
        granted_store cfg t' id v kind' rack (reload driver s'),
        rack,
        outcome ∙ rw (le→ltb_false t' _ late) done,
        (granted_row cfg t' id v kind' rack (reload driver s') _ done).0,
      )
