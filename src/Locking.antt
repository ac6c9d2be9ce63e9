-- ===== src/Locking.antt =====
-- server/core/locking.py: the rack locks. A session's view of the database (the `racks` table and
-- the ids of `users`) and the in-memory mirror are threaded through every operation; the clock
-- reading of an operation is its argument `now`.
pub mod Exclusion
pub mod Columns
pub mod Agreement
pub mod Sweep
pub mod History
use vivarium_connection.Common.{
  ℕ, String, ◌≡◌, ◌*◌, max, Bool, true, false, not, ◌&&◌, Option, none, some, List, [], ◌∷◌, str_eq,
  ltb, if◌then◌else◌, is_some, Result, ok, raised, ◌>>=◌, integrity_error, value_error, type_error,
}
use vivarium_connection.Common.Dict
use vivarium_connection.Common.Clock.{Stamp, gt, utc, plus_seconds, seconds}
use vivarium_connection.Models.{Rack, Racks}
use vivarium_connection.State.{
  Assign, Mirror, upsert, lock_holder_user_id, lock_type, lock_expires_at,
}

pub data LockType : Type 0 where
  motion capture scan : LockType

-- lock_type.value
unfoldable pub value : LockType → String
value motion = "motion"
value capture = "capture"
value scan = "scan"

-- LockType(text), which raises ValueError on any other text
unfoldable pub of_value : Option String → Result LockType
of_value none = raised value_error
of_value (some text) =
    if str_eq text "motion"
    then ok motion
    else if str_eq text "capture"
    then ok capture
    else if str_eq text "scan"
    then ok scan
    else raised value_error

pub data LockResult : Type 0 where
  acquired already_locked rack_not_found : LockResult

pub record LockInfo : Type 0 where
  pub rack_id : String
  pub holder_user_id : String
  pub lock_type : LockType
  pub acquired_at : Option Stamp
  pub expires_at : Option Stamp

pub record Settings : Type 0 where
  pub motion_timeout_s : ℕ
  pub capture_lock_timeout_s : ℕ
  pub scan_lock_timeout_s : ℕ
  pub command_timeout_s : ℕ

unfoldable pub expiry_seconds : Settings → LockType → ℕ
expiry_seconds s motion = s.motion_timeout_s
expiry_seconds s capture = s.capture_lock_timeout_s
expiry_seconds s scan = max s.motion_timeout_s s.capture_lock_timeout_s * 2

unfoldable pub ensure_utc : Option Stamp → Option Stamp
ensure_utc none = none
ensure_utc (some dt) = some (if dt.aware then dt else record dt { aware = true })

-- What a session of the program sees and writes.
pub record Store : Type 0 where
  pub users : List String
  pub racks : Racks
  pub mirror : Mirror

unfoldable pub contains : List String → String → Bool
contains [] a = false
contains (x ∷ xs) a = if str_eq x a then true else contains xs a

-- `holder is not None and expiry is not None and expiry > now`, on a normalised expiry
unfoldable pub blocks : ℕ → Option String → Option Stamp → Bool
blocks now none expiry = false
blocks now (some u) none = false
blocks now (some u) (some expiry) = ltb now expiry.at

unfoldable pub locked_row : Settings → ℕ → String → LockType → Rack → Rack
locked_row cfg now user_id kind rack = record rack {
  lock_holder_user_id = some user_id;
  lock_type = some (value kind);
  lock_acquired_at = some (utc now);
  lock_expires_at = some (plus_seconds (utc now) (expiry_seconds cfg kind));
  updated_at = utc now;
}

-- A row is written and flushed, and then the mirror's entry is updated.
unfoldable pub write : ℕ → String → Rack → List Assign → Store → Store
write now rack_id row fields s = record s {
  racks = Dict.insert rack_id row s.racks;
  mirror = upsert (utc now) rack_id fields s.mirror;
}

unfoldable pub lock_fields : Settings → ℕ → String → LockType → List Assign
lock_fields cfg now user_id kind =
    lock_holder_user_id (some user_id)
    ∷ lock_type (some (value kind))
    ∷ lock_expires_at (some (plus_seconds (utc now) (expiry_seconds cfg kind)))
    ∷ []

-- The row and the mirror once the lock is granted.
unfoldable pub granted_store : Settings → ℕ → String → String → LockType → Rack → Store → Store
granted_store cfg now rack_id user_id kind rack s =
    write now rack_id (locked_row cfg now user_id kind rack) (lock_fields cfg now user_id kind) s

-- The flush checks the foreign key `lock_holder_user_id → users.id` (PRAGMA foreign_keys=ON): it
-- raises IntegrityError for an unknown user, before the mirror is written.
unfoldable pub grant :
    Settings → ℕ → String → String → LockType → Rack → Store → Result (LockResult × Store)
grant cfg now rack_id user_id kind rack s =
    if contains s.users user_id
    then ok (acquired, granted_store cfg now rack_id user_id kind rack s)
    else raised integrity_error

unfoldable pub acquire_lock :
    Settings → ℕ → String → String → LockType → Store → Result (LockResult × Store)
acquire_lock cfg now rack_id user_id kind s = elim (Dict.lookup rack_id s.racks) [
  | none ↦ ok (rack_not_found, s)
  | some rack ↦
      if blocks now rack.lock_holder_user_id (ensure_utc rack.lock_expires_at)
      then ok (already_locked, s)
      else grant cfg now rack_id user_id kind rack s
]

-- The four lock columns cleared, as release and sweep both do.
unfoldable pub cleared_row : ℕ → Rack → Rack
cleared_row now rack = record rack {
  lock_holder_user_id = none;
  lock_type = none;
  lock_acquired_at = none;
  lock_expires_at = none;
  updated_at = utc now;
}

unfoldable pub clear_fields : List Assign
clear_fields = lock_holder_user_id none ∷ lock_type none ∷ lock_expires_at none ∷ []

-- `release_lock` up to the callbacks: the result says whether a lock was released, and with
-- `trigger_queue` the callbacks of the rack are fired exactly then (`fire_released` of the queue).
unfoldable pub release_lock : ℕ → String → Store → Bool × Store
release_lock now rack_id s = elim (Dict.lookup rack_id s.racks) [
  | none ↦ (false, s)
  | some rack ↦
      if is_some rack.lock_holder_user_id
      then (true, write now rack_id (cleared_row now rack) clear_fields s)
      else (false, s)
]

unfoldable pub extended_row : ℕ → ℕ → Rack → Rack
extended_row now additional_seconds rack = record rack {
  lock_expires_at = some (plus_seconds (utc now) additional_seconds);
  updated_at = utc now;
}

unfoldable pub extend_fields : ℕ → ℕ → List Assign
extend_fields now additional_seconds =
    lock_expires_at (some (plus_seconds (utc now) additional_seconds)) ∷ []

unfoldable pub extend_lock : ℕ → String → ℕ → Store → Bool × Store
extend_lock now rack_id additional_seconds s = elim (Dict.lookup rack_id s.racks) [
  | none ↦ (false, s)
  | some rack ↦
      if is_some rack.lock_holder_user_id
      then (
        true,
        write now rack_id (extended_row now additional_seconds rack)
            (extend_fields now additional_seconds) s,
      )
      else (false, s)
]

unfoldable pub lock_info :
    String → Option String → Option String → Option Stamp → Option Stamp → Result (Option LockInfo)
lock_info rack_id none kind acquired_at expires_at = ok none
lock_info rack_id (some holder) kind acquired_at expires_at = do
  k ← of_value kind
  ok (
      some (record {
        rack_id = rack_id;
        holder_user_id = holder;
        lock_type = k;
        acquired_at = ensure_utc acquired_at;
        expires_at = ensure_utc expires_at;
      }))

unfoldable pub get_lock_info : String → Store → Result (Option LockInfo)
get_lock_info rack_id s = elim (Dict.lookup rack_id s.racks) [
  | none ↦ ok none
  | some rack ↦
      lock_info rack_id rack.lock_holder_user_id rack.lock_type rack.lock_acquired_at
        rack.lock_expires_at
]

-- LockInfo.is_expired; comparing with None raises TypeError
unfoldable pub is_expired : ℕ → LockInfo → Result Bool
is_expired now info = elim info.expires_at [ none ↦ raised type_error | some t ↦ gt (utc now) t ]

-- `info is not None and not info.is_expired`
unfoldable pub unexpired : ℕ → Option LockInfo → Result Bool
unexpired now none = ok false
unexpired now (some info) = do b ← is_expired now info; ok (not b)

unfoldable pub is_locked : ℕ → String → Store → Result Bool
is_locked now rack_id s = do info ← get_lock_info rack_id s; unexpired now info

-- The filter of the sweep's query: the database compares instants, without time zones.
unfoldable pub sweep_due : ℕ → Option String → Option Stamp → Bool
sweep_due now none expiry = false
sweep_due now (some u) none = false
sweep_due now (some u) (some expiry) = ltb expiry.at now

unfoldable pub row_due : ℕ → Rack → Bool
row_due now rack = sweep_due now rack.lock_holder_user_id rack.lock_expires_at

unfoldable pub due_ids : ℕ → Racks → List String
due_ids now [] = []
due_ids now ((id, rack) ∷ rest) =
    let ids = due_ids now rest in if row_due now rack then id ∷ ids else ids

unfoldable pub sweep_row : ℕ → Rack → Rack
sweep_row now rack = if row_due now rack then cleared_row now rack else rack

unfoldable pub clear_mirrors : ℕ → List String → Mirror → Mirror
clear_mirrors now [] mirror = mirror
clear_mirrors now (id ∷ ids) mirror =
    clear_mirrors now ids (upsert (utc now) id clear_fields mirror)

-- The transaction of `sweep_expired_locks`: the released ids, and the store after its commit.
unfoldable pub sweep_transaction : ℕ → Store → List String × Store
sweep_transaction now s =
    let released = due_ids now s.racks in
    (
      released,
      record s {
        racks = Dict.map_values (sweep_row now) s.racks;
        mirror = clear_mirrors now released s.mirror;
      },
    )
