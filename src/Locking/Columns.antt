-- ===== src/Locking/Columns.antt =====
-- The four lock columns of a row of `racks` in server/core/locking.py: set together and cleared
-- together. So no read of a lock raises.
use vivarium_connection.Common.{
  ℕ, String, ◌≡◌, refl, Bool, true, false, not, Option, none, some, List, arith, ltb, is_some,
  if◌then◌else◌, ok, ◌>>=◌, Option-cases, inl, inr,
}
use vivarium_connection.Common.Dict
use vivarium_connection.Common.Dict.{Every}
use vivarium_connection.Common.Clock.{Stamp, gt}
use vivarium_connection.Models.{Rack}
use vivarium_connection.Locking.{
  LockType, motion, capture, scan, value, of_value, Store, contains, locked_row, cleared_row,
  extended_row, sweep_row, row_due, get_lock_info, lock_info, unexpired, is_expired, is_locked,
  ensure_utc, Settings,
}

-- The columns are all null, or all set: then the holder is a known user and the type is one that
-- `LockType` reads back.
pub data Columns (us : List String)
    : Option String → Option String → Option Stamp → Option Stamp → Type 0 where
  free : Columns us none none none none
  held :
      (u text : String) (kind : LockType) (a e : Stamp)
      → text ≡ value kind
      → contains us u ≡ true
      → Columns us (some u) (some text) (some a) (some e)

abbrev pub HasColumns : List String → Rack → Type 0
HasColumns us r = Columns us r.lock_holder_user_id r.lock_type r.lock_acquired_at r.lock_expires_at

pub locked_row-HasColumns :
    (cfg : Settings) (us : List String) (now : ℕ) (u : String) (kind : LockType) (r : Rack)
    → contains us u ≡ true
    → HasColumns us (locked_row cfg now u kind r)
unfolding locked_row
locked_row-HasColumns cfg us now u kind r known = held u _ kind _ _ refl known

pub cleared_row-HasColumns :
    (us : List String) (now : ℕ) (r : Rack) → HasColumns us (cleared_row now r)
unfolding cleared_row
cleared_row-HasColumns us now r = free

extend-Columns :
    {us : List String} {h t : Option String} {a e : Option Stamp} (x : Stamp)
    → Columns us h t a e
    → is_some h ≡ true
    → Columns us h t a (some x)
extend-Columns x free l = cc
extend-Columns x (held u text kind a e p q) l = held u text kind a x p q

pub extended_row-HasColumns :
    (us : List String) (now n : ℕ) (r : Rack)
    → is_some r.lock_holder_user_id ≡ true
    → HasColumns us r
    → HasColumns us (extended_row now n r)
unfolding extended_row
extended_row-HasColumns us now n r l c = extend-Columns _ c l

pub sweep_row-HasColumns :
    (us : List String) (now : ℕ) (r : Rack) → HasColumns us r → HasColumns us (sweep_row now r)
unfolding sweep_row
sweep_row-HasColumns us now r c = due (row_due now r)
  where
    due : (b : Bool) → HasColumns us (if b then cleared_row now r else r)
    due true = cleared_row-HasColumns us now r
    due false = c

of_value-value : (kind : LockType) → of_value (some (value kind)) ≡ ok kind
unfolding of_value value
of_value-value motion = refl
of_value-value capture = refl
of_value-value scan = refl

-- The lock is held, and its expiry has not passed.
unfoldable pub live : ℕ → Option String → Option Stamp → Bool
live now none e = false
live now (some u) none = false
live now (some u) (some e) = not (ltb e.at now)

unfoldable pub row_live : ℕ → Option Rack → Bool
row_live now none = false
row_live now (some r) = live now r.lock_holder_user_id r.lock_expires_at

lock_info-live :
    {us : List String} (now : ℕ) (id : String) {h t : Option String} {a e : Option Stamp}
    → Columns us h t a e
    → (lock_info id h t a e >>= unexpired now) ≡ ok (live now h e)
unfolding lock_info unexpired is_expired gt ensure_utc live
lock_info-live now id free = refl
lock_info-live now id (held u text kind a e p q) = rw (p, of_value-value kind) (ground arith)

-- If every row has its lock columns set together, `is_locked` raises nothing, whatever zones the
-- driver gave the datetimes, and says of any rack whether a lock is held whose expiry has not
-- passed.
pub is_locked_lem :
    (now : ℕ) (id : String) (s : Store)
    → Every (HasColumns s.users) s.racks
    → is_locked now id s ≡ ok (row_live now (Dict.lookup id s.racks))
unfolding is_locked row_live get_lock_info unexpired
is_locked_lem now id s h = elim (Option-cases (Dict.lookup id s.racks)) [
  | inl absent ↦ rw (absent, get_lock_info) refl
  | inr (r, found) ↦ rw (found, get_lock_info) (lock_info-live now id (h id r found))
]
