-- ===== src/Locking/Agreement.antt =====
-- The rows of `racks` against the in-memory mirror under the operations of server/core/locking.py.
use vivarium_connection.Common.{
  ℕ, String, ◌≡◌, refl, true, Option, none, some, List, arith, is_some, str_eq, if◌then◌else◌,
  Option-cases, Bool-cases, inl, inr,
}
use vivarium_connection.Common.Dict
use vivarium_connection.Common.Dict.{Every, Distinct}
use vivarium_connection.Common.Clock.{Stamp, utc}
use vivarium_connection.Models.{Rack}
use vivarium_connection.State.{
  RackState, Assign, Mirror, upsert, refresh, assign_all, assign, fresh,
}
use vivarium_connection.Locking.{
  LockType, Store, locked_row, cleared_row, extended_row, clear_fields, extend_fields, lock_fields,
  write, Settings, granted_store,
}

-- The mirror shows the lock columns of the row; a rack that it does not know is not locked.
abbrev pub Agree : Option Rack → Option RackState → Type 0
Agree none m = Unit
Agree (some r) none = r.lock_holder_user_id ≡ none
Agree (some r) (some m) =
    (m.lock_holder_user_id ≡ r.lock_holder_user_id)
    × (m.lock_type ≡ r.lock_type)
    × (m.lock_expires_at ≡ r.lock_expires_at)

abbrev pub Agrees : Store → Type 0
Agrees s = (k : String) → Agree (Dict.lookup k s.racks) (Dict.lookup k s.mirror)

unfoldable pub upserted : Stamp → String → List Assign → Mirror → RackState
upserted now id kwargs m = refresh now (assign_all kwargs (Dict.get_or id m (fresh id)))

pub lookup-upsert :
    (now : Stamp) (id k : String) (kwargs : List Assign) (m : Mirror)
    → Dict.lookup k (upsert now id kwargs m)
      ≡ (if str_eq id k then some (upserted now id kwargs m) else Dict.lookup k m)
unfolding upsert upserted
lookup-upsert now id k kwargs m = Dict.lookup-insert id k _ m

-- A row and a mirror entry written at one key.
write-Agrees :
    (now : ℕ) (id : String) (r : Rack) (fields : List Assign) (s : Store)
    → Agree (some r) (some (upserted (utc now) id fields s.mirror))
    → Agrees s
    → Agrees (write now id r fields s)
unfolding write
write-Agrees now id r fields s new old = λ k. elim (Bool-cases (str_eq id k)) [
  | inl same ↦
      rw (Dict.lookup-insert id k r s.racks, lookup-upsert (utc now) id k fields s.mirror, same) new
  | inr other ↦
      rw (Dict.lookup-insert id k r s.racks, lookup-upsert (utc now) id k fields s.mirror, other)
        (old k)
]

pub granted_store-Agrees :
    (cfg : Settings) (now : ℕ) (id u : String) (kind : LockType) (r : Rack) (s : Store)
    → Agrees s
    → Agrees (granted_store cfg now id u kind r s)
unfolding granted_store locked_row lock_fields upserted assign_all assign refresh
granted_store-Agrees cfg now id u kind r s h =
    write-Agrees now id (locked_row cfg now u kind r) (lock_fields cfg now u kind) s
      (refl, refl, refl) h

pub cleared-Agrees :
    (now : ℕ) (id : String) (r : Rack) (s : Store)
    → Agrees s
    → Agrees (write now id (cleared_row now r) clear_fields s)
unfolding cleared_row clear_fields upserted assign_all assign refresh
cleared-Agrees now id r s h =
    write-Agrees now id (cleared_row now r) clear_fields s (refl, refl, refl) h

extended_Agree :
    (now n : ℕ) (id : String) (r : Rack) (m : Mirror)
    → is_some r.lock_holder_user_id ≡ true
    → Agree (some r) (Dict.lookup id m)
    → Agree (some (extended_row now n r)) (some (upserted (utc now) id (extend_fields now n) m))
unfolding extended_row extend_fields upserted assign_all assign refresh Dict.get_or
extended_Agree now n id r m l h = elim (Option-cases (Dict.lookup id m)) [
  | inl absent ↦ ground (arith, rw absent at h)
  | inr (x, found) ↦ rw (found, Dict.get_or) ((rw found at h).0, (rw found at h).1, refl)
]

pub extended-Agrees :
    (now n : ℕ) (id : String) (r : Rack) (s : Store)
    → Dict.lookup id s.racks ≡ some r
    → is_some r.lock_holder_user_id ≡ true
    → Agrees s
    → Agrees (write now id (extended_row now n r) (extend_fields now n) s)
extended-Agrees now n id r s found l h =
    write-Agrees now id (extended_row now n r) (extend_fields now n) s
      (extended_Agree now n id r s.mirror l (rw found at (h id))) h
