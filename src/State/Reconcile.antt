-- ===== src/State/Reconcile.antt =====
-- `reconcile_from_db` of server/core/state.py: last write wins, rack by rack.
use vivarium_connection.Common.{
  ℕ, String, ◌≡◌, refl, sym, subst, ap, ◌∙◌, ◌⊎◌, Bool, true, false, Option, none, some, List, [],
  ◌∷◌, arith, str_eq, eq_iff, Bool-cases, inl, inr, Option-cases, ok, raised, type_error, All,
  if◌then◌else◌, leb,
}
use vivarium_connection.Common.Dict
use vivarium_connection.Common.Clock.{Stamp, ge, utc}
use vivarium_connection.Models.{Rack}
use vivarium_connection.State.{
  RackState, Assign, Mirror, from_row, refresh, upsert, overwrite, should_overwrite,
  reconcile_from_db,
}

-- What one row leaves at its rack: the row, unless the mirror holds a later update.
unfoldable pub newer : Rack → Option RackState → RackState
newer rack none = from_row rack
newer rack (some s) = elim s.updated_at [
  | none ↦ from_row rack
  | some mem ↦ if leb mem.at rack.updated_at.at then from_row rack else s
]

-- What a list of rows leaves at rack `k`, which held `o`.
unfoldable pub settle : String → List Rack → Option RackState → Option RackState
settle k [] o = o
settle k (r ∷ rs) o = settle k rs (if str_eq r.id k then some (newer r o) else o)

abbrev pub InZone : Bool → Option RackState → Type 0
InZone z none = Unit
InZone z (some s) = (mem : Stamp) → s.updated_at ≡ some mem → mem.aware ≡ z

-- Every time stamp of the mirror carries the same kind of zone.
abbrev pub Zoned : Bool → Mirror → Type 0
Zoned z racks = (k : String) → InZone z (Dict.lookup k racks)

ge_same : (a b : Stamp) → b.aware ≡ a.aware → ge a b ≡ ok (leb b.at a.at)
unfolding ge
ge_same a b e = ground arith

should_overwrite_lem :
    (o : Option RackState) (rack : Rack)
    → InZone rack.updated_at.aware o
    → (b : Bool) × (should_overwrite o rack ≡ ok b)
      × ((if b then some (from_row rack) else o) ≡ some (newer rack o))
unfolding should_overwrite newer
should_overwrite_lem none rack z = (true, refl, refl)
should_overwrite_lem (some s) rack z = elim (Option-cases s.updated_at) [
  | inl e ↦ (true, rw (e, should_overwrite), rw (e, newer))
  | inr (mem, e) ↦ (
    leb mem.at rack.updated_at.at,
    rw (e, should_overwrite) (ge_same rack.updated_at mem (z mem e)),
    rw (e, newer) (ground arith),
  )
]

lookup-overwrite :
    (b : Bool) (rack : Rack) (racks : Mirror) (k : String)
    → Dict.lookup k (overwrite b rack racks) ≡ (
        if str_eq rack.id k
        then (if b then some (from_row rack) else Dict.lookup rack.id racks)
        else Dict.lookup k racks)
unfolding overwrite
lookup-overwrite true rack racks k = Dict.lookup-insert rack.id k _ racks
lookup-overwrite false rack racks k = elim (Bool-cases (str_eq rack.id k)) [
  | inl e ↦ rw e (rw ((eq_iff rack.id k).0 e))
  | inr e ↦ rw e refl
]

InZone-newer :
    (rack : Rack) (o : Option RackState)
    → InZone rack.updated_at.aware o
    → InZone rack.updated_at.aware (some (newer rack o))
unfolding newer from_row
InZone-newer rack none z = λ mem e. ground arith
InZone-newer rack (some s) z = λ mem e. ground (arith, z mem)

pub lookup-step :
    (b : Bool) (rack : Rack) (racks : Mirror) (k : String)
    → ((if b then some (from_row rack) else Dict.lookup rack.id racks)
        ≡ some (newer rack (Dict.lookup rack.id racks)))
    → Dict.lookup k (overwrite b rack racks)
      ≡ (if str_eq rack.id k then some (newer rack (Dict.lookup k racks)) else Dict.lookup k racks)
lookup-step b rack racks k h = elim (Bool-cases (str_eq rack.id k)) [
  | inl e ↦ rw (lookup-overwrite b rack racks k, e, h, (eq_iff rack.id k).0 e)
  | inr e ↦ rw (lookup-overwrite b rack racks k, e)
]

overwrite-Zoned :
    (b : Bool) (rack : Rack) (racks : Mirror)
    → ((if b then some (from_row rack) else Dict.lookup rack.id racks)
        ≡ some (newer rack (Dict.lookup rack.id racks)))
    → Zoned rack.updated_at.aware racks
    → Zoned rack.updated_at.aware (overwrite b rack racks)
overwrite-Zoned b rack racks h z =
    λ k. rw (lookup-step b rack racks k h) (at k (Bool-cases (str_eq rack.id k)))
  where
    at :
        (k : String)
        → (str_eq rack.id k ≡ true) ⊎ (str_eq rack.id k ≡ false)
        → InZone rack.updated_at.aware (
            if str_eq rack.id k
            then some (newer rack (Dict.lookup k racks))
            else Dict.lookup k racks)
    at k (inl e) = rw e (InZone-newer rack (Dict.lookup k racks) (z k))
    at k (inr e) = rw e (z k)

-- If every time stamp of the rows and of the mirror carries the same kind of zone, reconciling
-- raises nothing, and leaves at each rack what its rows settle in order: the later of the row and
-- the state held, the row if they are equally old; a rack without a row keeps its state.
pub reconcile-settle :
    (z : Bool) (rows : List Rack) (racks : Mirror)
    → All (λ (r : Rack). r.updated_at.aware ≡ z) rows
    → Zoned z racks
    → ((reconcile_from_db rows racks).1 ≡ ok tt)
      × ((k : String)
          → Dict.lookup k (reconcile_from_db rows racks).0 ≡ settle k rows (Dict.lookup k racks))
unfolding reconcile_from_db settle
reconcile-settle z [] racks a h = (refl, λ k. refl)
reconcile-settle z (r ∷ rs) racks a h =
    let hz = subst (λ z'. Zoned z' racks) (sym a.0) h in
    let (b, decided, kept) = should_overwrite_lem (Dict.lookup r.id racks) r (hz r.id) in
    let after =
      subst (λ z'. Zoned z' (overwrite b r racks)) a.0 (overwrite-Zoned b r racks kept hz) in
    let rest = reconcile-settle z rs (overwrite b r racks) a.1 after in
    rw (decided, reconcile_from_db)
      (rest.0, λ k. rest.1 k ∙ ap (settle k rs) (lookup-step b r racks k kept))

mixed_raises :
    (rack : Rack) (rest : List Rack) (racks : Mirror) (s : RackState) (mem : Stamp)
    → Dict.lookup rack.id racks ≡ some s
    → s.updated_at ≡ some mem
    → mem.aware ≡ true
    → rack.updated_at.aware ≡ false
    → reconcile_from_db (rack ∷ rest) racks ≡ (racks, raised type_error)
unfolding reconcile_from_db should_overwrite ge
mixed_raises rack rest racks s mem e f m naive = ground arith

-- A mirror entry written by `upsert` carries an aware time stamp, so a row of the same rack whose
-- `updated_at` was read back naive makes the reconciliation raise TypeError before it writes
-- anything, whatever the fields of the update and the rows behind it.
pub reconcile-upsert_raises :
    (t : ℕ) (kwargs : List Assign) (racks : Mirror) (rack : Rack) (rest : List Rack)
    → rack.updated_at.aware ≡ false
    → let racks' = upsert (utc t) rack.id kwargs racks in
      reconcile_from_db (rack ∷ rest) racks' ≡ (racks', raised type_error)
unfolding upsert refresh
reconcile-upsert_raises t kwargs racks rack rest naive =
    mixed_raises rack rest _ _ (utc t) (Dict.lookup-insert_self rack.id _ racks) refl refl naive
