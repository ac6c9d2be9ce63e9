-- ===== src/State/Online.antt =====
-- The derived flag of server/core/state.py: `pi_online` against `mqtt_status`.
use vivarium_connection.Common.{
  String, ◌≡◌, refl, Bool, true, false, some, List, [], ◌∷◌, arith, str_eq, Result, ok, raised,
  Error, inl, inr, ◌⊎◌,
}
use vivarium_connection.Common.Dict
use vivarium_connection.Common.Clock.{Stamp}
use vivarium_connection.Models.{Rack}
use vivarium_connection.State.{
  RackState, Assign, Mirror, refresh, upsert, remove, overwrite, should_overwrite,
  reconcile_from_db,
}

abbrev pub IsDerived : RackState → Type 0
IsDerived s = s.pi_online ≡ str_eq s.mqtt_status "online"

-- Every state of the mirror has the flag that its status says.
pub record IsSynced (racks : Mirror) : Type 0 where
  pub at_rack : (k : String) (s : RackState) → Dict.lookup k racks ≡ some s → IsDerived s

insert-IsSynced :
    (k : String) (s : RackState) (racks : Mirror)
    → IsDerived s
    → IsSynced racks
    → IsSynced (Dict.insert k s racks)
insert-IsSynced k s racks d h = record {
  at_rack = λ j t e. ground (arith, Dict.lookup-insert k j s racks, h.at_rack j t);
}

upsert-IsSynced :
    (now : Stamp) (k : String) (kwargs : List Assign) (racks : Mirror)
    → IsSynced racks
    → IsSynced (upsert now k kwargs racks)
unfolding upsert refresh
upsert-IsSynced now k kwargs racks h = insert-IsSynced k _ racks refl h

remove-IsSynced : (k : String) (racks : Mirror) → IsSynced racks → IsSynced (remove k racks)
unfolding remove
remove-IsSynced k racks h = record {
  at_rack = λ j t e. ground (arith, Dict.lookup-remove k j racks, h.at_rack j t);
}

overwrite-IsSynced :
    (b : Bool) (rack : Rack) (racks : Mirror) → IsSynced racks → IsSynced (overwrite b rack racks)
unfolding overwrite
overwrite-IsSynced true rack racks h = insert-IsSynced rack.id _ racks refl h
overwrite-IsSynced false rack racks h = h

Result-cases {ℓ} :
    {A : Type ℓ} (r : Result A) → ((a : A) × (r ≡ ok a)) ⊎ ((e : Error) × (r ≡ raised e))
Result-cases (ok a) = inl (a, refl)
Result-cases (raised e) = inr (e, refl)

reconcile-IsSynced :
    (rows : List Rack) (racks : Mirror) → IsSynced racks → IsSynced (reconcile_from_db rows racks).0
unfolding reconcile_from_db
reconcile-IsSynced [] racks h = h
reconcile-IsSynced (rack ∷ rest) racks h =
    elim (Result-cases (should_overwrite (Dict.lookup rack.id racks) rack)) [
      | inl (b, e) ↦
          rw (e, reconcile_from_db)
            (reconcile-IsSynced rest (overwrite b rack racks) (overwrite-IsSynced b rack racks h))
      | inr (x, e) ↦ rw (e, reconcile_from_db) h
    ]

-- The write calls of the mirror.
pub data Call : Type 0 where
  upserts : Stamp → String → List Assign → Call
  removes : String → Call
  reconciles : List Rack → Call

pub apply : Call → Mirror → Mirror
apply (upserts now k kwargs) racks = upsert now k kwargs racks
apply (removes k) racks = remove k racks
apply (reconciles rows) racks = (reconcile_from_db rows racks).0

pub apply_all : List Call → Mirror → Mirror
apply_all [] racks = racks
apply_all (c ∷ cs) racks = apply_all cs (apply c racks)

apply-IsSynced : (c : Call) (racks : Mirror) → IsSynced racks → IsSynced (apply c racks)
unfolding apply
apply-IsSynced (upserts now k kwargs) racks h = upsert-IsSynced now k kwargs racks h
apply-IsSynced (removes k) racks h = remove-IsSynced k racks h
apply-IsSynced (reconciles rows) racks h = reconcile-IsSynced rows racks h

apply_all-IsSynced :
    (cs : List Call) (racks : Mirror) → IsSynced racks → IsSynced (apply_all cs racks)
unfolding apply_all
apply_all-IsSynced [] racks h = h
apply_all-IsSynced (c ∷ cs) racks h =
    apply_all-IsSynced cs (apply c racks) (apply-IsSynced c racks h)

empty-IsSynced : IsSynced []
unfolding Dict.lookup
empty-IsSynced = record { at_rack = λ k s e. ground arith }

-- After any calls of `upsert`, `remove` and `reconcile_from_db` on the empty mirror, whatever
-- fields they assign and whether or not a reconciliation raises, `pi_online` of every rack is true
-- exactly when its `mqtt_status` is "online".
pub reachable-IsSynced : (cs : List Call) → IsSynced (apply_all cs [])
reachable-IsSynced cs = apply_all-IsSynced cs [] empty-IsSynced
