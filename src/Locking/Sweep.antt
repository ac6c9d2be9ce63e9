-- ===== src/Locking/Sweep.antt =====
-- `sweep_expired_locks` of server/core/locking.py: which racks it releases, and what the mirror
-- shows afterwards.
use vivarium_connection.Common.{
  ℕ, String, ◌≡◌, refl, Bool, true, false, Option, none, some, List, [], ◌∷◌, arith, str_eq, eq_iff,
  eq_refl, Bool-cases, inl, inr, ◌∙◌,
}
use vivarium_connection.Common.Dict
use vivarium_connection.Common.Dict.{Every, Distinct}
use vivarium_connection.Common.Clock.{utc}
use vivarium_connection.Models.{Rack, Racks}
use vivarium_connection.State.{RackState, Mirror, upsert, refresh, assign_all, assign}
use vivarium_connection.Locking.{
  Store, contains, cleared_row, sweep_row, row_due, sweep_due, due_ids, clear_fields, clear_mirrors,
  sweep_transaction,
}
use vivarium_connection.Locking.Agreement.{Agree, Agrees, upserted, lookup-upsert}

pub due_at : ℕ → Option Rack → Bool
due_at now none = false
due_at now (some r) = row_due now r

abbrev pub swept_at : ℕ → Option Rack → Option Rack
swept_at now = Dict.map_option (sweep_row now)

absent_due :
    (now : ℕ) (k : String) (racks : Racks)
    → Dict.lookup k racks ≡ none
    → contains (due_ids now racks) k ≡ false
unfolding Dict.lookup due_ids contains
absent_due now k [] h = refl
absent_due now k ((j, r) ∷ rest) h = ground (arith, absent_due now k rest)

-- The query returns the due racks and no others.
pub contains-due_ids :
    (now : ℕ) (k : String) (racks : Racks)
    → Distinct racks
    → contains (due_ids now racks) k ≡ due_at now (Dict.lookup k racks)
unfolding Dict.lookup due_ids contains due_at
contains-due_ids now k [] d = refl
contains-due_ids now k ((j, r) ∷ rest) d = elim (Bool-cases (str_eq j k)) [
  | inl same ↦ ground (arith, eq_iff j k, absent_due now k rest, contains-due_ids now k rest d.1)
  | inr other ↦ ground (arith, contains-due_ids now k rest d.1)
]

abbrev IsClear : Option RackState → Type 0
IsClear none = ⊥
IsClear (some m) =
    (m.lock_holder_user_id ≡ none) × (m.lock_type ≡ none) × (m.lock_expires_at ≡ none)

IsClear-at :
    (now : ℕ) (id : String) (m : Mirror)
    → IsClear (Dict.lookup id (upsert (utc now) id clear_fields m))
unfolding clear_fields upserted assign_all assign refresh
IsClear-at now id m =
    rw (lookup-upsert (utc now) id id clear_fields m, eq_refl id) (refl, refl, refl)

IsClear-stays :
    (now : ℕ) (ids : List String) (k : String) (m : Mirror)
    → IsClear (Dict.lookup k m)
    → IsClear (Dict.lookup k (clear_mirrors now ids m))
unfolding clear_mirrors
IsClear-stays now [] k m h = h
IsClear-stays now (id ∷ ids) k m h = IsClear-stays now ids k _ (elim (Bool-cases (str_eq id k)) [
  | inl same ↦ rw (← (eq_iff id k).0 same) (IsClear-at now id m)
  | inr other ↦ rw (lookup-upsert (utc now) id k clear_fields m, other) h
])

clear_mirrors_in :
    (now : ℕ) (ids : List String) (k : String) (m : Mirror)
    → contains ids k ≡ true
    → IsClear (Dict.lookup k (clear_mirrors now ids m))
unfolding clear_mirrors contains
clear_mirrors_in now [] k m h = cc
clear_mirrors_in now (id ∷ ids) k m h = elim (Bool-cases (str_eq id k)) [
  | inl same ↦ IsClear-stays now ids k _ (rw (← (eq_iff id k).0 same) (IsClear-at now id m))
  | inr other ↦ clear_mirrors_in now ids k _ (rw other at h)
]

clear_mirrors_out :
    (now : ℕ) (ids : List String) (k : String) (m : Mirror)
    → contains ids k ≡ false
    → Dict.lookup k (clear_mirrors now ids m) ≡ Dict.lookup k m
unfolding clear_mirrors contains
clear_mirrors_out now [] k m h = refl
clear_mirrors_out now (id ∷ ids) k m h = elim (Bool-cases (str_eq id k)) [
  | inl same ↦ cc (rw same at h)
  | inr other ↦
      clear_mirrors_out now ids k _ (rw other at h)
      ∙ rw (lookup-upsert (utc now) id k clear_fields m, other)
]

pub swept_row :
    (now : ℕ) (k : String) (s : Store)
    → Dict.lookup k (sweep_transaction now s).1.racks ≡ swept_at now (Dict.lookup k s.racks)
unfolding sweep_transaction
swept_row now k s = Dict.lookup-map_values (sweep_row now) k s.racks

Agree-clear :
    (now : ℕ) (r : Rack) (m : Option RackState) → IsClear m → Agree (some (cleared_row now r)) m
unfolding cleared_row
Agree-clear now r none h = absurd h
Agree-clear now r (some m) h = h

sweep-Agree :
    (now : ℕ) (k : String) (s : Store) (o : Option Rack)
    → contains (due_ids now s.racks) k ≡ due_at now o
    → Agree o (Dict.lookup k s.mirror)
    → Agree (swept_at now o) (Dict.lookup k (clear_mirrors now (due_ids now s.racks) s.mirror))
unfolding due_at sweep_row
sweep-Agree now k s none e h = tt
sweep-Agree now k s (some r) e h = elim (Bool-cases (row_due now r)) [
  | inl due ↦
      rw due (Agree-clear now r _ (clear_mirrors_in now (due_ids now s.racks) k s.mirror (e ∙ due)))
  | inr kept ↦ rw (kept, clear_mirrors_out now (due_ids now s.racks) k s.mirror (e ∙ kept)) h
]

-- If the ids of the rows are keys and the mirror shows the lock columns of every row, it does so
-- after the sweep.
pub sweep-Agrees :
    (now : ℕ) (s : Store) → Distinct s.racks → Agrees s → Agrees (sweep_transaction now s).1
unfolding sweep_transaction
sweep-Agrees now s d h = λ k.
    rw (swept_row now k s)
      (sweep-Agree now k s (Dict.lookup k s.racks) (contains-due_ids now k s.racks d) (h k))

not_due_again : (now : ℕ) (r : Rack) → row_due now (sweep_row now r) ≡ false
unfolding row_due sweep_row cleared_row sweep_due
not_due_again now r = ground arith

nothing_due : (now : ℕ) (racks : Racks) → due_ids now (Dict.map_values (sweep_row now) racks) ≡ []
unfolding due_ids Dict.map_values
nothing_due now [] = refl
nothing_due now ((k, r) ∷ rest) = rw (not_due_again now r, nothing_due now rest)

-- A sweep at the same clock reading as the sweep before it releases nothing.
pub sweep_twice : (now : ℕ) (s : Store) → (sweep_transaction now (sweep_transaction now s).1).0 ≡ []
unfolding sweep_transaction
sweep_twice now s = nothing_due now s.racks
