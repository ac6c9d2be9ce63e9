-- ===== src/Examples/Locks.antt =====
-- The theorems on server/core/state.py and server/core/locking.py at concrete racks.
use vivarium_connection.Common.{
  str_eq, Bool-cases, inl, inr, subst, ◌≡◌, refl, true, false, some, List, [], ◌∷◌, arith, ok,
  raised, type_error,
}
use vivarium_connection.Common.Dict
use vivarium_connection.Common.Clock.{Stamp, utc}
use vivarium_connection.Models.{Rack}
use vivarium_connection.State.{Mirror, homed_x, upsert, reconcile_from_db, from_row}
use vivarium_connection.State.Reconcile.{Zoned, reconcile-upsert_raises}
use vivarium_connection.Locking.{
  motion, scan, acquired, already_locked, Store, acquire_lock, grant, granted_store, blocks,
  ensure_utc, contains, expiry_seconds,
}
use vivarium_connection.Locking.Exclusion.{reload, second_refused}
use vivarium_connection.Locking.Columns.{HasColumns, free}
use vivarium_connection.Locking.History.{
  Call, acquires, sweeps, releases, run, run-IsSound, IsSound,
}
use vivarium_connection.Examples.{rack_row, people, settings, free_store, held_store, naive}

abbrev granted : Store
granted = granted_store settings 0 "rack-1" "alice" motion rack_row free_store

granted_lem : acquire_lock settings 0 "rack-1" "alice" motion free_store ≡ ok (acquired, granted)
unfolding acquire_lock Dict.lookup blocks grant contains ensure_utc
granted_lem = refl

second_refused_example :
    acquire_lock settings 14000000 "rack-1" "bob" scan (reload naive granted)
    ≡ ok (already_locked, reload naive granted)
unfolding expiry_seconds
second_refused_example =
    second_refused settings naive 0 14000000 "rack-1" "alice" "bob" motion scan free_store granted
      (λ x. refl) granted_lem (omega arith)

reconcile-upsert_raises_example :
    let racks = upsert (utc 5) "rack-1" (homed_x true ∷ []) [] in
    reconcile_from_db (record rack_row { updated_at = record { at = 9; aware = false } } ∷ []) racks
    ≡ (racks, raised type_error)
reconcile-upsert_raises_example =
    reconcile-upsert_raises 5 (homed_x true ∷ []) []
      (record rack_row { updated_at = record { at = 9; aware = false } }) [] refl

distinct_example : Dict.Distinct held_store.racks
unfolding Dict.lookup
distinct_example = (refl, tt)

free-IsSound : IsSound free_store
unfolding Dict.lookup
free-IsSound = record {
  distinct = (refl, tt);
  columns = λ k r e. elim (Bool-cases (str_eq "rack-1" k)) [
    | inl same ↦ (let row : rack_row ≡ r = cc (rw same at e) in subst (HasColumns people) row free)
    | inr other ↦ cc (rw other at e)
  ];
  agrees = λ k. elim (Bool-cases (str_eq "rack-1" k)) [
    | inl same ↦ rw same refl
    | inr other ↦ rw other tt
  ];
}

-- alice takes the lock, and bob tries too early
abbrev morning : List Call
morning = acquires 0 "rack-1" "alice" motion ∷ acquires 14000000 "rack-1" "bob" scan ∷ []

morning-IsSound : IsSound (run settings morning free_store)
morning-IsSound = run-IsSound settings morning free_store free-IsSound

run-IsSound_example : IsSound (
    run settings
      (sweeps 16000000 ∷ releases 17000000 "rack-1" ∷ [])
      (run settings morning free_store))
run-IsSound_example =
    run-IsSound settings (sweeps 16000000 ∷ releases 17000000 "rack-1" ∷ [])
      (run settings morning free_store) morning-IsSound

-- the mirror holds a state of 5 µs; the row is of 9 µs
abbrev old_mirror : Mirror
old_mirror = ("rack-1", record (from_row rack_row) { updated_at = some (utc 5) }) ∷ []

abbrev later_row : Rack
later_row = record rack_row { updated_at = utc 9 }

old-Zoned : Zoned true old_mirror
unfolding Dict.lookup
old-Zoned k = elim (Bool-cases (str_eq "rack-1" k)) [
  | inl same ↦
      rw same
        (λ mem e. let five : utc 5 ≡ mem = cc e in subst (λ (x : Stamp). x.aware ≡ true) five refl)
  | inr other ↦ rw other tt
]
