-- ===== src/Common/Dict.antt =====
-- A Python `dict` with text keys, and a database table under its primary key: an association list.
-- An assignment keeps the place of an existing key and appends a new one.
use Prim.Native.String.{String}
use mathlib.Core.Path.{◌≡◌, refl, sym, ◌∙◌, subst}
use mathlib.Core.Logic.{inl, inr}
use mathlib.Core.Bool.{false}
use mathlib.Core.Option.{Option, none, some}
use mathlib.Core.List.{List, [], ◌∷◌}
use native.Mathlib.Omega.{arith}
use text.Mathlib.Text.{◌==◌}
use text.Mathlib.TextEquality.{eq_iff}
use text.Mathlib.TextPositions.{eq_refl}
use vivarium_connection.Common.Tests.{if◌then◌else◌, Bool-cases, Option-cases}

abbrev pub Dict {ℓ} : Type ℓ → Type ℓ
Dict V = List (String × V)

module _ {ℓ} {V : Type ℓ} where
  -- `table.pop(key, None)`
  unfoldable pub remove : String → Dict V → Dict V
  remove key [] = []
  remove key ((name, row) ∷ table) =
      let rest = remove key table in if name == key then rest else (name, row) ∷ rest

  -- every row assigned by one rule
  unfoldable pub map_values : (V → V) → Dict V → Dict V
  map_values rule [] = []
  map_values rule ((name, row) ∷ table) = (name, rule row) ∷ map_values rule table

  -- `table.get(key)`
  unfoldable pub lookup : String → Dict V → Option V
  lookup key [] = none
  lookup key ((name, row) ∷ table) = if name == key then some row else lookup key table

  -- `table[key] = row`
  unfoldable pub insert : String → V → Dict V → Dict V
  insert key new [] = (key, new) ∷ []
  insert key new ((name, row) ∷ table) =
      if name == key then (name, new) ∷ table else (name, row) ∷ insert key new table

  pub lookup-insert :
      (key name : String) (new : V) (table : Dict V)
      → lookup name (insert key new table) ≡ (if key == name then some new else lookup name table)
  unfolding insert lookup
  lookup-insert key name new [] = refl
  lookup-insert key name new ((first, row) ∷ table) =
      let behind = lookup-insert key name new table in
      ground (arith, behind, eq_iff first name, eq_iff first key, eq_iff key name)

  pub lookup-insert_self : (k : String) (v : V) (m : Dict V) → lookup k (insert k v m) ≡ some v
  lookup-insert_self k v m = simp (lookup-insert, eq_refl)

  pub lookup-remove :
      (k j : String) (m : Dict V) → lookup j (remove k m) ≡ (if k == j then none else lookup j m)
  unfolding lookup remove
  lookup-remove k j [] = ground arith
  lookup-remove k j ((i, w) ∷ m) =
      ground (arith, eq_iff k j, eq_iff i k, eq_iff i j, lookup-remove k j m)

  abbrev pub map_option : (V → V) → Option V → Option V
  map_option f none = none
  map_option f (some v) = some (f v)

  pub lookup-map_values :
      (f : V → V) (k : String) (m : Dict V) → lookup k (map_values f m) ≡ map_option f (lookup k m)
  unfolding lookup map_values
  lookup-map_values f k [] = refl
  lookup-map_values f k ((j, v) ∷ m) = elim (Bool-cases (j == k)) [
    | inl e ↦ rw e refl
    | inr e ↦ rw e (lookup-map_values f k m)
  ]

  unfoldable pub get_or : String → Dict V → V → V
  unfolding lookup
  get_or k m d = elim (lookup k m) [ none ↦ d | some v ↦ v ]

  pub get_or-none : (k : String) (m : Dict V) (d : V) → lookup k m ≡ none → get_or k m d ≡ d
  unfolding get_or
  get_or-none k m d e = rw (e, get_or) refl

  pub get_or-some :
      (k : String) (m : Dict V) (d : V) {v : V} → lookup k m ≡ some v → get_or k m d ≡ v
  unfolding get_or
  get_or-some k m d e = rw (e, get_or) refl

  pub get_or-insert :
      (k j : String) (v : V) (m : Dict V) (d : V)
      → get_or j (insert k v m) d ≡ (if k == j then v else get_or j m d)
  get_or-insert k j v m d = elim (Bool-cases (k == j)) [
    | inl e ↦ rw e (get_or-some j (insert k v m) d (lookup-insert k j v m ∙ rw e refl))
    | inr e ↦ rw e (elim (Option-cases (lookup j m)) [
      | inl absent ↦
          get_or-none j (insert k v m) d (lookup-insert k j v m ∙ rw e absent)
          ∙ sym (get_or-none j m d absent)
      | inr (w, found) ↦
          get_or-some j (insert k v m) d (lookup-insert k j v m ∙ rw e found)
          ∙ sym (get_or-some j m d found)
    ])
  ]

  -- A key occurs once, as in every dict and under every primary key.
  abbrev pub Distinct : Dict V → Type ℓ
  Distinct [] = Unit
  Distinct ((k, v) ∷ m) = (lookup k m ≡ none) × Distinct m

  lookup-insert-none :
      (k j : String) (v : V) (m : Dict V)
      → (k == j) ≡ false
      → lookup j m ≡ none
      → lookup j (insert k v m) ≡ none
  lookup-insert-none k j v m e h = rw (lookup-insert k j v m, e) h

  pub insert-Distinct : (k : String) (v : V) (m : Dict V) → Distinct m → Distinct (insert k v m)
  unfolding insert lookup
  insert-Distinct k v [] d = (refl, tt)
  insert-Distinct k v ((j, w) ∷ m) d = elim (Bool-cases (j == k)) [
    | inl e ↦ rw e d
    | inr e ↦ rw e (
      lookup-insert-none k j v m (ground (arith, eq_iff j k, eq_iff k j)) d.0,
      insert-Distinct k v m d.1,
    )
  ]

  pub map_values-Distinct : (f : V → V) (m : Dict V) → Distinct m → Distinct (map_values f m)
  unfolding map_values
  map_values-Distinct f [] d = tt
  map_values-Distinct f ((j, w) ∷ m) d =
      (rw (lookup-map_values f j m, d.0), map_values-Distinct f m d.1)

  -- What holds of every value that a key finds.
  abbrev pub Every {κ} : (V → Type κ) → Dict V → Type (ℓ ⊔ κ)
  Every P m = (k : String) (v : V) → lookup k m ≡ some v → P v

  pub insert-Every {κ} :
      (P : V → Type κ) (k : String) (v : V) (m : Dict V) → P v → Every P m → Every P (insert k v m)
  insert-Every P k v m p h = λ j w e. elim (Bool-cases (k == j)) [
    | inl same ↦ subst P (cc (rw same at (lookup-insert k j v m))) p
    | inr other ↦ h j w (cc (rw other at (lookup-insert k j v m)))
  ]

  pub map_values-Every {κ} :
      (P : V → Type κ) (f : V → V) (m : Dict V)
      → ((v : V) → P v → P (f v))
      → Every P m
      → Every P (map_values f m)
  map_values-Every P f m keep h = λ j w e. elim (Option-cases (lookup j m)) [
    | inl absent ↦ cc (lookup-map_values f j m, absent)
    | inr (v, found) ↦ subst P (cc (rw found at (lookup-map_values f j m))) (keep v (h j v found))
  ]
