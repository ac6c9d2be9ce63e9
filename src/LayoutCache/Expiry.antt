-- ===== src/LayoutCache/Expiry.antt =====
-- What a read of server/services/layout_cache.py answers after a write and after an eviction.
use vivarium_connection.Common.{
  ℕ, ◌+◌, ◌≤◌, String, str_eq, eq_iff, ◌≡◌, refl, sym, ap, ◌∙◌, true, Option, none, some, [], ◌∷◌,
  arith, ltb, if◌then◌else◌, Bool-cases, Option-cases, inl, inr,
}
use vivarium_connection.Common.Dict
use vivarium_connection.Common.Dict.{Dict, Distinct}
use vivarium_connection.LayoutCache.{
  Entry, Layouts, set, get, read_entry, drop_expired, keep_rack, evict_expired,
}

-- the value of an entry that may be absent or expired
pub fresh_value : ℕ → Option Entry → Option String
fresh_value now none = none
fresh_value now (some entry) = if ltb entry.expiry now then none else some entry.value

pub fresh_in : ℕ → String → Option (Dict Entry) → Option String
fresh_in now key none = none
fresh_in now key (some rack_cache) = fresh_value now (Dict.lookup key rack_cache)

get-fresh :
    (now : ℕ) (rack_id key : String) (store : Layouts)
    → (get now rack_id key store).0 ≡ fresh_in now key (Dict.lookup rack_id store)
unfolding get fresh_in fresh_value read_entry
get-fresh now rack_id key store = elim (Option-cases (Dict.lookup rack_id store)) [
  | inl e ↦ rw (e, get) refl
  | inr (rack_cache, e) ↦ elim (Option-cases (Dict.lookup key rack_cache)) [
    | inl e' ↦ rw (e, get) (rw (e', get) refl)
    | inr (entry, e') ↦ rw (e, get) (rw (e', get) (ground arith))
  ]
]

get_or-fresh :
    (now : ℕ) (rack_id k : String) (store : Layouts)
    → fresh_value now (Dict.lookup k (Dict.get_or rack_id store []))
      ≡ fresh_in now k (Dict.lookup rack_id store)
unfolding Dict.get_or fresh_in fresh_value
get_or-fresh now rack_id k store = elim (Option-cases (Dict.lookup rack_id store)) [
  | inl e ↦ rw (e, Dict.get_or) (unfold Dict.lookup in refl)
  | inr (rack_cache, e) ↦ rw (e, Dict.get_or) refl
]

-- A read right after or any time after a write answers for the written rack and key the value until it
-- has expired, and for every other rack or key what it would have answered without the write.
pub get-set :
    (t now : ℕ) (rack_id rack key k value : String) (ttl_s : ℕ) (store : Layouts)
    → (get now rack k (set t rack_id key value ttl_s store)).0 ≡ (
        if str_eq rack_id rack
        then (if str_eq key k
            then (if ltb (t + ttl_s) now then none else some value)
            else (get now rack k store).0)
        else (get now rack k store).0)
unfolding set fresh_in fresh_value
get-set t now rack_id rack key k value ttl_s store =
    get-fresh now rack k (set t rack_id key value ttl_s store)
    ∙ rw (Dict.lookup-insert rack_id rack _ store, get-fresh now rack k store)
        (elim (Bool-cases (str_eq rack_id rack)) [
          | inr other ↦ rw other refl
          | inl same ↦ rw same (
              rw (Dict.lookup-insert key k _ (Dict.get_or rack_id store []))
                (elim (Bool-cases (str_eq key k)) [
                  | inl e ↦ rw e refl
                  | inr e ↦ rw e (
                      get_or-fresh now rack_id k store
                      ∙ ap (λ r. fresh_in now k (Dict.lookup r store))
                          ((eq_iff rack_id rack).0 same))
                ]))
        ])

drop_expired-fresh :
    (now later : ℕ) (k : String) (m : Dict Entry)
    → now ≤ later
    → Distinct m
    → fresh_value later (Dict.lookup k (drop_expired now m)) ≡ fresh_value later (Dict.lookup k m)
unfolding drop_expired fresh_value Dict.lookup
drop_expired-fresh now later k [] h d = refl
drop_expired-fresh now later k ((key, entry) ∷ rest) h d =
    let ih = drop_expired-fresh now later k rest h d.1 in
    elim (Bool-cases (str_eq key k)) [
      | inl same ↦ elim (Bool-cases (ltb entry.expiry now)) [
        | inl old ↦
            let gone : Dict.lookup k rest ≡ none = rw (sym ((eq_iff key k).0 same)) d.0 in
            let later_old : ltb entry.expiry later ≡ true = ground arith in
            rw (old, same, later_old) (ih ∙ rw gone refl)
        | inr new ↦ rw (new, same) refl
      ]
      | inr other ↦ elim (Bool-cases (ltb entry.expiry now)) [
        | inl old ↦ rw (old, other) ih
        | inr new ↦ rw (new, other) ih
      ]
    ]

-- In every rack's dict a key occurs once.
abbrev pub Distincts : Layouts → Type 0
Distincts [] = Unit
Distincts ((rack_id, rack_cache) ∷ racks) = Distinct rack_cache × Distincts racks

evict-fresh :
    (now later : ℕ) (rack k : String) (store : Layouts)
    → now ≤ later
    → Distinct store
    → Distincts store
    → fresh_in later k (Dict.lookup rack (evict_expired now store))
      ≡ fresh_in later k (Dict.lookup rack store)
unfolding evict_expired keep_rack fresh_in fresh_value Dict.lookup
evict-fresh now later rack k [] h d ds = refl
evict-fresh now later rack k ((id, c) ∷ racks) h d ds =
    let ih = evict-fresh now later rack k racks h d.1 ds.1 in
    let inner = drop_expired-fresh now later k c h ds.0 in kept (drop_expired now c) inner ih
  where
    kept :
        (c' : Dict Entry)
        → fresh_value later (Dict.lookup k c') ≡ fresh_value later (Dict.lookup k c)
        → fresh_in later k (Dict.lookup rack (evict_expired now racks))
          ≡ fresh_in later k (Dict.lookup rack racks)
        → fresh_in later k (Dict.lookup rack (keep_rack id c' (evict_expired now racks)))
          ≡ fresh_in later k (if str_eq id rack then some c else Dict.lookup rack racks)
    kept [] inner ih = elim (Bool-cases (str_eq id rack)) [
      | inl same ↦
          let gone : Dict.lookup rack racks ≡ none = rw (sym ((eq_iff id rack).0 same)) d.0 in
          rw same (ih ∙ rw gone inner)
      | inr other ↦ rw other ih
    ]
    kept (e ∷ es) inner ih = elim (Bool-cases (str_eq id rack)) [
      | inl same ↦ rw same inner
      | inr other ↦ rw other ih
    ]

-- An eviction changes no answer of a read at the same time or later, where the store and its parts are
-- dicts, so that every key occurs once.
pub get-evict_expired :
    (now later : ℕ) (rack k : String) (store : Layouts)
    → now ≤ later
    → Distinct store
    → Distincts store
    → (get later rack k (evict_expired now store)).0 ≡ (get later rack k store).0
get-evict_expired now later rack k store h d ds =
    get-fresh later rack k (evict_expired now store)
    ∙ evict-fresh now later rack k store h d ds
    ∙ sym (get-fresh later rack k store)
