-- ===== src/LayoutCache.antt =====
-- server/services/layout_cache.py: answers of the Pi under a rack and a key, for a short time. A reading
-- of the monotonic clock is the argument `now`; the lock makes every method one step.
pub mod Expiry
use vivarium_connection.Common.{
  ℕ, ◌+◌, String, Bool, true, false, Option, none, some, List, [], ◌∷◌, ltb, if◌then◌else◌,
}
use vivarium_connection.Common.Dict
use vivarium_connection.Common.Dict.{Dict}

pub record Entry : Type 0 where
  pub value : String
  pub expiry : ℕ

-- LayoutCache._store
abbrev pub Layouts : Type 0
Layouts = Dict (Dict Entry)

unfoldable pub set : ℕ → String → String → String → ℕ → Layouts → Layouts
set now rack_id key value ttl_s store =
    Dict.insert rack_id
      (Dict.insert key (record { value = value; expiry = now + ttl_s })
        (Dict.get_or rack_id store []))
      store

-- An expired entry is deleted as it is read.
unfoldable pub read_entry :
    ℕ → String → String → Dict Entry → Entry → Layouts → Option String × Layouts
read_entry now rack_id key rack_cache entry store =
    if ltb entry.expiry now
    then (none, Dict.insert rack_id (Dict.remove key rack_cache) store)
    else (some entry.value, store)

unfoldable pub get : ℕ → String → String → Layouts → Option String × Layouts
get now rack_id key store = elim (Dict.lookup rack_id store) [
  | none ↦ (none, store)
  | some rack_cache ↦ elim (Dict.lookup key rack_cache) [
    | none ↦ (none, store)
    | some entry ↦ read_entry now rack_id key rack_cache entry store
  ]
]

unfoldable pub clear : String → Layouts → Layouts
clear rack_id store = Dict.remove rack_id store

-- the entries of a rack that have not expired
unfoldable pub drop_expired : ℕ → Dict Entry → Dict Entry
drop_expired now [] = []
drop_expired now ((key, entry) ∷ entries) =
    let rest = drop_expired now entries in
    if ltb entry.expiry now then rest else (key, entry) ∷ rest

-- a rack in front, unless it has no entry left
unfoldable pub keep_rack : String → Dict Entry → Layouts → Layouts
keep_rack rack_id [] store = store
keep_rack rack_id (e ∷ entries) store = (rack_id, e ∷ entries) ∷ store

unfoldable pub evict_expired : ℕ → Layouts → Layouts
evict_expired now [] = []
evict_expired now ((rack_id, rack_cache) ∷ racks) =
    keep_rack rack_id (drop_expired now rack_cache) (evict_expired now racks)
