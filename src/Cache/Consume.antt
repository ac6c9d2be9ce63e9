-- ===== src/Cache/Consume.antt =====
-- A capture attribution in server/services/cache.py from one session to the next.
use vivarium_connection.Common.{
  ℕ, String, ◌+◌, ◌≡◌, refl, ap, ◌∙◌, none, some, ltb, if◌then◌else◌, ok, raised, type_error,
  Bool-cases, inl, inr, arith,
}
use vivarium_connection.Common.Dict
use vivarium_connection.Common.Clock.{Stamp, utc, gt, plus_seconds, seconds}
use vivarium_connection.Cache.{
  Attribution, Attributions, set_capture_attribution, consume_capture_attribution, consume,
  unexpired_operator,
}

-- The table as a later session reads it: the driver's conversion of each stored datetime.
pub reload : (Stamp → Stamp) → Attributions → Attributions
reload driver table =
    Dict.map_values (λ row. record row { expires_at = driver row.expires_at }) table

-- what is stored for an operator
pub stored : ℕ → String → ℕ → Attribution
stored t operator_id ttl_s = record {
  operator_id = operator_id;
  expires_at = plus_seconds (utc t) ttl_s;
}

unexpired_operator_lem :
    (t' : ℕ) (row : Attribution)
    → unexpired_operator t' row ≡ (
        if row.expires_at.aware
        then ok (if ltb t' row.expires_at.at then some row.operator_id else none)
        else raised type_error)
unfolding unexpired_operator gt
unexpired_operator_lem t' row = ground arith

reloaded :
    (driver : Stamp → Stamp) (t : ℕ) (id operator_id : String) (ttl_s : ℕ) (table : Attributions)
    → Dict.lookup id (reload driver (set_capture_attribution t id operator_id ttl_s table))
      ≡ some
          (record (stored t operator_id ttl_s) { expires_at = driver (plus_seconds (utc t) ttl_s) })
unfolding reload stored set_capture_attribution
reloaded driver t id operator_id ttl_s table =
    rw (Dict.lookup-map_values, Dict.lookup-insert_self) refl

consumed :
    (t' : ℕ) (id : String) (table : Attributions) {row : Attribution}
    → Dict.lookup id table ≡ some row
    → consume_capture_attribution t' id table ≡ consume id table (unexpired_operator t' row)
unfolding consume_capture_attribution
consumed t' id table found = rw (found, consume_capture_attribution) refl

-- An attribution that was stored at `t` for `ttl_s` seconds is consumed in a later session at `t'`. If
-- the driver gives its expiry back with a zone and at the same instant, the operator is returned
-- before the expiry and None from then on, and the row is gone. If the driver gives it back without a
-- zone, as SQLite's does, TypeError is raised, at any time, and the row stays.
pub consume-set_capture_attribution :
    (driver : Stamp → Stamp) (t t' : ℕ) (id operator_id : String) (ttl_s : ℕ) (table : Attributions)
    → ((x : Stamp) → (driver x).at ≡ x.at)
    → let table' = reload driver (set_capture_attribution t id operator_id ttl_s table) in
      consume_capture_attribution t' id table' ≡ (
        if (driver (plus_seconds (utc t) ttl_s)).aware
        then (
          Dict.remove id table',
          ok (if ltb t' (t + seconds ttl_s) then some operator_id else none),
        )
        else (table', raised type_error))
unfolding stored consume
consume-set_capture_attribution driver t t' id operator_id ttl_s table keeps =
    let table' = reload driver (set_capture_attribution t id operator_id ttl_s table) in
    let row : Attribution = record {
      operator_id = operator_id;
      expires_at = driver (plus_seconds (utc t) ttl_s);
    } in
    consumed t' id table' (reloaded driver t id operator_id ttl_s table)
    ∙ ap (consume id table') (unexpired_operator_lem t' row)
    ∙ elim (Bool-cases (driver (plus_seconds (utc t) ttl_s)).aware) [
      | inl e ↦ rw (e, keeps (plus_seconds (utc t) ttl_s)) refl
      | inr e ↦ rw e refl
    ]
