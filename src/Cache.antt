-- ===== src/Cache.antt =====
-- server/services/cache.py: the SQLite backend. Each table has `rack_id` as its primary key, and
-- every method is one transaction. A stored datetime is what a later session reads back.
pub mod Consume
pub mod Retries
use vivarium_connection.Common.{
  ℕ, String, ◌+◌, Option, none, some, List, [], ◌∷◌, ltb, if◌then◌else◌, Result, ok, raised, ◌>>=◌,
}
use vivarium_connection.Common.Dict
use vivarium_connection.Common.Dict.{Dict}
use vivarium_connection.Common.Clock.{Stamp, utc, gt, plus_seconds}
use vivarium_connection.Common.Text.{Text}

pub record PendingCommandEntry : Type 0 where
  pub rack_id : String
  pub command : Text
  pub operator_id : Option String
  pub published_at : Stamp
  pub retry_count : ℕ
  pub timeout_at : Stamp

abbrev pub Pending : Type 0
Pending = Dict PendingCommandEntry

-- Both branches of `set_pending_command` leave the same row.
unfoldable pub set_pending_command : ℕ → String → Text → Option String → ℕ → Pending → Pending
set_pending_command now rack_id command operator_id timeout_s table =
    Dict.insert rack_id
      (record {
        rack_id = rack_id;
        command = command;
        operator_id = operator_id;
        published_at = utc now;
        retry_count = 0;
        timeout_at = plus_seconds (utc now) timeout_s;
      })
      table

unfoldable pub get_pending_command : String → Pending → Option PendingCommandEntry
get_pending_command rack_id table = Dict.lookup rack_id table

unfoldable pub clear_pending_command : String → Pending → Pending
clear_pending_command rack_id table = Dict.remove rack_id table

unfoldable pub increment_pending_retry : String → Pending → ℕ × Pending
increment_pending_retry rack_id table = elim (Dict.lookup rack_id table) [
  | none ↦ (0, table)
  | some row ↦ (
    row.retry_count + 1,
    Dict.insert rack_id (record row { retry_count = row.retry_count + 1 }) table,
  )
]

-- The filter runs in the database, which compares instants.
unfoldable pub get_all_timed_out_commands : ℕ → Pending → List PendingCommandEntry
get_all_timed_out_commands now [] = []
get_all_timed_out_commands now ((k, row) ∷ rest) =
    let others = get_all_timed_out_commands now rest in
    if ltb row.timeout_at.at now then row ∷ others else others

pub record Attribution : Type 0 where
  pub operator_id : String
  pub expires_at : Stamp

abbrev pub Attributions : Type 0
Attributions = Dict Attribution

unfoldable pub set_capture_attribution : ℕ → String → String → ℕ → Attributions → Attributions
set_capture_attribution now rack_id operator_id ttl_s table =
    Dict.insert rack_id
      (record { operator_id = operator_id; expires_at = plus_seconds (utc now) ttl_s }) table

-- `row.operator_id if row.expires_at > now else None`, compared in Python
unfoldable pub unexpired_operator : ℕ → Attribution → Result (Option String)
unexpired_operator now row = do
  valid ← gt row.expires_at (utc now)
  ok (if valid then some row.operator_id else none)

unfoldable pub get_capture_attribution : ℕ → String → Attributions → Result (Option String)
get_capture_attribution now rack_id table = elim (Dict.lookup rack_id table) [
  | none ↦ ok none
  | some row ↦ unexpired_operator now row
]

-- An exception rolls the deletion back.
unfoldable pub consume :
    String → Attributions → Result (Option String) → Attributions × Result (Option String)
consume rack_id table (ok operator_id) = (Dict.remove rack_id table, ok operator_id)
consume rack_id table (raised e) = (table, raised e)

unfoldable pub consume_capture_attribution :
    ℕ → String → Attributions → Attributions × Result (Option String)
consume_capture_attribution now rack_id table = elim (Dict.lookup rack_id table) [
  | none ↦ (table, ok none)
  | some row ↦ consume rack_id table (unexpired_operator now row)
]
