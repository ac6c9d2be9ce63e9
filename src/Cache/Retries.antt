-- ===== src/Cache/Retries.antt =====
-- The retry count of a pending command in server/services/cache.py.
use vivarium_connection.Common.{ℕ, zero, suc, ◌+◌, String, ◌≡◌, refl, ap, ◌∙◌, Option, some, arith}
use vivarium_connection.Common.Dict
use vivarium_connection.Common.Clock.{utc, plus_seconds}
use vivarium_connection.Common.Text.{Text}
use vivarium_connection.Cache.{
  PendingCommandEntry, Pending, set_pending_command, get_pending_command, increment_pending_retry,
}

-- `n` calls of `increment_pending_retry`
pub increments : ℕ → String → Pending → Pending
increments zero id table = table
increments (suc n) id table = (increment_pending_retry id (increments n id table)).1

pub entry : ℕ → String → Text → Option String → ℕ → ℕ → PendingCommandEntry
entry now id command operator_id timeout_s n = record {
  rack_id = id;
  command = command;
  operator_id = operator_id;
  published_at = utc now;
  retry_count = n;
  timeout_at = plus_seconds (utc now) timeout_s;
}

increment_lem :
    (id : String) (table : Pending) {row : PendingCommandEntry}
    → Dict.lookup id table ≡ some row
    → increment_pending_retry id table ≡ (
      row.retry_count + 1,
      Dict.insert id (record row { retry_count = row.retry_count + 1 }) table,
    )
unfolding increment_pending_retry
increment_lem id table e = rw (e, increment_pending_retry) refl

-- A pending command that was stored at `now`, in place of any other of its rack, is read back with
-- what was stored and with as many retries as `increment_pending_retry` was called for it since; the
-- next call returns one more.
pub get-increments :
    (now : ℕ) (id : String) (command : Text) (operator_id : Option String) (timeout_s n : ℕ)
    (table : Pending)
    → let table' =
        increments n id (set_pending_command now id command operator_id timeout_s table) in
      (get_pending_command id table' ≡ some (entry now id command operator_id timeout_s n))
      × ((increment_pending_retry id table').0 ≡ n + 1)
unfolding get_pending_command increments entry set_pending_command
get-increments now id command operator_id timeout_s n table =
    (found n, ap {B = ℕ} (λ (x : ℕ × Pending). x.0) (increment_lem id _ (found n)))
  where
    found :
        (k : ℕ)
        → Dict.lookup id
            (increments k id (set_pending_command now id command operator_id timeout_s table))
          ≡ some (entry now id command operator_id timeout_s k)
    found zero = Dict.lookup-insert_self id (entry now id command operator_id timeout_s 0) table
    found (suc k) =
        let before =
          increments k id (set_pending_command now id command operator_id timeout_s table) in
        let one_more : k + 1 ≡ suc k = omega arith in
        ap {B = Option PendingCommandEntry} (λ (x : ℕ × Pending). Dict.lookup id x.1)
          (increment_lem id before (found k))
        ∙ Dict.lookup-insert_self id _ before
        ∙ ap (λ m. some (entry now id command operator_id timeout_s m)) one_more
