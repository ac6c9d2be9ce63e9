-- ===== src/Serial/Retry.antt =====
-- A command and its retries in pi/services/serial_handler.py.
use vivarium_connection.Common.{
  ℕ, zero, suc, ◌≤◌, ◌≡◌, Option, none, some, List, [], ◌∷◌, ◌++◌, Result, ok, raised,
  serial_exception,
}
use vivarium_connection.Common.Text.{Text}
use vivarium_connection.Serial.{Attempt, heard, write_fails, flush_fails, first_real, strip}

-- how one attempt ends
pub outcome : Attempt → Result (Option Text)
outcome (heard lines) = ok (first_real lines)
outcome write_fails = raised serial_exception
outcome flush_fails = raised serial_exception

-- The first `m` attempts got no real line, and met no exception.
abbrev pub Quiet : (ℕ → Attempt) → ℕ → Type 0
Quiet attempts zero = Unit
Quiet attempts (suc m) = Quiet attempts m × (outcome (attempts m) ≡ ok none)

-- What attempts `0` to `n` lead to, and how many lines they write: the first attempt with a real line
-- answers, the first one that meets an exception raises it, and there are no others after it; without
-- either, all are made.
pub data Attempts (attempts : ℕ → Attempt) (n : ℕ) : Result (Option Text) → ℕ → Type 0 where
  answered :
      (k : ℕ) (answer : Text)
      → k ≤ n
      → Quiet attempts k
      → outcome (attempts k) ≡ ok (some answer)
      → Attempts attempts n (ok (some answer)) (suc k)
  lost :
      (k : ℕ)
      → k ≤ n
      → Quiet attempts k
      → attempts k ≡ write_fails
      → Attempts attempts n (raised serial_exception) k
  cut_off :
      (k : ℕ)
      → k ≤ n
      → Quiet attempts k
      → attempts k ≡ flush_fails
      → Attempts attempts n (raised serial_exception) (suc k)
  silent : Quiet attempts (suc n) → Attempts attempts n (ok none) (suc n)

-- the lines of `m` writes
pub lines_written : Text → ℕ → List Text
lines_written command zero = []
lines_written command (suc m) = lines_written command m ++ ((strip command ++ (10 ∷ [])) ∷ [])

-- The answer or the exception, and how many times the command was written.
Sent : (ℕ → Attempt) → Text → ℕ → Result (Option Text) × List Text → Type 0
Sent attempts command n (r, written) =
    (m : ℕ) × Attempts attempts n r m × (written ≡ lines_written command m)
