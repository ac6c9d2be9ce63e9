-- ===== src/Scan.antt =====
-- pi/services/scan_executor.py: one scan of a rack by the Pi.
-- The flags that other threads set, the answers of the serial port and of the camera are inputs:
-- `Seen` is what one visit of a cell observes. The keepalive thread and the clock are left out.
pub mod Plan
pub mod Loop
pub mod Visits
pub mod Resume
pub mod Complete
pub mod Start
use Prim.Native.Nat.{◌-◌, ◌%◌}
use mathlib.Core.Bool.{not}
use vivarium_connection.Common.{
  ℕ, zero, suc, ◌+◌, String, ◌≡◌, refl, Bool, true, false, ◌&&◌, Option, none, some, List, [], ◌∷◌,
  ◌++◌, leb, ltb, ◌==◌, if◌then◌else◌,
}

pub record ScanProgress : Type 0 where
  pub scan_session_id : Option ℕ
  pub rack_id : String
  pub grid_rows : ℕ
  pub grid_cols : ℕ
  pub cells_total : ℕ
  pub cells_completed : ℕ
  pub cells_failed : ℕ
  pub last_completed_row : Option ℕ
  pub last_completed_col : Option ℕ

pub data Status : Type 0 where
  complete paused : Status
  aborted : String → Status

-- a command on the serial line, a photo, or a message to the server
pub data Event : Type 0 where
  g28 m114 m710 m711 : Event
  m700 capture : ℕ → ℕ → Event
  scan_progress : ScanProgress → ℕ → ℕ → Bool → Event
  scan_status : ScanProgress → Status → Event

-- The flags read before and after the cell, whether M700 was answered and the photo taken.
pub record Seen : Type 0 where
  pub abort_before : Bool
  pub moved : Bool
  pub captured : Bool
  pub stop_after : Bool
  pub abort_after : Bool

pub record Scan : Type 0 where
  pub progress : ScanProgress
  pub events : List Event

-- how a loop ends: at its end, or by one of the two breaks
pub data Flow : Type 0 where
  done stopped broken : Flow

unfoldable pub counted : Bool → ℕ → ℕ → ScanProgress → ScanProgress
counted success row col p = record {
  scan_session_id = p.scan_session_id;
  rack_id = p.rack_id;
  grid_rows = p.grid_rows;
  grid_cols = p.grid_cols;
  cells_total = p.cells_total;
  cells_completed = if success then p.cells_completed + 1 else p.cells_completed;
  cells_failed = if success then p.cells_failed else p.cells_failed + 1;
  last_completed_row = some row;
  last_completed_col = some col;
}

-- what the cell sends before its progress message
unfoldable pub cell_events : Bool → ℕ → ℕ → List Event
cell_events moved row col =
    if moved then m700 row col ∷ m114 ∷ m710 ∷ capture row col ∷ m711 ∷ [] else m700 row col ∷ []

unfoldable pub do_cell : Seen → ℕ → ℕ → Scan → Scan
do_cell seen row col s =
    let p = counted (seen.moved && seen.captured) row col s.progress in
    record {
      progress = p;
      events =
          s.events
          ++ (cell_events seen.moved row col
              ++ (scan_progress p row col (seen.moved && seen.captured) ∷ []));
    }

unfoldable pub is_even : ℕ → Bool
is_even row = row % 2 == 0

-- range(0, n) and range(n - 1, -1, -1)
unfoldable pub range : ℕ → List ℕ
range zero = []
range (suc n) = range n ++ (n ∷ [])

unfoldable pub countdown : ℕ → List ℕ
countdown zero = []
countdown (suc n) = n ∷ countdown n

unfoldable pub col_range : ℕ → ℕ → List ℕ
col_range cols row = if is_even row then range cols else countdown cols

unfoldable pub skipped : ℕ → ℕ → ℕ → ℕ → Bool
skipped start_row start_col row col =
    (row == start_row) && (if is_even row then ltb col start_col else ltb start_col col)

-- the two checks after the cell, then the cells that follow
unfoldable pub after_cell : Seen → (Scan → Scan × Flow) → Scan → Scan × Flow
after_cell seen rest s =
    if seen.stop_after && not seen.abort_after
    then (s, stopped)
    else if seen.abort_after
    then (s, broken)
    else rest s

unfoldable pub visit : (ℕ → ℕ → Seen) → ℕ → ℕ → (Scan → Scan × Flow) → Scan → Scan × Flow
visit look row col rest s =
    if (look row col).abort_before
    then (s, broken)
    else after_cell (look row col) rest (do_cell (look row col) row col s)

-- the inner loop, over the columns left
unfoldable pub run_cols : (ℕ → ℕ → Seen) → (ℕ → ℕ → Bool) → ℕ → List ℕ → Scan → Scan × Flow
run_cols look skip row [] s = (s, done)
run_cols look skip row (col ∷ cols) s =
    let rest = run_cols look skip row cols in
    if skip row col then rest s else visit look row col rest s

unfoldable pub next_row : (Scan → Scan × Flow) → Scan × Flow → Scan × Flow
next_row rest (s, done) = rest s
next_row rest (s, stopped) = (s, stopped)
next_row rest (s, broken) = (s, broken)

-- the outer loop: `n` rows, from `row`
unfoldable pub run_rows : (ℕ → ℕ → Seen) → (ℕ → ℕ → Bool) → ℕ → ℕ → ℕ → Scan → Scan × Flow
run_rows look skip cols zero row s = (s, done)
run_rows look skip cols (suc n) row s =
    let rest = run_rows look skip cols n (suc row) in
    next_row rest (run_cols look skip row (col_range cols row) s)

-- the cell at which the loop starts
unfoldable pub start_cell : ℕ → Option ℕ → Option ℕ → ℕ × ℕ
start_cell cols none col = (0, 0)
start_cell cols (some row) none = (0, 0)
start_cell cols (some row) (some col) = if leb cols (suc col) then (suc row, 0) else (row, suc col)

unfoldable pub publish_status : Status → Scan → Scan
publish_status status s = record {
  progress = s.progress;
  events = s.events ++ (scan_status s.progress status ∷ []);
}

unfoldable pub say : Event → Scan → Scan
say e s = record { progress = s.progress; events = s.events ++ (e ∷ []) }

-- steps 5 and 6
unfoldable pub finish : Scan × Flow → Scan
finish (s, done) = publish_status complete (say g28 s)
finish (s, stopped) = publish_status paused (say g28 s)
finish (s, broken) = publish_status (aborted "emergency_stop") s

-- The loop after the first G28: `start` is the first row and column.
unfoldable pub cell_loop : (ℕ → ℕ → Seen) → ℕ × ℕ → Scan → Scan × Flow
cell_loop look start s =
    run_rows look (skipped start.0 start.1) s.progress.grid_cols (s.progress.grid_rows - start.0)
      start.0 s

-- `homed`: the serial port answered the first G28. `early`: the abort flag after it.
unfoldable pub run : Bool → Bool → (ℕ → ℕ → Seen) → Option ℕ → Option ℕ → Scan → Scan
run homed early look resume_row resume_col s =
    if not homed
    then publish_status (aborted "homing_failed") (say g28 s)
    else if early
    then publish_status (aborted "emergency_stop") (say g28 s)
    else finish (cell_loop look (start_cell s.progress.grid_cols resume_row resume_col) (say g28 s))
