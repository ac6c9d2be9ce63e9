-- ===== src/Examples/Scans.antt =====
-- The theorems on pi/services/scan_executor.py on a grid of 3 rows and 4 columns.
use vivarium_connection.Common.{ℕ, ◌≡◌, refl, true, false, none, some, [], arith, ltb}
use vivarium_connection.Scan.{
  Scan, Seen, g28, start_cell, cell_loop, run, publish_status, say, complete, is_even,
}
use vivarium_connection.Scan.Plan.{plan_from, times, one_if}
use vivarium_connection.Scan.Visits.{Visits, moves, count, cell_loop-Visits}
use vivarium_connection.Scan.Resume.{row_end-skips}
use vivarium_connection.Scan.Complete.{IsQuiet, quiet_scan-complete}

abbrev at_start : Scan
at_start = record {
  progress = record {
    scan_session_id = some 1;
    rack_id = "rack-1";
    grid_rows = 3;
    grid_cols = 4;
    cells_total = 12;
    cells_completed = 0;
    cells_failed = 0;
    last_completed_row = none;
    last_completed_col = none;
  };
  events = [];
}

-- The camera fails in column 2, and nobody stops the scan.
abbrev pub calm : ℕ → ℕ → Seen
calm row col = record {
  abort_before = false;
  moved = true;
  captured = ltb col 2;
  stop_after = false;
  abort_after = false;
}

calm-IsQuiet : IsQuiet calm
calm-IsQuiet = record {
  no_abort_before = λ r c. refl;
  no_stop_after = λ r c. refl;
  no_abort_after = λ r c. refl;
}

cell_loop-Visits_example : Visits (plan_from (1, 2) 3 4) at_start (cell_loop calm (1, 2) at_start)
cell_loop-Visits_example = cell_loop-Visits calm (1, 2) at_start

quiet_scan-complete_example :
    (t : Scan) × (run true false calm none none at_start ≡ publish_status complete (say g28 t))
    × (times 2 3 (moves t.events) ≡ 1)
    × (count t.progress ≡ 12)
unfolding one_if moves times count
quiet_scan-complete_example = quiet_scan-complete calm at_start 2 3 calm-IsQuiet

row_end-skips_example : times 1 2 (plan_from (start_cell 4 (some 0) (some 3)) 3 4) ≡ 0
unfolding is_even one_if
row_end-skips_example = row_end-skips 3 4 0 3 1 2 refl refl (omega arith)
