-- ===== src/Scan/Resume.antt =====
-- Fresh and resumed scans of pi/services/scan_executor.py: which cells they leave out or visit again.
use mathlib.Core.List.{append-nil}
use vivarium_connection.Common.{
  ℕ, suc, ◌+◌, ◌-◌, ◌<◌, ◌≡◌, refl, sym, ap, ◌∙◌, Bool, true, false, ◌&&◌, ◌||◌, none, some, List,
  ◌++◌, arith, leb, ltb, ◌==◌, inl, inr, subst,
}
use vivarium_connection.Scan.{Scan, done, Seen, skipped, is_even, start_cell, cell_loop}
use vivarium_connection.Scan.Plan.{Cell, plan_from, times, times-plan, times-append, one_if}
use vivarium_connection.Scan.Visits.{Visits, moves, cell_loop-Visits}

-- At or before a cell of an even row, in the order of the scan.
unfoldable pub reached : ℕ → ℕ → ℕ → ℕ → Bool
reached row col r c = ltb r row || ((r == row) && leb c col)

fresh_times :
    (r c rows cols : ℕ)
    → times r c (plan_from (start_cell cols none none) rows cols)
      ≡ one_if (ltb r rows && ltb c cols)
unfolding plan_from skipped is_even start_cell one_if
fresh_times r c rows cols = times-plan (skipped 0 0) r c cols (rows - 0) 0 ∙ ground arith

all_seen :
    (r c : ℕ) (cells : List Cell) (s t : Scan)
    → Visits cells s (t, done)
    → times r c (moves t.events) ≡ times r c (moves s.events) + times r c cells
all_seen r c cells s t v = elim v.ended [
  | inl more ↦ elim (more refl) [ ]
  | inr none_left ↦
      let whole : cells ≡ v.seen =
        v.split ∙ ap (λ (m : List Cell). v.seen ++ m) none_left ∙ append-nil v.seen in
      ap (times r c) v.moved_to
      ∙ times-append r c (moves s.events) v.seen
      ∙ ap (λ (m : List Cell). times r c (moves s.events) + times r c m) (sym whole)
]

start_cell-next :
    (cols row col : ℕ) → suc col < cols → start_cell cols (some row) (some col) ≡ (row, suc col)
unfolding start_cell
start_cell-next cols row col h = ground arith

start_cell-wrap :
    (cols row col : ℕ) → suc col ≡ cols → start_cell cols (some row) (some col) ≡ (suc row, 0)
unfolding start_cell
start_cell-wrap cols row col h = ground arith

-- A fresh scan whose loop ends without a break has moved to each cell of the grid once more, and to
-- no other cell.
pub fresh_scan-covers :
    (look : ℕ → ℕ → Seen) (s t : Scan) (r c : ℕ)
    → cell_loop look (start_cell s.progress.grid_cols none none) s ≡ (t, done)
    → times r c (moves t.events)
      ≡ times r c (moves s.events)
        + one_if (ltb r s.progress.grid_rows && ltb c s.progress.grid_cols)
fresh_scan-covers look s t r c e =
    all_seen r c _ s t (
      subst
        (Visits
          (plan_from (start_cell s.progress.grid_cols none none) s.progress.grid_rows
            s.progress.grid_cols)
          s)
        e (cell_loop-Visits look (start_cell s.progress.grid_cols none none) s))
    ∙ ap (λ n. times r c (moves s.events) + n)
        (fresh_times r c s.progress.grid_rows s.progress.grid_cols)

-- A scan stopped at a cell of an even row that is not its last one resumes with the cells that it has
-- not reached: each cell of the grid is in the part that was reached or in the resumed plan, once.
pub even_row-resumes :
    (rows cols row col r c : ℕ)
    → is_even row ≡ true
    → row < rows
    → suc col < cols
    → times r c (plan_from (start_cell cols none none) rows cols)
      ≡ one_if (reached row col r c && ltb c cols)
        + times r c (plan_from (start_cell cols (some row) (some col)) rows cols)
unfolding plan_from skipped is_even reached one_if
even_row-resumes rows cols row col r c even h k =
    rw
      (
        fresh_times r c rows cols,
        start_cell-next cols row col k,
        times-plan (skipped row (suc col)) r c cols (rows - row) row,
      )
      (ground arith)

-- A scan stopped at the last cell of an even row that is not the last row resumes with column 0 of the
-- next row, visits no other cell of that row, and each cell of the rows below it once; it visits
-- nothing else.
pub row_end-skips :
    (rows cols row col r c : ℕ)
    → is_even row ≡ true
    → suc col ≡ cols
    → suc row < rows
    → times r c (plan_from (start_cell cols (some row) (some col)) rows cols)
      ≡ one_if (((r == suc row) && (c == 0)) || (ltb (suc row) r && (ltb r rows && ltb c cols)))
unfolding plan_from skipped is_even one_if
row_end-skips rows cols row col r c even h k =
    rw
      (
        start_cell-wrap cols row col h,
        times-plan (skipped (suc row) 0) r c cols (rows - suc row) (suc row),
      )
      (ground arith)

-- A scan stopped at a cell of an odd row that is not the row's first one, the one at its right end,
-- resumes with the cell to the right of it, which it had visited, and visits it and its own again.
pub odd_row-revisits :
    (rows cols row col c : ℕ)
    → is_even row ≡ false
    → row < rows
    → suc col < cols
    → times row c (plan_from (start_cell cols (some row) (some col)) rows cols)
      ≡ one_if (leb c (suc col))
unfolding plan_from skipped is_even one_if
odd_row-revisits rows cols row col c odd h k =
    rw
      (
        start_cell-next cols row col k,
        times-plan (skipped row (suc col)) row c cols (rows - row) row,
      )
      (ground arith)

-- A scan stopped at the first cell of an odd row, the one at its right end, resumes below that row and
-- leaves all its other cells out.
pub odd_row-abandoned :
    (rows cols row col c : ℕ)
    → is_even row ≡ false
    → suc col ≡ cols
    → times row c (plan_from (start_cell cols (some row) (some col)) rows cols) ≡ 0
unfolding plan_from skipped is_even one_if
odd_row-abandoned rows cols row col c odd h =
    rw
      (
        start_cell-wrap cols row col h,
        times-plan (skipped (suc row) 0) row c cols (rows - suc row) (suc row),
      )
      (ground arith)
