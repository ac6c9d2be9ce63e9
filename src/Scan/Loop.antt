-- ===== src/Scan/Loop.antt =====
-- The two loops of pi/services/scan_executor.py are one loop over the list of their cells.
use vivarium_connection.Common.{
  ℕ, zero, suc, ◌≡◌, refl, ap, ◌∙◌, Bool, List, [], ◌∷◌, ◌++◌, arith, Bool-cases, inl, inr,
}
use vivarium_connection.Scan.{
  Scan, Flow, done, Seen, visit, after_cell, run_cols, run_rows, next_row, cell_loop, col_range,
}
use vivarium_connection.Scan.Plan.{Cell, row_cells, plan, plan_from}

-- one loop over a list of cells
unfoldable pub walk : (ℕ → ℕ → Seen) → List Cell → Scan → Scan × Flow
walk look [] s = (s, done)
walk look ((row, col) ∷ cells) s = visit look row col (walk look cells) s

next_row-visit :
    (look : ℕ → ℕ → Seen) (row col : ℕ) (rest next : Scan → Scan × Flow) (s : Scan)
    → next_row next (visit look row col rest s) ≡ visit look row col (λ t. next_row next (rest t)) s
unfolding next_row visit after_cell
next_row-visit look row col rest next s = ground arith

run_cols-walk :
    (look : ℕ → ℕ → Seen) (skip : ℕ → ℕ → Bool) (row : ℕ) (cols : List ℕ) (cells : List Cell)
    (s : Scan)
    → next_row (walk look cells) (run_cols look skip row cols s)
      ≡ walk look (row_cells skip row cols ++ cells) s
unfolding run_cols row_cells walk next_row
run_cols-walk look skip row [] cells s = refl
run_cols-walk look skip row (col ∷ cols) cells s = elim (Bool-cases (skip row col)) [
  | inl e ↦ rw e (run_cols-walk look skip row cols cells s)
  | inr e ↦ rw e (
      next_row-visit look row col (run_cols look skip row cols) (walk look cells) s
      ∙ ap (λ (k : Scan → Scan × Flow). visit look row col k s)
          (λ i t. run_cols-walk look skip row cols cells t i))
]

run_rows-walk :
    (look : ℕ → ℕ → Seen) (skip : ℕ → ℕ → Bool) (cols n row : ℕ) (s : Scan)
    → run_rows look skip cols n row s ≡ walk look (plan skip cols n row) s
unfolding run_rows plan walk
run_rows-walk look skip cols zero row s = refl
run_rows-walk look skip cols (suc n) row s =
    ap (λ (k : Scan → Scan × Flow). next_row k (run_cols look skip row (col_range cols row) s))
      (λ i t. run_rows-walk look skip cols n (suc row) t i)
    ∙ run_cols-walk look skip row (col_range cols row) (plan skip cols n (suc row)) s

-- Whatever the flags, the serial port and the camera do: the nested loops with their `continue` and
-- their breaks are one loop over the cells of `plan_from`, in its order, that ends at the first stop.
pub cell_loop-walk :
    (look : ℕ → ℕ → Seen) (start : Cell) (s : Scan)
    → cell_loop look start s
      ≡ walk look (plan_from start s.progress.grid_rows s.progress.grid_cols) s
unfolding cell_loop plan_from
cell_loop-walk look start s = run_rows-walk look _ s.progress.grid_cols _ start.0 s
