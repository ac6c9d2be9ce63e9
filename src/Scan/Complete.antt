-- ===== src/Scan/Complete.antt =====
-- A scan of pi/services/scan_executor.py that no flag stops.
use Prim.Native.Nat.{◌*◌}
use mathlib.Core.List.{append-nil}
use vivarium_connection.Common.{
  ℕ, zero, suc, ◌+◌, ◌-◌, ◌≡◌, refl, sym, ap, ◌∙◌, true, false, ◌&&◌, none, List, [], ◌∷◌, ◌++◌,
  arith, length, length-append, Bool-cases, inl, inr, ltb, subst,
}
use vivarium_connection.Scan.{
  Scan, done, Seen, visit, after_cell, do_cell, cell_loop, start_cell, run, publish_status, say,
  complete, finish, g28, skipped, is_even, range, countdown, col_range,
}
use vivarium_connection.Scan.Plan.{Cell, plan_from, plan, row_cells, times, one_if}
use vivarium_connection.Scan.Loop.{walk, cell_loop-walk}
use vivarium_connection.Scan.Visits.{Visits, moves, count, cell_loop-Visits, moves-append}
use vivarium_connection.Scan.Resume.{fresh_scan-covers}

-- No flag is ever seen set.
pub record IsQuiet (look : ℕ → ℕ → Seen) : Type 0 where
  pub no_abort_before : (r c : ℕ) → (look r c).abort_before ≡ false
  pub no_stop_after : (r c : ℕ) → (look r c).stop_after ≡ false
  pub no_abort_after : (r c : ℕ) → (look r c).abort_after ≡ false

walk-done :
    (look : ℕ → ℕ → Seen) (cells : List Cell) (s : Scan)
    → IsQuiet look
    → (t : Scan) × (walk look cells s ≡ (t, done))
unfolding walk visit after_cell do_cell
walk-done look [] s q = (s, refl)
walk-done look ((row, col) ∷ cells) s q =
    let (t, e) = walk-done look cells (do_cell (look row col) row col s) q in
    (t, rw (q.no_abort_before row col, q.no_stop_after row col, q.no_abort_after row col) e)

length-range : (n : ℕ) → length (range n) ≡ n
unfolding range
length-range zero = refl
length-range (suc n) = omega (arith, length-append (range n) (n ∷ []), length-range n)

length-countdown : (n : ℕ) → length (countdown n) ≡ n
unfolding countdown
length-countdown zero = refl
length-countdown (suc n) = omega (arith, length-countdown n)

length-col_range : (cols row : ℕ) → length (col_range cols row) ≡ cols
unfolding col_range
length-col_range cols row = elim (Bool-cases (is_even row)) [
  | inl e ↦ rw e (length-range cols)
  | inr e ↦ rw e (length-countdown cols)
]

skipped-none : (r c : ℕ) → skipped 0 0 r c ≡ false
unfolding skipped is_even
skipped-none r c = ground arith

length-row_cells :
    (row : ℕ) (cols : List ℕ) → length (row_cells (skipped 0 0) row cols) ≡ length cols
unfolding row_cells
length-row_cells row [] = refl
length-row_cells row (col ∷ cols) =
    rw (skipped-none row col) (omega (arith, length-row_cells row cols))

length-plan : (cols n row : ℕ) → length (plan (skipped 0 0) cols n row) ≡ n * cols
unfolding plan
length-plan cols zero row = omega arith
length-plan cols (suc n) row =
    length-append (row_cells (skipped 0 0) row (col_range cols row))
      (plan (skipped 0 0) cols n (suc row))
    ∙ rw
        (
          length-row_cells row (col_range cols row),
          length-col_range cols row,
          length-plan cols n (suc row),
        )
        (grind arith)

all_counted :
    (cells : List Cell) (s t : Scan)
    → Visits cells s (t, done)
    → count t.progress ≡ count s.progress + length cells
all_counted cells s t v = elim v.ended [
  | inl more ↦ elim (more refl) [ ]
  | inr none_left ↦
      let whole : cells ≡ v.seen =
        v.split ∙ ap (λ (m : List Cell). v.seen ++ m) none_left ∙ append-nil v.seen in
      v.counted_once ∙ ap (λ (m : List Cell). count s.progress + length m) (sym whole)
]

length-plan_from :
    (rows cols : ℕ) → length (plan_from (start_cell cols none none) rows cols) ≡ rows * cols
unfolding plan_from start_cell
length-plan_from rows cols = length-plan cols (rows - 0) 0 ∙ grind arith

moves-say : (s : Scan) → moves (say g28 s).events ≡ moves s.events
unfolding say moves
moves-say s = moves-append s.events (g28 ∷ []) ∙ append-nil (moves s.events)

-- A fresh scan that homes and sees no flag ends with the final homing and the status `complete`; it
-- has moved to each cell of the grid exactly once and to no other, and has counted as many cells as
-- the grid has, each as completed or failed.
pub quiet_scan-complete :
    (look : ℕ → ℕ → Seen) (s : Scan) (r c : ℕ)
    → IsQuiet look
    → (t : Scan) × (run true false look none none s ≡ publish_status complete (say g28 t))
      × (times r c (moves t.events)
          ≡ times r c (moves s.events)
            + one_if (ltb r s.progress.grid_rows && ltb c s.progress.grid_cols))
      × (count t.progress ≡ count s.progress + s.progress.grid_rows * s.progress.grid_cols)
unfolding run finish
quiet_scan-complete look s r c q =
    let start = start_cell s.progress.grid_cols none none in
    let (t, e) =
      walk-done look (plan_from start s.progress.grid_rows s.progress.grid_cols) (say g28 s) q in
    let ends : cell_loop look start (say g28 s) ≡ (t, done) =
      unfold say in cell_loop-walk look start (say g28 s) ∙ e in
    (
      t,
      ap finish ends,
      unfold say in (fresh_scan-covers look (say g28 s) t r c ends ∙ rw (moves-say s) refl),
      unfold say in
          (all_counted _ (say g28 s) t
              (subst (Visits _ (say g28 s)) ends (cell_loop-Visits look start (say g28 s)))
            ∙ rw (length-plan_from s.progress.grid_rows s.progress.grid_cols) refl),
    )
