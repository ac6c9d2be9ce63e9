-- ===== src/Scan/Visits.antt =====
-- Which cells the loop of pi/services/scan_executor.py moves to, and what its counters say of them.
use mathlib.Core.List.{append-nil, append_assoc}
use vivarium_connection.Common.{
  ℕ, ◌+◌, ◌≡◌, ◌≢◌, refl, sym, ap, ◌∙◌, Bool, true, false, Option, some, List, [], ◌∷◌, ◌++◌, arith,
  length, subst, Bool-cases, ◌⊎◌, inl, inr,
}
use vivarium_connection.Scan.{
  ScanProgress, Scan, Flow, done, stopped, broken, Seen, Event, g28, m114, m710, m711, m700,
  capture, scan_progress, scan_status, visit, after_cell, do_cell, counted, cell_events, cell_loop,
}
use vivarium_connection.Scan.Plan.{Cell, plan_from}
use vivarium_connection.Scan.Loop.{walk, cell_loop-walk}

-- the cells that the carriage was sent to, in order
unfoldable pub moves : List Event → List Cell
moves [] = []
moves (g28 ∷ es) = moves es
moves (m114 ∷ es) = moves es
moves (m710 ∷ es) = moves es
moves (m711 ∷ es) = moves es
moves (m700 row col ∷ es) = (row, col) ∷ moves es
moves (capture row col ∷ es) = moves es
moves (scan_progress p row col success ∷ es) = moves es
moves (scan_status p status ∷ es) = moves es

unfoldable pub count : ScanProgress → ℕ
count p = p.cells_completed + p.cells_failed

-- the cell that a resumed scan is told
unfoldable pub position : ScanProgress → Option ℕ × Option ℕ
position p = (p.last_completed_row, p.last_completed_col)

unfoldable pub last_or : Option ℕ × Option ℕ → List Cell → Option ℕ × Option ℕ
last_or before [] = before
last_or before ((row, col) ∷ cells) = last_or (some row, some col) cells

-- The cells of a plan were moved to in order, up to some cell, and were counted once each.
pub record Visits (cells : List Cell) (s : Scan) (out : Scan × Flow) : Type 0 where
  pub seen : List Cell
  pub rest : List Cell
  pub split : cells ≡ seen ++ rest
  pub moved_to : moves out.0.events ≡ moves s.events ++ seen
  pub counted_once : count out.0.progress ≡ count s.progress + length seen
  pub last : position out.0.progress ≡ last_or (position s.progress) seen
  pub ended : (out.1 ≢ done) ⊎ (rest ≡ [])

pub moves-append : (xs ys : List Event) → moves (xs ++ ys) ≡ moves xs ++ moves ys
unfolding moves
moves-append [] ys = refl
moves-append (g28 ∷ xs) ys = moves-append xs ys
moves-append (m114 ∷ xs) ys = moves-append xs ys
moves-append (m710 ∷ xs) ys = moves-append xs ys
moves-append (m711 ∷ xs) ys = moves-append xs ys
moves-append (m700 row col ∷ xs) ys = ap (λ (m : List Cell). (row, col) ∷ m) (moves-append xs ys)
moves-append (capture row col ∷ xs) ys = moves-append xs ys
moves-append (scan_progress p row col success ∷ xs) ys = moves-append xs ys
moves-append (scan_status p status ∷ xs) ys = moves-append xs ys

cell-moves :
    (b : Bool) (row col : ℕ) (p : ScanProgress) (success : Bool)
    → moves (cell_events b row col ++ (scan_progress p row col success ∷ [])) ≡ (row, col) ∷ []
unfolding cell_events moves
cell-moves true row col p success = refl
cell-moves false row col p success = refl

do_cell-moves :
    (seen : Seen) (row col : ℕ) (s : Scan)
    → moves (do_cell seen row col s).events ≡ moves s.events ++ ((row, col) ∷ [])
unfolding do_cell
do_cell-moves seen row col s =
    moves-append s.events _
    ∙ ap (λ (m : List Cell). moves s.events ++ m) (cell-moves seen.moved row col _ _)

do_cell-count :
    (seen : Seen) (row col : ℕ) (s : Scan)
    → count (do_cell seen row col s).progress ≡ count s.progress + 1
unfolding do_cell counted count
do_cell-count seen row col s = ground arith

do_cell-position :
    (seen : Seen) (row col : ℕ) (s : Scan)
    → position (do_cell seen row col s).progress ≡ (some row, some col)
unfolding do_cell counted position
do_cell-position seen row col s = refl

stay : (cells : List Cell) (s : Scan) (f : Flow) → (f ≢ done) ⊎ (cells ≡ []) → Visits cells s (s, f)
unfolding last_or
stay cells s f h = record {
  seen = [];
  rest = cells;
  split = refl;
  moved_to = sym (append-nil (moves s.events));
  counted_once = omega arith;
  last = refl;
  ended = h;
}

-- one more cell in front
onward :
    (seen : Seen) (row col : ℕ) (cells : List Cell) (s : Scan) (out : Scan × Flow)
    → Visits cells (do_cell seen row col s) out
    → Visits ((row, col) ∷ cells) s out
unfolding last_or
onward seen row col cells s out v = record {
  seen = (row, col) ∷ v.seen;
  rest = v.rest;
  split = ap (λ (m : List Cell). (row, col) ∷ m) v.split;
  moved_to =
      v.moved_to
      ∙ ap (λ (m : List Cell). m ++ v.seen) (do_cell-moves seen row col s)
      ∙ append_assoc (moves s.events) ((row, col) ∷ []) v.seen;
  counted_once = omega (arith, v.counted_once, do_cell-count seen row col s);
  last =
      v.last ∙ ap (λ (p : Option ℕ × Option ℕ). last_or p v.seen) (do_cell-position seen row col s);
  ended = v.ended;
}

walk-Visits :
    (look : ℕ → ℕ → Seen) (cells : List Cell) (s : Scan) → Visits cells s (walk look cells s)
unfolding walk visit after_cell do_cell
walk-Visits look [] s = stay [] s done (inr refl)
walk-Visits look ((row, col) ∷ cells) s = elim (Bool-cases (look row col).abort_before) [
  | inl e ↦ rw e (stay ((row, col) ∷ cells) s broken (inl (λ x. ground arith)))
  | inr e ↦ rw e (
      onward (look row col) row col cells s _ (elim (Bool-cases (look row col).abort_after) [
        | inl a ↦ elim (Bool-cases (look row col).stop_after) [
          | inl b ↦ rw (a, b) (stay cells _ broken (inl (λ x. ground arith)))
          | inr b ↦ rw (a, b) (stay cells _ broken (inl (λ x. ground arith)))
        ]
        | inr a ↦ elim (Bool-cases (look row col).stop_after) [
          | inl b ↦ rw (a, b) (stay cells _ stopped (inl (λ x. ground arith)))
          | inr b ↦ rw (a, b) (walk-Visits look cells (do_cell (look row col) row col s))
        ]
      ]))
]

-- Whatever the flags, the serial port and the camera do: the loop moves to the cells of its plan in
-- order up to some cell, counts each of them once as completed or failed, reports the last of them as
-- the position, and if it ends without a break has gone to all of them.
pub cell_loop-Visits :
    (look : ℕ → ℕ → Seen) (start : Cell) (s : Scan)
    → Visits (plan_from start s.progress.grid_rows s.progress.grid_cols) s (cell_loop look start s)
cell_loop-Visits look start s =
    subst (Visits (plan_from start s.progress.grid_rows s.progress.grid_cols) s)
      (sym (cell_loop-walk look start s)) (walk-Visits look _ s)
