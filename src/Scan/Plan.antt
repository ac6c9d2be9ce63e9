-- ===== src/Scan/Plan.antt =====
-- The cells that the two loops of pi/services/scan_executor.py visit, as one list, and how often each
-- stands in it.
use vivarium_connection.Common.{
  ℕ, zero, suc, ◌+◌, ◌-◌, ◌≡◌, ◌∙◌, Bool, true, false, ◌&&◌, not, List, [], ◌∷◌, ◌++◌, arith, leb,
  ltb, ◌==◌, if◌then◌else◌, Bool-cases, ◌⊎◌, inl, inr,
}
use vivarium_connection.Scan.{skipped, is_even, range, countdown, col_range}

abbrev pub Cell : Type 0
Cell = ℕ × ℕ

-- the cells of a row that are not skipped
unfoldable pub row_cells : (ℕ → ℕ → Bool) → ℕ → List ℕ → List Cell
row_cells skip row [] = []
row_cells skip row (col ∷ cols) =
    let rest = row_cells skip row cols in if skip row col then rest else (row, col) ∷ rest

unfoldable pub plan : (ℕ → ℕ → Bool) → ℕ → ℕ → ℕ → List Cell
plan skip cols zero row = []
plan skip cols (suc n) row = row_cells skip row (col_range cols row) ++ plan skip cols n (suc row)

-- the cells of a grid from a start cell
unfoldable pub plan_from : Cell → ℕ → ℕ → List Cell
plan_from start rows cols = plan (skipped start.0 start.1) cols (rows - start.0) start.0

unfoldable pub one_if : Bool → ℕ
one_if b = if b then 1 else 0

-- how often a cell is visited
unfoldable pub times : ℕ → ℕ → List Cell → ℕ
times r c [] = 0
times r c ((x, y) ∷ cells) = one_if ((x == r) && (y == c)) + times r c cells

times_col : ℕ → List ℕ → ℕ
times_col c [] = 0
times_col c (y ∷ cols) = one_if (y == c) + times_col c cols

pub times-append :
    (r c : ℕ) (xs ys : List Cell) → times r c (xs ++ ys) ≡ times r c xs + times r c ys
unfolding times
times-append r c [] ys = omega arith
times-append r c ((x, y) ∷ xs) ys = omega (arith, times-append r c xs ys)

times_col-append :
    (c : ℕ) (xs ys : List ℕ) → times_col c (xs ++ ys) ≡ times_col c xs + times_col c ys
unfolding times_col
times_col-append c [] ys = omega arith
times_col-append c (y ∷ xs) ys = omega (arith, times_col-append c xs ys)

times_col-range : (c n : ℕ) → times_col c (range n) ≡ one_if (ltb c n)
unfolding range times_col one_if
times_col-range c zero = ground arith
times_col-range c (suc n) =
    times_col-append c (range n) (n ∷ []) ∙ rw (times_col-range c n) (ground arith)

times_col-countdown : (c n : ℕ) → times_col c (countdown n) ≡ one_if (ltb c n)
unfolding countdown times_col one_if
times_col-countdown c zero = ground arith
times_col-countdown c (suc n) = ground (arith, times_col-countdown c n)

times_col-col_range : (c cols row : ℕ) → times_col c (col_range cols row) ≡ one_if (ltb c cols)
unfolding col_range
times_col-col_range c cols row = elim (Bool-cases (is_even row)) [
  | inl e ↦ rw e (times_col-range c cols)
  | inr e ↦ rw e (times_col-countdown c cols)
]

same_of : (a b : ℕ) → (a == b) ≡ true → a ≡ b
same_of a b h = ground arith

same-cases : (a b : ℕ) → (((a == b) ≡ true) × (a ≡ b)) ⊎ ((a == b) ≡ false)
same-cases a b = elim (Bool-cases (a == b)) [ inl h ↦ inl (h, same_of a b h) | inr h ↦ inr h ]

times-row_cells :
    (skip : ℕ → ℕ → Bool) (r c row : ℕ) (cols : List ℕ)
    → times r c (row_cells skip row cols)
      ≡ (if (row == r) && not (skip r c) then times_col c cols else 0)
unfolding times row_cells times_col one_if
times-row_cells skip r c row [] = ground arith
times-row_cells skip r c row (col ∷ cols) =
    let ih = times-row_cells skip r c row cols in
    elim (same-cases row r) [
      | inl (b, e) ↦ elim (same-cases col c) [
        | inl (b', e') ↦ elim (Bool-cases (skip r c)) [
          | inl k ↦
              let k' : skip row col ≡ true = cc (e, e', k) in rw k' (ground (arith, ih, k, b, b'))
          | inr k ↦
              let k' : skip row col ≡ false = cc (e, e', k) in rw k' (ground (arith, ih, k, b, b'))
        ]
        | inr b' ↦ elim (Bool-cases (skip row col)) [
          | inl k ↦ rw k (ground (arith, ih, b, b'))
          | inr k ↦ rw k (ground (arith, ih, b, b'))
        ]
      ]
      | inr b ↦ elim (Bool-cases (skip row col)) [
        | inl k ↦ rw k (ground (arith, ih, b))
        | inr k ↦ rw k (ground (arith, ih, b))
      ]
    ]

add_row :
    (b : Bool) (r c cols n row : ℕ)
    → (if (row == r) && b then one_if (ltb c cols) else 0)
        + one_if (leb (suc row) r && (ltb r (suc row + n) && (ltb c cols && b)))
      ≡ one_if (leb row r && (ltb r (row + suc n) && (ltb c cols && b)))
unfolding one_if
add_row true r c cols n row = ground arith
add_row false r c cols n row = ground arith

-- A cell of the rows that is not skipped stands in their plan once, any other cell never.
pub times-plan :
    (skip : ℕ → ℕ → Bool) (r c cols n row : ℕ)
    → times r c (plan skip cols n row)
      ≡ one_if (leb row r && (ltb r (row + n) && (ltb c cols && not (skip r c))))
unfolding times plan one_if
times-plan skip r c cols zero row = ground arith
times-plan skip r c cols (suc n) row =
    times-append r c (row_cells skip row (col_range cols row)) (plan skip cols n (suc row))
    ∙ rw
        (
          times-row_cells skip r c row (col_range cols row),
          times_col-col_range c cols row,
          times-plan skip r c cols n (suc row),
        )
        (add_row (not (skip r c)) r c cols n row)
