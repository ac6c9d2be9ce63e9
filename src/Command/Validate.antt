-- ===== src/Command/Validate.antt =====
-- services/command_handler.py: exactly what `validate_command` lets through.
use vivarium_connection.Common.{
  ℕ, ◌<◌, ◌≡◌, refl, sym, ap, subst, Bool, true, false, ◌⊎◌, inl, inr, ◌↔◌, ◌&&◌, Option, none,
  some, arith, Result, ok, raised, ltb→lt, lt→ltb, ◌>>=◌, Bool-cases,
}
use vivarium_connection.Common.Text.{Text, one_of}
use vivarium_connection.Command.{
  ℤ, pos, negsuc, ParsedCommand, validate_command, parse_command, check, grid_ok, in_range,
  get_param, allowed_commands, grid_commands,
}

-- an absent parameter, or one of a row or column that the grid has
pub InGrid : ℕ → Option ℤ → Type 0
InGrid bound o = (o ≡ none) ⊎ ((n : ℕ) × (o ≡ some (pos n)) × (n < bound))

-- a command without a cell, or one whose cell the rack has
pub HasCell : ℕ → ℕ → ParsedCommand → Type 0
HasCell rows cols p =
    (one_of p.cmd grid_commands ≡ false)
    ⊎ (InGrid rows (get_param b'R' p.params) × InGrid cols (get_param b'C' p.params))

and_true : (a b : Bool) → (a && b ≡ true) ↔ ((a ≡ true) × (b ≡ true))
and_true true b = (λ h. (refl, h), λ h. h.1)
and_true false b = (λ h. ground arith, λ h. h.0)

in_range-InGrid_pos : (bound n : ℕ) → InGrid bound (some (pos n)) → n < bound
unfolding InGrid
in_range-InGrid_pos bound n (inl e) = ground arith
in_range-InGrid_pos bound n (inr (m, e, lt)) = let same : n ≡ m = cc e in omega (arith, same, lt)

in_range-InGrid_negsuc : (bound n : ℕ) → ¬ InGrid bound (some (negsuc n))
unfolding InGrid
in_range-InGrid_negsuc bound n (inl e) = ground arith
in_range-InGrid_negsuc bound n (inr (m, e, lt)) = cc e

in_range-InGrid : (bound : ℕ) (o : Option ℤ) → (in_range bound o ≡ true) ↔ InGrid bound o
unfolding in_range InGrid
in_range-InGrid bound none = (λ h. inl refl, λ h. refl)
in_range-InGrid bound (some (pos n)) =
    (λ h. inr (n, refl, ltb→lt n bound h), λ h. lt→ltb n bound (in_range-InGrid_pos bound n h))
in_range-InGrid bound (some (negsuc n)) =
    (λ h. ground arith, λ h. elim (in_range-InGrid_negsuc bound n h) [ ])

grid_ok-HasCell :
    (rows cols : ℕ) (p : ParsedCommand) → (grid_ok rows cols p ≡ true) ↔ HasCell rows cols p
unfolding grid_ok HasCell
grid_ok-HasCell rows cols p = elim (Bool-cases (one_of p.cmd grid_commands)) [
  | inl is_grid ↦ rw is_grid (
      let r = in_range-InGrid rows (get_param b'R' p.params) in
      let c = in_range-InGrid cols (get_param b'C' p.params) in
      let both =
        and_true (in_range rows (get_param b'R' p.params))
          (in_range cols (get_param b'C' p.params)) in
      (
        λ h. inr (r.0 (both.0 h).0, c.0 (both.0 h).1),
        λ h. elim h [ inl e ↦ ground arith | inr i ↦ both.1 (r.1 i.0, c.1 i.1) ],
      ))
  | inr not_grid ↦ rw not_grid (λ h. inl refl, λ h. refl)
]

check-ok : (b : Bool) (q p : ParsedCommand) → (check b q ≡ ok p) ↔ ((b ≡ true) × (q ≡ p))
unfolding check
check-ok true q p = (λ e. (refl, cc e), λ h. ap ok h.1)
check-ok false q p = (λ e. ground arith, λ h. ground arith)

accepts :
    (rows cols : ℕ) (r : Result ParsedCommand) (p : ParsedCommand)
    → ((r >>= (λ q. check (one_of q.cmd allowed_commands && grid_ok rows cols q) q)) ≡ ok p)
      ↔ ((r ≡ ok p) × (one_of p.cmd allowed_commands ≡ true) × HasCell rows cols p)
accepts rows cols (raised x) p = (λ e. ground arith, λ h. ground arith)
accepts rows cols (ok q) p =
    let c = check-ok (one_of q.cmd allowed_commands && grid_ok rows cols q) q p in
    let b = λ (q : ParsedCommand). and_true (one_of q.cmd allowed_commands) (grid_ok rows cols q) in
    (
      λ e.
          let h = c.0 e in
          (
            ap ok h.1,
            subst (λ (q : ParsedCommand). one_of q.cmd allowed_commands ≡ true) h.1 ((b q).0 h.0).0,
            subst (HasCell rows cols) h.1 ((grid_ok-HasCell rows cols q).0 ((b q).0 h.0).1),
          ),
      λ h.
          let same : q ≡ p = cc h.0 in
          c.1 (
            subst
                (λ (q : ParsedCommand). one_of q.cmd allowed_commands && grid_ok rows cols q ≡ true)
                (sym same) ((b p).1 (h.1, (grid_ok-HasCell rows cols p).1 h.2)),
            same,
          ),
    )

-- `validate_command` returns exactly the parsed commands that are in the whitelist and, if they are
-- grid commands, have no row or column parameter but one that the rack's grid has.
pub validate_command_lem :
    (raw : Text) (rows cols : ℕ) (p : ParsedCommand)
    → (validate_command raw rows cols ≡ ok p)
      ↔ ((parse_command raw ≡ ok p) × (one_of p.cmd allowed_commands ≡ true) × HasCell rows cols p)
unfolding validate_command
validate_command_lem raw rows cols p = accepts rows cols (parse_command raw) p
