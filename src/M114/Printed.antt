-- ===== src/M114/Printed.antt =====
-- The M114 line that the header of server/services/position_monitor.py expects, the one that
-- ardino/RackMonitor_Mega_IS_S.ino prints, and their parse.
use vivarium_connection.Common.{
  ℕ, ◌≤◌, ◌⊎◌, ◌≡◌, refl, ap, Bool, true, false, none, some, [], ◌∷◌, ◌++◌, arith, ◌==◌, All,
}
use vivarium_connection.Common.Text.{Text, codes, is_space, to_upper}
use vivarium_connection.Serial.{lstrip}
use vivarium_connection.M114.{
  ◌>>=◌, Groups, literal, spaces, is_numeric, numeric_run, nonempty, number, flag, homed_flags,
  or_else, find_flags, match_here, search,
}

-- a digit or a dot
abbrev pub IsNumeric : ℕ → Type 0
IsNumeric c = ((b'0' ≤ c) × (c ≤ b'9')) ⊎ (c ≡ b'.')

-- Digits and dots, at least one, and a minus sign in front or none.
pub data IsNumber : Text → Type 0 where
  plain : (c : ℕ) (cs : Text) → IsNumeric c → All IsNumeric cs → IsNumber (c ∷ cs)
  negative : (c : ℕ) (cs : Text) → IsNumeric c → All IsNumeric cs → IsNumber (b'-' ∷ c ∷ cs)

pub letter : Bool → ℕ
letter true = b'Y'
letter false = b'N'

abbrev pub flag_text : Bool → Bool → Bool → Text
flag_text hx hy hc =
    codes " homed:X="
    ++ (letter hx ∷ (codes " Y=" ++ (letter hy ∷ (codes " C=" ++ (letter hc ∷ [])))))

abbrev pub homed_text : Bool → Bool → Bool → Text
homed_text hx hy hc =
    codes " | homed: X="
    ++ (letter hx ∷ (codes " Y=" ++ (letter hy ∷ (codes " C=" ++ (letter hc ∷ [])))))

abbrev pub line : Groups → Text
line g =
    codes "X:"
    ++ (g.x
        ++ (codes " Y:"
            ++ (g.y ++ (codes " C:" ++ (g.c ++ flag_text g.homed_x g.homed_y g.homed_c)))))

-- `reportPosition` of the firmware, on the printed numbers: there is a blank behind "homed:".
unfoldable pub report_position : Groups → Text
report_position g =
    codes "M114 X:"
    ++ (g.x
        ++ (codes " Y:"
            ++ (g.y ++ (codes " C:" ++ (g.c ++ homed_text g.homed_x g.homed_y g.homed_c)))))

IsNumeric-is_numeric : (c : ℕ) → IsNumeric c → is_numeric c ≡ true
unfolding is_numeric
IsNumeric-is_numeric c h = ground arith

numeric_run_lem :
    (run : Text) (d : ℕ) (rest : Text)
    → All IsNumeric run
    → is_numeric d ≡ false
    → numeric_run (run ++ (d ∷ rest)) ≡ (run, d ∷ rest)
unfolding numeric_run
numeric_run_lem [] d rest h e = rw e refl
numeric_run_lem (c ∷ cs) d rest (h, hs) e =
    rw (IsNumeric-is_numeric c h, numeric_run_lem cs d rest hs e) refl

not_minus : (c : ℕ) → IsNumeric c → (c == b'-') ≡ false
not_minus c h = ground arith

number_lem :
    (x : Text) (d : ℕ) (rest : Text)
    → IsNumber x
    → is_numeric d ≡ false
    → number (x ++ (d ∷ rest)) ≡ some (x, d ∷ rest)
unfolding number nonempty
number_lem _ d rest (plain c cs h hs) e =
    rw (not_minus c h) (ap nonempty (numeric_run_lem (c ∷ cs) d rest (h, hs) e))
number_lem _ d rest (negative c cs h hs) e =
    ap (λ (m : Text × Text). nonempty m >>= λ m. some (b'-' ∷ m.0, m.1))
      (numeric_run_lem (c ∷ cs) d rest (h, hs) e)

find_flags-letter : (hx hy hc : Bool) → find_flags (flag_text hx hy hc) ≡ some (hx, hy, hc)
unfolding find_flags homed_flags or_else literal flag lstrip is_space to_upper letter
find_flags-letter true true true = refl
find_flags-letter true true false = refl
find_flags-letter true false true = refl
find_flags-letter true false false = refl
find_flags-letter false true true = refl
find_flags-letter false true false = refl
find_flags-letter false false true = refl
find_flags-letter false false false = refl

-- The line that the parser's header expects for three numbers and three flags is parsed to these
-- numbers, as they were written, and flags.
pub search-line :
    (g : Groups) → IsNumber g.x → IsNumber g.y → IsNumber g.c → search (line g) ≡ some g
unfolding search match_here literal to_upper spaces lstrip is_space
search-line g hx hy hc =
    let space_ends : is_numeric b' ' ≡ false = (unfold is_numeric in refl) in
    rw
      (
        number_lem g.x b' ' _ hx space_ends,
        number_lem g.y b' ' _ hy space_ends,
        number_lem g.c b' ' _ hc space_ends,
        find_flags-letter g.homed_x g.homed_y g.homed_c,
      )
      (unfold or_else in refl)

find_flags-homed_text : (hx hy hc : Bool) → find_flags (homed_text hx hy hc) ≡ none
unfolding find_flags homed_flags or_else literal flag lstrip is_space to_upper letter
find_flags-homed_text true true true = refl
find_flags-homed_text true true false = refl
find_flags-homed_text true false true = refl
find_flags-homed_text true false false = refl
find_flags-homed_text false true true = refl
find_flags-homed_text false true false = refl
find_flags-homed_text false false true = refl
find_flags-homed_text false false false = refl

search-homed_text : (hx hy hc : Bool) → search (homed_text hx hy hc) ≡ none
unfolding search match_here or_else literal is_space to_upper letter
search-homed_text true true true = refl
search-homed_text true true false = refl
search-homed_text true false true = refl
search-homed_text true false false = refl
search-homed_text false true true = refl
search-homed_text false true false = refl
search-homed_text false false true = refl
search-homed_text false false false = refl

-- no match starts at the character
abbrev IsOther : ℕ → Type 0
IsOther c = (b'X' == to_upper c) ≡ false

search-skip : (cs rest : Text) → All IsOther cs → search (cs ++ rest) ≡ search rest
unfolding search match_here literal or_else to_upper
search-skip [] rest h = refl
search-skip (c ∷ cs) rest (h, hs) = rw h (search-skip cs rest hs)

IsNumeric-IsOther : (c : ℕ) → IsNumeric c → IsOther c
unfolding to_upper
IsNumeric-IsOther c h = ground arith

run-IsOther : (cs : Text) → All IsNumeric cs → All IsOther cs
run-IsOther [] h = tt
run-IsOther (c ∷ cs) (h, hs) = (IsNumeric-IsOther c h, run-IsOther cs hs)

IsNumber-IsOther : (x : Text) → IsNumber x → All IsOther x
unfolding to_upper
IsNumber-IsOther _ (plain c cs h hs) = (IsNumeric-IsOther c h, run-IsOther cs hs)
IsNumber-IsOther _ (negative c cs h hs) = (refl, run-IsOther (c ∷ cs) (h, hs))

-- The line that the firmware prints for three numbers and three flags is not matched anywhere.
pub search-report_position :
    (g : Groups) → IsNumber g.x → IsNumber g.y → IsNumber g.c → search (report_position g) ≡ none
unfolding report_position search match_here literal to_upper spaces lstrip is_space
search-report_position g hx hy hc =
    let space_ends : is_numeric b' ' ≡ false = (unfold is_numeric in refl) in
    rw
      (
        number_lem g.x b' ' _ hx space_ends,
        number_lem g.y b' ' _ hy space_ends,
        number_lem g.c b' ' _ hc space_ends,
        find_flags-homed_text g.homed_x g.homed_y g.homed_c,
        search-skip g.x _ (IsNumber-IsOther g.x hx),
        search-skip g.y _ (IsNumber-IsOther g.y hy),
        search-skip g.c _ (IsNumber-IsOther g.c hc),
        search-homed_text g.homed_x g.homed_y g.homed_c,
      )
      (unfold or_else in refl)
