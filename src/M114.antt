-- ===== src/M114.antt =====
-- server/services/position_monitor.py: the regular expression of an M114 line. Each piece of it is
-- followed by a character that the piece cannot match, so the first try of a greedy piece decides.
pub mod Printed
use vivarium_connection.Common.{
  ℕ, ◌≡◌, Bool, true, false, ◌&&◌, ◌||◌, Option, none, some, List, [], ◌∷◌, leb, ◌==◌,
  if◌then◌else◌,
}
use vivarium_connection.Common.Text.{Text, codes, is_space, to_upper}
use vivarium_connection.Serial.{lstrip}

infixl 5 ◌>>=◌
abbrev pub ◌>>=◌ {ℓ κ} : {A : Type ℓ} {B : Type κ} → Option A → (A → Option B) → Option B
none >>= f = none
some a >>= f = f a

-- The groups of a match.
pub record Groups : Type 0 where
  pub x : Text
  pub y : Text
  pub c : Text
  pub homed_x : Bool
  pub homed_y : Bool
  pub homed_c : Bool

-- a literal, whatever the case, and the text behind it
unfoldable pub literal : Text → Text → Option Text
literal [] text = some text
literal (p ∷ ps) [] = none
literal (p ∷ ps) (c ∷ cs) =
    let rest = literal ps cs in if to_upper p == to_upper c then rest else none

-- `\s+`
unfoldable pub spaces : Text → Option Text
spaces [] = none
spaces (c ∷ cs) = if is_space c then some (lstrip cs) else none

-- `[\d.]`
unfoldable pub is_numeric : ℕ → Bool
is_numeric c = (leb b'0' c && leb c b'9') || (c == b'.')

-- `[\d.]*`
unfoldable pub numeric_run : Text → Text × Text
numeric_run [] = ([], [])
numeric_run (c ∷ cs) =
    let (run, rest) = numeric_run cs in if is_numeric c then (c ∷ run, rest) else ([], c ∷ cs)

unfoldable pub nonempty : Text × Text → Option (Text × Text)
nonempty ([], rest) = none
nonempty (c ∷ cs, rest) = some (c ∷ cs, rest)

-- `-?[\d.]+`
unfoldable pub number : Text → Option (Text × Text)
number [] = none
number (c ∷ cs) =
    if c == b'-'
    then (nonempty (numeric_run cs) >>= λ m. some (c ∷ m.0, m.1))
    else nonempty (numeric_run (c ∷ cs))

-- `[YN]`
unfoldable pub flag : Text → Option (Bool × Text)
flag [] = none
flag (c ∷ cs) =
    if to_upper c == b'Y'
    then some (true, cs)
    else if to_upper c == b'N'
    then some (false, cs)
    else none

-- `homed:X=([YN])\s*Y=([YN])\s*C=([YN])`
unfoldable pub homed_flags : Text → Option (Bool × Bool × Bool)
homed_flags text = literal (codes "homed:X=") text >>= λ r. flag r >>= λ hx.
    literal (codes "Y=") (lstrip hx.1) >>= λ r. flag r >>= λ hy.
    literal (codes "C=") (lstrip hy.1) >>= λ r. flag r >>= λ hc. some (hx.0, hy.0, hc.0)

unfoldable pub or_else {ℓ} : {A : Type ℓ} → Option A → Option A → Option A
or_else none other = other
or_else (some a) other = some a

-- `.*?` in front of the flags: it does not pass the end of a line
unfoldable pub find_flags : Text → Option (Bool × Bool × Bool)
find_flags [] = homed_flags []
find_flags (c ∷ cs) =
    let later = find_flags cs in or_else (homed_flags (c ∷ cs)) (if c == 10 then none else later)

-- the whole expression at the start of a text
unfoldable pub match_here : Text → Option Groups
match_here text = literal (codes "X:") text >>= λ r. number r >>= λ x. spaces x.1 >>= λ r.
    literal (codes "Y:") r >>= λ r. number r >>= λ y. spaces y.1 >>= λ r.
    literal (codes "C:") r >>= λ r. number r >>= λ c. find_flags c.1 >>= λ h.
    some (record { x = x.0; y = y.0; c = c.0; homed_x = h.0; homed_y = h.1; homed_c = h.2 })

-- `_M114_RE.search(raw)`
unfoldable pub search : Text → Option Groups
search [] = match_here []
search (c ∷ cs) = let later = search cs in or_else (match_here (c ∷ cs)) later
