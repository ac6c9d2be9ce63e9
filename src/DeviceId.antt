-- ===== src/DeviceId.antt =====
-- server/services/provisioning.py: the names of the racks. They are ASCII text, compared by code points as
-- the database does.
pub mod Decimal
use vivarium_connection.Common.{
  ℕ, zero, suc, ◌+◌, ◌-◌, ◌*◌, ◌%◌, ◌/◌, Bool, true, false, ◌&&◌, ◌==◌, ltb, leb, Option, none,
  some, List, [], ◌∷◌, ◌++◌, if◌then◌else◌,
}
use vivarium_connection.Common.Text.{Text, codes}

-- `str(n)`: n decimal digits are enough for n
unfoldable pub print_digits : ℕ → ℕ → Text
print_digits zero n = []
print_digits (suc fuel) n = elim (ltb n 10) [
  | true ↦ (b'0' + n) ∷ []
  | false ↦ print_digits fuel (n / 10) ++ ((b'0' + n % 10) ∷ [])
]

unfoldable pub decimal : ℕ → Text
decimal n = print_digits (suc n) n

-- `f"{n:03d}"`
unfoldable pub padded : Text → Text
padded [] = codes "000"
padded (a ∷ []) = b'0' ∷ b'0' ∷ a ∷ []
padded (a ∷ b ∷ []) = b'0' ∷ a ∷ b ∷ []
padded (a ∷ b ∷ c ∷ rest) = a ∷ b ∷ c ∷ rest

unfoldable pub device_name : ℕ → Text
device_name n = codes "rack-" ++ padded (decimal n)

unfoldable pub text_lt : Text → Text → Bool
text_lt s [] = false
text_lt [] (d ∷ ds) = true
text_lt (c ∷ cs) (d ∷ ds) = if c == d then text_lt cs ds else ltb c d

unfoldable pub better : Option Text → Text → Option Text
better none id = some id
better (some best) id = if text_lt best id then some id else some best

unfoldable pub last_from : Option Text → List Text → Option Text
last_from best [] = best
last_from best (id ∷ ids) = last_from (better best id) ids

unfoldable pub dash_here : ℕ → Text → Option Text → Option Text
dash_here c cs (some suffix) = some suffix
dash_here c cs none = if c == b'-' then some cs else none

-- `rsplit("-", 1)`: what stands behind the last dash, where there is one
unfoldable pub behind_dash : Text → Option Text
behind_dash [] = none
behind_dash (c ∷ cs) = dash_here c cs (behind_dash cs)

unfoldable pub all_digits : Text → Bool
all_digits [] = true
all_digits (c ∷ cs) = (leb b'0' c && leb c b'9') && all_digits cs

unfoldable pub is_digits : Text → Bool
is_digits [] = false
is_digits (c ∷ cs) = all_digits (c ∷ cs)

unfoldable pub to_int : ℕ → Text → ℕ
to_int acc [] = acc
to_int acc (c ∷ cs) = to_int (acc * 10 + (c - b'0')) cs

unfoldable pub number_behind : Option Text → ℕ
number_behind none = 1
number_behind (some suffix) = if is_digits suffix then to_int 0 suffix + 1 else 1

unfoldable pub next_num : Option Text → ℕ
next_num none = 1
next_num (some id) = number_behind (behind_dash id)
