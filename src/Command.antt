-- ===== src/Command.antt =====
-- server/services/command_handler.py: tokenising, the whitelist, the grid check and the routing.
-- Text is ASCII. The exception CommandValidationError is `raised validation_error`.
pub mod Validate
use Prim.Native.Nat.{◌*◌, ◌-◌}
use vivarium_connection.Common.{
  ℕ, zero, suc, ◌+◌, String, ◌≡◌, refl, Bool, true, false, ◌&&◌, ◌||◌, Option, none, some, List, [],
  ◌∷◌, leb, ltb, ◌==◌, if◌then◌else◌, Result, ok, raised, ◌>>=◌, validation_error,
}
use vivarium_connection.Common.Text.{Text, codes, words, upper, to_upper, text_eq, one_of}

-- `negsuc n` is -(n + 1).
pub data ℤ : Type 0 where
  pos : ℕ → ℤ
  negsuc : ℕ → ℤ

pub data CommandRoute : Type 0 where
  mqtt_publish emergency camera scan_engine : CommandRoute

abbrev pub allowed_commands : List Text
allowed_commands =
    codes "G28"
    ∷ codes "M700"
    ∷ codes "M701"
    ∷ codes "M702"
    ∷ codes "M703"
    ∷ codes "M704"
    ∷ codes "M705"
    ∷ codes "M706"
    ∷ codes "M707"
    ∷ codes "M710"
    ∷ codes "M711"
    ∷ codes "M114"
    ∷ codes "M799"
    ∷ codes "!"
    ∷ codes "CAPTURE"
    ∷ codes "SCAN_START"
    ∷ codes "SCAN_STOP"
    ∷ []

abbrev pub grid_commands : List Text
grid_commands = codes "M700" ∷ codes "M701" ∷ codes "M702" ∷ codes "M703" ∷ codes "M704" ∷ []

-- The dict of parameters: a letter, as its upper-case code point, to its last value.
abbrev pub Params : Type 0
Params = List (ℕ × ℤ)

pub record ParsedCommand : Type 0 where
  pub cmd : Text
  pub params : Params
  pub route : CommandRoute

unfoldable pub route_for : Text → CommandRoute
route_for cmd =
    if text_eq cmd (codes "!")
    then emergency
    else if text_eq cmd (codes "CAPTURE")
    then camera
    else if one_of cmd (codes "SCAN_START" ∷ codes "SCAN_STOP" ∷ [])
    then scan_engine
    else mqtt_publish

unfoldable pub is_digit : ℕ → Bool
is_digit c = leb b'0' c && leb c b'9'

unfoldable pub is_letter : ℕ → Bool
is_letter c = (leb b'A' c && leb c b'Z') || (leb b'a' c && leb c b'z')

-- int() of the digits read so far and the digits left; anything else is no match
unfoldable pub digits_from : ℕ → Text → Option ℕ
digits_from n [] = some n
digits_from n (c ∷ cs) =
    let rest = digits_from (n * 10 + (c - b'0')) cs in if is_digit c then rest else none

-- `\d+`
unfoldable pub digits : Text → Option ℕ
digits [] = none
digits (c ∷ cs) = digits_from 0 (c ∷ cs)

unfoldable pub negate : ℕ → ℤ
negate n = elim n [ zero ↦ pos 0 | suc k ↦ negsuc k ]

abbrev pub map_option {ℓ κ} : {A : Type ℓ} {B : Type κ} → (A → B) → Option A → Option B
map_option f none = none
map_option f (some a) = some (f a)

-- `-?\d+`
unfoldable pub number : Text → Option ℤ
number [] = none
number (c ∷ cs) =
    if c == b'-' then map_option negate (digits cs) else map_option pos (digits (c ∷ cs))

-- `_PARAM_RE.fullmatch(token)`
unfoldable pub param_of : Text → Option (ℕ × ℤ)
param_of [] = none
param_of (c ∷ cs) = if is_letter c then map_option (λ v. (to_upper c, v)) (number cs) else none

unfoldable pub set_param : ℕ → ℤ → Params → Params
set_param k v [] = (k, v) ∷ []
set_param k v ((j, w) ∷ m) = if j == k then (j, v) ∷ m else (j, w) ∷ set_param k v m

unfoldable pub get_param : ℕ → Params → Option ℤ
get_param k [] = none
get_param k ((j, w) ∷ m) = if j == k then some w else get_param k m

unfoldable pub add_param : Option (ℕ × ℤ) → Params → Params
add_param none params = params
add_param (some (k, v)) params = set_param k v params

unfoldable pub params_from : List Text → Params → Params
params_from [] params = params
params_from (token ∷ tokens) params = params_from tokens (add_param (param_of token) params)

unfoldable pub parse_tokens : List Text → Result ParsedCommand
parse_tokens [] = raised validation_error
parse_tokens (t ∷ ts) =
    ok (record { cmd = upper t; params = params_from ts []; route = route_for (upper t) })

unfoldable pub parse_command : Text → Result ParsedCommand
parse_command raw = parse_tokens (words raw)

-- `not (0 <= v < bound)` raises; an absent parameter is not checked
unfoldable pub in_range : ℕ → Option ℤ → Bool
in_range bound none = true
in_range bound (some (pos n)) = ltb n bound
in_range bound (some (negsuc n)) = false

unfoldable pub check : Bool → ParsedCommand → Result ParsedCommand
check true p = ok p
check false p = raised validation_error

unfoldable pub grid_ok : ℕ → ℕ → ParsedCommand → Bool
grid_ok grid_rows grid_cols p =
    if one_of p.cmd grid_commands
    then in_range grid_rows (get_param b'R' p.params)
      && in_range grid_cols (get_param b'C' p.params)
    else true

-- The rack is read for its grid alone.
unfoldable pub validate_command : Text → ℕ → ℕ → Result ParsedCommand
validate_command raw grid_rows grid_cols = do
  parsed ← parse_command raw
  check (one_of parsed.cmd allowed_commands && grid_ok grid_rows grid_cols parsed) parsed
