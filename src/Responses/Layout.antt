-- ===== src/Responses/Layout.antt =====
-- server/main.py: the branches of `_on_response_message` that store what the controller says of its
-- grid and its limits. They look at the start of the text, and no text starts in two of the ways. A
-- thread that writes the database is a job, which runs at some later time. `float`, which raises
-- ValueError on some texts that the patterns let through, and the parse of a JSON object are inputs.
use vivarium_connection.Common.{
  ℕ, String, Bool, ◌&&◌, ◌||◌, ◌==◌, leb, Option, none, some, List, [], ◌∷◌, ◌++◌, if◌then◌else◌,
  Result, ok,
}
use vivarium_connection.Common.Clock.{utc}
use vivarium_connection.Common.Text.{Text, codes}
use vivarium_connection.Models.{Float}
use vivarium_connection.State.{
  Assign, Mirror, grid_rows, grid_cols, pitch_x_mm, pitch_y_mm, x0_offset_mm, y0_offset_mm,
  limit_x_mm, limit_y_mm, limit_c_mm, upsert,
}
use vivarium_connection.LayoutCache.{Layouts}
use vivarium_connection.LayoutCache
use vivarium_connection.Serial.{has_prefix}
use vivarium_connection.M114.{◌>>=◌, literal, spaces, nonempty, or_else}
use vivarium_connection.DeviceId.{to_int}

-- what a thread writes to the row of a rack
pub data Job : Type 0 where
  persist_limits : String → Float → Float → Float → Job
  persist_layout : String → List Assign → Job

pub record Board : Type 0 where
  pub mirror : Mirror
  pub layouts : Layouts
  pub jobs : List Job

-- `\d+` and `[-\d.]+`: the characters that pass a test, at least one, and the text behind them
unfoldable pub run_of : (ℕ → Bool) → Text → Text × Text
run_of test [] = ([], [])
run_of test (c ∷ cs) =
    let (run, rest) = run_of test cs in if test c then (c ∷ run, rest) else ([], c ∷ cs)

unfoldable pub is_decimal : ℕ → Bool
is_decimal c = leb b'0' c && leb c b'9'

unfoldable pub is_float_char : ℕ → Bool
is_float_char c = is_decimal c || ((c == b'.') || (c == b'-'))

-- a name, its value, and the text behind it
unfoldable pub value_of : (ℕ → Bool) → Text → Text → Option (Text × Text)
value_of test name text = literal name text >>= λ r. nonempty (run_of test r)

-- two values, with blanks between them
unfoldable pub two_values : (ℕ → Bool) → Text → Text → Text → Option (Text × Text)
two_values test first second text = value_of test first text >>= λ a.
    spaces a.1 >>= λ r. value_of test second r >>= λ b. some (a.0, b.0)

unfoldable pub rows_here : Text → Option (Text × Text)
rows_here text = two_values is_decimal (codes "ROWS=") (codes "COLS=") text

-- `LIMITS\s+X=…`
unfoldable pub limits_here : Text → Option (Text × Text × Text)
limits_here text = literal (codes "LIMITS") text >>= λ r. spaces r >>= λ r.
    value_of is_float_char (codes "X=") r >>= λ a. spaces a.1 >>= λ r.
    value_of is_float_char (codes "Y=") r >>= λ b.
    spaces b.1 >>= λ r. value_of is_float_char (codes "C=") r >>= λ c. some (a.0, b.0, c.0)

unfoldable pub named_here : Text → Text → Text → Text → Option (Text × Text)
named_here name first second text =
    literal name text >>= λ r. spaces r >>= λ r. two_values is_float_char first second r

-- `re.search`: the first place where the pattern matches
unfoldable pub search {ℓ} : {A : Type ℓ} → (Text → Option A) → Text → Option A
search here [] = here []
search here (c ∷ cs) = let later = search here cs in or_else (here (c ∷ cs)) later

unfoldable pub write_mirror : ℕ → String → List Assign → Board → Board
write_mirror now rack_id fields b = record b { mirror = upsert (utc now) rack_id fields b.mirror }

-- `_lc.set(rack_id, key, raw)`; `ttl_s` is the default time to live
unfoldable pub remember : ℕ → ℕ → String → String → String → Board → Board
remember now ttl_s rack_id key raw b = record b {
  layouts = LayoutCache.set now rack_id key raw ttl_s b.layouts;
}

unfoldable pub add_job : Job → Board → Board
add_job job b = record b { jobs = b.jobs ++ (job ∷ []) }

-- The `type` of the object is LAYOUT_CONFIG, and these are its fields.
unfoldable pub on_layout_config : ℕ → String → Option (List Assign) → Board → Board
on_layout_config now rack_id none b = b
on_layout_config now rack_id (some []) b = b
on_layout_config now rack_id (some (f ∷ fs)) b =
    add_job (persist_layout rack_id (f ∷ fs)) (write_mirror now rack_id (f ∷ fs) b)

unfoldable pub store_limits :
    ℕ → String → Board → Result Float → Result Float → Result Float → Board
store_limits now rack_id b (ok x) (ok y) (ok c) = add_job (persist_limits rack_id x y c) (
    write_mirror now rack_id (limit_x_mm (some x) ∷ limit_y_mm (some y) ∷ limit_c_mm (some c) ∷ [])
      b)
store_limits now rack_id b _ _ _ = b

unfoldable pub on_limits :
    (Text → Result Float) → ℕ → String → Option (Text × Text × Text) → Board → Board
on_limits float now rack_id none b = b
on_limits float now rack_id (some (x, y, c)) b =
    store_limits now rack_id b (float x) (float y) (float c)

unfoldable pub on_rows : ℕ → ℕ → String → String → Option (Text × Text) → Board → Board
on_rows now ttl_s rack_id raw none b = b
on_rows now ttl_s rack_id raw (some (rows, cols)) b = remember now ttl_s rack_id "M705" raw (
    write_mirror now rack_id
      (grid_rows (some (to_int 0 rows)) ∷ grid_cols (some (to_int 0 cols)) ∷ []) b)

-- two floats under a key of the layout cache
unfoldable pub store_pair :
    ℕ
    → ℕ
    → String
    → String
    → String
    → (Float → Float → List Assign)
    → Board
    → Result Float
    → Result Float
    → Board
store_pair now ttl_s rack_id key raw fields b (ok x) (ok y) =
    remember now ttl_s rack_id key raw (write_mirror now rack_id (fields x y) b)
store_pair now ttl_s rack_id key raw fields b _ _ = b

unfoldable pub pitch_fields : Float → Float → List Assign
pitch_fields x y = pitch_x_mm (some x) ∷ pitch_y_mm (some y) ∷ []

unfoldable pub offset_fields : Float → Float → List Assign
offset_fields x y = x0_offset_mm (some x) ∷ y0_offset_mm (some y) ∷ []

unfoldable pub on_pair :
    (Text → Result Float)
    → ℕ
    → ℕ
    → String
    → String
    → String
    → (Float → Float → List Assign)
    → Option (Text × Text)
    → Board
    → Board
on_pair float now ttl_s rack_id key raw fields none b = b
on_pair float now ttl_s rack_id key raw fields (some (x, y)) b =
    store_pair now ttl_s rack_id key raw fields b (float x) (float y)

-- `config` is what LAYOUT_CONFIG object, if any, the text is.
unfoldable pub on_layout_response :
    (Text → Result Float) → ℕ → ℕ → String → String → Option (List Assign) → Board → Board
on_layout_response float now ttl_s rack_id raw config b =
    if has_prefix (codes "{") (codes raw)
    then on_layout_config now rack_id config b
    else if has_prefix (codes "LIMITS") (codes raw)
    then on_limits float now rack_id (search limits_here (codes raw)) b
    else if has_prefix (codes "ROWS") (codes raw)
    then on_rows now ttl_s rack_id raw (search rows_here (codes raw)) b
    else if has_prefix (codes "Pitch") (codes raw)
    then on_pair float now ttl_s rack_id "M706" raw pitch_fields
        (search (named_here (codes "Pitch") (codes "X=") (codes "Y=")) (codes raw)) b
    else if has_prefix (codes "Offsets") (codes raw)
    then on_pair float now ttl_s rack_id "M707" raw offset_fields
        (search (named_here (codes "Offsets") (codes "X0=") (codes "Y0=")) (codes raw)) b
    else b
