-- ===== src/ImagePath.antt =====
-- server/services/s3_handler.py: the validation of the paths and keys that a Pi reports with its images,
-- on ASCII text. True stands for the return, and false for ImagePathError. `Path.resolve` reads the
-- file system and is a parameter.
pub mod Own
use vivarium_connection.Common.{
  ℕ, Bool, true, false, not, ◌&&◌, ◌||◌, ◌==◌, leb, Option, none, some, List, [], ◌∷◌, ◌++◌,
  is_some, if◌then◌else◌,
}
use vivarium_connection.Common.Text.{Text, codes, text_eq}
use vivarium_connection.Serial.{has_prefix}
use vivarium_connection.Topics.{split}

-- the pieces of the two regular expressions: \d, and a character
pub data Piece : Type 0 where
  digit : Piece
  exact : ℕ → Piece

unfoldable pub fits : Piece → ℕ → Bool
fits digit c = leb b'0' c && leb c b'9'
fits (exact d) c = c == d

-- what stands behind the pieces, where they match
unfoldable pub consume : List Piece → Text → Option Text
consume [] text = some text
consume (p ∷ ps) [] = none
consume (p ∷ ps) (c ∷ cs) = let rest = consume ps cs in if fits p c then rest else none

-- \d{4}-\d{2}-\d{2}
abbrev pub date_pieces : List Piece
date_pieces =
    digit ∷ digit ∷ digit ∷ digit ∷ exact b'-' ∷ digit ∷ digit ∷ exact b'-' ∷ digit ∷ digit ∷ []

-- \d{8}T\d{6}Z\.jpg
abbrev pub stamp_pieces : List Piece
stamp_pieces =
    digit
    ∷ digit
    ∷ digit
    ∷ digit
    ∷ digit
    ∷ digit
    ∷ digit
    ∷ digit
    ∷ exact b'T'
    ∷ digit
    ∷ digit
    ∷ digit
    ∷ digit
    ∷ digit
    ∷ digit
    ∷ exact b'Z'
    ∷ exact b'.'
    ∷ exact b'j'
    ∷ exact b'p'
    ∷ exact b'g'
    ∷ []

unfoldable pub is_empty : Option Text → Bool
is_empty (some []) = true
is_empty _ = false

-- `$` also matches in front of a newline at the end.
unfoldable pub at_end : Option Text → Bool
at_end none = false
at_end (some []) = true
at_end (some (c ∷ [])) = c == 10
at_end (some (c ∷ d ∷ rest)) = false

-- rack-[^/]+, on a text without a slash
unfoldable pub is_rack : Text → Bool
is_rack (r ∷ a ∷ c ∷ k ∷ dash ∷ x ∷ xs) = has_prefix (codes "rack-") (r ∷ a ∷ c ∷ k ∷ dash ∷ x ∷ xs)
is_rack _ = false

-- the text behind a prefix
unfoldable pub behind : Text → Text → Option Text
behind [] text = some text
behind (c ∷ cs) [] = none
behind (c ∷ cs) (d ∷ ds) = let rest = behind cs ds in if c == d then rest else none

unfoldable pub dashed_stamp : Option Text → Bool
dashed_stamp none = false
dashed_stamp (some text) = at_end (consume (exact b'-' ∷ stamp_pieces) text)

unfoldable pub has_newline : Text → Bool
has_newline [] = false
has_newline (c ∷ cs) = (c == 10) || has_newline cs

unfoldable pub any_newline : List Text → Bool
any_newline [] = false
any_newline (part ∷ parts) = has_newline part || any_newline parts

-- `.+/`, on the parts in front of the rack's: some text without a newline
unfoldable pub is_root : List Text → Bool
is_root [] = false
is_root ([] ∷ []) = false
is_root (part ∷ parts) = not (any_newline (part ∷ parts))

-- The last three parts, and those in front of them.
pub record Parts : Type 0 where
  pub front : List Text
  pub rack : Text
  pub date : Text
  pub file : Text

unfoldable pub add_part : Text → Option Parts → Option Parts
add_part part none = none
add_part part (some p) = some (record p { front = part ∷ p.front })

unfoldable pub last_three : List Text → Option Parts
last_three [] = none
last_three (a ∷ []) = none
last_three (a ∷ b ∷ []) = none
last_three (a ∷ b ∷ c ∷ []) = some (record { front = []; rack = a; date = b; file = c })
last_three (a ∷ b ∷ c ∷ d ∷ rest) = add_part a (last_three (b ∷ c ∷ d ∷ rest))

unfoldable pub parts_fit : Parts → Bool
parts_fit p =
    (is_rack p.rack && is_empty (consume date_pieces p.date))
    && (dashed_stamp (behind p.rack p.file) && is_root p.front)

-- `_LOCAL_PATH_RE.match`: the rack of the match
unfoldable pub fitting_rack : Option Parts → Option Text
fitting_rack none = none
fitting_rack (some p) = if parts_fit p then some p.rack else none

unfoldable pub match_local : Text → Option Text
match_local path = fitting_rack (last_three (split path))

unfoldable pub is_rack_of : Text → Option Text → Bool
is_rack_of rack_id none = false
is_rack_of rack_id (some rack) = text_eq rack rack_id

unfoldable pub validate_local_path : (Text → Text) → Text → Text → Text → Bool
validate_local_path resolve image_dir rack_id local_path =
    is_rack_of rack_id (match_local local_path)
    && has_prefix (resolve image_dir) (resolve local_path)

-- `_S3_KEY_RE.match`
unfoldable pub key_rack : List Text → Option Text
key_rack (images ∷ rack ∷ file ∷ []) =
    if text_eq images (codes "images") && is_rack rack && at_end (consume stamp_pieces file)
    then some rack
    else none
key_rack _ = none

unfoldable pub match_s3 : Text → Option Text
match_s3 key = key_rack (split key)

unfoldable pub validate_s3_key : Text → Text → Bool
validate_s3_key rack_id s3_key = is_rack_of rack_id (match_s3 s3_key)

-- `if not value`
unfoldable pub or_absent : Option Text → Option Text
or_absent none = none
or_absent (some []) = none
or_absent (some (c ∷ cs)) = some (c ∷ cs)

unfoldable pub validate_local : (Text → Text) → Text → Text → Option Text → Option Text → Bool
validate_local resolve image_dir rack_id none s3_key = false
validate_local resolve image_dir rack_id (some local_path) s3_key =
    if is_some s3_key then false else validate_local_path resolve image_dir rack_id local_path

unfoldable pub validate_s3 : Text → Option Text → Bool
validate_s3 rack_id none = false
validate_s3 rack_id (some s3_key) = validate_s3_key rack_id s3_key

unfoldable pub validate_image_path :
    Bool → (Text → Text) → Text → Text → Option Text → Option Text → Bool
validate_image_path s3_enabled resolve image_dir rack_id local_path s3_key =
    if s3_enabled
    then validate_s3 rack_id (or_absent s3_key)
    else validate_local resolve image_dir rack_id (or_absent local_path) (or_absent s3_key)
