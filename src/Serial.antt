-- ===== src/Serial.antt =====
-- pi/services/serial_handler.py: the reader's line splitting and routing, and a command with its
-- retries. The bytes that a read returns and the lines that arrive before a deadline, or the
-- SerialException of a write, are inputs; the bytes are ASCII. `unsolicited` is what the callback was called with, or what was dropped without one.
pub mod Chunks
pub mod Retry
use vivarium_connection.Common.{
  ℕ, zero, suc, ◌-◌, ◌+◌, Bool, true, false, ◌&&◌, ◌||◌, Option, none, some, List, [], ◌∷◌, ◌++◌,
  map, leb, ◌==◌, if◌then◌else◌, Result, ok, raised, runtime_error, serial_exception,
}
use vivarium_connection.Common.Text.{Text, codes, is_space}

pub record Port : Type 0 where
  pub waiting : Bool
  pub buffer : Text
  pub queue : List Text
  pub unsolicited : List Text

unfoldable pub lstrip : Text → Text
lstrip [] = []
lstrip (c ∷ cs) = let rest = lstrip cs in if is_space c then rest else c ∷ cs

-- a character in front of the stripped rest
unfoldable pub keep_char : ℕ → Text → Text
keep_char c [] = if is_space c then [] else c ∷ []
keep_char c (d ∷ ds) = c ∷ d ∷ ds

unfoldable pub rstrip : Text → Text
rstrip [] = []
rstrip (c ∷ cs) = keep_char c (rstrip cs)

unfoldable pub strip : Text → Text
strip text = rstrip (lstrip text)

-- a character in front of the first line, complete or not
unfoldable pub add_front : ℕ → List Text × Text → List Text × Text
add_front c ([], rest) = ([], c ∷ rest)
add_front c (line ∷ lines, rest) = ((c ∷ line) ∷ lines, rest)

-- The loop of `buffer.split(b"\n", 1)`: the complete lines, and the buffer that is left.
unfoldable pub split_lines : Text → List Text × Text
split_lines [] = ([], [])
split_lines (c ∷ cs) =
    let (lines, rest) = split_lines cs in
    if c == 10 then ([] ∷ lines, rest) else add_front c (lines, rest)

unfoldable pub route_response : Text → Port → Port
route_response line p =
    if p.waiting
    then record p { queue = p.queue ++ (line ∷ []) }
    else record p { unsolicited = p.unsolicited ++ (line ∷ []) }

-- `if not line: continue`
unfoldable pub route_stripped : Text → Port → Port
route_stripped [] p = p
route_stripped (c ∷ cs) p = route_response (c ∷ cs) p

unfoldable pub route_lines : List Text → Port → Port
route_lines [] p = p
route_lines (line ∷ lines) p = route_lines lines (route_stripped (strip line) p)

-- `buffer += chunk`, and the loop over the complete lines
unfoldable pub feed : Text → Port → Port
feed chunk p =
    let (lines, rest) = split_lines (p.buffer ++ chunk) in
    route_lines lines (record p { buffer = rest })

-- One turn of `_reader_loop`; an empty read is skipped.
unfoldable pub read_chunk : Text → Port → Port
read_chunk [] p = p
read_chunk (c ∷ cs) p = feed (c ∷ cs) p

unfoldable pub read_all : List Text → Port → Port
read_all [] p = p
read_all (chunk ∷ chunks) p = read_all chunks (read_chunk chunk p)

unfoldable pub to_lower : ℕ → ℕ
to_lower c = if leb b'A' c && leb c b'Z' then c + 32 else c

unfoldable pub has_prefix : Text → Text → Bool
has_prefix [] text = true
has_prefix (c ∷ cs) [] = false
has_prefix (c ∷ cs) (d ∷ ds) = (c == d) && has_prefix cs ds

-- `part in text`
unfoldable pub has_part : Text → Text → Bool
has_part part [] = has_prefix part []
has_part part (d ∷ ds) = has_prefix part (d ∷ ds) || has_part part ds

-- the firmware's echo, or the empty sentinel
unfoldable pub is_noise : Text → Bool
is_noise line = noise_text (map to_lower (strip line))
  where
    noise_text : Text → Bool
    noise_text [] = true
    noise_text (c ∷ cs) =
        has_part (codes "yo! on my way!") (c ∷ cs) || has_part (codes "on my way") (c ∷ cs)

-- The waiting loop of `_write_and_wait`, on the lines that the queue hands over before the deadline.
unfoldable pub first_real : List Text → Option Text
first_real [] = none
first_real (line ∷ lines) = let rest = first_real lines in if is_noise line then rest else some line

-- What an attempt meets: the lines that come before its deadline, or a SerialException of `write`, with
-- nothing written, or of `flush`, with the line written.
pub data Attempt : Type 0 where
  heard : List Text → Attempt
  write_fails flush_fails : Attempt

-- `_write_and_wait`: the answer, and the line written
unfoldable pub write_and_wait : Text → Attempt → List Text → Result (Option Text) × List Text
write_and_wait command (heard lines) written =
    (ok (first_real lines), written ++ ((strip command ++ (10 ∷ [])) ∷ []))
write_and_wait command write_fails written = (raised serial_exception, written)
write_and_wait command flush_fails written =
    (raised serial_exception, written ++ ((strip command ++ (10 ∷ [])) ∷ []))

-- The retry loop, after an answer, none, or an exception: `n` retries are left, and `k` is the next
-- attempt.
unfoldable pub retry :
    (ℕ → Attempt)
    → Text
    → ℕ
    → ℕ
    → Result (Option Text) × List Text
    → Result (Option Text) × List Text
retry attempts command n k (raised e, written) = (raised e, written)
retry attempts command n k (ok (some answer), written) = (ok (some answer), written)
retry attempts command zero k (ok none, written) = (ok none, written)
retry attempts command (suc n) k (ok none, written) =
    retry attempts command n (suc k) (write_and_wait command (attempts k) written)

-- `send_command`, on a port that is connected or not
unfoldable pub send_command : Bool → ℕ → (ℕ → Attempt) → Text → Result (Option Text) × List Text
send_command false retry_count attempts command = (raised runtime_error, [])
send_command true retry_count attempts command =
    retry attempts command retry_count 1 (write_and_wait command (attempts 0) [])
