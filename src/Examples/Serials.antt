-- ===== src/Examples/Serials.antt =====
-- The theorems on pi/services/serial_handler.py and on the start of a scan at concrete bytes and messages.
use vivarium_connection.Common.{
  ℕ, zero, suc, ◌≡◌, refl, true, false, none, some, List, [], ◌∷◌, inl, raised, type_error,
}
use vivarium_connection.Common.Text.{Text, codes, is_space}
use vivarium_connection.Serial.{
  Attempt, heard, Port, read_all, read_chunk, feed, split_lines, add_front, route_lines,
  route_stripped, route_response, strip, lstrip, rstrip, keep_char,
}
use vivarium_connection.Serial.Chunks.{IsOpen, concat, read_all-concat}
use vivarium_connection.Scan.Start.{
  Payload, null, missing, number, ScanExecutor, Observed, start, start_all, start-wedged,
}
use vivarium_connection.Examples.Scans.{calm}

abbrev listening : Port
listening = record { waiting = true; buffer = []; queue = []; unsolicited = [] }

-- the firmware's echo and the answer, cut in the middle of both
abbrev reads : List Text
reads = codes "Yo! On my" ∷ [] ∷ codes " way!\r\nROWS=12" ∷ codes " COLS=7\n" ∷ []

listening-IsOpen : IsOpen listening
unfolding IsOpen split_lines
listening-IsOpen = refl

read_all-concat_example : read_all reads listening ≡ read_chunk (concat reads) listening
read_all-concat_example = read_all-concat reads listening listening-IsOpen

reads_test : (read_all reads listening).queue ≡ codes "Yo! On my way!" ∷ codes "ROWS=12 COLS=7" ∷ []
unfolding read_all read_chunk feed split_lines add_front route_lines route_stripped route_response
    strip lstrip rstrip keep_char is_space
reads_test = refl

-- only the echo at first, and the answer at the retry
abbrev answers : ℕ → Attempt
answers zero = heard (codes "Yo! On my way!" ∷ [])
answers (suc k) = heard (codes "Yo! On my way!" ∷ codes "ROWS=12 COLS=7" ∷ [])

abbrev bad_start : Payload
bad_start = record {
  scan_session_id = some 1;
  rack_id = some "rack-1";
  grid_rows = null;
  grid_cols = missing;
  resume_row = none;
  resume_col = none;
}

abbrev idle : ScanExecutor
idle = record {
  stop_requested = false;
  abort_requested = false;
  running = false;
  keepalive_stop = false;
}

abbrev observed : Observed
observed = record {
  homed = true;
  early = false;
  look = calm;
  stop_left = false;
  abort_left = false;
}

start-wedged_example :
    let (ex, events, r) = start "pi-1" observed bad_start idle in
    (r ≡ raised type_error)
    × (events ≡ [])
    × (ex.running ≡ true)
    × (start_all "pi-1" observed (record bad_start { grid_rows = number 3 } ∷ []) ex ≡ (ex, []))
start-wedged_example =
    start-wedged "pi-1" observed bad_start idle (record bad_start { grid_rows = number 3 } ∷ [])
      type_error refl (inl (refl, refl))
