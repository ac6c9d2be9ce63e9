-- ===== src/Bridge.antt =====
-- pi/bridge.py: the handlers of command and emergency messages. The responses and the lines written to
-- the serial port are recorded in one log, in their order; what is started in a thread of its own is
-- recorded too: captures, scans by their payload, and reconnections. The MQTT client's publish calls
-- return.
pub mod Answers
use vivarium_connection.Common.{
  ℕ, suc, String, Bool, true, false, Option, none, some, List, [], ◌∷◌, ◌++◌, if◌then◌else◌, Result,
  Error, serial_exception, ok, raised, map,
}
use vivarium_connection.Common.Text.{Text, codes, words, upper, text_eq, one_of}
use vivarium_connection.Serial.{Attempt, strip, send_command}
use vivarium_connection.Scan.Start.{Payload, ScanExecutor, missing, request_stop}

-- What a message says: a text, a JSON object with the field `command`, if that is a text, and the
-- fields of a scan, or anything else.
pub data Message : Type 0 where
  text : Text → Message
  object : Option Text → Payload → Message
  other : Message

-- What a command meets at the port: whether it is connected, and what each attempt meets.
pub record Device : Type 0 where
  pub connected : Bool
  pub attempts : ℕ → Attempt

-- a response, or a line on the serial port
pub data Output : Type 0 where
  responded wrote : Text → Output

-- `log` holds what goes out, in order.
pub record Bridge : Type 0 where
  pub device_id : String
  pub retry_count : ℕ
  pub log : List Output
  pub captures : ℕ
  pub scans : List Payload
  pub executor : ScanExecutor
  pub reconnects : ℕ

abbrev pub intercepted_commands : List Text
intercepted_commands = codes "CAPTURE" ∷ codes "SCAN_START" ∷ codes "SCAN_STOP" ∷ []

-- text or None
unfoldable pub or_none : Text → Option Text
or_none [] = none
or_none (c ∷ cs) = some (c ∷ cs)

unfoldable pub extract_command : Message → Option Text
extract_command (text command) = or_none (strip command)
extract_command (object (some command) fields) = or_none (strip command)
extract_command (object none fields) = none
extract_command other = none

unfoldable pub first_upper : List Text → Text
first_upper [] = []
first_upper (w ∷ ws) = upper w

unfoldable pub base_command : Text → Text
base_command command = first_upper (words command)

unfoldable pub publish_response : Text → Bridge → Bridge
publish_response response b = record b { log = b.log ++ (responded response ∷ []) }

unfoldable pub ack : Text → Text
ack command = codes "COMMAND_ACK:" ++ command

unfoldable pub timed_out : Text → Text
timed_out command = codes "SERIAL_TIMEOUT:" ++ command

abbrev pub no_fields : Payload
no_fields = record {
  scan_session_id = none;
  rack_id = none;
  grid_rows = missing;
  grid_cols = missing;
  resume_row = none;
  resume_col = none;
}

unfoldable pub scan_fields : Message → Payload
scan_fields (text command) = no_fields
scan_fields (object command fields) = fields
scan_fields other = no_fields

unfoldable pub intercept : Text → Message → Bridge → Bridge
intercept base message b =
    if text_eq base (codes "CAPTURE")
    then record b { captures = suc b.captures }
    else if text_eq base (codes "SCAN_START")
    then record b {
      scans = b.scans ++ (record (scan_fields message) { rack_id = some b.device_id } ∷ []);
    }
    else if text_eq base (codes "SCAN_STOP")
    then record b { executor = request_stop b.executor }
    else b

unfoldable pub write_lines : List Text → Bridge → Bridge
write_lines lines b = record b { log = b.log ++ map wrote lines }

unfoldable pub is_serial_exception : Error → Bool
is_serial_exception serial_exception = true
is_serial_exception e = false

-- the two `except` clauses
unfoldable pub publish_failure : Text → Error → Bridge → Bridge
publish_failure command e b =
    let b' = publish_response (timed_out command) b in
    if is_serial_exception e then record b' { reconnects = suc b'.reconnects } else b'

-- the response of the controller, or none in time, or an exception
unfoldable pub publish_outcome : Text → Result (Option Text) → Bridge → Bridge
publish_outcome command (raised e) b = publish_failure command e b
publish_outcome command (ok none) b = publish_response (timed_out command) b
publish_outcome command (ok (some response)) b = publish_response response b

unfoldable pub forward_to_serial : Device → Text → Bridge → Bridge
forward_to_serial device command b =
    let (r, lines) = send_command device.connected b.retry_count device.attempts command in
    publish_outcome command r (write_lines lines b)

unfoldable pub handle_text : Device → Text → Message → Bridge → Bridge
handle_text device command message b =
    let b' = publish_response (ack command) b in
    if one_of (base_command command) intercepted_commands
    then intercept (base_command command) message b'
    else forward_to_serial device command b'

unfoldable pub on_command : Device → Message → Bridge → Bridge
on_command device message b = elim (extract_command message) [
  | none ↦ b
  | some command ↦ handle_text device command message b
]

-- `emergency_stop` writes at once, if the port is connected, and waits for nothing.
unfoldable pub emergency_stop : Device → Bridge → Bridge
emergency_stop device b = if device.connected then write_lines ((b'!' ∷ 10 ∷ []) ∷ []) b else b

unfoldable pub or_stop : Option Text → Text
or_stop none = codes "!"
or_stop (some command) = command

unfoldable pub on_emergency : Device → Message → Bridge → Bridge
on_emergency device message b =
    emergency_stop device (publish_response (ack (or_stop (extract_command message))) b)

unfoldable pub on_broadcast : Device → Message → Bridge → Bridge
on_broadcast device message b = on_command device message b
