-- ===== src/Bridge/Answers.antt =====
-- The responses of pi/bridge.py to a command.
use vivarium_connection.Common.{
  ◌≡◌, refl, ◌∙◌, true, false, Bool-cases, ◌⊎◌, inl, inr, Option, none, some, List, [], ◌∷◌, ◌++◌,
  Result, Error, serial_exception, ok, raised, ℕ, ◌+◌, sym, subst, map, arith,
}
use mathlib.Core.List.{append_assoc}
use vivarium_connection.Common.Text.{Text, codes, text_eq, one_of}
use vivarium_connection.Serial.{send_command}
use vivarium_connection.Bridge.{
  Message, Device, responded, wrote, Bridge, write_lines, is_serial_exception, publish_failure,
  intercepted_commands, extract_command, base_command, publish_response, ack, timed_out, intercept,
  publish_outcome, forward_to_serial, handle_text, on_command,
}

-- The command is kept on the Pi: it is acknowledged, and nothing else goes out.
pub record IsKept (command : Text) (b b' : Bridge) : Type 0 where
  pub intercepted : one_of (base_command command) intercepted_commands ≡ true
  pub acknowledged : b'.log ≡ b.log ++ (responded (ack command) ∷ [])

-- The response to a command by the way its sending ends, and how many reconnections are started.
pub data Reply (command : Text) : Result (Option Text) → Text → ℕ → Type 0 where
  from_controller : (answer : Text) → Reply command (ok (some answer)) answer 0
  none_in_time : Reply command (ok none) (timed_out command) 0
  port_lost : Reply command (raised serial_exception) (timed_out command) 1
  failed :
      (e : Error) → is_serial_exception e ≡ false → Reply command (raised e) (timed_out command) 0

-- The command is for the controller: it is acknowledged first, then written, once per attempt that is
-- made, and then answered once, and starts neither a capture nor a scan.
pub record IsForwarded (device : Device) (command : Text) (b b' : Bridge) : Type 0 where
  pub not_intercepted : one_of (base_command command) intercepted_commands ≡ false
  pub outcome : Result (Option Text)
  pub lines : List Text
  pub sent : send_command device.connected b.retry_count device.attempts command ≡ (outcome, lines)
  pub answer : Text
  pub lost : ℕ
  pub reply : Reply command outcome answer lost
  pub answered :
      b'.log ≡ b.log ++ (responded (ack command) ∷ (map wrote lines ++ (responded answer ∷ [])))
  pub reconnected : b'.reconnects ≡ b.reconnects + lost
  pub no_capture : b'.captures ≡ b.captures
  pub no_scan : b'.scans ≡ b.scans

intercept-same :
    (base : Text) (message : Message) (b : Bridge) → (intercept base message b).log ≡ b.log
unfolding intercept
intercept-same base message b = elim (Bool-cases (text_eq base (codes "CAPTURE"))) [
  | inl e ↦ rw e refl
  | inr e ↦ rw e (elim (Bool-cases (text_eq base (codes "SCAN_START"))) [
    | inl f ↦ rw f refl
    | inr f ↦ rw f (elim (Bool-cases (text_eq base (codes "SCAN_STOP"))) [
      | inl g ↦ rw g refl
      | inr g ↦ rw g refl
    ])
  ])
]

-- one more response, as the outcome says, and no capture or scan
record OneMore (command : Text) (r : Result (Option Text)) (b b' : Bridge) : Type 0 where
  pub answer : Text
  pub lost : ℕ
  pub reply : Reply command r answer lost
  pub answered : b'.log ≡ b.log ++ (responded answer ∷ [])
  pub reconnected : b'.reconnects ≡ b.reconnects + lost
  pub no_capture : b'.captures ≡ b.captures
  pub no_scan : b'.scans ≡ b.scans

is_serial_exception-only : (e : Error) → is_serial_exception e ≡ true → e ≡ serial_exception
unfolding is_serial_exception
is_serial_exception-only serial_exception h = refl
is_serial_exception-only e h = ground arith

publish_outcome-OneMore :
    (command : Text) (r : Result (Option Text)) (b : Bridge)
    → OneMore command r b (publish_outcome command r b)
unfolding publish_outcome publish_failure publish_response
publish_outcome-OneMore command (raised e) b = elim (Bool-cases (is_serial_exception e)) [
  | inl h ↦ rw h (record {
    answer = timed_out command;
    lost = 1;
    reply =
        subst (λ e. Reply command (raised e) (timed_out command) 1)
          (sym (is_serial_exception-only e h)) port_lost;
    answered = refl;
    reconnected = omega arith;
    no_capture = refl;
    no_scan = refl;
  })
  | inr h ↦ rw h (record {
    answer = timed_out command;
    lost = 0;
    reply = failed e h;
    answered = refl;
    reconnected = omega arith;
    no_capture = refl;
    no_scan = refl;
  })
]
publish_outcome-OneMore command (ok none) b = record {
  answer = timed_out command;
  lost = 0;
  reply = none_in_time;
  answered = refl;
  reconnected = omega arith;
  no_capture = refl;
  no_scan = refl;
}
publish_outcome-OneMore command (ok (some response)) b = record {
  answer = response;
  lost = 0;
  reply = from_controller response;
  answered = refl;
  reconnected = omega arith;
  no_capture = refl;
  no_scan = refl;
}

handle_text-answers :
    (device : Device) (command : Text) (message : Message) (b : Bridge)
    → IsKept command b (handle_text device command message b)
      ⊎ IsForwarded device command b (handle_text device command message b)
unfolding handle_text publish_response forward_to_serial write_lines
handle_text-answers device command message b =
    elim (Bool-cases (one_of (base_command command) intercepted_commands)) [
      | inl e ↦ rw e (
          inl (record {
            intercepted = e;
            acknowledged =
                intercept-same (base_command command) message (publish_response (ack command) b);
          }))
      | inr e ↦
          let x = send_command device.connected b.retry_count device.attempts command in
          let more =
            publish_outcome-OneMore command x.0
              (write_lines x.1 (publish_response (ack command) b)) in
          rw e (
            inr (record {
              not_intercepted = e;
              outcome = x.0;
              lines = x.1;
              sent = refl;
              answer = more.answer;
              lost = more.lost;
              reply = more.reply;
              answered =
                  more.answered
                  ∙ append_assoc (b.log ++ (responded (ack command) ∷ [])) (map wrote x.1)
                      (responded more.answer ∷ [])
                  ∙ append_assoc b.log (responded (ack command) ∷ [])
                      (map wrote x.1 ++ (responded more.answer ∷ []));
              reconnected = more.reconnected;
              no_capture = more.no_capture;
              no_scan = more.no_scan;
            }))
    ]

-- Every message with a usable command is acknowledged before anything else goes out. A command for the
-- camera or the scan executor gets no other response, and nothing is written to the serial port. Any
-- other command is sent to the controller, and after the lines that this writes it gets exactly one
-- more response: the controller's, or SERIAL_TIMEOUT if there is none in time, if the port is not
-- connected, or if it disappears, which starts one reconnection.
pub on_command-answers :
    (device : Device) (message : Message) (command : Text) (b : Bridge)
    → extract_command message ≡ some command
    → IsKept command b (on_command device message b)
      ⊎ IsForwarded device command b (on_command device message b)
unfolding on_command
on_command-answers device message command b e =
    rw (e, on_command) (handle_text-answers device command message b)
