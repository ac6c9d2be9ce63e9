-- ===== src/Examples/Edges.antt =====
-- The theorems on pi/bridge.py, server/middleware/csrf.py and the topics of
-- server/services/mqtt_client.py.
use vivarium_connection.Common.{zero, suc, ◌≡◌, refl, ◌⊎◌, ◌↔◌, true, false, some, [], ◌∷◌}
use vivarium_connection.Common.Text.{codes, is_space, one_of, text_eq}
use vivarium_connection.Serial.{heard, strip, rstrip, lstrip, keep_char, to_lower, has_prefix}
use vivarium_connection.Bridge.{text, Device, Bridge, extract_command, or_none, on_command}
use vivarium_connection.Bridge.Answers.{IsKept, IsForwarded, on_command-answers}
use vivarium_connection.Csrf.{Request, is_websocket, is_exempt, dispatch}
use vivarium_connection.Csrf.DoubleSubmit.{IsChecked, SameTokens, is_called, dispatch-SameTokens}

-- The controller answers the second attempt.
abbrev device : Device
device = record {
  connected = true;
  attempts = λ k. elim k [ zero ↦ heard [] | suc n ↦ heard (codes "ok" ∷ []) ];
}

abbrev bridge : Bridge
bridge = record {
  device_id = "pi-1";
  retry_count = 1;
  log = [];
  captures = 0;
  scans = [];
  executor = record {
    stop_requested = false;
    abort_requested = false;
    running = false;
    keepalive_stop = false;
  };
  reconnects = 0;
}

extracted : extract_command (text (codes " M705 ")) ≡ some (codes "M705")
unfolding extract_command or_none strip rstrip lstrip keep_char is_space
extracted = refl

on_command-answers_example :
    IsKept (codes "M705") bridge (on_command device (text (codes " M705 ")) bridge)
    ⊎ IsForwarded device (codes "M705") bridge (on_command device (text (codes " M705 ")) bridge)
on_command-answers_example =
    on_command-answers device (text (codes " M705 ")) (codes "M705") bridge extracted

abbrev request : Request
request = record {
  method = codes "POST";
  path = codes "/rack/rack-1/command";
  upgrade = [];
  cookie_token = some "a1";
  header_token = some "a1";
}

request-IsChecked : IsChecked request
unfolding one_of is_websocket is_exempt has_prefix to_lower text_eq
request-IsChecked = record { changes_state = refl; looked_at = refl }

dispatch-SameTokens_example :
    (is_called (dispatch true "b2" request) ≡ true) ↔ SameTokens (some "a1") (some "a1")
dispatch-SameTokens_example = dispatch-SameTokens "b2" request request-IsChecked
