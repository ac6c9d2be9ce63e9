-- ===== src/Responses.antt =====
-- server/main.py: the handler of response messages, for positions, acknowledged commands,
-- reconnections and the locks of captures and scans. Its branches for LAYOUT_CONFIG and the layout and
-- limits of the grid stand in Layout: they write other columns, and no text has the prefixes of two
-- branches.
pub mod Keepalive
pub mod Layout
pub mod Stale
use vivarium_connection.Common.{
  ℕ, String, Bool, true, false, ◌&&◌, ◌==◌, Option, none, some, List, [], ◌∷◌, if◌then◌else◌,
  Result, ok, raised,
}
use vivarium_connection.Common.Dict
use vivarium_connection.Common.Text.{Text, codes, words, upper, one_of}
use vivarium_connection.Locking.{extend_lock}
use vivarium_connection.Serial.{has_prefix, has_part}
use vivarium_connection.Queue.{Env}
use vivarium_connection.Plant.{Plant, audit, command_message, send}
use vivarium_connection.Recovery.{Monitor, mark_stale_check_due}
use vivarium_connection.Position.{Setup, M114Result, on_m114}
use vivarium_connection.Images.{release_capture}

unfoldable pub extend : ℕ → String → ℕ → Plant → Plant
extend now rack_id additional_seconds p = record p {
  world = record p.world { store = (extend_lock now rack_id additional_seconds p.world.store).1 };
}

-- The release and the audit share one session.
unfoldable pub capture_error : Env → Bool → ℕ → String → Plant → Plant
capture_error env db_ok now rack_id p =
    if db_ok then audit "capture_error" rack_id "failure" (release_capture env now rack_id p) else p

unfoldable pub lock_response : Env → Bool → ℕ → String → Text → Plant → Plant
lock_response env db_ok now rack_id raw p =
    if has_prefix (codes "CAPTURE_STARTED") raw
    then extend now rack_id env.cfg.capture_lock_timeout_s p
    else if has_prefix (codes "CAPTURE_DONE") raw
    then release_capture env now rack_id p
    else if has_prefix (codes "CAPTURE_ERROR") raw
    then capture_error env db_ok now rack_id p
    else if has_prefix (codes "SCAN_KEEPALIVE") raw
    then extend now rack_id env.cfg.scan_lock_timeout_s p
    else p

abbrev pub motion_commands : List Text
motion_commands =
    codes "M700" ∷ codes "M701" ∷ codes "M702" ∷ codes "M703" ∷ codes "M704" ∷ codes "G28" ∷ []

-- the text behind the first colon
unfoldable pub after_colon : Text → Text
after_colon [] = []
after_colon (c ∷ cs) = let rest = after_colon cs in if c == b':' then cs else rest

-- Without an acknowledged command `split()[0]` raises IndexError, which ends the handler.
unfoldable pub is_motion : List Text → Bool
is_motion [] = false
is_motion (w ∷ ws) = one_of (upper w) motion_commands

-- the M114 that follows the acknowledgement of a motion command
unfoldable pub follow_up : Env → String → Text → Plant → Plant
follow_up env rack_id raw p =
    if has_prefix (codes "COMMAND_ACK:") raw && is_motion (words (after_colon raw))
    then (send env (command_message rack_id (codes "M114") 1) p).1
    else p

unfoldable pub reconnected : String → Text → Monitor → Monitor
reconnected rack_id raw m =
    if has_prefix (codes "BRIDGE_RECONNECTED") raw then mark_stale_check_due rack_id m else m

-- the branches behind the position's
unfoldable pub after_position :
    Env → Bool → ℕ → String → Text → Monitor × Plant × Result (Option M114Result) → Monitor × Plant
after_position env db_ok now rack_id raw (m, p, raised e) = (m, p)
after_position env db_ok now rack_id raw (m, p, ok r) = (
  reconnected rack_id raw m,
  lock_response env db_ok now rack_id raw (follow_up env rack_id raw p),
)

unfoldable pub on_response_message :
    Setup → Bool → ℕ → String → Text → Monitor → Plant → Monitor × Plant
on_response_message setup db_ok now rack_id raw m p =
    if has_part (codes "X:") raw && has_part (codes "homed:") raw
    then after_position setup.env db_ok now rack_id raw (on_m114 setup db_ok now rack_id raw m p)
    else after_position setup.env db_ok now rack_id raw (m, p, ok none)
