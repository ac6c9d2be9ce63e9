-- ===== src/Scan/Start.antt =====
-- `start`, `request_stop` and `abort` of pi/services/scan_executor.py: the flags around a scan.
use vivarium_connection.Common.{
  ℕ, ◌*◌, String, ◌≡◌, ◌⊎◌, refl, sym, ap, ◌∙◌, Bool, true, false, not, Option, none, some, List,
  [], ◌∷◌, ◌++◌, if◌then◌else◌, Result, Error, ok, raised, ◌>>=◌, type_error, value_error, inl, inr,
}
use vivarium_connection.Scan.{ScanProgress, Event, Seen, run}

-- a key of the message: absent, null, a text that is no number, or a number
pub data Given : Type 0 where
  missing null text : Given
  number : ℕ → Given

pub record Payload : Type 0 where
  pub scan_session_id : Option ℕ
  pub rack_id : Option String
  pub grid_rows : Given
  pub grid_cols : Given
  pub resume_row : Option ℕ
  pub resume_col : Option ℕ

pub record ScanExecutor : Type 0 where
  pub stop_requested : Bool
  pub abort_requested : Bool
  pub running : Bool
  pub keepalive_stop : Bool

-- What a scan observes: whether the first homing is answered, the abort flag after it, the cells, and
-- the two flags that other threads have left at its end.
pub record Observed : Type 0 where
  pub homed : Bool
  pub early : Bool
  pub look : ℕ → ℕ → Seen
  pub stop_left : Bool
  pub abort_left : Bool

unfoldable pub request_stop : ScanExecutor → ScanExecutor
request_stop ex = record ex { stop_requested = true }

unfoldable pub abort : ScanExecutor → ScanExecutor
abort ex = record ex { abort_requested = true; stop_requested = true }

-- int(payload.get(key, default))
unfoldable pub int_of : Given → ℕ → Result ℕ
int_of missing default_ = ok default_
int_of null default_ = raised type_error
int_of text default_ = raised value_error
int_of (number n) default_ = ok n

unfoldable pub or_default : Option String → String → String
or_default none default_ = default_
or_default (some s) default_ = s

unfoldable pub progress_of : String → Payload → Result ScanProgress
progress_of device_id payload = do
  rows ← int_of payload.grid_rows 12
  cols ← int_of payload.grid_cols 7
  ok (record {
    scan_session_id = payload.scan_session_id;
    rack_id = or_default payload.rack_id device_id;
    grid_rows = rows;
    grid_cols = cols;
    cells_total = rows * cols;
    cells_completed = 0;
    cells_failed = 0;
    last_completed_row = none;
    last_completed_col = none;
  })

-- the flags cleared, and `_running` set
unfoldable pub starting : ScanExecutor
starting = record {
  stop_requested = false;
  abort_requested = false;
  running = true;
  keepalive_stop = false;
}

-- The scan, and the flags after it; `_keepalive_stop` is set once the cell loop has been entered.
unfoldable pub scan_from :
    Observed → Payload → Result ScanProgress → ScanExecutor × List Event × Result (Unit {0})
scan_from seen payload (raised e) = (starting, [], raised e)
scan_from seen payload (ok progress) = (
  record {
    stop_requested = seen.stop_left;
    abort_requested = seen.abort_left;
    running = false;
    keepalive_stop = if seen.homed then not seen.early else false;
  },
  (run seen.homed seen.early seen.look payload.resume_row payload.resume_col
      (record { progress = progress; events = [] })).events,
  ok tt,
)

unfoldable pub start :
    String → Observed → Payload → ScanExecutor → ScanExecutor × List Event × Result (Unit {0})
start device_id seen payload ex =
    if ex.running then (ex, [], ok tt) else scan_from seen payload (progress_of device_id payload)

-- one start after another, with the events of them all
pub start_all : String → Observed → List Payload → ScanExecutor → ScanExecutor × List Event
start_all device_id seen [] ex = (ex, [])
start_all device_id seen (payload ∷ payloads) ex =
    let (ex', events, r) = start device_id seen payload ex in
    let (last, more) = start_all device_id seen payloads ex' in (last, events ++ more)

start-busy :
    (device_id : String) (seen : Observed) (payload : Payload) (ex : ScanExecutor)
    → ex.running ≡ true
    → start device_id seen payload ex ≡ (ex, [], ok tt)
unfolding start
start-busy device_id seen payload ex busy =
    ap
      (λ (b : Bool).
        if◌then◌else◌ {A = ScanExecutor × List Event × Result (Unit {0})} b (ex, [], ok tt)
          (scan_from seen payload (progress_of device_id payload)))
      busy

ignored :
    (device_id : String) (seen : Observed) (payloads : List Payload) (ex : ScanExecutor)
    → ex.running ≡ true
    → start_all device_id seen payloads ex ≡ (ex, [])
unfolding start_all start
ignored device_id seen [] ex busy = refl
ignored device_id seen (payload ∷ payloads) ex busy =
    ap
      (λ (x : ScanExecutor × List Event × Result (Unit {0})). (
        (start_all device_id seen payloads x.0).0,
        x.1 ++ (start_all device_id seen payloads x.0).1,
      ))
      (start-busy device_id seen payload ex busy)
    ∙ ignored device_id seen payloads ex busy

-- A start of an idle executor with a null or non-numeric number of rows raises TypeError or ValueError,
-- and sends nothing; after it, whatever is started, with good messages too, no scan runs and nothing
-- is sent.
pub start-wedged :
    (device_id : String) (seen : Observed) (payload : Payload) (ex : ScanExecutor)
    (later : List Payload) (e : Error)
    → ex.running ≡ false
    → ((payload.grid_rows ≡ null) × (e ≡ type_error))
      ⊎ ((payload.grid_rows ≡ text) × (e ≡ value_error))
    → let (ex', events, r) = start device_id seen payload ex in
      (r ≡ raised e)
      × (events ≡ [])
      × (ex'.running ≡ true)
      × (start_all device_id seen later ex' ≡ (ex', []))
unfolding start scan_from progress_of int_of
start-wedged device_id seen payload ex later e idle (inl (given, kind)) =
    rw (idle, given)
      (
        ap raised (sym kind),
        refl,
        unfold starting in refl,
        ignored device_id seen later starting (unfold starting in refl),
      )
start-wedged device_id seen payload ex later e idle (inr (given, kind)) =
    rw (idle, given)
      (
        ap raised (sym kind),
        refl,
        unfold starting in refl,
        ignored device_id seen later starting (unfold starting in refl),
      )
