-- ===== src/Lib.antt =====
-- Vivarium connection: the server that commands the rack gantries and the Raspberry Pi on each rack.
--
-- The parts and how they interact. A user's command comes by server/api/routes.py (Routes),
-- behind server/middleware/auth.py (Auth), or by server/api/websocket.py (Websocket), which also
-- tells the browsers what the racks report. It reaches server/services/command_handler.py, which
-- parses and validates it (Command) and hands it (Handler) to server/core/queue_manager.py
-- (Queue) or to the scan engine; server/middleware/csrf.py (Csrf) guards the way there. The
-- queue manager locks the rack through server/core/locking.py (Locking), publishes the command
-- and records it in server/services/cache.py (Cache), or keeps it in the rack's queue. Locks
-- live in the rows of `racks` in server/db/models.py (Models) and are mirrored in memory by
-- server/core/state.py (State). When a lock is released or swept, locking calls back into the
-- queue manager. On the Pi, pi/bridge.py (Bridge) answers the published commands,
-- pi/services/scan_executor.py (Scan) drives the gantry over the cells of the grid, and
-- pi/services/serial_handler.py (Serial) talks to its controller; what the controller says of
-- its grid is kept for a while by server/services/layout_cache.py (LayoutCache). The positions
-- that it reports reach server/services/position_monitor.py (M114, Recovery, Position), which
-- re-homes a rack that is off its target and flags it for maintenance;
-- server/services/scan_engine.py (ScanEngine) starts the scans of the Pi, by schedule or for an
-- operator, under a scan lock, and follows their reports. Both act on the queue manager's world
-- with more tables and outputs (Plant). The racks themselves come from
-- server/services/provisioning.py (Provision), and the users from the account routes (Accounts).
--
-- Files:
--   Common     dictionaries as association lists, datetimes, text, exceptions as values;
--   Models     the rows of racks, scan_sessions, scan_schedule and audit_log, with the columns used;
--   State      GantryState: upsert, get, remove, reconcile_from_db;
--   Locking    acquire_lock, release_lock, extend_lock, get_lock_info, is_locked, and the transaction
--              of sweep_expired_locks, on a store of users, rows and mirror;
--   Cache      SqliteCache: pending commands and capture attributions;
--   LayoutCache  LayoutCache: set, get, clear, evict_expired;
--   Queue      QueueManager: submit, submit_emergency, on_lock_released, the queues; and the parts of
--              locking.py that call it: _fire_released, a release in its session, the whole sweep;
--   Command    parse_command, _route_for, validate_command;
--   Handler    handle_command, on the scan engine's state with the cache's attributions;
--   Scan       ScanExecutor: start and its flags, _run with the cell sequence, homing and status messages;
--   Serial     SerialHandler: the reader's lines and their routing, send_command with its retries;
--   Bridge     pi/bridge.py: the handlers of command, emergency and broadcast messages;
--   ImagePath  server/services/s3_handler.py: validate_image_path and its two patterns;
--   Images     server/main.py: the handlers of image and status messages, with that verdict as input, and
--              the relay of an image message before them;
--   Responses  server/main.py: the handler of response messages; Layout: its branches for the grid and
--              the limits;
--   Topics     server/services/mqtt_client.py: topics, and the handlers of a message;
--   Csrf       server/middleware/csrf.py: the middleware and validate_csrf_header;
--   Auth       server/middleware/auth.py, decode_token of core/security.py, _resolve_ws_identity of
--              api/websocket.py and _key_user of middleware/rate_limit.py;
--   Websocket  ConnectionRegistry, relay_mqtt_to_ws, and broadcast_stream_close of streaming.py;
--              Commands: websocket_endpoint, from the resolved identity on;
--   Routes     send_command, release_lock_endpoint, get_position, get_rack_layout without the live
--              query, query_machine_limits;
--   Accounts   login, create_user, first_time_setup;
--   DeviceId   provisioning.py: the names of the racks, their order and their numbers;
--   Provision  provision_device, _upsert_rack, _assign_device_id, _build_server_host;
--   Plant      the server's world with schedules, sessions, audits, alerts and SCAN_START messages, and
--              publish_command and publish_emergency of services/mqtt_client.py;
--   M114       the regular expression of an M114 line; Printed: reportPosition of the firmware,
--              ardino/RackMonitor_Mega_IS_S.ino;
--   Recovery   PositionMonitor: commanded targets, _start_recovery, _escalate_to_maintenance;
--   Position   PositionMonitor: on_m114 with its checks and _retry_command;
--   ScanEngine ScanEngine: its state and the steps that its operations share; Due: the job that starts
--              the scans that are due; Handlers: scan_progress, scan_status, the conflict with manual
--              commands, resume and restart, trigger_manual_scan;
--   Examples   concrete racks, commands and scans.
-- The children of a module hold its theorems.
--
-- Modelling. A datetime is an instant in microseconds with a flag for its zone (Common.Clock);
-- comparing a naive one with an aware one raises TypeError, as in Python. The database driver may
-- drop the zone when it reads a row back: it is the parameter `driver`, of which the theorems
-- assume that it keeps the instant. The MQTT publish function is the parameter `delivers`, which
-- says of a message whether the call returns. A float is carried as its bit pattern; what the
-- position monitor computes with floats is the parameter `Floats`. Text is ASCII. The flags that
-- other threads set during a scan, the serial port and the camera are the function `look`, which
-- says what each visit of a cell observes. Loops are structural recursions, over a list, a
-- dictionary or the number of rows or of retries; only the groups of due racks are cut off on fuel,
-- the number of racks, since each group takes at least one. In the position monitor and the scan
-- engine `db_ok` says whether the database sessions of a call work, and one clock reading serves a
-- whole call. A timer is a value with the time at which it fires.
--
-- The bytes that the serial port returns and the lines that arrive before a deadline are inputs.
--
-- What the code calls and does not contain is the parameter `Authority` (the verification of a JWT and
-- the tests that core/security.py documents without defining them), `Crypto` (bcrypt and random ids),
-- and the three credentials that a provisioning request would be given. The connections of the
-- browsers are a table under the numbers of their sockets, and `alive` says whether a socket's send
-- returns. Database writes through a request's session are kept or lost as the code commits it.
--
-- Not modelled: the wiring of server/main.py, and the writes of the threads that persist a layout; the
-- route that acquires a lock, which calls itself with wrong arguments, the live layout query and the
-- lists; the MQTT clients but for two calls, and the Pi's start-up, camera and streaming, which are
-- input and output; the interleaving of a broadcast with changes of the registry, and threads other
-- than as explicit calls; the start and stop of the scheduler, and LayoutCache.wait_for, which polls.
pub mod Common
pub mod Models
pub mod State
pub mod Locking
pub mod Cache
pub mod DeviceId
pub mod Provision
pub mod Queue
pub mod Command
pub mod Routes
pub mod Scan
pub mod ScanEngine
pub mod Handler
pub mod ImagePath
pub mod Images
pub mod Responses
pub mod Topics
pub mod Websocket
pub mod Examples
pub mod Serial
pub mod Accounts
pub mod Auth
pub mod Bridge
pub mod Csrf
pub mod LayoutCache
pub mod M114
pub mod Plant
pub mod Position
pub mod Recovery
