-- ===== src/Websocket/Uncommitted.antt =====
-- A scan that is started over the websocket of server/api/websocket.py, whose session is closed without
-- a commit.
use vivarium_connection.Common.{
  ℕ, ◌≤◌, ◌≡◌, refl, sym, ap, ◌∙◌, String, Bool, true, false, Bool-cases, inl, inr, Option, none,
  some, ◌∷◌, [], ◌++◌, arith, Result, ok,
}
use vivarium_connection.Common.Dict
use vivarium_connection.Common.Clock.{Stamp}
use vivarium_connection.Common.Text.{Text, codes, text_eq}
use vivarium_connection.Models.{Rack}
use vivarium_connection.Locking.{
  LockType, LockResult, acquired, already_locked, Settings, Store, acquire_lock, blocks, contains,
  ensure_utc, scan, granted_store,
}
use vivarium_connection.Locking.Exclusion.{acquire_lock-found}
use vivarium_connection.Command.{ParsedCommand, scan_engine, validate_command}
use vivarium_connection.Queue.{
  Env, World, lock_type_for, published, publish, publish_step, submit, token_of, user_or_anonymous,
}
use vivarium_connection.Queue.Dispatch.{message_of}
use vivarium_connection.Queue.Release.{submit-free}
use vivarium_connection.ScanEngine.{Engine, ScanEnv}
use vivarium_connection.ScanEngine.Handlers.{scan_published, trigger_manual_scan}
use vivarium_connection.ScanEngine.Handlers.Manual.{trigger_online-published, trigger-published}
use vivarium_connection.Handler.{
  Server, CommandResult, from_scan, handle_command, dispatch_parsed, dispatch_route, dispatch_scan,
  from_trigger, user_or_empty,
}
use vivarium_connection.Websocket.{command_ack}
use vivarium_connection.Routes.Parity.{reply-server}
use vivarium_connection.Websocket.Commands.{WsEnv, Site, close_session, acknowledge, run_command}

-- A lock that does not block does not block later.
blocks_later :
    (now t : ℕ) (holder : Option String) (expiry : Option Stamp)
    → now ≤ t
    → blocks now holder expiry ≡ false
    → blocks t holder expiry ≡ false
unfolding blocks
blocks_later now t none expiry late h = refl
blocks_later now t (some u) none late h = refl
blocks_later now t (some u) (some expiry) late h = ground arith

-- A rack whose lock was granted was not blocked.
acquired_free :
    (cfg : Settings) (now : ℕ) (id user : String) (kind : LockType) (s s' : Store) (rack : Rack)
    → Dict.lookup id s.racks ≡ some rack
    → acquire_lock cfg now id user kind s ≡ ok (acquired, s')
    → blocks now rack.lock_holder_user_id (ensure_utc rack.lock_expires_at) ≡ false
acquired_free cfg now id user kind s s' rack found locked =
    elim (Bool-cases (blocks now rack.lock_holder_user_id (ensure_utc rack.lock_expires_at))) [
      | inr free ↦ free
      | inl held ↦
          let refused : acquire_lock cfg now id user kind s ≡ ok (already_locked, s) =
            acquire_lock-found cfg now id user kind s found ∙ rw held in
          let impossible : ◌≡◌ {A = Result (LockResult × Store)} (ok (acquired, s'))
              (ok (already_locked, s)) =
            sym locked ∙ refused in
          ground arith
    ]

-- `handle_command` on a valid SCAN_START whose scan is published.
scan_started :
    (senv : ScanEnv) (db_ok : Bool) (now : ℕ) (id user : String) (raw : Text) (s : Server)
    (rack : Rack) (p : ParsedCommand) (x' : Engine)
    → Dict.lookup id s.engine.plant.world.store.racks ≡ some rack
    → validate_command raw rack.grid_rows rack.grid_cols ≡ ok p
    → p.route ≡ scan_engine
    → text_eq p.cmd (codes "SCAN_START") ≡ true
    → trigger_manual_scan senv db_ok now id user s.engine ≡ (x', scan_published)
    → handle_command senv db_ok now id raw (some user) s
      ≡ (record s { engine = x' }, ok (from_scan scan_published))
unfolding handle_command dispatch_parsed dispatch_route dispatch_scan user_or_empty from_trigger
scan_started senv db_ok now id user raw s rack p x' found valid route start begun =
    rw (found, handle_command)
      (rw (valid, dispatch_parsed)
        (rw (route, dispatch_route) (rw start (ap (from_trigger s) begun))))

-- The server once the socket's session is closed.
unfoldable left_behind : Server → Engine → Server
left_behind before x =
    (close_session before (record before { engine = x }, ok (from_scan scan_published))).0

run_command-started :
    (e : WsEnv) (db_ok : Bool) (now i : ℕ) (id : String) (raw : Text) (s : Site) (x' : Engine)
    → handle_command e.senv db_ok now id raw (some (s.hub.conn i).user_id) s.server
      ≡ (record s.server { engine = x' }, ok (from_scan scan_published))
    → (run_command e db_ok now i id raw s).server ≡ left_behind s.server x'
unfolding run_command acknowledge close_session left_behind
run_command-started e db_ok now i id raw s x' h =
    ap {B = Server}
      (λ (r : Server × Result CommandResult).
        (acknowledge e now i id raw s (close_session s.server r)).server)
      h
    ∙ reply-server e i (command_ack id raw (from_scan scan_published)) _

publish_step-published :
    (env : Env) (now : ℕ) (id : String) (command token : Text) (user : Option String) (w : World)
    → env.delivers (message_of id command token) ≡ true
    → let (w', o) = publish_step env now id command token user w in
      (o ≡ published) × (w'.published ≡ w.published ++ message_of id command token ∷ [])
unfolding publish_step publish message_of
publish_step-published env now id command token user w h = rw (h, publish_step) (refl, refl)

module _ (e : WsEnv) (db_ok : Bool) (now t i : ℕ) (id : String) (raw : Text) (s : Site)
    (rack : Rack) (p : ParsedCommand) (x' : Engine) (command token : Text) (sender : Option String)
    (found : Dict.lookup id s.server.engine.plant.world.store.racks ≡ some rack)
    (valid : validate_command raw rack.grid_rows rack.grid_cols ≡ ok p)
    (route : p.route ≡ scan_engine) (start : text_eq p.cmd (codes "SCAN_START") ≡ true)
    (begun : trigger_manual_scan e.senv db_ok now id (s.hub.conn i).user_id s.server.engine
      ≡ (x', scan_published))
    (late : now ≤ t) (first : token_of command ≡ ok token)
    (ordinary : text_eq token (codes "!") ≡ false)
    (known : contains x'.plant.world.store.users (user_or_anonymous sender) ≡ true)
    (delivered : e.senv.env.delivers (message_of id command token) ≡ true) where
  row_free : blocks t rack.lock_holder_user_id (ensure_utc rack.lock_expires_at) ≡ false
  row_free =
      let (store, old, locked, began) =
        trigger_online-published e.senv db_ok now id (s.hub.conn i).user_id s.server.engine x'
          (trigger-published e.senv db_ok now id (s.hub.conn i).user_id s.server.engine x' begun) in
      blocks_later now t rack.lock_holder_user_id (ensure_utc rack.lock_expires_at) late (
        acquired_free e.senv.env.cfg now id (s.hub.conn i).user_id scan
          s.server.engine.plant.world.store store rack found locked)

  -- A scan that is started over the websocket leaves the published SCAN_START and the engine's entry,
  -- but neither its lock nor its session in the database: from then on the next ordinary command of
  -- any known user for the rack is published at once, while the scan runs.
  pub run_command-unprotected :
      let server = (run_command e db_ok now i id raw s).server in
      let x = server.engine in
      let (w', r) = submit e.senv.env false t id command sender x.plant.world in
      (x.plant.scan_starts ≡ x'.plant.scan_starts)
      × (x.active_sessions ≡ x'.active_sessions)
      × (x.plant.sessions ≡ s.server.engine.plant.sessions)
      × (x.plant.world.store.racks ≡ s.server.engine.plant.world.store.racks)
      × (r ≡ ok published)
      × (w'.published ≡ x.plant.world.published ++ message_of id command token ∷ [])
  unfolding left_behind close_session
  run_command-unprotected =
      let done = run_command-started e db_ok now i id raw s x' (
        scan_started e.senv db_ok now id (s.hub.conn i).user_id raw s.server rack p x' found valid
          route start begun) in
      let w = (left_behind s.server x').engine.plant.world in
      let sent =
        publish_step-published e.senv.env t id command token sender
          (record w {
            store =
                granted_store e.senv.env.cfg t id (user_or_anonymous sender) (lock_type_for token)
                  rack w.store;
          })
          delivered in
      rw
        (
          done,
          submit-free e.senv.env t id command token sender w first ordinary found row_free known,
        )
        (refl, refl, refl, refl, ap ok sent.0, sent.1)
