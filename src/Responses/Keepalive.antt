-- ===== src/Responses/Keepalive.antt =====
-- The keepalive messages of a scan in server/main.py and the lock that they extend.
use vivarium_connection.Common.{
  ℕ, ◌+◌, ◌<◌, String, ◌≡◌, refl, sym, ap, ◌∙◌, subst, Bool, true, false, ◌&&◌, some, ◌++◌, is_some,
  arith, ok, lt→ltb, ltb,
}
use vivarium_connection.Common.Dict
use vivarium_connection.Common.Clock.{Stamp, seconds}
use vivarium_connection.Common.Text.{Text, codes}
use vivarium_connection.Models.{Rack}
use vivarium_connection.Locking.{
  LockType, already_locked, blocks, ensure_utc, extended_row, extend_lock, acquire_lock, write,
}
use vivarium_connection.Locking.Exclusion.{reload, reload_row, reloaded, acquire_lock-found}
use vivarium_connection.Serial.{has_prefix, has_part}
use vivarium_connection.Queue.{Env}
use vivarium_connection.Plant.{Plant}
use vivarium_connection.Recovery.{Monitor}
use vivarium_connection.Position.{Setup}
use vivarium_connection.Responses.{
  extend, lock_response, follow_up, after_position, on_response_message,
}

abbrev pub keepalive : Text → Text
keepalive rest = codes "SCAN_KEEPALIVE" ++ rest

extended-blocks :
    (driver : Stamp → Stamp) (now t additional : ℕ) (u : String) (rack : Rack)
    → ((x : Stamp) → (driver x).at ≡ x.at)
    → rack.lock_holder_user_id ≡ some u
    → let row = reload_row driver (extended_row now additional rack) in
      blocks t row.lock_holder_user_id (ensure_utc row.lock_expires_at)
      ≡ ltb t (now + seconds additional)
unfolding reload_row extended_row blocks ensure_utc
extended-blocks driver now t additional u rack keeps held =
    rw held (ground (arith, keeps (record { at = now + seconds additional; aware = true })))

extend-lookup :
    (now : ℕ) (id : String) (additional : ℕ) (p : Plant) {rack : Rack}
    → Dict.lookup id p.world.store.racks ≡ some rack
    → is_some rack.lock_holder_user_id ≡ true
    → Dict.lookup id (extend now id additional p).world.store.racks
      ≡ some (extended_row now additional rack)
unfolding extend extend_lock write
extend-lookup now id additional p found held =
    rw (found, extend_lock) (rw held (Dict.lookup-insert_self id _ p.world.store.racks))

lock_response-keepalive :
    (env : Env) (db_ok : Bool) (now : ℕ) (id : String) (rest : Text) (p : Plant)
    → lock_response env db_ok now id (keepalive rest) p
      ≡ extend now id env.cfg.scan_lock_timeout_s p
unfolding lock_response has_prefix
lock_response-keepalive env db_ok now id rest p = refl

follow_up-keepalive :
    (env : Env) (id : String) (rest : Text) (p : Plant) → follow_up env id (keepalive rest) p ≡ p
unfolding follow_up has_prefix
follow_up-keepalive env id rest p = refl

IsRefused :
    (setup : Setup) (driver : Stamp → Stamp) (t : ℕ) (id v : String) (kind : LockType) (q : Plant)
    → Type 0
IsRefused setup driver t id v kind q =
    let s = reload driver q.world.store in
    acquire_lock setup.env.cfg t id v kind s ≡ ok (already_locked, s)

extend-IsRefused :
    (setup : Setup) (driver : Stamp → Stamp) (now t : ℕ) (id u v : String) (kind : LockType)
    (p : Plant) (rack : Rack)
    → ((x : Stamp) → (driver x).at ≡ x.at)
    → Dict.lookup id p.world.store.racks ≡ some rack
    → rack.lock_holder_user_id ≡ some u
    → t < now + seconds setup.env.cfg.scan_lock_timeout_s
    → IsRefused setup driver t id v kind (extend now id setup.env.cfg.scan_lock_timeout_s p)
unfolding IsRefused
extend-IsRefused setup driver now t id u v kind p rack keeps found held early =
    let timeout = setup.env.cfg.scan_lock_timeout_s in
    let s = (extend now id timeout p).world.store in
    acquire_lock-found setup.env.cfg t id v kind (reload driver s)
      (reloaded driver id s (extend-lookup now id timeout p found (rw held refl)))
    ∙ rw (extended-blocks driver now t timeout u rack keeps held ∙ lt→ltb t _ early) refl

keepalive-extends :
    (setup : Setup) (db_ok : Bool) (now : ℕ) (id : String) (rest : Text) (m : Monitor) (p : Plant)
    → (has_part (codes "X:") (keepalive rest) && has_part (codes "homed:") (keepalive rest)) ≡ false
    → (on_response_message setup db_ok now id (keepalive rest) m p).1
      ≡ extend now id setup.env.cfg.scan_lock_timeout_s p
unfolding on_response_message after_position
keepalive-extends setup db_ok now id rest m p other = rw other (
    ap (lock_response setup.env db_ok now id (keepalive rest))
      (follow_up-keepalive setup.env id rest p)
    ∙ lock_response-keepalive setup.env db_ok now id rest p)

-- After a keepalive of a rack whose row has a holder, even one whose lock has run out, every attempt to
-- lock the rack within the scan timeout is refused and changes nothing. The message is no position, and
-- rows are read back with their instants kept.
pub on_response_message-keepalive :
    (setup : Setup) (driver : Stamp → Stamp) (db_ok : Bool) (now t : ℕ) (id u v : String)
    (kind : LockType) (rest : Text) (m : Monitor) (p : Plant) (rack : Rack)
    → ((x : Stamp) → (driver x).at ≡ x.at)
    → Dict.lookup id p.world.store.racks ≡ some rack
    → rack.lock_holder_user_id ≡ some u
    → (has_part (codes "X:") (keepalive rest) && has_part (codes "homed:") (keepalive rest)) ≡ false
    → t < now + seconds setup.env.cfg.scan_lock_timeout_s
    → let s =
        reload driver (on_response_message setup db_ok now id (keepalive rest) m p).1.world.store in
      acquire_lock setup.env.cfg t id v kind s ≡ ok (already_locked, s)
on_response_message-keepalive setup driver db_ok now t id u v kind rest m p rack keeps found held
      other early =
    unfold IsRefused in
    subst (IsRefused setup driver t id v kind)
      (sym (keepalive-extends setup db_ok now id rest m p other))
      (extend-IsRefused setup driver now t id u v kind p rack keeps found held early)
