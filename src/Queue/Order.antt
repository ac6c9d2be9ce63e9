-- ===== src/Queue/Order.antt =====
-- Order and exclusion of the commands that go through server/core/queue_manager.py.
use vivarium_connection.Common.{
  ℕ, String, ◌≡◌, ◌<◌, ◌+◌, refl, false, Option, List, [], ◌∷◌, ◌++◌, map, All, arith, eq_refl,
  Result, ok, raised, ◌∙◌, ap, sym, subst, lt→ltb,
}
use mathlib.Core.List.{append_assoc, append-nil}
use vivarium_connection.Common.Clock.{Stamp, seconds}
use vivarium_connection.Common.Text.{Text}
use vivarium_connection.Locking.{
  LockType, LockResult, acquired, already_locked, rack_not_found, Store, Settings, expiry_seconds,
  locked_row, acquire_lock,
}
use vivarium_connection.Locking.Exclusion.{
  reload, reload_row, reloaded, acquired_row, blocks-reload,
}
use vivarium_connection.Queue.{
  QueuedCommand, Env, World, Outcome, published, submit, submit_token, dispatch, publish_step,
  publish, enqueue, queue_of, set_queue, lock_type_for, user_or_anonymous,
}
use vivarium_connection.Queue.Blocked.{
  IsBlocked, IsOrdinary, submit-blocked, queue_of-enqueue, waiting,
}

-- A later submission to one rack, with its clock reading.
pub record Request : Type 0 where
  pub at : ℕ
  pub command : Text
  pub user : Option String

pub submit_all : Env → String → List Request → World → World
submit_all env id [] w = w
submit_all env id (r ∷ rs) w = submit_all env id rs (submit env false r.at id r.command r.user w).0

abbrev pub wait : String → Request → QueuedCommand
wait id r = waiting r.at id r.command r.user

-- The request is no "!" and comes while the rack's lock holds.
abbrev pub Waits : String → Store → Request → Type 0
Waits id s r = IsBlocked r.at id s × IsOrdinary r.command

enqueue_keeps :
    (now : ℕ) (id : String) (command : Text) (user : Option String) (w : World)
    → ((enqueue now id command user w).store ≡ w.store)
      × ((enqueue now id command user w).published ≡ w.published)
unfolding enqueue set_queue
enqueue_keeps now id command user w = (refl, refl)

submit_all-Waits :
    (env : Env) (id : String) (rs : List Request) (w : World)
    → All (Waits id w.store) rs
    → (queue_of id (submit_all env id rs w) ≡ queue_of id w ++ map (wait id) rs)
      × ((submit_all env id rs w).published ≡ w.published)
      × ((submit_all env id rs w).store ≡ w.store)
unfolding submit_all
submit_all-Waits env id [] w h = (sym (append-nil _), refl, refl)
submit_all-Waits env id (r ∷ rs) w (h, hs) =
    let w' = enqueue r.at id r.command r.user w in
    let (kept, same) = enqueue_keeps r.at id r.command r.user w in
    let (q, p, s) =
      submit_all-Waits env id rs w' (subst (λ st. All (Waits id st) rs) (sym kept) hs) in
    let step : submit_all env id (r ∷ rs) w ≡ submit_all env id rs w' =
      ap (λ (x : World × Result Outcome). submit_all env id rs x.0)
        (submit-blocked env false r.at id r.command r.user w h.0 h.1) in
    (
      ap (queue_of id) step
          ∙ q
          ∙ rw (queue_of-enqueue r.at id id r.command r.user w, eq_refl id)
              (append_assoc (queue_of id w) (wait id r ∷ []) (map (wait id) rs)),
      ap (λ (x : World). x.published) step ∙ p ∙ same,
      ap (λ (x : World). x.store) step ∙ s ∙ kept,
    )

dispatch-published :
    (env : Env) (now : ℕ) (id : String) (command token : Text) (user : Option String) (w w' : World)
    (r : Result (LockResult × Store))
    → dispatch env false now id command token user w r ≡ (w', ok published)
    → (s : Store) × (r ≡ ok (acquired, s)) × (w'.store ≡ s)
unfolding dispatch publish_step publish
dispatch-published env now id command token user w w' (raised e) h = ground arith
dispatch-published env now id command token user w w' (ok (rack_not_found, s)) h = ground arith
dispatch-published env now id command token user w w' (ok (already_locked, s)) h = ground arith
dispatch-published env now id command token user w w' (ok (acquired, s)) h = (s, refl, ground arith)

submit-published :
    (env : Env) (now : ℕ) (id : String) (command : Text) (user : Option String) (w w' : World)
    (o : IsOrdinary command)
    → submit env false now id command user w ≡ (w', ok published)
    → acquire_lock env.cfg now id (user_or_anonymous user) (lock_type_for o.token) w.store
      ≡ ok (acquired, w'.store)
unfolding submit submit_token
submit-published env now id command user w w' o h =
    let (s, r, e) =
      dispatch-published env now id command o.token user w w' _
        (rw (o.first, submit_token, o.ordinary) at h) in
    r ∙ ap {B = Result (LockResult × Store)} (λ (x : Store). ok (acquired, x)) (sym e)

-- The world as later sessions find it: the rows are read back from the database.
unfoldable pub reload_world : (Stamp → Stamp) → World → World
reload_world driver w = record w { store = reload driver w.store }

-- The request comes before the expiry of a lock taken at `t` for a command.
abbrev pub InWindow : Settings → ℕ → Text → Request → Type 0
InWindow cfg t token r =
    (r.at < t + seconds (expiry_seconds cfg (lock_type_for token))) × IsOrdinary r.command

window_blocks :
    (cfg : Settings) (driver : Stamp → Stamp) (t : ℕ) (id u : String) (kind : LockType)
    (s s' : Store)
    → ((x : Stamp) → (driver x).at ≡ x.at)
    → acquire_lock cfg t id u kind s ≡ ok (acquired, s')
    → (t' : ℕ) → t' < t + seconds (expiry_seconds cfg kind)
    → IsBlocked t' id (reload driver s')
window_blocks cfg driver t id u kind s s' keeps e t' lt =
    let (rack, row, users) = acquired_row cfg t id u kind s s' e in
    record {
      row = reload_row driver (locked_row cfg t u kind rack);
      found = reloaded driver id s' row;
      locked = blocks-reload cfg driver t t' u kind rack keeps ∙ lt→ltb t' _ lt;
    }

All-wait :
    (cfg : Settings) (t : ℕ) (token : Text) (id : String) (s : Store) (rs : List Request)
    → ((t' : ℕ) → t' < t + seconds (expiry_seconds cfg (lock_type_for token)) → IsBlocked t' id s)
    → All (InWindow cfg t token) rs
    → All (Waits id s) rs
All-wait cfg t token id s [] b h = tt
All-wait cfg t token id s (r ∷ rs) b (h, hs) =
    ((b r.at h.0, h.1), All-wait cfg t token id s rs b hs)

-- Once a command has been published for a rack, every other submission for it before the expiry of
-- the lock that the command took, by anyone and in any number, is queued and not published, and the
-- queue grows at its tail in the order of the submissions. None of the commands is an emergency
-- stop, and no lock is released or extended in between; rows are read back with their instants
-- kept.
pub one_command_at_a_time :
    (env : Env) (driver : Stamp → Stamp) (t : ℕ) (id : String) (command : Text)
    (user : Option String) (w w' : World) (rs : List Request) (o : IsOrdinary command)
    → ((x : Stamp) → (driver x).at ≡ x.at)
    → submit env false t id command user w ≡ (w', ok published)
    → All (InWindow env.cfg t o.token) rs
    → let later = submit_all env id rs (reload_world driver w') in
      (later.published ≡ w'.published) × (queue_of id later ≡ queue_of id w' ++ map (wait id) rs)
unfolding reload_world queue_of
one_command_at_a_time env driver t id command user w w' rs o keeps e h =
    let first = submit-published env t id command user w w' o e in
    let blocked =
      window_blocks env.cfg driver t id (user_or_anonymous user) (lock_type_for o.token) w.store
        w'.store keeps first in
    let (q, p, s) =
      submit_all-Waits env id rs (reload_world driver w')
        (All-wait env.cfg t o.token id (reload driver w'.store) rs blocked h) in
    (p, q)
