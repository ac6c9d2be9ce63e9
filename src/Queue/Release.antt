-- ===== src/Queue/Release.antt =====
-- What a released lock does to the queue of its rack (server/core/locking.py and
-- server/core/queue_manager.py): the release inside a session, and the sweep after its commit.
use vivarium_connection.Common.{
  ℕ, String, ◌≡◌, refl, Bool, true, false, Option, some, List, [], ◌∷◌, ◌++◌, arith, eq_refl,
  is_some, Result, ok, ◌∙◌, ap,
}
use vivarium_connection.Common.Dict
use vivarium_connection.Common.Text.{Text, codes, text_eq}
use vivarium_connection.Models.{Rack}
use vivarium_connection.Locking.{
  Store, contains, blocks, ensure_utc, release_lock, write, cleared_row, clear_fields,
  granted_store,
}
use vivarium_connection.Locking.Exclusion.{acquire_lock-found, granted_known}
use vivarium_connection.Queue.{
  QueuedCommand, Env, World, Outcome, token_of, submit, submit_token, dispatch, publish_step,
  enqueue, queue_of, set_queue, lock_type_for, user_or_anonymous, on_lock_released, fire_released,
  session_release,
}
use vivarium_connection.Queue.Blocked.{
  IsBlocked, IsOrdinary, submit-blocked, queue_of-set_queue_self, queue_of-enqueue, waiting,
}

pub on_lock_released-cons :
    (env : Env) (busy : Bool) (now : ℕ) (id : String) (w : World) {item : QueuedCommand}
    {rest : List QueuedCommand}
    → queue_of id w ≡ item ∷ rest
    → on_lock_released env busy now id w
      ≡ (submit env busy now id item.command item.user_id (set_queue id rest w)).0
unfolding on_lock_released
on_lock_released-cons env busy now id w e = rw (e, on_lock_released)

held_of_blocks :
    (now : ℕ) (s : Store) (id : String) (b : IsBlocked now id s)
    → is_some b.row.lock_holder_user_id ≡ true
unfolding blocks
held_of_blocks now s id b = ground (arith, b.locked)

-- The callback of a release in an open session finds the lock still in the committed row.
released_requeues :
    (env : Env) (now : ℕ) (id : String) (w : World) {item : QueuedCommand}
    {rest : List QueuedCommand}
    → IsBlocked now id w.store
    → IsOrdinary item.command
    → queue_of id w ≡ item ∷ rest
    → fire_released env true now id w
      ≡ enqueue now id item.command item.user_id (set_queue id rest w)
unfolding fire_released set_queue
released_requeues env now id w {item} {rest} b o q =
    on_lock_released-cons env true now id w q
    ∙ ap (λ (r : World × Result Outcome). r.0)
        (submit-blocked env true now id item.command item.user_id (set_queue id rest w) b o)

pub release_lock-held :
    (now : ℕ) (id : String) (s : Store) {row : Rack}
    → Dict.lookup id s.racks ≡ some row
    → is_some row.lock_holder_user_id ≡ true
    → release_lock now id s ≡ (true, write now id (cleared_row now row) clear_fields s)
unfolding release_lock
release_lock-held now id s found held = rw (found, release_lock) (rw held)

module _ (env : Env) (now : ℕ) (id : String) (w : World) {item : QueuedCommand}
    {rest : List QueuedCommand} (b : IsBlocked now id w.store) (o : IsOrdinary item.command)
    (q : queue_of id w ≡ item ∷ rest) where
  -- the session's store after the release, and the world that its callbacks see
  released_store : Store
  released_store = write now id (cleared_row now b.row) clear_fields w.store

  seen : World
  unfolding released_store write
  seen = record w { store = record released_store { racks = w.store.racks } }

  session_release_lem : session_release env now id w ≡ (
    true,
    let w' = enqueue now id item.command item.user_id (set_queue id rest seen) in
        record w' { store = record released_store { mirror = w'.store.mirror } },
  )
  unfolding session_release seen released_store write queue_of
  session_release_lem =
      rw (release_lock-held now id w.store b.found (held_of_blocks now w.store id b)) (
        ap
          (λ (x : World).
            (true, record x { store = record released_store { mirror = x.store.mirror } }))
          (released_requeues env now id seen
            (record { row = b.row; found = b.found; locked = b.locked }) o q))

  rotated :
      queue_of id (enqueue now id item.command item.user_id (set_queue id rest seen))
      ≡ rest ++ waiting now id item.command item.user_id ∷ []
  rotated =
      queue_of-enqueue now id id item.command item.user_id (set_queue id rest seen)
      ∙ rw (eq_refl id, queue_of-set_queue_self id rest seen)

  -- A release of a live lock with a command waiting dispatches nothing. The callback runs before
  -- the release is committed, finds the rack still locked, and puts the popped command back at the
  -- tail of the queue: the lock is gone, the queue is rotated, and nothing is published.
  pub release_rotates :
      let w' = (session_release env now id w).1 in
      ((session_release env now id w).0 ≡ true)
      × (Dict.lookup id w'.store.racks ≡ some (cleared_row now b.row))
      × (queue_of id w' ≡ rest ++ waiting now id item.command item.user_id ∷ [])
      × (w'.published ≡ w.published)
  unfolding released_store write seen enqueue set_queue queue_of
  release_rotates =
      rw session_release_lem
        (refl, Dict.lookup-insert_self id (cleared_row now b.row) w.store.racks, rotated, refl)

pub submit-free :
    (env : Env) (now : ℕ) (id : String) (command token : Text) (user : Option String) (w : World)
    {row : Rack}
    → token_of command ≡ ok token
    → text_eq token (codes "!") ≡ false
    → Dict.lookup id w.store.racks ≡ some row
    → blocks now row.lock_holder_user_id (ensure_utc row.lock_expires_at) ≡ false
    → contains w.store.users (user_or_anonymous user) ≡ true
    → submit env false now id command user w ≡ (
        let (w', o) = publish_step env now id command token user (record w {
          store =
              granted_store env.cfg now id
                (user_or_anonymous user)
                (lock_type_for token)
                row
                w.store;
        }) in
        (w', ok o))
unfolding submit submit_token dispatch
submit-free env now id command token user w {row} first ordinary found free known =
    rw (first, submit_token)
      (rw
        (
          ordinary,
          acquire_lock-found env.cfg now id (user_or_anonymous user) (lock_type_for token) w.store
              found,
          free,
          granted_known env.cfg now id (user_or_anonymous user) (lock_type_for token) row w.store
              known,
        )
        refl)
