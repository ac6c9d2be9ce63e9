-- ===== src/Queue/Dispatch.antt =====
-- The sweep of server/core/locking.py with the queue of server/core/queue_manager.py behind it.
use vivarium_connection.Common.{
  ℕ, String, ◌≡◌, refl, true, false, some, List, [], ◌∷◌, ◌++◌, Result, ok, ◌∙◌, ap,
}
use vivarium_connection.Common.Dict
use vivarium_connection.Common.Text.{Text}
use vivarium_connection.Models.{Rack}
use vivarium_connection.Locking.{
  contains, blocks, cleared_row, granted_store, locked_row, write, row_due, sweep_row,
  sweep_transaction,
}
use vivarium_connection.Locking.Sweep.{swept_row}
use vivarium_connection.Queue.{
  QueuedCommand, Message, Env, World, Outcome, qos_for, publish, publish_step, queue_of, set_queue,
  lock_type_for, user_or_anonymous, fire_released, fire_all, sweep_expired_locks, submit,
}
use vivarium_connection.Queue.Blocked.{IsOrdinary, queue_of-set_queue_self}
use vivarium_connection.Queue.Release.{on_lock_released-cons, submit-free}

unfoldable pub message_of : String → Text → Text → Message
message_of id command token = record { rack_id = id; command = command; qos = qos_for token }

module _ (env : Env) (now : ℕ) (id : String) (w : World) {item : QueuedCommand}
    {rest : List QueuedCommand} {row : Rack} (o : IsOrdinary item.command)
    (found : Dict.lookup id w.store.racks ≡ some row) (due : row_due now row ≡ true)
    (only : (sweep_transaction now w.store).0 ≡ id ∷ []) (q : queue_of id w ≡ item ∷ rest)
    (known : contains w.store.users (user_or_anonymous item.user_id) ≡ true)
    (delivers : env.delivers (message_of id item.command o.token) ≡ true) where
  swept : World
  swept = record w { store = (sweep_transaction now w.store).1 }

  swept_free : Dict.lookup id swept.store.racks ≡ some (cleared_row now row)
  unfolding swept sweep_row
  swept_free = swept_row now id w.store ∙ rw found (rw due)

  dispatched : World
  dispatched =
      (publish_step env now id item.command o.token item.user_id (record (set_queue id rest swept) {
        store =
            granted_store env.cfg now id (user_or_anonymous item.user_id) (lock_type_for o.token)
              (cleared_row now row) swept.store;
      })).0

  submitted : submit env false now id item.command item.user_id (set_queue id rest swept) ≡ (
      let (w', r) =
        publish_step env now id item.command o.token item.user_id
          (record (set_queue id rest swept) {
            store =
                granted_store env.cfg now id
                  (user_or_anonymous item.user_id)
                  (lock_type_for o.token)
                  (cleared_row now row)
                  swept.store;
          }) in
      (w', ok r))
  unfolding swept sweep_transaction set_queue
  submitted =
      submit-free env now id item.command o.token item.user_id (set_queue id rest swept) o.first
        o.ordinary swept_free (unfold cleared_row blocks in refl) known

  fired : fire_released env false now id swept ≡ dispatched
  unfolding fire_released dispatched swept queue_of
  fired =
      on_lock_released-cons env false now id swept q
      ∙ ap (λ (r : World × Result Outcome). r.0) submitted

  dispatched_lem :
      (dispatched.published ≡ w.published ++ message_of id item.command o.token ∷ [])
      × (queue_of id dispatched ≡ rest)
      × (Dict.lookup id dispatched.store.racks
          ≡ some (
              locked_row env.cfg now
                (user_or_anonymous item.user_id)
                (lock_type_for o.token)
                (cleared_row now row)))
  unfolding dispatched publish_step publish message_of granted_store write set_queue queue_of swept
  dispatched_lem =
      rw (delivers, dispatched, publish_step)
        (
          refl,
          unfold Dict.get_or in queue_of-set_queue_self id rest swept,
          Dict.lookup-insert_self id _ (sweep_transaction now w.store).1.racks,
        )

  -- A sweep that releases one rack, whose queue is not empty, hands the command at the head of the
  -- queue to the publish function, if the database knows its user and the publish function returns,
  -- and locks the rack for that user from the time of the sweep; the rest of the queue waits on.
  pub sweep_dispatches :
      let (released, w') = sweep_expired_locks env now w in
      (released ≡ id ∷ [])
      × (w'.published ≡ w.published ++ message_of id item.command o.token ∷ [])
      × (queue_of id w' ≡ rest)
      × (Dict.lookup id w'.store.racks
          ≡ some (
              locked_row env.cfg now
                (user_or_anonymous item.user_id)
                (lock_type_for o.token)
                (cleared_row now row)))
  unfolding sweep_expired_locks fire_all swept queue_of
  sweep_dispatches = rw (only, fired) (refl, dispatched_lem.0, dispatched_lem.1, dispatched_lem.2)
