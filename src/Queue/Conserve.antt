-- ===== src/Queue/Conserve.antt =====
-- Where a submitted command goes in server/core/queue_manager.py, on every branch.
use vivarium_connection.Common.{
  ℕ, String, ◌≡◌, ◌+◌, refl, Bool, true, false, Option, List, [], ◌∷◌, ◌++◌, arith, str_eq, eq_refl,
  if◌then◌else◌, Result, ok, raised, ap, length, length-append, Bool-cases, inl, inr,
}
use vivarium_connection.Common.Text.{Text, codes}
use vivarium_connection.Locking.{LockResult, acquired, already_locked, rack_not_found, Store}
use vivarium_connection.Queue.{
  Message, Env, World, Outcome, published, queued, emergency, error_emergency_failed, submit,
  submit_token, dispatch, publish_step, publish, enqueue, clear_queue, queue_of, set_queue, depth,
  qos_for, submit_emergency,
}
use vivarium_connection.Queue.Blocked.{IsOrdinary, queue_of-set_queue, queue_of-enqueue}

-- One for a command that went to the publish function or to the queue.
pub placed : Result Outcome → ℕ
placed (ok published) = 1
placed (ok queued) = 1
placed _ = 0

depth-enqueue :
    (now : ℕ) (id : String) (command : Text) (user : Option String) (w : World)
    → depth id (enqueue now id command user w) ≡ depth id w + 1
unfolding depth
depth-enqueue now id command user w =
    rw (queue_of-enqueue now id id command user w, eq_refl id)
      (length-append (queue_of id w) (_ ∷ []))

published-enqueue :
    (now : ℕ) (id : String) (command : Text) (user : Option String) (w : World)
    → (enqueue now id command user w).published ≡ w.published
unfolding enqueue set_queue
published-enqueue now id command user w = refl

publish_placed :
    (env : Env) (now : ℕ) (id : String) (command token : Text) (user : Option String) (w : World)
    → let (w', o) = publish_step env now id command token user w in
      (length w'.published ≡ length w.published + placed (ok o)) × (depth id w' ≡ depth id w)
unfolding publish_step publish placed depth queue_of
publish_placed env now id command token user w =
    ground (arith, length-append w.published (message ∷ []))
  where
    message : Message
    message = record { rack_id = id; command = command; qos = qos_for token }

dispatch-placed :
    (env : Env) (busy : Bool) (now : ℕ) (id : String) (command token : Text) (user : Option String)
    (w : World) (r : Result (LockResult × Store))
    → let (w', o) = dispatch env busy now id command token user w r in
      length w'.published + depth id w' ≡ length w.published + depth id w + placed o
unfolding dispatch placed
dispatch-placed env busy now id command token user w (raised e) = omega arith
dispatch-placed env busy now id command token user w (ok (rack_not_found, s)) = omega arith
dispatch-placed env busy now id command token user w (ok (already_locked, s)) = omega (
  arith,
  ap {B = ℕ} (λ (m : List Message). length m) (published-enqueue now id command user w),
  depth-enqueue now id command user w,
)
dispatch-placed env true now id command token user w (ok (acquired, s)) = omega arith
dispatch-placed env false now id command token user w (ok (acquired, s)) =
    let (p, d) = publish_placed env now id command token user (record w { store = s }) in
    unfold depth queue_of in omega (arith, p, d)

-- On every branch of `submit` of an ordinary command, errors and exceptions included, the number
-- of messages published plus the length of the rack's queue grows by one if the outcome is
-- "published" or "queued", and stays as it is otherwise.
pub submit-placed :
    (env : Env) (busy : Bool) (now : ℕ) (id : String) (command : Text) (user : Option String)
    (w : World)
    → IsOrdinary command
    → let (w', o) = submit env busy now id command user w in
      length w'.published + depth id w' ≡ length w.published + depth id w + placed o
unfolding submit submit_token
submit-placed env busy now id command user w o =
    rw (o.first, submit_token)
      (rw o.ordinary (dispatch-placed env busy now id command o.token user w _))

-- An emergency stop empties the queue of its rack and no other, changes no row and no mirror entry,
-- and, if the publish function returns, adds exactly the message "!" with QoS 2 to what was
-- published; if it raises, nothing is added, and the queue is emptied all the same.
pub submit_emergency_lem :
    (env : Env) (id k : String) (w : World)
    → let stop : Message = record { rack_id = id; command = codes "!"; qos = 2 } in
      let (w', o) = submit_emergency env id w in
      (w'.published ≡ (if env.delivers stop then w.published ++ stop ∷ [] else w.published))
      × (o ≡ (if env.delivers stop then emergency else error_emergency_failed))
      × (queue_of k w' ≡ (if str_eq id k then [] else queue_of k w))
      × (w'.store ≡ w.store)
unfolding submit_emergency clear_queue publish set_queue queue_of
submit_emergency_lem env id k w = elim (Bool-cases (env.delivers stop)) [
  | inl sent ↦ rw sent (refl, refl, emptied, refl)
  | inr failed ↦ rw failed (refl, refl, emptied, refl)
]
  where
    stop : Message
    stop = record { rack_id = id; command = codes "!"; qos = 2 }

    emptied : queue_of k (set_queue id [] w) ≡ (if str_eq id k then [] else queue_of k w)
    emptied = queue_of-set_queue id k [] w
