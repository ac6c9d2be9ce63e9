-- ===== src/Queue/Blocked.antt =====
-- `submit` of server/core/queue_manager.py on a rack whose lock blocks, and reads of the queues.
use vivarium_connection.Common.{
  ℕ, String, ◌≡◌, refl, Bool, true, false, Option, some, List, [], ◌∷◌, ◌++◌, str_eq, eq_refl,
  if◌then◌else◌, ok, ◌∙◌, Bool-cases, inl, inr,
}
use vivarium_connection.Common.Dict
use vivarium_connection.Common.Text.{Text, codes, text_eq}
use vivarium_connection.Models.{Rack}
use vivarium_connection.Locking.{
  LockType, already_locked, Settings, Store, blocks, ensure_utc, acquire_lock,
}
use vivarium_connection.Locking.Exclusion.{acquire_lock-found}
use vivarium_connection.Queue.{
  QueuedCommand, Env, World, queued, token_of, submit, submit_token, dispatch, enqueue, queue_of,
  set_queue, lock_type_for, user_or_anonymous,
}

-- The rack's row holds a lock that has not expired.
pub record IsBlocked (now : ℕ) (id : String) (s : Store) : Type 0 where
  pub row : Rack
  pub found : Dict.lookup id s.racks ≡ some row
  pub locked : blocks now row.lock_holder_user_id (ensure_utc row.lock_expires_at) ≡ true

-- A command with a first word other than "!".
pub record IsOrdinary (command : Text) : Type 0 where
  pub token : Text
  pub first : token_of command ≡ ok token
  pub ordinary : text_eq token (codes "!") ≡ false

blocked_acquire :
    (cfg : Settings) (now : ℕ) (id u : String) (kind : LockType) (s : Store)
    → IsBlocked now id s
    → acquire_lock cfg now id u kind s ≡ ok (already_locked, s)
blocked_acquire cfg now id u kind s b = acquire_lock-found cfg now id u kind s b.found ∙ rw b.locked

pub submit-blocked :
    (env : Env) (busy : Bool) (now : ℕ) (id : String) (command : Text) (user : Option String)
    (w : World)
    → IsBlocked now id w.store
    → IsOrdinary command
    → submit env busy now id command user w ≡ (enqueue now id command user w, ok queued)
unfolding submit submit_token dispatch
submit-blocked env busy now id command user w b o =
    rw (o.first, submit_token)
      (rw
        (
          o.ordinary,
          blocked_acquire env.cfg now id (user_or_anonymous user) (lock_type_for o.token) w.store b,
        )
        refl)

pub queue_of-set_queue :
    (id k : String) (q : List QueuedCommand) (w : World)
    → queue_of k (set_queue id q w) ≡ (if str_eq id k then q else queue_of k w)
unfolding queue_of set_queue Dict.get_or
queue_of-set_queue id k q w = elim (Bool-cases (str_eq id k)) [
  | inl same ↦ rw (Dict.lookup-insert id k q w.queues, Dict.get_or) (rw same)
  | inr other ↦ rw (Dict.lookup-insert id k q w.queues, Dict.get_or) (rw other)
]

pub queue_of-set_queue_self :
    (id : String) (q : List QueuedCommand) (w : World) → queue_of id (set_queue id q w) ≡ q
queue_of-set_queue_self id q w = queue_of-set_queue id id q w ∙ rw (eq_refl id)

-- A command as it waits in its rack's queue.
abbrev pub waiting : ℕ → String → Text → Option String → QueuedCommand
waiting now id command user = record {
  rack_id = id;
  command = command;
  user_id = user;
  enqueued_at = now;
}

-- An enqueued command goes to the tail of its rack's queue, and to no other.
pub queue_of-enqueue :
    (now : ℕ) (id k : String) (command : Text) (user : Option String) (w : World)
    → queue_of k (enqueue now id command user w)
      ≡ (if str_eq id k then queue_of id w ++ waiting now id command user ∷ [] else queue_of k w)
unfolding enqueue
queue_of-enqueue now id k command user w = queue_of-set_queue id k _ w
