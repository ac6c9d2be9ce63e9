-- ===== src/Queue.antt =====
-- server/core/queue_manager.py, with the parts of server/core/locking.py that call back into it.
-- The world is the committed database, the process's mirror, the queues, the cache's table of
-- pending commands, and the messages handed to the publish function. A `db_session` reads the
-- committed rows; its writes are committed at its end, and while another session holds unwritten
-- changes a flush of a second one raises OperationalError (SQLite has one writer): `busy`.
-- An absent deque and an empty one are not told apart.
pub mod Blocked
pub mod Release
pub mod Dispatch
pub mod Order
pub mod Conserve
use vivarium_connection.Common.{
  ℕ, String, ◌≡◌, ◌*◌, refl, Bool, true, false, ◌||◌, Option, none, some, List, [], ◌∷◌, ◌++◌,
  str_eq, if◌then◌else◌, Result, ok, raised, ◌>>=◌, Error, index_error, operational_error, length,
}
use vivarium_connection.Common.Dict
use vivarium_connection.Common.Dict.{Dict}
use vivarium_connection.Common.Text.{Text, codes, words, upper, text_eq, one_of}
use vivarium_connection.Models.{Rack}
use vivarium_connection.Locking.{
  LockType, motion, capture, scan, LockResult, acquired, already_locked, rack_not_found, Settings,
  Store, acquire_lock, release_lock, sweep_transaction,
}
use vivarium_connection.Cache.{Pending, set_pending_command}

pub record QueuedCommand : Type 0 where
  pub rack_id : String
  pub command : Text
  pub user_id : Option String
  pub enqueued_at : ℕ

pub record Message : Type 0 where
  pub rack_id : String
  pub command : Text
  pub qos : ℕ

-- The settings, and whether the injected publish function returns on a message; where it raises,
-- or none is configured, the answer is false.
pub record Env : Type 0 where
  pub cfg : Settings
  pub delivers : Message → Bool

pub record World : Type 0 where
  pub store : Store
  pub queues : Dict (List QueuedCommand)
  pub pending : Pending
  pub published : List Message
  pub stream_closed : List String

pub data Outcome : Type 0 where
  published queued emergency : Outcome
  error_rack_not_found error_publish_failed error_emergency_failed : Outcome

-- command.strip().split()[0].upper()
unfoldable pub first_word : List Text → Result Text
first_word [] = raised index_error
first_word (w ∷ ws) = ok (upper w)

unfoldable pub token_of : Text → Result Text
token_of command = first_word (words command)

unfoldable pub lock_type_for : Text → LockType
lock_type_for token =
    if text_eq token (codes "CAPTURE")
    then capture
    else if one_of token (codes "SCAN_START" ∷ codes "SCAN_STOP" ∷ [])
    then scan
    else motion

unfoldable pub qos_for : Text → ℕ
qos_for token = if text_eq token (codes "!") then 2 else 1

unfoldable pub timeout_for : Settings → Text → ℕ
timeout_for cfg token =
    if text_eq token (codes "CAPTURE")
    then cfg.capture_lock_timeout_s
    else if one_of token (codes "SCAN_START" ∷ codes "SCAN_STOP" ∷ [])
    then cfg.capture_lock_timeout_s * 2
    else cfg.command_timeout_s

-- user_id or "__anonymous__"
unfoldable pub user_or_anonymous : Option String → String
user_or_anonymous none = "__anonymous__"
user_or_anonymous (some u) = if str_eq u "" then "__anonymous__" else u

unfoldable pub queue_of : String → World → List QueuedCommand
queue_of rack_id w = Dict.get_or rack_id w.queues []

unfoldable pub set_queue : String → List QueuedCommand → World → World
set_queue rack_id q w = record w { queues = Dict.insert rack_id q w.queues }

unfoldable pub depth : String → World → ℕ
depth rack_id w = length (queue_of rack_id w)

unfoldable pub peek : String → World → Option QueuedCommand
peek rack_id w = elim (queue_of rack_id w) [ [] ↦ none | item ∷ rest ↦ some item ]

unfoldable pub list_queue : String → World → List QueuedCommand
list_queue rack_id w = queue_of rack_id w

unfoldable pub enqueue : ℕ → String → Text → Option String → World → World
enqueue now rack_id command user_id w =
    set_queue rack_id
      (queue_of rack_id w
        ++ record { rack_id = rack_id; command = command; user_id = user_id; enqueued_at = now }
          ∷ [])
      w

unfoldable pub clear_queue : String → World → World
clear_queue rack_id w = set_queue rack_id [] w

unfoldable pub publish : Message → World → World
publish m w = record w { published = w.published ++ m ∷ [] }

unfoldable pub submit_emergency : Env → String → World → World × Outcome
submit_emergency env rack_id w =
    let w' = clear_queue rack_id w in
    let m : Message = record { rack_id = rack_id; command = codes "!"; qos = 2 } in
    if env.delivers m then (publish m w', emergency) else (w', error_emergency_failed)

-- From the granted lock on: publish, then track the command in the cache.
unfoldable pub publish_step :
    Env → ℕ → String → Text → Text → Option String → World → World × Outcome
publish_step env now rack_id command token user_id w =
    let m : Message = record { rack_id = rack_id; command = command; qos = qos_for token } in
    let timeout_s =
      if text_eq token (codes "CAPTURE")
      then env.cfg.capture_lock_timeout_s
      else env.cfg.command_timeout_s in
    if env.delivers m
    then (
      record (publish m w) {
        pending = set_pending_command now rack_id command user_id timeout_s w.pending;
      },
      published,
    )
    else (w, error_publish_failed)

-- What `submit` does with the outcome of `acquire_lock`.
unfoldable pub dispatch :
    Env
    → Bool
    → ℕ
    → String
    → Text
    → Text
    → Option String
    → World
    → Result (LockResult × Store)
    → World × Result Outcome
dispatch env busy now rack_id command token user_id w (raised e) = (w, raised e)
dispatch env busy now rack_id command token user_id w (ok (rack_not_found, s)) =
    (w, ok error_rack_not_found)
dispatch env busy now rack_id command token user_id w (ok (already_locked, s)) =
    (enqueue now rack_id command user_id w, ok queued)
dispatch env true now rack_id command token user_id w (ok (acquired, s)) =
    (w, raised operational_error)
dispatch env false now rack_id command token user_id w (ok (acquired, s)) =
    let (w', o) = publish_step env now rack_id command token user_id (record w { store = s }) in
    (w', ok o)

unfoldable pub submit_token :
    Env → Bool → ℕ → String → Text → Option String → World → Result Text → World × Result Outcome
submit_token env busy now rack_id command user_id w (raised e) = (w, raised e)
submit_token env busy now rack_id command user_id w (ok token) =
    if text_eq token (codes "!")
    then (let (w', o) = submit_emergency env rack_id w in (w', ok o))
    else dispatch env busy now rack_id command token user_id w
        (acquire_lock env.cfg now rack_id (user_or_anonymous user_id) (lock_type_for token) w.store)

unfoldable pub submit :
    Env → Bool → ℕ → String → Text → Option String → World → World × Result Outcome
submit env busy now rack_id command user_id w =
    submit_token env busy now rack_id command user_id w (token_of command)

-- `_pop`, then `submit` of the popped item. An exception leaves the item popped.
unfoldable pub on_lock_released : Env → Bool → ℕ → String → World → World
on_lock_released env busy now rack_id w = elim (queue_of rack_id w) [
  | [] ↦ w
  | item ∷ rest ↦
      (submit env busy now rack_id item.command item.user_id (set_queue rack_id rest w)).0
]

-- `_fire_released`: `on_lock_released` is the one registered callback, and its exceptions are caught.
unfoldable pub fire_released : Env → Bool → ℕ → String → World → World
fire_released env busy now rack_id w = on_lock_released env busy now rack_id w

-- `with db_session() as db: release_lock(rack_id, db)`. The callbacks run inside the session: they
-- see the committed rows, without the release, and the mirror, with it. The commit comes after them.
unfoldable pub session_release : Env → ℕ → String → World → Bool × World
session_release env now rack_id w =
    let (released, s) = release_lock now rack_id w.store in
    if released
    then (let w' =
          fire_released env true now rack_id
            (record w { store = record s { racks = w.store.racks } }) in
        (true, record w' { store = record s { mirror = w'.store.mirror } }))
    else (false, w)

unfoldable pub fire_all : Env → ℕ → List String → World → World
fire_all env now [] w = w
fire_all env now (id ∷ ids) w = fire_all env now ids (fire_released env false now id w)

-- `sweep_expired_locks`: the transaction, then the callbacks, then the streams are closed.
unfoldable pub sweep_expired_locks : Env → ℕ → World → List String × World
sweep_expired_locks env now w =
    let (released, s) = sweep_transaction now w.store in
    let w' = fire_all env now released (record w { store = s }) in
    (released, record w' { stream_closed = w'.stream_closed ++ released })
