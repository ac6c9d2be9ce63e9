-- ===== src/Handler/Added.antt =====
-- What the queue manager of server/core/queue_manager.py adds to the published messages.
use vivarium_connection.Common.{
  ℕ, String, ◌≡◌, refl, Bool, true, false, ◌⊎◌, inl, inr, Bool-cases, Option, List, [], ◌∷◌, ◌++◌,
  Result, ok, raised,
}
use vivarium_connection.Common.Text.{Text, codes, words, upper, text_eq, one_of}
use vivarium_connection.Locking.{LockResult, acquired, already_locked, rack_not_found, Store}
use vivarium_connection.Command.{ParsedCommand, allowed_commands, parse_command, parse_tokens}
use vivarium_connection.Queue.{
  Message, Env, World, submit, submit_token, dispatch, publish_step, publish, enqueue, set_queue,
  clear_queue, submit_emergency, qos_for,
}

-- Its first word, in upper case, is in the whitelist.
unfoldable pub IsAllowed : Text → Type 0
IsAllowed command =
    (p : ParsedCommand) × (parse_command command ≡ ok p) × (one_of p.cmd allowed_commands ≡ true)

-- Nothing is added to the messages, or one for the rack with an allowed command.
unfoldable pub AddsAllowed : String → List Message → List Message → Type 0
AddsAllowed id before after =
    (after ≡ before)
    ⊎ ((m : Message) × (after ≡ before ++ (m ∷ [])) × (m.rack_id ≡ id) × IsAllowed m.command)

stop-IsAllowed : IsAllowed (codes "!")
unfolding IsAllowed parse_command words upper parse_tokens one_of
stop-IsAllowed = (_, refl, refl)

pub capture-IsAllowed : IsAllowed (codes "CAPTURE")
unfolding IsAllowed parse_command words upper parse_tokens one_of
capture-IsAllowed = (_, refl, refl)

pub scan_stop-IsAllowed : IsAllowed (codes "SCAN_STOP")
unfolding IsAllowed parse_command words upper parse_tokens one_of
scan_stop-IsAllowed = (_, refl, refl)

pub submit_emergency-AddsAllowed :
    (env : Env) (id : String) (w : World)
    → AddsAllowed id w.published (submit_emergency env id w).0.published
unfolding AddsAllowed submit_emergency clear_queue set_queue publish
submit_emergency-AddsAllowed env id w =
    elim (Bool-cases (env.delivers (record { rack_id = id; command = codes "!"; qos = 2 }))) [
      | inl sent ↦ rw sent (inr (_, refl, refl, stop-IsAllowed))
      | inr failed ↦ rw failed (inl refl)
    ]

publish_step-AddsAllowed :
    (env : Env) (now : ℕ) (id : String) (command token : Text) (user : Option String) (w : World)
    → IsAllowed command
    → AddsAllowed id w.published (publish_step env now id command token user w).0.published
unfolding AddsAllowed publish_step publish
publish_step-AddsAllowed env now id command token user w allowed =
    elim (Bool-cases
      (env.delivers (record { rack_id = id; command = command; qos = qos_for token }))) [
        | inl sent ↦ rw sent (inr (_, refl, refl, allowed))
        | inr failed ↦ rw failed (inl refl)
      ]

dispatch-AddsAllowed :
    (env : Env) (busy : Bool) (now : ℕ) (id : String) (command token : Text) (user : Option String)
    (w : World) (r : Result (LockResult × Store))
    → IsAllowed command
    → AddsAllowed id w.published (dispatch env busy now id command token user w r).0.published
unfolding AddsAllowed dispatch enqueue set_queue
dispatch-AddsAllowed env busy now id command token user w (raised e) allowed = inl refl
dispatch-AddsAllowed env busy now id command token user w (ok (rack_not_found, s)) allowed =
    inl refl
dispatch-AddsAllowed env busy now id command token user w (ok (already_locked, s)) allowed =
    inl refl
dispatch-AddsAllowed env true now id command token user w (ok (acquired, s)) allowed = inl refl
dispatch-AddsAllowed env false now id command token user w (ok (acquired, s)) allowed =
    publish_step-AddsAllowed env now id command token user (record w { store = s }) allowed

submit_token-AddsAllowed :
    (env : Env) (busy : Bool) (now : ℕ) (id : String) (command : Text) (user : Option String)
    (w : World) (t : Result Text)
    → IsAllowed command
    → AddsAllowed id w.published (submit_token env busy now id command user w t).0.published
unfolding submit_token
submit_token-AddsAllowed env busy now id command user w (raised e) allowed =
    unfold AddsAllowed in inl refl
submit_token-AddsAllowed env busy now id command user w (ok token) allowed =
    elim (Bool-cases (text_eq token (codes "!"))) [
      | inl stop ↦ rw stop (submit_emergency-AddsAllowed env id w)
      | inr other ↦ rw other (dispatch-AddsAllowed env busy now id command token user w _ allowed)
    ]

pub submit-AddsAllowed :
    (env : Env) (busy : Bool) (now : ℕ) (id : String) (command : Text) (user : Option String)
    (w : World)
    → IsAllowed command
    → AddsAllowed id w.published (submit env busy now id command user w).0.published
unfolding submit
submit-AddsAllowed env busy now id command user w allowed =
    submit_token-AddsAllowed env busy now id command user w _ allowed
