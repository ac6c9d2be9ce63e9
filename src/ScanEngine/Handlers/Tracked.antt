-- ===== src/ScanEngine/Handlers/Tracked.antt =====
-- The table of active sessions in server/services/scan_engine.py, over any history of calls.
use vivarium_connection.Common.{
  ℕ, zero, suc, String, str_eq, ◌≡◌, refl, sym, ◌∙◌, subst, Bool, true, false, ◌&&◌, ◌||◌,
  Bool-cases, Option-cases, inl, inr, Option, none, some, List, [], ◌∷◌, ◌++◌, ◌==◌, arith,
}
use vivarium_connection.Common.Dict
use vivarium_connection.Common.Dict.{Dict}
use vivarium_connection.Models.{Rack, ScanSession}
use vivarium_connection.Locking.{Store}
use vivarium_connection.Plant.{Plant, ScanStart, set_racks}
use vivarium_connection.ScanEngine.{
  ScanEnv, Engine, set_scan_state, fresh_session, change_session, update_session, set_active,
  publish_scan_start, begin_scan, next_id,
}

-- A session of the rack has the id.
unfoldable pub has_session : String → ℕ → List (ℕ × ScanSession) → Bool
has_session rack_id id [] = false
has_session rack_id id ((j, session) ∷ rest) =
    ((j == id) && str_eq session.rack_id rack_id) || has_session rack_id id rest

unfoldable pub is_tracked : List (ℕ × ScanSession) → String → Option ℕ → Bool
is_tracked sessions rack_id none = true
is_tracked sessions rack_id (some id) = has_session rack_id id sessions

-- Each active session is one of its rack, in the table `scan_sessions`.
unfoldable pub IsTracked : Dict ℕ → List (ℕ × ScanSession) → Type 0
IsTracked active sessions =
    (rack_id : String) → is_tracked sessions rack_id (Dict.lookup rack_id active) ≡ true

has_session-change_session :
    (rack_id : String) (id k : ℕ) (change : ScanSession → ScanSession)
    (sessions : List (ℕ × ScanSession))
    → ((s : ScanSession) → (change s).rack_id ≡ s.rack_id)
    → has_session rack_id id (change_session k change sessions) ≡ has_session rack_id id sessions
unfolding has_session change_session
has_session-change_session rack_id id k change [] keeps = refl
has_session-change_session rack_id id k change ((j, s) ∷ rest) keeps =
    let below = has_session-change_session rack_id id k change rest keeps in
    elim (Bool-cases (j == k)) [ inl e ↦ rw (e, keeps s, below) refl | inr e ↦ rw (e, below) refl ]

has_session-append :
    (rack_id : String) (id : ℕ) (xs ys : List (ℕ × ScanSession))
    → has_session rack_id id (xs ++ ys) ≡ (has_session rack_id id xs || has_session rack_id id ys)
unfolding has_session
has_session-append rack_id id [] ys = refl
has_session-append rack_id id ((j, s) ∷ xs) ys =
    let below = has_session-append rack_id id xs ys in rw below (ground arith)

pub IsTracked-update_session :
    (sid : Option ℕ) (change : ScanSession → ScanSession) (p : Plant) (active : Dict ℕ)
    → ((s : ScanSession) → (change s).rack_id ≡ s.rack_id)
    → IsTracked active p.sessions
    → IsTracked active (update_session sid change p).sessions
unfolding update_session IsTracked is_tracked
IsTracked-update_session none change p active keeps h rack_id = h rack_id
IsTracked-update_session (some zero) change p active keeps h rack_id = h rack_id
IsTracked-update_session (some (suc k)) change p active keeps h rack_id =
    elim (Option-cases (Dict.lookup rack_id active)) [
      | inl e ↦ rw (e, is_tracked) refl
      | inr (id, e) ↦
          rw (e, is_tracked)
            (has_session-change_session rack_id id (suc k) change p.sessions keeps
              ∙ (rw (e, is_tracked) at (h rack_id)))
    ]

-- fewer active sessions
pub IsTracked-remove :
    (rack_id : String) (active : Dict ℕ) (sessions : List (ℕ × ScanSession))
    → IsTracked active sessions
    → IsTracked (Dict.remove rack_id active) sessions
unfolding IsTracked
IsTracked-remove rack_id active sessions h k =
    rw (Dict.lookup-remove rack_id k active) (elim (Bool-cases (str_eq rack_id k)) [
      | inl e ↦ rw e (unfold is_tracked in refl)
      | inr e ↦ rw e (h k)
    ])

is_tracked-append :
    (rack_id : String) (o : Option ℕ) (xs ys : List (ℕ × ScanSession))
    → is_tracked xs rack_id o ≡ true
    → is_tracked (xs ++ ys) rack_id o ≡ true
unfolding is_tracked
is_tracked-append rack_id none xs ys h = refl
is_tracked-append rack_id (some id) xs ys h = has_session-append rack_id id xs ys ∙ rw h refl

has_session-fresh_session :
    (now : ℕ) (rack_id k : String) (rack : Rack) (id : ℕ)
    → str_eq rack_id k ≡ true
    → has_session k id ((id, fresh_session now rack_id rack) ∷ []) ≡ true
unfolding has_session fresh_session
has_session-fresh_session now rack_id k rack id e = rw e (ground arith)

-- one more session, which is active
IsTracked-insert :
    (now : ℕ) (rack_id : String) (rack : Rack) (id : ℕ) (active : Dict ℕ)
    (sessions : List (ℕ × ScanSession))
    → IsTracked active sessions
    → IsTracked
        (Dict.insert rack_id id active)
        (sessions ++ ((id, fresh_session now rack_id rack) ∷ []))
unfolding IsTracked
IsTracked-insert now rack_id rack id active sessions h k =
    rw (Dict.lookup-insert rack_id k id active) (elim (Bool-cases (str_eq rack_id k)) [
      | inl e ↦ rw e (
          unfold is_tracked in
          has_session-append k id sessions ((id, fresh_session now rack_id rack) ∷ [])
          ∙ rw (has_session-fresh_session now rack_id k rack id e) (ground arith))
      | inr e ↦ rw e (is_tracked-append k _ sessions _ (h k))
    ])

abbrev pub Tracks : Engine → Type 0
Tracks x = IsTracked x.active_sessions x.plant.sessions

set_scan_state-sessions :
    (now : ℕ) (id state : String) (p : Plant)
    → (set_scan_state now id state p).sessions ≡ p.sessions
unfolding set_scan_state set_racks
set_scan_state-sessions now id state p = elim (Option-cases (Dict.lookup id p.world.store.racks)) [
  | inl e ↦ rw (e, set_scan_state) refl
  | inr (rack, e) ↦ rw (e, set_scan_state) refl
]

pub set_scan_state-Tracks :
    (now : ℕ) (id state : String) (p : Plant) (active : Dict ℕ)
    → IsTracked active p.sessions
    → IsTracked active (set_scan_state now id state p).sessions
set_scan_state-Tracks now id state p active h =
    subst (IsTracked active) (sym (set_scan_state-sessions now id state p)) h

pub publish_scan_start-Tracks :
    (senv : ScanEnv) (m : ScanStart) (x : Engine) → Tracks x → Tracks (publish_scan_start senv m x)
unfolding publish_scan_start
publish_scan_start-Tracks senv m x h = elim (Bool-cases (senv.sends m)) [
  | inl e ↦ rw e h
  | inr e ↦ rw e h
]

pub begin_scan-Tracks :
    (senv : ScanEnv) (now : ℕ) (id : String) (rack : Rack) (schedule : Plant → Plant) (s : Store)
    (x : Engine)
    → ((p : Plant) → (schedule p).sessions ≡ p.sessions)
    → Tracks x
    → Tracks (begin_scan senv now id rack schedule s x)
unfolding begin_scan set_active
begin_scan-Tracks senv now id rack schedule s x keeps h = publish_scan_start-Tracks senv _ _ (
    set_scan_state-Tracks now id "running" _ _ (
      subst (IsTracked (Dict.insert id (next_id x.plant.sessions) x.active_sessions))
        (sym (keeps _))
        (IsTracked-insert now id rack (next_id x.plant.sessions) x.active_sessions x.plant.sessions
          h)))
