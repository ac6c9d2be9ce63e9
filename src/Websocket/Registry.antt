-- ===== src/Websocket/Registry.antt =====
-- The loop of `broadcast_to_rack` in server/api/websocket.py, against filters of the registered
-- connections.
use vivarium_connection.Common.{
  ℕ, ◌≡◌, refl, sym, ap, ◌∙◌, String, Bool, true, false, not, ◌&&◌, ◌==◌, Bool-cases, inl, inr,
  Option, List, [], ◌∷◌, ◌++◌, map, if◌then◌else◌, arith,
}
use vivarium_connection.Websocket.{
  WsMessage, Hub, remove_first, remove_each, receives, Delivery, send_one, send_each,
  broadcast_to_rack,
}

-- the elements that pass a test
abbrev pub keep {ℓ} : {A : Type ℓ} → (A → Bool) → List A → List A
keep test [] = []
keep test (x ∷ xs) = if test x then x ∷ keep test xs else keep test xs

abbrev pub is_in : ℕ → List ℕ → Bool
is_in i [] = false
is_in i (j ∷ js) = if j == i then true else is_in i js

-- Each connection is registered once, as `websocket_endpoint` does.
abbrev pub Distinct : List ℕ → Type 0
Distinct [] = Unit
Distinct (i ∷ is) = (is_in i is ≡ false) × Distinct is

pub append_nil {ℓ} : {A : Type ℓ} (xs : List A) → xs ++ [] ≡ xs
append_nil [] = refl
append_nil (x ∷ xs) = ap (λ ys. x ∷ ys) (append_nil xs)

append_assoc {ℓ} : {A : Type ℓ} (xs ys zs : List A) → (xs ++ ys) ++ zs ≡ xs ++ (ys ++ zs)
append_assoc [] ys zs = refl
append_assoc (x ∷ xs) ys zs = ap (λ ws. x ∷ ws) (append_assoc xs ys zs)

-- the messages that a broadcast sends
abbrev pub addressed : WsMessage → List ℕ → List (ℕ × WsMessage)
addressed m is = map (λ i. (i, m)) is

module _ (alive takes : ℕ → Bool) (m : WsMessage) where
  abbrev reached : ℕ → Bool
  reached i = takes i && alive i

  abbrev lost : ℕ → Bool
  lost i = takes i && not (alive i)

  send_one-skipped : (i : ℕ) (d : Delivery) → takes i ≡ false → send_one alive takes m i d ≡ d
  unfolding send_one
  send_one-skipped i d e = rw e refl

  send_one-up :
      (i : ℕ) (d : Delivery)
      → takes i ≡ true
      → alive i ≡ true
      → send_one alive takes m i d ≡ record d { sent = d.sent ++ ((i, m) ∷ []) }
  unfolding send_one
  send_one-up i d taken up = rw (taken, up) refl

  send_one-down :
      (i : ℕ) (d : Delivery)
      → takes i ≡ true
      → alive i ≡ false
      → send_one alive takes m i d ≡ record d { dead = d.dead ++ (i ∷ []) }
  unfolding send_one
  send_one-down i d taken down = rw (taken, down) refl

  pub send_each-sent :
      (is : List ℕ) (d : Delivery)
      → (send_each alive takes m is d).sent ≡ d.sent ++ addressed m (keep reached is)
  unfolding send_each
  send_each-sent [] d = sym (append_nil d.sent)
  send_each-sent (i ∷ is) d = elim (Bool-cases (takes i)) [
    | inr skipped ↦ rw (send_one-skipped i d skipped, skipped, send_each) (send_each-sent is d)
    | inl taken ↦ elim (Bool-cases (alive i)) [
      | inl up ↦
          rw (send_one-up i d taken up, taken, up, send_each)
            (send_each-sent is (record d { sent = d.sent ++ ((i, m) ∷ []) })
              ∙ append_assoc d.sent ((i, m) ∷ []) (addressed m (keep reached is)))
      | inr down ↦
          rw (send_one-down i d taken down, taken, down, send_each)
            (send_each-sent is (record d { dead = d.dead ++ (i ∷ []) }))
    ]
  ]

  pub send_each-dead :
      (is : List ℕ) (d : Delivery) → (send_each alive takes m is d).dead ≡ d.dead ++ keep lost is
  unfolding send_each
  send_each-dead [] d = sym (append_nil d.dead)
  send_each-dead (i ∷ is) d = elim (Bool-cases (takes i)) [
    | inr skipped ↦ rw (send_one-skipped i d skipped, skipped, send_each) (send_each-dead is d)
    | inl taken ↦ elim (Bool-cases (alive i)) [
      | inl up ↦
          rw (send_one-up i d taken up, taken, up, send_each)
            (send_each-dead is (record d { sent = d.sent ++ ((i, m) ∷ []) }))
      | inr down ↦
          rw (send_one-down i d taken down, taken, down, send_each)
            (send_each-dead is (record d { dead = d.dead ++ (i ∷ []) })
              ∙ append_assoc d.dead (i ∷ []) (keep lost is))
    ]
  ]

is_in-keep :
    (test : ℕ → Bool) (i : ℕ) (is : List ℕ) → is_in i is ≡ false → is_in i (keep test is) ≡ false
is_in-keep test i [] h = refl
is_in-keep test i (j ∷ js) h = ground (arith, is_in-keep test i js)

-- A connection that is not removed stays at the head.
remove_each-head :
    (i : ℕ) (dead live : List ℕ)
    → is_in i dead ≡ false
    → remove_each dead (i ∷ live) ≡ i ∷ remove_each dead live
unfolding remove_each remove_first
remove_each-head i [] live h = refl
remove_each-head i (j ∷ js) live h = elim (Bool-cases (i == j)) [
  | inl same ↦ ground arith
  | inr other ↦
      rw (other, remove_first) (remove_each-head i js (remove_first j live) (ground arith))
]

-- Removing the elements that pass a test, one after the other, leaves those that fail it.
remove_each-keep :
    (test : ℕ → Bool) (live : List ℕ)
    → Distinct live
    → remove_each (keep test live) live ≡ keep (λ i. not (test i)) live
unfolding remove_each remove_first
remove_each-keep test [] d = refl
remove_each-keep test (i ∷ is) d = elim (Bool-cases (test i)) [
  | inl e ↦
      rw (e, remove_each)
        (ap (remove_each (keep test is)) (first_lem i is) ∙ remove_each-keep test is d.1)
  | inr e ↦
      rw (e, remove_each)
        (remove_each-head i (keep test is) is (is_in-keep test i is d.0)
          ∙ ap (λ js. i ∷ js) (remove_each-keep test is d.1))
]
  where
    first_lem : (i : ℕ) (is : List ℕ) → remove_first i (i ∷ is) ≡ is
    first_lem i is = ground arith

-- A broadcast sends its message once to every registered connection that takes it and whose socket
-- works, in the order of the registry, and takes out of the registry exactly the connections that take
-- it and whose socket fails.
pub broadcast_to_rack_lem :
    (alive : ℕ → Bool) (rack_id : String) (m : WsMessage) (holder : Option String)
    (holder_only : Bool) (h : Hub)
    → Distinct h.connections
    → let takes : ℕ → Bool = λ i. receives rack_id holder holder_only (h.conn i) in
      let h' = broadcast_to_rack alive rack_id m holder holder_only h in
      (h'.sent ≡ h.sent ++ addressed m (keep (λ i. takes i && alive i) h.connections))
      × (h'.connections ≡ keep (λ i. not (takes i && not (alive i))) h.connections)
unfolding broadcast_to_rack
broadcast_to_rack_lem alive rack_id m holder holder_only h d =
    let takes : ℕ → Bool = λ i. receives rack_id holder holder_only (h.conn i) in
    let start : Delivery = record { sent = h.sent; dead = [] } in
    (
      send_each-sent alive takes m h.connections start,
      ap (λ dead. remove_each dead h.connections) (send_each-dead alive takes m h.connections start)
          ∙ remove_each-keep (λ i. takes i && not (alive i)) h.connections d,
    )
