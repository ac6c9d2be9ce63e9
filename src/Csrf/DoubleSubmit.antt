-- ===== src/Csrf/DoubleSubmit.antt =====
-- What the double-submit check of server/middleware/csrf.py lets through.
use vivarium_connection.Common.{
  String, str_eq, eq_iff, eq_refl, ◌≡◌, refl, sym, ap, ◌∙◌, ◌↔◌, Bool, true, false, ◌||◌,
  Bool-cases, inl, inr, Option, none, some, arith,
}
use vivarium_connection.Common.Text.{one_of}
use vivarium_connection.Csrf.{
  Request, Reply, cookie_missing, header_required, token_mismatch, passed_through, called,
  csrf_methods, is_exempt, given, refusal, answer, check_tokens, is_websocket, dispatch,
  validate_csrf_header,
}

-- A request that changes state and whose tokens the middleware looks at.
pub record IsChecked (r : Request) : Type 0 where
  pub changes_state : one_of r.method csrf_methods ≡ true
  pub looked_at : is_websocket r || is_exempt r.path ≡ false

-- Both tokens are given, and they are one and the same.
pub SameTokens : Option String → Option String → Type 0
SameTokens cookie header =
    (token : String) × (cookie ≡ some token) × (header ≡ some token) × (str_eq token "" ≡ false)

given-some :
    (o : Option String) (token : String)
    → given o ≡ some token
    → (o ≡ some token) × (str_eq token "" ≡ false)
unfolding given
given-some none token e = ground arith
given-some (some t) token e = elim (Bool-cases (str_eq t "")) [
  | inl empty ↦
      let impossible : ◌≡◌ {A = Option String} none (some token) = (rw empty at e) in ground arith
  | inr full ↦
      let same : ◌≡◌ {A = Option String} (some t) (some token) = (rw full at e) in
      (
        same,
        ap {B = Bool} (λ (o : Option String). elim o [ none ↦ false | some u ↦ str_eq u "" ])
              (sym same)
            ∙ full,
      )
]

some-given : (token : String) → str_eq token "" ≡ false → given (some token) ≡ some token
unfolding given
some-given token full = rw full refl

refusal-none :
    (cookie header : Option String)
    → refusal cookie header ≡ none
    → (token : String) × (cookie ≡ some token) × (header ≡ some token)
unfolding refusal
refusal-none none header e = ground arith
refusal-none (some c) none e = ground arith
refusal-none (some c) (some h) e = elim (Bool-cases (str_eq c h)) [
  | inl same ↦ (c, refl, ap {B = Option String} (λ t. some t) (sym ((eq_iff c h).0 same)))
  | inr other ↦
      let impossible : ◌≡◌ {A = Option Reply} (some token_mismatch) none = (rw other at e) in
      ground arith
]

refusal-SameTokens :
    (cookie header : Option String)
    → (refusal (given cookie) (given header) ≡ none) ↔ SameTokens cookie header
unfolding SameTokens
refusal-SameTokens cookie header = (
  λ e.
      let (token, c, h) = refusal-none (given cookie) (given header) e in
      let (c', full) = given-some cookie token c in
      (token, c', (given-some header token h).0, full),
  λ same.
      let (token, c, h, full) = same in
      rw (c, h, some-given token full) (unfold refusal in rw (eq_refl token) refl),
)

-- the response of a request that reached its route
pub is_called : Reply → Bool
is_called cookie_missing = false
is_called header_required = false
is_called token_mismatch = false
is_called passed_through = true
is_called (called token) = true

is_called-refusal :
    (fresh : String) (o cookie header : Option String)
    → (is_called (answer fresh o (refusal cookie header)) ≡ true) ↔ (refusal cookie header ≡ none)
unfolding is_called answer refusal
is_called-refusal fresh o none header = (λ e. ground arith, λ e. ground arith)
is_called-refusal fresh o (some c) none = (λ e. ground arith, λ e. ground arith)
is_called-refusal fresh o (some c) (some h) = elim (Bool-cases (str_eq c h)) [
  | inl same ↦ rw same (λ e. refl, λ e. refl)
  | inr differs ↦ rw differs (λ e. ground arith, λ e. ground arith)
]

-- With the check enabled, a request that changes state, and is neither exempt nor a websocket's, reaches
-- its route exactly when its cookie and its header carry the same token, which is not empty.
pub dispatch-SameTokens :
    (fresh : String) (r : Request)
    → IsChecked r
    → (is_called (dispatch true fresh r) ≡ true) ↔ SameTokens r.cookie_token r.header_token
unfolding dispatch check_tokens
dispatch-SameTokens fresh r h =
    rw (h.looked_at, h.changes_state)
      (let (to, from) =
          is_called-refusal fresh (given r.cookie_token) (given r.cookie_token)
            (given r.header_token) in
        let (to', from') = refusal-SameTokens r.cookie_token r.header_token in
        (λ e. to' (to e), λ s. from (from' s)))

-- The check of a websocket message accepts exactly the tokens with which such a request reaches its
-- route.
pub dispatch-validate_csrf_header :
    (fresh : String) (r : Request)
    → IsChecked r
    → (is_called (dispatch true fresh r) ≡ true)
      ↔ (validate_csrf_header true r.cookie_token r.header_token ≡ none)
unfolding dispatch check_tokens validate_csrf_header
dispatch-validate_csrf_header fresh r h =
    rw (h.looked_at, h.changes_state)
      (is_called-refusal fresh (given r.cookie_token) (given r.cookie_token) (given r.header_token))
