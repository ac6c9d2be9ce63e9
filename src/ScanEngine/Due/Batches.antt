-- ===== src/ScanEngine/Due/Batches.antt =====
-- The groups of due racks in server/services/scan_engine.py, and the timers made of them.
use vivarium_connection.Common.{
  ℕ, zero, suc, ◌+◌, ◌*◌, ◌≤◌, ◌<◌, String, ◌≡◌, refl, ap, ◌∙◌, false, Bool-cases, inl, inr, List,
  [], ◌∷◌, ◌++◌, ◌==◌, length, All, arith, if◌then◌else◌,
}
use vivarium_connection.Common.Clock.{seconds}
use vivarium_connection.ScanEngine.Due.{take, drop, batches, timers_of}

-- the racks of the timers
pub names : List (ℕ × String) → List String
names [] = []
names ((at, id) ∷ rest) = id ∷ names rest

-- how many timers fire at a time
pub count : ℕ → List (ℕ × String) → ℕ
count t [] = 0
count t ((at, id) ∷ rest) = if at == t then suc (count t rest) else count t rest

pub concat : List (List String) → List String
concat [] = []
concat (b ∷ bs) = b ++ concat bs

pub names-append : (xs ys : List (ℕ × String)) → names (xs ++ ys) ≡ names xs ++ names ys
unfolding names
names-append [] ys = refl
names-append ((at, id) ∷ xs) ys = ap (λ l. id ∷ l) (names-append xs ys)

names-timers_of : (at : ℕ) (ids : List String) → names (timers_of at ids) ≡ ids
unfolding names timers_of
names-timers_of at [] = refl
names-timers_of at (id ∷ ids) = ap (λ l. id ∷ l) (names-timers_of at ids)

pub count-append :
    (t : ℕ) (xs ys : List (ℕ × String)) → count t (xs ++ ys) ≡ count t xs + count t ys
unfolding count
count-append t [] ys = ground arith
count-append t ((at, id) ∷ xs) ys = let rest = count-append t xs ys in ground arith

count-timers_of : (t at : ℕ) (ids : List String) → count t (timers_of at ids) ≤ length ids
unfolding count timers_of
count-timers_of t at [] = ground arith
count-timers_of t at (id ∷ ids) = let rest = count-timers_of t at ids in ground arith

count-other : (t at : ℕ) (ids : List String) → (at == t) ≡ false → count t (timers_of at ids) ≡ 0
unfolding count timers_of
count-other t at [] h = refl
count-other t at (id ∷ ids) h = let rest = count-other t at ids h in ground arith

pub take-drop : (n : ℕ) (ids : List String) → take n ids ++ drop n ids ≡ ids
unfolding take drop
take-drop zero ids = refl
take-drop (suc n) [] = refl
take-drop (suc n) (id ∷ ids) = ap (λ l. id ∷ l) (take-drop n ids)

length-take : (n : ℕ) (ids : List String) → length (take n ids) ≤ n
unfolding take
length-take zero ids = ground arith
length-take (suc n) [] = ground arith
length-take (suc n) (id ∷ ids) = let rest = length-take n ids in ground arith

length-drop : (n : ℕ) (ids : List String) → length (drop n ids) ≤ length ids
unfolding drop
length-drop zero ids = ground arith
length-drop (suc n) [] = ground arith
length-drop (suc n) (id ∷ ids) = let rest = length-drop n ids in ground arith

concat-batches :
    (fuel size : ℕ) (ids : List String)
    → length ids ≤ fuel
    → concat (batches fuel (suc size) ids) ≡ ids
unfolding concat batches take drop
concat-batches fuel size [] h = refl
concat-batches zero size (id ∷ ids) h = ground arith
concat-batches (suc fuel) size (id ∷ ids) h =
    let shorter = length-drop size ids in
    ap (λ l. take (suc size) (id ∷ ids) ++ l)
      (concat-batches fuel size (drop size ids) (ground arith))
    ∙ take-drop (suc size) (id ∷ ids)

batches-bounded :
    (fuel size : ℕ) (ids : List String) → All (λ b. length b ≤ size) (batches fuel size ids)
unfolding batches
batches-bounded fuel size [] = tt
batches-bounded zero size (id ∷ ids) = tt
batches-bounded (suc fuel) size (id ∷ ids) =
    (length-take size (id ∷ ids), batches-bounded fuel size (drop size (id ∷ ids)))

-- when a batch is started
abbrev pub start_of : ℕ → ℕ → ℕ → ℕ
start_of now delay idx = now + seconds (idx * delay * 60)

unfoldable pub timers_from : ℕ → ℕ → ℕ → List (List String) → List (ℕ × String)
timers_from now delay idx [] = []
timers_from now delay idx (b ∷ bs) =
    timers_of (start_of now delay idx) b ++ timers_from now delay (suc idx) bs

start_of-later :
    (now delay idx : ℕ) → 0 < delay → start_of now delay idx < start_of now delay (suc idx)
start_of-later now delay idx h = ground arith

pub names-timers_from :
    (now delay idx : ℕ) (bs : List (List String)) → names (timers_from now delay idx bs) ≡ concat bs
unfolding timers_from concat names
names-timers_from now delay idx [] = refl
names-timers_from now delay idx (b ∷ bs) =
    names-append (timers_of (start_of now delay idx) b) (timers_from now delay (suc idx) bs)
    ∙ ap (λ l. l ++ names (timers_from now delay (suc idx) bs))
        (names-timers_of (start_of now delay idx) b)
    ∙ ap (λ l. b ++ l) (names-timers_from now delay (suc idx) bs)

count-timers_from_later :
    (t now delay idx : ℕ) (bs : List (List String))
    → 0 < delay
    → t < start_of now delay idx
    → count t (timers_from now delay idx bs) ≡ 0
unfolding timers_from count
count-timers_from_later t now delay idx [] h early = refl
count-timers_from_later t now delay idx (b ∷ bs) h early =
    let later = start_of-later now delay idx h in
    let here = count-other t (start_of now delay idx) b (ground arith) in
    let rest = count-timers_from_later t now delay (suc idx) bs h (omega arith) in
    let sum =
      count-append t (timers_of (start_of now delay idx) b) (timers_from now delay (suc idx) bs) in
    omega arith

pub count-timers_from :
    (t now delay idx size : ℕ) (bs : List (List String))
    → 0 < delay
    → All (λ b. length b ≤ size) bs
    → count t (timers_from now delay idx bs) ≤ size
unfolding timers_from count
count-timers_from t now delay idx size [] h small = ground arith
count-timers_from t now delay idx size (b ∷ bs) h (fits, small) =
    let sum =
      count-append t (timers_of (start_of now delay idx) b) (timers_from now delay (suc idx) bs) in
    let later = start_of-later now delay idx h in
    elim (Bool-cases (start_of now delay idx == t)) [
      | inl same ↦
          let rest = count-timers_from_later t now delay (suc idx) bs h (ground arith) in
          let here = count-timers_of t (start_of now delay idx) b in omega arith
      | inr other ↦
          let rest = count-timers_from t now delay (suc idx) size bs h small in
          let here = count-other t (start_of now delay idx) b other in omega arith
    ]

-- the batches behind the first
unfoldable pub later_batches : ℕ → List String → List (List String)
later_batches size [] = []
later_batches size (id ∷ ids) = batches (length ids) (suc size) (drop size ids)

pub concat-later_batches :
    (size : ℕ) (ids : List String) → concat (later_batches size ids) ≡ drop (suc size) ids
unfolding later_batches drop
concat-later_batches size [] = unfold concat in refl
concat-later_batches size (id ∷ ids) =
    concat-batches (length ids) size (drop size ids) (length-drop size ids)

pub later_batches-bounded :
    (size : ℕ) (ids : List String) → All (λ b. length b ≤ suc size) (later_batches size ids)
unfolding later_batches
later_batches-bounded size [] = tt
later_batches-bounded size (id ∷ ids) = batches-bounded (length ids) (suc size) (drop size ids)
