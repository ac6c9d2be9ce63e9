-- ===== src/ImagePath/Own.antt =====
-- Which paths server/services/s3_handler.py accepts for a rack.
use vivarium_connection.Common.{
  ◌≡◌, refl, sym, ap, subst, ◌∙◌, ◌↔◌, Bool, true, false, ◌&&◌, Bool-cases, Option-cases, inl, inr,
  Option, none, some, List, [], ◌∷◌, ◌++◌, arith,
}
use vivarium_connection.Common.Text.{Text, text_eq_iff}
use vivarium_connection.Serial.{has_prefix}
use vivarium_connection.Topics.{split}
use vivarium_connection.ImagePath.{
  date_pieces, consume, is_empty, is_rack, behind, dashed_stamp, is_root, Parts, add_part,
  last_three, parts_fit, fitting_rack, match_local, is_rack_of, validate_local_path,
}

-- The path has, behind a directory, the rack's id, a date, and a file named after the same rack with a
-- time, and resolves to a text that begins with the resolved image directory.
pub record IsOwn (resolve : Text → Text) (image_dir rack_id path : Text) : Type 0 where
  pub front : List Text
  pub date : Text
  pub stamp : Text
  pub parts : split path ≡ front ++ (rack_id ∷ date ∷ (rack_id ++ stamp) ∷ [])
  pub named : is_rack rack_id ≡ true
  pub dated : is_empty (consume date_pieces date) ≡ true
  pub stamped : dashed_stamp (some stamp) ≡ true
  pub rooted : is_root front ≡ true
  pub inside : has_prefix (resolve image_dir) (resolve path) ≡ true

behind-append : (p t : Text) → behind p (p ++ t) ≡ some t
unfolding behind
behind-append [] t = refl
behind-append (c ∷ cs) t = ground (arith, behind-append cs t)

behind-some : (p t r : Text) → behind p t ≡ some r → t ≡ p ++ r
unfolding behind
behind-some [] t r h = ground arith
behind-some (c ∷ cs) [] r h = ground arith
behind-some (c ∷ cs) (d ∷ ds) r h = ground (arith, behind-some cs ds r)

-- The last three parts are found behind any others.
last_three-more :
    (x a b c : Text) (xs : List Text)
    → last_three (x ∷ (xs ++ (a ∷ b ∷ c ∷ []))) ≡ add_part x (last_three (xs ++ (a ∷ b ∷ c ∷ [])))
unfolding last_three
last_three-more x a b c [] = refl
last_three-more x a b c (y ∷ []) = refl
last_three-more x a b c (y ∷ z ∷ []) = refl
last_three-more x a b c (y ∷ z ∷ w ∷ rest) = refl

last_three-append :
    (a b c : Text) (xs : List Text)
    → last_three (xs ++ (a ∷ b ∷ c ∷ []))
      ≡ some (record { front = xs; rack = a; date = b; file = c })
unfolding add_part
last_three-append a b c [] = unfold last_three in refl
last_three-append a b c (x ∷ xs) =
    last_three-more x a b c xs ∙ ap (add_part x) (last_three-append a b c xs)

add_part-some :
    (x : Text) (found : Option Parts) (p : Parts)
    → add_part x found ≡ some p
    → (q : Parts) × (found ≡ some q) × (p ≡ record q { front = x ∷ q.front })
unfolding add_part
add_part-some x none p h = ground arith
add_part-some x (some q) p h = (q, refl, ground arith)

list_of : Parts → List Text
list_of p = p.front ++ (p.rack ∷ p.date ∷ p.file ∷ [])

last_three-some : (l : List Text) (p : Parts) → last_three l ≡ some p → l ≡ list_of p
unfolding last_three list_of
last_three-some [] p h = ground arith
last_three-some (a ∷ []) p h = ground arith
last_three-some (a ∷ b ∷ []) p h = ground arith
last_three-some (a ∷ b ∷ c ∷ []) p h =
    ap list_of (some_inj (record { front = []; rack = a; date = b; file = c }) p h)
  where
    some_inj : (x y : Parts) → some x ≡ some y → x ≡ y
    some_inj x y e = ground arith
last_three-some (a ∷ b ∷ c ∷ d ∷ rest) p h =
    let (q, found, same) = add_part-some a (last_three (b ∷ c ∷ d ∷ rest)) p h in
    ap (λ l. a ∷ l) (last_three-some (b ∷ c ∷ d ∷ rest) q found) ∙ sym (ap list_of same)

both : (a b : Bool) → (a && b) ≡ true → (a ≡ true) × (b ≡ true)
both true true h = (refl, refl)
both true false h = ground arith
both false b h = ground arith

fitting-some :
    (rack_id : Text) (found : Option Parts)
    → is_rack_of rack_id (fitting_rack found) ≡ true
    → (p : Parts) × (found ≡ some p) × (parts_fit p ≡ true) × (p.rack ≡ rack_id)
unfolding fitting_rack is_rack_of
fitting-some rack_id none h = ground arith
fitting-some rack_id (some p) h = elim (Bool-cases (parts_fit p)) [
  | inr e ↦ let impossible : false ≡ true = (rw e at h) in ground arith
  | inl e ↦ (p, refl, e, (text_eq_iff p.rack rack_id).0 (rw e at h))
]

stamp_of :
    (rack file : Text)
    → dashed_stamp (behind rack file) ≡ true
    → (t : Text) × (file ≡ rack ++ t) × (dashed_stamp (some t) ≡ true)
stamp_of rack file h = elim (Option-cases (behind rack file)) [
  | inl e ↦
      let impossible : dashed_stamp none ≡ true = (rw e at h) in
      unfold dashed_stamp in ground (arith, impossible)
  | inr (t, e) ↦ (t, behind-some rack file t e, rw e at h)
]

Parts-IsOwn :
    (resolve : Text → Text) (image_dir path : Text) (p : Parts)
    → split path ≡ list_of p
    → parts_fit p ≡ true
    → has_prefix (resolve image_dir) (resolve path) ≡ true
    → IsOwn resolve image_dir p.rack path
unfolding parts_fit list_of
Parts-IsOwn resolve image_dir path p e fit inside =
    let (left, right) = both _ _ fit in
    let (named, dated) = both _ _ left in
    let (stamped, rooted) = both _ _ right in
    let (t, file, good) = stamp_of p.rack p.file stamped in
    record {
      front = p.front;
      date = p.date;
      stamp = t;
      parts = e ∙ ap (λ f. p.front ++ (p.rack ∷ p.date ∷ f ∷ [])) file;
      named = named;
      dated = dated;
      stamped = good;
      rooted = rooted;
      inside = inside;
    }

accepted-IsOwn :
    (resolve : Text → Text) (image_dir rack_id path : Text)
    → validate_local_path resolve image_dir rack_id path ≡ true
    → IsOwn resolve image_dir rack_id path
unfolding validate_local_path match_local
accepted-IsOwn resolve image_dir rack_id path h =
    let (matched, inside) = both _ _ h in
    let (p, found, fit, same) = fitting-some rack_id (last_three (split path)) matched in
    subst (λ r. IsOwn resolve image_dir r path) same
      (Parts-IsOwn resolve image_dir path p (last_three-some (split path) p found) fit inside)

IsOwn-matched :
    (resolve : Text → Text) (image_dir rack_id path : Text)
    → IsOwn resolve image_dir rack_id path
    → match_local path ≡ some rack_id
unfolding match_local fitting_rack parts_fit
IsOwn-matched resolve image_dir rack_id path o =
    ap (λ l. fitting_rack (last_three l)) o.parts
    ∙ ap fitting_rack (last_three-append rack_id o.date (rack_id ++ o.stamp) o.front)
    ∙ rw (behind-append rack_id o.stamp, o.named, o.dated, o.stamped, o.rooted) refl

-- A path is accepted for a rack exactly when it has, behind a directory without a newline, the rack's
-- own id, a date, and a file named after the same rack with a time and ".jpg", and resolves to a text
-- that begins with the resolved image directory.
pub validate_local_path-IsOwn :
    (resolve : Text → Text) (image_dir rack_id path : Text)
    → (validate_local_path resolve image_dir rack_id path ≡ true)
      ↔ IsOwn resolve image_dir rack_id path
unfolding validate_local_path is_rack_of
validate_local_path-IsOwn resolve image_dir rack_id path = (
  accepted-IsOwn resolve image_dir rack_id path,
  λ o.
      rw (IsOwn-matched resolve image_dir rack_id path o, is_rack_of)
        (rw (o.inside, (text_eq_iff rack_id rack_id).1 refl) refl),
)
