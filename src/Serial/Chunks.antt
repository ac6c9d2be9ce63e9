-- ===== src/Serial/Chunks.antt =====
-- The reader of pi/services/serial_handler.py: how the bytes are cut into reads makes no difference.
use mathlib.Core.List.{append_assoc, append-nil}
use vivarium_connection.Common.{
  ℕ, ◌≡◌, refl, sym, ap, ◌∙◌, subst, false, List, [], ◌∷◌, ◌++◌, ◌==◌, Bool-cases, inl, inr,
}
use vivarium_connection.Common.Text.{Text}
use vivarium_connection.Serial.{
  Port, split_lines, add_front, route_response, route_stripped, route_lines, strip, feed,
  read_chunk, read_all,
}

-- all the bytes of some reads
pub concat : List Text → Text
concat [] = []
concat (chunk ∷ chunks) = chunk ++ concat chunks

-- No complete line is left in the buffer.
abbrev pub IsOpen : Port → Type 0
IsOpen p = split_lines p.buffer ≡ ([], p.buffer)

-- what more bytes make of the lines found so far
unfoldable more : List Text → List Text × Text → List Text × Text
more ls (lines, rest) = (ls ++ lines, rest)

add_front-more :
    (c : ℕ) (ls : List Text) (rest t : Text)
    → (c == 10) ≡ false
    → (let (l, r) = add_front c (ls, rest) in more l (split_lines (r ++ t)))
      ≡ add_front c (more ls (split_lines (rest ++ t)))
unfolding more add_front split_lines
add_front-more c [] rest t e = rw e refl
add_front-more c (l ∷ ls) rest t e = refl

split_lines-append :
    (s t : Text)
    → split_lines (s ++ t) ≡ (let (ls, rest) = split_lines s in more ls (split_lines (rest ++ t)))
unfolding split_lines more
split_lines-append [] t = refl
split_lines-append (c ∷ s) t = elim (Bool-cases (c == 10)) [
  | inl e ↦ rw (e, split_lines-append s t) refl
  | inr e ↦
      let (ls, rest) = split_lines s in
      rw e (ap (add_front c) (split_lines-append s t) ∙ sym (add_front-more c ls rest t e))
]

route_lines-append :
    (xs ys : List Text) (p : Port) → route_lines (xs ++ ys) p ≡ route_lines ys (route_lines xs p)
unfolding route_lines
route_lines-append [] ys p = refl
route_lines-append (x ∷ xs) ys p = route_lines-append xs ys (route_stripped (strip x) p)

-- Routing leaves the buffer alone.
route_stripped-buffer :
    (line b : Text) (p : Port)
    → record (route_stripped line p) { buffer = b } ≡ route_stripped line (record p { buffer = b })
unfolding route_stripped route_response
route_stripped-buffer [] b p = refl
route_stripped-buffer (c ∷ cs) b p = elim (Bool-cases p.waiting) [
  | inl w ↦ rw w refl
  | inr w ↦ rw w refl
]

route_lines-buffer :
    (lines : List Text) (b : Text) (p : Port)
    → record (route_lines lines p) { buffer = b } ≡ route_lines lines (record p { buffer = b })
unfolding route_lines
route_lines-buffer [] b p = refl
route_lines-buffer (x ∷ xs) b p =
    route_lines-buffer xs b (route_stripped (strip x) p)
    ∙ ap (route_lines xs) (route_stripped-buffer (strip x) b p)

buffer-route_lines : (lines : List Text) (p : Port) → (route_lines lines p).buffer ≡ p.buffer
buffer-route_lines lines p =
    sym (ap {B = Text} (λ (q : Port). q.buffer) (route_lines-buffer lines p.buffer p))

split_lines-rest : (s : Text) → split_lines (split_lines s).1 ≡ ([], (split_lines s).1)
unfolding split_lines add_front
split_lines-rest [] = refl
split_lines-rest (c ∷ s) = elim (Bool-cases (c == 10)) [
  | inl e ↦ rw e (split_lines-rest s)
  | inr e ↦ rw e (front (split_lines s).0 (split_lines s).1 e (split_lines-rest s))
]
  where
    front :
        (ls : List Text) (rest : Text)
        → (c == 10) ≡ false
        → split_lines rest ≡ ([], rest)
        → split_lines (add_front c (ls, rest)).1 ≡ ([], (add_front c (ls, rest)).1)
    front [] rest e h = rw e (rw h refl)
    front (l ∷ ls) rest e h = h

feed-IsOpen : (chunk : Text) (p : Port) → IsOpen (feed chunk p)
unfolding feed IsOpen
feed-IsOpen chunk p =
    let (lines, rest) = split_lines (p.buffer ++ chunk) in
    subst (λ b. split_lines b ≡ ([], b))
      (sym (buffer-route_lines lines (record p { buffer = rest })))
      (split_lines-rest (p.buffer ++ chunk))

-- the lines routed and the rest buffered
route_split : List Text × Text → Port → Port
route_split (lines, rest) p = route_lines lines (record p { buffer = rest })

route_split-more :
    (ls : List Text) (rest : Text) (p : Port) (more_lines : List Text × Text)
    → route_split more_lines (route_lines ls (record p { buffer = rest }))
      ≡ route_split (more ls more_lines) p
unfolding route_split more
route_split-more ls rest p (lines, b) =
    ap (route_lines lines) (route_lines-buffer ls b (record p { buffer = rest }))
    ∙ sym (route_lines-append ls lines (record p { buffer = b }))

feed-append : (a b : Text) (p : Port) → feed b (feed a p) ≡ feed (a ++ b) p
unfolding feed route_split
feed-append a b p =
    let (ls, rest) = split_lines (p.buffer ++ a) in
    let q = route_lines ls (record p { buffer = rest }) in
    ap (λ (t : Text). route_split (split_lines (t ++ b)) q)
      (buffer-route_lines ls (record p { buffer = rest }))
    ∙ route_split-more ls rest p (split_lines (rest ++ b))
    ∙ ap (λ (x : List Text × Text). route_split x p)
        (sym (split_lines-append (p.buffer ++ a) b) ∙ ap split_lines (append_assoc p.buffer a b))

feed-nothing : (p : Port) → IsOpen p → feed [] p ≡ p
unfolding feed IsOpen route_split route_lines
feed-nothing p open_ =
    ap (λ (x : List Text × Text). route_split x p) (ap split_lines (append-nil p.buffer) ∙ open_)

read_chunk-feed : (chunk : Text) (p : Port) → IsOpen p → read_chunk chunk p ≡ feed chunk p
unfolding read_chunk
read_chunk-feed [] p open_ = sym (feed-nothing p open_)
read_chunk-feed (c ∷ cs) p open_ = refl

-- However the bytes are cut into reads, empty ones included, and whether or not a command waits: the
-- reader routes the same lines in the same order and keeps the same buffer as for one read of them
-- all, if no complete line was left in the buffer before.
pub read_all-concat :
    (chunks : List Text) (p : Port) → IsOpen p → read_all chunks p ≡ read_chunk (concat chunks) p
unfolding read_all concat
read_all-concat [] p open_ = unfold read_chunk in refl
read_all-concat (chunk ∷ chunks) p open_ =
    let here = read_chunk-feed chunk p open_ in
    let next = feed-IsOpen chunk p in
    ap (read_all chunks) here
    ∙ read_all-concat chunks (feed chunk p) next
    ∙ read_chunk-feed (concat chunks) (feed chunk p) next
    ∙ feed-append chunk (concat chunks) p
    ∙ sym (read_chunk-feed (chunk ++ concat chunks) p open_)
