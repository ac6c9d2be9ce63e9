-- ===== src/DeviceId/Decimal.antt =====
-- The names rack-001 to rack-999 of server/services/provisioning.py: printing, parsing and order.
use vivarium_connection.Common.{
  ℕ, zero, suc, ◌+◌, ◌*◌, ◌%◌, ◌/◌, ◌<◌, ◌≤◌, ◌≡◌, refl, sym, ap, ◌∙◌, true, false, Bool-cases, inl,
  inr, some, [], ◌∷◌, ◌++◌, ltb, lt→ltb, arith,
}
use vivarium_connection.Common.Text.{Text, codes}
use vivarium_connection.DeviceId.{
  print_digits, decimal, padded, device_name, text_lt, dash_here, behind_dash, all_digits,
  is_digits, to_int, number_behind, next_num,
}

print_digits-one : (fuel n : ℕ) → ltb n 10 ≡ true → print_digits (suc fuel) n ≡ (b'0' + n) ∷ []
unfolding print_digits
print_digits-one fuel n e = rw (e, print_digits) refl

print_digits-more :
    (fuel n : ℕ)
    → ltb n 10 ≡ false
    → print_digits (suc fuel) n ≡ print_digits fuel (n / 10) ++ ((b'0' + n % 10) ∷ [])
unfolding print_digits
print_digits-more fuel n e = rw (e, print_digits) refl

positive : (n : ℕ) → 0 < n → (m : ℕ) × (n ≡ suc m)
positive zero h = ground arith
positive (suc m) h = (m, refl)

-- the three digits of a number below 1000
abbrev pub three : ℕ → Text
three n = (b'0' + n / 100) ∷ (b'0' + n / 10 % 10) ∷ (b'0' + n % 10) ∷ []

three_lem :
    (n a b c : ℕ)
    → n / 100 ≡ a
    → n / 10 % 10 ≡ b
    → n % 10 ≡ c
    → three n ≡ (b'0' + a) ∷ (b'0' + b) ∷ (b'0' + c) ∷ []
three_lem n a b c ea eb ec = rw (ea, eb, ec) refl

one_digit : (n : ℕ) → n < 10 → padded (decimal n) ≡ three n
unfolding padded decimal
one_digit n h =
    rw (print_digits-one n n (lt→ltb n 10 h))
      (sym (three_lem n 0 0 n (omega arith) (omega arith) (omega arith)))

two_digits : (n : ℕ) → 10 ≤ n → n < 100 → padded (decimal n) ≡ three n
unfolding padded decimal
two_digits n low high =
    let (m, e) = positive n (omega arith) in
    ap padded (
      print_digits-more n n (ground arith)
      ∙ ap (λ f. print_digits f (n / 10) ++ ((b'0' + n % 10) ∷ [])) e
      ∙ ap (λ t. t ++ ((b'0' + n % 10) ∷ []))
          (print_digits-one m (n / 10) (lt→ltb (n / 10) 10 (omega arith))))
    ∙ sym (three_lem n 0 (n / 10) (n % 10) (omega arith) (omega arith) refl)

three_digits : (n : ℕ) → 100 ≤ n → n < 1000 → padded (decimal n) ≡ three n
unfolding padded decimal
three_digits n low high =
    let (m, e) = positive n (omega arith) in
    let (k, e') = positive m (omega (arith, e)) in
    ap padded (
      print_digits-more n n (ground arith)
      ∙ ap (λ f. print_digits f (n / 10) ++ ((b'0' + n % 10) ∷ [])) (e ∙ ap (λ j. suc j) e')
      ∙ ap (λ t. t ++ ((b'0' + n % 10) ∷ []))
          (print_digits-more (suc k) (n / 10) (ground arith)
            ∙ ap (λ t. t ++ ((b'0' + n / 10 % 10) ∷ []))
                (print_digits-one k (n / 10 / 10) (lt→ltb (n / 10 / 10) 10 (omega arith)))))
    ∙ sym (three_lem n (n / 10 / 10) (n / 10 % 10) (n % 10) (omega arith) refl refl)

pub device_name-three : (n : ℕ) → n < 1000 → device_name n ≡ codes "rack-" ++ three n
unfolding device_name
device_name-three n h =
    ap (λ t. codes "rack-" ++ t)
      (elim (Bool-cases (ltb n 10)) [
        | inl e ↦ one_digit n (ground arith)
        | inr e ↦ elim (Bool-cases (ltb n 100)) [
          | inl e' ↦ two_digits n (ground arith) (ground arith)
          | inr e' ↦ three_digits n (ground arith) h
        ]
      ])

digits_lt :
    (a b c a' b' c' : ℕ)
    → a * 100 + b * 10 + c < a' * 100 + b' * 10 + c'
    → b < 10
    → c < 10
    → b' < 10
    → c' < 10
    → text_lt
        ((b'0' + a) ∷ (b'0' + b) ∷ (b'0' + c) ∷ [])
        ((b'0' + a') ∷ (b'0' + b') ∷ (b'0' + c') ∷ [])
      ≡ true
unfolding text_lt
digits_lt a b c a' b' c' h hb hc hb' hc' = ground arith

-- Below 1000 the order of the names is the order of the numbers.
pub device_name-lt : (m n : ℕ) → m < n → n < 1000 → text_lt (device_name m) (device_name n) ≡ true
unfolding text_lt
device_name-lt m n h bound =
    rw (device_name-three m (omega arith), device_name-three n bound)
      (digits_lt (m / 100) (m / 10 % 10) (m % 10) (n / 100) (n / 10 % 10) (n % 10) (omega arith)
        (omega arith) (omega arith) (omega arith) (omega arith))

pub text_lt_irrefl : (t : Text) → text_lt t t ≡ false
unfolding text_lt
text_lt_irrefl [] = refl
text_lt_irrefl (c ∷ cs) = ground (arith, text_lt_irrefl cs)

parsed_digits :
    (a b c : ℕ)
    → a < 10
    → b < 10
    → c < 10
    → number_behind (some ((b'0' + a) ∷ (b'0' + b) ∷ (b'0' + c) ∷ [])) ≡ a * 100 + b * 10 + c + 1
unfolding number_behind is_digits all_digits to_int
parsed_digits a b c ha hb hc = ground arith

behind-three :
    (a b c : ℕ)
    → behind_dash (codes "rack-" ++ ((b'0' + a) ∷ (b'0' + b) ∷ (b'0' + c) ∷ []))
      ≡ some ((b'0' + a) ∷ (b'0' + b) ∷ (b'0' + c) ∷ [])
unfolding behind_dash dash_here
behind-three a b c = ground arith

-- The number behind the last name, and one.
pub next_num-device_name : (n : ℕ) → n < 1000 → next_num (some (device_name n)) ≡ suc n
unfolding next_num
next_num-device_name n h =
    rw (device_name-three n h, behind-three (n / 100) (n / 10 % 10) (n % 10))
      (parsed_digits (n / 100) (n / 10 % 10) (n % 10) (omega arith) (omega arith) (omega arith)
        ∙ omega arith)
