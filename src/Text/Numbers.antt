-- ===== src/Text/Numbers.antt =====
-- Numbers printed by Python are read again.
use py_qgis_server.Prelude.{
  ℕ, zero, suc, ◌+◌, ◌-◌, ◌*◌, ◌/◌, ◌%◌, ◌≤◌, ◌<◌, ltb, true, false, some, [], ◌∷◌, ◌++◌, ◌≡◌, ◌≢◌,
  refl, ap, ◌∙◌, inl, inr, Bool-cases, All, All-append, nat_eq, ◌==◌, ==_iff, arith,
}
use py_qgis_server.Text.{
  Text, cons_kept, decimal, digits_of, int, is_digit, is_space, pos, read_digits, read_number,
  strip_left, strip_right,
}

abbrev pub Digit : ℕ → Type 0
Digit c = (48 ≤ c) × (c ≤ 57)

-- The number that digits stand for, after those that stand for `n`.
abbrev pub value_from : ℕ → Text → ℕ
value_from n [] = n
value_from n (c ∷ s) = value_from (10 * n + (c - 48)) s

pub value_from-append : (n : ℕ) (s t : Text) → value_from n (s ++ t) ≡ value_from (value_from n s) t
value_from-append n [] t = refl
value_from-append n (c ∷ s) t = value_from-append (10 * n + (c - 48)) s t

is_digit_lem : (c : ℕ) → Digit c → is_digit c ≡ true
unfolding is_digit
is_digit_lem c h = ground arith

is_space_lem : (c : ℕ) → Digit c → is_space c ≡ false
unfolding is_space
is_space_lem c h = ground arith

pub read_digits-value :
    (n : ℕ) (s : Text) → All Digit s → read_digits true n s ≡ some (value_from n s)
unfolding read_digits
read_digits-value n [] h = refl
read_digits-value n (c ∷ s) h =
    rw (is_digit_lem c h.0) (read_digits-value (10 * n + (c - 48)) s h.1)

keep_cons : (c : ℕ) (s : Text) → Digit c → cons_kept is_space c s ≡ c ∷ s
keep_cons c [] h = rw (is_space_lem c h) refl
keep_cons c (d ∷ s) h = refl

strip_right-digits : (s : Text) → All Digit s → strip_right is_space s ≡ s
unfolding strip_right
strip_right-digits [] h = refl
strip_right-digits (c ∷ s) h = rw (strip_right-digits s h.1) (keep_cons c s h.0)

-- `int` reads digits as the number that they stand for.
pub int-digits :
    (c : ℕ) (s : Text) → All Digit (c ∷ s) → int (c ∷ s) ≡ some (pos (value_from 0 (c ∷ s)))
unfolding int read_number strip_left read_digits
int-digits c s h =
    let plus : (c == 43) ≡ false = ground (arith, ==_iff c 43) in
    let minus : (c == 45) ≡ false = ground (arith, ==_iff c 45) in
    rw
      (
        is_space_lem c h.0,
        strip_right-digits (c ∷ s) h,
        plus,
        minus,
        is_digit_lem c h.0,
        read_digits-value (10 * 0 + (c - 48)) s h.1,
      )
      refl

digits_of-Digit : (fuel n : ℕ) → n ≤ fuel → All Digit (digits_of fuel n)
unfolding digits_of
digits_of-Digit zero n h = ((omega arith, omega arith), tt)
digits_of-Digit (suc fuel) n h = elim (Bool-cases (ltb n 10)) [
  | inl small ↦ rw small ((omega arith, ground arith), tt)
  | inr large ↦ rw large (
      All-append Digit (digits_of fuel (n / 10)) ((48 + n % 10) ∷ [])
        (digits_of-Digit fuel (n / 10) (ground arith)) ((omega arith, omega arith), tt))
]

digits_of-value : (fuel n : ℕ) → n ≤ fuel → value_from 0 (digits_of fuel n) ≡ n
unfolding digits_of
digits_of-value zero n h = omega arith
digits_of-value (suc fuel) n h = elim (Bool-cases (ltb n 10)) [
  | inl small ↦ rw small (omega arith)
  | inr large ↦ rw large (
      rw (value_from-append 0 (digits_of fuel (n / 10)) ((48 + n % 10) ∷ []))
        (omega (arith, digits_of-value fuel (n / 10) (ground arith))))
]

append_not_empty : (s : Text) (c : ℕ) → s ++ c ∷ [] ≢ []
append_not_empty [] c h = cc
append_not_empty (d ∷ s) c h = cc

digits_of_not_empty : (fuel n : ℕ) → digits_of fuel n ≢ []
unfolding digits_of
digits_of_not_empty zero n = λ h. cc
digits_of_not_empty (suc fuel) n = elim (Bool-cases (ltb n 10)) [
  | inl small ↦ rw small (λ h. cc)
  | inr large ↦ rw large (append_not_empty (digits_of fuel (n / 10)) (48 + n % 10))
]

pub digits_of_small : (fuel n : ℕ) → n < 10 → digits_of fuel n ≡ (48 + n) ∷ []
unfolding digits_of
digits_of_small zero n h = let e : n % 10 ≡ n = omega arith in rw e refl
digits_of_small (suc fuel) n h = let e : ltb n 10 ≡ true = ground arith in rw e refl

pub int_of_digits : (s : Text) → s ≢ [] → All Digit s → int s ≡ some (pos (value_from 0 s))
int_of_digits [] h d = absurd (h refl)
int_of_digits (c ∷ s) h d = int-digits c s d

pub decimal-Digit : (n : ℕ) → All Digit (decimal n)
unfolding decimal
decimal-Digit n = digits_of-Digit n n (omega arith)

pub value-decimal : (n : ℕ) → value_from 0 (decimal n) ≡ n
unfolding decimal
value-decimal n = digits_of-value n n (omega arith)

pub decimal_not_empty : (n : ℕ) → decimal n ≢ []
unfolding decimal
decimal_not_empty n = digits_of_not_empty n n

-- `int(str(n))` is `n`.
pub int-decimal : (n : ℕ) → int (decimal n) ≡ some (pos n)
int-decimal n =
    int_of_digits (decimal n) (decimal_not_empty n) (decimal-Digit n)
    ∙ ap (λ k. some (pos k)) (value-decimal n)
