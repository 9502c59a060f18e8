-- ===== src/Plugins/Versions.antt =====
-- The version test compares versions part by part.
use py_qgis_server.Prelude.{
  ℕ, zero, suc, ◌+◌, ◌*◌, ◌/◌, ◌%◌, ◌≤◌, ◌<◌, ltb, leb, Bool, true, false, ◌&&◌, ◌||◌, Option, none,
  some, [], ◌∷◌, ◌++◌, ◌≡◌, ◌≢◌, refl, ap, ◌∙◌, inl, inr, Bool-cases, All, All-append, nat_eq, ◌==◌,
  if◌then◌else◌, ok, arith,
}
use py_qgis_server.Plugins.{
  at_least, at_most, bound, check_qgis_version, format, format_two, in_range, number_of, read_int,
  read_parts, release, to_int,
}
use py_qgis_server.Text.{Text, ℤ, pos, decimal, digits_of, int, split}
use py_qgis_server.Text.Numbers.{
  Digit, decimal-Digit, decimal_not_empty, digits_of_small, int_of_digits, value-decimal,
  value_from, value_from-append,
}

abbrev pub Triple : Type 0
Triple = ℕ × ℕ × ℕ

-- A version with a minor part from 99 on is the next major one, and a last part is 99 at most.
abbrev pub normal : Triple → Triple
normal (major, minor, rev) =
    if leb 99 minor then (suc major, 0, 0) else (major, minor, if ltb 99 rev then 99 else rev)

-- The order part by part.
abbrev pub lex_le : Triple → Triple → Bool
lex_le (a, b, c) (x, y, z) = ltb a x || (a == x && (ltb b y || (b == y && leb c z)))

-- The text stands for the three numbers.
abbrev pub Reads : Text → Triple → Type 0
Reads t (a, b, c) = read_parts (split 46 t) ≡ ok (pos a, pos b, pos c)

-- A bound that is not given, or empty, is the version itself.
abbrev pub Bounds : Option Text → Triple → Triple → Type 0
Bounds none v b = b ≡ v
Bounds (some []) v b = b ≡ v
Bounds (some (c ∷ s)) v b = Reads (c ∷ s) b

abbrev Small : Triple → Type 0
Small (a, b, c) = (b < 100) × (c < 100)

abbrev weight : Triple → ℕ
weight (a, b, c) = a * 10000 + b * 100 + c

normal-Small : (v : Triple) → Small (normal v)
normal-Small (a, b, c) = elim (Bool-cases (leb 99 b)) [
  | inl h ↦ rw h (omega arith, omega arith)
  | inr h ↦ rw h (ground arith, ground arith)
]

weight_order : (v w : Triple) → Small v → Small w → leb (weight v) (weight w) ≡ lex_le v w
weight_order (a, b, c) (x, y, z) h k = ground arith

two-Digit : (n : ℕ) → All Digit (format_two (pos n))
unfolding format_two
two-Digit n = elim (Bool-cases (ltb n 10)) [
  | inl h ↦ rw h ((omega arith, omega arith), decimal-Digit n)
  | inr h ↦ rw h (decimal-Digit n)
]

decimal_two : (n : ℕ) → 10 ≤ n → n < 100 → decimal n ≡ (48 + n / 10) ∷ ((48 + n % 10) ∷ [])
unfolding decimal digits_of
decimal_two zero h k = absurd (omega arith)
decimal_two (suc n) h k =
    let large : ltb (suc n) 10 ≡ false = ground arith in
    let small : suc n / 10 < 10 = omega arith in
    rw (large, digits_of_small n (suc n / 10) small) refl

decimal_one : (n : ℕ) → n < 10 → decimal n ≡ (48 + n) ∷ []
unfolding decimal
decimal_one n h = digits_of_small n n h

two-value : (m n : ℕ) → n < 100 → value_from m (format_two (pos n)) ≡ m * 100 + n
unfolding format_two
two-value m n h = elim (Bool-cases (ltb n 10)) [
  | inl small ↦ rw (small, decimal_one n (ground arith)) (omega arith)
  | inr large ↦ rw (large, decimal_two n (ground arith) h) (omega arith)
]

append-not_empty : (s t : Text) → s ≢ [] → s ++ t ≢ []
append-not_empty [] t h = absurd (h refl)
append-not_empty (c ∷ s) t h = λ e. cc

read_int_of : (t : Text) (n : ℤ) → int t ≡ some n → read_int t ≡ ok n
unfolding read_int
read_int_of t n h = rw (h, read_int) refl

number_of-weight :
    (v : Triple) → Small v → number_of (pos v.0, pos v.1, pos v.2) ≡ ok (pos (weight v))
unfolding number_of format
number_of-weight (a, b, c) h =
    let text : Text = decimal a ++ (format_two (pos b) ++ format_two (pos c)) in
    let digits =
      All-append Digit (decimal a) (format_two (pos b) ++ format_two (pos c)) (decimal-Digit a)
        (All-append Digit (format_two (pos b)) (format_two (pos c)) (two-Digit b) (two-Digit c)) in
    let some_digit =
      append-not_empty (decimal a) (format_two (pos b) ++ format_two (pos c))
        (decimal_not_empty a) in
    let value : value_from 0 text ≡ weight (a, b, c) =
      value_from-append 0 (decimal a) (format_two (pos b) ++ format_two (pos c))
      ∙ value_from-append (value_from 0 (decimal a)) (format_two (pos b)) (format_two (pos c))
      ∙ rw (value-decimal a, two-value a b h.0, two-value (a * 100 + b) c h.1) (omega arith) in
    read_int_of text (pos (weight (a, b, c)))
      (int_of_digits text some_digit digits ∙ ap (λ n. some (pos n)) value)

in_range-normal :
    (a b c : ℕ)
    → in_range (pos a, pos b, pos c)
      ≡ (pos (normal (a, b, c)).0, pos (normal (a, b, c)).1, pos (normal (a, b, c)).2)
unfolding in_range
in_range-normal a b c = elim (Bool-cases (leb 99 b)) [
  | inl h ↦ rw (h, at_least) refl
  | inr h ↦ elim (Bool-cases (ltb 99 c)) [
    | inl k ↦ let e : leb 100 c ≡ true = ground arith in rw (h, k, e, at_least) refl
    | inr k ↦ let e : leb 100 c ≡ false = ground arith in rw (h, k, e, at_least) refl
  ]
]

to_int-weight : (t : Text) (v : Triple) → Reads t v → to_int t ≡ ok (pos (weight (normal v)))
unfolding to_int
to_int-weight t (a, b, c) h =
    let read : to_int t ≡ number_of (in_range (pos a, pos b, pos c)) = rw h refl in
    read
    ∙ ap number_of (in_range-normal a b c)
    ∙ number_of-weight (normal (a, b, c)) (normal-Small (a, b, c))

bound-weight :
    (o : Option Text) (v b : Triple)
    → Bounds o v b
    → bound o (pos (weight (normal v))) ≡ ok (pos (weight (normal b)))
unfolding bound
bound-weight none v b h = rw h refl
bound-weight (some []) v b h = rw h refl
bound-weight (some (c ∷ s)) v b h = to_int-weight (c ∷ s) b h

-- If the versions are texts that stand for numbers, the test does not raise, and it holds exactly if
-- the version of QGIS lies between the bounds in the order part by part of the normal forms of the
-- three: a version with a minor part from 99 on is the next major one, and a last part is 99 at most.
pub check_qgis_version-lex_le :
    (qgis : Text) (minver maxver : Option Text) (v lo hi : Triple)
    → Reads (release qgis) v
    → Bounds minver v lo
    → Bounds maxver v hi
    → check_qgis_version qgis minver maxver
      ≡ ok (lex_le (normal lo) (normal v) && lex_le (normal v) (normal hi))
unfolding check_qgis_version at_most
check_qgis_version-lex_le qgis minver maxver v lo hi h k l = rw (to_int-weight (release qgis) v h) (
    rw (bound-weight minver v lo k) (
      rw (bound-weight maxver v hi l) (
        rw (weight_order (normal lo) (normal v) (normal-Small lo) (normal-Small v))
          (rw (weight_order (normal v) (normal hi) (normal-Small v) (normal-Small hi)) refl))))
