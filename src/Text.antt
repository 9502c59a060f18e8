-- ===== src/Text.antt =====
-- Python's texts and byte strings where the code looks into them: lists of code points. Of the
-- library's methods only what they do on ASCII is modelled.
pub mod Numbers
pub mod Parts
use py_qgis_server.Prelude.{
  ℕ, zero, suc, ◌+◌, ◌-◌, ◌*◌, ◌/◌, ◌%◌, Bool, true, false, ◌&&◌, ◌||◌, Option, none, some, List,
  [], ◌∷◌, ◌++◌, map, ltb, leb, nat_eq, ◌==◌, if◌then◌else◌,
}

abbrev pub Text : Type 0
Text = List ℕ

-- An integer, as `int` reads it.
pub data ℤ : Type 0 where
  pos : ℕ → ℤ
  negsuc : ℕ → ℤ

abbrev pub negative : ℕ → ℤ
negative zero = pos 0
negative (suc n) = negsuc n

-- `s.upper()` of bytes
unfoldable pub upper : Text → Text
upper = map (λ c. if leb 97 c && leb c 122 then c - 32 else c)

-- `s.lower()` of bytes
unfoldable pub lower : Text → Text
lower = map (λ c. if leb 65 c && leb c 90 then c + 32 else c)

-- `s == t`
unfoldable pub same : Text → Text → Bool
same [] [] = true
same [] (d ∷ t) = false
same (c ∷ s) [] = false
same (c ∷ s) (d ∷ t) = c == d && same s t

-- `s.startswith(t)`
unfoldable pub starts_with : Text → Text → Bool
starts_with s [] = true
starts_with [] (d ∷ t) = false
starts_with (c ∷ s) (d ∷ t) = c == d && starts_with s t

abbrev pub join_first : ℕ → List Text → List Text
join_first c [] = (c ∷ []) ∷ []
join_first c (part ∷ parts) = (c ∷ part) ∷ parts

-- `s.split(separator)` for a separator of one character
unfoldable pub split : ℕ → Text → List Text
split separator [] = [] ∷ []
split separator (c ∷ s) =
    let rest = split separator s in if c == separator then [] ∷ rest else join_first c rest

unfoldable pub is_space : ℕ → Bool
is_space c = (leb 9 c && leb c 13) || c == 32

-- `s.lstrip()` and `s.rstrip()` for a class of characters
unfoldable pub strip_left : (ℕ → Bool) → Text → Text
strip_left drops [] = []
strip_left drops (c ∷ s) = let rest = strip_left drops s in if drops c then rest else c ∷ s

abbrev pub cons_kept : (ℕ → Bool) → ℕ → Text → Text
cons_kept drops c [] = if drops c then [] else c ∷ []
cons_kept drops c (d ∷ s) = c ∷ (d ∷ s)

unfoldable pub strip_right : (ℕ → Bool) → Text → Text
strip_right drops [] = []
strip_right drops (c ∷ s) = cons_kept drops c (strip_right drops s)

-- `s.strip()`
unfoldable pub strip : Text → Text
unfolding strip_left strip_right is_space
strip s = strip_right is_space (strip_left is_space s)

unfoldable pub is_digit : ℕ → Bool
is_digit c = leb 48 c && leb c 57

-- Digits, with an underscore between two of them at most.
unfoldable pub read_digits : Bool → ℕ → Text → Option ℕ
unfolding is_digit
read_digits after_digit n [] = if after_digit then some n else none
read_digits after_digit n (c ∷ s) =
    let next = read_digits true (10 * n + (c - 48)) s in
    let skipped = read_digits false n s in
    if is_digit c then next else if after_digit && c == 95 then skipped else none

abbrev map_option : (ℕ → ℤ) → Option ℕ → Option ℤ
map_option f none = none
map_option f (some n) = some (f n)

-- What is left of a number without its blanks: `+` is 43 and `-` is 45.
unfoldable pub read_number : Text → Option ℤ
unfolding read_digits
read_number [] = none
read_number (c ∷ s) =
    if c == 43
    then map_option pos (read_digits false 0 s)
    else if c == 45
    then map_option negative (read_digits false 0 s)
    else map_option pos (read_digits false 0 (c ∷ s))

-- `int(s)`, `none` for `ValueError`; a limit on the number of digits is left out
unfoldable pub int : Text → Option ℤ
unfolding read_number strip_left strip_right is_space
int s = read_number (strip_right is_space (strip_left is_space s))

-- The decimal digits of `n`, as characters; `n` is fuel enough.
unfoldable pub digits_of : ℕ → ℕ → Text
digits_of zero n = (48 + n % 10) ∷ []
digits_of (suc fuel) n =
    let shorter = digits_of fuel (n / 10) in
    if ltb n 10 then (48 + n) ∷ [] else shorter ++ (48 + n % 10) ∷ []

-- `str(n)`
unfoldable pub decimal : ℕ → Text
unfolding digits_of
decimal n = digits_of n n
