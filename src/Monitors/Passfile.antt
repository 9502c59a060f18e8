-- ===== src/Monitors/Passfile.antt =====
-- The passfile: what a file of well-formed lines gives, and where reading it fails.
use py_qgis_server.Prelude.{
  ℕ, ◌≡◌, ◌≢◌, refl, ap, ◌∙◌, true, false, ◌&&◌, Option, none, some, List, [], ◌∷◌, ◌++◌, map,
  length, inl, inr, Bool-cases, All, All-append, nat_eq, if◌then◌else◌, Result, ok, raise,
}
use py_qgis_server.Http.Services.{is_given}
use py_qgis_server.Monitors.{
  Credentials, Error, first_found, is_covered, read_credentials, read_line, read_lines, read_parts,
  value_error,
}
use py_qgis_server.Text.{
  Text, cons_kept, is_space, split, starts_with, strip, strip_left, strip_right,
}
use py_qgis_server.Text.Parts.{split-absent, split-append}

-- A line of the file: a blank one, a comment, which begins with `#`, an entry, or another one.
pub data Line : Type 0 where
  blank : Line
  comment : Text → Line
  entry : Text → Text → Text → Line
  broken : Text → Line

-- How it is written, with the colon 58.
abbrev pub print : Line → Text
print blank = []
print (comment s) = 35 ∷ s
print (entry vhost user password) = vhost ++ 58 ∷ (user ++ 58 ∷ password)
print (broken s) = s

abbrev pub IsPlain : ℕ → Type 0
IsPlain c = is_space c ≡ false

-- An entry has fields without blanks and colons and does not begin with `#`; a line that is neither
-- blank, a comment nor an entry has no blanks and not three parts.
abbrev pub IsProper : Line → Type 0
IsProper blank = Unit
IsProper (comment s) = Unit
IsProper (entry vhost user password) =
    (starts_with (vhost ++ 58 ∷ (user ++ 58 ∷ password)) (35 ∷ []) ≡ false)
    × All (λ c. c ≢ 58) vhost
    × All IsPlain vhost
    × All (λ c. c ≢ 58) user
    × All IsPlain user
    × All (λ c. c ≢ 58) password
    × All IsPlain password
IsProper (broken s) =
    (is_given s ≡ true)
    × (starts_with s (35 ∷ []) ≡ false)
    × All IsPlain s
    × (length (split 58 s) ≢ 3)

-- The password of the first entry that covers a host and a user, unless a broken line comes first.
abbrev pub find_password : Text → Text → List Line → Result Error (Option Credentials)
find_password vhost user [] = ok none
find_password vhost user (blank ∷ rest) = find_password vhost user rest
find_password vhost user (comment s ∷ rest) = find_password vhost user rest
find_password vhost user (entry v u password ∷ rest) =
    let later = find_password vhost user rest in
    if is_covered v vhost && is_covered u user
    then ok (some (record { user = user; password = password }))
    else later
find_password vhost user (broken s ∷ rest) = raise value_error

-- The lines as the file gives them, each with its end of line.
abbrev pub lines_of : List Line → List Text
lines_of = map (λ l. print l ++ 10 ∷ [])

keep_cons : (c : ℕ) (s : Text) → IsPlain c → cons_kept is_space c s ≡ c ∷ s
keep_cons c [] h = rw h refl
keep_cons c (d ∷ s) h = refl

strip_right_end : (s : Text) → strip_right is_space (s ++ 10 ∷ []) ≡ strip_right is_space s
unfolding strip_right is_space
strip_right_end [] = refl
strip_right_end (c ∷ s) = ap (cons_kept is_space c) (strip_right_end s)

strip_right_lem : (s : Text) → All IsPlain s → strip_right is_space s ≡ s
unfolding strip_right
strip_right_lem [] h = refl
strip_right_lem (c ∷ s) h = rw (strip_right_lem s h.1) (keep_cons c s h.0)

strip_cons : (c : ℕ) (s : Text) → IsPlain c → strip (c ∷ s) ≡ c ∷ strip_right is_space s
unfolding strip strip_left strip_right
strip_cons c s h = rw h (keep_cons c (strip_right is_space s) h)

strip_line : (s : Text) → All IsPlain s → strip (s ++ 10 ∷ []) ≡ s
strip_line [] h = unfold strip strip_left strip_right is_space in refl
strip_line (c ∷ s) h =
    strip_cons c (s ++ 10 ∷ []) h.0 ∙ ap (λ t. c ∷ t) (strip_right_end s ∙ strip_right_lem s h.1)

entry-IsPlain :
    (v u p : Text)
    → All IsPlain v
    → All IsPlain u
    → All IsPlain p
    → All IsPlain (v ++ 58 ∷ (u ++ 58 ∷ p))
entry-IsPlain v u p hv hu hp =
    let colon : IsPlain 58 = unfold is_space in refl in
    All-append IsPlain v (58 ∷ (u ++ 58 ∷ p)) hv
      (colon, All-append IsPlain u (58 ∷ p) hu (colon, hp))

split_entry :
    (v u p : Text)
    → All (λ c. c ≢ 58) v
    → All (λ c. c ≢ 58) u
    → All (λ c. c ≢ 58) p
    → split 58 (v ++ 58 ∷ (u ++ 58 ∷ p)) ≡ v ∷ (u ∷ (p ∷ []))
split_entry v u p hv hu hp =
    split-append 58 v (u ++ 58 ∷ p) hv
    ∙ ap (λ ps. v ∷ ps) (split-append 58 u p hu ∙ ap (λ ps. u ∷ ps) (split-absent 58 p hp))

is_given-append : (s : Text) (c : ℕ) (t : Text) → is_given (s ++ c ∷ t) ≡ true
unfolding is_given
is_given-append [] c t = refl
is_given-append (d ∷ s) c t = refl

read_parts-raise :
    (vhost user : Text) (ps : List Text)
    → length ps ≢ 3
    → read_parts vhost user ps ≡ raise value_error
unfolding read_parts
read_parts-raise vhost user [] h = refl
read_parts-raise vhost user (a ∷ []) h = refl
read_parts-raise vhost user (a ∷ (b ∷ [])) h = refl
read_parts-raise vhost user (a ∷ (b ∷ (c ∷ []))) h = absurd (h refl)
read_parts-raise vhost user (a ∷ (b ∷ (c ∷ (d ∷ ps)))) h = refl

-- What one line gives.
abbrev line_result : Text → Text → Line → Result Error (Option Credentials)
line_result vhost user blank = ok none
line_result vhost user (comment s) = ok none
line_result vhost user (entry v u p) =
    if is_covered v vhost && is_covered u user
    then ok (some (record { user = user; password = p }))
    else ok none
line_result vhost user (broken s) = raise value_error

read_line-strip :
    (vhost user : Text) (l : Line)
    → IsProper l
    → read_line vhost user (strip (print l ++ 10 ∷ [])) ≡ line_result vhost user l
unfolding read_line
read_line-strip vhost user blank h = rw (strip_line [] tt) (unfold is_given in refl)
read_line-strip vhost user (comment s) h =
    rw (strip_cons 35 (s ++ 10 ∷ []) (unfold is_space in refl))
      (unfold is_given starts_with in refl)
read_line-strip vhost user (entry v u p) (sharp, hv, bv, hu, bu, hp, bp) =
    rw
      (
        strip_line (v ++ 58 ∷ (u ++ 58 ∷ p)) (entry-IsPlain v u p bv bu bp),
        is_given-append v 58 (u ++ 58 ∷ p),
        sharp,
        split_entry v u p hv hu hp,
      )
      (unfold read_parts in refl)
read_line-strip vhost user (broken s) (given, sharp, plain, parts) =
    rw (strip_line s plain, given, sharp) (read_parts-raise vhost user (split 58 s) parts)

find_password-cons :
    (vhost user : Text) (l : Line) (ls : List Line)
    → first_found (line_result vhost user l) (find_password vhost user ls)
      ≡ find_password vhost user (l ∷ ls)
find_password-cons vhost user blank ls = refl
find_password-cons vhost user (comment s) ls = refl
find_password-cons vhost user (entry v u p) ls =
    elim (Bool-cases (is_covered v vhost && is_covered u user)) [
      | inl e ↦ rw e refl
      | inr e ↦ rw e refl
    ]
find_password-cons vhost user (broken s) ls = refl

-- A passfile whose lines are proper is read as the list of its entries: the password is that of the
-- first one whose host and user, or `*`, cover those asked for, if no other line than blank ones,
-- comments and entries comes before it; such a line, one of four fields say, raises `ValueError`.
pub read_credentials-lines_of :
    (vhost user : Text) (ls : List Line)
    → All IsProper ls
    → read_credentials vhost user (some (lines_of ls)) ≡ find_password vhost user ls
unfolding read_credentials read_lines
read_credentials-lines_of vhost user [] h = refl
read_credentials-lines_of vhost user (l ∷ ls) (h, hs) =
    rw (read_line-strip vhost user l h, read_credentials-lines_of vhost user ls hs)
      (find_password-cons vhost user l ls)
