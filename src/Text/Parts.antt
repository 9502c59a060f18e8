-- ===== src/Text/Parts.antt =====
-- Texts that begin with another one, and texts that are split and joined.
use py_qgis_server.Prelude.{
  ℕ, ◌≡◌, ◌≢◌, ◌↔◌, refl, ap, true, false, ◌&&◌, [], ◌∷◌, ◌++◌, inl, inr, Bool-cases, All, nat_eq,
  ◌==◌, ==_iff, ==_self, Eq, arith, if◌then◌else◌,
}
use py_qgis_server.Text.{Text, same, split, starts_with}

pub same_iff : (s t : Text) → (same s t ≡ true) ↔ (s ≡ t)
unfolding same
same_iff [] [] = ground arith
same_iff [] (d ∷ t) = ground arith
same_iff (c ∷ s) [] = ground arith
same_iff (c ∷ s) (d ∷ t) = ground (arith, ==_iff c d, same_iff s t)

-- Texts as keys of dictionaries.
instance abbrev pub text_eq : Eq Text
text_eq = record { same = same; same_iff = same_iff }

-- The text without its prefix.
unfoldable pub remove_prefix : Text → Text → Text
remove_prefix [] s = s
remove_prefix (d ∷ p) [] = []
remove_prefix (d ∷ p) (c ∷ s) = remove_prefix p s

-- `s.partition(p)[2]` for a text `p` that is not empty: what follows its first occurrence
unfoldable pub partition_rest : Text → Text → Text
unfolding starts_with remove_prefix
partition_rest p [] = []
partition_rest p (c ∷ s) =
    let later = partition_rest p s in
    if starts_with (c ∷ s) p then remove_prefix p (c ∷ s) else later

pub starts_with-append : (p t : Text) → starts_with (p ++ t) p ≡ true
unfolding starts_with
starts_with-append [] [] = refl
starts_with-append [] (c ∷ t) = refl
starts_with-append (d ∷ p) t = rw (==_self d) (starts_with-append p t)

pub remove_prefix-append : (p t : Text) → remove_prefix p (p ++ t) ≡ t
unfolding remove_prefix
remove_prefix-append [] t = refl
remove_prefix-append (d ∷ p) t = remove_prefix-append p t

pub append-remove_prefix : (p s : Text) → starts_with s p ≡ true → p ++ remove_prefix p s ≡ s
unfolding starts_with remove_prefix
append-remove_prefix [] s h = refl
append-remove_prefix (d ∷ p) [] h = absurd (cc)
append-remove_prefix (d ∷ p) (c ∷ s) h = elim (Bool-cases (c == d)) [
  | inl e ↦ rw ((==_iff c d).0 e) (
      ap (λ t. d ∷ t)
        (append-remove_prefix p s (let f : (c == d && starts_with s p) ≡ true = h in ground arith)))
  | inr e ↦ absurd (ground arith)
]

-- Without its prefix, a text is what follows the first occurrence of it.
pub partition_rest-prefix :
    (p : Text) (d : ℕ) (s : Text)
    → starts_with s (d ∷ p) ≡ true
    → partition_rest (d ∷ p) s ≡ remove_prefix (d ∷ p) s
unfolding partition_rest
partition_rest-prefix p d [] h = refl
partition_rest-prefix p d (c ∷ s) h = rw h refl

-- A text without a character is one part.
pub split-absent : (c : ℕ) (s : Text) → All (λ d. d ≢ c) s → split c s ≡ s ∷ []
unfolding split
split-absent c [] h = refl
split-absent c (d ∷ s) h =
    let e : (d == c) ≡ false = ground (arith, ==_iff d c, h.0) in rw (e, split-absent c s h.1) refl

pub split-append : (c : ℕ) (s t : Text) → All (λ d. d ≢ c) s → split c (s ++ c ∷ t) ≡ s ∷ split c t
unfolding split
split-append c [] t h = rw (==_self c) refl
split-append c (d ∷ s) t h =
    let e : (d == c) ≡ false = ground (arith, ==_iff d c, h.0) in
    rw (e, split-append c s t h.1) refl
