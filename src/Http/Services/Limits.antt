-- ===== src/Http/Services/Limits.antt =====
-- The limit on the features of a WFS request (`fix_getfeature` of
-- src/pyqgisserver/handlers/owshandler.py).
use py_qgis_server.Prelude.{
  ℕ, zero, suc, ◌≤◌, ◌<◌, ltb, String, Bool, true, false, Option, none, some, string_eq, ==_self,
  ◌≡◌, refl, ap, ◌∙◌, inl, inr, ◌⊎◌, Bool-cases, arith,
}
use py_qgis_server.Dict
use py_qgis_server.Dict.{Dict}
use py_qgis_server.Dict.Laws.{get-put, remove-put}
use py_qgis_server.Http.Services.{
  asked, capped, fix_getfeature, is_getfeature, limit_key, get_text, version_two,
}
use py_qgis_server.Text.{Text, ℤ, pos, negsuc, decimal, int, starts_with}
use py_qgis_server.Text.Numbers.{int-decimal}

-- `n` is what the client asked for, or else the limit.
abbrev pub Meets : ℕ → Option ℤ → ℕ → Type 0
Meets limit none n = n ≡ limit
Meets limit (some (pos zero)) n = n ≡ limit
Meets limit (some (negsuc m)) n = n ≡ limit
Meets limit (some (pos (suc m))) n = (n ≤ suc m) × ((n ≡ limit) ⊎ (n ≡ suc m))

-- The value is a number that is positive, within the limit, and meets the one asked for.
abbrev pub Bounded : ℕ → Option ℤ → Option Text → Type 0
Bounded limit number value =
    (n : ℕ) × (value ≡ some (decimal n))
    × (int (decimal n) ≡ some (pos n))
    × (0 < n)
    × (n ≤ limit)
    × Meets limit number n

capped-Meets :
    (limit : ℕ) (number : Option ℤ)
    → 0 < limit
    → (0 < capped limit number)
      × (capped limit number ≤ limit)
      × Meets limit number (capped limit number)
unfolding capped
capped-Meets limit none h = (h, omega arith, refl)
capped-Meets limit (some (pos zero)) h = (h, omega arith, refl)
capped-Meets limit (some (negsuc m)) h = (h, omega arith, refl)
capped-Meets limit (some (pos (suc m))) h = elim (Bool-cases (ltb limit (suc m))) [
  | inl less ↦ rw less (h, omega arith, (ground arith, inl refl))
  | inr more ↦ rw more (omega arith, ground arith, (omega arith, inr refl))
]

-- The number, under the name that the code takes.
fix_getfeature-key :
    (limit : ℕ) (d : Dict String Text)
    → 0 < limit
    → is_getfeature d ≡ true
    → Bounded limit
        (asked (Dict.get (limit_key d) d))
        (Dict.get (limit_key d) (fix_getfeature limit d))
      × (Dict.remove (limit_key d) (fix_getfeature limit d) ≡ Dict.remove (limit_key d) d)
unfolding fix_getfeature
fix_getfeature-key limit d h g =
    let number = asked (Dict.get (limit_key d) d) in
    let n = capped limit number in
    let (positive, bounded, meets) = capped-Meets limit number h in
    let on : ltb 0 limit ≡ true = ground arith in
    let e : fix_getfeature limit d ≡ Dict.put (limit_key d) (decimal n) d = rw (on, g) refl in
    let got : Dict.get (limit_key d) (fix_getfeature limit d) ≡ some (decimal n) =
      ap (Dict.get (limit_key d)) e
      ∙ get-put (limit_key d) (limit_key d) (decimal n) d
      ∙ rw (==_self (limit_key d)) refl in
    (
      (n, got, int-decimal n, positive, bounded, meets),
      ap (Dict.remove (limit_key d)) e ∙ remove-put (limit_key d) (decimal n) d,
    )

-- The name under which QGIS reads the number, for WFS 2 and for the older versions.
abbrev pub number_name : Bool → String
number_name true = "COUNT"
number_name false = "MAXFEATURES"

limit_key_lem :
    (d : Dict String Text) (b : Bool)
    → starts_with (get_text "VERSION" d) version_two ≡ b
    → limit_key d ≡ number_name b
unfolding limit_key
limit_key_lem d true h = rw (limit_key, h) refl
limit_key_lem d false h = rw (limit_key, h) refl

-- With a positive limit, a GetFeature request of the WFS goes to QGIS with a number of features,
-- under COUNT if its version starts with `2.` and under MAXFEATURES if not, that QGIS can read, that
-- is positive and at most the limit, and that is the limit itself unless a positive number was asked
-- for under that name, of which it is not more; the other arguments stay as they are.
pub fix_getfeature-Bounded :
    (limit : ℕ) (d : Dict String Text) (b : Bool)
    → 0 < limit
    → is_getfeature d ≡ true
    → starts_with (get_text "VERSION" d) version_two ≡ b
    → Bounded limit
        (asked (Dict.get (number_name b) d))
        (Dict.get (number_name b) (fix_getfeature limit d))
      × (Dict.remove (number_name b) (fix_getfeature limit d) ≡ Dict.remove (number_name b) d)
fix_getfeature-Bounded limit d b h g v =
    rw (← (limit_key_lem d b v)) (fix_getfeature-key limit d h g)
