-- ===== src/Service/Room/Messages.antt =====
-- Whether a message is empty.
use spacetest.Base.{String, ◌<>◌, str_eq, ◌≡◌, ◌≢◌, false, Bool-cases, inl, inr}
use text.Mathlib.TextEquality.{eq_iff}
use text.Mathlib.TextLemmas.{append-eq-nil_iff, cons-append}

nonempty : (x : String) → x ≢ "" → str_eq x "" ≡ false
nonempty x h = elim (Bool-cases (str_eq x "")) [
  | inl e ↦ absurd (h ((eq_iff x "").0 e))
  | inr n ↦ n
]

-- A message that ends in a colon and a reason.
pub colon_nonempty : (x y e : String) → str_eq (x <> (y <> (":" <> e))) "" ≡ false
colon_nonempty x y e = nonempty _ λ empty.
    let tail : ":" <> e ≡ "" = (append-eq-nil_iff.0 (append-eq-nil_iff.0 empty).1).1 in
    let head : ":" <> e ≡ String.◌∷◌ ":" ("" <> e) = cons-append ":" "" e in cc
