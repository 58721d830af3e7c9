-- ===== src/Execute/Separate/Spaces.antt =====
-- The namespaces of a thread that enters some after others: which one counts for a type.
use spacetest.Base.{
  ℕ, ℤ, Bool, true, false, ◌||◌, ◌==◌, List, [], ◌∷◌, ◌++◌, ◌≡◌, refl, ap, ◌∙◌, sym, if◌then◌else◌,
  arith, Bool-cases, inl, inr, All,
}
use spacetest.Kernel.Laws.{moves_thread, put}
use spacetest.Execute.InAndOut.Saved.{entered}

-- The same namespaces of the types into which a thread can move.
abbrev pub Agree : (ℕ → ℕ) → (ℕ → ℕ) → Type 0
Agree a b = (typ : ℕ) → moves_thread typ ≡ true → a typ ≡ b typ

-- Whether a descriptor of a list references a namespace of a type, and whether a list has a type.
abbrev pub mentions : (ℤ → ℕ × ℕ) → List ℤ → ℕ → Bool
mentions refs [] typ = false
mentions refs (fd ∷ fds) typ = typ == (refs fd).0 || mentions refs fds typ

abbrev pub has : ℕ → List ℕ → Bool
has typ [] = false
has typ (x ∷ types) = typ == x || has typ types

-- Each descriptor of a list references the namespace of `a` of its type.
abbrev pub Picked : (ℤ → ℕ × ℕ) → (ℕ → ℕ) → List ℕ → List ℤ → Type 0
Picked refs a [] [] = Unit
Picked refs a (typ ∷ types) (fd ∷ fds) = (refs fd ≡ (typ, a typ)) × Picked refs a types fds
Picked refs a _ _ = ⊥

pub entered-append :
    (refs : ℤ → ℕ × ℕ) (xs ys : List ℤ) (a : ℕ → ℕ)
    → entered refs (xs ++ ys) a ≡ entered refs ys (entered refs xs a)
entered-append refs [] ys a = refl
entered-append refs (x ∷ xs) ys a = entered-append refs xs ys (put (refs x).0 (refs x).1 a)

pub entered-Agree :
    (refs : ℤ → ℕ × ℕ) (fds : List ℤ) (a b : ℕ → ℕ)
    → Agree a b
    → Agree (entered refs fds a) (entered refs fds b)
entered-Agree refs [] a b same = same
entered-Agree refs (fd ∷ fds) a b same =
    entered-Agree refs fds _ _ λ typ moves. ground (arith, same typ moves)

pub entered-same :
    (refs refs' : ℤ → ℕ × ℕ) (fds : List ℤ) (a : ℕ → ℕ)
    → All (λ fd. refs fd ≡ refs' fd) fds
    → entered refs fds a ≡ entered refs' fds a
entered-same refs refs' [] a _ = refl
entered-same refs refs' (fd ∷ fds) a (e, es) =
    ap (λ r. entered refs fds (put r.0 r.1 a)) e
    ∙ entered-same refs refs' fds (put (refs' fd).0 (refs' fd).1 a) es

-- What was not mentioned is as before.
pub entered-skip :
    (refs : ℤ → ℕ × ℕ) (fds : List ℤ) (a : ℕ → ℕ) (typ : ℕ)
    → mentions refs fds typ ≡ false
    → entered refs fds a typ ≡ a typ
entered-skip refs [] a typ absent = refl
entered-skip refs (fd ∷ fds) a typ absent =
    entered-skip refs fds _ typ (ground arith) ∙ ground arith

-- What was mentioned does not depend on what was before.
pub entered-over :
    (refs : ℤ → ℕ × ℕ) (fds : List ℤ) (a b : ℕ → ℕ) (typ : ℕ)
    → mentions refs fds typ ≡ true
    → entered refs fds a typ ≡ entered refs fds b typ
entered-over refs [] a b typ there = absurd cc
entered-over refs (fd ∷ fds) a b typ there = elim (Bool-cases (mentions refs fds typ)) [
  | inl later ↦ entered-over refs fds _ _ typ later
  | inr last ↦
      entered-skip refs fds _ typ last ∙ ground arith ∙ sym (entered-skip refs fds _ typ last)
]

pub entered-Picked :
    (refs : ℤ → ℕ × ℕ) (a x : ℕ → ℕ) (types : List ℕ) (fds : List ℤ) (typ : ℕ)
    → Picked refs a types fds
    → entered refs fds x typ ≡ (if has typ types then a typ else x typ)
entered-Picked refs a x [] [] typ _ = refl
entered-Picked refs a x [] (_ ∷ _) typ h = absurd h
entered-Picked refs a x (_ ∷ _) [] typ h = absurd h
entered-Picked refs a x (t ∷ types) (fd ∷ fds) typ (e, es) =
    rw e (entered-Picked refs a (put t (a t) x) types fds typ es ∙ ground arith)
