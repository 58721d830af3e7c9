-- ===== src/Api/Fds/Laws.antt =====
-- `borrow`, as what it appends and what it leaves.
use spacetest.Base.{
  ℤ, pos, List, [], ◌∷◌, ◌++◌, ◌≡◌, ◌&&◌, positive, contains, if◌then◌else◌, Bool-cases, inl, inr,
  ==ℤ_iff, arith,
}
use mathlib.Core.List.{append-nil}
use spacetest.Api.Fds.{borrow}

-- What `borrow` appends for a field.
abbrev pub piece : ℤ → List ℤ
piece fd = if positive fd then fd ∷ [] else []

-- What it leaves in the field.
abbrev pub left : ℤ → ℤ
left fd = if positive fd then pos 0 else fd

-- A field on the receiver's side.
abbrev pub carried : (ℤ → ℤ) → ℤ → ℤ
carried renumber fd = if positive fd then renumber fd else fd

pub borrow_lem : (f : List ℤ) (fd : ℤ) → borrow f fd ≡ (f ++ piece fd, left fd)
unfolding borrow
borrow_lem f fd = elim (Bool-cases (positive fd)) [ inl p ↦ rw p | inr n ↦ rw (n, append-nil) ]

-- The open ones of a list of descriptors.
abbrev pub open_ones : List ℤ → List ℤ
open_ones [] = []
open_ones (x ∷ xs) = piece x ++ open_ones xs

pub contains-open_ones :
    (xs : List ℤ) (j : ℤ) → contains j (open_ones xs) ≡ (positive j && contains j xs)
contains-open_ones [] j = ground arith
contains-open_ones (x ∷ xs) j = elim (Bool-cases (positive x)) [
  | inl p ↦ rw p (ground (arith, ==ℤ_iff j x, contains-open_ones xs j))
  | inr n ↦ rw n (ground (arith, ==ℤ_iff j x, contains-open_ones xs j))
]
