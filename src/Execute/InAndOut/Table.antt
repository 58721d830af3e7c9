-- ===== src/Execute/InAndOut/Table.antt =====
-- The descriptors in `callersNamespaces`, in the table of open descriptors.
use spacetest.Base.{
  ℤ, Bool, true, false, ◌||◌, List, [], ◌∷◌, ◌++◌, ◌≡◌, refl, fun_ext, ==ℤ_iff, contains, All,
  if◌then◌else◌, arith,
}
use spacetest.Kernel.Laws.{with_fd, without_fd}

-- The table with the descriptors of a list.
abbrev pub with_all : List ℤ → (ℤ → Bool) → ℤ → Bool
with_all cs f j = contains j cs || f j

-- The table after a list was closed in order.
abbrev pub closed : List ℤ → (ℤ → Bool) → ℤ → Bool
closed [] g = g
closed (c ∷ cs) g = closed cs (without_fd c g)

abbrev pub AreNew : (ℤ → Bool) → List ℤ → Type 0
AreNew f = All (λ c. f c ≡ false)

pub contains-append :
    (cs ds : List ℤ) (j : ℤ) → contains j (cs ++ ds) ≡ (contains j cs || contains j ds)
contains-append [] ds j = refl
contains-append (c ∷ cs) ds j = ground (arith, contains-append cs ds j)

pub with_all-append :
    (cs : List ℤ) (c : ℤ) (f : ℤ → Bool) → with_fd c (with_all cs f) ≡ with_all (cs ++ c ∷ []) f
with_all-append cs c f = fun_ext λ j. ground (arith, contains-append cs (c ∷ []) j)

pub AreNew-append :
    (f : ℤ → Bool) (cs : List ℤ) (c : ℤ)
    → AreNew f cs
    → with_all cs f c ≡ false
    → AreNew f (cs ++ c ∷ [])
AreNew-append f [] c h e = (e, tt)
AreNew-append f (x ∷ cs) c (h, hs) e = (h, AreNew-append f cs c hs (ground arith))

pub closed-apply :
    (cs : List ℤ) (g : ℤ → Bool) (j : ℤ) → closed cs g j ≡ (if contains j cs then false else g j)
closed-apply [] g j = refl
closed-apply (c ∷ cs) g j = ground (arith, closed-apply cs (without_fd c g) j)

pub AreNew-apply :
    (f : ℤ → Bool) (cs : List ℤ) (j : ℤ) → AreNew f cs → contains j cs ≡ true → f j ≡ false
AreNew-apply f [] j h e = ground arith
AreNew-apply f (c ∷ cs) j (h, hs) e = ground (arith, ==ℤ_iff j c, h, AreNew-apply f cs j hs)

-- Closing all of them gives the table back.
pub closed-with_all : (cs : List ℤ) (f : ℤ → Bool) → AreNew f cs → closed cs (with_all cs f) ≡ f
closed-with_all cs f h =
    fun_ext λ j. ground (arith, closed-apply cs (with_all cs f) j, AreNew-apply f cs j h)
