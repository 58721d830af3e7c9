-- ===== src/Service/Serve/Children.antt =====
-- What stays open for the children that `Serve` (spacer/service/service.go) has started.
use spacetest.Base.{ℕ, ℤ, Bool, true, List, [], ◌∷◌, ◌≡◌, arith}
use spacetest.Kernel.{Kernel, State}
use spacetest.Kernel.Table.{Has}
use spacetest.Execute.InAndOut.Table.{with_all}
use spacetest.Execute.InAndOut.Table as Lists
use spacetest.Service.Subspace.{Spacemaker}
use spacetest.Service.Subspace.Leaks.{KeptFor}

-- The table with what os/exec keeps open for children that were started one after the other.
abbrev pub with_children : List (List ℤ) → (ℤ → Bool) → ℤ → Bool
with_children [] f = f
with_children (kept ∷ more) f = with_children more (with_all kept f)

-- Each was kept for a child that was started for a request, and was new then.
abbrev pub Children : (k : Kernel) → Spacemaker → (ℤ → Bool) → List (List ℤ) → Type 0
Children k sm f [] = Unit
Children k sm f (kept ∷ more) =
    ((spaces : ℕ) × KeptFor k sm spaces kept)
    × Lists.AreNew f kept
    × Children k sm (with_all kept f) more

-- All that is open is from before, or is kept for children that were started.
abbrev pub Grown : (k : Kernel) → Spacemaker → (ℤ → Bool) → State k → Type 0
Grown k sm f s = (kepts : List (List ℤ)) × Children k sm f kepts × Has k (with_children kepts f) s

pub stays_open :
    (kepts : List (List ℤ)) (f : ℤ → Bool) (j : ℤ) → f j ≡ true → with_children kepts f j ≡ true
stays_open [] f j h = h
stays_open (kept ∷ more) f j h = stays_open more (with_all kept f) j (ground arith)

-- More children, behind others.
pub Grown-more :
    {k : Kernel} (sm : Spacemaker) (kepts : List (List ℤ)) (f : ℤ → Bool) (s : State k)
    → Children k sm f kepts
    → Grown k sm (with_children kepts f) s
    → Grown k sm f s
Grown-more sm [] f s _ h = h
Grown-more sm (kept ∷ more) f s (launch, new, rest) h =
    let (others, children, has) = Grown-more sm more (with_all kept f) s rest h in
    (kept ∷ others, (launch, new, children), has)
