-- ===== src/Api/Fds.antt =====
-- `auxiliaryFds` (spacer/api/fds.go)
pub mod Laws
use spacetest.Base.{ℤ, pos, List, [], ◌∷◌, ◌++◌, not, positive, if◌then◌else◌}

abbrev pub AuxiliaryFds : Type 0
AuxiliaryFds = List ℤ

-- The list, and what is left in `*fd`.
unfoldable pub borrow : AuxiliaryFds → ℤ → AuxiliaryFds × ℤ
borrow f fd = if not (positive fd) then (f, fd) else (f ++ fd ∷ [], pos 0)
