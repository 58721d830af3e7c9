-- ===== src/Execute.antt =====
-- `Execute` and its two ways to run a function in other namespaces (execute.go).
pub mod InAndOut
pub mod Separate
pub mod Sorts
pub mod Mounts
pub mod Laws
use spacetest.Base.{
  ℤ, negsuc, nonnegative, List, [], ◌∷◌, ◌++◌, ◌==◌, pure, raise, ◌>>=◌, ◌>>◌, if◌then◌else◌,
}
use spacetest.Spaces.{clone_newuser, clone_newns}
use spacetest.Kernel.{Kernel}
use spacetest.Kernel.Calls.{Act}
use spacetest.Space.{type_of_fd}
use spacetest.Execute.InAndOut.{go_in_and_out}
use spacetest.Execute.Separate.{go_separate}

-- `mntnsfd` and `othernsfds`
abbrev pub Sorted : Type 0
Sorted = ℤ × List ℤ

module _ (k : Kernel) where
  -- one round of the loop over the arguments
  unfoldable pub sort_fd : ℤ → Sorted → Act k Sorted
  sort_fd nsfd (mntnsfd, others) = do
    typ ← type_of_fd k nsfd
    if typ == clone_newuser
        then raise "cannot Execute() in different user namespace"
        else if typ == clone_newns
        then pure (nsfd, others)
        else pure (mntnsfd, others ++ nsfd ∷ [])

  unfoldable pub sort_fds : List ℤ → Sorted → Act k Sorted
  sort_fds [] sorted = pure sorted
  sort_fds (nsfd ∷ nsfds) sorted = do sorted' ← sort_fd nsfd sorted; sort_fds nsfds sorted'

  -- the `if` behind the loop
  unfoldable pub run_sorted : Act k (Unit {0}) → Sorted → Act k (Unit {0})
  run_sorted fn (mntnsfd, others) =
      if nonnegative mntnsfd then go_separate k fn mntnsfd others else go_in_and_out k fn others

  -- `Execute`
  unfoldable pub execute : Act k (Unit {0}) → ℤ → List ℤ → Act k (Unit {0})
  execute fn nsfd nsfds = do sorted ← sort_fds (nsfd ∷ nsfds) (negsuc 0, []); run_sorted fn sorted
