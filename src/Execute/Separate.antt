-- ===== src/Execute/Separate.antt =====
-- `goSeparate` (execute.go): run on a thread of its own, attached to what the caller's thread is
-- attached to but for the namespaces given. A panic there is raised again on the caller's side.
pub mod Spaces
pub mod Enter
pub mod Pickups
pub mod Runs
pub mod Waits
pub mod Promises
pub mod Returns
use spacetest.Base.{
  ℕ, ℤ, nonnegative, ◌<>◌, not, List, [], ◌∷◌, ◌++◌, ◌==◌, pure, deferring, expecting, when,
  for_each, ◌>>=◌, ◌>>◌, if◌then◌else◌,
}
use spacetest.Spaces.{
  name, clone_fs, clone_newns, clone_newcgroup, clone_newipc, clone_newnet, clone_newpid,
  clone_newtime, clone_newuts,
}
use spacetest.Kernel.{Kernel}
use spacetest.Kernel.Calls.{
  Act, self_path, close, set_ns, unshare, lock_os_thread, unlock_os_thread, go_routine,
}
use spacetest.Space.{type_of_fd, ino_of_fd, ino_of_path, current}

-- `pickupTypes` at first
abbrev pub all_pickups : List ℕ
all_pickups =
    clone_newcgroup ∷ clone_newipc ∷ clone_newnet ∷ clone_newpid ∷ clone_newtime ∷ clone_newuts ∷ []

-- `slices.DeleteFunc(types, func(e int) bool { return e == typ })`
unfoldable pub delete_type : ℕ → List ℕ → List ℕ
delete_type typ [] = []
delete_type typ (e ∷ types) =
    let rest = delete_type typ types in if e == typ then rest else e ∷ rest

module _ (k : Kernel) where
  unfoldable pub delete_types : List ℤ → List ℕ → Act k (List ℕ)
  delete_types [] types = pure types
  delete_types (nsfd ∷ nsfds) types = do
    typ ← type_of_fd k nsfd
    delete_types nsfds (delete_type typ types)

  unfoldable pub pick_up : List ℕ → List ℤ → Act k (List ℤ)
  pick_up [] fds = pure fds
  pick_up (typ ∷ types) fds = do fd ← current k typ; pick_up types (fds ++ fd ∷ [])

  -- one round of the loop on the separate thread
  unfoldable pub enter : ℤ → Act k (Unit {0})
  enter nsfd = do
    typ ← type_of_fd k nsfd
    ino ← ino_of_fd k nsfd typ
    here ← ino_of_path k (self_path typ) typ
    when (not (ino == here)) (expecting (set_ns k nsfd 0) ("cannot switch into " <> name typ))

  unfoldable pub enter_mnt : ℤ → Act k (Unit {0})
  enter_mnt mntnsfd = do
    expecting (unshare k clone_fs) "cannot unshare file attributes"
    expecting (set_ns k mntnsfd clone_newns) "cannot switch into mnt namespace"

  -- the separate go routine
  unfoldable pub separate : Act k (Unit {0}) → ℤ → List ℤ → List ℤ → Act k (Unit {0})
  separate fn mntnsfd othernsfds pickupfds = deferring (for_each pickupfds (close k)) (do
    lock_os_thread k
    when (nonnegative mntnsfd) (enter_mnt mntnsfd)
    for_each (othernsfds ++ pickupfds) enter
    fn)

  -- `goSeparate`
  unfoldable pub go_separate : Act k (Unit {0}) → ℤ → List ℤ → Act k (Unit {0})
  go_separate fn mntnsfd othernsfds = do
    lock_os_thread k
    deferring (unlock_os_thread k) (do
      pickups ← delete_types othernsfds all_pickups
      pickupfds ← pick_up pickups []
      go_routine k (separate fn mntnsfd othernsfds pickupfds))
