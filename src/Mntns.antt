-- ===== src/Mntns.antt =====
-- Mount namespaces (mntns).
pub mod Sysfs
pub mod Restores
pub mod Idles
use spacetest.Base.{
  ℕ, ℤ, pos, ◌==ℤ◌, String, ◌<>◌, [], ◌==◌, not, Outcome, ok, err, pure, raise, attempt, expecting,
  expect, bit_or, ◌>>=◌, ◌>>◌,
}
use spacetest.Spaces.{clone_newns, clone_fs}
use spacetest.Kernel.{Kernel}
use spacetest.Service.Subspace.{decimal}
use spacetest.Kernel.Calls.{
  own_thread, go_routine, Act, open_ro, close, set_ns, unshare, mount, lock_os_thread,
}
use spacetest.Service.NewNamespace.{ms_rec, ms_private}
use spacetest.Space
use spacetest.Execute

-- unix.MS_RDONLY|unix.MS_NODEV|unix.MS_NOEXEC|unix.MS_NOSUID|unix.MS_RELATIME
abbrev pub sysfs_flags : ℕ
sysfs_flags = bit_or 0x1 (bit_or 0x4 (bit_or 0x8 (bit_or 0x2 0x20_0000)))

-- what comes out of the channel of `NewTransient`: the zero value after it was closed without
abbrev pub idler_details : Outcome (ℤ × ℕ) → ℤ × ℕ
idler_details (ok details) = details
idler_details (err e) = (pos 0, 0)

module _ (k : Kernel) where
  -- `Execute`
  unfoldable pub execute : ℤ → Act k (Unit {0}) → Act k (Unit {0})
  execute mntnsfd fn = Execute.execute k fn mntnsfd []

  -- `Current`
  unfoldable pub current : Act k ℤ
  current = Space.current k clone_newns

  -- `Ino` of a descriptor, and of a path
  unfoldable pub ino_of_fd : ℤ → Act k ℕ
  ino_of_fd mntns = Space.ino_of_fd k mntns clone_newns

  unfoldable pub ino_of_path : String → Act k ℕ
  ino_of_path mntns = Space.ino_of_path k mntns clone_newns

  -- `CurrentIno`
  unfoldable pub current_ino : Act k ℕ
  current_ino = ino_of_path "/proc/thread-self/ns/mnt"

  -- `EnterTransient`. Of the function that it returns, this is the descriptor that it holds.
  unfoldable pub enter_transient : Act k ℤ
  enter_transient = do
    lock_os_thread k
    callers ←
        expecting (open_ro k "/proc/thread-self/ns/mnt")
          "cannot determine current mount namespace from procfs"
    expecting (unshare k (bit_or clone_fs clone_newns)) "cannot create new mount namespace"
    expecting (mount k "none" "/" "/" (bit_or ms_rec ms_private))
        "cannot change / mount propagation to private"
    pure callers

  -- the function that `EnterTransient` returns; the thread stays locked
  unfoldable pub leave_transient : ℤ → Act k (Unit {0})
  leave_transient callers = do
    r ← attempt (set_ns k callers 0)
    elim r [
      | err e ↦ raise ("cannot restore original mount namespace, reason: " <> e)
      | ok _ ↦ close k callers
    ]

  -- the go routine of `NewTransient` until it idles: its mount namespace and its thread
  unfoldable pub idle : Act k (ℤ × ℕ)
  idle = do
    lock_os_thread k
    expecting (unshare k (bit_or clone_fs clone_newns)) "cannot create new mount namespace"
    expecting (mount k "none" "/" "/" (bit_or ms_rec ms_private))
        "cannot change / mount propagation to private"
    mntnsfd ← current
    tid ← own_thread k
    pure (mntnsfd, tid)

  -- `NewTransient`
  unfoldable pub new_transient : Act k (ℤ × String)
  new_transient = do
    r ← attempt (go_routine k idle)
    let (mntnsfd, tid) = idler_details r
    expect (not (mntnsfd ==ℤ pos 0)) "Expected not to be zero-valued"
    pure (mntnsfd, "/proc/" <> (decimal tid <> "/root"))

  -- `MountSysfsRO`
  unfoldable pub mount_sysfs_ro : Act k (Unit {0})
  mount_sysfs_ro = do
    current ← current_ino
    original ← ino_of_path "/proc/self/ns/mnt"
    expect (not (current == original))
        "current mount namespace must not be the process's original mount namespace"
    expecting (mount k "none" "/sys" "sysfs" sysfs_flags) "cannot mount new sysfs instance on /sys"
