-- ===== src/Kernel/Calls.antt =====
-- The calls of the kernel and of the Go runtime, as effects on a go routine's state.
use spacetest.Base.{ℕ, suc, ◌-◌, ℤ, String, ◌<>◌, ◌∷◌, ok, Sys, ltb, Bool}
use spacetest.Spaces.{name}
use spacetest.Base.{List}
use spacetest.Kernel.{Output, Kernel, State}

-- "/proc/thread-self/ns/" + Name(typ)
abbrev pub self_path : ℕ → String
self_path typ = "/proc/thread-self/ns/" <> name typ

module _ (k : Kernel) where
  abbrev pub Act : Type 0 → Type 0
  Act A = Sys (State k) A

  unfoldable pub open_ro : String → Act ℤ
  open_ro path s = let (r, w) = k.open_path s.thread path s.world in (r, record s { world = w })

  unfoldable pub close : ℤ → Act (Unit {0})
  close fd s = (ok tt, record s { world = k.close_fd fd s.world })

  unfoldable pub set_ns : ℤ → ℕ → Act (Unit {0})
  set_ns fd typ s = let (r, w) = k.setns s.thread fd typ s.world in (r, record s { world = w })

  unfoldable pub unshare : ℕ → Act (Unit {0})
  unshare flags s = let (r, w) = k.unshare s.thread flags s.world in (r, record s { world = w })

  unfoldable pub mount : String → String → String → ℕ → Act (Unit {0})
  mount source target fstype flags s =
      let (r, w) = k.mount s.thread source target fstype flags s.world in
      (r, record s { world = w })

  unfoldable pub get_nstype : ℤ → Act ℕ
  get_nstype fd s = (k.nstype fd s.world, s)

  -- runtime.LockOSThread, runtime.UnlockOSThread
  unfoldable pub lock_os_thread : Act (Unit {0})
  lock_os_thread s = (ok tt, record s { locks = suc s.locks })

  unfoldable pub unlock_os_thread : Act (Unit {0})
  unlock_os_thread s = (ok tt, record s { locks = s.locks - 1 })

  -- DeferCleanup(func() { _ = unix.Close(fd) })
  unfoldable pub close_at_end : ℤ → Act (Unit {0})
  close_at_end fd s = (ok tt, record s { cleanups = fd ∷ s.cleanups })

  -- A body that runs to its end on a go routine of its own while the caller waits for it.
  unfoldable pub go_routine : {A : Type 0} → Act A → Act A
  go_routine m s =
      let (t, w) = k.spawn s.thread (ltb 0 s.locks) s.world in
      let (r, s') = m (record s { world = w; thread = t; locks = 0 }) in
      (r, record s' { thread = s.thread; locks = s.locks })

  -- gettid(2)
  unfoldable pub own_thread : Act ℕ
  own_thread s = (ok s.thread, s)

  unfoldable pub stat_fd : ℤ → Act ℕ
  stat_fd fd s = (k.fstat fd s.world, s)

  unfoldable pub stat_path : String → Act ℕ
  stat_path path s = (k.stat s.thread path s.world, s)

  unfoldable pub socketpair : Act (ℤ × ℤ)
  socketpair s = let (r, w) = k.socketpair s.world in (r, record s { world = w })

  unfoldable pub file_conn : ℤ → Act ℤ
  file_conn fd s = let (r, w) = k.file_conn fd s.world in (r, record s { world = w })

  unfoldable pub is_unix : ℤ → Act Bool
  is_unix conn s = (ok (k.is_unix conn s.world), s)

  unfoldable pub dup : ℤ → Act ℤ
  dup fd s = let (r, w) = k.dup fd s.world in (r, record s { world = w })

  unfoldable pub pidfd_open : ℕ → Act ℤ
  pidfd_open pid s = let (r, w) = k.pidfd_open pid s.world in (r, record s { world = w })

  unfoldable pub start : String → ℕ → Bool → Output → Output → ℤ → Act (ℕ × List ℤ)
  start path flags mapped stdout stderr fd s =
      let (r, w) = k.start s.thread path flags mapped stdout stderr fd s.world in
      (r, record s { world = w })
