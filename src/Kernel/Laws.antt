-- ===== src/Kernel/Laws.antt =====
-- What the code relies on of the kernel, from the manual pages of open(2), close(2), setns(2),
-- unshare(2), ioctl_nsfs(2) and from the documentation of the Go runtime and of package os/exec.
use spacetest.Base.{
  ℕ, ℤ, String, Bool, true, false, Outcome, ok, err, ◌≡◌, nonnegative, ◌==ℤ◌, if◌then◌else◌, ◌==◌,
  ◌||◌, ◌≢◌, ◌⊎◌, inl, inr, subst, sym, arith, bit_or,
}
use spacetest.Spaces.{
  clone_newcgroup, clone_newipc, clone_newns, clone_newnet, clone_newuts, clone_newpid,
  clone_newtime, clone_fs,
}
use spacetest.Base.{List, All, contains}
use spacetest.Kernel.{Kernel, Output}
use spacetest.Kernel.Calls.{self_path}

-- A table of descriptors with one more, and with one less.
abbrev pub with_fd : ℤ → (ℤ → Bool) → ℤ → Bool
with_fd fd table j = if j ==ℤ fd then true else table j

abbrev pub without_fd : ℤ → (ℤ → Bool) → ℤ → Bool
without_fd fd table j = if j ==ℤ fd then false else table j

-- The types of namespaces into which setns(2) and unshare(2) move the calling thread itself. (For
-- PID and time namespaces they act on its later children, and for user namespaces they refuse a
-- process of several threads.)
abbrev pub moves_thread : ℕ → Bool
moves_thread typ =
    typ == clone_newcgroup
    || typ == clone_newipc
    || typ == clone_newns
    || typ == clone_newnet
    || typ == clone_newuts

-- The types of which setns(2) and unshare(2) leave the calling thread itself where it is, while its
-- link under /proc shows the namespace that it is in.
abbrev pub stays_thread : ℕ → Bool
stays_thread typ = typ == clone_newpid || typ == clone_newtime

-- The types of which a thread of a Go program can show its namespace.
abbrev pub shown : ℕ → Bool
shown typ = moves_thread typ || stays_thread typ

pub moves_thread-cases :
    (typ : ℕ)
    → moves_thread typ ≡ true
    → (typ ≡ clone_newcgroup)
      ⊎ (typ ≡ clone_newipc)
      ⊎ (typ ≡ clone_newns)
      ⊎ (typ ≡ clone_newnet)
      ⊎ (typ ≡ clone_newuts)
moves_thread-cases typ m = ground arith

pub stays_thread-cases :
    (typ : ℕ) → stays_thread typ ≡ true → (typ ≡ clone_newpid) ⊎ (typ ≡ clone_newtime)
stays_thread-cases typ s = ground arith

-- What holds of each of the five holds of every type that moves a thread.
pub moves_thread_all :
    (P : ℕ → Type 0)
    → P clone_newcgroup
    → P clone_newipc
    → P clone_newns
    → P clone_newnet
    → P clone_newuts
    → (typ : ℕ) → moves_thread typ ≡ true
    → P typ
moves_thread_all P a b c d e typ m = elim (moves_thread-cases typ m) [
  | inl p ↦ subst P (sym p) a
  | inr (inl p) ↦ subst P (sym p) b
  | inr (inr (inl p)) ↦ subst P (sym p) c
  | inr (inr (inr (inl p))) ↦ subst P (sym p) d
  | inr (inr (inr (inr p))) ↦ subst P (sym p) e
]

-- The namespaces of a thread, by type, with one replaced.
abbrev pub put : ℕ → ℕ → (ℕ → ℕ) → ℕ → ℕ
put typ ns a x = if x == typ then ns else a x

module _ (k : Kernel) where
  -- open(2) gives a descriptor that was not in use, or changes nothing.
  abbrev pub Opened : k.World → Outcome ℤ × k.World → Type 0
  Opened w (ok fd, w') =
      (nonnegative fd ≡ true) × (k.fds w fd ≡ false) × (k.fds w' ≡ with_fd fd (k.fds w))
  Opened w (err e, w') = k.fds w' ≡ k.fds w

  -- The two ends of a socket pair are new, and different.
  abbrev pub OpenedPair : k.World → Outcome (ℤ × ℤ) × k.World → Type 0
  OpenedPair w (ok (a, b), w') =
      (nonnegative a ≡ true)
      × (nonnegative b ≡ true)
      × (k.fds w a ≡ false)
      × (with_fd a (k.fds w) b ≡ false)
      × (k.fds w' ≡ with_fd b (with_fd a (k.fds w)))
  OpenedPair w (err e, w') = k.fds w' ≡ k.fds w

  -- Start opens what os/exec keeps for the child, all of it new, or changes nothing.
  abbrev pub Launched : k.World → Outcome (ℕ × List ℤ) × k.World → Type 0
  Launched w (ok (pid, kept), w') =
      All (λ c. k.fds w c ≡ false) kept × (k.fds w' ≡ λ j. contains j kept || k.fds w j)
  Launched w (err e, w') = k.fds w' ≡ k.fds w

  -- setns(2) attaches the thread to the namespace that the descriptor references.
  abbrev pub Entered : ℕ → ℤ → k.World → Outcome (Unit {0}) × k.World → Type 0
  Entered t fd w (ok _, w') =
      let (typ, ns) = k.refers w fd in
      moves_thread typ ≡ true → k.attached w' t ≡ put typ ns (k.attached w t)
  Entered t fd w (err e, w') = k.attached w' t ≡ k.attached w t

  -- unshare(2) attaches the thread to a namespace that no thread was attached to.
  abbrev pub Unshared : ℕ → ℕ → k.World → Outcome (Unit {0}) × k.World → Type 0
  Unshared t typ w (ok _, w') =
      (ns : ℕ) × ((t' : ℕ) → k.attached w t' typ ≢ ns)
      × (k.attached w' t ≡ put typ ns (k.attached w t))
  Unshared t typ w (err e, w') = k.attached w' t ≡ k.attached w t

  pub record IsLinux : Type 0 where
    -- the table of descriptors
    pub open_law : (t : ℕ) (p : String) (w : k.World) → Opened w (k.open_path t p w)
    pub close_law : (fd : ℤ) (w : k.World) → k.fds (k.close_fd fd w) ≡ without_fd fd (k.fds w)
    pub setns_fds :
        (t : ℕ) (fd : ℤ) (typ : ℕ) (w : k.World) → k.fds (k.setns t fd typ w).1 ≡ k.fds w
    pub unshare_fds : (t flags : ℕ) (w : k.World) → k.fds (k.unshare t flags w).1 ≡ k.fds w
    pub mount_fds :
        (t : ℕ) (a b c : String) (flags : ℕ) (w : k.World)
        → k.fds (k.mount t a b c flags w).1 ≡ k.fds w
    pub spawn_fds : (t : ℕ) (locked : Bool) (w : k.World) → k.fds (k.spawn t locked w).1 ≡ k.fds w
    pub socketpair_law : (w : k.World) → OpenedPair w (k.socketpair w)
    pub file_conn_law : (fd : ℤ) (w : k.World) → Opened w (k.file_conn fd w)
    pub dup_law : (fd : ℤ) (w : k.World) → Opened w (k.dup fd w)
    pub pidfd_open_law : (pid : ℕ) (w : k.World) → Opened w (k.pidfd_open pid w)
    pub start_law :
        (t : ℕ) (path : String) (flags : ℕ) (mapped : Bool) (stdout stderr : Output) (fd : ℤ)
        (w : k.World)
        → Launched w (k.start t path flags mapped stdout stderr fd w)
    -- what a descriptor references: fixed while it is open
    pub open_refers :
        (t : ℕ) (p : String) (w : k.World) (j : ℤ)
        → k.fds w j ≡ true
        → k.refers (k.open_path t p w).1 j ≡ k.refers w j
    pub open_self :
        (t typ : ℕ) (w : k.World) (fd : ℤ)
        → moves_thread typ ≡ true
        → (k.open_path t (self_path typ) w).0 ≡ ok fd
        → k.refers (k.open_path t (self_path typ) w).1 fd ≡ (typ, k.attached w t typ)
    pub close_refers :
        (fd : ℤ) (w : k.World) (j : ℤ)
        → (j ==ℤ fd) ≡ false
        → k.refers (k.close_fd fd w) j ≡ k.refers w j
    pub setns_refers :
        (t : ℕ) (fd : ℤ) (typ : ℕ) (w : k.World) → k.refers (k.setns t fd typ w).1 ≡ k.refers w
    pub nstype_law :
        (fd : ℤ) (w : k.World) (typ : ℕ) → k.nstype fd w ≡ ok typ → (k.refers w fd).0 ≡ typ
    -- the inode number of a namespace, from its descriptor and from the thread's own link
    pub fstat_law :
        (fd : ℤ) (w : k.World) (typ ino : ℕ)
        → k.nstype fd w ≡ ok typ
        → k.fstat fd w ≡ ok ino
        → (k.refers w fd).1 ≡ ino
    pub stat_law :
        (t typ : ℕ) (w : k.World) (ino : ℕ)
        → shown typ ≡ true
        → k.stat t (self_path typ) w ≡ ok ino
        → k.attached w t typ ≡ ino
    -- a new go routine does not run on the thread that its caller is locked to
    pub spawn_other : (t : ℕ) (w : k.World) → (k.spawn t true w).0 ≢ t
    -- what a thread is attached to
    pub open_attached :
        (t : ℕ) (p : String) (w : k.World) → k.attached (k.open_path t p w).1 ≡ k.attached w
    pub close_attached : (fd : ℤ) (w : k.World) → k.attached (k.close_fd fd w) ≡ k.attached w
    pub setns_law : (t : ℕ) (fd : ℤ) (typ : ℕ) (w : k.World) → Entered t fd w (k.setns t fd typ w)
    pub unshare_law :
        (t typ : ℕ) (w : k.World) → moves_thread typ ≡ true → Unshared t typ w (k.unshare t typ w)
    -- what stays: the other threads, and the PID and time namespaces (and the file system attributes)
    -- of the calling thread, which only its children get anew
    pub setns_others :
        (t : ℕ) (fd : ℤ) (typ : ℕ) (w : k.World) (t' : ℕ)
        → t' ≢ t
        → k.attached (k.setns t fd typ w).1 t' ≡ k.attached w t'
    pub setns_still :
        (t : ℕ) (fd : ℤ) (typ : ℕ) (w : k.World)
        → stays_thread (k.refers w fd).0 ≡ true
        → k.attached (k.setns t fd typ w).1 t ≡ k.attached w t
    pub unshare_others :
        (t flags : ℕ) (w : k.World) (t' : ℕ)
        → t' ≢ t
        → k.attached (k.unshare t flags w).1 t' ≡ k.attached w t'
    pub unshare_time :
        (t : ℕ) (w : k.World) → k.attached (k.unshare t clone_newtime w).1 t ≡ k.attached w t
    pub unshare_fs :
        (t : ℕ) (w : k.World) → k.attached (k.unshare t clone_fs w).1 t ≡ k.attached w t
    pub unshare_fs_newns :
        (t : ℕ) (w : k.World)
        → Unshared t clone_newns w (k.unshare t (bit_or clone_fs clone_newns) w)
    pub open_still :
        (t typ : ℕ) (w : k.World) (fd : ℤ)
        → stays_thread typ ≡ true
        → (k.open_path t (self_path typ) w).0 ≡ ok fd
        → k.refers (k.open_path t (self_path typ) w).1 fd ≡ (typ, k.attached w t typ)
    pub mount_attached :
        (t : ℕ) (a b c : String) (flags : ℕ) (w : k.World)
        → k.attached (k.mount t a b c flags w).1 ≡ k.attached w
    pub mount_refers :
        (t : ℕ) (a b c : String) (flags : ℕ) (w : k.World)
        → k.refers (k.mount t a b c flags w).1 ≡ k.refers w
    pub spawn_attached :
        (t : ℕ) (locked : Bool) (w : k.World) → k.attached (k.spawn t locked w).1 ≡ k.attached w
    pub spawn_refers :
        (t : ℕ) (locked : Bool) (w : k.World) → k.refers (k.spawn t locked w).1 ≡ k.refers w
    pub unshare_refers : (t flags : ℕ) (w : k.World) → k.refers (k.unshare t flags w).1 ≡ k.refers w
