-- ===== src/Kernel/Table.antt =====
-- How each call of the kernel changes the table of open descriptors, as rules for `Post`.
use spacetest.Base.{
  ℕ, ℤ, String, Bool, true, false, Outcome, ok, err, ◌≡◌, ◌∙◌, fun_ext, nonnegative, ==ℤ_iff, arith,
  ap, sym,
}
use spacetest.Base.Post.{Post, returns, fails}
use spacetest.Kernel.{Kernel, State}
use spacetest.Kernel.Calls.{
  open_ro, close, set_ns, unshare, mount, lock_os_thread, go_routine, file_conn, dup, pidfd_open,
  is_unix, socketpair,
}
use spacetest.Kernel.Laws.{IsLinux, Opened, with_fd, without_fd, OpenedPair}

pub without_fd-with_fd : (fd : ℤ) (f : ℤ → Bool) → f fd ≡ false → without_fd fd (with_fd fd f) ≡ f
without_fd-with_fd fd f h = fun_ext λ j. ground (arith, ==ℤ_iff j fd)

-- Closing the older of two descriptors leaves the other.
pub without_fd-with_fd-with_fd :
    (a b : ℤ) (f : ℤ → Bool)
    → f a ≡ false
    → with_fd a f b ≡ false
    → without_fd a (with_fd b (with_fd a f)) ≡ with_fd b f
without_fd-with_fd-with_fd a b f ha hb =
    fun_ext λ j. ground (arith, ==ℤ_iff j a, ==ℤ_iff j b, ==ℤ_iff b a)

-- A descriptor that is new beside another is new.
pub with_fd-fresh : (a b : ℤ) (f : ℤ → Bool) → with_fd a f b ≡ false → f b ≡ false
with_fd-fresh a b f h = ground arith

module _ (k : Kernel) where
  -- The open descriptors are those of `f`.
  abbrev pub Has : (ℤ → Bool) → State k → Type 0
  Has f s = k.fds s.world ≡ f

  -- A descriptor that was not open before the call is open now.
  abbrev pub Gains : (ℤ → Bool) → ℤ → State k → Type 0
  Gains f fd s = (nonnegative fd ≡ true) × (f fd ≡ false) × Has (with_fd fd f) s

  pub Post-either :
      {A : Type 0} {P : State k → Type 0} (r : Outcome A) (s : State k)
      → P s
      → Post (λ _. P) P (r, s)
  Post-either (ok a) s h = returns h
  Post-either (err e) s h = fails h

module _ {k : Kernel} (linux : IsLinux k) {f : ℤ → Bool} (s : State k) (h : Has k f s) where
  pub open_ro-Post : (path : String) → Post (Gains k f) (Has k f) (open_ro k path s)
  unfolding open_ro
  open_ro-Post path = go (k.open_path s.thread path s.world) (linux.open_law _ path _)
    where
      go :
          (r : Outcome ℤ × k.World)
          → Opened k s.world r
          → Post (Gains k f) (Has k f) (r.0, record s { world = r.1 })
      go (ok fd, w) (n, fresh, e) = returns (n, rw h at fresh, rw h at e)
      go (err m, w) e = fails (e ∙ h)

  pub close-Post :
      (fd : ℤ) {E : State k → Type 0} → Post (λ _. Has k (without_fd fd f)) E (close k fd s)
  unfolding close
  close-Post fd = returns (rw (linux.close_law, h))

  pub set_ns-Post : (fd : ℤ) (typ : ℕ) → Post (λ _. Has k f) (Has k f) (set_ns k fd typ s)
  unfolding set_ns
  set_ns-Post fd typ = Post-either k _ _ (linux.setns_fds _ fd typ _ ∙ h)

  pub unshare-Post : (flags : ℕ) → Post (λ _. Has k f) (Has k f) (unshare k flags s)
  unfolding unshare
  unshare-Post flags = Post-either k _ _ (linux.unshare_fds _ flags _ ∙ h)

  pub mount-Post :
      (a b c : String) (flags : ℕ) → Post (λ _. Has k f) (Has k f) (mount k a b c flags s)
  unfolding mount
  mount-Post a b c flags = Post-either k _ _ (linux.mount_fds _ a b c flags _ ∙ h)

  pub lock-Post : {E : State k → Type 0} → Post (λ _. Has k f) E (lock_os_thread k s)
  unfolding lock_os_thread
  lock-Post = returns h

-- A body on a go routine of its own: what it leaves in the world is what the caller finds.
pub go_routine-Post :
    {k : Kernel} (linux : IsLinux k) {A : Type 0} (Q : A → k.World → Type 0) (P : k.World → Type 0)
    {f : ℤ → Bool} (m : State k → Outcome A × State k) (s : State k)
    → Has k f s
    → ((s' : State k) → Has k f s' → Post (λ a t. Q a t.world) (λ t. P t.world) (m s'))
    → Post (λ a t. Q a t.world) (λ t. P t.world) (go_routine k m s)
unfolding go_routine
go_routine-Post {k} linux {A} Q P m s h body = go (m _) (body _ (linux.spawn_fds _ _ _ ∙ h))
  where
    go :
        (r : Outcome A × State k)
        → Post (λ a t. Q a t.world) (λ t. P t.world) r
        → Post
            (λ a t. Q a t.world)
            (λ t. P t.world)
            (r.0, record (r.1) { thread = s.thread; locks = s.locks })
    go _ (returns q) = returns q
    go _ (fails p) = fails p

-- Of two descriptors, each is new beside the other.
pub with_fd-swap :
    (x y : ℤ) (g : ℤ → Bool) → g x ≡ false → with_fd x g y ≡ false → with_fd y g x ≡ false
with_fd-swap x y g gx gy = ground (arith, ==ℤ_iff x y, ==ℤ_iff y x)

pub with_fd_comm : (a b : ℤ) (f : ℤ → Bool) → with_fd a (with_fd b f) ≡ with_fd b (with_fd a f)
with_fd_comm a b f = fun_ext λ j. ground arith

module _ (k : Kernel) where
  -- Two descriptors that were not open before the call are open now.
  abbrev pub GainsPair : (ℤ → Bool) → ℤ × ℤ → State k → Type 0
  GainsPair f (a, b) s =
      (nonnegative a ≡ true)
      × (nonnegative b ≡ true)
      × (f a ≡ false)
      × (with_fd a f b ≡ false)
      × Has k (with_fd b (with_fd a f)) s

module _ {k : Kernel} (linux : IsLinux k) {f : ℤ → Bool} (s : State k) (h : Has k f s) where
  Opened-Post :
      (r : Outcome ℤ × k.World)
      → Opened k s.world r
      → Post (Gains k f) (Has k f) (r.0, record s { world = r.1 })
  Opened-Post (ok fd, w) (n, fresh, e) =
      returns (n, ap (λ t. t fd) (sym h) ∙ fresh, e ∙ ap (with_fd fd) h)
  Opened-Post (err m, w) e = fails (e ∙ h)

  pub file_conn-Post : (fd : ℤ) → Post (Gains k f) (Has k f) (file_conn k fd s)
  unfolding file_conn
  file_conn-Post fd = Opened-Post _ (linux.file_conn_law fd s.world)

  pub dup-Post : (fd : ℤ) → Post (Gains k f) (Has k f) (dup k fd s)
  unfolding dup
  dup-Post fd = Opened-Post _ (linux.dup_law fd s.world)

  pub pidfd_open-Post : (pid : ℕ) → Post (Gains k f) (Has k f) (pidfd_open k pid s)
  unfolding pidfd_open
  pidfd_open-Post pid = Opened-Post _ (linux.pidfd_open_law pid s.world)

  pub is_unix-Post : (conn : ℤ) {E : State k → Type 0} → Post (λ _. Has k f) E (is_unix k conn s)
  unfolding is_unix
  is_unix-Post conn = returns h

  pub socketpair-Post : Post (GainsPair k f) (Has k f) (socketpair k s)
  unfolding socketpair
  socketpair-Post = go (k.socketpair s.world) (linux.socketpair_law s.world)
    where
      go :
          (r : Outcome (ℤ × ℤ) × k.World)
          → OpenedPair k s.world r
          → Post (GainsPair k f) (Has k f) (r.0, record s { world = r.1 })
      go (ok (a, b), w) (na, nb, fa, fb, e) = returns (
        na,
        nb,
        ap (λ t. t a) (sym h) ∙ fa,
        ap (λ t. with_fd a t b) (sym h) ∙ fb,
        e ∙ ap (λ t. with_fd b (with_fd a t)) h,
      )
      go (err m, w) e = fails (e ∙ h)
