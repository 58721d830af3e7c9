-- ===== src/Kernel/Place/Rules.antt =====
-- One rule for each call that moves the code from a place to another.
use spacetest.Base.{
  String, bit_or, ℕ, suc, ◌-◌, ℤ, ◌∷◌, true, false, Outcome, ok, err, ◌≡◌, ◌≢◌, refl, sym, ap,
  subst, ◌∙◌, nonnegative, ◌==ℤ◌, ==ℤ_iff, arith, Bool-cases, inl, inr,
}
use spacetest.Base.Post.{Post, returns, fails, mono}
use spacetest.Kernel.{Kernel, State}
use spacetest.Kernel.Calls.{
  self_path, open_ro, close, set_ns, unshare, lock_os_thread, unlock_os_thread, close_at_end, mount,
}
use spacetest.Kernel.Laws.{
  IsLinux, Opened, Entered, Unshared, with_fd, without_fd, moves_thread, stays_thread, shown, put,
}
use spacetest.Spaces.{clone_newtime, clone_fs, clone_newns}
use spacetest.Kernel.Table.{Post-either}
use spacetest.Kernel.Place.{Place, Stands, opened_as, opened, moved, shut_fd}

module _ {k : Kernel} (linux : IsLinux k) (p : Place) (s : State k) (h : Stands k p s) where
  pub lock-Stands :
      {E : State k → Type 0}
      → Post (λ _. Stands k (record p { locks = suc p.locks })) E (lock_os_thread k s)
  unfolding lock_os_thread
  lock-Stands = returns (record {
    thread = h.thread;
    locks = ap suc h.locks;
    cleanups = h.cleanups;
    others = h.others;
    fds = h.fds;
    refers = h.refers;
    attached = h.attached;
  })

  pub unlock-Stands :
      {E : State k → Type 0}
      → Post (λ _. Stands k (record p { locks = p.locks - 1 })) E (unlock_os_thread k s)
  unfolding unlock_os_thread
  unlock-Stands = returns (record {
    thread = h.thread;
    locks = ap (λ n. n - 1) h.locks;
    cleanups = h.cleanups;
    others = h.others;
    fds = h.fds;
    refers = h.refers;
    attached = h.attached;
  })

  pub close_at_end-Stands :
      (fd : ℤ) {E : State k → Type 0}
      → Post (λ _. Stands k (record p { cleanups = fd ∷ p.cleanups })) E (close_at_end k fd s)
  unfolding close_at_end
  close_at_end-Stands fd = returns (record {
    thread = h.thread;
    locks = h.locks;
    fds = h.fds;
    refers = h.refers;
    attached = h.attached;
    cleanups = ap (λ t. fd ∷ t) h.cleanups;
    others = h.others;
  })

  pub close-Stands :
      (fd : ℤ) {E : State k → Type 0} → Post (λ _. Stands k (shut_fd fd p)) E (close k fd s)
  unfolding close
  close-Stands fd = returns (record {
    thread = h.thread;
    locks = h.locks;
    cleanups = h.cleanups;
    fds = linux.close_law fd s.world ∙ ap (without_fd fd) h.fds;
    refers = λ j o.
        linux.close_refers fd s.world j (ground (arith, ==ℤ_iff j fd)) ∙ h.refers j (ground arith);
    attached = ap (λ t. t p.thread) (linux.close_attached fd s.world) ∙ h.attached;
    others = λ t n. ap (λ a. a t) (linux.close_attached fd s.world) ∙ h.others t n;
  })

  -- Opening a path, of which something is known about what its descriptor references.
  pub open_path-Stands :
      (path : String) (R : ℕ × ℕ → Type 0)
      → ((fd : ℤ)
          → (k.open_path s.thread path s.world).0 ≡ ok fd
          → R (k.refers (k.open_path s.thread path s.world).1 fd))
      → Post
          (λ fd s'.
            (nonnegative fd ≡ true)
            × (p.table fd ≡ false)
            × (r : ℕ × ℕ) × R r
            × Stands k (opened_as fd r p) s')
          (Stands k p)
          (open_ro k path s)
  unfolding open_ro
  open_path-Stands path R known =
      go (k.open_path s.thread path s.world) (linux.open_law _ _ _) (linux.open_refers _ _ _) known
        (linux.open_attached _ _ _)
    where
      go :
          (r : Outcome ℤ × k.World)
          → Opened k s.world r
          → ((j : ℤ) → k.fds s.world j ≡ true → k.refers r.1 j ≡ k.refers s.world j)
          → ((fd : ℤ) → r.0 ≡ ok fd → R (k.refers r.1 fd))
          → k.attached r.1 ≡ k.attached s.world
          → Post
              (λ fd s'.
                (nonnegative fd ≡ true)
                × (p.table fd ≡ false)
                × (r : ℕ × ℕ) × R r
                × Stands k (opened_as fd r p) s')
              (Stands k p)
              (r.0, record s { world = r.1 })
      go (ok fd, w) (n, fresh, e) kept known same = returns (
        n,
        ap (λ t. t fd) (sym h.fds) ∙ fresh,
        k.refers w fd,
        known fd refl,
        record {
          thread = h.thread;
          locks = h.locks;
          cleanups = h.cleanups;
          fds = e ∙ ap (with_fd fd) h.fds;
          refers = λ j o. elim (Bool-cases (j ==ℤ fd)) [
            | inl e' ↦ rw e' (ap (k.refers w) (ground (arith, ==ℤ_iff j fd)))
            | inr n' ↦
                let older : p.table j ≡ true = ground arith in
                rw n' (kept j (ap (λ t. t j) h.fds ∙ older) ∙ h.refers j older)
          ];
          attached = ap (λ t. t p.thread) same ∙ h.attached;
          others = λ t n. ap (λ a. a t) same ∙ h.others t n;
        },
      )
      go (err m, w) e kept known same = fails (record {
        thread = h.thread;
        locks = h.locks;
        cleanups = h.cleanups;
        fds = e ∙ h.fds;
        refers = λ j o. kept j (ap (λ t. t j) h.fds ∙ o) ∙ h.refers j o;
        attached = ap (λ t. t p.thread) same ∙ h.attached;
        others = λ t n. ap (λ a. a t) same ∙ h.others t n;
      })

  open_link-Stands :
      (typ : ℕ)
      → ((fd : ℤ)
          → (k.open_path s.thread (self_path typ) s.world).0 ≡ ok fd
          → k.refers (k.open_path s.thread (self_path typ) s.world).1 fd
            ≡ (typ, k.attached s.world s.thread typ))
      → Post
          (λ fd s'. (nonnegative fd ≡ true) × (p.table fd ≡ false) × Stands k (opened fd typ p) s')
          (Stands k p)
          (open_ro k (self_path typ) s)
  open_link-Stands typ self =
      mono
        (open_path-Stands (self_path typ) (λ r. r ≡ (typ, p.spaces typ))
          (λ fd e.
            self fd e ∙ ap (λ a. (typ, a typ)) (ap (k.attached s.world) h.thread ∙ h.attached)))
        (λ fd s' (n, fresh, r, is, h').
          (n, fresh, subst (λ x. Stands k (opened_as fd x p) s') is h'))
        (λ _ e. e)

  pub open_shown-Stands :
      (typ : ℕ)
      → shown typ ≡ true
      → Post
          (λ fd s'. (nonnegative fd ≡ true) × (p.table fd ≡ false) × Stands k (opened fd typ p) s')
          (Stands k p)
          (open_ro k (self_path typ) s)
  open_shown-Stands typ is_shown = open_link-Stands typ λ fd. elim (Bool-cases (moves_thread typ)) [
    | inl moves ↦ linux.open_self s.thread typ s.world fd moves
    | inr stays ↦ linux.open_still s.thread typ s.world fd (ground arith)
  ]

  pub open_self-Stands :
      (typ : ℕ)
      → moves_thread typ ≡ true
      → Post
          (λ fd s'. (nonnegative fd ≡ true) × (p.table fd ≡ false) × Stands k (opened fd typ p) s')
          (Stands k p)
          (open_ro k (self_path typ) s)
  open_self-Stands typ moves =
      open_link-Stands typ (λ fd. linux.open_self s.thread typ s.world fd moves)

  pub open_time-Stands :
      Post
        (λ fd s'.
          (nonnegative fd ≡ true) × (p.table fd ≡ false) × Stands k (opened fd clone_newtime p) s')
        (Stands k p)
        (open_ro k (self_path clone_newtime) s)
  open_time-Stands =
      open_link-Stands clone_newtime (λ fd. linux.open_still s.thread clone_newtime s.world fd refl)

  -- A call that opens and closes nothing, and moves no other thread.
  moved_world :
      (w : k.World) (a : ℕ → ℕ)
      → k.fds w ≡ k.fds s.world
      → k.refers w ≡ k.refers s.world
      → ((t : ℕ) → t ≢ s.thread → k.attached w t ≡ k.attached s.world t)
      → k.attached w s.thread ≡ a
      → Stands k (record p { spaces = a }) (record s { world = w })
  moved_world w a same_fds same_refs apart own = record {
    thread = h.thread;
    locks = h.locks;
    cleanups = h.cleanups;
    fds = same_fds ∙ h.fds;
    refers = λ j o. ap (λ t. t j) same_refs ∙ h.refers j o;
    attached = ap (k.attached w) (sym h.thread) ∙ own;
    others = λ t n. apart t (λ e. n (e ∙ h.thread)) ∙ h.others t n;
  }

  own : k.attached s.world s.thread ≡ p.spaces
  own = ap (k.attached s.world) h.thread ∙ h.attached

  unshare_kept :
      (flags : ℕ)
      → k.attached (k.unshare s.thread flags s.world).1 s.thread ≡ k.attached s.world s.thread
      → Post (λ _. Stands k p) (Stands k p) (unshare k flags s)
  unfolding unshare
  unshare_kept flags same = Post-either k _ _ (
      moved_world _ p.spaces (linux.unshare_fds _ _ _) (linux.unshare_refers _ _ _)
        (linux.unshare_others _ _ _) (same ∙ own))

  pub unshare_time-Stands : Post (λ _. Stands k p) (Stands k p) (unshare k clone_newtime s)
  unshare_time-Stands = unshare_kept clone_newtime (linux.unshare_time s.thread s.world)

  pub unshare_fs-Stands : Post (λ _. Stands k p) (Stands k p) (unshare k clone_fs s)
  unshare_fs-Stands = unshare_kept clone_fs (linux.unshare_fs s.thread s.world)

  pub mount-Stands :
      (a b c : String) (flags : ℕ) → Post (λ _. Stands k p) (Stands k p) (mount k a b c flags s)
  unfolding mount
  mount-Stands a b c flags = Post-either k _ _ (
      moved_world _ p.spaces (linux.mount_fds _ a b c flags _) (linux.mount_refers _ a b c flags _)
        (λ t n. ap (λ x. x t) (linux.mount_attached _ a b c flags _))
        (ap (λ x. x s.thread) (linux.mount_attached _ a b c flags _) ∙ own))

  -- in a new namespace of a type
  abbrev Renewed : ℕ → State k → Type 0
  Renewed typ s' =
      (ns : ℕ) × ((t : ℕ) → k.attached s.world t typ ≢ ns) × Stands k (moved typ ns p) s'

  unshare_renews :
      (typ flags : ℕ)
      → Unshared k s.thread typ s.world (k.unshare s.thread flags s.world)
      → Post (λ _. Renewed typ) (Stands k p) (unshare k flags s)
  unfolding unshare
  unshare_renews typ flags law =
      go (k.unshare s.thread flags s.world) law (linux.unshare_fds _ _ _)
        (linux.unshare_refers _ _ _) (linux.unshare_others _ _ _)
    where
      go :
          (r : Outcome (Unit {0}) × k.World)
          → Unshared k s.thread typ s.world r
          → k.fds r.1 ≡ k.fds s.world
          → k.refers r.1 ≡ k.refers s.world
          → ((t : ℕ) → t ≢ s.thread → k.attached r.1 t ≡ k.attached s.world t)
          → Post (λ _. Renewed typ) (Stands k p) (r.0, record s { world = r.1 })
      go (ok _, w) (ns, fresh, e) same_fds same_refs apart =
          returns (ns, fresh, moved_world w _ same_fds same_refs apart (e ∙ ap (put typ ns) own))
      go (err m, w) e same_fds same_refs apart =
          fails (moved_world w p.spaces same_fds same_refs apart (e ∙ own))

  pub unshare-Stands :
      (typ : ℕ) → moves_thread typ ≡ true → Post (λ _. Renewed typ) (Stands k p) (unshare k typ s)
  unshare-Stands typ moves = unshare_renews typ typ (linux.unshare_law _ _ _ moves)

  pub unshare_fs_newns-Stands :
      Post (λ _. Renewed clone_newns) (Stands k p) (unshare k (bit_or clone_fs clone_newns) s)
  unshare_fs_newns-Stands = unshare_renews clone_newns _ (linux.unshare_fs_newns s.thread s.world)

  pub set_ns-Stands :
      (fd : ℤ) (typ typ' ns : ℕ)
      → p.table fd ≡ true
      → p.refs fd ≡ (typ', ns)
      → moves_thread typ' ≡ true
      → Post (λ _. Stands k (moved typ' ns p)) (Stands k p) (set_ns k fd typ s)
  unfolding set_ns
  set_ns-Stands fd typ typ' ns is_open refs moves =
      go (k.setns s.thread fd typ s.world) (linux.setns_law _ _ _ _) (linux.setns_fds _ _ _ _)
        (linux.setns_refers _ _ _ _) (linux.setns_others _ _ _ _)
    where
      entry : k.refers s.world fd ≡ (typ', ns)
      entry = h.refers fd is_open ∙ refs

      go :
          (r : Outcome (Unit {0}) × k.World)
          → Entered k s.thread fd s.world r
          → k.fds r.1 ≡ k.fds s.world
          → k.refers r.1 ≡ k.refers s.world
          → ((t : ℕ) → t ≢ s.thread → k.attached r.1 t ≡ k.attached s.world t)
          → Post (λ _. Stands k (moved typ' ns p)) (Stands k p) (r.0, record s { world = r.1 })
      go (ok _, w) enters same_fds same_refs apart = returns (
          moved_world w _ same_fds same_refs apart (
            subst
              (λ e.
                moves_thread e.0 ≡ true
                → k.attached w s.thread ≡ put e.0 e.1 (k.attached s.world s.thread))
              entry enters moves
            ∙ ap (put typ' ns) own))
      go (err m, w) e same_fds same_refs apart =
          fails (moved_world w p.spaces same_fds same_refs apart (e ∙ own))

  pub set_ns_still-Stands :
      (fd : ℤ) (typ typ' ns : ℕ)
      → p.table fd ≡ true
      → p.refs fd ≡ (typ', ns)
      → stays_thread typ' ≡ true
      → Post (λ _. Stands k p) (Stands k p) (set_ns k fd typ s)
  unfolding set_ns
  set_ns_still-Stands fd typ typ' ns is_open refs still = Post-either k _ _ (
      moved_world _ p.spaces (linux.setns_fds _ _ _ _) (linux.setns_refers _ _ _ _)
        (linux.setns_others _ _ _ _)
        (linux.setns_still _ _ _ _ (ap (λ e. stays_thread e.0) (h.refers fd is_open ∙ refs) ∙ still)
          ∙ own))
