-- ===== src/Mntns/Idles.antt =====
-- `NewTransient` of mntns: the mount namespace of an idle thread.
use spacetest.Base.{
  ℕ, suc, ℤ, List, pos, String, true, false, ◌∷◌, ◌≡◌, ◌≢◌, refl, ◌>>=◌, ==ℤ_refl, ◌∙◌, arith,
  Outcome, ok, err, sym, ap, subst, pure, expect, not, ◌>>◌, ◌<>◌, ==ℤ_iff, ltb, Bool, ◌==ℤ◌,
  nonnegative,
}
use spacetest.Base.Post.{Post, returns, fails, mono, bind-Post, expecting-Post, attempt-Post}
use spacetest.Spaces.{clone_newns}
use spacetest.Kernel.{Kernel, State}
use spacetest.Kernel.Laws.{IsLinux, with_fd}
use spacetest.Kernel.Calls.{go_routine, own_thread}
use spacetest.Kernel.Place.{
  Place, Stands, place_of, place_of-Stands, opened, moved, Stands-everyone, different,
}
use spacetest.Kernel.Place.Rules.{lock-Stands, unshare_fs_newns-Stands, mount-Stands}
use spacetest.Space.Current.{current-Stands_from}
use spacetest.Mntns.{current, idle, idler_details, new_transient}
use spacetest.Service.Subspace.{decimal}

-- A new descriptor of a mount namespace that no thread was attached to, registered to be closed when
-- the test ends, and kept by an idle thread; the other threads are where they were, and the other
-- descriptors reference what they did.
pub record IsIdle (k : Kernel) (s : State k) (fd : ℤ) (tid : ℕ) (w : k.World) (cleanups : List ℤ)
    : Type 0 where
  pub valid : nonnegative fd ≡ true
  pub new : k.fds s.world fd ≡ false
  pub fds : k.fds w ≡ with_fd fd (k.fds s.world)
  pub cleanup : cleanups ≡ fd ∷ s.cleanups
  pub unused : (t : ℕ) → k.attached s.world t clone_newns ≢ (k.refers w fd).1
  pub namespace : k.refers w fd ≡ (clone_newns, k.attached w tid clone_newns)
  pub others : (t : ℕ) → t ≢ tid → k.attached w t ≡ k.attached s.world t
  pub refers : (j : ℤ) → k.fds s.world j ≡ true → k.refers w j ≡ k.refers s.world j

thread_of :
    (k : Kernel) (fd : ℤ) (s : State k)
    → ◌>>=◌ {B = ℤ × ℕ} (own_thread k) (λ tid. pure (fd, tid)) s ≡ (ok (fd, s.thread), s)
unfolding own_thread ◌>>=◌
thread_of k fd s = refl

-- where the idle thread stands
abbrev idling : ℤ → ℕ → Place → Place
idling fd ns p =
    record (opened fd clone_newns (moved clone_newns ns (record p { locks = suc p.locks }))) {
      cleanups = fd ∷ p.cleanups;
    }

placed-IsIdle :
    {k : Kernel} (s : State k) (fd : ℤ) (ns : ℕ) (s' : State k)
    → nonnegative fd ≡ true
    → k.fds s.world fd ≡ false
    → ((t : ℕ) → k.attached s.world t clone_newns ≢ ns)
    → Stands k (idling fd ns (place_of k s)) s'
    → IsIdle k s fd s'.thread s'.world s'.cleanups
placed-IsIdle {k} s fd ns s' n fresh unused h =
    let refs : k.refers s'.world fd ≡ (clone_newns, ns) =
      h.refers fd (rw (==ℤ_refl fd) refl) ∙ rw (==ℤ_refl fd) refl in
    record {
      valid = n;
      new = fresh;
      fds = h.fds;
      cleanup = h.cleanups;
      unused = λ t e. unused t (e ∙ ap (λ r. r.1) refs);
      namespace =
          refs
          ∙ ap (λ x. (clone_newns, x))
              (sym (
                ap (λ t. k.attached s'.world t clone_newns) h.thread
                ∙ ap (λ a. a clone_newns) h.attached));
      others = λ t apart. h.others t (λ e. apart (e ∙ sym h.thread));
      refers = λ j o.
          let a : (j ==ℤ fd) ≡ false = different (k.fds s.world) fd j fresh o in
          h.refers j (rw (a) o) ∙ rw (a) refl;
    }

module _ {k : Kernel} (linux : IsLinux k) (s : State k) where
  idle-IsIdle :
      Post
        (λ (fd, tid) s'. IsIdle k s fd tid s'.world s'.cleanups)
        (λ s'. k.fds s'.world ≡ k.fds s.world)
        (idle k s)
  unfolding idle current
  idle-IsIdle = bind-Post _ _ _ (lock-Stands linux _ s (place_of-Stands k s)) λ _ s₁ h₁.
      bind-Post _ _ _
        (expecting-Post _ _ _
          (mono (unshare_fs_newns-Stands linux _ s₁ h₁) (λ _ _ q. q) (λ _ h. h.fds)))
        λ _ s₂ (ns, new, h₂).
          bind-Post _ _ _
            (expecting-Post _ _ _
              (mono (mount-Stands linux _ s₂ h₂ _ _ _ _) (λ _ _ q. q) (λ _ h. h.fds)))
            λ _ s₃ h₃.
              bind-Post _ _ s₃
                (mono (current-Stands_from linux _ s₃ clone_newns refl h₃) (λ _ _ q. q)
                  (λ _ h. h.fds))
                λ fd s₄ (n, fresh, h₄). subst (Post _ _) (sym (thread_of k fd s₄)) (
                  returns
                    (placed-IsIdle s fd ns s₄ n fresh (λ t e. new t (at_start s₁ h₁ t ∙ e)) h₄))
    where
      at_start :
          (s₁ : State k)
          → Stands k (record (place_of k s) { locks = suc s.locks }) s₁
          → (t : ℕ) → k.attached s₁.world t clone_newns ≡ k.attached s.world t clone_newns
      at_start s₁ h₁ t =
          ap (λ a. a clone_newns)
            (Stands-everyone _ s₁ h₁ t ∙ sym (Stands-everyone _ s (place_of-Stands k s) t))

-- What holds of the world and of what is to be closed at the end of a go routine holds for the
-- caller that waited for it.
waits-Post :
    {k : Kernel} {A : Type 0} (Q : A → k.World → List ℤ → Type 0) (P : k.World → Type 0)
    (m : State k → Outcome A × State k) (s : State k)
    → let (t, w) = k.spawn s.thread (ltb 0 s.locks) s.world in
      Post
        (λ a s'. Q a s'.world s'.cleanups)
        (λ s'. P s'.world)
        (m (record s { world = w; thread = t; locks = 0 }))
      → Post
          (λ a s'. Q a s'.world s'.cleanups × (s'.thread ≡ s.thread) × (s'.locks ≡ s.locks))
          (λ s'. P s'.world)
          (go_routine k m s)
unfolding go_routine
waits-Post {k} {A} Q P m s h = go _ h
  where
    go :
        (r : Outcome A × State k)
        → Post (λ a s'. Q a s'.world s'.cleanups) (λ s'. P s'.world) r
        → Post
            (λ a s'. Q a s'.world s'.cleanups × (s'.thread ≡ s.thread) × (s'.locks ≡ s.locks))
            (λ s'. P s'.world)
            (r.0, record (r.1) { thread = s.thread; locks = s.locks })
    go _ (returns q) = returns (q, refl, refl)
    go _ (fails p) = fails p

-- Starting a go routine changes nothing that `IsIdle` speaks of.
spawned-IsIdle :
    {k : Kernel} (linux : IsLinux k) (s : State k) (locked : Bool) (t : ℕ) (fd : ℤ) (tid : ℕ)
    (w : k.World) (cleanups : List ℤ)
    → IsIdle k
        (record s { world = (k.spawn s.thread locked s.world).1; thread = t; locks = 0 })
        fd
        tid
        w
        cleanups
    → IsIdle k s fd tid w cleanups
spawned-IsIdle {k} linux s locked t fd tid w cleanups h =
    let fds = linux.spawn_fds s.thread locked s.world in
    let attached = linux.spawn_attached s.thread locked s.world in
    let refers = linux.spawn_refers s.thread locked s.world in
    record {
      valid = h.valid;
      new = sym (ap (λ f. f fd) fds) ∙ h.new;
      fds = h.fds ∙ ap (with_fd fd) fds;
      cleanup = h.cleanup;
      unused = λ t' e. h.unused t' (ap (λ a. a t' clone_newns) attached ∙ e);
      namespace = h.namespace;
      others = λ t' apart. h.others t' apart ∙ ap (λ a. a t') attached;
      refers = λ j o. h.refers j (ap (λ f. f j) fds ∙ o) ∙ ap (λ r. r j) refers;
    }

-- What `NewTransient` returns.
abbrev pub Transient : (k : Kernel) → State k → ℤ × String → State k → Type 0
Transient k s (fd, procfsroot) s' =
    ((tid : ℕ) × (procfsroot ≡ "/proc/" <> (decimal tid <> "/root"))
      × IsIdle k s fd tid s'.world s'.cleanups)
    × (s'.thread ≡ s.thread)
    × (s'.locks ≡ s.locks)

module _ {k : Kernel} (linux : IsLinux k) (s : State k)
    (zero_open : k.fds s.world (pos 0) ≡ true) where
  not_zero : (fd : ℤ) → k.fds s.world fd ≡ false → not (fd ==ℤ pos 0) ≡ true
  not_zero fd fresh = ground (arith, ==ℤ_iff fd (pos 0))

  -- On a kernel that keeps its documented rules, with descriptor 0 open: what `NewTransient` of mntns
  -- returns is one new descriptor, registered to be closed when the test ends, of a mount namespace
  -- that no thread was attached to before, with the path of the root directory of the one thread
  -- that is attached to it; the caller goes on as before on its thread, all threads but that one are
  -- in their namespaces, and the other descriptors reference what they did. After a failure the same
  -- descriptors are open as before.
  pub new_transient-IsIdle :
      Post (Transient k s) (λ s'. k.fds s'.world ≡ k.fds s.world) (new_transient k s)
  unfolding new_transient
  new_transient-IsIdle =
      bind-Post _ _ s
        (attempt-Post _ s (
          waits-Post (λ (fd, tid) w cleanups. IsIdle k s fd tid w cleanups)
            (λ w. k.fds w ≡ k.fds s.world) (idle k) s
            (mono (idle-IsIdle linux _)
              (λ (fd, tid) s' h. spawned-IsIdle linux s _ _ fd tid s'.world s'.cleanups h)
              (λ _ h. h ∙ linux.spawn_fds _ _ _))))
        λ r s₁ p. go r s₁ p
    where
      go :
          (r : Outcome (ℤ × ℕ)) (s₁ : State k)
          → Post
              (λ d s'.
                IsIdle k s d.0 d.1 s'.world s'.cleanups
                × (s'.thread ≡ s.thread)
                × (s'.locks ≡ s.locks))
              (λ s'. k.fds s'.world ≡ k.fds s.world)
              (r, s₁)
          → Post
              (Transient k s)
              (λ s'. k.fds s'.world ≡ k.fds s.world)
              ((expect (not ((idler_details r).0 ==ℤ pos 0)) "Expected not to be zero-valued"
                  >> pure
                      ((idler_details r).0, "/proc/" <> (decimal (idler_details r).1 <> "/root")))
                s₁)
      go (ok (fd, tid)) s₁ (returns (h, thread, locks)) =
          rw (not_zero fd h.new)
            (unfold expect in unfold ◌>>=◌ in returns ((tid, refl, h), thread, locks))
      go (err e) s₁ (fails h) = unfold expect in unfold ◌>>=◌ in fails h
