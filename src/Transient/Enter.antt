-- ===== src/Transient/Enter.antt =====
-- `EnterTransient` and the function that it returns.
use spacetest.Base.{
  ℕ, suc, ◌-◌, ℤ, List, true, false, ◌==ℤ◌, ==ℤ_iff, ◌≡◌, ◌≢◌, inl, inr, refl, sym, ap, subst, ◌∙◌,
  deferring, ◌>>=◌, arith,
}
use spacetest.Base.Post.{
  Post, returns, fails, mono, bind-Post, expect-Post, expecting-Post, deferring-Post,
  attempt_cases-Post,
}
use spacetest.Kernel.{Kernel, State}
use spacetest.Kernel.Calls.{Act}
use spacetest.Kernel.Laws.{IsLinux, moves_thread, put}
use spacetest.Kernel.Table.{Post-either, without_fd-with_fd}
use spacetest.Kernel.Place.{
  BackOrLocked, different, put_again, Place, Stands, place_of, place_of-Stands, opened, moved,
  shut_fd,
}
use spacetest.Kernel.Place.Rules.{
  lock-Stands, unlock-Stands, close-Stands, open_self-Stands, unshare-Stands, set_ns-Stands,
}
use spacetest.Execute.InAndOut.Restores.{Stays}
use spacetest.Transient.{enter_transient, leave_transient}

-- in a new namespace, with the caller's held by a descriptor
abbrev pub inside : Place → ℕ → ℤ → ℕ → Place
inside p typ fd ns = moved typ ns (opened fd typ (record p { locks = suc p.locks }))

module _ {k : Kernel} (linux : IsLinux k) (p : Place) (typ : ℕ)
    (moves : moves_thread typ ≡ true) where
  at_start :
      (q : Place)
      → q.thread ≡ p.thread
      → q.spaces ≡ p.spaces
      → (s : State k) → Stands k q s
      → BackOrLocked k p s
  at_start q t e s h = (h.thread ∙ t, inl (ap (k.attached s.world) (sym t) ∙ h.attached ∙ e))

  enter_transient-Stands :
      (s : State k)
      → Stands k p s
      → Post
          (λ fd s'.
            (p.table fd ≡ false)
            × (ns : ℕ) × (ns ≢ p.spaces typ)
            × Stands k (inside p typ fd ns) s')
          (BackOrLocked k p)
          (enter_transient k typ s)
  unfolding enter_transient
  enter_transient-Stands s h =
      bind-Post _ _ _ (mono (expect-Post _ _ s h) (λ _ _ h'. h') (at_start p refl refl)) λ _ s₁ h₁.
        bind-Post _ _ _ (lock-Stands linux p s₁ h₁) λ _ s₂ h₂.
          bind-Post _ _ _
            (expecting-Post _ _ _ (
              mono (open_self-Stands linux _ s₂ h₂ typ moves) (λ _ _ h'. h')
                (at_start _ refl refl)))
            λ fd s₃ (n, fresh, h₃).
              bind-Post _ _ _
                (expecting-Post _ _ _ (
                  mono (unshare-Stands linux _ s₃ h₃ typ moves) (λ _ _ h'. h')
                    (at_start _ refl refl)))
                λ _ s₄ (ns, new, h₄).
                  returns (fresh, ns, (λ e. new p.thread (ap (λ a. a typ) h₃.attached ∙ sym e)), h₄)

  leave_transient-Stands :
      (fd : ℤ) (ns : ℕ) (s : State k)
      → p.table fd ≡ true
      → p.refs fd ≡ (typ, ns)
      → Stands k p s
      → Post
          (λ _. Stands k (record (shut_fd fd (moved typ ns p)) { locks = p.locks - 1 }))
          (Stands k p)
          (leave_transient k typ fd s)
  unfolding leave_transient
  leave_transient-Stands fd ns s is_open refs h =
      attempt_cases-Post _ _ _ _ (set_ns-Stands linux p s h fd typ typ ns is_open refs moves)
        (λ _ s₁ h₁.
          bind-Post _ _ _ (close-Stands linux _ s₁ h₁ fd) λ _ s₂ h₂. unlock-Stands linux _ s₂ h₂)
        (λ e s₁ h₁. fails h₁)

Stands-Stays :
    {k : Kernel} (p : Place) (s s' : State k)
    → Stands k p s
    → Stays k s s'
    → Stands k (record p { cleanups = s'.cleanups; others = k.attached s'.world }) s'
Stands-Stays {k} p s s' h stays = record {
  thread = stays.thread ∙ h.thread;
  locks = stays.locks ∙ h.locks;
  fds = stays.fds ∙ h.fds;
  refers = λ j o. stays.refers j (ap (λ t. t j) h.fds ∙ o) ∙ h.refers j o;
  attached =
      subst (λ t. k.attached s'.world t ≡ k.attached s.world t) h.thread stays.attached
      ∙ h.attached;
  cleanups = refl;
  others = λ t n. refl;
}

left_again :
    {k : Kernel} (s s' : State k) (typ : ℕ) (fd : ℤ) (ns : ℕ) (cleanups : List ℤ)
    (others : ℕ → ℕ → ℕ)
    → k.fds s.world fd ≡ false
    → Stands k
        (record (shut_fd fd
          (moved typ (k.attached s.world s.thread typ) (inside (place_of k s) typ fd ns))) {
            locks = suc s.locks - 1;
            cleanups = cleanups;
            others = others;
          })
        s'
    → Stays k s s'
left_again {k} s s' typ fd ns cleanups others fresh h = record {
  thread = h.thread;
  locks = h.locks ∙ omega arith;
  fds = h.fds ∙ without_fd-with_fd fd (k.fds s.world) fresh;
  refers = λ j o.
      let other : (j ==ℤ fd) ≡ false = different (k.fds s.world) fd j fresh o in
      h.refers j (rw other o) ∙ rw other;
  attached = h.attached ∙ put_again typ (k.attached s.world s.thread) ns;
}

-- On a kernel that keeps its documented rules, for any type into whose namespaces a thread can
-- move, let the function that follows `defer EnterTransient(typ)()` leave alone the thread, its
-- lock, its namespaces and what is open, when it is started with the thread attached to another
-- namespace of the type and to the caller's ones of all other types. If it all returns, the thread,
-- its lock count, its namespaces, the open descriptors and what they reference are as before. If
-- it panics, from the function or from any call, the thread is back in its namespaces, or it is
-- still locked to the go routine, so that the Go runtime throws it away.
pub leave_transient-enter_transient :
    {k : Kernel} (linux : IsLinux k) (s : State k) (typ : ℕ)
    → moves_thread typ ≡ true
    → (fn : Act k (Unit {0}))
    → ((s' : State k) (ns : ℕ)
        → ns ≢ k.attached s.world s.thread typ
        → k.attached s'.world s'.thread ≡ put typ ns (k.attached s.world s.thread)
        → Stays k s' (fn s').1)
    → Post
        (λ _. Stays k s)
        (BackOrLocked k (place_of k s))
        ((enter_transient k typ >>= λ fd. deferring (leave_transient k typ fd) fn) s)
leave_transient-enter_transient {k} linux s typ moves fn stays =
    bind-Post _ _ _ (enter_transient-Stands linux (place_of k s) typ moves s (place_of-Stands k s))
      λ fd s₁ (fresh, ns, new, h₁).
        deferring-Post _ _ _ (during fd ns new s₁ h₁)
          (λ _ s₂ h₂.
            mono (leaves fd ns s₂ h₂)
              (λ _ s₃ h₃. left_again s s₃ typ fd ns s₂.cleanups (k.attached s₂.world) fresh h₃)
              locked)
          (λ s₂ h₂.
            mono (leaves fd ns s₂ h₂)
              (λ _ s₃ h₃.
                (h₃.thread, inl (h₃.attached ∙ put_again typ (k.attached s.world s.thread) ns)))
              locked)
  where
    p : Place
    p = place_of k s

    -- inside, with what the function left to be closed
    Within : ℤ → ℕ → State k → Type 0
    Within fd ns s' =
        Stands k
          (record (inside p typ fd ns) { cleanups = s'.cleanups; others = k.attached s'.world }) s'

    during :
        (fd : ℤ) (ns : ℕ)
        → ns ≢ p.spaces typ
        → (s₁ : State k) → Stands k (inside p typ fd ns) s₁
        → Post (λ _. Within fd ns) (Within fd ns) (fn s₁)
    during fd ns new s₁ h₁ = Post-either k _ _ (
        Stands-Stays (inside p typ fd ns) s₁ _ h₁
          (stays s₁ ns new (ap (k.attached s₁.world) h₁.thread ∙ h₁.attached)))

    leaves :
        (fd : ℤ) (ns : ℕ) (s₂ : State k)
        → Within fd ns s₂
        → Post
            (λ _. Stands k (record (shut_fd fd (moved typ (p.spaces typ) (inside p typ fd ns))) {
              locks = suc p.locks - 1;
              cleanups = s₂.cleanups;
              others = k.attached s₂.world;
            }))
            (λ s₃. (s₃.thread ≡ p.thread) × (s₃.locks ≡ suc p.locks))
            (leave_transient k typ fd s₂)
    leaves fd ns s₂ h₂ =
        mono
          (leave_transient-Stands linux
            (record (inside p typ fd ns) { cleanups = s₂.cleanups; others = k.attached s₂.world })
            typ moves fd (p.spaces typ) s₂ (ground (arith, ==ℤ_iff fd fd))
            (ground (arith, ==ℤ_iff fd fd)) h₂)
          (λ _ _ h₃. h₃) (λ _ h₃. (h₃.thread, h₃.locks))

    locked :
        (s₃ : State k) → (s₃.thread ≡ p.thread) × (s₃.locks ≡ suc p.locks) → BackOrLocked k p s₃
    locked s₃ (same, held) = (same, inr held)
