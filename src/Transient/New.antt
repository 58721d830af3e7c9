-- ===== src/Transient/New.antt =====
-- What `NewTransient` leaves.
use spacetest.Base.{
  ℕ, suc, ◌-◌, ℤ, ◌∷◌, Bool, true, false, ◌==ℤ◌, ==ℤ_iff, ==ℤ_refl, ◌≡◌, ◌≢◌, ◌⊎◌, inl, inr, sym,
  ap, ◌∙◌, nonnegative, arith,
}
use spacetest.Base.Post.{
  Post, returns, mono, bind-Post, expect-Post, expecting-Post, deferring-Post,
}
use spacetest.Kernel.{Kernel, State}
use spacetest.Kernel.Calls.{close}
use spacetest.Kernel.Laws.{IsLinux, with_fd, without_fd, moves_thread}
use spacetest.Kernel.Table.{Has, without_fd-with_fd, without_fd-with_fd-with_fd, with_fd-fresh}
use spacetest.Kernel.Place.{
  Place, Stands, place_of, place_of-Stands, opened, moved, shut_fd, BackOrLocked, different,
  put_again,
}
use spacetest.Kernel.Place.Rules.{
  lock-Stands, unlock-Stands, close-Stands, open_self-Stands, unshare-Stands, set_ns-Stands,
  close_at_end-Stands,
}
use spacetest.Transient.{create_transient, new_transient}

-- What is open: what was, and at most one descriptor more.
abbrev pub AtMostOneMore : (k : Kernel) → (ℤ → Bool) → State k → Type 0
AtMostOneMore k f s = Has k f s ⊎ ((fd : ℤ) × (f fd ≡ false) × Has k (with_fd fd f) s)

-- A new namespace of a type, referenced by a new descriptor that is closed when the test ends;
-- nothing else has changed.
pub record IsCreated (k : Kernel) (s : State k) (typ : ℕ) (fd : ℤ) (s' : State k) : Type 0 where
  pub valid : nonnegative fd ≡ true
  pub new : k.fds s.world fd ≡ false
  pub fds : k.fds s'.world ≡ with_fd fd (k.fds s.world)
  pub refers : (j : ℤ) → k.fds s.world j ≡ true → k.refers s'.world j ≡ k.refers s.world j
  pub namespace :
      (ns : ℕ) × (ns ≢ k.attached s.world s.thread typ) × (k.refers s'.world fd ≡ (typ, ns))
  pub thread : s'.thread ≡ s.thread
  pub locks : s'.locks ≡ s.locks
  pub attached : k.attached s'.world s.thread ≡ k.attached s.world s.thread
  pub cleanups : s'.cleanups ≡ fd ∷ s.cleanups

-- in the caller's namespaces again, with the new one held
abbrev created : Place → ℕ → ℤ → ℕ → Place
created q typ fd ns = record (moved typ (q.spaces typ) (opened fd typ (moved typ ns q))) {
  locks = q.locks - 1;
  cleanups = fd ∷ q.cleanups;
}

-- still locked, with at most one descriptor more
abbrev Thrown : (k : Kernel) → Place → State k → Type 0
Thrown k q s = (s.thread ≡ q.thread) × (s.locks ≡ q.locks) × AtMostOneMore k q.table s

thrown : {k : Kernel} (q : Place) (s : State k) → Stands k q s → Thrown k q s
thrown q s h = (h.thread, h.locks, inl h.fds)

module _ {k : Kernel} (linux : IsLinux k) (typ : ℕ) (moves : moves_thread typ ≡ true) where
  create_transient-Stands :
      (q : Place) (callers : ℤ) (s : State k)
      → q.table callers ≡ true
      → q.refs callers ≡ (typ, q.spaces typ)
      → Stands k q s
      → Post
          (λ fd s'.
            (nonnegative fd ≡ true)
            × (q.table fd ≡ false)
            × (ns : ℕ) × (ns ≢ q.spaces typ)
            × Stands k (created q typ fd ns) s')
          (Thrown k q)
          (create_transient k typ callers s)
  unfolding create_transient
  create_transient-Stands q callers s is_open refs h =
      bind-Post _ _ _
        (expecting-Post _ _ _
          (mono (unshare-Stands linux q s h typ moves) (λ _ _ h'. h') (thrown q)))
        λ _ s₁ (ns, new, h₁).
          bind-Post _ _ _
            (expecting-Post _ _ _
              (mono (open_self-Stands linux _ s₁ h₁ typ moves) (λ _ _ h'. h') (λ s'. thrown _ s')))
            λ fd s₂ (n, fresh, h₂).
              let other : (callers ==ℤ fd) ≡ false = different q.table fd callers fresh is_open in
              bind-Post _ _ _
                (expecting-Post _ _ _ (
                  mono
                    (set_ns-Stands linux _ s₂ h₂ callers typ typ (q.spaces typ) (rw other is_open)
                      (rw other refs) moves)
                    (λ _ _ h'. h') (λ s' h'. (h'.thread, h'.locks, inr (fd, fresh, h'.fds)))))
                λ _ s₃ h₃. bind-Post _ _ _ (close_at_end-Stands linux _ s₃ h₃ fd) λ _ s₄ h₄.
                  bind-Post _ _ _ (unlock-Stands linux _ s₄ h₄) λ _ s₅ h₅.
                    returns
                      (n, fresh, ns, (λ e. new q.thread (ap (λ a. a typ) h.attached ∙ sym e)), h₅)

-- The descriptor of the caller's namespace is closed.
close-created :
    {k : Kernel} (s : State k) (typ : ℕ) (callers fd : ℤ) (ns : ℕ) (s' : State k)
    → k.fds s.world callers ≡ false
    → nonnegative fd ≡ true
    → with_fd callers (k.fds s.world) fd ≡ false
    → ns ≢ k.attached s.world s.thread typ
    → Stands k
        (shut_fd callers
          (created (opened callers typ (record (place_of k s) { locks = suc s.locks })) typ fd ns))
        s'
    → IsCreated k s typ fd s'
close-created {k} s typ callers fd ns s' fresh n fresh' new h =
    let f : ℤ → Bool = k.fds s.world in
    let apart : (fd ==ℤ callers) ≡ false = ground (arith, ==ℤ_iff fd callers) in
    record {
      valid = n;
      new = with_fd-fresh callers fd f fresh';
      fds = h.fds ∙ without_fd-with_fd-with_fd callers fd f fresh fresh';
      refers = λ j o.
          let a : (j ==ℤ callers) ≡ false = different f callers j fresh o in
          let b : (j ==ℤ fd) ≡ false = different f fd j (with_fd-fresh callers fd f fresh') o in
          h.refers j (rw (a, b) o) ∙ rw (a, b);
      namespace = (ns, new, h.refers fd (rw (apart, ==ℤ_refl fd)) ∙ ground (arith, ==ℤ_refl fd));
      thread = h.thread;
      locks = h.locks ∙ omega arith;
      attached = h.attached ∙ put_again typ (k.attached s.world s.thread) ns;
      cleanups = h.cleanups;
    }

-- What a failed `NewTransient` leaves: the thread where it was or still locked, and at most one
-- descriptor more.
abbrev pub Unmade : (k : Kernel) → State k → State k → Type 0
Unmade k s s' = BackOrLocked k (place_of k s) s' × AtMostOneMore k (k.fds s.world) s'

close-Unmade :
    {k : Kernel} (linux : IsLinux k) (s : State k) (typ : ℕ) (callers : ℤ) (s' : State k)
    → k.fds s.world callers ≡ false
    → Thrown k (opened callers typ (record (place_of k s) { locks = suc s.locks })) s'
    → Post (λ _. Unmade k s) (Unmade k s) (close k callers s')
unfolding close
close-Unmade {k} linux s typ callers s' fresh (same, locked, more) =
    returns ((same, inr locked), still more)
  where
    f : ℤ → Bool
    f = k.fds s.world

    still :
        AtMostOneMore k (with_fd callers f) s'
        → AtMostOneMore k f (record s' { world = k.close_fd callers s'.world })
    still (inl h) = inl (
        linux.close_law callers s'.world
        ∙ ap (without_fd callers) h
        ∙ without_fd-with_fd callers f fresh)
    still (inr (fd, fresh', h)) = inr (
      fd,
      with_fd-fresh callers fd f fresh',
      linux.close_law callers s'.world
          ∙ ap (without_fd callers) h
          ∙ without_fd-with_fd-with_fd callers fd f fresh fresh',
    )

at_start :
    {k : Kernel} (s : State k) (locks : ℕ) (s' : State k)
    → Stands k (record (place_of k s) { locks = locks }) s'
    → Unmade k s s'
at_start s locks s' h = ((h.thread, inl h.attached), inl h.fds)

-- On a kernel that keeps its documented rules, for any type into whose namespaces a thread can
-- move: if `NewTransient` returns, then its result is the one new descriptor, open, registered to
-- be closed when the test ends, and of a namespace of the type that is not the caller's; the
-- thread, its lock count, its namespaces and what the other descriptors reference are as before.
-- If it fails the test, the thread is in its namespaces or still locked to the go routine, and at
-- most one descriptor more is open.
pub new_transient-IsCreated :
    {k : Kernel} (linux : IsLinux k) (s : State k) (typ : ℕ)
    → moves_thread typ ≡ true
    → Post (IsCreated k s typ) (Unmade k s) (new_transient k typ s)
unfolding new_transient
new_transient-IsCreated {k} linux s typ moves =
    bind-Post _ _ _
      (mono (expect-Post _ _ s (place_of-Stands k s)) (λ _ _ h. h) (at_start s s.locks))
      λ _ s₁ h₁. bind-Post _ _ _ (lock-Stands linux _ s₁ h₁) λ _ s₂ h₂.
        bind-Post _ _ _
          (expecting-Post _ _ _ (
            mono (open_self-Stands linux _ s₂ h₂ typ moves) (λ _ _ h. h)
              (at_start s (suc s.locks))))
          λ callers s₃ (_, fresh, h₃).
            deferring-Post _ _ _
              (create_transient-Stands linux typ moves _ callers s₃
                (ground (arith, ==ℤ_refl callers)) (ground (arith, ==ℤ_refl callers)) h₃)
              (λ fd s₄ (n, fresh', ns, new, h₄).
                mono (close-Stands linux _ s₄ h₄ callers)
                  (λ _ s₅ h₅. close-created s typ callers fd ns s₅ fresh n fresh' new h₅)
                  (λ _ e. e))
              (λ s₄ h₄. close-Unmade linux s typ callers s₄ fresh h₄)
