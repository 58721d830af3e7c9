-- ===== src/Mntns/Restores.antt =====
-- `EnterTransient` of mntns and the function that it returns.
use spacetest.Base.{
  ℕ, suc, ℤ, false, ◌≡◌, ◌≢◌, refl, deferring, ◌>>=◌, ==ℤ_refl, ◌∙◌, Outcome, ok, err, raise, ◌<>◌,
  ◌==ℤ◌, sym, ap,
}
use spacetest.Base.Post.{
  Post, returns, fails, mono, bind-Post, expecting-Post, attempt-Post, deferring-Post,
}
use spacetest.Spaces.{clone_newns, name}
use spacetest.Kernel.{Kernel, State}
use spacetest.Kernel.Calls.{close}
use spacetest.Kernel.Laws.{IsLinux}
use spacetest.Kernel.Table.{without_fd-with_fd}
use spacetest.Kernel.Place.{
  Place, Stands, place_of, place_of-Stands, opened, moved, shut_fd, put_again, Stands-everyone,
  different,
}
use spacetest.Kernel.Place.Rules.{
  lock-Stands, close-Stands, open_self-Stands, unshare_fs_newns-Stands, mount-Stands, set_ns-Stands,
}
use spacetest.Mntns.{enter_transient, leave_transient}

-- where the thread stands between the two
abbrev pub inside : ℤ → ℕ → Place → Place
inside callers ns p =
    moved clone_newns ns (opened callers clone_newns (record p { locks = suc p.locks }))

-- locked to its go routine
abbrev pub Tainted : (k : Kernel) → State k → State k → Type 0
Tainted k s s' = (s'.thread ≡ s.thread) × (s'.locks ≡ suc s.locks)

-- The namespaces of all threads are those of the start.
same_spaces :
    {k : Kernel} (s : State k) (callers : ℤ) (s' : State k) (t : ℕ)
    → Stands k (opened callers clone_newns (record (place_of k s) { locks = suc s.locks })) s'
    → k.attached s'.world t clone_newns ≡ k.attached s.world t clone_newns
same_spaces {k} s callers s' t h =
    ap (λ a. a clone_newns)
      (Stands-everyone _ s' h t ∙ sym (Stands-everyone _ s (place_of-Stands k s) t))

-- The place of the start again, but locked.
close-inside :
    {k : Kernel} (s : State k) (callers : ℤ) (ns : ℕ) (s' : State k)
    → k.fds s.world callers ≡ false
    → Stands k
        (shut_fd callers (
          moved clone_newns
            (k.attached s.world s.thread clone_newns)
            (inside callers ns (place_of k s))))
        s'
    → Stands k (record (place_of k s) { locks = suc s.locks }) s'
close-inside {k} s callers ns s' fresh h = record {
  thread = h.thread;
  locks = h.locks;
  fds = h.fds ∙ without_fd-with_fd callers (k.fds s.world) fresh;
  refers = λ j o.
      let a : (j ==ℤ callers) ≡ false = different (k.fds s.world) callers j fresh o in
      h.refers j (rw (a) o) ∙ rw (a) refl;
  attached = h.attached ∙ put_again clone_newns (k.attached s.world s.thread) ns;
  cleanups = h.cleanups;
  others = h.others;
}

module _ {k : Kernel} (linux : IsLinux k) (s : State k) where
  enter_transient-Stands :
      Post
        (λ callers s'.
          (k.fds s.world callers ≡ false)
          × (ns : ℕ) × ((t : ℕ) → k.attached s.world t clone_newns ≢ ns)
          × Stands k (inside callers ns (place_of k s)) s')
        (Tainted k s)
        (enter_transient k s)
  unfolding enter_transient name
  enter_transient-Stands = bind-Post _ _ _ (lock-Stands linux _ s (place_of-Stands k s)) λ _ s₁ h₁.
      bind-Post _ _ _
        (expecting-Post _ _ _ (
          mono (open_self-Stands linux _ s₁ h₁ clone_newns refl) (λ _ _ q. q)
            (λ _ h. (h.thread, h.locks))))
        λ callers s₂ (_, fresh, h₂).
          bind-Post _ _ _
            (expecting-Post _ _ _ (
              mono (unshare_fs_newns-Stands linux _ s₂ h₂) (λ _ _ q. q)
                (λ _ h. (h.thread, h.locks))))
            λ _ s₃ (ns, new, h₃).
              bind-Post _ _ _
                (expecting-Post _ _ _ (
                  mono (mount-Stands linux _ s₃ h₃ _ _ _ _) (λ _ _ q. q)
                    (λ _ h. (h.thread, h.locks))))
                λ _ s₄ h₄.
                  returns (fresh, ns, (λ t e. new t (same_spaces s callers s₂ t h₂ ∙ e)), h₄)

  leave_transient-inside :
      (callers : ℤ) (ns : ℕ) (s' : State k)
      → k.fds s.world callers ≡ false
      → Stands k (inside callers ns (place_of k s)) s'
      → Post
          (λ _. Stands k (record (place_of k s) { locks = suc s.locks }))
          (Tainted k s)
          (leave_transient k callers s')
  unfolding leave_transient
  leave_transient-inside callers ns s' fresh h =
      bind-Post _ _ _
        (attempt-Post _ _ (
          set_ns-Stands linux _ s' h callers 0 clone_newns (k.attached s.world s.thread clone_newns)
            (rw (==ℤ_refl callers) refl) (rw (==ℤ_refl callers) refl) refl))
        λ r s₁ p. go r s₁ p
    where
      back : Place
      back =
          moved clone_newns (k.attached s.world s.thread clone_newns)
            (inside callers ns (place_of k s))

      go :
          (r : Outcome (Unit {0})) (s₁ : State k)
          → Post (λ _. Stands k back) (Stands k (inside callers ns (place_of k s))) (r, s₁)
          → Post
              (λ _. Stands k (record (place_of k s) { locks = suc s.locks }))
              (Tainted k s)
              (let m : State k → Outcome (Unit {0}) × State k = elim r [
                | err e ↦ raise ("cannot restore original mount namespace, reason: " <> e)
                | ok _ ↦ close k callers
              ] in
                m s₁)
      go (ok _) s₁ (returns h₁) =
          mono (close-Stands linux _ s₁ h₁ callers)
            (λ _ s₂ h₂. close-inside s callers ns s₂ fresh h₂) (λ _ e. absurd e)
      go (err e) s₁ (fails h₁) = fails (h₁.thread, h₁.locks)

  -- On a kernel that keeps its documented rules: if a function runs between `EnterTransient` of mntns
  -- and the function that it returns, in a mount namespace that no thread was attached to before, and
  -- leaves its thread, the lock, the descriptors, the namespaces and what is registered as they
  -- were, then after a return the thread is in all its namespaces again, with the same open
  -- descriptors that reference what they did, locked once more than before. If anything fails,
  -- the thread is locked once more than before.
  pub leave_transient-enter_transient_mnt :
      (fn : State k → Outcome (Unit {0}) × State k)
      → ((callers : ℤ) (ns : ℕ) (s' : State k)
          → ((t : ℕ) → k.attached s.world t clone_newns ≢ ns)
          → Stands k (inside callers ns (place_of k s)) s'
          → Post
              (λ _. Stands k (inside callers ns (place_of k s)))
              (Stands k (inside callers ns (place_of k s)))
              (fn s'))
      → Post
          (λ _. Stands k (record (place_of k s) { locks = suc s.locks }))
          (Tainted k s)
          ((enter_transient k >>= λ callers. deferring (leave_transient k callers) fn) s)
  leave_transient-enter_transient_mnt fn stays =
      bind-Post _ _ s enter_transient-Stands λ callers s₁ (fresh, ns, new, h₁).
        deferring-Post _ _ s₁ (stays callers ns s₁ new h₁)
          (λ _ s₂ h₂. leave_transient-inside callers ns s₂ fresh h₂)
          (λ s₂ h₂.
            mono (leave_transient-inside callers ns s₂ fresh h₂) (λ _ _ h₃. (h₃.thread, h₃.locks))
              (λ _ e. e))
