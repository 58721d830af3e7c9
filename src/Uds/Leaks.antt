-- ===== src/Uds/Leaks.antt =====
-- `NewUnixConn` and `NewPair` own the descriptors that they take.
use spacetest.Base.{
  ℤ, Bool, true, false, not, Outcome, ok, err, ◌≡◌, ◌∙◌, nonnegative, pure, raise, when, ◌>>◌,
}
use spacetest.Base.Post.{Post, returns, fails, mono, bind-Post, attempt-Post, deferring-Post}
use spacetest.Kernel.{Kernel, State}
use spacetest.Kernel.Calls.{close}
use spacetest.Kernel.Laws.{IsLinux, with_fd}
use spacetest.Kernel.Table.{
  Has, Gains, GainsPair, close-Post, file_conn-Post, is_unix-Post, socketpair-Post,
  without_fd-with_fd, without_fd-with_fd-with_fd, with_fd-fresh, with_fd_comm, with_fd-swap,
}
use spacetest.Uds.{take_conn, new_unix_conn, or_clean_up, new_pair}

module _ {k : Kernel} (linux : IsLinux k) where
  take_conn-Post :
      (udsfd : ℤ) (g : ℤ → Bool) (s : State k)
      → Has k g s
      → Post (Gains k g) (Has k g) (take_conn k udsfd s)
  unfolding take_conn
  take_conn-Post udsfd g s h =
      bind-Post _ _ _ (file_conn-Post linux s h udsfd) λ conn s₁ (n, fresh, h₁).
        bind-Post _ _ _ (is_unix-Post linux s₁ h₁ conn)
          λ unix s₂ h₂. bind-Post _ _ _ (refuse conn n fresh unix s₂ h₂) λ _ s₃ gains. returns gains
    where
      refuse :
          (conn : ℤ)
          → nonnegative conn ≡ true
          → g conn ≡ false
          → (unix : Bool) (s₂ : State k) → Has k (with_fd conn g) s₂
          → Post
              (λ _. Gains k g conn)
              (Has k g)
              (when (not unix) (close k conn >> raise "not a unix domain socket") s₂)
      refuse conn n fresh true s₂ h₂ = unfold when in returns (n, fresh, h₂)
      refuse conn n fresh false s₂ h₂ =
          unfold when in
          bind-Post _ _ _ (close-Post linux s₂ h₂ conn)
            λ _ s₃ h₃. fails (h₃ ∙ without_fd-with_fd conn g fresh)

  -- On a kernel that keeps its documented rules, `NewUnixConn` takes over an open descriptor: it is
  -- closed whatever happens, and the one new descriptor is that of the connection returned, or
  -- there is none after an error.
  pub new_unix_conn-Gains :
      (udsfd : ℤ) (f : ℤ → Bool) (s : State k)
      → nonnegative udsfd ≡ true
      → f udsfd ≡ false
      → Has k (with_fd udsfd f) s
      → Post (Gains k f) (Has k f) (new_unix_conn k udsfd s)
  unfolding new_unix_conn when
  new_unix_conn-Gains udsfd f s n fresh h = rw n (
      bind-Post {Q = λ _ s₀. Has k (with_fd udsfd f) s₀} _ _ _ (returns h) λ _ s₀ h₀.
        deferring-Post _ _ _ (take_conn-Post udsfd (with_fd udsfd f) s₀ h₀)
          (λ conn s₁ (m, fresh', h₁).
            mono (close-Post linux s₁ h₁ udsfd)
              (λ _ s₂ h₂. (
                m,
                with_fd-fresh udsfd conn f fresh',
                h₂ ∙ without_fd-with_fd-with_fd udsfd conn f fresh fresh',
              ))
              (λ _ e. e))
          (λ s₁ h₁.
            mono (close-Post linux s₁ h₁ udsfd) (λ _ s₂ h₂. h₂ ∙ without_fd-with_fd udsfd f fresh)
              (λ _ e. e)))

  or_clean_up-Post :
      (m : State k → Outcome ℤ × State k) (fd : ℤ) (f : ℤ → Bool) (s : State k)
      → f fd ≡ false
      → Post (Gains k (with_fd fd f)) (Has k (with_fd fd f)) (m s)
      → Post (Gains k (with_fd fd f)) (Has k f) (or_clean_up k m fd s)
  unfolding or_clean_up
  or_clean_up-Post m fd f s fresh h = bind-Post _ _ _ (attempt-Post _ _ h) λ r s' p. go r s' p
    where
      go :
          (r : Outcome ℤ) (s' : State k)
          → Post (Gains k (with_fd fd f)) (Has k (with_fd fd f)) (r, s')
          → Post (Gains k (with_fd fd f)) (Has k f) (
              let m : State k → Outcome ℤ × State k = elim r [
                | ok conn ↦ pure conn
                | err e ↦ close k fd >> raise e
              ] in
              m s')
      go (ok conn) s' (returns g) = returns g
      go (err e) s' (fails h') =
          bind-Post _ _ _ (close-Post linux s' h' fd)
            λ _ s'' h''. fails (h'' ∙ without_fd-with_fd fd f fresh)

  -- On a kernel that keeps its documented rules, `NewPair` opens exactly two new descriptors, those
  -- of the connections that it returns, and none if any of its steps fails.
  pub new_pair-GainsPair :
      (f : ℤ → Bool) (s : State k) → Has k f s → Post (GainsPair k f) (Has k f) (new_pair k s)
  unfolding new_pair
  new_pair-GainsPair f s h =
      bind-Post _ _ _ (socketpair-Post linux s h) λ (a, b) s₁ (na, nb, fa, fb, h₁).
        bind-Post _ _ _
          (or_clean_up-Post _ b f s₁ (with_fd-fresh a b f fb) (
            new_unix_conn-Gains a (with_fd b f) s₁ na (with_fd-swap a b f fa fb)
              (h₁ ∙ with_fd_comm b a f)))
          λ c s₂ (nc, fc, h₂).
            bind-Post _ _ _
              (or_clean_up-Post _ c f s₂ (with_fd-fresh b c f fc) (
                new_unix_conn-Gains b (with_fd c f) s₂ nb
                  (with_fd-swap b c f (with_fd-fresh a b f fb) fc) (h₂ ∙ with_fd_comm c b f)))
              λ d s₃ (nd, fd, h₃). returns (nc, nd, with_fd-fresh b c f fc, fd, h₃)
