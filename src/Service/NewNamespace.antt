-- ===== src/Service/NewNamespace.antt =====
-- `Spacemaker.newNamespace` (spacer/service/spacer.go). Logging is left out.
pub mod Makes
use spacetest.Base.{ℕ, ℤ, Bool, ◌∙◌, ◌==◌, bit_or, attempt, deferring, when, ◌>>=◌, ◌>>◌}
use spacetest.Base.Post.{Post, mono, bind-Post, when-Post, ignore-Post, deferring-Post}
use spacetest.Spaces.{clone_fs, clone_newns}
use spacetest.Kernel.{Kernel, State}
use spacetest.Kernel.Calls.{Act, self_path, open_ro, close, set_ns, unshare, mount, lock_os_thread}
use spacetest.Kernel.Laws.{IsLinux, without_fd}
use spacetest.Kernel.Table.{
  Has, Gains, open_ro-Post, close-Post, set_ns-Post, unshare-Post, mount-Post, without_fd-with_fd,
  without_fd-with_fd-with_fd, with_fd-fresh, lock-Post,
}

abbrev pub ms_rec : ℕ
ms_rec = 0x4000

abbrev pub ms_private : ℕ
ms_private = 0x4_0000

module _ (k : Kernel) where
  -- the deferred calls
  unfoldable pub leave : ℤ → Act k (Unit {0})
  leave callerns = do attempt (set_ns k callerns 0); close k callerns

  -- from the second step on
  unfoldable pub create : ℕ → Act k ℤ
  create typ = do
    when (typ == clone_newns) (unshare k clone_fs)
    unshare k typ
    when (typ == clone_newns) (mount k "none" "/" "/" (bit_or ms_rec ms_private))
    open_ro k (self_path typ)

  unfoldable pub new_namespace : ℕ → Act k ℤ
  unfolding leave create
  new_namespace typ = do
    lock_os_thread k
    callerns ← open_ro k (self_path typ)
    deferring (leave callerns) (create typ)

module _ {k : Kernel} (linux : IsLinux k) {f : ℤ → Bool} (s : State k) (h : Has k f s) where
  create-Post : (typ : ℕ) → Post (Gains k f) (Has k f) (create k typ s)
  unfolding create
  create-Post typ =
      bind-Post _ _ _ (when-Post (typ == clone_newns) _ s h (unshare-Post linux s h clone_fs))
        λ _ s₁ h₁. bind-Post _ _ _ (unshare-Post linux s₁ h₁ typ) λ _ s₂ h₂.
          bind-Post _ _ _ (when-Post (typ == clone_newns) _ s₂ h₂ (mount-Post linux s₂ h₂ _ _ _ _))
            λ _ s₃ h₃. open_ro-Post linux s₃ h₃ (self_path typ)

  leave-Post :
      (fd : ℤ) {E : State k → Type 0} → Post (λ _. Has k (without_fd fd f)) E (leave k fd s)
  unfolding leave
  leave-Post fd =
      bind-Post _ _ _ (ignore-Post _ _ (set_ns-Post linux s h fd 0))
        λ _ s₁ h₁. close-Post linux s₁ h₁ fd

-- On a kernel that keeps its documented rules, `newNamespace` opens exactly one new descriptor, the
-- one that it returns, and opens none if any of its calls fails: the descriptor of the caller's
-- namespace is closed either way.
pub new_namespace-Gains :
    {k : Kernel} (linux : IsLinux k) {f : ℤ → Bool} (s : State k)
    → Has k f s
    → (typ : ℕ) → Post (Gains k f) (Has k f) (new_namespace k typ s)
unfolding new_namespace
new_namespace-Gains {k} linux {f} s h typ = bind-Post _ _ _ (lock-Post linux s h) λ _ s₀ h₀.
    bind-Post _ _ _ (open_ro-Post linux s₀ h₀ (self_path typ)) λ callerns s₁ (n, fresh, h₁).
      deferring-Post _ _ _ (create-Post linux s₁ h₁ typ)
        (λ fd s₂ (m, fresh', h₂).
          mono (leave-Post linux s₂ h₂ callerns)
            (λ _ s₃ h₃. (
              m,
              with_fd-fresh callerns fd f fresh',
              h₃ ∙ without_fd-with_fd-with_fd callerns fd f fresh fresh',
            ))
            (λ _ e. e))
        (λ s₂ h₂.
          mono (leave-Post linux s₂ h₂ callerns)
            (λ _ s₃ h₃. h₃ ∙ without_fd-with_fd callerns f fresh) (λ _ e. e))
