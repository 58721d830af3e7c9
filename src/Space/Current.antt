-- ===== src/Space/Current.antt =====
-- `Current` and `Ino` of a path, and the descriptors that they open.
use spacetest.Base.{
  arith, ℕ, ℤ, String, Bool, true, false, ◌∷◌, ◌==◌, Outcome, ok, err, ◌≡◌, refl, ◌∙◌, nonnegative,
}
use spacetest.Base.Post.{
  Post, returns, fails, mono, bind-Post, expect-Post, expecting-Post, deferring-Post,
}
use spacetest.Kernel.{Kernel, State}
use spacetest.Kernel.Calls.{stat_path}
use spacetest.Kernel.Laws.{IsLinux, moves_thread, shown, with_fd}
use spacetest.Kernel.Table.{Has, close-Post, open_ro-Post, without_fd-with_fd}
use spacetest.Kernel.Place.{Place, Stands, place_of, place_of-Stands, opened}
use spacetest.Kernel.Place.Rules.{open_shown-Stands, close_at_end-Stands}
use spacetest.Space.{type_of_path, ino_of_path, current}
use spacetest.Space.Rules.{get_nstype-Post}

-- `Current` from any place.
pub current-Stands_from :
    {k : Kernel} (linux : IsLinux k) (p : Place) (s : State k) (typ : ℕ)
    → shown typ ≡ true
    → Stands k p s
    → Post
        (λ fd s'.
          (nonnegative fd ≡ true)
          × (p.table fd ≡ false)
          × Stands k (record (opened fd typ p) { cleanups = fd ∷ p.cleanups }) s')
        (Stands k p)
        (current k typ s)
unfolding current
current-Stands_from linux p s typ is_shown h = bind-Post _ _ _ (expect-Post _ _ s h) λ _ s₁ h₁.
    bind-Post _ _ _ (expecting-Post _ _ _ (open_shown-Stands linux _ s₁ h₁ typ is_shown))
      λ fd s₂ (n, fresh, h₂).
        bind-Post _ _ _ (close_at_end-Stands linux _ s₂ h₂ fd) λ _ s₃ h₃. returns (n, fresh, h₃)

-- On a kernel that keeps its documented rules, `Current` of a type into whose namespaces a thread
-- can move returns a new open descriptor of the namespace of that type that the thread is attached
-- to, registered to be closed when the test ends; the thread, its lock count, its namespaces and
-- what the other descriptors reference are as before. If it fails the test, nothing has changed.
pub current-Stands :
    {k : Kernel} (linux : IsLinux k) (s : State k) (typ : ℕ)
    → moves_thread typ ≡ true
    → Post
        (λ fd s'.
          (nonnegative fd ≡ true)
          × (k.fds s.world fd ≡ false)
          × Stands k (record (opened fd typ (place_of k s)) { cleanups = fd ∷ s.cleanups }) s')
        (Stands k (place_of k s))
        (current k typ s)
current-Stands {k} linux s typ moves =
    current-Stands_from linux (place_of k s) s typ (ground arith) (place_of-Stands k s)

module _ {k : Kernel} (linux : IsLinux k) (f : ℤ → Bool) where
  type_of_path-Post :
      (ref : String) (s : State k)
      → Has k f s
      → Post (λ _. Has k f) (Has k f) (type_of_path k ref s)
  unfolding type_of_path
  type_of_path-Post ref s h =
      bind-Post _ _ _ (expecting-Post _ _ _ (open_ro-Post linux s h ref)) λ fd s₁ (_, fresh, h₁).
        deferring-Post _ _ _
          (expecting-Post _ _ _ (get_nstype-Post linux {P = Has k (with_fd fd f)} fd s₁ h₁))
          (λ _ s₂ (_, h₂).
            mono (close-Post linux s₂ h₂ fd) (λ _ _ h₃. h₃ ∙ without_fd-with_fd fd f fresh)
              (λ _ e. e))
          (λ s₂ h₂.
            mono (close-Post linux s₂ h₂ fd) (λ _ _ h₃. h₃ ∙ without_fd-with_fd fd f fresh)
              (λ _ e. e))

  stat_path-Post :
      (ref : String) (s : State k)
      → Has k f s
      → Post
          (λ ino s'. (k.stat s.thread ref s.world ≡ ok ino) × Has k f s')
          (Has k f)
          (stat_path k ref s)
  unfolding stat_path
  stat_path-Post ref s h = go (k.stat s.thread ref s.world)
    where
      go : (r : Outcome ℕ) → Post (λ ino s'. (r ≡ ok ino) × Has k f s') (Has k f) (r, s)
      go (ok ino) = returns (refl, h)
      go (err e) = fails h

  -- On a kernel that keeps its documented rules, `Ino` of a path returns the inode number that
  -- stat(2) gives for the path at the call, and whether it returns or fails the test, the open
  -- descriptors are those from before the call.
  pub ino_of_path-Has :
      (ref : String) (typ : ℕ) (s : State k)
      → Has k f s
      → Post
          (λ ino s'. (k.stat s.thread ref s.world ≡ ok ino) × Has k f s')
          (Has k f)
          (ino_of_path k ref typ s)
  unfolding ino_of_path
  ino_of_path-Has ref typ s h =
      bind-Post _ _ _ (expecting-Post _ _ _ (stat_path-Post ref s h)) λ ino s₁ (is, h₁).
        bind-Post _ _ _ (type_of_path-Post ref s₁ h₁) λ typ' s₂ h₂.
          bind-Post _ _ _ (expect-Post (typ' == typ) _ s₂ h₂) λ _ s₃ h₃. returns (is, h₃)
