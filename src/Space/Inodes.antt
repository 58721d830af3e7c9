-- ===== src/Space/Inodes.antt =====
-- `Type` and `Ino` of a descriptor and of the thread's own link, from any place.
use spacetest.Base.{pure, ◌>>=◌, ==ℤ_refl}
use spacetest.Kernel.Place.{place_of, place_of-Stands, opened}
use spacetest.Space.Current.{current-Stands_from}
use spacetest.Space.{current, current_ino}
use spacetest.Base.{ℕ, ℤ, true, false, String, ◌∷◌, Outcome, ok, err, ◌≡◌, refl, sym, ap, ◌∙◌}
use spacetest.Base.Post.{
  Post, returns, fails, mono, bind-Post, expecting-Post, expect-Post, deferring-Post,
}
use spacetest.Kernel.{Kernel, State}
use spacetest.Kernel.Calls.{self_path, stat_fd, stat_path}
use spacetest.Kernel.Laws.{IsLinux, shown}
use spacetest.Kernel.Table.{without_fd-with_fd}
use spacetest.Kernel.Place.{Place, Stands, opened_as, shut_fd, different}
use spacetest.Kernel.Place.Rules.{open_path-Stands, close-Stands}
use spacetest.Space.{type_of_fd, type_of_path, ino_of_fd, ino_of_path}
use spacetest.Space.Rules.{type_of_fd-Post, get_nstype-Post, type_of_fd_said}

-- A descriptor that was opened is closed.
shut-opened :
    {k : Kernel} (p : Place) (fd : ℤ) (r : ℕ × ℕ) (s : State k)
    → p.table fd ≡ false
    → Stands k (shut_fd fd (opened_as fd r p)) s
    → Stands k p s
shut-opened p fd r s fresh h = record {
  thread = h.thread;
  locks = h.locks;
  fds = h.fds ∙ without_fd-with_fd fd p.table fresh;
  refers = λ j o. let a = different p.table fd j fresh o in h.refers j (rw a o) ∙ rw a refl;
  attached = h.attached;
  cleanups = h.cleanups;
  others = h.others;
}

module _ {k : Kernel} (linux : IsLinux k) (p : Place) where
  -- What a call says about the world, with the place as it was.
  stat_fd-Stands :
      (fd : ℤ) (s : State k)
      → Stands k p s
      → Post
          (λ ino s'. (k.fstat fd s'.world ≡ ok ino) × Stands k p s')
          (Stands k p)
          (stat_fd k fd s)
  unfolding stat_fd
  stat_fd-Stands fd s h = go (k.fstat fd s.world) refl
    where
      go :
          (r : Outcome ℕ)
          → k.fstat fd s.world ≡ r
          → Post (λ ino s'. (k.fstat fd s'.world ≡ ok ino) × Stands k p s') (Stands k p) (r, s)
      go (ok ino) e = returns (e, h)
      go (err m) e = fails h

  stat_self-Stands :
      (typ : ℕ) (s : State k)
      → shown typ ≡ true
      → Stands k p s
      → Post
          (λ ino s'. (p.spaces typ ≡ ino) × Stands k p s')
          (Stands k p)
          (stat_path k (self_path typ) s)
  unfolding stat_path
  stat_self-Stands typ s is_shown h = go (k.stat s.thread (self_path typ) s.world) refl
    where
      go :
          (r : Outcome ℕ)
          → k.stat s.thread (self_path typ) s.world ≡ r
          → Post (λ ino s'. (p.spaces typ ≡ ino) × Stands k p s') (Stands k p) (r, s)
      go (ok ino) e = returns (
        ap (λ a. a typ) (sym h.attached ∙ ap (k.attached s.world) (sym h.thread))
            ∙ linux.stat_law s.thread typ s.world ino is_shown e,
        h,
      )
      go (err m) e = fails h

  type_of_path-Stands :
      (path : String) (s : State k)
      → Stands k p s
      → Post (λ _. Stands k p) (Stands k p) (type_of_path k path s)
  unfolding type_of_path
  type_of_path-Stands path s h =
      bind-Post _ _ _
        (expecting-Post _ _ _ (open_path-Stands linux p s h path (λ _. Unit {0}) (λ _ _. tt)))
        λ fd s₁ (_, fresh, r, _, h₁).
          deferring-Post _ _ _
            (expecting-Post _ _ _
              (get_nstype-Post linux {P = Stands k (opened_as fd r p)} fd s₁ h₁))
            (λ _ s₂ (_, h₂).
              mono (close-Stands linux _ s₂ h₂ fd) (λ _ s₃ h₃. shut-opened p fd r s₃ fresh h₃)
                (λ _ e. e))
            (λ s₂ h₂.
              mono (close-Stands linux _ s₂ h₂ fd) (λ _ s₃ h₃. shut-opened p fd r s₃ fresh h₃)
                (λ _ e. e))

  -- `Ino` of the thread's own link gives the namespace that it is attached to.
  pub ino_of_self-Stands :
      (typ : ℕ) (s : State k)
      → shown typ ≡ true
      → Stands k p s
      → Post
          (λ ino s'. (p.spaces typ ≡ ino) × Stands k p s')
          (Stands k p)
          (ino_of_path k (self_path typ) typ s)
  unfolding ino_of_path
  ino_of_self-Stands typ s is_shown h =
      bind-Post _ _ _ (expecting-Post _ _ _ (stat_self-Stands typ s is_shown h)) λ ino s₁ (is, h₁).
        bind-Post _ _ _ (type_of_path-Stands (self_path typ) s₁ h₁)
          λ typ' s₂ h₂. bind-Post _ _ _ (expect-Post _ _ s₂ h₂) λ _ s₃ h₃. returns (is, h₃)

  -- `Ino` of a descriptor gives the namespace that it references.
  referenced :
      (fd : ℤ) (ino : ℕ) (s : State k)
      → p.table fd ≡ true
      → (k.fstat fd s.world ≡ ok ino) × Stands k p s
      → Post (λ _ s'. ((p.refs fd).1 ≡ ino) × Stands k p s') (Stands k p) (type_of_fd k fd s)
  referenced fd ino s is_open h =
      mono (type_of_fd_said {P = λ t. (k.fstat fd t.world ≡ ok ino) × Stands k p t} fd s h)
        (λ typ s' (is, (said, h')). (
          ap (λ r. r.1) (sym (h'.refers fd is_open)) ∙ linux.fstat_law fd s'.world typ ino is said,
          h',
        ))
        (λ _ (_, h'). h')

  pub ino_of_fd-Stands :
      (fd : ℤ) (typ : ℕ) (s : State k)
      → p.table fd ≡ true
      → Stands k p s
      → Post (λ ino s'. ((p.refs fd).1 ≡ ino) × Stands k p s') (Stands k p) (ino_of_fd k fd typ s)
  unfolding ino_of_fd
  ino_of_fd-Stands fd typ s is_open h =
      bind-Post _ _ _ (expecting-Post _ _ _ (stat_fd-Stands fd s h)) λ ino s₁ said.
        bind-Post _ _ _ (referenced fd ino s₁ is_open said)
          λ typ' s₂ (is, h₂). bind-Post _ _ _ (expect-Post _ _ s₂ h₂) λ _ s₃ h₃. returns (is, h₃)

  -- `Type` of an open descriptor gives the type of what it references.
  pub type_of_fd-Stands :
      (fd : ℤ) (s : State k)
      → p.table fd ≡ true
      → Stands k p s
      → Post (λ typ s'. ((p.refs fd).0 ≡ typ) × Stands k p s') (Stands k p) (type_of_fd k fd s)
  type_of_fd-Stands fd s is_open h =
      mono (type_of_fd-Post linux {P = Stands k p} fd s h)
        (λ typ s' (is, h'). (ap (λ r. r.0) (sym (h'.refers fd is_open)) ∙ is, h')) (λ _ h'. h')

  current_ino-Stands :
      (typ : ℕ) (s : State k)
      → shown typ ≡ true
      → Stands k p s
      → Post (λ ino s'. (p.spaces typ ≡ ino) × Stands k p s') (Stands k p) (current_ino k typ s)
  unfolding current_ino
  current_ino-Stands typ s is_shown h = ino_of_self-Stands typ s is_shown h

-- On a kernel that keeps its documented rules, for a type that a thread can show: if `Current`,
-- `Ino` of the descriptor that it returns and `CurrentIno` all return, then both inode numbers are
-- that of the namespace that the thread is attached to, and all that has changed is the new
-- descriptor, which is open and registered to be closed. If one of them fails the test, then the
-- thread, its lock count and its namespaces are as before.
pub current_ino-ino_of_fd :
    {k : Kernel} (linux : IsLinux k) (s : State k) (typ : ℕ)
    → shown typ ≡ true
    → Post {A = ℕ × ℕ}
        (λ inos s'.
          (inos.0 ≡ k.attached s.world s.thread typ)
          × (inos.1 ≡ k.attached s.world s.thread typ)
          × (fd : ℤ) × (k.fds s.world fd ≡ false)
          × Stands k (record (opened fd typ (place_of k s)) { cleanups = fd ∷ s.cleanups }) s')
        (λ s'.
          (s'.thread ≡ s.thread)
          × (s'.locks ≡ s.locks)
          × (k.attached s'.world s.thread ≡ k.attached s.world s.thread))
        ((current k typ >>= λ fd.
            ino_of_fd k fd typ >>= λ ino. current_ino k typ >>= λ here. pure (ino, here))
          s)
current_ino-ino_of_fd {k} linux s typ is_shown =
    bind-Post _ _ s
      (mono (current-Stands_from linux (place_of k s) s typ is_shown (place_of-Stands k s))
        (λ _ _ q. q) (λ s' h. (h.thread, h.locks, h.attached)))
      λ fd s₁ (_, fresh, h₁).
        bind-Post _ _ s₁
          (mono (ino_of_fd-Stands linux _ fd typ s₁ (rw (==ℤ_refl fd) refl) h₁) (λ _ _ q. q)
            (λ s' h. (h.thread, h.locks, h.attached)))
          λ ino s₂ (is, h₂).
            bind-Post _ _ s₂
              (mono (current_ino-Stands linux _ typ s₂ is_shown h₂) (λ _ _ q. q)
                (λ s' h. (h.thread, h.locks, h.attached)))
              λ here s₃ (is', h₃). returns (sym is ∙ rw (==ℤ_refl fd) refl, sym is', fd, fresh, h₃)
