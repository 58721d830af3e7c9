-- ===== src/Execute/Separate/Enter.antt =====
-- What attaches the separate thread to a namespace, unless it is attached to it.
use spacetest.Base.{
  ℕ, ℤ, true, List, [], ◌∷◌, Outcome, ◌≡◌, refl, ap, subst, ◌∙◌, ◌==◌, All, for_each, arith,
  Bool-cases, inl, inr, when,
}
use spacetest.Base.Post.{Post, returns, mono, bind-Post, expecting-Post}
use spacetest.Spaces.{clone_newns}
use spacetest.Kernel.{Kernel, State}
use spacetest.Kernel.Calls.{set_ns}
use spacetest.Kernel.Laws.{IsLinux, moves_thread, shown, put}
use spacetest.Kernel.Place.{Place, Stands, moved, Roams, Stands-Roams}
use spacetest.Kernel.Place.Rules.{set_ns-Stands, set_ns_still-Stands, unshare_fs-Stands}
use spacetest.Execute.InAndOut.Saved.{entered}
use spacetest.Execute.Separate.{enter, enter_mnt}
use spacetest.Execute.Separate.Spaces.{Agree, entered-Agree}
use spacetest.Space.Inodes.{ino_of_fd-Stands, ino_of_self-Stands, type_of_fd-Stands}

module _ {k : Kernel} (linux : IsLinux k) (p : Place) where
  -- After `enter`: attached to what a descriptor references.
  abbrev pub Inside : ℤ → State k → Type 0
  Inside fd s =
      (a : ℕ → ℕ) × Agree a (put (p.refs fd).0 (p.refs fd).1 p.spaces)
      × Stands k (record p { spaces = a }) s

  switch-Inside :
      (fd : ℤ) (s : State k)
      → p.table fd ≡ true
      → shown (p.refs fd).0 ≡ true
      → Stands k p s
      → Post (λ _. Inside fd) (Roams k p) (set_ns k fd 0 s)
  switch-Inside fd s is_open is_shown h = elim (Bool-cases (moves_thread (p.refs fd).0)) [
    | inl moves ↦
        mono (set_ns-Stands linux p s h fd 0 (p.refs fd).0 (p.refs fd).1 is_open refl moves)
          (λ _ s' h'. (put (p.refs fd).0 (p.refs fd).1 p.spaces, (λ typ m. refl), h'))
          (λ s' h'. Stands-Roams p s' h')
    | inr stays ↦
        mono
          (set_ns_still-Stands linux p s h fd 0 (p.refs fd).0 (p.refs fd).1 is_open refl
            (ground arith))
          (λ _ s' h'. (p.spaces, (λ typ m. ground arith), h')) (λ s' h'. Stands-Roams p s' h')
  ]

  stay-Inside :
      (fd : ℤ) (s : State k) → p.spaces (p.refs fd).0 ≡ (p.refs fd).1 → Stands k p s → Inside fd s
  stay-Inside fd s same h = (p.spaces, (λ typ m. ground (arith, same)), h)

  roaming :
      {A : Type 0} {Q : A → State k → Type 0} {r : Outcome A × State k}
      → Post Q (Stands k p) r
      → Post Q (Roams k p) r
  roaming h = mono h (λ _ _ q. q) (λ s h'. Stands-Roams p s h')

  pub enter-Inside :
      (fd : ℤ) (s : State k)
      → p.table fd ≡ true
      → shown (p.refs fd).0 ≡ true
      → Stands k p s
      → Post (λ _. Inside fd) (Roams k p) (enter k fd s)
  unfolding enter when
  enter-Inside fd s is_open is_shown h =
      bind-Post _ _ s (roaming (type_of_fd-Stands linux p fd s is_open h)) λ typ s₁ (is, h₁).
        bind-Post _ _ s₁ (roaming (ino_of_fd-Stands linux p fd typ s₁ is_open h₁))
          λ ino s₂ (ino_is, h₂).
            bind-Post _ _ s₂
              (roaming
                (ino_of_self-Stands linux p typ s₂ (subst (λ t. shown t ≡ true) is is_shown) h₂))
              λ here s₃ (here_is, h₃). elim (Bool-cases (ino == here)) [
                | inl same ↦
                    rw same
                      (returns (stay-Inside fd s₃ (ap p.spaces is ∙ here_is ∙ ground arith) h₃))
                | inr other ↦
                    rw other (expecting-Post _ _ s₃ (switch-Inside fd s₃ is_open is_shown h₃))
              ]

-- The loop: the thread is attached to all that the descriptors reference, entered in turn.
pub enter_all-Stands :
    {k : Kernel} (linux : IsLinux k) (fds : List ℤ) (p : Place) (s : State k)
    → All (λ fd. (p.table fd ≡ true) × (shown (p.refs fd).0 ≡ true)) fds
    → Stands k p s
    → Post
        (λ _ s'.
          (a : ℕ → ℕ) × Agree a (entered p.refs fds p.spaces)
          × Stands k (record p { spaces = a }) s')
        (Roams k p)
        (for_each fds (enter k) s)
unfolding for_each
enter_all-Stands linux [] p s _ h = returns (p.spaces, (λ typ m. refl), h)
enter_all-Stands linux (fd ∷ fds) p s ((is_open, is_shown), usable) h =
    bind-Post _ _ s (enter-Inside linux p fd s is_open is_shown h) λ _ s₁ (a, agree, h₁).
      mono (enter_all-Stands linux fds (record p { spaces = a }) s₁ usable h₁)
        (λ _ s₂ (b, agree', h₂).
          (b, (λ typ m. agree' typ m ∙ entered-Agree p.refs fds a _ agree typ m), h₂))
        (λ _ h₂. h₂)

-- The thread is attached to the mount namespace, with file system attributes of its own.
pub enter_mnt-Stands :
    {k : Kernel} (linux : IsLinux k) (p : Place) (s : State k) (mntnsfd : ℤ) (ns : ℕ)
    → p.table mntnsfd ≡ true
    → p.refs mntnsfd ≡ (clone_newns, ns)
    → Stands k p s
    → Post (λ _. Stands k (moved clone_newns ns p)) (Stands k p) (enter_mnt k mntnsfd s)
unfolding enter_mnt
enter_mnt-Stands linux p s mntnsfd ns is_open refs h =
    bind-Post _ _ s (expecting-Post _ _ s (unshare_fs-Stands linux p s h)) λ _ s₁ h₁.
      expecting-Post _ _ s₁
        (set_ns-Stands linux p s₁ h₁ mntnsfd clone_newns clone_newns ns is_open refs refl)
