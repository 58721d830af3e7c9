-- ===== src/Mntns/Sysfs.antt =====
-- `MountSysfsRO` in the process's original mount namespace.
use spacetest.Base.{
  ℕ, ℤ, String, true, ◌==◌, Outcome, ok, err, ◌≡◌, refl, sym, ap, ◌∙◌, expect, arith,
}
use spacetest.Base.Post.{
  Post, returns, fails, mono, bind-Post, expect-Post, expecting-Post, deferring-Post,
}
use spacetest.Spaces.{clone_newns}
use spacetest.Kernel.{Kernel, State}
use spacetest.Kernel.Calls.{open_ro, close, get_nstype, stat_path}
use spacetest.Space
use spacetest.Space.{type_of_path}
use spacetest.Mntns.{ino_of_path, current_ino, mount_sysfs_ro}

module _ (k : Kernel) (P : k.World → Type 0) (thread : ℕ) where
  -- The code goes on with the same thread, in a world with the property.
  abbrev Same : State k → Type 0
  Same s = (s.thread ≡ thread) × P s.world

  module _ (opens : (t : ℕ) (p : String) (w : k.World) → P w → P (k.open_path t p w).1)
      (closes : (fd : ℤ) (w : k.World) → P w → P (k.close_fd fd w)) where
    type_of_path-Same :
        (ref : String) (s : State k) → Same s → Post (λ _. Same) Same (type_of_path k ref s)
    unfolding type_of_path open_ro close get_nstype
    type_of_path-Same ref s (t, h) =
        bind-Post _ _ _
          (expecting-Post _ _ _ (either (k.open_path s.thread ref s.world).0 _ (t, opens _ _ _ h)))
          λ fd s₁ h₁.
            deferring-Post _ _ _ (expecting-Post _ _ _ (either (k.nstype fd s₁.world) s₁ h₁))
              (λ _ s₂ (t₂, h₂). returns (t₂, closes fd s₂.world h₂))
              (λ s₂ (t₂, h₂). returns (t₂, closes fd s₂.world h₂))
      where
        either : {A : Type 0} (r : Outcome A) (s : State k) → Same s → Post (λ _. Same) Same (r, s)
        either (ok a) s h = returns h
        either (err e) s h = fails h

    ino-Same :
        (ref : String) (ino : ℕ) (s : State k)
        → ((w : k.World) → P w → k.stat thread ref w ≡ ok ino)
        → Same s
        → Post (λ n s'. (n ≡ ino) × Same s') Same (ino_of_path k ref s)
    unfolding ino_of_path Space.ino_of_path stat_path
    ino-Same ref ino s stats (t, h) =
        bind-Post _ _ _
          (expecting-Post _ _ _ (
            stated (k.stat s.thread ref s.world)
              (ap (λ x. k.stat x ref s.world) t ∙ stats s.world h)))
          λ n s₁ (is, h₁). bind-Post _ _ _ (type_of_path-Same ref s₁ h₁) λ typ s₂ h₂.
            bind-Post _ _ _ (expect-Post (typ == clone_newns) _ s₂ h₂) λ _ s₃ h₃. returns (is, h₃)
      where
        stated : (r : Outcome ℕ) → r ≡ ok ino → Post (λ n s'. (n ≡ ino) × Same s') Same (r, s)
        stated (ok n) e = returns (cc, (t, h))
        stated (err m) e = absurd (cc)

-- `MountSysfsRO` mounts nothing in the process's original mount namespace. Take any property of the
-- kernel's world that opening and closing descriptors keep, and under which the mount namespace of
-- the calling thread and that of the process have the same inode number. If it holds at the call,
-- then `MountSysfsRO` fails the test and the property still holds: mount(2), which need not keep
-- it, is not called.
pub mount_sysfs_ro_original :
    (k : Kernel) (P : k.World → Type 0) (ino : ℕ)
    → ((t : ℕ) (p : String) (w : k.World) → P w → P (k.open_path t p w).1)
    → ((fd : ℤ) (w : k.World) → P w → P (k.close_fd fd w))
    → (s : State k) → ((w : k.World) → P w → k.stat s.thread "/proc/thread-self/ns/mnt" w ≡ ok ino)
    → ((w : k.World) → P w → k.stat s.thread "/proc/self/ns/mnt" w ≡ ok ino)
    → P s.world
    → Post (λ _ _. ⊥) (λ s'. P s'.world) (mount_sysfs_ro k s)
unfolding mount_sysfs_ro current_ino
mount_sysfs_ro_original k P ino opens closes s thread_stat process_stat h =
    bind-Post _ _ _
      (mono (ino-Same k P s.thread opens closes _ ino s thread_stat (refl, h)) (λ _ _ q. q)
        (λ _ q. q.1))
      λ current s₁ (is, h₁).
        bind-Post _ _ _
          (mono (ino-Same k P s.thread opens closes _ ino s₁ process_stat h₁) (λ _ _ q. q)
            (λ _ q. q.1))
          λ original s₂ (is', (_, h₂)).
            bind-Post {Q = λ _ _. ⊥} _ _ _
              (unfold expect in rw (same current original (is ∙ sym is')) (fails h₂))
              λ _ s₃ never_so. absurd never_so
  where
    same : (a b : ℕ) → a ≡ b → (a == b) ≡ true
    same a b e = ground arith
