-- ===== src/Tests/Separates.antt =====
-- `Execute` at concrete inputs, with a mount namespace among its arguments.
use spacetest.Base.{
  ℕ, pos, negsuc, false, [], ◌∷◌, ◌==◌, ◌≡◌, refl, if◌then◌else◌, Bool-cases, inl, inr, arith,
}
use spacetest.Base.Post.{Post, fails, mono, with-Post}
use spacetest.Spaces.{clone_newnet, clone_newns, clone_newpid, clone_newuts}
use spacetest.Kernel.{State}
use spacetest.Kernel.Calls.{Act, unshare}
use spacetest.Kernel.Place.{place_of, place_of-Stands, Roams, Stands-Roams}
use spacetest.Kernel.Place.Rules.{unshare-Stands}
use spacetest.Execute.{execute, sort_fds}
use spacetest.Execute.Sorts.{sort_fds-last_mnt}
use spacetest.Execute.Mounts.{execute-IsClean}
use spacetest.Execute.Separate.Promises.{IsBack, IsClean}
use spacetest.Tests.Toy.{toy, ToyWorld, toy-IsLinux}
use spacetest.Tests.Witnesses.{world}

-- Descriptors 2 and 3 reference mount namespaces, and 4 and 5 a network and a PID namespace.
abbrev places : ℕ → ℕ × ℕ
places n =
    if n == 2
    then (clone_newns, 5)
    else if n == 3
    then (clone_newns, 6)
    else if n == 4
    then (clone_newnet, 7)
    else if n == 5
    then (clone_newpid, 8)
    else (0, 0)

abbrev mounts_world : ToyWorld
mounts_world = record world { reference = places }

abbrev mounts_state : State toy
mounts_state = record { world = mounts_world; thread = 1; locks = 0; cleanups = [] }

-- a function to run: it makes a UTS namespace
abbrev renew : Act toy (Unit {0})
renew = unshare toy clone_newuts

abbrev HasMade : ToyWorld → Type 0
HasMade w = (w.next_space == 0) ≡ false

renew-HasMade :
    (t : State toy)
    → Post
        (λ _ t'. Roams toy (place_of toy t) t' × HasMade t'.world)
        (Roams toy (place_of toy t))
        (renew t)
unfolding unshare
renew-HasMade t = elim (Bool-cases (clone_newuts == t.world.broken)) [
  | inl broken ↦ rw broken (fails (Stands-Roams (place_of toy t) t (place_of-Stands toy t)))
  | inr works ↦
      mono
        (with-Post (λ t'. HasMade t'.world)
          (unshare-Stands toy-IsLinux (place_of toy t) t (place_of-Stands toy t) clone_newuts refl)
          (rw works (ground arith)))
        (λ _ t' ((ns, _, h), made). ((_, h), made))
        (λ t' (h, _). Stands-Roams (place_of toy t) t' h)
]

sort_fds-last_mnt_example :
    Post
      (λ p s'. (p ≡ (pos 3, pos 4 ∷ pos 5 ∷ [])) × (s' ≡ mounts_state))
      (λ s'. s' ≡ mounts_state)
      (sort_fds toy (pos 4 ∷ pos 2 ∷ pos 5 ∷ pos 3 ∷ []) (negsuc 0, []) mounts_state)
sort_fds-last_mnt_example =
    sort_fds-last_mnt toy-IsLinux mounts_state (pos 4 ∷ pos 2 ∷ pos 5 ∷ pos 3 ∷ [])
      (refl, (refl, (refl, (refl, tt))))

execute-IsClean_example :
    Post
      (λ _ s'. IsClean toy mounts_state s' × HasMade s'.world)
      (IsBack toy mounts_state)
      (execute toy renew (pos 4) (pos 3 ∷ pos 5 ∷ []) mounts_state)
execute-IsClean_example =
    execute-IsClean toy-IsLinux mounts_state HasMade (λ fd w h. h) renew (pos 4)
      (pos 3 ∷ pos 5 ∷ [])
      ((refl, (refl, refl)), ((refl, (refl, refl)), ((refl, (refl, refl)), tt))) refl
      (λ t other there. renew-HasMade t)
