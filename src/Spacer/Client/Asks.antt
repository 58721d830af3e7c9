-- ===== src/Spacer/Client/Asks.antt =====
-- What the client asks for, as the service reads it.
use spacetest.Base.{◌+◌, if◌then◌else◌}
use spacetest.Spaces.{clone_newuser, clone_newpid}
use spacetest.Service.Subspace.{hierarchical, clone_flags, maps_root}
use spacetest.Spacer.Client.{subspace_spaces}
use spacetest.Base.{ℕ, Bool, true, false, not, ◌&&◌, ◌||◌, ◌==◌, bit_and, ◌≡◌, refl, arith}
use spacetest.Spaces.{
  clone_newcgroup, clone_newipc, clone_newns, clone_newnet, clone_newtime, clone_newuts,
}
use spacetest.Service.Room.{complement, valid_spaces}
use spacetest.Spacer.Client.{rooms_spaces}

abbrev same : Bool → Bool → Bool
same true b = b
same false b = not b

same-equal : (a b : Bool) → same a b ≡ true → a ≡ b
same-equal a b h = ground arith

abbrev both : (Bool → Bool) → Bool
both p = p true && p false

both-each : (p : Bool → Bool) → both p ≡ true → (b : Bool) → p b ≡ true
both-each p h true = ground arith
both-each p h false = ground arith

-- Two functions of six flags that agree when each flag is tried both ways.
tried :
    (l r : Bool → Bool → Bool → Bool → Bool → Bool → Bool)
    → both (λ a.
      both
        (λ b. both (λ c. both (λ d. both (λ e. both (λ f. same (l a b c d e f) (r a b c d e f)))))))
      ≡ true
    → (a b c d e f : Bool) → l a b c d e f ≡ r a b c d e f
tried l r h a b c d e f = same-equal _ _ (both-each (p₅ a b c d e) (h₅ a b c d e) f)
  where
    p₅ : (a b c d e f : Bool) → Bool
    p₅ a b c d e f = same (l a b c d e f) (r a b c d e f)

    p₄ : (a b c d e : Bool) → Bool
    p₄ a b c d e = both (p₅ a b c d e)

    p₃ : (a b c d : Bool) → Bool
    p₃ a b c d = both (p₄ a b c d)

    p₂ : (a b c : Bool) → Bool
    p₂ a b c = both (p₃ a b c)

    p₁ : (a b : Bool) → Bool
    p₁ a b = both (p₂ a b)

    h₅ : (a b c d e : Bool) → both (p₅ a b c d e) ≡ true
    h₅ a b c d e =
        both-each (p₄ a b c d)
          (both-each (p₃ a b c)
            (both-each (p₂ a b) (both-each (p₁ a) (both-each (λ a. both (p₁ a)) h a) b) c) d)
          e

-- Each of the service's tests on the flags of a `Rooms` request tells what the client was called
-- with: no flag is outside the valid ones, there is one if anything was requested, and the test for
-- a type is passed if and only if the type was requested.
pub rooms_spaces-requested :
    (cgroup ipc mnt net time uts : Bool)
    → let spaces : ℕ = rooms_spaces cgroup ipc mnt net time uts in
      ((bit_and spaces (complement valid_spaces) == 0) ≡ true)
      × ((bit_and spaces valid_spaces == 0) ≡ not (cgroup || ipc || mnt || net || time || uts))
      × ((bit_and spaces clone_newcgroup == 0) ≡ not cgroup)
      × ((bit_and spaces clone_newipc == 0) ≡ not ipc)
      × ((bit_and spaces clone_newns == 0) ≡ not mnt)
      × ((bit_and spaces clone_newnet == 0) ≡ not net)
      × ((bit_and spaces clone_newtime == 0) ≡ not time)
      × ((bit_and spaces clone_newuts == 0) ≡ not uts)
unfolding rooms_spaces
rooms_spaces-requested cgroup ipc mnt net time uts = (
  tried (λ a b c d e f. bit_and (rooms_spaces a b c d e f) (complement valid_spaces) == 0)
      (λ a b c d e f. true) refl cgroup ipc mnt net time uts,
  tried (λ a b c d e f. bit_and (rooms_spaces a b c d e f) valid_spaces == 0)
      (λ a b c d e f. not (a || b || c || d || e || f)) refl cgroup ipc mnt net time uts,
  tried (λ a b c d e f. bit_and (rooms_spaces a b c d e f) clone_newcgroup == 0)
      (λ a b c d e f. not a) refl cgroup ipc mnt net time uts,
  tried (λ a b c d e f. bit_and (rooms_spaces a b c d e f) clone_newipc == 0) (λ a b c d e f. not b)
      refl cgroup ipc mnt net time uts,
  tried (λ a b c d e f. bit_and (rooms_spaces a b c d e f) clone_newns == 0) (λ a b c d e f. not c)
      refl cgroup ipc mnt net time uts,
  tried (λ a b c d e f. bit_and (rooms_spaces a b c d e f) clone_newnet == 0) (λ a b c d e f. not d)
      refl cgroup ipc mnt net time uts,
  tried (λ a b c d e f. bit_and (rooms_spaces a b c d e f) clone_newtime == 0)
      (λ a b c d e f. not e) refl cgroup ipc mnt net time uts,
  tried (λ a b c d e f. bit_and (rooms_spaces a b c d e f) clone_newuts == 0) (λ a b c d e f. not f)
      refl cgroup ipc mnt net time uts,
)

-- Each of the service's tests on the flags of a `Subspace` request tells what the client was called
-- with: no flag is outside the valid ones, there is one if anything was requested, and the test for
-- a user or PID namespace is passed if and only if it was requested; the flags computed for the
-- child are exactly the requested namespaces and a mount namespace, and its user and group are to be
-- mapped to root if and only if a user namespace was requested.
pub subspace_spaces-requested :
    (user pid : Bool)
    → let spaces : ℕ = subspace_spaces user pid in
      ((bit_and spaces (complement hierarchical) == 0) ≡ true)
      × ((bit_and spaces hierarchical == 0) ≡ not (user || pid))
      × ((bit_and spaces clone_newuser == 0) ≡ not user)
      × ((bit_and spaces clone_newpid == 0) ≡ not pid)
      × (clone_flags spaces
          ≡ (if user then clone_newuser else 0) + (if pid then clone_newpid else 0) + clone_newns)
      × (maps_root spaces ≡ user)
unfolding subspace_spaces clone_flags maps_root
subspace_spaces-requested true true = (refl, refl, refl, refl, refl, refl)
subspace_spaces-requested true false = (refl, refl, refl, refl, refl, refl)
subspace_spaces-requested false true = (refl, refl, refl, refl, refl, refl)
subspace_spaces-requested false false = (refl, refl, refl, refl, refl, refl)
