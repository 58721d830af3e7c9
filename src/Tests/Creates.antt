-- ===== src/Tests/Creates.antt =====
-- The theorems on what is created, and on the end of the service's loop, at concrete inputs.
use spacetest.Base.{◌⊎◌, true, ◌+◌}
use spacetest.Spaces.{clone_newns, clone_newuser}
use spacetest.Spaces.Names.{is_type, name-same}
use spacetest.Spacer.Client.{subspace_spaces}
use spacetest.Spacer.Client.Asks.{subspace_spaces-requested}
use spacetest.Base.{ℕ, ℤ, false}
use spacetest.Service.Subspace.{clone_flags, maps_root}
use spacetest.Kernel.Place.{opened}
use spacetest.Space.{current, current_ino, ino_of_fd}
use spacetest.Space.Inodes.{current_ino-ino_of_fd}
use spacetest.Base.{bit_or, refl}
use spacetest.Base.Post.{Post}
use spacetest.Spaces.{clone_newnet, clone_newtime, clone_newuts}
use spacetest.Base.{pure, ◌>>=◌, deferring, [], ◌∷◌, ◌≡◌}
use spacetest.Base.Post.{returns}
use spacetest.Mntns.{enter_transient, leave_transient, new_transient}
use spacetest.Mntns.Restores.{Tainted, leave_transient-enter_transient_mnt}
use spacetest.Mntns.Idles.{Transient, new_transient-IsIdle}
use spacetest.Kernel.Place.{Stands, place_of}
use spacetest.Kernel.Table.{Has}
use spacetest.Service.NewNamespace.{new_namespace}
use spacetest.Service.NewNamespace.Makes.{
  Made, New, Own, Keeps, new_namespace-New, new_namespace-Own,
}
use spacetest.Service.Room.{room}
use spacetest.Service.Room.Complete.{Fulfils, room-Fulfils}
use spacetest.Tests.Toy.{toy, toy-IsLinux}
use spacetest.Tests.Witnesses.{world, state}

new_namespace-New_example :
    Post
      (Made toy clone_newnet (New clone_newnet) state)
      (λ s'. Has toy (toy.fds world) s' × Keeps toy clone_newnet state s')
      (new_namespace toy clone_newnet state)
new_namespace-New_example = new_namespace-New toy-IsLinux state clone_newnet refl

new_namespace-Own_example :
    Post
      (Made toy clone_newtime (Own clone_newtime) state)
      (λ s'. Has toy (toy.fds world) s' × Keeps toy clone_newtime state s')
      (new_namespace toy clone_newtime state)
new_namespace-Own_example = new_namespace-Own toy-IsLinux state

room-Fulfils_example :
    Post
      (Fulfils toy (toy.attached world) (bit_or clone_newtime (bit_or clone_newnet clone_newuts)))
      (λ _. ⊥)
      (room toy (bit_or clone_newtime (bit_or clone_newnet clone_newuts)) state)
room-Fulfils_example =
    room-Fulfils toy-IsLinux (bit_or clone_newtime (bit_or clone_newnet clone_newuts)) state

leave_transient-enter_transient_mnt_example :
    Post
      (λ _. Stands toy (record (place_of toy state) { locks = 1 }))
      (Tainted toy state)
      ((enter_transient toy >>= λ callers. deferring (leave_transient toy callers) (pure tt)) state)
leave_transient-enter_transient_mnt_example =
    leave_transient-enter_transient_mnt toy-IsLinux state (pure tt) (λ callers ns s _ h. returns h)

new_transient-IsIdle_example :
    Post (Transient toy state) (λ s'. toy.fds s'.world ≡ toy.fds world) (new_transient toy state)
new_transient-IsIdle_example = new_transient-IsIdle toy-IsLinux state refl

current_ino-ino_of_fd_example :
    Post {A = ℕ × ℕ}
      (λ inos s'.
        (inos.0 ≡ 1)
        × (inos.1 ≡ 1)
        × (fd : ℤ) × (toy.fds world fd ≡ false)
        × Stands toy
            (record (opened fd clone_newnet (place_of toy state)) { cleanups = fd ∷ [] })
            s')
      (λ s'. (s'.thread ≡ 1) × (s'.locks ≡ 0) × (toy.attached s'.world 1 ≡ toy.attached world 1))
      ((current toy clone_newnet >>= λ fd. ino_of_fd toy fd clone_newnet >>= λ ino.
          current_ino toy clone_newnet >>= λ here. pure (ino, here))
        state)
current_ino-ino_of_fd_example = current_ino-ino_of_fd toy-IsLinux state clone_newnet refl

name-same_example :
    (clone_newnet ≡ clone_newnet)
    ⊎ ((is_type clone_newnet ≡ false) × (is_type clone_newnet ≡ false))
name-same_example = name-same clone_newnet clone_newnet refl

subspace_spaces-requested_example :
    (true ≡ true)
    × (false ≡ false)
    × (false ≡ false)
    × (true ≡ true)
    × (clone_flags (subspace_spaces true false) ≡ clone_newuser + 0 + clone_newns)
    × (maps_root (subspace_spaces true false) ≡ true)
unfolding subspace_spaces
subspace_spaces-requested_example = subspace_spaces-requested true false
