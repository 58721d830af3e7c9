-- ===== src/Tests/Witnesses.antt =====
-- The theorems at concrete inputs, on the small kernel.
use spacetest.Base.{
  bit_and, nonnegative, ap, ◌∙◌, deferring, ℤ, negsuc, ◌-◌, All, map, ok, err, fun_ext, Bool,
  ==ℤ_iff, arith, ◌>>=◌, ℕ, pos, true, [], ◌∷◌, refl, ◌≡◌, ◌==◌, if◌then◌else◌, pure, bit_or, false,
}
use spacetest.Base.Post.{Post}
use spacetest.Spaces.{clone_newnet, clone_newuts, clone_newuser, clone_newipc}
use spacetest.Kernel.{State}
use spacetest.Kernel.Table.{Has, Gains}
use spacetest.Service.NewNamespace.{new_namespace, new_namespace-Gains}
use spacetest.Service.Room.{room}
use spacetest.Service.Room.Leaks.{Answers, room-Answers}
use spacetest.Execute.{execute}
use spacetest.Execute.Laws.{execute-Stays, execute_user}
use spacetest.Execute.InAndOut.{go_in_and_out}
use spacetest.Execute.InAndOut.Restores.{Stays, Tainted, go_in_and_out-Stays}
use spacetest.Base.{Bool-cases, inl, inr}
use spacetest.Base.Post.{returns}
use spacetest.Kernel.Calls.{Act}
use spacetest.Base.Decimal.{Bytes, codes, cut_prefix}
use spacetest.Kernel.Calls.{socketpair}
use spacetest.Kernel.Laws.{with_fd, without_fd}
use spacetest.Kernel.Table.{GainsPair}
use spacetest.Api.Rooms
use spacetest.Api.Rooms.{RoomsResponse}
use spacetest.Api.Rooms.Transfer.{IsTyped, received, decode_fds-encode_fds}
use spacetest.Api.Subspace
use spacetest.Api.Subspace.{SubspaceResponse}
use spacetest.Api.Subspace.Transfer.{decode_fds-encode_fds_subspace}
use spacetest.Spacer.PidFd.{pid_from_pid_fd}
use spacetest.Spacer.PidFd.Parses.{fdinfo_of, OtherLine, pid_from_pid_fd-fdinfo_of}
use spacetest.Uds.{new_unix_conn, new_pair}
use spacetest.Uds.Leaks.{new_unix_conn-Gains, new_pair-GainsPair}
use spacetest.Service.Subspace.{subspace}
use spacetest.Service.Subspace.Leaks.{Answered, subspace-Answered}
use spacetest.Service.Subspace.Succeeds.{returned, subspace-new_pair}
use spacetest.Service.Subspace.{Spacemaker}
use spacetest.Base.{none, some, false, ap, ◌∙◌}
use spacetest.Kernel.Place.{BackOrLocked, place_of}
use spacetest.Transient.{enter_transient, leave_transient, new_transient}
use spacetest.Transient.Enter.{leave_transient-enter_transient}
use spacetest.Transient.New.{IsCreated, Unmade, new_transient-IsCreated}
use spacetest.Kernel.{Kernel}
use spacetest.Kernel.Calls.{self_path}
use spacetest.Kernel.Place.{Stands, opened}
use spacetest.Spaces.{clone_newns}
use spacetest.Space.{current, ino_of_path}
use spacetest.Space.Current.{current-Stands, ino_of_path-Has}
use spacetest.Mntns.{mount_sysfs_ro}
use spacetest.Mntns.Sysfs.{mount_sysfs_ro_original}
use spacetest.Service.Room.{complement, valid_spaces}
use spacetest.Spaces.{clone_newcgroup, clone_newtime}
use spacetest.Spacer.Client.{rooms_spaces, rooms}
use spacetest.Spacer.Client.Asks.{rooms_spaces-requested}
use spacetest.Spacer.Client.Registers.{rooms-open_ones}
use spacetest.Tests.Toy.{toy, ToyWorld, toy-IsLinux}

-- Descriptors 3 to 5 reference a network, a UTS and a user namespace.
abbrev pub references : ℕ → ℕ × ℕ
references n =
    if n == 3
    then (clone_newnet, 7)
    else if n == 4
    then (clone_newuts, 8)
    else if n == 5
    then (clone_newuser, 9)
    else (0, 0)

abbrev pub world : ToyWorld
world = record {
  next_fd = 6;
  is_open = λ n. true;
  reference = references;
  spaces = λ t typ. 1;
  next_space = 9;
  next_thread = 2;
  broken = clone_newipc;
}

abbrev pub state : State toy
state = record { world = world; thread = 1; locks = 0; cleanups = [] }

new_namespace-Gains_example :
    Post
      (Gains toy (toy.fds world))
      (Has toy (toy.fds world))
      (new_namespace toy clone_newnet state)
new_namespace-Gains_example = new_namespace-Gains toy-IsLinux state refl clone_newnet

room-Answers_example :
    Post (Answers toy (toy.fds world)) (λ _. ⊥) (room toy (bit_or clone_newnet clone_newuts) state)
room-Answers_example =
    room-Answers toy-IsLinux (toy.fds world) refl (bit_or clone_newnet clone_newuts) state refl

idle_Stays : (s : State toy) → Stays toy s s
idle_Stays s = record {
  thread = refl;
  locks = refl;
  fds = refl;
  refers = λ j h. refl;
  attached = refl;
}

go_in_and_out-Stays_example :
    Post
      (λ _. Stays toy state)
      (Tainted toy state)
      (go_in_and_out toy (pure tt) (pos 3 ∷ pos 4 ∷ []) state)
go_in_and_out-Stays_example =
    go_in_and_out-Stays toy-IsLinux state (pos 3 ∷ pos 4 ∷ []) ((refl, refl), ((refl, refl), tt))
      (pure tt) (λ s _. idle_Stays s)

-- A function that leaves a mark, which is not there at the start.
abbrev mark : Act toy (Unit {0})
mark s = (ok tt, record s { world = record s.world { next_thread = 7 } })

abbrev IsMarked : ToyWorld → Type 0
IsMarked w = w.next_thread ≡ 7

entered-IsMarked :
    (t : ℕ) (fd : ℤ) (typ : ℕ) (w : ToyWorld) → IsMarked w → IsMarked (toy.setns t fd typ w).1
entered-IsMarked t fd typ w marked = elim (Bool-cases (toy.fds w fd)) [
  | inl is_open ↦ rw is_open marked
  | inr closed ↦ rw closed marked
]

execute-Stays_example :
    Post
      (λ _ s'. Stays toy state s' × IsMarked s'.world)
      (λ s'. toy.fds s'.world ≡ toy.fds world)
      (execute toy mark (pos 3) (pos 4 ∷ []) state)
execute-Stays_example =
    execute-Stays toy-IsLinux state IsMarked (λ fd w marked. marked) entered-IsMarked mark (pos 3)
      (pos 4 ∷ []) ((refl, refl, refl), ((refl, refl, refl), tt))
      λ s _. (
        record { thread = refl; locks = refl; fds = refl; refers = λ j h. refl; attached = refl },
        returns refl,
      )

execute_user_example :
    Post (λ _ _. ⊥) (λ s'. s' ≡ state) (execute toy (pure tt) (pos 3) (pos 5 ∷ []) state)
execute_user_example =
    execute_user toy-IsLinux state (pure tt) (pos 3) (pos 5 ∷ []) (pos 3 ∷ []) (pos 5) [] refl refl

-- The peer's descriptor 13 arrives as 3, and so on.
abbrev pub renumber : ℤ → ℤ
renumber (pos n) = pos (n - 10)
renumber (negsuc n) = negsuc n

abbrev pub rooms_sent : RoomsResponse
rooms_sent = record {
  cgroup = pos 0;
  ipc = pos 0;
  mnt = pos 0;
  net = pos 13;
  time = pos 0;
  uts = pos 14;
}

pub rooms-IsTyped : IsTyped toy state renumber rooms_sent
rooms-IsTyped = record {
  cgroup = λ h. absurd (cc);
  ipc = λ h. absurd (cc);
  mnt = λ h. absurd (cc);
  net = λ h. refl;
  time = λ h. absurd (cc);
  uts = λ h. refl;
}

decode_fds-encode_fds_example :
    Rooms.decode_fds toy
      (map renumber (Rooms.encode_fds rooms_sent).0)
      (Rooms.encode_fds rooms_sent).1
      state
    ≡ (ok (received renumber rooms_sent), state)
decode_fds-encode_fds_example = decode_fds-encode_fds toy state renumber rooms_sent rooms-IsTyped

abbrev subspaces_of : SubspaceResponse
subspaces_of = record {
  conn = pos 20;
  pid_fd = pos 21;
  subspaces = record { user = pos 15; pid = pos 0 };
}

decode_fds-encode_fds_subspace_example :
    Subspace.decode_fds toy
      (map renumber (Subspace.encode_fds subspaces_of).0)
      (Subspace.encode_fds subspaces_of).1
      state
    ≡ (
      ok (record {
        conn = pos 10;
        pid_fd = pos 11;
        subspaces = record { user = pos 5; pid = pos 0 };
      }),
      state,
    )
decode_fds-encode_fds_subspace_example =
    decode_fds-encode_fds_subspace toy state renumber subspaces_of refl refl (λ h. refl)
      (λ h. absurd (cc))

abbrev fdinfo : Bytes
fdinfo = fdinfo_of (codes "pos:\t0" ∷ []) 4711 (codes "NSpid:\t4711\n")

other_line : All OtherLine (codes "pos:\t0" ∷ [])
unfolding cut_prefix
other_line = (
  (
    (
      λ h. omega arith,
      (
        λ h. omega arith,
        (λ h. omega arith, (λ h. omega arith, (λ h. omega arith, (λ h. omega arith, tt)))),
      ),
    ),
    refl,
  ),
  tt,
)

pid_from_pid_fd-fdinfo_of_example :
    pid_from_pid_fd (λ p. ok (codes "anon_inode:[pidfd]")) (λ p. ok fdinfo) (pos 7) ≡ ok (pos 4711)
pid_from_pid_fd-fdinfo_of_example =
    pid_from_pid_fd-fdinfo_of (λ p. ok (codes "anon_inode:[pidfd]")) (λ p. ok fdinfo) (pos 7)
      (codes "pos:\t0" ∷ []) 4711 (codes "NSpid:\t4711\n") refl refl other_line (omega arith)

pub with_fd-without_fd : (fd : ℤ) (f : ℤ → Bool) → f fd ≡ true → f ≡ with_fd fd (without_fd fd f)
with_fd-without_fd fd f h = fun_ext λ j. ground (arith, ==ℤ_iff j fd)

new_unix_conn-Gains_example :
    Post
      (Gains toy (without_fd (pos 5) (toy.fds world)))
      (Has toy (without_fd (pos 5) (toy.fds world)))
      (new_unix_conn toy (pos 5) state)
new_unix_conn-Gains_example =
    new_unix_conn-Gains toy-IsLinux (pos 5) (without_fd (pos 5) (toy.fds world)) state refl refl
      (with_fd-without_fd (pos 5) (toy.fds world) refl)

new_pair-GainsPair_example :
    Post (GainsPair toy (toy.fds world)) (Has toy (toy.fds world)) (new_pair toy state)
new_pair-GainsPair_example = new_pair-GainsPair toy-IsLinux (toy.fds world) state refl

-- The output of children goes to a writer, and their errors to the service's own.
abbrev logged : Spacemaker
logged = record { exe = ""; stdout = some 1; stderr = none }

subspace-Answered_example :
    Post
      (Answered toy logged clone_newuser (toy.fds world))
      (Has toy (toy.fds world))
      (subspace toy logged clone_newuser state)
subspace-Answered_example =
    subspace-Answered toy-IsLinux logged clone_newuser (toy.fds world) refl state refl

-- A kernel at its limit of open files.
abbrev exhausted : State toy
exhausted = record state { world = record world { broken = 1 } }

exhausted_fails : (new_pair toy exhausted).0 ≡ err "too many open files"
unfolding new_pair socketpair ◌>>=◌
exhausted_fails = refl

subspace-new_pair_example : returned (subspace toy logged clone_newuser exhausted).0 ≡ false
subspace-new_pair_example =
    subspace-new_pair toy-IsLinux logged clone_newuser (toy.fds exhausted.world) refl exhausted refl
    ∙ ap returned exhausted_fails

leave_transient-enter_transient_example :
    Post
      (λ _. Stays toy state)
      (BackOrLocked toy (place_of toy state))
      ((enter_transient toy clone_newnet >>= λ fd.
          deferring (leave_transient toy clone_newnet fd) (pure tt))
        state)
leave_transient-enter_transient_example =
    leave_transient-enter_transient toy-IsLinux state clone_newnet refl (pure tt)
      (λ s ns _ _. idle_Stays s)

new_transient-IsCreated_example :
    Post
      (IsCreated toy state clone_newnet)
      (Unmade toy state)
      (new_transient toy clone_newnet state)
new_transient-IsCreated_example = new_transient-IsCreated toy-IsLinux state clone_newnet refl

current-Stands_example :
    Post
      (λ fd s'.
        (nonnegative fd ≡ true)
        × (toy.fds world fd ≡ false)
        × Stands toy
            (record (opened fd clone_newnet (place_of toy state)) { cleanups = fd ∷ [] })
            s')
      (Stands toy (place_of toy state))
      (current toy clone_newnet state)
current-Stands_example = current-Stands toy-IsLinux state clone_newnet refl

ino_of_path-Has_example :
    Post
      (λ ino s'. (toy.stat 1 (self_path clone_newuts) world ≡ ok ino) × Has toy (toy.fds world) s')
      (Has toy (toy.fds world))
      (ino_of_path toy (self_path clone_newuts) clone_newuts state)
ino_of_path-Has_example =
    ino_of_path-Has toy-IsLinux (toy.fds world) (self_path clone_newuts) clone_newuts state refl

-- A kernel on which all paths are those of the mount namespace of thread 1.
abbrev at_home : Kernel
at_home = record toy { stat = λ t p w. ok (toy.attached w 1 clone_newns) }

abbrev home : State at_home
home = record { world = world; thread = 1; locks = 0; cleanups = [] }

mount_sysfs_ro_original_example :
    Post (λ _ _. ⊥) (λ s'. toy.attached s'.world 1 clone_newns ≡ 1) (mount_sysfs_ro at_home home)
mount_sysfs_ro_original_example =
    mount_sysfs_ro_original at_home (λ w. toy.attached w 1 clone_newns ≡ 1) 1
      (λ t p w h. ap (λ a. a 1 clone_newns) (toy-IsLinux.open_attached t p w) ∙ h)
      (λ fd w h. ap (λ a. a 1 clone_newns) (toy-IsLinux.close_attached fd w) ∙ h) home
      (λ w h. ap ok h) (λ w h. ap ok h) refl

rooms_spaces-requested_example :
    let spaces : ℕ = rooms_spaces false true false true false false in
    ((bit_and spaces (complement valid_spaces) == 0) ≡ true)
    × ((bit_and spaces valid_spaces == 0) ≡ false)
    × ((bit_and spaces clone_newcgroup == 0) ≡ true)
    × ((bit_and spaces clone_newipc == 0) ≡ false)
    × ((bit_and spaces clone_newns == 0) ≡ true)
    × ((bit_and spaces clone_newnet == 0) ≡ false)
    × ((bit_and spaces clone_newtime == 0) ≡ true)
    × ((bit_and spaces clone_newuts == 0) ≡ true)
rooms_spaces-requested_example = rooms_spaces-requested false true false true false false

-- A service that answers every request with the same response.
rooms-open_ones_example :
    rooms toy (λ _. pure rooms_sent) false false false true false true state
    ≡ (ok rooms_sent, record state { cleanups = pos 13 ∷ pos 14 ∷ [] })
rooms-open_ones_example =
    rooms-open_ones toy (λ _. pure rooms_sent) false false false true false true state state
      rooms_sent refl
