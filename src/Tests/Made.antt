-- ===== src/Tests/Made.antt =====
-- A request of a client and the service's answer at a concrete input.
use spacetest.Base.{
  ℕ, ℤ, pos, negsuc, true, false, [], ◌∷◌, ◌==◌, ==ℤ_iff, ◌≡◌, refl, if◌then◌else◌, inl, inr, ok,
  arith, contains, ◌>>=◌, attempt, deferring, when, sym, subst, zero, suc, ◌⊎◌,
}
use spacetest.Spaces.{clone_newnet, clone_newuts, name}
use spacetest.Spacer.Gobmsg.{new_decoder, zeroes}
use spacetest.Kernel.{State}
use spacetest.Kernel.Calls.{close, set_ns, unshare, open_ro, lock_os_thread, go_routine}
use spacetest.Api.{rooms_response}
use spacetest.Api.Rooms.{RoomsResponse, encode_fds}
use spacetest.Api.Fds.{borrow}
use spacetest.Spacer.Gobmsg.{new_encoder, encode}
use spacetest.Spacer.Gobmsg.RoundTrip.{new-IsReady}
use spacetest.Spacer.Client.{rooms, rooms_spaces}
use spacetest.Spacer.Client.Exchange.Rooms.{asking}
use spacetest.Spacer.Client.Exchange.Made.{Passed, HasInput, IsGranted, rooms-room}
use spacetest.Spacer.Client.Registers.{registered}
use spacetest.Service.NewNamespace.{new_namespace, create, leave}
use spacetest.Service.Room.{room, unshare_rooms, unshare_room, record_result, answer}
use spacetest.Tests.Toy.{toy, toy-IsLinux, toy_open, type_of_path}
use spacetest.Tests.ToyLink.{
  opening, opening-IsUnix, opening-Delivers, before, after, rooms_gob, rooms_gob-IsGob, client,
  response_cells,
}
use spacetest.Tests.Witnesses.{world, state}

abbrev made : RoomsResponse
made = record { cgroup = pos 0; ipc = pos 0; mnt = pos 0; net = pos 7; time = pos 0; uts = pos 9 }

abbrev served_state : State toy
served_state = (room toy (rooms_spaces false false false true false true) state).1

served_made :
    room toy (rooms_spaces false false false true false true) state
    ≡ (ok (rooms_response made), served_state)
unfolding room unshare_rooms unshare_room record_result answer new_namespace create leave go_routine
    attempt deferring when ◌>>=◌ open_ro close set_ns unshare lock_os_thread toy_open type_of_path
    rooms_spaces name
served_made = refl

-- The caller's process, where the descriptors arrive as 3 and 4.
abbrev arriving : ℤ → ℤ
arriving (pos n) = if n == 7 then pos 3 else if n == 9 then pos 4 else pos n
arriving (negsuc n) = negsuc n

abbrev arrived_references : ℕ → ℕ × ℕ
arrived_references n =
    if n == 3 then (clone_newnet, 10) else if n == 4 then (clone_newuts, 11) else (0, 0)

abbrev caller_state : State toy
caller_state = record state {
  world = record (before 6 arrived_references).world { next_space = 12 };
}

abbrev answered_state : State toy
answered_state = after (pos 3 ∷ pos 4 ∷ []) caller_state

among-cases : (j : ℤ) → contains j (pos 7 ∷ pos 9 ∷ []) ≡ true → (j ≡ pos 7) ⊎ (j ≡ pos 9)
among-cases j h = ground (arith, ==ℤ_iff j (pos 7), ==ℤ_iff j (pos 9))

abbrev Arrives : ℤ → Type 0
Arrives j =
    (toy.fds answered_state.world (arriving j) ≡ true)
    × (toy.nstype (arriving j) answered_state.world ≡ ok (toy.refers served_state.world j).0)
    × (toy.refers answered_state.world (arriving j) ≡ toy.refers served_state.world j)

served-Passed : Passed toy toy arriving (encode_fds made).0 served_state.world answered_state.world
unfolding encode_fds borrow room unshare_rooms unshare_room record_result answer new_namespace
    create leave go_routine attempt deferring when ◌>>=◌ open_ro close set_ns unshare lock_os_thread
    toy_open type_of_path rooms_spaces name
served-Passed j h = elim (among-cases j h) [
  | inl e ↦ subst Arrives (sym e) (refl, refl, refl)
  | inr e ↦ subst Arrives (sym e) (refl, refl, refl)
]

served-HasInput : HasInput toy served_state.world
unfolding room unshare_rooms unshare_room record_result answer new_namespace create leave go_routine
    attempt deferring when ◌>>=◌ open_ro close set_ns unshare lock_os_thread toy_open type_of_path
    rooms_spaces name
served-HasInput (pos zero) h = refl
served-HasInput (pos (suc n)) h = absurd (ground arith)
served-HasInput (negsuc n) h = refl

rooms-room_example :
    (rooms toy
        (asking (opening (99 ∷ response_cells made) (pos 3 ∷ pos 4 ∷ [])) client)
        false
        false
        false
        true
        false
        true
        caller_state
      ≡ (
        ok (record made { net = pos 3; uts = pos 4 }),
        registered toy (pos 3 ∷ pos 4 ∷ []) answered_state,
      ))
    × IsGranted toy
        (toy.attached world)
        false
        false
        false
        true
        false
        true
        (record made { net = pos 3; uts = pos 4 })
        answered_state.world
unfolding encode encode_fds borrow new_encoder rooms_spaces new_decoder zeroes
rooms-room_example =
    rooms-room toy-IsLinux (opening-IsUnix (99 ∷ response_cells made) (pos 3 ∷ pos 4 ∷ []))
      rooms_gob-IsGob client arriving made caller_state state served_state
      (1 ∷ rooms_spaces false false false true false true ∷ []) (99 ∷ response_cells made)
      (record { buff = 1 ∷ rooms_spaces false false false true false true ∷ []; enc = tt })
      (new_encoder rooms_gob) (record { buff = 99 ∷ response_cells made; enc = true }) 1
      caller_state.world caller_state.world answered_state.world false false false true false true
      refl refl refl served_made (new-IsReady rooms_gob-IsGob) refl (omega arith) (omega arith)
      (opening-Delivers (pos 2) (99 ∷ response_cells made) (pos 3 ∷ pos 4 ∷ []) 8192 32
        caller_state.world)
      served-Passed served-HasInput
