-- ===== src/Tests/Links.antt =====
-- The theorems on connections at concrete inputs.
use spacetest.Base.{
  ℕ, ℤ, pos, Bool, true, false, [], ◌∷◌, none, ok, ◌≡◌, arith, refl, ap, ◌∙◌, ◌+◌, ◌≤◌, map,
  if◌then◌else◌,
}
use spacetest.Spacer.Gobmsg.{zeroes}
use spacetest.Kernel.{State}
use spacetest.Api.{Response, rooms_response, subspace_response}
use spacetest.Api.Rooms.{RoomsResponse, encode_fds}
use spacetest.Uds.Messages.{Messages, receive_with_fds}
use spacetest.Uds.Messages.Received.{receive_with_fds-take}
use spacetest.Spacer.Gobmsg.{Gob, new_encoder, new_decoder, encode}
use spacetest.Spacer.Gobmsg.RoundTrip.{nothing, next, decode_all, decode_all-encode}
use spacetest.Tests.Toy.{toy, toy-IsLinux}
use spacetest.Tests.Witnesses.{with_fd-without_fd, world, state, renumber, rooms_sent, references}
use spacetest.Spaces.{
  clone_newcgroup, clone_newipc, clone_newns, clone_newnet, clone_newtime, clone_newuts,
}
use spacetest.Api.Rooms.Transfer.{IsTyped, received}
use spacetest.Spacer.Gobmsg.RoundTrip.{new-IsReady}
use spacetest.Api.Fds.{borrow}
use spacetest.Base.{◌==◌}
use spacetest.Base.Post.{Post}
use spacetest.Spacer.Client.{rooms, rooms_spaces}
use spacetest.Spacer.Client.Exchange.{Client}
use spacetest.Spacer.Client.Exchange.Rooms.{asking, rooms-received, rooms-first_four}
use spacetest.Spaces.{clone_newuser}
use spacetest.Kernel.Calls.{get_nstype}
use spacetest.Kernel.Laws.{with_fd, without_fd}
use spacetest.Base.{expecting, expect, attempt, ◌>>=◌}
use spacetest.Base.Decimal.{codes}
use spacetest.Api.Subspace
use spacetest.Api.Subspace.{SubspaceResponse, decode_spaces}
use spacetest.Uds.Messages.{write, read, set_deadline, send_with_fds, find_rights}
use spacetest.Spacer.Gobmsg.{decode, fill_buffer}
use spacetest.Spacer.Client.{subspace_spaces}
use spacetest.Spacer.Client.Exchange.{do_subspace, do_request, take_fds, have_failed}
use spacetest.Spacer.Client.Subspace.{subspace}
use spacetest.Spacer.Client.Subspace.Leaks.{Settles, Abandons, subspace-Settles}
use spacetest.Tests.ToyLink.{
  link, opening, opening-IsUnix, opening-Delivers, before, after, response_cells, rooms_gob,
  request_gob, rooms_gob-IsGob, client, answering,
}

-- Room for 3 descriptors is room for 4.
receive_with_fds-take_example :
    (receive_with_fds
        (opening (1 ∷ 2 ∷ []) (pos 13 ∷ pos 14 ∷ pos 15 ∷ pos 16 ∷ pos 17 ∷ []))
        (pos 2)
        8192
        3
        (before 18 references)
      ≡ (
        ok (1 ∷ 2 ∷ [], pos 13 ∷ pos 14 ∷ pos 15 ∷ pos 16 ∷ []),
        after (pos 13 ∷ pos 14 ∷ pos 15 ∷ pos 16 ∷ []) (before 18 references),
      ))
    × (4 ≤ 3 + 1)
receive_with_fds-take_example =
    receive_with_fds-take
      (opening-IsUnix (1 ∷ 2 ∷ []) (pos 13 ∷ pos 14 ∷ pos 15 ∷ pos 16 ∷ pos 17 ∷ [])) (pos 2) 8192 3
      (1 ∷ 2 ∷ []) (pos 13 ∷ pos 14 ∷ pos 15 ∷ pos 16 ∷ pos 17 ∷ []) (before 18 references)
      (after (pos 13 ∷ pos 14 ∷ pos 15 ∷ pos 16 ∷ []) (before 18 references)).world
      (opening-Delivers (pos 2) (1 ∷ 2 ∷ []) (pos 13 ∷ pos 14 ∷ pos 15 ∷ pos 16 ∷ pos 17 ∷ []) 8192
        32 (before 18 references).world)

decode_all-encode_example :
    decode_all rooms_gob
      ((99 ∷ response_cells rooms_sent) ∷ response_cells rooms_sent ∷ [])
      (new_decoder rooms_gob)
    ≡ ok (rooms_response rooms_sent) ∷ ok (rooms_response rooms_sent) ∷ []
unfolding new_encoder encode
decode_all-encode_example =
    decode_all-encode rooms_gob-IsGob (next refl (next refl nothing))
      (omega arith, (omega arith, tt))

arrived-IsTyped : IsTyped toy (after (pos 3 ∷ pos 4 ∷ []) (before 6 references)) renumber rooms_sent
arrived-IsTyped = record {
  cgroup = λ h. absurd cc;
  ipc = λ h. absurd cc;
  mnt = λ h. absurd cc;
  net = λ h. refl;
  time = λ h. absurd cc;
  uts = λ h. refl;
}

rooms-received_example :
    rooms toy
      (asking (answering rooms_sent) client)
      false
      false
      false
      true
      false
      true
      (before 6 references)
    ≡ (
      ok (received renumber rooms_sent),
      record (after (pos 3 ∷ pos 4 ∷ []) (before 6 references)) { cleanups = pos 3 ∷ pos 4 ∷ [] },
    )
unfolding encode encode_fds borrow new_encoder rooms_spaces new_decoder zeroes
rooms-received_example =
    rooms-received
      (opening-IsUnix (99 ∷ response_cells rooms_sent) (map renumber (encode_fds rooms_sent).0))
      rooms_gob-IsGob client renumber rooms_sent (before 6 references)
      (1 ∷ rooms_spaces false false false true false true ∷ []) (99 ∷ response_cells rooms_sent)
      (record { buff = 1 ∷ rooms_spaces false false false true false true ∷ []; enc = tt })
      (new_encoder rooms_gob) (record { buff = 99 ∷ response_cells rooms_sent; enc = true }) 1
      (before 6 references).world (before 6 references).world
      (after (pos 3 ∷ pos 4 ∷ []) (before 6 references)).world refl refl
      (new-IsReady rooms_gob-IsGob) refl (omega arith)
      (opening-Delivers (pos 2) (99 ∷ response_cells rooms_sent)
        (map renumber (encode_fds rooms_sent).0) 8192 32 (before 6 references).world)
      arrived-IsTyped false false false true false true refl (omega arith)

-- Descriptors 3 to 8 reference a namespace of each type that a rooms response has.
abbrev six_references : ℕ → ℕ × ℕ
six_references n =
    if n == 3
    then (clone_newcgroup, 1)
    else if n == 4
    then (clone_newipc, 2)
    else if n == 5
    then (clone_newns, 3)
    else if n == 6
    then (clone_newnet, 4)
    else if n == 7
    then (clone_newtime, 5)
    else if n == 8
    then (clone_newuts, 6)
    else (0, 0)

abbrev six_state : State toy
six_state = before 9 six_references

-- The numbers 7 and 8 do not arrive.
abbrev four_state : State toy
four_state = after (pos 3 ∷ pos 4 ∷ pos 5 ∷ pos 6 ∷ []) six_state

abbrev six_sent : RoomsResponse
six_sent = record {
  cgroup = pos 13;
  ipc = pos 14;
  mnt = pos 15;
  net = pos 16;
  time = pos 17;
  uts = pos 18;
}

-- The numbers 17 and 18 are the service's.
rooms-first_four_example :
    (rooms toy (asking (answering six_sent) client) true true true true true true six_state ≡ (
      ok (record {
        cgroup = pos 3;
        ipc = pos 4;
        mnt = pos 5;
        net = pos 6;
        time = pos 17;
        uts = pos 18;
      }),
      record four_state { cleanups = pos 3 ∷ pos 4 ∷ pos 5 ∷ pos 6 ∷ pos 17 ∷ pos 18 ∷ [] },
    ))
    × (true ≡ true)
    × (true ≡ true)
unfolding encode encode_fds borrow new_encoder rooms_spaces new_decoder zeroes
rooms-first_four_example =
    rooms-first_four
      (opening-IsUnix (99 ∷ response_cells six_sent) (map renumber (encode_fds six_sent).0))
      rooms_gob-IsGob client renumber six_sent six_state
      (1 ∷ rooms_spaces true true true true true true ∷ []) (99 ∷ response_cells six_sent)
      (record { buff = 1 ∷ rooms_spaces true true true true true true ∷ []; enc = tt })
      (new_encoder rooms_gob) (record { buff = 99 ∷ response_cells six_sent; enc = true }) 1
      six_state.world six_state.world four_state.world refl refl (new-IsReady rooms_gob-IsGob) refl
      (omega arith)
      (opening-Delivers (pos 2) (99 ∷ response_cells six_sent)
        (map renumber (encode_fds six_sent).0) 8192 32 six_state.world)
      refl refl refl refl refl (refl, (refl, (refl, (refl, (refl, (refl, tt))))))

-- Answers that are all the same.
abbrev subspace_answered : SubspaceResponse
subspace_answered = record {
  conn = pos 3;
  pid_fd = pos 4;
  subspaces = record { user = pos 5; pid = pos 0 };
}

abbrev pub same_gob : Gob Response
same_gob = record {
  EncoderState = Unit {0};
  DecoderState = Unit {0};
  new_enc = tt;
  new_dec = tt;
  encode_value = λ resp _. (ok tt, 1 ∷ [], tt);
  decode_value = λ b _. (
    ok (
        subspace_response (record {
          conn = pos 0;
          pid_fd = pos 0;
          subspaces = record { user = pos 0; pid = pos 0 };
        })),
    [],
    tt,
  );
}

abbrev subspace_client : Client request_gob same_gob
subspace_client = record {
  conn = pos 2;
  enc = new_encoder request_gob;
  dec = record { buff = 0 ∷ 0 ∷ []; r = []; dec = tt };
  writers = record { stdout = none; stderr = none };
  pid = pos 0;
}

abbrev after_answer : Client request_gob same_gob
after_answer = record subspace_client {
  enc = record { buff = 2 ∷ clone_newuser ∷ []; enc = tt };
  dec = record { buff = 1 ∷ 0 ∷ []; r = []; dec = tt };
}

abbrev subspace_link : Messages toy
subspace_link = link (1 ∷ []) (pos 3 ∷ pos 4 ∷ pos 5 ∷ [])

asks_subspace :
    do_subspace toy subspace_link subspace_client (subspace_spaces true false) state
    ≡ (ok (after_answer, subspace_answered), state)
unfolding do_subspace do_request take_fds have_failed encode decode fill_buffer new_encoder
    subspace_spaces send_with_fds write read set_deadline receive_with_fds find_rights
    Subspace.decode_fds decode_spaces Subspace.stow get_nstype expecting expect attempt ◌>>=◌
asks_subspace = refl

abbrev others : ℤ → Bool
others = without_fd (pos 4) (without_fd (pos 3) (toy.fds world))

others_table : toy.fds world ≡ with_fd (pos 3) (with_fd (pos 4) others)
others_table =
    with_fd-without_fd (pos 3) (toy.fds world) refl
    ∙ ap (with_fd (pos 3)) (with_fd-without_fd (pos 4) (without_fd (pos 3) (toy.fds world)) refl)

subspace-Settles_example :
    Post
      (λ (_, newclient, spaces). Settles toy others [] subspace_answered newclient.conn spaces)
      (Abandons toy others [])
      (subspace toy
        (λ w path. ok (codes "anon_inode:[pidfd]"))
        (λ w path. ok (codes "Pid:\t77\n"))
        subspace_link
        subspace_client
        true
        false
        state)
subspace-Settles_example =
    subspace-Settles toy-IsLinux (λ w path. ok (codes "anon_inode:[pidfd]"))
      (λ w path. ok (codes "Pid:\t77\n")) subspace_link subspace_client after_answer true false
      subspace_answered others state state asks_subspace refl refl refl others_table
