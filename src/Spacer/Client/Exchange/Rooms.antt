-- ===== src/Spacer/Client/Exchange/Rooms.antt =====
-- `Rooms` over the connection: what the caller gets of the service's answer, and what is registered
-- to be closed.
use spacetest.Base.{
  ℕ, ◌≤◌, ℤ, Bool, [], ◌∷◌, true, ok, ◌≡◌, ap, ◌∙◌, pure, length, map, All, positive, contains,
  ◌>>=◌, arith, ==ℤ_iff,
}
use spacetest.Spaces.{clone_newcgroup, clone_newipc, clone_newns, clone_newnet}
use spacetest.Base.Decimal.{Bytes}
use spacetest.Base.Post.{bind-ok}
use spacetest.Kernel.{Kernel, State}
use spacetest.Kernel.Calls.{Act}
use spacetest.Api.{Request, rooms_request, Response, rooms_response}
use spacetest.Api.Rooms.{RoomsResponse, encode_fds}
use spacetest.Api.Rooms.Transfer.{IsTyped, received}
use spacetest.Api.Rooms.Arrives.{
  IsTypedFirst, IsTyped-First, first_four-IsTypedFirst, arrived, arrived-received, first_four,
  arrived-first_four,
}
use spacetest.Api.Fds.Laws.{contains-open_ones}
use spacetest.Uds.Messages.{Messages}
use spacetest.Uds.Messages.Received.{IsUnix, Delivers}
use spacetest.Spacer.Gobmsg.{Gob, Encoder, blocksize, encode}
use spacetest.Spacer.Gobmsg.RoundTrip.{IsGob, IsReady}
use spacetest.Spacer.Client.{rooms, rooms_spaces}
use spacetest.Spacer.Client.Registers.{registered, all_open, rooms-open_ones}
use spacetest.Spacer.Client.Exchange.{Client, do_rooms}
use spacetest.Spacer.Client.Exchange.Arrives.{do_rooms-arrived}

module _ {k : Kernel} (m : Messages k) {g_req : Gob Request} {g_resp : Gob Response}
    (c : Client g_req g_resp) where
  -- `do` as the argument of `rooms`: the client that it leaves is for the calls that come later.
  abbrev pub asking : ℕ → Act k RoomsResponse
  asking spaces = do_rooms k m c spaces >>= λ p. pure p.1

module _ {k : Kernel} {m : Messages k} {g_req : Gob Request} {g_resp : Gob Response}
    (unix : IsUnix m) (gob : IsGob g_resp) (c : Client g_req g_resp) (renumber : ℤ → ℤ)
    (r : RoomsResponse) (s : State k) (msg b : Bytes) (c_enc : Encoder g_req)
    (s_enc s_enc' : Encoder g_resp) (n : ℕ) (w₁ w₂ w₃ : k.World)
    (sent : m.write_msg c.conn msg (m.unix_rights []) s.world ≡ (ok n, w₁))
    (set : m.set_read_deadline c.conn w₁ ≡ (ok tt, w₂)) (ready : IsReady gob s_enc c.dec)
    (answered : encode g_resp (rooms_response r) s_enc ≡ (ok b, s_enc'))
    (fits : length b ≤ blocksize)
    (delivers : Delivers m c.conn b
      (map renumber (encode_fds r).0)
      (length c.dec.buff)
      (m.cmsg_space 12)
      w₂
      w₃) where
  rooms-arrived :
      IsTypedFirst k (record s { world = w₃ }) renumber 4 r
      → (cgroup ipc mnt net time uts : Bool)
      → encode g_req (rooms_request (rooms_spaces cgroup ipc mnt net time uts)) c.enc
        ≡ (ok msg, c_enc)
      → rooms k (asking m c) cgroup ipc mnt net time uts s ≡ (
        ok (arrived renumber 4 r),
        registered k (all_open (arrived renumber 4 r)) (record s { world = w₃ }),
      )
  rooms-arrived typed cgroup ipc mnt net time uts encoded =
      let s₃ : State k = record s { world = w₃ } in
      let (c', done, _) =
        do_rooms-arrived unix gob c (rooms_spaces cgroup ipc mnt net time uts) renumber r s msg b
          c_enc s_enc s_enc' n w₁ w₂ w₃ encoded sent set ready answered fits delivers typed in
      rooms-open_ones k (asking m c) cgroup ipc mnt net time uts s s₃ (arrived renumber 4 r)
        (bind-ok _ _ s s₃ (c', arrived renumber 4 r) done)

  -- Let the request be encoded and sent, let the deadline be set, let the service's answer be a rooms
  -- response that an encoder in step with the client's decoder encodes into at most 8192 bytes, and
  -- let it be the next message on the connection, with the descriptors of `EncodeFds` under the
  -- caller's numbers, each of a namespace of its field's type. With at most four descriptors,
  -- `Rooms` returns the response with each open field under the caller's number, and exactly these
  -- are registered to be closed when the test ends.
  pub rooms-received :
      IsTyped k (record s { world = w₃ }) renumber r
      → (cgroup ipc mnt net time uts : Bool)
      → encode g_req (rooms_request (rooms_spaces cgroup ipc mnt net time uts)) c.enc
        ≡ (ok msg, c_enc)
      → length (encode_fds r).0 ≤ 4
      → rooms k (asking m c) cgroup ipc mnt net time uts s ≡ (
        ok (received renumber r),
        registered k (all_open (received renumber r)) (record s { world = w₃ }),
      )
  rooms-received typed cgroup ipc mnt net time uts encoded few =
      rooms-arrived (IsTyped-First k _ renumber 4 r typed) cgroup ipc mnt net time uts encoded
      ∙ ap (λ a. (ok a, registered k (all_open a) (record s { world = w₃ })))
          (arrived-received renumber 4 r few)

  -- Let a request for all six types be encoded and sent, let the deadline be set, let the service's
  -- answer be a rooms response that an encoder in step with the client's decoder encodes into at
  -- most 8192 bytes, with all six fields open, and let it be the next message on the connection,
  -- with the descriptors of `EncodeFds` under the caller's numbers, the first four of which, for the
  -- cgroup, IPC, mount and network namespaces, arrive and reference namespaces of their fields'
  -- types. Then `Rooms` returns a response of which only the first four fields have the
  -- caller's numbers. The fields for the time and the UTS namespace have the service's numbers,
  -- and are registered to be closed in the caller's process.
  pub rooms-first_four :
      k.nstype (renumber r.cgroup) w₃ ≡ ok clone_newcgroup
      → k.nstype (renumber r.ipc) w₃ ≡ ok clone_newipc
      → k.nstype (renumber r.mnt) w₃ ≡ ok clone_newns
      → k.nstype (renumber r.net) w₃ ≡ ok clone_newnet
      → encode g_req (rooms_request (rooms_spaces true true true true true true)) c.enc
        ≡ (ok msg, c_enc)
      → All (λ fd. positive fd ≡ true) (r.cgroup ∷ r.ipc ∷ r.mnt ∷ r.net ∷ r.time ∷ r.uts ∷ [])
      → (rooms k (asking m c) true true true true true true s ≡ (
        ok (first_four renumber r),
        registered k (all_open (first_four renumber r)) (record s { world = w₃ }),
      ))
        × (contains r.time (all_open (first_four renumber r)) ≡ true)
        × (contains r.uts (all_open (first_four renumber r)) ≡ true)
  rooms-first_four is_cgroup is_ipc is_mnt is_net encoded
        (cgroup, (ipc, (mnt, (net, (time, (uts, _)))))) =
      (
        rooms-arrived
              (first_four-IsTypedFirst k (record s { world = w₃ }) renumber r
                (cgroup, (ipc, (mnt, (net, tt)))) is_cgroup is_ipc is_mnt is_net)
              true true true true true true encoded
            ∙ ap (λ a. (ok a, registered k (all_open a) (record s { world = w₃ })))
                (arrived-first_four renumber r (cgroup, (ipc, (mnt, (net, tt))))),
        rw (contains-open_ones _ r.time) (ground (arith, time, ==ℤ_iff r.time r.time)),
        rw (contains-open_ones _ r.uts) (ground (arith, uts, ==ℤ_iff r.uts r.uts)),
      )
