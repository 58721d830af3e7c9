-- ===== src/Uds/Messages/Received.antt =====
-- What `ReceiveWithFds` makes of a message that was sent with descriptors.
use spacetest.Base.{
  ℕ, ◌+◌, ◌-◌, ◌*◌, ◌/◌, ◌%◌, ◌≤◌, ℤ, List, [], ◌∷◌, Outcome, ok, ◌≡◌, refl, ap, ◌∙◌, take, length,
  length-take, arith,
}
use spacetest.Base.Decimal.{Bytes}
use spacetest.Base.Post.{bind-ok}
use spacetest.Kernel.{Kernel, State}
use spacetest.Uds.Messages.{
  ControlMessage, sol_socket, scm_rights, Messages, read, find_rights, receive_with_fds,
}

-- unix(7), cmsg(3) and the documentation of golang.org/x/sys/unix, for 64-bit words: a control
-- message has a header of 16 bytes, each descriptor takes 4, and all is padded to 8.
pub record IsUnix {k : Kernel} (m : Messages k) : Type 0 where
  pub rights_message : List ℤ → ControlMessage
  pub parse_nothing : m.parse_control [] ≡ ok []
  pub parse_control_law :
      (fds : List ℤ) → m.parse_control (m.unix_rights fds) ≡ ok (rights_message fds ∷ [])
  pub level_law : (fds : List ℤ) → (rights_message fds).level ≡ sol_socket
  pub typ_law : (fds : List ℤ) → (rights_message fds).typ ≡ scm_rights
  pub parse_rights_law : (fds : List ℤ) → m.parse_rights (rights_message fds) ≡ ok fds
  pub cmsg_space_law : (n : ℕ) → m.cmsg_space n ≡ 16 + (n + 7) / 8 * 8

-- How many descriptors have room in so many bytes of control data.
abbrev pub fit : ℕ → ℕ
fit room = (room - 16) / 4

module _ {k : Kernel} (m : Messages k) where
  -- The control data that recvmsg(2) gives with descriptors: none without any.
  abbrev pub control : List ℤ → Bytes
  control [] = []
  control (fd ∷ fds) = m.unix_rights (fd ∷ fds)

  -- One read of the next message on a connection, with room for so many bytes of data and of control
  -- data: its data, and the numbers that its descriptors get here. What has no room is cut off, and
  -- the descriptors that are cut off are closed by the kernel.
  abbrev pub Delivers : ℤ → Bytes → List ℤ → ℕ → ℕ → k.World → k.World → Type 0
  Delivers conn b fds size room w w' =
      m.read_msg conn size room w ≡ (ok (take size b, control (take (fit room) fds)), w')

fit-cmsg_space : (n : ℕ) → fit (16 + (n * 4 + 7) / 8 * 8) ≡ n + n % 2
fit-cmsg_space n = omega arith

module _ {k : Kernel} {m : Messages k} (unix : IsUnix m) where
  find_rights-control :
      (fds : List ℤ)
      → (cms : List ControlMessage) × (m.parse_control (control m fds) ≡ ok cms)
        × (find_rights m cms ≡ ok fds)
  unfolding find_rights
  find_rights-control [] = ([], unix.parse_nothing, refl)
  find_rights-control (fd ∷ fds) = (
    unix.rights_message (fd ∷ fds) ∷ [],
    unix.parse_control_law (fd ∷ fds),
    simp (unix.level_law (fd ∷ fds), unix.typ_law (fd ∷ fds)) (unix.parse_rights_law (fd ∷ fds)),
  )

  read_lem :
      (conn : ℤ) (size room : ℕ) (s : State k) (r : Outcome (Bytes × Bytes)) (w' : k.World)
      → m.read_msg conn size room s.world ≡ (r, w')
      → read m conn size room s ≡ (r, record s { world = w' })
  unfolding read
  read_lem conn size room s r w' h = rw h refl

  receive_control :
      (conn : ℤ) (size maxfds : ℕ) (b : Bytes) (fds : List ℤ) (s : State k) (w' : k.World)
      → m.read_msg conn size (m.cmsg_space (maxfds * 4)) s.world ≡ (ok (b, control m fds), w')
      → receive_with_fds m conn size maxfds s ≡ (ok (b, fds), record s { world = w' })
  unfolding receive_with_fds
  receive_control conn size maxfds b fds s w' h =
      let (cms, parsed, found) = find_rights-control fds in
      bind-ok _ _ s _ _ (read_lem conn size _ s _ w' h) ∙ rw parsed (rw found refl)

  -- With the documented layout of control messages: when the next message on a connection has data
  -- and descriptors, `ReceiveWithFds` with room for a number of descriptors returns the data, as
  -- far as there is room for it, with as many of the descriptors as that number rounded up to an
  -- even one, in order, which is at most one more than it was asked for.
  pub receive_with_fds-take :
      (conn : ℤ) (size maxfds : ℕ) (b : Bytes) (fds : List ℤ) (s : State k) (w' : k.World)
      → Delivers m conn b fds size (m.cmsg_space (maxfds * 4)) s.world w'
      → (receive_with_fds m conn size maxfds s
          ≡ (ok (take size b, take (maxfds + maxfds % 2) fds), record s { world = w' }))
        × (length (take (maxfds + maxfds % 2) fds) ≤ maxfds + 1)
  receive_with_fds-take conn size maxfds b fds s w' delivers = (
    receive_control conn size maxfds (take size b) (take (maxfds + maxfds % 2) fds) s w'
        (delivers ∙ ap (λ n. (ok (take size b, control m (take n fds)), w')) room),
    omega (arith, length-take (maxfds + maxfds % 2) fds),
  )
    where
      room : fit (m.cmsg_space (maxfds * 4)) ≡ maxfds + maxfds % 2
      room = ap fit (unix.cmsg_space_law (maxfds * 4)) ∙ fit-cmsg_space maxfds
