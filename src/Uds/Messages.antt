-- ===== src/Uds/Messages.antt =====
-- `SendWithFds` and `ReceiveWithFds` (uds/uds.go), over net.UnixConn's WriteMsgUnix and ReadMsgUnix
-- and over golang.org/x/sys/unix's functions on control messages, which are an interface.
pub mod Received
use spacetest.Base.{
  ℕ, ◌*◌, ℤ, List, [], ◌∷◌, Outcome, ok, err, pure, raise, ◌>>=◌, ◌>>◌, ◌==◌, ◌||◌, not,
  if◌then◌else◌,
}
use spacetest.Base.Decimal.{Bytes}
use spacetest.Kernel.{Kernel}
use spacetest.Kernel.Calls.{Act}

-- unix.SocketControlMessage: level and type of its header, and its data
pub record ControlMessage : Type 0 where
  pub level : ℕ
  pub typ : ℕ
  pub payload : Bytes

abbrev pub sol_socket : ℕ
sol_socket = 0x1

abbrev pub scm_rights : ℕ
scm_rights = 0x1

pub record Messages (k : Kernel) : Type 0 where
  -- WriteMsgUnix: connection, data, control data; the count of control bytes written
  pub write_msg : ℤ → Bytes → Bytes → k.World → Outcome ℕ × k.World
  -- ReadMsgUnix: connection, room for data and for control data; what was read of both
  pub read_msg : ℤ → ℕ → ℕ → k.World → Outcome (Bytes × Bytes) × k.World
  pub set_read_deadline : ℤ → k.World → Outcome (Unit {0}) × k.World
  pub unix_rights : List ℤ → Bytes
  pub cmsg_space : ℕ → ℕ
  pub parse_control : Bytes → Outcome (List ControlMessage)
  pub parse_rights : ControlMessage → Outcome (List ℤ)

module _ {k : Kernel} (m : Messages k) where
  unfoldable pub write : ℤ → Bytes → Bytes → Act k ℕ
  write conn b oob s = let (r, w) = m.write_msg conn b oob s.world in (r, record s { world = w })

  unfoldable pub read : ℤ → ℕ → ℕ → Act k (Bytes × Bytes)
  read conn size room s =
      let (r, w) = m.read_msg conn size room s.world in (r, record s { world = w })

  unfoldable pub set_deadline : ℤ → Act k (Unit {0})
  set_deadline conn s = let (r, w) = m.set_read_deadline conn s.world in (r, record s { world = w })

  -- `SendWithFds`
  unfoldable pub send_with_fds : ℤ → Bytes → List ℤ → Act k ℕ
  send_with_fds conn b fds = write conn b (m.unix_rights fds)

  -- the loop over the control messages
  unfoldable pub find_rights : List ControlMessage → Outcome (List ℤ)
  find_rights [] = ok []
  find_rights (cm ∷ cms) =
      if not (cm.level == sol_socket) || not (cm.typ == scm_rights)
      then find_rights cms
      else m.parse_rights cm

  -- `ReceiveWithFds`: the data that was read, and the descriptors
  unfoldable pub receive_with_fds : ℤ → ℕ → ℕ → Act k (Bytes × List ℤ)
  receive_with_fds conn size maxfds = do
    (b, oob) ← read conn size (m.cmsg_space (maxfds * 4))
    elim (m.parse_control oob) [
      | err e ↦ raise e
      | ok cms ↦ elim (find_rights cms) [ err e ↦ raise e | ok fds ↦ pure (b, fds) ]
    ]
