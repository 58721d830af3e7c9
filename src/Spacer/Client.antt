-- ===== src/Spacer/Client.antt =====
-- What a client asks the service for (spacer/client.go). The exchange over the connection, `do`,
-- is an argument here: it takes the flags of a request and gives the response.
pub mod Binary
pub mod Exchange
pub mod Subspace
pub mod Asks
pub mod Registers
use spacetest.Base.{
  ℕ, ℤ, negsuc, Bool, true, false, ◌==◌, bit_or, pure, expect, ◌>>=◌, ◌>>◌, for_each, positive,
  when, [], ◌∷◌, if◌then◌else◌,
}
use spacetest.Spaces.{
  clone_newcgroup, clone_newipc, clone_newns, clone_newnet, clone_newtime, clone_newuts,
  clone_newuser, clone_newpid,
}
use spacetest.Kernel.{Kernel}
use spacetest.Kernel.Calls.{Act, close_at_end}
use spacetest.Api.Rooms.{RoomsResponse}

-- `ifrequested`
unfoldable pub if_requested : ℕ → Bool → ℕ → ℕ
if_requested n false flag = n
if_requested n true flag = bit_or n flag

-- the flags of the request of `Rooms`
unfoldable pub rooms_spaces : (cgroup ipc mnt net time uts : Bool) → ℕ
unfolding if_requested
rooms_spaces cgroup ipc mnt net time uts =
    let n₁ = if_requested 0 cgroup clone_newcgroup in
    let n₂ = if_requested n₁ ipc clone_newipc in
    let n₃ = if_requested n₂ mnt clone_newns in
    let n₄ = if_requested n₃ net clone_newnet in
    let n₅ = if_requested n₄ time clone_newtime in if_requested n₅ uts clone_newuts

-- the flags of the request of `Subspace`
unfoldable pub subspace_spaces : (user pid : Bool) → ℕ
unfolding if_requested
subspace_spaces user pid = if_requested (if_requested 0 user clone_newuser) pid clone_newpid

-- the function that `Rooms` and `Subspace` register closes the open ones
unfoldable pub close_open_at_end : (k : Kernel) → ℤ → Act k (Unit {0})
close_open_at_end k fd = when (positive fd) (close_at_end k fd)

-- `beInvalid`, which matches any type
unfoldable pub be_invalid : ℕ → Bool
be_invalid typ = true

module _ (k : Kernel) (do_rooms : ℕ → Act k RoomsResponse) where
  -- `Rooms`
  unfoldable pub rooms : (cgroup ipc mnt net time uts : Bool) → Act k RoomsResponse
  rooms cgroup ipc mnt net time uts = do
    resp ← do_rooms (rooms_spaces cgroup ipc mnt net time uts)
    for_each (resp.uts ∷ resp.time ∷ resp.net ∷ resp.mnt ∷ resp.ipc ∷ resp.cgroup ∷ [])
        (close_open_at_end k)
    pure resp

  -- `NewTransient`
  unfoldable pub new_transient : ℕ → Act k ℤ
  new_transient typ =
      if typ == clone_newcgroup
      then (rooms true false false false false false >>= λ r. pure r.cgroup)
      else if typ == clone_newipc
      then (rooms false true false false false false >>= λ r. pure r.ipc)
      else if typ == clone_newns
      then (rooms false false true false false false >>= λ r. pure r.mnt)
      else if typ == clone_newnet
      then (rooms false false false true false false >>= λ r. pure r.net)
      else if typ == clone_newtime
      then (rooms false false false false true false >>= λ r. pure r.time)
      else if typ == clone_newuts
      then (rooms false false false false false true >>= λ r. pure r.uts)
      else (expect (be_invalid typ) "invalid namespace type" >>= λ _. pure (negsuc 0))
