-- ===== src/Api/Rooms.antt =====
-- `RoomsResponse` and its transfer (spacer/api/rooms.go)
pub mod Transfer
pub mod Arrives
use spacetest.Base.{
  ℕ, ℤ, pos, List, [], ◌∷◌, Outcome, ok, err, Option, none, some, ◌==◌, pure, attempt, ◌>>=◌, ◌>>◌,
  if◌then◌else◌,
}
use spacetest.Spaces.{
  clone_newcgroup, clone_newipc, clone_newns, clone_newnet, clone_newtime, clone_newuts,
}
use spacetest.Kernel.{Kernel}
use spacetest.Kernel.Calls.{Act, get_nstype, close}
use spacetest.Api.Fds.{borrow}

pub record RoomsResponse : Type 0 where
  pub cgroup : ℤ
  pub ipc : ℤ
  pub mnt : ℤ
  pub net : ℤ
  pub time : ℤ
  pub uts : ℤ

-- `&RoomsResponse{}`
abbrev pub no_rooms : RoomsResponse
no_rooms = record {
  cgroup = pos 0;
  ipc = pos 0;
  mnt = pos 0;
  net = pos 0;
  time = pos 0;
  uts = pos 0;
}

-- `EncodeFds`: the descriptors, and the response that is left.
unfoldable pub encode_fds : RoomsResponse → List ℤ × RoomsResponse
encode_fds s =
    let (fds₁, cgroup) = borrow [] s.cgroup in
    let (fds₂, ipc) = borrow fds₁ s.ipc in
    let (fds₃, mnt) = borrow fds₂ s.mnt in
    let (fds₄, net) = borrow fds₃ s.net in
    let (fds₅, time) = borrow fds₄ s.time in
    let (fds₆, uts) = borrow fds₅ s.uts in
    (fds₆, record { cgroup = cgroup; ipc = ipc; mnt = mnt; net = net; time = time; uts = uts })

-- the type of namespace, 0 if the call failed
abbrev pub type_or_zero : Outcome ℕ → ℕ
type_or_zero (ok typ) = typ
type_or_zero (err e) = 0

-- the `switch` of `DecodeFds`; `none` is its default
unfoldable pub stow : ℕ → ℤ → RoomsResponse → Option RoomsResponse
stow typ fd s =
    if typ == clone_newcgroup
    then some (record s { cgroup = fd })
    else if typ == clone_newipc
    then some (record s { ipc = fd })
    else if typ == clone_newns
    then some (record s { mnt = fd })
    else if typ == clone_newnet
    then some (record s { net = fd })
    else if typ == clone_newtime
    then some (record s { time = fd })
    else if typ == clone_newuts
    then some (record s { uts = fd })
    else none

module _ (k : Kernel) where
  -- one round of `DecodeFds`
  unfoldable pub decode_fd : ℤ → RoomsResponse → Act k RoomsResponse
  decode_fd fd s = do
    typ ← attempt (get_nstype k fd)
    elim (stow (type_or_zero typ) fd s) [ some s' ↦ pure s' | none ↦ close k fd >> pure s ]

  -- `DecodeFds`
  unfoldable pub decode_fds : List ℤ → RoomsResponse → Act k RoomsResponse
  decode_fds [] s = pure s
  decode_fds (fd ∷ fds) s = do s' ← decode_fd fd s; decode_fds fds s'
