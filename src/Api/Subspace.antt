-- ===== src/Api/Subspace.antt =====
-- `SubspaceResponse` and its transfer (spacer/api/subspace.go)
pub mod Transfer
use spacetest.Base.{
  ℕ, ℤ, List, [], ◌∷◌, Option, none, some, ◌==◌, pure, raise, attempt, ◌>>=◌, ◌>>◌, if◌then◌else◌,
}
use spacetest.Spaces.{clone_newuser, clone_newpid}
use spacetest.Kernel.{Kernel}
use spacetest.Kernel.Calls.{Act, get_nstype, close}
use spacetest.Api.Fds.{borrow}
use spacetest.Api.Rooms.{type_or_zero}

-- `Subspaces`
pub record Subspaces : Type 0 where
  pub user : ℤ
  pub pid : ℤ

pub record SubspaceResponse : Type 0 where
  pub conn : ℤ
  pub pid_fd : ℤ
  pub subspaces : Subspaces
  pub open subspaces use *

-- `EncodeFds`
unfoldable pub encode_fds : SubspaceResponse → List ℤ × SubspaceResponse
encode_fds s =
    let (fds₁, conn) = borrow [] s.conn in
    let (fds₂, pid_fd) = borrow fds₁ s.pid_fd in
    let (fds₃, user) = borrow fds₂ s.user in
    let (fds₄, pid) = borrow fds₃ s.pid in
    (fds₄, record { conn = conn; pid_fd = pid_fd; subspaces = record { user = user; pid = pid } })

-- the `switch` of `DecodeFds`; `none` is its default
unfoldable pub stow : ℕ → ℤ → Subspaces → Option Subspaces
stow typ fd s =
    if typ == clone_newuser
    then some (record s { user = fd })
    else if typ == clone_newpid
    then some (record s { pid = fd })
    else none

module _ (k : Kernel) where
  -- the loop of `DecodeFds`
  unfoldable pub decode_spaces : List ℤ → Subspaces → Act k Subspaces
  decode_spaces [] s = pure s
  decode_spaces (fd ∷ fds) s = do
    typ ← attempt (get_nstype k fd)
    s' ← elim (stow (type_or_zero typ) fd s) [ some s' ↦ pure s' | none ↦ close k fd >> pure s ]
    decode_spaces fds s'

  -- `DecodeFds`; it panics unless there are two descriptors.
  unfoldable pub decode_fds : List ℤ → SubspaceResponse → Act k SubspaceResponse
  unfolding decode_spaces
  decode_fds [] s = raise "index out of range [0] with length 0"
  decode_fds (_ ∷ []) s = raise "index out of range [1] with length 1"
  decode_fds (conn ∷ pid_fd ∷ fds) s = do
    spaces ← decode_spaces fds s.subspaces
    pure (record { conn = conn; pid_fd = pid_fd; subspaces = spaces })
